-- ===== src/Analytics/Groups.antt =====
-- GROUP BY: the rows of a query by a key, each row in the group of its key.
use smartclass.Prelude.{
  ℕ, ◌+◌, ◌<◌, Bool, true, false, ◌||◌, List, [], ◌∷◌, ◌≡◌, inl, inr, refl, sym, subst, ap, ◌∙◌,
  ◌==◌, nat_eq, if◌then◌else◌, keep, Has, length, arith, Bool-cases,
}
use smartclass.Prelude.Sort.{sum_of}

module _ {A : Type 0} where
  unfoldable pub add_to : ℕ → A → List (ℕ × List A) → List (ℕ × List A)
  add_to k a [] = (k, a ∷ []) ∷ []
  add_to k a ((j, l) ∷ gs) =
      let rest = add_to k a gs in if j == k then (j, a ∷ l) ∷ gs else (j, l) ∷ rest

  unfoldable pub groups : (A → ℕ) → List A → List (ℕ × List A)
  unfolding add_to
  groups key [] = []
  groups key (a ∷ as') = add_to (key a) a (groups key as')

  abbrev key_in : ℕ → List (ℕ × List A) → Bool
  key_in k [] = false
  key_in k ((j, l) ∷ gs) = j == k || key_in k gs

  abbrev members : ℕ → List (ℕ × List A) → List A
  members k [] = []
  members k ((j, l) ∷ gs) = if j == k then l else members k gs

  -- No key stands twice, and no group is empty.
  abbrev IsGrouped : List (ℕ × List A) → Type 0
  IsGrouped [] = Unit
  IsGrouped ((j, l) ∷ gs) = (key_in j gs ≡ false) × (0 < length l) × IsGrouped gs

  key_in-add_to :
      (k j : ℕ) (a : A) (gs : List (ℕ × List A))
      → key_in k (add_to j a gs) ≡ (j == k || key_in k gs)
  unfolding add_to
  key_in-add_to k j a [] = ground arith
  key_in-add_to k j a ((i, l) ∷ gs) = ground (arith, key_in-add_to k j a gs)

  members-add_to :
      (k j : ℕ) (a : A) (gs : List (ℕ × List A))
      → members k (add_to j a gs) ≡ (if j == k then a ∷ members k gs else members k gs)
  unfolding add_to
  members-add_to k j a [] = ground arith
  members-add_to k j a ((i, l) ∷ gs) = ground (arith, members-add_to k j a gs)

  add_to-IsGrouped :
      (j : ℕ) (a : A) (gs : List (ℕ × List A)) → IsGrouped gs → IsGrouped (add_to j a gs)
  unfolding add_to
  add_to-IsGrouped j a [] g = ground arith
  add_to-IsGrouped j a ((i, l) ∷ gs) (fresh, filled, g) = elim (Bool-cases (i == j)) [
    | inl same ↦ rw same (fresh, ground arith, g)
    | inr other ↦
        rw other
          (ground (arith, key_in-add_to i j a gs, other, fresh), filled, add_to-IsGrouped j a gs g)
  ]

  groups-IsGrouped : (key : A → ℕ) (xs : List A) → IsGrouped (groups key xs)
  unfolding groups
  groups-IsGrouped key [] = tt
  groups-IsGrouped key (x ∷ xs) =
      add_to-IsGrouped (key x) x (groups key xs) (groups-IsGrouped key xs)

  members-groups :
      (key : A → ℕ) (k : ℕ) (xs : List A) → members k (groups key xs) ≡ keep (λ a. key a == k) xs
  unfolding groups
  members-groups key k [] = refl
  members-groups key k (x ∷ xs) =
      ground (arith, members-add_to k (key x) x (groups key xs), members-groups key k xs)

  Has-key_in : (k : ℕ) (l : List A) (gs : List (ℕ × List A)) → Has (k, l) gs → key_in k gs ≡ true
  Has-key_in k l [] h = elim h [ ]
  Has-key_in k l ((j, m) ∷ gs) (inl p) = let same = ap (λ (g : ℕ × List A). g.0) p in ground arith
  Has-key_in k l ((j, m) ∷ gs) (inr h) = ground (arith, Has-key_in k l gs h)

  Has-members :
      (k : ℕ) (l : List A) (gs : List (ℕ × List A))
      → IsGrouped gs
      → Has (k, l) gs
      → (l ≡ members k gs) × (0 < length l)
  Has-members k l [] g h = elim h [ ]
  Has-members k l ((j, m) ∷ gs) (fresh, filled, g) (inl p) =
      let key = ap (λ (x : ℕ × List A). x.0) p in
      let rest = ap (λ (x : ℕ × List A). x.1) p in (ground arith, ground arith)
  Has-members k l ((j, m) ∷ gs) (fresh, filled, g) (inr h) =
      let (same, more) = Has-members k l gs g h in
      let there = Has-key_in k l gs h in (ground arith, more)

  members-Has : (k : ℕ) (gs : List (ℕ × List A)) → key_in k gs ≡ true → Has (k, members k gs) gs
  members-Has k [] h = absurd (cc h)
  members-Has k ((j, l) ∷ gs) h = elim (Bool-cases (j == k)) [
    | inl same ↦ let e : j ≡ k = ground arith in rw same (inl (ap (λ i. (i, l)) (sym e)))
    | inr other ↦
        let skipped : members k ((j, l) ∷ gs) ≡ members k gs = ground (arith, other) in
        inr (subst (λ m. Has (k, m) gs) (sym skipped) (members-Has k gs (ground (arith, other, h))))
  ]

  -- A group is what the rows with its key are, and it is not empty.
  pub Has-groups :
      (key : A → ℕ) (xs : List A) (k : ℕ) (l : List A)
      → Has (k, l) (groups key xs)
      → (l ≡ keep (λ a. key a == k) xs) × (0 < length l)
  Has-groups key xs k l h =
      let (same, filled) = Has-members k l (groups key xs) (groups-IsGrouped key xs) h in
      (same ∙ members-groups key k xs, filled)

  key_in-groups :
      (key : A → ℕ) (a : A) (xs : List A) → Has a xs → key_in (key a) (groups key xs) ≡ true
  unfolding groups
  key_in-groups key a [] h = elim h [ ]
  key_in-groups key a (x ∷ xs) (inl p) =
      ground (arith, key_in-add_to (key a) (key x) x (groups key xs), ap key p)
  key_in-groups key a (x ∷ xs) (inr h) =
      ground (arith, key_in-add_to (key a) (key x) x (groups key xs), key_in-groups key a xs h)

  -- Every row is in a group.
  pub groups-Has :
      (key : A → ℕ) (xs : List A) (a : A)
      → Has a xs
      → Has (key a, keep (λ b. key b == key a) xs) (groups key xs)
  groups-Has key xs a h =
      subst (λ l. Has (key a, l) (groups key xs)) (members-groups key (key a) xs)
        (members-Has (key a) (groups key xs) (key_in-groups key a xs h))

  add_to_size :
      (j : ℕ) (a : A) (gs : List (ℕ × List A))
      → sum_of (λ (g : ℕ × List A). length g.1) (add_to j a gs)
        ≡ sum_of (λ (g : ℕ × List A). length g.1) gs + 1
  unfolding add_to
  add_to_size j a [] = omega arith
  add_to_size j a ((i, l) ∷ gs) = ground (arith, add_to_size j a gs)

  -- The groups have as many rows together as there are.
  pub groups_size :
      (key : A → ℕ) (xs : List A)
      → sum_of (λ (g : ℕ × List A). length g.1) (groups key xs) ≡ length xs
  unfolding groups
  groups_size key [] = refl
  groups_size key (x ∷ xs) =
      omega (arith, add_to_size (key x) x (groups key xs), groups_size key xs)
