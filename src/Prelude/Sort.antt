-- ===== src/Prelude/Sort.antt =====
-- `ORDER BY` and `LIMIT n OFFSET k` of the queries. Rows that the order does not tell apart keep
-- their order.
use Prim.Native.Nat.{ℕ, zero, suc, ◌+◌, ◌≤◌}
use mathlib.Core.Path.{◌≡◌, refl}
use mathlib.Core.Logic.{◌↔◌, ◌⊎◌, inl, inr}
use mathlib.Core.Bool.{Bool, true, false}
use mathlib.Core.List.{List, [], ◌∷◌}
use native.Mathlib.Omega.{arith}
use smartclass.Prelude.Tests.{if◌then◌else◌, Bool-cases}
use smartclass.Prelude.Lists.{Has, length}

or_else : {A B C : Type 0} → (B → C) → A ⊎ B → A ⊎ C
or_else f (inl a) = inl a
or_else f (inr b) = inr (f b)

-- `before x y` says that `x` may stand before `y`.
module _ {A : Type 0} (before : A → A → Bool) where
  insert_with : A → List A → List A
  insert_with a [] = a ∷ []
  insert_with a (x ∷ xs) =
      let rest = insert_with a xs in if before a x then a ∷ x ∷ xs else x ∷ rest

  unfoldable pub sort_with : List A → List A
  unfolding insert_with
  sort_with [] = []
  sort_with (x ∷ xs) = insert_with x (sort_with xs)

  abbrev pub IsSortedWith : List A → Type 0
  IsSortedWith [] = Unit
  IsSortedWith (x ∷ []) = Unit
  IsSortedWith (x ∷ y ∷ ys) = (before x y ≡ true) × IsSortedWith (y ∷ ys)

  insert_with-IsSortedWith :
      ((x y : A) → before x y ≡ false → before y x ≡ true)
      → (a : A) (xs : List A) → IsSortedWith xs
      → IsSortedWith (insert_with a xs)
  unfolding insert_with
  insert_with-IsSortedWith total a [] s = tt
  insert_with-IsSortedWith total a (x ∷ []) s = ground (arith, total a x)
  insert_with-IsSortedWith total a (x ∷ y ∷ ys) s =
      ground (arith, total a x, insert_with-IsSortedWith total a (y ∷ ys) s.1)

  pub sort_with-IsSortedWith :
      ((x y : A) → before x y ≡ false → before y x ≡ true)
      → (xs : List A) → IsSortedWith (sort_with xs)
  unfolding sort_with
  sort_with-IsSortedWith total [] = tt
  sort_with-IsSortedWith total (x ∷ xs) =
      insert_with-IsSortedWith total x (sort_with xs) (sort_with-IsSortedWith total xs)

  Has-insert_with : (b a : A) (xs : List A) → Has b (insert_with a xs) ↔ ((b ≡ a) ⊎ Has b xs)
  unfolding insert_with
  Has-insert_with b a [] = (λ h. h, λ h. h)
  Has-insert_with b a (x ∷ xs) = elim (Bool-cases (before a x)) [
    | inl p ↦ rw p (λ h. h, λ h. h)
    | inr p ↦ rw p (to (Has-insert_with b a xs).0, from (Has-insert_with b a xs).1)
  ]
    where
      to :
          (Has b (insert_with a xs) → (b ≡ a) ⊎ Has b xs)
          → (b ≡ x) ⊎ Has b (insert_with a xs)
          → (b ≡ a) ⊎ ((b ≡ x) ⊎ Has b xs)
      to f (inl e) = inr (inl e)
      to f (inr m) = or_else inr (f m)

      from :
          ((b ≡ a) ⊎ Has b xs → Has b (insert_with a xs))
          → (b ≡ a) ⊎ ((b ≡ x) ⊎ Has b xs)
          → (b ≡ x) ⊎ Has b (insert_with a xs)
      from f (inl e) = inr (f (inl e))
      from f (inr (inl e)) = inl e
      from f (inr (inr k)) = inr (f (inr k))

  -- Sorting keeps the elements.
  pub Has-sort_with : (b : A) (xs : List A) → Has b (sort_with xs) ↔ Has b xs
  unfolding sort_with
  Has-sort_with b [] = (λ h. h, λ h. h)
  Has-sort_with b (x ∷ xs) =
      let there = Has-insert_with b x (sort_with xs) in
      let ih = Has-sort_with b xs in (λ h. or_else ih.0 (there.0 h), λ h. there.1 (or_else ih.1 h))

abbrev pub sum_of : {A : Type 0} → (A → ℕ) → List A → ℕ
sum_of f [] = 0
sum_of f (x ∷ xs) = f x + sum_of f xs

module _ {A : Type 0} (before : A → A → Bool) (f : A → ℕ) where
  sum_of-insert_with :
      (a : A) (xs : List A) → sum_of f (insert_with before a xs) ≡ f a + sum_of f xs
  unfolding insert_with
  sum_of-insert_with a [] = omega arith
  sum_of-insert_with a (x ∷ xs) = ground (arith, sum_of-insert_with a xs)

  -- Sorting keeps how often the elements stand in the list.
  pub sum_of-sort_with : (xs : List A) → sum_of f (sort_with before xs) ≡ sum_of f xs
  unfolding sort_with
  sum_of-sort_with [] = refl
  sum_of-sort_with (x ∷ xs) =
      omega (arith, sum_of-insert_with x (sort_with before xs), sum_of-sort_with xs)

module _ {A : Type 0} where
  abbrev pub take : ℕ → List A → List A
  take zero xs = []
  take (suc n) [] = []
  take (suc n) (x ∷ xs) = x ∷ take n xs

  abbrev pub drop : ℕ → List A → List A
  drop zero xs = xs
  drop (suc n) [] = []
  drop (suc n) (x ∷ xs) = drop n xs

  -- LIMIT n OFFSET k
  abbrev pub page : ℕ → ℕ → List A → List A
  page n k xs = take n (drop k xs)

  pub length-take : (n : ℕ) (xs : List A) → length (take n xs) ≤ n
  length-take zero xs = omega arith
  length-take (suc n) [] = omega arith
  length-take (suc n) (x ∷ xs) = omega (arith, length-take n xs)

  Has-take : (a : A) (n : ℕ) (xs : List A) → Has a (take n xs) → Has a xs
  Has-take a zero xs h = elim h [ ]
  Has-take a (suc n) [] h = elim h [ ]
  Has-take a (suc n) (x ∷ xs) (inl e) = inl e
  Has-take a (suc n) (x ∷ xs) (inr m) = inr (Has-take a n xs m)

  Has-drop : (a : A) (n : ℕ) (xs : List A) → Has a (drop n xs) → Has a xs
  Has-drop a zero xs h = h
  Has-drop a (suc n) [] h = elim h [ ]
  Has-drop a (suc n) (x ∷ xs) m = inr (Has-drop a n xs m)

  pub Has-page : (a : A) (n k : ℕ) (xs : List A) → Has a (page n k xs) → Has a xs
  Has-page a n k xs h = Has-drop a k xs (Has-take a n (drop k xs) h)
