-- ===== src/Analytics/Summary.antt =====
-- What a query with GROUP BY and ORDER BY shows of its rows.
use smartclass.Prelude.{
  ℕ, ◌<◌, Bool, true, false, List, [], ◌∷◌, ◌≡◌, inl, inr, refl, ap, ◌∙◌, ◌==◌, nat_eq, keep, map,
  Has, length, arith,
}
use smartclass.Prelude.Sort.{
  sort_with, Has-sort_with, IsSortedWith, sort_with-IsSortedWith, sum_of, sum_of-sort_with,
}
use smartclass.Analytics.Groups.{groups, Has-groups, groups-Has, groups_size}

-- An element of a mapped list is the image of one.
Has-map :
    {A B : Type 0} (f : A → B) (b : B) (xs : List A)
    → Has b (map f xs)
    → (a : A) × Has a xs × (b ≡ f a)
Has-map f b [] h = elim h [ ]
Has-map f b (x ∷ xs) (inl p) = (x, inl refl, p)
Has-map f b (x ∷ xs) (inr h) = let (a, m, p) = Has-map f b xs h in (a, inr m, p)

map-Has : {A B : Type 0} (f : A → B) (a : A) (xs : List A) → Has a xs → Has (f a) (map f xs)
map-Has f a [] h = elim h [ ]
map-Has f a (x ∷ xs) (inl p) = inl (ap f p)
map-Has f a (x ∷ xs) (inr h) = inr (map-Has f a xs h)

-- Rows of type `A` with a key, shown as `f` of the key and of the rows that have it
module _ {A B : Type 0} (key : A → ℕ) (f : ℕ × List A → B) (before : B → B → Bool)
    (size : B → ℕ) where
  abbrev pub group : List A → ℕ → List A
  group rows k = keep (λ a. key a == k) rows

  -- What is shown are exactly the keys of the rows, each with all the rows that have it, in order; and
  -- the groups have as many rows together as there are, so none is shown twice.
  unfoldable pub IsSummary : List A → List B → Type 0
  IsSummary rows list =
      ((b : B) → Has b list → (k : ℕ) × (b ≡ f (k, group rows k)) × (0 < length (group rows k)))
      × ((a : A) → Has a rows → Has (f (key a, group rows (key a))) list)
      × IsSortedWith before list
      × (sum_of size list ≡ length rows)

  sum_of-map :
      ((k : ℕ) (rows : List A) → size (f (k, rows)) ≡ length rows)
      → (gs : List (ℕ × List A))
      → sum_of size (map f gs) ≡ sum_of (λ (g : ℕ × List A). length g.1) gs
  sum_of-map sized [] = refl
  sum_of-map sized (g ∷ gs) = omega (arith, sum_of-map sized gs, sized g.0 g.1)

  pub sorted-IsSummary :
      ((a b : B) → before a b ≡ false → before b a ≡ true)
      → ((k : ℕ) (rows : List A) → size (f (k, rows)) ≡ length rows)
      → (rows : List A) → IsSummary rows (sort_with before (map f (groups key rows)))
  unfolding IsSummary
  sorted-IsSummary total sized rows =
      let gs = groups key rows in
      let shown = map f gs in
      (
        λ b h.
            let (g, m, p) = Has-map f b gs ((Has-sort_with before b shown).0 h) in
            let (same, filled) = Has-groups key rows g.0 g.1 m in
            (g.0, p ∙ ap (λ (l : List A). f (g.0, l)) same, omega (arith, ap length same, filled)),
        λ a h. (Has-sort_with before _ shown).1 (map-Has f _ gs (groups-Has key rows a h)),
        sort_with-IsSortedWith before total shown,
        sum_of-sort_with before size shown ∙ sum_of-map sized gs ∙ groups_size key rows,
      )
