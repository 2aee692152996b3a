-- ===== src/Analytics/Report.antt =====
-- What a query with WHERE, GROUP BY and ORDER BY answers, as a report on the rows of a table.
use smartclass.Prelude.{
  ℕ, ◌<◌, Bool, true, ◌&&◌, List, [], ◌∷◌, ◌≡◌, ◌↔◌, ◌⊎◌, inl, inr, refl, subst, ap, ◌∙◌, ◌==◌,
  nat_eq, keep, Has, Has-keep, length, arith, Bool-cases,
}
use smartclass.Prelude.Sort.{IsSortedWith, sum_of}
use smartclass.Analytics.Summary.{IsSummary}

module _ {A : Type 0} where
  -- The second list is of the elements of the first that have `P`, all of them and in order.
  abbrev pub Picked : (A → Type 0) → List A → List A → Type 0
  Picked P [] [] = Unit
  Picked P [] (b ∷ bs) = ⊥
  Picked P (a ∷ as') bs =
      (P a × (rest : List A) × (bs ≡ a ∷ rest) × Picked P as' rest) ⊎ ((¬ P a) × Picked P as' bs)

  keep-Picked :
      (P : A → Type 0) (p : A → Bool)
      → ((a : A) → (p a ≡ true) ↔ P a)
      → (xs : List A) → Picked P xs (keep p xs)
  keep-Picked P p same [] = tt
  keep-Picked P p same (x ∷ xs) = elim (Bool-cases (p x)) [
    | inl has ↦ rw has (inl ((same x).0 has, keep p xs, refl, keep-Picked P p same xs))
    | inr lacks ↦ rw lacks (inr (λ h. cc ((same x).1 h, lacks), keep-Picked P p same xs))
  ]

  keep-keep : (p q : A → Bool) (xs : List A) → keep q (keep p xs) ≡ keep (λ a. p a && q a) xs
  keep-keep p q [] = refl
  keep-keep p q (x ∷ xs) = ground (arith, keep-keep p q xs)

module _ {A B : Type 0} (P : ℕ → A → Type 0) (f : ℕ × List A → B) (before : B → B → Bool)
    (size : B → ℕ) where
  -- Each entry of the list shows a key with all the rows that have it, at least one; every key that a
  -- row has is shown; the entries stand in order; and their sizes add up to the rows that have a key,
  -- so that no key is shown twice.
  abbrev pub IsReport : List A → List B → Type 0
  IsReport rows list =
      ((b : B)
        → Has b list
        → (k : ℕ) × (own : List A) × Picked (P k) rows own × (0 < length own) × (b ≡ f (k, own)))
      × ((k : ℕ) (a : A) → Has a rows → P k a → (own : List A) × Has (f (k, own)) list)
      × IsSortedWith before list
      × ((all : List A) × Picked (λ a. (k : ℕ) × P k a) rows all × (sum_of size list ≡ length all))

  pub summary-IsReport :
      (key : A → ℕ) (p : A → Bool)
      → ((a : A) (k : ℕ) → (p a && key a == k ≡ true) ↔ P k a)
      → (rows : List A) (list : List B) → IsSummary key f before size (keep p rows) list
      → IsReport rows list
  unfolding IsSummary
  summary-IsReport key p same rows list (shown, complete, sorted, total) =
      let any : (a : A) → (p a ≡ true) ↔ ((k : ℕ) × P k a) = λ a. (
        λ h. (key a, (same a (key a)).0 (ground (arith, h))),
        λ (k, h). let both = (same a k).1 h in ground (arith, both),
      ) in
      (
        λ b h.
            let (k, is, filled) = shown b h in
            let own = keep (λ a. p a && key a == k) rows in
            let fused = keep-keep p (λ a. key a == k) rows in
            (
              k,
              own,
              keep-Picked (P k) (λ a. p a && key a == k) (λ a. same a k) rows,
              subst (λ l. 0 < length l) fused filled,
              is ∙ ap (λ l. f (k, l)) fused,
            ),
        λ k a h own.
            let both = (same a k).1 own in
            let here : key a ≡ k = ground (arith, both) in
            let there = complete a ((Has-keep p a rows).1 (h, ground (arith, both))) in
            (
              keep (λ b. key b == k) (keep p rows),
              subst (λ k. Has (f (k, keep (λ b. key b == k) (keep p rows))) list) here there,
            ),
        sorted,
        (keep p rows, keep-Picked (λ a. (k : ℕ) × P k a) p any rows, total),
      )
