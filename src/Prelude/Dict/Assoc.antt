-- ===== src/Prelude/Dict/Assoc.antt =====
-- Association lists, the representation of `Dict`.
use mathlib.Core.Path.{◌≡◌, refl, ◌∙◌, ap}
use mathlib.Core.Logic.{inl, inr}
use mathlib.Core.Bool.{Bool, true, false, ◌||◌}
use mathlib.Core.Option
use mathlib.Core.Option.{Option, none, some}
use mathlib.Core.List.{List, [], ◌∷◌}
use native.Mathlib.Omega.{arith}
use smartclass.Prelude.Tests.{if◌then◌else◌, Bool-cases}
use smartclass.Prelude.Lists.{Has}
use smartclass.Prelude.Equality.{Eq, ◌==◌}

module _ {K V : Type 0} ⦃e : Eq K⦄ where
  unfoldable pub lookup : K → List (K × V) → Option V
  lookup key [] = none
  lookup key ((i, v) ∷ rest) = if i == key then some v else lookup key rest

  unfoldable pub map_entries : (K → V → V) → List (K × V) → List (K × V)
  map_entries f [] = []
  map_entries f ((j, v) ∷ l) = (j, f j v) ∷ map_entries f l

  unfoldable pub drop_where : (K → V → Bool) → List (K × V) → List (K × V)
  drop_where p [] = []
  drop_where p ((j, v) ∷ l) = let rest = drop_where p l in if p j v then rest else (j, v) ∷ rest

  unfoldable pub any_entry : (K → V → Bool) → List (K × V) → Bool
  any_entry p [] = false
  any_entry p ((j, v) ∷ l) = p j v || any_entry p l

  unfoldable pub without : K → List (K × V) → List (K × V)
  without key [] = []
  without key ((i, v) ∷ rest) =
      let kept = without key rest in if i == key then kept else (i, v) ∷ kept

  -- No key stands twice.
  unfoldable pub Unique : List (K × V) → Type 0
  Unique [] = Unit
  Unique ((k, v) ∷ l) = (lookup k l ≡ none) × Unique l

  pub lookup-without :
      (gone key : K) (rows : List (K × V))
      → lookup key (without gone rows) ≡ (if gone == key then none else lookup key rows)
  unfolding without lookup
  lookup-without gone key [] = ground arith
  lookup-without gone key ((i, v) ∷ rest) =
      ground
        (arith, e.beq_iff gone key, e.beq_iff i gone, e.beq_iff i key, lookup-without gone key rest)

  pub Unique-without : (k : K) (l : List (K × V)) → Unique l → Unique (without k l)
  unfolding without Unique
  Unique-without k [] u = tt
  Unique-without k ((i, v) ∷ l) u = elim (Bool-cases (i == k)) [
    | inl p ↦ rw p (Unique-without k l u.1)
    | inr p ↦ rw p (ground (arith, lookup-without k i l, u.0), Unique-without k l u.1)
  ]

  pub lookup-map_entries :
      (f : K → V → V) (j : K) (l : List (K × V))
      → lookup j (map_entries f l) ≡ Option.map (f j) (lookup j l)
  unfolding lookup map_entries
  lookup-map_entries f j [] = refl
  lookup-map_entries f j ((i, v) ∷ l) = elim (Bool-cases (i == j)) [
    | inl p ↦ rw (p, (e.beq_iff i j).0 p) refl
    | inr p ↦ rw p (lookup-map_entries f j l)
  ]

  pub Unique-map_entries : (f : K → V → V) (l : List (K × V)) → Unique l → Unique (map_entries f l)
  unfolding map_entries Unique
  Unique-map_entries f [] u = tt
  Unique-map_entries f ((i, v) ∷ l) u =
      (lookup-map_entries f i l ∙ ap (Option.map (f i)) u.0, Unique-map_entries f l u.1)

  -- What is left of an entry when those that pass `p` are dropped.
  abbrev pub survives : (K → V → Bool) → K → Option V → Option V
  survives p k none = none
  survives p k (some v) = if p k v then none else some v

  pub lookup-drop_where :
      (p : K → V → Bool) (j : K) (l : List (K × V))
      → Unique l
      → lookup j (drop_where p l) ≡ survives p j (lookup j l)
  unfolding lookup drop_where Unique
  lookup-drop_where p j [] u = refl
  lookup-drop_where p j ((i, v) ∷ l) u =
      ground (arith, e.beq_iff i j, lookup-drop_where p j l u.1, u.0)

  pub Unique-drop_where : (p : K → V → Bool) (l : List (K × V)) → Unique l → Unique (drop_where p l)
  unfolding drop_where Unique
  Unique-drop_where p [] u = tt
  Unique-drop_where p ((i, v) ∷ l) u = elim (Bool-cases (p i v)) [
    | inl r ↦ rw r (Unique-drop_where p l u.1)
    | inr r ↦ rw r (lookup-drop_where p i l u.1 ∙ ap (survives p i) u.0, Unique-drop_where p l u.1)
  ]

  pub any_entry-lookup :
      (p : K → V → Bool) (l : List (K × V)) (k : K) (v : V)
      → any_entry p l ≡ false
      → lookup k l ≡ some v
      → p k v ≡ false
  unfolding any_entry lookup
  any_entry-lookup p [] k v h m = cc
  any_entry-lookup p ((i, w) ∷ l) k v h m = ground (arith, e.beq_iff i k, any_entry-lookup p l k v)

  pub any_entry_witness :
      (p : K → V → Bool) (l : List (K × V))
      → Unique l
      → any_entry p l ≡ true
      → (k : K) × (v : V) × (lookup k l ≡ some v) × (p k v ≡ true)
  unfolding any_entry lookup Unique
  any_entry_witness p [] u h = absurd (ground arith)
  any_entry_witness p ((i, w) ∷ l) u h = elim (Bool-cases (p i w)) [
    | inl r ↦ (i, w, rw ((e.beq_iff i i).1 refl), r)
    | inr r ↦
        let (k, v, m, q) = any_entry_witness p l u.1 (ground arith) in
        (k, v, ground (arith, e.beq_iff i k, u.0), q)
  ]

  pub Has-lookup :
      (l : List (K × V)) (k : K) (v : V) → Unique l → Has (k, v) l → lookup k l ≡ some v
  unfolding lookup Unique
  Has-lookup [] k v u m = elim m [ ]
  Has-lookup ((i, w) ∷ l) k v u (inl p) =
      ground (arith, e.beq_iff i k, ap (λ (x : K × V). x.0) p, ap (λ (x : K × V). x.1) p)
  Has-lookup ((i, w) ∷ l) k v u (inr m) = ground (arith, e.beq_iff i k, Has-lookup l k v u.1 m, u.0)

  pub lookup-Has : (l : List (K × V)) (k : K) (v : V) → lookup k l ≡ some v → Has (k, v) l
  unfolding lookup
  lookup-Has [] k v h = absurd (cc)
  lookup-Has ((i, w) ∷ l) k v h = elim (Bool-cases (i == k)) [
    | inl p ↦ inl (ground (arith, e.beq_iff i k))
    | inr p ↦ inr (lookup-Has l k v (ground arith))
  ]
