-- ===== src/Prelude/Lists.antt =====
-- Lists measured and indexed by native numbers, and predicates on them.
use Prim.Native.Nat.{ℕ, suc, ◌+◌}
use mathlib.Core.Path.{◌≡◌, ap}
use mathlib.Core.Bool.{Bool, true}
use mathlib.Core.Logic.{◌↔◌, ◌⊎◌, inl, inr}
use mathlib.Core.List.{List, [], ◌∷◌, ◌++◌}
use native.Mathlib.Omega.{arith}
use smartclass.Prelude.Tests.{if◌then◌else◌, Bool-cases}

module _ {ℓ} {A : Type ℓ} where
  abbrev pub length : List A → ℕ
  length [] = 0
  length (x ∷ xs) = suc (length xs)

  -- The elements that pass a test, in order.
  abbrev pub keep : (A → Bool) → List A → List A
  keep p [] = []
  keep p (x ∷ xs) = let rest = keep p xs in if p x then x ∷ rest else rest

  pub length-append : (xs ys : List A) → length (xs ++ ys) ≡ length xs + length ys
  length-append [] ys = omega arith
  length-append (x ∷ xs) ys = omega (arith, length-append xs ys)

-- A predicate of every element.
abbrev pub All {ℓ κ} : {A : Type ℓ} → (A → Type κ) → List A → Type κ
All P [] = Unit
All P (x ∷ xs) = P x × All P xs

-- Membership, as the position of the element.
abbrev pub Has : {A : Type 0} → A → List A → Type 0
Has a [] = ⊥
Has a (x ∷ xs) = (a ≡ x) ⊎ Has a xs

pub Has-append : {A : Type 0} (a : A) (xs ys : List A) → Has a (xs ++ ys) → Has a xs ⊎ Has a ys
Has-append a [] ys h = inr h
Has-append a (x ∷ xs) ys (inl p) = inl (inl p)
Has-append a (x ∷ xs) ys (inr h) = elim (Has-append a xs ys h) [
  | inl l ↦ inl (inr l)
  | inr r ↦ inr r
]

pub Has-append_left : {A : Type 0} (a : A) (xs ys : List A) → Has a xs → Has a (xs ++ ys)
Has-append_left a [] ys h = elim h [ ]
Has-append_left a (x ∷ xs) ys (inl p) = inl p
Has-append_left a (x ∷ xs) ys (inr h) = inr (Has-append_left a xs ys h)

pub Has-append_right : {A : Type 0} (a : A) (xs ys : List A) → Has a ys → Has a (xs ++ ys)
Has-append_right a [] ys h = h
Has-append_right a (x ∷ xs) ys h = inr (Has-append_right a xs ys h)

pub All-Has : {A : Type 0} (P : A → Type 0) (xs : List A) → All P xs → (a : A) → Has a xs → P a
All-Has P [] h a m = elim m [ ]
All-Has P (x ∷ xs) h a (inl p) = rw p (h.0)
All-Has P (x ∷ xs) h a (inr m) = All-Has P xs h.1 a m

-- `keep` leaves the elements that pass the test, and no other.
pub Has-keep :
    {A : Type 0} (p : A → Bool) (a : A) (xs : List A)
    → Has a (keep p xs) ↔ (Has a xs × (p a ≡ true))
Has-keep p a [] = (λ h. elim h [ ], λ h. elim h.0 [ ])
Has-keep p a (x ∷ xs) = elim (Bool-cases (p x)) [
  | inl e ↦ rw e (
    λ h. elim h [
      | inl q ↦ (inl q, rw q e)
      | inr m ↦ (inr ((Has-keep p a xs).0 m).0, ((Has-keep p a xs).0 m).1)
    ],
    λ h. elim h.0 [ inl q ↦ inl q | inr m ↦ inr ((Has-keep p a xs).1 (m, h.1)) ],
  )
  | inr e ↦ rw e (
    λ h. (inr ((Has-keep p a xs).0 h).0, ((Has-keep p a xs).0 h).1),
    λ h. elim h.0 [ inl q ↦ absurd (cc (e, h.1, ap p q)) | inr m ↦ (Has-keep p a xs).1 (m, h.1) ],
  )
]
