-- ===== src/Prelude/Equality.antt =====
-- Equality tests, one operator for uuids (numbers), Go strings that are only compared, and texts.
use Prim.Native.Nat.{ℕ}
use Prim.Native.String.{String}
use mathlib.Core.Path.{◌≡◌, refl, ap}
use mathlib.Core.Logic.{◌↔◌}
use mathlib.Core.Bool.{Bool, true, false, ◌&&◌}
use mathlib.Core.List.{List, [], ◌∷◌}
use native.Mathlib.Omega.{arith}
use text.Mathlib.Text.{◌==◌ as str_beq}
use text.Mathlib.TextEquality.{eq_iff}
use smartclass.Prelude.Tests.{nat_beq, nat_beq_iff}

-- An equality test, with the proof that it decides.
pub record Eq {ℓ} (A : Type ℓ) : Type ℓ where
  pub beq : (a b : A) → Bool
  pub beq_iff : (a b : A) → (beq a b ≡ true) ↔ (a ≡ b)

abbrev codes_beq : List ℕ → List ℕ → Bool
codes_beq [] [] = true
codes_beq [] (d ∷ ds) = false
codes_beq (c ∷ cs) [] = false
codes_beq (c ∷ cs) (d ∷ ds) = nat_beq c d && codes_beq cs ds

codes_beq_refl : (cs : List ℕ) → codes_beq cs cs ≡ true
codes_beq_refl [] = refl
codes_beq_refl (c ∷ cs) = ground (arith, codes_beq_refl cs)

codes_beq-eq : (cs ds : List ℕ) → codes_beq cs ds ≡ true → cs ≡ ds
codes_beq-eq [] [] h = refl
codes_beq-eq [] (d ∷ ds) h = ground arith
codes_beq-eq (c ∷ cs) [] h = ground arith
codes_beq-eq (c ∷ cs) (d ∷ ds) h = ground (arith, codes_beq-eq cs ds)

pub codes_beq_iff : (cs ds : List ℕ) → (codes_beq cs ds ≡ true) ↔ (cs ≡ ds)
codes_beq_iff cs ds = (codes_beq-eq cs ds, λ p. cc (codes_beq_refl cs, ap (codes_beq cs) p))

-- Go strings that are only compared.
instance abbrev pub string_eq : Eq String
string_eq = record { beq_iff = eq_iff; beq = str_beq }

infix 50 ◌==◌
abbrev pub ◌==◌ {ℓ} : {A : Type ℓ} ⦃test : Eq A⦄ (a b : A) → Bool
◌==◌ ⦃test⦄ a b = test.beq a b

-- Uuids.
instance abbrev pub nat_eq : Eq ℕ
nat_eq = record { beq_iff = nat_beq_iff; beq = nat_beq }

instance abbrev pub text_eq : Eq (List ℕ)
text_eq = record { beq = codes_beq; beq_iff = codes_beq_iff }

module _ {A B : Type 0} ⦃e : Eq A⦄ ⦃f : Eq B⦄ where
  abbrev pub pair_beq : A × B → A × B → Bool
  pair_beq p q = p.0 == q.0 && p.1 == q.1

  pub pair_beq_iff : (p q : A × B) → (pair_beq p q ≡ true) ↔ (p ≡ q)
  pair_beq_iff (a, b) (c, d) = (
    λ h. ground (arith, e.beq_iff a c, f.beq_iff b d),
    λ h.
        ground (
          arith,
          e.beq_iff a c,
          f.beq_iff b d,
          ap (λ (x : A × B). x.0) h,
          ap (λ (x : A × B). x.1) h,
        ),
  )

  instance abbrev pub pair_eq : Eq (A × B)
  pair_eq = record { beq = pair_beq; beq_iff = pair_beq_iff }
