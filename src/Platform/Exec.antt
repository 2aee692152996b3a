-- ===== src/Platform/Exec.antt =====
-- A service method over its store `S`: the result, and the store that it leaves.
use smartclass.Platform.Errors.{Error, Result, ok, err}

abbrev pub Exec : Type 0 → Type 0 → Type 0
Exec S A = S → Result A × S

-- A step after another: it runs where the first succeeded, on the store that the first left.
abbrev pub next : {S A B : Type 0} → Result A → S → (A → Exec S B) → Result B × S
next (ok a) s f = f a s
next (err e) s f = (err e, s)

infixl 5 ◌>>=◌ ◌>>◌
abbrev pub ◌>>=◌ : {S A B : Type 0} → Exec S A → (A → Exec S B) → Exec S B
◌>>=◌ m f s = next (m s).0 (m s).1 f

abbrev pub ◌>>◌ : {S B : Type 0} → Exec S (Unit {0}) → Exec S B → Exec S B
m >> k = m >>= λ _. k

abbrev pub pure : {S A : Type 0} → A → Exec S A
pure a s = (ok a, s)

abbrev pub raise : {S A : Type 0} → Error → Exec S A
raise e s = (err e, s)

-- A step that reads the store and may fail.
abbrev pub read : {S A : Type 0} → (S → Result A) → Exec S A
read f s = (f s, s)

abbrev pub lift : {S A : Type 0} → Result A → Exec S A
lift r s = (r, s)

-- The errors of a step, translated.
abbrev pub mapping : {S A : Type 0} → (Result A → Result A) → Exec S A → Exec S A
mapping f m s = (f (m s).0, (m s).1)
