-- ===== src/Drivers/Urls.antt =====
-- The addresses that driver.go of backend/internal/devicectl/drivers/generic asks.
use smartclass.Prelude.{ℕ, zero, suc, Bool, false, [], ◌∷◌, ◌==◌, nat_eq}
use smartclass.Prelude.Text.{Text}
use smartclass.Drivers.Web.{slash}

-- That many slashes
abbrev pub slashes : ℕ → Text
slashes zero = []
slashes (suc n) = slash ∷ slashes n

abbrev pub begins_with_slash : Text → Bool
begins_with_slash [] = false
begins_with_slash (c ∷ cs) = c == slash

abbrev pub ends_with_slash : Text → Bool
ends_with_slash [] = false
ends_with_slash (c ∷ []) = c == slash
ends_with_slash (c ∷ d ∷ ds) = ends_with_slash (d ∷ ds)
