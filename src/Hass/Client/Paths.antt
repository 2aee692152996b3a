-- ===== src/Hass/Client/Paths.antt =====
-- Which request an id of a config flow becomes: the guard of StepFlow and AbortFlow in client.go of
-- backend/internal/hass.
use smartclass.Prelude.{ℕ, ◌≢◌, nat_eq}
use smartclass.Prelude.Text.{Text}
use smartclass.Hass.Network.{Network}

-- A character that does not end a segment of a path, escape another or climb a directory
abbrev pub StaysInSegment : ℕ → Type 0
StaysInSegment c = (c ≢ b'/') × (c ≢ b'?') × (c ≢ b'#') × (c ≢ b'%') × (c ≢ b'.')
