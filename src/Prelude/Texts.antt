-- ===== src/Prelude/Texts.antt =====
-- Prefixes and parts of texts.
use Prim.Native.Nat.{ℕ, zero, suc}
use mathlib.Core.Bool.{Bool, true, false, ◌&&◌, ◌||◌}
use mathlib.Core.List.{List, [], ◌∷◌}
use text.Mathlib.Text.{◌==◌}
use open_managed_agents.Prelude.Tests.{eqb, if◌then◌else◌}
use Prim.Native.Char.{code}
use Prim.Native.String.{◌++◌, String}

-- `s.startswith(p)`
abbrev pub has_prefix : String → String → Bool
has_prefix String.[] s = true
has_prefix (String.◌∷◌ a p) String.[] = false
has_prefix (String.◌∷◌ a p) (String.◌∷◌ b s) = eqb (code a) (code b) && has_prefix p s

-- `part in s`
abbrev pub has_part : String → String → Bool
has_part part String.[] = has_prefix part ""
has_part part (String.◌∷◌ c s) = has_prefix part (String.◌∷◌ c s) || has_part part s

-- `any(part in s for part in parts)`
abbrev pub has_any_part : List String → String → Bool
has_any_part [] s = false
has_any_part (p ∷ ps) s = has_part p s || has_any_part ps s

-- `s[:n]`
abbrev pub take_text : ℕ → String → String
take_text n String.[] = String.[]
take_text zero (String.◌∷◌ c s) = String.[]
take_text (suc n) (String.◌∷◌ c s) = String.◌∷◌ c (take_text n s)

-- `s.rstrip("/")`
abbrev pub drop_slashes : String → String
drop_slashes String.[] = String.[]
drop_slashes (String.◌∷◌ c s) =
    let rest = drop_slashes s in if rest == "" && eqb (code c) b'/' then "" else String.◌∷◌ c rest

-- `s + t`, where the lists' `++` is in scope.
abbrev pub joined : String → String → String
joined s t = s ++ t
