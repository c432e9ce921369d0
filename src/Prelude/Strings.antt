-- ===== src/Prelude/Strings.antt =====
-- Text as the list of its UTF-16 code units, which is what the source's string methods walk.
use Prim.Native.Nat.{ℕ}
use Prim.Native.Char.{code}
use Prim.Native.String.{String}
use mathlib.Core.Bool.{Bool, true, false, ◌&&◌, ◌||◌}
use mathlib.Core.List.{List, [], ◌∷◌}
use caronte.Prelude.Tests.{leb, nat_beq, list_beq, nat_comparable}

abbrev pub Text : Type 0
Text = List ℕ

-- The code units of a literal (all literals here lie in the basic plane).
abbrev pub text : String → Text
text String.[] = []
text (String.◌∷◌ c s) = code c ∷ text s

-- The class `\d`.
abbrev pub is_digit : ℕ → Bool
is_digit c = leb b'0' c && leb c b'9'

-- `s.startsWith(p)` and `s.endsWith(p)`.
abbrev pub starts_with : Text → Text → Bool
starts_with s [] = true
starts_with [] (d ∷ p) = false
starts_with (c ∷ s) (d ∷ p) = nat_beq c d && starts_with s p

abbrev pub ends_with : Text → Text → Bool
ends_with [] p = list_beq [] p
ends_with (c ∷ s) p = list_beq (c ∷ s) p || ends_with s p
