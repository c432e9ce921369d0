-- ===== src/Utils/Validation.antt =====
-- frontend/src/validation.js. A number that is passed for a port is read by its decimal text, as
-- `parseInt` does.
use caronte.Prelude.{
  ℕ, ◌≤◌, ◌≡◌, ◌↔◌, Bool, true, false, ◌&&◌, ◌||◌, [], ◌∷◌, Option, none, some, ◌==◌,
  nat_comparable, if◌then◌else◌, leb, leb_ℤ, Text, is_digit, all, length, arith, ℤ, pos, negsuc,
}
use caronte.Utils.Numbers.{parse_int, to_text, greater}
use caronte.Utils.Numbers.Decimal.{parse_int-to_text}

-- The class `[0-9a-fA-F]`.
abbrev pub is_hex : ℕ → Bool
is_hex c = is_digit c || (leb b'a' c && leb c b'f') || (leb b'A' c && leb c b'F')

-- A hash sign, and one or two groups of three hexadecimal digits.
unfoldable pub is_valid_color : Text → Bool
is_valid_color [] = false
is_valid_color (c ∷ s) = c == b'#' && all is_hex s && (length s == 3 || length s == 6)

abbrev pub at_most : Option ℤ → ℤ → Bool
at_most none b = false
at_most (some a) b = leb_ℤ a b

unfoldable pub is_valid_port : Text → Bool → Bool
is_valid_port port required =
    greater (parse_int port) (if required then pos 0 else negsuc 0)
    && at_most (parse_int port) (pos 65565)

unfoldable pub is_valid_address : Text → Bool
is_valid_address address = true

-- Of a number, the test asks for 1 to 65565 where a port is required, and else for 0 to 65565.
pub is_valid_port-to_text :
    (n : ℕ) (required : Bool)
    → (is_valid_port (to_text n) required ≡ true) ↔ ((if required then 1 else 0) ≤ n) × (n ≤ 65565)
unfolding is_valid_port
is_valid_port-to_text n true = rw parse_int-to_text (ground arith)
is_valid_port-to_text n false = rw parse_int-to_text (ground arith)
