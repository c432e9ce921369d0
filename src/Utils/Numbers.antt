-- ===== src/Utils/Numbers.antt =====
-- The numeric helpers of frontend/src/utils.js: `cleanNumber`, `validateMin`, `validateMax` and
-- `validatePort`, with what they use of the language: `parseInt` in base ten, and the decimal text
-- of a number. Numbers do not lose precision here; in the source they do from 2^53.
pub mod Decimal
pub mod Clean
pub mod Ports
use caronte.Prelude.{
  ℕ, zero, suc, ◌+◌, ◌-◌, ◌*◌, ◌/◌, ◌%◌, Bool, true, false, ◌&&◌, ◌||◌, List, [], ◌∷◌, ◌++◌, Option,
  none, some, filter, any, Comparable, ◌==◌, nat_comparable, if◌then◌else◌, ltb, leb, Text, text,
  is_digit, ℤ, pos, neg, ltb_ℤ,
}

-- `String(n)`, on fuel: more than `n` is enough.
unfoldable pub decimal : ℕ → ℕ → Text
decimal zero n = []
decimal (suc f) n =
    let longer = decimal f (n / 10) ++ (b'0' + n % 10) ∷ [] in
    if ltb n 10 then (b'0' + n) ∷ [] else longer

unfoldable pub to_text : ℕ → Text
unfolding decimal
to_text n = decimal (suc n) n

-- The number that digits spell after those that gave `acc`.
unfoldable pub value_from : ℕ → Text → ℕ
value_from acc [] = acc
value_from acc (c ∷ s) = value_from (acc * 10 + (c - b'0')) s

-- White space and line ends, which `parseInt` skips.
abbrev pub is_space : ℕ → Bool
is_space c =
    (leb 9 c && leb c 13)
    || (leb 0x2000 c && leb c 0x200a)
    || any (λ d. d == c)
        (0x20 ∷ 0xa0 ∷ 0x1680 ∷ 0x2028 ∷ 0x2029 ∷ 0x202f ∷ 0x205f ∷ 0x3000 ∷ 0xfeff ∷ [])

unfoldable pub skip_spaces : Text → Text
skip_spaces [] = []
skip_spaces (c ∷ s) = if is_space c then skip_spaces s else c ∷ s

unfoldable pub digit_prefix : Text → Text
digit_prefix [] = []
digit_prefix (c ∷ s) = if is_digit c then c ∷ digit_prefix s else []

-- `none` is `NaN`.
unfoldable pub parse_digits : (ℕ → ℤ) → Text → Option ℤ
unfolding value_from
parse_digits sign [] = none
parse_digits sign (c ∷ s) = some (sign (value_from 0 (c ∷ s)))

unfoldable pub parse_signed : Text → Option ℤ
unfolding parse_digits digit_prefix
parse_signed [] = none
parse_signed (c ∷ s) =
    if c == b'-'
    then parse_digits neg (digit_prefix s)
    else if c == b'+'
    then parse_digits pos (digit_prefix s)
    else parse_digits pos (digit_prefix (c ∷ s))

-- `parseInt(s, 10)`
unfoldable pub parse_int : Text → Option ℤ
unfolding parse_signed skip_spaces
parse_int s = parse_signed (skip_spaces s)

unfoldable pub drop_zeros : Text → Text
drop_zeros [] = []
drop_zeros (c ∷ s) = if c == b'0' then drop_zeros s else c ∷ s

-- `cleanNumber`: keep the digits, then take off the leading zeros.
unfoldable pub clean_number : Text → Text
unfolding drop_zeros
clean_number number = drop_zeros (filter is_digit number)

-- A comparison with `NaN` fails.
abbrev pub greater : Option ℤ → ℤ → Bool
greater none b = false
greater (some a) b = ltb_ℤ b a

abbrev pub less : Option ℤ → ℤ → Bool
less none b = false
less (some a) b = ltb_ℤ a b

unfoldable pub validate_min : ℤ → Text → Bool
unfolding parse_int
validate_min min value = greater (parse_int value) min

unfoldable pub validate_max : ℤ → Text → Bool
unfolding parse_int
validate_max max value = less (parse_int value) max

unfoldable pub validate_port : Text → Bool
unfolding validate_min validate_max
validate_port port = validate_min (pos 0) port && validate_max (pos 65565) port
