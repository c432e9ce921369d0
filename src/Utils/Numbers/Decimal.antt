-- ===== src/Utils/Numbers/Decimal.antt =====
-- The decimal text of a number, and `parseInt` of it.
use caronte.Prelude.{
  ℕ, zero, suc, ◌+◌, ◌-◌, ◌*◌, ◌/◌, ◌%◌, ◌≤◌, ◌<◌, ◌≡◌, refl, ◌∙◌, ap, true, false, [], ◌∷◌, ◌++◌,
  inl, inr, some, ◌==◌, nat_comparable, ltb, is_digit, All, Text, arith, pos, Bool-cases, length,
  length-append,
}
use mathlib.Core.Path.{ap₂}
use caronte.Utils.Numbers.{
  decimal, to_text, value_from, is_space, skip_spaces, digit_prefix, parse_signed, parse_int,
}

-- Any two amounts of fuel above the number give the same text.
decimal_fuel : (f g n : ℕ) → n < f → n < g → decimal f n ≡ decimal g n
unfolding decimal
decimal_fuel zero g n h k = elim h [ ]
decimal_fuel (suc f) zero n h k = elim k [ ]
decimal_fuel (suc f) (suc g) n h k = ground (arith, decimal_fuel f g (n / 10))

pub to_text_long : (n : ℕ) → 10 ≤ n → to_text n ≡ to_text (n / 10) ++ (b'0' + n % 10) ∷ []
unfolding to_text
to_text_long n h = ground (arith, decimal_fuel n (suc (n / 10)) (n / 10))

-- Appending a digit to a numeral.
pub to_text-snoc : (n d : ℕ) → 0 < n → d < 10 → to_text (n * 10 + d) ≡ to_text n ++ (b'0' + d) ∷ []
to_text-snoc n d h k =
    let quotient : (n * 10 + d) / 10 ≡ n = omega arith in
    let rest : (n * 10 + d) % 10 ≡ d = omega arith in
    to_text_long (n * 10 + d) (omega arith)
    ∙ ap₂ (λ q r. to_text q ++ (b'0' + r) ∷ []) quotient rest

pub to_text_digit : (d : ℕ) → d < 10 → to_text d ≡ (b'0' + d) ∷ []
unfolding to_text
to_text_digit d h = ground arith

abbrev pub IsDigits : Text → Type 0
IsDigits = All (λ c. is_digit c ≡ true)

value-append :
    (acc : ℕ) (s : Text) (c : ℕ) → value_from acc (s ++ c ∷ []) ≡ value_from acc s * 10 + (c - b'0')
unfolding value_from
value-append acc [] c = refl
value-append acc (x ∷ s) c = value-append (acc * 10 + (x - b'0')) s c

value-decimal : (f n : ℕ) → n < f → value_from 0 (decimal f n) ≡ n
unfolding decimal value_from
value-decimal zero n h = elim h [ ]
value-decimal (suc f) n h =
    ground (arith, value-decimal f (n / 10), value-append 0 (decimal f (n / 10)) (b'0' + n % 10))

IsDigits-append : (s : Text) (c : ℕ) → IsDigits s → is_digit c ≡ true → IsDigits (s ++ c ∷ [])
IsDigits-append [] c h k = (k, tt)
IsDigits-append (x ∷ s) c h k = (h.0, IsDigits-append s c h.1 k)

IsDigits-decimal : (f n : ℕ) → IsDigits (decimal f n)
unfolding decimal
IsDigits-decimal zero n = tt
IsDigits-decimal (suc f) n = elim (Bool-cases (ltb n 10)) [
  | inl small ↦ rw small (ground arith, tt)
  | inr large ↦ rw large (IsDigits-append _ _ (IsDigits-decimal f (n / 10)) (ground arith))
]

digit_prefix_all : (s : Text) → IsDigits s → digit_prefix s ≡ s
unfolding digit_prefix
digit_prefix_all [] h = refl
digit_prefix_all (c ∷ s) h = ground (arith, digit_prefix_all s h.1)

digit_range : (c : ℕ) → is_digit c ≡ true → (b'0' ≤ c) × (c ≤ b'9')
digit_range c h = ground arith

digit-not_space : (c : ℕ) → b'0' ≤ c → c ≤ b'9' → is_space c ≡ false
digit-not_space c h k = ground arith

parse_signed_digits :
    (c : ℕ) (s : Text) → IsDigits (c ∷ s) → parse_signed (c ∷ s) ≡ some (pos (value_from 0 (c ∷ s)))
unfolding parse_signed
parse_signed_digits c s h =
    let (low, high) = digit_range c h.0 in
    let minus : (c == b'-') ≡ false = ground arith in
    let plus : (c == b'+') ≡ false = ground arith in rw (minus, plus, digit_prefix_all (c ∷ s) h)

-- A nonempty run of digits is read as the number that it spells.
pub parse_int_digits :
    (c : ℕ) (s : Text) → IsDigits (c ∷ s) → parse_int (c ∷ s) ≡ some (pos (value_from 0 (c ∷ s)))
unfolding parse_int skip_spaces
parse_int_digits c s h =
    let (low, high) = digit_range c h.0 in
    rw (digit-not_space c low high) (parse_signed_digits c s h)

parse_int_nonempty :
    (s : Text) → IsDigits s → 0 < length s → parse_int s ≡ some (pos (value_from 0 s))
parse_int_nonempty [] h k = elim k [ ]
parse_int_nonempty (c ∷ s) h k = parse_int_digits c s h

length-to_text : (n : ℕ) → 0 < length (to_text n)
unfolding to_text decimal
length-to_text n = ground (arith, length-append (decimal n (n / 10)) ((b'0' + n % 10) ∷ []))

pub IsDigits-to_text : (n : ℕ) → IsDigits (to_text n)
unfolding to_text
IsDigits-to_text n = IsDigits-decimal (suc n) n

pub value-to_text : (n : ℕ) → value_from 0 (to_text n) ≡ n
unfolding to_text
value-to_text n = value-decimal (suc n) n (omega arith)

-- `parseInt` reads the decimal text of a number back.
pub parse_int-to_text : (n : ℕ) → parse_int (to_text n) ≡ some (pos n)
unfolding to_text
parse_int-to_text n =
    parse_int_nonempty (to_text n) (IsDigits-to_text n) (length-to_text n)
    ∙ ap (λ k. some (pos k)) (value-to_text n)
