-- ===== src/Utils/Numbers/Clean.antt =====
-- What `cleanNumber` of frontend/src/utils.js makes of any text.
use caronte.Prelude.{
  ℕ, ◌+◌, ◌-◌, ◌*◌, ◌<◌, ◌≡◌, refl, ◌∙◌, sym, ap, true, false, [], ◌∷◌, ◌++◌, inl, inr, ◌==◌,
  nat_comparable, if◌then◌else◌, filter, is_digit, Text, arith, Bool-cases, append_assoc,
  append-nil,
}
use caronte.Utils.Numbers.{to_text, value_from, drop_zeros, clean_number}
use caronte.Utils.Numbers.Decimal.{IsDigits, to_text-snoc, to_text_digit}

-- The number that the digits of a text spell, its other characters left out.
abbrev pub value : Text → ℕ
value s = value_from 0 (filter is_digit s)

pub IsDigits-filter : (s : Text) → IsDigits (filter is_digit s)
IsDigits-filter [] = tt
IsDigits-filter (c ∷ s) = ground (arith, IsDigits-filter s)

digit_code : (c : ℕ) → is_digit c ≡ true → b'0' + (c - b'0') ≡ c
digit_code c h = ground arith

digit-lt : (c : ℕ) → is_digit c ≡ true → c - b'0' < 10
digit-lt c h = ground arith

value_from-pos : (n : ℕ) (s : Text) → 0 < n → 0 < value_from n s
unfolding value_from
value_from-pos n [] h = h
value_from-pos n (c ∷ s) h = value_from-pos (n * 10 + (c - b'0')) s (omega arith)

-- Digits behind the numeral of a positive number.
to_text-append : (n : ℕ) (s : Text) → 0 < n → IsDigits s → to_text n ++ s ≡ to_text (value_from n s)
unfolding value_from
to_text-append n [] h k = append-nil (to_text n)
to_text-append n (c ∷ s) h k =
    let digit : b'0' + (c - b'0') ≡ c = digit_code c k.0 in
    let next : to_text n ++ c ∷ [] ≡ to_text (n * 10 + (c - b'0')) =
      sym (rw digit at (to_text-snoc n (c - b'0') h (digit-lt c k.0))) in
    sym (append_assoc (to_text n) (c ∷ []) s)
    ∙ ap (◌++ s) next
    ∙ to_text-append (n * 10 + (c - b'0')) s (omega arith) k.1

clean_head :
    (c : ℕ) (s : Text)
    → IsDigits (c ∷ s)
    → (c == b'0') ≡ false
    → c ∷ s ≡ (if value_from 0 (c ∷ s) == 0 then [] else to_text (value_from 0 (c ∷ s)))
unfolding value_from
clean_head c s h k =
    let d = c - b'0' in
    let positive : 0 < d = ground arith in
    let text : c ∷ s ≡ to_text (value_from d s) =
      ap (◌++ s) (sym (to_text_digit d (digit-lt c h.0) ∙ ap (◌∷ []) (digit_code c h.0)))
      ∙ to_text-append d s positive h.1 in
    let start : 0 * 10 + d ≡ d = omega arith in ground (arith, value_from-pos d s positive)

drop_zeros_digits :
    (s : Text)
    → IsDigits s
    → drop_zeros s ≡ (if value_from 0 s == 0 then [] else to_text (value_from 0 s))
unfolding drop_zeros value_from
drop_zeros_digits [] h = refl
drop_zeros_digits (c ∷ s) h = elim (Bool-cases (c == b'0')) [
  | inl zero_digit ↦ ground (arith, drop_zeros_digits s h.1)
  | inr other ↦ rw other (clean_head c s h other)
]

-- The cleaned text is the shortest numeral of the number that the digits spell, and empty if that
-- is zero.
pub clean_number_lem :
    (s : Text) → clean_number s ≡ (if value s == 0 then [] else to_text (value s))
unfolding clean_number
clean_number_lem s = drop_zeros_digits (filter is_digit s) (IsDigits-filter s)

pub filter_digits : (s : Text) → IsDigits s → filter is_digit s ≡ s
filter_digits [] h = refl
filter_digits (c ∷ s) h = ground (arith, filter_digits s h.1)

IsDigits-drop_zeros : (s : Text) → IsDigits s → IsDigits (drop_zeros s)
unfolding drop_zeros
IsDigits-drop_zeros [] h = tt
IsDigits-drop_zeros (c ∷ s) h = elim (Bool-cases (c == b'0')) [
  | inl e ↦ rw e (IsDigits-drop_zeros s h.1)
  | inr e ↦ rw e h
]

value-drop_zeros : (s : Text) → value_from 0 (drop_zeros s) ≡ value_from 0 s
unfolding drop_zeros value_from
value-drop_zeros [] = refl
value-drop_zeros (c ∷ s) = ground (arith, value-drop_zeros s)

-- Cleaning a text keeps the number that its digits spell.
pub value-clean_number : (s : Text) → value (clean_number s) ≡ value s
unfolding clean_number
value-clean_number s =
    let digits = IsDigits-drop_zeros (filter is_digit s) (IsDigits-filter s) in
    ap (value_from 0) (filter_digits (drop_zeros (filter is_digit s)) digits)
    ∙ value-drop_zeros (filter is_digit s)
