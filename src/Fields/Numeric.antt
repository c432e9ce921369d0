-- ===== src/Fields/Numeric.antt =====
-- What frontend/src/components/fields/extensions/NumericField.js tells a form.
use caronte.Prelude.{
  ℕ, suc, ◌+◌, ◌<◌, ◌≡◌, refl, ap, ◌∙◌, not, [], ◌∷◌, Option, none, some, filter, Text, is_digit,
  Bool-cases, inl, inr, ◌==◌, nat_comparable, list_comparable, ==_refl, if◌then◌else◌,
}
use caronte.Utils.Numbers.{to_text, value_from}
use caronte.Utils.Numbers.Decimal.{IsDigits, IsDigits-to_text, value-to_text, parse_int_digits}
use caronte.Utils.Numbers.Clean.{value, IsDigits-filter, filter_digits}
use caronte.Fields.{NumericProps, Change, is_valid_number, int_value, on_change, settle}

-- The specification: the number that the digits spell, and its tests.
abbrev pub change_of : NumericProps → ℕ → Change
change_of p n = record { number = n; invalid = not (is_valid_number p n) }

int_value-digits : (s : Text) → IsDigits s → int_value s ≡ value_from 0 s
unfolding int_value value_from
int_value-digits [] h = refl
int_value-digits (c ∷ s) h = rw (parse_int_digits c s h) refl

on_change-value : (p : NumericProps) (v : Text) → on_change p v ≡ change_of p (value v)
unfolding on_change
on_change-value p v = ap (change_of p) (int_value-digits (filter is_digit v) (IsDigits-filter v))

on_change-to_text : (p : NumericProps) (n : ℕ) → on_change p (to_text n) ≡ change_of p n
on_change-to_text p n =
    on_change-value p (to_text n)
    ∙ ap (λ s. change_of p (value_from 0 s)) (filter_digits (to_text n) (IsDigits-to_text n))
    ∙ ap (change_of p) (value-to_text n)

-- What an input leads to, given its change.
abbrev after : ℕ → NumericProps → ℕ → Change → Option (Change × ℕ)
after fuel p old c =
    let rest = settle fuel p c.number (to_text c.number) in
    if c.number == old
    then some (c, 1)
    else elim rest [ none ↦ none | some r ↦ some (r.0, r.1 + 1) ]

settle-value :
    (fuel : ℕ) (p : NumericProps) (old : ℕ) (v : Text)
    → settle (suc fuel) p old v ≡ after fuel p old (change_of p (value v))
unfolding settle
settle-value fuel p old v = ap (after fuel p old) (on_change-value p v)

-- The update after an input leaves everything as it is.
settle-to_text :
    (fuel : ℕ) (p : NumericProps) (n : ℕ)
    → settle (suc fuel) p n (to_text n) ≡ some (change_of p n, 1)
unfolding settle
settle-to_text fuel p n = ap (after fuel p n) (on_change-to_text p n) ∙ rw (==_refl n) refl

after-change_of :
    (fuel : ℕ) (p : NumericProps) (old n : ℕ)
    → after (suc fuel) p old (change_of p n) ≡ some (change_of p n, if n == old then 1 else 2)
after-change_of fuel p old n = elim (Bool-cases (n == old)) [
  | inl e ↦ rw e refl
  | inr e ↦ rw (e, settle-to_text fuel p n) refl
]

-- 2^53: below it JavaScript's numbers are exact, and are written with all their digits.
abbrev pub exact_numbers : ℕ
exact_numbers = 9007199254740992

-- An input whose digits spell a number below 2^53, or that has none, settles within two calls of the
-- form's callback, one if the number is that of before: the form is told the number that the digits
-- of the input spell, and the field is marked exactly if the number fails one of its tests.
pub settle-change_of :
    (fuel : ℕ) (p : NumericProps) (old : ℕ) (v : Text)
    → value v < exact_numbers
    → settle (suc (suc fuel)) p old v
      ≡ some (change_of p (value v), if value v == old then 1 else 2)
settle-change_of fuel p old v _ =
    settle-value (suc fuel) p old v ∙ after-change_of fuel p old (value v)
