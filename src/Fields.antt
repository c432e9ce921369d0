-- ===== src/Fields.antt =====
-- frontend/src/components/fields: what the handlers of the fields pass on to the forms, and what the
-- fields show. A field's state is a function of its properties but where it is a record here.
pub mod Numeric
pub mod Tests
use caronte.Prelude.{
  ℕ, zero, suc, ◌+◌, Bool, true, false, not, ◌&&◌, ◌||◌, List, [], ◌∷◌, ◌++◌, Option, none, some,
  map, filter, without_at, Text, text, is_digit, ℤ, pos, negsuc, ltb, leb, Comparable, ◌==◌,
  nat_comparable, list_comparable, if◌then◌else◌,
}
use caronte.Utils.Numbers.{parse_int, to_text}
use caronte.Utils.Validation.{is_valid_color}

-- extensions/NumericField.js
pub record NumericProps : Type 0 where
  pub validate : Option (ℕ → Bool)
  pub min : Option ℕ
  pub max : Option ℕ

-- The number that the form is told, and whether the field is marked.
pub record Change : Type 0 where
  pub number : ℕ
  pub invalid : Bool

-- A bound that is 0 is no bound, as one that is missing.
unfoldable pub is_valid_number : NumericProps → ℕ → Bool
is_valid_number p n =
    elim p.validate [ none ↦ true | some f ↦ f n ]
    && elim p.min [ none ↦ true | some m ↦ m == 0 || leb m n ]
    && elim p.max [ none ↦ true | some m ↦ m == 0 || leb n m ]

-- Digits are never read as `NaN` or a negative number; from 2^53 on the source rounds.
unfoldable pub int_value : Text → ℕ
int_value digits =
    if digits == []
    then 0
    else elim (parse_int digits) [ none ↦ 0 | some i ↦ elim i [ pos n ↦ n | negsuc n ↦ 0 ] ]

unfoldable pub on_change : NumericProps → Text → Change
unfolding is_valid_number int_value
on_change p value =
    let n = int_value (filter is_digit value) in
    record { number = n; invalid = not (is_valid_number p n) }

-- An input and the updates after it: the form sets the value of the field to the number, and
-- `componentDidUpdate` calls `onChange` where that is another one. With the number of calls;
-- `none` is that the fuel ran out. This is what the source does for numbers below 2^53; it rounds
-- larger ones, and writes them with an exponent from 10^21 on, whose sign and digits it reads again.
unfoldable pub settle : ℕ → NumericProps → ℕ → Text → Option (Change × ℕ)
unfolding on_change
settle zero p old value = none
settle (suc fuel) p old value =
    let c = on_change p value in
    let rest = settle fuel p c.number (to_text c.number) in
    if c.number == old
    then some (c, 1)
    else elim rest [ none ↦ none | some r ↦ some (r.0, r.1 + 1) ]

-- extensions/ColorField.js: the colours to choose from, and the mark of the field.
abbrev pub colors : List Text
colors =
    text "#e53935"
    ∷ text "#d81b60"
    ∷ text "#8e24aa"
    ∷ text "#5e35b1"
    ∷ text "#3949ab"
    ∷ text "#1e88e5"
    ∷ text "#039be5"
    ∷ text "#00acc1"
    ∷ text "#00897b"
    ∷ text "#43a047"
    ∷ text "#7cb342"
    ∷ text "#9e9d24"
    ∷ text "#f9a825"
    ∷ text "#fb8c00"
    ∷ text "#f4511e"
    ∷ text "#6d4c41"
    ∷ []

unfoldable pub is_invalid_color : Text → Bool
is_invalid_color value = not (value == []) && not (is_valid_color value)

-- InputField.js, of a text: the handler's event is a new value, or none for the button that clears.
unfoldable pub input_handler : Text → Option Text → Text
input_handler default_value none = default_value
input_handler default_value (some value) = value

unfoldable pub shown_value : Text → Text → Text
shown_value default_value value = if value == [] then default_value else value

unfoldable pub is_clearable : Bool → Text → Bool
is_clearable readonly value = not (value == []) && not readonly

-- CheckField.js: what the form is told, if it is.
unfoldable pub check_handler : Bool → Bool → Option Bool
check_handler readonly checked = if not readonly then some (not checked) else none

-- TextField.js
unfoldable pub text_handler : Option Text → Text
text_handler none = []
text_handler (some value) = value

-- ChoiceField.js: whether the field is expanded, and its text.
unfoldable pub toggle : Bool → Bool
toggle expanded = if expanded then false else true

-- A click on an option collapses the field and passes the key on.
unfoldable pub choose {ℓ} : {K : Type ℓ} → K → Bool × K
choose key = (false, key)

unfoldable pub field_value : Bool → Bool → Text → Text → Text
field_value inline only_name name value =
    let named = inline && not (name == []) in
    (if named then name else [])
    ++ ((if not only_name && named then text ": " else [])
        ++ (if not only_name then (if value == [] then text "select a value" else value) else []))

-- TagField.js
unfoldable pub on_addition {ℓ} : {A : Type ℓ} → A → List A → List A
on_addition tag tags = tags ++ tag ∷ []

unfoldable pub on_delete {ℓ} : {A : Type ℓ} → ℕ → List A → List A
on_delete i tags = without_at i tags
