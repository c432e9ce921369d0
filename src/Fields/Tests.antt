-- ===== src/Fields/Tests.antt =====
-- Inputs of frontend/src/components/fields, and the theorem at one of them.
use caronte.Prelude.{arith, ◌≡◌, refl, true, false, [], ◌∷◌, none, some, text, All}
use caronte.Utils.Validation.{is_valid_color}
use caronte.Utils.Numbers.{value_from}
use caronte.Fields.{
  is_valid_number, NumericProps, settle, colors, input_handler, shown_value, field_value, on_delete,
  on_addition, check_handler, text_handler,
}
use caronte.Fields.Numeric.{settle-change_of}

-- The port field of a form.
abbrev port_props : NumericProps
port_props = record { validate = none; min = some 0; max = some 65565 }

settle-change_of_example :
    settle 2 port_props 80 (text "8080") ≡ some (record { number = 8080; invalid = false }, 2)
unfolding value_from is_valid_number
settle-change_of_example = settle-change_of 0 port_props 80 (text "8080") (omega arith)

-- A sign and a point are lost.
settle-signed :
    settle 2 port_props 80 (text "-1.5") ≡ some (record { number = 15; invalid = false }, 2)
unfolding value_from is_valid_number
settle-signed = settle-change_of 0 port_props 80 (text "-1.5") (omega arith)

-- All colours to choose from are valid.
colors-valid : All (λ c. is_valid_color c ≡ true) colors
unfolding is_valid_color
colors-valid = (
  refl,
  (
    refl,
    (
      refl,
      (
        refl,
        (
          refl,
          (
            refl,
            (refl, (refl, (refl, (refl, (refl, (refl, (refl, (refl, (refl, (refl, tt)))))))))),
          ),
        ),
      ),
    ),
  ),
)

field_value-inline : field_value true false (text "metric") [] ≡ text "metric: select a value"
unfolding field_value
field_value-inline = refl

on_delete-addition : on_delete 0 (on_addition (text "b") (text "a" ∷ [])) ≡ text "b" ∷ []
unfolding on_delete on_addition
on_delete-addition = refl

input-handlers :
    (input_handler (text "0") none ≡ text "0")
    × (shown_value (text "0") [] ≡ text "0")
    × (check_handler false true ≡ some false)
    × (text_handler none ≡ [])
unfolding input_handler shown_value check_handler text_handler
input-handlers = (refl, refl, refl, refl)
