-- ===== src/Utils/Tests.antt =====
-- Runs of the helpers of frontend/src/utils.js, and their theorems at concrete inputs.
use caronte.Prelude.{
  ◌≡◌, refl, true, false, [], ◌∷◌, none, some, arith, text, pos, negsuc, nat_comparable,
}
use caronte.Utils.Numbers.{to_text, parse_int, clean_number}
use caronte.Utils.Numbers.Decimal.{parse_int-to_text}
use caronte.Utils.Validation.{is_valid_color}
use caronte.Utils.Time.{Time, date_time_to_time, match_time, duration_between}
use caronte.Utils.Time.Clock.{match_time-date_time_to_time}
use caronte.Utils.Params.{Params, Payload, null, array, entry, get_all, update_params}
use caronte.Utils.Params.Update.{get_all-update_params}

clean_number_run : clean_number (text "0a08b0") ≡ text "80"
unfolding clean_number
clean_number_run = refl

parse_int_runs : (parse_int (text "  -12px") ≡ some (negsuc 11)) × (parse_int (text "px") ≡ none)
unfolding parse_int
parse_int_runs = (refl, refl)

color_runs :
    (is_valid_color (text "#0f192e") ≡ true)
    × (is_valid_color (text "#fff") ≡ true)
    × (is_valid_color (text "#ffff") ≡ false)
unfolding is_valid_color
color_runs = (refl, refl, refl)

duration_runs :
    (duration_between 1000 3045 ≡ text "2.045s")
    × (duration_between 3045 1000 ≡ text "-2.045s")
    × (duration_between 0 1000001 ≡ text "∞")
unfolding duration_between to_text
duration_runs = (refl, refl, refl)

parse_int-to_text_example : parse_int (to_text 3333) ≡ some (pos 3333)
parse_int-to_text_example = parse_int-to_text 3333

abbrev morning : Time
morning = record { hours = 9; minutes = 5; seconds = 30 }

date_time_to_time-morning : date_time_to_time morning ≡ text "9:05:30"
unfolding date_time_to_time to_text
date_time_to_time-morning = refl

match_time-date_time_to_time_example : match_time (date_time_to_time morning) ≡ none
match_time-date_time_to_time_example = match_time-date_time_to_time morning (omega arith)

abbrev url : Params
url = ("service_port", text "80") ∷ ("matched_rules", text "a") ∷ ("limit", text "50") ∷ []

abbrev change : Payload
change = ("matched_rules", array (text "b" ∷ text "c" ∷ [])) ∷ ("service_port", null) ∷ []

update_params_run :
    update_params url change
    ≡ ("limit", text "50") ∷ ("matched_rules", text "b") ∷ ("matched_rules", text "c") ∷ []
unfolding update_params
update_params_run = refl

get_all-update_params_example :
    get_all "matched_rules" (update_params url change) ≡ text "b" ∷ text "c" ∷ []
unfolding entry
get_all-update_params_example = get_all-update_params "matched_rules" url change (refl, (refl, tt))
