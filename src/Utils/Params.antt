-- ===== src/Utils/Params.antt =====
-- `updateParams` of frontend/src/utils.js, and the operations of `URLSearchParams` that it and the
-- components use: a list of pairs in the order of the query string. Two query strings are equal
-- exactly if the lists are.
pub mod Update
use caronte.Prelude.{
  String, Bool, true, false, not, ◌||◌, List, [], ◌∷◌, ◌++◌, Option, none, some, filter, Comparable,
  ◌==◌, string_comparable, if◌then◌else◌, Text,
}

abbrev pub Params : Type 0
Params = List (String × Text)

unfoldable pub delete : String → Params → Params
delete name p = filter (λ e. not (e.0 == name)) p

unfoldable pub append : String → Text → Params → Params
append name value p = p ++ (name, value) ∷ []

-- The first pair of that name gets the value, and the others go; without one a pair is added.
unfoldable pub set : String → Text → Params → Params
unfolding delete
set name value [] = (name, value) ∷ []
set name value ((n, v) ∷ p) =
    if n == name then (name, value) ∷ delete name p else (n, v) ∷ set name value p

unfoldable pub get : String → Params → Option Text
get name [] = none
get name ((n, v) ∷ p) = if n == name then some v else get name p

unfoldable pub get_all : String → Params → List Text
get_all name [] = []
get_all name ((n, v) ∷ p) = let rest = get_all name p in if n == name then v ∷ rest else rest

unfoldable pub has : String → Params → Bool
has name [] = false
has name ((n, v) ∷ p) = n == name || has name p

-- What an entry of the payload object may hold.
pub data Value : Type 0 where
  null : Value
  array : List Text → Value
  string : Text → Value

-- An object: its keys are distinct.
abbrev pub Payload : Type 0
Payload = List (String × Value)

-- `name in payload` and `payload[name]`
unfoldable pub entry : String → Payload → Option Value
entry name [] = none
entry name ((n, v) ∷ e) = if n == name then some v else entry name e

unfoldable pub append_all : String → List Text → Params → Params
unfolding append
append_all key [] params = params
append_all key (v ∷ vs) params = append_all key vs (append key v params)

unfoldable pub update_entry : String → Value → Params → Params
unfolding delete set append_all
update_entry key null params = delete key params
update_entry key (array values) params = append_all key values (delete key params)
update_entry key (string value) params = set key value params

unfoldable pub update_params : Params → Payload → Params
unfolding update_entry
update_params params [] = params
update_params params ((key, value) ∷ payload) =
    update_params (update_entry key value params) payload
