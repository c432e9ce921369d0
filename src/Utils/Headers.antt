-- ===== src/Utils/Headers.antt =====
-- `getHeaderValue` of frontend/src/utils.js. An object is the list of its entries; `to_lower` is
-- the language's `toLowerCase`.
use caronte.Prelude.{
  String, ◌≡◌, refl, true, List, [], ◌∷◌, Option, none, some, ◌==◌, string_comparable,
  if◌then◌else◌, Text, arith, Option-cases, inl, inr, sym, ◌∙◌,
}

abbrev pub Headers : Type 0
Headers = List (String × Text)

-- `headers[k]`
unfoldable pub property : String → Headers → Option Text
property k [] = none
property k ((n, v) ∷ hs) = if n == k then some v else property k hs

module _ (to_lower : String → String) where
  -- `Object.keys(headers).find(…)`
  unfoldable pub find_key : String → Headers → Option String
  find_key key [] = none
  find_key key ((n, v) ∷ hs) = if to_lower n == to_lower key then some n else find_key key hs

  -- An index that is `undefined` names the property "undefined".
  abbrev pub key_name : Option String → String
  key_name none = "undefined"
  key_name (some k) = k

  -- `none` for a request that is missing or has no headers; the result `none` is null or undefined.
  unfoldable pub get_header_value : Option Headers → String → Option Text
  unfolding find_key property
  get_header_value none key = none
  get_header_value (some headers) key = property (key_name (find_key key headers)) headers

  -- The specification: the first header whose name agrees up to case.
  abbrev pub first_header : String → Headers → Option Text
  first_header key [] = none
  first_header key ((n, v) ∷ hs) =
      if to_lower n == to_lower key then some v else first_header key hs

  find_key_matches :
      (key : String) (hs : Headers) (k : String)
      → find_key key hs ≡ some k
      → (to_lower k == to_lower key) ≡ true
  unfolding find_key
  find_key_matches key [] k h = cc
  find_key_matches key ((n, v) ∷ hs) k h = ground (arith, find_key_matches key hs k)

  property_found :
      (key : String) (hs : Headers) (k : String)
      → find_key key hs ≡ some k
      → property k hs ≡ first_header key hs
  unfolding find_key property
  property_found key [] k h = cc
  property_found key ((n, v) ∷ hs) k h = ground (
    arith,
    property_found key hs k,
    find_key_matches key hs k,
    string_comparable.same_iff n k,
    string_comparable.same_iff (to_lower n) (to_lower key),
    string_comparable.same_iff (to_lower k) (to_lower key),
  )

  not_found : (key : String) (hs : Headers) → find_key key hs ≡ none → first_header key hs ≡ none
  unfolding find_key
  not_found key [] h = refl
  not_found key ((n, v) ∷ hs) h = ground (arith, not_found key hs)

  -- The value found is that of the first header whose name agrees with the key up to case, and
  -- there is none without such a header; no header may be named "undefined".
  get_header_value_lem :
      (key : String) (hs : Headers)
      → property "undefined" hs ≡ none
      → get_header_value (some hs) key ≡ first_header key hs
  unfolding get_header_value
  get_header_value_lem key hs h = elim (Option-cases (find_key key hs)) [
    | inl missing ↦ rw missing (h ∙ sym (not_found key hs missing))
    | inr (k, found) ↦ rw found (property_found key hs k found)
  ]
