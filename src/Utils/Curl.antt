-- ===== src/Utils/Curl.antt =====
-- `createCurlCommand` of frontend/src/utils.js, given the location of the page and the text of
-- the JSON. An absent value is printed as null.
use caronte.Prelude.{
  ◌≡◌, refl, List, [], ◌∷◌, ◌++◌, Option, none, some, Text, text, ◌==◌, list_comparable,
  nat_comparable, if◌then◌else◌,
}

pub record Location : Type 0 where
  pub protocol : Text
  pub hostname : Text
  pub port : Text

abbrev line_end : Text
line_end = 0x5c ∷ 10 ∷ []

unfoldable pub full : Location → Text
full l =
    l.protocol ++ (text "//" ++ (l.hostname ++ (if l.port == [] then [] else text ":" ++ l.port)))

unfoldable pub form_fields : List (Text × Text) → Text
form_fields [] = []
form_fields ((key, value) ∷ []) = text "-F \"" ++ (key ++ (text "=" ++ (value ++ text "\"")))
form_fields ((key, value) ∷ e ∷ entries) =
    text "-F \""
    ++ (key
        ++ (text "="
            ++ (value ++ (text "\" " ++ (line_end ++ (text "    " ++ form_fields (e ∷ entries)))))))

-- The type and the content, or null for both.
unfoldable pub content : Option Text → Option (List (Text × Text)) → Option Text × Option Text
unfolding form_fields
content (some json) entries = (
  some (text "    -H \"Content-Type: application/json\" " ++ line_end),
  some (text "    -d '" ++ (json ++ text "'")),
)
content none (some entries) = (
  some (text "    -H \"Content-Type: multipart/form-data\" " ++ line_end),
  some (text "    " ++ form_fields entries),
)
content none none = (none, none)

abbrev printed : Option Text → Text
printed none = text "null"
printed (some t) = t

unfoldable pub create_curl_command :
    Location → Text → Option Text → Option Text → Option (List (Text × Text)) → Text
unfolding full content
create_curl_command l sub_command method json entries =
    let (content_type, body) = content json entries in
    text "curl"
    ++ (elim method as (λ _. Text) [ none ↦ [] | some m ↦ text " -X " ++ m ]
        ++ (text " \""
            ++ (full l
                ++ (text "/api"
                    ++ (sub_command
                        ++ (text "\" " ++ (line_end ++ (printed content_type ++ printed body))))))))

-- Without JSON and data the command ends in nulls.
create_curl_command-nulls :
    create_curl_command
      (record { protocol = text "http:"; hostname = text "h"; port = [] })
      (text "/rules")
      none
      none
      none
    ≡ text "curl \"http://h/api/rules\" " ++ (line_end ++ text "nullnull")
unfolding create_curl_command
create_curl_command-nulls = refl
