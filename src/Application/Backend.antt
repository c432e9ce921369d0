-- ===== src/Application/Backend.antt =====
-- frontend/src/backend.js: the requests that the panes make, and how their promises settle. `J` is
-- the type of JSON values; `stringify` is `JSON.stringify`. The options that are the same for every
-- request are left out.
use caronte.Prelude.{
  ℕ, ◌&&◌, List, [], ◌∷◌, ◌++◌, Option, none, some, String, Text, text, ltb, leb, if◌then◌else◌,
}
use caronte.Utils.Numbers.{to_text}

abbrev pub Headers : Type 0
Headers = List (String × Text)

-- The body of a request is a text, or a form with a file.
pub data Body {ℓ} (D : Type ℓ) : Type ℓ where
  empty : Body D
  json_text : Text → Body D
  form : D → Body D

pub record Options {ℓ} (D : Type ℓ) : Type ℓ where
  pub method : String
  pub body : Body D
  pub headers : Headers

-- What the server does: it does not answer, or answers with a status and a body, whose JSON is none
-- where it cannot be parsed.
pub data Reply {ℓ} (J : Type ℓ) : Type ℓ where
  unreachable : Reply J
  answered : ℕ → Text → Option J → Reply J

pub record Result {ℓ} (J : Type ℓ) : Type ℓ where
  pub status_code : ℕ
  pub status : Text
  pub json : J

-- How a promise settles; `failed` is a rejection with an error that is not a result.
pub data Settled {ℓ} (J : Type ℓ) : Type ℓ where
  resolved : Result J → Settled J
  rejected : Result J → Settled J
  failed : Settled J

module _ {ℓ} {J : Type ℓ} (stringify : J → Text) where
  unfoldable pub options : {D : Type 0} → String → Option D → Option J → Option Headers → Options D
  options method payload json headers = record {
    method = method;
    body = elim json [
      | some j ↦ json_text (stringify j)
      | none ↦ elim payload [ none ↦ empty | some d ↦ form d ]
    ];
    headers = elim headers [ none ↦ ("Content-Type", text "application/json") ∷ [] | some hs ↦ hs ];
  }

  -- The methods of `backend`; a file is sent with no header.
  unfoldable pub get : {D : Type 0} → Options D
  unfolding options
  get = options "GET" none none none

  unfoldable pub post : {D : Type 0} → Option J → Options D
  unfolding options
  post payload = options "POST" none payload none

  unfoldable pub put : {D : Type 0} → Option J → Options D
  unfolding options
  put payload = options "PUT" none payload none

  unfoldable pub delete : {D : Type 0} → Option J → Options D
  unfolding options
  delete payload = options "DELETE" none payload none

  unfoldable pub post_file : {D : Type 0} → D → Options D
  unfolding options
  post_file payload = options "POST" (some payload) none (some [])

unfoldable pub settle {ℓ} : {J : Type ℓ} → Reply J → Settled J
settle unreachable = failed
settle (answered code status_text none) = failed
settle (answered code status_text (some j)) =
    let result : Result _ = record {
      status_code = code;
      status = to_text code ++ (text " " ++ status_text);
      json = j;
    } in
    if leb 200 code && ltb code 300 then resolved result else rejected result
