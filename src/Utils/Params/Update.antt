-- ===== src/Utils/Params/Update.antt =====
-- `updateParams` of frontend/src/utils.js seen as an update of the values of each name.
use caronte.Prelude.{
  String, ◌≡◌, refl, List, [], ◌∷◌, ◌++◌, Option, none, some, ◌==◌, string_comparable,
  if◌then◌else◌, Text, arith, append-nil, append_assoc,
}
use caronte.Utils.Params.{
  Params, delete, append, set, get_all, Value, null, array, string, Payload, entry, append_all,
  update_entry, update_params,
}

abbrev pub values : Value → List Text
values null = []
values (array vs) = vs
values (string v) = v ∷ []

-- The keys of an object are distinct.
abbrev pub Distinct : Payload → Type 0
Distinct [] = Unit
Distinct ((n, v) ∷ e) = (entry n e ≡ none) × Distinct e

module _ (k : String) where
  get_all-delete :
      (j : String) (p : Params) → get_all k (delete j p) ≡ (if j == k then [] else get_all k p)
  unfolding get_all delete
  get_all-delete j [] = ground arith
  get_all-delete j ((n, v) ∷ p) = ground (
    arith,
    get_all-delete j p,
    string_comparable.same_iff n j,
    string_comparable.same_iff j k,
    string_comparable.same_iff n k,
  )

  get_all-set :
      (j : String) (w : Text) (p : Params)
      → get_all k (set j w p) ≡ (if j == k then w ∷ [] else get_all k p)
  unfolding get_all set
  get_all-set j w [] = refl
  get_all-set j w ((n, v) ∷ p) = ground (
    arith,
    get_all-set j w p,
    get_all-delete j p,
    string_comparable.same_iff n j,
    string_comparable.same_iff j k,
    string_comparable.same_iff n k,
  )

  get_all-append :
      (j : String) (w : Text) (p : Params)
      → get_all k (append j w p) ≡ (if j == k then get_all k p ++ w ∷ [] else get_all k p)
  unfolding get_all append
  get_all-append j w [] = refl
  get_all-append j w ((n, v) ∷ p) = ground (arith, get_all-append j w p)

  get_all-append_all :
      (j : String) (ws : List Text) (p : Params)
      → get_all k (append_all j ws p) ≡ (if j == k then get_all k p ++ ws else get_all k p)
  unfolding append_all
  get_all-append_all j [] p = ground (arith, append-nil (get_all k p))
  get_all-append_all j (w ∷ ws) p = ground (
    arith,
    get_all-append_all j ws (append j w p),
    get_all-append j w p,
    append_assoc (get_all k p) (w ∷ []) ws,
  )

  get_all-update_entry :
      (j : String) (v : Value) (p : Params)
      → get_all k (update_entry j v p) ≡ (if j == k then values v else get_all k p)
  unfolding update_entry
  get_all-update_entry j null p = get_all-delete j p
  get_all-update_entry j (array vs) p =
      ground (arith, get_all-append_all j vs (delete j p), get_all-delete j p)
  get_all-update_entry j (string v) p = get_all-set j v p

-- The values that a name has once a payload is applied: those of its entry, or the old ones.
abbrev pub updated : Option Value → List Text → List Text
updated none old = old
updated (some v) old = values v

-- If the keys of the payload are distinct, an update gives each name that the payload has exactly
-- the values of its entry (none for null), in order, and leaves the values of every other name.
pub get_all-update_params :
    (k : String) (p : Params) (payload : Payload)
    → Distinct payload
    → get_all k (update_params p payload) ≡ updated (entry k payload) (get_all k p)
unfolding update_params entry
get_all-update_params k p [] h = refl
get_all-update_params k p ((j, v) ∷ payload) h = ground (
  arith,
  get_all-update_params k (update_entry j v p) payload h.1,
  get_all-update_entry k j v p,
  string_comparable.same_iff j k,
)
