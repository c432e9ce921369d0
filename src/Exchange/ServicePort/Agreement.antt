-- ===== src/Exchange/ServicePort/Agreement.antt =====
-- Whether the port filter, the list of connections and the timeline hold the same port.
use caronte.Prelude.{
  ℕ, ◌<◌, All, head?, ◌≡◌, refl, subst, ◌∙◌, ap, sym, ◌⊎◌, inl, inr, true, false, List, [], ◌∷◌,
  ◌++◌, Option, none, some, Text, find, length, drop, drop-length_append, append-nil, ◌==◌,
  nat_comparable, string_comparable, list_comparable, option_comparable, arith, ==_refl, Bool-cases,
  Option-cases,
}
use caronte.Utils.Numbers.{to_text, clean_number, value_from}
use caronte.Utils.Numbers.Decimal.{IsDigits-to_text, value-to_text}
use caronte.Utils.Numbers.Ports.{validate_port-clean_number}
use caronte.Utils.Numbers.Clean.{value, filter_digits}
use caronte.Utils.Params
use caronte.Utils.Params.{Params, array, get, get_all, update_params}
use caronte.Utils.Params.Update.{get_all-update_params}
use caronte.Filters.StringFilter
use caronte.Filters.StringFilter.{
  Payload, entry, initial, filter_changed, fire, connections_filters_callback, accept_value,
  change_filter_value, receive_value, update_state_from_filter_value, is_value_valid, clear_timeout,
}
use caronte.Filters.PortFilter.{port_filter, PortValue}
use caronte.Filters.FlagFilters.{as_update}
use caronte.Filters.FlagFilters.Agreement.{
  IsObject, get-get_all, get-update_none, get-update_some, one_entry, own_entry, same_option,
}
use caronte.Connections.Loading
use caronte.Connections.Loading.{Pane, same_params}
use caronte.Timeline.Handlers
use caronte.Exchange.ServicePort.{
  Sharing, Event, typed, fired, pressed, filtered, rules_filtered, press_service, pass_on,
  pass_on_all, advance, deliver, deliver_rules, step, run, mount, or_null,
}

-- The field sent nothing and keeps its filter, or it sent the filter that it has now.
abbrev Sends : StringFilter.State → StringFilter.State → Type 0
Sends s t =
    ((t.sent ≡ s.sent) × (t.filter_value ≡ s.filter_value))
    ⊎ (t.sent ≡ s.sent ++ t.filter_value ∷ [])

same_value : (a : Option Text) → (a == a) ≡ true
same_value a = ==_refl a

-- A dispatch of the filter that the field has already leaves it alone.
receive-same :
    (v : Option Text) (s : StringFilter.State)
    → receive_value (port_filter "service_port") v (record s { filter_value = v })
      ≡ record s { filter_value = v }
unfolding receive_value
receive-same v s = rw (receive_value, same_value) refl

change-same :
    (v : Option Text) (s : StringFilter.State)
    → change_filter_value (port_filter "service_port") v (record s { filter_value = v })
      ≡ record s { filter_value = v; sent = s.sent ++ v ∷ [] }
unfolding change_filter_value connections_filters_callback
change-same v s = (receive-same v (record s { sent = s.sent ++ v ∷ [] }))

accept_value-Sends :
    (t : Text) (s r : StringFilter.State)
    → r.sent ≡ s.sent
    → r.filter_value ≡ s.filter_value
    → Sends s (accept_value (port_filter "service_port") t r)
unfolding accept_value
accept_value-Sends [] s r h k =
    subst (Sends s) (sym (change-same none (record r { field_value = []; invalid_value = false })))
      (inr (ap (◌++ none ∷ []) h))
accept_value-Sends (c ∷ cs) s r h k =
    elim (Bool-cases (is_value_valid (port_filter "service_port") (c ∷ cs))) [
      | inl e ↦ rw e (inl (h, k))
      | inr e ↦ rw e (inl (h, k))
    ]

filter_changed-Sends :
    (t : Text) (s : StringFilter.State) → Sends s (filter_changed (port_filter "service_port") t s)
unfolding filter_changed
filter_changed-Sends t s =
    accept_value-Sends (clean_number t) s
      (record s { pending = clear_timeout s.timeout_handle s.pending }) refl refl

fire-Sends : (h : ℕ) (s : StringFilter.State) → Sends s (fire (port_filter "service_port") h s)
unfolding fire
fire-Sends h s = elim (Option-cases (find (λ t. t.handle == h) s.pending)) [
  | inl e ↦ rw (e, fire) (inl (refl, refl))
  | inr (t, e) ↦
      rw
        (
          e,
          fire,
          change-same (some t.value) (record s { pending = clear_timeout (some h) s.pending }),
        )
        (inr refl)
]

same_params-same : (p q : Params) → same_params p q ≡ true → p ≡ q
unfolding same_params
same_params-same [] [] h = refl
same_params-same [] (e ∷ q) h = cc
same_params-same (e ∷ p) [] h = cc
same_params-same ((n, v) ∷ p) ((m, w) ∷ q) h = ground (
  arith,
  same_params-same p q,
  string_comparable.same_iff n m,
  (list_comparable {A = ℕ}).same_iff v w,
)

-- The filter holds `v` behind a value that it accepts.
update-PortValue :
    (v : Option Text) (s : StringFilter.State)
    → PortValue v
    → (update_state_from_filter_value (port_filter "service_port") v s).filter_value ≡ v
unfolding update_state_from_filter_value is_value_valid
update-PortValue none s h = refl
update-PortValue (some v) s h = rw ((validate_port-clean_number v).1 h) refl

receive-PortValue :
    (v : Option Text) (s : StringFilter.State)
    → PortValue v
    → (receive_value (port_filter "service_port") v s).filter_value ≡ v
unfolding receive_value
receive-PortValue v s h = elim (Bool-cases (s.filter_value == v)) [
  | inl e ↦ rw e ((same_option s.filter_value v).0 e)
  | inr e ↦ rw e (update-PortValue v s h)
]

filter_port-some :
    (v : Option Text) (s : Handlers.State)
    → (Handlers.handle_connections_filters (some v) none s).service_port_filter ≡ v
unfolding Handlers.handle_connections_filters
filter_port-some v s = elim (Bool-cases (s.service_port_filter == v)) [
  | inl e ↦ rw (e, Handlers.filter_port) ((same_option s.service_port_filter v).0 e)
  | inr e ↦ rw (e, Handlers.filter_port) refl
]

-- What a payload says of the port: nothing, null, or a port that the field accepts.
abbrev pub Carries : Option (Option Text) → Type 0
Carries none = Unit
Carries (some v) = PortValue v

-- The port of a connection is one that the field accepts, and the names of a payload are distinct.
abbrev pub IsFair : Event → Type 0
IsFair (typed t) = Unit
IsFair (fired h) = Unit
IsFair (pressed port) = (0 < port) × (port < 65565)
IsFair (filtered p) = IsObject p × Carries (entry "service_port" p)
IsFair (rules_filtered rules) = Unit

value_port : (n : ℕ) → value (to_text n) ≡ n
value_port n = ap (value_from 0) (filter_digits (to_text n) (IsDigits-to_text n)) ∙ value-to_text n

callback-none :
    (p : Payload) (f : StringFilter.State)
    → entry "service_port" p ≡ none
    → connections_filters_callback (port_filter "service_port") p f ≡ f
unfolding connections_filters_callback
callback-none p f h = rw (h, connections_filters_callback) refl

callback-some :
    (p : Payload) (v : Option Text) (f : StringFilter.State)
    → entry "service_port" p ≡ some v
    → connections_filters_callback (port_filter "service_port") p f
      ≡ receive_value (port_filter "service_port") v f
unfolding connections_filters_callback
callback-some p v f h = rw (h, connections_filters_callback) refl

module _ {ℓ} {A : Type ℓ} where
  -- The field, the parameters of the list and the timeline hold the same port, or none.
  abbrev pub Agrees : Sharing A → Type 0
  Agrees s =
      (get "service_port" s.listed.url_params ≡ s.field.filter_value)
      × (s.charted.service_port_filter ≡ s.field.filter_value)

  url_params-update :
      (p : Params.Payload) (s : Pane A)
      → (Loading.handle_connections_filters p s).url_params ≡ update_params s.url_params p
  unfolding Loading.handle_connections_filters
  url_params-update p s =
      elim (Bool-cases (same_params s.url_params (update_params s.url_params p))) [
        | inl e ↦
            rw (e, Loading.handle_connections_filters)
              (same_params-same s.url_params (update_params s.url_params p) e)
        | inr e ↦ rw (e, Loading.handle_connections_filters) refl
      ]

  pass_on-some :
      (p : Payload) (v : Option Text) (s : Sharing A)
      → IsObject p
      → entry "service_port" p ≡ some v
      → s.field.filter_value ≡ v
      → Agrees (pass_on p s)
  unfolding pass_on
  pass_on-some p v s d h k = (
    ap (get "service_port") (url_params-update (as_update p) s.listed)
        ∙ get-update_some "service_port" s.listed.url_params p v d h
        ∙ sym k,
    rw h (filter_port-some v s.charted) ∙ sym k,
  )

  pass_on-none :
      (p : Payload) (s : Sharing A)
      → IsObject p
      → entry "service_port" p ≡ none
      → Agrees s
      → Agrees (pass_on p s)
  unfolding pass_on
  pass_on-none p s d h k = (
    ap (get "service_port") (url_params-update (as_update p) s.listed)
        ∙ get-update_none "service_port" s.listed.url_params p d h
        ∙ k.0,
    rw h k.1,
  )

  advance-nothing :
      (f : StringFilter.State) (s : Sharing A)
      → f.sent ≡ s.field.sent
      → f.filter_value ≡ s.field.filter_value
      → Agrees s
      → Agrees (advance f s)
  unfolding advance pass_on_all
  advance-nothing f s h k agrees =
      let none_sent : drop (length s.field.sent) f.sent ≡ [] = rw h (
        ap (drop (length s.field.sent)) (sym (append-nil s.field.sent))
        ∙ drop-length_append s.field.sent []) in
      rw (none_sent, k) agrees

  advance-one :
      (f : StringFilter.State) (s : Sharing A)
      → f.sent ≡ s.field.sent ++ f.filter_value ∷ []
      → Agrees (advance f s)
  unfolding advance pass_on_all
  advance-one f s h =
      let one_sent : drop (length s.field.sent) f.sent ≡ f.filter_value ∷ [] =
        rw h (drop-length_append s.field.sent (f.filter_value ∷ [])) in
      rw one_sent (
        pass_on-some (("service_port", f.filter_value) ∷ []) f.filter_value (record s { field = f })
          (one_entry "service_port" f.filter_value) (own_entry "service_port" f.filter_value) refl)

  advance-Agrees :
      (f : StringFilter.State) (s : Sharing A) → Sends s.field f → Agrees s → Agrees (advance f s)
  advance-Agrees f s (inl (h, k)) agrees = advance-nothing f s h k agrees
  advance-Agrees f s (inr h) agrees = advance-one f s h

  deliver-Agrees :
      (p : Payload) (s : Sharing A)
      → IsObject p
      → Carries (entry "service_port" p)
      → Agrees s
      → Agrees (deliver p s)
  unfolding deliver connections_filters_callback
  deliver-Agrees p s d c agrees = elim (Option-cases (entry "service_port" p)) [
    | inl e ↦
        subst (λ f. Agrees (pass_on p (record s { field = f }))) (sym (callback-none p s.field e))
          (pass_on-none p s d e agrees)
    | inr (v, e) ↦
        subst (λ f. Agrees (pass_on p (record s { field = f }))) (sym (callback-some p v s.field e))
          (pass_on-some p v
            (record s { field = receive_value (port_filter "service_port") v s.field }) d e
            (receive-PortValue v s.field (subst Carries e c)))
  ]

  step-Agrees : (e : Event) (s : Sharing A) → IsFair e → Agrees s → Agrees (step e s)
  unfolding step press_service deliver_rules Params.entry
  step-Agrees (typed t) s h agrees =
      advance-Agrees (filter_changed (port_filter "service_port") t s.field) s
        (filter_changed-Sends t s.field) agrees
  step-Agrees (fired i) s h agrees =
      advance-Agrees (fire (port_filter "service_port") i s.field) s (fire-Sends i s.field) agrees
  step-Agrees (pressed port) s h agrees =
      deliver-Agrees (("service_port", some (to_text port)) ∷ []) s
        (one_entry "service_port" (some (to_text port))) (rw value_port h) agrees
  step-Agrees (filtered p) s h agrees = deliver-Agrees p s h.0 h.1 agrees
  step-Agrees (rules_filtered rules) s h agrees = (
    ap (get "service_port") (url_params-update (("matched_rules", array rules) ∷ []) s.listed)
        ∙ get-get_all "service_port"
            (update_params s.listed.url_params (("matched_rules", array rules) ∷ []))
        ∙ ap head? (
            get_all-update_params "service_port" s.listed.url_params
              (("matched_rules", array rules) ∷ []) (refl, tt))
        ∙ sym (get-get_all "service_port" s.listed.url_params)
        ∙ agrees.0,
    agrees.1,
  )

  run-Agrees_from : (es : List Event) (s : Sharing A) → All IsFair es → Agrees s → Agrees (run es s)
  unfolding run
  run-Agrees_from [] s h agrees = agrees
  run-Agrees_from (e ∷ es) s h agrees =
      run-Agrees_from es (step e s) h.1 (step-Agrees e s h.0 agrees)

or_null-PortValue : (v : Option Text) → PortValue v → or_null v ≡ v
unfolding or_null value_from
or_null-PortValue none h = refl
or_null-PortValue (some []) h = ground arith
or_null-PortValue (some (c ∷ cs)) h = refl

mount-Agrees {ℓ} :
    (A : Type ℓ) (path_id : Option Text) (params : Params)
    → PortValue (get "service_port" params)
    → Agrees (mount {A = A} path_id params)
unfolding mount StringFilter.component_did_mount Loading.component_did_mount
    Handlers.component_did_mount
mount-Agrees A none params h =
    let shown = update-PortValue (get "service_port" params) initial h in
    let charted = or_null-PortValue (get "service_port" params) h in
    (sym shown, charted ∙ sym shown)
mount-Agrees A (some i) params h =
    let shown = update-PortValue (get "service_port" params) initial h in
    let charted = or_null-PortValue (get "service_port" params) h in
    (sym shown, charted ∙ sym shown)

-- If the address names no port or one from 1 to 65564, then after any history of texts typed into
-- the header's port filter, its timers, clicks on the services of connections, and payloads of
-- other components, the port filter, the list's parameters and the timeline hold the same port,
-- if all ports that a click or a payload gives are such ports too, and the names of each payload
-- are distinct.
pub run-mount-Agrees {ℓ} :
    (A : Type ℓ) (es : List Event) (path_id : Option Text) (params : Params)
    → PortValue (get "service_port" params)
    → All IsFair es
    → Agrees (run es (mount {A = A} path_id params))
run-mount-Agrees A es path_id params h fair =
    run-Agrees_from es (mount {A = A} path_id params) fair (mount-Agrees A path_id params h)
