-- ===== src/Filters/StringFilter/Debounce.antt =====
-- The timer of frontend/src/components/filters/StringConnectionsFilter.js: one value waits at most,
-- and it is that of the last input.
use caronte.Prelude.{
  ℕ, false, ◌≡◌, refl, sym, append-nil, List, [], ◌∷◌, ◌++◌, Option, none, some, find, map, ◌==◌,
  nat_comparable, string_comparable, list_comparable, option_comparable, if◌then◌else◌, Text, arith,
  ==_refl, Bool-cases, Option-cases, inl, inr,
}
use caronte.Filters.StringFilter.{
  Props, Timeout, State, initial, Payload, entry, apply_func, clear_timeout, is_value_valid,
  update_state_from_filter_value, receive_value, connections_filters_callback, change_filter_value,
  accept_value, filter_changed, fire, Event, input, payload, timer, step, run,
}

-- No timer is pending, or one, whose handle is the one in the state.
abbrev pub Single : Option ℕ → List Timeout → Type 0
Single h [] = Unit
Single h (t ∷ []) = h ≡ some t.handle
Single h (_ ∷ _ ∷ _) = ⊥

abbrev pub IsSingle : State → Type 0
IsSingle s = Single s.timeout_handle s.pending

clear-Single : (h : Option ℕ) (ts : List Timeout) → Single h ts → clear_timeout h ts ≡ []
unfolding clear_timeout
clear-Single none [] k = refl
clear-Single none (t ∷ []) k = cc
clear-Single none (t ∷ u ∷ ts) k = absurd k
clear-Single (some h) [] k = refl
clear-Single (some h) (t ∷ []) k = ground (arith, ==_refl t.handle)
clear-Single (some h) (t ∷ u ∷ ts) k = absurd k

clear_one-Single :
    (h : Option ℕ) (q : ℕ) (ts : List Timeout) → Single h ts → Single h (clear_timeout (some q) ts)
unfolding clear_timeout
clear_one-Single h q [] k = tt
clear_one-Single h q (t ∷ []) k = elim (Bool-cases (t.handle == q)) [
  | inl e ↦ rw e tt
  | inr e ↦ rw e k
]
clear_one-Single h q (t ∷ u ∷ ts) k = absurd k

module _ (props : Props) where
  -- What an update from outside leaves alone.
  record Keeps (s t : State) : Type 0 where
    pub pending : t.pending ≡ s.pending
    pub timeout_handle : t.timeout_handle ≡ s.timeout_handle
    pub sent : t.sent ≡ s.sent
    pub next_handle : t.next_handle ≡ s.next_handle

  update-Keeps : (v : Option Text) (s : State) → Keeps s (update_state_from_filter_value props v s)
  unfolding update_state_from_filter_value
  update-Keeps none s = ground arith
  update-Keeps (some v) s = ground arith

  receive-Keeps : (v : Option Text) (s : State) → Keeps s (receive_value props v s)
  unfolding receive_value
  receive-Keeps v s = ground (arith, update-Keeps v s)

  callback-Keeps : (p : Payload) (s : State) → Keeps s (connections_filters_callback props p s)
  unfolding connections_filters_callback
  callback-Keeps p s = elim (Option-cases (entry props.filter_name p)) [
    | inl e ↦ rw (e, connections_filters_callback) (ground arith)
    | inr (v, e) ↦ rw (e, connections_filters_callback) (receive-Keeps v s)
  ]

  change-Keeps :
      (v : Option Text) (s : State)
      → Keeps (record s { sent = s.sent ++ v ∷ [] }) (change_filter_value props v s)
  unfolding change_filter_value
  change-Keeps v s =
      callback-Keeps ((props.filter_name, v) ∷ []) (record s { sent = s.sent ++ v ∷ [] })

  -- The value that waits after an input, if one does.
  abbrev pub scheduled : Text → List Text
  scheduled [] = []
  scheduled (c ∷ cs) =
      if is_value_valid props (c ∷ cs) then apply_func props.encode_func (c ∷ cs) ∷ [] else []

  -- The values that an input sends at once: an empty field takes the filter off.
  abbrev pub sent_at_once : Text → List (Option Text)
  sent_at_once [] = none ∷ []
  sent_at_once (c ∷ cs) = []

  abbrev waiting : State → List Text
  waiting s = map (λ (t : Timeout). t.value) s.pending

  accept_empty-Keeps :
      (s : State) → Keeps (record s { sent = s.sent ++ none ∷ [] }) (accept_value props [] s)
  unfolding accept_value
  accept_empty-Keeps s =
      let k =
        change-Keeps none
          (record s { field_value = []; filter_value = none; invalid_value = false }) in
      record {
        pending = k.pending;
        timeout_handle = k.timeout_handle;
        sent = k.sent;
        next_handle = k.next_handle;
      }

  -- What an input leaves behind once the earlier timer is cleared.
  record Accepted (v : Text) (s t : State) : Type 0 where
    pub single : IsSingle t
    pub waits : waiting t ≡ scheduled v
    pub sent : t.sent ≡ s.sent ++ sent_at_once v

  accept_empty : (s : State) → s.pending ≡ [] → Accepted [] s (accept_value props [] s)
  accept_empty s e =
      let k = accept_empty-Keeps s in
      record { single = rw (k.pending, e) tt; waits = rw (k.pending, e); sent = k.sent }

  accept-Accepted : (v : Text) (s : State) → s.pending ≡ [] → Accepted v s (accept_value props v s)
  unfolding accept_value
  accept-Accepted [] s e = accept_empty s e
  accept-Accepted (c ∷ cs) s e = elim (Bool-cases (is_value_valid props (c ∷ cs))) [
    | inl valid ↦
        rw (valid)
          (record { single = rw e refl; waits = rw (e, valid); sent = sym (append-nil s.sent) })
    | inr invalid ↦
        rw (invalid)
          (record { single = rw e tt; waits = rw (e, invalid); sent = sym (append-nil s.sent) })
  ]

  filter_changed-Accepted :
      (x : Text) (s : State)
      → IsSingle s
      → Accepted (apply_func props.replace_func x) s (filter_changed props x s)
  unfolding filter_changed
  filter_changed-Accepted x s h =
      let r =
        accept-Accepted (apply_func props.replace_func x)
          (record s { pending = clear_timeout s.timeout_handle s.pending })
          (clear-Single s.timeout_handle s.pending h) in
      record { single = r.single; waits = r.waits; sent = r.sent }

  fired-IsSingle :
      (t : Timeout) (h : ℕ) (s : State)
      → IsSingle s
      → IsSingle (
          change_filter_value props
            (some t.value)
            (record s { filter_value = some t.value; pending = clear_timeout (some h) s.pending }))
  fired-IsSingle t h s k =
      let c =
        change-Keeps (some t.value)
          (record s { filter_value = some t.value; pending = clear_timeout (some h) s.pending }) in
      rw (c.pending, c.timeout_handle) (clear_one-Single s.timeout_handle h s.pending k)

  -- A timer that fires leaves at most the others.
  fire-IsSingle : (h : ℕ) (s : State) → IsSingle s → IsSingle (fire props h s)
  unfolding fire
  fire-IsSingle h s k = elim (Option-cases (find (λ t. t.handle == h) s.pending)) [
    | inl e ↦ rw (e, fire) k
    | inr (t, e) ↦ rw (e, fire) (fired-IsSingle t h s k)
  ]

  step-IsSingle : (e : Event props) (s : State) → IsSingle s → IsSingle (step props e s)
  unfolding step
  step-IsSingle (input x) s h = (filter_changed-Accepted x s h).single
  step-IsSingle (payload p) s h = let k = callback-Keeps p s in rw (k.pending, k.timeout_handle) h
  step-IsSingle (timer q) s h = fire-IsSingle q s h

  run-IsSingle : (es : List (Event props)) (s : State) → IsSingle s → IsSingle (run props es s)
  unfolding run
  run-IsSingle [] s h = h
  run-IsSingle (e ∷ es) s h = run-IsSingle es (step props e s) (step-IsSingle e s h)

  -- After any history and one more input, the only value that waits to be sent is that of this
  -- input, if it is valid and not empty, and none waits else; an empty input sends null at once, and
  -- no other input sends anything before its timer fires.
  pub waiting-input :
      (es : List (Event props)) (x : Text)
      → let s = run props es initial in
        let t = step props (input x) s in
        let v = apply_func props.replace_func x in
        (map (λ (u : Timeout). u.value) t.pending ≡ scheduled v)
        × (t.sent ≡ s.sent ++ sent_at_once v)
  unfolding step
  waiting-input es x =
      let r = filter_changed-Accepted x (run props es initial) (run-IsSingle es initial tt) in
      (r.waits, r.sent)
