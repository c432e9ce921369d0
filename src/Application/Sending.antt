-- ===== src/Application/Sending.antt =====
-- Which settings frontend/src/components/pages/ConfigurationPage.js sends.
use caronte.Prelude.{
  ◌≤◌, ◌≡◌, true, not, ◌&&◌, List, [], ◌∷◌, Text, length, All, All-append_one, All-filter, if_both,
  Bool-cases, inl, inr, ◌==◌, nat_comparable, list_comparable, arith,
}
use caronte.Utils.Validation.{is_valid_address}
use caronte.Application.Setup.{
  Settings, State, start, validate_settings, save_settings, settings_saved, settings_refused,
  update_param, set_account, delete_account, add_account, Event, address_changed,
  flag_regex_changed, auth_required_checked, new_username_changed, new_password_changed,
  add_pressed, delete_pressed, save_pressed, saved, refused_with, step, run,
}

abbrev pub IsAccount : Text × Text → Type 0
IsAccount a = (1 ≤ length a.0) × (1 ≤ length a.1)

pub record IsValidSettings (s : Settings) : Type 0 where
  pub long : 8 ≤ length s.config.flag_regex
  pub accounts : All IsAccount s.accounts

record IsSound (s : State) : Type 0 where
  accounts : All IsAccount s.settings.accounts
  requests : All IsValidSettings s.sent

set_account-IsAccount :
    (name password : Text) (ts : List (Text × Text))
    → IsAccount (name, password)
    → All IsAccount ts
    → All IsAccount (set_account name password ts)
unfolding set_account
set_account-IsAccount name password [] h v = (h, tt)
set_account-IsAccount name password (t ∷ ts) h v =
    if_both (All IsAccount) (t.0 == name) ((t.0, password) ∷ ts) (t ∷ set_account name password ts)
      ((v.0.0, h.1), v.1) (v.0, set_account-IsAccount name password ts h v.1)

add-IsSound : (s : State) → IsSound s → IsSound (add_account s)
unfolding add_account
add-IsSound s v =
    elim (Bool-cases (not (length s.new_username == 0) && not (length s.new_password == 0))) [
      | inl e ↦ rw e (record {
        accounts =
            set_account-IsAccount s.new_username s.new_password s.settings.accounts
              (ground (arith, e)) v.accounts;
        requests = v.requests;
      })
      | inr e ↦ rw e (record { accounts = v.accounts; requests = v.requests })
    ]

valid_lem :
    (settings : Settings) (s : State)
    → (validate_settings settings s).0 ≡ true
    → 8 ≤ length settings.config.flag_regex
unfolding validate_settings is_valid_address
valid_lem settings s h = ground arith

save-IsSound : (s : State) → IsSound s → IsSound (save_settings s)
unfolding save_settings
save-IsSound s v = elim (Bool-cases (validate_settings s.settings s).0) [
  | inl e ↦ rw e (record {
    accounts = v.accounts;
    requests =
        All-append_one IsValidSettings s.sent s.settings v.requests
          (record { long = valid_lem s.settings s e; accounts = v.accounts });
  })
  | inr e ↦ rw e (record { accounts = v.accounts; requests = v.requests })
]

step-IsSound : (e : Event) (s : State) → IsSound s → IsSound (step e s)
unfolding step update_param settings_saved settings_refused delete_account
step-IsSound (address_changed t) s v = record { accounts = v.accounts; requests = v.requests }
step-IsSound (flag_regex_changed t) s v = record { accounts = v.accounts; requests = v.requests }
step-IsSound (auth_required_checked b) s v = record { accounts = v.accounts; requests = v.requests }
step-IsSound (new_username_changed t) s v = record { accounts = v.accounts; requests = v.requests }
step-IsSound (new_password_changed t) s v = record { accounts = v.accounts; requests = v.requests }
step-IsSound add_pressed s v = add-IsSound s v
step-IsSound (delete_pressed name) s v = record {
  accounts =
      All-filter IsAccount (λ (a : Text × Text). not (a.0 == name)) s.settings.accounts v.accounts;
  requests = v.requests;
}
step-IsSound save_pressed s v = save-IsSound s v
step-IsSound saved s v = record { accounts = v.accounts; requests = v.requests }
step-IsSound (refused_with a) s v = record { accounts = v.accounts; requests = v.requests }

run-IsSound : (es : List Event) (s : State) → IsSound s → IsSound (run es s)
unfolding run
run-IsSound [] s v = v
run-IsSound (e ∷ es) s v = run-IsSound es (step e s) (step-IsSound e s v)

-- After any history of inputs and answers, all settings that were sent have a regular expression of
-- at least eight characters for the flags, and accounts whose names and passwords are not empty.
run-IsValidSettings : (es : List Event) → All IsValidSettings (run es start).sent
run-IsValidSettings es = (run-IsSound es start (record { accounts = tt; requests = tt })).requests
