-- ===== src/Application/Setup.antt =====
-- frontend/src/components/pages/ConfigurationPage.js: the settings of the first start. `sent` is
-- the history of the requests, each with the settings as they are when it is sent. The accounts
-- are an object, from names to passwords, in the order in which they were added.
use caronte.Prelude.{
  Bool, true, false, not, ◌&&◌, ◌||◌, List, [], ◌∷◌, ◌++◌, Option, none, String, Text, length,
  filter, ◌==◌, nat_comparable, list_comparable, if◌then◌else◌, ltb,
}
use caronte.Forms.{mark}
use caronte.Utils.Validation.{is_valid_address}

pub record Config : Type 0 where
  pub server_address : Text
  pub flag_regex : Text
  pub auth_required : Bool

pub record Settings : Type 0 where
  pub config : Config
  pub accounts : List (Text × Text)

pub record State : Type 0 where
  pub settings : Settings
  pub new_username : Text
  pub new_password : Text
  pub new_username_active : Bool
  pub new_password_active : Bool
  pub server_address_error : Option String
  pub flag_regex_error : Option String
  pub setup_answer : Option (Text × Text)
  pub configured : Bool
  pub sent : List Settings

abbrev pub start : State
start = record {
  settings = record {
    config = record { server_address = []; flag_regex = []; auth_required = false };
    accounts = [];
  };
  new_username = [];
  new_password = [];
  new_username_active = false;
  new_password_active = false;
  server_address_error = none;
  flag_regex_error = none;
  setup_answer = none;
  configured = false;
  sent = [];
}

-- Whether the settings pass, and the state with the errors.
unfoldable pub validate_settings : Settings → State → Bool × State
validate_settings settings s =
    let bad_address = not (is_valid_address settings.config.server_address) in
    let short = ltb (length settings.config.flag_regex) 8 in
    (
      not (bad_address || short),
      record s {
        server_address_error = mark bad_address "invalid ip_address" s.server_address_error;
        flag_regex_error = mark short "flag_regex.length < 8" s.flag_regex_error;
      },
    )

unfoldable pub save_settings : State → State
unfolding validate_settings
save_settings s =
    let (valid, t) = validate_settings s.settings s in
    if valid then record t { sent = s.sent ++ s.settings ∷ [] } else t

-- The answers to the request: `onConfigured` is called, or the answer is shown, its status and text,
-- if there is one.
unfoldable pub settings_saved : State → State
settings_saved s = record s { configured = true }

unfoldable pub settings_refused : Option (Text × Text) → State → State
settings_refused answer s = record s { setup_answer = answer }

unfoldable pub update_param : (Settings → Settings) → State → State
update_param callback s = record s { settings = callback s.settings }

-- `accounts[name] = password`, and `delete accounts[name]`.
unfoldable pub set_account : Text → Text → List (Text × Text) → List (Text × Text)
set_account name password [] = (name, password) ∷ []
set_account name password ((n, p) ∷ ts) =
    if n == name then (n, password) ∷ ts else (n, p) ∷ set_account name password ts

unfoldable pub delete_account : Text → List (Text × Text) → List (Text × Text)
delete_account name ts = filter (λ (a : Text × Text). not (a.0 == name)) ts

unfoldable pub add_account : State → State
unfolding set_account
add_account s =
    let accounts = set_account s.new_username s.new_password s.settings.accounts in
    if not (length s.new_username == 0) && not (length s.new_password == 0)
    then record s {
      new_username = [];
      new_password = [];
      settings = record (s.settings) { accounts = accounts };
    }
    else record s {
      new_username_active = length s.new_username == 0;
      new_password_active = length s.new_password == 0;
    }

pub data Event : Type 0 where
  address_changed : Text → Event
  flag_regex_changed : Text → Event
  auth_required_checked : Bool → Event
  new_username_changed : Text → Event
  new_password_changed : Text → Event
  add_pressed : Event
  delete_pressed : Text → Event
  save_pressed : Event
  saved : Event
  refused_with : Option (Text × Text) → Event

abbrev pub with_config : (Config → Config) → Settings → Settings
with_config f settings = record settings { config = f settings.config }

unfoldable pub step : Event → State → State
step (address_changed v) s = update_param (with_config (λ c. record c { server_address = v })) s
step (flag_regex_changed v) s = update_param (with_config (λ c. record c { flag_regex = v })) s
step (auth_required_checked v) s =
    update_param (with_config (λ c. record c { auth_required = v })) s
step (new_username_changed v) s = record s { new_username = v }
step (new_password_changed v) s = record s { new_password = v }
step add_pressed s = add_account s
step (delete_pressed name) s =
    update_param (λ settings. record settings { accounts = delete_account name settings.accounts })
      s
step save_pressed s = save_settings s
step saved s = settings_saved s
step (refused_with a) s = settings_refused a s

unfoldable pub run : List Event → State → State
run [] s = s
run (e ∷ es) s = run es (step e s)
