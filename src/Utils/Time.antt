-- ===== src/Utils/Time.antt =====
-- The time helpers of frontend/src/utils.js. A `Date` enters by its local hours, minutes and
-- seconds, or by its milliseconds; the time zone that relates the two is not modelled.
pub mod Clock
use caronte.Prelude.{
  ℕ, zero, suc, ◌+◌, ◌-◌, ◌*◌, ◌/◌, ◌%◌, Bool, true, false, ◌&&◌, ◌||◌, List, [], ◌∷◌, ◌++◌, Option,
  none, some, Comparable, ◌==◌, nat_comparable, if◌then◌else◌, leb, ltb, Text, text, is_digit,
  length, drop, ℤ, pos, negsuc, sub_ℕ,
}
use caronte.Utils.Numbers.{to_text}

pub record Time : Type 0 where
  pub hours : ℕ
  pub minutes : ℕ
  pub seconds : ℕ

-- `s.substr(-2)`
unfoldable pub last_two : Text → Text
last_two s = drop (length s - 2) s

-- `dateTimeToTime`, and `timestampToTime` behind its conversion to a date.
unfoldable pub date_time_to_time : Time → Text
unfolding last_two
date_time_to_time t =
    to_text t.hours
    ++ b':' ∷ (last_two (b'0' ∷ to_text t.minutes) ++ b':' ∷ last_two (b'0' ∷ to_text t.seconds))

-- `(0[0-9]|1[0-9]|2[0-3])`
unfoldable pub is_hour : ℕ → ℕ → Bool
is_hour a b =
    (a == b'0' && is_digit b)
    || (a == b'1' && is_digit b)
    || (a == b'2' && leb b'0' b && leb b b'3')

-- `([0-5][0-9])`
unfoldable pub is_sixty : ℕ → ℕ → Bool
is_sixty a b = leb b'0' a && leb a b'5' && is_digit b

-- `timeRegex`, with its three groups.
unfoldable pub match_time : Text → Option (Text × Text × Text)
unfolding is_hour is_sixty
match_time (h ∷ h' ∷ c ∷ m ∷ m' ∷ d ∷ s ∷ s' ∷ []) =
    if is_hour h h' && c == b':' && is_sixty m m' && d == b':' && is_sixty s s'
    then some (h ∷ h' ∷ [], m ∷ m' ∷ [], s ∷ s' ∷ [])
    else none
match_time _ = none

unfoldable pub validate_24_hour_time : Text → Bool
unfolding match_time
validate_24_hour_time time = elim (match_time time) [ none ↦ false | some _ ↦ true ]

-- `toFixed(3)` of a number of milliseconds divided by 1000.
unfoldable pub fixed_seconds : ℕ → Text
fixed_seconds ms =
    to_text (ms / 1000)
    ++ b'.' ∷ (b'0' + ms / 100 % 10) ∷ (b'0' + ms / 10 % 10) ∷ (b'0' + ms % 10) ∷ []

-- `durationBetween`, of the two dates' milliseconds.
unfoldable pub duration_text : ℤ → Text
unfolding fixed_seconds
duration_text (pos ms) = if ltb 1000000 ms then text "∞" else fixed_seconds ms ++ b's' ∷ []
duration_text (negsuc ms) =
    if ltb 1000000 (suc ms) then text "∞" else b'-' ∷ (fixed_seconds (suc ms) ++ b's' ∷ [])

unfoldable pub duration_between : ℕ → ℕ → Text
unfolding duration_text
duration_between from to = duration_text (sub_ℕ to from)
