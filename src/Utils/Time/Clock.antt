-- ===== src/Utils/Time/Clock.antt =====
-- The times that frontend/src/utils.js prints, against the times that it accepts.
use caronte.Prelude.{
  ℕ, ◌+◌, ◌/◌, ◌%◌, ◌≤◌, ◌<◌, ◌≡◌, true, [], ◌∷◌, ◌++◌, none, some, nat_comparable, if◌then◌else◌,
  ltb, Text, arith, inl, inr, Bool-cases, ltb→lt,
}
use caronte.Utils.Numbers.{to_text}
use caronte.Utils.Numbers.Decimal.{to_text_digit, to_text_long}
use caronte.Utils.Time.{Time, last_two, date_time_to_time, is_hour, is_sixty, match_time}

-- The two digits of a number below 100.
abbrev pub two_digits : ℕ → Text
two_digits n = (b'0' + n / 10) ∷ (b'0' + n % 10) ∷ []

to_text_two : (n : ℕ) → 10 ≤ n → n < 100 → to_text n ≡ two_digits n
to_text_two n h k = ground (arith, to_text_long n h, to_text_digit (n / 10))

last_two-to_text : (n : ℕ) → n < 100 → last_two (b'0' ∷ to_text n) ≡ two_digits n
unfolding last_two
last_two-to_text n h = elim (Bool-cases (ltb n 10)) [
  | inl small ↦ ground (arith, to_text_digit n)
  | inr large ↦ ground (arith, to_text_two n)
]

-- The time of day, as a date gives it.
pub record IsTime (t : Time) : Type 0 where
  pub hours : t.hours < 24
  pub minutes : t.minutes < 60
  pub seconds : t.seconds < 60

is_sixty_digits : (n : ℕ) → n < 60 → is_sixty (b'0' + n / 10) (b'0' + n % 10) ≡ true
unfolding is_sixty
is_sixty_digits n h = ground arith

is_hour_digits : (n : ℕ) → n < 24 → is_hour (b'0' + n / 10) (b'0' + n % 10) ≡ true
unfolding is_hour
is_hour_digits n h = ground arith

date_time_to_time_lem :
    (t : Time)
    → IsTime t
    → date_time_to_time t
      ≡ to_text t.hours ++ b':' ∷ (two_digits t.minutes ++ b':' ∷ two_digits t.seconds)
unfolding date_time_to_time
date_time_to_time_lem t v =
    rw (last_two-to_text t.minutes (omega arith), last_two-to_text t.seconds (omega arith))

match_time_digits :
    (t : Time)
    → IsTime t
    → match_time
        (two_digits t.hours ++ b':' ∷ (two_digits t.minutes ++ b':' ∷ two_digits t.seconds))
      ≡ some (two_digits t.hours, two_digits t.minutes, two_digits t.seconds)
unfolding match_time
match_time_digits t v = rw (
  is_hour_digits t.hours v.hours,
  is_sixty_digits t.minutes v.minutes,
  is_sixty_digits t.seconds v.seconds,
)

-- From ten o'clock on, the printed time is accepted, and its groups are the date's two-digit
-- hours, minutes and seconds; before ten it is not accepted, as its hour has one digit.
pub match_time-date_time_to_time :
    (t : Time)
    → IsTime t
    → match_time (date_time_to_time t) ≡ (
        if ltb t.hours 10
        then none
        else some (two_digits t.hours, two_digits t.minutes, two_digits t.seconds))
unfolding match_time
match_time-date_time_to_time t v = elim (Bool-cases (ltb t.hours 10)) [
  | inl early ↦ rw (early, date_time_to_time_lem t v, to_text_digit t.hours (ltb→lt _ _ early))
  | inr late ↦
      rw (late, date_time_to_time_lem t v, to_text_two t.hours (ground arith) (omega arith))
        (match_time_digits t v)
]
