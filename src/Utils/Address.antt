-- ===== src/Utils/Address.antt =====
-- `validateIpAddress` of frontend/src/utils.js: its regular expression, part by part. The search is
-- that of Utils/Regex.
pub mod Quads
pub mod Groups
use caronte.Prelude.{
  ℕ, ◌-◌, Bool, not, ◌&&◌, ◌||◌, List, [], ◌∷◌, any, Text, leb, is_digit, ◌==◌, nat_comparable,
}
use caronte.Utils.Numbers.{is_space}
use caronte.Utils.Validation.{is_hex}
use caronte.Utils.Regex.{
  Regex, blank, char, one, many, seq, either, optional, times, up_to, one_to, test,
}

abbrev pub between : ℕ → ℕ → ℕ → Bool
between a b c = leb a c && leb c b

abbrev pub digit : Regex
digit = one is_digit

-- `([0-9]|[1-9][0-9]|1[0-9]{2}|2[0-4][0-9]|25[0-5])`
unfoldable pub octet : Regex
octet = either digit (
    either (seq (one (between b'1' b'9')) digit) (
      either (seq (char b'1') (times 2 digit)) (
        either (seq (char b'2') (seq (one (between b'0' b'4')) digit))
          (seq (char b'2') (seq (char b'5') (one (between b'0' b'5')))))))

-- `(octet\.){3}octet`
unfoldable pub quad : Regex
unfolding octet
quad = seq (times 3 (seq octet (char b'.'))) octet

-- `(25[0-5]|2[0-4]\d|1\d\d|[1-9]?\d)`
unfoldable pub tail_octet : Regex
tail_octet = either (seq (char b'2') (seq (char b'5') (one (between b'0' b'5')))) (
    either (seq (char b'2') (seq (one (between b'0' b'4')) digit))
      (either (seq (char b'1') (seq digit digit)) (seq (optional (one (between b'1' b'9'))) digit)))

-- `(octet(\.octet){3})`
unfoldable pub tail_quad : Regex
unfolding tail_octet
tail_quad = seq tail_octet (times 3 (seq (char b'.') tail_octet))

-- `[0-9A-Fa-f]{1,4}`
unfoldable pub group : Regex
group = one_to 4 (one is_hex)

abbrev pub group_colon : Regex
group_colon = seq group (char b':')

abbrev pub colon_group : Regex
colon_group = seq (char b':') group

-- `(([0-9A-Fa-f]{1,4}:){7}([0-9A-Fa-f]{1,4}|:))`
unfoldable pub seven_groups : Regex
unfolding group
seven_groups = seq (times 7 group_colon) (either group (char b':'))

-- `(([0-9A-Fa-f]{1,4}:){6}(:[0-9A-Fa-f]{1,4}|quad|:))`
unfoldable pub six_groups : Regex
unfolding group tail_quad
six_groups = seq (times 6 group_colon) (either colon_group (either tail_quad (char b':')))

-- The alternative for `n` groups, one to five: `(([0-9A-Fa-f]{1,4}:){n}(groups|after:quad|:))`,
-- with one to 7 - n groups, and none to 5 - n groups before the four numbers. For no group it is
-- the last alternative, in which a colon stands before the brackets.
unfoldable pub few_groups : ℕ → Regex
unfolding group tail_quad
few_groups n = seq (times n group_colon) (
    either (one_to (7 - n) colon_group)
      (either (seq (up_to (5 - n) colon_group) (seq (char b':') tail_quad)) (char b':')))

unfoldable pub no_groups : Regex
unfolding few_groups
no_groups = seq (char b':') (few_groups 0)

unfoldable pub groups : Regex
unfolding seven_groups six_groups few_groups no_groups
groups = either seven_groups (
    either six_groups (
      either (few_groups 5) (
        either (few_groups 4)
          (either (few_groups 3) (either (few_groups 2) (either (few_groups 1) no_groups))))))

-- What `.` stands for.
abbrev pub is_no_line_end : ℕ → Bool
is_no_line_end c = not (any (λ d. d == c) (10 ∷ 13 ∷ 0x2028 ∷ 0x2029 ∷ []))

-- `(%.+)?`
unfoldable pub zone : Regex
zone = optional (seq (char b'%') (seq (one is_no_line_end) (many is_no_line_end)))

abbrev pub spaces : Regex
spaces = many is_space

unfoldable pub ip_address : Regex
unfolding quad groups zone
ip_address = either (seq spaces (seq quad spaces)) (seq spaces (seq groups (seq zone spaces)))

unfoldable pub validate_ip_address : Text → Bool
unfolding ip_address test
validate_ip_address address = test ip_address address
