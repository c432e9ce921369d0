-- ===== src/Rules/Backend.antt =====
-- What a rule's bounds mean to the backend: the filter functions of FillWithMatchedRules in
-- rules_manager.go for the duration and the bytes of a connection. (The other functions compare
-- the address and the ports.)
use caronte.Prelude.{
  ℕ, ◌≤◌, ◌<◌, ◌≡◌, ◌↔◌, Bool, true, ◌&&◌, ◌||◌, ◌==◌, nat_comparable, leb, arith,
}
use caronte.Rules.{Rule, Filter, Errors}
use caronte.Rules.Form.{validate_rule}
use caronte.Rules.Validation.{validate_rule_lem}

-- `duration` is the difference of the times, in milliseconds.
unfoldable pub duration_matches : Filter → ℕ → Bool
duration_matches f duration =
    (f.min_duration == 0 || leb f.min_duration duration)
    && (f.max_duration == 0 || leb duration f.max_duration)

-- `bytes` is the sum of both sides.
unfoldable pub bytes_match : Filter → ℕ → Bool
bytes_match f bytes =
    (f.min_bytes == 0 || leb f.min_bytes bytes) && (f.max_bytes == 0 || leb bytes f.min_bytes)

-- A rule that the form accepts and that has a lower bound of the duration also has an upper bound
-- that is not 0, and matches exactly the durations from the one to the other, in the backend’s
-- reading of the bounds.
validate_rule-duration_matches :
    (r : Rule) (e : Errors) (d : ℕ)
    → (validate_rule r e).0 ≡ true
    → 0 < r.filter.min_duration
    → (0 < r.filter.max_duration)
      × (duration_matches r.filter d ≡ true
          ↔ (r.filter.min_duration ≤ d) × (d ≤ r.filter.max_duration))
unfolding duration_matches
validate_rule-duration_matches r e d v h =
    let bounds = ((validate_rule_lem r e).0 v).duration in ground arith

-- A rule with an upper bound of the bytes matches exactly the connections with as many bytes as its
-- lower bound says.
bytes_match_lem :
    (f : Filter) (bytes : ℕ) → 0 < f.max_bytes → (bytes_match f bytes ≡ true ↔ bytes ≡ f.min_bytes)
unfolding bytes_match
bytes_match_lem f bytes h = ground arith
