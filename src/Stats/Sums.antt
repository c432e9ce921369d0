-- ===== src/Stats/Sums.antt =====
-- The row of totals of frontend/src/components/panels/StatsPane.js.
use caronte.Prelude.{
  ℕ, ◌≡◌, refl, sym, ◌∙◌, ap, List, [], ◌∷◌, Option, none, some, map, Text, arith,
}
use caronte.Stats.{
  Counts, count_of, Totals, Row, add, service_row, add_row, zero_row, services_stats,
}

-- The specification: the sum over the ports, NaN if one has no number.
abbrev pub sum_counts : Counts → List Text → Option ℕ
sum_counts m [] = some 0
sum_counts m (p ∷ ps) = add (count_of p m) (sum_counts m ps)

abbrev pub sum_row : Totals → List Text → Row
sum_row t ps = record {
  connections = sum_counts t.connections_per_service ps;
  client_bytes = sum_counts t.client_bytes_per_service ps;
  server_bytes = sum_counts t.server_bytes_per_service ps;
  total_bytes = sum_counts t.total_bytes_per_service ps;
  duration = sum_counts t.duration_per_service ps;
}

add_assoc : (a b c : Option ℕ) → add (add a b) c ≡ add a (add b c)
add_assoc none b c = refl
add_assoc (some a) none c = refl
add_assoc (some a) (some b) none = refl
add_assoc (some a) (some b) (some c) = ground arith

add_zero : (a : Option ℕ) → add (some 0) a ≡ a
add_zero none = refl
add_zero (some a) = ground arith

zero_add : (a : Option ℕ) → add a (some 0) ≡ a
zero_add none = refl
zero_add (some a) = ground arith

module _ (t : Totals) where
  row_assoc : (a b c : Row) → add_row (add_row a b) c ≡ add_row a (add_row b c)
  unfolding add_row
  row_assoc a b c = simp (
    add_assoc a.connections b.connections c.connections,
    add_assoc a.client_bytes b.client_bytes c.client_bytes,
    add_assoc a.server_bytes b.server_bytes c.server_bytes,
    add_assoc a.total_bytes b.total_bytes c.total_bytes,
    add_assoc a.duration b.duration c.duration,
  )

  row_cons :
      (p : Text) (ps : List Text) → add_row (service_row t p) (sum_row t ps) ≡ sum_row t (p ∷ ps)
  unfolding add_row service_row
  row_cons p ps = refl

  row_zero : (a : Row) → add_row zero_row a ≡ a
  unfolding add_row
  row_zero a = simp (
    add_zero a.connections,
    add_zero a.client_bytes,
    add_zero a.server_bytes,
    add_zero a.total_bytes,
    add_zero a.duration,
  )

  add_nil : (a : Row) → add_row a (sum_row t []) ≡ a
  unfolding add_row
  add_nil a = simp (
    zero_add a.connections,
    zero_add a.client_bytes,
    zero_add a.server_bytes,
    zero_add a.total_bytes,
    zero_add a.duration,
  )

  rows_from :
      (ps : List Text) (acc : Row)
      → services_stats t ps acc ≡ (map (λ p. (p, service_row t p)) ps, add_row acc (sum_row t ps))
  unfolding services_stats
  rows_from [] acc = ap (λ a. ([], a)) (sym (add_nil acc))
  rows_from (p ∷ ps) acc = rw (rows_from ps (add_row acc (service_row t p))) (
      ap (λ a. ((p, service_row t p) ∷ map (λ p. (p, service_row t p)) ps, a))
        (row_assoc acc (service_row t p) (sum_row t ps) ∙ ap (add_row acc) (row_cons p ps)))

  -- The table has a row for each port, with its numbers, in the order of the ports, and a row of
  -- totals, which has the sum of each column over the ports, NaN where one of them has no number.
  pub services_stats-totals :
      (ps : List Text)
      → services_stats t ps zero_row ≡ (map (λ p. (p, service_row t p)) ps, sum_row t ps)
  services_stats-totals ps =
      rows_from ps zero_row
      ∙ ap (λ a. (map (λ p. (p, service_row t p)) ps, a)) (row_zero (sum_row t ps))
