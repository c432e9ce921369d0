-- ===== src/Stats.antt =====
-- frontend/src/components/panels/StatsPane.js: the totals of the services and the resources of the
-- server. A percentage is a text here, as `toFixed` makes it; numbers do not lose precision. The
-- statuses of the answers, which are shown beside the tables, are left out.
pub mod Sums
pub mod Rendering
pub mod Tests
use caronte.Prelude.{
  ℕ, ◌+◌, Bool, true, false, List, [], ◌∷◌, ◌++◌, Option, none, some, map, get_elem?, Text, text,
  starts_with, Comparable, ◌==◌, nat_comparable, list_comparable, if◌then◌else◌,
}

-- An object from ports, or from rules, to numbers.
abbrev pub Counts : Type 0
Counts = List (Text × ℕ)

-- `none` is undefined.
unfoldable pub count_of : Text → Counts → Option ℕ
count_of k [] = none
count_of k ((j, n) ∷ m) = if j == k then some n else count_of k m

pub record Totals : Type 0 where
  pub connections_per_service : Counts
  pub client_bytes_per_service : Counts
  pub server_bytes_per_service : Counts
  pub total_bytes_per_service : Counts
  pub duration_per_service : Counts
  pub matched_rules : Counts

pub record Cpu : Type 0 where
  pub cpu : Text
  pub times : List ℕ

pub record Memory : Type 0 where
  pub total : ℕ
  pub used : ℕ
  pub free : ℕ
  pub shared : ℕ
  pub cached : ℕ
  pub available : ℕ
  pub swaptotal : ℕ
  pub swapfree : ℕ

pub record SystemStats : Type 0 where
  pub cpu_times : List Cpu
  pub cpu_percents : List Text
  pub virtual_memory : Memory

-- What an answer leaves: nothing, also where the request failed without an answer, an error object,
-- or the statistics.
pub data Answer {ℓ} (A : Type ℓ) : Type ℓ where
  absent : Answer A
  refusal : Answer A
  stats : A → Answer A

pub record Rule : Type 0 where
  pub id : Text
  pub name : Text

pub record State : Type 0 where
  pub rules : List Rule
  pub totals : Answer Totals
  pub resources : Answer SystemStats
  pub stats_loads : ℕ
  pub resources_loads : ℕ
  pub rules_loads : ℕ

abbrev pub start : State
start = record {
  rules = [];
  totals = absent;
  resources = absent;
  stats_loads = 0;
  resources_loads = 0;
  rules_loads = 0;
}

-- The requests are counted.
unfoldable pub load_stats : State → State
load_stats s = record s { stats_loads = s.stats_loads + 1 }

unfoldable pub load_resources_stats : State → State
load_resources_stats s = record s { resources_loads = s.resources_loads + 1 }

unfoldable pub load_rules : State → State
load_rules s = record s { rules_loads = s.rules_loads + 1 }

unfoldable pub component_did_mount : State → State
unfolding load_stats load_resources_stats load_rules
component_did_mount s = load_rules (load_resources_stats (load_stats s))

unfoldable pub handle_notifications : Text → State → State
unfolding load_stats load_rules
handle_notifications event s =
    if starts_with event (text "pcap")
    then load_stats s
    else if starts_with event (text "rules")
    then load_rules s
    else s

pub data Event : Type 0 where
  mounted : Event
  notified : Text → Event
  three_seconds : Event
  stats_answered : Answer Totals → Event
  resources_answered : Answer SystemStats → Event
  rules_answered : List Rule → Event

unfoldable pub step : Event → State → State
step mounted s = component_did_mount s
step (notified e) s = handle_notifications e s
step three_seconds s = load_resources_stats s
step (stats_answered a) s = record s { totals = a }
step (resources_answered a) s = record s { resources = a }
step (rules_answered rs) s = record s { rules = rs }

unfoldable pub run : List Event → State → State
run [] s = s
run (e ∷ es) s = run es (step e s)

-- A row of the table of services; `none` is `NaN`, or undefined.
pub record Row : Type 0 where
  pub connections : Option ℕ
  pub client_bytes : Option ℕ
  pub server_bytes : Option ℕ
  pub total_bytes : Option ℕ
  pub duration : Option ℕ

abbrev pub add : Option ℕ → Option ℕ → Option ℕ
add (some a) (some b) = some (a + b)
add _ _ = none

unfoldable pub service_row : Totals → Text → Row
unfolding count_of
service_row t port = record {
  connections = count_of port t.connections_per_service;
  client_bytes = count_of port t.client_bytes_per_service;
  server_bytes = count_of port t.server_bytes_per_service;
  total_bytes = count_of port t.total_bytes_per_service;
  duration = count_of port t.duration_per_service;
}

-- `connections += …` and its like, for one port.
unfoldable pub add_row : Row → Row → Row
add_row a r = record {
  connections = add a.connections r.connections;
  client_bytes = add a.client_bytes r.client_bytes;
  server_bytes = add a.server_bytes r.server_bytes;
  total_bytes = add a.total_bytes r.total_bytes;
  duration = add a.duration r.duration;
}

abbrev pub zero_row : Row
zero_row = record {
  connections = some 0;
  client_bytes = some 0;
  server_bytes = some 0;
  total_bytes = some 0;
  duration = some 0;
}

abbrev pub ports_of : Answer Totals → List Text
ports_of absent = []
ports_of refusal = []
ports_of (stats t) = map (λ (c : Text × ℕ). c.0) t.connections_per_service

-- The rows of the ports, and the totals that are summed up on the way.
unfoldable pub services_stats : Totals → List Text → Row → List (Text × Row) × Row
unfolding service_row add_row
services_stats t [] totals = ([], totals)
services_stats t (p ∷ ps) totals =
    let (rows, all) = services_stats t ps (add_row totals (service_row t p)) in
    ((p, service_row t p) ∷ rows, all)

-- The occurrences of a rule, 0 where there are none.
unfoldable pub occurrences : Answer Totals → Rule → ℕ
unfolding count_of
occurrences (stats t) r = elim (count_of r.id t.matched_rules) [ none ↦ 0 | some n ↦ n ]
occurrences _ r = 0

-- The rows of the processors; `none` is that rendering throws, at an answer without them or at a
-- processor without a percentage.
unfoldable pub cpu_rows : List Cpu → List Text → Option (List (Cpu × Text))
cpu_rows [] ps = some []
cpu_rows (c ∷ cs) [] = none
cpu_rows (c ∷ cs) (p ∷ ps) = elim (cpu_rows cs ps) [
  | none ↦ none
  | some rows ↦ some ((c, p) ∷ rows)
]

unfoldable pub cpu_stats : Answer SystemStats → Option (List (Cpu × Text))
unfolding cpu_rows
cpu_stats absent = some []
cpu_stats refusal = none
cpu_stats (stats r) = cpu_rows r.cpu_times r.cpu_percents

-- The columns of the table of the memory: total, used, free, shared, buff/cache, available; `none`
-- is a dash.
unfoldable pub memory_row : Memory → List (Option ℕ)
memory_row m =
    some m.total ∷ some m.used ∷ some m.free ∷ some m.shared ∷ some m.cached ∷ some m.available ∷ []

unfoldable pub swap_row : Memory → List (Option ℕ)
swap_row m = some m.swaptotal ∷ some m.swaptotal ∷ some m.swapfree ∷ none ∷ none ∷ none ∷ []

-- The cells of the resources; nothing is shown before the first answer.
unfoldable pub memory_rows : Answer SystemStats → Option (List (List (Option ℕ)))
unfolding memory_row swap_row
memory_rows absent = some []
memory_rows refusal = none
memory_rows (stats r) = some (memory_row r.virtual_memory ∷ swap_row r.virtual_memory ∷ [])

-- What is rendered of the resources; `none` is that rendering throws.
unfoldable pub render_resources :
    Answer SystemStats → Option (List (Cpu × Text) × List (List (Option ℕ)))
unfolding cpu_stats memory_rows
render_resources a = elim (cpu_stats a) [
  | none ↦ none
  | some rows ↦ elim (memory_rows a) [ none ↦ none | some memory ↦ some (rows, memory) ]
]
