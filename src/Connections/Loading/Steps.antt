-- ===== src/Connections/Loading/Steps.antt =====
-- The steps of the pane of frontend/src/components/panels/ConnectionsPane.js: its handlers, and the
-- answers to its loads in any order.
use caronte.Prelude.{ℕ, ◌≡◌, List, ◌∷◌, Text, string_comparable, list_comparable, nat_comparable}
use caronte.Utils.Params.{Params, Payload}
use caronte.Connections.Loading.{
  Load, Pane, Scroll, for_rules, for_services, for_connections, handle_connections_filters,
  handle_timeline_updates, press_most_recent, handle_scroll, rules_come, services_come,
  connections_come, load_fails,
}

-- One load is taken out of the list.
pub data Picks : List Load → Load → List Load → Type 0 where
  first : {l : Load} {ls : List Load} → Picks (l ∷ ls) l ls
  later : {k l : Load} {ks ls : List Load} → Picks ks l ls → Picks (k ∷ ks) l (k ∷ ls)

-- The steps of the pane. `answer` is the backend's answer to a query, which depends on the time.
pub data Step {ℓ} {A : Type ℓ} (max : ℕ) (id : A → Text) (answer : ℕ → Params → List A) (s : Pane A)
    : Pane A → Type ℓ where
  filters : (p : Payload) → Step max id answer s (handle_connections_filters p s)
  timeline : (after before : Text) → Step max id answer s (handle_timeline_updates after before s)
  most_recent : Step max id answer s (press_most_recent s)
  scrolls : (e : Scroll) → Step max id answer s (handle_scroll id e s)
  gets_rules :
      (l : Load) (ls : List Load)
      → Picks s.loads l ls
      → l.stage ≡ for_rules
      → Step max id answer s (rules_come l (record s { loads = ls }))
  gets_services :
      (l : Load) (ls : List Load)
      → Picks s.loads l ls
      → l.stage ≡ for_services
      → Step max id answer s (services_come l (record s { loads = ls }))
  gets_connections :
      (l : Load) (ls : List Load) (time : ℕ)
      → Picks s.loads l ls
      → l.stage ≡ for_connections
      → Step max id answer s
          (connections_come max l (answer time l.query) (record s { loads = ls }))
  fails : (l : Load) (ls : List Load) → Picks s.loads l ls → Step max id answer s (load_fails ls s)

pub data Reach {ℓ} {A : Type ℓ} (max : ℕ) (id : A → Text) (answer : ℕ → Params → List A)
    (s : Pane A) : Pane A → Type ℓ where
  here : Reach max id answer s s
  next_step :
      {t u : Pane A} → Reach max id answer s t → Step max id answer t u → Reach max id answer s u
