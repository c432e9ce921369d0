-- ===== src/Connections/Window.antt =====
-- The part of `loadConnections` in frontend/src/components/panels/ConnectionsPane.js that merges a
-- response into the list of shown connections, over any type of connection.
pub mod Bounds
pub mod Segment
pub mod Previous
pub mod Gap
use caronte.Prelude.{
  ℕ, ◌-◌, Bool, true, false, not, ◌&&◌, ◌||◌, List, [], ◌∷◌, ◌++◌, Option, none, some, length, take,
  drop, head?, last?, get_elem?, ltb, if◌then◌else◌,
}

abbrev pub max_connections : ℕ
max_connections = 200

-- `none` is null, or undefined for an element out of range.
pub record Window {ℓ} (A : Type ℓ) : Type ℓ where
  pub connections : List A
  pub first : Option A
  pub last : Option A

-- Which of the two cursors the request has.
pub record Cursors : Type 0 where
  pub from : Bool
  pub to : Bool

module _ {ℓ} {A : Type ℓ} where
  abbrev pub empty_window : Window A
  empty_window = record { connections = []; first = none; last = none }

  -- `xs.slice(start, end)` for bounds that are not negative.
  unfoldable pub slice : ℕ → ℕ → List A → List A
  slice start end xs = drop start (take end xs)

  abbrev pub is_empty : List A → Bool
  is_empty [] = true
  is_empty (_ ∷ _) = false

  unfoldable pub follow : Bool → Window A → List A → Window A
  follow is_initial w res =
      let connections = w.connections ++ (if is_initial then res else drop 1 res) in
      record {
        connections = connections;
        first = if is_initial then head? connections else w.first;
        last = last? connections;
      }

  unfoldable pub precede : Window A → List A → Window A
  unfolding slice
  precede w res =
      let connections = slice 0 (length res - 1) res ++ w.connections in
      record { connections = connections; first = head? connections; last = w.last }

-- `max` is the field `maxConnections`.
module _ {ℓ} {A : Type ℓ} (max : ℕ) where
  -- The cut after new connections came in behind the shown ones. What it drops at the front is
  -- what exceeds the maximum, and at the back it drops one more.
  unfoldable pub trim_front : Window A → Window A
  unfolding slice
  trim_front w =
      let n = length w.connections in
      let kept = slice (n - max) (n - 1) w.connections in
      if ltb max n then record { connections = kept; first = head? kept; last = w.last } else w

  unfoldable pub trim_back : Window A → Window A
  unfolding slice
  trim_back w =
      let kept = slice 0 max w.connections in
      if ltb max (length w.connections)
      then record { connections = kept; first = w.first; last = get_elem? kept (max - 1) }
      else w

  unfoldable pub merge : Cursors → Bool → Window A → List A → Window A
  unfolding follow precede trim_front trim_back
  merge c is_initial w res =
      if c.from && not c.to
      then (if is_empty res then w else trim_front (follow is_initial w res))
      else if c.to && not c.from
      then (if is_empty res then w else trim_back (precede w res))
      else record { connections = res; first = head? res; last = last? res }
