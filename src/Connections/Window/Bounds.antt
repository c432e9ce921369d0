-- ===== src/Connections/Window/Bounds.antt =====
-- The size of the list of connections, and its first entry.
use caronte.Prelude.{
  ℕ, zero, suc, ◌∙◌, ◌-◌, ◌≤◌, ◌<◌, ◌≡◌, refl, ◌≢◌, ◌⊎◌, Bool, true, false, List, [], ◌∷◌, ◌++◌,
  length, take, drop, head?, length-take, length-drop, arith,
}
use caronte.Connections.Window.{
  Window, Cursors, slice, trim_front, trim_back, follow, precede, merge,
}

module _ {ℓ} {A : Type ℓ} where
  pub length-slice : (i j : ℕ) (xs : List A) → length (slice i j xs) ≤ j - i
  unfolding slice
  length-slice i j xs = omega (arith, length-drop i (take j xs), length-take j xs)

  head-append : (xs ys : List A) → xs ≢ [] → head? xs ≡ head? (xs ++ ys)
  head-append [] ys h = absurd (h refl)
  head-append (x ∷ xs) ys h = refl

  head-slice : (n : ℕ) (xs : List A) → 0 < n → head? (slice 0 n xs) ≡ head? xs
  unfolding slice
  head-slice zero xs h = elim h [ ]
  head-slice (suc n) [] h = refl
  head-slice (suc n) (x ∷ xs) h = refl

-- At most the maximum is shown, and `first` is the first of what is shown.
pub record IsBounded {ℓ} {A : Type ℓ} (max : ℕ) (w : Window A) : Type ℓ where
  pub size : length w.connections ≤ max
  pub first : w.first ≡ head? w.connections

module _ {ℓ} {A : Type ℓ} (max : ℕ) where
  trim_front-IsBounded :
      (w : Window A) → w.first ≡ head? w.connections → IsBounded max (trim_front max w)
  unfolding trim_front
  trim_front-IsBounded w h =
      let n = length w.connections in ground (arith, length-slice (n - max) (n - 1) w.connections)

  trim_back-IsBounded :
      (w : Window A) → 0 < max → w.first ≡ head? w.connections → IsBounded max (trim_back max w)
  unfolding trim_back
  trim_back-IsBounded w k h =
      ground (arith, length-slice 0 max w.connections, head-slice max w.connections k)

  follow-first :
      (is_initial : Bool) (w : Window A) (res : List A)
      → (is_initial ≡ true) ⊎ (w.connections ≢ [])
      → w.first ≡ head? w.connections
      → (follow is_initial w res).first ≡ head? (follow is_initial w res).connections
  unfolding follow
  follow-first true w res h b = refl
  follow-first false w res h b = b ∙ head-append w.connections (drop 1 res) (ground arith)

  precede-first :
      (w : Window A) (res : List A) → (precede w res).first ≡ head? (precede w res).connections
  unfolding precede
  precede-first w res = refl

  -- However a response is merged, at most the maximum is shown and `first` is the first of what
  -- is shown, given that a response without a cursor does not exceed the maximum, and that after
  -- the first load connections are appended only behind some that are shown.
  merge-IsBounded :
      (c : Cursors) (is_initial : Bool) (w : Window A) (res : List A)
      → 0 < max
      → length res ≤ max
      → (is_initial ≡ true) ⊎ (w.connections ≢ [])
      → IsBounded max w
      → IsBounded max (merge max c is_initial w res)
  unfolding merge
  merge-IsBounded c is_initial w res k size h b = ground (
    arith,
    trim_front-IsBounded (follow is_initial w res),
    follow-first is_initial w res,
    trim_back-IsBounded (precede w res),
    precede-first w res,
  )
