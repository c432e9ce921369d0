-- ===== src/Connections/Window/Segment.antt =====
-- The shown connections as a gapless part of the stored ones, under the scrolling requests.
use caronte.Prelude.{
  ℕ, suc, ◌+◌, ◌≤◌, ◌≡◌, refl, ◌∙◌, sym, ap, subst, true, false, List, [], ◌∷◌, ◌++◌, none, some,
  length, take, drop, head?, last?, init, init-last, take-append-drop, length-append, length-take,
  append_assoc, arith,
}
use caronte.Connections.Window.{Window, Cursors, trim_front, follow, merge}
use caronte.Connections.Server.{get_connections, Descending, get_connections_from}

-- The window shows a gapless part of the stored connections, and its two ends are recorded.
pub record IsSegment {ℓ} {A : Type ℓ} (stored : List A) (w : Window A) : Type ℓ where
  pub before : List A
  pub after : List A
  pub covers : stored ≡ before ++ (w.connections ++ after)
  pub first : w.first ≡ head? w.connections
  pub last : w.last ≡ last? w.connections

abbrev pub following : Cursors
following = record { from = true; to = false }

abbrev pub previous : Cursors
previous = record { from = false; to = true }

module _ {ℓ} {A : Type ℓ} where
  pub trim_front_small :
      (max : ℕ) (w : Window A) → length w.connections ≤ max → trim_front max w ≡ w
  unfolding trim_front
  trim_front_small max w h = ground arith

  pub merge-following :
      (max : ℕ) (w : Window A) (l : A) (ys : List A)
      → merge max following false w (l ∷ ys) ≡ trim_front max (follow false w (l ∷ ys))
  unfolding merge
  merge-following max w l ys = refl

  head-append_last : (xs ys : List A) {l : A} → last? xs ≡ some l → head? xs ≡ head? (xs ++ ys)
  head-append_last [] ys h = cc
  head-append_last (x ∷ xs) ys h = refl

  pub length-follow :
      (n : ℕ) (w : Window A) (l : A) (after : List A)
      → length (follow false w (l ∷ take n after)).connections ≤ length w.connections + n
  unfolding follow
  length-follow n w l after =
      omega (arith, length-append w.connections (take n after), length-take n after)

  pub follow-IsSegment :
      {stored : List A} (n : ℕ) (w : Window A) (l : A) (s : IsSegment stored w)
      → w.last ≡ some l
      → IsSegment stored (follow false w (l ∷ take n s.after))
  unfolding follow
  follow-IsSegment n w l s h =
      let conns = w.connections in
      record {
        before = s.before;
        after = drop n s.after;
        covers =
            s.covers
            ∙ ap (λ xs. s.before ++ (conns ++ xs)) (sym (take-append-drop n s.after))
            ∙ ap (s.before ++◌) (sym (append_assoc conns (take n s.after) (drop n s.after)));
        first = s.first ∙ head-append_last conns (take n s.after) (sym s.last ∙ h);
        last = refl;
      }

module _ {ℓ} {A : Type ℓ} (key : A → ℕ) (stored : List A) where
  -- The last shown connection, taken out of a gapless part.
  split_last :
      (before conns after : List A) (l : A)
      → stored ≡ before ++ (conns ++ after)
      → last? conns ≡ some l
      → stored ≡ (before ++ init conns) ++ l ∷ after
  split_last before conns after l e h =
      e
      ∙ ap (λ xs. before ++ (xs ++ after)) (init-last conns h)
      ∙ ap (before ++◌) (append_assoc (init conns) (l ∷ []) after)
      ∙ sym (append_assoc before (init conns) (l ∷ after))

  -- What the server answers to a request for what follows `l`.
  pub answer_following :
      (before conns after : List A) (l : A) (n : ℕ)
      → Descending key stored
      → stored ≡ before ++ (conns ++ after)
      → last? conns ≡ some l
      → get_connections key (some (key l)) none (suc n) stored ≡ l ∷ take n after
  answer_following before conns after l n d e h =
      let s = split_last before conns after l e h in
      ap (get_connections key (some (key l)) none (suc n)) s
      ∙ get_connections_from key (before ++ init conns) l after (suc n) (subst (Descending key) s d)

  -- If the stored connections are listed newest first, and those shown with the number asked for
  -- do not exceed the maximum, scrolling down keeps the shown connections a gapless part of the
  -- stored ones, with both ends recorded.
  pub merge-following-IsSegment :
      (max n : ℕ) (w : Window A) (l : A)
      → Descending key stored
      → w.last ≡ some l
      → length w.connections + n ≤ max
      → IsSegment stored w
      → IsSegment stored
          (merge max following false w (get_connections key (some (key l)) none (suc n) stored))
  merge-following-IsSegment max n w l d h size s =
      let answer =
        answer_following s.before w.connections s.after l n d s.covers (sym s.last ∙ h) in
      let small : length (follow false w (l ∷ take n s.after)).connections ≤ max =
        omega (arith, length-follow n w l s.after) in
      rw (answer, merge-following, trim_front_small max (follow false w (l ∷ take n s.after)) small)
        (follow-IsSegment n w l s h)
