-- ===== src/Connections/Window/Gap.antt =====
-- Scrolling down past the maximum: what the cut at both ends does to the shown connections.
use caronte.Prelude.{
  ℕ, suc, ◌+◌, ◌-◌, ◌≤◌, ◌<◌, ◌≡◌, refl, ◌∙◌, sym, ap, subst, false, List, [], ◌∷◌, ◌++◌, none,
  some, length, take, drop, last?, init, init-last, take-append-drop, take-length_append,
  length-append, length-take, length-drop, append_assoc, arith,
}
use caronte.Connections.Window.{Window, slice, trim_front, follow, merge}
use caronte.Connections.Window.Segment.{
  IsSegment, following, follow-IsSegment, answer_following, merge-following, trim_front_small,
  length-follow,
}
use caronte.Connections.Server.{get_connections, Descending, get_connections_from}

-- The window shows a gapless part of the stored connections, but the connection that is recorded
-- as its last is the first one behind that part.
pub record Skips {ℓ} {A : Type ℓ} (stored : List A) (w : Window A) : Type ℓ where
  pub before : List A
  pub next : A
  pub after : List A
  pub covers : stored ≡ before ++ (w.connections ++ next ∷ after)
  pub last : w.last ≡ some next

module _ {ℓ} {A : Type ℓ} where
  has_last : (xs : List A) → 0 < length xs → (l : A) × (last? xs ≡ some l)
  has_last [] h = elim h [ ]
  has_last (x ∷ []) h = (x, refl)
  has_last (x ∷ y ∷ ys) h = has_last (y ∷ ys) (omega arith)

  take-init : (xs : List A) {l : A} → last? xs ≡ some l → take (length xs - 1) xs ≡ init xs
  take-init xs {l} h =
      let e = init-last xs h in
      let n : length xs - 1 ≡ length (init xs) =
        omega (arith, ap length e, length-append (init xs) (l ∷ [])) in
      rw n (ap (take (length (init xs))) e ∙ take-length_append (init xs) (l ∷ []))

  -- The kept part, put back between what was cut off.
  slice-covers :
      (d : ℕ) (xs : List A) (l : A)
      → last? xs ≡ some l
      → xs ≡ take d (init xs) ++ (slice d (length xs - 1) xs ++ l ∷ [])
  unfolding slice
  slice-covers d xs l h = rw (take-init xs h) (
      init-last xs h
      ∙ ap (◌++ l ∷ []) (sym (take-append-drop d (init xs)))
      ∙ append_assoc (take d (init xs)) (drop d (init xs)) (l ∷ []))

  length-slice : (i j : ℕ) (xs : List A) → j ≤ length xs → length (slice i j xs) ≡ j - i
  unfolding slice
  length-slice i j xs h = omega (arith, length-drop i (take j xs), length-take j xs)

  trim_front-connections :
      (max : ℕ) (w : Window A)
      → max < length w.connections
      → (trim_front max w).connections
        ≡ slice (length w.connections - max) (length w.connections - 1) w.connections
  unfolding trim_front
  trim_front-connections max w h = ground arith

  length-trim_front :
      (max : ℕ) (w : Window A)
      → max < length w.connections
      → length (trim_front max w).connections ≡ max - 1
  length-trim_front max w h =
      let n = length w.connections in
      ap length (trim_front-connections max w h)
      ∙ length-slice (n - max) (n - 1) w.connections (omega arith)
      ∙ omega arith

  trim_front-last : (max : ℕ) (w : Window A) → (trim_front max w).last ≡ w.last
  unfolding trim_front
  trim_front-last max w = ground arith

  regroup :
      (b t s : List A) (l : A) (after : List A)
      → b ++ ((t ++ (s ++ l ∷ [])) ++ after) ≡ (b ++ t) ++ (s ++ l ∷ after)
  regroup b t s l after = simp append_assoc

  covers_trimmed :
      {stored : List A} (before xs after : List A) (l : A) (d : ℕ)
      → stored ≡ before ++ (xs ++ after)
      → last? xs ≡ some l
      → stored ≡ (before ++ take d (init xs)) ++ (slice d (length xs - 1) xs ++ l ∷ after)
  covers_trimmed before xs after l d e h =
      e
      ∙ ap (λ ys. before ++ (ys ++ after)) (slice-covers d xs l h)
      ∙ regroup before (take d (init xs)) (slice d (length xs - 1) xs) l after

  follow-connections :
      (w : Window A) (l : A) (ys : List A)
      → (follow false w (l ∷ ys)).connections ≡ w.connections ++ ys
  unfolding follow
  follow-connections w l ys = refl

module _ {ℓ} {A : Type ℓ} (key : A → ℕ) (stored : List A) where
  trim_front-Skips :
      (max : ℕ) (w : Window A)
      → max < length w.connections
      → IsSegment stored w
      → Skips stored (trim_front max w)
  trim_front-Skips max w large s =
      let xs = w.connections in
      let (l, h) = has_last xs (omega arith) in
      let d = length xs - max in
      record {
        before = s.before ++ take d (init xs);
        next = l;
        after = s.after;
        covers =
            rw (trim_front-connections max w large)
              (covers_trimmed s.before xs s.after l d s.covers h);
        last = trim_front-last max w ∙ s.last ∙ h;
      }

  -- If the stored connections are listed newest first and those shown are a gapless part of them,
  -- then when scrolling down leads past the maximum, one connection less than the maximum is shown,
  -- and the connection recorded as the last is the first one behind those shown.
  pub merge-following-Skips :
      (max n : ℕ) (w : Window A) (l : A) (s : IsSegment stored w)
      → Descending key stored
      → w.last ≡ some l
      → max < length w.connections + length (take n s.after)
      → let v =
          merge max following false w (get_connections key (some (key l)) none (suc n) stored) in
        Skips stored v × (length v.connections ≡ max - 1)
  merge-following-Skips max n w l s d h large =
      let answer =
        answer_following key stored s.before w.connections s.after l n d s.covers
          (sym s.last ∙ h) in
      let w' = follow false w (l ∷ take n s.after) in
      let size : length w'.connections ≡ length w.connections + length (take n s.after) =
        ap length (follow-connections w l (take n s.after))
        ∙ length-append w.connections (take n s.after) in
      rw (answer, merge-following)
        (
          trim_front-Skips max w' (omega arith) (follow-IsSegment n w l s h),
          length-trim_front max w' (omega arith),
        )

  -- The next request then goes behind the connection that is not shown, and its repeated first
  -- entry is left out as ever: the connections shown afterwards lack that connection.
  merge-Skips-connections :
      (max n : ℕ) (w : Window A) (s : Skips stored w)
      → Descending key stored
      → length w.connections + n ≤ max
      → (merge max following false w
          (get_connections key (some (key s.next)) none (suc n) stored)).connections
        ≡ w.connections ++ take n s.after
  merge-Skips-connections max n w s d size =
      let e = s.covers ∙ sym (append_assoc s.before w.connections (s.next ∷ s.after)) in
      let answer : get_connections key (some (key s.next)) none (suc n) stored
          ≡ s.next ∷ take n s.after =
        ap (get_connections key (some (key s.next)) none (suc n)) e
        ∙ get_connections_from key (s.before ++ w.connections) s.next s.after (suc n)
            (subst (Descending key) e d) in
      let small : length (follow false w (s.next ∷ take n s.after)).connections ≤ max =
        omega (arith, length-follow n w s.next s.after) in
      rw (answer, merge-following, trim_front_small) (follow-connections w s.next (take n s.after))
