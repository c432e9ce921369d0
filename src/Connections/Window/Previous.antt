-- ===== src/Connections/Window/Previous.antt =====
-- Scrolling up: the shown connections stay a gapless part of the stored ones.
use caronte.Prelude.{
  ℕ, zero, suc, ◌-◌, ◌<◌, ◌≡◌, refl, ◌∙◌, sym, ap, subst, false, List, [], ◌∷◌, ◌++◌, none, some,
  length, take, drop, head?, last?, last-append_cons, reverse, take-append-drop, take-length_append,
  length-append, append_assoc, get_elem?-take_last, arith, ltb, Bool-cases, inl, inr, ltb→lt,
}
use mathlib.Core.List.{reverse-cons, reverse-append, reverse-reverse}
use caronte.Connections.Window.{Window, slice, trim_back, precede, merge}
use caronte.Connections.Window.Segment.{IsSegment, previous}
use caronte.Connections.Server.{get_connections, Descending, get_connections_to}

module _ {ℓ} {A : Type ℓ} where
  -- The `n` connections right before a part, in order.
  abbrev nearest : ℕ → List A → List A
  nearest n before = reverse (take n (reverse before))

  nearest-append :
      (n : ℕ) (before : List A) → reverse (drop n (reverse before)) ++ nearest n before ≡ before
  nearest-append n before =
      sym (reverse-append (take n (reverse before)) (drop n (reverse before)))
      ∙ ap reverse (take-append-drop n (reverse before))
      ∙ reverse-reverse before

  slice-append_one : (xs : List A) (f : A) → slice 0 (length (xs ++ f ∷ []) - 1) (xs ++ f ∷ []) ≡ xs
  unfolding slice
  slice-append_one xs f =
      let n : length (xs ++ f ∷ []) - 1 ≡ length xs = omega (arith, length-append xs (f ∷ [])) in
      rw n (take-length_append xs (f ∷ []))

  last-append_head : (xs ys : List A) {f : A} → head? ys ≡ some f → last? (xs ++ ys) ≡ last? ys
  last-append_head xs [] h = cc
  last-append_head xs (y ∷ ys) h = last-append_cons xs y ys

  head-take : (n : ℕ) (xs : List A) → head? xs ≡ head? (take (suc n) xs)
  head-take n [] = refl
  head-take n (x ∷ xs) = refl

pred-suc : (n : ℕ) → suc n - 1 ≡ n
pred-suc n = omega arith

module _ {ℓ} {A : Type ℓ} (key : A → ℕ) (stored : List A) where
  answer_previous :
      (before conns after : List A) (f : A) (n : ℕ)
      → Descending key stored
      → stored ≡ before ++ (conns ++ after)
      → head? conns ≡ some f
      → get_connections key none (some (key f)) (suc n) stored ≡ nearest n before ++ f ∷ []
  answer_previous before [] after f n d e h = cc
  answer_previous before (c ∷ conns) after f n d e h =
      let same : c ≡ f = cc in
      let e' = e ∙ ap (λ x. before ++ x ∷ (conns ++ after)) same in
      ap (get_connections key none (some (key f)) (suc n)) e'
      ∙ get_connections_to key before f (conns ++ after) (suc n) (subst (Descending key) e' d)
      ∙ reverse-cons f (take n (reverse before))

  trim_back-IsSegment :
      (max : ℕ) (w : Window A) → 0 < max → IsSegment stored w → IsSegment stored (trim_back max w)
  unfolding trim_back slice
  trim_back-IsSegment zero w k s = elim k [ ]
  trim_back-IsSegment (suc max) w k s = elim (Bool-cases (ltb (suc max) (length w.connections))) [
    | inl large ↦ rw large (record {
      before = s.before;
      after = drop (suc max) w.connections ++ s.after;
      covers =
          s.covers
          ∙ ap (λ xs. s.before ++ (xs ++ s.after)) (sym (take-append-drop (suc max) w.connections))
          ∙ ap (s.before ++◌)
              (append_assoc (take (suc max) w.connections) (drop (suc max) w.connections) s.after);
      first = s.first ∙ head-take max w.connections;
      last =
          rw (pred-suc max)
            (get_elem?-take_last max w.connections (omega (arith, ltb→lt _ _ large)));
    })
    | inr small ↦ rw small s
  ]

  precede-IsSegment :
      (n : ℕ) (w : Window A) (f : A) (s : IsSegment stored w)
      → w.first ≡ some f
      → IsSegment stored (precede w (nearest n s.before ++ f ∷ []))
  unfolding precede
  precede-IsSegment n w f s h =
      let near = nearest n s.before in
      let far = reverse (drop n (reverse s.before)) in
      rw (slice-append_one near f) (record {
        before = far;
        after = s.after;
        covers =
            s.covers
            ∙ ap (◌++ (w.connections ++ s.after)) (sym (nearest-append n s.before))
            ∙ append_assoc far near (w.connections ++ s.after)
            ∙ ap (far ++◌) (sym (append_assoc near w.connections s.after));
        first = refl;
        last = s.last ∙ sym (last-append_head near w.connections (sym s.first ∙ h));
      })

  merge-previous :
      (max : ℕ) (w : Window A) (xs : List A) (f : A)
      → merge max previous false w (xs ++ f ∷ []) ≡ trim_back max (precede w (xs ++ f ∷ []))
  unfolding merge
  merge-previous max w [] f = refl
  merge-previous max w (x ∷ xs) f = refl

  -- If the stored connections are listed newest first and the maximum is not 0, scrolling up keeps
  -- the shown connections a gapless part of the stored ones, with both ends recorded, also where the
  -- last ones are cut off.
  pub merge-previous-IsSegment :
      (max n : ℕ) (w : Window A) (f : A)
      → Descending key stored
      → 0 < max
      → w.first ≡ some f
      → IsSegment stored w
      → IsSegment stored
          (merge max previous false w (get_connections key none (some (key f)) (suc n) stored))
  merge-previous-IsSegment max n w f d k h s =
      rw
        (
          answer_previous s.before w.connections s.after f n d s.covers (sym s.first ∙ h),
          merge-previous,
        )
        (trim_back-IsSegment max _ k (precede-IsSegment n w f s h))
