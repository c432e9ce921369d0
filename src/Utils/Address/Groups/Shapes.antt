-- ===== src/Utils/Address/Groups/Shapes.antt =====
-- The alternatives of the expression in `validateIpAddress` of frontend/src/utils.js, against the
-- ways of writing an address by groups: eight of them, or fewer and a double colon for the rest.
use caronte.Prelude.{
  ℕ, suc, ◌+◌, ◌-◌, ◌≤◌, ◌<◌, ◌≡◌, refl, ap, sym, ◌∙◌, ◌⊎◌, inl, inr, false, ◌||◌, List, [], ◌∷◌,
  ◌++◌, append_assoc, Text, All, All-append_one, length, length-append, arith, nat_comparable,
}
use caronte.Utils.Regex.{Accepts, has, has-requires, has-append}
use caronte.Utils.Address.{tail_quad, seven_groups, six_groups, few_groups, no_groups, groups}
use caronte.Utils.Address.Groups.{
  IsGroup, joined, after_each, before-joined, after-joined, joined-append_one, group-IsGroup,
  times-groups, up_to-groups,
}

-- Eight groups, with colons between them.
abbrev pub IsFull : Text → Type 0
IsFull w = (gs : List Text) × (length gs ≡ 8) × All IsGroup gs × (w ≡ joined gs)

-- Up to seven groups, with a double colon before, between or after them.
abbrev pub IsShort : Text → Type 0
IsShort w =
    (l : List Text) × (r : List Text) × (length l + length r ≤ 7)
    × All IsGroup l
    × All IsGroup r
    × (w ≡ joined l ++ b':' ∷ b':' ∷ joined r)

-- `n` groups with their colons, a further colon, and the groups after it.
abbrev pub Shape : ℕ → Text → Type 0
Shape n w =
    (l : List Text) × (r : List Text) × (length l ≡ n)
    × (n + length r ≤ 7)
    × All IsGroup l
    × All IsGroup r
    × (w ≡ after_each l ++ b':' ∷ joined r)

abbrev NoDot : Text → Type 0
NoDot w = has b'.' w ≡ false

NoDot-right : (w u v : Text) → w ≡ u ++ v → NoDot w → NoDot v
NoDot-right w u v e h =
    let split : (has b'.' u || has b'.' v) ≡ false = sym (has-append b'.' u v) ∙ rw (← e) h in
    ground arith

no_tail_quad : (u : Text) → NoDot u → Accepts tail_quad u → ⊥
unfolding tail_quad
no_tail_quad u h k = let dot = has-requires b'.' tail_quad u refl k in cc

few-Shape : (n : ℕ) (w : Text) → n < 7 → NoDot w → Accepts (few_groups n) w → Shape n w
unfolding few_groups
few-Shape n w m h (u, v, e, k, inl (a, b, e', (c, g, ea, ec, hg), kb)) =
    let (l, size, each, eu) = times-groups n u k in
    let (r, size', each', eb) = up_to-groups (7 - n - 1) b kb in
    let tail : v ≡ b':' ∷ joined (g ∷ r) = rw (e', ea, ec, eb) (before-joined g r) in
    (l, g ∷ r, size, omega arith, each, (group-IsGroup g hg, each'), rw (e, eu, tail) refl)
few-Shape n w m h (u, v, e, k, inr (inl (a, b, e', ka, (c, q, eb, ec, hq)))) =
    absurd (no_tail_quad q (NoDot-right b c q eb (NoDot-right v a b e' (NoDot-right w u v e h))) hq)
few-Shape n w m h (u, v, e, k, inr (inr ev)) =
    let (l, size, each, eu) = times-groups n u k in
    (l, [], size, omega arith, each, tt, rw (e, eu, ev) refl)

six-Shape : (w : Text) → NoDot w → Accepts six_groups w → Shape 6 w
unfolding six_groups
six-Shape w h (u, v, e, k, inl (c, g, ev, ec, hg)) =
    let (l, size, each, eu) = times-groups 6 u k in
    (l, g ∷ [], size, omega arith, each, (group-IsGroup g hg, tt), rw (e, eu, ev, ec) refl)
six-Shape w h (u, v, e, k, inr (inl q)) = absurd (no_tail_quad v (NoDot-right w u v e h) q)
six-Shape w h (u, v, e, k, inr (inr ev)) =
    let (l, size, each, eu) = times-groups 6 u k in
    (l, [], size, omega arith, each, tt, rw (e, eu, ev) refl)

Shape-IsShort : (n : ℕ) (w : Text) → Shape (suc n) w → IsShort w
Shape-IsShort n w ([], r, size, bound, hl, hr, e) = absurd (omega arith)
Shape-IsShort n w (g ∷ l, r, size, bound, hl, hr, e) = (
  g ∷ l,
  r,
  omega arith,
  hl,
  hr,
  e
      ∙ ap (◌++ b':' ∷ joined r) (after-joined g l)
      ∙ append_assoc (joined (g ∷ l)) (b':' ∷ []) (b':' ∷ joined r),
)

seven-forms : (w : Text) → Accepts seven_groups w → IsFull w ⊎ IsShort w
unfolding seven_groups
seven-forms w (u, v, e, k, inl g) =
    let (l, size, each, eu) = times-groups 7 u k in
    inl (
      l ++ v ∷ [],
      omega (arith, length-append l (v ∷ [])),
      All-append_one IsGroup l v each (group-IsGroup v g),
      rw (e, eu) (sym (joined-append_one l v)),
    )
seven-forms w (u, v, e, k, inr ev) =
    let (l, size, each, eu) = times-groups 7 u k in
    inr (Shape-IsShort 6 w (l, [], size, omega arith, each, tt, rw (e, eu, ev) refl))

Shape-none : (w : Text) → Shape 0 w → IsShort (b':' ∷ w)
Shape-none w ([], r, size, bound, hl, hr, e) = ([], r, bound, tt, hr, ap (b':' ∷◌) e)
Shape-none w (g ∷ l, r, size, bound, hl, hr, e) = absurd (omega arith)

no-IsShort : (w : Text) → NoDot w → Accepts no_groups w → IsShort w
unfolding no_groups
no-IsShort w h (u, v, e, eu, k) =
    rw (e, eu) (Shape-none v (few-Shape 0 v (omega arith) (NoDot-right w u v e h) k))

pub groups-forms : (w : Text) → NoDot w → Accepts groups w → IsFull w ⊎ IsShort w
unfolding groups
groups-forms w h (inl k) = seven-forms w k
groups-forms w h (inr (inl k)) = inr (Shape-IsShort 5 w (six-Shape w h k))
groups-forms w h (inr (inr (inl k))) = inr (Shape-IsShort 4 w (few-Shape 5 w (omega arith) h k))
groups-forms w h (inr (inr (inr (inl k)))) =
    inr (Shape-IsShort 3 w (few-Shape 4 w (omega arith) h k))
groups-forms w h (inr (inr (inr (inr (inl k))))) =
    inr (Shape-IsShort 2 w (few-Shape 3 w (omega arith) h k))
groups-forms w h (inr (inr (inr (inr (inr (inl k)))))) =
    inr (Shape-IsShort 1 w (few-Shape 2 w (omega arith) h k))
groups-forms w h (inr (inr (inr (inr (inr (inr (inl k))))))) =
    inr (Shape-IsShort 0 w (few-Shape 1 w (omega arith) h k))
groups-forms w h (inr (inr (inr (inr (inr (inr (inr k))))))) = inr (no-IsShort w h k)
