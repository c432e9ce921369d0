-- ===== src/Utils/Address/Groups/Takes.antt =====
-- Each way of writing an address by groups is taken by an alternative of the expression in
-- `validateIpAddress` of frontend/src/utils.js.
use caronte.Prelude.{
  ℕ, zero, suc, ◌+◌, ◌-◌, ◌≤◌, ◌<◌, ◌≡◌, refl, ap, sym, subst, ◌∙◌, inl, inr, List, [], ◌∷◌, ◌++◌,
  append_assoc, Text, All, length, arith, nat_comparable,
}
use caronte.Utils.Regex.{Accepts, times}
use caronte.Utils.Address.{group_colon, seven_groups, six_groups, few_groups, no_groups, groups}
use caronte.Utils.Address.Groups.{
  IsGroup, joined, after_each, before_each, before-joined, after-joined, joined-append_one,
  IsGroup-group, groups-times, groups-up_to,
}
use caronte.Utils.Address.Groups.Shapes.{IsFull, IsShort, Shape}

counted :
    {n : ℕ} (gs : List Text)
    → length gs ≡ n
    → All IsGroup gs
    → Accepts (times n group_colon) (after_each gs)
counted gs size h =
    subst (λ n. Accepts (times n group_colon) (after_each gs)) size (groups-times gs h)

few_groups_take :
    (n : ℕ) (l r : List Text)
    → length l ≡ n
    → n < 7
    → n + length r ≤ 7
    → All IsGroup l
    → All IsGroup r
    → Accepts (few_groups n) (after_each l ++ b':' ∷ joined r)
unfolding few_groups
few_groups_take n l [] size small bound hl hr =
    (after_each l, b':' ∷ [], refl, counted l size hl, inr (inr refl))
few_groups_take n l (g ∷ r) size small bound hl (hg, hr) = (
  after_each l,
  b':' ∷ joined (g ∷ r),
  refl,
  counted l size hl,
  inl (
    _,
    before_each r,
    sym (before-joined g r),
    (b':' ∷ [], g, refl, refl, IsGroup-group g hg),
    groups-up_to (7 - n - 1) r (omega arith) hr,
  ),
)

six_groups_take :
    (l r : List Text)
    → length l ≡ 6
    → length r ≤ 1
    → All IsGroup l
    → All IsGroup r
    → Accepts six_groups (after_each l ++ b':' ∷ joined r)
unfolding six_groups
six_groups_take l [] size bound hl hr =
    (after_each l, b':' ∷ [], refl, counted l size hl, inr (inr refl))
six_groups_take l (g ∷ []) size bound hl (hg, hr) = (
  after_each l,
  b':' ∷ g,
  refl,
  counted l size hl,
  inl (b':' ∷ [], g, refl, refl, IsGroup-group g hg),
)
six_groups_take l (g ∷ h ∷ r) size bound hl hr = absurd (omega arith)

seven_groups_take :
    (l r : List Text)
    → length l ≡ 7
    → length r ≤ 0
    → All IsGroup l
    → Accepts seven_groups (after_each l ++ b':' ∷ joined r)
unfolding seven_groups
seven_groups_take l [] size bound hl = (after_each l, b':' ∷ [], refl, counted l size hl, inr refl)
seven_groups_take l (g ∷ r) size bound hl = elim bound [ ]

-- Whichever number of groups stands before the double colon, one of the alternatives takes it.
Shape-groups : (n : ℕ) (w : Text) → Shape (suc n) w → Accepts groups w
unfolding groups
Shape-groups zero w (l, r, size, bound, hl, hr, e) =
    rw e (
      inr
        (inr (inr (inr (inr (inr (inl (few_groups_take 1 l r size (omega arith) bound hl hr))))))))
Shape-groups (suc zero) w (l, r, size, bound, hl, hr, e) =
    rw e (inr (inr (inr (inr (inr (inl (few_groups_take 2 l r size (omega arith) bound hl hr)))))))
Shape-groups (suc (suc zero)) w (l, r, size, bound, hl, hr, e) =
    rw e (inr (inr (inr (inr (inl (few_groups_take 3 l r size (omega arith) bound hl hr))))))
Shape-groups (suc (suc (suc zero))) w (l, r, size, bound, hl, hr, e) =
    rw e (inr (inr (inr (inl (few_groups_take 4 l r size (omega arith) bound hl hr)))))
Shape-groups (suc (suc (suc (suc zero)))) w (l, r, size, bound, hl, hr, e) =
    rw e (inr (inr (inl (few_groups_take 5 l r size (omega arith) bound hl hr))))
Shape-groups (suc (suc (suc (suc (suc zero))))) w (l, r, size, bound, hl, hr, e) =
    rw e (inr (inl (six_groups_take l r size (omega arith) hl hr)))
Shape-groups (suc (suc (suc (suc (suc (suc zero)))))) w (l, r, size, bound, hl, hr, e) =
    rw e (inl (seven_groups_take l r size (omega arith) hl))
Shape-groups (suc (suc (suc (suc (suc (suc (suc n))))))) w (l, r, size, bound, hl, hr, e) =
    absurd (omega arith)

pub IsShort-groups : (w : Text) → IsShort w → Accepts groups w
unfolding groups no_groups
IsShort-groups w ([], r, bound, hl, hr, e) = rw e (
    inr (
      inr (
        inr (
          inr (
            inr (
              inr (
                inr (
                  b':' ∷ [],
                  b':' ∷ joined r,
                  refl,
                  refl,
                  few_groups_take 0 [] r refl (omega arith) bound tt hr,
                ))))))))
IsShort-groups w (g ∷ l, r, bound, hl, hr, e) = Shape-groups (length l) w (
  g ∷ l,
  r,
  refl,
  bound,
  hl,
  hr,
  e
      ∙ sym (
          ap (◌++ b':' ∷ joined r) (after-joined g l)
          ∙ append_assoc (joined (g ∷ l)) (b':' ∷ []) (b':' ∷ joined r)),
)

-- The last of some groups, and those before it.
snoc_groups :
    (n : ℕ) (gs : List Text)
    → length gs ≡ suc n
    → All IsGroup gs
    → (fs : List Text) × (g : Text) × (gs ≡ fs ++ g ∷ [])
      × (length fs ≡ n)
      × All IsGroup fs
      × IsGroup g
snoc_groups n [] size h = absurd (omega arith)
snoc_groups n (g ∷ []) size h = ([], g, refl, omega arith, tt, h.0)
snoc_groups zero (g ∷ f ∷ gs) size h = absurd (omega arith)
snoc_groups (suc n) (g ∷ f ∷ gs) size h =
    let (fs, l, e, k, hf, hl) = snoc_groups n (f ∷ gs) (omega arith) h.1 in
    (g ∷ fs, l, ap (g ∷◌) e, omega arith, (h.0, hf), hl)

pub IsFull-groups : (w : Text) → IsFull w → Accepts groups w
unfolding groups seven_groups
IsFull-groups w (gs, size, h, e) =
    let (fs, g, split, k, hf, hg) = snoc_groups 7 gs size h in
    rw (e, split, joined-append_one fs g)
      (inl (after_each fs, g, refl, counted fs k hf, inl (IsGroup-group g hg)))
