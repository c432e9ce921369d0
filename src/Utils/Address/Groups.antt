-- ===== src/Utils/Address/Groups.antt =====
-- Which texts of hexadecimal digits and colons `validateIpAddress` of frontend/src/utils.js takes.
pub mod Shapes
pub mod Takes
pub mod Forms
use caronte.Prelude.{
  ℕ, zero, suc, ◌+◌, ◌-◌, ◌≤◌, ◌<◌, ◌≡◌, refl, ap, sym, ◌∙◌, ◌⊎◌, inl, inr, ◌↔◌, Bool, true, false,
  ◌&&◌, List, [], ◌∷◌, ◌++◌, append_assoc, append-nil, Text, all, All, All-append_one, length,
  length-append, arith, Bool-cases,
}
use caronte.Utils.Validation.{is_hex}
use caronte.Utils.Regex.{Regex, one, Accepts, times, up_to, one_to}
use caronte.Utils.Address.{group, group_colon, colon_group}

-- One to four hexadecimal digits.
abbrev pub IsGroup : Text → Type 0
IsGroup w = (0 < length w) × (length w ≤ 4) × (all is_hex w ≡ true)

-- The groups with colons between them.
abbrev pub joined : List Text → Text
joined [] = []
joined (g ∷ []) = g
joined (g ∷ h ∷ gs) = g ++ b':' ∷ joined (h ∷ gs)

-- A colon after each group, and one before each.
abbrev pub after_each : List Text → Text
after_each [] = []
after_each (g ∷ gs) = (g ++ b':' ∷ []) ++ after_each gs

abbrev pub before_each : List Text → Text
before_each [] = []
before_each (g ∷ gs) = (b':' ∷ g) ++ before_each gs

pub before-joined : (g : Text) (gs : List Text) → before_each (g ∷ gs) ≡ b':' ∷ joined (g ∷ gs)
before-joined g [] = ap (b':' ∷◌) (append-nil g)
before-joined g (h ∷ gs) = ap (λ t. b':' ∷ (g ++ t)) (before-joined h gs)

pub after-joined : (g : Text) (gs : List Text) → after_each (g ∷ gs) ≡ joined (g ∷ gs) ++ b':' ∷ []
after-joined g [] = append-nil (g ++ b':' ∷ [])
after-joined g (h ∷ gs) = ap ((g ++ b':' ∷ []) ++◌) (after-joined h gs) ∙ simp append_assoc

pub joined-append_one : (gs : List Text) (g : Text) → joined (gs ++ g ∷ []) ≡ after_each gs ++ g
joined-append_one [] g = refl
joined-append_one (f ∷ []) g = simp append_assoc
joined-append_one (f ∷ h ∷ gs) g = simp (append_assoc, joined-append_one (h ∷ gs) g)

module _ (p : ℕ → Bool) where
  run-chars : (n : ℕ) (w : Text) → Accepts (up_to n (one p)) w → (length w ≤ n) × (all p w ≡ true)
  run-chars zero w h = rw h (omega arith, refl)
  run-chars (suc n) w (inl (u, v, e, (c, ec, h), k)) =
      rw (e, ec) (ground (arith, run-chars n v k), ground (arith, run-chars n v k))
  run-chars (suc n) w (inr h) = rw h (omega arith, refl)

  chars-run : (n : ℕ) (w : Text) → length w ≤ n → all p w ≡ true → Accepts (up_to n (one p)) w
  chars-run zero [] h k = refl
  chars-run zero (c ∷ w) h k = elim h [ ]
  chars-run (suc n) [] h k = inr refl
  chars-run (suc n) (c ∷ w) h k =
      inl (c ∷ [], w, refl, (c, refl, ground arith), chars-run n w (omega arith) (ground arith))

pub group-IsGroup : (w : Text) → Accepts group w → IsGroup w
unfolding group
group-IsGroup w (u, v, e, (c, ec, h), k) =
    let (short, hex) = run-chars is_hex 3 v k in rw (e, ec) (omega arith, omega arith, ground arith)

pub IsGroup-group : (w : Text) → IsGroup w → Accepts group w
unfolding group
IsGroup-group [] h = absurd (omega arith)
IsGroup-group (c ∷ w) (some_digit, short, hex) =
    (c ∷ [], w, refl, (c, refl, ground arith), chars-run is_hex 3 w (omega arith) (ground arith))

-- The groups that a repetition reads.
pub times-groups :
    (n : ℕ) (w : Text)
    → Accepts (times n group_colon) w
    → (gs : List Text) × (length gs ≡ n) × All IsGroup gs × (w ≡ after_each gs)
times-groups zero w h = ([], refl, tt, h)
times-groups (suc n) w (u, v, e, (g, c, eu, h, ec), k) =
    let (gs, size, each, ev) = times-groups n v k in
    (g ∷ gs, ap suc size, (group-IsGroup g h, each), rw (e, eu, ec, ev) refl)

pub groups-times :
    (gs : List Text) → All IsGroup gs → Accepts (times (length gs) group_colon) (after_each gs)
groups-times [] h = refl
groups-times (g ∷ gs) (h, k) =
    (_, _, refl, (g, b':' ∷ [], refl, IsGroup-group g h, refl), groups-times gs k)

pub up_to-groups :
    (n : ℕ) (w : Text)
    → Accepts (up_to n colon_group) w
    → (gs : List Text) × (length gs ≤ n) × All IsGroup gs × (w ≡ before_each gs)
up_to-groups zero w h = ([], omega arith, tt, h)
up_to-groups (suc n) w (inr h) = ([], omega arith, tt, h)
up_to-groups (suc n) w (inl (u, v, e, (c, g, eu, ec, h), k)) =
    let (gs, size, each, ev) = up_to-groups n v k in
    (g ∷ gs, omega arith, (group-IsGroup g h, each), rw (e, eu, ec, ev) refl)

pub groups-up_to :
    (n : ℕ) (gs : List Text)
    → length gs ≤ n
    → All IsGroup gs
    → Accepts (up_to n colon_group) (before_each gs)
groups-up_to zero [] h k = refl
groups-up_to zero (g ∷ gs) h k = elim h [ ]
groups-up_to (suc n) [] h k = inr refl
groups-up_to (suc n) (g ∷ gs) h (k, l) =
    inl
      (_, _, refl, (b':' ∷ [], g, refl, refl, IsGroup-group g k), groups-up_to n gs (omega arith) l)
