-- ===== src/Utils/Address/Groups/Forms.antt =====
-- Which texts of hexadecimal digits and colons `validateIpAddress` of frontend/src/utils.js takes.
use caronte.Prelude.{
  ℕ, ◌≡◌, refl, ap, sym, subst, ◌∙◌, ◌⊎◌, inl, inr, ◌↔◌, Bool, true, false, ◌&&◌, ◌||◌, [], ◌∷◌,
  ◌++◌, append-nil, Text, all, arith, Bool-cases, ◌==◌, nat_comparable,
}
use caronte.Utils.Numbers.{is_space}
use caronte.Utils.Validation.{is_hex}
use caronte.Utils.Regex.{many, seq, Accepts, test_iff, has, has-requires}
use caronte.Utils.Address.{quad, zone, ip_address, validate_ip_address}
use caronte.Utils.Address.Groups.Shapes.{IsFull, IsShort, groups-forms}
use caronte.Utils.Address.Groups.Takes.{IsFull-groups, IsShort-groups}

abbrev pub is_part : ℕ → Bool
is_part c = is_hex c || c == b':'

all-append : (p : ℕ → Bool) (u v : Text) → all p (u ++ v) ≡ (all p u && all p v)
all-append p [] v = refl
all-append p (c ∷ u) v = ground (arith, all-append p u v)

space_no_part : (c : ℕ) → is_space c ≡ true → is_part c ≡ true → ⊥
space_no_part c h k = ground arith

no_spaces : (u : Text) → all is_space u ≡ true → all is_part u ≡ true → u ≡ []
no_spaces [] h k = refl
no_spaces (c ∷ u) h k = absurd (space_no_part c (ground arith) (ground arith))

has-parts : (c : ℕ) (w : Text) → is_part c ≡ false → all is_part w ≡ true → has c w ≡ false
has-parts c [] h k = refl
has-parts c (d ∷ w) h k = elim (Bool-cases (d == c)) [
  | inl same ↦ let e : d ≡ c = (nat_comparable.same_iff d c).0 same in absurd (ground arith)
  | inr other ↦ rw other (has-parts c w h (ground arith))
]

no_zone : (z : Text) → Accepts zone z → all is_part z ≡ true → z ≡ []
unfolding zone
no_zone z (inl (u, v, e, eu, k)) h =
    let split : (all is_part u && all is_part v) ≡ true =
      sym (all-append is_part u v) ∙ rw (← e) h in
    let sign : all is_part u ≡ true = ground arith in
    let no : all is_part (b'%' ∷ []) ≡ true = subst (λ t. all is_part t ≡ true) eu sign in absurd cc
no_zone z (inr e) h = e

-- What is left of a text of such characters, once the white space and the zone are taken off.
only_groups :
    (w before u z after : Text)
    → all is_part w ≡ true
    → w ≡ before ++ (u ++ (z ++ after))
    → all is_space before ≡ true
    → Accepts zone z
    → all is_space after ≡ true
    → w ≡ u
only_groups w before u z after h e sb k sa =
    let parts : all is_part (before ++ (u ++ (z ++ after))) ≡ true = rw (← e) h in
    let before_parts : all is_part before ≡ true =
      ground (arith, all-append is_part before (u ++ (z ++ after))) in
    let rest : all is_part (u ++ (z ++ after)) ≡ true =
      ground (arith, all-append is_part before (u ++ (z ++ after))) in
    let rest' : all is_part (z ++ after) ≡ true =
      ground (arith, all-append is_part u (z ++ after)) in
    let z_parts : all is_part z ≡ true = ground (arith, all-append is_part z after) in
    let after_parts : all is_part after ≡ true = ground (arith, all-append is_part z after) in
    e
    ∙ rw (no_spaces before sb before_parts, no_zone z k z_parts, no_spaces after sa after_parts)
        (append-nil u)

-- A text of hexadecimal digits and colons passes exactly if it is eight groups of one to four
-- digits with colons between them, or up to seven such groups with a double colon before, between
-- or after them.
pub validate_ip_address-IsGrouped :
    (w : Text) → all is_part w ≡ true → (validate_ip_address w ≡ true) ↔ (IsFull w ⊎ IsShort w)
unfolding validate_ip_address ip_address
validate_ip_address-IsGrouped w h = (
  λ passed. elim ((test_iff ip_address w).0 passed) [
    | inl quad_text ↦
        let dot =
          has-requires b'.' (seq (many is_space) (seq quad (many is_space))) w refl quad_text in
        let no = has-parts b'.' w refl h in absurd cc
    | inr (before, rest, e, sb, (u, rest', e', g, (z, after, e'', zz, sa))) ↦
        let whole : w ≡ u =
          only_groups w before u z after h (e ∙ ap (before ++◌) (e' ∙ ap (u ++◌) e'')) sb zz sa in
        groups-forms w (has-parts b'.' w refl h) (rw whole g)
  ],
  λ form. (test_iff ip_address w).1 (
      inr (
        [],
        w,
        refl,
        refl,
        (
          w,
          [],
          sym (append-nil w),
          elim form [ inl full ↦ IsFull-groups w full | inr short ↦ IsShort-groups w short ],
          ([], [], refl, inr refl, refl),
        ),
      )),
)
