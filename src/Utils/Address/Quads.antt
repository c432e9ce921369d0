-- ===== src/Utils/Address/Quads.antt =====
-- Which texts without a colon `validateIpAddress` of frontend/src/utils.js takes.
use caronte.Prelude.{
  ℕ, zero, suc, ◌+◌, ◌-◌, ◌*◌, ◌≤◌, ◌<◌, ◌≡◌, refl, ap, sym, ◌∙◌, inl, inr, ◌↔◌, Bool, true, false,
  ◌&&◌, [], ◌∷◌, ◌++◌, append_assoc, Text, all, arith, leb, is_digit,
}
use caronte.Utils.Numbers.{to_text, is_space}
use caronte.Utils.Numbers.Decimal.{to_text_digit, to_text-snoc}
use caronte.Utils.Regex.{Accepts, test, test_iff, has, has-requires, has-append}
use caronte.Utils.Address.{octet, quad, groups, ip_address, validate_ip_address}

-- The decimal text of a number below 256.
abbrev pub IsOctet : Text → Type 0
IsOctet w = (n : ℕ) × (n < 256) × (w ≡ to_text n)

two_digits :
    (a b : ℕ) → 0 < a → a < 10 → b < 10 → to_text (a * 10 + b) ≡ (b'0' + a) ∷ (b'0' + b) ∷ []
two_digits a b h k l = to_text-snoc a b h l ∙ ap (◌++ (b'0' + b) ∷ []) (to_text_digit a k)

three_digits :
    (a b c : ℕ)
    → 0 < a
    → a < 10
    → b < 10
    → c < 10
    → to_text ((a * 10 + b) * 10 + c) ≡ (b'0' + a) ∷ (b'0' + b) ∷ (b'0' + c) ∷ []
three_digits a b c h k l m =
    to_text-snoc (a * 10 + b) c (omega arith) m ∙ ap (◌++ (b'0' + c) ∷ []) (two_digits a b h k l)

one-IsOctet : (a : ℕ) → leb b'0' a && leb a b'9' ≡ true → IsOctet (a ∷ [])
one-IsOctet a h = (
  a - b'0',
  ground arith,
  sym (to_text_digit (a - b'0') (ground arith) ∙ ap (◌∷ []) (ground arith)),
)

two-IsOctet : (a b : ℕ) → b'1' ≤ a → a ≤ b'9' → is_digit b ≡ true → IsOctet (a ∷ b ∷ [])
two-IsOctet a b h k l = (
  (a - b'0') * 10 + (b - b'0'),
  ground arith,
  sym (
      two_digits (a - b'0') (b - b'0') (ground arith) (ground arith) (ground arith) ∙ ground arith),
)

three-IsOctet :
    (a b c : ℕ)
    → b'1' ≤ a
    → a ≤ b'9'
    → is_digit b ≡ true
    → is_digit c ≡ true
    → ((a - b'0') * 10 + (b - b'0')) * 10 + (c - b'0') < 256
    → IsOctet (a ∷ b ∷ c ∷ [])
three-IsOctet a b c h k l m small = (
  ((a - b'0') * 10 + (b - b'0')) * 10 + (c - b'0'),
  small,
  sym (
      three_digits (a - b'0') (b - b'0') (c - b'0') (ground arith) (ground arith) (ground arith)
        (ground arith)
      ∙ ground arith),
)

octet-IsOctet : (w : Text) → Accepts octet w → IsOctet w
unfolding octet
octet-IsOctet w (inl (a, e, h)) = rw e (one-IsOctet a h)
octet-IsOctet w (inr (inl (u, v, e, (a, ea, ha), (b, eb, hb)))) =
    rw (e, ea, eb) (two-IsOctet a b (ground arith) (ground arith) hb)
octet-IsOctet w
      (inr
        (inr (inl (u, v, e, ea, (u', v', e', (b, eb, hb), (u'', v'', e'', (c, ec, hc), end)))))) =
    rw (e, ea, e', eb, e'', ec, end)
      (three-IsOctet b'1' b c (omega arith) (omega arith) hb hc (ground arith))
octet-IsOctet w (inr (inr (inr (inl (u, v, e, ea, (u', v', e', (b, eb, hb), (c, ec, hc))))))) =
    rw (e, ea, e', eb, ec)
      (three-IsOctet b'2' b c (omega arith) (omega arith) (ground arith) hc (ground arith))
octet-IsOctet w (inr (inr (inr (inr (u, v, e, ea, (u', v', e', eb, (c, ec, hc))))))) =
    rw (e, ea, e', eb, ec)
      (three-IsOctet b'2' b'5' c (omega arith) (omega arith) refl (ground arith) (ground arith))

all_below : ℕ → (ℕ → Bool) → Bool
all_below zero p = true
all_below (suc n) p = p n && all_below n p

all_below_lem : (n : ℕ) (p : ℕ → Bool) (x : ℕ) → all_below n p ≡ true → x < n → p x ≡ true
unfolding all_below
all_below_lem zero p x h lt = absurd (omega arith)
all_below_lem (suc n) p x h lt = ground (arith, all_below_lem n p x)

octets_pass : all_below 256 (λ n. test octet (to_text n)) ≡ true
unfolding all_below test octet to_text
octets_pass = refl

IsOctet-octet : (w : Text) → IsOctet w → Accepts octet w
IsOctet-octet w (n, h, e) =
    rw e ((test_iff octet (to_text n)).0 (all_below_lem 256 _ n octets_pass h))

-- Four numbers below 256 with full stops between them, and white space around.
abbrev pub dotted : Text → Text → Text → Text → Text
dotted a b c d = a ++ b'.' ∷ (b ++ b'.' ∷ (c ++ b'.' ∷ d))

abbrev pub IsDottedQuad : Text → Type 0
IsDottedQuad w =
    (before : Text) × (a : Text) × (b : Text) × (c : Text) × (d : Text) × (after : Text) × (w
      ≡ before ++ (dotted a b c d ++ after))
    × (all is_space before ≡ true)
    × IsOctet a
    × IsOctet b
    × IsOctet c
    × IsOctet d
    × (all is_space after ≡ true)

-- Each number before its full stop, as the expression groups them.
dotted_groups :
    (a b c d : Text)
    → dotted a b c d ≡ ((a ++ b'.' ∷ []) ++ ((b ++ b'.' ∷ []) ++ ((c ++ b'.' ∷ []) ++ []))) ++ d
dotted_groups a b c d = simp append_assoc

quad-dotted :
    (w : Text)
    → Accepts quad w
    → (a b c d : Text) × (w ≡ dotted a b c d) × IsOctet a × IsOctet b × IsOctet c × IsOctet d
unfolding quad
quad-dotted w
      (
        u,
        d,
        e,
        (
          u1,
          v1,
          e1,
          (a, s1, f1, oa, g1),
          (u2, v2, e2, (b, s2, f2, ob, g2), (u3, v3, e3, (c, s3, f3, oc, g3), end)),
        ),
        od,
      ) =
    (
      a,
      b,
      c,
      d,
      rw (e, e1, f1, g1, e2, f2, g2, e3, f3, g3, end) (sym (dotted_groups a b c d)),
      octet-IsOctet a oa,
      octet-IsOctet b ob,
      octet-IsOctet c oc,
      octet-IsOctet d od,
    )

dotted-quad :
    (a b c d : Text) → IsOctet a → IsOctet b → IsOctet c → IsOctet d → Accepts quad (dotted a b c d)
unfolding quad
dotted-quad a b c d oa ob oc od = (
  _,
  d,
  dotted_groups a b c d,
  (
    _,
    _,
    refl,
    (a, _, refl, IsOctet-octet a oa, refl),
    (
      _,
      _,
      refl,
      (b, _, refl, IsOctet-octet b ob, refl),
      (_, _, refl, (c, _, refl, IsOctet-octet c oc, refl), refl),
    ),
  ),
  IsOctet-octet d od,
)

groups-has_colon : (w : Text) → Accepts groups w → has b':' w ≡ true
unfolding groups
groups-has_colon w h = has-requires b':' groups w refl h

-- The part for groups takes no text without a colon.
groups_absent : (a u v b : Text) → has b':' (a ++ (u ++ (v ++ b))) ≡ false → Accepts groups u → ⊥
groups_absent a u v b h k =
    ground
      (arith, has-append b':' a (u ++ (v ++ b)), has-append b':' u (v ++ b), groups-has_colon u k)

-- A text without a colon passes exactly if it consists of four decimal numbers below 256 with full
-- stops between them, without leading zeros, and of white space before and after.
pub validate_ip_address-IsDottedQuad :
    (w : Text) → has b':' w ≡ false → (validate_ip_address w ≡ true) ↔ IsDottedQuad w
unfolding validate_ip_address ip_address
validate_ip_address-IsDottedQuad w h = (
  λ passed. elim ((test_iff ip_address w).0 passed) [
    | inl (before, rest, e, sb, (u, after, e', q, sa)) ↦
        let (a, b, c, d, eu, oa, ob, oc, od) = quad-dotted u q in
        (
          before,
          a,
          b,
          c,
          d,
          after,
          e ∙ ap (before ++◌) (e' ∙ ap (◌++ after) eu),
          sb,
          oa,
          ob,
          oc,
          od,
          sa,
        )
    | inr (before, rest, e, sb, (u, rest', e', g, (z, after, e'', zz, sa))) ↦
        absurd (groups_absent before u z after (rw (← e'', ← e', ← e) h) g)
  ],
  λ quad_text.
      let (before, a, b, c, d, after, e, sb, oa, ob, oc, od, sa) = quad_text in
      (test_iff ip_address w).1
        (inl (before, _, e, sb, (_, after, refl, dotted-quad a b c d oa ob oc od, sa))),
)
