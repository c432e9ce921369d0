-- ===== src/Utils/Regex.antt =====
-- Regular expressions between `^` and `$`, as frontend/src/utils.js writes them: `test` searches as
-- the language does, by trying each way on and going back, and `Accepts` has no search order in it.
use caronte.Prelude.{
  ℕ, zero, suc, ◌-◌, ◌≡◌, refl, ap, ◌∙◌, sym, ◌⊎◌, inl, inr, ◌↔◌, Bool, true, false, ◌&&◌, ◌||◌, [],
  ◌∷◌, ◌++◌, append_assoc, append-nil, Text, all, Bool-cases, ◌==◌, nat_comparable, ==_refl, any,
  arith,
}

pub data Regex : Type 0 where
  blank : Regex
  char : ℕ → Regex
  one : (ℕ → Bool) → Regex
  many : (ℕ → Bool) → Regex
  seq : Regex → Regex → Regex
  either : Regex → Regex → Regex

abbrev pub optional : Regex → Regex
optional r = either r blank

-- `r{n}`, `r{0,n}`, and `r{1,n}` for a positive `n`.
abbrev pub times : ℕ → Regex → Regex
times zero r = blank
times (suc n) r = seq r (times n r)

abbrev pub up_to : ℕ → Regex → Regex
up_to zero r = blank
up_to (suc n) r = either (seq r (up_to n r)) blank

abbrev pub one_to : ℕ → Regex → Regex
one_to n r = seq r (up_to (n - 1) r)

-- The search goes on with `k`, on what is left of the text.
unfoldable many_on : (ℕ → Bool) → (Text → Bool) → Text → Bool
many_on p k [] = k []
many_on p k (c ∷ s) = (p c && many_on p k s) || k (c ∷ s)

unfoldable match_on : Regex → (Text → Bool) → Text → Bool
unfolding many_on
match_on blank k s = k s
match_on (char c) k [] = false
match_on (char c) k (d ∷ s) = d == c && k s
match_on (one p) k [] = false
match_on (one p) k (c ∷ s) = p c && k s
match_on (many p) k s = many_on p k s
match_on (seq r t) k s = match_on r (match_on t k) s
match_on (either r t) k s = match_on r k s || match_on t k s

abbrev at_end : Text → Bool
at_end [] = true
at_end (c ∷ s) = false

unfoldable pub test : Regex → Text → Bool
unfolding match_on
test r s = match_on r at_end s

abbrev pub Accepts : Regex → Text → Type 0
Accepts blank w = w ≡ []
Accepts (char c) w = w ≡ c ∷ []
Accepts (one p) w = (c : ℕ) × (w ≡ c ∷ []) × (p c ≡ true)
Accepts (many p) w = all p w ≡ true
Accepts (seq r t) w = (u : Text) × (v : Text) × (w ≡ u ++ v) × Accepts r u × Accepts t v
Accepts (either r t) w = Accepts r w ⊎ Accepts t w

-- A beginning that the expression accepts, and a rest with which the search goes on.
abbrev Split : Regex → (Text → Bool) → Text → Type 0
Split r k s = (u : Text) × (v : Text) × (s ≡ u ++ v) × Accepts r u × (k v ≡ true)

many-Split : (p : ℕ → Bool) (k : Text → Bool) (s : Text) → many_on p k s ≡ true → Split (many p) k s
unfolding many_on
many-Split p k [] h = ([], [], refl, refl, h)
many-Split p k (c ∷ s) h = elim (Bool-cases (p c && many_on p k s)) [
  | inl e ↦
      let (u, v, split, taken, on) = many-Split p k s (ground arith) in
      (c ∷ u, v, ap (c ∷◌) split, ground arith, on)
  | inr e ↦ ([], c ∷ s, refl, refl, ground arith)
]

match-Split : (r : Regex) (k : Text → Bool) (s : Text) → match_on r k s ≡ true → Split r k s
unfolding match_on
match-Split blank k s h = ([], s, refl, refl, h)
match-Split (char c) k [] h = cc
match-Split (char c) k (d ∷ s) h = (d ∷ [], s, refl, ground arith, ground arith)
match-Split (one p) k [] h = cc
match-Split (one p) k (c ∷ s) h = (c ∷ [], s, refl, (c, refl, ground arith), ground arith)
match-Split (many p) k s h = many-Split p k s h
match-Split (seq r t) k s h =
    let (u, v, split, taken, on) = match-Split r (match_on t k) s h in
    let (u', v', split', taken', on') = match-Split t k v on in
    (
      u ++ u',
      v',
      split ∙ ap (u ++◌) split' ∙ sym (append_assoc u u' v'),
      (u, u', refl, taken, taken'),
      on',
    )
match-Split (either r t) k s h = elim (Bool-cases (match_on r k s)) [
  | inl e ↦ let (u, v, split, taken, on) = match-Split r k s e in (u, v, split, inl taken, on)
  | inr e ↦
      let (u, v, split, taken, on) = match-Split t k s (ground arith) in
      (u, v, split, inr taken, on)
]

many_on-append :
    (p : ℕ → Bool) (k : Text → Bool) (u v : Text)
    → all p u ≡ true
    → k v ≡ true
    → many_on p k (u ++ v) ≡ true
unfolding many_on
many_on-append p k [] [] h on = on
many_on-append p k [] (c ∷ v) h on = ground arith
many_on-append p k (c ∷ u) v h on = ground (arith, many_on-append p k u v)

match_on-append :
    (r : Regex) (k : Text → Bool) (u v : Text)
    → Accepts r u
    → k v ≡ true
    → match_on r k (u ++ v) ≡ true
unfolding match_on
match_on-append blank k u v h on = rw h on
match_on-append (char c) k u v e on = rw (e, ==_refl c) on
match_on-append (one p) k u v (c, e, h) on = rw (e, h) on
match_on-append (many p) k u v h on = many_on-append p k u v h on
match_on-append (seq r t) k u v (a, b, e, h, h') on =
    rw (e, append_assoc a b v)
      (match_on-append r (match_on t k) a (b ++ v) h (match_on-append t k b v h' on))
match_on-append (either r t) k u v (inl h) on = ground (arith, match_on-append r k u v h on)
match_on-append (either r t) k u v (inr h) on = ground (arith, match_on-append t k u v h on)

at_end-nil : (v : Text) → at_end v ≡ true → v ≡ []
at_end-nil [] h = refl
at_end-nil (c ∷ v) h = cc

-- The search answers true exactly for the texts that the expression accepts.
pub test_iff : (r : Regex) (w : Text) → (test r w ≡ true) ↔ Accepts r w
unfolding test
test_iff r w = (
  λ h.
      let (u, v, split, taken, on) = match-Split r at_end w h in
      let whole : w ≡ u = split ∙ ap (u ++◌) (at_end-nil v on) ∙ append-nil u in rw whole taken,
  λ h. rw (← append-nil w) (match_on-append r at_end w [] h refl),
)

-- Whether each accepted text has the character.
abbrev pub requires : ℕ → Regex → Bool
requires c blank = false
requires c (char d) = d == c
requires c (one p) = false
requires c (many p) = false
requires c (seq r t) = requires c r || requires c t
requires c (either r t) = requires c r && requires c t

abbrev pub has : ℕ → Text → Bool
has c w = any (λ d. d == c) w

pub has-append : (c : ℕ) (u v : Text) → has c (u ++ v) ≡ (has c u || has c v)
has-append c [] v = refl
has-append c (d ∷ u) v = ground (arith, has-append c u v)

pub has-requires :
    (c : ℕ) (r : Regex) (w : Text) → requires c r ≡ true → Accepts r w → has c w ≡ true
has-requires c blank w h a = cc
has-requires c (char d) w h a = rw (a, h) refl
has-requires c (one p) w h a = cc
has-requires c (many p) w h a = cc
has-requires c (seq r t) w h (u, v, e, a, b) = elim (Bool-cases (requires c r)) [
  | inl k ↦ rw e (ground (arith, has-append c u v, has-requires c r u k a))
  | inr k ↦ rw e (ground (arith, has-append c u v, has-requires c t v (ground arith) b))
]
has-requires c (either r t) w h (inl a) = has-requires c r w (ground arith) a
has-requires c (either r t) w h (inr a) = has-requires c t w (ground arith) a
