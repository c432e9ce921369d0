-- ===== src/Connections/Server.antt =====
-- The cursors of `GetConnections` in connections_controller.go, which answers the requests of
-- frontend/src/components/panels/ConnectionsPane.js. The stored connections are listed newest
-- first, those that the other filters of the query leave out not among them; `key` is the number
-- that an identifier spells. The insertion order, which the database follows where the query does
-- not sort, is taken to be that of the identifiers.
use caronte.Prelude.{
  ℕ, ◌<◌, ◌≡◌, refl, ap, Bool, ◌&&◌, if◌then◌else◌, ltb, List, [], ◌∷◌, ◌++◌, Option, none, some,
  reverse, filter, take, leb, All, arith, append-nil, filter-append,
}
use mathlib.Core.List.{reverse-cons, reverse-append}

-- `MaxQueryLimit` and `DefaultQueryLimit`: the limit that a query has, by the one that it asks for.
unfoldable pub limit_of : ℕ → ℕ
limit_of asked = if ltb 0 asked && leb asked 200 then asked else 50

module _ {ℓ} {A : Type ℓ} (key : A → ℕ) where
  abbrev pub from_filter : Option ℕ → List A → List A
  from_filter none xs = xs
  from_filter (some from) xs = filter (λ c. leb (key c) from) xs

  -- `limit` is one that `limit_of` gives.
  unfoldable pub get_connections : Option ℕ → Option ℕ → ℕ → List A → List A
  get_connections from none limit stored = take limit (from_filter from stored)
  get_connections from (some to) limit stored =
      reverse (take limit (filter (λ c. leb to (key c)) (from_filter from (reverse stored))))

  -- With the limit that the query asks for.
  unfoldable pub query_connections : Option ℕ → Option ℕ → ℕ → List A → List A
  unfolding get_connections limit_of
  query_connections from to asked stored = get_connections from to (limit_of asked) stored

  -- Newest first, and no identifier twice.
  abbrev pub Descending : List A → Type 0
  Descending [] = Unit
  Descending (x ∷ xs) = All (λ y. key y < key x) xs × Descending xs

  filter-le_every :
      (n : ℕ) (xs : List A) → All (λ y. key y < n) xs → filter (λ c. leb (key c) n) xs ≡ xs
  filter-le_every n [] h = refl
  filter-le_every n (x ∷ xs) h = ground (arith, filter-le_every n xs h.1)

  filter-ge_none :
      (n : ℕ) (xs : List A) → All (λ y. key y < n) xs → filter (λ c. leb n (key c)) xs ≡ []
  filter-ge_none n [] h = refl
  filter-ge_none n (x ∷ xs) h = ground (arith, filter-ge_none n xs h.1)

  above :
      (pre : List A) (l : A) (post : List A) (x : A)
      → All (λ y. key y < key x) (pre ++ l ∷ post)
      → key l < key x
  above [] l post x h = h.0
  above (y ∷ pre) l post x h = above pre l post x h.1

  filter-at_or_below :
      (pre : List A) (l : A) (post : List A)
      → Descending (pre ++ l ∷ post)
      → filter (λ c. leb (key c) (key l)) (pre ++ l ∷ post) ≡ l ∷ post
  filter-at_or_below [] l post d = ground (arith, filter-le_every (key l) post d.0)
  filter-at_or_below (x ∷ pre) l post d =
      ground (arith, above pre l post x d.0, filter-at_or_below pre l post d.1)

  filter-at_or_above :
      (pre : List A) (f : A) (post : List A)
      → Descending (pre ++ f ∷ post)
      → filter (λ c. leb (key f) (key c)) (pre ++ f ∷ post) ≡ pre ++ f ∷ []
  filter-at_or_above [] f post d = ground (arith, filter-ge_none (key f) post d.0)
  filter-at_or_above (x ∷ pre) f post d =
      ground (arith, above pre f post x d.0, filter-at_or_above pre f post d.1)

  -- The answer to a `from` request begins with the connection of the cursor.
  pub get_connections_from :
      (pre : List A) (l : A) (post : List A) (limit : ℕ)
      → Descending (pre ++ l ∷ post)
      → get_connections (some (key l)) none limit (pre ++ l ∷ post) ≡ take limit (l ∷ post)
  unfolding get_connections
  get_connections_from pre l post limit d = ap (take limit) (filter-at_or_below pre l post d)

  filter-reverse : (p : A → Bool) (xs : List A) → filter p (reverse xs) ≡ reverse (filter p xs)
  filter-reverse p [] = refl
  filter-reverse p (x ∷ xs) =
      rw (reverse-cons x xs, filter-append p (reverse xs), filter-reverse p xs)
        (ground (arith, reverse-cons x (filter p xs), append-nil (reverse (filter p xs))))

  -- The answer to a `to` request ends with the connection of the cursor.
  pub get_connections_to :
      (pre : List A) (f : A) (post : List A) (limit : ℕ)
      → Descending (pre ++ f ∷ post)
      → get_connections none (some (key f)) limit (pre ++ f ∷ post)
        ≡ reverse (take limit (f ∷ reverse pre))
  unfolding get_connections
  get_connections_to pre f post limit d =
      rw (filter-reverse, filter-at_or_above pre f post d, reverse-append)
