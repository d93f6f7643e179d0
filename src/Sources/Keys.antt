-- ===== src/Sources/Keys.antt =====
-- Which endpoints a reply holds: each once, and each of those found when they fit.
use goed2k_server.Base.{
  ℕ, zero, suc, ◌≤◌, ◌≡◌, refl, Bool, true, false, not, ◌||◌, List, [], ◌∷◌, ◌++◌, length, take,
  select, arith, take_all, length-append,
}
use goed2k_server.Base.Int.{ℤ, eqb_ℤ_iff}
use goed2k_server.Sources.{
  FoundSourceEntry, same_key, has_key, is_high_id, source_limit, dedup_loop, dedup,
  order_and_cap_sources,
}
use goed2k_server.Sources.Order.{order_and_cap_sources-eq}

-- No two entries of the list have one client ID and one port.
abbrev pub DistinctKeys : List FoundSourceEntry → Type 0
DistinctKeys [] = Unit
DistinctKeys (s ∷ ss) = (has_key s ss ≡ false) × DistinctKeys ss

same_key_sym : (a b : FoundSourceEntry) → same_key a b ≡ same_key b a
same_key_sym a b = ground (arith, eqb_ℤ_iff a.port b.port, eqb_ℤ_iff b.port a.port)

has_key_same :
    (a b : FoundSourceEntry) (ss : List FoundSourceEntry)
    → same_key a b ≡ true
    → has_key a ss ≡ has_key b ss
unfolding has_key
has_key_same a b [] h = refl
has_key_same a b (s ∷ ss) h = ground (arith, eqb_ℤ_iff a.port b.port, has_key_same a b ss h)

pub has_key-append :
    (a : FoundSourceEntry) (xs ys : List FoundSourceEntry)
    → has_key a (xs ++ ys) ≡ (has_key a xs || has_key a ys)
unfolding has_key
has_key-append a [] ys = refl
has_key-append a (x ∷ xs) ys = ground (arith, has_key-append a xs ys)

-- What the set holds is not kept again.
dedup_loop_seen :
    (k : FoundSourceEntry) (seen ss : List FoundSourceEntry)
    → has_key k seen ≡ true
    → has_key k (dedup_loop seen ss) ≡ false
unfolding dedup_loop has_key
dedup_loop_seen k seen [] h = refl
dedup_loop_seen k seen (s ∷ ss) h =
    ground
      (arith, has_key_same k s seen, dedup_loop_seen k seen ss h, dedup_loop_seen k (s ∷ seen) ss)

dedup_loop-DistinctKeys : (seen ss : List FoundSourceEntry) → DistinctKeys (dedup_loop seen ss)
unfolding dedup_loop has_key
dedup_loop-DistinctKeys seen [] = tt
dedup_loop-DistinctKeys seen (s ∷ ss) = ground (
  arith,
  dedup_loop_seen s (s ∷ seen) ss,
  eqb_ℤ_iff s.port s.port,
  dedup_loop-DistinctKeys seen ss,
  dedup_loop-DistinctKeys (s ∷ seen) ss,
)

has_key-dedup_loop :
    (k : FoundSourceEntry) (seen ss : List FoundSourceEntry)
    → has_key k seen ≡ false
    → has_key k (dedup_loop seen ss) ≡ has_key k ss
unfolding dedup_loop has_key
has_key-dedup_loop k seen [] h = refl
has_key-dedup_loop k seen (s ∷ ss) h = ground (
  arith,
  has_key_same k s seen,
  has_key-dedup_loop k seen ss h,
  has_key-dedup_loop k (s ∷ seen) ss,
)

dedup-DistinctKeys : (ss : List FoundSourceEntry) → DistinctKeys (dedup ss)
unfolding dedup has_key
dedup-DistinctKeys [] = tt
dedup-DistinctKeys (s ∷ []) = (refl, tt)
dedup-DistinctKeys (s ∷ r ∷ ss) = ground (arith, dedup_loop-DistinctKeys [] (s ∷ r ∷ ss))

has_key-dedup :
    (k : FoundSourceEntry) (ss : List FoundSourceEntry) → has_key k (dedup ss) ≡ has_key k ss
unfolding dedup has_key
has_key-dedup k [] = refl
has_key-dedup k (s ∷ []) = refl
has_key-dedup k (s ∷ r ∷ ss) = ground (arith, has_key-dedup_loop k [] (s ∷ r ∷ ss))

middle-DistinctKeys :
    (x : FoundSourceEntry) (xs ys : List FoundSourceEntry)
    → has_key x (xs ++ ys) ≡ false
    → DistinctKeys (xs ++ ys)
    → DistinctKeys (xs ++ (x ∷ ys))
unfolding has_key
middle-DistinctKeys x [] ys h d = (h, d)
middle-DistinctKeys x (a ∷ xs) ys h d = ground (
  arith,
  same_key_sym a x,
  has_key-append a xs (x ∷ ys),
  has_key-append a xs ys,
  middle-DistinctKeys x xs ys,
)

-- Moving the entries that pass a test to the front keeps the keys.
module _ (t : FoundSourceEntry → Bool) where
  abbrev moved : List FoundSourceEntry → List FoundSourceEntry
  moved ss = select t ss ++ select (λ s. not (t s)) ss

  has_key-moved :
      (k : FoundSourceEntry) (ss : List FoundSourceEntry) → has_key k (moved ss) ≡ has_key k ss
  unfolding has_key
  has_key-moved k [] = refl
  has_key-moved k (s ∷ ss) = ground (
    arith,
    has_key-moved k ss,
    has_key-append k (select t ss) (select (λ s. not (t s)) ss),
    has_key-append k (select t ss) (s ∷ select (λ s. not (t s)) ss),
  )

  moved-DistinctKeys : (ss : List FoundSourceEntry) → DistinctKeys ss → DistinctKeys (moved ss)
  moved-DistinctKeys [] d = tt
  moved-DistinctKeys (s ∷ ss) d = ground (
    arith,
    has_key-moved s ss,
    moved-DistinctKeys ss d.1,
    middle-DistinctKeys s (select t ss) (select (λ s. not (t s)) ss),
  )

  length-moved : (ss : List FoundSourceEntry) → length (moved ss) ≡ length ss
  length-moved [] = refl
  length-moved (s ∷ ss) = ground (
    arith,
    length-moved ss,
    length-append (select t ss) (select (λ s. not (t s)) ss),
    length-append (select t ss) (s ∷ select (λ s. not (t s)) ss),
  )

has_key-take :
    (k : FoundSourceEntry) (n : ℕ) (ss : List FoundSourceEntry)
    → has_key k ss ≡ false
    → has_key k (take n ss) ≡ false
unfolding has_key
has_key-take k zero ss h = refl
has_key-take k (suc n) [] h = refl
has_key-take k (suc n) (s ∷ ss) h = ground (arith, has_key-take k n ss)

take-DistinctKeys :
    (n : ℕ) (ss : List FoundSourceEntry) → DistinctKeys ss → DistinctKeys (take n ss)
take-DistinctKeys zero ss d = tt
take-DistinctKeys (suc n) [] d = tt
take-DistinctKeys (suc n) (s ∷ ss) d = (has_key-take s n ss d.0, take-DistinctKeys n ss d.1)

-- A reply names no endpoint twice, and none that was not found.
pub order_and_cap_sources_distinct :
    (sources : List FoundSourceEntry) (max : ℤ)
    → DistinctKeys (order_and_cap_sources sources max)
      × ((k : FoundSourceEntry)
          → has_key k sources ≡ false
          → has_key k (order_and_cap_sources sources max) ≡ false)
order_and_cap_sources_distinct sources max = rw order_and_cap_sources-eq (
  take-DistinctKeys _ _ (moved-DistinctKeys is_high_id _ (dedup-DistinctKeys sources)),
  λ k h. has_key-take k _ _ (rw (has_key-moved is_high_id k, has_key-dedup) h),
)

-- If the distinct endpoints fit the limit, the reply names every endpoint that was found.
pub order_and_cap_sources_complete :
    (sources : List FoundSourceEntry) (max : ℤ) (k : FoundSourceEntry)
    → length (dedup sources) ≤ source_limit max
    → has_key k (order_and_cap_sources sources max) ≡ has_key k sources
order_and_cap_sources_complete sources max k h = rw (
  order_and_cap_sources-eq,
  take_all (source_limit max) (moved is_high_id (dedup sources))
      (omega (arith, length-moved is_high_id (dedup sources))),
  has_key-moved is_high_id k,
  has_key-dedup,
)
