-- ===== src/Sources/Order.antt =====
-- What a client receives: the order of the sources and the cap.
use goed2k_server.Base.{
  ℕ, zero, suc, ◌≤◌, ◌≡◌, true, false, not, List, [], ◌∷◌, ◌++◌, length, take, select, All, arith,
  length-take, take_all, All-take, Bool-cases, ltb→ge, ltb, inl, inr, if◌then◌else◌,
}
use goed2k_server.Base.Int.{ℤ, pos, negsuc}
use goed2k_server.Base.Sort.{stable_sort-first, All-select_test, All-select-not}
use goed2k_server.Sources.{FoundSourceEntry, is_high_id, source_limit, dedup, order_and_cap_sources}

-- Once a LowID source stands in the list, only such sources follow.
abbrev pub HighFirst : List FoundSourceEntry → Type 0
HighFirst [] = Unit
HighFirst (s ∷ ss) = (is_high_id s ≡ false → All (λ r. is_high_id r ≡ false) ss) × HighFirst ss

source_limit_bounds : (max : ℤ) → (1 ≤ source_limit max) × (source_limit max ≤ 255)
unfolding source_limit
source_limit_bounds (pos n) = ground arith
source_limit_bounds (negsuc n) = ground arith

take_below {ℓ} :
    {A : Type ℓ} (n : ℕ) (xs : List A) → (if ltb n (length xs) then take n xs else xs) ≡ take n xs
take_below n xs = elim (Bool-cases (ltb n (length xs))) [
  | inl h ↦ rw h
  | inr h ↦ rw (h, take_all n xs (ltb→ge _ _ h))
]

-- The reply is the distinct sources, those with a HighID first and otherwise in the order in which
-- they were found, up to the limit.
pub order_and_cap_sources-eq :
    (sources : List FoundSourceEntry) (max : ℤ)
    → order_and_cap_sources sources max
      ≡ take
          (source_limit max)
          (select is_high_id (dedup sources) ++ select (λ s. not (is_high_id s)) (dedup sources))
unfolding order_and_cap_sources
order_and_cap_sources-eq sources max = rw (take_below, stable_sort-first is_high_id)

lows-HighFirst : (ss : List FoundSourceEntry) → All (λ r. is_high_id r ≡ false) ss → HighFirst ss
lows-HighFirst [] h = tt
lows-HighFirst (s ∷ ss) h = ((λ _. h.1), lows-HighFirst ss h.1)

append-HighFirst :
    (hs ls : List FoundSourceEntry)
    → All (λ r. is_high_id r ≡ true) hs
    → All (λ r. is_high_id r ≡ false) ls
    → HighFirst (hs ++ ls)
append-HighFirst [] ls h l = lows-HighFirst ls l
append-HighFirst (s ∷ hs) ls h l = ((λ e. cc), append-HighFirst hs ls h.1 l)

take-HighFirst : (n : ℕ) (ss : List FoundSourceEntry) → HighFirst ss → HighFirst (take n ss)
take-HighFirst zero ss h = tt
take-HighFirst (suc n) [] h = tt
take-HighFirst (suc n) (s ∷ ss) h =
    ((λ e. All-take (λ r. is_high_id r ≡ false) n ss (h.0 e)), take-HighFirst n ss h.1)

-- A reply holds at most 255 sources, and no more than the configured number.
pub order_and_cap_sources_shape :
    (sources : List FoundSourceEntry) (max : ℤ)
    → (length (order_and_cap_sources sources max) ≤ source_limit max)
      × (source_limit max ≤ 255)
      × HighFirst (order_and_cap_sources sources max)
order_and_cap_sources_shape sources max =
    let hs = select is_high_id (dedup sources) in
    let ls = select (λ s. not (is_high_id s)) (dedup sources) in
    let sorted =
      append-HighFirst hs ls (All-select_test is_high_id _) (All-select-not is_high_id _) in
    rw order_and_cap_sources-eq (
      omega (arith, length-take (source_limit max) (hs ++ ls)),
      (source_limit_bounds max).1,
      take-HighFirst (source_limit max) (hs ++ ls) sorted,
    )
