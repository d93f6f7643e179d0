-- ===== src/Catalog/Candidates.antt =====
-- Which files the index proposes: counting, collecting and sorting.
use goed2k_server.Base.{
  ℕ, suc, ◌+◌, ◌≤◌, ◌<◌, ◌≡◌, ◌≢◌, refl, Bool, true, false, ◌||◌, List, [], ◌∷◌, none, some, length,
  All, ltb, ◌==◌, arith, inl, inr, ==_iff, Option-cases,
}
use goed2k_server.Base.Maps.{lookup, insert, lookup-insert}
use goed2k_server.Base.Sort.{stable_sort, sorted_insert}
use goed2k_server.Base.Tests.{text_eq, nat_eq}
use goed2k_server.Base.Text.{Bytes}
use goed2k_server.Catalog.Trigrams.{
  TriIndex, or_empty, Counts, or_zero, add_postings, count_postings, full_counts, unique_trigrams,
  candidates_of,
}
use goed2k_server.Catalog.Index.{times}

unfoldable pub has : ℕ → List ℕ → Bool
has i [] = false
has i (j ∷ js) = j == i || has i js

-- Strictly ascending, from `lo` on.
abbrev pub Ascending : ℕ → List ℕ → Type 0
Ascending lo [] = Unit
Ascending lo (i ∷ is) = (lo ≤ i) × Ascending (suc i) is

add_postings-count :
    (i : ℕ) (ps : List ℕ) (counts : Counts)
    → or_zero (lookup i (add_postings ps counts)) ≡ or_zero (lookup i counts) + times i ps
unfolding add_postings times
add_postings-count i [] counts = omega arith
add_postings-count i (j ∷ ps) counts =
    let n = or_zero (lookup j counts) + 1 in
    ground (arith, lookup-insert j i n counts, add_postings-count i ps (insert j n counts))

-- How often the trigrams propose the file.
unfoldable pub total : TriIndex → ℕ → List Bytes → ℕ
total index i [] = 0
total index i (g ∷ gs) = times i (or_empty (lookup g index)) + total index i gs

count_postings-count :
    (index : TriIndex) (i : ℕ) (gs : List Bytes) (counts counts' : Counts)
    → count_postings index gs counts ≡ some counts'
    → or_zero (lookup i counts') ≡ or_zero (lookup i counts) + total index i gs
unfolding count_postings total
count_postings-count index i [] counts counts' h = ground arith
count_postings-count index i (g ∷ gs) counts counts' h = elim (Option-cases (lookup g index)) [
  | inl e ↦ cc (rw (e, count_postings) at h)
  | inr (ps, e) ↦ rw e (
      omega (
        arith,
        count_postings-count index i gs (add_postings ps counts) counts'
            (rw (e, count_postings) at h),
        add_postings-count i ps counts,
      ))
]

-- A file that every trigram proposes has a trigram that is in the index.
count_postings-ne-none :
    (index : TriIndex) (i : ℕ) (gs : List Bytes) (counts : Counts)
    → All (λ g. times i (or_empty (lookup g index)) ≡ 1) gs
    → count_postings index gs counts ≢ none
unfolding count_postings
count_postings-ne-none index i [] counts h = λ e. cc
count_postings-ne-none index i (g ∷ gs) counts h = elim (Option-cases (lookup g index)) [
  | inl e ↦ absurd (unfold times in omega (arith, (rw e at h.0)))
  | inr (ps, e) ↦
      rw (e, count_postings) (count_postings-ne-none index i gs (add_postings ps counts) h.1)
]

pub total_full :
    (index : TriIndex) (i : ℕ) (gs : List Bytes)
    → All (λ g. times i (or_empty (lookup g index)) ≡ 1) gs
    → total index i gs ≡ length gs
unfolding total
total_full index i [] h = refl
total_full index i (g ∷ gs) h = omega (arith, total_full index i gs h.1)

-- Each file is counted in one entry.
abbrev DistinctFiles : Counts → Type 0
DistinctFiles [] = Unit
DistinctFiles ((i, c) ∷ counts) = (lookup i counts ≡ none) × DistinctFiles counts

insert-DistinctFiles :
    (i n : ℕ) (counts : Counts) → DistinctFiles counts → DistinctFiles (insert i n counts)
unfolding insert lookup
insert-DistinctFiles i n [] d = (refl, tt)
insert-DistinctFiles i n ((j, c) ∷ counts) d =
    ground (arith, lookup-insert i j n counts, insert-DistinctFiles i n counts d.1)

add_postings-DistinctFiles :
    (ps : List ℕ) (counts : Counts) → DistinctFiles counts → DistinctFiles (add_postings ps counts)
unfolding add_postings
add_postings-DistinctFiles [] counts d = d
add_postings-DistinctFiles (i ∷ ps) counts d =
    add_postings-DistinctFiles ps _ (insert-DistinctFiles i _ counts d)

count_postings-DistinctFiles :
    (index : TriIndex) (gs : List Bytes) (counts counts' : Counts)
    → DistinctFiles counts
    → count_postings index gs counts ≡ some counts'
    → DistinctFiles counts'
unfolding count_postings
count_postings-DistinctFiles index [] counts counts' d h = ground arith
count_postings-DistinctFiles index (g ∷ gs) counts counts' d h =
    elim (Option-cases (lookup g index)) [
      | inl e ↦ cc (rw (e, count_postings) at h)
      | inr (ps, e) ↦
          count_postings-DistinctFiles index gs (add_postings ps counts) counts'
            (add_postings-DistinctFiles ps counts d) (rw (e, count_postings) at h)
    ]

has-full_counts-none :
    (i n : ℕ) (counts : Counts) → lookup i counts ≡ none → has i (full_counts n counts) ≡ false
unfolding has full_counts lookup
has-full_counts-none i n [] h = refl
has-full_counts-none i n ((j, c) ∷ counts) h = ground (arith, has-full_counts-none i n counts)

-- A file is collected exactly if its count is the number asked for.
has-full_counts :
    (i n : ℕ) (counts : Counts)
    → DistinctFiles counts
    → 0 < n
    → has i (full_counts n counts) ≡ (or_zero (lookup i counts) == n)
unfolding has full_counts lookup
has-full_counts i n [] d h = ground arith
has-full_counts i n ((j, c) ∷ counts) d h =
    ground (arith, has-full_counts-none i n counts, has-full_counts i n counts d.1)

abbrev Distinct : List ℕ → Type 0
Distinct [] = Unit
Distinct (i ∷ is) = (has i is ≡ false) × Distinct is

full_counts-Distinct :
    (n : ℕ) (counts : Counts) → DistinctFiles counts → Distinct (full_counts n counts)
unfolding full_counts
full_counts-Distinct n [] d = tt
full_counts-Distinct n ((i, c) ∷ counts) d =
    ground (arith, has-full_counts-none i n counts d.0, full_counts-Distinct n counts d.1)

has-sorted_insert : (i x : ℕ) (xs : List ℕ) → has i (sorted_insert ltb x xs) ≡ (x == i || has i xs)
unfolding has sorted_insert
has-sorted_insert i x [] = refl
has-sorted_insert i x (y ∷ xs) = ground (arith, has-sorted_insert i x xs)

has-stable_sort : (i : ℕ) (xs : List ℕ) → has i (stable_sort ltb xs) ≡ has i xs
unfolding has stable_sort
has-stable_sort i [] = refl
has-stable_sort i (x ∷ xs) = rw (has-sorted_insert i x (stable_sort ltb xs), has-stable_sort i xs)

sorted_insert-Ascending :
    (lo x : ℕ) (xs : List ℕ)
    → lo ≤ x
    → Ascending lo xs
    → has x xs ≡ false
    → Ascending lo (sorted_insert ltb x xs)
unfolding has sorted_insert
sorted_insert-Ascending lo x [] l a h = (l, tt)
sorted_insert-Ascending lo x (y ∷ xs) l a h = ground (arith, sorted_insert-Ascending (suc y) x xs)

stable_sort-Ascending : (xs : List ℕ) → Distinct xs → Ascending 0 (stable_sort ltb xs)
unfolding stable_sort
stable_sort-Ascending [] d = tt
stable_sort-Ascending (x ∷ xs) d =
    sorted_insert-Ascending 0 x (stable_sort ltb xs) (omega arith) (stable_sort-Ascending xs d.1)
      (rw has-stable_sort d.0)

pub has-All-lt : (n : ℕ) (xs : List ℕ) → ((i : ℕ) → has i xs ≡ true → i < n) → All (λ i. i < n) xs
unfolding has
has-All-lt n [] h = tt
has-All-lt n (x ∷ xs) h = (h x (ground arith), has-All-lt n xs (λ i e. h i (ground arith)))

-- The candidates ascend, and they are the files that all trigrams of the key propose. An index that
-- no trigram proposes is none of them.
module _ (index : TriIndex) (key : Bytes) (some_trigram : 0 < length (unique_trigrams key)) where
  abbrev pub grams : List Bytes
  grams = unique_trigrams key

  pub candidates_of-Ascending : Ascending 0 (candidates_of index key)
  unfolding candidates_of
  candidates_of-Ascending = elim (Option-cases (count_postings index grams [])) [
    | inl e ↦ rw (e, candidates_of) tt
    | inr (counts, e) ↦
        rw (e, candidates_of)
          (stable_sort-Ascending _ (
            full_counts-Distinct (length grams) counts
              (count_postings-DistinctFiles index grams [] counts tt e)))
  ]

  count_of :
      (i : ℕ) (counts : Counts)
      → count_postings index grams [] ≡ some counts
      → has i (stable_sort ltb (full_counts (length grams) counts))
        ≡ (total index i grams == length grams)
  unfolding lookup
  count_of i counts e =
      rw
        (
          has-stable_sort i (full_counts (length grams) counts),
          has-full_counts i (length grams) counts
              (count_postings-DistinctFiles index grams [] counts tt e) some_trigram,
          count_postings-count index i grams [] counts e,
        )
        (ground arith)

  pub has-candidates_of :
      (i : ℕ) → has i (candidates_of index key) ≡ true → total index i grams ≡ length grams
  unfolding candidates_of
  has-candidates_of i h = elim (Option-cases (count_postings index grams [])) [
    | inl e ↦ unfold has in cc (rw (e, candidates_of) at h)
    | inr (counts, e) ↦ (==_iff _ _).0 (rw (count_of i counts e) at (rw (e, candidates_of) at h))
  ]

  pub candidates_of_complete :
      (i : ℕ)
      → All (λ g. times i (or_empty (lookup g index)) ≡ 1) grams
      → has i (candidates_of index key) ≡ true
  unfolding candidates_of
  candidates_of_complete i h = elim (Option-cases (count_postings index grams [])) [
    | inl e ↦ absurd (count_postings-ne-none index i grams [] h e)
    | inr (counts, e) ↦
        rw (e, candidates_of)
          (rw (count_of i counts e) ((==_iff _ _).1 (total_full index i grams h)))
  ]
