-- ===== src/Catalog/FullScan.antt =====
-- Search of ed2ksrv/catalog.go against a scan of all files.
pub mod Indices
pub mod Keys
use goed2k_server.Base.{
  ℕ, zero, suc, ◌+◌, ◌≤◌, ◌<◌, ◌≡◌, ◌⊎◌, refl, ap, true, false, not, ◌&&◌, ◌||◌, List, [], ◌∷◌,
  none, some, length, All, get_elem?, ltb, leb, ◌==◌, if◌then◌else◌, arith, Bool-cases, inl, inr,
}
use native.Mathlib.Decide.{ℕ_discrete, dec_lt}
use mathlib.Core.Path.{subst}
use goed2k_server.Base.Maps.{lookup}
use goed2k_server.Base.Tests.{text_eq, nat_eq}
use goed2k_server.Base.Text.{Bytes, CaseTables, contains, contains_trans, trim_space, ◌=text◌}
use goed2k_server.Protocol.{Protocol}
use goed2k_server.Records.{FileRecord}
use goed2k_server.Search.{
  SearchExpr, SearchQuery, matches_record, match_expr, keyword_matches_record, normalize_keyword,
  hash_token_matches,
}
use goed2k_server.Search.Summary.{
  make_search_query, make_search_query-root, make_search_query-AllMatch, AllMatch,
}
use goed2k_server.Catalog.Trigrams.{
  TriIndex, or_empty, unique_trigrams, rebuild_search_index, index_key, longer_key, candidates_of,
  search_candidates,
}
use goed2k_server.Catalog.Index.{
  times, IsTrigram, times-unique_trigrams, postings_of_file, postings_beyond,
  unique_trigrams-IsTrigram, unique_trigrams_some,
}
use goed2k_server.Catalog.Candidates.{
  has, Ascending, total, candidates_of-Ascending, has-candidates_of, candidates_of_complete,
  has-All-lt,
}
use goed2k_server.Catalog.{Catalog, scan, scan_indices, search}
use goed2k_server.Catalog.FullScan.Indices.{scan_indices-scan}
use goed2k_server.Catalog.FullScan.Keys.{Explains, index_key-Explains, index_key_long}

pub All-get {ℓ κ} :
    {A : Type ℓ} (P : A → Type κ) (xs : List A) (i : ℕ) (x : A)
    → All P xs
    → get_elem? xs i ≡ some x
    → P x
All-get P [] i x h e = cc
All-get P (y ∷ xs) zero x h e = let d : y ≡ x = cc in subst P d h.0
All-get P (y ∷ xs) (suc i) x h e = All-get P xs i x h.1 e

pub total_zero :
    (index : TriIndex) (i : ℕ) (gs : List Bytes)
    → ((g : Bytes) → times i (or_empty (lookup g index)) ≡ 0)
    → total index i gs ≡ 0
unfolding total
total_zero index i [] h = refl
total_zero index i (g ∷ gs) h = omega (arith, h g, total_zero index i gs h)

module _ (p : Protocol) (u : CaseTables) where
  -- The index is the one that the files give.
  abbrev pub Indexed : Catalog → Type 0
  Indexed c = c.tri_index ≡ rebuild_search_index u c.files

  -- A file whose name holds the key is proposed by each of the key's trigrams.
  proposed :
      (files : List FileRecord) (i : ℕ) (f : FileRecord) (key : Bytes) (gs : List Bytes)
      → get_elem? files i ≡ some f
      → contains (u.to_lower f.name) key ≡ true
      → All (IsTrigram key) gs
      → All (λ g. times i (or_empty (lookup g (rebuild_search_index u files))) ≡ 1) gs
  proposed files i f key [] e h t = tt
  proposed files i f key (g ∷ gs) e h ((x, y, z, d, c), t) = (once, proposed files i f key gs e h t)
    where
      name_holds : contains (u.to_lower f.name) (x ∷ y ∷ z ∷ []) ≡ true
      name_holds = contains_trans (u.to_lower f.name) key _ h (rw d at c)

      once : times i (or_empty (lookup g (rebuild_search_index u files))) ≡ 1
      once =
          rw (d, postings_of_file u files i f (x ∷ y ∷ z ∷ []) e)
            (rw name_holds at (times-unique_trigrams x y z (u.to_lower f.name)))

  pub matches_root :
      (f : FileRecord) (root : SearchExpr)
      → matches_record p u f (make_search_query p root) ≡ match_expr p u root f
  unfolding matches_record
  matches_root f root = rw (make_search_query-root p root, matches_record)

  -- A file that matches is proposed.
  match_proposed :
      (files : List FileRecord) (root : SearchExpr) (key : Bytes) (i : ℕ) (f : FileRecord)
      → (make_search_query p root).summarized ≡ true
      → key ≡ index_key u [] (make_search_query p root).keywords
      → 3 ≤ length key
      → All (λ f. hash_token_matches p u f key ≡ false) files
      → get_elem? files i ≡ some f
      → match_expr p u root f ≡ true
      → has i (candidates_of (rebuild_search_index u files) key) ≡ true
  match_proposed files root key i f s k long no_hash at m = by_reason (
      rw (← k) at (
        index_key-Explains p u f [] (make_search_query p root).keywords
          (make_search_query-AllMatch p u f root s m) (inl refl)))
    where
      by_reason :
          Explains p u f key → has i (candidates_of (rebuild_search_index u files) key) ≡ true
      by_reason (inl e) = absurd (omega (arith, ap length e))
      by_reason (inr (inl c)) =
          candidates_of_complete (rebuild_search_index u files) key (unique_trigrams_some key long)
            i (proposed files i f key (unique_trigrams key) at c (unique_trigrams-IsTrigram key))
      by_reason (inr (inr h)) =
          cc (h, All-get (λ f. hash_token_matches p u f key ≡ false) files i f no_hash at)

  -- The proposed files, if no file is found by its hash alone.
  candidates-scan :
      (files : List FileRecord) (root : SearchExpr) (key : Bytes)
      → (make_search_query p root).summarized ≡ true
      → key ≡ index_key u [] (make_search_query p root).keywords
      → 3 ≤ length key
      → All (λ f. hash_token_matches p u f key ≡ false) files
      → scan_indices p u
          (make_search_query p root)
          files
          (candidates_of (rebuild_search_index u files) key)
        ≡ some (scan p u (make_search_query p root) files)
  candidates-scan files root key s k long no_hash =
      scan_indices-scan p u q files 0 files cs (candidates_of-Ascending index key enough)
        (has-All-lt (0 + length files) cs in_range)
        (λ a b e. let d : b ≡ a = omega arith in rw d refl) missed
    where
      q : SearchQuery
      q = make_search_query p root

      index : TriIndex
      index = rebuild_search_index u files

      cs : List ℕ
      cs = candidates_of index key

      enough : 0 < length (unique_trigrams key)
      enough = unique_trigrams_some key long

      in_range : (i : ℕ) → has i cs ≡ true → i < 0 + length files
      in_range i h = elim (dec_lt i (length files)) [
        | yes l ↦ omega arith
        | no n ↦
            let z =
              total_zero index i (unique_trigrams key)
                (λ g. postings_beyond u files i g (omega arith)) in
            absurd (omega (arith, z, enough, has-candidates_of index key enough i h))
      ]

      missed :
          (a b : ℕ) (f : FileRecord)
          → b ≡ 0 + a
          → get_elem? files a ≡ some f
          → has b cs ≡ false
          → matches_record p u f q ≡ false
      missed a b f e found h = elim (Bool-cases (matches_record p u f q)) [
        | inr m ↦ m
        | inl m ↦
            let d : b ≡ a = omega arith in
            cc (
              h,
              match_proposed files root key b f s k long no_hash (rw d found)
                  (rw matches_root at m),
            )
      ]

  -- The index is asked only on a required keyword of three bytes or more.
  pub search_candidates-cases :
      (index : TriIndex) (q : SearchQuery)
      → (search_candidates u index q ≡ none)
        ⊎ ((q.summarized ≡ true)
            × (3 ≤ length (index_key u [] q.keywords))
            × (search_candidates u index q
                ≡ some (candidates_of index (index_key u [] q.keywords))))
  unfolding search_candidates
  search_candidates-cases index q = elim (Bool-cases (not q.summarized || length index == 0)) [
    | inl e ↦ inl (rw e)
    | inr e ↦ elim (index_key_long p u [] q.keywords (inl refl)) [
      | inl n ↦ inl (rw (e, n))
      | inr l ↦ inr (ground arith, l, rw (e, not_empty (index_key u [] q.keywords) l))
    ]
  ]
    where
      not_empty : (k : Bytes) → 3 ≤ length k → (k =text []) ≡ false
      not_empty [] l = absurd (omega arith)
      not_empty (b ∷ k) l = refl

  -- Search gives what a scan of all files gives, in the same order, if no file is found by its hash
  -- alone: no file's hash is the keyword on which the index was asked.
  pub search-scan :
      (c : Catalog) (root : SearchExpr)
      → Indexed c
      → All
          (λ f.
            hash_token_matches p u f (index_key u [] (make_search_query p root).keywords) ≡ false)
          c.files
      → search p u c (make_search_query p root) ≡ some (scan p u (make_search_query p root) c.files)
  unfolding search
  search-scan c root x no_hash =
      elim (search_candidates-cases c.tri_index (make_search_query p root)) [
        | inl e ↦ rw (e, search)
        | inr (s, l, e) ↦ rw (e, search, x) (candidates-scan c.files root _ s refl l no_hash)
      ]
