-- ===== src/Catalog/Missed.antt =====
-- Where the trigram index of ed2ksrv/catalog.go loses files: a keyword that is a file's hash.
use goed2k_server.Base.{
  ℕ, zero, suc, ◌≤◌, ◌<◌, ◌≡◌, ◌≢◌, refl, true, false, List, [], ◌∷◌, none, some, length, All,
  get_elem?, arith, Bool-cases, Option-cases, inl, inr,
}
use goed2k_server.Base.Maps.{lookup}
use goed2k_server.Base.Tests.{text_eq, nat_eq}
use goed2k_server.Base.Text.{Bytes, CaseTables, contains}
use goed2k_server.Protocol.{Protocol}
use goed2k_server.Records.{FileRecord}
use goed2k_server.Search.{SearchExpr, SearchQuery, match_expr, matches_record}
use goed2k_server.Search.Summary.{make_search_query}
use goed2k_server.Catalog.Trigrams.{
  TriIndex, or_empty, unique_trigrams, rebuild_search_index, index_key, candidates_of,
  search_candidates,
}
use goed2k_server.Catalog.Index.{
  times, IsTrigram, times-unique_trigrams, postings_of_file, postings_beyond,
  unique_trigrams-IsTrigram, unique_trigrams_some,
}
use goed2k_server.Catalog.Candidates.{has, total, has-candidates_of}
use goed2k_server.Catalog.{Catalog, scan, scan_indices, search}
use goed2k_server.Catalog.FullScan.{
  Indexed, search_candidates-cases, matches_root, total_zero, All-get,
}

has_none : (is : List ℕ) → ((i : ℕ) → has i is ≡ false) → is ≡ []
unfolding has
has_none [] h = refl
has_none (i ∷ is) h = absurd (ground (arith, h i))

get_elem?-none {ℓ} : {A : Type ℓ} (xs : List A) (i : ℕ) → get_elem? xs i ≡ none → length xs ≤ i
get_elem?-none [] i h = omega arith
get_elem?-none (x ∷ xs) zero h = cc
get_elem?-none (x ∷ xs) (suc i) h = omega (arith, get_elem?-none xs i h)

module _ (p : Protocol) (u : CaseTables) where
  -- No name holds any of the trigrams.
  abbrev pub NamesLack : List FileRecord → List Bytes → Type 0
  NamesLack files gs = All (λ f. All (λ g. contains (u.to_lower f.name) g ≡ false) gs) files

  scan_finds :
      (q : SearchQuery) (files : List FileRecord) (i : ℕ) (f : FileRecord)
      → get_elem? files i ≡ some f
      → matches_record p u f q ≡ true
      → scan p u q files ≢ []
  unfolding scan
  scan_finds q [] i f e m = cc
  scan_finds q (x ∷ files) zero f e m = ground arith
  scan_finds q (x ∷ files) (suc i) f e m = ground (arith, scan_finds q files i f e m)

  file_total :
      (files : List FileRecord) (i : ℕ) (f : FileRecord) (key : Bytes) (gs : List Bytes)
      → get_elem? files i ≡ some f
      → All (IsTrigram key) gs
      → All (λ g. contains (u.to_lower f.name) g ≡ false) gs
      → total (rebuild_search_index u files) i gs ≡ 0
  unfolding total
  file_total files i f key [] e t l = refl
  file_total files i f key (g ∷ gs) e ((x, y, z, d, c), t) (a, l) =
      omega (arith, unproposed, file_total files i f key gs e t l)
    where
      unproposed : times i (or_empty (lookup g (rebuild_search_index u files))) ≡ 0
      unproposed =
          rw (d, postings_of_file u files i f (x ∷ y ∷ z ∷ []) e)
            (rw (rw d at a) at (times-unique_trigrams x y z (u.to_lower f.name)))

  nothing_proposed :
      (files : List FileRecord) (key : Bytes)
      → 3 ≤ length key
      → NamesLack files (unique_trigrams key)
      → candidates_of (rebuild_search_index u files) key ≡ []
  nothing_proposed files key long lack = has_none _ none_has
    where
      index : TriIndex
      index = rebuild_search_index u files

      enough : 0 < length (unique_trigrams key)
      enough = unique_trigrams_some key long

      no_total : (i : ℕ) → total index i (unique_trigrams key) ≡ 0
      no_total i = elim (Option-cases (get_elem? files i)) [
        | inl e ↦
            total_zero index i (unique_trigrams key)
              (λ g. postings_beyond u files i g (get_elem?-none files i e))
        | inr (f, e) ↦
            file_total files i f key (unique_trigrams key) e (unique_trigrams-IsTrigram key) (
              All-get (λ f. All (λ g. contains (u.to_lower f.name) g ≡ false) (unique_trigrams key))
                files i f lack e)
      ]

      none_has : (i : ℕ) → has i (candidates_of index key) ≡ false
      none_has i = elim (Bool-cases (has i (candidates_of index key))) [
        | inl h ↦ absurd (omega (arith, no_total i, enough, has-candidates_of index key enough i h))
        | inr h ↦ h
      ]

  -- A required keyword of three bytes or more whose trigrams are in no name finds nothing by
  -- Search, also where a scan finds a file, which it then finds by its hash.
  pub search_misses :
      (c : Catalog) (root : SearchExpr) (i : ℕ) (f : FileRecord)
      → Indexed p u c
      → search_candidates u c.tri_index (make_search_query p root) ≢ none
      → NamesLack c.files (unique_trigrams (index_key u [] (make_search_query p root).keywords))
      → get_elem? c.files i ≡ some f
      → match_expr p u root f ≡ true
      → (search p u c (make_search_query p root) ≡ some [])
        × (scan p u (make_search_query p root) c.files ≢ [])
  unfolding search scan_indices
  search_misses c root i f x asked lack e m = (
    elim (search_candidates-cases p u c.tri_index (make_search_query p root)) [
      | inl n ↦ absurd (asked n)
      | inr (s, l, n) ↦ rw (n, search, x, nothing_proposed c.files _ l lack)
    ],
    scan_finds (make_search_query p root) c.files i f e (rw matches_root m),
  )
