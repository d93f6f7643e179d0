-- ===== src/Catalog/Runs.antt =====
-- Concrete runs of the catalog.
use goed2k_server.Base.{
  ◌≡◌, ◌≢◌, refl, Bool, true, false, List, [], ◌∷◌, Option, none, some, All, map, arith,
  if◌then◌else◌,
}
use goed2k_server.Base.Maps.{lookup, insert}
use goed2k_server.Base.Sort.{stable_sort}
use goed2k_server.Base.Tests.{text_eq}
use goed2k_server.Base.Text.{text, trim_prefix, trim_space, contains}
use goed2k_server.Records.{FileRecord}
use goed2k_server.Samples.{ascii, sample_protocol, sample_laws, file, hash_one, files}
use goed2k_server.Search.{SearchExpr, keyword, compound, match_all, match_expr, hash_token_matches}
use goed2k_server.Search.Summary.{make_search_query}
use goed2k_server.Catalog.Trigrams.{
  unique_trigrams, rebuild_search_index, index_key, search_candidates,
}
use goed2k_server.Catalog.FullScan.{search-scan}
use goed2k_server.Catalog.Missed.{search_misses}
use goed2k_server.Catalog.Consistency.{find_file, Consistent}
use goed2k_server.Catalog.Consistency.Updates.{upsert_updates, remove_updates}
use goed2k_server.Catalog.Consistency.Loading.{replace_all_loads, replace_all_keeps_duplicates}
use goed2k_server.Catalog.{
  Catalog, ok, get, scan, search, with_files, upsert_normalized, upsert, remove, replace_all,
  fill_defaults,
}

abbrev catalog : Catalog
catalog = record {
  files = files;
  by_hash =
      (hash_one, file hash_one (text "Ubuntu.iso"))
      ∷ (text "b", file (text "b") (text "demo-track.flac"))
      ∷ [];
  tri_index = rebuild_search_index ascii files;
}

abbrev wanted : SearchExpr
wanted = compound 0 (keyword (text " bunt")) match_all

abbrev by_hash : SearchExpr
by_hash = keyword hash_one

abbrev is_some {ℓ} : {A : Type ℓ} → Option A → Bool
is_some none = false
is_some (some a) = true

is_some→ne {ℓ} : {A : Type ℓ} (o : Option A) → is_some o ≡ true → o ≢ none
is_some→ne none h = cc
is_some→ne (some a) h = λ e. cc

-- The search for a part of a name goes by the index.
wanted_found :
    search sample_protocol ascii catalog (make_search_query sample_protocol wanted)
    ≡ some (
        scan sample_protocol ascii
          (make_search_query sample_protocol wanted)
          (file hash_one (text "Ubuntu.iso") ∷ []))
unfolding search search_candidates make_search_query rebuild_search_index insert trim_space lookup
    stable_sort
wanted_found = refl

search-scan_example :
    search sample_protocol ascii catalog (make_search_query sample_protocol wanted)
    ≡ some (scan sample_protocol ascii (make_search_query sample_protocol wanted) files)
unfolding make_search_query index_key hash_token_matches trim_prefix trim_space
search-scan_example = search-scan sample_protocol ascii catalog wanted refl (refl, (refl, tt))

abbrev none_of {ℓ} : {A : Type ℓ} → (A → Bool) → List A → Bool
none_of t [] = true
none_of t (x ∷ xs) = if t x then false else none_of t xs

none_of→All {ℓ} :
    {A : Type ℓ} (t : A → Bool) (xs : List A) → none_of t xs ≡ true → All (λ x. t x ≡ false) xs
none_of→All t [] h = tt
none_of→All t (x ∷ xs) h = ground (arith, none_of→All t xs)

-- A search for the first file's hash finds nothing, and a scan would find that file.
search_misses_example :
    (search sample_protocol ascii catalog (make_search_query sample_protocol by_hash) ≡ some [])
    × (scan sample_protocol ascii (make_search_query sample_protocol by_hash) files ≢ [])
unfolding make_search_query search_candidates rebuild_search_index unique_trigrams contains
    match_expr insert hash_token_matches trim_prefix trim_space lookup
search_misses_example =
    search_misses sample_protocol ascii catalog by_hash 0 (file hash_one (text "Ubuntu.iso")) refl
      (is_some→ne
        (search_candidates ascii catalog.tri_index (make_search_query sample_protocol by_hash))
        refl)
      (
        none_of→All (contains (text "ubuntu.iso")) (unique_trigrams hash_one) refl,
        (none_of→All (contains (text "demo-track.flac")) (unique_trigrams hash_one) refl, tt),
      )
      refl refl

abbrev track : FileRecord
track = file (text "b") (text " new name ")

abbrev no_files : Catalog
no_files = record { files = []; by_hash = []; tri_index = [] }

no_files-Consistent : Consistent sample_protocol ascii no_files
unfolding rebuild_search_index get lookup find_file
no_files-Consistent = record { indexed = refl; mapped = λ h. refl; distinct = tt }

abbrev one_file : Catalog
one_file = upsert_normalized sample_protocol ascii no_files (fill_defaults sample_protocol track)

upserted : upsert sample_protocol ascii no_files track ≡ ok one_file
unfolding upsert trim_space
upserted = refl

upsert_updates_example :
    get sample_protocol one_file (text "b") ≡ some (fill_defaults sample_protocol track)
upsert_updates_example =
    (upsert_updates sample_protocol sample_laws ascii no_files one_file track no_files-Consistent
        upserted).2
      (text "b")

remove_updates_example :
    get sample_protocol (remove sample_protocol ascii one_file (text "b")).0 (text "b") ≡ none
remove_updates_example =
    (remove_updates sample_protocol sample_laws ascii one_file (text "b")
        (upsert_updates sample_protocol sample_laws ascii no_files one_file track
          no_files-Consistent upserted).0).1
      (text "b")

abbrev filled : FileRecord → FileRecord
filled r = fill_defaults sample_protocol r

abbrev two_files : Catalog
two_files = with_files sample_protocol ascii (map filled files) (
    insert (text "b") (filled (file (text "b") (text "demo-track.flac")))
      (insert hash_one (filled (file hash_one (text "Ubuntu.iso"))) []))

replace_all_loads_example :
    Consistent sample_protocol ascii two_files
    × (two_files.files ≡ map (fill_defaults sample_protocol) files)
unfolding replace_all trim_space find_file
replace_all_loads_example =
    replace_all_loads sample_protocol sample_laws ascii files two_files (refl, (refl, tt)) refl

abbrev duplicated : Catalog
duplicated =
    with_files sample_protocol ascii (filled track ∷ filled (file (text "b") (text "x")) ∷ []) (
      insert (text "b") (filled (file (text "b") (text "x"))) (insert (text "b") (filled track) []))

replace_all_keeps_duplicates_example :
    (duplicated.files ≡ filled track ∷ filled (file (text "b") (text "x")) ∷ [])
    × (get sample_protocol duplicated (text "b") ≡ some (filled (file (text "b") (text "x"))))
    × ((remove sample_protocol ascii duplicated (text "b")).0.files
        ≡ filled (file (text "b") (text "x")) ∷ [])
    × (get sample_protocol (remove sample_protocol ascii duplicated (text "b")).0 (text "b") ≡ none)
unfolding replace_all trim_space
replace_all_keeps_duplicates_example =
    replace_all_keeps_duplicates sample_protocol sample_laws ascii track
      (file (text "b") (text "x")) duplicated refl refl
