-- ===== src/Catalog.antt =====
-- ed2ksrv/catalog.go: the catalog of static files, its trigram index and its operations. The locks
-- make each operation atomic; the backing store is a parameter of Save, which is pure I/O.
pub mod Trigrams
pub mod Index
pub mod Candidates
pub mod FullScan
pub mod Missed
pub mod Consistency
mod Runs
use goed2k_server.Base.{
  ℕ, suc, ◌+◌, ◌-◌, ◌/◌, ◌%◌, ◌^◌, ◌≤◌, ◌<◌, ◌≡◌, Bool, true, false, not, ◌&&◌, ◌||◌, List, [], ◌∷◌,
  ◌++◌, Option, none, some, length, get_elem?, set, ltb, ◌==◌, if◌then◌else◌,
}
use goed2k_server.Base.Int.{ℤ, pos, negsuc, ltb_ℤ, is_positive}
use goed2k_server.Base.Maps.{lookup, insert, delete}
use goed2k_server.Base.Text.{Bytes, ◌=text◌, trim_space, CaseTables}
use goed2k_server.Base.Tests.{text_eq}
use goed2k_server.Protocol.{Protocol, Hash, SharedFileEntry, Tag, string_tag, uint32_tag}
use goed2k_server.Records.{FileRecord, SourceEntry}
use goed2k_server.Search.{SearchQuery, matches_record}
use Trigrams.{TriIndex, rebuild_search_index, search_candidates}

pub record Catalog : Type 0 where
  pub files : List FileRecord
  pub by_hash : List (Bytes × FileRecord)
  pub tri_index : TriIndex

pub data CatalogError : Type 0 where
  hash_required name_required size_not_positive : CatalogError
  endpoint_invalid : ℕ → CatalogError
  file_invalid : ℕ → CatalogError → CatalogError

pub data Result {ℓ} (A : Type ℓ) : Type ℓ where
  ok : A → Result A
  err : CatalogError → Result A

-- The low 32 bits of an int64, `uint32(v)`, and its next 32 bits, `uint32(uint64(v) >> 32)`.
unfoldable pub low_word : ℤ → ℕ
low_word (pos n) = n % 2 ^ 32
low_word (negsuc n) = 2 ^ 32 - 1 - n % 2 ^ 32

pub high_word : ℤ → ℕ
high_word (pos n) = n / 2 ^ 32 % 2 ^ 32
high_word (negsuc n) = 2 ^ 32 - 1 - n / 2 ^ 32 % 2 ^ 32

module _ (p : Protocol) where
  -- The index of the first endpoint that does not parse.
  unfoldable pub bad_endpoint : ℕ → List SourceEntry → Option ℕ
  bad_endpoint idx [] = none
  bad_endpoint idx (s ∷ ss) =
      let rest = bad_endpoint (suc idx) ss in
      elim (p.endpoint_from_string s.host s.port) [ none ↦ some idx | some _ ↦ rest ]

  -- normalizeFileRecord, once its guards have passed.
  unfoldable pub fill_defaults : FileRecord → FileRecord
  fill_defaults r =
      let sources = if is_positive r.sources then r.sources else pos (length r.endpoints) in
      record r {
        name = trim_space r.name;
        sources = sources;
        complete_sources = (if is_positive r.complete_sources then r.complete_sources else sources);
        file_type = trim_space r.file_type;
        extension = trim_space r.extension;
        media_codec = trim_space r.media_codec;
      }

  unfoldable pub normalize_file_record : FileRecord → Result FileRecord
  unfolding bad_endpoint fill_defaults
  normalize_file_record r =
      if p.hash_is_zero r.hash
      then err hash_required
      else if trim_space r.name =text []
      then err name_required
      else if not (is_positive r.size)
      then err size_not_positive
      else elim (bad_endpoint 0 r.endpoints) [
        | some idx ↦ err (endpoint_invalid idx)
        | none ↦ ok (fill_defaults r)
      ]

  -- A tag that makeSharedFileEntry adds only where the field is set.
  abbrev pub when : Bool → Tag → List Tag
  when b t = if b then t ∷ [] else []

  pub entry_tags : FileRecord → List Tag
  unfolding low_word high_word
  entry_tags r =
      (string_tag p.ft.filename r.name
        ∷ uint32_tag p.ft.file_size (low_word r.size)
        ∷ uint32_tag p.ft.sources (low_word r.sources)
        ∷ uint32_tag p.ft.complete_sources (low_word r.complete_sources)
        ∷ [])
      ++ when (ltb_ℤ (pos 0xffffffff) r.size) (uint32_tag p.ft.file_size_hi (high_word r.size))
      ++ when (not (r.file_type =text [])) (string_tag p.ft.file_type r.file_type)
      ++ when (not (r.extension =text [])) (string_tag p.ft.file_format r.extension)
      ++ when (not (r.media_codec =text [])) (string_tag p.ft.media_codec r.media_codec)
      ++ when (is_positive r.media_length) (uint32_tag p.ft.media_length (low_word r.media_length))
      ++ when (is_positive r.media_bitrate)
          (uint32_tag p.ft.media_bitrate (low_word r.media_bitrate))

  -- The address of the first endpoint, 0 and 0 where there is none or it does not parse.
  pub entry_address : List SourceEntry → ℕ × ℕ
  unfolding low_word
  entry_address [] = (0, 0)
  entry_address (s ∷ ss) = elim (p.endpoint_from_string s.host s.port) [
    | none ↦ (0, 0)
    | some e ↦ (e.ip, low_word e.port % 2 ^ 16)
  ]

  pub make_shared_file_entry : FileRecord → SharedFileEntry
  unfolding entry_tags entry_address
  make_shared_file_entry r = record {
    hash = r.hash;
    tags = entry_tags r;
    client_id = (entry_address r.endpoints).0;
    port = (entry_address r.endpoints).1;
  }

  unfoldable pub get : Catalog → Hash → Option FileRecord
  get c hash = lookup (p.hash_string hash) c.by_hash

  -- The loop that overwrites the first file with the hash.
  unfoldable pub replace_first : FileRecord → List FileRecord → List FileRecord
  replace_first new [] = []
  replace_first new (f ∷ fs) =
      if p.hash_equal f.hash new.hash then new ∷ fs else f ∷ replace_first new fs

  -- The loop that takes out the first file with the hash.
  unfoldable pub remove_first : Hash → List FileRecord → List FileRecord
  remove_first hash [] = []
  remove_first hash (f ∷ fs) = if p.hash_equal f.hash hash then fs else f ∷ remove_first hash fs

  module _ (u : CaseTables) where
    unfoldable pub with_files : List FileRecord → List (Bytes × FileRecord) → Catalog
    with_files files by_hash = record {
      files = files;
      by_hash = by_hash;
      tri_index = rebuild_search_index u files;
    }

    unfoldable pub upsert_normalized : Catalog → FileRecord → Catalog
    unfolding with_files replace_first
    upsert_normalized c new = elim (lookup (p.hash_string new.hash) c.by_hash) [
      | some _ ↦
          with_files (replace_first new c.files) (insert (p.hash_string new.hash) new c.by_hash)
      | none ↦ with_files (c.files ++ (new ∷ [])) (insert (p.hash_string new.hash) new c.by_hash)
    ]

    unfoldable pub upsert : Catalog → FileRecord → Result Catalog
    unfolding normalize_file_record upsert_normalized
    upsert c r = elim (normalize_file_record r) [
      | err e ↦ err e
      | ok new ↦ ok (upsert_normalized c new)
    ]

    -- Delete, and whether the hash was known.
    unfoldable pub remove : Catalog → Hash → Catalog × Bool
    unfolding with_files remove_first
    remove c hash = elim (lookup (p.hash_string hash) c.by_hash) [
      | none ↦ (c, false)
      | some _ ↦
          (with_files (remove_first hash c.files) (delete (p.hash_string hash) c.by_hash), true)
    ]

    -- The loop of ReplaceAll, from the record `idx` on.
    unfoldable pub normalize_all :
        ℕ
        → List FileRecord
        → List FileRecord
        → List (Bytes × FileRecord)
        → Result (List FileRecord × List (Bytes × FileRecord))
    unfolding normalize_file_record
    normalize_all idx [] normalized by_hash = ok (normalized, by_hash)
    normalize_all idx (f ∷ fs) normalized by_hash = elim (normalize_file_record f) [
      | err e ↦ err (file_invalid idx e)
      | ok r ↦
          normalize_all (suc idx) fs (normalized ++ (r ∷ []))
            (insert (p.hash_string r.hash) r by_hash)
    ]

    unfoldable pub replace_all : List FileRecord → Result Catalog
    unfolding normalize_all with_files
    replace_all files = elim (normalize_all 0 files [] []) [
      | err e ↦ err e
      | ok (normalized, by_hash) ↦ ok (with_files normalized by_hash)
    ]

    -- The matching records of the list, as entries.
    unfoldable pub scan : SearchQuery → List FileRecord → List SharedFileEntry
    unfolding make_shared_file_entry
    scan q [] = []
    scan q (f ∷ fs) =
        let rest = scan q fs in
        if matches_record p u f q then make_shared_file_entry f ∷ rest else rest

    -- The same over indices; `none` is Go's panic on an index out of range.
    unfoldable pub scan_indices :
        SearchQuery → List FileRecord → List ℕ → Option (List SharedFileEntry)
    unfolding make_shared_file_entry
    scan_indices q files [] = some []
    scan_indices q files (i ∷ is) =
        let rest = scan_indices q files is in
        elim (get_elem? files i) [
          | none ↦ none
          | some f ↦ elim rest [
            | none ↦ none
            | some es ↦ some (if matches_record p u f q then make_shared_file_entry f ∷ es else es)
          ]
        ]

    unfoldable pub search : Catalog → SearchQuery → Option (List SharedFileEntry)
    unfolding scan scan_indices
    search c q = elim (search_candidates u c.tri_index q) [
      | none ↦ some (scan q c.files)
      | some candidates ↦ scan_indices q c.files candidates
    ]
