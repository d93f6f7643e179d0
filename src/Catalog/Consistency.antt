-- ===== src/Catalog/Consistency.antt =====
-- The catalog as a map from hashes to records: Upsert, Delete and ReplaceAll of ed2ksrv/catalog.go.
pub mod Updates
pub mod Loading
use goed2k_server.Base.{
  ℕ, suc, ◌+◌, ◌≡◌, ◌≢◌, ◌⊎◌, refl, ap, Bool, true, false, not, List, [], ◌∷◌, ◌++◌, Option, none,
  some, if◌then◌else◌, arith, Bool-cases, Option-cases, inl, inr,
}
use goed2k_server.Base.Maps.{lookup, insert, delete, lookup-insert, lookup-delete}
use goed2k_server.Base.Tests.{text_eq, list_beq, list_beq_iff, nat_eq, ◌==◌}
use goed2k_server.Base.Text.{Bytes, CaseTables}
use goed2k_server.Protocol.{Protocol, Hash, HashLaws}
use goed2k_server.Records.{FileRecord}
use goed2k_server.Catalog.Trigrams.{rebuild_search_index}
use goed2k_server.Catalog.{
  Catalog, Result, ok, err, fill_defaults, normalize_file_record, bad_endpoint, get, replace_first,
  remove_first, with_files, upsert_normalized, upsert, remove, normalize_all, replace_all,
}

module _ (p : Protocol) where
  -- The first file with the hash.
  unfoldable pub find_file : Hash → List FileRecord → Option FileRecord
  find_file h [] = none
  find_file h (f ∷ fs) = if p.hash_equal f.hash h then some f else find_file h fs

  -- No hash stands twice.
  abbrev pub DistinctHashes : List FileRecord → Type 0
  DistinctHashes [] = Unit
  DistinctHashes (f ∷ fs) = (find_file f.hash fs ≡ none) × DistinctHashes fs

  module _ (u : CaseTables) where
    -- The map and the index are those of the list, and the list holds each hash once.
    pub record Consistent (c : Catalog) : Type 0 where
      pub indexed : c.tri_index ≡ rebuild_search_index u c.files
      pub mapped : (h : Hash) → get p c h ≡ find_file h c.files
      pub distinct : DistinctHashes c.files

module _ (p : Protocol) (laws : HashLaws p) where
  find_file-append :
      (h : Hash) (fs : List FileRecord) (new : FileRecord)
      → find_file p h fs ≡ none
      → find_file p h (fs ++ (new ∷ [])) ≡ (if p.hash_equal new.hash h then some new else none)
  unfolding find_file
  find_file-append h [] new e = refl
  find_file-append h (f ∷ fs) new e = ground (arith, find_file-append h fs new)

  find_file-append_some :
      (h : Hash) (fs : List FileRecord) (new f : FileRecord)
      → find_file p h fs ≡ some f
      → find_file p h (fs ++ (new ∷ [])) ≡ some f
  unfolding find_file
  find_file-append_some h [] new f e = cc
  find_file-append_some h (x ∷ fs) new f e = ground (arith, find_file-append_some h fs new f)

  find_file-replace_first :
      (h : Hash) (fs : List FileRecord) (new : FileRecord)
      → find_file p h (replace_first p new fs) ≡ (
          if p.hash_equal new.hash h
          then elim (find_file p h fs) [ none ↦ none | some _ ↦ some new ]
          else find_file p h fs)
  unfolding find_file replace_first
  find_file-replace_first h [] new = ground arith
  find_file-replace_first h (f ∷ fs) new = ground (
    arith,
    laws.equal_iff f.hash new.hash,
    laws.equal_iff f.hash h,
    laws.equal_iff new.hash h,
    find_file-replace_first h fs new,
  )

  find_file-remove_first :
      (h k : Hash) (fs : List FileRecord)
      → DistinctHashes p fs
      → find_file p h (remove_first p k fs) ≡ (if p.hash_equal k h then none else find_file p h fs)
  unfolding find_file remove_first
  find_file-remove_first h k [] d = ground arith
  find_file-remove_first h k (f ∷ fs) d = ground (
    arith,
    laws.equal_iff f.hash k,
    laws.equal_iff f.hash h,
    laws.equal_iff k h,
    find_file-remove_first h k fs d.1,
  )

  append-DistinctHashes :
      (fs : List FileRecord) (new : FileRecord)
      → find_file p new.hash fs ≡ none
      → DistinctHashes p fs
      → DistinctHashes p (fs ++ (new ∷ []))
  unfolding find_file
  append-DistinctHashes [] new e d = (refl, tt)
  append-DistinctHashes (f ∷ fs) new e d = ground (
    arith,
    laws.equal_iff f.hash new.hash,
    laws.equal_iff new.hash f.hash,
    find_file-append f.hash fs new d.0,
    append-DistinctHashes fs new,
  )

  replace_first-DistinctHashes :
      (fs : List FileRecord) (new : FileRecord)
      → DistinctHashes p fs
      → DistinctHashes p (replace_first p new fs)
  unfolding find_file replace_first
  replace_first-DistinctHashes [] new d = tt
  replace_first-DistinctHashes (f ∷ fs) new d = ground (
    arith,
    laws.equal_iff f.hash new.hash,
    laws.equal_iff new.hash f.hash,
    find_file-replace_first f.hash fs new,
    replace_first-DistinctHashes fs new d.1,
  )

  remove_first-DistinctHashes :
      (fs : List FileRecord) (k : Hash)
      → DistinctHashes p fs
      → DistinctHashes p (remove_first p k fs)
  unfolding remove_first
  remove_first-DistinctHashes [] k d = tt
  remove_first-DistinctHashes (f ∷ fs) k d =
      ground (arith, find_file-remove_first f.hash k fs d.1, remove_first-DistinctHashes fs k d.1)
