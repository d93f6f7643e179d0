-- ===== src/Catalog/Consistency/Loading.antt =====
-- ReplaceAll of ed2ksrv/catalog.go: the catalog that a list of records gives.
use goed2k_server.Base.{
  ℕ, suc, ◌≡◌, ◌⊎◌, refl, sym, ap, ◌∙◌, List, [], ◌∷◌, ◌++◌, map, Option, none, some, All,
  if◌then◌else◌, arith, inl, inr,
}
use mathlib.Core.List.{append-nil, append_assoc}
use goed2k_server.Base.Maps.{lookup, insert, lookup-insert}
use goed2k_server.Base.Tests.{text_eq, nat_eq}
use goed2k_server.Base.Text.{Bytes, CaseTables}
use goed2k_server.Protocol.{Protocol, Hash, HashLaws}
use goed2k_server.Records.{FileRecord}
use goed2k_server.Catalog.{
  Catalog, CatalogError, Result, ok, err, fill_defaults, normalize_file_record, get, with_files,
  remove, normalize_all, replace_all, remove_first,
}
use goed2k_server.Catalog.Consistency.{
  find_file, DistinctHashes, Consistent, find_file-append, find_file-append_some,
  append-DistinctHashes,
}
use goed2k_server.Catalog.Consistency.Updates.{
  Result-cases, string_test, normalize_file_record-hash, fill_defaults-hash, remove_known,
  get-with_files,
}

abbrev Loaded : Type 0
Loaded = List FileRecord × List (Bytes × FileRecord)

module _ (p : Protocol) (laws : HashLaws p) (u : CaseTables) where
  -- The map reads as the list does.
  abbrev Mapped : List FileRecord → List (Bytes × FileRecord) → Type 0
  Mapped fs by_hash = (h : Hash) → lookup (p.hash_string h) by_hash ≡ find_file p h fs

  -- The records are new to the list.
  abbrev AllNew : List FileRecord → List FileRecord → Type 0
  AllNew fs = All (λ f. find_file p f.hash fs ≡ none)

  append-Mapped :
      (fs : List FileRecord) (m : List (Bytes × FileRecord)) (new : FileRecord)
      → Mapped fs m
      → find_file p new.hash fs ≡ none
      → Mapped (fs ++ (new ∷ [])) (insert (p.hash_string new.hash) new m)
  append-Mapped fs m new h e k =
      lookup-insert (p.hash_string new.hash) (p.hash_string k) new m
      ∙ rw (string_test p laws u new.hash k, h k) (read (find_file p k fs) refl)
    where
      read :
          (o : Option FileRecord)
          → find_file p k fs ≡ o
          → (if p.hash_equal new.hash k then some new else find_file p k fs)
            ≡ find_file p k (fs ++ (new ∷ []))
      read none d = rw (d, find_file-append p laws k fs new d)
      read (some f) d =
          rw (find_file-append_some p laws k fs new f d, d)
            (ground (arith, d, e, laws.equal_iff new.hash k))

  append-AllNew :
      (fs : List FileRecord) (new : FileRecord) (rest : List FileRecord)
      → AllNew fs rest
      → find_file p new.hash rest ≡ none
      → AllNew (fs ++ (new ∷ [])) rest
  unfolding find_file
  append-AllNew fs new [] a e = tt
  append-AllNew fs new (f ∷ rest) a e = ground (
    arith,
    laws.equal_iff f.hash new.hash,
    laws.equal_iff new.hash f.hash,
    find_file-append p laws f.hash fs new a.0,
    append-AllNew fs new rest a.1,
  )

  normalize_all-Mapped :
      (idx : ℕ) (files fs : List FileRecord) (m : List (Bytes × FileRecord)) (fs' : List FileRecord)
      (m' : List (Bytes × FileRecord))
      → Mapped fs m
      → DistinctHashes p fs
      → AllNew fs files
      → DistinctHashes p files
      → normalize_all p u idx files fs m ≡ ok (fs', m')
      → Mapped fs' m' × DistinctHashes p fs' × (fs' ≡ fs ++ map (fill_defaults p) files)
  unfolding normalize_all
  normalize_all-Mapped idx [] fs m fs' m' h d a dd e =
      let (x, y) = same fs fs' m m' e in rw (← x, ← y, append-nil) (h, d, refl)
    where
      same :
          (fs fs' : List FileRecord) (m m' : List (Bytes × FileRecord))
          → ◌≡◌ {A = Result Loaded} (ok (fs, m)) (ok (fs', m'))
          → (fs ≡ fs') × (m ≡ m')
      same fs fs' m m' e = ground arith
  normalize_all-Mapped idx (f ∷ files) fs m fs' m' h d a dd e =
      elim (Result-cases (normalize_file_record p f)) [
        | inl (new, n) ↦
            let filled = normalize_file_record-hash p laws u f new n in
            let same_hash : new.hash ≡ f.hash =
              ap (λ r. r.hash) filled ∙ fill_defaults-hash p laws u f in
            let unknown : find_file p new.hash fs ≡ none = rw same_hash a.0 in
            let (x, y, z) =
              normalize_all-Mapped (suc idx) files (fs ++ (new ∷ []))
                (insert (p.hash_string new.hash) new m) fs' m' (append-Mapped fs m new h unknown)
                (append-DistinctHashes p laws fs new unknown d)
                (append-AllNew fs new files a.1 (rw same_hash dd.0)) dd.1
                (rw (n, normalize_all) at e) in
            (x, y, z ∙ append_assoc fs (new ∷ []) (map (fill_defaults p) files) ∙ rw filled)
        | inr (x, n) ↦ cc (rw (n, normalize_all) at e)
      ]

  -- A list of records with distinct hashes is loaded whole, each record normalised and in its
  -- place, and the catalog is consistent.
  pub replace_all_loads :
      (files : List FileRecord) (c : Catalog)
      → DistinctHashes p files
      → replace_all p u files ≡ ok c
      → Consistent p u c × (c.files ≡ map (fill_defaults p) files)
  unfolding replace_all
  replace_all_loads files c d e = elim (Result-cases (normalize_all p u 0 files [] [])) [
    | inl ((fs, m), n) ↦
        let (x, y, z) =
          normalize_all-Mapped 0 files [] [] fs m nothing_mapped tt (all_new files) d n in
        rw (← loaded fs m (rw (n, replace_all) at e)) (
          record {
            indexed = unfold with_files in refl;
            mapped = unfold get with_files in x;
            distinct = unfold with_files in y;
          },
          unfold with_files in z,
        )
    | inr (x, n) ↦ cc (rw (n, replace_all) at e)
  ]
    where
      nothing_mapped : Mapped [] []
      nothing_mapped h = unfold lookup find_file in refl

      all_new : (fs : List FileRecord) → AllNew [] fs
      all_new [] = tt
      all_new (f ∷ fs) = (unfold find_file in refl, all_new fs)

      loaded :
          (fs : List FileRecord) (m : List (Bytes × FileRecord))
          → Result.ok (with_files p u fs m) ≡ Result.ok c
          → with_files p u fs m ≡ c
      loaded fs m h = cc

  normalized_or_not :
      (r : FileRecord)
      → (normalize_file_record p r ≡ ok (fill_defaults p r))
        ⊎ ((e : CatalogError) × (normalize_file_record p r ≡ err e))
  normalized_or_not r = elim (Result-cases (normalize_file_record p r)) [
    | inl (new, n) ↦ inl (rw (normalize_file_record-hash p laws u r new n) at n)
    | inr (e, n) ↦ inr (e, n)
  ]

  abbrev twice : FileRecord → FileRecord → Catalog
  twice a b =
      with_files p u (a ∷ b ∷ [])
        (insert (p.hash_string b.hash) b (insert (p.hash_string a.hash) a []))

  replace_all_two :
      (a b : FileRecord) (c : Catalog)
      → replace_all p u (a ∷ b ∷ []) ≡ ok c
      → c ≡ twice (fill_defaults p a) (fill_defaults p b)
  unfolding replace_all normalize_all
  replace_all_two a b c e = elim (normalized_or_not a) [
    | inr (x, n) ↦ cc (rw (n, replace_all, normalize_all) at e)
    | inl n ↦ elim (normalized_or_not b) [
      | inr (x, m) ↦ cc (rw (n, m, replace_all, normalize_all) at e)
      | inl m ↦ cc (rw (n, m, replace_all, normalize_all) at e)
    ]
  ]

  -- Two normalised records of one hash in a catalog.
  twice_shape :
      (a b : FileRecord)
      → a.hash ≡ b.hash
      → (get p (twice a b) a.hash ≡ some b)
        × ((remove p u (twice a b) a.hash).0.files ≡ b ∷ [])
        × (get p (remove p u (twice a b) a.hash).0 a.hash ≡ none)
  twice_shape a b h =
      let same = (laws.equal_iff a.hash a.hash).1 refl in
      (
        last,
        rw (remove_known p laws u (twice a b) a.hash last)
            (unfold with_files remove_first in rw same),
        rw (remove_known p laws u (twice a b) a.hash last)
            (get-with_files p laws u (twice a b) a.hash a.hash _ ∙ rw same),
      )
    where
      last : get p (twice a b) a.hash ≡ some b
      last =
          unfold get with_files in
          (lookup-insert (p.hash_string b.hash) (p.hash_string a.hash) b _
            ∙ rw (string_test p laws u b.hash a.hash, (laws.equal_iff b.hash a.hash).1 (sym h)))

  -- A list that holds a hash twice is loaded too. Both records are listed, the last one is the one
  -- that Get gives, and after Delete of the hash the last one is still listed while Get gives none.
  pub replace_all_keeps_duplicates :
      (a b : FileRecord) (c : Catalog)
      → a.hash ≡ b.hash
      → replace_all p u (a ∷ b ∷ []) ≡ ok c
      → (c.files ≡ fill_defaults p a ∷ fill_defaults p b ∷ [])
        × (get p c a.hash ≡ some (fill_defaults p b))
        × ((remove p u c a.hash).0.files ≡ fill_defaults p b ∷ [])
        × (get p (remove p u c a.hash).0 a.hash ≡ none)
  replace_all_keeps_duplicates a b c h e = rw (replace_all_two a b c e) (
      let same : (fill_defaults p a).hash ≡ (fill_defaults p b).hash = unfold fill_defaults in h in
      let (x, y, z) = twice_shape (fill_defaults p a) (fill_defaults p b) same in
      (
        unfold with_files in refl,
        unfold fill_defaults in x,
        unfold fill_defaults in y,
        unfold fill_defaults in z,
      ))
