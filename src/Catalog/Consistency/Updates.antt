-- ===== src/Catalog/Consistency/Updates.antt =====
-- Upsert, Delete and ReplaceAll as updates of a map.
use goed2k_server.Base.{
  ◌≡◌, ◌⊎◌, ◌↔◌, refl, ap, ◌∙◌, true, false, List, [], ◌∷◌, ◌++◌, Option, none, some, if◌then◌else◌,
  arith, Bool-cases, Option-cases, inl, inr,
}
use goed2k_server.Base.Maps.{lookup, delete, lookup-insert, lookup-delete}
use goed2k_server.Base.Tests.{text_eq, list_beq_iff, nat_eq}
use goed2k_server.Base.Text.{◌=text◌, CaseTables}
use goed2k_server.Protocol.{Protocol, Hash, HashLaws}
use goed2k_server.Records.{FileRecord}
use goed2k_server.Catalog.Trigrams.{rebuild_search_index}
use goed2k_server.Catalog.{
  Catalog, Result, ok, err, fill_defaults, normalize_file_record, get, replace_first, remove_first,
  with_files, upsert_normalized, upsert, remove,
}
use goed2k_server.Catalog.Consistency.{
  find_file, Consistent, find_file-append, find_file-append_some, find_file-replace_first,
  find_file-remove_first, append-DistinctHashes, replace_first-DistinctHashes,
  remove_first-DistinctHashes,
}

pub Result-cases {ℓ} :
    {A : Type ℓ} (r : Result A) → ((a : A) × (r ≡ ok a)) ⊎ ((e : _) × (r ≡ err e))
Result-cases (ok a) = inl (a, refl)
Result-cases (err e) = inr (e, refl)

module _ (p : Protocol) (laws : HashLaws p) (u : CaseTables) where
  pub string_test : (a b : Hash) → (p.hash_string a =text p.hash_string b) ≡ p.hash_equal a b
  string_test a b = elim (Bool-cases (p.hash_equal a b)) [
    | inl e ↦
        ground (arith, laws.equal_iff a b, list_beq_iff nat_eq (p.hash_string a) (p.hash_string b))
    | inr e ↦ ground (
      arith,
      laws.equal_iff a b,
      laws.string_injective a b,
      list_beq_iff nat_eq (p.hash_string a) (p.hash_string b),
    )
  ]

  get-upsert_normalized :
      (c : Catalog) (new : FileRecord) (h : Hash)
      → get p (upsert_normalized p u c new) h
        ≡ (if p.hash_equal new.hash h then some new else get p c h)
  unfolding get upsert_normalized with_files
  get-upsert_normalized c new h = elim (Option-cases (lookup (p.hash_string new.hash) c.by_hash)) [
    | inl e ↦
        rw (e, upsert_normalized)
          (lookup-insert (p.hash_string new.hash) (p.hash_string h) new c.by_hash
            ∙ ap (λ b. if b then some new else lookup (p.hash_string h) c.by_hash)
                (string_test new.hash h))
    | inr (f, e) ↦
        rw (e, upsert_normalized)
          (lookup-insert (p.hash_string new.hash) (p.hash_string h) new c.by_hash
            ∙ ap (λ b. if b then some new else lookup (p.hash_string h) c.by_hash)
                (string_test new.hash h))
  ]

  upsert_indexed :
      (c : Catalog) (new : FileRecord)
      → (upsert_normalized p u c new).tri_index
        ≡ rebuild_search_index u (upsert_normalized p u c new).files
  unfolding upsert_normalized with_files
  upsert_indexed c new = elim (Option-cases (lookup (p.hash_string new.hash) c.by_hash)) [
    | inl e ↦ rw (e, upsert_normalized)
    | inr (f, e) ↦ rw (e, upsert_normalized)
  ]

  upsert_new :
      (c : Catalog) (new : FileRecord)
      → get p c new.hash ≡ none
      → (upsert_normalized p u c new).files ≡ c.files ++ (new ∷ [])
  unfolding get upsert_normalized with_files
  upsert_new c new e = rw (e, upsert_normalized)

  upsert_known :
      (c : Catalog) (new : FileRecord) {f : FileRecord}
      → get p c new.hash ≡ some f
      → (upsert_normalized p u c new).files ≡ replace_first p new c.files
  unfolding get upsert_normalized with_files
  upsert_known c new e = rw (e, upsert_normalized)

  -- The list after an insertion, read as a map.
  find_file-upsert :
      (c : Catalog) (new : FileRecord) (h : Hash)
      → Consistent p u c
      → find_file p h (upsert_normalized p u c new).files
        ≡ (if p.hash_equal new.hash h then some new else find_file p h c.files)
  find_file-upsert c new h v = elim (Option-cases (get p c new.hash)) [
    | inl e ↦ rw (upsert_new c new e) (
        ground (
          arith,
          e,
          v.mapped new.hash,
          laws.equal_iff new.hash h,
          find_file-append p laws h c.files new,
          appended c.files (find_file p h c.files) refl,
        ))
    | inr (f, e) ↦ rw (upsert_known c new e) (
        ground (
          arith,
          e,
          v.mapped new.hash,
          laws.equal_iff new.hash h,
          find_file-replace_first p laws h c.files new,
        ))
  ]
    where
      appended :
          (fs : List FileRecord) (o : Option FileRecord)
          → find_file p h fs ≡ o
          → (o ≡ none) ⊎ (find_file p h (fs ++ (new ∷ [])) ≡ o)
      appended fs none e = inl refl
      appended fs (some f) e = inr (find_file-append_some p laws h fs new f e)

  upsert_normalized-Consistent :
      (c : Catalog) (new : FileRecord)
      → Consistent p u c
      → Consistent p u (upsert_normalized p u c new)
  upsert_normalized-Consistent c new v = record {
    indexed = upsert_indexed c new;
    mapped = λ h. rw (get-upsert_normalized c new h, find_file-upsert c new h v, v.mapped h);
    distinct = elim (Option-cases (get p c new.hash)) [
      | inl e ↦
          rw (upsert_new c new e)
            (append-DistinctHashes p laws c.files new (rw v.mapped at e) v.distinct)
      | inr (f, e) ↦
          rw (upsert_known c new e) (replace_first-DistinctHashes p laws c.files new v.distinct)
    ];
  }

  pub fill_defaults-hash : (r : FileRecord) → (fill_defaults p r).hash ≡ r.hash
  unfolding fill_defaults
  fill_defaults-hash r = refl

  pub normalize_file_record-hash :
      (r new : FileRecord) → normalize_file_record p r ≡ ok new → new ≡ fill_defaults p r
  unfolding normalize_file_record
  normalize_file_record-hash r new e = ground arith

  upsert-ok :
      (c c' : Catalog) (r : FileRecord)
      → upsert p u c r ≡ ok c'
      → (normalize_file_record p r ≡ ok (fill_defaults p r))
        × (c' ≡ upsert_normalized p u c (fill_defaults p r))
  unfolding upsert
  upsert-ok c c' r e = elim (Result-cases (normalize_file_record p r)) [
    | inl (new, n) ↦
        let d = normalize_file_record-hash r new n in
        ((rw d at n), upserted new d (rw (n, upsert) at e))
    | inr (x, n) ↦ cc (rw (n, upsert) at e)
  ]
    where
      upserted :
          (new : FileRecord)
          → new ≡ fill_defaults p r
          → Result.ok (upsert_normalized p u c new) ≡ Result.ok c'
          → c' ≡ upsert_normalized p u c (fill_defaults p r)
      upserted new d m = cc

  -- Upsert normalises the record and sets it under its hash; the other hashes keep theirs, and the
  -- catalog stays consistent.
  pub upsert_updates :
      (c c' : Catalog) (r : FileRecord)
      → Consistent p u c
      → upsert p u c r ≡ ok c'
      → Consistent p u c'
        × (normalize_file_record p r ≡ ok (fill_defaults p r))
        × ((h : Hash)
            → get p c' h ≡ (if p.hash_equal r.hash h then some (fill_defaults p r) else get p c h))
  upsert_updates c c' r v e =
      let (n, d) = upsert-ok c c' r e in
      (
        rw d (upsert_normalized-Consistent c (fill_defaults p r) v),
        n,
        λ h. rw (d, get-upsert_normalized c (fill_defaults p r) h, fill_defaults-hash r) refl,
      )

  remove_unknown :
      (c : Catalog) (hash : Hash) → get p c hash ≡ none → remove p u c hash ≡ (c, false)
  unfolding remove get
  remove_unknown c hash e = rw (e, remove)

  pub remove_known :
      (c : Catalog) (hash : Hash) {f : FileRecord}
      → get p c hash ≡ some f
      → remove p u c hash ≡ (
        with_files p u (remove_first p hash c.files) (delete (p.hash_string hash) c.by_hash),
        true,
      )
  unfolding remove get
  remove_known c hash e = rw (e, remove)

  pub get-with_files :
      (c : Catalog) (hash h : Hash) (fs : List FileRecord)
      → get p (with_files p u fs (delete (p.hash_string hash) c.by_hash)) h
        ≡ (if p.hash_equal hash h then none else get p c h)
  unfolding get with_files
  get-with_files c hash h fs =
      lookup-delete (p.hash_string hash) (p.hash_string h) c.by_hash
      ∙ ap (λ b. if b then none else lookup (p.hash_string h) c.by_hash) (string_test hash h)

  removed-Consistent :
      (c : Catalog) (hash : Hash)
      → Consistent p u c
      → Consistent p u
          (with_files p u (remove_first p hash c.files) (delete (p.hash_string hash) c.by_hash))
  removed-Consistent c hash v = record {
    indexed = unfold with_files in refl;
    mapped = λ h. rw (get-with_files c hash h (remove_first p hash c.files)) (
        unfold with_files in
        rw (find_file-remove_first p laws h hash c.files v.distinct, v.mapped h));
    distinct = unfold with_files in (remove_first-DistinctHashes p laws c.files hash v.distinct);
  }

  -- Delete removes the record of the hash and no other, says whether it was there, and keeps the
  -- catalog consistent.
  pub remove_updates :
      (c : Catalog) (hash : Hash)
      → Consistent p u c
      → Consistent p u (remove p u c hash).0
        × ((h : Hash)
            → get p (remove p u c hash).0 h ≡ (if p.hash_equal hash h then none else get p c h))
        × (((remove p u c hash).1 ≡ false) ↔ (get p c hash ≡ none))
  remove_updates c hash v = elim (Option-cases (get p c hash)) [
    | inl e ↦
        rw (remove_unknown c hash e)
          (v, (λ h. ground (arith, e, laws.equal_iff hash h)), ((λ _. e), λ _. refl))
    | inr (f, e) ↦ rw (remove_known c hash e) (
      removed-Consistent c hash v,
      (λ h. get-with_files c hash h (remove_first p hash c.files)),
      ((λ a. cc), λ a. cc),
    )
  ]
