-- ===== src/Dynamic/Sources.antt =====
-- Who shares what, as one partial function of the file and the client.
use goed2k_server.Base.{
  ℕ, ◌≡◌, refl, Bool, true, false, ◌&&◌, List, [], ◌∷◌, Option, none, some, length, ◌==◌,
  if◌then◌else◌, arith, Bool-cases, Option-cases, inl, inr, sym,
}
use goed2k_server.Base.Maps.{lookup, delete, lookup-insert, lookup-delete}
use goed2k_server.Base.Tests.{text_eq, nat_eq, list_beq_iff}
use goed2k_server.Base.Text.{Bytes, ◌=text◌}
use goed2k_server.Protocol.{Protocol, Hash}
use goed2k_server.Records.{FileRecord, SourceEntry}
use goed2k_server.Dynamic.{
  DynamicSharedFile, DynamicFiles, shared_or_new, set_source, offer, add_dynamic, remove_dynamic,
}

abbrev pub sources_in : Option DynamicSharedFile → List (ℕ × SourceEntry)
sources_in none = []
sources_in (some shared) = shared.by_client

-- The source that the client gives for the file with the hash text `key`.
unfoldable pub source : DynamicFiles → Bytes → ℕ → Option SourceEntry
source files key client_id = lookup client_id (sources_in (lookup key files))

abbrev pub first_or : List SourceEntry → Option SourceEntry → Option SourceEntry
first_or [] old = old
first_or (e ∷ es) old = some e

empty_lookup : (c : ℕ) (m : List (ℕ × SourceEntry)) → (length m == 0) ≡ true → lookup c m ≡ none
unfolding lookup
empty_lookup c [] h = refl
empty_lookup c ((j, e) ∷ m) h = absurd (ground arith)

pick_none : (c : ℕ) (b : Bool) → lookup c [] ≡ (if b then none else lookup c (sources_in none))
unfolding lookup
pick_none c true = refl
pick_none c false = refl

module _ (p : Protocol) where
  lookup-set_source :
      (id c : ℕ) (es : List SourceEntry) (m : List (ℕ × SourceEntry))
      → lookup c (set_source p id es m) ≡ (if id == c then first_or es (lookup c m) else lookup c m)
  unfolding set_source
  lookup-set_source id c [] m = ground arith
  lookup-set_source id c (e ∷ es) m = rw lookup-insert refl

  -- An offer sets the client's own source of that file, if it has one, and no other.
  pub source-add_dynamic :
      (id c : ℕ) (r : FileRecord) (key : Bytes) (files : DynamicFiles)
      → source (add_dynamic p id r files) key c ≡ (
          if (p.hash_string r.hash =text key) && id == c
          then first_or r.endpoints (source files key c)
          else source files key c)
  unfolding source add_dynamic shared_or_new offer
  source-add_dynamic id c r key files =
      rw lookup-insert (elim (Option-cases (lookup (p.hash_string r.hash) files)) [
        | inl e ↦ ground (
          arith,
          e,
          lookup-set_source id c r.endpoints [],
          list_beq_iff nat_eq (p.hash_string r.hash) key,
        )
        | inr (shared, e) ↦ ground (
          arith,
          e,
          lookup-set_source id c r.endpoints shared.by_client,
          list_beq_iff nat_eq (p.hash_string r.hash) key,
        )
      ])

  -- A removal takes away the client's own source of that file, and no other.
  pub source-remove_dynamic :
      (id c : ℕ) (h : Hash) (key : Bytes) (files : DynamicFiles)
      → source (remove_dynamic p id h files) key c
        ≡ (if (p.hash_string h =text key) && id == c then none else source files key c)
  unfolding source remove_dynamic
  source-remove_dynamic id c h key files = elim (Option-cases (lookup (p.hash_string h) files)) [
    | inl e ↦ elim (Bool-cases (p.hash_string h =text key)) [
      | inl t ↦
          rw (e, remove_dynamic)
            (rw (t) (
              rw (sym ((list_beq_iff nat_eq (p.hash_string h) key).0 t))
                (rw (e) (pick_none c (true && id == c)))))
      | inr f ↦ rw (e, remove_dynamic) (rw (f) refl)
    ]
    | inr (shared, e) ↦ elim (Bool-cases (length (delete id shared.by_client) == 0)) [
      | inl z ↦
          rw (e, remove_dynamic)
            (rw (z) (
              rw lookup-delete (
                ground (
                  arith,
                  e,
                  lookup-delete id c shared.by_client,
                  empty_lookup c (delete id shared.by_client) z,
                  empty_lookup c [] refl,
                  list_beq_iff nat_eq (p.hash_string h) key,
                ))))
      | inr z ↦
          rw (e, remove_dynamic)
            (rw (z) (
              rw lookup-insert (
                ground (
                  arith,
                  e,
                  lookup-delete id c shared.by_client,
                  list_beq_iff nat_eq (p.hash_string h) key,
                ))))
    ]
  ]
