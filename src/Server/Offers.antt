-- ===== src/Server/Offers.antt =====
-- What the loops over offered files do to the shared files.
use goed2k_server.Base.{
  ℕ, ◌≡◌, refl, Bool, true, false, ◌&&◌, ◌||◌, List, [], ◌∷◌, ◌++◌, none, some, ◌==◌, if◌then◌else◌,
  map, arith,
}
use goed2k_server.Base.Maps.{lookup}
use goed2k_server.Base.Tests.{text_eq, nat_eq, list_beq_iff}
use goed2k_server.Base.Text.{Bytes, ◌=text◌}
use goed2k_server.Protocol.{Protocol}
use goed2k_server.Records.{FileRecord}
use goed2k_server.Dynamic.{DynamicFiles, add_dynamic, remove_dynamic}
use goed2k_server.Dynamic.Sources.{source, source-add_dynamic, source-remove_dynamic}
use goed2k_server.Server.{remove_records, add_records}

module _ (p : Protocol) where
  -- One of the records has the hash text `key`.
  abbrev pub names : Bytes → List FileRecord → Bool
  names key [] = false
  names key (r ∷ rs) = (p.hash_string r.hash =text key) || names key rs

  pub names-append :
      (key : Bytes) (xs ys : List FileRecord)
      → names key (xs ++ ys) ≡ (names key xs || names key ys)
  names-append key [] ys = refl
  names-append key (x ∷ xs) ys = ground (arith, names-append key xs ys)

  pub names-lookup :
      (key : Bytes) (r : FileRecord) (offered : List (Bytes × FileRecord))
      → lookup key offered ≡ some r
      → p.hash_string r.hash ≡ key
      → names key (map (λ e. e.1) offered) ≡ true
  unfolding lookup
  names-lookup key r [] h k = ground arith
  names-lookup key r ((j, q) ∷ offered) h k =
      ground
        (arith, h, k, list_beq_iff nat_eq (p.hash_string q.hash) key, names-lookup key r offered)

  -- The loop of removals takes away the client's own sources of the files named, and no other.
  pub source-remove_records :
      (id c : ℕ) (key : Bytes) (rs : List FileRecord) (files : DynamicFiles)
      → source (remove_records p id rs files) key c
        ≡ (if names key rs && id == c then none else source files key c)
  unfolding remove_records
  source-remove_records id c key [] files = refl
  source-remove_records id c key (r ∷ rs) files =
      rw (source-remove_records id c key rs (remove_dynamic p id r.hash files))
        (rw (source-remove_dynamic p id c r.hash key files) (ground arith))

  pub source-add_records :
      (id c : ℕ) (key : Bytes) (rs : List FileRecord) (files : DynamicFiles)
      → (names key rs && id == c) ≡ false
      → source (add_records p id rs files) key c ≡ source files key c
  unfolding add_records
  source-add_records id c key [] files h = refl
  source-add_records id c key (r ∷ rs) files h =
      rw (source-add_records id c key rs (add_dynamic p id r files) (ground (arith, h)))
        (rw (source-add_dynamic p id c r key files) (ground (arith, h)))
