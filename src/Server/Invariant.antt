-- ===== src/Server/Invariant.antt =====
-- The registry, the sessions and the shared files agree.
use goed2k_server.Base.{◌≡◌, ◌≢◌, sym, ap, ◌∙◌, ℕ, none, some, ◌==◌, inl, inr, Bool-cases}
use goed2k_server.Base.Maps.{lookup, insert, lookup-insert}
use goed2k_server.Base.Tests.{text_eq, nat_eq, some_injective, if_true, if_false}
use goed2k_server.Base.Text.{Bytes}
use goed2k_server.Protocol.{Protocol}
use goed2k_server.Records.{FileRecord, SourceEntry}
use goed2k_server.Dynamic.Sources.{source}
use goed2k_server.Server.{Server, ClientSession, find_client}

module _ (p : Protocol) where
  -- The session that has the ID.
  abbrev pub Holds : Server → ℕ → ℕ → ClientSession → Type 0
  Holds s c ref client =
      (find_client s c ≡ some ref)
      × (lookup ref s.sessions ≡ some client)
      × (client.assigned_id ≡ c)

  -- The offers of a session stand under their own hash.
  abbrev pub Keyed : ClientSession → Type 0
  Keyed client =
      (key : Bytes) (r : FileRecord)
      → lookup key client.offered_files ≡ some r
      → p.hash_string r.hash ≡ key

  -- Nobody has the ID 0; an ID in the registry belongs to a session that was given that ID; a
  -- session's offers stand under their hash; and a source of a shared file is from a registered
  -- client that offers the file.
  pub record WellFormed (s : Server) : Type 0 where
    pub no_zero : find_client s 0 ≡ none
    pub held :
        (c ref : ℕ) → find_client s c ≡ some ref → (client : ClientSession) × Holds s c ref client
    pub keyed :
        (ref : ℕ) (client : ClientSession) → lookup ref s.sessions ≡ some client → Keyed client
    pub owned :
        (key : Bytes) (c : ℕ) (e : SourceEntry)
        → source s.dynamic_files key c ≡ some e
        → (ref : ℕ) × (client : ClientSession) × Holds s c ref client
          × (lookup key client.offered_files ≢ none)

  -- A session replaced by one that keeps its offers under their hash.
  pub insert-Keyed :
      (s : Server) (ref : ℕ) (client : ClientSession)
      → WellFormed s
      → Keyed client
      → (ref2 : ℕ) (client2 : ClientSession)
      → lookup ref2 (insert ref client s.sessions) ≡ some client2
      → Keyed client2
  insert-Keyed s ref client w keyed ref2 client2 l key r k =
      let found = sym (lookup-insert ref ref2 client s.sessions) ∙ l in
      elim (Bool-cases (ref == ref2)) [
        | inl b ↦
            let same = some_injective client client2 (sym (if_true _ _ b) ∙ found) in
            keyed key r (ap (λ x. lookup key x.offered_files) same ∙ k)
        | inr b ↦ w.keyed ref2 client2 (sym (if_false _ _ b) ∙ found) key r k
      ]
