-- ===== src/Server/Merging/Batches.antt =====
-- Every call of mergeClientOfferedFiles, the empty batch included.
use goed2k_server.Base.{
  ℕ, ◌≡◌, sym, ap, ◌∙◌, List, [], ◌∷◌, some, ◌==◌, Bool-cases, Option-cases, inl, inr,
}
use goed2k_server.Base.Maps.{lookup, lookup-insert}
use goed2k_server.Base.Tests.{
  text_eq, nat_eq, beq→ne, ==_refl, ==_iff, some_injective, if_true, guarded_some,
}
use goed2k_server.Config.{Config}
use goed2k_server.Protocol.{Protocol}
use goed2k_server.Records.{FileRecord}
use goed2k_server.Dynamic.Sources.{source}
use goed2k_server.Server.{
  Server, ClientSession, find_client, update_session, merge_client_offered_files,
  remove_client_offered_files,
}
use goed2k_server.Server.Invariant.{Holds, WellFormed}
use goed2k_server.Server.Departure.{
  cleared, other_session, source-cleared, cleared-Keyed, remove_client_offered_files-cleared,
}
use goed2k_server.Server.Merging.Offered.{merge_into-WellFormed}

module _ (p : Protocol) where
  -- The session that an ID leads to once the offers of `c` are gone.
  still_held :
      (s : Server) (c ref : ℕ) (client : ClientSession)
      → Holds p s c ref client
      → (d ref2 : ℕ) (client2 : ClientSession) → Holds p s d ref2 client2
      → (client3 : ClientSession) × (lookup ref2 (cleared p c ref client s).sessions ≡ some client3)
        × (client3.assigned_id ≡ d)
  unfolding cleared update_session
  still_held s c ref client h d ref2 client2 h2 = elim (Bool-cases (c == d)) [
    | inl b ↦
        let id = (==_iff c d).0 b in
        let same = some_injective ref ref2 (sym h.0 ∙ ap (find_client s) id ∙ h2.0) in
        (
          record client { offered_files = [] },
          lookup-insert ref ref2 (record client { offered_files = [] }) s.sessions
              ∙ if_true _ _ (ap (λ r. ref == r) (sym same) ∙ ==_refl ref),
          h.2 ∙ id,
        )
    | inr b ↦ (client2, other_session p s c ref d ref2 client client2 h h2 (beq→ne c d b), h2.2)
  ]

  emptied-WellFormed :
      (s : Server) (c ref : ℕ) (client : ClientSession)
      → WellFormed p s
      → Holds p s c ref client
      → WellFormed p (cleared p c ref client s)
  unfolding find_client cleared update_session
  emptied-WellFormed s c ref client w h = record {
    no_zero = w.no_zero;
    held = λ d ref2 f.
        let (client2, h2) = w.held d ref2 f in
        let (client3, at, id) = still_held s c ref client h d ref2 client2 h2 in
        (client3, (f, at, id));
    keyed = cleared-Keyed p s c ref client w;
    owned = λ key d e q.
        let (b, g) =
          guarded_some (c == d) (source s.dynamic_files key d) e
            (sym (source-cleared p s c ref client w h key d) ∙ q) in
        let (ref2, client2, h2, has) = w.owned key d e g in
        let at = other_session p s c ref d ref2 client client2 h h2 (beq→ne c d b) in
        (ref2, client2, (h2.0, at, h2.2), has);
  }

  empty_batch-WellFormed :
      (s : Server) (c : ℕ) → WellFormed p s → WellFormed p (remove_client_offered_files p c s)
  unfolding remove_client_offered_files
  empty_batch-WellFormed s c w = elim (Option-cases (find_client s c)) [
    | inl e ↦ rw (e, remove_client_offered_files) w
    | inr (ref, e) ↦
        let (client, h) = w.held c ref e in
        rw (remove_client_offered_files-cleared p s c ref client h)
          (emptied-WellFormed s c ref client w h)
  ]

  full_batch-WellFormed :
      (cfg : Config) (s : Server) (c : ℕ) (r : FileRecord) (rs : List FileRecord)
      → WellFormed p s
      → WellFormed p (merge_client_offered_files p cfg c (r ∷ rs) s)
  unfolding merge_client_offered_files
  full_batch-WellFormed cfg s c r rs w = elim (Option-cases (find_client s c)) [
    | inl e ↦ rw (e, merge_client_offered_files) w
    | inr (ref, e) ↦
        let (client, h) = w.held c ref e in
        rw (e, merge_client_offered_files)
          (rw (h.1, merge_client_offered_files)
            (merge_into-WellFormed p cfg s c ref (r ∷ rs) client w h))
  ]

  -- An offer of any files under any ID keeps the server well-formed, whatever the cap.
  pub merge_client_offered_files-WellFormed :
      (cfg : Config) (s : Server) (c : ℕ) (rs : List FileRecord)
      → WellFormed p s
      → WellFormed p (merge_client_offered_files p cfg c rs s)
  unfolding merge_client_offered_files
  merge_client_offered_files-WellFormed cfg s c [] w = empty_batch-WellFormed s c w
  merge_client_offered_files-WellFormed cfg s c (r ∷ rs) w = full_batch-WellFormed cfg s c r rs w
