-- ===== src/Server/Merging/Offered.antt =====
-- mergeClientOfferedFiles keeps the server well-formed.
use goed2k_server.Base.{
  ℕ, ◌≡◌, ◌≢◌, ◌⊎◌, sym, ap, ◌∙◌, true, ◌&&◌, List, none, some, ◌==◌, arith, Bool-cases, inl, inr,
}
use goed2k_server.Base.Maps.{lookup, insert, lookup-insert}
use goed2k_server.Base.Tests.{
  text_eq, nat_eq, ==_refl, ==_iff, some_injective, if_true, if_false, guarded_some,
}
use goed2k_server.Base.Text.{Bytes}
use goed2k_server.Config.{Config}
use goed2k_server.Protocol.{Protocol}
use goed2k_server.Records.{FileRecord, SourceEntry}
use goed2k_server.Dynamic.Sources.{source}
use goed2k_server.Server.{
  Server, ClientSession, Merge, find_client, update_session, merge_records, merge_into, start_merge,
  add_records, remove_records,
}
use goed2k_server.Server.Offers.{names, source-remove_records, source-add_records}
use goed2k_server.Server.Invariant.{Holds, Keyed, WellFormed, insert-Keyed}
use goed2k_server.Server.Merging.{Kept, merge_records-Kept, merge_records-grows}

module _ (p : Protocol) (cfg : Config) where
  abbrev merged : List FileRecord → ClientSession → Merge
  merged rs client = merge_records p cfg.max_offered_files_per_client rs (start_merge p client)

  merged-Kept :
      (rs : List FileRecord) (client : ClientSession)
      → Keyed p client
      → Kept p cfg.max_offered_files_per_client (merged rs client)
  unfolding start_merge
  merged-Kept rs client k =
      merge_records-Kept p cfg.max_offered_files_per_client rs (start_merge p client)
        (record { accepted_offered = λ key e. absurd (ground (arith, e)); by_hash = k })

  merged-grows :
      (key : Bytes) (rs : List FileRecord) (client : ClientSession)
      → lookup key client.offered_files ≢ none
      → lookup key (merged rs client).offered ≢ none
  unfolding start_merge
  merged-grows key rs client h =
      merge_records-grows p cfg.max_offered_files_per_client key rs (start_merge p client) h

  -- A source after the offer was there before, or is the client's, of a file accepted now.
  source-merged :
      (c : ℕ) (key : Bytes) (d : ℕ) (e : SourceEntry) (m : Merge) (s : Server)
      → source (add_records p c m.accepted (remove_records p c m.previous s.dynamic_files)) key d
        ≡ some e
      → (source s.dynamic_files key d ≡ some e) ⊎ ((names p key m.accepted ≡ true) × (c ≡ d))
  source-merged c key d e m s q = elim (Bool-cases (names p key m.accepted && c == d)) [
    | inl b ↦ inr (ground (arith, b))
    | inr b ↦
        let kept =
          sym (
            source-add_records p c d key m.accepted (remove_records p c m.previous s.dynamic_files)
              b)
          ∙ q in
        inl
          (guarded_some (names p key m.previous && c == d) (source s.dynamic_files key d) e
            (sym (source-remove_records p c d key m.previous s.dynamic_files) ∙ kept)).1
  ]

  -- The session that an ID leads to once the session at `ref` has new offers.
  offering : ClientSession → Merge → ClientSession
  offering client m = record client { offered_files = m.offered }

  still_held :
      (s : Server) (c ref : ℕ) (rs : List FileRecord) (client : ClientSession)
      → WellFormed p s
      → Holds p s c ref client
      → (d ref2 : ℕ) (client2 : ClientSession) → Holds p s d ref2 client2
      → (client3 : ClientSession) × (lookup ref2
            (insert ref (offering client (merged rs client)) s.sessions)
          ≡ some client3)
        × (client3.assigned_id ≡ d)
        × ((key : Bytes)
            → lookup key client2.offered_files ≢ none
            → lookup key client3.offered_files ≢ none)
  unfolding offering
  still_held s c ref rs client w h d ref2 client2 h2 =
      let at = lookup-insert ref ref2 (offering client (merged rs client)) s.sessions in
      elim (Bool-cases (ref == ref2)) [
        | inl b ↦
            let same =
              some_injective client client2
                (sym h.1 ∙ ap (λ r. lookup r s.sessions) ((==_iff ref ref2).0 b) ∙ h2.1) in
            (
              offering client (merged rs client),
              at ∙ if_true _ _ b,
              ap (λ x. x.assigned_id) same ∙ h2.2,
              λ key has.
                  merged-grows key rs client
                    (λ q. has (ap (λ x. lookup key x.offered_files) (sym same) ∙ q)),
            )
        | inr b ↦ (client2, at ∙ if_false _ _ b ∙ h2.1, h2.2, λ key has. has)
      ]

  pub merge_into-WellFormed :
      (s : Server) (c ref : ℕ) (rs : List FileRecord) (client : ClientSession)
      → WellFormed p s
      → Holds p s c ref client
      → WellFormed p (merge_into p cfg c rs ref client s)
  unfolding merge_into update_session offering find_client
  merge_into-WellFormed s c ref rs client w h =
      let kept = merged-Kept rs client (w.keyed ref client h.1) in
      record {
        no_zero = w.no_zero;
        held = λ d ref2 f.
            let (client2, h2) = w.held d ref2 f in
            let (client3, at, id, more) = still_held s c ref rs client w h d ref2 client2 h2 in
            (client3, (f, at, id));
        keyed = insert-Keyed p s ref (offering client (merged rs client)) w kept.by_hash;
        owned = λ key d e q. elim (source-merged c key d e (merged rs client) s q) [
          | inl old ↦
              let (ref2, client2, h2, has) = w.owned key d e old in
              let (client3, at, id, more) = still_held s c ref rs client w h d ref2 client2 h2 in
              (ref2, client3, (h2.0, at, id), more key has)
          | inr (new, same) ↦ (
            ref,
            offering client (merged rs client),
            (
              ap (find_client s) (sym same) ∙ h.0,
              lookup-insert ref ref (offering client (merged rs client)) s.sessions
                  ∙ if_true _ _ (==_refl ref),
              h.2 ∙ same,
            ),
            kept.accepted_offered key new,
          )
        ];
      }
