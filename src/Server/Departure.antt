-- ===== src/Server/Departure.antt =====
-- The end of a session: unregisterClient and removeClientOfferedFiles.
use goed2k_server.Base.{
  ℕ, ◌≡◌, ◌≢◌, refl, sym, ap, ◌∙◌, false, [], none, some, ◌==◌, if◌then◌else◌, map, arith,
  Option-cases, inl, inr,
}
use goed2k_server.Base.Maps.{lookup, delete, lookup-insert, lookup-delete}
use goed2k_server.Base.Tests.{
  text_eq, nat_eq, ne→beq, beq→ne, ==_refl, guarded_some, none_either, if_false,
}
use goed2k_server.Base.Text.{Bytes}
use goed2k_server.Protocol.{Protocol}
use goed2k_server.Dynamic.Sources.{source}
use goed2k_server.Server.{
  Server, ClientSession, find_client, update_session, remove_client_offered_files, release_id,
  remove_records, unregister_client,
}
use goed2k_server.Server.Offers.{names, names-lookup, source-remove_records}
use goed2k_server.Server.Invariant.{Holds, Keyed, WellFormed, insert-Keyed}

module _ (p : Protocol) where
  -- The server after the offers of the client are gone.
  unfoldable pub cleared : ℕ → ℕ → ClientSession → Server → Server
  cleared c ref client s = record (update_session ref (record client { offered_files = [] }) s) {
    dynamic_files = remove_records p c (map (λ e. e.1) client.offered_files) s.dynamic_files;
  }

  pub remove_client_offered_files-cleared :
      (s : Server) (c ref : ℕ) (client : ClientSession)
      → Holds p s c ref client
      → remove_client_offered_files p c s ≡ cleared c ref client s
  unfolding remove_client_offered_files cleared find_client update_session
  remove_client_offered_files-cleared s c ref client h =
      rw (h.0, remove_client_offered_files) (rw (h.1, remove_client_offered_files) refl)

  release_id-deleted :
      (s : Server) (c ref : ℕ)
      → find_client s c ≡ some ref
      → release_id p ref c s ≡ record s { clients = delete c s.clients }
  unfolding release_id
  release_id-deleted s c ref h = rw (h, release_id) (rw (==_refl ref) refl)

  unregister_client-released :
      (s : Server) (ref : ℕ) (client : ClientSession)
      → client.assigned_id ≢ 0
      → unregister_client p ref client s
        ≡ release_id p ref client.assigned_id (remove_client_offered_files p client.assigned_id s)
  unfolding unregister_client
  unregister_client-released s ref client n = rw (ne→beq client.assigned_id 0 n) refl

  pub unregister_client-cleared :
      (s : Server) (c ref : ℕ) (client : ClientSession)
      → Holds p s c ref client
      → c ≢ 0
      → unregister_client p ref client s
        ≡ record (cleared c ref client s) { clients = delete c s.clients }
  unfolding cleared update_session find_client
  unregister_client-cleared s c ref client h n =
      unregister_client-released s ref client (λ z. n (sym h.2 ∙ z))
      ∙ ap (λ id. release_id p ref id (remove_client_offered_files p id s)) h.2
      ∙ ap (release_id p ref c) (remove_client_offered_files-cleared s c ref client h)
      ∙ release_id-deleted (cleared c ref client s) c ref h.0

  -- The sources of a client are of files that its session offers.
  absent_source :
      (s : Server) (c ref : ℕ) (client : ClientSession) (key : Bytes)
      → WellFormed p s
      → Holds p s c ref client
      → names p key (map (λ e. e.1) client.offered_files) ≡ false
      → source s.dynamic_files key c ≡ none
  absent_source s c ref client key w h n = elim (Option-cases (source s.dynamic_files key c)) [
    | inl e ↦ e
    | inr (e, q) ↦
        let (ref2, client2, h2, has) = w.owned key c e q in
        elim (Option-cases (lookup key client.offered_files)) [
          | inl a ↦ absurd (has (cc (h.0, h2.0, h.1, h2.1, a)))
          | inr (r, a) ↦ absurd (
              ground (
                arith,
                n,
                names-lookup p key r client.offered_files a (w.keyed ref client h.1 key r a),
              ))
        ]
  ]

  pub source-cleared_other :
      (s : Server) (c ref : ℕ) (client : ClientSession) (key : Bytes) (d : ℕ)
      → (c == d) ≡ false
      → source (cleared c ref client s).dynamic_files key d ≡ source s.dynamic_files key d
  unfolding cleared
  source-cleared_other s c ref client key d n =
      rw (source-remove_records p c d key (map (λ e. e.1) client.offered_files) s.dynamic_files)
        (ground (arith, n))

  pub source-cleared :
      (s : Server) (c ref : ℕ) (client : ClientSession)
      → WellFormed p s
      → Holds p s c ref client
      → (key : Bytes) (d : ℕ)
      → source (cleared c ref client s).dynamic_files key d
        ≡ (if c == d then none else source s.dynamic_files key d)
  unfolding cleared
  source-cleared s c ref client w h key d =
      rw (source-remove_records p c d key (map (λ e. e.1) client.offered_files) s.dynamic_files)
        (ground (arith, absent_source s c ref client key w h))

  -- Another ID that is still held belongs to another session, which the clearing leaves as it was.
  pub other_session :
      (s : Server) (c ref d ref2 : ℕ) (client client2 : ClientSession)
      → Holds p s c ref client
      → Holds p s d ref2 client2
      → c ≢ d
      → lookup ref2 (cleared c ref client s).sessions ≡ some client2
  unfolding cleared update_session
  other_session s c ref d ref2 client client2 h h2 n =
      rw lookup-insert (rw (ne→beq ref ref2 (λ e. n (cc (h.1, h2.1, h.2, h2.2, e)))) h2.1)

  pub cleared-Keyed :
      (s : Server) (c ref : ℕ) (client : ClientSession)
      → WellFormed p s
      → (ref2 : ℕ) (client2 : ClientSession)
      → lookup ref2 (cleared c ref client s).sessions ≡ some client2
      → Keyed p client2
  unfolding cleared update_session lookup
  cleared-Keyed s c ref client w =
      insert-Keyed p s ref (record client { offered_files = [] }) w
        (λ key r k. absurd (ground (arith, k)))

  cleared-WellFormed :
      (s : Server) (c ref : ℕ) (client : ClientSession)
      → WellFormed p s
      → Holds p s c ref client
      → WellFormed p (record (cleared c ref client s) { clients = delete c s.clients })
  unfolding find_client
  cleared-WellFormed s c ref client w h = record {
    no_zero = lookup-delete c 0 s.clients ∙ none_either (c == 0) w.no_zero;
    held = λ d ref2 f.
        let (b, g) =
          guarded_some (c == d) (find_client s d) ref2 (sym (lookup-delete c d s.clients) ∙ f) in
        let (client2, h2) = w.held d ref2 g in
        (client2, (f, other_session s c ref d ref2 client client2 h h2 (beq→ne c d b), h2.2));
    keyed = cleared-Keyed s c ref client w;
    owned = λ key d e q.
        let (b, g) =
          guarded_some (c == d) (source s.dynamic_files key d) e
            (sym (source-cleared s c ref client w h key d) ∙ q) in
        let (ref2, client2, h2, has) = w.owned key d e g in
        let kept = other_session s c ref d ref2 client client2 h h2 (beq→ne c d b) in
        (ref2, client2, (lookup-delete c d s.clients ∙ if_false _ _ b ∙ h2.0, kept, h2.2), has);
  }

  -- Once a session that holds the ID `c` is gone, no file has a source of `c` and nobody has the
  -- ID, and the sources and the IDs of the other clients are as before.
  pub unregister_client-leaves :
      (s : Server) (c ref : ℕ) (client : ClientSession)
      → WellFormed p s
      → Holds p s c ref client
      → c ≢ 0
      → (key : Bytes) (d : ℕ)
      → (source (unregister_client p ref client s).dynamic_files key d
          ≡ (if c == d then none else source s.dynamic_files key d))
        × (find_client (unregister_client p ref client s) d
            ≡ (if c == d then none else find_client s d))
  unfolding find_client
  unregister_client-leaves s c ref client w h n key d =
      rw (unregister_client-cleared s c ref client h n)
        (source-cleared s c ref client w h key d, lookup-delete c d s.clients)

  -- The end of a session that holds its ID leaves the server well-formed.
  pub unregister_client-WellFormed :
      (s : Server) (c ref : ℕ) (client : ClientSession)
      → WellFormed p s
      → Holds p s c ref client
      → c ≢ 0
      → WellFormed p (unregister_client p ref client s)
  unregister_client-WellFormed s c ref client w h n =
      rw (unregister_client-cleared s c ref client h n) (cleared-WellFormed s c ref client w h)
