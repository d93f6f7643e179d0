-- ===== src/Server/Logins/Again.antt =====
-- A second login on one connection, which the dispatch loop of handleConn lets through.
use goed2k_server.Base.{ℕ, suc, ◌≤◌, ◌<◌, ◌≡◌, ◌≢◌, refl, sym, ap, ◌∙◌, some, length}
use goed2k_server.Base.Maps.{lookup, insert, lookup-insert, lookup-delete}
use goed2k_server.Base.Tests.{text_eq, nat_eq, ne→beq, ==_refl, if_true, if_false, none_not_some}
use goed2k_server.Base.Text.{Bytes}
use goed2k_server.Protocol.{Protocol, Endpoint}
use goed2k_server.Dynamic.Sources.{source}
use goed2k_server.Server.{
  Server, ClientSession, TcpAddr, Login, find_client, update_session, register_client, handle_login,
  allocate_client_id, logged_in_as, unregister_client,
}
use goed2k_server.Server.Ids.{allocate_client_id-free}
use goed2k_server.Server.Invariant.{Holds}
use goed2k_server.Server.Departure.{unregister_client-cleared, source-cleared_other}

module _ (endpoint_from_inet : TcpAddr → Endpoint) (p : Protocol) where
  -- The session after a login on the server `s`.
  abbrev pub session_after : Server → ClientSession → Login → ClientSession
  session_after s client req =
      logged_in_as endpoint_from_inet req (allocate_client_id endpoint_from_inet client.remote s).0
        client

  registered :
      (s : Server) (ref : ℕ) (client : ClientSession)
      → client.assigned_id ≢ 0
      → register_client ref client s
        ≡ record s { clients = insert client.assigned_id ref s.clients }
  unfolding register_client
  registered s ref client n = rw (ne→beq client.assigned_id 0 n) refl

  -- When a session that holds the ID `old` logs in again and then ends, `old` still leads to it,
  -- and the files still have the sources of `old` that they had.
  pub login_again_leaves :
      (s : Server) (old ref : ℕ) (client : ClientSession) (req : Login)
      → Holds p s old ref client
      → suc (length s.clients) ≤ 4294967296
      → s.next_id < 4294967296
      → (allocate_client_id endpoint_from_inet client.remote s).0 ≢ 0
      → (find_client
            (unregister_client p ref
              (session_after s client req)
              (handle_login endpoint_from_inet ref client req s))
            old
          ≡ some ref)
        × ((key : Bytes)
            → source
                (unregister_client p ref
                  (session_after s client req)
                  (handle_login endpoint_from_inet ref client req s)).dynamic_files
                key
                old
              ≡ source s.dynamic_files key old)
  unfolding handle_login update_session find_client
  login_again_leaves s old ref client req h l b n =
      let allocated = allocate_client_id endpoint_from_inet client.remote s in
      let again = session_after s client req in
      let facts = allocate_client_id-free endpoint_from_inet client.remote s l b in
      let ne =
        ne→beq allocated.0 old (λ e. none_not_some (sym facts.0 ∙ ap (find_client s) e ∙ h.0)) in
      let s1 = update_session ref again allocated.1 in
      let s2 = record s1 { clients = insert allocated.0 ref s1.clients } in
      let holds : Holds p s2 allocated.0 ref again = (
        lookup-insert allocated.0 allocated.0 ref s1.clients ∙ if_true _ _ (==_refl allocated.0),
        lookup-insert ref ref again allocated.1.sessions ∙ if_true _ _ (==_refl ref),
        refl,
      ) in
      rw (registered s1 ref again n) (
        rw (unregister_client-cleared p s2 allocated.0 ref again holds n) (
          lookup-delete allocated.0 old s2.clients
              ∙ if_false _ _ ne
              ∙ lookup-insert allocated.0 old ref s1.clients
              ∙ if_false _ _ ne
              ∙ ap (lookup old) facts.1
              ∙ h.0,
          λ key.
              source-cleared_other p s2 allocated.0 ref again key old ne
              ∙ ap (λ m. source m key old) facts.3,
        ))
