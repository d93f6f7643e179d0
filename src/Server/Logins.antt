-- ===== src/Server/Logins.antt =====
-- What handleLogin does to the registry.
pub mod Again
use goed2k_server.Base.{
  ℕ, suc, ◌≤◌, ◌<◌, ◌≡◌, ◌≢◌, refl, sym, ap, ◌∙◌, Bool, true, false, List, [], ◌∷◌, Option, none,
  some, length, ◌==◌, if◌then◌else◌, arith, Bool-cases, Option-cases, inl, inr,
}
use goed2k_server.Base.Maps.{lookup, insert, lookup-insert}
use goed2k_server.Base.Tests.{
  text_eq, nat_eq, ne→beq, beq→ne, ==_refl, if_true, if_false, ==_iff, some_injective,
  none_not_some,
}
use goed2k_server.Base.Text.{Bytes}
use goed2k_server.Protocol.{Protocol, Endpoint}
use goed2k_server.Records.{FileRecord, SourceEntry}
use goed2k_server.Dynamic.Sources.{source}
use goed2k_server.Server.{
  Server, ClientSession, TcpAddr, Login, find_client, update_session, register_client, handle_login,
  allocate_client_id, logged_in_as, take_next,
}
use goed2k_server.Server.Ids.{allocate_client_id-cases, allocate_client_id-free}
use goed2k_server.Server.Invariant.{Holds, Keyed, WellFormed, insert-Keyed}

module _ (p : Protocol) where
  -- A session that no ID leads to may change.
  pub update_session-WellFormed :
      (s : Server) (ref : ℕ) (client : ClientSession)
      → WellFormed p s
      → ((d : ℕ) → find_client s d ≢ some ref)
      → Keyed p client
      → WellFormed p (update_session ref client s)
  unfolding update_session find_client
  update_session-WellFormed s ref client w free keyed =
      let other = λ (d ref2 : ℕ) (f : find_client s d ≡ some ref2).
        lookup-insert ref ref2 client s.sessions
        ∙ if_false _ _ (ne→beq ref ref2 (λ e. free d (f ∙ ap some (sym e)))) in
      record {
        no_zero = w.no_zero;
        held = λ d ref2 f.
            let (client2, h2) = w.held d ref2 f in (client2, (f, other d ref2 f ∙ h2.1, h2.2));
        keyed = insert-Keyed p s ref client w keyed;
        owned = λ key d e q.
            let (ref2, client2, h2, has) = w.owned key d e q in
            (ref2, client2, (h2.0, other d ref2 h2.0 ∙ h2.1, h2.2), has);
      }

  -- A session may take a free ID that it was given.
  registered_held :
      (s : Server) (ref : ℕ) (client : ClientSession)
      → WellFormed p s
      → lookup ref s.sessions ≡ some client
      → (d ref2 : ℕ) → lookup d (insert client.assigned_id ref s.clients) ≡ some ref2
      → (client2 : ClientSession) × (lookup ref2 s.sessions ≡ some client2)
        × (client2.assigned_id ≡ d)
  unfolding find_client
  registered_held s ref client w l d ref2 f =
      let found = sym (lookup-insert client.assigned_id d ref s.clients) ∙ f in
      elim (Bool-cases (client.assigned_id == d)) [
        | inl b ↦
            let same = some_injective ref ref2 (sym (if_true _ _ b) ∙ found) in
            (client, rw (sym same) l, (==_iff client.assigned_id d).0 b)
        | inr b ↦
            let (client2, h2) = w.held d ref2 (sym (if_false _ _ b) ∙ found) in
            (client2, h2.1, h2.2)
      ]

  -- The IDs in use stay with their sessions.
  registered_kept :
      (s : Server) (ref id d ref2 : ℕ)
      → find_client s id ≡ none
      → find_client s d ≡ some ref2
      → lookup d (insert id ref s.clients) ≡ some ref2
  unfolding find_client
  registered_kept s ref id d ref2 free f =
      let ne : id ≢ d = λ e. none_not_some (sym free ∙ ap (find_client s) e ∙ f) in
      lookup-insert id d ref s.clients ∙ if_false _ _ (ne→beq id d ne) ∙ f

  register_client-WellFormed :
      (s : Server) (ref : ℕ) (client : ClientSession)
      → WellFormed p s
      → lookup ref s.sessions ≡ some client
      → find_client s client.assigned_id ≡ none
      → WellFormed p (register_client ref client s)
  unfolding register_client find_client
  register_client-WellFormed s ref client w l free = elim (Bool-cases (client.assigned_id == 0)) [
    | inl z ↦ rw (z) w
    | inr z ↦ rw (z) (record {
      no_zero = lookup-insert client.assigned_id 0 ref s.clients ∙ if_false _ _ z ∙ w.no_zero;
      held = λ d ref2 f.
          let (client2, at, id) = registered_held s ref client w l d ref2 f in
          (client2, (f, at, id));
      keyed = w.keyed;
      owned = λ key d e q.
          let (ref2, client2, h2, has) = w.owned key d e q in
          let kept = registered_kept s ref client.assigned_id d ref2 free h2.0 in
          (ref2, client2, (kept, h2.1, h2.2), has);
    })
  ]

module _ (endpoint_from_inet : TcpAddr → Endpoint) (p : Protocol) where
  -- Choosing an ID keeps the server well-formed, since the counter is no part of it.
  allocate_client_id-WellFormed :
      (addr : Option TcpAddr) (s : Server)
      → WellFormed p s
      → WellFormed p (allocate_client_id endpoint_from_inet addr s).1
  unfolding take_next find_client
  allocate_client_id-WellFormed addr s w =
      elim (allocate_client_id-cases endpoint_from_inet addr s) [
        | inl (free, e) ↦ rw (e) w
        | inr e ↦
            rw (e) (record { no_zero = w.no_zero; held = w.held; keyed = w.keyed; owned = w.owned })
      ]

  -- No ID leads to a session before its first login.
  unregistered :
      (s : Server) (ref : ℕ) (client : ClientSession)
      → WellFormed p s
      → lookup ref s.sessions ≡ some client
      → client.assigned_id ≡ 0
      → (d : ℕ) → find_client s d ≢ some ref
  unregistered s ref client w at new d f =
      let (client2, h2) = w.held d ref f in
      let same = some_injective client client2 (sym at ∙ h2.1) in
      let zero_id = sym new ∙ ap (λ c. c.assigned_id) same ∙ h2.2 in
      none_not_some (sym w.no_zero ∙ ap (find_client s) zero_id ∙ f)

  -- A first login keeps the server well-formed, and the ID that it registers was free.
  pub handle_login-WellFormed :
      (s : Server) (ref : ℕ) (client : ClientSession) (req : Login)
      → WellFormed p s
      → suc (length s.clients) ≤ 4294967296
      → s.next_id < 4294967296
      → lookup ref s.sessions ≡ some client
      → client.assigned_id ≡ 0
      → WellFormed p (handle_login endpoint_from_inet ref client req s)
  unfolding handle_login update_session find_client
  handle_login-WellFormed s ref client req w l b at new =
      let allocated = allocate_client_id endpoint_from_inet client.remote s in
      let logged_in = logged_in_as endpoint_from_inet req allocated.0 client in
      let facts = allocate_client_id-free endpoint_from_inet client.remote s l b in
      let fresh = allocate_client_id-WellFormed client.remote s w in
      let stored = ap (lookup ref) facts.2 ∙ at in
      let updated =
        update_session-WellFormed p allocated.1 ref logged_in fresh
          (unregistered allocated.1 ref client fresh stored new) (fresh.keyed ref client stored) in
      register_client-WellFormed p (update_session ref logged_in allocated.1) ref logged_in updated
        (lookup-insert ref ref logged_in allocated.1.sessions ∙ if_true _ _ (==_refl ref))
        (ap (lookup allocated.0) facts.1 ∙ facts.0)
