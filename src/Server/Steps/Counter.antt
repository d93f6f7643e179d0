-- ===== src/Server/Steps/Counter.antt =====
-- The counter of allocateClientID, over the steps of the registry from NewServer on.
use goed2k_server.Base.{
  ℕ, suc, ◌+◌, ◌*◌, ◌≤◌, ◌<◌, ◌≡◌, refl, ap, ◌∙◌, true, List, [], ◌∷◌, Option, none, length, ◌==◌,
  arith, Bool-cases, inl, inr,
}
use goed2k_server.Base.Int.{ℤ}
use goed2k_server.Base.Maps.{length-insert-le, length-delete-le}
use goed2k_server.Base.Tests.{text_eq, nat_eq}
use goed2k_server.Config.{Config}
use goed2k_server.Protocol.{Protocol, Endpoint}
use goed2k_server.Records.{FileRecord}
use goed2k_server.Lookup.{plain_source}
use goed2k_server.Sources.{is_high_id}
use goed2k_server.Server.{
  Server, ClientSession, TcpAddr, Login, find_client, update_session, register_client, handle_login,
  allocate_client_id, take_next, logged_in_as, merge_into, merge_client_offered_files,
  remove_client_offered_files, release_id, unregister_client,
}
use goed2k_server.Server.Ids.{allocate_client_id-cases, take_next-free, take_next-advances}
use goed2k_server.Server.Steps.{
  Step, connect, login, offer, leave, Reachable, start, then_step, new_session,
}

module _ (endpoint_from_inet : TcpAddr → Endpoint) (p : Protocol) (cfg : Config) where
  abbrev logins_of_step : {s t : Server} → Step endpoint_from_inet p cfg s t → ℕ
  logins_of_step (connect s ref addr free) = 0
  logins_of_step (login s ref client req l b at new) = 1
  logins_of_step (offer s c records) = 0
  logins_of_step (leave s c ref client h z) = 0

  -- How many logins the steps have.
  abbrev pub logins : {s : Server} → Reachable endpoint_from_inet p cfg s → ℕ
  logins start = 0
  logins (then_step r s before step) = logins_of_step step + logins before

  -- After `k` logins: the counter has moved on by the logins, past no more IDs than there are
  -- clients each time.
  abbrev Counted : ℕ → Server → Type 0
  Counted k s = (16777217 ≤ s.next_id) × (s.next_id ≤ 16777217 + k * 65001) × (length s.clients ≤ k)

  take_next-Counted :
      (k : ℕ) (s : Server)
      → k ≤ 65000
      → Counted k s
      → (16777217 ≤ (take_next s).1.next_id)
        × ((take_next s).1.next_id ≤ 16777217 + suc k * 65001)
        × (16777217 ≤ (take_next s).0)
        × ((take_next s).0 < (take_next s).1.next_id)
  take_next-Counted k s few (low, high, clients) =
      let (from, to, next) = take_next-advances s (omega (arith, high, clients, few)) in
      (
        omega (arith, low, from, next),
        omega (arith, high, clients, few, to, next),
        omega (arith, low, from),
        omega (arith, next),
      )

  -- The counter and the number of clients are as before, or there are fewer clients.
  abbrev Keeps : Server → Server → Type 0
  Keeps s t = (t.next_id ≡ s.next_id) × (length t.clients ≤ length s.clients)

  Keeps-Counted : (k : ℕ) (s t : Server) → Keeps s t → Counted k s → Counted k t
  Keeps-Counted k s t (next, fewer) (low, high, clients) =
      (omega (arith, low, next), omega (arith, high, next), omega (arith, fewer, clients))

  update_session-Keeps :
      (ref : ℕ) (client : ClientSession) (s : Server) → Keeps s (update_session ref client s)
  unfolding update_session
  update_session-Keeps ref client s = (refl, omega arith)

  remove_client_offered_files-Keeps :
      (c : ℕ) (s : Server) → Keeps s (remove_client_offered_files p c s)
  unfolding remove_client_offered_files update_session
  remove_client_offered_files-Keeps c s = ground arith

  merge_client_offered_files-Keeps :
      (c : ℕ) (records : List FileRecord) (s : Server)
      → Keeps s (merge_client_offered_files p cfg c records s)
  unfolding merge_client_offered_files merge_into update_session
  merge_client_offered_files-Keeps c [] s = remove_client_offered_files-Keeps c s
  merge_client_offered_files-Keeps c (r ∷ rs) s = ground arith

  release_id-Keeps : (ref c : ℕ) (s : Server) → Keeps s (release_id p ref c s)
  unfolding release_id
  release_id-Keeps ref c s = ground (arith, length-delete-le c s.clients)

  unregister_client-Keeps :
      (ref : ℕ) (client : ClientSession) (s : Server) → Keeps s (unregister_client p ref client s)
  unfolding unregister_client
  unregister_client-Keeps ref client s =
      let (next, fewer) = remove_client_offered_files-Keeps client.assigned_id s in
      let (next2, fewer2) =
        release_id-Keeps ref client.assigned_id
          (remove_client_offered_files p client.assigned_id s) in
      elim (Bool-cases (client.assigned_id == 0)) [
        | inl b ↦ rw (b) (refl, omega arith)
        | inr b ↦ rw (b) (next2 ∙ next, omega (arith, fewer, fewer2))
      ]

  register_client-Counted :
      (ref : ℕ) (client : ClientSession) (s : Server)
      → ((register_client ref client s).next_id ≡ s.next_id)
        × (length (register_client ref client s).clients ≤ suc (length s.clients))
  unfolding register_client
  register_client-Counted ref client s =
      ground (arith, length-insert-le client.assigned_id ref s.clients)

  allocate_client_id-Counted :
      (k : ℕ) (addr : Option TcpAddr) (s : Server)
      → k ≤ 65000
      → Counted k s
      → (16777217 ≤ (allocate_client_id endpoint_from_inet addr s).1.next_id)
        × ((allocate_client_id endpoint_from_inet addr s).1.next_id ≤ 16777217 + suc k * 65001)
        × ((allocate_client_id endpoint_from_inet addr s).1.clients ≡ s.clients)
  unfolding take_next
  allocate_client_id-Counted k addr s few counted =
      elim (allocate_client_id-cases endpoint_from_inet addr s) [
        | inl (free, e) ↦
            let (low, high, clients) = counted in rw (e) (low, omega (arith, high), refl)
        | inr e ↦
            let (low, high, at, past) = take_next-Counted k s few counted in
            rw (e) (low, high, refl)
      ]

  handle_login-Counted :
      (k ref : ℕ) (client : ClientSession) (req : Login) (s : Server)
      → k ≤ 65000
      → Counted k s
      → Counted (suc k) (handle_login endpoint_from_inet ref client req s)
  unfolding handle_login update_session
  handle_login-Counted k ref client req s few counted =
      let allocated = allocate_client_id endpoint_from_inet client.remote s in
      let logged_in = logged_in_as endpoint_from_inet req allocated.0 client in
      let (low, high, same) = allocate_client_id-Counted k client.remote s few counted in
      let (next, more) =
        register_client-Counted ref logged_in (update_session ref logged_in allocated.1) in
      (
        omega (arith, low, next),
        omega (arith, high, next),
        omega (arith, more, ap length same, counted.2),
      )

  Counted-at : (j k : ℕ) (s : Server) → j ≡ k → Counted k s → Counted j s
  Counted-at j k s e (low, high, clients) = (low, omega (arith, high, e), omega (arith, clients, e))

  step-Counted :
      (k : ℕ) (s t : Server) (step : Step endpoint_from_inet p cfg s t)
      → k ≤ 65000
      → Counted k s
      → Counted (logins_of_step step + k) t
  step-Counted k _ _ (connect s ref addr free) few counted =
      let same = update_session-Keeps ref (new_session addr) s in
      Counted-at (0 + k) k (update_session ref (new_session addr) s) (omega arith)
        (Keeps-Counted k s (update_session ref (new_session addr) s) same counted)
  step-Counted k _ _ (login s ref client req l b at new) few counted =
      let t = handle_login endpoint_from_inet ref client req s in
      Counted-at (1 + k) (suc k) t (omega arith)
        (handle_login-Counted k ref client req s few counted)
  step-Counted k _ _ (offer s c records) few counted =
      let t = merge_client_offered_files p cfg c records s in
      Counted-at (0 + k) k t (omega arith)
        (Keeps-Counted k s t (merge_client_offered_files-Keeps c records s) counted)
  step-Counted k _ _ (leave s c ref client h z) few counted =
      let t = unregister_client p ref client s in
      Counted-at (0 + k) k t (omega arith)
        (Keeps-Counted k s t (unregister_client-Keeps ref client s) counted)

  Reachable-Counted :
      (s : Server) (r : Reachable endpoint_from_inet p cfg s)
      → logins r ≤ 65000
      → Counted (logins r) s
  Reachable-Counted _ start few = (omega arith, omega arith, omega arith)
  Reachable-Counted _ (then_step r s before step) few =
      let earlier : logins before ≤ 65000 = omega (arith, few) in
      step-Counted (logins before) r s step earlier (Reachable-Counted r before earlier)

  -- In a server that connections, offers, departures and at most 65000 first logins have led to
  -- from its start, the number that the counter gives next is the ID of no client, a source with it
  -- is a HighID for the order of sources, and the counter then stands above it.
  pub Reachable-counter :
      (s : Server) (r : Reachable endpoint_from_inet p cfg s) (port : ℤ)
      → logins r ≤ 65000
      → (find_client s (take_next s).0 ≡ none)
        × (is_high_id (plain_source (record { ip = (take_next s).0; port = port })) ≡ true)
        × ((take_next s).0 < (take_next s).1.next_id)
  unfolding is_high_id
  Reachable-counter s r port few =
      let (low, high, clients) = Reachable-Counted s r few in
      let (up, below, at, past) = take_next-Counted (logins r) s few (low, high, clients) in
      (
        take_next-free s (omega (arith, clients, few)) (omega (arith, high, few)),
        ground (arith, at),
        past,
      )
