-- ===== src/Server/Ids.antt =====
-- allocateClientID gives an ID that no client holds.
use goed2k_server.Base.{
  ℕ, zero, suc, ◌+◌, ◌%◌, ◌≤◌, ◌<◌, ◌≡◌, ◌≢◌, refl, sym, List, Option, none, length, ◌==◌, arith,
  Bool-cases, Option-cases, inl, inr, ◌∙◌, ◌⊎◌,
}
use goed2k_server.Base.Maps.{lookup, delete, lookup-delete, length-delete-lt}
use goed2k_server.Base.Tests.{nat_eq, ne→beq}
use goed2k_server.Protocol.{Endpoint}
use goed2k_server.Server.{
  Server, TcpAddr, next_free, take_next, allocate_client_id, find_client, client_id_from_remote,
}

lookup-delete-other :
    (i j : ℕ) (clients : List (ℕ × ℕ)) → i ≢ j → lookup j (delete i clients) ≡ lookup j clients
lookup-delete-other i j clients ne = rw lookup-delete (rw (ne→beq i j ne) refl)

next_free-delete :
    (fuel i j : ℕ) (clients : List (ℕ × ℕ))
    → j < 4294967296
    → ((t : ℕ) → t < fuel → i ≢ (j + t) % 4294967296)
    → next_free fuel (delete i clients) j ≡ next_free fuel clients j
unfolding next_free
next_free-delete zero i j clients b h = refl
next_free-delete (suc fuel) i j clients b h =
    let ne = h 0 (omega arith) in
    let kept = lookup-delete-other i j clients (λ e. ne (omega (arith, e))) in
    elim (Option-cases (lookup j clients)) [
      | inl e ↦ rw (kept, next_free) (rw (e, next_free) refl)
      | inr (ref, e) ↦
          rw (kept, next_free)
            (rw (e, next_free)
              (next_free-delete fuel i ((j + 1) % 4294967296) clients (omega arith)
                (λ t l q. h (suc t) (omega arith) (omega (arith, q)))))
    ]

-- The search stops at an ID that is free.
Stops : ℕ → List (ℕ × ℕ) → ℕ → Type 0
Stops fuel clients j =
    (t : ℕ) × (t < fuel)
    × (next_free fuel clients j ≡ (j + t) % 4294967296)
    × (lookup (next_free fuel clients j) clients ≡ none)

next_free-Stops :
    (fuel : ℕ) (clients : List (ℕ × ℕ)) (j : ℕ)
    → length clients < fuel
    → fuel ≤ 4294967296
    → j < 4294967296
    → Stops fuel clients j
unfolding next_free Stops
next_free-Stops zero clients j l f b = absurd (omega arith)
next_free-Stops (suc fuel) clients j l f b = elim (Option-cases (lookup j clients)) [
  | inl e ↦ (0, omega arith, rw (e, next_free) (omega arith), rw (e, next_free) e)
  | inr (ref, e) ↦
      let next = (j + 1) % 4294967296 in
      let kept =
        next_free-delete fuel j next clients (omega arith) (λ t l e. absurd (omega (arith, e))) in
      let (t, lt, at, free) =
        next_free-Stops fuel (delete j clients) next
          (omega (arith, length-delete-lt j clients (λ n. cc (e, n)))) (omega arith)
          (omega arith) in
      let at_next = sym kept ∙ at in
      let ne : j ≢ next_free fuel clients next = λ q. absurd (omega (arith, at_next, q)) in
      (
        suc t,
        omega arith,
        rw (e, next_free) (omega (arith, at_next)),
        rw (e, next_free)
            (sym (lookup-delete-other j (next_free fuel clients next) clients ne)
              ∙ (rw (sym kept) free)),
      )
]

pub take_next-free :
    (s : Server)
    → suc (length s.clients) ≤ 4294967296
    → s.next_id < 4294967296
    → find_client s (take_next s).0 ≡ none
unfolding take_next find_client Stops
take_next-free s l b =
    (next_free-Stops (suc (length s.clients)) s.clients s.next_id (omega arith) l b).3

-- If the counter does not wrap around on the way, the ID is the counter or above it by no more than
-- there are clients, and the counter moves on past the ID.
pub take_next-advances :
    (s : Server)
    → s.next_id + suc (length s.clients) < 4294967296
    → (s.next_id ≤ (take_next s).0)
      × ((take_next s).0 ≤ s.next_id + length s.clients)
      × ((take_next s).1.next_id ≡ suc (take_next s).0)
unfolding take_next Stops
take_next-advances s b =
    let (t, lt, at, free) =
      next_free-Stops (suc (length s.clients)) s.clients s.next_id (omega arith) (omega arith)
        (omega arith) in
    (omega (arith, at), omega (arith, at), omega (arith, at))

module _ (endpoint_from_inet : TcpAddr → Endpoint) where
  -- The ID is the remote address if that is free, and else the next free number.
  pub allocate_client_id-cases :
      (addr : Option TcpAddr) (s : Server)
      → ((find_client s (client_id_from_remote endpoint_from_inet addr) ≡ none)
          × (allocate_client_id endpoint_from_inet addr s
              ≡ (client_id_from_remote endpoint_from_inet addr, s)))
        ⊎ (allocate_client_id endpoint_from_inet addr s ≡ take_next s)
  unfolding allocate_client_id
  allocate_client_id-cases addr s =
      let remote_id = client_id_from_remote endpoint_from_inet addr in
      elim (Bool-cases (remote_id == 0)) [
        | inl z ↦ inr (rw (z, allocate_client_id) refl)
        | inr z ↦ elim (Option-cases (find_client s remote_id)) [
          | inl e ↦ inl (e, rw (z, allocate_client_id) (rw (e, allocate_client_id) refl))
          | inr (ref, e) ↦ inr (rw (z, allocate_client_id) (rw (e, allocate_client_id) refl))
        ]
      ]

  -- With fewer than 2^32 clients, allocateClientID gives an ID that no client holds, within as many
  -- rounds of its loop as there are clients and one more; and it changes neither the registry, nor
  -- a session, nor the shared files.
  pub allocate_client_id-free :
      (addr : Option TcpAddr) (s : Server)
      → suc (length s.clients) ≤ 4294967296
      → s.next_id < 4294967296
      → (find_client s (allocate_client_id endpoint_from_inet addr s).0 ≡ none)
        × ((allocate_client_id endpoint_from_inet addr s).1.clients ≡ s.clients)
        × ((allocate_client_id endpoint_from_inet addr s).1.sessions ≡ s.sessions)
        × ((allocate_client_id endpoint_from_inet addr s).1.dynamic_files ≡ s.dynamic_files)
  unfolding take_next
  allocate_client_id-free addr s l b = elim (allocate_client_id-cases addr s) [
    | inl (free, e) ↦ rw (e) (free, refl, refl, refl)
    | inr e ↦ rw (e) (take_next-free s l b, refl, refl, refl)
  ]
