-- ===== src/Peers/Registry.antt =====
-- The order and the map of the peer registry agree.
use goed2k_server.Base.{
  ℕ, suc, ◌≡◌, ◌≢◌, refl, sym, ap, ◌∙◌, List, [], ◌∷◌, none, some, length, All, Bool-cases,
  Option-cases, inl, inr, All-append,
}
use goed2k_server.Base.Int.{is_positive}
use goed2k_server.Base.Maps.{lookup, insert, lookup-insert}
use goed2k_server.Base.Tests.{text_eq, if_true, if_false, none_not_some, beq_refl}
use goed2k_server.Base.Text.{Bytes, ◌=text◌}
use goed2k_server.Peers.{
  UdpAddr, Net, bytes_of, PeerState, PeerRegistry, enter, enter_new, enter_specs, configured,
  new_peer_registry, mark_seen, add, addrs_of, addrs,
}

-- Each key of the order stands in the map.
abbrev pub Listed : PeerRegistry → Type 0
Listed r = All (λ key. lookup key r.peers ≢ none) r.order

insert-known :
    (key k : Bytes) (p : PeerState) (peers : List (Bytes × PeerState))
    → lookup k peers ≢ none
    → lookup k (insert key p peers) ≢ none
insert-known key k p peers h e = elim (Bool-cases (key =text k)) [
  | inl b ↦ none_not_some (sym e ∙ lookup-insert key k p peers ∙ if_true _ _ b)
  | inr b ↦ h (sym (lookup-insert key k p peers ∙ if_false _ _ b) ∙ e)
]

All-insert :
    (key : Bytes) (p : PeerState) (peers : List (Bytes × PeerState)) (order : List Bytes)
    → All (λ k. lookup k peers ≢ none) order
    → All (λ k. lookup k (insert key p peers) ≢ none) order
All-insert key p peers [] h = tt
All-insert key p peers (k ∷ order) h =
    (insert-known key k p peers h.0, All-insert key p peers order h.1)

enter-Listed :
    (key : Bytes) (addr : UdpAddr) (r : PeerRegistry) → Listed r → Listed (enter key addr r)
unfolding enter
enter-Listed key addr r h =
    let p : PeerState = record { addr = addr; last_seen = 0 } in
    All-append (λ k. lookup k (insert key p r.peers) ≢ none) r.order (key ∷ [])
      (All-insert key p r.peers r.order h)
      (
        λ e. none_not_some (sym e ∙ lookup-insert key key p r.peers ∙ if_true _ _ (beq_refl key)),
        tt,
      )

module _ (net : Net) where
  enter_new-Listed :
      (key : Bytes) (addr : UdpAddr) (r : PeerRegistry)
      → Listed r
      → Listed (enter_new net key addr r).1
  unfolding enter_new
  enter_new-Listed key addr r h = elim (Option-cases (lookup key r.peers)) [
    | inl e ↦ rw (e, enter_new) (enter-Listed key addr r h)
    | inr (p, e) ↦ rw (e, enter_new) h
  ]

  enter_specs-Listed :
      (specs : List Bytes) (r : PeerRegistry) → Listed r → Listed (enter_specs net specs r)
  unfolding enter_specs
  enter_specs-Listed [] r h = h
  enter_specs-Listed (spec ∷ specs) r h = elim (Option-cases (configured net spec)) [
    | inl e ↦ rw (e, enter_specs) (enter_specs-Listed specs r h)
    | inr (peer, e) ↦
        rw (e, enter_specs)
          (enter_specs-Listed specs (enter_new net peer.0 peer.1 r).1
            (enter_new-Listed peer.0 peer.1 r h))
  ]

  pub mark_seen-Listed :
      (now : ℕ) (addr : UdpAddr) (r : PeerRegistry) → Listed r → Listed (mark_seen net now addr r).1
  unfolding mark_seen
  mark_seen-Listed now addr r h = elim (Option-cases (lookup (net.addr_string addr) r.peers)) [
    | inl e ↦ rw (e, mark_seen) h
    | inr (p, e) ↦
        rw (e, mark_seen)
          (All-insert (net.addr_string addr) (record p { last_seen = now }) r.peers r.order h)
  ]

  pub add-Listed : (addr : UdpAddr) (r : PeerRegistry) → Listed r → Listed (add net addr r).1
  unfolding add
  add-Listed addr r h = elim (Option-cases (net.to4 addr.ip)) [
    | inl e ↦ rw (e, add) h
    | inr (v4, e) ↦ elim (Bool-cases (is_positive addr.port)) [
      | inl b ↦
          rw (e, add)
            (rw (b) (
              enter_new-Listed (net.addr_string addr)
                (record { ip = bytes_of v4; port = addr.port }) r h))
      | inr b ↦ rw (e, add) (rw (b) h)
    ]
  ]

-- The calls that change a registry.
pub data Call : Type 0 where
  seen : ℕ → UdpAddr → Call
  learned : UdpAddr → Call

pub run : Net → List Call → PeerRegistry → PeerRegistry
run net [] r = r
run net (seen now addr ∷ calls) r = run net calls (mark_seen net now addr r).1
run net (learned addr ∷ calls) r = run net calls (add net addr r).1

run-Listed :
    (net : Net) (calls : List Call) (r : PeerRegistry) → Listed r → Listed (run net calls r)
unfolding run
run-Listed net [] r h = h
run-Listed net (seen now addr ∷ calls) r h =
    run-Listed net calls (mark_seen net now addr r).1 (mark_seen-Listed net now addr r h)
run-Listed net (learned addr ∷ calls) r h =
    run-Listed net calls (add net addr r).1 (add-Listed net addr r h)

pub addrs_of_known :
    (peers : List (Bytes × PeerState)) (order : List Bytes)
    → All (λ k. lookup k peers ≢ none) order
    → (out : List UdpAddr) × (addrs_of peers order ≡ some out) × (length out ≡ length order)
unfolding addrs_of
addrs_of_known peers [] h = ([], refl, refl)
addrs_of_known peers (key ∷ order) h = elim (Option-cases (lookup key peers)) [
  | inl e ↦ absurd (h.0 e)
  | inr (p, e) ↦
      let (out, got, len) = addrs_of_known peers order h.1 in
      (p.addr ∷ out, rw (e, addrs_of) (rw (got, addrs_of) refl), ap suc len)
]

-- After any configuration and any calls of add and markSeen, addrs finds the entry of every key in
-- the order, so it dereferences no nil, and gives one address for each.
pub addrs-run :
    (net : Net) (specs : List Bytes) (calls : List Call)
    → (out : List UdpAddr) × (addrs (run net calls (new_peer_registry net specs)) ≡ some out)
      × (length out ≡ length (run net calls (new_peer_registry net specs)).order)
unfolding addrs new_peer_registry
addrs-run net specs calls =
    addrs_of_known (run net calls (new_peer_registry net specs)).peers
      (run net calls (new_peer_registry net specs)).order
      (run-Listed net calls (new_peer_registry net specs)
        (enter_specs-Listed net specs (record { peers = []; order = [] }) tt))
