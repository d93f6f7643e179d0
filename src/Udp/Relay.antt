-- ===== src/Udp/Relay.antt =====
-- What a callback request makes the server send.
use goed2k_server.Base.{
  ℕ, ◌≡◌, refl, sym, ap, Bool, true, false, List, Option, none, some, All, arith, Bool-cases,
  Option-cases, inl, inr, if◌then◌else◌,
}
use goed2k_server.Base.Int.{ℤ}
use goed2k_server.Base.Text.{Bytes}
use goed2k_server.Limiter.{allow}
use goed2k_server.Peers.{Net, UdpAddr, Ipv4}
use goed2k_server.Server.{Server, find_client}
use goed2k_server.Udp.State.{UdpState, Sent, datagram, callback_incoming, Handled}
use goed2k_server.Udp.Callback.{
  UdpCallbackRequest, parse_udp_callback, ip_of, is_spoofed, relay_callback, limited_callback,
  handle_udp_callback,
}

-- A datagram back to the sender, or a request to a registered client to call the sender's own IPv4
-- address.
pub data Answers (s : Server) (addr : UdpAddr) (source : Option Ipv4) : Sent → Type 0 where
  to_sender : {reply : Bytes} → Answers s addr source (datagram addr reply)
  to_client :
      {v4 : Ipv4} (id : ℕ) {target : ℕ} {port : ℤ}
      → source ≡ some v4
      → find_client s id ≡ some target
      → Answers s addr source (callback_incoming target (record { ip = ip_of v4; port = port }))

not_spoofed :
    (o : Option Ipv4) (cb : UdpCallbackRequest)
    → is_spoofed o cb ≡ false
    → (v4 : Ipv4) × (o ≡ some v4) × (ip_of v4 ≡ cb.requester_ip)
not_spoofed none cb h = absurd (ground (arith, h))
not_spoofed (some v4) cb h = (v4, refl, ground (arith, h))

module _ (net : Net) (ip_string : Bytes → Bytes) (s : Server) (addr : UdpAddr) where
  abbrev pub AllAnswer : List Sent → Type 0
  AllAnswer sent = All (Answers s addr (net.to4 addr.ip)) sent

  relay_callback-Answers :
      (v4 : Ipv4) (cb : UdpCallbackRequest) (st : UdpState)
      → net.to4 addr.ip ≡ some v4
      → ip_of v4 ≡ cb.requester_ip
      → AllAnswer (relay_callback net ip_string s cb st).sent
        × ((relay_callback net ip_string s cb st).state ≡ st)
  unfolding relay_callback
  relay_callback-Answers v4 cb st own same = elim (Option-cases (find_client s cb.target_id)) [
    | inl e ↦ rw (e, relay_callback) (tt, refl)
    | inr (target, e) ↦
        rw (e, relay_callback) ((rw (sym same) (to_client cb.target_id own e), tt), refl)
  ]

  -- The peers and the queue are as before.
  abbrev pub Keeps : UdpState → Handled → Type 0
  Keeps st h =
      AllAnswer h.sent × (h.state.peers ≡ st.peers) × (h.state.search_queue ≡ st.search_queue)

  Keeps-if :
      (b : Bool) (st : UdpState) (x y : Handled)
      → Keeps st x
      → (b ≡ false → Keeps st y)
      → Keeps st (if b then x else y)
  Keeps-if true st x y hx hy = hx
  Keeps-if false st x y hx hy = hy refl

  limited_callback-Keeps :
      (now : ℕ) (v4 : Ipv4) (cb : UdpCallbackRequest) (st : UdpState)
      → net.to4 addr.ip ≡ some v4
      → ip_of v4 ≡ cb.requester_ip
      → Keeps st (limited_callback net ip_string now addr s cb st)
  unfolding limited_callback
  limited_callback-Keeps now v4 cb st own same =
      elim (Bool-cases (allow now (ip_string addr.ip) st.callback_limiter).0) [
        | inl b ↦
            let asked = allow now (ip_string addr.ip) st.callback_limiter in
            let (sent, kept) =
              relay_callback-Answers v4 cb (record st { callback_limiter = asked.1 }) own same in
            rw (b) (sent, ap (λ x. x.peers) kept, ap (λ x. x.search_queue) kept)
        | inr b ↦ rw (b) (tt, refl, refl)
      ]

  pub handle_udp_callback-Keeps :
      (now : ℕ) (body : Bytes) (st : UdpState)
      → Keeps st (handle_udp_callback net ip_string now addr s body st)
  unfolding handle_udp_callback
  handle_udp_callback-Keeps now body st = elim (Option-cases (parse_udp_callback body)) [
    | inl e ↦ rw (e, handle_udp_callback) (tt, refl, refl)
    | inr (cb, e) ↦
        rw (e, handle_udp_callback)
          (Keeps-if (is_spoofed (net.to4 addr.ip) cb) st _ _ (tt, refl, refl)
            (λ honest.
              let (v4, own, same) = not_spoofed (net.to4 addr.ip) cb honest in
              limited_callback-Keeps now v4 cb st own same))
  ]
