-- ===== src/Udp/Callback.antt =====
-- handleUDPCallback of ed2ksrv/udp_search.go: a callback request relayed to a connected client.
use goed2k_server.Base.{
  ℕ, ◌+◌, ◌*◌, Bool, true, false, not, [], ◌∷◌, Option, none, some, ◌==◌, if◌then◌else◌,
}
use goed2k_server.Base.Int.{pos}
use goed2k_server.Base.Text.{Bytes}
use goed2k_server.Limiter.{allow}
use goed2k_server.Peers.{Net, UdpAddr, Ipv4}
use goed2k_server.Server.{Server, find_client}
use goed2k_server.Udp.State.{UdpState, callback_incoming, Handled, uint32_of}

pub record UdpCallbackRequest : Type 0 where
  pub requester_ip : ℕ
  pub requester_port : ℕ
  pub target_id : ℕ

-- Ten bytes or more.
unfoldable pub parse_udp_callback : Bytes → Option UdpCallbackRequest
parse_udp_callback (a ∷ b ∷ c ∷ d ∷ e ∷ f ∷ g ∷ h ∷ i ∷ j ∷ rest) = some (record {
  requester_ip = uint32_of a b c d;
  requester_port = e + 256 * f;
  target_id = uint32_of g h i j;
})
parse_udp_callback _ = none

abbrev pub ip_of : Ipv4 → ℕ
ip_of v4 = uint32_of v4.a v4.b v4.c v4.d

-- `int32(LittleEndian.Uint32(v4)) != cb.requesterIP`, or no IPv4 address.
abbrev pub is_spoofed : Option Ipv4 → UdpCallbackRequest → Bool
is_spoofed none cb = true
is_spoofed (some v4) cb = not (ip_of v4 == cb.requester_ip)

-- `ip_string` is the method String of net.IP.
module _ (net : Net) (ip_string : Bytes → Bytes) where
  unfoldable pub relay_callback : Server → UdpCallbackRequest → UdpState → Handled
  relay_callback s cb st = elim (find_client s cb.target_id) [
    | none ↦ record { state = st; sent = []; is_ok = true }
    | some target ↦ record {
      state = st;
      sent =
          callback_incoming target (record { ip = cb.requester_ip; port = pos cb.requester_port })
          ∷ [];
      is_ok = true;
    }
  ]

  unfoldable pub limited_callback : ℕ → UdpAddr → Server → UdpCallbackRequest → UdpState → Handled
  unfolding relay_callback
  limited_callback now addr s cb st =
      let asked = allow now (ip_string addr.ip) st.callback_limiter in
      let after = record st { callback_limiter = asked.1 } in
      if asked.0
      then relay_callback s cb after
      else record { state = after; sent = []; is_ok = true }

  unfoldable pub handle_udp_callback : ℕ → UdpAddr → Server → Bytes → UdpState → Handled
  unfolding parse_udp_callback limited_callback
  handle_udp_callback now addr s body st = elim (parse_udp_callback body) [
    | none ↦ record { state = st; sent = []; is_ok = false }
    | some cb ↦
        if is_spoofed (net.to4 addr.ip) cb
        then record { state = st; sent = []; is_ok = false }
        else limited_callback now addr s cb st
  ]
