-- ===== src/Udp/State.antt =====
-- What the handlers of ed2ksrv/server_udp.go read, change and send.
use goed2k_server.Base.{ℕ, ◌+◌, ◌*◌, ◌/◌, ◌%◌, Bool, List, [], ◌∷◌, Option}
use goed2k_server.Base.Text.{Bytes}
use goed2k_server.Limiter.{UdpLimiter}
use goed2k_server.Peers.{UdpAddr, PeerRegistry}
use goed2k_server.Protocol.{Endpoint}
use goed2k_server.Search.{SearchQuery}

pub record UdpSearchJob : Type 0 where
  pub addr : UdpAddr
  pub query : SearchQuery
  pub pack_many : Bool

-- The fields of Server that a datagram can change; `search_queue` is the channel's buffer.
pub record UdpState : Type 0 where
  pub udp_limiter : Option UdpLimiter
  pub callback_limiter : Option UdpLimiter
  pub peers : PeerRegistry
  pub search_queue : List UdpSearchJob

-- A datagram to an address, or a callback request to the session at an address of the store.
pub data Sent : Type 0 where
  datagram : UdpAddr → Bytes → Sent
  callback_incoming : ℕ → Endpoint → Sent

-- What a handler leaves: the state, what it sends, and the Boolean that it returns.
pub record Handled : Type 0 where
  pub state : UdpState
  pub sent : List Sent
  pub is_ok : Bool

-- binary.LittleEndian
abbrev pub put_uint32 : ℕ → Bytes
put_uint32 v = v % 256 ∷ v / 256 % 256 ∷ v / 65536 % 256 ∷ v / 16777216 % 256 ∷ []

abbrev pub uint32_of : ℕ → ℕ → ℕ → ℕ → ℕ
uint32_of a b c d = a + 256 * (b + 256 * (c + 256 * d))
