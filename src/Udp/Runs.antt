-- ===== src/Udp/Runs.antt =====
-- Runs of the UDP service: a status request, a source request, a callback.
use goed2k_server.Base.{
  ℕ, zero, suc, ◌+◌, ◌≡◌, refl, ap, List, [], ◌∷◌, ◌++◌, Option, none, some, length, arith,
}
use goed2k_server.Base.Int.{pos}
use goed2k_server.Base.Maps.{lookup, insert}
use goed2k_server.Base.Tests.{none_not_some, some_injective}
use goed2k_server.Base.Text.{Bytes}
use goed2k_server.Catalog.{Catalog}
use goed2k_server.Config.{default_config}
use goed2k_server.Limiter.{new_udp_limiter, allow}
use goed2k_server.Peers.{Net, UdpAddr, Ipv4}
use goed2k_server.Samples.{ascii, sample_protocol}
use goed2k_server.Server.{Server, find_client}
use goed2k_server.Wire.Samples.{sample_wire}
use goed2k_server.Udp.State.{UdpState, Sent, callback_incoming, Handled}
use goed2k_server.Udp.Callback.{handle_udp_callback}
use goed2k_server.Udp.Dispatch.{Library, serve_udp}
use goed2k_server.Udp.Safety.{Sound, Lands, serve_udp-Lands}

abbrev push : ℕ → Option (Bytes × Bytes) → Option (Bytes × Bytes)
push b none = none
push b (some (xs, rest)) = some (b ∷ xs, rest)

abbrev split : ℕ → Bytes → Option (Bytes × Bytes)
split zero src = some ([], src)
split (suc n) [] = none
split (suc n) (b ∷ src) = push b (split n src)

push_inverse :
    (b : ℕ) (o : Option (Bytes × Bytes)) (xs rest : Bytes)
    → push b o ≡ some (xs, rest)
    → (ys : Bytes) × (o ≡ some (ys, rest))
push_inverse b none xs rest h = absurd (none_not_some h)
push_inverse b (some (ys, src)) xs rest h = (ys, ground (arith, h))

length-split :
    (n : ℕ) (src xs rest : Bytes) → split n src ≡ some (xs, rest) → length rest + n ≡ length src
length-split zero src xs rest h =
    omega (arith, ap (λ x. length x.1) (some_injective ([], src) (xs, rest) h))
length-split (suc n) [] xs rest h = absurd (none_not_some h)
length-split (suc n) (b ∷ src) xs rest h =
    let (ys, e) = push_inverse b (split n src) xs rest h in
    omega (arith, length-split n src ys rest e)

four_bytes : Bytes → Option Ipv4
four_bytes (a ∷ b ∷ c ∷ d ∷ []) = some (record { a = a; b = b; c = c; d = d })
four_bytes _ = none

abbrev sample_net : Net
sample_net = record {
  split_host_port = λ s. none;
  join_host_port = λ h q. h ++ q;
  parse_ip = λ s. some s;
  to4 = four_bytes;
  atoi = λ s. none;
  addr_string = λ a. a.ip;
}

abbrev library : Library
library = record {
  protocol = sample_protocol;
  tables = ascii;
  wire = sample_wire;
  net = sample_net;
  atoi = λ s. none;
  ip_string = λ s. s;
  skip_ed2k_tag = λ s. none;
  hash_from_string = λ s. some s;
  read_hash = split 16;
  put_found = λ h es. some h;
  put_entry = λ e. some e.hash;
}

abbrev one_client : Server
one_client = record { sessions = []; clients = (7, 3) ∷ []; dynamic_files = []; next_id = 8 }

abbrev empty_catalog : Catalog
empty_catalog = record { files = []; by_hash = []; tri_index = [] }

abbrev sender : UdpAddr
sender = record { ip = 9 ∷ 8 ∷ 7 ∷ 6 ∷ []; port = pos 4672 }

abbrev state : UdpState
state = record {
  udp_limiter = some (new_udp_limiter (pos 2));
  callback_limiter = none;
  peers = record { peers = []; order = [] };
  search_queue = [];
}

state-Sound : Sound default_config state
state-Sound = record { listed = tt; queued = λ n e. omega arith }

-- A request to call back 9.8.7.6 at the port 4662, for the client 7.
abbrev call_me : Bytes
call_me = 0xe3 ∷ 0x9c ∷ 9 ∷ 8 ∷ 7 ∷ 6 ∷ 0x36 ∷ 0x12 ∷ 7 ∷ 0 ∷ 0 ∷ 0 ∷ []

abbrev sent_of : Option Handled → List Sent
sent_of none = []
sent_of (some h) = h.sent

called_back :
    sent_of (serve_udp library default_config empty_catalog one_client 1 sender call_me state)
    ≡ callback_incoming 3 (record { ip = 0x06070809; port = pos 0x1236 }) ∷ []
unfolding serve_udp handle_udp_callback allow find_client lookup insert four_bytes new_udp_limiter
called_back = refl

serve_udp-Lands_example :
    Lands library default_config empty_catalog one_client sender
      (serve_udp library default_config empty_catalog one_client 1 sender call_me state)
serve_udp-Lands_example =
    serve_udp-Lands library default_config empty_catalog one_client sender 1 call_me state
      (λ src hash rest. length-split 16 src hash rest) state-Sound
