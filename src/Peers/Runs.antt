-- ===== src/Peers/Runs.antt =====
-- Runs of the peer registry and the server list. A sample specification is its own host, of four
-- bytes, with the port 4661.
use goed2k_server.Base.{◌≡◌, refl, List, [], ◌∷◌, Option, none, some, take, length, ◌%◌, arith}
use goed2k_server.Base.Int.{pos}
use goed2k_server.Base.Text.{Bytes, text}
use goed2k_server.Peers.{
  Ipv4, Net, UdpAddr, build_server_list_body, parse_server_list_body, addrs, new_peer_registry,
}
use goed2k_server.Peers.ListBody.{servers, addresses, parse-build_server_list_body}
use goed2k_server.Peers.Registry.{Call, seen, learned, run, addrs-run}

abbrev four : Bytes → Option Ipv4
four (a ∷ b ∷ c ∷ d ∷ []) = some (record { a = a; b = b; c = c; d = d })
four _ = none

abbrev sample_net : Net
sample_net = record {
  split_host_port = λ s. some (s, text "4661");
  join_host_port = λ h p. h;
  parse_ip = λ h. some h;
  to4 = four;
  atoi = λ s. some (pos 4661);
  addr_string = λ a. a.ip;
}

abbrev specs : List Bytes
specs = (77 ∷ 78 ∷ 79 ∷ 80 ∷ []) ∷ text "bad host" ∷ []

abbrev self : Bytes
self = 10 ∷ 1 ∷ 2 ∷ 3 ∷ []

abbrev body : Bytes
body = 2 ∷ 10 ∷ 1 ∷ 2 ∷ 3 ∷ 53 ∷ 18 ∷ 77 ∷ 78 ∷ 79 ∷ 80 ∷ 53 ∷ 18 ∷ []

parse-build_server_list_body_example :
    parse_server_list_body body
    ≡ addresses (
        take
          (length (servers sample_net self 4661 specs) % 256)
          (servers sample_net self 4661 specs))
unfolding build_server_list_body
parse-build_server_list_body_example =
    parse-build_server_list_body sample_net self 4661 specs body (omega arith) refl

abbrev other : UdpAddr
other = record { ip = 1 ∷ 2 ∷ 3 ∷ 4 ∷ []; port = pos 9 }

abbrev calls : List Call
calls = learned other ∷ seen 5 other ∷ []

addrs-run_example :
    (out : List UdpAddr) × (addrs (run sample_net calls (new_peer_registry sample_net specs))
      ≡ some out)
    × (length out ≡ length (run sample_net calls (new_peer_registry sample_net specs)).order)
addrs-run_example = addrs-run sample_net specs calls
