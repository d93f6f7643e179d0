-- ===== src/Peers.antt =====
-- The peer servers: the registry and the server list of ed2ksrv/peer_registry.go, and
-- buildServerListBody of ed2ksrv/server.go. A nil registry, which the methods also accept, is not
-- modelled, and a time is a number.
pub mod ListBody
pub mod Registry
pub mod Runs
use goed2k_server.Base.{
  ℕ, zero, suc, ◌+◌, ◌*◌, ◌/◌, ◌%◌, Bool, true, false, ◌&&◌, ◌||◌, not, List, [], ◌∷◌, ◌++◌, Option,
  none, some, length, ◌==◌, ltb, if◌then◌else◌,
}
use goed2k_server.Base.Int.{ℤ, pos, negsuc, is_positive}
use goed2k_server.Base.Maps.{lookup, insert}
use goed2k_server.Base.Tests.{text_eq}
use goed2k_server.Base.Text.{Bytes, trim_space}

-- The four bytes that To4 gives.
pub record Ipv4 : Type 0 where
  pub a : ℕ
  pub b : ℕ
  pub c : ℕ
  pub d : ℕ

-- net.UDPAddr. An address from To4 is its four bytes.
pub record UdpAddr : Type 0 where
  pub ip : Bytes
  pub port : ℤ

abbrev pub bytes_of : Ipv4 → Bytes
bytes_of ip = ip.a ∷ ip.b ∷ ip.c ∷ ip.d ∷ []

-- The functions of packages net and strconv that the code calls.
pub record Net : Type 0 where
  pub split_host_port : Bytes → Option (Bytes × Bytes)
  pub join_host_port : Bytes → Bytes → Bytes
  pub parse_ip : Bytes → Option Bytes
  pub to4 : Bytes → Option Ipv4
  pub atoi : Bytes → Option ℤ
  pub addr_string : UdpAddr → Bytes

-- A port that the checks let through.
unfoldable pub valid_port : Option ℤ → Option ℕ
valid_port none = none
valid_port (some (negsuc n)) = none
valid_port (some (pos n)) = if n == 0 || ltb 65535 n then none else some n

-- The body and the count that the closure appendEntry writes.
pub record ListBuilder : Type 0 where
  pub body : Bytes
  pub count : ℕ

unfoldable pub append_entry : Ipv4 → ℕ → ListBuilder → ListBuilder
append_entry ip port w = record {
  body = w.body ++ (ip.a ∷ ip.b ∷ ip.c ∷ ip.d ∷ port % 256 ∷ port / 256 % 256 ∷ []);
  count = suc w.count;
}

module _ (net : Net) where
  -- The host and the port of a specification.
  unfoldable pub split_spec : Bytes → Option (Bytes × Bytes)
  unfolding trim_space
  split_spec spec = net.split_host_port (trim_space spec)

  -- net.ParseIP(host).To4(), where To4 of nil is nil.
  unfoldable pub parse_v4 : Bytes → Option Ipv4
  parse_v4 host = elim (net.parse_ip host) [ none ↦ none | some ip ↦ net.to4 ip ]

  -- The entry of a configured peer, if it is valid.
  unfoldable pub peer_entry : Bytes → Option (Ipv4 × ℕ)
  unfolding split_spec parse_v4 valid_port
  peer_entry spec = elim (split_spec spec) [
    | none ↦ none
    | some parts ↦ elim (parse_v4 parts.0) [
      | none ↦ none
      | some v4 ↦ elim (valid_port (net.atoi parts.1)) [ none ↦ none | some port ↦ some (v4, port) ]
    ]
  ]

  unfoldable pub append_peers : List Bytes → ListBuilder → ListBuilder
  unfolding peer_entry append_entry
  append_peers [] w = w
  append_peers (spec ∷ specs) w = elim (peer_entry spec) [
    | none ↦ append_peers specs w
    | some entry ↦ append_peers specs (append_entry entry.0 entry.1 w)
  ]

  unfoldable pub append_self : Option Ipv4 → ℕ → ListBuilder → ListBuilder
  unfolding append_entry
  append_self none port w = w
  append_self (some v4) port w = append_entry v4 port w

  unfoldable pub build_server_list_body : Bytes → ℕ → List Bytes → Option Bytes
  unfolding append_self append_peers
  build_server_list_body self self_port peers =
      let w =
        append_peers peers
          (append_self (net.to4 self) self_port (record { body = []; count = 0 })) in
      if w.count == 0 then none else some (w.count % 256 ∷ w.body)

-- The loop of parseServerListBody over what follows the count.
unfoldable pub parse_entries : ℕ → Bytes → List UdpAddr
parse_entries zero rest = []
parse_entries (suc n) (a ∷ b ∷ c ∷ d ∷ lo ∷ hi ∷ rest) =
    let more = parse_entries n rest in
    let port = lo + 256 * hi in
    if ltb 0 port then record { ip = a ∷ b ∷ c ∷ d ∷ []; port = pos port } ∷ more else more
parse_entries (suc n) _ = []

unfoldable pub parse_server_list_body : Bytes → List UdpAddr
unfolding parse_entries
parse_server_list_body [] = []
parse_server_list_body (count ∷ rest) = parse_entries count rest

pub record PeerState : Type 0 where
  pub addr : UdpAddr
  pub last_seen : ℕ

pub record PeerRegistry : Type 0 where
  pub peers : List (Bytes × PeerState)
  pub order : List Bytes

-- A new peer under a key that is not known.
unfoldable pub enter : Bytes → UdpAddr → PeerRegistry → PeerRegistry
enter key addr r = record {
  peers = insert key (record { addr = addr; last_seen = 0 }) r.peers;
  order = r.order ++ (key ∷ []);
}

module _ (net : Net) where
  -- The key and the address of a configured peer, if it is valid.
  unfoldable pub configured : Bytes → Option (Bytes × UdpAddr)
  unfolding split_spec valid_port
  configured spec = elim (split_spec net spec) [
    | none ↦ none
    | some parts ↦ elim (net.parse_ip parts.0) [
      | none ↦ none
      | some ip ↦ elim (valid_port (net.atoi parts.1)) [
        | none ↦ none
        | some port ↦ some (net.join_host_port parts.0 parts.1, record { ip = ip; port = pos port })
      ]
    ]
  ]

  unfoldable pub enter_new : Bytes → UdpAddr → PeerRegistry → Bool × PeerRegistry
  unfolding enter
  enter_new key addr r = elim (lookup key r.peers) [
    | none ↦ (true, enter key addr r)
    | some known ↦ (false, r)
  ]

  unfoldable pub enter_specs : List Bytes → PeerRegistry → PeerRegistry
  unfolding configured enter_new
  enter_specs [] r = r
  enter_specs (spec ∷ specs) r = elim (configured spec) [
    | none ↦ enter_specs specs r
    | some peer ↦ enter_specs specs (enter_new peer.0 peer.1 r).1
  ]

  unfoldable pub new_peer_registry : List Bytes → PeerRegistry
  unfolding enter_specs
  new_peer_registry specs = enter_specs specs (record { peers = []; order = [] })

  -- At the time `now`.
  unfoldable pub mark_seen : ℕ → UdpAddr → PeerRegistry → Bool × PeerRegistry
  mark_seen now addr r = elim (lookup (net.addr_string addr) r.peers) [
    | none ↦ (false, r)
    | some p ↦ (
      true,
      record r { peers = insert (net.addr_string addr) (record p { last_seen = now }) r.peers },
    )
  ]

  unfoldable pub add : UdpAddr → PeerRegistry → Bool × PeerRegistry
  unfolding enter_new
  add addr r = elim (net.to4 addr.ip) [
    | none ↦ (false, r)
    | some v4 ↦
        if is_positive addr.port
        then enter_new (net.addr_string addr) (record { ip = bytes_of v4; port = addr.port }) r
        else (false, r)
  ]

-- addrs dereferences the entry of each key in the order: `none` is a nil dereference.
unfoldable pub addrs_of : List (Bytes × PeerState) → List Bytes → Option (List UdpAddr)
addrs_of peers [] = some []
addrs_of peers (key ∷ order) = elim (lookup key peers) [
  | none ↦ none
  | some p ↦ elim (addrs_of peers order) [ none ↦ none | some rest ↦ some (p.addr ∷ rest) ]
]

unfoldable pub addrs : PeerRegistry → Option (List UdpAddr)
unfolding addrs_of
addrs r = addrs_of r.peers r.order
