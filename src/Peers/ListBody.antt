-- ===== src/Peers/ListBody.antt =====
-- What a reader of the server list gets back.
use goed2k_server.Base.{
  ℕ, zero, suc, ◌+◌, ◌*◌, ◌/◌, ◌%◌, ◌<◌, ◌≡◌, refl, sym, ap, ◌∙◌, List, [], ◌∷◌, ◌++◌, Option, none,
  some, length, ltb, if◌then◌else◌, take, All, arith, Option-cases, inl, inr, length-append,
  All-append, append_nil, append_assoc,
}
use goed2k_server.Base.Int.{ℤ, pos, negsuc}
use goed2k_server.Base.Tests.{some_injective, guarded_some, none_not_some}
use goed2k_server.Base.Text.{Bytes}
use goed2k_server.Peers.{
  Ipv4, UdpAddr, Net, ListBuilder, bytes_of, append_entry, append_peers, append_self, peer_entry,
  valid_port, parse_v4, split_spec, build_server_list_body, parse_entries, parse_server_list_body,
}

-- The entries of the configured peers that are valid, in order.
pub peer_entries : Net → List Bytes → List (Ipv4 × ℕ)
peer_entries net [] = []
peer_entries net (spec ∷ specs) =
    let rest = peer_entries net specs in
    elim (peer_entry net spec) [ none ↦ rest | some entry ↦ entry ∷ rest ]

abbrev self_entry : Option Ipv4 → ℕ → List (Ipv4 × ℕ)
self_entry none port = []
self_entry (some v4) port = (v4, port) ∷ []

-- The servers that the list should name: this one, and the valid peers.
pub servers : Net → Bytes → ℕ → List Bytes → List (Ipv4 × ℕ)
servers net self port peers = self_entry (net.to4 self) port ++ peer_entries net peers

-- The addresses of the servers whose port is not 0.
pub addresses : List (Ipv4 × ℕ) → List UdpAddr
addresses [] = []
addresses ((v4, port) ∷ rest) =
    let more = addresses rest in
    if ltb 0 port then record { ip = bytes_of v4; port = pos port } ∷ more else more

encode : List (Ipv4 × ℕ) → Bytes
encode [] = []
encode ((ip, port) ∷ rest) = ip.a ∷ ip.b ∷ ip.c ∷ ip.d ∷ port % 256 ∷ port / 256 % 256 ∷ encode rest

abbrev IsPort : Ipv4 × ℕ → Type 0
IsPort e = e.1 < 65536

parse_entries-encode :
    (n : ℕ) (es : List (Ipv4 × ℕ))
    → All IsPort es
    → parse_entries n (encode es) ≡ addresses (take n es)
unfolding parse_entries encode addresses
parse_entries-encode zero [] h = refl
parse_entries-encode zero (e ∷ es) h = refl
parse_entries-encode (suc n) [] h = refl
parse_entries-encode (suc n) ((ip, port) ∷ es) h =
    let whole : port % 256 + 256 * (port / 256 % 256) ≡ port = omega (arith, h.0) in
    rw (whole) (rw (parse_entries-encode n es h.1) refl)

append_peers-body :
    (net : Net) (specs : List Bytes) (w : ListBuilder)
    → ((append_peers net specs w).body ≡ w.body ++ encode (peer_entries net specs))
      × ((append_peers net specs w).count ≡ w.count + length (peer_entries net specs))
unfolding append_peers peer_entries encode append_entry
append_peers-body net [] w = (sym (append_nil w.body), omega arith)
append_peers-body net (spec ∷ specs) w = elim (Option-cases (peer_entry net spec)) [
  | inl e ↦ rw (e, append_peers, peer_entries) (append_peers-body net specs w)
  | inr (entry, e) ↦
      let rest = append_peers-body net specs (append_entry entry.0 entry.1 w) in
      rw (e, append_peers, peer_entries) (rest.0 ∙ append_assoc w.body _ _, rest.1 ∙ omega arith)
]

valid_port-IsPort : (o : Option ℤ) (n : ℕ) → valid_port o ≡ some n → n < 65536
unfolding valid_port
valid_port-IsPort none n h = ground (arith, h)
valid_port-IsPort (some (negsuc k)) n h = ground (arith, h)
valid_port-IsPort (some (pos k)) n h = ground (arith, h)

peer_entry-IsPort :
    (net : Net) (spec : Bytes) (e : Ipv4 × ℕ) → peer_entry net spec ≡ some e → IsPort e
unfolding peer_entry
peer_entry-IsPort net spec e h = elim (Option-cases (split_spec net spec)) [
  | inl q ↦
      let no : peer_entry net spec ≡ none = rw (q, peer_entry) refl in
      absurd (none_not_some (sym no ∙ h))
  | inr (parts, q) ↦ elim (Option-cases (parse_v4 net parts.0)) [
    | inl r ↦
        let no : peer_entry net spec ≡ none = rw (q, peer_entry) (rw (r, peer_entry) refl) in
        absurd (none_not_some (sym no ∙ h))
    | inr (v4, r) ↦ elim (Option-cases (valid_port (net.atoi parts.1))) [
      | inl t ↦
          let no : peer_entry net spec ≡ none =
            rw (q, peer_entry) (rw (r, peer_entry) (rw (t, peer_entry) refl)) in
          absurd (none_not_some (sym no ∙ h))
      | inr (port, t) ↦
          let yes : peer_entry net spec ≡ some (v4, port) =
            rw (q, peer_entry) (rw (r, peer_entry) (rw (t, peer_entry) refl)) in
          let port_is = ap (λ x. x.1) (some_injective _ _ (sym yes ∙ h)) in
          omega (arith, valid_port-IsPort (net.atoi parts.1) port t, port_is)
    ]
  ]
]

peer_entries-IsPort : (net : Net) (specs : List Bytes) → All IsPort (peer_entries net specs)
unfolding peer_entries
peer_entries-IsPort net [] = tt
peer_entries-IsPort net (spec ∷ specs) = elim (Option-cases (peer_entry net spec)) [
  | inl e ↦ rw (e, peer_entries) (peer_entries-IsPort net specs)
  | inr (entry, e) ↦
      rw (e, peer_entries) (peer_entry-IsPort net spec entry e, peer_entries-IsPort net specs)
]

self_entry-IsPort : (o : Option Ipv4) (port : ℕ) → port < 65536 → All IsPort (self_entry o port)
self_entry-IsPort none port h = tt
self_entry-IsPort (some v4) port h = (h, tt)

append_self-body :
    (net : Net) (o : Option Ipv4) (port : ℕ)
    → ((append_self net o port (record { body = []; count = 0 })).body ≡ encode (self_entry o port))
      × ((append_self net o port (record { body = []; count = 0 })).count
          ≡ length (self_entry o port))
unfolding append_self append_entry encode
append_self-body net none port = (refl, refl)
append_self-body net (some v4) port = (refl, refl)

encode-append : (xs ys : List (Ipv4 × ℕ)) → encode xs ++ encode ys ≡ encode (xs ++ ys)
unfolding encode
encode-append [] ys = refl
encode-append (x ∷ xs) ys = rw (encode-append xs ys) refl

-- The reader of a server list gets the addresses of the servers it should name, in order, but only
-- of the first `n mod 256` of `n` servers, and not of one whose port is 0.
pub parse-build_server_list_body :
    (net : Net) (self : Bytes) (self_port : ℕ) (peers : List Bytes) (body : Bytes)
    → self_port < 65536
    → build_server_list_body net self self_port peers ≡ some body
    → parse_server_list_body body
      ≡ addresses (
          take (length (servers net self self_port peers) % 256) (servers net self self_port peers))
unfolding build_server_list_body parse_server_list_body servers
parse-build_server_list_body net self self_port peers body b h =
    let first = append_self-body net (net.to4 self) self_port in
    let w = append_self net (net.to4 self) self_port (record { body = []; count = 0 }) in
    let all = append_peers-body net peers w in
    let count =
      all.1
      ∙ ap (λ n. n + length (peer_entries net peers)) first.1
      ∙ sym (length-append (self_entry (net.to4 self) self_port) (peer_entries net peers)) in
    let bytes =
      all.0
      ∙ ap (λ x. x ++ encode (peer_entries net peers)) first.0
      ∙ encode-append (self_entry (net.to4 self) self_port) (peer_entries net peers) in
    let ports =
      All-append IsPort (self_entry (net.to4 self) self_port) (peer_entries net peers)
        (self_entry-IsPort (net.to4 self) self_port b) (peer_entries-IsPort net peers) in
    let (some_entry, same) = guarded_some _ _ _ h in
    ap parse_server_list_body (sym (some_injective _ _ same))
    ∙ ap (λ n. parse_entries (n % 256) (append_peers net peers w).body) count
    ∙ ap (parse_entries (length (servers net self self_port peers) % 256)) bytes
    ∙ parse_entries-encode (length (servers net self self_port peers) % 256)
        (servers net self self_port peers) ports
