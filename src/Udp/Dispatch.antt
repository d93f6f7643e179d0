-- ===== src/Udp/Dispatch.antt =====
-- serveUDP and dispatchUDP of ed2ksrv/server_udp.go, and the search workers of
-- ed2ksrv/udp_search.go.
use goed2k_server.Base.{
  ℕ, true, false, List, [], ◌∷◌, Option, none, some, ◌==◌, ◌||◌, if◌then◌else◌, map,
}
use goed2k_server.Base.Int.{ℤ}
use goed2k_server.Base.Text.{Bytes, CaseTables}
use goed2k_server.Catalog.{Catalog}
use goed2k_server.Config.{Config}
use goed2k_server.Datagram.{ed2k_udp_header, run_udp_search}
use goed2k_server.Limiter.{allow}
use goed2k_server.Lookup.{search_all}
use goed2k_server.Peers.{Net, UdpAddr, PeerRegistry, mark_seen, add, parse_server_list_body}
use goed2k_server.Protocol.{Protocol, Hash, Endpoint, SharedFileEntry}
use goed2k_server.Server.{Server}
use goed2k_server.Wire.{Wire}
use goed2k_server.Udp.State.{UdpState, UdpSearchJob, Sent, datagram, Handled, uint32_of}
use goed2k_server.Udp.Replies.{
  op_glob_serv_stat_req, op_glob_serv_stat_res, udp_op_server_list_res, build_glob_serv_stat_res,
  build_server_desc_res, build_udp_server_list_reply,
}
use goed2k_server.Udp.Callback.{handle_udp_callback}
use goed2k_server.Udp.Search.{
  udp_op_glob_search_req, udp_op_glob_search_req2, udp_op_glob_search_req3,
  handle_udp_search_request,
}
use goed2k_server.Udp.GetSources.{handle_udp_get_sources}

-- What the handlers call of other packages.
pub record Library : Type 0 where
  pub protocol : Protocol
  pub tables : CaseTables
  pub wire : Wire
  pub net : Net
  pub atoi : Bytes → Option ℤ
  pub ip_string : Bytes → Bytes
  pub skip_ed2k_tag : Bytes → Option Bytes
  pub hash_from_string : Bytes → Option Hash
  pub read_hash : Bytes → Option (Hash × Bytes)
  pub put_found : Hash → List Endpoint → Option Bytes
  pub put_entry : SharedFileEntry → Option Bytes

abbrev pub replied : UdpState → List Sent → Handled
replied st sent = record { state = st; sent = sent; is_ok = true }

abbrev pub malformed : UdpState → Handled
malformed st = record { state = st; sent = []; is_ok = false }

unfoldable pub learn : Net → List UdpAddr → PeerRegistry → PeerRegistry
learn net [] r = r
learn net (a ∷ rest) r = learn net rest (add net a r).1

module _ (lib : Library) (cfg : Config) (c : Catalog) (s : Server) where
  unfoldable pub handle_stat_request : UdpAddr → Bytes → UdpState → Handled
  handle_stat_request addr (a ∷ b ∷ d ∷ e ∷ rest) st =
      replied st (datagram addr (build_glob_serv_stat_res cfg c s (uint32_of a b d e)) ∷ [])
  handle_stat_request addr _ st = malformed st

  unfoldable pub handle_list_request : UdpAddr → UdpState → Option Handled
  handle_list_request addr st = elim (build_udp_server_list_reply lib.net st.peers) [
    | none ↦ none
    | some reply ↦ some (replied st (datagram addr reply ∷ []))
  ]

  -- Only a server that is known teaches new ones.
  unfoldable pub handle_list_reply : ℕ → UdpAddr → Bytes → UdpState → Handled
  unfolding learn
  handle_list_reply now addr body st =
      let seen = mark_seen lib.net now addr st.peers in
      if seen.0
      then replied (record st { peers = learn lib.net (parse_server_list_body body) seen.1 }) []
      else replied (record st { peers = seen.1 }) []

  -- The switch on the opcode. `none` is a nil dereference, or a loop that the model cut short.
  unfoldable pub dispatch_opcode : ℕ → UdpAddr → ℕ → Bytes → UdpState → Option Handled
  unfolding handle_stat_request handle_list_request handle_list_reply
  dispatch_opcode now addr opcode body st =
      if opcode == op_glob_serv_stat_req
      then some (handle_stat_request addr body st)
      else if (opcode == udp_op_glob_search_req || opcode == udp_op_glob_search_req2)
          || opcode == udp_op_glob_search_req3
      then some (
          handle_udp_search_request lib.protocol lib.tables lib.wire lib.atoi lib.skip_ed2k_tag cfg
            addr opcode body st)
      else if opcode == 0x9a
      then handle_udp_get_sources lib.protocol lib.hash_from_string lib.read_hash lib.put_found cfg
          c s addr body false st
      else if opcode == 0x94
      then handle_udp_get_sources lib.protocol lib.hash_from_string lib.read_hash lib.put_found cfg
          c s addr body true st
      else if opcode == 0xa2
      then some (replied st (datagram addr (build_server_desc_res cfg) ∷ []))
      else if opcode == 0x9c
      then some (handle_udp_callback lib.net lib.ip_string now addr s body st)
      else if opcode == op_glob_serv_stat_res
      then some (replied (record st { peers = (mark_seen lib.net now addr st.peers).1 }) [])
      else if opcode == 0xa0 || opcode == 0xa4
      then handle_list_request addr st
      else if opcode == udp_op_server_list_res
      then some (handle_list_reply now addr body st)
      else some (malformed st)

  -- A datagram over the limit of its address is dropped.
  unfoldable pub dispatch_udp : ℕ → UdpAddr → ℕ → Bytes → UdpState → Option Handled
  unfolding dispatch_opcode
  dispatch_udp now addr opcode body st =
      let asked = allow now (lib.ip_string addr.ip) st.udp_limiter in
      let after = record st { udp_limiter = asked.1 } in
      let answered = dispatch_opcode now addr opcode body after in
      if asked.0 then answered else some (replied after [])

  -- A datagram without the protocol byte and an opcode is ignored.
  unfoldable pub serve_udp : ℕ → UdpAddr → Bytes → UdpState → Option Handled
  unfolding dispatch_udp
  serve_udp now addr (header ∷ opcode ∷ body) st =
      let answered = dispatch_udp now addr opcode body st in
      if header == ed2k_udp_header then answered else some (replied st [])
  serve_udp now addr _ st = some (replied st [])

  -- A worker takes the next job; `found` is what the catalog's Search gives for its query.
  unfoldable pub udp_search_worker : (UdpSearchJob → List SharedFileEntry) → UdpState → Handled
  udp_search_worker found st = elim (st.search_queue) [
    | [] ↦ replied st []
    | job ∷ jobs ↦
        let results = search_all lib.protocol lib.tables (found job) s job.query in
        replied (record st { search_queue = jobs })
          (map (datagram job.addr) (
            run_udp_search lib.put_entry (cfg.udp).max_payload_bytes (cfg.udp).max_results
              job.pack_many results))
  ]
