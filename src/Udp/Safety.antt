-- ===== src/Udp/Safety.antt =====
-- Whatever datagram comes in, the service goes on, and what it sends.
use goed2k_server.Base.{
  ℕ, suc, ◌≤◌, ◌≡◌, ◌⊎◌, refl, sym, ap, ◌∙◌, Bool, true, false, not, List, [], ◌∷◌, Option, some,
  length, map, arith, Bool-cases, Option-cases, inl, inr, length-append, if◌then◌else◌, ◌==◌,
}
use mathlib.Core.Path.{subst}
use goed2k_server.Base.Int.{ℤ, pos, ltb_ℤ}
use goed2k_server.Base.Tests.{ltb→lt}
use goed2k_server.Base.Text.{Bytes}
use goed2k_server.Catalog.{Catalog}
use goed2k_server.Config.{Config}
use goed2k_server.Datagram.{ed2k_udp_header}
use goed2k_server.Limiter.{allow}
use goed2k_server.Parser.{Parsed, ParseError, ok, err}
use goed2k_server.Parser.Request.{parse_search_request_limited}
use goed2k_server.Peers.{UdpAddr, PeerRegistry, mark_seen, add, addrs, parse_server_list_body}
use goed2k_server.Peers.Registry.{Listed, mark_seen-Listed, add-Listed, addrs_of_known}
use goed2k_server.Server.{Server}
use goed2k_server.Udp.State.{UdpState, UdpSearchJob, datagram, Handled}
use goed2k_server.Udp.Replies.{build_udp_server_list_reply}
use goed2k_server.Udp.Search.{
  search_tree, udp_op_glob_search_req, enqueue, queue_search, handle_udp_search_request,
}
use goed2k_server.Udp.GetSources.{answer, start_asking, handle_udp_get_sources}
use goed2k_server.Udp.Callback.{handle_udp_callback}
use goed2k_server.Udp.Rounds.{TakesSixteen, ask_rounds-total}
use goed2k_server.Udp.Relay.{to_sender, AllAnswer, handle_udp_callback-Keeps}
use goed2k_server.Udp.Dispatch.{
  Library, replied, learn, handle_stat_request, handle_list_request, handle_list_reply,
  dispatch_opcode, dispatch_udp, serve_udp,
}

Parsed-cases {ℓ} :
    {A : Type ℓ} (m : Parsed A) → ((a : A) × (m ≡ ok a)) ⊎ ((e : ParseError) × (m ≡ err e))
Parsed-cases (ok a) = inl (a, refl)
Parsed-cases (err e) = inr (e, refl)

-- Each key of the peers' order has an entry, and the queue is within its capacity.
pub record Sound (cfg : Config) (st : UdpState) : Type 0 where
  pub listed : Listed st.peers
  pub queued : (n : ℕ) → (cfg.udp).search_queue_size ≡ pos n → length st.search_queue ≤ n

module _ (lib : Library) (cfg : Config) (c : Catalog) (s : Server) (addr : UdpAddr) where
  -- The state is sound, and what is sent goes to the sender or calls it back.
  pub record Proper (h : Handled) : Type 0 where
    pub sound : Sound cfg h.state
    pub answers : AllAnswer lib.net lib.ip_string s addr h.sent

  abbrev pub Lands : Option Handled → Type 0
  Lands o = (h : Handled) × (o ≡ some h) × Proper h

  Lands-if : (b : Bool) {x y : Option Handled} → Lands x → Lands y → Lands (if b then x else y)
  Lands-if true hx hy = hx
  Lands-if false hx hy = hy

  Proper-if : (b : Bool) {x y : Handled} → Proper x → Proper y → Proper (if b then x else y)
  Proper-if true hx hy = hx
  Proper-if false hx hy = hy

  lands : {h : Handled} → Proper h → Lands (some h)
  lands {h} p = (h, refl, p)

  quiet :
      {st : UdpState} {b : Bool}
      → Sound cfg st
      → Proper (record { state = st; sent = []; is_ok = b })
  quiet good = record { sound = good; answers = tt }

  one_reply :
      {st : UdpState} (reply : Bytes)
      → Sound cfg st
      → Proper (replied st (datagram addr reply ∷ []))
  one_reply reply good = record { sound = good; answers = (to_sender, tt) }

  with_peers :
      {st : UdpState} {r : PeerRegistry}
      → Sound cfg st
      → Listed r
      → Sound cfg (record st { peers = r })
  with_peers good h = record { listed = h; queued = good.queued }

  all_to_sender :
      (replies : List Bytes) → AllAnswer lib.net lib.ip_string s addr (map (datagram addr) replies)
  all_to_sender [] = tt
  all_to_sender (r ∷ rs) = (to_sender, all_to_sender rs)

  learn-Listed :
      (known : List UdpAddr) (r : PeerRegistry) → Listed r → Listed (learn lib.net known r)
  unfolding learn
  learn-Listed [] r h = h
  learn-Listed (a ∷ known) r h = learn-Listed known (add lib.net a r).1 (add-Listed lib.net a r h)

  handle_list_reply-Proper :
      (now : ℕ) (body : Bytes) (st : UdpState)
      → Sound cfg st
      → Proper (handle_list_reply lib cfg c s now addr body st)
  unfolding handle_list_reply
  handle_list_reply-Proper now body st good =
      let seen = mark_seen-Listed lib.net now addr st.peers good.listed in
      Proper-if (mark_seen lib.net now addr st.peers).0
        (quiet (with_peers good (learn-Listed (parse_server_list_body body) _ seen)))
        (quiet (with_peers good seen))

  handle_list_request-Lands :
      (st : UdpState) → Sound cfg st → Lands (handle_list_request lib cfg c s addr st)
  unfolding handle_list_request build_udp_server_list_reply addrs
  handle_list_request-Lands st good =
      let (known, got, len) = addrs_of_known st.peers.peers st.peers.order good.listed in
      rw (got, handle_list_request, build_udp_server_list_reply) (lands (one_reply _ good))

  handle_stat_request-Proper :
      (body : Bytes) (st : UdpState)
      → Sound cfg st
      → Proper (handle_stat_request lib cfg c s addr body st)
  unfolding handle_stat_request
  handle_stat_request-Proper (a ∷ b ∷ d ∷ e ∷ rest) st good = one_reply _ good
  handle_stat_request-Proper [] st good = quiet good
  handle_stat_request-Proper (a ∷ []) st good = quiet good
  handle_stat_request-Proper (a ∷ b ∷ []) st good = quiet good
  handle_stat_request-Proper (a ∷ b ∷ d ∷ []) st good = quiet good

  enqueue-Sound :
      (size : ℤ) (job : UdpSearchJob) (st : UdpState)
      → (cfg.udp).search_queue_size ≡ size
      → Sound cfg st
      → Sound cfg (enqueue size job st)
  unfolding enqueue
  enqueue-Sound size job st same good =
      elim (Bool-cases (ltb_ℤ (pos (length st.search_queue)) size)) [
        | inr b ↦ rw (b) good
        | inl b ↦ rw (b) (record {
          listed = good.listed;
          queued = λ n e.
              let room = ap (ltb_ℤ (pos (length st.search_queue))) (sym same ∙ e) in
              let free = ltb→lt (length st.search_queue) n (sym room ∙ b) in
              omega (arith, free, length-append st.search_queue (job ∷ []));
        })
      ]

  queue_search-Proper :
      (pack_many : Bool) (tree : Bytes) (st : UdpState)
      → Sound cfg st
      → Proper (
          queue_search lib.protocol lib.tables lib.wire lib.atoi lib.skip_ed2k_tag cfg addr
            pack_many tree st)
  unfolding queue_search
  queue_search-Proper pack_many tree st good =
      elim (Parsed-cases (
        parse_search_request_limited lib.protocol lib.tables lib.wire lib.atoi tree
          (cfg.udp).max_ast_depth)) [
            | inr (e, q) ↦ rw (q, queue_search) (quiet good)
            | inl (query, q) ↦
                rw (q, queue_search)
                  (quiet (
                    enqueue-Sound (cfg.udp).search_queue_size
                      (record { addr = addr; query = query; pack_many = pack_many }) st refl good))
          ]

  handle_udp_search_request-Proper :
      (opcode : ℕ) (body : Bytes) (st : UdpState)
      → Sound cfg st
      → Proper (
          handle_udp_search_request lib.protocol lib.tables lib.wire lib.atoi lib.skip_ed2k_tag cfg
            addr opcode body st)
  unfolding handle_udp_search_request
  handle_udp_search_request-Proper opcode body st good =
      Proper-if (not (cfg.udp).search_enabled) (quiet good)
        (elim (Option-cases (search_tree lib.skip_ed2k_tag opcode body)) [
          | inl e ↦ rw (e, handle_udp_search_request) (quiet good)
          | inr (tree, e) ↦
              rw (e, handle_udp_search_request)
                (queue_search-Proper (not (opcode == udp_op_glob_search_req)) tree st good)
        ])

  handle_udp_get_sources-Lands :
      (body : Bytes) (with_size : Bool) (st : UdpState)
      → TakesSixteen lib.read_hash
      → Sound cfg st
      → Lands (
          handle_udp_get_sources lib.protocol lib.hash_from_string lib.read_hash lib.put_found cfg c
            s addr body with_size st)
  unfolding handle_udp_get_sources answer
  handle_udp_get_sources-Lands body with_size st law good =
      Lands-if (not (cfg.udp).sources_enabled) (lands (quiet good)) (
        let (asked, got) =
          ask_rounds-total lib.protocol lib.hash_from_string lib.read_hash lib.put_found cfg c s
            (suc (length body)) with_size body
            (start_asking lib.protocol lib.hash_from_string lib.read_hash lib.put_found cfg c s) law
            (omega arith) in
        rw (got, handle_udp_get_sources)
          (lands (record { sound = good; answers = all_to_sender _ })))

  handle_udp_callback-Proper :
      (now : ℕ) (body : Bytes) (st : UdpState)
      → Sound cfg st
      → Proper (handle_udp_callback lib.net lib.ip_string now addr s body st)
  handle_udp_callback-Proper now body st good =
      let (sent, peers, queue) =
        handle_udp_callback-Keeps lib.net lib.ip_string s addr now body st in
      record {
        sound = record {
          listed = subst Listed (sym peers) good.listed;
          queued = λ n e. omega (arith, good.queued n e, ap length queue);
        };
        answers = sent;
      }

  dispatch_opcode-Lands :
      (now opcode : ℕ) (body : Bytes) (st : UdpState)
      → TakesSixteen lib.read_hash
      → Sound cfg st
      → Lands (dispatch_opcode lib cfg c s now addr opcode body st)
  unfolding dispatch_opcode
  dispatch_opcode-Lands now opcode body st law good =
      Lands-if _ (lands (handle_stat_request-Proper body st good)) (
        Lands-if _ (lands (handle_udp_search_request-Proper opcode body st good)) (
          Lands-if _ (handle_udp_get_sources-Lands body false st law good) (
            Lands-if _ (handle_udp_get_sources-Lands body true st law good) (
              Lands-if _ (lands (one_reply _ good)) (
                Lands-if _ (lands (handle_udp_callback-Proper now body st good)) (
                  Lands-if _
                    (lands (
                      quiet
                        (with_peers good (mark_seen-Listed lib.net now addr st.peers good.listed))))
                    (Lands-if _ (handle_list_request-Lands st good) (
                      Lands-if _ (lands (handle_list_reply-Proper now body st good))
                        (lands (quiet good))))))))))

  -- Whatever datagram comes in, in a state where each key of the peers' order has an entry and the
  -- search queue is within its capacity, the service neither dereferences nil nor runs out of the
  -- model's rounds, if ReadHash takes sixteen bytes; the next state is of that kind again; and all
  -- that is sent goes back to the sender's address, or asks a registered client to call the
  -- sender's own IPv4 address.
  pub serve_udp-Lands :
      (now : ℕ) (packet : Bytes) (st : UdpState)
      → TakesSixteen lib.read_hash
      → Sound cfg st
      → Lands (serve_udp lib cfg c s now addr packet st)
  unfolding serve_udp dispatch_udp
  serve_udp-Lands now [] st law good = lands (quiet good)
  serve_udp-Lands now (header ∷ []) st law good = lands (quiet good)
  serve_udp-Lands now (header ∷ opcode ∷ body) st law good =
      let asked = allow now (lib.ip_string addr.ip) st.udp_limiter in
      let after : UdpState = record st { udp_limiter = asked.1 } in
      let still : Sound cfg after = record { listed = good.listed; queued = good.queued } in
      Lands-if (header == ed2k_udp_header)
        (Lands-if asked.0 (dispatch_opcode-Lands now opcode body after law still)
          (lands (quiet still)))
        (lands (quiet good))
