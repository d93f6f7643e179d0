-- ===== src/Udp/Search.antt =====
-- handleUDPSearchRequest of ed2ksrv/udp_search.go: a search is parsed and queued for the workers.
use goed2k_server.Base.{
  ℕ, zero, suc, Bool, true, false, not, [], ◌∷◌, ◌++◌, Option, none, some, length, ◌==◌,
  if◌then◌else◌,
}
use goed2k_server.Base.Int.{ℤ, pos, ltb_ℤ}
use goed2k_server.Base.Text.{Bytes, CaseTables}
use goed2k_server.Config.{Config}
use goed2k_server.Parser.{ok, err}
use goed2k_server.Parser.Request.{parse_search_request_limited}
use goed2k_server.Peers.{UdpAddr}
use goed2k_server.Protocol.{Protocol}
use goed2k_server.Wire.{Wire}
use goed2k_server.Udp.State.{UdpState, UdpSearchJob, Handled, uint32_of}

abbrev pub udp_op_glob_search_req3 : ℕ
udp_op_glob_search_req3 = 0x90

abbrev pub udp_op_glob_search_req2 : ℕ
udp_op_glob_search_req2 = 0x92

abbrev pub udp_op_glob_search_req : ℕ
udp_op_glob_search_req = 0x98

-- SimpleTag.Get is the dependency's: what it leaves of the bytes.
module _ (skip_ed2k_tag : Bytes → Option Bytes) where
  unfoldable pub skip_tags : ℕ → Bytes → Option Bytes
  skip_tags zero src = some src
  skip_tags (suc n) src = elim (skip_ed2k_tag src) [ none ↦ none | some rest ↦ skip_tags n rest ]

  -- The search tree of the body: REQ3 has a count of tags and the tags before it.
  unfoldable pub search_tree : ℕ → Bytes → Option Bytes
  unfolding skip_tags
  search_tree opcode (a ∷ b ∷ c ∷ d ∷ rest) =
      if opcode == udp_op_glob_search_req3
      then skip_tags (uint32_of a b c d) rest
      else some (a ∷ b ∷ c ∷ d ∷ rest)
  search_tree opcode body = if opcode == udp_op_glob_search_req3 then none else some body

-- The send on the channel, which drops the job when the buffer is full.
unfoldable pub enqueue : ℤ → UdpSearchJob → UdpState → UdpState
enqueue size job st =
    if ltb_ℤ (pos (length st.search_queue)) size
    then record st { search_queue = st.search_queue ++ (job ∷ []) }
    else st

module _ (p : Protocol) (u : CaseTables) (wire : Wire) (atoi : Bytes → Option ℤ)
    (skip_ed2k_tag : Bytes → Option Bytes) where
  unfoldable pub queue_search : Config → UdpAddr → Bool → Bytes → UdpState → Handled
  unfolding enqueue
  queue_search cfg addr pack_many tree st =
      elim (parse_search_request_limited p u wire atoi tree (cfg.udp).max_ast_depth) [
        | err e ↦ record { state = st; sent = []; is_ok = false }
        | ok query ↦ record {
          state =
              enqueue (cfg.udp).search_queue_size
                (record { addr = addr; query = query; pack_many = pack_many }) st;
          sent = [];
          is_ok = true;
        }
      ]

  unfoldable pub handle_udp_search_request : Config → UdpAddr → ℕ → Bytes → UdpState → Handled
  unfolding search_tree queue_search
  handle_udp_search_request cfg addr opcode body st =
      if not (cfg.udp).search_enabled
      then record { state = st; sent = []; is_ok = true }
      else elim (search_tree skip_ed2k_tag opcode body) [
        | none ↦ record { state = st; sent = []; is_ok = false }
        | some tree ↦ queue_search cfg addr (not (opcode == udp_op_glob_search_req)) tree st
      ]
