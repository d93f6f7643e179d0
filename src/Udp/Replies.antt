-- ===== src/Udp/Replies.antt =====
-- The three replies of ed2ksrv/server_udp.go that need no parsing.
use goed2k_server.Base.{ℕ, ◌+◌, ◌/◌, ◌%◌, List, [], ◌∷◌, ◌++◌, Option, none, some, length}
use goed2k_server.Base.Text.{Bytes}
use goed2k_server.Catalog.{Catalog, low_word}
use goed2k_server.Config.{Config}
use goed2k_server.Datagram.{ed2k_udp_header}
use goed2k_server.Peers.{Net, UdpAddr, PeerRegistry, ListBuilder, append_entry, addrs}
use goed2k_server.Server.{Server}
use goed2k_server.Udp.State.{put_uint32}

abbrev pub op_glob_serv_stat_req : ℕ
op_glob_serv_stat_req = 0x96

abbrev pub op_glob_serv_stat_res : ℕ
op_glob_serv_stat_res = 0x97

abbrev pub udp_op_server_desc_res : ℕ
udp_op_server_desc_res = 0xa3

abbrev pub udp_op_server_list_res : ℕ
udp_op_server_list_res = 0xa1

unfoldable pub build_glob_serv_stat_res : Config → Catalog → Server → ℕ → Bytes
unfolding low_word
build_glob_serv_stat_res cfg c s challenge =
    ed2k_udp_header ∷ op_glob_serv_stat_res ∷ put_uint32 challenge
    ++ (put_uint32 (length s.clients)
        ++ (put_uint32 (length c.files + length s.dynamic_files)
            ++ (put_uint32 cfg.max_users_advertised
                ++ (put_uint32 (low_word cfg.soft_files_limit)
                    ++ put_uint32 (low_word cfg.hard_files_limit)))))

-- A length below 2^16 in two bytes, and the text; the length wraps around.
abbrev with_length : Bytes → Bytes
with_length s = length s % 256 ∷ length s / 256 % 256 ∷ s

unfoldable pub build_server_desc_res : Config → Bytes
build_server_desc_res cfg =
    ed2k_udp_header ∷ udp_op_server_desc_res ∷ with_length cfg.server_name
    ++ with_length cfg.server_description

module _ (net : Net) where
  -- The loop over the peers' addresses; one that is not IPv4 is left out.
  unfoldable pub append_addrs : List UdpAddr → ListBuilder → ListBuilder
  unfolding append_entry low_word
  append_addrs [] w = w
  append_addrs (a ∷ rest) w = elim (net.to4 a.ip) [
    | none ↦ append_addrs rest w
    | some v4 ↦ append_addrs rest (append_entry v4 (low_word a.port) w)
  ]

  abbrev list_reply : ListBuilder → Bytes
  list_reply w = ed2k_udp_header ∷ udp_op_server_list_res ∷ w.count % 256 ∷ w.body

  -- `none` is a nil dereference in addrs.
  unfoldable pub build_udp_server_list_reply : PeerRegistry → Option Bytes
  unfolding append_addrs
  build_udp_server_list_reply r = elim (addrs r) [
    | none ↦ none
    | some known ↦ some (list_reply (append_addrs known (record { body = []; count = 0 })))
  ]
