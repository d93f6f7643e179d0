-- ===== src/Udp/GetSources.antt =====
-- handleUDPGetSources of ed2ksrv/udp_search.go: the sources of the files that a datagram names.
use goed2k_server.Base.{
  ℕ, zero, suc, Bool, true, false, not, ◌&&◌, List, [], ◌∷◌, Option, none, some, length, ◌==◌, leb,
  drop, map, if◌then◌else◌,
}
use goed2k_server.Base.Text.{Bytes}
use goed2k_server.Catalog.{Catalog}
use goed2k_server.Config.{Config}
use goed2k_server.Datagram.{
  DatagramWriter, new_udp_datagram_writer, flush, add_block, ed2k_udp_header,
}
use goed2k_server.Lookup.{reply_sources, endpoints_found}
use goed2k_server.Peers.{UdpAddr}
use goed2k_server.Protocol.{Protocol, Hash, Endpoint}
use goed2k_server.Server.{Server}
use goed2k_server.Sources.{FoundSourceEntry}
use goed2k_server.Udp.State.{UdpState, datagram, Handled}

abbrev pub udp_op_glob_found_sources : ℕ
udp_op_glob_found_sources = 0x9b

-- The size after a hash: four bytes, and eight more where those are 0. Its value is not used.
unfoldable pub skip_size : Bytes → Option Bytes
skip_size (a ∷ b ∷ c ∷ d ∷ rest) =
    if (a == 0) && (b == 0) && (c == 0) && (d == 0)
    then (if leb 8 (length rest) then some (drop 8 rest) else none)
    else some rest
skip_size _ = none

unfoldable pub skip_size_if : Bool → Bytes → Option Bytes
unfolding skip_size
skip_size_if true src = skip_size src
skip_size_if false src = some src

-- What the loop leaves: the writer, how many files were asked for, and whether all could be read.
pub record Asked : Type 0 where
  pub writer : DatagramWriter
  pub requested : ℕ
  pub all_read : Bool

-- ReadHash, and Put of FoundFileSources, are the dependency's.
module _ (p : Protocol) (hash_from_string : Bytes → Option Hash)
    (read_hash : Bytes → Option (Hash × Bytes)) (put_found : Hash → List Endpoint → Option Bytes)
    (cfg : Config) (c : Catalog) (s : Server) where
  abbrev pub found_block : Hash → List FoundSourceEntry → Option Bytes
  found_block hash sources = elim (put_found hash (endpoints_found sources)) [
    | none ↦ none
    | some payload ↦ some (ed2k_udp_header ∷ udp_op_glob_found_sources ∷ payload)
  ]

  -- A file without sources is left out of the reply.
  unfoldable pub add_sources : Hash → DatagramWriter → DatagramWriter
  add_sources hash w =
      let sources = reply_sources p hash_from_string cfg c s hash false in
      if length sources == 0 then w else add_block w (found_block hash sources)

  -- The loop, `none` where the rounds are used up.
  unfoldable pub ask_rounds : ℕ → Bool → Bytes → Asked → Option Asked
  unfolding skip_size_if add_sources
  ask_rounds zero with_size src asked = none
  ask_rounds (suc n) with_size src asked =
      if not (leb 16 (length src)) then some asked else elim (read_hash src) [
        | none ↦ some (record asked { all_read = false })
        | some (hash, src1) ↦ elim (skip_size_if with_size src1) [
          | none ↦ some (record asked { all_read = false })
          | some src2 ↦ ask_rounds n with_size src2 (record asked {
            writer = add_sources hash asked.writer;
            requested = suc asked.requested;
          })
        ]
      ]

  unfoldable pub start_asking : Asked
  start_asking = record {
    writer = new_udp_datagram_writer (cfg.udp).max_payload_bytes;
    requested = 0;
    all_read = true;
  }

  -- What had been sent before a file that could not be read stays sent.
  unfoldable pub answer : UdpAddr → Asked → UdpState → Handled
  answer addr asked st =
      let w = if asked.all_read then flush asked.writer else asked.writer in
      record {
        state = st;
        sent = map (datagram addr) w.sent;
        is_ok = asked.all_read && not (asked.requested == 0);
      }

  -- A round takes a byte at least, so as many rounds as there are bytes and one more are enough.
  unfoldable pub handle_udp_get_sources : UdpAddr → Bytes → Bool → UdpState → Option Handled
  unfolding ask_rounds start_asking answer
  handle_udp_get_sources addr body with_size st =
      if not (cfg.udp).sources_enabled
      then some (record { state = st; sent = []; is_ok = true })
      else elim (ask_rounds (suc (length body)) with_size body start_asking) [
        | none ↦ none
        | some asked ↦ some (answer addr asked st)
      ]
