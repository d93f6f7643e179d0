-- ===== src/Datagram.antt =====
-- udpDatagramWriter and runUDPSearch of ed2ksrv/udp_search.go: search results in UDP datagrams.
pub mod Packing
mod Runs
use goed2k_server.Base.{
  ℕ, ◌+◌, ◌/◌, ◌≤◌, ◌<◌, Bool, true, false, not, ◌&&◌, List, [], ◌∷◌, ◌++◌, Option, none, some,
  length, take, ltb, ◌==◌, if◌then◌else◌,
}
use goed2k_server.Base.Int.{ℤ, pos, negsuc}
use goed2k_server.Base.Text.{Bytes}
use goed2k_server.Protocol.{SharedFileEntry}

-- `sent` holds the datagrams that were handed to writeUDP, in order.
pub record DatagramWriter : Type 0 where
  pub max : ℕ
  pub buf : Bytes
  pub sent : List Bytes

-- The configured payload size, or 1300 where that is 0 or less.
pub max_payload : ℤ → ℕ
max_payload (pos n) = if n == 0 then 1300 else n
max_payload (negsuc n) = 1300

pub new_udp_datagram_writer : ℤ → DatagramWriter
new_udp_datagram_writer configured = record { max = max_payload configured; buf = []; sent = [] }

pub flush : DatagramWriter → DatagramWriter
flush w = if length w.buf == 0 then w else record w { buf = []; sent = w.sent ++ (w.buf ∷ []) }

pub add : DatagramWriter → Bytes → DatagramWriter
add w block =
    let full = ltb 0 (length w.buf) && ltb w.max (length w.buf + length block) in
    let w' = if full then flush w else w in record w' { buf = w'.buf ++ block }

-- 0xE3, the protocol byte of every UDP packet, and OP_GLOBSEARCHRES.
abbrev pub ed2k_udp_header : ℕ
ed2k_udp_header = 0xe3

abbrev pub udp_op_glob_search_res : ℕ
udp_op_glob_search_res = 0x99

-- How many results go out: an eighth for the older clients, and one at least.
pub result_limit : ℤ → Bool → ℕ
result_limit (pos n) pack_many =
    let limit = if not pack_many && ltb 8 n then n / 8 else n in if ltb limit 1 then 1 else limit
result_limit (negsuc n) pack_many = 1

pub cap_results : ℕ → List SharedFileEntry → List SharedFileEntry
cap_results limit results = if ltb limit (length results) then take limit results else results

-- A result that failed to encode is skipped.
pub add_block : DatagramWriter → Option Bytes → DatagramWriter
add_block w none = w
add_block w (some b) = add w b

-- Put of SharedFileEntry is the dependency's: `none` where it fails, and that result is skipped.
module _ (put : SharedFileEntry → Option Bytes) where
  pub block : SharedFileEntry → Option Bytes
  block r = elim (put r) [
    | none ↦ none
    | some payload ↦ some (ed2k_udp_header ∷ udp_op_glob_search_res ∷ payload)
  ]

  pub add_results : DatagramWriter → List SharedFileEntry → DatagramWriter
  unfolding add_block
  add_results w [] = w
  add_results w (r ∷ rs) = add_results (add_block w (block r)) rs

  pub run_udp_search : ℤ → ℤ → Bool → List SharedFileEntry → List Bytes
  run_udp_search max_payload_bytes max_results pack_many results =
      (flush (
        add_results (new_udp_datagram_writer max_payload_bytes)
          (cap_results (result_limit max_results pack_many) results))).sent
