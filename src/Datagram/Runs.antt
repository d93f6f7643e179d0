-- ===== src/Datagram/Runs.antt =====
-- Concrete runs.
use goed2k_server.Base.{◌≡◌, refl, List, [], ◌∷◌, Option, some, true, take}
use goed2k_server.Base.Int.{pos}
use goed2k_server.Base.Text.{Bytes}
use goed2k_server.Protocol.{SharedFileEntry}
use goed2k_server.Datagram.{
  max_payload, result_limit, cap_results, block, add_results, flush, add, new_udp_datagram_writer,
  run_udp_search,
}
use goed2k_server.Datagram.Packing.{Packed, blocks_of, run_udp_search-Packed}

abbrev put_hash : SharedFileEntry → Option Bytes
put_hash r = some r.hash

abbrev entry : Bytes → SharedFileEntry
entry h = record { hash = h; tags = []; client_id = 0; port = 0 }

abbrev three : List SharedFileEntry
three = entry (1 ∷ []) ∷ entry (2 ∷ []) ∷ entry (3 ∷ 4 ∷ 5 ∷ 6 ∷ 7 ∷ []) ∷ []

-- Two blocks share a datagram of 6 bytes, and the third, which is longer, goes alone.
three_packed :
    run_udp_search put_hash (pos 6) (pos 200) true three
    ≡ (0xe3 ∷ 0x99 ∷ 1 ∷ 0xe3 ∷ 0x99 ∷ 2 ∷ []) ∷ (0xe3 ∷ 0x99 ∷ 3 ∷ 4 ∷ 5 ∷ 6 ∷ 7 ∷ []) ∷ []
unfolding run_udp_search new_udp_datagram_writer max_payload result_limit cap_results add_results
    add flush block
three_packed = refl

run_udp_search-Packed_example :
    Packed
      (max_payload (pos 6))
      (blocks_of put_hash (take (result_limit (pos 200) true) three))
      (run_udp_search put_hash (pos 6) (pos 200) true three)
run_udp_search-Packed_example = run_udp_search-Packed put_hash (pos 6) (pos 200) true three
