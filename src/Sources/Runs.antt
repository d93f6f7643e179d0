-- ===== src/Sources/Runs.antt =====
-- Concrete runs: a LowID source, a HighID source found twice, and another HighID source.
use goed2k_server.Base.{ℕ, ◌≤◌, ◌≡◌, refl, true, false, List, [], ◌∷◌, none, length, arith}
use goed2k_server.Base.Int.{pos, negsuc}
use goed2k_server.Sources.{
  FoundSourceEntry, has_key, is_high_id, source_limit, dedup_loop, dedup, order_and_cap_sources,
}
use goed2k_server.Sources.Order.{HighFirst, order_and_cap_sources_shape}
use goed2k_server.Sources.Keys.{
  DistinctKeys, order_and_cap_sources_distinct, order_and_cap_sources_complete,
}
use goed2k_server.Base.Sort.{stable_sort}

abbrev source : ℕ → ℕ → FoundSourceEntry
source id port = record {
  client_id = id;
  port = pos port;
  obfuscation_options = 0;
  user_hash = none;
}

abbrev found : List FoundSourceEntry
found =
    source 5 4662 ∷ source 0x0100_007f 4662 ∷ source 0x0100_007f 4662 ∷ source 0x0200_007f 4661 ∷ []

found_ordered :
    order_and_cap_sources found (pos 2) ≡ source 0x0100_007f 4662 ∷ source 0x0200_007f 4661 ∷ []
unfolding order_and_cap_sources dedup dedup_loop has_key stable_sort is_high_id source_limit
found_ordered = refl

order_and_cap_sources_shape_example :
    (length (order_and_cap_sources found (pos 0)) ≤ source_limit (pos 0))
    × (source_limit (pos 0) ≤ 255)
    × HighFirst (order_and_cap_sources found (pos 0))
order_and_cap_sources_shape_example = order_and_cap_sources_shape found (pos 0)

order_and_cap_sources_distinct_example :
    DistinctKeys (order_and_cap_sources found (negsuc 0))
    × ((k : FoundSourceEntry)
        → has_key k found ≡ false
        → has_key k (order_and_cap_sources found (negsuc 0)) ≡ false)
order_and_cap_sources_distinct_example = order_and_cap_sources_distinct found (negsuc 0)

order_and_cap_sources_complete_example :
    has_key (source 5 4662) (order_and_cap_sources found (pos 10)) ≡ true
unfolding has_key
order_and_cap_sources_complete_example =
    order_and_cap_sources_complete found (pos 10) (source 5 4662)
      (unfold dedup dedup_loop has_key source_limit in omega arith)
