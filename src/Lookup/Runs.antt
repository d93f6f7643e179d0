-- ===== src/Lookup/Runs.antt =====
-- Runs of source requests: a client's source, and one of the catalog with a user hash.
use goed2k_server.Base.{◌≤◌, ◌≡◌, refl, true, [], ◌∷◌, Option, some, length, arith}
use goed2k_server.Base.Int.{pos}
use goed2k_server.Base.Maps.{lookup, insert}
use goed2k_server.Base.Text.{Bytes, text, trim_space}
use goed2k_server.Catalog.{Catalog}
use goed2k_server.Config.{Config, default_config}
use goed2k_server.Protocol.{Hash}
use goed2k_server.Records.{SourceEntry}
use goed2k_server.Samples.{sample_protocol, file, hash_one}
use goed2k_server.Dynamic.{add_dynamic}
use goed2k_server.Dynamic.Sources.{source}
use goed2k_server.Server.{handle_login, update_session, merge_client_offered_files}
use goed2k_server.Server.Runs.{offered, logged_in, connected, peer}
use goed2k_server.Sources.{FoundSourceEntry, has_key, dedup, dedup_loop, source_limit}
use goed2k_server.Lookup.{plain_source, sources_all, reply_sources, catalog_source}
use goed2k_server.Lookup.Found.{
  gives_file, reply_sources-gives, reply_sources_complete, reply_sources-source,
}

abbrev mirror : SourceEntry
mirror = record { host = text "m"; port = pos 2; obfuscation_options = 3; user_hash = text "u" }

abbrev mirrored : Catalog
mirrored = record {
  files = [];
  by_hash = (hash_one, record (file hash_one (text "a")) { endpoints = mirror ∷ [] }) ∷ [];
  tri_index = [];
}

abbrev hash_of : Bytes → Option Hash
hash_of s = some s

abbrev cfg : Config
cfg = record default_config { max_sources_per_reply = pos 2 }

abbrev peer_address : FoundSourceEntry
peer_address = plain_source (record { ip = b'h'; port = pos 1 })

mirror_flagged :
    catalog_source sample_protocol hash_of true mirror (record { ip = b'm'; port = pos 2 })
    ≡ record {
      client_id = b'm';
      port = pos 2;
      obfuscation_options = 0x83;
      user_hash = some (text "u");
    }
unfolding catalog_source trim_space
mirror_flagged = refl

room :
    length (dedup (sources_all sample_protocol hash_of mirrored offered hash_one true))
    ≤ source_limit cfg.max_sources_per_reply
unfolding dedup source_limit sources_all trim_space connected logged_in offered lookup insert
    update_session handle_login merge_client_offered_files add_dynamic dedup_loop has_key
room = omega arith

offer_is_there : source offered.dynamic_files hash_one 77 ≡ some peer
unfolding source connected logged_in offered lookup insert update_session handle_login
    merge_client_offered_files add_dynamic
offer_is_there = refl

reply_sources-source_example :
    has_key peer_address (reply_sources sample_protocol hash_of cfg mirrored offered hash_one true)
    ≡ true
reply_sources-source_example =
    reply_sources-source sample_protocol hash_of cfg mirrored offered hash_one true 77 peer
      (record { ip = b'h'; port = pos 1 }) offer_is_there refl room

reply_sources_complete_example :
    has_key peer_address (reply_sources sample_protocol hash_of cfg mirrored offered hash_one true)
    ≡ gives_file sample_protocol peer_address mirrored offered hash_one
reply_sources_complete_example =
    reply_sources_complete sample_protocol hash_of cfg mirrored offered hash_one true peer_address
      room

reply_sources-gives_example :
    (length (reply_sources sample_protocol hash_of cfg mirrored offered hash_one true)
      ≤ source_limit cfg.max_sources_per_reply)
    × (length (reply_sources sample_protocol hash_of cfg mirrored offered hash_one true) ≤ 255)
    × (gives_file sample_protocol peer_address mirrored offered hash_one ≡ true)
reply_sources-gives_example =
    reply_sources-gives sample_protocol hash_of cfg mirrored offered hash_one true peer_address
      reply_sources-source_example
