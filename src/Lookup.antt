-- ===== src/Lookup.antt =====
-- Where ed2ksrv/server.go looks for the sources of a file and for the files of a search: the
-- catalog and the files of connected clients. sourcesAll, searchAll, handleGetSources and its
-- answers.
pub mod Found
pub mod Runs
use goed2k_server.Base.{
  ℕ, ◌+◌, ◌/◌, ◌%◌, ◌^◌, Bool, true, false, List, [], ◌∷◌, ◌++◌, Option, none, some, length, ◌==◌,
  ◌||◌, if◌then◌else◌, is_some,
}
use goed2k_server.Base.Int.{ℤ}
use goed2k_server.Base.Maps.{lookup}
use goed2k_server.Base.Tests.{text_eq, nat_eq}
use goed2k_server.Base.Text.{Bytes, ◌=text◌, trim_space, CaseTables}
use goed2k_server.Catalog.{Catalog, low_word, make_shared_file_entry}
use goed2k_server.Config.{Config}
use goed2k_server.Dynamic.{DynamicFiles, DynamicSharedFile, materialize}
use goed2k_server.Protocol.{Protocol, Hash, Endpoint, SharedFileEntry}
use goed2k_server.Records.{FileRecord, SourceEntry}
use goed2k_server.Search.{SearchQuery, matches_record}
use goed2k_server.Server.{Server, ClientSession, find_client}
use goed2k_server.Sources.{FoundSourceEntry, order_and_cap_sources}
use goed2k_server.Wire.{Wire}

-- `options | sourceObfuscationUserHashFlag`, the highest bit of a byte.
unfoldable pub with_user_hash_flag : ℕ → ℕ
with_user_hash_flag options = if options / 0x80 % 2 == 1 then options else options + 0x80

-- An entry with the endpoint's address and nothing on obfuscation.
abbrev pub plain_source : Endpoint → FoundSourceEntry
plain_source e = record {
  client_id = e.ip;
  port = e.port;
  obfuscation_options = 0;
  user_hash = none;
}

module _ (p : Protocol) where
  unfoldable pub source_obfuscation_metadata : ClientSession → ℕ × Option Hash
  unfolding with_user_hash_flag
  source_obfuscation_metadata client =
      if client.connect_options == 0 || p.hash_is_zero client.client_hash
      then (client.connect_options, none)
      else (with_user_hash_flag client.connect_options, some client.client_hash)

  -- protocol.HashFromString is the dependency's.
  module _ (hash_from_string : Bytes → Option Hash) where
    unfoldable pub parse_source_user_hash : Bytes → Option Hash
    parse_source_user_hash value =
        if trim_space value =text [] then none else hash_from_string (trim_space value)

    unfoldable pub catalog_source : Bool → SourceEntry → Endpoint → FoundSourceEntry
    unfolding parse_source_user_hash with_user_hash_flag
    catalog_source false source e = plain_source e
    catalog_source true source e = elim (parse_source_user_hash source.user_hash) [
      | none ↦ record (plain_source e) { obfuscation_options = source.obfuscation_options }
      | some hash ↦ record (plain_source e) {
        obfuscation_options = with_user_hash_flag source.obfuscation_options;
        user_hash = some hash;
      }
    ]

    -- The loop over the endpoints of a catalog record; one that does not parse is left out.
    unfoldable pub catalog_sources : Bool → List SourceEntry → List FoundSourceEntry
    unfolding catalog_source
    catalog_sources obfuscated [] = []
    catalog_sources obfuscated (source ∷ sources) =
        let rest = catalog_sources obfuscated sources in
        elim (p.endpoint_from_string source.host source.port) [
          | none ↦ rest
          | some e ↦ catalog_source obfuscated source e ∷ rest
        ]

  unfoldable pub client_source : Bool → Option ClientSession → Endpoint → FoundSourceEntry
  unfolding source_obfuscation_metadata
  client_source true (some client) e = record (plain_source e) {
    obfuscation_options = (source_obfuscation_metadata client).0;
    user_hash = (source_obfuscation_metadata client).1;
  }
  client_source _ _ e = plain_source e

  -- s.clients[clientID], none where it is nil.
  unfoldable pub session_of : Server → ℕ → Option ClientSession
  session_of s client_id = elim (find_client s client_id) [
    | none ↦ none
    | some ref ↦ lookup ref s.sessions
  ]

  -- The loop over the clients that share the file.
  unfoldable pub client_sources : Server → Bool → List (ℕ × SourceEntry) → List FoundSourceEntry
  unfolding client_source session_of
  client_sources s obfuscated [] = []
  client_sources s obfuscated ((client_id, source) ∷ sources) =
      let rest = client_sources s obfuscated sources in
      elim (p.endpoint_from_string source.host source.port) [
        | none ↦ rest
        | some e ↦ client_source obfuscated (session_of s client_id) e ∷ rest
      ]

  abbrev pub endpoints_of : Option FileRecord → List SourceEntry
  endpoints_of none = []
  endpoints_of (some r) = r.endpoints

  abbrev pub by_client_of : Option DynamicSharedFile → List (ℕ × SourceEntry)
  by_client_of none = []
  by_client_of (some shared) = shared.by_client

  unfoldable pub sources_all :
      (Bytes → Option Hash) → Catalog → Server → Hash → Bool → List FoundSourceEntry
  unfolding catalog_sources client_sources
  sources_all hash_from_string c s hash obfuscated =
      catalog_sources hash_from_string obfuscated
        (endpoints_of (lookup (p.hash_string hash) c.by_hash))
      ++ client_sources s obfuscated (by_client_of (lookup (p.hash_string hash) s.dynamic_files))

  -- The loop of searchAll over the clients' files.
  unfoldable pub search_dynamic : CaseTables → SearchQuery → DynamicFiles → List SharedFileEntry
  search_dynamic u q [] = []
  search_dynamic u q ((key, shared) ∷ files) =
      let rest = search_dynamic u q files in
      if matches_record p u (materialize shared) q
      then make_shared_file_entry p (materialize shared) ∷ rest
      else rest

  -- `found` is what the catalog's Search gives.
  unfoldable pub search_all :
      CaseTables → List SharedFileEntry → Server → SearchQuery → List SharedFileEntry
  unfolding search_dynamic
  search_all u found s q = found ++ search_dynamic u q s.dynamic_files

-- protocol.WriteHash is the dependency's.
module _ (wire : Wire) (write_hash : Hash → Bytes) where
  unfoldable pub obfuscated_source : FoundSourceEntry → Bytes
  unfolding low_word
  obfuscated_source source =
      (wire.write_uint32 source.client_id ++ wire.write_uint16 (low_word source.port % 2 ^ 16))
      ++ (source.obfuscation_options ∷ elim source.user_hash [ none ↦ [] | some hash ↦ hash ])

  unfoldable pub obfuscated_sources : List FoundSourceEntry → Bytes
  unfolding obfuscated_source
  obfuscated_sources [] = []
  obfuscated_sources (s ∷ ss) = obfuscated_source s ++ obfuscated_sources ss

  -- The body of OP_FOUNDSOURCES_OBFU.
  unfoldable pub found_sources_obfuscated : Hash → List FoundSourceEntry → Bytes
  unfolding obfuscated_sources
  found_sources_obfuscated hash sources =
      write_hash hash ++ (length sources % 2 ^ 8 ∷ obfuscated_sources sources)

-- The answer to a source request.
pub data SourceReply : Type 0 where
  found_file_sources : Hash → List Endpoint → SourceReply
  found_sources_obfu : Bytes → SourceReply

unfoldable pub endpoints_found : List FoundSourceEntry → List Endpoint
endpoints_found [] = []
endpoints_found (s ∷ ss) = record { ip = s.client_id; port = s.port } ∷ endpoints_found ss

module _ (p : Protocol) (hash_from_string : Bytes → Option Hash) where
  unfoldable pub reply_sources : Config → Catalog → Server → Hash → Bool → List FoundSourceEntry
  unfolding sources_all
  reply_sources cfg c s hash obfuscated =
      order_and_cap_sources (sources_all p hash_from_string c s hash obfuscated)
        cfg.max_sources_per_reply

  unfoldable pub handle_get_sources :
      Wire → (Hash → Bytes) → Config → Catalog → Server → Hash → Bool → SourceReply
  unfolding reply_sources endpoints_found found_sources_obfuscated
  handle_get_sources wire write_hash cfg c s hash obfuscated =
      let sources = reply_sources cfg c s hash obfuscated in
      if obfuscated
      then found_sources_obfu (found_sources_obfuscated wire write_hash hash sources)
      else found_file_sources hash (endpoints_found sources)
