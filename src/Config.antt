-- ===== src/Config.antt =====
-- Config, UDPConfig, their defaults and Normalize of ed2ksrv/config.go. LoadConfig reads a file and
-- is not modelled. A Go int or int32 is an integer, a uint32 a number.
pub mod Bounds
pub mod Runs
use goed2k_server.Base.{
  ℕ, Bool, true, false, List, [], ◌∷◌, ◌≡◌, refl, if◌then◌else◌, not, ◌||◌, Option, none, some,
}
use goed2k_server.Base.Int.{ℤ, pos, is_positive, eqb_ℤ, ltb_ℤ}
use goed2k_server.Base.Text.{Bytes, text, ◌=text◌, trim_space, CaseTables}

pub record UdpConfig : Type 0 where
  pub search_enabled : Bool
  pub sources_enabled : Bool
  pub max_payload_bytes : ℤ
  pub max_results : ℤ
  pub search_workers : ℤ
  pub search_queue_size : ℤ
  pub per_ip_packets_per_second : ℤ
  pub max_ast_depth : ℤ

pub record Config : Type 0 where
  pub listen_address : Bytes
  pub admin_listen_address : Bytes
  pub admin_token : Bytes
  pub server_name : Bytes
  pub server_description : Bytes
  pub message : Bytes
  pub storage_backend : Bytes
  pub catalog_path : Bytes
  pub database_dsn : Bytes
  pub database_table : Bytes
  pub search_batch_size : ℤ
  pub max_sources_per_reply : ℤ
  pub max_conns_per_ip_per_second : ℤ
  pub max_offered_files_per_client : ℤ
  pub max_callbacks_per_ip_per_second : ℤ
  pub peer_servers : List Bytes
  pub max_tcp_search_results : ℤ
  pub tcp_flags : ℤ
  pub aux_port : ℤ
  pub protocol_obfuscation : Bool
  pub server_udp : Bool
  pub udp_port_offset : ℤ
  pub soft_files_limit : ℤ
  pub hard_files_limit : ℤ
  pub max_users_advertised : ℕ
  pub udp : UdpConfig
  pub packet_trace : Bool
  pub packet_trace_path : Bytes
  pub packet_trace_max_bytes : ℤ

abbrev pub storage_backend_json : Bytes
storage_backend_json = text "json"

abbrev pub storage_backend_my_sql : Bytes
storage_backend_my_sql = text "mysql"

abbrev pub storage_backend_pg_sql : Bytes
storage_backend_pg_sql = text "pgsql"

abbrev pub default_udp_config : UdpConfig
default_udp_config = record {
  search_enabled = true;
  sources_enabled = true;
  max_payload_bytes = pos 1300;
  max_results = pos 200;
  search_workers = pos 4;
  search_queue_size = pos 1024;
  per_ip_packets_per_second = pos 20;
  max_ast_depth = pos 24;
}

abbrev pub default_config : Config
default_config = record {
  listen_address = text ":4661";
  admin_listen_address = text ":8080";
  admin_token = [];
  server_name = text "goed2k-server";
  server_description = text "Minimal eD2k/eMule compatible server";
  message = text "Welcome to goed2k-server";
  storage_backend = storage_backend_json;
  catalog_path = text "catalog.json";
  database_dsn = [];
  database_table = text "shared_files";
  search_batch_size = pos 200;
  max_sources_per_reply = pos 0;
  max_conns_per_ip_per_second = pos 0;
  max_offered_files_per_client = pos 0;
  max_callbacks_per_ip_per_second = pos 0;
  peer_servers = [];
  max_tcp_search_results = pos 0;
  tcp_flags = pos 0;
  aux_port = pos 0;
  protocol_obfuscation = true;
  server_udp = true;
  udp_port_offset = pos 4;
  soft_files_limit = pos 5000;
  hard_files_limit = pos 200000;
  max_users_advertised = 500000;
  udp = default_udp_config;
  packet_trace = false;
  packet_trace_path = [];
  packet_trace_max_bytes = pos 64;
}

-- The three errors of Normalize.
pub data ConfigError : Type 0 where
  catalog_path_required : ConfigError
  database_dsn_required : Bytes → ConfigError
  unsupported_backend : Bytes → ConfigError

pub data Normalized : Type 0 where
  normalized : Config → Normalized
  refused : ConfigError → Normalized

abbrev pub or_default : Bytes → Bytes → Bytes
or_default s d = if s =text [] then d else s

-- A number that is not positive gives way to the default.
abbrev pub positive_or : ℤ → ℤ → ℤ
positive_or n d = if is_positive n then n else d

abbrev pub source_cap : ℤ → ℤ
source_cap n = if not (is_positive n) || ltb_ℤ (pos 255) n then pos 255 else n

abbrev pub zero_or : ℤ → ℤ → ℤ
zero_or n d = if eqb_ℤ n (pos 0) then d else n

unfoldable pub normalize_udp : UdpConfig → UdpConfig
normalize_udp c = record c {
  max_payload_bytes = positive_or c.max_payload_bytes (pos 1300);
  max_results = positive_or c.max_results (pos 200);
  search_workers = positive_or c.search_workers (pos 4);
  search_queue_size = positive_or c.search_queue_size (pos 1024);
  per_ip_packets_per_second = positive_or c.per_ip_packets_per_second (pos 20);
  max_ast_depth = positive_or c.max_ast_depth (pos 24);
}

-- The assignments before the storage backend is looked at.
unfoldable pub fill_defaults : Config → Config
unfolding normalize_udp
fill_defaults c = record c {
  listen_address = or_default c.listen_address (text ":4661");
  admin_listen_address = or_default c.admin_listen_address (text ":8080");
  server_name = or_default c.server_name (text "goed2k-server");
  server_description =
      or_default c.server_description (text "Minimal eD2k/eMule compatible server");
  search_batch_size = positive_or c.search_batch_size (pos 200);
  max_sources_per_reply = source_cap c.max_sources_per_reply;
  udp_port_offset = zero_or c.udp_port_offset (pos 4);
  soft_files_limit = positive_or c.soft_files_limit (pos 5000);
  hard_files_limit = positive_or c.hard_files_limit (pos 200000);
  udp = normalize_udp c.udp;
  packet_trace_max_bytes = positive_or c.packet_trace_max_bytes (pos 64);
}

module _ (case_tables : CaseTables) where
  unfoldable pub backend_of : Bytes → Bytes
  unfolding trim_space
  backend_of s = case_tables.to_lower (trim_space (or_default s storage_backend_json))

  -- The switch on the storage backend.
  unfoldable pub check_backend : Config → Normalized
  check_backend c =
      if c.storage_backend =text storage_backend_json
      then (if c.catalog_path =text [] then refused catalog_path_required else normalized c)
      else (if c.storage_backend =text storage_backend_my_sql
            || c.storage_backend =text storage_backend_pg_sql
          then (if c.database_dsn =text []
              then refused (database_dsn_required c.storage_backend)
              else normalized c)
          else refused (unsupported_backend c.storage_backend))

  unfoldable pub normalize : Config → Normalized
  unfolding fill_defaults backend_of check_backend
  normalize c =
      check_backend (record (fill_defaults c) { storage_backend = backend_of c.storage_backend })
