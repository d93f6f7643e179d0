-- ===== src/Records.antt =====
-- FileRecord and SourceEntry of ed2ksrv/catalog.go.
use goed2k_server.Base.{ℕ, List}
use goed2k_server.Base.Text.{Bytes}
use goed2k_server.Base.Int.{ℤ}
use goed2k_server.Protocol.{Hash}

pub record SourceEntry : Type 0 where
  pub host : Bytes
  pub port : ℤ
  pub obfuscation_options : ℕ
  pub user_hash : Bytes

-- The integers are Go's int64 and int.
pub record FileRecord : Type 0 where
  pub hash : Hash
  pub name : Bytes
  pub size : ℤ
  pub file_type : Bytes
  pub extension : Bytes
  pub media_codec : Bytes
  pub media_length : ℤ
  pub media_bitrate : ℤ
  pub sources : ℤ
  pub complete_sources : ℤ
  pub endpoints : List SourceEntry
