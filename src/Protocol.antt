-- ===== src/Protocol.antt =====
-- The types of github.com/monkeyWie/goed2k that the server's code names, and that module's
-- functions as a parameter: the module is a dependency, so its code is not in this repository.
use goed2k_server.Base.{ℕ, Bool, true, ◌≡◌, ◌↔◌, List, Option}
use goed2k_server.Base.Text.{Bytes}
use goed2k_server.Base.Int.{ℤ}

-- protocol.Hash, by the bytes that its method Bytes gives.
abbrev pub Hash : Type 0
Hash = Bytes

-- protocol.Endpoint: `ip` is the bit pattern of the int32 that its method IP gives.
pub record Endpoint : Type 0 where
  pub ip : ℕ
  pub port : ℤ

-- protocol.SimpleTag, by its two constructors that the server calls.
pub data Tag : Type 0 where
  string_tag : ℕ → Bytes → Tag
  uint32_tag : ℕ → ℕ → Tag

-- serverproto.SharedFileEntry: `client_id` is the bit pattern of an int32, `port` a uint16.
pub record SharedFileEntry : Type 0 where
  pub hash : Hash
  pub tags : List Tag
  pub client_id : ℕ
  pub port : ℕ

-- The tag numbers protocol.FT*.
pub record TagIds : Type 0 where
  pub filename : ℕ
  pub file_size : ℕ
  pub file_size_hi : ℕ
  pub file_type : ℕ
  pub file_format : ℕ
  pub sources : ℕ
  pub complete_sources : ℕ
  pub media_codec : ℕ
  pub media_length : ℕ
  pub media_bitrate : ℕ

-- The functions on hashes and endpoints.
pub record Protocol : Type 0 where
  pub hash_string : Hash → Bytes
  pub hash_is_zero : Hash → Bool
  pub hash_equal : Hash → Hash → Bool
  pub endpoint_from_string : Bytes → ℤ → Option Endpoint
  pub ft : TagIds

-- What the catalog relies on: Equal decides equality, and String gives each hash a text of its own.
pub record HashLaws (p : Protocol) : Type 0 where
  pub equal_iff : (a b : Hash) → (p.hash_equal a b ≡ true) ↔ (a ≡ b)
  pub string_injective : (a b : Hash) → p.hash_string a ≡ p.hash_string b → a ≡ b
