-- ===== src/Samples.antt =====
-- Concrete functions for the parameters of the model, and records for the runs. The hash of a
-- sample is its own text, an endpoint parses if its host is not empty, and letters are ASCII.
use goed2k_server.Base.{ℕ, ◌+◌, ◌&&◌, List, [], ◌∷◌, map, Option, none, some, if◌then◌else◌, leb}
use goed2k_server.Base.Int.{ℤ, pos}
use goed2k_server.Base.Tests.{list_beq_iff, nat_eq}
use goed2k_server.Base.Text.{Bytes, text, ◌=text◌, CaseTables}
use goed2k_server.Protocol.{Protocol, HashLaws, TagIds, Endpoint}
use goed2k_server.Records.{FileRecord}

abbrev lower : ℕ → ℕ
lower c = if leb b'A' c && leb c b'Z' then c + 32 else c

abbrev pub ascii : CaseTables
ascii = record { to_lower = map lower; equal_fold = λ a b. map lower a =text map lower b }

abbrev pub tag_ids : TagIds
tag_ids = record {
  filename = 1;
  file_size = 2;
  file_size_hi = 3;
  file_type = 4;
  file_format = 5;
  sources = 6;
  complete_sources = 7;
  media_codec = 8;
  media_length = 9;
  media_bitrate = 10;
}

abbrev parse_endpoint : Bytes → ℤ → Option Endpoint
parse_endpoint [] port = none
parse_endpoint (c ∷ host) port = some (record { ip = c; port = port })

abbrev pub sample_protocol : Protocol
sample_protocol = record {
  hash_string = λ h. h;
  hash_is_zero = λ h. h =text [];
  hash_equal = λ a b. a =text b;
  endpoint_from_string = parse_endpoint;
  ft = tag_ids;
}

pub sample_laws : HashLaws sample_protocol
sample_laws = record { equal_iff = λ a b. list_beq_iff nat_eq a b; string_injective = λ a b e. e }

abbrev pub file : Bytes → Bytes → FileRecord
file hash name = record {
  hash = hash;
  name = name;
  size = pos 7;
  file_type = [];
  extension = [];
  media_codec = [];
  media_length = pos 0;
  media_bitrate = pos 0;
  sources = pos 1;
  complete_sources = pos 1;
  endpoints = [];
}

abbrev pub hash_one : Bytes
hash_one = text "31d6cfe0d16ae931b73c59d7e0c089c0"

abbrev pub files : List FileRecord
files = file hash_one (text "Ubuntu.iso") ∷ file (text "b") (text "demo-track.flac") ∷ []
