-- ===== src/Dynamic.antt =====
-- The files that connected clients share, of ed2ksrv/server.go: addDynamicLocked,
-- removeDynamicLocked and materialize. A Go map is an association list; where the code walks over a
-- map, the list's order stands for the order that Go picks.
pub mod Sources
use goed2k_server.Base.{
  ℕ, suc, ◌+◌, ◌≡◌, Bool, true, false, List, [], ◌∷◌, Option, none, some, length, ◌==◌,
  if◌then◌else◌, map,
}
use goed2k_server.Base.Int.{ℤ, pos, is_positive, eqb_ℤ}
use goed2k_server.Base.Maps.{lookup, insert, delete}
use goed2k_server.Base.Tests.{text_eq, nat_eq}
use goed2k_server.Base.Text.{Bytes, ◌=text◌}
use goed2k_server.Protocol.{Protocol, Hash}
use goed2k_server.Records.{FileRecord, SourceEntry}

pub record DynamicSharedFile : Type 0 where
  pub file : FileRecord
  pub by_client : List (ℕ × SourceEntry)
  pub completes : List (ℕ × Bool)

-- dynamicFiles, by the hash's text.
abbrev pub DynamicFiles : Type 0
DynamicFiles = List (Bytes × DynamicSharedFile)

abbrev or_text : Bytes → Bytes → Bytes
or_text a b = if a =text [] then b else a

abbrev or_int : ℤ → ℤ → ℤ
or_int a b = if eqb_ℤ a (pos 0) then b else a

module _ (p : Protocol) where
  unfoldable pub merge_dynamic_file_record : FileRecord → FileRecord → FileRecord
  merge_dynamic_file_record dst src = if p.hash_is_zero dst.hash then src else record dst {
    name = or_text dst.name src.name;
    size = or_int dst.size src.size;
    file_type = or_text dst.file_type src.file_type;
    extension = or_text dst.extension src.extension;
    media_codec = or_text dst.media_codec src.media_codec;
    media_length = or_int dst.media_length src.media_length;
    media_bitrate = or_int dst.media_bitrate src.media_bitrate;
  }

  -- The entry of the file, or a new one.
  unfoldable pub shared_or_new : FileRecord → Option DynamicSharedFile → DynamicSharedFile
  shared_or_new r none = record { file = r; by_client = []; completes = [] }
  shared_or_new r (some shared) = shared

  -- The client's source, if the record came with one.
  unfoldable pub set_source : ℕ → List SourceEntry → List (ℕ × SourceEntry) → List (ℕ × SourceEntry)
  set_source client_id [] by_client = by_client
  set_source client_id (source ∷ rest) by_client = insert client_id source by_client

  unfoldable pub offer : ℕ → FileRecord → DynamicSharedFile → DynamicSharedFile
  unfolding merge_dynamic_file_record set_source
  offer client_id r shared = record {
    file = merge_dynamic_file_record shared.file (record r { endpoints = [] });
    by_client = set_source client_id r.endpoints shared.by_client;
    completes = insert client_id (is_positive r.complete_sources) shared.completes;
  }

  unfoldable pub add_dynamic : ℕ → FileRecord → DynamicFiles → DynamicFiles
  unfolding shared_or_new offer
  add_dynamic client_id r files =
      insert (p.hash_string r.hash)
        (offer client_id r (shared_or_new r (lookup (p.hash_string r.hash) files))) files

  unfoldable pub remove_dynamic : ℕ → Hash → DynamicFiles → DynamicFiles
  remove_dynamic client_id hash files = elim (lookup (p.hash_string hash) files) [
    | none ↦ files
    | some shared ↦
        let left = delete client_id shared.by_client in
        if length left == 0
        then delete (p.hash_string hash) files
        else insert (p.hash_string hash)
            (record shared { by_client = left; completes = delete client_id shared.completes })
            files
  ]

unfoldable pub count_complete : List (ℕ × Bool) → ℕ
count_complete [] = 0
count_complete ((c, complete) ∷ rest) = (if complete then 1 else 0) + count_complete rest

unfoldable pub materialize : DynamicSharedFile → FileRecord
unfolding count_complete
materialize d =
    let sources = length d.by_client in
    let complete = count_complete d.completes in
    record (d.file) {
      endpoints = map (λ e. e.1) d.by_client;
      sources = pos sources;
      complete_sources = pos (if complete == 0 then sources else complete);
    }
