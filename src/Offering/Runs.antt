-- ===== src/Offering/Runs.antt =====
-- Runs of an announcement: two entries of a client that is logged in.
use goed2k_server.Base.{
  ◌≡◌, refl, true, List, [], ◌∷◌, ◌++◌, some, length, arith, All, is_some, ◌+◌, ◌%◌, ◌^◌,
}
use goed2k_server.Base.Int.{pos, to_int64}
use goed2k_server.Base.Maps.{lookup, insert}
use goed2k_server.Base.Tests.{text_eq, nat_eq}
use goed2k_server.Base.Text.{text, trim_space, trim_prefix}
use goed2k_server.Config.{Config, default_config}
use goed2k_server.Catalog.{Catalog, normalize_file_record}
use goed2k_server.Protocol.{SharedFileEntry, string_tag, uint32_tag}
use goed2k_server.Records.{FileRecord}
use goed2k_server.Samples.{ascii, sample_protocol, hash_one}
use goed2k_server.Dynamic.Sources.{source}
use goed2k_server.Server.{
  Server, ClientSession, find_client, allocate_client_id, update_session, handle_login,
}
use goed2k_server.Server.Invariant.{Holds, WellFormed}
use goed2k_server.Server.Logins.Again.{session_after}
use goed2k_server.Server.Steps.{new_session, Reachable-WellFormed}
use goed2k_server.Server.Runs.{logged_in, logged_in_steps, inet, cfg, connected, addr, req}
use goed2k_server.Wire.Samples.{sample_wire, sample_wire_laws}
use goed2k_server.Offering.{Offered, ok, err, ext, file_record_from_shared_entry}
use goed2k_server.Offering.Handler.{Status, handle_offer_files}
use goed2k_server.Offering.Outcome.{handle_offer_files-WellFormed, handle_offer_files-shares}
use goed2k_server.Offering.Packet.{get, put, bytes_count}
use goed2k_server.Offering.RoundTrip.{get-put_batch, EntryFits}
use goed2k_server.Offering.Valid.{Acceptable, file_record_from_shared_entry-Acceptable}
use goed2k_server.Offering.Samples.{
  entries_over, sample_entries, sample_entries-EntryLaws, sample_addresses,
}

abbrev film : SharedFileEntry
film = record {
  hash = hash_one;
  tags = string_tag 1 (text " a.b.AVI ") ∷ uint32_tag 2 5 ∷ uint32_tag 3 1 ∷ [];
  client_id = 0xfbfbfbfb;
  port = 0xfbfb;
}

abbrev song : SharedFileEntry
song = record {
  hash = text "b";
  tags = string_tag 1 (text "song") ∷ uint32_tag 2 9 ∷ uint32_tag 4 1 ∷ [];
  client_id = 7;
  port = 4662;
}

abbrev announced : List SharedFileEntry
announced = film ∷ song ∷ []

last_extension : ext (text "dir.x/a.b.AVI") ≡ text ".AVI"
unfolding ext
last_extension = refl

no_extension : ext (text "dir.x/a") ≡ []
unfolding ext
no_extension = refl

abbrev film_record : FileRecord
film_record = record {
  hash = hash_one;
  name = text "a.b.AVI";
  size = pos 4294967301;
  file_type = text "Video";
  extension = text "avi";
  media_codec = [];
  media_length = pos 0;
  media_bitrate = pos 0;
  sources = pos 0;
  complete_sources = pos 0;
  endpoints = [];
}

film_accepted :
    file_record_from_shared_entry sample_protocol ascii sample_entries film ≡ ok film_record
unfolding file_record_from_shared_entry normalize_file_record trim_space trim_prefix to_int64
    entries_over
film_accepted = refl

abbrev client : ClientSession
client = session_after inet sample_protocol connected (new_session addr) req

client_holds : Holds sample_protocol logged_in 77 1 client
unfolding find_client connected logged_in lookup insert update_session handle_login
client_holds = (refl, refl, refl)

abbrev empty_catalog : Catalog
empty_catalog = record { files = []; by_hash = []; tri_index = [] }

abbrev uncapped : Config
uncapped = record default_config { max_offered_files_per_client = pos 0 }

abbrev value_or : Server × Status → Offered (Server × Status) → Server × Status
value_or d (ok x) = x
value_or d (err e) = d

abbrev announcing : Offered (Server × Status)
announcing =
    handle_offer_files sample_protocol ascii sample_entries sample_addresses uncapped empty_catalog
      client announced logged_in

abbrev outcome : Server × Status
outcome = value_or (logged_in, record { users_count = 0; files_count = 0 }) announcing

is_taken : announcing ≡ ok outcome
unfolding handle_offer_files file_record_from_shared_entry normalize_file_record trim_space to_int64
    allocate_client_id lookup connected update_session entries_over
is_taken = refl

file_record_from_shared_entry-Acceptable_example : Acceptable sample_protocol film film_record
file_record_from_shared_entry-Acceptable_example =
    file_record_from_shared_entry-Acceptable sample_protocol ascii sample_entries film film_record
      film_accepted

handle_offer_files-WellFormed_example :
    WellFormed sample_protocol outcome.0
    × (outcome.0.clients ≡ logged_in.clients)
    × (outcome.1.users_count ≡ length logged_in.clients % 2 ^ 32)
    × (outcome.1.files_count ≡ (0 + length outcome.0.dynamic_files) % 2 ^ 32)
handle_offer_files-WellFormed_example =
    handle_offer_files-WellFormed sample_protocol ascii sample_entries sample_addresses uncapped
      empty_catalog client announced logged_in outcome.0 outcome.1
      (Reachable-WellFormed inet sample_protocol cfg logged_in logged_in_steps) is_taken

handle_offer_files-shares_example :
    All (λ e. is_some (source outcome.0.dynamic_files e.hash 77) ≡ true) announced
unfolding connected allocate_client_id lookup update_session
handle_offer_files-shares_example =
    handle_offer_files-shares sample_protocol ascii sample_entries sample_addresses uncapped
      empty_catalog 1 client announced logged_in outcome.0 outcome.1 client_holds refl refl is_taken

-- Entries of the wire format, with a hash of sixteen bytes.
abbrev wire_film : SharedFileEntry
wire_film = record film { hash = text "0123456789abcdef" }

abbrev wire_song : SharedFileEntry
wire_song = record song { hash = text "fedcba9876543210" }

abbrev on_wire : List SharedFileEntry
on_wire = wire_film ∷ wire_song ∷ []

on_wire-EntryFits : All EntryFits on_wire
on_wire-EntryFits = ground arith

get-put_batch_example :
    (get sample_wire sample_entries (put sample_wire sample_entries on_wire [] ++ (7 ∷ []))
      ≡ some (on_wire, 7 ∷ []))
    × (length (put sample_wire sample_entries on_wire [])
        ≡ bytes_count sample_wire sample_entries on_wire)
get-put_batch_example =
    get-put_batch sample_wire sample_entries sample_wire_laws sample_entries-EntryLaws on_wire
      (7 ∷ []) (omega arith) on_wire-EntryFits
