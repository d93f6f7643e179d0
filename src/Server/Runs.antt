-- ===== src/Server/Runs.antt =====
-- Runs of the registry: two clients, an offer, a second login.
use goed2k_server.Base.{
  ◌≡◌, refl, List, [], ◌∷◌, Option, none, some, length, ◌==◌, if◌then◌else◌, arith, ◌≤◌, ◌<◌, ◌+◌,
  sym, ◌∙◌, true,
}
use goed2k_server.Base.Int.{pos}
use goed2k_server.Base.Maps.{lookup, insert}
use goed2k_server.Base.Tests.{text_eq, nat_eq, none_not_some}
use goed2k_server.Base.Text.{text}
use goed2k_server.Config.{Config, default_config}
use goed2k_server.Protocol.{Endpoint}
use goed2k_server.Records.{FileRecord, SourceEntry}
use goed2k_server.Samples.{sample_protocol, file, hash_one}
use goed2k_server.Dynamic.{add_dynamic}
use goed2k_server.Dynamic.Sources.{source}
use goed2k_server.Server.{
  Server, ClientSession, TcpAddr, Login, Merge, find_client, update_session, handle_login,
  merge_client_offered_files, unregister_client, allocate_client_id, take_next, merge_records,
}
use goed2k_server.Server.Ids.{allocate_client_id-free}
use goed2k_server.Server.Invariant.{Holds, WellFormed}
use goed2k_server.Server.Departure.{unregister_client-leaves}
use goed2k_server.Server.Logins.Again.{session_after, login_again_leaves}
use goed2k_server.Server.Merging.{merge_records-total}
use goed2k_server.Server.Steps.Caps.{Reachable-capped_sources}
use goed2k_server.Server.Steps.Counter.{logins, Reachable-counter}
use goed2k_server.Lookup.{plain_source}
use goed2k_server.Sources.{is_high_id}
use goed2k_server.Server.Steps.{
  connect, login, offer, Reachable, start, then_step, new_server, new_session, Reachable-WellFormed,
}

abbrev pub inet : TcpAddr → Endpoint
inet a = record { ip = a.port; port = pos 0 }

abbrev pub addr : Option TcpAddr
addr = some (record { ip = some []; port = 77 })

abbrev pub req : Login
req = record { hash = []; point = record { ip = 0; port = pos 4662 }; name = text "a"; options = 0 }

abbrev pub cfg : Config
cfg = record default_config { max_offered_files_per_client = pos 1 }

abbrev pub peer : SourceEntry
peer = record { host = text "h"; port = pos 1; obfuscation_options = 0; user_hash = [] }

abbrev pub shared : FileRecord
shared = record (file hash_one (text "a.iso")) { endpoints = peer ∷ [] }

unfoldable pub connected : Server
connected = update_session 1 (new_session addr) new_server

unfoldable pub logged_in : Server
unfolding connected
logged_in = handle_login inet 1 (new_session addr) req connected

unfoldable pub offered : Server
unfolding logged_in
offered = merge_client_offered_files sample_protocol cfg 77 (shared ∷ []) logged_in

abbrev session : ClientSession
session = record (session_after inet sample_protocol connected (new_session addr) req) {
  offered_files = (hash_one, shared) ∷ [];
}

unfoldable pub logged_in_steps : Reachable inet sample_protocol cfg logged_in
unfolding connected logged_in lookup update_session insert
logged_in_steps =
    then_step connected logged_in
      (then_step new_server connected start (connect new_server 1 addr refl))
      (login connected 1 (new_session addr) req (omega arith) (omega arith) refl refl)

unfoldable offered_steps : Reachable inet sample_protocol cfg offered
unfolding offered logged_in_steps
offered_steps = then_step logged_in offered logged_in_steps (offer logged_in 77 (shared ∷ []))

one_login : logins inet sample_protocol cfg offered_steps ≤ 65000
unfolding offered_steps logged_in_steps
one_login = omega arith

offered_holds : Holds sample_protocol offered 77 1 session
unfolding find_client connected logged_in offered lookup insert update_session handle_login
    merge_client_offered_files
offered_holds = (refl, refl, refl)

Reachable-WellFormed_example : WellFormed sample_protocol offered
Reachable-WellFormed_example = Reachable-WellFormed inet sample_protocol cfg offered offered_steps

unregister_client-leaves_example :
    (source (unregister_client sample_protocol 1 session offered).dynamic_files hash_one 77
      ≡ (if 77 == 77 then none else source offered.dynamic_files hash_one 77))
    × (find_client (unregister_client sample_protocol 1 session offered) 77
        ≡ (if 77 == 77 then none else find_client offered 77))
unregister_client-leaves_example =
    unregister_client-leaves sample_protocol offered 77 1 session
      (Reachable-WellFormed inet sample_protocol cfg offered offered_steps) offered_holds
      (λ e. absurd (omega (arith, e))) hash_one 77

-- The source is there, so the departure takes it away.
offered_source : source offered.dynamic_files hash_one 77 ≡ some peer
unfolding source connected logged_in offered lookup insert update_session handle_login
    merge_client_offered_files add_dynamic
offered_source = refl

allocate_client_id-free_example :
    (find_client offered (allocate_client_id inet addr offered).0 ≡ none)
    × ((allocate_client_id inet addr offered).1.clients ≡ offered.clients)
    × ((allocate_client_id inet addr offered).1.sessions ≡ offered.sessions)
    × ((allocate_client_id inet addr offered).1.dynamic_files ≡ offered.dynamic_files)
unfolding connected logged_in offered update_session handle_login merge_client_offered_files lookup
    insert
allocate_client_id-free_example =
    allocate_client_id-free inet addr offered (omega arith) (omega arith)

-- The counter gives the first number, for the one login was under the client's own address.
Reachable-counter_example :
    (find_client offered (take_next offered).0 ≡ none)
    × (is_high_id (plain_source (record { ip = (take_next offered).0; port = pos 4662 })) ≡ true)
    × ((take_next offered).0 < (take_next offered).1.next_id)
Reachable-counter_example =
    Reachable-counter inet sample_protocol cfg offered offered_steps (pos 4662) one_login

login_again_leaves_example :
    source
      (unregister_client sample_protocol 1
        (session_after inet sample_protocol offered session req)
        (handle_login inet 1 session req offered)).dynamic_files
      hash_one
      77
    ≡ source offered.dynamic_files hash_one 77
unfolding connected logged_in offered update_session handle_login allocate_client_id
    merge_client_offered_files lookup insert
login_again_leaves_example =
    (login_again_leaves inet sample_protocol offered 77 1 session req offered_holds (omega arith)
        (omega arith) (λ e. absurd (omega (arith, e)))).1
      hash_one

abbrev two : List FileRecord
two = shared ∷ file (text "b") (text "b.iso") ∷ []

abbrev none_yet : Merge
none_yet = record { offered = []; previous = []; accepted = []; dropped = 0 }

merge_records-total_example :
    length (merge_records sample_protocol (pos 1) two none_yet).accepted
      + (merge_records sample_protocol (pos 1) two none_yet).dropped
    ≡ 2
merge_records-total_example = merge_records-total sample_protocol (pos 1) two none_yet

-- A second batch, of another file: the cap of one file drops it.
abbrev other : FileRecord
other = record (file (text "b") (text "b.iso")) { endpoints = peer ∷ [] }

offered_more : Server
unfolding offered
offered_more = merge_client_offered_files sample_protocol cfg 77 (other ∷ []) offered

offered_more_steps : Reachable inet sample_protocol cfg offered_more
unfolding offered_more
offered_more_steps = then_step offered offered_more offered_steps (offer offered 77 (other ∷ []))

second_dropped : source offered_more.dynamic_files (text "b") 77 ≡ none
unfolding source connected logged_in offered offered_more lookup insert update_session handle_login
    merge_client_offered_files add_dynamic
second_dropped = refl

first_kept : source offered_more.dynamic_files hash_one 77 ≡ some peer
unfolding source connected logged_in offered offered_more lookup insert update_session handle_login
    merge_client_offered_files add_dynamic
first_kept = refl

Reachable-capped_sources_example : length (hash_one ∷ []) ≤ 1
Reachable-capped_sources_example =
    Reachable-capped_sources inet sample_protocol cfg 0 offered_more 77 (hash_one ∷ []) refl
      offered_more_steps (tt, tt) ((λ e. none_not_some (sym e ∙ first_kept)), tt)
