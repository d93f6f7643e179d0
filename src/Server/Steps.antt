-- ===== src/Server/Steps.antt =====
-- The life of the registry as a sequence of steps: connections, first logins, offers and
-- departures, in any order.
pub mod Caps
pub mod Counter
use goed2k_server.Base.{
  ℕ, suc, ◌≤◌, ◌<◌, ◌≡◌, ◌≢◌, refl, sym, ◌∙◌, List, [], Option, none, some, length,
}
use goed2k_server.Base.Int.{pos}
use goed2k_server.Base.Maps.{lookup}
use goed2k_server.Base.Tests.{text_eq, nat_eq, none_not_some}
use goed2k_server.Config.{Config}
use goed2k_server.Protocol.{Protocol, Endpoint}
use goed2k_server.Records.{FileRecord}
use goed2k_server.Dynamic.Sources.{source}
use goed2k_server.Server.{
  Server, ClientSession, TcpAddr, Login, find_client, update_session, handle_login,
  merge_client_offered_files, unregister_client,
}
use goed2k_server.Server.Invariant.{Holds, WellFormed}
use goed2k_server.Server.Departure.{unregister_client-WellFormed}
use goed2k_server.Server.Logins.{handle_login-WellFormed, update_session-WellFormed}
use goed2k_server.Server.Merging.Batches.{merge_client_offered_files-WellFormed}

-- The session that handleConn makes.
abbrev pub new_session : Option TcpAddr → ClientSession
new_session addr = record {
  remote = addr;
  client_hash = [];
  connect_options = 0;
  login_point = record { ip = 0; port = pos 0 };
  assigned_id = 0;
  client_name = [];
  offered_files = [];
  search_result = [];
  search_offset = 0;
}

-- The registry that NewServer makes.
abbrev pub new_server : Server
new_server = record { sessions = []; clients = []; dynamic_files = []; next_id = 16777217 }

module _ (endpoint_from_inet : TcpAddr → Endpoint) (p : Protocol) (cfg : Config) where
  pub data Step : Server → Server → Type 0 where
    connect :
        (s : Server) (ref : ℕ) (addr : Option TcpAddr)
        → lookup ref s.sessions ≡ none
        → Step s (update_session ref (new_session addr) s)
    login :
        (s : Server) (ref : ℕ) (client : ClientSession) (req : Login)
        → suc (length s.clients) ≤ 4294967296
        → s.next_id < 4294967296
        → lookup ref s.sessions ≡ some client
        → client.assigned_id ≡ 0
        → Step s (handle_login endpoint_from_inet ref client req s)
    offer :
        (s : Server) (c : ℕ) (records : List FileRecord)
        → Step s (merge_client_offered_files p cfg c records s)
    leave :
        (s : Server) (c ref : ℕ) (client : ClientSession)
        → Holds p s c ref client
        → c ≢ 0
        → Step s (unregister_client p ref client s)

  pub data Reachable : Server → Type 0 where
    start : Reachable new_server
    then_step : (s t : Server) → Reachable s → Step s t → Reachable t

  new_server-WellFormed : WellFormed p new_server
  unfolding find_client lookup source
  new_server-WellFormed = record {
    no_zero = refl;
    held = λ c ref f. absurd (none_not_some f);
    keyed = λ ref client l. absurd (none_not_some l);
    owned = λ key c e q. absurd (none_not_some q);
  }

  step-WellFormed : (s t : Server) → Step s t → WellFormed p s → WellFormed p t
  unfolding lookup
  step-WellFormed _ _ (connect s ref addr free) w =
      update_session-WellFormed p s ref (new_session addr) w
        (λ d f. none_not_some (sym free ∙ (w.held d ref f).1.1))
        (λ key r k. absurd (none_not_some k))
  step-WellFormed _ _ (login s ref client req l b at new) w =
      handle_login-WellFormed endpoint_from_inet p s ref client req w l b at new
  step-WellFormed _ _ (offer s c records) w =
      merge_client_offered_files-WellFormed p cfg s c records w
  step-WellFormed _ _ (leave s c ref client h n) w =
      unregister_client-WellFormed p s c ref client w h n

  -- Whatever connections, first logins, offers and departures come in whatever order, the registry
  -- is well-formed: an ID leads to a session that was given it, a session's offers stand under
  -- their hash, and a source of a shared file is from a registered client that offers the file.
  pub Reachable-WellFormed : (s : Server) → Reachable s → WellFormed p s
  Reachable-WellFormed _ start = new_server-WellFormed
  Reachable-WellFormed _ (then_step r s before step) =
      step-WellFormed r s step (Reachable-WellFormed r before)
