-- ===== src/Server.antt =====
-- The client registry of ed2ksrv/server.go: client IDs, login, the files that a client offers, and
-- the end of a session. An int32 is its bit pattern. Sessions are Go pointers, so they stand in a
-- store, and the registry maps an ID to the session's address.
pub mod Ids
pub mod Offers
pub mod Invariant
pub mod Departure
pub mod Logins
pub mod Merging
pub mod Steps
pub mod Runs
use goed2k_server.Base.{
  ℕ, zero, suc, ◌+◌, ◌%◌, ◌^◌, ◌≡◌, Bool, true, false, not, ◌&&◌, List, [], ◌∷◌, ◌++◌, Option, none,
  some, length, ◌==◌, leb, if◌then◌else◌, map,
}
use goed2k_server.Base.Int.{ℤ, pos, is_positive, ltb_ℤ}
use goed2k_server.Base.Maps.{lookup, insert, delete}
use goed2k_server.Base.Tests.{text_eq, nat_eq}
use goed2k_server.Base.Text.{Bytes}
use goed2k_server.Config.{Config}
use goed2k_server.Protocol.{Protocol, Hash, Endpoint, SharedFileEntry}
use goed2k_server.Records.{FileRecord}
use goed2k_server.Dynamic.{DynamicFiles, add_dynamic, remove_dynamic}

-- net.TCPAddr
pub record TcpAddr : Type 0 where
  pub ip : Option Bytes
  pub port : ℕ

pub record ClientSession : Type 0 where
  pub remote : Option TcpAddr
  pub client_hash : Hash
  pub connect_options : ℕ
  pub login_point : Endpoint
  pub assigned_id : ℕ
  pub client_name : Bytes
  pub offered_files : List (Bytes × FileRecord)
  pub search_result : List SharedFileEntry
  pub search_offset : ℕ

pub record Server : Type 0 where
  pub sessions : List (ℕ × ClientSession)
  pub clients : List (ℕ × ℕ)
  pub dynamic_files : DynamicFiles
  pub next_id : ℕ

-- What a LoginRequest says, after extractClientName and extractClientConnectOptions.
pub record Login : Type 0 where
  pub hash : Hash
  pub point : Endpoint
  pub name : Bytes
  pub options : ℕ

-- The address of the session that has the ID.
unfoldable pub find_client : Server → ℕ → Option ℕ
find_client s client_id = lookup client_id s.clients

unfoldable pub update_session : ℕ → ClientSession → Server → Server
update_session ref client s = record s { sessions = insert ref client s.sessions }

-- The loop of allocateClientID from `client_id` on. `fuel` bounds its rounds: the IDs in use are as
-- many as the registry has entries, so one round more is enough.
unfoldable pub next_free : ℕ → List (ℕ × ℕ) → ℕ → ℕ
next_free zero clients client_id = client_id
next_free (suc fuel) clients client_id =
    let rest = next_free fuel clients ((client_id + 1) % 2 ^ 32) in
    elim (lookup client_id clients) [ none ↦ client_id | some ref ↦ rest ]

unfoldable pub take_next : Server → ℕ × Server
unfolding next_free
take_next s =
    let client_id = next_free (suc (length s.clients)) s.clients s.next_id in
    (client_id, record s { next_id = (client_id + 1) % 2 ^ 32 })

-- protocol.EndpointFromInet is the dependency's.
module _ (endpoint_from_inet : TcpAddr → Endpoint) where
  unfoldable pub client_id_from_remote : Option TcpAddr → ℕ
  client_id_from_remote none = 0
  client_id_from_remote (some addr) = elim addr.ip [
    | none ↦ 0
    | some ip ↦ (endpoint_from_inet addr).ip
  ]

  unfoldable pub allocate_client_id : Option TcpAddr → Server → ℕ × Server
  unfolding client_id_from_remote take_next find_client
  allocate_client_id addr s =
      let remote_id = client_id_from_remote addr in
      if remote_id == 0
      then take_next s
      else elim (find_client s remote_id) [ none ↦ (remote_id, s) | some ref ↦ take_next s ]

unfoldable pub register_client : ℕ → ClientSession → Server → Server
register_client ref client s =
    if client.assigned_id == 0
    then s
    else record s { clients = insert client.assigned_id ref s.clients }

module _ (endpoint_from_inet : TcpAddr → Endpoint) where
  abbrev pub logged_in_as : Login → ℕ → ClientSession → ClientSession
  logged_in_as req client_id client = record client {
    client_hash = req.hash;
    connect_options = req.options;
    login_point = req.point;
    client_name = req.name;
    assigned_id = client_id;
    search_result = [];
    search_offset = 0;
  }

  -- handleLogin, without the three replies. No other login runs between the choice of the ID and
  -- its registration.
  unfoldable pub handle_login : ℕ → ClientSession → Login → Server → Server
  unfolding allocate_client_id register_client update_session
  handle_login ref client req s =
      let allocated = allocate_client_id endpoint_from_inet client.remote s in
      let logged_in = logged_in_as req allocated.0 client in
      register_client ref logged_in (update_session ref logged_in allocated.1)

-- The first loop of mergeClientOfferedFiles: the files offered now, those of them that replace an
-- older offer, those accepted, and the number of those dropped.
pub record Merge : Type 0 where
  pub offered : List (Bytes × FileRecord)
  pub previous : List FileRecord
  pub accepted : List FileRecord
  pub dropped : ℕ

-- len(offered) >= max, for a positive max.
unfoldable pub cap_reached : ℤ → List (Bytes × FileRecord) → Bool
cap_reached max offered = is_positive max && not (ltb_ℤ (pos (length offered)) max)

module _ (p : Protocol) (max : ℤ) where
  unfoldable pub merge_record : FileRecord → Merge → Merge
  unfolding cap_reached
  merge_record r m = elim (lookup (p.hash_string r.hash) m.offered) [
    | some old ↦ record m {
      offered = insert (p.hash_string r.hash) r m.offered;
      previous = m.previous ++ (old ∷ []);
      accepted = m.accepted ++ (r ∷ []);
    }
    | none ↦ if cap_reached max m.offered then record m { dropped = suc m.dropped } else record m {
      offered = insert (p.hash_string r.hash) r m.offered;
      accepted = m.accepted ++ (r ∷ []);
    }
  ]

  unfoldable pub merge_records : List FileRecord → Merge → Merge
  unfolding merge_record
  merge_records [] m = m
  merge_records (r ∷ rs) m = merge_records rs (merge_record r m)

module _ (p : Protocol) where
  unfoldable pub remove_records : ℕ → List FileRecord → DynamicFiles → DynamicFiles
  remove_records client_id [] files = files
  remove_records client_id (r ∷ rs) files =
      remove_records client_id rs (remove_dynamic p client_id r.hash files)

  unfoldable pub add_records : ℕ → List FileRecord → DynamicFiles → DynamicFiles
  add_records client_id [] files = files
  add_records client_id (r ∷ rs) files = add_records client_id rs (add_dynamic p client_id r files)

  -- The session that has the ID, whichever session asks.
  unfoldable pub remove_client_offered_files : ℕ → Server → Server
  unfolding find_client update_session remove_records
  remove_client_offered_files client_id s = elim (find_client s client_id) [
    | none ↦ s
    | some ref ↦ elim (lookup ref s.sessions) [
      | none ↦ s
      | some client ↦ record (update_session ref (record client { offered_files = [] }) s) {
        dynamic_files =
            remove_records client_id (map (λ e. e.1) client.offered_files) s.dynamic_files;
      }
    ]
  ]

  unfoldable pub start_merge : ClientSession → Merge
  start_merge client = record {
    offered = client.offered_files;
    previous = [];
    accepted = [];
    dropped = 0;
  }

  -- The part under the locks, for a session that is registered.
  unfoldable pub merge_into : Config → ℕ → List FileRecord → ℕ → ClientSession → Server → Server
  unfolding merge_records add_records remove_records update_session start_merge
  merge_into cfg client_id records ref client s =
      let merged = merge_records p cfg.max_offered_files_per_client records (start_merge client) in
      record (update_session ref (record client { offered_files = merged.offered }) s) {
        dynamic_files =
            add_records client_id merged.accepted
              (remove_records client_id merged.previous s.dynamic_files);
      }

  unfoldable pub merge_client_offered_files : Config → ℕ → List FileRecord → Server → Server
  unfolding find_client remove_client_offered_files merge_into
  merge_client_offered_files cfg client_id [] s = remove_client_offered_files client_id s
  merge_client_offered_files cfg client_id (r ∷ rs) s = elim (find_client s client_id) [
    | none ↦ s
    | some ref ↦ elim (lookup ref s.sessions) [
      | none ↦ s
      | some client ↦ merge_into cfg client_id (r ∷ rs) ref client s
    ]
  ]

  -- The deletion is guarded: another session may have the ID by now.
  unfoldable pub release_id : ℕ → ℕ → Server → Server
  unfolding find_client
  release_id ref client_id s = elim (find_client s client_id) [
    | none ↦ s
    | some existing ↦
        if existing == ref then record s { clients = delete client_id s.clients } else s
  ]

  unfoldable pub unregister_client : ℕ → ClientSession → Server → Server
  unfolding remove_client_offered_files release_id
  unregister_client ref client s =
      if client.assigned_id == 0
      then s
      else release_id ref client.assigned_id (remove_client_offered_files client.assigned_id s)
