-- ===== src/Audit/Runs.antt =====
-- Two events.
use goed2k_server.Base.{ℕ, ◌-◌, ◌≡◌, List, [], ◌∷◌, length, drop}
use goed2k_server.Base.Text.{text}
use goed2k_server.Audit.{AuditEntry}
use goed2k_server.Audit.Recent.{log_after, recorded, log_after_lem}

abbrev event : AuditEntry
event = record {
  time = 0;
  action = text "delete";
  resource = text "file";
  resource_id = [];
  remote_addr = [];
  status = [];
  detail = [];
}

abbrev events : List (ℕ × AuditEntry)
events = (5, event) ∷ (6, event) ∷ []

log_after_lem_example :
    log_after events [] ≡ drop (length (recorded events) - 200) (recorded events)
log_after_lem_example = log_after_lem events
