-- ===== src/Audit.antt =====
-- The audit log of ed2ksrv/audit.go: AuditEntry and appendAudit. A time is a number, 0 the zero
-- time, and the clock is an argument. AuditSnapshot sorts a copy by time and is not modelled.
pub mod Recent
pub mod Runs
use goed2k_server.Base.{ℕ, ◌-◌, List, [], ◌∷◌, ◌++◌, length, drop, ◌==◌, ltb, if◌then◌else◌}
use goed2k_server.Base.Text.{Bytes, text, ◌=text◌}

abbrev pub max_audit_entries : ℕ
max_audit_entries = 200

pub record AuditEntry : Type 0 where
  pub time : ℕ
  pub action : Bytes
  pub resource : Bytes
  pub resource_id : Bytes
  pub remote_addr : Bytes
  pub status : Bytes
  pub detail : Bytes

unfoldable pub complete_entry : ℕ → AuditEntry → AuditEntry
complete_entry now entry = record entry {
  time = if entry.time == 0 then now else entry.time;
  status = if entry.status =text [] then text "ok" else entry.status;
}

unfoldable pub append_audit : ℕ → AuditEntry → List AuditEntry → List AuditEntry
unfolding complete_entry
append_audit now entry audit_log =
    let appended = audit_log ++ (complete_entry now entry ∷ []) in
    if ltb max_audit_entries (length appended)
    then drop (length appended - max_audit_entries) appended
    else appended
