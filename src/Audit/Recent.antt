-- ===== src/Audit/Recent.antt =====
-- The audit log is the end of the list of all events.
use goed2k_server.Base.{
  ℕ, ◌-◌, ◌≡◌, sym, ap, ◌∙◌, List, [], ◌∷◌, ◌++◌, length, drop, ltb, arith, Bool-cases, inl, inr,
  length-append, length-drop, drop-drop, drop-append, append_assoc, append_nil,
}
use goed2k_server.Base.Tests.{if_true, if_false, ltb→ge}
use goed2k_server.Audit.{AuditEntry, append_audit, complete_entry}

abbrev recent : List AuditEntry → List AuditEntry
recent xs = drop (length xs - 200) xs

-- The log after the events, each with the time of the clock.
pub log_after : List (ℕ × AuditEntry) → List AuditEntry → List AuditEntry
log_after [] audit_log = audit_log
log_after ((now, entry) ∷ events) audit_log = log_after events (append_audit now entry audit_log)

-- The events as they are recorded.
pub recorded : List (ℕ × AuditEntry) → List AuditEntry
recorded [] = []
recorded ((now, entry) ∷ events) = complete_entry now entry ∷ recorded events

append_audit-recent :
    (now : ℕ) (entry : AuditEntry) (audit_log : List AuditEntry)
    → append_audit now entry audit_log ≡ recent (audit_log ++ (complete_entry now entry ∷ []))
unfolding append_audit
append_audit-recent now entry audit_log =
    let appended = audit_log ++ (complete_entry now entry ∷ []) in
    elim (Bool-cases (ltb 200 (length appended))) [
      | inl b ↦ if_true _ _ b
      | inr b ↦
          let within : length appended - 200 ≡ 0 = omega (arith, ltb→ge 200 (length appended) b) in
          if_false _ _ b ∙ sym (ap (λ n. drop n appended) within)
    ]

recent-append :
    (xs : List AuditEntry) (e : AuditEntry)
    → recent (recent xs ++ (e ∷ [])) ≡ recent (xs ++ (e ∷ []))
recent-append xs e =
    let before = drop-append (length xs - 200) xs (e ∷ []) (omega arith) in
    let long = length-append xs (e ∷ []) in
    let short = length-append (recent xs) (e ∷ []) in
    let dropped = length-drop (length xs - 200) xs in
    ap (drop (length (recent xs ++ (e ∷ [])) - 200)) (sym before)
    ∙ sym (
        drop-drop (xs ++ (e ∷ [])) (length xs - 200) (length (xs ++ (e ∷ [])) - 200)
          (length (recent xs ++ (e ∷ [])) - 200) (omega (arith, long, short, dropped)))

log_after-recent :
    (events : List (ℕ × AuditEntry)) (xs : List AuditEntry)
    → log_after events (recent xs) ≡ recent (xs ++ recorded events)
unfolding log_after recorded
log_after-recent [] xs = ap recent (sym (append_nil xs))
log_after-recent ((now, entry) ∷ events) xs =
    ap (log_after events)
      (append_audit-recent now entry (recent xs) ∙ recent-append xs (complete_entry now entry))
    ∙ log_after-recent events (xs ++ (complete_entry now entry ∷ []))
    ∙ ap recent (append_assoc xs (complete_entry now entry ∷ []) (recorded events))

-- After any events the audit log is the last 200 of them in order, or all if there are fewer.
pub log_after_lem :
    (events : List (ℕ × AuditEntry))
    → log_after events [] ≡ drop (length (recorded events) - 200) (recorded events)
log_after_lem events = log_after-recent events []
