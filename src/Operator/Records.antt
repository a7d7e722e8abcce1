-- ===== src/Operator/Records.antt =====
-- internal/operator/infrastructure/store.go: the tables of incidents and of the audit log, with the
-- triggers of internal/platform/db/migrations/0010_operator.sql.
pub mod Kept
use smotryashchiy.Base.{
  ℕ, ◌+◌, ◌-◌, ◌*◌, ◌/◌, ◌^◌, Bool, true, false, not, ◌&&◌, ◌||◌, List, [], ◌∷◌, ◌++◌, Option, none,
  some, map, Bytes, bytes_eq, ltb, leb, nat_eq, if◌then◌else◌, codes, is_empty, keep_if, take,
  length, every, lex_lt,
}
use smotryashchiy.Assoc.{is_some}
use smotryashchiy.Sql.{
  Fault, database, ◌>>=◌, ◌>>◌, pure, refuse, statement, constrained, query, exec, order_by,
}
use smotryashchiy.Operator.Incident.{Incident, IncidentInput, or_now}
use smotryashchiy.Operator.Audit.{AuditEntry}
use smotryashchiy.Operator.Store.{Tables, Store, Error, not_found, unix, unix_milli}

abbrev pub find_incident : Bytes → List Incident → Option Incident
find_incident id [] = none
find_incident id (i ∷ is) = if bytes_eq i.id id then some i else find_incident id is

-- `incident`, behind the write that it follows.
unfoldable pub incident : Bytes → Store Incident
incident id = do
  found ← query (λ t. find_incident id t.incidents)
  elim found [ none ↦ refuse not_found | some i ↦ pure i ]

-- The row that `InsertIncident` writes; the detection time is set by the validation.
abbrev pub incident_row : Bytes → IncidentInput → ℕ → ℕ → Incident
incident_row id i created now = record {
  id = id;
  title = i.title;
  kind = i.kind;
  detected_at = unix_milli (or_now i.detected_at now);
  scope = i.scope;
  people_affected = i.people_affected;
  measures = i.measures;
  rkn_primary_at = unix i.rkn_primary_at;
  rkn_final_at = unix i.rkn_final_at;
  users_notified_at = unix i.users_notified_at;
  notes = i.notes;
  closed_at = unix i.closed_at;
  created_at = created;
  updated_at = unix_milli now;
}

abbrev repeats : Bytes → Tables → Option (Fault Error)
repeats id t = if is_some (find_incident id t.incidents) then some database else none

unfoldable pub insert_incident : IncidentInput → Bytes → ℕ → Store Incident
unfolding incident
insert_incident i id now = do
  constrained (repeats id) (λ t.
      (tt, record t { incidents = t.incidents ++ incident_row id i (unix_milli now) now ∷ [] }))
  incident id

abbrev pub is_incident : Bytes → Incident → Bool
is_incident id i = bytes_eq i.id id

abbrev pub edited : Bytes → IncidentInput → ℕ → Incident → Incident
edited id i now old = if is_incident id old then incident_row id i old.created_at now else old

unfoldable pub update_incident : Bytes → IncidentInput → ℕ → Store Incident
unfolding incident
update_incident id i now = do
  n ← statement (λ t. (
    length (keep_if (is_incident id) t.incidents),
    record t { incidents = map (edited id i now) t.incidents },
  ))
  if nat_eq n 0 then refuse not_found else incident id

unfoldable pub delete_incident : Bytes → Store (Unit {0})
delete_incident id = do
  n ← statement (λ t. (
    length (keep_if (is_incident id) t.incidents),
    record t { incidents = keep_if (λ i. not (is_incident id i)) t.incidents },
  ))
  if nat_eq n 0 then refuse not_found else pure tt

-- `ORDER BY detected_at DESC, id`
abbrev pub is_later : Incident → Incident → Bool
is_later a b =
    ltb b.detected_at a.detected_at
    || (nat_eq a.detected_at b.detected_at && not (lex_lt b.id a.id))

unfoldable pub incidents : Store (List Incident)
incidents = query (λ t. order_by is_later t.incidents)

-- An entry before the table gives it a number.
pub record NewEntry : Type 0 where
  pub at : ℕ
  pub action : Bytes
  pub target : Bytes
  pub detail : Bytes
  pub client : Bytes
  pub outcome : Bytes

abbrev entry_row : ℕ → NewEntry → AuditEntry
entry_row id e = record {
  id = id;
  at = unix_milli e.at;
  action = e.action;
  target = e.target;
  detail = if is_empty e.detail then codes "{}" else e.detail;
  client = e.client;
  outcome = e.outcome;
}

unfoldable pub append_audit : NewEntry → Store (Unit {0})
append_audit e = exec (λ t. record t {
  audit = t.audit ++ entry_row t.next_audit e ∷ [];
  next_audit = t.next_audit + 1;
})

-- `ORDER BY id DESC`
abbrev pub is_higher : AuditEntry → AuditEntry → Bool
is_higher a b = leb b.id a.id

unfoldable pub audit_page : ℕ → ℕ → Store (List AuditEntry)
audit_page before limit = query (λ t.
    take limit (
      order_by is_higher
        (keep_if (λ (e : AuditEntry). nat_eq before 0 || ltb e.id before) t.audit)))

-- Three years of 365 days, in milliseconds.
abbrev pub audit_kept : ℕ
audit_kept = 3 * 365 * 86400 * 1000

-- The trigger on deletes, at the clock of the database in whole seconds: it lets go of what is old.
abbrev pub may_go : ℕ → AuditEntry → Bool
may_go clock e = leb (e.at + audit_kept) (clock * 1000)

-- One row that the trigger keeps fails the whole statement.
abbrev keeps : ℕ → ℕ → Tables → Option (Fault Error)
keeps clock before t =
    if every (may_go clock) (keep_if (λ (e : AuditEntry). ltb e.at (unix_milli before)) t.audit)
    then none
    else some database

unfoldable pub purge_audit : ℕ → ℕ → Store ℕ
purge_audit clock before = constrained (keeps clock before) (λ t. (
  length (keep_if (λ (e : AuditEntry). ltb e.at (unix_milli before)) t.audit),
  record t { audit = keep_if (λ (e : AuditEntry). not (ltb e.at (unix_milli before))) t.audit },
))
