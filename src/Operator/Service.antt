-- ===== src/Operator/Service.antt =====
-- internal/operator/application/service.go: the use-cases over the store. The clock's reading and the
-- random identifier, which may be missing, are arguments.
use smotryashchiy.Base.{
  ℕ, ◌-◌, ◌*◌, ◌^◌, ◌%◌, Bool, List, [], ◌++◌, Option, none, some, Bytes, if◌then◌else◌, codes, leb,
  ltb, ℤ, pos, negsuc,
}
use smotryashchiy.Assoc.{is_some}
use smotryashchiy.Sql.{ok, ◌>>=◌, ◌>>◌, pure, refuse}
use smotryashchiy.Operator.Command.{
  Kind, Status, queued, running, done, failed, expired, unknown, Command, Claimed, NewCommand,
  Library, Checked, valid, invalid, needs_reason,
}
use smotryashchiy.Operator.Validate.{Report, validate, validate_report, target}
use smotryashchiy.Operator.Incident.{Incident, IncidentInput, IncidentKind, validate_incident}
use smotryashchiy.Operator.Audit.{AuditEntry}
use smotryashchiy.Operator.Store
use smotryashchiy.Operator.Store.{
  Store, no_id, not_found, rejected, insert_command, expire, clear_results,
}
use smotryashchiy.Operator.Records.{
  insert_incident, update_incident, delete_incident, append_audit, audit_page, purge_audit,
}

-- The map that an audit entry carries.
pub data Detail : Type 0 where
  queue_detail : Bytes → Bytes → Kind → Bytes → Detail
  refused_detail : Bytes → Kind → Detail
  result_detail : Bytes → Kind → Bytes → Detail
  create_detail : Bytes → IncidentKind → Detail
  update_detail : Bytes → IncidentKind → Bool → Detail
  delete_detail : Detail

-- `json.Marshal` of such a map.
pub record Json : Type 0 where
  pub encode : Detail → Option Bytes

abbrev pub checked : {A : Type 0} → Checked A → Store A
checked (valid a) = pure a
checked (invalid e) = refuse (rejected e)

abbrev pub or_refuse : {A : Type 0} → Option A → Store.Error → Store A
or_refuse none e = refuse e
or_refuse (some a) e = pure a

-- An error is logged and goes no further.
abbrev pub attempt : {A : Type 0} → Store A → Store (Unit {0})
attempt m d = (ok tt, (m d).1)

abbrev pub status_text : Status → Bytes
status_text queued = codes "queued"
status_text running = codes "running"
status_text done = codes "done"
status_text failed = codes "failed"
status_text expired = codes "expired"
status_text (unknown s) = s

abbrev pub claim_batch : ℕ
claim_batch = 5

abbrev pub default_list_limit : ℕ
default_list_limit = 50

abbrev pub max_list_limit : ℕ
max_list_limit = 200

abbrev pub clamp_limit : ℤ → ℕ
clamp_limit (negsuc n) = default_list_limit
clamp_limit (pos n) =
    if leb n 0 then default_list_limit else if ltb max_list_limit n then max_list_limit else n

-- thirty days
abbrev pub result_retention : ℕ
result_retention = 30 * 24 * 60 * 60 * 10 ^ 9

-- three years
abbrev pub audit_retention : ℕ
audit_retention = 3 * 365 * 24 * 60 * 60 * 10 ^ 9

abbrev pub encoded : Option Bytes → Bytes
encoded none = codes "{}"
encoded (some raw) = raw

module _ (lib : Library) (json : Json) where
  -- `audit`
  unfoldable pub audit : ℕ → Bytes → Bytes → Detail → Bytes → Bytes → Store (Unit {0})
  audit now action target detail client outcome = attempt (
      append_audit (record {
        at = now;
        action = action;
        target = target;
        detail = encoded (json.encode detail);
        client = client;
        outcome = outcome;
      }))

  abbrev pub new_command : NewCommand → Bytes → Bytes → ℕ → Command
  new_command n id args now = record {
    id = id;
    host_id = n.host_id;
    kind = n.kind;
    args = args;
    reason = if needs_reason n.kind then n.reason else [];
    status = queued;
    created_at = now - now % 10 ^ 6;
    started_at = none;
    finished_at = none;
    result = none;
    error = [];
  }

  unfoldable pub queue : NewCommand → Bytes → Option Bytes → ℕ → Store Command
  unfolding audit
  queue n client new_id now = do
    args ← checked (validate lib n)
    id ← or_refuse new_id no_id
    insert_command (new_command n id args now)
    audit now (codes "command.queue") (target lib args) (queue_detail id n.host_id n.kind args)
        client (status_text queued)
    pure (new_command n id args now)

  -- `Refused`
  unfoldable pub refused_queue : NewCommand → Bytes → Bytes → ℕ → Store (Unit {0})
  unfolding audit
  refused_queue n client why now =
      audit now (codes "command.refused") (target lib n.args) (refused_detail n.host_id n.kind)
        client why

  unfoldable pub complete : Bytes → Bytes → Report → ℕ → Store Command
  unfolding audit
  complete host id report now = do
    r ← checked (validate_report lib report)
    c ← Store.complete host id r now
    audit now (codes "command.result") (target lib c.args) (result_detail id c.kind c.error)
        (codes "host:" ++ host) (status_text c.status)
    pure c

  unfoldable pub create_incident : IncidentInput → Bytes → Option Bytes → ℕ → Store Incident
  unfolding audit
  create_incident input client new_id now = do
    i ← checked (validate_incident lib input now)
    id ← or_refuse new_id no_id
    inc ← insert_incident i id now
    audit now (codes "incident.create") (codes "incident:" ++ id) (create_detail i.title i.kind)
        client (codes "created")
    pure inc

  unfoldable pub edit_incident : Bytes → IncidentInput → Bytes → ℕ → Store Incident
  unfolding audit
  edit_incident id input client now = do
    i ← checked (validate_incident lib input now)
    inc ← update_incident id i now
    audit now (codes "incident.update") (codes "incident:" ++ id)
        (update_detail i.title i.kind (is_some i.closed_at)) client (codes "updated")
    pure inc

  unfoldable pub remove_incident : Bytes → Bytes → ℕ → Store (Unit {0})
  unfolding audit
  remove_incident id client now = do
    delete_incident id
    audit now (codes "incident.delete") (codes "incident:" ++ id) delete_detail client
        (codes "deleted")

-- `Claim`
unfoldable pub claim : Bytes → ℕ → Store (List Claimed)
claim host now = do expire now; Store.claim host now claim_batch

unfoldable pub command : Bytes → ℕ → Store Command
command id now = do expire now; Store.command id

unfoldable pub commands : ℤ → ℕ → Store (List Command)
commands limit now = do expire now; Store.commands (clamp_limit limit)

unfoldable pub audit_log : ℕ → ℤ → Store (List AuditEntry)
audit_log before limit = audit_page before (clamp_limit limit)

-- `maintain`, at the clock of the database in seconds.
unfoldable pub maintain : ℕ → ℕ → Store (Unit {0})
maintain clock now = do
  attempt (expire now)
  attempt (clear_results (now - result_retention))
  attempt (purge_audit clock (now - audit_retention))
