-- ===== src/Operator/History/Calls.antt =====
-- service.go: every call moves each command along its life.
use smotryashchiy.Base.{
  ℕ, ◌≡◌, refl, Bool, true, false, List, [], ◌++◌, Option, none, some, arith, Bytes, ℤ, nat_eq,
  if◌then◌else◌, codes, ◌-◌,
}
use smotryashchiy.Sql.{◌>>=◌, ◌>>◌, pure, refuse, query, statement, constrained, Fault}
use smotryashchiy.Operator.Command.{queued, Claimed, NewCommand, Library, Checked, valid, invalid}
use smotryashchiy.Operator.Validate.{Report, is_final, validate, validate_report, target}
use smotryashchiy.Operator.Incident.{Incident, IncidentInput, validate_incident}
use smotryashchiy.Operator.Store
use smotryashchiy.Assoc.{is_some}
use smotryashchiy.Operator.Store.{
  Tables, Error, Store, not_found, no_id, rejected, insert_command, expire, clear_results,
}
use smotryashchiy.Operator.Records.{
  NewEntry, find_incident, incident, insert_incident, update_incident, delete_incident,
  append_audit, audit_page, purge_audit,
}
use smotryashchiy.Operator.Service
use smotryashchiy.Operator.Service.{
  Json, Detail, checked, or_refuse, attempt, audit, new_command, clamp_limit, status_text,
  queue_detail, result_detail, create_detail, update_detail, delete_detail, refused_detail,
  result_retention, audit_retention,
}
use smotryashchiy.Operator.Store.Life.{Aging, Aging-same, Aging-bind}
use smotryashchiy.Operator.Store.Evolution.{
  Aging-pure, Aging-refuse, insert_command-Aging, claim-Aging, command-Aging, complete-Aging,
  expire-Aging, clear_results-Aging,
}

Aging-attempt : {A : Type 0} (m : Store A) → Aging m → Aging (attempt m)
Aging-attempt m p = record { ages = p.ages }

append_audit-Aging : (e : NewEntry) → Aging (append_audit e)
unfolding append_audit
append_audit-Aging e = Aging-same (append_audit e) (λ d. ground arith)

purge_audit-Aging : (clock before : ℕ) → Aging (purge_audit clock before)
unfolding purge_audit
purge_audit-Aging clock before = Aging-same (purge_audit clock before) (λ d. ground arith)

Aging-statement :
    {A : Type 0} (f : Tables → A × Tables)
    → ((t : Tables) → (f t).1.commands ≡ t.commands)
    → Aging (statement {E = Error} f)
Aging-statement f h = Aging-same (statement f) (λ d. ground (arith, h d.tables))

Aging-constrained :
    {A : Type 0} (c : Tables → Option (Fault Error)) (f : Tables → A × Tables)
    → ((t : Tables) → (f t).1.commands ≡ t.commands)
    → Aging (constrained c f)
Aging-constrained c f h = Aging-same (constrained c f) (λ d. ground (arith, h d.tables))

Aging-if : {A : Type 0} (b : Bool) (m n : Store A) → Aging m → Aging n → Aging (if b then m else n)
Aging-if true m n p q = p
Aging-if false m n p q = q

found-Aging :
    (o : Option Incident)
    → Aging (let m : Store Incident = elim o [ none ↦ refuse not_found | some i ↦ pure i ] in m)
found-Aging none = Aging-refuse not_found
found-Aging (some i) = Aging-pure i

incident-Aging : (id : Bytes) → Aging (incident id)
unfolding incident
incident-Aging id =
    Aging-bind (query (λ t. find_incident id t.incidents)) _
      (Aging-statement (λ t. (find_incident id t.incidents, t)) (λ t. refl)) found-Aging

insert_incident-Aging :
    (i : IncidentInput) (id : Bytes) (now : ℕ) → Aging (insert_incident i id now)
unfolding insert_incident
insert_incident-Aging i id now =
    Aging-bind _ (λ u. incident id) (Aging-constrained _ _ (λ t. refl)) (λ u. incident-Aging id)

update_incident-Aging :
    (id : Bytes) (i : IncidentInput) (now : ℕ) → Aging (update_incident id i now)
unfolding update_incident
update_incident-Aging id i now = Aging-bind _ _ (Aging-statement _ (λ t. refl)) (λ n.
    Aging-if (nat_eq n 0) (refuse not_found) (incident id) (Aging-refuse not_found)
      (incident-Aging id))

delete_incident-Aging : (id : Bytes) → Aging (delete_incident id)
unfolding delete_incident
delete_incident-Aging id = Aging-bind _ _ (Aging-statement _ (λ t. refl)) (λ n.
    Aging-if (nat_eq n 0) (refuse not_found) (pure tt) (Aging-refuse not_found) (Aging-pure tt))

checked-Aging : {A : Type 0} (c : Checked A) → Aging (checked c)
checked-Aging (valid a) = Aging-pure a
checked-Aging (invalid e) = Aging-refuse _

or_refuse-Aging : {A : Type 0} (o : Option A) (e : Error) → Aging (or_refuse o e)
or_refuse-Aging none e = Aging-refuse e
or_refuse-Aging (some a) e = Aging-pure a

validate_report-is_final :
    (lib : Library) (r r' : Report) → validate_report lib r ≡ valid r' → is_final r'.status ≡ true
unfolding validate_report
validate_report-is_final lib r r' h = ground arith

audit-Aging :
    (lib : Library) (json : Json) (now : ℕ) (action target : Bytes) (detail : Detail)
    (client outcome : Bytes)
    → Aging (audit lib json now action target detail client outcome)
unfolding audit
audit-Aging lib json now action target detail client outcome =
    Aging-attempt _ (append_audit-Aging _)

-- An audit entry, and then an answer.
Aging-audited :
    {A : Type 0} (lib : Library) (json : Json) (now : ℕ) (action about : Bytes) (detail : Detail)
    (client outcome : Bytes) (a : A)
    → Aging (audit lib json now action about detail client outcome >> pure a)
Aging-audited lib json now action about detail client outcome a =
    Aging-bind (audit lib json now action about detail client outcome) (λ u. pure a)
      (audit-Aging lib json now action about detail client outcome) (λ u. Aging-pure a)

-- A call whose answer is dropped.
pub Aging-drop : {A : Type 0} (m : Store A) → Aging m → Aging (m >> pure {A = List Claimed} [])
Aging-drop m p = Aging-bind m (λ a. pure []) p (λ a. Aging-pure [])

module _ (lib : Library) (json : Json) where
  pub queue-Aging :
      (n : NewCommand) (client : Bytes) (id : Option Bytes) (now : ℕ)
      → Aging (Service.queue lib json n client id now)
  unfolding Service.queue
  queue-Aging n client new_id now =
      Aging-bind (checked (validate lib n)) _ (checked-Aging (validate lib n)) (λ args.
        Aging-bind (or_refuse new_id no_id) _ (or_refuse-Aging new_id no_id) (λ id.
          Aging-bind (insert_command (new_command lib json n id args now)) _
            (insert_command-Aging (new_command lib json n id args now))
            (λ u.
              Aging-audited lib json now (codes "command.queue") (target lib args)
                (queue_detail id n.host_id n.kind args) client (status_text queued)
                (new_command lib json n id args now))))

  reported-Aging :
      (host id : Bytes) (now : ℕ) (c : Checked Report)
      → ((r : Report) → c ≡ valid r → is_final r.status ≡ true)
      → Aging (
          checked c >>= λ r. Store.complete host id r now >>= λ d.
          audit lib json now
            (codes "command.result")
            (target lib d.args)
            (result_detail id d.kind d.error)
            (codes "host:" ++ host)
            (status_text d.status)
          >> pure d)
  reported-Aging host id now (invalid e) h = Aging-refuse (rejected e)
  reported-Aging host id now (valid r) h =
      Aging-bind (Store.complete host id r now) _ (complete-Aging host id r now (h r refl)) (λ d.
        Aging-audited lib json now (codes "command.result") (target lib d.args)
          (result_detail id d.kind d.error) (codes "host:" ++ host) (status_text d.status) d)

  pub answer-Aging :
      (host id : Bytes) (r : Report) (now : ℕ) → Aging (Service.complete lib json host id r now)
  unfolding Service.complete
  answer-Aging host id r now =
      reported-Aging host id now (validate_report lib r) (λ r'. validate_report-is_final lib r r')

  pub create_incident-Aging :
      (i : IncidentInput) (client : Bytes) (id : Option Bytes) (now : ℕ)
      → Aging (Service.create_incident lib json i client id now)
  unfolding Service.create_incident
  create_incident-Aging input client new_id now =
      Aging-bind (checked (validate_incident lib input now)) _
        (checked-Aging (validate_incident lib input now))
        (λ i. Aging-bind (or_refuse new_id no_id) _ (or_refuse-Aging new_id no_id) (λ id.
          Aging-bind (insert_incident i id now) _ (insert_incident-Aging i id now) (λ inc.
            Aging-audited lib json now (codes "incident.create") (codes "incident:" ++ id)
              (create_detail i.title i.kind) client (codes "created") inc)))

  pub edit_incident-Aging :
      (id : Bytes) (i : IncidentInput) (client : Bytes) (now : ℕ)
      → Aging (Service.edit_incident lib json id i client now)
  unfolding Service.edit_incident
  edit_incident-Aging id input client now =
      Aging-bind (checked (validate_incident lib input now)) _
        (checked-Aging (validate_incident lib input now))
        (λ i. Aging-bind (update_incident id i now) _ (update_incident-Aging id i now) (λ inc.
          Aging-audited lib json now (codes "incident.update") (codes "incident:" ++ id)
            (update_detail i.title i.kind (is_some i.closed_at)) client (codes "updated") inc))

  pub remove_incident-Aging :
      (id client : Bytes) (now : ℕ) → Aging (Service.remove_incident lib json id client now)
  unfolding Service.remove_incident
  remove_incident-Aging id client now =
      Aging-bind (delete_incident id) _ (delete_incident-Aging id) (λ u.
        audit-Aging lib json now (codes "incident.delete") (codes "incident:" ++ id) delete_detail
          client (codes "deleted"))

pub maintain-Aging : (clock now : ℕ) → Aging (Service.maintain clock now)
unfolding Service.maintain
maintain-Aging clock now =
    Aging-bind (attempt (expire now)) _ (Aging-attempt (expire now) (expire-Aging now)) (λ u.
      Aging-bind (attempt (clear_results (now - result_retention))) _
        (Aging-attempt (clear_results (now - result_retention))
          (clear_results-Aging (now - result_retention)))
        (λ w.
          Aging-attempt (purge_audit clock (now - audit_retention))
            (purge_audit-Aging clock (now - audit_retention))))

pub refused-Aging :
    (lib : Library) (json : Json) (n : NewCommand) (client why : Bytes) (now : ℕ)
    → Aging (Service.refused_queue lib json n client why now)
unfolding Service.refused_queue
refused-Aging lib json n client why now =
    audit-Aging lib json now (codes "command.refused") (target lib n.args)
      (refused_detail n.host_id n.kind) client why

pub claims-Aging : (host : Bytes) (now : ℕ) → Aging (Service.claim host now)
unfolding Service.claim
claims-Aging host now =
    Aging-bind (expire now) _ (expire-Aging now) (λ n. claim-Aging host now Service.claim_batch)

pub looks-Aging : (id : Bytes) (now : ℕ) → Aging (Service.command id now)
unfolding Service.command
looks-Aging id now = Aging-bind (expire now) _ (expire-Aging now) (λ n. command-Aging id)

commands_list-Aging : (limit : ℕ) → Aging (Store.commands limit)
unfolding Store.commands
commands_list-Aging limit = Aging-statement _ (λ t. refl)

pub lists-Aging : (limit : ℤ) (now : ℕ) → Aging (Service.commands limit now)
unfolding Service.commands
lists-Aging limit now =
    Aging-bind (expire now) _ (expire-Aging now) (λ n. commands_list-Aging (clamp_limit limit))

pub pages-Aging : (before : ℕ) (limit : ℤ) → Aging (Service.audit_log before limit)
unfolding Service.audit_log audit_page
pages-Aging before limit = Aging-statement _ (λ t. refl)
