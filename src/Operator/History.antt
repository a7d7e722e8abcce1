-- ===== src/Operator/History.antt =====
-- Any sequence of calls on the operator's service.
pub mod Calls
pub mod Evolution
pub mod Once
use smotryashchiy.Base.{
  ℕ, ◌≡◌, ◌⊎◌, refl, Bool, true, false, List, [], ◌∷◌, ◌++◌, Option, none, some, arith, Bytes, ℤ,
  nat_eq, if◌then◌else◌, Bool-cases, inl, inr, next_fails, is_empty, codes, ◌-◌,
}
use smotryashchiy.Sql.{
  Db, Result, ok, err, Action, ◌>>=◌, ◌>>◌, pure, refuse, query, statement, constrained, Fault,
}
use smotryashchiy.Operator.Command.{
  queued, Claimed, Command, NewCommand, Library, Checked, valid, invalid,
}
use smotryashchiy.Operator.Validate.{Report, is_final, validate, validate_report, target}
use smotryashchiy.Operator.Incident.{Incident, IncidentInput, validate_incident}
use smotryashchiy.Operator.Audit.{AuditEntry}
use smotryashchiy.Operator.Store
use smotryashchiy.Assoc.{is_some}
use smotryashchiy.Operator.Store.{
  Tables, Error, Store, not_found, no_id, rejected, insert_command, expire, clear_results,
}
use smotryashchiy.Operator.Records.{
  NewEntry, find_incident, incident, insert_incident, update_incident, delete_incident,
  append_audit, audit_page, purge_audit,
}
use smotryashchiy.Operator.Service
use smotryashchiy.Operator.Service.{
  Json, Detail, checked, or_refuse, attempt, audit, new_command, clamp_limit, status_text,
  queue_detail, result_detail, create_detail, update_detail, delete_detail, result_retention,
  audit_retention,
}
use smotryashchiy.Operator.Store.Life.{
  Evolves, Evolves-refl, Evolves-trans, Aging, Aging-same, Aging-bind,
}
use smotryashchiy.Operator.Store.Claims.{handed}
use smotryashchiy.Operator.Store.Evolution.{
  Aging-pure, Aging-refuse, insert_command-Aging, claim-Aging, command-Aging, complete-Aging,
  expire-Aging, clear_results-Aging,
}

-- The calls of the handlers and of the agents, and the jobs that run every day and every minute.
pub data Request : Type 0 where
  queues : NewCommand → Bytes → Option Bytes → Request
  is_refused : NewCommand → Bytes → Bytes → Request
  claims : Bytes → Request
  answers : Bytes → Bytes → Report → Request
  looks : Bytes → Request
  lists : ℤ → Request
  creates : IncidentInput → Bytes → Option Bytes → Request
  edits : Bytes → IncidentInput → Bytes → Request
  removes : Bytes → Bytes → Request
  pages : ℕ → ℤ → Request
  maintains : ℕ → Request
  ticks : Request

module _ (lib : Library) (json : Json) where
  -- A call at `now`, with the commands that it hands out.
  abbrev pub perform : ℕ → Request → Store (List Claimed)
  perform now (queues n client id) = Service.queue lib json n client id now >> pure []
  perform now (is_refused n client why) = Service.refused_queue lib json n client why now >> pure []
  perform now (claims host) = Service.claim host now
  perform now (answers host id report) = Service.complete lib json host id report now >> pure []
  perform now (looks id) = Service.command id now >> pure []
  perform now (lists limit) = Service.commands limit now >> pure []
  perform now (creates i client id) = Service.create_incident lib json i client id now >> pure []
  perform now (edits id i client) = Service.edit_incident lib json id i client now >> pure []
  perform now (removes id client) = Service.remove_incident lib json id client now >> pure []
  perform now (pages before limit) = Service.audit_log before limit >> pure []
  perform now (maintains clock) = Service.maintain clock now >> pure []
  perform now ticks = expire now >> pure []

module _ (lib : Library) (json : Json) where
  -- A history: each call with the clock's reading. What it hands out, and the database behind it.
  abbrev pub run : List (ℕ × Request) → Db Tables → List Claimed × Db Tables
  run [] d = ([], d)
  run ((now, req) ∷ reqs) d =
      let (r, d') = perform lib json now req d in
      let (cs, d'') = run reqs d' in (handed r ++ cs, d'')
