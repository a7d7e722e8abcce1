-- ===== src/Operator/Store.antt =====
-- internal/operator/infrastructure/store.go: the table of commands. Stored times are milliseconds.
pub mod Life
pub mod Evolution
pub mod Counting
pub mod Claims
pub mod Owned
pub mod ReadBack
use smotryashchiy.Base.{
  ℕ, ◌+◌, ◌-◌, ◌*◌, ◌/◌, ◌^◌, Bool, true, false, not, ◌&&◌, ◌||◌, List, [], ◌∷◌, ◌++◌, Option, none,
  some, map, Bytes, bytes_eq, ltb, nat_eq, if◌then◌else◌, codes, is_empty, keep_if, take, length,
  lex_lt,
}
use smotryashchiy.Assoc.{is_some}
use smotryashchiy.Sql.{
  Fault, database, refused, Action, ◌>>=◌, ◌>>◌, pure, refuse, statement, constrained, query, exec,
  transaction, order_by,
}
use smotryashchiy.Operator.Command.{
  Kind, Status, queued, running, done, failed, expired, unknown, Command, Claimed, Invalid,
}
use smotryashchiy.Operator.Validate.{Report}
use smotryashchiy.Operator.Incident.{Incident}
use smotryashchiy.Operator.Audit.{AuditEntry}

-- A row of `operator_commands`, with what may be NULL.
pub record Row : Type 0 where
  pub id : Bytes
  pub host_id : Bytes
  pub kind : Kind
  pub args : Bytes
  pub reason : Option Bytes
  pub status : Status
  pub created_at : ℕ
  pub started_at : Option ℕ
  pub finished_at : Option ℕ
  pub result : Option Bytes
  pub error : Option Bytes

pub record Tables : Type 0 where
  pub hosts : List Bytes
  pub commands : List Row
  pub incidents : List Incident
  pub audit : List AuditEntry
  pub next_audit : ℕ

-- The errors of the store, and those that the service adds.
pub data Error : Type 0 where
  bad_host not_found no_id : Error
  rejected : Invalid → Error

abbrev pub Store : Type 0 → Type 0
Store A = Action Tables Error A

-- `UnixMilli`, up to the epoch
abbrev pub unix_milli : ℕ → ℕ
unix_milli t = t / 10 ^ 6

-- `time.UnixMilli`
abbrev pub of_milli : ℕ → ℕ
of_milli ms = ms * 10 ^ 6

abbrev pub unix : Option ℕ → Option ℕ
unix none = none
unix (some t) = some (unix_milli t)

abbrev pub millis : Option ℕ → Option ℕ
millis none = none
millis (some ms) = some (of_milli ms)

abbrev pub null_string : Bytes → Option Bytes
null_string s = if is_empty s then none else some s

-- `sql.NullString.String`
abbrev pub string_of : Option Bytes → Bytes
string_of none = []
string_of (some s) = s

abbrev pub is_queued : Status → Bool
is_queued queued = true
is_queued _ = false

abbrev pub is_running : Status → Bool
is_running running = true
is_running _ = false

-- `column < ms`, which NULL is not.
abbrev pub is_before : Option ℕ → ℕ → Bool
is_before none ms = false
is_before (some t) ms = ltb t ms

abbrev pub find_row : Bytes → List Row → Option Row
find_row id [] = none
find_row id (r ∷ rs) = if bytes_eq r.id id then some r else find_row id rs

abbrev pub has_host : Bytes → List Bytes → Bool
has_host host [] = false
has_host host (h ∷ hs) = bytes_eq h host || has_host host hs

-- The row that `InsertCommand` writes.
abbrev pub row_of : Command → Row
row_of c = record {
  id = c.id;
  host_id = c.host_id;
  kind = c.kind;
  args = c.args;
  reason = null_string c.reason;
  status = c.status;
  created_at = unix_milli c.created_at;
  started_at = none;
  finished_at = none;
  result = none;
  error = none;
}

abbrev pub scan_command : Row → Command
scan_command r = record {
  id = r.id;
  host_id = r.host_id;
  kind = r.kind;
  args = r.args;
  reason = string_of r.reason;
  status = r.status;
  created_at = of_milli r.created_at;
  started_at = millis r.started_at;
  finished_at = millis r.finished_at;
  result = r.result;
  error = string_of r.error;
}

-- The primary key, and the reference to `hosts`.
abbrev pub violates : Row → Tables → Option (Fault Error)
violates r t =
    if is_some (find_row r.id t.commands)
    then some database
    else if has_host r.host_id t.hosts
    then none
    else some (refused bad_host)

unfoldable pub insert_command : Command → Store (Unit {0})
insert_command c =
    constrained (violates (row_of c))
      (λ t. (tt, record t { commands = t.commands ++ row_of c ∷ [] }))

-- An `UPDATE` of the commands: the rows that it matches, and what it sets.
abbrev pub update_rows : (Row → Bool) → (Row → Row) → List Row → List Row
update_rows p f rows = map (λ r. if p r then f r else r) rows

abbrev pub update_commands : (Row → Bool) → (Row → Row) → Store ℕ
update_commands p f =
    statement
      (λ t. (length (keep_if p t.commands), record t { commands = update_rows p f t.commands }))

-- `ORDER BY created_at, id`
abbrev pub is_older : Row → Row → Bool
is_older a b =
    ltb a.created_at b.created_at || (nat_eq a.created_at b.created_at && not (lex_lt b.id a.id))

abbrev pub is_waiting : Bytes → Row → Bool
is_waiting host r = bytes_eq r.host_id host && is_queued r.status

abbrev pub claimed_of : Row → Claimed
claimed_of r = record { id = r.id; kind = r.kind; args = r.args }

abbrev pub select_queued : Bytes → ℕ → Tables → List Claimed
select_queued host limit t =
    map claimed_of (take limit (order_by is_older (keep_if (is_waiting host) t.commands)))

abbrev pub is_queued_row : Bytes → Row → Bool
is_queued_row id r = bytes_eq r.id id && is_queued r.status

abbrev pub start : ℕ → Row → Row
start now r = record r { status = running; started_at = some (unix_milli now) }

-- The loop that marks the claimed commands running.
unfoldable pub mark_running : ℕ → List Claimed → Store (Unit {0})
mark_running now [] = pure tt
mark_running now (c ∷ cs) = do update_commands (is_queued_row c.id) (start now); mark_running now cs

unfoldable pub claim : Bytes → ℕ → ℕ → Store (List Claimed)
unfolding mark_running
claim host now limit =
    transaction (do cs ← query (select_queued host limit); mark_running now cs; pure cs)

unfoldable pub command : Bytes → Store Command
command id = do
  found ← query (λ t. find_row id t.commands)
  elim found [ none ↦ refuse not_found | some r ↦ pure (scan_command r) ]

abbrev pub is_running_row : Bytes → Bytes → Row → Bool
is_running_row host id r = bytes_eq r.id id && bytes_eq r.host_id host && is_running r.status

abbrev pub finish : Report → ℕ → Row → Row
finish report now r = record r {
  status = report.status;
  finished_at = some (unix_milli now);
  result = report.result;
  error = null_string report.error;
}

unfoldable pub complete : Bytes → Bytes → Report → ℕ → Store Command
unfolding command
complete host id report now = do
  n ← update_commands (is_running_row host id) (finish report now)
  if nat_eq n 0 then refuse not_found else command id

-- `ORDER BY created_at DESC, id DESC`
abbrev pub is_newer : Row → Row → Bool
is_newer a b = is_older b a

unfoldable pub commands : ℕ → Store (List Command)
commands limit = query (λ t. map scan_command (take limit (order_by is_newer t.commands)))

-- ten minutes
abbrev pub queued_expiry : ℕ
queued_expiry = 10 * 60 * 10 ^ 9

-- five minutes
abbrev pub running_expiry : ℕ
running_expiry = 5 * 60 * 10 ^ 9

abbrev pub is_stale_queued : ℕ → Row → Bool
is_stale_queued now r = is_queued r.status && ltb r.created_at (unix_milli (now - queued_expiry))

abbrev pub lapse : ℕ → Row → Row
lapse now r = record r { status = expired; finished_at = some (unix_milli now) }

abbrev pub is_stale_running : ℕ → Row → Bool
is_stale_running now r =
    is_running r.status && is_before r.started_at (unix_milli (now - running_expiry))

abbrev pub give_up : ℕ → Row → Row
give_up now r = record r {
  status = failed;
  finished_at = some (unix_milli now);
  error = some (codes "no result");
}

-- Two statements, with no transaction round them.
unfoldable pub expire : ℕ → Store ℕ
expire now = do
  a ← update_commands (is_stale_queued now) (lapse now)
  b ← update_commands (is_stale_running now) (give_up now)
  pure (a + b)

abbrev pub is_clearable : ℕ → Row → Bool
is_clearable before r =
    is_before r.finished_at (unix_milli before) && (is_some r.result || is_some r.error)

abbrev pub clear : Row → Row
clear r = record r { result = none; error = none }

unfoldable pub clear_results : ℕ → Store ℕ
clear_results before = update_commands (is_clearable before) clear
