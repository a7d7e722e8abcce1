-- ===== src/Operator/Tests.antt =====
-- Runs of the operator's console, and the theorems at concrete inputs.
use smotryashchiy.Base.{
  ℕ, ◌^◌, ◌≤◌, ◌≡◌, refl, true, false, not, List, [], ◌∷◌, none, some, Bytes, bytes_eq, codes, ltb,
  keep_if,
}
use smotryashchiy.Sorting.{insertion_sorter}
use smotryashchiy.Sql
use smotryashchiy.Sql.{Db}
use smotryashchiy.Auth.Service.{Bcrypt, verify_password, ok}
use smotryashchiy.Auth.LoginLimiter.{retry_after, failure}
use smotryashchiy.Auth.Handlers.{Turns, step_up}
use smotryashchiy.Operator.Command.{
  warn, terminate, queued, Command, NewCommand, Args, Library, email_pattern,
}
use smotryashchiy.Operator.Validate.{validate}
use smotryashchiy.Operator.Validate.Accepted.{Decides, validate_lem}
use smotryashchiy.Operator.Audit.{AuditEntry}
use smotryashchiy.Operator.Store.{Row, Tables, insert_command, command}
use smotryashchiy.Operator.Store.Life.{Evolves}
use smotryashchiy.Operator.Store
use smotryashchiy.Operator.Store.Claims.{handed}
use smotryashchiy.Operator.Store.Owned.{Owned, claim-Owned}
use smotryashchiy.Operator.Store.Counting.{times_claimed, chances}
use smotryashchiy.Operator.Store.ReadBack.{command-insert_command}
use smotryashchiy.Operator.Records.{may_go, purge_audit}
use smotryashchiy.Operator.Records.Kept.{purge_audit-keeps_young}
use smotryashchiy.Operator.Service.{Json, new_command, queue}
use smotryashchiy.Operator.History.{Request, queues, claims, run}
use smotryashchiy.Operator.History.Evolution.{commands_evolve}
use smotryashchiy.Operator.History.Once.{claimed_once}
use smotryashchiy.Operator.Handlers.{Console, Answer, queue_handler, accepted_needs_password}

abbrev account : Args
account = record {
  user = none;
  email = some (codes "a@b");
  days = none;
  compensate = none;
  refund = none;
  note = none;
  reason = none;
}

-- Every text decodes to one account, and every account is encoded as nothing.
abbrev library : Library
library = record {
  trim_space = λ s. s;
  valid_utf8 = λ s. true;
  runes = λ s. s;
  is_control = λ c. ltb c 32;
  decode_strict = λ s. some account;
  unmarshal = λ s. some account;
  marshal = λ a. some [];
  json_valid = λ s. true;
  to_valid_utf8 = λ s. s;
}

abbrev json : Json
json = record { encode = λ d. none }

abbrev client : Bytes
client = codes "10.0.0.1"

abbrev host : Bytes
host = codes "h"

abbrev warning : NewCommand
warning = record { host_id = host; kind = warn; args = []; reason = codes "spam" }

abbrev ending : NewCommand
ending = record { host_id = host; kind = terminate; args = []; reason = codes "spam" }

abbrev waiting : Row
waiting = record {
  id = codes "w";
  host_id = host;
  kind = warn;
  args = [];
  reason = some (codes "spam");
  status = queued;
  created_at = 5;
  started_at = none;
  finished_at = none;
  result = none;
  error = none;
}

abbrev tables : Tables
tables = record {
  hosts = host ∷ [];
  commands = waiting ∷ [];
  incidents = [];
  audit = [];
  next_audit = 1;
}

-- The second commit fails.
abbrev database : Db Tables
database = record { tables = tables; faults = false ∷ false ∷ false ∷ false ∷ false ∷ true ∷ [] }

abbrev requests : List (ℕ × Request)
requests =
    (6_000_000, queues warning client (some (codes "n")))
    ∷ (7_000_000, claims host)
    ∷ (8_000_000, claims host)
    ∷ (9_000_000, claims host)
    ∷ []

validate_lem_example : Decides library warning (validate library warning)
validate_lem_example = validate_lem library warning

commands_evolve_example :
    Evolves tables.commands (run library json requests database).1.tables.commands
commands_evolve_example = commands_evolve library json requests database

claimed_once_example :
    (times_claimed (codes "w") (run library json requests database).0 ≤ 1)
    × (times_claimed (codes "w") (run library json requests database).0
        ≤ chances (codes "w") tables.commands)
claimed_once_example = claimed_once library json (codes "w") requests database (refl, tt)

abbrev steady : Db Tables
steady = record { tables = tables; faults = [] }

claim-Owned_example : Owned host 5 tables.commands (handed (Store.claim host 9_000_000 5 steady).0)
claim-Owned_example = claim-Owned host 9_000_000 5 steady

abbrev fresh : Command
fresh = new_command library json warning (codes "n") [] 6_000_000

command-insert_command_example :
    (command (codes "n") (insert_command fresh steady).1).0 ≡ Sql.ok fresh
unfolding insert_command
command-insert_command_example =
    command-insert_command fresh steady (insert_command fresh steady).1
      (record {
        waits = refl;
        not_started = refl;
        not_finished = refl;
        no_result = refl;
        no_error = refl;
        whole = refl;
      })
      refl refl

abbrev entry : ℕ → ℕ → AuditEntry
entry id at = record {
  id = id;
  at = at;
  action = [];
  target = [];
  detail = [];
  client = [];
  outcome = [];
}

abbrev audited : Db Tables
audited = record {
  tables = record tables { audit = entry 1 0 ∷ entry 2 200_000_000_000 ∷ [] };
  faults = [];
}

purge_audit-keeps_young_example :
    keep_if
      (λ (e : AuditEntry). not (may_go 100_000_000 e))
      (purge_audit 100_000_000 (10 ^ 6) audited).1.tables.audit
    ≡ keep_if (λ (e : AuditEntry). not (may_go 100_000_000 e)) audited.tables.audit
purge_audit-keeps_young_example = purge_audit-keeps_young 100_000_000 (10 ^ 6) audited

-- The hash of the tests is the password itself.
abbrev plain : Bcrypt
plain = record { generate = λ p. some p; compare = bytes_eq }

abbrev console : Console
console = record {
  guard = record {
    service = record {
      store = record { admin_hash = some (codes "secret"); readable = true; writable = true };
      sessions = [];
    };
    attempts = [];
  };
  database = steady;
}

-- While the password is compared, another client's failure is counted.
abbrev busy : Turns
busy = record {
  look_at = 6_000_000;
  after_look =
      λ h. record h { attempts = failure insertion_sorter h.attempts (codes "10.0.0.9") 6_000_001 };
  check_at = 6_000_001;
  after_check = λ h. h;
  count_at = 6_000_002;
}

abbrev ended : Console × Answer
ended =
    queue_handler plain insertion_sorter library json busy console client ending (codes "secret")
      (some (codes "n")) 6_000_000

accepted_needs_password_example :
    ((retry_after [] client 6_000_000).1 ≡ none)
    × (verify_password plain console.guard.service (codes "secret") ≡ ok tt)
unfolding queue_handler step_up queue insert_command validate retry_after verify_password failure
    email_pattern
accepted_needs_password_example =
    accepted_needs_password plain insertion_sorter library json busy console ended.0 client ending
      (codes "secret") (some (codes "n")) 6_000_000
      (new_command library json ending (codes "n") [] 6_000_000) refl refl
