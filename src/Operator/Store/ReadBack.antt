-- ===== src/Operator/Store/ReadBack.antt =====
-- store.go: a command that was stored reads back.
use smotryashchiy.Base.{
  ◌*◌, ◌/◌, ◌%◌, ◌^◌, ◌≡◌, refl, ap, ◌∙◌, false, List, [], ◌∷◌, ◌++◌, Option, none, some, arith,
  Bytes, bytes_eq_iff, Option-cases, inl, inr, next_fails,
}
use smotryashchiy.Sql.{Db, ok, refuse, pure, advance}
use smotryashchiy.Sql.Atomic.{statement-done, continue}
use smotryashchiy.Operator.Command.{Command, queued}
use smotryashchiy.Operator.Store.{
  Row, Tables, Store, not_found, row_of, scan_command, find_row, insert_command, command,
  null_string, string_of,
}

string_of-null_string : (s : Bytes) → string_of (null_string s) ≡ s
string_of-null_string [] = refl
string_of-null_string (c ∷ s) = refl

find_row-last :
    (rows : List Row) (r : Row)
    → find_row r.id rows ≡ none
    → find_row r.id (rows ++ r ∷ []) ≡ some r
find_row-last [] r h = ground (arith, bytes_eq_iff r.id r.id)
find_row-last (x ∷ rows) r h = ground (arith, find_row-last rows r)

insert_command-rows :
    (c : Command) (d d' : Db Tables)
    → insert_command c d ≡ (ok tt, d')
    → (d'.tables.commands ≡ d.tables.commands ++ row_of c ∷ [])
      × (find_row c.id d.tables.commands ≡ none)
unfolding insert_command
insert_command-rows c d d' h = elim (Option-cases (find_row c.id d.tables.commands)) [
  | inl e ↦ ground arith
  | inr (r, e) ↦ ground arith
]

command-found :
    (id : Bytes) (r : Row) (d : Db Tables)
    → next_fails d.faults ≡ false
    → find_row id d.tables.commands ≡ some r
    → (command id d).0 ≡ ok (scan_command r)
unfolding command
command-found id r d h e =
    let answer : Option Row → Store Command =
      λ o. elim o [ none ↦ refuse not_found | some x ↦ pure (scan_command x) ] in
    ap (λ x. (continue answer x).0) (statement-done (λ t. (find_row id t.commands, t)) d h)
    ∙ ap (λ o. (answer o (advance d)).0) e

-- A queued command, created at a whole millisecond.
pub record IsNew (c : Command) : Type 0 where
  pub waits : c.status ≡ queued
  pub not_started : c.started_at ≡ none
  pub not_finished : c.finished_at ≡ none
  pub no_result : c.result ≡ none
  pub no_error : c.error ≡ []
  pub whole : c.created_at % 10 ^ 6 ≡ 0

scan_command-row_of : (c : Command) → IsNew c → scan_command (row_of c) ≡ c
scan_command-row_of c n =
    let when : c.created_at / 10 ^ 6 * 10 ^ 6 ≡ c.created_at = omega (arith, n.whole) in
    ground (
      arith,
      string_of-null_string c.reason,
      when,
      n.waits,
      n.not_started,
      n.not_finished,
      n.no_result,
      n.no_error,
    )

-- A new command that was stored without an error reads back as it was, if the next statement is
-- answered.
pub command-insert_command :
    (c : Command) (d d' : Db Tables)
    → IsNew c
    → insert_command c d ≡ (ok tt, d')
    → next_fails d'.faults ≡ false
    → (command c.id d').0 ≡ ok c
command-insert_command c d d' n h f =
    let stored = insert_command-rows c d d' h in
    command-found c.id (row_of c) d' f
      (ap (find_row c.id) stored.0 ∙ find_row-last d.tables.commands (row_of c) stored.1)
    ∙ ap ok (scan_command-row_of c n)
