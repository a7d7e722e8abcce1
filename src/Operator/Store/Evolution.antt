-- ===== src/Operator/Store/Evolution.antt =====
-- store.go: every call on the table of commands moves each command along its life.
use smotryashchiy.Base.{
  ℕ, ◌+◌, ◌≡◌, ◌⊎◌, refl, true, false, List, [], ◌∷◌, ◌++◌, Option, none, some, arith, Bytes,
  bytes_eq, bytes_eq_iff, nat_eq, if◌then◌else◌, Bool-cases, Option-cases, inl, inr, next_fails,
}
use smotryashchiy.Sql.{Db, ◌>>◌, pure, refuse, query}
use smotryashchiy.Operator.Command.{queued, running, failed, expired, Claimed, Command}
use smotryashchiy.Operator.Validate.{Report, is_final}
use smotryashchiy.Operator.Store.{
  Row, Tables, Error, Store, not_found, row_of, violates, insert_command, update_commands, find_row,
  scan_command, is_queued_row, start, mark_running, select_queued, claim, command, is_running_row,
  finish, complete, is_stale_queued, lapse, is_stale_running, give_up, expire, is_clearable, clear,
  clear_results,
}
use smotryashchiy.Operator.Store.Life.{
  claimed, lapsed, answered, given_up, stay, Ages, Evolves-append, Unique, Aged, Aged-refl, Aging,
  Aging-same, Aging-bind, Aging-transaction, Aging-update, moved, queued_eq, running_eq,
}

Aging-query : {A : Type 0} (f : Tables → A) → Aging (query f)
Aging-query f = Aging-same (query f) (λ d. ground arith)

pub Aging-pure : {A : Type 0} (a : A) → Aging (pure a)
Aging-pure a = Aging-same (pure a) (λ d. refl)

pub Aging-refuse : {A : Type 0} (e : Error) → Aging (refuse {A = A} e)
Aging-refuse {A} e = Aging-same (refuse {A = A} e) (λ d. refl)

Unique-append :
    (rows : List Row) (r : Row) → find_row r.id rows ≡ none → Unique rows → Unique (rows ++ r ∷ [])
Unique-append [] r h u = (refl, tt)
Unique-append (x ∷ rows) r h u = (
  last_row x.id rows r u.0 (ground (arith, bytes_eq_iff x.id r.id, bytes_eq_iff r.id x.id)),
  Unique-append rows r (ground arith) u.1,
)
  where
    last_row :
        (id : Bytes) (rows : List Row) (r : Row)
        → find_row id rows ≡ none
        → bytes_eq r.id id ≡ false
        → find_row id (rows ++ r ∷ []) ≡ none
    last_row id [] r h e = rw e refl
    last_row id (y ∷ rows) r h e = ground (arith, last_row id rows r)

insert_command-Aged :
    (c : Command) (d : Db Tables) → Aged d.tables.commands (insert_command c d).1.tables.commands
unfolding insert_command
insert_command-Aged c d = elim (Bool-cases (next_fails d.faults)) [
  | inl e ↦ rw e (Aged-refl d.tables.commands)
  | inr e ↦ rw e (elim (Option-cases (violates (row_of c) d.tables)) [
    | inl v ↦ rw v (record {
      evolved = Evolves-append d.tables.commands (row_of c ∷ []);
      unique = Unique-append d.tables.commands (row_of c) (ground arith);
    })
    | inr (x, v) ↦ rw v (Aged-refl d.tables.commands)
  ])
]

pub insert_command-Aging : (c : Command) → Aging (insert_command c)
insert_command-Aging c = record { ages = insert_command-Aged c }

start-Ages : (now : ℕ) (id : Bytes) (r : Row) → is_queued_row id r ≡ true → Ages r (start now r)
start-Ages now id r h =
    moved r (start now r) queued running (queued_eq r.status (ground arith)) claimed refl refl refl
      refl refl refl

pub mark_running-Aging : (now : ℕ) (cs : List Claimed) → Aging (mark_running now cs)
unfolding mark_running
mark_running-Aging now [] = Aging-pure tt
mark_running-Aging now (c ∷ cs) =
    Aging-bind (update_commands (is_queued_row c.id) (start now)) (λ n. mark_running now cs)
      (Aging-update (is_queued_row c.id) (start now) (start-Ages now c.id))
      (λ n. mark_running-Aging now cs)

pub claim-Aging : (host : Bytes) (now limit : ℕ) → Aging (claim host now limit)
unfolding claim
claim-Aging host now limit = Aging-transaction _ (
    Aging-bind (query (select_queued host limit)) (λ cs. mark_running now cs >> pure cs)
      (Aging-query (select_queued host limit))
      (λ cs.
        Aging-bind (mark_running now cs) (λ u. pure cs) (mark_running-Aging now cs)
          (λ u. Aging-pure cs)))

or_not_found-Aging :
    (found : Option Row)
    → Aging (
        let m : Store Command = elim found [
          | none ↦ refuse not_found
          | some r ↦ pure (scan_command r)
        ] in
        m)
or_not_found-Aging none = Aging-refuse not_found
or_not_found-Aging (some r) = Aging-pure (scan_command r)

pub command-Aging : (id : Bytes) → Aging (command id)
unfolding command
command-Aging id =
    Aging-bind (query (λ t. find_row id t.commands)) _ (Aging-query (λ t. find_row id t.commands))
      or_not_found-Aging

finish-Ages :
    (host id : Bytes) (report : Report) (now : ℕ) (r : Row)
    → is_final report.status ≡ true
    → is_running_row host id r ≡ true
    → Ages r (finish report now r)
finish-Ages host id report now r f h =
    moved r (finish report now r) running report.status (running_eq r.status (ground arith))
      (answered report.status f) refl refl refl refl refl refl

pub complete-Aging :
    (host id : Bytes) (report : Report) (now : ℕ)
    → is_final report.status ≡ true
    → Aging (complete host id report now)
unfolding complete
complete-Aging host id report now f =
    Aging-bind (update_commands (is_running_row host id) (finish report now)) _
      (Aging-update (is_running_row host id) (finish report now)
        (λ r h. finish-Ages host id report now r f h))
      (λ n. answer n (Bool-cases (nat_eq n 0)))
  where
    answer :
        (n : ℕ)
        → (nat_eq n 0 ≡ true) ⊎ (nat_eq n 0 ≡ false)
        → Aging (if nat_eq n 0 then refuse not_found else command id)
    answer n (inl e) = rw e (Aging-refuse not_found)
    answer n (inr e) = rw e (command-Aging id)

lapse-Ages : (now : ℕ) (r : Row) → is_stale_queued now r ≡ true → Ages r (lapse now r)
lapse-Ages now r h =
    moved r (lapse now r) queued expired (queued_eq r.status (ground arith)) lapsed refl refl refl
      refl refl refl

give_up-Ages : (now : ℕ) (r : Row) → is_stale_running now r ≡ true → Ages r (give_up now r)
give_up-Ages now r h =
    moved r (give_up now r) running failed (running_eq r.status (ground arith)) given_up refl refl
      refl refl refl refl

pub expire-Aging : (now : ℕ) → Aging (expire now)
unfolding expire
expire-Aging now =
    Aging-bind (update_commands (is_stale_queued now) (lapse now)) _
      (Aging-update (is_stale_queued now) (lapse now) (lapse-Ages now))
      (λ a.
        Aging-bind (update_commands (is_stale_running now) (give_up now)) _
          (Aging-update (is_stale_running now) (give_up now) (give_up-Ages now))
          (λ b. Aging-pure (a + b)))

pub clear_results-Aging : (before : ℕ) → Aging (clear_results before)
unfolding clear_results
clear_results-Aging before = Aging-update (is_clearable before) clear (λ r h. record {
  same_id = refl;
  same_host = refl;
  same_kind = refl;
  same_args = refl;
  same_created = refl;
  moves = stay;
})
