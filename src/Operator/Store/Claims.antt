-- ===== src/Operator/Store/Claims.antt =====
-- store.go: what a claim hands out, counted for one command.
use smotryashchiy.Base.{
  ℕ, ◌+◌, ◌≤◌, ◌≡◌, refl, Bool, true, false, ◌&&◌, List, [], ◌∷◌, Option, none, some, arith, Bytes,
  bytes_eq, bytes_eq_iff, if◌then◌else◌, keep_if, length, nat_eq, ◌∙◌, Bool-cases, inl, inr,
  next_fails,
}
use smotryashchiy.Assoc.{is_some}
use smotryashchiy.Sql.{Db, Result, ok, err, database, ◌>>=◌, ◌>>◌, pure, query, advance, commit}
use smotryashchiy.Sql.Atomic.{statement-rule, continue}
use smotryashchiy.Operator.Command.{
  Status, queued, running, done, failed, expired, unknown, Claimed,
}
use smotryashchiy.Operator.Store.{
  Row, Tables, Error, find_row, is_queued, is_queued_row, start, update_rows, mark_running,
  select_queued, claim,
}
use smotryashchiy.Operator.Store.Life.{
  Step, claimed, lapsed, answered, given_up, Reach, stay, move, Evolves, Unique,
}
use smotryashchiy.Operator.Store.Counting.{times_claimed, chances, claimed-chances, unknown_claimed}

-- What the statements of the loop come to.
abbrev marked : ℕ → List Claimed → List Row → List Row
marked now [] rows = rows
marked now (c ∷ cs) rows = marked now cs (update_rows (is_queued_row c.id) (start now) rows)

-- Whether the command is there, and whether it is queued.
abbrev ready : Option Row → Bool
ready none = false
ready (some r) = is_queued r.status

ready-start :
    (now : ℕ) (id cid : Bytes) (rows : List Row)
    → ready (find_row id (update_rows (is_queued_row cid) (start now) rows))
      ≡ (if bytes_eq cid id then false else ready (find_row id rows))
ready-start now id cid [] = ground arith
ready-start now id cid (r ∷ rows) = ground (
  arith,
  ready-start now id cid rows,
  bytes_eq_iff r.id id,
  bytes_eq_iff r.id cid,
  bytes_eq_iff cid id,
)

present-start :
    (now : ℕ) (id cid : Bytes) (rows : List Row)
    → is_some (find_row id (update_rows (is_queued_row cid) (start now) rows))
      ≡ is_some (find_row id rows)
present-start now id cid [] = refl
present-start now id cid (r ∷ rows) = ground (arith, present-start now id cid rows)

present-marked :
    (now : ℕ) (id : Bytes) (cs : List Claimed) (rows : List Row)
    → is_some (find_row id (marked now cs rows)) ≡ is_some (find_row id rows)
present-marked now id [] rows = refl
present-marked now id (c ∷ cs) rows =
    present-marked now id cs (update_rows (is_queued_row c.id) (start now) rows)
    ∙ present-start now id c.id rows

ready-marked :
    (now : ℕ) (id : Bytes) (cs : List Claimed) (rows : List Row)
    → ready (find_row id (marked now cs rows))
      ≡ (ready (find_row id rows) && nat_eq (times_claimed id cs) 0)
ready-marked now id [] rows = ground arith
ready-marked now id (c ∷ cs) rows = ground (
  arith,
  ready-marked now id cs (update_rows (is_queued_row c.id) (start now) rows),
  ready-start now id c.id rows,
)

chances_lem :
    (id : Bytes) (rows : List Row)
    → chances id rows
      ≡ (if is_some (find_row id rows) then (if ready (find_row id rows) then 1 else 0) else 1)
chances_lem id rows = ground arith

-- A command that is handed out has no chance left.
marked-chances :
    (now : ℕ) (id host : Bytes) (limit : ℕ) (t : Tables)
    → Unique t.commands
    → let cs = select_queued host limit t in
      times_claimed id cs + chances id (marked now cs t.commands) ≤ chances id t.commands
marked-chances now id host limit t u =
    let cs = select_queued host limit t in
    ground (
      arith,
      claimed-chances id host limit t u,
      unknown_claimed id host limit t,
      chances_lem id t.commands,
      chances_lem id (marked now cs t.commands),
      present-marked now id cs t.commands,
      ready-marked now id cs t.commands,
    )

-- What the loop has done when it reports no error.
abbrev Marks : ℕ → List Claimed → List Row → Result Error (Unit {0}) × Db Tables → Type 0
Marks now cs rows (ok u, d) = d.tables.commands ≡ marked now cs rows
Marks now cs rows (err e, d) = Unit

mark_running-Marks :
    (now : ℕ) (cs : List Claimed) (d : Db Tables)
    → Marks now cs d.tables.commands (mark_running now cs d)
unfolding mark_running
mark_running-Marks now [] d = refl
mark_running-Marks now (c ∷ cs) d =
    let update : Tables → ℕ × Tables = λ t. (
      length (keep_if (is_queued_row c.id) t.commands),
      record t { commands = update_rows (is_queued_row c.id) (start now) t.commands },
    ) in
    statement-rule
      (λ r. Marks now (c ∷ cs) d.tables.commands (continue (λ (n : ℕ). mark_running now cs) r))
      update d tt (mark_running-Marks now cs (record (advance d) { tables = (update d.tables).1 }))

-- What a call hands out: nothing when it reports an error.
abbrev pub handed : {E : Type 0} → Result E (List Claimed) → List Claimed
handed (ok cs) = cs
handed (err e) = []

-- A call hands a command out only if it has a chance, which it then has lost.
abbrev pub Spends : Bytes → List Row → Result Error (List Claimed) × Db Tables → Type 0
Spends id rows (r, d) = times_claimed id (handed r) + chances id d.tables.commands ≤ chances id rows

commit-Spends :
    (now : ℕ) (id : Bytes) (cs : List Claimed) (before : Tables)
    (r : Result Error (Unit {0}) × Db Tables)
    → times_claimed id cs + chances id (marked now cs before.commands) ≤ chances id before.commands
    → Marks now cs before.commands r
    → Spends id before.commands (
        commit before (
          let (x, d') = r in
          let y : Result Error (List Claimed) × Db Tables = elim x [
            | ok a ↦ (ok cs, d')
            | err e ↦ (err e, d')
          ] in
          y))
commit-Spends now id cs before (err e, d) h m = omega arith
commit-Spends now id cs before (ok u, d) h m = elim (Bool-cases (next_fails d.faults)) [
  | inl e ↦ rw e (omega arith)
  | inr e ↦ rw e (rw m h)
]

pub claim-Spends :
    (id host : Bytes) (now limit : ℕ) (d : Db Tables)
    → Unique d.tables.commands
    → Spends id d.tables.commands (claim host now limit d)
unfolding claim
claim-Spends id host now limit d u =
    elim (next_fails d.faults)
      as (λ b. Spends id d.tables.commands (
        if b
        then (err database, advance d)
        else commit d.tables (
            (query (select_queued host limit) >>= λ cs. mark_running now cs >> pure cs)
              (advance d)))) [
                | true ↦ omega arith
                | false ↦
                    statement-rule
                      (λ r.
                        Spends id d.tables.commands
                          (commit d.tables (continue (λ cs. mark_running now cs >> pure cs) r)))
                      (λ t. (select_queued host limit t, t)) (advance d) (omega arith)
                      (let cs = select_queued host limit d.tables in
                        commit-Spends now id cs d.tables (mark_running now cs (advance (advance d)))
                          (marked-chances now id host limit d.tables u)
                          (mark_running-Marks now cs (advance (advance d))))
              ]

Step-leaves : (s t : Status) → Step s t → is_queued t ≡ false
Step-leaves s t claimed = refl
Step-leaves s t lapsed = refl
Step-leaves s queued (answered x f) = cc f
Step-leaves s running (answered x f) = refl
Step-leaves s done (answered x f) = refl
Step-leaves s failed (answered x f) = refl
Step-leaves s expired (answered x f) = refl
Step-leaves s (unknown u) (answered x f) = refl
Step-leaves s t given_up = refl

never_back : (s t : Status) → Reach s t → is_queued s ≡ false → is_queued t ≡ false
never_back s t stay h = h
never_back s t (move {t = u} m r) h = never_back u t r (Step-leaves s u m)

queued_before : (s t : Status) → Reach s t → is_queued t ≡ true → is_queued s ≡ true
queued_before s t r h = ground (arith, never_back s t r)

-- A command that ages gains no chance.
pub Evolves-chances :
    (id : Bytes) (rows rows' : List Row) → Evolves rows rows' → chances id rows' ≤ chances id rows
Evolves-chances id [] rows' e = ground arith
Evolves-chances id (x ∷ xs) [] e = absurd e
Evolves-chances id (x ∷ xs) (y ∷ ys) (a, e) =
    let same : y.id ≡ x.id = a.same_id in
    rw same (ground (arith, Evolves-chances id xs ys e, queued_before x.status y.status a.moves))
