-- ===== src/Sql/Atomic.antt =====
-- The tables after a call that reports an error.
use smotryashchiy.Base.{◌≡◌, refl, true, false, arith, if◌then◌else◌, next_fails}
use smotryashchiy.Sql.{
  Db, Result, ok, err, Action, database, statement, advance, commit, transaction, Ending, commits,
  returns, end, ended_transaction,
}

-- A call that reports an error has left the tables as they were.
abbrev pub Unchanged : {T E A : Type 0} → Db T → Result E A × Db T → Type 0
Unchanged d (ok a, d') = Unit
Unchanged d (err e, d') = d'.tables ≡ d.tables

commit-Unchanged :
    {T E A : Type 0} (d : Db T) (r : Result E A × Db T) → Unchanged d (commit d.tables r)
commit-Unchanged d (ok a, d') = ground arith
commit-Unchanged d (err e, d') = refl

-- A transaction applies all of its statements or none, wherever it fails.
pub transaction-Unchanged :
    {T E A : Type 0} (m : Action T E A) (d : Db T) → Unchanged d (transaction m d)
transaction-Unchanged m d = ground (arith, commit-Unchanged d (m (advance d)))

end-Unchanged :
    {T E A : Type 0} (d : Db T) (r : Result E (Ending A) × Db T) → Unchanged d (end d.tables r)
end-Unchanged d (ok (commits a), d') = commit-Unchanged d (ok a, d')
end-Unchanged d (ok (returns a), d') = tt
end-Unchanged d (err e, d') = refl

-- The same where the transaction may return before its `Commit`.
pub ended_transaction-Unchanged :
    {T E A : Type 0} (m : Action T E (Ending A)) (d : Db T) → Unchanged d (ended_transaction m d)
ended_transaction-Unchanged m d = ground (arith, end-Unchanged d (m (advance d)))

-- A statement fails, or it does what it is there for.
pub statement-rule :
    {T E A : Type 0} (P : Result E A × Db T → Type 0) (f : T → A × T) (d : Db T)
    → P (err database, advance d)
    → P (ok (f d.tables).0, record (advance d) { tables = (f d.tables).1 })
    → P (statement f d)
statement-rule {T} {E} {A} P f d failed done =
    elim (next_fails d.faults)
      as (λ b. P (
        if b
        then (err database, advance d)
        else (ok (f d.tables).0, record (advance d) { tables = (f d.tables).1 }))) [
          | true ↦ failed
          | false ↦ done
        ]

-- What stands behind a call.
abbrev pub continue :
    {T E A B : Type 0} → (A → Action T E B) → Result E A × Db T → Result E B × Db T
continue f r = let (x, d) = r in elim x [ ok a ↦ f a d | err e ↦ (err e, d) ]

pub statement-done :
    {T E A : Type 0} (f : T → A × T) (d : Db T)
    → next_fails d.faults ≡ false
    → statement {E = E} f d ≡ (ok (f d.tables).0, record (advance d) { tables = (f d.tables).1 })
statement-done f d h = rw h refl
