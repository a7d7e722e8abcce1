-- ===== src/Sql.antt =====
-- What the stores ask of `database/sql`: statements on tables that may fail, and transactions.
-- A statement that fails changes nothing; a transaction that ends in an error is rolled back.
pub mod Atomic
pub mod Fixes
pub mod Keeps
use smotryashchiy.Base.{
  Bool, true, false, List, [], ◌∷◌, Option, none, some, next_fails, later_faults, if◌then◌else◌,
}

-- The database's own error, or one that the code makes.
pub data Fault (E : Type 0) : Type 0 where
  database : Fault E
  refused : E → Fault E

pub data Result (E A : Type 0) : Type 0 where
  ok : A → Result E A
  err : Fault E → Result E A

pub record Db (T : Type 0) : Type 0 where
  pub tables : T
  pub faults : List Bool

-- What a call does to the database, and what it answers.
abbrev pub Action : Type 0 → Type 0 → Type 0 → Type 0
Action T E A = Db T → Result E A × Db T

abbrev pub advance : {T : Type 0} → Db T → Db T
advance d = record d { faults = later_faults d.faults }

module _ {T E : Type 0} where
  module _ {A : Type 0} where
    abbrev pub pure : A → Action T E A
    pure a d = (ok a, d)

    abbrev pub refuse : E → Action T E A
    refuse e d = (err (refused e), d)

    -- A statement: what it answers and what it leaves, at the tables that it finds.
    abbrev pub statement : (T → A × T) → Action T E A
    statement f d =
        if next_fails d.faults
        then (err database, advance d)
        else (ok (f d.tables).0, record (advance d) { tables = (f d.tables).1 })

    -- A statement on tables with constraints, which may refuse it.
    abbrev pub constrained : (T → Option (Fault E)) → (T → A × T) → Action T E A
    constrained check f d =
        if next_fails d.faults then (err database, advance d) else (elim (check d.tables) [
          | some e ↦ (err e, advance d)
          | none ↦ (ok (f d.tables).0, record (advance d) { tables = (f d.tables).1 })
        ])

    abbrev pub query : (T → A) → Action T E A
    query f = statement (λ t. (f t, t))

    -- `Commit`, at what the statements came to; the tables before them are given.
    abbrev pub commit : T → Result E A × Db T → Result E A × Db T
    commit before (err e, d) = (err e, record d { tables = before })
    commit before (ok a, d) =
        if next_fails d.faults
        then (err database, record (advance d) { tables = before })
        else (ok a, advance d)

    -- `BeginTx`, the statements, and `Commit` or the deferred `Rollback`.
    abbrev pub transaction : Action T E A → Action T E A
    transaction m d =
        if next_fails d.faults then (err database, advance d) else commit d.tables (m (advance d))

infixl 5 ◌>>=◌ ◌>>◌
abbrev pub ◌>>=◌ : {T E A B : Type 0} → Action T E A → (A → Action T E B) → Action T E B
◌>>=◌ m f d = let (r, d') = m d in elim r [ ok a ↦ f a d' | err e ↦ (err e, d') ]

abbrev pub ◌>>◌ : {T E A B : Type 0} → Action T E A → Action T E B → Action T E B
m >> k = m >>= λ _. k

abbrev pub exec : {T E : Type 0} → (T → T) → Action T E (Unit {0})
exec f = statement (λ t. (tt, f t))

-- `ORDER BY`, with what comes first.
module _ {ℓ} {A : Type ℓ} (before : A → A → Bool) where
  abbrev pub place : A → List A → List A
  place a [] = a ∷ []
  place a (x ∷ xs) = if before a x then a ∷ x ∷ xs else x ∷ place a xs

  abbrev pub order_by : List A → List A
  order_by [] = []
  order_by (x ∷ xs) = place x (order_by xs)

-- How a transaction ends without an error: with `Commit`, or by a return that leaves the deferred
-- `Rollback` to end it.
pub data Ending (A : Type 0) : Type 0 where
  commits returns : A → Ending A

module _ {T E A : Type 0} where
  abbrev pub end : T → Result E (Ending A) × Db T → Result E A × Db T
  end before (err e, d) = (err e, record d { tables = before })
  end before (ok (returns a), d) = (ok a, record d { tables = before })
  end before (ok (commits a), d) = commit before (ok a, d)

  abbrev pub ended_transaction : Action T E (Ending A) → Action T E A
  ended_transaction m d =
      if next_fails d.faults then (err database, advance d) else end d.tables (m (advance d))
