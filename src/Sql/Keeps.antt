-- ===== src/Sql/Keeps.antt =====
-- Calls that keep an invariant of the tables, whatever statement of them fails.
use smotryashchiy.Base.{
  ◌≡◌, Bool, true, false, Option, none, if◌then◌else◌, next_fails, Bool-cases, Option-cases, inl,
  inr,
}
use smotryashchiy.Sql.{
  Db, Result, ok, err, Fault, Action, ◌>>=◌, pure, refuse, statement, query, constrained, advance,
  commit, transaction,
}
use smotryashchiy.Sql.Atomic.{statement-rule, continue}

pub record Keeps {T E A : Type 0} (I : T → Type 0) (m : Action T E A) : Type 0 where
  pub keeps : (d : Db T) → I d.tables → I (m d).1.tables

keeps_commit :
    {T E A : Type 0} (I : T → Type 0) (before : T) (r : Result E A × Db T)
    → I before
    → I r.1.tables
    → I (commit before r).1.tables
keeps_commit I before (err e, d) h k = h
keeps_commit I before (ok a, d) h k = elim (Bool-cases (next_fails d.faults)) [
  | inl e ↦ rw e h
  | inr e ↦ rw e k
]

pub keeps_constrained :
    {T E A : Type 0} (I : T → Type 0) (c : T → Option (Fault E)) (f : T → A × T) (d : Db T)
    → I d.tables
    → (c d.tables ≡ none → I (f d.tables).1)
    → I (constrained c f d).1.tables
keeps_constrained I c f d h p = elim (Bool-cases (next_fails d.faults)) [
  | inl e ↦ rw e h
  | inr e ↦ rw e (elim (Option-cases (c d.tables)) [ inl v ↦ rw v (p v) | inr (x, v) ↦ rw v h ])
]

module _ {T E : Type 0} {I : T → Type 0} where
  pub Keeps-pure : {A : Type 0} (a : A) → Keeps I (pure {T = T} {E = E} a)
  Keeps-pure a = record { keeps = λ d h. h }

  pub Keeps-refuse : {A : Type 0} (e : E) → Keeps I (refuse {T = T} {A = A} e)
  Keeps-refuse e = record { keeps = λ d h. h }

  pub Keeps-statement :
      {A : Type 0} (f : T → A × T)
      → ((t : T) → I t → I (f t).1)
      → Keeps I (statement {T = T} {E = E} f)
  Keeps-statement f p = record {
    keeps = λ d h. elim (Bool-cases (next_fails d.faults)) [
      | inl e ↦ rw e h
      | inr e ↦ rw e (p d.tables h)
    ];
  }

  pub Keeps-query : {A : Type 0} (f : T → A) → Keeps I (query {T = T} {E = E} f)
  Keeps-query f = Keeps-statement (λ t. (f t, t)) (λ t h. h)

  -- A statement with constraints keeps what it keeps where they hold.
  pub Keeps-constrained :
      {A : Type 0} (c : T → Option (Fault E)) (f : T → A × T)
      → ((t : T) → I t → c t ≡ none → I (f t).1)
      → Keeps I (constrained c f)
  Keeps-constrained c f p = record { keeps = λ d h. keeps_constrained I c f d h (p d.tables h) }

  pub Keeps-if :
      {A : Type 0} (b : Bool) (m n : Action T E A)
      → Keeps I m
      → Keeps I n
      → Keeps I (if b then m else n)
  Keeps-if true m n p q = p
  Keeps-if false m n p q = q

  pub keeps_on :
      {A B : Type 0} (f : A → Action T E B) (r : Result E A × Db T)
      → ((a : A) → Keeps I (f a))
      → I r.1.tables
      → I
          (let (x, d) = r in
            let y : Result E B × Db T = elim x [ ok a ↦ f a d | err e ↦ (err e, d) ] in y).1.tables
  keeps_on f (ok a, d) p h = (p a).keeps d h
  keeps_on f (err e, d) p h = h

  pub Keeps-bind :
      {A B : Type 0} (m : Action T E A) (f : A → Action T E B)
      → Keeps I m
      → ((a : A) → Keeps I (f a))
      → Keeps I (m >>= f)
  Keeps-bind m f p q = record { keeps = λ d h. keeps_on f (m d) q (p.keeps d h) }

  pub Keeps-transaction : {A : Type 0} (m : Action T E A) → Keeps I m → Keeps I (transaction m)
  Keeps-transaction m p = record {
    keeps = λ d h. elim (Bool-cases (next_fails d.faults)) [
      | inl e ↦ rw e h
      | inr e ↦ rw e (keeps_commit I d.tables (m (advance d)) h (p.keeps (advance d) h))
    ];
  }

  -- A query, and what is done with its answer.
  pub Keeps-found :
      {A B : Type 0} (f : T → A) (k : A → Action T E B)
      → ((d : Db T) → I d.tables → I (k (f d.tables) d).1.tables)
      → Keeps I (query f >>= k)
  Keeps-found f k p = record {
    keeps = λ d h.
        statement-rule (λ r. I (continue k r).1.tables) (λ t. (f t, t)) d h (p (advance d) h);
  }
