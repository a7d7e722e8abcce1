-- ===== src/Operator/Store/Life.antt =====
-- store.go: the life of a command. A step relation on its status, and what every statement does to
-- the rows of the table.
use smotryashchiy.Base.{
  ◌≡◌, refl, ◌∙◌, sym, Bool, true, false, List, [], ◌∷◌, ◌++◌, none, arith, Bytes, Bool-cases, inl,
  inr, ◌⊎◌, next_fails,
}
use smotryashchiy.Sql.{Db, Result, ok, err, ◌>>=◌, advance, commit, transaction}
use smotryashchiy.Operator.Command.{Status, queued, running, failed, expired}
use smotryashchiy.Operator.Validate.{is_final}
use mathlib.Core.Path.{subst}
use smotryashchiy.Operator.Store.{
  find_row, Row, Tables, Error, Store, update_rows, update_commands, is_queued, is_running,
}

-- The moves of a command: claimed, answered, given up, and never claimed.
pub data Step : Status → Status → Type 0 where
  claimed : Step queued running
  lapsed : Step queued expired
  answered : (s : Status) → is_final s ≡ true → Step running s
  given_up : Step running failed

pub data Reach : Status → Status → Type 0 where
  stay : {s : Status} → Reach s s
  move : {s t u : Status} → Step s t → Reach t u → Reach s u

pub Reach-trans : {s t u : Status} → Reach s t → Reach t u → Reach s u
Reach-trans stay q = q
Reach-trans (move m p) q = move m (Reach-trans p q)

-- A row later on: what was asked for is as it was, and the status has moved along.
pub record Ages (r r' : Row) : Type 0 where
  pub same_id : r'.id ≡ r.id
  pub same_host : r'.host_id ≡ r.host_id
  pub same_kind : r'.kind ≡ r.kind
  pub same_args : r'.args ≡ r.args
  pub same_created : r'.created_at ≡ r.created_at
  pub moves : Reach r.status r'.status

pub Ages-refl : (r : Row) → Ages r r
Ages-refl r = record {
  same_id = refl;
  same_host = refl;
  same_kind = refl;
  same_args = refl;
  same_created = refl;
  moves = stay;
}

Ages-trans : (r s t : Row) → Ages r s → Ages s t → Ages r t
Ages-trans r s t a b = record {
  same_id = b.same_id ∙ a.same_id;
  same_host = b.same_host ∙ a.same_host;
  same_kind = b.same_kind ∙ a.same_kind;
  same_args = b.same_args ∙ a.same_args;
  same_created = b.same_created ∙ a.same_created;
  moves = Reach-trans a.moves b.moves;
}

-- The table later on: each row has aged in its place, and new rows stand behind.
abbrev pub Evolves : List Row → List Row → Type 0
Evolves [] ys = Unit
Evolves (x ∷ xs) [] = ⊥
Evolves (x ∷ xs) (y ∷ ys) = Ages x y × Evolves xs ys

pub Evolves-refl : (xs : List Row) → Evolves xs xs
Evolves-refl [] = tt
Evolves-refl (x ∷ xs) = (Ages-refl x, Evolves-refl xs)

pub Evolves-trans : (xs ys zs : List Row) → Evolves xs ys → Evolves ys zs → Evolves xs zs
Evolves-trans [] ys zs p q = tt
Evolves-trans (x ∷ xs) [] zs p q = absurd p
Evolves-trans (x ∷ xs) (y ∷ ys) [] p q = absurd q
Evolves-trans (x ∷ xs) (y ∷ ys) (z ∷ zs) p q =
    (Ages-trans x y z p.0 q.0, Evolves-trans xs ys zs p.1 q.1)

pub Evolves-append : (xs ys : List Row) → Evolves xs (xs ++ ys)
Evolves-append [] ys = tt
Evolves-append (x ∷ xs) ys = (Ages-refl x, Evolves-append xs ys)

-- The primary key: no two rows have one identifier.
abbrev pub Unique : List Row → Type 0
Unique [] = Unit
Unique (r ∷ rs) = (find_row r.id rs ≡ none) × Unique rs

-- The table later on, with its key.
pub record Aged (rows rows' : List Row) : Type 0 where
  pub evolved : Evolves rows rows'
  pub unique : Unique rows → Unique rows'

pub Aged-refl : (rows : List Row) → Aged rows rows
Aged-refl rows = record { evolved = Evolves-refl rows; unique = λ u. u }

pub Aged-trans : (xs ys zs : List Row) → Aged xs ys → Aged ys zs → Aged xs zs
Aged-trans xs ys zs p q = record {
  evolved = Evolves-trans xs ys zs p.evolved q.evolved;
  unique = λ u. q.unique (p.unique u);
}

find_row-update :
    (p : Row → Bool) (f : Row → Row) (id : Bytes)
    → ((r : Row) → p r ≡ true → Ages r (f r))
    → (rows : List Row) → find_row id rows ≡ none
    → find_row id (update_rows p f rows) ≡ none
find_row-update p f id h [] e = refl
find_row-update p f id h (r ∷ rows) e = elim (Bool-cases (p r)) [
  | inl t ↦
      let same : (f r).id ≡ r.id = (h r t).same_id in
      rw t (rw same (ground (arith, find_row-update p f id h rows)))
  | inr t ↦ rw t (ground (arith, find_row-update p f id h rows))
]

Unique-update :
    (p : Row → Bool) (f : Row → Row)
    → ((r : Row) → p r ≡ true → Ages r (f r))
    → (rows : List Row) → Unique rows
    → Unique (update_rows p f rows)
Unique-update p f h [] u = tt
Unique-update p f h (r ∷ rows) u = elim (Bool-cases (p r)) [
  | inl t ↦ rw t (
    subst (λ id. find_row id (update_rows p f rows) ≡ none) (sym (h r t).same_id)
        (find_row-update p f r.id h rows u.0),
    Unique-update p f h rows u.1,
  )
  | inr t ↦ rw t (find_row-update p f r.id h rows u.0, Unique-update p f h rows u.1)
]

-- An update evolves the table if it ages each row that it matches.
pub Evolves-update :
    (p : Row → Bool) (f : Row → Row)
    → ((r : Row) → p r ≡ true → Ages r (f r))
    → (rows : List Row) → Evolves rows (update_rows p f rows)
Evolves-update p f h [] = tt
Evolves-update p f h (r ∷ rows) = elim (Bool-cases (p r)) [
  | inl e ↦ (rw e (h r e), Evolves-update p f h rows)
  | inr e ↦ (rw e (Ages-refl r), Evolves-update p f h rows)
]

pub queued_eq : (s : Status) → is_queued s ≡ true → s ≡ queued
queued_eq queued h = refl
queued_eq s h = cc

pub running_eq : (s : Status) → is_running s ≡ true → s ≡ running
running_eq running h = refl
running_eq s h = cc

-- A row whose status is `t` instead of `s`, with other columns that may have changed.
pub moved :
    (r r' : Row) (s t : Status)
    → r.status ≡ s
    → Step s t
    → r'.status ≡ t
    → r'.id ≡ r.id
    → r'.host_id ≡ r.host_id
    → r'.kind ≡ r.kind
    → r'.args ≡ r.args
    → r'.created_at ≡ r.created_at
    → Ages r r'
moved r r' s t e m e' i h k a c = record {
  same_id = i;
  same_host = h;
  same_kind = k;
  same_args = a;
  same_created = c;
  moves = rw e (rw e' (move m stay));
}

-- A call that evolves the table of commands, whatever statement of it fails.
pub record Aging {A : Type 0} (m : Store A) : Type 0 where
  pub ages : (d : Db Tables) → Aged d.tables.commands (m d).1.tables.commands

-- A call that leaves the table alone.
pub Aging-same :
    {A : Type 0} (m : Store A)
    → ((d : Db Tables) → (m d).1.tables.commands ≡ d.tables.commands)
    → Aging m
Aging-same m h = record { ages = λ d. rw (h d) (Aged-refl d.tables.commands) }

pub Aging-bind :
    {A B : Type 0} (m : Store A) (f : A → Store B)
    → Aging m
    → ((a : A) → Aging (f a))
    → Aging (m >>= f)
Aging-bind {A} {B} m f p q = record { ages = λ d. step d (m d) (p.ages d) }
  where
    step :
        (d : Db Tables) (r : Result Error A × Db Tables)
        → Aged d.tables.commands r.1.tables.commands
        → Aged d.tables.commands
            (let (x, d') = r in
              let y : Result Error B × Db Tables = elim x [ ok a ↦ f a d' | err e ↦ (err e, d') ] in
              y).1.tables.commands
    step d (ok a, d') h =
        Aged-trans d.tables.commands d'.tables.commands (f a d').1.tables.commands h ((q a).ages d')
    step d (err e, d') h = h

pub Aging-transaction : {A : Type 0} (m : Store A) → Aging m → Aging (transaction m)
Aging-transaction {A} m p = record { ages = λ d. begin d (Bool-cases (next_fails d.faults)) }
  where
    committed :
        (before : Tables) (r : Result Error A × Db Tables)
        → Aged before.commands r.1.tables.commands
        → Aged before.commands (commit before r).1.tables.commands
    committed before (err e, d) h = Aged-refl before.commands
    committed before (ok a, d) h = elim (Bool-cases (next_fails d.faults)) [
      | inl e ↦ rw e (Aged-refl before.commands)
      | inr e ↦ rw e h
    ]

    begin :
        (d : Db Tables)
        → (next_fails d.faults ≡ true) ⊎ (next_fails d.faults ≡ false)
        → Aged d.tables.commands (transaction m d).1.tables.commands
    begin d (inl e) = rw e (Aged-refl d.tables.commands)
    begin d (inr e) = rw e (committed d.tables (m (advance d)) (p.ages (advance d)))

pub Aging-update :
    (p : Row → Bool) (f : Row → Row)
    → ((r : Row) → p r ≡ true → Ages r (f r))
    → Aging (update_commands p f)
Aging-update p f h = record {
  ages = λ d. elim (Bool-cases (next_fails d.faults)) [
    | inl e ↦ rw e (Aged-refl d.tables.commands)
    | inr e ↦ rw e (record {
      evolved = Evolves-update p f h d.tables.commands;
      unique = Unique-update p f h d.tables.commands;
    })
  ];
}
