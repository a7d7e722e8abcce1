-- ===== src/Operator/Store/Owned.antt =====
-- store.go: whose commands a claim hands out.
use smotryashchiy.Base.{
  ℕ, zero, suc, ◌≤◌, ◌≡◌, refl, ◌∙◌, Bool, true, false, ◌&&◌, ◌||◌, List, [], ◌∷◌, map, arith,
  Bytes, bytes_eq, bytes_eq_iff, if◌then◌else◌, keep_if, take, length, every, Bool-cases, inl, inr,
  next_fails,
}
use smotryashchiy.Sql.{
  Db, Result, ok, err, database, ◌>>=◌, ◌>>◌, pure, query, advance, commit, place, order_by,
}
use smotryashchiy.Sql.Atomic.{statement-rule, continue}
use smotryashchiy.Operator.Command.{Claimed}
use smotryashchiy.Operator.Store.{
  Row, Tables, Error, is_queued, is_waiting, is_older, claimed_of, mark_running, select_queued,
  claim,
}
use smotryashchiy.Operator.Store.Claims.{handed}

-- The command waits for this host in the table.
abbrev pub is_owned : Bytes → List Row → Claimed → Bool
is_owned host [] c = false
is_owned host (r ∷ rows) c =
    (bytes_eq r.host_id host && is_queued r.status && bytes_eq r.id c.id) || is_owned host rows c

-- What is handed out waits for this host, and is not more than was asked for.
abbrev pub Owned : Bytes → ℕ → List Row → List Claimed → Type 0
Owned host limit rows cs = (every (is_owned host rows) cs ≡ true) × (length cs ≤ limit)

every-map :
    (p : Claimed → Bool) (rows : List Row)
    → every p (map claimed_of rows) ≡ every (λ r. p (claimed_of r)) rows
every-map p [] = refl
every-map p (r ∷ rows) = ground (arith, every-map p rows)

every-take :
    (p : Row → Bool) (n : ℕ) (rows : List Row) → every p rows ≡ true → every p (take n rows) ≡ true
every-take p zero rows h = refl
every-take p (suc n) [] h = refl
every-take p (suc n) (r ∷ rows) h = ground (arith, every-take p n rows)

every-place :
    (p : Row → Bool) (before : Row → Row → Bool) (r : Row) (rows : List Row)
    → every p (place before r rows) ≡ every p (r ∷ rows)
every-place p before r [] = refl
every-place p before r (x ∷ rows) = ground (arith, every-place p before r rows)

every-order_by :
    (p : Row → Bool) (before : Row → Row → Bool) (rows : List Row)
    → every p (order_by before rows) ≡ every p rows
every-order_by p before [] = refl
every-order_by p before (r ∷ rows) =
    ground (arith, every-place p before r (order_by before rows), every-order_by p before rows)

owned_longer :
    (host : Bytes) (r : Row) (all rows : List Row)
    → every (λ x. is_owned host all (claimed_of x)) rows ≡ true
    → every (λ x. is_owned host (r ∷ all) (claimed_of x)) rows ≡ true
owned_longer host r all [] h = refl
owned_longer host r all (x ∷ rows) h = ground (arith, owned_longer host r all rows)

waiting-is_owned :
    (host : Bytes) (rows : List Row)
    → every (λ x. is_owned host rows (claimed_of x)) (keep_if (is_waiting host) rows) ≡ true
waiting-is_owned host [] = refl
waiting-is_owned host (r ∷ rows) = ground (
  arith,
  waiting-is_owned host rows,
  owned_longer host r rows (keep_if (is_waiting host) rows),
  bytes_eq_iff r.id r.id,
)

length-take : (n : ℕ) (rows : List Row) → length (map claimed_of (take n rows)) ≤ n
length-take zero rows = omega arith
length-take (suc n) [] = omega arith
length-take (suc n) (r ∷ rows) = ground (arith, length-take n rows)

select_queued-Owned :
    (host : Bytes) (limit : ℕ) (t : Tables)
    → Owned host limit t.commands (select_queued host limit t)
select_queued-Owned host limit t =
    let waiting = keep_if (is_waiting host) t.commands in
    let owned : Row → Bool = λ x. is_owned host t.commands (claimed_of x) in
    (
      every-map (is_owned host t.commands) (take limit (order_by is_older waiting))
          ∙ every-take owned limit (order_by is_older waiting)
              (every-order_by owned is_older waiting ∙ waiting-is_owned host t.commands),
      length-take limit (order_by is_older waiting),
    )

commit-Owned :
    (host : Bytes) (limit : ℕ) (cs : List Claimed) (before : Tables)
    (r : Result Error (Unit {0}) × Db Tables)
    → Owned host limit before.commands cs
    → Owned host limit before.commands (handed (commit before (continue (λ u. pure cs) r)).0)
commit-Owned host limit cs before (err e, d) h = (refl, omega arith)
commit-Owned host limit cs before (ok u, d) h = elim (Bool-cases (next_fails d.faults)) [
  | inl e ↦ rw e (refl, omega arith)
  | inr e ↦ rw e h
]

-- A claim hands out, at most as many as it is asked for, commands that wait in the table for the host
-- that claims; and nothing when it reports an error.
pub claim-Owned :
    (host : Bytes) (now limit : ℕ) (d : Db Tables)
    → Owned host limit d.tables.commands (handed (claim host now limit d).0)
unfolding claim
claim-Owned host now limit d =
    elim (next_fails d.faults)
      as (λ b. Owned host limit d.tables.commands (
        handed
          (if b
            then (err database, advance d)
            else commit d.tables (
                (query (select_queued host limit) >>= λ cs. mark_running now cs >> pure cs)
                  (advance d))).0)) [
                    | true ↦ (refl, omega arith)
                    | false ↦
                        statement-rule
                          (λ r. Owned host limit d.tables.commands (
                            handed
                              (commit d.tables
                                (continue (λ cs. mark_running now cs >> pure cs) r)).0))
                          (λ t. (select_queued host limit t, t)) (advance d) (refl, omega arith)
                          (let cs = select_queued host limit d.tables in
                            commit-Owned host limit cs d.tables
                              (mark_running now cs (advance (advance d)))
                              (select_queued-Owned host limit d.tables))
                  ]
