-- ===== src/Operator/History/Once.antt =====
-- service.go: no command is handed out twice.
use smotryashchiy.Base.{ℕ, ◌+◌, ◌≤◌, ◌≡◌, refl, List, [], ◌∷◌, arith, Bytes}
use smotryashchiy.Sql.{Db, Result, ok, err, pure}
use smotryashchiy.Sql.Atomic.{continue}
use smotryashchiy.Operator.Command.{Claimed, Library}
use smotryashchiy.Operator.Store
use smotryashchiy.Operator.Store.{Tables, Error, Store, expire}
use smotryashchiy.Operator.Store.Life.{Unique, Aging}
use smotryashchiy.Operator.Store.Evolution.{expire-Aging}
use smotryashchiy.Operator.Store.Counting.{times_claimed, times_claimed-append, chances}
use smotryashchiy.Operator.Store.Claims.{handed, Spends, claim-Spends, Evolves-chances}
use smotryashchiy.Operator.Service
use smotryashchiy.Operator.Service.{Json}
use smotryashchiy.Operator.History.{Request, claims, perform, run}
use smotryashchiy.Operator.History.Evolution.{perform-Aging}

handed-drop :
    {A : Type 0} (r : Result Error A × Db Tables)
    → handed (continue (λ (a : A). pure {A = List Claimed} []) r).0 ≡ []
handed-drop (ok a, d) = refl
handed-drop (err e, d) = refl

-- A call that hands out nothing.
quiet-Spends :
    (id : Bytes) (m : Store (List Claimed)) (d : Db Tables)
    → Aging m
    → handed (m d).0 ≡ []
    → Spends id d.tables.commands (m d)
quiet-Spends id m d p h =
    rw h (
      omega
        (arith, Evolves-chances id d.tables.commands (m d).1.tables.commands (p.ages d).evolved))

after_expire :
    (id host : Bytes) (now limit : ℕ) (rows : List Store.Row) (r : Result Error ℕ × Db Tables)
    → Unique r.1.tables.commands
    → chances id r.1.tables.commands ≤ chances id rows
    → Spends id rows (continue (λ n. Store.claim host now limit) r)
after_expire id host now limit rows (ok n, d) u h =
    omega (arith, claim-Spends id host now limit d u)
after_expire id host now limit rows (err e, d) u h = omega arith

claims-Spends :
    (id host : Bytes) (now : ℕ) (d : Db Tables)
    → Unique d.tables.commands
    → Spends id d.tables.commands (Service.claim host now d)
unfolding Service.claim
claims-Spends id host now d u =
    let aged = (expire-Aging now).ages d in
    after_expire id host now Service.claim_batch d.tables.commands (expire now d) (aged.unique u)
      (Evolves-chances id d.tables.commands (expire now d).1.tables.commands aged.evolved)

module _ (lib : Library) (json : Json) where
  perform-Spends :
      (id : Bytes) (now : ℕ) (req : Request) (d : Db Tables)
      → Unique d.tables.commands
      → Spends id d.tables.commands (perform lib json now req d)
  perform-Spends id now (claims host) d u = claims-Spends id host now d u
  perform-Spends id now req d u =
      quiet-Spends id (perform lib json now req) d (perform-Aging lib json now req) (handed-drop _)

  run-Spends :
      (id : Bytes) (reqs : List (ℕ × Request)) (d : Db Tables)
      → Unique d.tables.commands
      → times_claimed id (run lib json reqs d).0
          + chances id (run lib json reqs d).1.tables.commands
        ≤ chances id d.tables.commands
  run-Spends id [] d u = omega arith
  run-Spends id ((now, req) ∷ reqs) d u =
      let d' = (perform lib json now req d).1 in
      omega (
        arith,
        perform-Spends id now req d u,
        run-Spends id reqs d' (((perform-Aging lib json now req).ages d).unique u),
        times_claimed-append id (handed (perform lib json now req d).0) (run lib json reqs d').0,
      )

  -- In any history of calls, on a table that does not repeat an identifier, each command is handed
  -- out once at most, whatever statement or commit fails in between; and not at all if it was in the
  -- table and no longer queued.
  pub claimed_once :
      (id : Bytes) (reqs : List (ℕ × Request)) (d : Db Tables)
      → Unique d.tables.commands
      → (times_claimed id (run lib json reqs d).0 ≤ 1)
        × (times_claimed id (run lib json reqs d).0 ≤ chances id d.tables.commands)
  claimed_once id reqs d u = ground (arith, run-Spends id reqs d u)
