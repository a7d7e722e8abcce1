-- ===== src/Uptime/Service/Scheduling.antt =====
-- service.go: one worker for each target, and a bound on the probes in flight.
pub mod Workers
use smotryashchiy.Base.{
  ℕ, zero, suc, ◌+◌, ◌≤◌, ◌≡◌, refl, ap, ◌∙◌, Bool, true, false, not, ◌&&◌, ◌||◌, List, [], ◌∷◌,
  ◌++◌, Option, none, some, map, arith, Bytes, bytes_eq, ltb, nat_eq, ◌-◌, if◌then◌else◌, any,
  Apart, Bool-cases, Option-cases, inl, inr, next_fails,
}
use smotryashchiy.Sql.{Db, Result, ok, err, order_by, place}
use smotryashchiy.Sql.Atomic.{statement-done}
use smotryashchiy.Sql.Keeps.{Keeps, Keeps-pure, Keeps-bind, Keeps-if, Keeps-statement, Keeps-query}
use smotryashchiy.Uptime.Target.{
  Target, Observation, NewTarget, Library, Checked, valid, invalid, validate,
}
use smotryashchiy.Uptime.Store
use smotryashchiy.Uptime.Store.{
  Tables, Error, Store, targets, comes_first, scan_target, has_target, insert_result, purge_results,
}
use smotryashchiy.Uptime.Store.Sound.{
  Sound, create-Keeps, delete-Keeps, insert_result-Keeps, purge_results-Keeps,
}
use smotryashchiy.Uptime.Service.{
  asleep, waiting, probing, Worker, Service, with_sync, create_valid, create, delete, runs,
  stop_absent, start_missing, reconciled, relisted, reconcile, max_concurrent_checks, in_flight, at,
  nth, wake, take_slot, quit, finish_check, observed, stored, checked, answer, next_purge,
  purge_batch, purge_loop, purge, cancel, Move, creates, deletes, syncs, resyncs, purges, wakes,
  takes, quits, answers, stops, move, moves,
}
use smotryashchiy.Uptime.Service.Scheduling.Workers.{
  same_live, Fewer-Apart, Turns, at-Fewer, map-Fewer, wake-Turns, take_slot-Turns, quit-Turns,
  finish_check-Turns, in_flight-at, in_flight-wake, in_flight-quit, in_flight-finish_check,
  in_flight-take_slot, in_flight-map, start_missing-Apart, start_missing-in_flight, runs-reconciled,
}

-- The tables are sound, no target has two workers that run, and at most eight probe.
pub record Inv (s : Service) : Type 0 where
  pub sound : Sound s.db.tables
  pub alone : Apart same_live s.workers
  pub slots : in_flight s.workers ≤ max_concurrent_checks

-- A move of one worker.
at-Inv :
    (i k : ℕ) (f : Worker → List Worker) (s : Service)
    → Turns f
    → ((w : Worker) → in_flight (f w) ≤ in_flight (w ∷ []) + k)
    → in_flight s.workers + k ≤ max_concurrent_checks
    → Inv s
    → Inv (record s { workers = at i f s.workers })
at-Inv i k f s t h room v = record {
  sound = v.sound;
  alone = Fewer-Apart (at-Fewer i f t s.workers) v.alone;
  slots = omega (arith, in_flight-at i k f h s.workers);
}

with_sync-Inv :
    {A : Type 0} (s : Service) (r : Result Error A × Db Tables)
    → Sound r.1.tables
    → Inv s
    → Inv (with_sync s r).0
with_sync-Inv s (ok a, d) h v = record { sound = h; alone = v.alone; slots = v.slots }
with_sync-Inv s (err e, d) h v = record { sound = h; alone = v.alone; slots = v.slots }

create_valid-Inv :
    (s : Service) (id : Option Bytes) (now : ℕ) (c : Checked NewTarget)
    → Inv s
    → Inv (create_valid s id now c).0
create_valid-Inv s id now (invalid e) v = v
create_valid-Inv s id now (valid m) v =
    with_sync-Inv s (Store.create m id now s.db) ((create-Keeps m id now).keeps s.db v.sound) v

reconciled-Inv :
    (s : Service) (ts : List Target) (d : Db Tables)
    → Sound d.tables
    → Inv s
    → Inv (record s { db = d; workers = reconciled ts s.workers })
reconciled-Inv s ts d h v = record {
  sound = h;
  alone =
      Fewer-Apart
        (map-Fewer (stop_absent ts) (λ w. ground arith) (λ w c. ground arith)
          (start_missing ts s.workers))
        (start_missing-Apart ts s.workers v.alone);
  slots = omega (
    arith,
    v.slots,
    in_flight-map (stop_absent ts) (λ w. ground arith) (start_missing ts s.workers),
    start_missing-in_flight ts s.workers,
  );
}

targets-Keeps : Keeps Sound targets
unfolding targets
targets-Keeps = Keeps-query _

relisted-Inv :
    (s : Service) (r : Result Error (List Target) × Db Tables)
    → Sound r.1.tables
    → Inv s
    → Inv (relisted s r)
relisted-Inv s (ok ts, d) h v = reconciled-Inv s ts d h v
relisted-Inv s (err e, d) h v = record { sound = h; alone = v.alone; slots = v.slots }

reconcile-Inv : (s : Service) → Inv s → Inv (reconcile s)
unfolding reconcile
reconcile-Inv s v = relisted-Inv s (targets s.db) (targets-Keeps.keeps s.db v.sound) v

stored-Inv :
    (s : Service) (o : Observation) (r : Result Error (Unit {0}) × Db Tables)
    → Sound r.1.tables
    → Inv s
    → Inv (stored s o r)
stored-Inv s o (ok u, d) h v = record { sound = h; alone = v.alone; slots = v.slots }
stored-Inv s o (err e, d) h v = record { sound = h; alone = v.alone; slots = v.slots }

checked-Inv : (i : ℕ) (s : Service) → Inv s → Inv (checked i s)
checked-Inv i s v =
    at-Inv i 0 finish_check s finish_check-Turns in_flight-finish_check (omega (arith, v.slots)) v

Inv-if : (b : Bool) (s t : Service) → Inv s → Inv t → Inv (if b then s else t)
Inv-if true s t u v = u
Inv-if false s t u v = v

answer-Inv :
    (s : Service) (i : ℕ) (r : Observation) (found : Option Worker)
    → Inv s
    → Inv (answer s i r found)
answer-Inv s i r none v = v
answer-Inv s i r (some w) v =
    let o = observed w.target r in
    elim w.phase
      as (λ p. Inv (
        let t : Service = elim p [
          | probing ↦
              (if w.cancelled then checked i s else stored (checked i s) o (insert_result o s.db))
          | q ↦ s
        ] in
        t)) [
          | probing ↦ Inv-if w.cancelled (checked i s) _ (checked-Inv i s v) (
              stored-Inv (checked i s) o (insert_result o s.db)
                ((insert_result-Keeps o).keeps s.db v.sound) (checked-Inv i s v))
          | asleep ↦ v
          | waiting ↦ v
        ]

purge_loop-Keeps : (fuel before : ℕ) → Keeps Sound (purge_loop fuel before)
unfolding purge_loop
purge_loop-Keeps zero before = Keeps-pure false
purge_loop-Keeps (suc fuel) before =
    Keeps-bind (purge_results before purge_batch) _ (purge_results-Keeps before purge_batch)
      (λ n. next_purge-Keeps (nat_eq n 0) (purge_loop fuel before) (purge_loop-Keeps fuel before))
  where
    next_purge-Keeps :
        (k : Bool) (rest : Store Bool) → Keeps Sound rest → Keeps Sound (next_purge k rest)
    next_purge-Keeps true rest p = Keeps-pure true
    next_purge-Keeps false rest p = p

purge-Keeps : (fuel retention now : ℕ) → Keeps Sound (purge fuel retention now)
unfolding purge
purge-Keeps fuel retention now =
    Keeps-if (nat_eq retention 0) _ _ (Keeps-pure true) (purge_loop-Keeps fuel (now - retention))

take-Inv :
    (i : ℕ) (s : Service)
    → Inv s
    → Inv (record s {
      workers = at i (take_slot (ltb (in_flight s.workers) max_concurrent_checks)) s.workers;
    })
take-Inv i s v =
    let free = ltb (in_flight s.workers) max_concurrent_checks in
    at-Inv i (if free then 1 else 0) (take_slot free) s (take_slot-Turns free)
      (in_flight-take_slot free) (ground (arith, v.slots)) v

cancel-Inv : (s : Service) → Inv s → Inv (record s { workers = map cancel s.workers })
cancel-Inv s v = record {
  sound = v.sound;
  alone = Fewer-Apart (map-Fewer cancel (λ w. refl) (λ w c. refl) s.workers) v.alone;
  slots = omega (arith, v.slots, in_flight-map cancel (λ w. refl) s.workers);
}

pub move-Inv : (lib : Library) (m : Move) (s : Service) → Inv s → Inv (move lib m s)
unfolding move create delete reconcile
move-Inv lib (creates n id now) s v = create_valid-Inv s id now (validate lib n) v
move-Inv lib (deletes id) s v =
    with_sync-Inv s (Store.delete id s.db) ((delete-Keeps id).keeps s.db v.sound) v
move-Inv lib syncs s v =
    elim s.sync as (λ b. Inv (if b then reconcile (record s { sync = false }) else s)) [
      | true ↦
          reconcile-Inv (record s { sync = false })
            (record { sound = v.sound; alone = v.alone; slots = v.slots })
      | false ↦ v
    ]
move-Inv lib resyncs s v = reconcile-Inv s v
move-Inv lib (purges fuel retention now) s v = record {
  sound = (purge-Keeps fuel retention now).keeps s.db v.sound;
  alone = v.alone;
  slots = v.slots;
}
move-Inv lib (wakes i) s v = at-Inv i 0 wake s wake-Turns in_flight-wake (omega (arith, v.slots)) v
move-Inv lib (takes i) s v = take-Inv i s v
move-Inv lib (quits i) s v = at-Inv i 0 quit s quit-Turns in_flight-quit (omega (arith, v.slots)) v
move-Inv lib (answers i r) s v = answer-Inv s i r (nth i s.workers) v
move-Inv lib stops s v = cancel-Inv s v

-- Whatever the handlers call and however the scheduler and its workers take turns, and whatever
-- statement or commit fails: there are at most 50 targets, with their own names and identifiers and an
-- interval in range, each result is of a stored target and the only one of its millisecond, no target
-- has two workers that run, and at most eight workers probe at once.
pub moves-Inv : (lib : Library) (ms : List Move) (s : Service) → Inv s → Inv (moves lib ms s)
moves-Inv lib [] s v = v
moves-Inv lib (m ∷ ms) s v = moves-Inv lib ms (move lib m s) (move-Inv lib m s v)

any-place :
    (p : Target → Bool) (before : Target → Target → Bool) (t : Target) (ts : List Target)
    → any p (place before t ts) ≡ (p t || any p ts)
any-place p before t [] = refl
any-place p before t (x ∷ ts) = ground (arith, any-place p before t ts)

any-order_by :
    (p : Target → Bool) (before : Target → Target → Bool) (ts : List Target)
    → any p (order_by before ts) ≡ any p ts
any-order_by p before [] = refl
any-order_by p before (t ∷ ts) =
    ground (arith, any-place p before t (order_by before ts), any-order_by p before ts)

has_target-scanned :
    (id : Bytes) (ts : List Target) → has_target id (map scan_target ts) ≡ has_target id ts
has_target-scanned id [] = refl
has_target-scanned id (t ∷ ts) = ground (arith, has_target-scanned id ts)

-- A reconciliation whose query is answered leaves a running worker for exactly the stored targets.
pub reconcile_lem :
    (s : Service) (id : Bytes)
    → next_fails s.db.faults ≡ false
    → runs id (reconcile s).workers ≡ has_target id s.db.tables.targets
unfolding reconcile targets
reconcile_lem s id h =
    let ts = s.db.tables.targets in
    ap (λ r. runs id (relisted s r).workers)
      (statement-done (λ (t : Tables). (map scan_target (order_by comes_first t.targets), t)) s.db
        h)
    ∙ runs-reconciled id (map scan_target (order_by comes_first ts)) s.workers
    ∙ has_target-scanned id (order_by comes_first ts)
    ∙ any-order_by (λ (t : Target). bytes_eq t.id id) comes_first ts
