-- ===== src/Uptime/Service.antt =====
-- internal/uptime/application/service.go: the calls of the handlers, and the scheduler with its workers.
pub mod Purging
pub mod Scheduling
use smotryashchiy.Base.{
  ℕ, zero, suc, ◌+◌, ◌-◌, ◌*◌, ◌^◌, Bool, true, false, not, ◌&&◌, List, [], ◌∷◌, ◌++◌, Option, none,
  some, map, Bytes, bytes_eq, bytes_key, ltb, nat_eq, if◌then◌else◌, any, length, keep_if,
}
use smotryashchiy.Assoc.{lookup}
use smotryashchiy.Sql.{Db, Result, ok, err, Fault, database, refused, ◌>>=◌, ◌>>◌, pure, refuse}
use smotryashchiy.Uptime.Target.{
  Target, Observation, LatencyPoint, NewTarget, Library, Invalid, Checked, valid, invalid, validate,
}
use smotryashchiy.Uptime.Store
use smotryashchiy.Uptime.Store.{
  Tables, Error, Store, targets, latest, history, insert_result, purge_results, has_target,
}

abbrev pub max_concurrent_checks : ℕ
max_concurrent_checks = 8

abbrev pub purge_batch : ℕ
purge_batch = 5000

-- one hour
abbrev pub history_window : ℕ
history_window = 60 * 60 * 10 ^ 9

-- Where a worker is: in `sleep`, at the `select` for a slot, or in `Check` with a slot.
pub data Phase : Type 0 where
  asleep waiting probing : Phase

-- A worker's goroutine, and whether its context was cancelled. The map of `Run` holds the ones that
-- were not: it drops a worker where it cancels it.
pub record Worker : Type 0 where
  pub target : Target
  pub cancelled : Bool
  pub phase : Phase

-- The service: its database, the channel `sync` with room for one mark, the goroutines, and what was
-- published, the newest first.
pub record Service : Type 0 where
  pub db : Db Tables
  pub sync : Bool
  pub workers : List Worker
  pub published : List Observation

-- What a call answers, with the validation before it.
pub data Answer (A : Type 0) : Type 0 where
  done : A → Answer A
  rejected : Invalid → Answer A
  failed : Fault Error → Answer A

abbrev pub with_sync : {A : Type 0} → Service → Result Error A × Db Tables → Service × Answer A
with_sync s (ok a, d) = (record s { db = d; sync = true }, done a)
with_sync s (err e, d) = (record s { db = d }, failed e)

abbrev pub create_valid : Service → Option Bytes → ℕ → Checked NewTarget → Service × Answer Target
create_valid s id now (invalid e) = (s, rejected e)
create_valid s id now (valid m) = with_sync s (Store.create m id now s.db)

-- `Create`
unfoldable pub create : Library → Service → NewTarget → Option Bytes → ℕ → Service × Answer Target
create lib s n id now = create_valid s id now (validate lib n)

-- `Delete`
unfoldable pub delete : Service → Bytes → Service × Answer (Unit {0})
delete s id = with_sync s (Store.delete id s.db)

pub record TargetView : Type 0 where
  pub target : Target
  pub last : Option Observation
  pub latency : List LatencyPoint

abbrev pub view_of :
    List (Bytes × Observation) → List (Bytes × List LatencyPoint) → Target → TargetView
view_of last_results points t = record {
  target = t;
  last = lookup t.id last_results;
  latency = elim (lookup t.id points) [ none ↦ [] | some ps ↦ ps ];
}

-- `Targets`
unfoldable pub target_views : ℕ → Store (List TargetView)
target_views now = do
  ts ← targets
  last_results ← latest
  points ← history (now - history_window)
  pure (map (view_of last_results points) ts)

-- `workers[id]`
abbrev pub runs : Bytes → List Worker → Bool
runs id ws = any (λ (w : Worker). not w.cancelled && bytes_eq w.target.id id) ws

abbrev pub start : Target → Worker
start t = record { target = t; cancelled = false; phase = asleep }

-- The first loop of `reconcile`.
abbrev pub start_missing : List Target → List Worker → List Worker
start_missing [] ws = ws
start_missing (t ∷ ts) ws = start_missing ts (if runs t.id ws then ws else ws ++ start t ∷ [])

-- The second one.
abbrev pub stop_absent : List Target → Worker → Worker
stop_absent ts w = if has_target w.target.id ts then w else record w { cancelled = true }

abbrev pub reconciled : List Target → List Worker → List Worker
reconciled ts ws = map (stop_absent ts) (start_missing ts ws)

abbrev pub relisted : Service → Result Error (List Target) × Db Tables → Service
relisted s (err e, d) = record s { db = d }
relisted s (ok ts, d) = record s { db = d; workers = reconciled ts s.workers }

-- `reconcile`
unfoldable pub reconcile : Service → Service
reconcile s = relisted s (targets s.db)

abbrev pub is_probing : Worker → Bool
is_probing w = elim w.phase [ probing ↦ true | p ↦ false ]

-- The slots that are taken.
abbrev pub in_flight : List Worker → ℕ
in_flight ws = length (keep_if is_probing ws)

-- A change of one worker: what stands in its place, nothing when it returns.
abbrev pub at : ℕ → (Worker → List Worker) → List Worker → List Worker
at i f [] = []
at zero f (w ∷ ws) = f w ++ ws
at (suc i) f (w ∷ ws) = w ∷ at i f ws

abbrev pub nth : ℕ → List Worker → Option Worker
nth i [] = none
nth zero (w ∷ ws) = some w
nth (suc i) (w ∷ ws) = nth i ws

-- `sleep` has elapsed.
abbrev pub woken : Worker → Worker
woken w = elim w.phase [ asleep ↦ record w { phase = waiting } | p ↦ w ]

abbrev pub wake : Worker → List Worker
wake w = woken w ∷ []

-- The `select` takes a slot if one is free; it may do so in a worker that was cancelled.
abbrev pub slotted : Bool → Worker → Worker
slotted free w = elim w.phase [
  | waiting ↦ (if free then record w { phase = probing } else w)
  | p ↦ w
]

abbrev pub take_slot : Bool → Worker → List Worker
take_slot free w = slotted free w ∷ []

-- `ctx.Done` is ready in `sleep` or at the `select`.
abbrev pub quit : Worker → List Worker
quit w = elim w.phase [ probing ↦ w ∷ [] | p ↦ (if w.cancelled then [] else w ∷ []) ]

-- What `Check` found, which it gives back with the target's identifier.
abbrev pub observed : Target → Observation → Observation
observed t r = record r { target_id = t.id }

abbrev pub stored : Service → Observation → Result Error (Unit {0}) × Db Tables → Service
stored s r (ok u, d) = record s { db = d; published = r ∷ s.published }
stored s r (err e, d) = record s { db = d }

abbrev pub finish_check : Worker → List Worker
finish_check w = if w.cancelled then [] else record w { phase = asleep } ∷ []

-- The worker is asleep again, or has returned.
abbrev pub checked : ℕ → Service → Service
checked i s = record s { workers = at i finish_check s.workers }

-- `Check` returns: the result of a cancelled worker is dropped.
abbrev pub answer : Service → ℕ → Observation → Option Worker → Service
answer s i r none = s
answer s i r (some w) = elim w.phase [
  | probing ↦
      (if w.cancelled
        then checked i s
        else stored (checked i s) (observed w.target r) (insert_result (observed w.target r) s.db))
  | p ↦ s
]

abbrev pub next_purge : Bool → Store Bool → Store Bool
next_purge true rest = pure true
next_purge false rest = rest

-- The loop of `purge`, on fuel: `false` if the fuel gave out.
unfoldable pub purge_loop : ℕ → ℕ → Store Bool
purge_loop zero before = pure false
purge_loop (suc fuel) before = do
  n ← purge_results before purge_batch
  next_purge (nat_eq n 0) (purge_loop fuel before)

-- `purge`, with the retention.
unfoldable pub purge : ℕ → ℕ → ℕ → Store Bool
unfolding purge_loop
purge fuel retention now =
    if nat_eq retention 0 then pure true else purge_loop fuel (now - retention)

-- What happens to the service, one step at a time: a call of a handler, a turn of the scheduler, or a
-- move of the worker at an index.
pub data Move : Type 0 where
  creates : NewTarget → Option Bytes → ℕ → Move
  deletes : Bytes → Move
  syncs resyncs : Move
  purges : ℕ → ℕ → ℕ → Move
  wakes takes quits : ℕ → Move
  answers : ℕ → Observation → Move
  stops : Move

abbrev pub cancel : Worker → Worker
cancel w = record w { cancelled = true }

unfoldable pub move : Library → Move → Service → Service
unfolding create delete reconcile purge
move lib (creates n id now) s = (create lib s n id now).0
move lib (deletes id) s = (delete s id).0
move lib syncs s = if s.sync then reconcile (record s { sync = false }) else s
move lib resyncs s = reconcile s
move lib (purges fuel retention now) s = record s { db = (purge fuel retention now s.db).1 }
move lib (wakes i) s = record s { workers = at i wake s.workers }
move lib (takes i) s = record s {
  workers = at i (take_slot (ltb (in_flight s.workers) max_concurrent_checks)) s.workers;
}
move lib (quits i) s = record s { workers = at i quit s.workers }
move lib (answers i r) s = answer s i r (nth i s.workers)
move lib stops s = record s { workers = map cancel s.workers }

abbrev pub moves : Library → List Move → Service → Service
moves lib [] s = s
moves lib (m ∷ ms) s = moves lib ms (move lib m s)
