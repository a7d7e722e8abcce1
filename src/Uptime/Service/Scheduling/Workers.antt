-- ===== src/Uptime/Service/Scheduling/Workers.antt =====
-- service.go: the list of the workers, under the moves of the scheduler.
use smotryashchiy.Base.{
  ℕ, zero, suc, ◌+◌, ◌≤◌, ◌≡◌, refl, Bool, true, false, not, ◌&&◌, ◌||◌, List, [], ◌∷◌, ◌++◌, map,
  arith, Bytes, bytes_eq, bytes_eq_iff, if◌then◌else◌, any, Apart, Apart-append, any-append,
}
use smotryashchiy.Uptime.Target.{Target}
use smotryashchiy.Uptime.Store.{has_target}
use smotryashchiy.Uptime.Service.{
  asleep, waiting, probing, Worker, runs, start, start_missing, stop_absent, reconciled, is_probing,
  in_flight, at, woken, wake, slotted, take_slot, quit, finish_check,
}

-- Two workers of one target, neither of them cancelled.
abbrev pub same_live : Worker → Worker → Bool
same_live a b = not a.cancelled && not b.cancelled && bytes_eq a.target.id b.target.id

-- The list later on: workers have gone, or have changed; none is of another target, and none that was
-- cancelled runs again.
pub data Fewer : List Worker → List Worker → Type 0 where
  done : Fewer [] []
  gone : (w : Worker) {xs ys : List Worker} → Fewer xs ys → Fewer xs (w ∷ ys)
  turned :
      (v w : Worker)
      → v.target ≡ w.target
      → (w.cancelled ≡ true → v.cancelled ≡ true)
      → {xs ys : List Worker} → Fewer xs ys
      → Fewer (v ∷ xs) (w ∷ ys)

live_turned :
    (v w a b : Worker)
    → v.target ≡ w.target
    → (w.cancelled ≡ true → v.cancelled ≡ true)
    → a.target ≡ b.target
    → (b.cancelled ≡ true → a.cancelled ≡ true)
    → same_live w b ≡ false
    → same_live v a ≡ false
live_turned v w a b t c t' c' h =
    let same : v.target.id ≡ w.target.id = (λ i. (t i).id) in
    let same' : a.target.id ≡ b.target.id = (λ i. (t' i).id) in rw same (rw same' (ground arith))

Fewer-any :
    (v w : Worker) {xs ys : List Worker}
    → v.target ≡ w.target
    → (w.cancelled ≡ true → v.cancelled ≡ true)
    → Fewer xs ys
    → any (same_live w) ys ≡ false
    → any (same_live v) xs ≡ false
Fewer-any v w t c done h = refl
Fewer-any v w t c (gone b f) h = Fewer-any v w t c f (ground arith)
Fewer-any v w t c (turned a b t' c' f) h =
    ground (arith, live_turned v w a b t c t' c', Fewer-any v w t c f)

pub Fewer-Apart : {xs ys : List Worker} → Fewer xs ys → Apart same_live ys → Apart same_live xs
Fewer-Apart done h = tt
Fewer-Apart (gone w f) h = Fewer-Apart f h.1
Fewer-Apart (turned v w t c f) h = (Fewer-any v w t c f h.0, Fewer-Apart f h.1)

Fewer-refl : (ws : List Worker) → Fewer ws ws
Fewer-refl [] = done
Fewer-refl (w ∷ ws) = turned w w refl (λ h. h) (Fewer-refl ws)

-- What a move makes of one worker: nothing, or a worker of the same target.
pub record Turns (f : Worker → List Worker) : Type 0 where
  pub turns : (w : Worker) {xs ys : List Worker} → Fewer xs ys → Fewer (f w ++ xs) (w ∷ ys)

pub at-Fewer :
    (i : ℕ) (f : Worker → List Worker) → Turns f → (ws : List Worker) → Fewer (at i f ws) ws
at-Fewer i f t [] = done
at-Fewer zero f t (w ∷ ws) = t.turns w (Fewer-refl ws)
at-Fewer (suc i) f t (w ∷ ws) = turned w w refl (λ h. h) (at-Fewer i f t ws)

pub map-Fewer :
    (f : Worker → Worker)
    → ((w : Worker) → (f w).target ≡ w.target)
    → ((w : Worker) → w.cancelled ≡ true → (f w).cancelled ≡ true)
    → (ws : List Worker) → Fewer (map f ws) ws
map-Fewer f t c [] = done
map-Fewer f t c (w ∷ ws) = turned (f w) w (t w) (c w) (map-Fewer f t c ws)

pub wake-Turns : Turns wake
wake-Turns = record { turns = λ w f. turned (woken w) w (ground arith) (λ h. ground arith) f }

pub take_slot-Turns : (free : Bool) → Turns (take_slot free)
take_slot-Turns free = record {
  turns = λ w f. turned (slotted free w) w (ground arith) (λ h. ground arith) f;
}

dropped_or_same :
    (b : Bool) (w : Worker) {xs ys : List Worker}
    → Fewer xs ys
    → Fewer ((if b then [] else w ∷ []) ++ xs) (w ∷ ys)
dropped_or_same true w f = gone w f
dropped_or_same false w f = turned w w refl (λ h. h) f

pub quit-Turns : Turns quit
quit-Turns = record {
  turns = λ w {xs} {ys} f.
      elim w.phase
        as (λ p.
          Fewer
            ((let l : List Worker = elim p [
              | probing ↦ w ∷ []
              | q ↦ (if w.cancelled then [] else w ∷ [])
            ] in
                l)
              ++ xs)
            (w ∷ ys)) [
              | probing ↦ turned w w refl (λ h. h) f
              | asleep ↦ dropped_or_same w.cancelled w f
              | waiting ↦ dropped_or_same w.cancelled w f
            ];
}

pub finish_check-Turns : Turns finish_check
finish_check-Turns = record {
  turns = λ w {xs} {ys} f.
      elim w.cancelled
        as (λ b. Fewer ((if b then [] else record w { phase = asleep } ∷ []) ++ xs) (w ∷ ys)) [
          | true ↦ gone w f
          | false ↦ turned (record w { phase = asleep }) w refl (λ h. h) f
        ];
}

-- The probes in flight.
pub in_flight-append : (xs ys : List Worker) → in_flight (xs ++ ys) ≡ in_flight xs + in_flight ys
in_flight-append [] ys = omega arith
in_flight-append (x ∷ xs) ys = ground (arith, in_flight-append xs ys)

pub in_flight-at :
    (i k : ℕ) (f : Worker → List Worker)
    → ((w : Worker) → in_flight (f w) ≤ in_flight (w ∷ []) + k)
    → (ws : List Worker) → in_flight (at i f ws) ≤ in_flight ws + k
in_flight-at i k f h [] = omega arith
in_flight-at zero k f h (w ∷ ws) =
    omega (arith, h w, in_flight-append (f w) ws, in_flight-append (w ∷ []) ws)
in_flight-at (suc i) k f h (w ∷ ws) = ground (arith, in_flight-at i k f h ws)

pub in_flight-wake : (w : Worker) → in_flight (wake w) ≤ in_flight (w ∷ []) + 0
in_flight-wake w = ground arith

pub in_flight-quit : (w : Worker) → in_flight (quit w) ≤ in_flight (w ∷ []) + 0
in_flight-quit w = ground arith

pub in_flight-finish_check : (w : Worker) → in_flight (finish_check w) ≤ in_flight (w ∷ []) + 0
in_flight-finish_check w = ground arith

pub in_flight-take_slot :
    (free : Bool) (w : Worker)
    → in_flight (take_slot free w) ≤ in_flight (w ∷ []) + (if free then 1 else 0)
in_flight-take_slot free w = ground arith

pub in_flight-map :
    (f : Worker → Worker)
    → ((w : Worker) → is_probing (f w) ≡ is_probing w)
    → (ws : List Worker) → in_flight (map f ws) ≡ in_flight ws
in_flight-map f h [] = refl
in_flight-map f h (w ∷ ws) = ground (arith, in_flight-map f h ws, h w)

-- The first loop of `reconcile`.
runs-append : (id : Bytes) (xs ys : List Worker) → runs id (xs ++ ys) ≡ (runs id xs || runs id ys)
runs-append id xs ys = any-append (λ (w : Worker). not w.cancelled && bytes_eq w.target.id id) xs ys

not_running :
    (t : Target) (ws : List Worker) → runs t.id ws ≡ false → any (same_live (start t)) ws ≡ false
not_running t [] h = refl
not_running t (w ∷ ws) h =
    ground (arith, not_running t ws, bytes_eq_iff w.target.id t.id, bytes_eq_iff t.id w.target.id)

same_live_sym : (a b : Worker) → same_live a b ≡ same_live b a
same_live_sym a b =
    ground (arith, bytes_eq_iff a.target.id b.target.id, bytes_eq_iff b.target.id a.target.id)

pub start_missing-Apart :
    (ts : List Target) (ws : List Worker)
    → Apart same_live ws
    → Apart same_live (start_missing ts ws)
start_missing-Apart [] ws a = a
start_missing-Apart (t ∷ ts) ws a =
    start_missing-Apart ts (if runs t.id ws then ws else ws ++ start t ∷ [])
      (with_one (runs t.id ws) refl)
  where
    with_one :
        (b : Bool) → runs t.id ws ≡ b → Apart same_live (if b then ws else ws ++ start t ∷ [])
    with_one true h = a
    with_one false h =
        Apart-append same_live (start t) ws (same_live_sym (start t)) (not_running t ws h) a

pub start_missing-in_flight :
    (ts : List Target) (ws : List Worker) → in_flight (start_missing ts ws) ≡ in_flight ws
start_missing-in_flight [] ws = refl
start_missing-in_flight (t ∷ ts) ws = ground (
  arith,
  start_missing-in_flight ts ws,
  start_missing-in_flight ts (ws ++ start t ∷ []),
  in_flight-append ws (start t ∷ []),
)

runs-start_missing :
    (id : Bytes) (ts : List Target) (ws : List Worker)
    → runs id (start_missing ts ws) ≡ (runs id ws || has_target id ts)
runs-start_missing id [] ws = ground arith
runs-start_missing id (t ∷ ts) ws = ground (
  arith,
  runs-start_missing id ts ws,
  runs-start_missing id ts (ws ++ start t ∷ []),
  runs-append id ws (start t ∷ []),
  bytes_eq_iff t.id id,
)

runs-stop_absent :
    (id : Bytes) (ts : List Target) (ws : List Worker)
    → runs id (map (stop_absent ts) ws) ≡ (runs id ws && has_target id ts)
runs-stop_absent id ts [] = refl
runs-stop_absent id ts (w ∷ ws) =
    ground (arith, runs-stop_absent id ts ws, bytes_eq_iff w.target.id id)

-- Behind `reconcile` exactly the listed targets have a worker.
pub runs-reconciled :
    (id : Bytes) (ts : List Target) (ws : List Worker)
    → runs id (reconciled ts ws) ≡ has_target id ts
runs-reconciled id ts ws =
    ground (arith, runs-stop_absent id ts (start_missing ts ws), runs-start_missing id ts ws)
