-- ===== src/Auth/Handlers/BruteForce.antt =====
-- handlers.go: how many guesses a client has, at the login and at the step-up check together, whatever
-- other requests do meanwhile.
use smotryashchiy.Base.{
  ℕ, ◌+◌, ◌≤◌, ◌≡◌, refl, ap, true, List, [], ◌∷◌, Option, none, arith, Bytes, bytes_key, every,
}
use smotryashchiy.Assoc.{lookup}
use smotryashchiy.Sorting.{Sorter}
use smotryashchiy.Auth.LoginLimiter.{login_failure_window}
use smotryashchiy.Auth.Service.{Bcrypt}
use smotryashchiy.Auth.Handlers.Requests.{Flight, World, Move, move, moves}
use smotryashchiy.Auth.Handlers.Counting.{
  lasts, in_flight, to_compare, comparisons, time_of, is_timely, fits, all_fit,
}
use smotryashchiy.Auth.Handlers.Tally.{flight_ok, guess_ok, Inv, move-Inv}

module _ (bcrypt : Bcrypt) (sorter : Sorter Bytes) (client : Bytes) (hash : Option Bytes) where
  all_fit-first :
      (k : ℕ) (ms : List Move) (w : World)
      → all_fit bcrypt sorter client k ms w ≡ true
      → fits client k w ≡ true
  all_fit-first k [] w h = h
  all_fit-first k (m ∷ ms) w h = ground arith

  moves-Inv :
      (k start : ℕ) (ms : List Move) (w : World)
      → every (is_timely start) ms ≡ true
      → every (guess_ok bcrypt sorter client hash) ms ≡ true
      → all_fit bcrypt sorter client k ms w ≡ true
      → Inv bcrypt sorter client hash k (start + login_failure_window) w
      → Inv bcrypt sorter client hash k (start + login_failure_window) (moves bcrypt sorter ms w)
  moves-Inv k start [] w t g f v = v
  moves-Inv k start (m ∷ ms) w t g f v =
      let w' = move bcrypt sorter m w in
      let rest : all_fit bcrypt sorter client k ms w' ≡ true = ground (arith, f) in
      moves-Inv k start ms w' (ground (arith, t)) (ground (arith, g)) rest (
        move-Inv bcrypt sorter client hash k (start + login_failure_window) (time_of m)
          (ground (arith, t)) (ground (arith, t)) m w refl (ground (arith, g)) (ground (arith, f))
          (all_fit-first k ms w' rest) v)

  none_own :
      (rs : List Flight)
      → in_flight client rs ≡ 0
      → (to_compare client rs ≡ 0) × (every (flight_ok bcrypt sorter client hash) rs ≡ true)
  none_own [] h = (refl, refl)
  none_own (r ∷ rs) h = ground (arith, none_own rs)

-- Within fifteen minutes, while the limiter has room and the database answers, a client with no recorded
-- failure and nothing in flight sends wrong passwords, to the login or the step-up check, with at most
-- `k` of its requests in flight at once; other clients' requests come and go, right or wrong, and the
-- parts of all requests follow each other in any order. Then at most `4 + k` of the client's passwords
-- are compared with the stored hash: five when it sends them one by one.
pub brute_force :
    (bcrypt : Bcrypt) (sorter : Sorter Bytes) (client : Bytes) (k start : ℕ) (ms : List Move)
    (w : World)
    → w.handlers.service.store.readable ≡ true
    → lookup client w.handlers.attempts ≡ none
    → in_flight client w.flights ≡ 0
    → comparisons client w.compared ≡ 0
    → every (is_timely start) ms ≡ true
    → every (guess_ok bcrypt sorter client w.handlers.service.store.admin_hash) ms ≡ true
    → all_fit bcrypt sorter client k ms w ≡ true
    → comparisons client (moves bcrypt sorter ms w).compared ≤ 4 + k
brute_force bcrypt sorter client k start ms w r f n c t g a =
    let hash = w.handlers.service.store.admin_hash in
    let none_yet = none_own bcrypt sorter client hash w.flights n in
    let v : Inv bcrypt sorter client hash k (start + login_failure_window) w = record {
      readable = r;
      hashed = refl;
      tally = ground (arith, f, n, c, none_yet.0);
      few = ground (arith, f, n);
      wrong = none_yet.1;
      lasting = ap (lasts (start + login_failure_window)) f;
    } in
    let w' = moves-Inv bcrypt sorter client hash k start ms w t g a v in
    omega (arith, w'.tally, w'.few)
