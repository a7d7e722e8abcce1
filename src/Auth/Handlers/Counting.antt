-- ===== src/Auth/Handlers/Counting.antt =====
-- handlers.go and login_limiter.go: a client's requests and comparisons, and what the parts of a request
-- do to the limiter's record of it.
use mathlib.Core.Path.{subst}
use smotryashchiy.Base.{
  ℕ, zero, suc, ◌+◌, ◌≤◌, ◌<◌, ◌≡◌, refl, sym, Bool, true, false, ◌&&◌, List, [], ◌∷◌, Option, none,
  some, arith, Bytes, bytes_eq, bytes_eq_iff, bytes_key, ltb, leb, if◌then◌else◌, length, every,
  Bool-cases, Option-cases, inl, inr,
}
use smotryashchiy.Assoc.{lookup, lookup-erase_ne, lookup-erase_self, lookup-insert_ne}
use smotryashchiy.Sorting.{Sorter}
use smotryashchiy.Auth.LoginLimiter.{
  LoginAttempt, Attempts, login_failure_window, max_login_clients, retry_after, failure, success,
  attempt_or_zero, counted,
}
use smotryashchiy.Auth.LoginLimiter.Lockout.{first_failure, next_failure}
use smotryashchiy.Auth.Service.{Bcrypt}
use smotryashchiy.Auth.Handlers.Requests.{
  Stage, login_waits, step_up_waits, login_checked, step_up_checked, Flight, World, Move,
  login_comes, step_up_comes, goes, taken, move,
}

-- The failures that the limiter has recorded.
abbrev pub recorded : Option LoginAttempt → ℕ
recorded none = 0
recorded (some a) = a.failures

-- A recorded window does not end before a time.
abbrev pub lasts : ℕ → Option LoginAttempt → Bool
lasts end none = true
lasts end (some a) = leb end a.reset_at

module _ (client : Bytes) where
  abbrev pub is_own : Flight → Bool
  is_own r = bytes_eq r.client client

  abbrev pub waits : Stage → Bool
  waits (login_waits p t) = true
  waits (step_up_waits p) = true
  waits (login_checked r) = false
  waits (step_up_checked r) = false

  -- The client's requests in flight, those of them that have yet to compare, and its comparisons.
  abbrev pub in_flight : List Flight → ℕ
  in_flight [] = 0
  in_flight (r ∷ rs) = (if is_own r then 1 else 0) + in_flight rs

  abbrev pub to_compare : List Flight → ℕ
  to_compare [] = 0
  to_compare (r ∷ rs) = (if is_own r && waits r.stage then 1 else 0) + to_compare rs

  abbrev pub comparisons : List Bytes → ℕ
  comparisons [] = 0
  comparisons (c ∷ cs) = (if bytes_eq c client then 1 else 0) + comparisons cs

  -- A request taken from the others.
  pub record Splits (p : Flight → Bool) (rs : List Flight) (r : Flight) (others : List Flight)
      : Type 0 where
    pub own : in_flight rs ≡ in_flight (r ∷ others)
    pub comparing : to_compare rs ≡ to_compare (r ∷ others)
    pub each : every p rs ≡ every p (r ∷ others)

  abbrev pub Taken : (Flight → Bool) → List Flight → Option (Flight × List Flight) → Type 0
  Taken p rs none = Unit
  Taken p rs (some (r, others)) = Splits p rs r others

  go_behind :
      (p : Flight → Bool) (x : Flight) (rs : List Flight) (found : Option (Flight × List Flight))
      → Taken p rs found
      → Taken p (x ∷ rs) (elim found [ none ↦ none | some (r, others) ↦ some (r, x ∷ others) ])
  go_behind p x rs none h = tt
  go_behind p x rs (some (r, others)) h = record {
    own = omega (arith, h.own);
    comparing = omega (arith, h.comparing);
    each = ground (arith, h.each);
  }

  pub taken-Taken : (p : Flight → Bool) (i : ℕ) (rs : List Flight) → Taken p rs (taken i rs)
  taken-Taken p i [] = tt
  taken-Taken p zero (r ∷ rs) = record { own = refl; comparing = refl; each = refl }
  taken-Taken p (suc i) (r ∷ rs) = go_behind p r rs (taken i rs) (taken-Taken p i rs)

  -- A look at the limiter while the client's window lasts.
  look_others :
      (m : Attempts) (other : Bytes) (now : ℕ)
      → bytes_eq other client ≡ false
      → lookup client (retry_after m other now).0 ≡ lookup client m
  unfolding retry_after
  look_others m other now h =
      ground (arith, lookup-erase_ne other client m, bytes_eq_iff other client)

  look_own :
      (m : Attempts) (now end : ℕ)
      → now < end
      → lasts end (lookup client m) ≡ true
      → (lookup client (retry_after m client now).0 ≡ lookup client m)
        × ((retry_after m client now).1 ≡ none → recorded (lookup client m) < 5)
  unfolding retry_after
  look_own m now end t h = elim (Option-cases (lookup client m)) [
    | inl e ↦ ground (arith, e, lookup-erase_self client m)
    | inr (a, e) ↦ ground (arith, e, h)
  ]

  pub look_any :
      (m : Attempts) (c : Bytes) (now end : ℕ)
      → now < end
      → lasts end (lookup client m) ≡ true
      → (lookup client (retry_after m c now).0 ≡ lookup client m)
        × (bytes_eq c client ≡ true
            → (retry_after m c now).1 ≡ none
            → recorded (lookup client m) < 5)
  look_any m c now end t h = elim (Bool-cases (bytes_eq c client)) [
    | inr e ↦ (look_others m c now e, λ k n. cc (e, k))
    | inl e ↦
        let same : client ≡ c = sym ((bytes_eq_iff c client).0 e) in
        let own =
          subst
            (λ (x : Bytes).
              (lookup client (retry_after m x now).0 ≡ lookup client m)
              × ((retry_after m x now).1 ≡ none → recorded (lookup client m) < 5))
            same (look_own m now end t h) in
        (own.0, λ k n. own.1 n)
  ]

  module _ (sorter : Sorter Bytes) where
    pub failure_others :
        (m : Attempts) (other : Bytes) (now : ℕ)
        → bytes_eq other client ≡ false
        → ltb (length m) max_login_clients ≡ true
        → lookup client (failure sorter m other now) ≡ lookup client m
    unfolding failure
    failure_others m other now h room = ground (
      arith,
      room,
      bytes_eq_iff other client,
      lookup-insert_ne other client (counted (attempt_or_zero (lookup other m)) now) m,
    )

    pub failure_own :
        (m : Attempts) (now end : ℕ)
        → now < end
        → end ≤ now + login_failure_window
        → lasts end (lookup client m) ≡ true
        → (recorded (lookup client (failure sorter m client now)) ≡ recorded (lookup client m) + 1)
          × (lasts end (lookup client (failure sorter m client now)) ≡ true)
    failure_own m now end t u h = elim (Option-cases (lookup client m)) [
      | inl e ↦ ground (arith, e, first_failure sorter m client now e)
      | inr (a, e) ↦ ground (arith, e, h, next_failure sorter m client a now e)
    ]

  pub success_others :
      (m : Attempts) (other : Bytes)
      → bytes_eq other client ≡ false
      → lookup client (success m other) ≡ lookup client m
  unfolding success
  success_others m other h =
      ground (arith, lookup-erase_ne other client m, bytes_eq_iff other client)

-- A move's time, and the password that it brings.
abbrev pub time_of : Move → ℕ
time_of (login_comes c body token t) = t
time_of (step_up_comes c p t) = t
time_of (goes i t) = t

-- A move within fifteen minutes of a start.
abbrev pub is_timely : ℕ → Move → Bool
is_timely start m = leb start (time_of m) && ltb (time_of m) (start + login_failure_window)

-- The limiter has room, and the client has at most `k` requests in flight.
abbrev pub fits : Bytes → ℕ → World → Bool
fits client k w =
    ltb (length w.handlers.attempts) max_login_clients && leb (in_flight client w.flights) k

-- The same all along.
abbrev pub all_fit : Bcrypt → Sorter Bytes → Bytes → ℕ → List Move → World → Bool
all_fit bcrypt sorter client k [] w = fits client k w
all_fit bcrypt sorter client k (m ∷ ms) w =
    fits client k w && all_fit bcrypt sorter client k ms (move bcrypt sorter m w)
