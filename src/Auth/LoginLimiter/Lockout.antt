-- ===== src/Auth/LoginLimiter/Lockout.antt =====
-- login_limiter.go: when a client is limited, for how long, and that others are not.
use smotryashchiy.Base.{
  ℕ, ◌+◌, ◌-◌, ◌<◌, ◌≡◌, ◌≢◌, List, [], ◌∷◌, none, some, arith, Bytes, bytes_key, length, All, ltb,
  leb, if◌then◌else◌,
}
use smotryashchiy.Assoc.{lookup, erase, lookup-insert_self, lookup-insert_ne, lookup-erase_self}
use smotryashchiy.Sorting.{Sorter}
use smotryashchiy.Auth.LoginLimiter.{
  LoginAttempt, Attempts, attempt_or_zero, login_failure_limit, login_failure_window,
  max_login_clients, counted, retry_after, failure, success,
}

-- Failures of one client at the given times.
module _ (sorter : Sorter Bytes) where
  abbrev pub failures_at : Attempts → Bytes → List ℕ → Attempts
  failures_at m client [] = m
  failures_at m client (t ∷ ts) = failures_at (failure sorter m client t) client ts

  pub first_failure :
      (m : Attempts) (client : Bytes) (t : ℕ)
      → lookup client m ≡ none
      → lookup client (failure sorter m client t)
        ≡ some (record { failures = 1; reset_at = t + login_failure_window; seen = t })
  unfolding failure
  first_failure m client t h = rw lookup-insert_self (ground arith)

  pub next_failure :
      (m : Attempts) (client : Bytes) (a : LoginAttempt) (t : ℕ)
      → lookup client m ≡ some a
      → t < a.reset_at
      → lookup client (failure sorter m client t)
        ≡ some (record { failures = a.failures + 1; reset_at = a.reset_at; seen = t })
  unfolding failure
  next_failure m client a t h live = rw lookup-insert_self (ground arith)

  -- While the window of an attempt is open its failures add up and its end stays.
  more_failures :
      (m : Attempts) (client : Bytes) (a : LoginAttempt) (ts : List ℕ)
      → lookup client m ≡ some a
      → All (λ t. t < a.reset_at) ts
      → (s : ℕ) × (lookup client (failures_at m client ts)
          ≡ some (record { failures = a.failures + length ts; reset_at = a.reset_at; seen = s }))
  more_failures m client a [] h live = (a.seen, ground arith)
  more_failures m client a (t ∷ ts) h live =
      let a' : LoginAttempt = record {
        failures = a.failures + 1;
        reset_at = a.reset_at;
        seen = t;
      } in
      let (s, rest) =
        more_failures (failure sorter m client t) client a' ts (next_failure m client a t h live.0)
          live.1 in
      (s, ground arith)

  -- After failures of one client at `t` and at the later times `ts`, all before the window that the
  -- first one opened is over: a look inside the window finds the client limited, for what is left of
  -- the window, exactly if there were five failures or more, and changes nothing; a look after the
  -- window finds it free and forgets its entry.
  pub lockout :
      (m : Attempts) (client : Bytes) (t : ℕ) (ts : List ℕ) (now : ℕ)
      → lookup client m ≡ none
      → All (λ u. u < t + login_failure_window) ts
      → let m' = failures_at m client (t ∷ ts) in
        retry_after m' client now ≡ (
          if ltb now (t + login_failure_window)
          then (
            m',
            if leb login_failure_limit (length ts + 1)
                then some (t + login_failure_window - now)
                else none,
          )
          else (erase client m', none))
  unfolding retry_after
  lockout m client t ts now h live =
      let a : LoginAttempt = record {
        failures = 1;
        reset_at = t + login_failure_window;
        seen = t;
      } in
      let (s, e) =
        more_failures (failure sorter m client t) client a ts (first_failure m client t h) live in
      ground (arith, e)

  -- A failure of one client changes nothing for another, unless the map is full.
  pub failure-others :
      (m : Attempts) (client other : Bytes) (now later : ℕ)
      → client ≢ other
      → length m < max_login_clients
      → (lookup other (failure sorter m client now) ≡ lookup other m)
        × ((retry_after (failure sorter m client now) other later).1
            ≡ (retry_after m other later).1)
  unfolding failure retry_after
  failure-others m client other now later h room =
      let a = counted (attempt_or_zero (lookup client m)) now in
      ground (arith, lookup-insert_ne client other a m h)

-- A success clears the client: it starts again with no failure.
pub success-clears :
    (m : Attempts) (client : Bytes) (now : ℕ)
    → (lookup client (success m client) ≡ none)
      × ((retry_after (success m client) client now).1 ≡ none)
unfolding success retry_after
success-clears m client now = ground (arith, lookup-erase_self client m)
