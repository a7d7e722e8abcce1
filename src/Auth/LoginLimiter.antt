-- ===== src/Auth/LoginLimiter.antt =====
-- internal/auth/interfaces/http/login_limiter.go: failed logins per client in a window.
pub mod Bounds
pub mod Lockout
use smotryashchiy.Base.{
  ℕ, ◌+◌, ◌-◌, ◌*◌, ◌/◌, ◌^◌, Bool, not, ◌&&◌, List, [], Option, none, some, map, Bytes, bytes_key,
  ltb, leb, if◌then◌else◌, length, take,
}
use smotryashchiy.Assoc.{is_some, lookup, insert, erase, erase_all, keep}
use smotryashchiy.Sorting.{Sorter}

abbrev pub login_failure_limit : ℕ
login_failure_limit = 5

-- fifteen minutes
abbrev pub login_failure_window : ℕ
login_failure_window = 15 * 60 * 10 ^ 9

abbrev pub max_login_clients : ℕ
max_login_clients = 10000

abbrev pub login_evict_fraction : ℕ
login_evict_fraction = 10

pub record LoginAttempt : Type 0 where
  pub failures : ℕ
  pub reset_at : ℕ
  pub seen : ℕ

abbrev pub Attempts : Type 0
Attempts = List (Bytes × LoginAttempt)

-- What Go's map gives for a missing key.
abbrev pub attempt_or_zero : Option LoginAttempt → LoginAttempt
attempt_or_zero none = record { failures = 0; reset_at = 0; seen = 0 }
attempt_or_zero (some a) = a

-- `now.Before(a.resetAt)`
abbrev pub is_open : ℕ → LoginAttempt → Bool
is_open now a = ltb now a.reset_at

-- `retryAfter`: the wait, if the client is limited.
unfoldable pub retry_after : Attempts → Bytes → ℕ → Attempts × Option ℕ
retry_after m client now = elim (lookup client m) [
  | none ↦ (erase client m, none)
  | some a ↦
      if not (is_open now a)
      then (erase client m, none)
      else if ltb a.failures login_failure_limit
      then (m, none)
      else (m, some (a.reset_at - now))
]

-- A failure counted on the attempt that the map gives.
abbrev pub counted : LoginAttempt → ℕ → LoginAttempt
counted a now =
    let a' : LoginAttempt =
      if not (is_open now a)
      then record { failures = 0; reset_at = now + login_failure_window; seen = 0 }
      else a in
    record a' { failures = a'.failures + 1; seen = now }

module _ (sorter : Sorter Bytes) where
  -- The second half of `makeRoom`: the keys sorted by when their clients were last seen.
  unfoldable pub evict : Attempts → Attempts
  evict m =
      let keys = map (λ kv. kv.0) m in
      let sorted = sorter.sort (λ k. (attempt_or_zero (lookup k m)).seen) keys in
      erase_all (take (length keys / login_evict_fraction) sorted) m

  unfoldable pub make_room : Attempts → ℕ → Attempts
  unfolding evict
  make_room m now =
      let current = keep (is_open now) m in
      if ltb (length current) max_login_clients then current else evict current

  unfoldable pub failure : Attempts → Bytes → ℕ → Attempts
  unfolding make_room
  failure m client now =
      let found = lookup client m in
      let m' =
        if not (is_some found) && leb max_login_clients (length m) then make_room m now else m in
      insert client (counted (attempt_or_zero found) now) m'

unfoldable pub success : Attempts → Bytes → Attempts
success m client = erase client m
