-- ===== src/Auth/Handlers.antt =====
-- internal/auth/interfaces/http/handlers.go: login, the step-up check, logout and session state.
-- A request's client key, its decoded body and its cookie are given.
pub mod Requests
pub mod Counting
pub mod Tally
pub mod BruteForce
use smotryashchiy.Base.{
  ℕ, ◌+◌, ◌*◌, ◌/◌, ◌^◌, Bool, true, false, not, List, Option, none, some, Bytes, ltb,
  if◌then◌else◌,
}
use smotryashchiy.Sorting.{Sorter}
use smotryashchiy.Auth.LoginLimiter.{Attempts, retry_after, failure, success}
use smotryashchiy.Auth.Service.{
  Session, Error, invalid_credentials, Result, ok, err, Bcrypt, Service, login, verify_password,
  logout, validate_session,
}

pub record Handlers : Type 0 where
  pub service : Service
  pub attempts : Attempts

-- What the client is answered. A session goes into a cookie.
pub data Response : Type 0 where
  too_many : ℕ → Response
  bad_request unauthorized internal : Response
  no_content : Session → Response

-- `int(retryAfter.Round(time.Second).Seconds())`, at least one.
abbrev pub retry_seconds : ℕ → ℕ
retry_seconds d = let seconds = (d + 10 ^ 9 / 2) / 10 ^ 9 in if ltb seconds 1 then 1 else seconds

-- `errors.Is(err, domain.ErrInvalidCredentials)`
abbrev pub is_invalid_credentials : Error → Bool
is_invalid_credentials Error.invalid_credentials = true
is_invalid_credentials _ = false

-- `apierror.Write` of an error of the service.
abbrev pub written : Error → Response
written Error.invalid_credentials = Response.unauthorized
written Error.session_invalid = Response.unauthorized
written _ = Response.internal

-- What a step-up check answers its caller.
pub data StepUp : Type 0 where
  confirmed limited wrong : StepUp
  failed : Error → StepUp

-- How a request's turns fall among the others: the limiter's mutex is taken for the look and for the
-- count, and in between, while the password is compared, other requests change what they like. Each
-- part reads the clock for itself.
pub record Turns : Type 0 where
  pub look_at : ℕ
  pub after_look : Handlers → Handlers
  pub check_at : ℕ
  pub after_check : Handlers → Handlers
  pub count_at : ℕ

-- `retryAfter`, under the limiter's mutex.
abbrev pub look : Handlers → Bytes → ℕ → Handlers × Option ℕ
look h client now =
    let (attempts, wait) = retry_after h.attempts client now in
    (record h { attempts = attempts }, wait)

module _ (bcrypt : Bcrypt) (sorter : Sorter Bytes) where
  -- `Login` of the service.
  abbrev pub checked_login : Handlers → Bytes → Option Bytes → ℕ → Handlers × Result Session
  checked_login h password token now =
      let (service, result) = login bcrypt h.service password token now in
      (record h { service = service }, result)

  -- What `login` makes of that, with `failure` or `success` under the limiter's mutex.
  abbrev pub settled_login : Handlers → Bytes → Result Session → ℕ → Handlers × Response
  settled_login h client (ok session) now =
      (record h { attempts = success h.attempts client }, no_content session)
  settled_login h client (err e) now = (
    if is_invalid_credentials e
        then record h { attempts = failure sorter h.attempts client now }
        else h,
    written e,
  )

  -- `body` is absent when it is malformed, `token` when the random source fails.
  unfoldable pub login_handler :
      Turns → Handlers → Bytes → Option Bytes → Option Bytes → Handlers × Response
  login_handler turns h client body token =
      let (looked, wait) = look h client turns.look_at in
      elim wait [
        | some d ↦ (looked, too_many (retry_seconds d))
        | none ↦ elim body [
          | none ↦ (looked, Response.bad_request)
          | some password ↦
              let (checked, result) =
                checked_login (turns.after_look looked) password token turns.check_at in
              settled_login (turns.after_check checked) client result turns.count_at
        ]
      ]

  -- What `StepUp` makes of `VerifyPassword`, with `failure` or `success` under the limiter's mutex.
  abbrev pub settled_step_up : Handlers → Bytes → Result (Unit {0}) → ℕ → Handlers × StepUp
  settled_step_up h client (ok u) now =
      (record h { attempts = success h.attempts client }, StepUp.confirmed)
  settled_step_up h client (err e) now =
      if is_invalid_credentials e
      then (record h { attempts = failure sorter h.attempts client now }, StepUp.wrong)
      else (h, StepUp.failed e)

  unfoldable pub step_up : Turns → Handlers → Bytes → Bytes → Handlers × StepUp
  step_up turns h client password =
      let (looked, wait) = look h client turns.look_at in
      elim wait [
        | some d ↦ (looked, StepUp.limited)
        | none ↦
            let checking = turns.after_look looked in
            settled_step_up (turns.after_check checking) client
              (verify_password bcrypt checking.service password) turns.count_at
      ]

abbrev is_ok {ℓ} : {A : Type ℓ} → Result A → Bool
is_ok (ok a) = true
is_ok (err e) = false

-- The answer to "is there a session", at the request's cookie.
unfoldable pub session_state : Handlers → Option Bytes → ℕ → Bool
session_state h none now = false
session_state h (some token) now = is_ok (validate_session h.service token now)

unfoldable pub logout_handler : Handlers → Option Bytes → Handlers
logout_handler h none = h
logout_handler h (some token) = record h { service = logout h.service token }
