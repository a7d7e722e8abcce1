-- ===== src/Auth/Tests.antt =====
-- Runs of the login code, and the theorems at concrete inputs.
use smotryashchiy.Base.{
  ◌+◌, ◌-◌, ◌≤◌, ◌≡◌, ◌≢◌, refl, sym, ◌⊎◌, true, false, List, [], ◌∷◌, none, some, arith, Bytes,
  bytes_key, bytes_eq, bytes_eq_iff, codes, length,
}
use smotryashchiy.Assoc.{Distinct}
use smotryashchiy.Sorting.{Sorter, insertion_sorter}
use smotryashchiy.Auth.LoginLimiter.{Attempts, retry_after}
use smotryashchiy.Auth.LoginLimiter.Lockout.{failures_at, lockout}
use smotryashchiy.Auth.Service.{
  Session, Settings, Bcrypt, Service, ok, err, session_invalid, session_ttl, matches, login,
  min_admin_password_len, max_admin_password_len, breaks_line, validate_session, set_admin_password,
}
use smotryashchiy.Auth.Service.Sessions.{
  validate_session-login, login_sound, set_admin_password_sound,
}
use smotryashchiy.Auth.Handlers.{Handlers}
use smotryashchiy.Auth.Handlers.Requests.{
  World, Move, login_comes, step_up_comes, goes, move, moves,
}
use smotryashchiy.Auth.Handlers.Counting.{comparisons, all_fit}
use smotryashchiy.Auth.Handlers.BruteForce.{brute_force}
use smotryashchiy.Auth.LoginLimiter.{make_room, failure, success}
use smotryashchiy.Auth.Service.{verify_password}
use smotryashchiy.Auth.Guards.{
  Http, Request, known, is_api_path, public_api_paths, is_safe_method, guard_cross_origin_writes,
  require_session, same_origin_request, has_body, is_json, protect, protected_needs_session,
}

abbrev sorter : Sorter Bytes
sorter = insertion_sorter

-- The hash of the tests is the password itself.
abbrev plain : Bcrypt
plain = record { generate = λ p. some p; compare = bytes_eq }

abbrev secret : Bytes
secret = codes "correct horse battery staple"

abbrev settings : Settings
settings = record { admin_hash = some secret; readable = true; writable = true }

abbrev service : Service
service = record { store = settings; sessions = [] }

abbrev handlers : Handlers
handlers = record { service = service; attempts = [] }

abbrev client : Bytes
client = codes "10.0.0.1"

abbrev at_rest : World
at_rest = record { handlers = handlers; flights = []; compared = [] }

-- Two guesses at once, then one after the other; another client logs in with the right password.
abbrev guesses : List Move
guesses =
    login_comes client (some (codes "a")) none 1
    ∷ step_up_comes client (codes "b") 2
    ∷ login_comes (codes "10.0.0.2") (some secret) (some (codes "t")) 2
    ∷ goes 2 3
    ∷ goes 1 3
    ∷ goes 0 4
    ∷ goes 0 4
    ∷ goes 0 5
    ∷ goes 0 5
    ∷ login_comes client none none 6
    ∷ login_comes client (some (codes "c")) none 7
    ∷ goes 0 8
    ∷ goes 0 9
    ∷ []

guesses_run : comparisons client (moves plain sorter guesses at_rest).compared ≡ 3
unfolding move retry_after failure make_room success login verify_password
guesses_run = refl

guesses_fit : all_fit plain sorter client 2 guesses at_rest ≡ true
unfolding move retry_after failure make_room success login verify_password
guesses_fit = refl

brute_force_example : comparisons client (moves plain sorter guesses at_rest).compared ≤ 4 + 2
brute_force_example =
    brute_force plain sorter client 2 1 guesses at_rest refl refl refl refl refl refl guesses_fit

lockout_example :
    retry_after (failures_at sorter [] client (1 ∷ 2 ∷ 3 ∷ 4 ∷ 5 ∷ [])) client 10
    ≡ (failures_at sorter [] client (1 ∷ 2 ∷ 3 ∷ 4 ∷ 5 ∷ []), some (900_000_000_001 - 10))
lockout_example = lockout sorter [] client 1 (2 ∷ 3 ∷ 4 ∷ 5 ∷ []) 10 refl (omega arith)

abbrev attempts : Attempts
attempts =
    (client, record { failures = 2; reset_at = 50; seen = 9 })
    ∷ (codes "10.0.0.2", record { failures = 1; reset_at = 99; seen = 12 })
    ∷ []

abbrev session : Session
session = record { token = codes "t"; expires_at = 100 + session_ttl }

abbrev old_session : Session
old_session = record { token = codes "u"; expires_at = 200 }

abbrev before : Service
before = record service { sessions = (codes "u", old_session) ∷ [] }

abbrev after : Service
after = record service { sessions = (codes "u", old_session) ∷ (codes "t", session) ∷ [] }

validate_session-login_example :
    validate_session after (codes "u") 150 ≡ validate_session before (codes "u") 150
unfolding login
validate_session-login_example =
    validate_session-login plain before after secret (some (codes "t")) 100 150 session (codes "u")
      (refl, tt) refl (omega arith)

login_sound_example :
    (matches plain (some secret) secret ≡ true)
    × (some (codes "t") ≡ some (codes "t"))
    × (100 ≤ 200)
    × Distinct after.sessions
unfolding login
login_sound_example =
    login_sound plain before after secret (some (codes "t")) 100 session (codes "u") old_session
      (refl, tt) refl refl

set_admin_password_sound_example :
    let (s', r) = set_admin_password plain before secret in
    ((r ≡ ok tt)
      × (min_admin_password_len ≤ length secret)
      × (length secret ≤ max_admin_password_len)
      × (breaks_line secret ≡ false)
      × (validate_session s' (codes "u") 150 ≡ err session_invalid)
      × ((login plain s' secret (some (codes "t")) 150).1
          ≡ ok (record { token = codes "t"; expires_at = 150 + session_ttl })))
    ⊎ ((r ≢ ok tt) × (s' ≡ before))
set_admin_password_sound_example =
    set_admin_password_sound plain before secret (codes "t") (codes "u") 150
      (λ h e. let same : secret ≡ h = cc in (bytes_eq_iff h secret).1 (sym same)) refl

abbrev http : Http
http = record { origin_host = λ o. some o; media_type = λ t. some t; equal_fold = bytes_eq }

abbrev read_request : Request
read_request = record {
  path = codes "/api/hosts";
  method = codes "GET";
  host = codes "h";
  sec_fetch_site = [];
  origin = [];
  content_type = [];
  body = known 0;
  cookie = some (codes "u");
}

abbrev foreign_write : Request
foreign_write = record read_request { method = codes "POST"; sec_fetch_site = codes "same-site" }

protected_needs_session_example :
    ((token : Bytes) × (some (codes "u") ≡ some token)
      × (validate_session before token 150 ≡ ok tt))
    × ((is_safe_method (codes "GET") ≡ true)
        ⊎ ((same_origin_request http read_request ≡ true)
            × ((has_body (known 0) ≡ false) ⊎ (is_json http [] ≡ true))))
unfolding is_api_path public_api_paths protect is_safe_method validate_session
    guard_cross_origin_writes require_session
protected_needs_session_example =
    protected_needs_session http before read_request 150 refl refl refl
