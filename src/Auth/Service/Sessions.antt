-- ===== src/Auth/Service/Sessions.antt =====
-- service.go: what a login grants, for how long, and what ends it.
use mathlib.Core.Path.{subst}
use smotryashchiy.Base.{
  ℕ, ◌+◌, ◌≤◌, ◌≡◌, ◌≢◌, ◌⊎◌, sym, ap, Bool, true, false, not, Option, some, arith, Bytes,
  bytes_key, bytes_eq, leb, if◌then◌else◌, length,
}
use smotryashchiy.Assoc.{
  lookup, insert, keep, Distinct, lookup-insert, lookup-erase, lookup-keep, keep-Distinct,
  insert-Distinct,
}
use smotryashchiy.Auth.Service.{
  Session, expired, ok, err, Error, invalid_credentials, session_invalid, Bcrypt, Service,
  session_ttl, min_admin_password_len, max_admin_password_len, breaks_line, matches,
  set_admin_password, login, logout, verify_password, validate_session,
}

abbrev pub is_live : ℕ → Session → Bool
is_live now s = not (expired s now)

module _ (bcrypt : Bcrypt) where
  login_ok :
      (s s' : Service) (password : Bytes) (token : Option Bytes) (now : ℕ) (session : Session)
      → login bcrypt s password token now ≡ (s', ok session)
      → (matches bcrypt s.store.admin_hash password ≡ true)
        × (token ≡ some session.token)
        × (session.expires_at ≡ now + session_ttl)
        × (s'.store ≡ s.store)
        × (s'.sessions ≡ insert session.token session (keep (is_live now) s.sessions))
  unfolding login
  login_ok s s' password token now session h = ground arith

  -- After a login that succeeded at `now`, at any later time: the new token is valid up to and at the
  -- end of its 24 hours and not after, and any other token is valid exactly if it was before.
  pub validate_session-login :
      (s s' : Service) (password : Bytes) (token : Option Bytes) (now later : ℕ) (session : Session)
      (other : Bytes)
      → Distinct s.sessions
      → login bcrypt s password token now ≡ (s', ok session)
      → now ≤ later
      → validate_session s' other later ≡ (
          if bytes_eq session.token other
          then (if leb later (now + session_ttl) then ok tt else err session_invalid)
          else validate_session s other later)
  unfolding validate_session
  validate_session-login s s' password token now later session other d h le =
      let (_, _, e, _, same) = login_ok s s' password token now session h in
      ground (
        arith,
        same,
        ap (lookup other) same,
        lookup-insert session.token other session (keep (is_live now) s.sessions),
        lookup-keep (is_live now) other s.sessions d,
      )

  -- A login succeeds only with a password that the stored hash accepts; its token is the random one,
  -- and no session is left that had expired.
  pub login_sound :
      (s s' : Service) (password : Bytes) (token : Option Bytes) (now : ℕ) (session : Session)
      (other : Bytes) (old : Session)
      → Distinct s.sessions
      → login bcrypt s password token now ≡ (s', ok session)
      → lookup other s'.sessions ≡ some old
      → (matches bcrypt s.store.admin_hash password ≡ true)
        × (token ≡ some session.token)
        × (now ≤ old.expires_at)
        × Distinct s'.sessions
  unfolding login
  login_sound s s' password token now session other old d h found =
      let (m, t, e, _, same) = login_ok s s' password token now session h in
      (
        m,
        t,
        ground (
          arith,
          ap (lookup other) same,
          lookup-insert session.token other session (keep (is_live now) s.sessions),
          lookup-keep (is_live now) other s.sessions d,
        ),
        subst Distinct (sym same)
            (insert-Distinct session.token session _ (keep-Distinct (is_live now) s.sessions d)),
      )

  -- A login that fails changes nothing, and a wrong password, or none being set, fails as invalid
  -- credentials when the database answers.
  pub login_fails :
      (s : Service) (password : Bytes) (token : Option Bytes) (now : ℕ)
      → s.store.readable ≡ true
      → matches bcrypt s.store.admin_hash password ≡ false
      → (login bcrypt s password token now ≡ (s, err invalid_credentials))
        × (verify_password bcrypt s password ≡ err invalid_credentials)
  unfolding login verify_password
  login_fails s password token now r m = ground arith

  -- A login that reports an error leaves the service as it was.
  pub login_error_unchanged :
      (s : Service) (password : Bytes) (token : Option Bytes) (now : ℕ) (e : Error)
      → (login bcrypt s password token now).1 ≡ err e
      → (login bcrypt s password token now).0 ≡ s
  unfolding login
  login_error_unchanged s password token now e h = ground arith

  -- Setting the admin password ends every session; the password is one line of 24 to 1024 bytes and
  -- logs in from then on, if bcrypt accepts what it generated. A refusal changes nothing.
  pub set_admin_password_sound :
      (s : Service) (password : Bytes) (token other : Bytes) (now : ℕ)
      → ((h : Bytes) → bcrypt.generate password ≡ some h → bcrypt.compare h password ≡ true)
      → s.store.readable ≡ true
      → let (s', r) = set_admin_password bcrypt s password in
        ((r ≡ ok tt)
          × (min_admin_password_len ≤ length password)
          × (length password ≤ max_admin_password_len)
          × (breaks_line password ≡ false)
          × (validate_session s' other now ≡ err session_invalid)
          × ((login bcrypt s' password (some token) now).1
              ≡ ok (record { token = token; expires_at = now + session_ttl })))
        ⊎ ((r ≢ ok tt) × (s' ≡ s))
  unfolding set_admin_password validate_session login
  set_admin_password_sound s password token other now law r = grind (arith, law)

-- Ending a session makes its token invalid, at any time, and no other.
pub validate_session-logout :
    (s : Service) (token other : Bytes) (now : ℕ)
    → validate_session (logout s token) other now
      ≡ (if bytes_eq token other then err session_invalid else validate_session s other now)
unfolding validate_session logout
validate_session-logout s token other now = ground (arith, lookup-erase token other s.sessions)
