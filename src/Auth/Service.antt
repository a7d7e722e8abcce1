-- ===== src/Auth/Service.antt =====
-- internal/auth/application/service.go over auth/domain/session.go and auth/infrastructure/store.go.
-- bcrypt, the random source and the failures of the database are what a call is given.
pub mod Sessions
use smotryashchiy.Base.{
  ℕ, ◌+◌, ◌*◌, ◌^◌, Bool, true, false, not, ◌||◌, List, [], ◌∷◌, Option, none, some, Bytes,
  bytes_key, ltb, nat_eq, if◌then◌else◌, length,
}
use smotryashchiy.Assoc.{lookup, insert, erase, keep}

pub record Session : Type 0 where
  pub token : Bytes
  pub expires_at : ℕ

-- `now.After(s.ExpiresAt)`
abbrev pub expired : Session → ℕ → Bool
expired s now = ltb s.expires_at now

pub data Error : Type 0 where
  invalid_credentials session_invalid not_initialized : Error
  read_failed store_failed : Error
  bad_length bad_characters hash_failed generate_failed : Error

pub data Result {ℓ} (A : Type ℓ) : Type ℓ where
  ok : A → Result A
  err : Error → Result A

-- The row of the settings table, and whether the database answers.
pub record Settings : Type 0 where
  pub admin_hash : Option Bytes
  pub readable : Bool
  pub writable : Bool

-- golang.org/x/crypto/bcrypt: `GenerateFromPassword` may refuse, and `CompareHashAndPassword`.
pub record Bcrypt : Type 0 where
  pub generate : Bytes → Option Bytes
  pub compare : Bytes → Bytes → Bool

pub record Service : Type 0 where
  pub store : Settings
  pub sessions : List (Bytes × Session)

-- 24 hours
abbrev pub session_ttl : ℕ
session_ttl = 24 * 3600 * 10 ^ 9

abbrev pub min_admin_password_len : ℕ
min_admin_password_len = 24

abbrev pub max_admin_password_len : ℕ
max_admin_password_len = 1024

-- `SettingsStore.Hash`
abbrev pub stored_hash : Settings → Result (Option Bytes)
stored_hash s = if s.readable then ok s.admin_hash else err read_failed

-- `SettingsStore.SetHash`
abbrev pub set_hash : Settings → Bytes → Settings × Result (Unit {0})
set_hash s hash =
    if s.writable then (record s { admin_hash = some hash }, ok tt) else (s, err store_failed)

-- `strings.ContainsAny(password, "\r\n\x00")`
abbrev pub breaks_line : Bytes → Bool
breaks_line [] = false
breaks_line (c ∷ cs) = (nat_eq c 13 || nat_eq c 10 || nat_eq c 0) || breaks_line cs

module _ (bcrypt : Bcrypt) where
  -- A stored hash and what `VerifyPassword` of the domain says of it.
  abbrev pub matches : Option Bytes → Bytes → Bool
  matches none password = false
  matches (some hash) password = bcrypt.compare hash password

  -- `generated` is the random password, absent when the random source fails.
  unfoldable pub ensure_admin_password : Service → Option Bytes → Service × Result Bytes
  ensure_admin_password s generated = elim (stored_hash s.store) [
    | err e ↦ (s, err e)
    | ok (some hash) ↦ (s, ok [])
    | ok none ↦ elim generated [
      | none ↦ (s, err generate_failed)
      | some password ↦ elim (bcrypt.generate password) [
        | none ↦ (s, err hash_failed)
        | some hash ↦ elim (set_hash s.store hash).1 [
          | err e ↦ (s, err e)
          | ok u ↦ (record s { store = (set_hash s.store hash).0 }, ok password)
        ]
      ]
    ]
  ]

  unfoldable pub require_admin_password : Service → Result (Unit {0})
  require_admin_password s = elim (stored_hash s.store) [
    | err e ↦ err e
    | ok none ↦ err not_initialized
    | ok (some hash) ↦ ok tt
  ]

  unfoldable pub set_admin_password : Service → Bytes → Service × Result (Unit {0})
  set_admin_password s password =
      if ltb (length password) min_admin_password_len
        || ltb max_admin_password_len (length password)
      then (s, err bad_length)
      else if breaks_line password
      then (s, err bad_characters)
      else (elim (bcrypt.generate password) [
        | none ↦ (s, err hash_failed)
        | some hash ↦ elim (set_hash s.store hash).1 [
          | err e ↦ (s, err e)
          | ok u ↦ (record { store = (set_hash s.store hash).0; sessions = [] }, ok tt)
        ]
      ])

  -- Abandoned sessions are pruned before the new one is stored.
  abbrev pub issue : Service → Bytes → ℕ → Service × Result Session
  issue s token now =
      let session : Session = record { token = token; expires_at = now + session_ttl } in
      let live = keep (λ existing. not (expired existing now)) s.sessions in
      (record s { sessions = insert token session live }, ok session)

  -- `token` is the random token, absent when the random source fails.
  unfoldable pub login : Service → Bytes → Option Bytes → ℕ → Service × Result Session
  login s password token now = elim (stored_hash s.store) [
    | err e ↦ (s, err e)
    | ok found ↦
        if not (matches found password)
        then (s, err invalid_credentials)
        else (elim token [ none ↦ (s, err generate_failed) | some t ↦ issue s t now ])
  ]

  unfoldable pub verify_password : Service → Bytes → Result (Unit {0})
  verify_password s password = elim (stored_hash s.store) [
    | err e ↦ err e
    | ok found ↦ if not (matches found password) then err invalid_credentials else ok tt
  ]

unfoldable pub logout : Service → Bytes → Service
logout s token = record s { sessions = erase token s.sessions }

unfoldable pub validate_session : Service → Bytes → ℕ → Result (Unit {0})
validate_session s token now = elim (lookup token s.sessions) [
  | none ↦ err session_invalid
  | some session ↦ if expired session now then err session_invalid else ok tt
]
