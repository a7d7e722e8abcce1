-- ===== src/Operator/Validate.antt =====
-- internal/operator/domain/domain.go: `NewCommand.Validate`, `Report.Validate` and `Target`.
-- Which argument an error of `not_accepted` names depends on the order of a Go map, and is left out.
pub mod Accepted
use smotryashchiy.Base.{
  ℕ, ◌-◌, ◌*◌, ◌^◌, Bool, true, false, not, ◌&&◌, ◌||◌, List, [], ◌∷◌, ◌++◌, Option, none, some,
  Bytes, bytes_eq, ltb, leb, nat_eq, if◌then◌else◌, length, drop, is_empty, codes, ℤ, is_between,
  every, starts_with,
}
use smotryashchiy.Assoc.{is_some}
use smotryashchiy.Operator.Command.{
  Kind, warn, suspend, terminate, lift, refund_execute, account_show, other, NewCommand, Args,
  Library, Status, done, failed, Checked, valid, invalid, ◌>>=◌, ◌>>◌, require, or_invalid, Invalid,
  bad_kind, no_host, malformed_args, reason_in_args, not_accepted, bad_refund, not_one_target,
  bad_user, bad_email, bad_days, bad_note, bad_reason, stray_reason, not_encoded, bad_status,
  bad_result, is_valid, needs_reason, is_refund, is_suspend, uuid_pattern, email_pattern,
  max_email_bytes, max_note_bytes, max_reason_bytes,
}

pub data ArgName : Type 0 where
  user email days compensate refund note : ArgName

-- `allowed` of `Validate`: the set of each kind.
abbrev pub allowed : Kind → List ArgName
allowed warn = user ∷ email ∷ note ∷ []
allowed terminate = user ∷ email ∷ note ∷ []
allowed suspend = user ∷ email ∷ note ∷ days ∷ []
allowed lift = user ∷ email ∷ compensate ∷ []
allowed account_show = user ∷ email ∷ []
allowed refund_execute = refund ∷ []
allowed (other s) = []

abbrev is_name : ArgName → ArgName → Bool
is_name user user = true
is_name email email = true
is_name days days = true
is_name compensate compensate = true
is_name refund refund = true
is_name note note = true
is_name _ _ = false

abbrev pub is_allowed : ArgName → List ArgName → Bool
is_allowed n [] = false
is_allowed n (m ∷ ms) = is_name n m || is_allowed n ms

-- The loop over the present arguments.
abbrev pub are_accepted : Kind → Args → Bool
are_accepted kind a =
    every (λ (p : ArgName × Bool). not (p.1 && not (is_allowed p.0 (allowed kind))))
      ((user, is_some a.user)
        ∷ (email, is_some a.email)
        ∷ (days, is_some a.days)
        ∷ (compensate, is_some a.compensate)
        ∷ (refund, is_some a.refund)
        ∷ (note, is_some a.note)
        ∷ [])

abbrev pub holds_of {ℓ} : {A : Type ℓ} → (A → Bool) → Option A → Bool
holds_of p none = false
holds_of p (some a) = p a

abbrev pub empty_or {ℓ} : {A : Type ℓ} → (A → Bool) → Option A → Bool
empty_or p none = true
empty_or p (some a) = p a

-- `(args.User == nil) != (args.Email == nil)`
abbrev pub is_one : Option Bytes → Option Bytes → Bool
is_one none none = false
is_one none (some e) = true
is_one (some u) none = true
is_one (some u) (some e) = false

abbrev pub is_email : Bytes → Bool
is_email e = leb (length e) max_email_bytes && email_pattern e

-- The target of a refund, or of any other kind.
unfoldable pub check_target : Kind → Args → Checked (Unit {0})
check_target kind a =
    if is_refund kind then require (holds_of uuid_pattern a.refund) bad_refund else (do
      require (is_one a.user a.email) not_one_target
      require (empty_or uuid_pattern a.user) bad_user
      require (empty_or is_email a.email) bad_email)

-- The decoded arguments, `{}` when there are none.
abbrev pub or_object : Bytes → Bytes → Bytes
or_object trimmed raw = if is_empty trimmed then codes "{}" else raw

module _ (lib : Library) where
  -- `checkText`
  abbrev pub check_text : ℕ → Bytes → Bool
  check_text max value =
      not (is_empty value)
      && leb (length value) max
      && lib.valid_utf8 value
      && every (λ r. not (lib.is_control r)) (lib.runes value)

  -- The reason goes into the arguments of a kind that needs one.
  abbrev pub with_reason : Kind → Bytes → Args → Checked Args
  with_reason kind reason a =
      if needs_reason kind
      then (if check_text max_reason_bytes reason
          then valid (record a { reason = some reason })
          else invalid bad_reason)
      else if is_empty reason
      then valid a
      else invalid stray_reason

  unfoldable pub check_args : NewCommand → Args → Checked Args
  unfolding check_target
  check_args n a = do
    require (not (is_some a.reason)) reason_in_args
    require (are_accepted n.kind a) not_accepted
    check_target n.kind a
    require (not (is_suspend n.kind) || holds_of (is_between 1 30) a.days) bad_days
    require (empty_or (check_text max_note_bytes) a.note) bad_note
    with_reason n.kind (lib.trim_space n.reason) a

  unfoldable pub validate : NewCommand → Checked Bytes
  unfolding check_args
  validate n = do
    require (is_valid n.kind) bad_kind
    require (not (is_empty (lib.trim_space n.host_id))) no_host
    a ← or_invalid (lib.decode_strict (or_object (lib.trim_space n.args) n.args)) malformed_args
    out ← check_args n a
    or_invalid (lib.marshal out) not_encoded

  abbrev target_of : Args → Bytes
  target_of a = elim a.user [
    | some u ↦ codes "user:" ++ u
    | none ↦ elim a.email [
      | some e ↦ codes "email:" ++ e
      | none ↦ elim a.refund [ some r ↦ codes "refund:" ++ r | none ↦ [] ]
    ]
  ]

  -- `Target`, for the audit log.
  unfoldable pub target : Bytes → Bytes
  target args = elim (lib.unmarshal args) [ none ↦ [] | some a ↦ target_of a ]

pub record Report : Type 0 where
  pub status : Status
  pub result : Option Bytes
  pub error : Bytes

abbrev pub max_result_bytes : ℕ
max_result_bytes = 64 * 2 ^ 10

abbrev pub max_error_bytes : ℕ
max_error_bytes = 2 * 2 ^ 10

abbrev pub is_final : Status → Bool
is_final done = true
is_final failed = true
is_final _ = false

abbrev pub or_none : Option Bytes → Bytes
or_none none = []
or_none (some s) = s

module _ (lib : Library) where
  -- A result is one JSON object, or none.
  abbrev pub check_result : Bytes → Checked (Option Bytes)
  check_result trimmed =
      if is_empty trimmed || bytes_eq trimmed (codes "null")
      then valid none
      else if ltb max_result_bytes (length trimmed)
          || not (starts_with (codes "{") trimmed)
          || not (lib.json_valid trimmed)
      then invalid bad_result
      else valid (some trimmed)

  -- The end of a long error.
  abbrev pub cut_error : Bytes → Bytes
  cut_error error =
      if ltb max_error_bytes (length error)
      then lib.to_valid_utf8 (drop (length error - max_error_bytes) error)
      else error

  unfoldable pub validate_report : Report → Checked Report
  validate_report r = do
    require (is_final r.status) bad_status
    result ← check_result (lib.trim_space (or_none r.result))
    valid (record r { result = result; error = cut_error r.error })
