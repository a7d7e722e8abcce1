-- ===== src/Operator/Validate/Accepted.antt =====
-- domain.go: which commands are accepted, kind by kind, and what their host is sent.
use smotryashchiy.Base.{
  ◌≡◌, Bool, true, false, not, ◌&&◌, Option, none, some, arith, Bytes, if◌then◌else◌, is_empty,
  is_between, Option-cases, inl, inr, Bool-cases,
}
use smotryashchiy.Assoc.{is_some}
use smotryashchiy.Operator.Command.{
  Kind, warn, suspend, terminate, lift, refund_execute, account_show, other, NewCommand, Args,
  Library, Checked, valid, invalid, is_valid, needs_reason, uuid_pattern, max_note_bytes,
  max_reason_bytes,
}
use smotryashchiy.Operator.Validate.{
  holds_of, empty_or, is_one, is_email, or_object, check_text, check_target, check_args, validate,
}

-- Exactly one account, by its UUID or by its address.
abbrev pub names_account : Args → Bool
names_account a = is_one a.user a.email && empty_or uuid_pattern a.user && empty_or is_email a.email

abbrev pub lacks {ℓ} : {A : Type ℓ} → Option A → Bool
lacks o = not (is_some o)

module _ (lib : Library) where
  abbrev pub note_ok : Args → Bool
  note_ok a = empty_or (check_text lib max_note_bytes) a.note

  abbrev pub reason_ok : Bytes → Bool
  reason_ok reason = check_text lib max_reason_bytes reason

  -- What each kind accepts: its arguments, and the trimmed reason.
  abbrev pub accepts : Kind → Args → Bytes → Bool
  accepts warn a reason =
      names_account a
      && note_ok a
      && lacks a.days
      && lacks a.compensate
      && lacks a.refund
      && reason_ok reason
  accepts terminate a reason =
      names_account a
      && note_ok a
      && lacks a.days
      && lacks a.compensate
      && lacks a.refund
      && reason_ok reason
  accepts suspend a reason =
      names_account a
      && note_ok a
      && holds_of (is_between 1 30) a.days
      && lacks a.compensate
      && lacks a.refund
      && reason_ok reason
  accepts lift a reason =
      names_account a && lacks a.note && lacks a.days && lacks a.refund && is_empty reason
  accepts account_show a reason =
      names_account a
      && lacks a.note
      && lacks a.days
      && lacks a.compensate
      && lacks a.refund
      && is_empty reason
  accepts refund_execute a reason =
      holds_of uuid_pattern a.refund
      && lacks a.user
      && lacks a.email
      && lacks a.note
      && lacks a.days
      && lacks a.compensate
      && is_empty reason
  accepts (other s) a reason = false

  -- The arguments with the reason that the student sees.
  abbrev pub sent : Kind → Args → Bytes → Args
  sent kind a reason = if needs_reason kind then record a { reason = some reason } else a

  abbrev Checks : Kind → Args → Bytes → Checked Args → Type 0
  Checks kind a reason (valid out) =
      ((lacks a.reason && accepts kind a reason) ≡ true) × (sent kind a reason ≡ out)
  Checks kind a reason (invalid e) = (lacks a.reason && accepts kind a reason) ≡ false

  check_args-Checks :
      (host args reason : Bytes) (kind : Kind) (a : Args)
      → is_valid kind ≡ true
      → Checks kind a
          (lib.trim_space reason)
          (check_args lib (record { host_id = host; kind = kind; args = args; reason = reason }) a)
  unfolding check_args check_target
  check_args-Checks host args reason warn a h = ground arith
  check_args-Checks host args reason terminate a h = ground arith
  check_args-Checks host args reason suspend a h = ground arith
  check_args-Checks host args reason lift a h = ground arith
  check_args-Checks host args reason account_show a h = ground arith
  check_args-Checks host args reason refund_execute a h = ground arith
  check_args-Checks host args reason (other s) a h = cc

  -- What the host would be sent.
  abbrev pub encoded : NewCommand → Option Bytes
  encoded n = elim (lib.decode_strict (or_object (lib.trim_space n.args) n.args)) [
    | none ↦ none
    | some a ↦ lib.marshal (sent n.kind a (lib.trim_space n.reason))
  ]

  abbrev pub acceptable : NewCommand → Bool
  acceptable n =
      is_valid n.kind
      && not (is_empty (lib.trim_space n.host_id))
      && elim (lib.decode_strict (or_object (lib.trim_space n.args) n.args)) [
        | none ↦ false
        | some a ↦ lacks a.reason && accepts n.kind a (lib.trim_space n.reason)
      ]
      && is_some (encoded n)

  abbrev pub Decides : NewCommand → Checked Bytes → Type 0
  Decides n (valid out) = (acceptable n ≡ true) × (encoded n ≡ some out)
  Decides n (invalid e) = acceptable n ≡ false

  -- A command is accepted exactly if its kind is on the list, it names a host, its arguments decode,
  -- they are those of its kind and within their bounds, and it has a reason exactly if its kind needs
  -- one; what comes out are those arguments, with the trimmed reason of a kind that needs one.
  pub validate_lem : (n : NewCommand) → Decides n (validate lib n)
  unfolding validate
  validate_lem n = elim (Bool-cases (is_valid n.kind)) [
    | inr e ↦ ground arith
    | inl e ↦ elim (Option-cases (lib.decode_strict (or_object (lib.trim_space n.args) n.args))) [
      | inl d ↦ ground arith
      | inr (a, d) ↦ ground (arith, check_args-Checks n.host_id n.args n.reason n.kind a)
    ]
  ]
