-- ===== src/Operator/Incident.antt =====
-- internal/operator/domain/domain.go: incidents and `IncidentInput.Validate`.
use smotryashchiy.Base.{
  ℕ, ◌+◌, ◌*◌, ◌^◌, Bool, true, false, not, ◌&&◌, Option, none, some, Bytes, leb, length, is_empty,
  ℤ, is_negative,
}
use smotryashchiy.Operator.Command.{
  Library, Checked, valid, ◌>>◌, require, bad_title, bad_incident_kind, future_detection, long_text,
  bad_people,
}

pub data IncidentKind : Type 0 where
  leak outage other : IncidentKind
  unknown : Bytes → IncidentKind

pub record IncidentInput : Type 0 where
  pub title : Bytes
  pub kind : IncidentKind
  pub detected_at : Option ℕ
  pub scope : Bytes
  pub people_affected : Option ℤ
  pub measures : Bytes
  pub rkn_primary_at : Option ℕ
  pub rkn_final_at : Option ℕ
  pub users_notified_at : Option ℕ
  pub notes : Bytes
  pub closed_at : Option ℕ

-- The record, as it stands in its row: times are milliseconds.
pub record Incident : Type 0 where
  pub id : Bytes
  pub title : Bytes
  pub kind : IncidentKind
  pub detected_at : ℕ
  pub scope : Bytes
  pub people_affected : Option ℤ
  pub measures : Bytes
  pub rkn_primary_at : Option ℕ
  pub rkn_final_at : Option ℕ
  pub users_notified_at : Option ℕ
  pub notes : Bytes
  pub closed_at : Option ℕ
  pub created_at : ℕ
  pub updated_at : ℕ

abbrev pub is_known : IncidentKind → Bool
is_known (unknown s) = false
is_known _ = true

abbrev pub or_now : Option ℕ → ℕ → ℕ
or_now none now = now
or_now (some t) now = t

abbrev pub is_short : Bytes → Bool
is_short text = leb (length text) 10000

abbrev pub no_negative : Option ℤ → Bool
no_negative none = true
no_negative (some n) = not (is_negative n)

unfoldable pub validate_incident : Library → IncidentInput → ℕ → Checked IncidentInput
validate_incident lib i now =
    let title = lib.trim_space i.title in
    let detected = or_now i.detected_at now in
    (do
      require (not (is_empty title) && leb (length title) 200) bad_title
      require (is_known i.kind) bad_incident_kind
      require (leb detected (now + 5 * 60 * 10 ^ 9)) future_detection
      require (is_short i.scope && is_short i.measures && is_short i.notes) long_text
      require (no_negative i.people_affected) bad_people
      valid (record i { title = title; detected_at = some detected }))
