-- ===== src/Operator/Command.antt =====
-- internal/operator/domain/domain.go: commands, their arguments, and the patterns of these.
use smotryashchiy.Base.{
  ℕ, Bool, true, false, not, ◌&&◌, ◌||◌, List, [], ◌∷◌, ◌++◌, Option, none, some, Bytes, leb,
  nat_eq, if◌then◌else◌, ℤ, every,
}

-- `Kind` is a string: the closed list, or another one.
pub data Kind : Type 0 where
  warn suspend terminate lift refund_execute account_show : Kind
  other : Bytes → Kind

pub data Status : Type 0 where
  queued running done failed expired : Status
  unknown : Bytes → Status

pub record Command : Type 0 where
  pub id : Bytes
  pub host_id : Bytes
  pub kind : Kind
  pub args : Bytes
  pub reason : Bytes
  pub status : Status
  pub created_at : ℕ
  pub started_at : Option ℕ
  pub finished_at : Option ℕ
  pub result : Option Bytes
  pub error : Bytes

pub record Claimed : Type 0 where
  pub id : Bytes
  pub kind : Kind
  pub args : Bytes

pub record NewCommand : Type 0 where
  pub host_id : Bytes
  pub kind : Kind
  pub args : Bytes
  pub reason : Bytes

-- `commandArgs`
pub record Args : Type 0 where
  pub user : Option Bytes
  pub email : Option Bytes
  pub days : Option ℤ
  pub compensate : Option Bool
  pub refund : Option Bytes
  pub note : Option Bytes
  pub reason : Option Bytes

-- The Go library: `TrimSpace`, `utf8.ValidString`, the runes of a string and `unicode.IsControl`;
-- the strict decoder of the arguments, `json.Unmarshal` and `json.Marshal` for them, `json.Valid`
-- and `strings.ToValidUTF8` with nothing in place of what is not valid.
pub record Library : Type 0 where
  pub trim_space : Bytes → Bytes
  pub valid_utf8 : Bytes → Bool
  pub runes : Bytes → List ℕ
  pub is_control : ℕ → Bool
  pub decode_strict : Bytes → Option Args
  pub unmarshal : Bytes → Option Args
  pub marshal : Args → Option Bytes
  pub json_valid : Bytes → Bool
  pub to_valid_utf8 : Bytes → Bytes

pub data Invalid : Type 0 where
  bad_kind no_host malformed_args reason_in_args not_accepted bad_refund not_one_target : Invalid
  bad_user bad_email bad_days bad_note bad_reason stray_reason not_encoded : Invalid
  bad_status bad_result bad_title bad_incident_kind future_detection long_text bad_people : Invalid

pub data Checked (A : Type 0) : Type 0 where
  valid : A → Checked A
  invalid : Invalid → Checked A

infixl 5 ◌>>=◌ ◌>>◌
abbrev pub ◌>>=◌ : {A B : Type 0} → Checked A → (A → Checked B) → Checked B
valid a >>= f = f a
invalid e >>= f = invalid e

abbrev pub ◌>>◌ : {B : Type 0} → Checked (Unit {0}) → Checked B → Checked B
m >> k = m >>= λ _. k

-- `if !ok { return invalid }`
abbrev pub require : Bool → Invalid → Checked (Unit {0})
require true e = valid tt
require false e = invalid e

abbrev pub or_invalid : {A : Type 0} → Option A → Invalid → Checked A
or_invalid none e = invalid e
or_invalid (some a) e = valid a

abbrev pub max_reason_bytes : ℕ
max_reason_bytes = 300

abbrev pub max_note_bytes : ℕ
max_note_bytes = 1000

abbrev pub max_email_bytes : ℕ
max_email_bytes = 320

-- `Kind.Valid`
abbrev pub is_valid : Kind → Bool
is_valid (other s) = false
is_valid _ = true

abbrev pub needs_reason : Kind → Bool
needs_reason warn = true
needs_reason suspend = true
needs_reason terminate = true
needs_reason _ = false

abbrev pub needs_step_up : Kind → Bool
needs_step_up terminate = true
needs_step_up refund_execute = true
needs_step_up _ = false

abbrev pub is_refund : Kind → Bool
is_refund refund_execute = true
is_refund _ = false

abbrev pub is_suspend : Kind → Bool
is_suspend suspend = true
is_suspend _ = false

abbrev is_hex : ℕ → Bool
is_hex c = (leb b'0' c && leb c b'9') || (leb b'a' c && leb c b'f')

-- A text of hexadecimal digits where the template has `true`, and of dashes where it has `false`.
abbrev fits : List Bool → Bytes → Bool
fits [] [] = true
fits [] (c ∷ s) = false
fits (t ∷ ts) [] = false
fits (true ∷ ts) (c ∷ s) = is_hex c && fits ts s
fits (false ∷ ts) (c ∷ s) = nat_eq c b'-' && fits ts s

abbrev four : List Bool
four = true ∷ true ∷ true ∷ true ∷ []

-- `uuidPattern`
unfoldable pub uuid_pattern : Bytes → Bool
uuid_pattern s =
    fits
      (four ++ four ++ false ∷ four ++ false ∷ four ++ false ∷ four ++ false ∷ four ++ four ++ four)
      s

-- What `[^@\s]` accepts.
abbrev is_address_char : ℕ → Bool
is_address_char c =
    not (nat_eq c b'@' || nat_eq c 9 || nat_eq c 10 || nat_eq c 12 || nat_eq c 13 || nat_eq c 32)

-- `[^@\s]+$`, or with `false` `[^@\s]+@[^@\s]+$` behind its first character.
abbrev is_domain : Bytes → Bool
is_domain [] = false
is_domain (c ∷ s) = is_address_char c && every is_address_char s

abbrev after_local : Bytes → Bool
after_local [] = false
after_local (c ∷ s) = if nat_eq c b'@' then is_domain s else is_address_char c && after_local s

-- `emailPattern`
unfoldable pub email_pattern : Bytes → Bool
email_pattern [] = false
email_pattern (c ∷ s) = is_address_char c && after_local s
