-- ===== src/Telemetry/Batch.antt =====
-- internal/telemetry/domain/types.go: the batch, with the limits and the fields of validate.go.
-- A float64 is its 64 bits. A time is in UTC already.
use smotryashchiy.Base.{ℕ, ◌+◌, ◌*◌, ◌^◌, Bool, List, Option, Bytes, length}

-- The Go library: `utf8.ValidString`, `strings.TrimSpace`, `json.Valid`, and `json.Unmarshal` into a
-- map of raw values followed by `json.Marshal` of it.
pub record Library : Type 0 where
  pub valid_utf8 : Bytes → Bool
  pub trim_space : Bytes → Bytes
  pub json_valid : Bytes → Bool
  pub canonical : Bytes → Option Bytes

abbrev pub Labels : Type 0
Labels = List (Bytes × Bytes)

pub record Metric : Type 0 where
  pub name : Bytes
  pub ts : ℕ
  pub value : ℕ
  pub labels : Labels

pub record Check : Type 0 where
  pub name : Bytes
  pub ts : ℕ
  pub status : Bytes
  pub meta : Bytes

pub record Event : Type 0 where
  pub ts : ℕ
  pub level : Bytes
  pub message : Bytes
  pub labels : Labels

pub record Document : Type 0 where
  pub kind : Bytes
  pub body : Bytes

pub record Batch : Type 0 where
  pub schema_version : Bytes
  pub metrics : List Metric
  pub checks : List Check
  pub events : List Event
  pub documents : List Document

-- `Batch.Len`
abbrev pub len : Batch → ℕ
len b = length b.metrics + length b.checks + length b.events

abbrev pub max_records : ℕ
max_records = 1000

abbrev pub max_documents : ℕ
max_documents = 4

abbrev pub max_document_bytes : ℕ
max_document_bytes = 512 * 2 ^ 10

abbrev pub max_labels : ℕ
max_labels = 16

abbrev pub max_label_value : ℕ
max_label_value = 128

abbrev pub max_message : ℕ
max_message = 2048

abbrev pub max_meta : ℕ
max_meta = 4096

-- five minutes
abbrev pub max_future_skew : ℕ
max_future_skew = 5 * 60 * 10 ^ 9

-- The field that an error names.
pub data Part : Type 0 where
  at_name at_ts at_value at_labels at_status at_meta at_level at_message at_kind at_body : Part

pub data Field : Type 0 where
  at_schema_version at_batch at_documents : Field
  at_metric at_check at_event at_document : ℕ → Part → Field

pub data Checked {ℓ} (E : Type 0) (A : Type ℓ) : Type ℓ where
  valid : A → Checked E A
  invalid : E → Checked E A
