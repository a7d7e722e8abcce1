-- ===== src/Telemetry/Storage/Rows.antt =====
-- The tables of 0002_telemetry.sql and 0009_documents.sql, with their primary keys.
use smotryashchiy.Base.{
  ℕ, Bool, false, ◌&&◌, ◌||◌, List, [], ◌∷◌, ◌++◌, Option, Bytes, bytes_eq, nat_eq, if◌then◌else◌,
  map,
}

pub record HostRow : Type 0 where
  pub id : Bytes
  pub name : Bytes
  pub created_at : ℕ
  pub last_seen_at : Option ℕ

pub record BatchRow : Type 0 where
  pub host_id : Bytes
  pub idempotency_key : Bytes
  pub received_at : ℕ
  pub record_count : ℕ

pub record MetricRow : Type 0 where
  pub host_id : Bytes
  pub name : Bytes
  pub labels : Bytes
  pub ts : ℕ
  pub value : ℕ
  pub schema_version : Bytes

pub record CheckRow : Type 0 where
  pub host_id : Bytes
  pub name : Bytes
  pub ts : ℕ
  pub status : Bytes
  pub meta : Bytes
  pub schema_version : Bytes

pub record EventRow : Type 0 where
  pub host_id : Bytes
  pub ts : ℕ
  pub level : Bytes
  pub message : Bytes
  pub labels : Bytes
  pub schema_version : Bytes

pub record DocumentRow : Type 0 where
  pub host_id : Bytes
  pub kind : Bytes
  pub received_at : ℕ
  pub body : Bytes

pub record Tables : Type 0 where
  pub hosts : List HostRow
  pub batches : List BatchRow
  pub metrics : List MetricRow
  pub checks : List CheckRow
  pub events : List EventRow
  pub documents : List DocumentRow

-- The primary keys.
abbrev pub same_batch : BatchRow → BatchRow → Bool
same_batch a b = bytes_eq a.host_id b.host_id && bytes_eq a.idempotency_key b.idempotency_key

abbrev pub same_metric : MetricRow → MetricRow → Bool
same_metric a b =
    bytes_eq a.host_id b.host_id
    && bytes_eq a.name b.name
    && bytes_eq a.labels b.labels
    && nat_eq a.ts b.ts

abbrev pub same_check : CheckRow → CheckRow → Bool
same_check a b = bytes_eq a.host_id b.host_id && bytes_eq a.name b.name && nat_eq a.ts b.ts

abbrev pub same_event : EventRow → EventRow → Bool
same_event a b =
    bytes_eq a.host_id b.host_id
    && nat_eq a.ts b.ts
    && bytes_eq a.level b.level
    && bytes_eq a.message b.message
    && bytes_eq a.labels b.labels

abbrev pub same_document : DocumentRow → DocumentRow → Bool
same_document a b = bytes_eq a.host_id b.host_id && bytes_eq a.kind b.kind

module _ {ℓ} {R : Type ℓ} (same : R → R → Bool) where
  abbrev pub is_there : R → List R → Bool
  is_there r [] = false
  is_there r (x ∷ xs) = same x r || is_there r xs

  -- `INSERT ... ON CONFLICT DO NOTHING`: the table, one row longer or as it was.
  abbrev pub inserted : R → List R → List R
  inserted r rows = if is_there r rows then rows else rows ++ r ∷ []

  -- `INSERT ... ON CONFLICT DO UPDATE` of every other column.
  abbrev pub replaced : R → List R → List R
  replaced r rows =
      if is_there r rows then map (λ x. if same x r then r else x) rows else rows ++ r ∷ []
