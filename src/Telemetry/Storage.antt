-- ===== src/Telemetry/Storage.antt =====
-- internal/telemetry/infrastructure/store.go: `Store`, the transaction that stores a batch. The tables
-- that triggers keep beside these are not modelled.
pub mod Rows
pub mod Once
pub use Rows.*
use smotryashchiy.Base.{
  ℕ, ◌+◌, ◌/◌, ◌^◌, Bool, true, false, not, ◌&&◌, ◌||◌, List, [], ◌∷◌, ◌++◌, Option, none, some,
  Bytes, bytes_eq, nat_eq, if◌then◌else◌, length, map,
}
use smotryashchiy.Sql.{
  Db, Result, ok, err, Action, ◌>>=◌, ◌>>◌, pure, refuse, statement, query, exec, Ending, commits,
  returns, ended_transaction,
}
use smotryashchiy.Telemetry.Batch.{Labels, Metric, Check, Event, Document, Batch, len}
use smotryashchiy.Telemetry.Ingest.{Counts, StoreResult, Repository}

pub data Error : Type 0 where
  host_not_found : Error

abbrev pub Stored : Type 0 → Type 0
Stored A = Action Tables Error A

-- `UnixMilli`, up to the epoch
abbrev pub unix_milli : ℕ → ℕ
unix_milli t = t / 10 ^ 6

abbrev pub has_host : Bytes → List HostRow → Bool
has_host id [] = false
has_host id (h ∷ hs) = bytes_eq h.id id || has_host id hs

-- `prepared`
abbrev pub prepared : ℕ → Stored (Unit {0})
prepared records = if nat_eq records 0 then pure tt else exec (λ t. t)

-- A record was new, or a duplicate.
abbrev pub tally {ℓ} : {A : Type ℓ} → Bool → A → List A × ℕ → List A × ℕ
tally true a (accepted, duplicates) = (a ∷ accepted, duplicates)
tally false a (accepted, duplicates) = (accepted, duplicates + 1)

-- `insertIgnore` into one of the tables: whether a row was inserted.
abbrev pub insert_metric : MetricRow → Stored Bool
insert_metric r = statement (λ t. (
  not (is_there same_metric r t.metrics),
  record t { metrics = inserted same_metric r t.metrics },
))

abbrev pub insert_check : CheckRow → Stored Bool
insert_check r = statement (λ t.
    (not (is_there same_check r t.checks), record t { checks = inserted same_check r t.checks }))

abbrev pub insert_event : EventRow → Stored Bool
insert_event r = statement (λ t.
    (not (is_there same_event r t.events), record t { events = inserted same_event r t.events }))

-- `canonical` is `CanonicalLabels`: the JSON of the labels with sorted keys.
module _ (canonical : Labels → Bytes) where
  abbrev pub metric_row : Bytes → Bytes → Metric → MetricRow
  metric_row host version m = record {
    host_id = host;
    name = m.name;
    labels = canonical m.labels;
    ts = unix_milli m.ts;
    value = m.value;
    schema_version = version;
  }

  abbrev pub check_row : Bytes → Bytes → Check → CheckRow
  check_row host version c = record {
    host_id = host;
    name = c.name;
    ts = unix_milli c.ts;
    status = c.status;
    meta = c.meta;
    schema_version = version;
  }

  abbrev pub event_row : Bytes → Bytes → Event → EventRow
  event_row host version e = record {
    host_id = host;
    ts = unix_milli e.ts;
    level = e.level;
    message = e.message;
    labels = canonical e.labels;
    schema_version = version;
  }

-- One of the three loops over the records of a batch: the new ones, and how many were not.
unfoldable pub insert_all : {A : Type 0} → (A → Stored Bool) → List A → Stored (List A × ℕ)
insert_all insert [] = pure ([], 0)
insert_all insert (a ∷ rest) = do
  new ← insert a
  others ← insert_all insert rest
  pure (tally new a others)

unfoldable pub store_documents : Bytes → ℕ → List Document → Stored (Unit {0})
store_documents host received [] = pure tt
store_documents host received (d ∷ rest) = do
  exec (λ t. record t {
    documents =
        replaced same_document
          (record { host_id = host; kind = d.kind; received_at = received; body = d.body })
          t.documents;
  })
  store_documents host received rest

abbrev pub seen : Bytes → ℕ → HostRow → HostRow
seen id received h = if bytes_eq h.id id then record h { last_seen_at = some received } else h

-- The statement on the host's own row.
abbrev pub see_host : Bytes → ℕ → Stored (Unit {0})
see_host host received = exec (λ t. record t { hosts = map (seen host received) t.hosts })

-- What a new batch is answered: the new records, and how many were not.
abbrev pub stored : Batch → List Metric × ℕ → List Check × ℕ → List Event × ℕ → StoreResult
stored b metrics checks events = record {
  replayed = false;
  accepted = record {
    schema_version = b.schema_version;
    metrics = metrics.0;
    checks = checks.0;
    events = events.0;
    documents = [];
  };
  duplicates = record { metrics = metrics.1; checks = checks.1; events = events.1 };
}

abbrev pub batch_row : Bytes → Bytes → ℕ → Batch → BatchRow
batch_row host key now b = record {
  host_id = host;
  idempotency_key = key;
  received_at = unix_milli now;
  record_count = len b;
}

-- The result of an idempotency key that was there already.
abbrev pub replay : StoreResult
replay = record {
  replayed = true;
  accepted = record { schema_version = []; metrics = []; checks = []; events = []; documents = [] };
  duplicates = record { metrics = 0; checks = 0; events = 0 };
}

abbrev pub claimed_batch : BatchRow → Tables → Bool × Tables
claimed_batch r t =
    (not (is_there same_batch r t.batches), record t { batches = inserted same_batch r t.batches })

abbrev pub claim_batch : BatchRow → Stored Bool
claim_batch r = statement (claimed_batch r)

module _ (canonical : Labels → Bytes) where
  -- What follows when the batch is new.
  unfoldable pub store_records : Bytes → ℕ → Batch → Stored StoreResult
  unfolding insert_all store_documents
  store_records host received b = do
    prepared (length b.metrics)
    prepared (length b.checks)
    prepared (length b.events)
    metrics ←
        insert_all (λ m. insert_metric (metric_row canonical host b.schema_version m)) b.metrics
    checks ← insert_all (λ c. insert_check (check_row canonical host b.schema_version c)) b.checks
    events ← insert_all (λ e. insert_event (event_row canonical host b.schema_version e)) b.events
    store_documents host received b.documents
    see_host host received
    pure (stored b metrics checks events)

  unfoldable pub store_batch : Bytes → Bytes → ℕ → Batch → Stored (Ending StoreResult)
  unfolding store_records
  store_batch host key now b = do
    known ← query (λ t. has_host host t.hosts)
    if not known then refuse host_not_found else (do
      new ← claim_batch (batch_row host key now b)
      if not new
          then pure (returns replay)
          else (do r ← store_records host (unix_milli now) b; pure (commits r)))

  -- `Store`
  unfoldable pub store : Bytes → Bytes → ℕ → Batch → Stored StoreResult
  unfolding store_batch
  store host key now b = ended_transaction (store_batch host key now b)

abbrev as_option : Result Error StoreResult × Db Tables → Db Tables × Option StoreResult
as_option (ok r, d) = (d, some r)
as_option (err e, d) = (d, none)

-- The repository behind `Ingest`.
abbrev pub repository : (Labels → Bytes) → Repository (Db Tables)
repository canonical = record {
  store = λ d host key now b. as_option (store canonical host key now b d);
}
