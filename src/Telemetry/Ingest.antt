-- ===== src/Telemetry/Ingest.antt =====
-- internal/telemetry/domain/decode.go and internal/telemetry/application/ingest.go: a batch from the
-- wire to the store, and to the stream.
use smotryashchiy.Base.{
  every, ℕ, ◌≡◌, Bool, true, false, not, ◌||◌, List, Option, none, some, map, arith, Bytes, ltb,
  if◌then◌else◌, length, is_empty,
}
use smotryashchiy.Assoc.{is_some}
use smotryashchiy.Telemetry.Batch.{
  Library, Labels, Metric, Check, Event, Document, Batch, Part, at_value, Field, at_metric, Checked,
  valid, invalid,
}
use smotryashchiy.Telemetry.Normalize.{each, normalize}
use smotryashchiy.Telemetry.Normalize.Accepted.{
  Decides, each-Decides, acceptable, cleaned, normalize_lem,
}
use smotryashchiy.Telemetry.Hub.{Message, Hub, publish, messages_for}

pub record WireMetric : Type 0 where
  pub name : Bytes
  pub ts : Option ℕ
  pub value : Option ℕ
  pub labels : Labels

pub record WireCheck : Type 0 where
  pub name : Bytes
  pub ts : Option ℕ
  pub status : Bytes
  pub meta : Bytes

pub record WireEvent : Type 0 where
  pub ts : Option ℕ
  pub level : Bytes
  pub message : Bytes
  pub labels : Labels

pub record WireBatch : Type 0 where
  pub schema_version : Bytes
  pub metrics : List WireMetric
  pub checks : List WireCheck
  pub events : List WireEvent
  pub documents : List Document

-- `deref`: the zero time when there is none.
abbrev pub deref : Option ℕ → ℕ
deref none = 0
deref (some t) = t

abbrev pub decode_metric : WireMetric → Checked Part Metric
decode_metric m = elim m.value [
  | none ↦ invalid at_value
  | some v ↦ valid (record { name = m.name; ts = deref m.ts; value = v; labels = m.labels })
]

abbrev pub decode_check : WireCheck → Check
decode_check c = record { name = c.name; ts = deref c.ts; status = c.status; meta = c.meta }

abbrev pub decode_event : WireEvent → Event
decode_event e = record { ts = deref e.ts; level = e.level; message = e.message; labels = e.labels }

-- `DecodeBatch` behind `json.Unmarshal`.
unfoldable pub decode_batch : WireBatch → Checked Field Batch
decode_batch w = elim (each decode_metric at_metric 0 w.metrics) [
  | invalid e ↦ invalid e
  | valid metrics ↦ valid (record {
    schema_version = w.schema_version;
    metrics = metrics;
    checks = map decode_check w.checks;
    events = map decode_event w.events;
    documents = w.documents;
  })
]

-- What `DecodeBatch` makes of a value that is there.
abbrev pub decoded_metric : WireMetric → Metric
decoded_metric m = record {
  name = m.name;
  ts = deref m.ts;
  value = deref m.value;
  labels = m.labels;
}

metric-Decides : (m : WireMetric) → Decides (decode_metric m) (is_some m.value) (decoded_metric m)
metric-Decides m = ground arith

abbrev pub decoded : WireBatch → Batch
decoded w = record {
  schema_version = w.schema_version;
  metrics = map decoded_metric w.metrics;
  checks = map decode_check w.checks;
  events = map decode_event w.events;
  documents = w.documents;
}

-- A batch decodes exactly if each metric has a value, zero included; all its records are then kept,
-- in their order.
pub decode_lem :
    (w : WireBatch)
    → Decides (decode_batch w) (every (λ (m : WireMetric). is_some m.value) w.metrics) (decoded w)
unfolding decode_batch
decode_lem w = ground (
  arith,
  each-Decides decode_metric at_metric (λ (m : WireMetric). is_some m.value) decoded_metric
      metric-Decides 0 w.metrics,
)

pub record Counts : Type 0 where
  pub metrics : ℕ
  pub checks : ℕ
  pub events : ℕ

pub record StoreResult : Type 0 where
  pub replayed : Bool
  pub accepted : Batch
  pub duplicates : Counts

-- `Repository.Store`: the host, the idempotency key, the time and the batch; none is an error.
pub record Repository (S : Type 0) : Type 0 where
  pub store : S → Bytes → Bytes → ℕ → Batch → S × Option StoreResult

-- The database and the publisher, if there is one.
pub record Server (S : Type 0) : Type 0 where
  pub database : S
  pub publisher : Option Hub

pub data Ingested : Type 0 where
  no_host bad_key store_failed : Ingested
  refused : Field → Ingested
  stored : StoreResult → Ingested

abbrev pub max_idempotency_key : ℕ
max_idempotency_key = 128

-- The publication at the end of `Ingest`.
abbrev pub publish_accepted : Option Hub → Bytes → StoreResult → Option Hub
publish_accepted none host r = none
publish_accepted (some h) host r =
    if not r.replayed then some (publish h (messages_for host r.accepted)) else some h

-- The publisher, if there is one, behind a publication.
abbrev pub published : Option Hub → List Message → Option Hub
published none msgs = none
published (some h) msgs = some (publish h msgs)

module _ {S : Type 0} (lib : Library) (repo : Repository S) where
  unfoldable pub ingest : Server S → Bytes → Bytes → Batch → ℕ → Server S × Ingested
  ingest s host key batch now =
      if is_empty host
      then (s, no_host)
      else if is_empty key || ltb max_idempotency_key (length key)
      then (s, bad_key)
      else (elim (normalize lib batch now) [
        | invalid e ↦ (s, refused e)
        | valid b ↦
            let (database, result) = repo.store s.database host key now b in
            elim result [
              | none ↦ (record s { database = database }, store_failed)
              | some r ↦ (
                record { database = database; publisher = publish_accepted s.publisher host r },
                stored r,
              )
            ]
      ])

  -- What a result of `Ingest` says.
  abbrev pub Answers : Server S → Bytes → Bytes → Batch → ℕ → Server S × Ingested → Type 0
  Answers s host key batch now (s', no_host) = (s' ≡ s) × (is_empty host ≡ true)
  Answers s host key batch now (s', bad_key) =
      (s' ≡ s) × ((is_empty key || ltb max_idempotency_key (length key)) ≡ true)
  Answers s host key batch now (s', refused e) = (s' ≡ s) × (acceptable lib batch now ≡ false)
  Answers s host key batch now (s', store_failed) =
      (acceptable lib batch now ≡ true)
      × (repo.store s.database host key now (cleaned lib batch) ≡ (s'.database, none))
      × (s'.publisher ≡ s.publisher)
  Answers s host key batch now (s', stored r) =
      (acceptable lib batch now ≡ true)
      × (repo.store s.database host key now (cleaned lib batch) ≡ (s'.database, some r))
      × (s'.publisher ≡ (
          if r.replayed then s.publisher else published s.publisher (messages_for host r.accepted)))

  -- A batch that is not acceptable as a whole, or comes without a host or a proper key, changes
  -- nothing. Any other goes to the store once, in normal form, and what the stream gets is what
  -- the store accepted as new, and nothing after a replay or an error.
  pub ingest_lem :
      (s : Server S) (host key : Bytes) (batch : Batch) (now : ℕ)
      → Answers s host key batch now (ingest s host key batch now)
  unfolding ingest
  ingest_lem s host key batch now = ground (arith, normalize_lem lib batch now)
