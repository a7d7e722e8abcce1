-- ===== src/Telemetry/Tests.antt =====
-- Runs of the telemetry code, and the theorems at concrete inputs.
use smotryashchiy.Base.{
  ◌*◌, ◌≡◌, refl, true, false, List, [], ◌∷◌, ◌++◌, none, some, arith, codes, Bytes, keep_if,
  starts_with, if◌then◌else◌,
}
use smotryashchiy.Sql.{Db}
use smotryashchiy.Telemetry.Batch.{Labels, Library, Metric, Batch, valid}
use smotryashchiy.Telemetry.Normalize.{
  version_re, name_re, label_key_re, document_kind_re, normalize_ts, normalize_labels,
  normalize_meta, common, normalize_metric, normalize_check, normalize_documents, normalize,
}
use smotryashchiy.Telemetry.Normalize.Accepted.{Decides, acceptable, cleaned, normalize_lem}
use smotryashchiy.Telemetry.Hub.{
  Message, metric, Subscription, new_hub, Call, subscribes, unsubscribes, receives, publishes,
  closes_hub, calls, deliver, is_wanted, type_metric,
}
use smotryashchiy.Telemetry.Hub.Delivery.{AllSound, filled, hub_sound, deliver_lem}
use smotryashchiy.Telemetry.Ingest.{WireBatch, Repository, Server, ingest, Answers, ingest_lem}
use smotryashchiy.Telemetry.Storage
use smotryashchiy.Telemetry.Storage.Once.{Once, store-Once}
use smotryashchiy.Telemetry.Maintenance.{Maintenance, hour, roll_hours, nth, roll_hours_lem}

-- Every text is UTF-8 and trimmed; an object is what begins with a brace.
abbrev library : Library
library = record {
  valid_utf8 = λ s. true;
  trim_space = λ s. s;
  json_valid = λ s. true;
  canonical = λ s. if starts_with (codes "{") s then some s else none;
}

abbrev sample : Metric
sample = record {
  name = codes "cpu.load";
  ts = 5_000_000_123;
  value = 0;
  labels = (codes "core", codes "1") ∷ [];
}

abbrev batch : Batch
batch = record {
  schema_version = codes "1.0";
  metrics = sample ∷ [];
  checks = record { name = codes "disk"; ts = 7_000_000; status = codes "ok"; meta = [] } ∷ [];
  events = [];
  documents = record { kind = codes "business"; body = codes "{}" } ∷ [];
}

normalize_run : normalize library batch 10 ≡ valid (cleaned library batch)
unfolding normalize normalize_metric normalize_check normalize_documents common normalize_ts
    normalize_labels normalize_meta name_re label_key_re document_kind_re version_re
normalize_run = refl

normalize_lem_example :
    Decides (normalize library batch 10) (acceptable library batch 10) (cleaned library batch)
normalize_lem_example = normalize_lem library batch 10

abbrev message : Message
message = record { typ = type_metric; host_id = codes "h"; content = metric sample }

abbrev listener : Subscription
listener = record {
  queue = [];
  host = codes "h";
  typ = [];
  dropped = false;
  live = true;
  closes = 0;
  late = 0;
}

deliver_lem_example :
    deliver listener (message ∷ [])
    ≡ filled listener ([] ++ keep_if (is_wanted listener) (message ∷ []))
deliver_lem_example =
    deliver_lem listener (message ∷ []) refl
      (record { closed_once = refl; in_time = refl; buffered = omega arith; dropped_dead = refl })

abbrev use_of_hub : List Call
use_of_hub =
    subscribes 1 (codes "h") []
    ∷ publishes (message ∷ message ∷ [])
    ∷ receives 1
    ∷ unsubscribes 1
    ∷ closes_hub
    ∷ unsubscribes 1
    ∷ []

hub_sound_example : AllSound (calls new_hub use_of_hub).subs
hub_sound_example = hub_sound use_of_hub

abbrev wire : WireBatch
wire = record {
  schema_version = codes "1.0";
  metrics = record { name = codes "cpu"; ts = none; value = some 0; labels = [] } ∷ [];
  checks = [];
  events = [];
  documents = [];
}

-- A database that keeps the batches and finds every one new.
abbrev repository : Repository (List Batch)
repository = record {
  store = λ s host key now b. (
    b ∷ s,
    some (record {
      replayed = false;
      accepted = b;
      duplicates = record { metrics = 0; checks = 0; events = 0 };
    }),
  );
}

abbrev server : Server (List Batch)
server = record { database = []; publisher = some new_hub }

ingest_lem_example :
    Answers library repository server
      (codes "h")
      (codes "k")
      batch
      10
      (ingest library repository server (codes "h") (codes "k") batch 10)
ingest_lem_example = ingest_lem library repository server (codes "h") (codes "k") batch 10

hours_run : (roll_hours 3 (λ t. false) (2 * hour) (4 * hour)).1 ≡ true
unfolding roll_hours
hours_run = refl

roll_hours_lem_example : nth 1 (roll_hours 3 (λ t. false) (2 * hour) (4 * hour)).0 ≡ some (3 * hour)
roll_hours_lem_example =
    roll_hours_lem 3 (λ t. false) (2 * hour) (4 * hour) 1 (omega arith) hours_run

abbrev jobs : Maintenance
jobs = record {
  raw_ttl = 48 * hour;
  rollup_ttl = 480 * hour;
  earliest = some (5 * hour);
  through = some (100 * hour);
}

abbrev stored_host : Storage.HostRow
stored_host = record { id = codes "h"; name = codes "web"; created_at = 0; last_seen_at = none }

abbrev storage : Db Storage.Tables
storage = record {
  tables = record {
    hosts = stored_host ∷ [];
    batches = [];
    metrics = [];
    checks = [];
    events = [];
    documents = [];
  };
  faults = [];
}

abbrev flat : Labels → Bytes
flat labels = codes "{}"

store-Once_example :
    Once flat
      (codes "h")
      (codes "key")
      9_000_000
      batch
      storage
      (Storage.store flat (codes "h") (codes "key") 8_000_000 batch storage)
store-Once_example =
    store-Once flat (codes "h") (codes "key") 8_000_000 9_000_000 batch batch storage
