-- ===== src/Telemetry/Normalize/Accepted.antt =====
-- validate.go: which batches `Normalize` accepts, and what it makes of them.
use smotryashchiy.Base.{
  every, ℕ, suc, ◌+◌, ◌≡◌, refl, Bool, true, false, not, ◌&&◌, List, [], ◌∷◌, Option, none, some,
  map, arith, Bytes, bytes_eq, leb, nat_eq, length,
}
use smotryashchiy.Assoc.{is_some}
use smotryashchiy.Telemetry.Batch.{
  Library, Labels, Metric, Check, Event, Document, Batch, len, max_records, max_documents,
  max_labels, max_future_skew, Part, Field, Checked, valid, invalid,
}
use smotryashchiy.Telemetry.Normalize.{
  name_re, document_kind_re, version_re, is_finite, is_status, is_level, truncate, normalize_ts,
  each, is_label, normalize_labels, normalize_meta, common, normalize_metric, normalize_check,
  normalize_event, is_message, is_body, normalize_documents, normalize,
}

-- A result is `valid y` when `p` holds, and is an error when it does not.
abbrev pub Decides : {E A : Type 0} → Checked E A → Bool → A → Type 0
Decides (valid x) p y = (p ≡ true) × (x ≡ y)
Decides (invalid e) p y = p ≡ false

pub each-Decides :
    {A B : Type 0} (f : A → Checked Part B) (place : ℕ → Part → Field) (p : A → Bool) (g : A → B)
    → ((x : A) → Decides (f x) (p x) (g x))
    → (i : ℕ) (xs : List A) → Decides (each f place i xs) (every p xs) (map g xs)
each-Decides f place p g h i [] = (refl, refl)
each-Decides f place p g h i (x ∷ xs) = ground (arith, h x, each-Decides f place p g h (suc i) xs)

-- A time that is there, and at most five minutes ahead of the server's clock.
abbrev pub is_time : ℕ → ℕ → Bool
is_time now ts = not (nat_eq ts 0) && leb ts (now + max_future_skew)

abbrev pub meta_or_empty : Option Bytes → Bytes
meta_or_empty none = []
meta_or_empty (some meta) = meta

abbrev pub distinct : List Bytes → Bool
distinct [] = true
distinct (k ∷ ks) = every (λ k'. not (bytes_eq k k')) ks && distinct ks

module _ (lib : Library) where
  abbrev pub are_labels : Labels → Bool
  are_labels labels = leb (length labels) max_labels && every (is_label lib) labels

  abbrev pub metric_ok : ℕ → Metric → Bool
  metric_ok now m = name_re m.name && is_time now m.ts && are_labels m.labels && is_finite m.value

  abbrev pub check_ok : ℕ → Check → Bool
  check_ok now c =
      name_re c.name
      && is_time now c.ts
      && is_status c.status
      && is_some (normalize_meta lib c.meta)

  abbrev pub event_ok : ℕ → Event → Bool
  event_ok now e =
      is_time now e.ts && is_level e.level && is_message lib e.message && are_labels e.labels

  abbrev pub document_ok : Document → Bool
  document_ok d = document_kind_re d.kind && is_body lib (lib.trim_space d.body)

  -- What `Normalize` accepts.
  abbrev pub acceptable : Batch → ℕ → Bool
  acceptable b now =
      version_re b.schema_version
      && leb (len b) max_records
      && every (metric_ok now) b.metrics
      && every (check_ok now) b.checks
      && every (event_ok now) b.events
      && leb (length b.documents) max_documents
      && every document_ok b.documents
      && distinct (map (λ (d : Document). d.kind) b.documents)

  abbrev pub clean_metric : Metric → Metric
  clean_metric m = record m { ts = truncate m.ts }

  abbrev pub clean_check : Check → Check
  clean_check c = record c { ts = truncate c.ts; meta = meta_or_empty (normalize_meta lib c.meta) }

  abbrev pub clean_event : Event → Event
  clean_event e = record e { ts = truncate e.ts }

  abbrev pub clean_document : Document → Document
  clean_document d = record d { body = lib.trim_space d.body }

  -- The batch in normal form.
  abbrev pub cleaned : Batch → Batch
  cleaned b = record {
    schema_version = b.schema_version;
    metrics = map clean_metric b.metrics;
    checks = map clean_check b.checks;
    events = map clean_event b.events;
    documents = map clean_document b.documents;
  }

  metric-Decides :
      (now : ℕ) (m : Metric)
      → Decides (normalize_metric lib now m) (metric_ok now m) (clean_metric m)
  unfolding normalize_metric common normalize_ts normalize_labels
  metric-Decides now m = ground arith

  check-Decides :
      (now : ℕ) (c : Check) → Decides (normalize_check lib now c) (check_ok now c) (clean_check c)
  unfolding normalize_check common normalize_ts normalize_labels
  check-Decides now c = ground arith

  event-Decides :
      (now : ℕ) (e : Event) → Decides (normalize_event lib now e) (event_ok now e) (clean_event e)
  unfolding normalize_event normalize_ts normalize_labels
  event-Decides now e = ground arith

-- No document is of one of the kinds.
abbrev fresh : List Bytes → List Document → Bool
fresh kinds ds = every (λ (d : Document). every (λ k. not (bytes_eq k d.kind)) kinds) ds

fresh_none : (ds : List Document) → fresh [] ds ≡ true
fresh_none [] = refl
fresh_none (d ∷ ds) = fresh_none ds

fresh_cons :
    (k : Bytes) (kinds : List Bytes) (ds : List Document)
    → fresh (k ∷ kinds) ds
      ≡ (every (λ k'. not (bytes_eq k k')) (map (λ (d : Document). d.kind) ds) && fresh kinds ds)
fresh_cons k kinds [] = refl
fresh_cons k kinds (d ∷ ds) = ground (arith, fresh_cons k kinds ds)

module _ (lib : Library) where
  documents-Decides :
      (kinds : List Bytes) (i : ℕ) (ds : List Document)
      → Decides
          (normalize_documents lib kinds i ds)
          (every (document_ok lib) ds
            && fresh kinds ds
            && distinct (map (λ (d : Document). d.kind) ds))
          (map (clean_document lib) ds)
  unfolding normalize_documents
  documents-Decides kinds i [] = (refl, refl)
  documents-Decides kinds i (d ∷ ds) =
      ground (arith, fresh_cons d.kind kinds ds, documents-Decides (d.kind ∷ kinds) (suc i) ds)

  -- `Normalize` accepts a batch exactly if its version is 1.x, it has at most 1000 records and four
  -- documents of different kinds, and each record and document is acceptable by itself: a name, a
  -- time that is set and at most five minutes ahead of the clock, labels within their bounds, a
  -- finite value, a known status or level, a message, a meta object, a body. What it gives back is
  -- the same batch, in the same order, with each time cut to its millisecond, each meta object in its
  -- canonical form and each body trimmed.
  pub normalize_lem :
      (b : Batch) (now : ℕ) → Decides (normalize lib b now) (acceptable lib b now) (cleaned lib b)
  unfolding normalize
  normalize_lem b now = ground (
    arith,
    each-Decides (normalize_metric lib now) Field.at_metric (metric_ok lib now) (clean_metric lib)
        (metric-Decides lib now) 0 b.metrics,
    each-Decides (normalize_check lib now) Field.at_check (check_ok lib now) (clean_check lib)
        (check-Decides lib now) 0 b.checks,
    each-Decides (normalize_event lib now) Field.at_event (event_ok lib now) (clean_event lib)
        (event-Decides lib now) 0 b.events,
    documents-Decides [] 0 b.documents,
    fresh_none b.documents,
  )
