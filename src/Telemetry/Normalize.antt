-- ===== src/Telemetry/Normalize.antt =====
-- internal/telemetry/domain/validate.go: `Normalize`, with the field of the first error.
pub mod Accepted
use smotryashchiy.Base.{
  every, ℕ, zero, suc, ◌+◌, ◌-◌, ◌*◌, ◌/◌, ◌%◌, ◌^◌, Bool, true, false, not, ◌&&◌, ◌||◌, List, [],
  ◌∷◌, Option, none, some, Bytes, bytes_eq, ltb, leb, nat_eq, if◌then◌else◌, codes, length,
  is_empty, starts_with,
}
use smotryashchiy.Telemetry.Batch.{
  Library, Labels, Metric, Check, Event, Document, Batch, len, max_records, max_documents,
  max_document_bytes, max_labels, max_label_value, max_message, max_meta, max_future_skew, Part,
  Field, Checked, at_name, at_ts, at_value, at_labels, at_status, at_meta, at_level, at_message,
  at_kind, at_body, at_schema_version, at_batch, at_documents, at_metric, at_check, at_event,
  at_document, valid, invalid,
}

abbrev is_lower : ℕ → Bool
is_lower c = leb b'a' c && leb c b'z'

abbrev is_digit : ℕ → Bool
is_digit c = leb b'0' c && leb c b'9'

abbrev is_word : ℕ → Bool
is_word c = is_lower c || is_digit c || nat_eq c b'_'

abbrev is_dotted : ℕ → Bool
is_dotted c = is_word c || nat_eq c b'.'

-- `^[a-z][...]{0,max}$`
abbrev identifier : (ℕ → Bool) → ℕ → Bytes → Bool
identifier p max [] = false
identifier p max (c ∷ cs) = is_lower c && every p cs && leb (length cs) max

unfoldable pub name_re : Bytes → Bool
name_re s = identifier is_dotted 127 s

unfoldable pub label_key_re : Bytes → Bool
label_key_re s = identifier is_word 63 s

unfoldable pub document_kind_re : Bytes → Bool
document_kind_re s = identifier is_dotted 63 s

-- `^1\.[0-9]{1,4}$`
unfoldable pub version_re : Bytes → Bool
version_re (a ∷ b ∷ c ∷ cs) =
    nat_eq a b'1' && nat_eq b b'.' && every is_digit (c ∷ cs) && leb (length (c ∷ cs)) 4
version_re _ = false

-- Not NaN and not infinite: the eleven bits of the exponent are not all set.
abbrev pub is_finite : ℕ → Bool
is_finite bits = not (nat_eq (bits / 2 ^ 52 % 2 ^ 11) (2 ^ 11 - 1))

abbrev pub is_status : Bytes → Bool
is_status s = bytes_eq s (codes "ok") || bytes_eq s (codes "warn") || bytes_eq s (codes "critical")

abbrev pub is_level : Bytes → Bool
is_level s =
    bytes_eq s (codes "info")
    || bytes_eq s (codes "warn")
    || bytes_eq s (codes "error")
    || bytes_eq s (codes "critical")

-- `Truncate(time.Millisecond)`
abbrev pub truncate : ℕ → ℕ
truncate ts = ts - ts % 10 ^ 6

unfoldable pub normalize_ts : ℕ → ℕ → Option ℕ
normalize_ts ts now =
    if nat_eq ts 0
    then none
    else if ltb (now + max_future_skew) ts
    then none
    else some (truncate ts)

-- A loop that normalizes a list, and stops at the first item that is refused.
abbrev pub each {ℓ m} :
    {A : Type ℓ} {B : Type m}
    → (A → Checked Part B)
    → (ℕ → Part → Field)
    → ℕ
    → List A
    → Checked Field (List B)
each f place i [] = valid []
each f place i (x ∷ xs) =
    let rest = each f place (suc i) xs in
    elim (f x) [
      | invalid p ↦ invalid (place i p)
      | valid y ↦ elim rest [ invalid e ↦ invalid e | valid ys ↦ valid (y ∷ ys) ]
    ]

module _ (lib : Library) where
  abbrev pub is_label : Bytes × Bytes → Bool
  is_label (k, v) = label_key_re k && leb (length v) max_label_value && lib.valid_utf8 v

  -- `normalizeLabels` copies the map if it accepts it.
  unfoldable pub normalize_labels : Labels → Option Labels
  normalize_labels labels =
      if ltb max_labels (length labels)
      then none
      else if every is_label labels
      then some labels
      else none

  unfoldable pub normalize_meta : Bytes → Option Bytes
  normalize_meta meta =
      let trimmed = lib.trim_space meta in
      if is_empty trimmed || bytes_eq trimmed (codes "null")
      then some (codes "{}")
      else if ltb max_meta (length trimmed)
      then none
      else lib.canonical trimmed

  -- `common`: the name, the time and the labels.
  unfoldable pub common : Bytes → ℕ → Labels → ℕ → Checked Part (ℕ × Labels)
  common name ts labels now =
      if not (name_re name) then invalid at_name else (elim (normalize_ts ts now) [
        | none ↦ invalid at_ts
        | some t ↦ elim (normalize_labels labels) [
          | none ↦ invalid at_labels
          | some l ↦ valid (t, l)
        ]
      ])

  unfoldable pub normalize_metric : ℕ → Metric → Checked Part Metric
  normalize_metric now m = elim (common m.name m.ts m.labels now) [
    | invalid p ↦ invalid p
    | valid (t, l) ↦
        if not (is_finite m.value)
        then invalid at_value
        else valid (record { name = m.name; ts = t; value = m.value; labels = l })
  ]

  unfoldable pub normalize_check : ℕ → Check → Checked Part Check
  normalize_check now c = elim (common c.name c.ts [] now) [
    | invalid p ↦ invalid p
    | valid (t, l) ↦
        if not (is_status c.status) then invalid at_status else (elim (normalize_meta c.meta) [
          | none ↦ invalid at_meta
          | some meta ↦ valid (record { name = c.name; ts = t; status = c.status; meta = meta })
        ])
  ]

  abbrev pub is_message : Bytes → Bool
  is_message s = not (is_empty s) && leb (length s) max_message && lib.valid_utf8 s

  unfoldable pub normalize_event : ℕ → Event → Checked Part Event
  normalize_event now e = elim (normalize_ts e.ts now) [
    | none ↦ invalid at_ts
    | some t ↦
        if not (is_level e.level)
        then invalid at_level
        else if not (is_message e.message)
        then invalid at_message
        else (elim (normalize_labels e.labels) [
          | none ↦ invalid at_labels
          | some l ↦ valid (record { ts = t; level = e.level; message = e.message; labels = l })
        ])
  ]

  abbrev pub is_body : Bytes → Bool
  is_body body =
      leb (length body) max_document_bytes && starts_with (codes "{") body && lib.json_valid body

  -- The loop over the documents, with the kinds seen so far.
  unfoldable pub normalize_documents :
      List Bytes → ℕ → List Document → Checked Field (List Document)
  normalize_documents kinds i [] = valid []
  normalize_documents kinds i (d ∷ ds) =
      let rest = normalize_documents (d.kind ∷ kinds) (suc i) ds in
      let body = lib.trim_space d.body in
      if not (document_kind_re d.kind)
      then invalid (at_document i at_kind)
      else if not (every (λ k. not (bytes_eq k d.kind)) kinds)
      then invalid (at_document i at_kind)
      else if not (is_body body)
      then invalid (at_document i at_body)
      else (elim rest [
        | invalid e ↦ invalid e
        | valid out ↦ valid (record { kind = d.kind; body = body } ∷ out)
      ])

  -- `Normalize` behind its checks of the version and of the number of records.
  abbrev pub normalize_records : Batch → ℕ → Checked Field Batch
  normalize_records b now = elim (each (normalize_metric now) at_metric 0 b.metrics) [
    | invalid e ↦ invalid e
    | valid metrics ↦ elim (each (normalize_check now) at_check 0 b.checks) [
      | invalid e ↦ invalid e
      | valid checks ↦ elim (each (normalize_event now) at_event 0 b.events) [
        | invalid e ↦ invalid e
        | valid events ↦
            if ltb max_documents (length b.documents)
            then invalid at_documents
            else (elim (normalize_documents [] 0 b.documents) [
              | invalid e ↦ invalid e
              | valid documents ↦ valid (record {
                schema_version = b.schema_version;
                metrics = metrics;
                checks = checks;
                events = events;
                documents = documents;
              })
            ])
      ]
    ]
  ]

  unfoldable pub normalize : Batch → ℕ → Checked Field Batch
  normalize b now =
      if not (version_re b.schema_version)
      then invalid at_schema_version
      else if ltb max_records (len b)
      then invalid at_batch
      else normalize_records b now
