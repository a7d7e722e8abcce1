-- ===== src/Analytics/Query/Accepted.antt =====
-- query.go: which queries are accepted, and what comes out of a second validation.
use smotryashchiy.Base.{
  ◌≡◌, refl, sym, ap, ◌∙◌, Bool, true, false, not, ◌&&◌, ◌||◌, List, [], ◌∷◌, Option, none, some,
  arith, Bytes, bytes_eq, bytes_eq_iff, ltb, leb, Bool-cases, inl, inr, ℕ, nat_eq, if◌then◌else◌,
  length, is_empty, codes, every, ℤ, pos, negsuc,
}
use smotryashchiy.Analytics.Query.{
  Filter, Query, BadQuery, Validated, accepted, rejected, max_filters, max_filter_values,
  max_value_bytes, mem, is_metric, is_known_dimension, is_time_dimension, is_op, check_metrics,
  check_values, check_filter, or_then, check_each, check_dimension, check_filters, check_compare,
  limit_ok, unknown_filter, bad_op, bad_values, bad_limit, bad_order, bad_format, bad_range,
  unknown_dimension, bad_compare, check_rest, check_query, is_positive, or_visitors, first_metric,
  default_limit, with_defaults, judged, validate_query,
}

abbrev passes : Option BadQuery → Bool
passes none = true
passes (some e) = false

or_then-passes : (a b : Option BadQuery) → passes (or_then a b) ≡ (passes a && passes b)
or_then-passes none b = refl
or_then-passes (some e) b = refl

-- No value stands twice.
abbrev are_distinct : List Bytes → Bool
are_distinct [] = true
are_distinct (x ∷ xs) = not (mem x xs) && are_distinct xs

same_bytes : (a b : Bytes) → bytes_eq a b ≡ bytes_eq b a
same_bytes a b = ground (arith, bytes_eq_iff a b, bytes_eq_iff b a)

-- A further value that was seen.
seen_more :
    (m : Bytes) (seen ms : List Bytes)
    → every (λ x. not (mem x (m ∷ seen))) ms ≡ (not (mem m ms) && every (λ x. not (mem x seen)) ms)
seen_more m seen [] = refl
seen_more m seen (x ∷ ms) = ground (arith, seen_more m seen ms, same_bytes m x)

check_metrics-passes :
    (seen ms : List Bytes)
    → passes (check_metrics seen ms)
      ≡ (every is_metric ms && every (λ x. not (mem x seen)) ms && are_distinct ms)
check_metrics-passes seen [] = refl
check_metrics-passes seen (m ∷ ms) =
    ground (arith, check_metrics-passes (m ∷ seen) ms, seen_more m seen ms)

abbrev are_short : List Bytes → Bool
are_short vs = every (λ v. leb (length v) max_value_bytes) vs

check_values-passes : (vs : List Bytes) → passes (check_values vs) ≡ are_short vs
check_values-passes [] = refl
check_values-passes (v ∷ vs) = ground (arith, check_values-passes vs)

-- A known dimension, a known operation, and 1 to 20 values of at most 2048 bytes.
abbrev is_filter : Filter → Bool
is_filter f =
    is_known_dimension f.dimension
    && is_op f.op
    && leb 1 (length f.values)
    && leb (length f.values) max_filter_values
    && are_short f.values

check_filter-passes : (f : Filter) → passes (check_filter f) ≡ is_filter f
check_filter-passes f =
    checked (is_known_dimension f.dimension) (is_op f.op) (length f.values) (check_values f.values)
    ∙ ap
        (λ b.
          is_known_dimension f.dimension
          && is_op f.op
          && leb 1 (length f.values)
          && leb (length f.values) max_filter_values
          && b)
        (check_values-passes f.values)
  where
    checked :
        (a b : Bool) (n : ℕ) (rest : Option BadQuery)
        → passes (
            if not a
            then some unknown_filter
            else if not b
            then some bad_op
            else if nat_eq n 0 || ltb max_filter_values n
            then some bad_values
            else rest)
          ≡ (a && b && leb 1 n && leb n max_filter_values && passes rest)
    checked a b n rest = ground arith

check_each-passes : (fs : List Filter) → passes (check_each fs) ≡ every is_filter fs
check_each-passes [] = refl
check_each-passes (f ∷ fs) =
    or_then-passes (check_filter f) (check_each fs)
    ∙ cc (check_filter-passes f, check_each-passes fs)

check_filters-passes :
    (fs : List Filter)
    → passes (check_filters fs) ≡ (leb (length fs) max_filters && every is_filter fs)
check_filters-passes fs = elim (Bool-cases (ltb max_filters (length fs))) [
  | inl e ↦ ground (arith, e)
  | inr e ↦ ground (arith, e, check_each-passes fs)
]

abbrev is_dimension : Bytes → Bool
is_dimension d = is_empty d || is_known_dimension d || is_time_dimension d

abbrev is_compare : Bytes → Bool
is_compare c = is_empty c || bytes_eq c (codes "previous") || bytes_eq c (codes "year_ago")

abbrev is_format : Bytes → Bool
is_format f = is_empty f || bytes_eq f (codes "json") || bytes_eq f (codes "csv")

abbrev is_range : List Bytes → Bool
is_range days = nat_eq (length days) 0 || nat_eq (length days) 2

check_rest-passes :
    (q : Query)
    → passes (check_rest q) ≡ (
        limit_ok q.limit && mem q.order_by q.metrics && is_format q.format && is_range q.date_range)
check_rest-passes q =
    tests (limit_ok q.limit) (mem q.order_by q.metrics) (is_format q.format) (is_range q.date_range)
  where
    tests :
        (a b c d : Bool)
        → passes (
            if not a
            then some bad_limit
            else if not b
            then some bad_order
            else if not c
            then some bad_format
            else if not d
            then some bad_range
            else none)
          ≡ (a && b && c && d)
    tests a b c d = ground arith

-- Known metrics, each once, a dimension of the vocabulary, at most eight filters, a comparison, a limit
-- of at most 1000, an order by one of the metrics, a format, and no days or two.
abbrev pub acceptable : Query → Bool
acceptable q =
    (every is_metric q.metrics && are_distinct q.metrics)
    && (is_dimension q.dimension
        && ((leb (length q.filters) max_filters && every is_filter q.filters)
            && (is_compare q.compare
                && (limit_ok q.limit
                    && mem q.order_by q.metrics
                    && is_format q.format
                    && is_range q.date_range))))

unseen : (ms : List Bytes) → every (λ x. not (mem x [])) ms ≡ true
unseen [] = refl
unseen (m ∷ ms) = unseen ms

metrics-passes :
    (ms : List Bytes) → passes (check_metrics [] ms) ≡ (every is_metric ms && are_distinct ms)
metrics-passes ms = check_metrics-passes [] ms ∙ ground (arith, unseen ms)

check_query-passes : (q : Query) → passes (check_query q) ≡ acceptable q
check_query-passes q =
    joined (check_metrics [] q.metrics) (check_dimension q.dimension) (check_filters q.filters)
      (check_compare q.compare) (check_rest q) (metrics-passes q.metrics)
      (one (is_dimension q.dimension) unknown_dimension) (check_filters-passes q.filters)
      (one (is_compare q.compare) bad_compare) (check_rest-passes q)
  where
    one : (b : Bool) (e : BadQuery) → passes (if b then none else some e) ≡ b
    one true e = refl
    one false e = refl

    joined :
        (u v w x y : Option BadQuery) {a b c d e : Bool}
        → passes u ≡ a
        → passes v ≡ b
        → passes w ≡ c
        → passes x ≡ d
        → passes y ≡ e
        → passes (or_then u (or_then v (or_then w (or_then x y)))) ≡ (a && (b && (c && (d && e))))
    joined none none none none y h i j k l = ground arith
    joined (some u) v w x y h i j k l = ground arith
    joined none (some v) w x y h i j k l = ground arith
    joined none none (some w) x y h i j k l = ground arith
    joined none none none (some x) y h i j k l = ground arith

-- The three fields that defaults fill.
abbrev filled : Query → List Bytes → ℤ → Bytes → Query
filled q ms l o = record q { metrics = ms; limit = l; order_by = o }

filled-cong :
    (q : Query) {ms ns : List Bytes} {k l : ℤ} {o p : Bytes}
    → ms ≡ ns
    → k ≡ l
    → o ≡ p
    → filled q ms k o ≡ filled q ns l p
filled-cong q h i j = cc

or_visitors-twice : (ms : List Bytes) → or_visitors (or_visitors ms) ≡ or_visitors ms
or_visitors-twice [] = refl
or_visitors-twice (m ∷ ms) = refl

abbrev or_default : ℤ → ℤ
or_default l = if is_positive l then l else default_limit

or_default-twice : (l : ℤ) → or_default (or_default l) ≡ or_default l
or_default-twice (pos n) = ground arith
or_default-twice (negsuc n) = refl

abbrev or_first : Bytes → Bytes → Bytes
or_first first o = if is_empty o then first else o

or_first-twice : (first o : Bytes) → or_first first (or_first first o) ≡ or_first first o
or_first-twice [] [] = refl
or_first-twice (c ∷ first) [] = refl
or_first-twice first (c ∷ o) = refl

-- The defaults of a query that has them are no change.
with_defaults-twice : (q : Query) → with_defaults (with_defaults q) ≡ with_defaults q
with_defaults-twice q =
    let same = or_visitors-twice q.metrics in
    filled-cong q same (or_default-twice q.limit) (
      ap
        (λ ms.
          or_first (first_metric ms) (or_first (first_metric (or_visitors q.metrics)) q.order_by))
        same
      ∙ or_first-twice (first_metric (or_visitors q.metrics)) q.order_by)

abbrev pub Answers : Query → Validated → Type 0
Answers q (accepted m) =
    (m ≡ with_defaults q) × (acceptable m ≡ true) × (validate_query m ≡ accepted m)
Answers q (rejected e) = acceptable (with_defaults q) ≡ false

answered :
    (q m : Query) (e : Option BadQuery)
    → m ≡ with_defaults q
    → check_query m ≡ e
    → validate_query m ≡ judged m e
    → Answers q (judged m e)
answered q m none h i j = (h, sym (check_query-passes m) ∙ ap passes i, j)
answered q m (some b) h i j = sym (ap acceptable h) ∙ sym (check_query-passes m) ∙ ap passes i

-- A query is accepted exactly if, with its defaults, its metrics are known and distinct, its dimension,
-- at most eight filters, comparison and format are of the vocabulary, its limit is at most 1000, its
-- order one of its metrics, and its range empty or a pair. What comes out are the defaults filled in,
-- and a second validation accepts that as it is.
pub validate_query_lem : (q : Query) → Answers q (validate_query q)
unfolding validate_query
validate_query_lem q =
    let m = with_defaults q in
    answered q m (check_query m) refl refl
      (ap (λ x. judged x (check_query x)) (with_defaults-twice q))
