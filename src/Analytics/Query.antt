-- ===== src/Analytics/Query.antt =====
-- internal/analytics/domain/query.go: the vocabulary of a query, and its validation.
pub mod Accepted
use smotryashchiy.Base.{
  ℕ, Bool, true, false, not, ◌&&◌, ◌||◌, List, [], ◌∷◌, Option, none, some, Bytes, bytes_eq, ltb,
  leb, nat_eq, if◌then◌else◌, length, is_empty, codes, starts_with, drop, any, ℤ, pos, negsuc,
}

pub record Filter : Type 0 where
  pub dimension : Bytes
  pub op : Bytes
  pub values : List Bytes

pub record Query : Type 0 where
  pub metrics : List Bytes
  pub dimension : Bytes
  pub filters : List Filter
  pub date_range : List Bytes
  pub period : Bytes
  pub compare : Bytes
  pub order_by : Bytes
  pub limit : ℤ
  pub format : Bytes

pub data BadQuery : Type 0 where
  unknown_metric metric_twice unknown_dimension many_filters unknown_filter bad_op bad_values :
      BadQuery
  long_value bad_compare bad_limit bad_order bad_format bad_range : BadQuery

pub data Validated : Type 0 where
  accepted : Query → Validated
  rejected : BadQuery → Validated

abbrev pub max_query_limit : ℕ
max_query_limit = 1000

abbrev pub default_limit : ℤ
default_limit = pos 100

abbrev pub max_filter_values : ℕ
max_filter_values = 20

abbrev pub max_filters : ℕ
max_filters = 8

abbrev pub max_value_bytes : ℕ
max_value_bytes = 2048

abbrev pub visitors : Bytes
visitors = codes "visitors"

unfoldable pub metric_set : List Bytes
metric_set =
    visitors
    ∷ codes "visits"
    ∷ codes "pageviews"
    ∷ codes "views_per_visit"
    ∷ codes "bounce_rate"
    ∷ codes "visit_duration"
    ∷ []

-- The dimensions of `VisitColumns`.
unfoldable pub visit_dimensions : List Bytes
visit_dimensions =
    codes "entry_page"
    ∷ codes "exit_page"
    ∷ codes "channel"
    ∷ codes "source"
    ∷ codes "utm_source"
    ∷ codes "utm_medium"
    ∷ codes "utm_campaign"
    ∷ codes "utm_content"
    ∷ codes "utm_term"
    ∷ codes "country"
    ∷ codes "region"
    ∷ codes "browser"
    ∷ codes "browser_version"
    ∷ codes "os"
    ∷ codes "os_version"
    ∷ codes "device"
    ∷ codes "screen"
    ∷ codes "hostname"
    ∷ []

unfoldable pub time_intervals : List Bytes
time_intervals = codes "hour" ∷ codes "day" ∷ codes "week" ∷ codes "month" ∷ []

abbrev pub mem : Bytes → List Bytes → Bool
mem s xs = any (bytes_eq s) xs

-- `IsTimeDimension`: the interval behind the prefix.
unfoldable pub is_time_dimension : Bytes → Bool
unfolding time_intervals
is_time_dimension d = starts_with (codes "time:") d && mem (drop 5 d) time_intervals

unfoldable pub is_known_dimension : Bytes → Bool
unfolding visit_dimensions
is_known_dimension d = bytes_eq d (codes "page") || mem d visit_dimensions

unfoldable pub is_metric : Bytes → Bool
unfolding metric_set
is_metric m = mem m metric_set

-- The loop over the metrics, with those already seen.
abbrev pub check_metrics : List Bytes → List Bytes → Option BadQuery
check_metrics seen [] = none
check_metrics seen (m ∷ ms) =
    let rest = check_metrics (m ∷ seen) ms in
    if not (is_metric m)
    then some unknown_metric
    else if mem m seen
    then some metric_twice
    else rest

abbrev pub check_values : List Bytes → Option BadQuery
check_values [] = none
check_values (v ∷ vs) =
    let rest = check_values vs in if ltb max_value_bytes (length v) then some long_value else rest

abbrev pub is_op : Bytes → Bool
is_op op =
    bytes_eq op (codes "is") || bytes_eq op (codes "is_not") || bytes_eq op (codes "contains")

abbrev pub check_filter : Filter → Option BadQuery
check_filter f =
    if not (is_known_dimension f.dimension)
    then some unknown_filter
    else if not (is_op f.op)
    then some bad_op
    else if nat_eq (length f.values) 0 || ltb max_filter_values (length f.values)
    then some bad_values
    else check_values f.values

-- The first error of two checks.
abbrev pub or_then : Option BadQuery → Option BadQuery → Option BadQuery
or_then (some e) later = some e
or_then none later = later

abbrev pub check_each : List Filter → Option BadQuery
check_each [] = none
check_each (f ∷ fs) = or_then (check_filter f) (check_each fs)

abbrev pub check_dimension : Bytes → Option BadQuery
check_dimension d =
    if is_empty d || is_known_dimension d || is_time_dimension d
    then none
    else some unknown_dimension

abbrev pub check_filters : List Filter → Option BadQuery
check_filters fs = if ltb max_filters (length fs) then some many_filters else check_each fs

abbrev pub check_compare : Bytes → Option BadQuery
check_compare c =
    if is_empty c || bytes_eq c (codes "previous") || bytes_eq c (codes "year_ago")
    then none
    else some bad_compare

abbrev pub limit_ok : ℤ → Bool
limit_ok (pos n) = leb n max_query_limit
limit_ok (negsuc n) = true

-- The checks behind the filters, of a query with its defaults.
abbrev pub check_rest : Query → Option BadQuery
check_rest q =
    if not (limit_ok q.limit)
    then some bad_limit
    else if not (mem q.order_by q.metrics)
    then some bad_order
    else if not
        (is_empty q.format || bytes_eq q.format (codes "json") || bytes_eq q.format (codes "csv"))
    then some bad_format
    else if not (nat_eq (length q.date_range) 0 || nat_eq (length q.date_range) 2)
    then some bad_range
    else none

abbrev pub check_query : Query → Option BadQuery
check_query q = or_then (check_metrics [] q.metrics) (
    or_then (check_dimension q.dimension)
      (or_then (check_filters q.filters) (or_then (check_compare q.compare) (check_rest q))))

abbrev pub is_positive : ℤ → Bool
is_positive (pos n) = not (nat_eq n 0)
is_positive (negsuc n) = false

abbrev pub or_visitors : List Bytes → List Bytes
or_visitors [] = visitors ∷ []
or_visitors (m ∷ ms) = m ∷ ms

abbrev pub first_metric : List Bytes → Bytes
first_metric [] = []
first_metric (m ∷ ms) = m

-- The query with its defaults: the metric, the limit and the order.
abbrev pub with_defaults : Query → Query
with_defaults q = record q {
  metrics = or_visitors q.metrics;
  limit = if is_positive q.limit then q.limit else default_limit;
  order_by = if is_empty q.order_by then first_metric (or_visitors q.metrics) else q.order_by;
}

abbrev pub judged : Query → Option BadQuery → Validated
judged q (some e) = rejected e
judged q none = accepted q

-- `Query.Validate`
unfoldable pub validate_query : Query → Validated
validate_query q = judged (with_defaults q) (check_query (with_defaults q))
