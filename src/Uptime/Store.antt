-- ===== src/Uptime/Store.antt =====
-- internal/uptime/infrastructure/store.go, with the constraints of 0005_uptime.sql. Stored times are
-- milliseconds.
pub mod Sound
use smotryashchiy.Base.{
  ℕ, ◌-◌, ◌*◌, ◌/◌, ◌%◌, ◌^◌, Bool, true, false, not, ◌&&◌, ◌||◌, List, [], ◌∷◌, ◌++◌, Option, none,
  some, map, Bytes, bytes_eq, ltb, leb, nat_eq, if◌then◌else◌, is_empty, keep_if, take, length,
  lex_lt, ℤ, is_between, any,
}
use smotryashchiy.Assoc.{lookup, insert}
use smotryashchiy.Base.{bytes_key}
use smotryashchiy.Sql.{
  Fault, database, refused, Action, ◌>>=◌, ◌>>◌, pure, refuse, statement, constrained, query,
  transaction, order_by,
}
use smotryashchiy.Uptime.Target.{
  Kind, http, tcp, tls, other, Target, Observation, LatencyPoint, NewTarget, max_targets,
  min_interval_seconds, max_interval_seconds, kind_of,
}

pub record ResultRow : Type 0 where
  pub target_id : Bytes
  pub ts : ℕ
  pub is_ok : Bool
  pub latency_ms : Option ℕ
  pub status_code : Option ℕ
  pub error : Option Bytes
  pub cert_expires_at : Option ℕ

-- The rows of `uptime_targets` are targets, with the time of creation in milliseconds.
pub record Tables : Type 0 where
  pub targets : List Target
  pub results : List ResultRow

pub data Error : Type 0 where
  no_id target_limit name_taken not_found : Error

abbrev pub Store : Type 0 → Type 0
Store A = Action Tables Error A

abbrev pub unix_milli : ℕ → ℕ
unix_milli t = t / 10 ^ 6

abbrev pub of_milli : ℕ → ℕ
of_milli ms = ms * 10 ^ 6

-- The keys.
abbrev pub same_id : Target → Target → Bool
same_id a b = bytes_eq a.id b.id

abbrev pub same_name : Target → Target → Bool
same_name a b = bytes_eq a.name b.name

abbrev pub same_result : ResultRow → ResultRow → Bool
same_result a b = bytes_eq a.target_id b.target_id && nat_eq a.ts b.ts

abbrev pub is_kind : Kind → Bool
is_kind (other s) = false
is_kind k = true

-- The keys and the `CHECK`s of `uptime_targets`.
abbrev pub violates : Target → Tables → Option (Fault Error)
violates t tables =
    if not
      (is_kind t.kind && is_between min_interval_seconds max_interval_seconds t.interval_seconds)
    then some database
    else if any (same_id t) tables.targets || any (same_name t) tables.targets
    then some (refused name_taken)
    else none

abbrev pub new_target : Bytes → NewTarget → ℕ → Target
new_target id n now = record {
  id = id;
  name = n.name;
  kind = kind_of n.kind;
  address = n.address;
  interval_seconds = n.interval_seconds;
  created_at = now - now % 10 ^ 6;
}

abbrev pub target_row : Target → Target
target_row t = record t { created_at = unix_milli t.created_at }

-- The statements of `Create` behind the random identifier, and what follows the count.
abbrev pub insert_counted : Target → ℕ → Store Target
insert_counted t count = if leb max_targets count then refuse target_limit else (do
  constrained (violates (target_row t))
      (λ tables. (tt, record tables { targets = tables.targets ++ target_row t ∷ [] }))
  pure t)

unfoldable pub insert_target : Target → Store Target
insert_target t =
    transaction (do count ← query (λ tables. length tables.targets); insert_counted t count)

-- `Create`
unfoldable pub create : NewTarget → Option Bytes → ℕ → Store Target
unfolding insert_target
create n none now = refuse no_id
create n (some id) now = insert_target (new_target id n now)

-- `ORDER BY name, id`
abbrev pub comes_first : Target → Target → Bool
comes_first a b = lex_lt a.name b.name || (bytes_eq a.name b.name && not (lex_lt b.id a.id))

abbrev pub scan_target : Target → Target
scan_target t = record t { created_at = of_milli t.created_at }

-- `List`
unfoldable pub targets : Store (List Target)
targets = query (λ t. map scan_target (order_by comes_first t.targets))

-- The row and, by `ON DELETE CASCADE`, its results.
abbrev pub without : Bytes → Tables → Tables
without id t = record {
  targets = keep_if (λ (x : Target). not (bytes_eq x.id id)) t.targets;
  results = keep_if (λ (r : ResultRow). not (bytes_eq r.target_id id)) t.results;
}

unfoldable pub delete : Bytes → Store (Unit {0})
delete id = do
  n ← statement (λ t. (length (keep_if (λ (x : Target). bytes_eq x.id id) t.targets), without id t))
  if nat_eq n 0 then refuse not_found else pure tt

abbrev pub null_string : Bytes → Option Bytes
null_string s = if is_empty s then none else some s

abbrev pub result_row : Observation → ResultRow
result_row r = record {
  target_id = r.target_id;
  ts = unix_milli r.ts;
  is_ok = r.is_ok;
  latency_ms = r.latency_ms;
  status_code = r.status_code;
  error = null_string r.error;
  cert_expires_at = elim r.cert_expires_at [ none ↦ none | some t ↦ some (unix_milli t) ];
}

-- `ON CONFLICT DO NOTHING`
abbrev pub put_result : ResultRow → Tables → Tables
put_result r t =
    if any (same_result r) t.results then t else record t { results = t.results ++ r ∷ [] }

abbrev pub has_target : Bytes → List Target → Bool
has_target id ts = any (λ (t : Target). bytes_eq t.id id) ts

-- The reference to `uptime_targets`.
abbrev pub has_no_target : ResultRow → Tables → Option (Fault Error)
has_no_target r t = if has_target r.target_id t.targets then none else some database

unfoldable pub insert_result : Observation → Store (Unit {0})
insert_result r =
    constrained (has_no_target (result_row r)) (λ t. (tt, put_result (result_row r) t))

abbrev pub scan_result : ResultRow → Observation
scan_result r = record {
  target_id = r.target_id;
  ts = of_milli r.ts;
  is_ok = r.is_ok;
  latency_ms = r.latency_ms;
  status_code = r.status_code;
  error = elim r.error [ none ↦ [] | some s ↦ s ];
  cert_expires_at = elim r.cert_expires_at [ none ↦ none | some t ↦ some (of_milli t) ];
}

-- The row of a target with `MAX(ts)`.
abbrev pub newest : Bytes → List ResultRow → Option ResultRow
newest id [] = none
newest id (r ∷ rs) =
    let later = newest id rs in
    if bytes_eq r.target_id id
    then (elim later [ none ↦ some r | some s ↦ if ltb r.ts s.ts then some s else some r ])
    else later

abbrev latest_of : List ResultRow → List Target → List (Bytes × Observation)
latest_of rs [] = []
latest_of rs (t ∷ ts) =
    let others = latest_of rs ts in
    elim (newest t.id rs) [ none ↦ others | some r ↦ (t.id, scan_result r) ∷ others ]

unfoldable pub latest : Store (List (Bytes × Observation))
latest = query (λ t. latest_of t.results t.targets)

-- `ORDER BY target_id, ts`
abbrev pub is_earlier : ResultRow → ResultRow → Bool
is_earlier a b =
    lex_lt a.target_id b.target_id || (bytes_eq a.target_id b.target_id && leb a.ts b.ts)

abbrev points_of : Option (List LatencyPoint) → List LatencyPoint
points_of none = []
points_of (some ps) = ps

-- `out[id] = append(out[id], p)` for each row.
abbrev grouped :
    List ResultRow → List (Bytes × List LatencyPoint) → List (Bytes × List LatencyPoint)
grouped [] out = out
grouped (r ∷ rs) out = grouped rs (
    insert r.target_id
      (points_of (lookup r.target_id out) ++ record { ts = r.ts; latency = r.latency_ms } ∷ []) out)

unfoldable pub history : ℕ → Store (List (Bytes × List LatencyPoint))
history since = query (λ t.
    grouped
      (order_by is_earlier (keep_if (λ (r : ResultRow). leb (unix_milli since) r.ts) t.results)) [])

-- `DELETE ... LIMIT`: the rows that stay when up to `limit` of those before `ms` go.
abbrev pub purged : ℕ → ℕ → List ResultRow → List ResultRow
purged ms limit [] = []
purged ms limit (r ∷ rs) =
    let gone = ltb r.ts ms && ltb 0 limit in
    let rest = purged ms (if gone then limit - 1 else limit) rs in if gone then rest else r ∷ rest

unfoldable pub purge_results : ℕ → ℕ → Store ℕ
purge_results before limit = statement (λ t. (
  length t.results - length (purged (unix_milli before) limit t.results),
  record t { results = purged (unix_milli before) limit t.results },
))
