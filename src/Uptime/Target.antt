-- ===== src/Uptime/Target.antt =====
-- internal/uptime/domain/domain.go: targets, results, and the validation of a target.
pub mod Accepted
use smotryashchiy.Base.{
  ℕ, ◌*◌, ◌^◌, Bool, true, false, not, ◌&&◌, ◌||◌, List, [], ◌∷◌, Option, none, some, Bytes,
  bytes_eq, ltb, leb, nat_eq, if◌then◌else◌, length, is_empty, codes, ℤ, pos, negsuc, is_between,
  every,
}

pub data Kind : Type 0 where
  http tcp tls : Kind
  other : Bytes → Kind

pub record Target : Type 0 where
  pub id : Bytes
  pub name : Bytes
  pub kind : Kind
  pub address : Bytes
  pub interval_seconds : ℤ
  pub created_at : ℕ

-- `Result`: one observation. A time is in nanoseconds, a latency in milliseconds.
pub record Observation : Type 0 where
  pub target_id : Bytes
  pub ts : ℕ
  pub is_ok : Bool
  pub latency_ms : Option ℕ
  pub status_code : Option ℕ
  pub error : Bytes
  pub cert_expires_at : Option ℕ

pub record LatencyPoint : Type 0 where
  pub ts : ℕ
  pub latency : Option ℕ

pub record NewTarget : Type 0 where
  pub name : Bytes
  pub kind : Bytes
  pub address : Bytes
  pub interval_seconds : ℤ

-- What `url.Parse` makes of an address.
pub record Url : Type 0 where
  pub scheme : Bytes
  pub hostname : Bytes
  pub has_user : Bool
  pub port : Bytes

-- The Go library: `TrimSpace`, `url.Parse`, `net.SplitHostPort` and `strconv.Atoi`.
pub record Library : Type 0 where
  pub trim_space : Bytes → Bytes
  pub parse_url : Bytes → Option Url
  pub split_host_port : Bytes → Option (Bytes × Bytes)
  pub atoi : Bytes → Option ℤ

pub data Invalid : Type 0 where
  bad_name bad_interval bad_kind bad_url bad_scheme has_credentials bad_port : Invalid
  no_host_port bad_host : Invalid

pub data Checked (A : Type 0) : Type 0 where
  valid : A → Checked A
  invalid : Invalid → Checked A

abbrev pub max_targets : ℕ
max_targets = 50

abbrev pub min_interval_seconds : ℕ
min_interval_seconds = 30

abbrev pub max_interval_seconds : ℕ
max_interval_seconds = 3600

abbrev pub default_interval : ℤ
default_interval = pos 60

abbrev pub max_name_bytes : ℕ
max_name_bytes = 80

abbrev pub max_url_bytes : ℕ
max_url_bytes = 2048

-- `Kind(n.Kind)`
unfoldable pub kind_of : Bytes → Kind
kind_of s =
    if bytes_eq s (codes "http")
    then http
    else if bytes_eq s (codes "tcp")
    then tcp
    else if bytes_eq s (codes "tls")
    then tls
    else other s

abbrev pub is_zero : ℤ → Bool
is_zero (pos n) = nat_eq n 0
is_zero (negsuc n) = false

-- `strings.ContainsAny(host, " /\\@")`
abbrev pub is_host_char : ℕ → Bool
is_host_char c = not (nat_eq c 32 || nat_eq c b'/' || nat_eq c 92 || nat_eq c b'@')

module _ (lib : Library) where
  abbrev pub is_port : Bytes → Bool
  is_port s = elim (lib.atoi s) [ none ↦ false | some n ↦ is_between 1 65535 n ]

  abbrev check_parsed : Url → Checked (Unit {0})
  check_parsed u =
      if u.has_user
      then invalid has_credentials
      else if is_empty u.port || is_port u.port
      then valid tt
      else invalid bad_port

  abbrev is_web : Url → Bool
  is_web u =
      (bytes_eq u.scheme (codes "http") || bytes_eq u.scheme (codes "https"))
      && not (is_empty u.hostname)

  -- `validateURL`
  unfoldable pub check_url : Bytes → Checked (Unit {0})
  check_url raw =
      if is_empty raw || ltb max_url_bytes (length raw)
      then invalid bad_url
      else (elim (lib.parse_url raw) [
        | none ↦ invalid bad_scheme
        | some u ↦ if is_web u then check_parsed u else invalid bad_scheme
      ])

  -- `validateHostPort`
  unfoldable pub check_host_port : Bytes → Checked (Unit {0})
  check_host_port raw = elim (lib.split_host_port raw) [
    | none ↦ invalid no_host_port
    | some (host, port) ↦
        if is_empty host || ltb 253 (length host)
        then invalid no_host_port
        else if every is_host_char host
        then (if is_port port then valid tt else invalid bad_port)
        else invalid bad_host
  ]

  abbrev pub check_address : Kind → Bytes → Checked (Unit {0})
  check_address http address = check_url address
  check_address tcp address = check_host_port address
  check_address tls address = check_host_port address
  check_address (other s) address = invalid bad_kind

  -- The trimmed definition, with the default interval.
  abbrev pub trimmed : NewTarget → NewTarget
  trimmed n = record {
    name = lib.trim_space n.name;
    kind = n.kind;
    address = lib.trim_space n.address;
    interval_seconds = if is_zero n.interval_seconds then default_interval else n.interval_seconds;
  }

  abbrev check_trimmed : NewTarget → Checked NewTarget
  check_trimmed n =
      if is_empty n.name || ltb max_name_bytes (length n.name)
      then invalid bad_name
      else if is_between min_interval_seconds max_interval_seconds n.interval_seconds
      then (elim (check_address (kind_of n.kind) n.address) [
        | valid u ↦ valid n
        | invalid e ↦ invalid e
      ])
      else invalid bad_interval

  -- `NewTarget.Validate`
  unfoldable pub validate : NewTarget → Checked NewTarget
  unfolding check_url check_host_port kind_of
  validate n = check_trimmed (trimmed n)
