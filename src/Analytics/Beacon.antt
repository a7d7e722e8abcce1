-- ===== src/Analytics/Beacon.antt =====
-- internal/analytics/domain/domain.go: sites and beacons.
use smotryashchiy.Base.{
  ℕ, Bool, not, ◌&&◌, ◌||◌, [], Option, Bytes, bytes_eq, ltb, leb, nat_eq, if◌then◌else◌, length,
  is_empty, codes, take, every, ℤ, pos, negsuc,
}

-- The Go library: `TrimSpace`, `ToLower`, the zones of `time.LoadLocation`, the local date of a time in
-- a zone, or in UTC where there is no such zone, the host of a URL that `url.Parse` accepts, SHA-256 as
-- hexadecimal digits, and the database of places.
pub record Library : Type 0 where
  pub trim_space : Bytes → Bytes
  pub to_lower : Bytes → Bytes
  pub is_zone : Bytes → Bool
  pub local_date : Bytes → ℕ → Bytes
  pub hostname_of : Bytes → Option Bytes
  pub sha256 : Bytes → Bytes
  pub locate : Bytes → Bytes × Bytes

abbrev pub max_sites : ℕ
max_sites = 20

abbrev pub max_name_bytes : ℕ
max_name_bytes = 80

abbrev pub max_domain_bytes : ℕ
max_domain_bytes = 253

abbrev pub max_url_bytes : ℕ
max_url_bytes = 2048

abbrev pub max_referrer_bytes : ℕ
max_referrer_bytes = 2048

abbrev pub max_utm_bytes : ℕ
max_utm_bytes = 100

abbrev pub default_timezone : Bytes
default_timezone = codes "Europe/Moscow"

abbrev pub invalid_utm : Bytes
invalid_utm = codes "(invalid)"

pub record Site : Type 0 where
  pub id : Bytes
  pub name : Bytes
  pub domain : Bytes
  pub timezone : Bytes
  pub created_at : ℕ

pub record NewSite : Type 0 where
  pub name : Bytes
  pub domain : Bytes
  pub timezone : Bytes

pub record Utm : Type 0 where
  pub source : Bytes
  pub medium : Bytes
  pub campaign : Bytes
  pub content : Bytes
  pub term : Bytes

pub record Beacon : Type 0 where
  pub site : Bytes
  pub url : Bytes
  pub referrer : Bytes
  pub v : ℤ
  pub utm : Utm
  pub paid : Bool
  pub width : ℤ
  pub hostname : Bytes

pub record Pageview : Type 0 where
  pub site_id : Bytes
  pub ts : ℕ
  pub path : Bytes
  pub referrer_domain : Bytes
  pub visitor_hash : Bytes
  pub browser : Bytes
  pub os : Bytes
  pub device : Bytes
  pub hostname : Bytes

pub data Invalid : Type 0 where
  bad_name bad_domain bad_timezone : Invalid

pub data Checked (A : Type 0) : Type 0 where
  valid : A → Checked A
  invalid : Invalid → Checked A

-- `strings.ContainsAny(n.Domain, " /\\@:")`
abbrev pub is_domain_char : ℕ → Bool
is_domain_char c =
    not (nat_eq c 32 || nat_eq c b'/' || nat_eq c 92 || nat_eq c b'@' || nat_eq c b':')

-- `UTM.Empty`
abbrev pub is_unset : Utm → Bool
is_unset u =
    is_empty u.source
    && is_empty u.medium
    && is_empty u.campaign
    && is_empty u.content
    && is_empty u.term

-- What a UTM value is kept with: `[a-z0-9._-]`.
abbrev pub is_utm_char : ℕ → Bool
is_utm_char c =
    (leb b'a' c && leb c b'z')
    || (leb b'0' c && leb c b'9')
    || nat_eq c b'.'
    || nat_eq c b'_'
    || nat_eq c b'-'

-- `capString`
abbrev pub cap_string : Bytes → ℕ → Bytes
cap_string s max = if leb (length s) max then s else take max s

-- A width outside 0 to 100000 is dropped.
abbrev pub known_width : ℤ → ℤ
known_width (pos n) = if ltb 100000 n then pos 0 else pos n
known_width (negsuc n) = pos 0

-- `ScreenGroup`
abbrev pub screen_group : ℤ → Bytes
screen_group (negsuc n) = []
screen_group (pos n) =
    if leb n 0
    then []
    else if ltb n 576
    then codes "mobile"
    else if ltb n 992
    then codes "tablet"
    else if ltb n 1440
    then codes "laptop"
    else codes "desktop"

-- `utmValue`, at the trimmed value in lower case.
abbrev pub checked_utm : Bytes → Bytes
checked_utm v =
    if is_empty v
    then []
    else if ltb max_utm_bytes (length v)
    then invalid_utm
    else if every is_utm_char v
    then v
    else invalid_utm

module _ (lib : Library) where
  abbrev named_site : NewSite → NewSite
  named_site n = record {
    name = lib.trim_space n.name;
    domain = lib.to_lower (lib.trim_space n.domain);
    timezone =
        (let zone = lib.trim_space n.timezone in if is_empty zone then default_timezone else zone);
  }

  abbrev check_named : NewSite → Checked NewSite
  check_named n =
      if is_empty n.name || ltb max_name_bytes (length n.name)
      then invalid bad_name
      else if is_empty n.domain
          || ltb max_domain_bytes (length n.domain)
          || not (every is_domain_char n.domain)
      then invalid bad_domain
      else if not (lib.is_zone n.timezone) || bytes_eq n.timezone (codes "Local")
      then invalid bad_timezone
      else valid n

  -- `NewSite.Validate`
  unfoldable pub validate_site : NewSite → Checked NewSite
  validate_site n = check_named (named_site n)

  unfoldable pub utm_value : Bytes → Bytes
  utm_value v = checked_utm (lib.to_lower (lib.trim_space v))

  abbrev pub normalize_utm : Utm → Utm
  normalize_utm u = record {
    source = utm_value u.source;
    medium = utm_value u.medium;
    campaign = utm_value u.campaign;
    content = utm_value u.content;
    term = utm_value u.term;
  }

  abbrev pub normalized : Beacon → Beacon
  normalized b = record {
    site = lib.trim_space b.site;
    url = cap_string (lib.trim_space b.url) max_url_bytes;
    referrer = cap_string (lib.trim_space b.referrer) max_referrer_bytes;
    v = b.v;
    utm = normalize_utm b.utm;
    paid = b.paid;
    width = known_width b.width;
    hostname = cap_string (lib.to_lower (lib.trim_space b.hostname)) max_domain_bytes;
  }

  -- `Beacon.Normalize`
  unfoldable pub normalize : Beacon → Beacon × Bool
  normalize b = let n = normalized b in (n, not (is_empty n.site) && not (is_empty n.url))
