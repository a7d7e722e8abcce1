-- ===== src/Analytics/Service.antt =====
-- internal/analytics/application/service.go: the cached sites, and the collection of a beacon. The
-- clock's reading, the random identifier and the random secret are arguments.
pub mod Clean
pub mod Private
pub mod Recording
pub mod Outcomes
pub mod Purging
use smotryashchiy.Base.{
  ℕ, zero, suc, ◌+◌, ◌-◌, ◌*◌, ◌^◌, Bool, true, false, not, ◌&&◌, ◌||◌, List, [], ◌∷◌, ◌++◌, Option,
  none, some, Bytes, bytes_eq, ltb, leb, nat_eq, if◌then◌else◌, is_empty, take, codes,
}
use smotryashchiy.Sql.{Db, Result, ok, err, Fault, ◌>>=◌, ◌>>◌, pure}
use smotryashchiy.Analytics.Beacon.{
  Site, NewSite, Beacon, Pageview, Library, Checked, valid, invalid, Invalid, validate_site,
  normalize, screen_group,
}
use smotryashchiy.Analytics.Agents.{is_bot, browser_of, os_of, device_of, browser_major, os_version}
use smotryashchiy.Analytics.Channels.{classify}
use smotryashchiy.Analytics.Store.{
  Tables, Error, Store, Visit, create_site, list_sites, find_site, delete_site, record_pageview,
  daily_salt_base, purge_pageviews,
}

pub data Outcome : Type 0 where
  stored rate_limited malformed is_invalid bot unknown_site origin_mismatch failed : Outcome

abbrev pub same_outcome : Outcome → Outcome → Bool
same_outcome stored stored = true
same_outcome rate_limited rate_limited = true
same_outcome malformed malformed = true
same_outcome is_invalid is_invalid = true
same_outcome bot bot = true
same_outcome unknown_site unknown_site = true
same_outcome origin_mismatch origin_mismatch = true
same_outcome failed failed = true
same_outcome a b = false

-- The cached sites with the time they were read, and the cached salt, empty before it is read.
pub record Service : Type 0 where
  pub db : Db Tables
  pub counts : Outcome → ℕ
  pub sites : Option (List Site)
  pub sites_at : ℕ
  pub salt_base : Bytes

-- one minute
abbrev pub sites_ttl : ℕ
sites_ttl = 60 * 10 ^ 9

-- `CountCollect`
abbrev pub count_collect : Outcome → Service → Service
count_collect o s = record s {
  counts = λ p. if same_outcome o p then s.counts p + 1 else s.counts p;
}

pub data Answer (A : Type 0) : Type 0 where
  done : A → Answer A
  rejected : Invalid → Answer A
  refused : Fault Error → Answer A

abbrev pub reset_sites : {A : Type 0} → Service → Result Error A × Db Tables → Service × Answer A
reset_sites s (ok a, d) = (record s { db = d; sites = none }, done a)
reset_sites s (err e, d) = (record s { db = d; sites = none }, refused e)

abbrev create_valid : Service → Option Bytes → ℕ → Checked NewSite → Service × Answer Site
create_valid s id now (invalid e) = (s, rejected e)
create_valid s id now (valid n) = reset_sites s (create_site n id now s.db)

-- `CreateSite`
unfoldable pub create : Library → Service → NewSite → Option Bytes → ℕ → Service × Answer Site
create lib s n id now = create_valid s id now (validate_site lib n)

-- `DeleteSite`
unfoldable pub delete : Service → Bytes → Service × Answer (Unit {0})
delete s id = reset_sites s (delete_site id s.db)

-- `s.now().Sub(s.sitesAt) >= sitesTTL || s.now().Before(s.sitesAt)`
abbrev pub is_stale : ℕ → Service → Bool
is_stale now s = leb (s.sites_at + sites_ttl) now || ltb now s.sites_at

abbrev pub cached : ℕ → Service → Option (List Site)
cached now s = if is_stale now s then none else s.sites

abbrev pub reload :
    ℕ → Service → Result Error (List Site) × Db Tables → Service × Option (List Site)
reload now s (ok sites, d) = (record s { db = d; sites = some sites; sites_at = now }, some sites)
reload now s (err e, d) = (record s { db = d }, none)

abbrev pub sites_from : ℕ → Service → Option (List Site) → Service × Option (List Site)
sites_from now s (some sites) = (s, some sites)
sites_from now s none = reload now s (list_sites s.db)

-- `Sites`, with none for an error.
unfoldable pub known_sites : ℕ → Service → Service × Option (List Site)
known_sites now s = sites_from now s (cached now s)

-- `OriginMatchesSite`
abbrev pub origin_matches : Library → Bytes → Bytes → Bool
origin_matches lib origin domain =
    let host = lib.to_lower origin in
    let d = lib.to_lower domain in
    not (is_empty host) && (bytes_eq host d || bytes_eq host (codes "www." ++ d))

abbrev pub keep_salt : Service → Result Error Bytes × Db Tables → Service × Option Bytes
keep_salt s (ok base, d) = (record s { db = d; salt_base = base }, some base)
keep_salt s (err e, d) = (record s { db = d }, none)

-- `dailySaltBase`, with none for an error.
unfoldable pub salt_for : Option Bytes → Service → Service × Option Bytes
salt_for secret s =
    if is_empty s.salt_base
    then keep_salt s (daily_salt_base secret s.db)
    else (s, some s.salt_base)

abbrev pub hash_of : Library → Bytes → Site → Bytes → Bytes → ℕ → Bytes
hash_of lib base site ip ua now =
    let daily = lib.sha256 (base ++ b'|' ∷ lib.local_date site.timezone now) in
    take 32 (lib.sha256 (daily ++ b'|' ∷ (site.id ++ b'|' ∷ (ip ++ b'|' ∷ ua))))

-- Up to the first `?` or `#`.
abbrev pub before_query : Bytes → Bytes
before_query [] = []
before_query (c ∷ s) =
    let rest = before_query s in if nat_eq c b'?' || nat_eq c b'#' then [] else c ∷ rest

abbrev pub or_root : Bytes → Bytes
or_root [] = b'/' ∷ []
or_root (c ∷ s) = c ∷ s

-- `pathOnly`
unfoldable pub path_only : Bytes → Bytes
path_only u = or_root (before_query u)

abbrev pub or_empty : Option Bytes → Bytes
or_empty none = []
or_empty (some s) = s

-- `referrerDomain`
abbrev pub referrer_domain : Library → Bytes → Bytes
referrer_domain lib referrer = if is_empty referrer then [] else or_empty (lib.hostname_of referrer)

-- `externalReferrer`
unfoldable pub external_referrer : Library → Bytes → Bytes → Bytes
external_referrer lib referrer domain =
    let host = referrer_domain lib referrer in if origin_matches lib host domain then [] else host

-- What is stored of a beacon, in normal form, for a site.
abbrev pub pageview_of : Library → Beacon → Site → Bytes → Bytes → Bytes → Bytes → ℕ → Pageview
pageview_of lib b site hash ua origin referrer now = record {
  site_id = site.id;
  ts = now;
  path = path_only b.url;
  referrer_domain = referrer;
  visitor_hash = hash;
  browser = browser_of (lib.to_lower ua);
  os = os_of (lib.to_lower ua);
  device = device_of (lib.to_lower ua);
  hostname = if origin_matches lib b.hostname site.domain then b.hostname else lib.to_lower origin;
}

abbrev pub visit_of : Library → Beacon → Bytes → Bytes → Bytes → Visit
visit_of lib b ip ua referrer =
    let (source, channel) = classify (lib.to_lower referrer) referrer b.utm b.paid in
    let (country, region) = lib.locate ip in
    record {
      source = source;
      channel = channel;
      utm = b.utm;
      paid = b.paid;
      country = country;
      region = region;
      browser_version = browser_major (lib.to_lower ua) (browser_of (lib.to_lower ua));
      os_version = os_version (lib.to_lower ua) (os_of (lib.to_lower ua));
      screen = screen_group b.width;
    }

abbrev pub recorded : Service → Result Error (Unit {0}) × Db Tables → Service × Outcome
recorded s (ok u, d) = (record s { db = d }, stored)
recorded s (err e, d) = (record s { db = d }, failed)

-- A request to the public endpoint.
pub record Hit : Type 0 where
  pub beacon : Beacon
  pub ip : Bytes
  pub user_agent : Bytes
  pub origin : Bytes
  pub now : ℕ
  pub visit_id : Option Bytes
  pub secret : Option Bytes

module _ (lib : Library) (h : Hit) (b : Beacon) where
  abbrev pub collect_hashed : Site → Service × Option Bytes → Service × Outcome
  collect_hashed site (s, none) = (s, failed)
  collect_hashed site (s, some base) =
      let referrer = external_referrer lib b.referrer site.domain in
      recorded s (
        record_pageview
          (pageview_of lib b site (hash_of lib base site h.ip h.user_agent h.now) h.user_agent
            h.origin referrer h.now)
          (visit_of lib b h.ip h.user_agent referrer) h.visit_id s.db)

  abbrev pub collect_at : Service → Option Site → Service × Outcome
  collect_at s none = (s, unknown_site)
  collect_at s (some site) =
      if origin_matches lib h.origin site.domain
      then collect_hashed site (salt_for h.secret s)
      else (s, origin_mismatch)

  abbrev pub collect_known : Service × Option (List Site) → Service × Outcome
  collect_known (s, none) = (s, failed)
  collect_known (s, some sites) = collect_at s (find_site b.site sites)

  -- `collect` behind `Normalize`.
  unfoldable pub collect_normal : Service → Service × Outcome
  collect_normal s =
      if is_bot (lib.to_lower h.user_agent) then (s, bot) else collect_known (known_sites h.now s)

abbrev pub counted : Service × Outcome → Service × Outcome
counted (s, o) = (count_collect o s, o)

-- `Collect`
unfoldable pub collect : Library → Hit → Service → Service × Outcome
collect lib h s =
    let (b, whole) = normalize lib h.beacon in
    counted (if whole then collect_normal lib h b s else (s, is_invalid))

abbrev pub next_purge : Bool → Store Bool → Store Bool
next_purge true rest = pure true
next_purge false rest = rest

-- The loop of `Purge`, on fuel: `false` if the fuel gave out.
unfoldable pub purge_loop : ℕ → ℕ → Store Bool
purge_loop zero before = pure false
purge_loop (suc fuel) before = do
  n ← purge_pageviews before 5000
  next_purge (nat_eq n 0) (purge_loop fuel before)

-- `Purge`, with the retention.
unfoldable pub purge : ℕ → ℕ → ℕ → Store Bool
unfolding purge_loop
purge fuel retention now =
    if nat_eq retention 0 then pure true else purge_loop fuel (now - retention)
