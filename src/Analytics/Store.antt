-- ===== src/Analytics/Store.antt =====
-- internal/analytics/infrastructure/store.go, with the constraints of 0006_analytics.sql and
-- 0011_analytics_v2.sql. Stored times are milliseconds.
use smotryashchiy.Base.{
  ℕ, ◌+◌, ◌-◌, ◌*◌, ◌/◌, ◌%◌, ◌^◌, Bool, true, not, ◌&&◌, ◌||◌, List, [], ◌∷◌, ◌++◌, Option, none,
  some, map, Bytes, bytes_eq, ltb, leb, nat_eq, if◌then◌else◌, is_empty, keep_if, length, lex_lt,
  any,
}
use smotryashchiy.Sql.{
  Fault, database, refused, Action, ◌>>=◌, ◌>>◌, pure, refuse, statement, constrained, query, exec,
  transaction, order_by,
}
use smotryashchiy.Analytics.Beacon.{Site, NewSite, Utm, Pageview, max_sites, default_timezone}
use smotryashchiy.Analytics.Channels.{Source, Channel}

-- `Visit`: a visit as its first pageview finds it.
pub record Visit : Type 0 where
  pub source : Source
  pub channel : Channel
  pub utm : Utm
  pub paid : Bool
  pub country : Bytes
  pub region : Bytes
  pub browser_version : Bytes
  pub os_version : Bytes
  pub screen : Bytes

pub record VisitRow : Type 0 where
  pub id : Bytes
  pub site_id : Bytes
  pub visitor_hash : Bytes
  pub started_at : ℕ
  pub last_at : ℕ
  pub entry_path : Bytes
  pub exit_path : Bytes
  pub pageviews : ℕ
  pub hostname : Bytes
  pub referrer_domain : Bytes
  pub browser : Bytes
  pub os : Bytes
  pub device : Bytes
  pub visit : Visit

-- The rows of `pageviews`, with the time in milliseconds; those before visits were kept have none.
pub record PageviewRow : Type 0 where
  pub view : Pageview
  pub visit_id : Option Bytes

-- The rows of `sites` have the time of creation in milliseconds; `salt` is the row of `settings`.
pub record Tables : Type 0 where
  pub sites : List Site
  pub visits : List VisitRow
  pub pageviews : List PageviewRow
  pub salt : Option Bytes

pub data Error : Type 0 where
  no_id site_limit domain_taken not_found no_salt : Error

abbrev pub Store : Type 0 → Type 0
Store A = Action Tables Error A

abbrev pub unix_milli : ℕ → ℕ
unix_milli t = t / 10 ^ 6

abbrev pub of_milli : ℕ → ℕ
of_milli ms = ms * 10 ^ 6

-- thirty minutes, in milliseconds
abbrev pub visit_idle : ℕ
visit_idle = 30 * 60 * 1000

abbrev pub has_site : Bytes → List Site → Bool
has_site id sites = any (λ (s : Site). bytes_eq s.id id) sites

abbrev pub has_visit : Bytes → List VisitRow → Bool
has_visit id visits = any (λ (v : VisitRow). bytes_eq v.id id) visits

abbrev pub violates_site : Site → Tables → Option (Fault Error)
violates_site s t =
    if has_site s.id t.sites || any (λ (x : Site). bytes_eq x.domain s.domain) t.sites
    then some (refused domain_taken)
    else none

abbrev pub new_site : Bytes → NewSite → ℕ → Site
new_site id n now = record {
  id = id;
  name = n.name;
  domain = n.domain;
  timezone = if is_empty n.timezone then default_timezone else n.timezone;
  created_at = now - now % 10 ^ 6;
}

abbrev pub site_row : Site → Site
site_row s = record s { created_at = unix_milli s.created_at }

abbrev pub insert_counted : Site → ℕ → Store Site
insert_counted s count = if leb max_sites count then refuse site_limit else (do
  constrained (violates_site (site_row s))
      (λ t. (tt, record t { sites = t.sites ++ site_row s ∷ [] }))
  pure s)

abbrev pub insert_site : Site → Store Site
insert_site s = transaction (do count ← query (λ t. length t.sites); insert_counted s count)

-- `CreateSite`
unfoldable pub create_site : NewSite → Option Bytes → ℕ → Store Site
create_site n none now = refuse no_id
create_site n (some id) now = insert_site (new_site id n now)

-- `ORDER BY name, id`
abbrev pub comes_first : Site → Site → Bool
comes_first a b = lex_lt a.name b.name || (bytes_eq a.name b.name && not (lex_lt b.id a.id))

abbrev pub scan_site : Site → Site
scan_site s = record s { created_at = of_milli s.created_at }

-- `ListSites`
unfoldable pub list_sites : Store (List Site)
list_sites = query (λ t. map scan_site (order_by comes_first t.sites))

abbrev pub find_site : Bytes → List Site → Option Site
find_site id [] = none
find_site id (s ∷ ss) = if bytes_eq s.id id then some s else find_site id ss

abbrev scan_found : Option Site → Option Site
scan_found none = none
scan_found (some s) = some (scan_site s)

-- `SiteExists`
unfoldable pub site_exists : Bytes → Store (Option Site)
site_exists id = query (λ t. scan_found (find_site id t.sites))

-- The row, and by `ON DELETE CASCADE` its visits and pageviews.
abbrev pub without : Bytes → Tables → Tables
without id t = record t {
  sites = keep_if (λ (s : Site). not (bytes_eq s.id id)) t.sites;
  visits = keep_if (λ (v : VisitRow). not (bytes_eq v.site_id id)) t.visits;
  pageviews = keep_if (λ (p : PageviewRow). not (bytes_eq p.view.site_id id)) t.pageviews;
}

-- `DeleteSite`
unfoldable pub delete_site : Bytes → Store (Unit {0})
delete_site id = do
  n ← statement (λ t. (length (keep_if (λ (s : Site). bytes_eq s.id id) t.sites), without id t))
  if nat_eq n 0 then refuse not_found else pure tt

-- The visit goes on: the pageview comes less than half an hour after its last one.
abbrev pub continues : Pageview → VisitRow → Bool
continues p v =
    bytes_eq v.site_id p.site_id
    && bytes_eq v.visitor_hash p.visitor_hash
    && ltb (unix_milli p.ts) (v.last_at + visit_idle)

-- `ORDER BY last_at DESC`
abbrev pub is_later : VisitRow → VisitRow → Bool
is_later a b = leb b.last_at a.last_at

abbrev pub first_id : List VisitRow → Option Bytes
first_id [] = none
first_id (v ∷ vs) = some v.id

abbrev pub current_visit : Pageview → Tables → Option Bytes
current_visit p t = first_id (order_by is_later (keep_if (continues p) t.visits))

abbrev pub opened : Bytes → Pageview → Visit → VisitRow
opened id p v = record {
  id = id;
  site_id = p.site_id;
  visitor_hash = p.visitor_hash;
  started_at = unix_milli p.ts;
  last_at = unix_milli p.ts;
  entry_path = p.path;
  exit_path = p.path;
  pageviews = 1;
  hostname = p.hostname;
  referrer_domain = p.referrer_domain;
  browser = p.browser;
  os = p.os;
  device = p.device;
  visit = v;
}

-- The primary key, and the reference to `sites`.
abbrev pub violates_visit : VisitRow → Tables → Option (Fault Error)
violates_visit v t =
    if has_visit v.id t.visits || not (has_site v.site_id t.sites) then some database else none

abbrev pub open_visit : Pageview → Visit → Bytes → Store Bytes
open_visit p v id =
    constrained (violates_visit (opened id p v))
      (λ t. (id, record t { visits = t.visits ++ opened id p v ∷ [] }))

abbrev pub with_view : Pageview → VisitRow → VisitRow
with_view p v = record v {
  last_at = unix_milli p.ts;
  exit_path = p.path;
  pageviews = v.pageviews + 1;
}

abbrev pub continue_visit : Pageview → Bytes → Store Bytes
continue_visit p id = statement (λ t. (
  id,
  record t {
    visits = map (λ (v : VisitRow). if bytes_eq v.id id then with_view p v else v) t.visits;
  },
))

abbrev pub or_refuse : {A : Type 0} → Option A → Error → Store A
or_refuse none e = refuse e
or_refuse (some a) e = pure a

-- The visit of a pageview: the current one, or a new one.
abbrev pub visit_for : Pageview → Visit → Option Bytes → Option Bytes → Store Bytes
visit_for p v new_id (some id) = continue_visit p id
visit_for p v (some id) none = open_visit p v id
visit_for p v none none = refuse no_id

abbrev pub pageview_row : Pageview → Bytes → PageviewRow
pageview_row p id = record { view = record p { ts = unix_milli p.ts }; visit_id = some id }

-- The references to `sites` and `visits`.
abbrev pub has_no_visit : Pageview → Bytes → Tables → Option (Fault Error)
has_no_visit p id t =
    if has_site p.site_id t.sites && has_visit id t.visits then none else some database

abbrev pub insert_pageview : Pageview → Bytes → Store (Unit {0})
insert_pageview p id =
    constrained (has_no_visit p id)
      (λ t. (tt, record t { pageviews = t.pageviews ++ pageview_row p id ∷ [] }))

-- `RecordPageview`
unfoldable pub record_pageview : Pageview → Visit → Option Bytes → Store (Unit {0})
record_pageview p v new_id =
    transaction
      (do found ← query (current_visit p); id ← visit_for p v new_id found; insert_pageview p id)

abbrev pub put_salt : Bytes → Tables → Tables
put_salt secret t = record t { salt = elim t.salt [ none ↦ some secret | some old ↦ some old ] }

abbrev pub store_salt : Option Bytes → Option Bytes → Store Bytes
store_salt secret (some old) = pure old
store_salt secret none = do
  s ← or_refuse secret no_id
  exec (put_salt s)
  now ← query (λ t. t.salt)
  or_refuse now no_salt

-- `DailySaltBase`, with the random secret.
unfoldable pub daily_salt_base : Option Bytes → Store Bytes
daily_salt_base secret = do found ← query (λ t. t.salt); store_salt secret found

-- `DELETE ... LIMIT`: the rows that stay when up to `limit` of the old ones go.
abbrev pub purged {ℓ} : {A : Type ℓ} → (A → Bool) → ℕ → List A → List A
purged is_old limit [] = []
purged is_old limit (r ∷ rs) =
    let gone = is_old r && ltb 0 limit in
    let rest = purged is_old (if gone then limit - 1 else limit) rs in
    if gone then rest else r ∷ rest

abbrev pub is_old_view : ℕ → PageviewRow → Bool
is_old_view ms p = ltb p.view.ts ms

abbrev pub is_old_visit : ℕ → VisitRow → Bool
is_old_visit ms v = ltb v.last_at ms

abbrev pub has_its_visit : List VisitRow → PageviewRow → Bool
has_its_visit visits p = elim p.visit_id [ none ↦ true | some id ↦ has_visit id visits ]

abbrev pub purge_views : ℕ → ℕ → Tables → ℕ × Tables
purge_views ms limit t =
    let rows = purged (is_old_view ms) limit t.pageviews in
    (length t.pageviews - length rows, record t { pageviews = rows })

abbrev pub purge_visits : ℕ → ℕ → Tables → ℕ × Tables
purge_visits ms limit t =
    let rows = purged (is_old_visit ms) limit t.visits in
    (
      length t.visits - length rows,
      record t { visits = rows; pageviews = keep_if (has_its_visit rows) t.pageviews },
    )

-- `PurgePageviews`
unfoldable pub purge_pageviews : ℕ → ℕ → Store ℕ
purge_pageviews before limit = do
  views ← statement (purge_views (unix_milli before) limit)
  visits ← statement (purge_visits (unix_milli before) limit)
  pure (views + visits)
