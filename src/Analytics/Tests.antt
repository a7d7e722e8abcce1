-- ===== src/Analytics/Tests.antt =====
-- Runs of the collection of beacons, and the theorems at concrete inputs.
use smotryashchiy.Base.{arith, ◌≡◌, refl, true, false, [], ◌∷◌, none, some, Bytes, codes, pos}
use smotryashchiy.Sql.{Db}
use smotryashchiy.Analytics.Query.{
  Query, validate_query, rejected, metric_twice, is_metric, metric_set, is_known_dimension,
  is_time_dimension, visit_dimensions, time_intervals,
}
use smotryashchiy.Analytics.Query.Accepted.{Answers, validate_query_lem}
use smotryashchiy.Analytics.Service.{purge_loop}
use smotryashchiy.Analytics.Service.Purging.{Purges, purge_pageviews_total}
use smotryashchiy.Analytics.Store.{Tables, Visit, opened, pageview_row}
use smotryashchiy.Analytics.Beacon.{Pageview, Site, Utm, Library}
use smotryashchiy.Analytics.Agents.{
  browser_of, os_of, browser_major, os_version, browser_tokens, windows_name,
}
use smotryashchiy.Analytics.Channels.{
  classify, known_source, lookup_host, channel_of, paid_search, utm_sources, known_sources,
  paid_media, direct, unknown,
}
use smotryashchiy.Analytics.Channels.Direct.{is_direct, classify-direct}
use smotryashchiy.Analytics.Service.{Service, Hit, collect, path_only}
use smotryashchiy.Analytics.Service.Private.{IsPrivate, collect-IsPrivate}
use smotryashchiy.Analytics.Service.Outcomes.{Stores, Counts, collect_lem}
use smotryashchiy.Analytics.Service.Recording.{visited}

-- Text is in lower case already, and every digest is the same.
abbrev library : Library
library = record {
  trim_space = λ s. s;
  to_lower = λ s. s;
  is_zone = λ s. true;
  local_date = λ z t. codes "2026-01-01";
  hostname_of = λ s. none;
  sha256 = λ s. codes "0123";
  locate = λ ip. (codes "RU", []);
}

abbrev no_utm : Utm
no_utm = record { source = []; medium = []; campaign = []; content = []; term = [] }

abbrev shop : Site
shop = record {
  id = codes "s";
  name = codes "Shop";
  domain = codes "shop.ru";
  timezone = codes "Europe/Moscow";
  created_at = 0;
}

abbrev chrome : Bytes
chrome = codes "mozilla/5.0 (windows nt 10.0) chrome/126.0 safari/537.36"

abbrev hit : Hit
hit = record {
  beacon = record {
    site = codes "s";
    url = codes "/cart?token=7";
    referrer = [];
    v = pos 2;
    utm = record no_utm { source = codes "yandex"; medium = codes "cpc" };
    paid = false;
    width = pos 1200;
    hostname = codes "shop.ru";
  };
  ip = codes "10.0.0.1";
  user_agent = chrome;
  origin = codes "www.shop.ru";
  now = 5000000;
  visit_id = some (codes "v");
  secret = some (codes "salt");
}

abbrev fresh : Service
fresh = record {
  db = record {
    tables = record { sites = shop ∷ []; visits = []; pageviews = []; salt = none };
    faults = [];
  };
  counts = λ o. 0;
  sites = none;
  sites_at = 0;
  salt_base = [];
}

cart_path : path_only (codes "/cart?token=7") ≡ codes "/cart"
unfolding path_only
cart_path = refl

chrome_version : browser_major chrome (browser_of chrome) ≡ codes "126"
unfolding browser_of browser_major browser_tokens
chrome_version = refl

windows_version : os_version chrome (os_of chrome) ≡ codes "10/11"
unfolding os_of os_version windows_name
windows_version = refl

paid_yandex : (classify [] [] hit.beacon.utm false).1 ≡ paid_search
unfolding classify known_source lookup_host known_sources utm_sources paid_media channel_of
paid_yandex = refl

collect-IsPrivate_example : IsPrivate (collect library hit fresh).0
collect-IsPrivate_example =
    collect-IsPrivate library hit fresh (record { views = refl; visits = refl })

collect_lem_example :
    Stores (visited fresh.db.tables) (collect library hit fresh)
    × Counts fresh (collect library hit fresh)
collect_lem_example = collect_lem library hit fresh

classify-direct_example : is_direct (classify [] [] no_utm false).1 ≡ true
classify-direct_example = classify-direct [] [] no_utm false (λ h. refl)

-- Ten visits a day by default, and a filter.
abbrev asked : Query
asked = record {
  metrics = [];
  dimension = codes "time:day";
  filters = record { dimension = codes "page"; op = codes "is"; values = codes "/" ∷ [] } ∷ [];
  date_range = [];
  period = codes "7d";
  compare = codes "previous";
  order_by = [];
  limit = pos 0;
  format = [];
}

twice_refused :
    validate_query (record asked { metrics = codes "visits" ∷ codes "visits" ∷ [] })
    ≡ rejected metric_twice
unfolding validate_query is_metric metric_set is_known_dimension is_time_dimension visit_dimensions
    time_intervals
twice_refused = refl

validate_query_lem_example : Answers asked (validate_query asked)
validate_query_lem_example = validate_query_lem asked

abbrev old_page : Pageview
old_page = record {
  site_id = codes "s";
  ts = 1000000;
  path = codes "/";
  referrer_domain = [];
  visitor_hash = [];
  browser = [];
  os = [];
  device = [];
  hostname = [];
}

abbrev bare_visit : Visit
bare_visit = record {
  source = unknown;
  channel = direct;
  utm = no_utm;
  paid = false;
  country = [];
  region = [];
  browser_version = [];
  os_version = [];
  screen = [];
}

-- One visit of one page, in the first millisecond.
abbrev visited_once : Db Tables
visited_once = record {
  tables = record {
    sites = shop ∷ [];
    visits = opened (codes "v") old_page bare_visit ∷ [];
    pageviews = pageview_row old_page (codes "v") ∷ [];
    salt = none;
  };
  faults = [];
}

purge_pageviews_total_example : Purges 2 visited_once.tables (purge_loop 3 2000000 visited_once)
purge_pageviews_total_example = purge_pageviews_total 3 2000000 visited_once (omega arith)
