-- ===== src/Analytics/Service/Outcomes.antt =====
-- service.go: what is counted of a beacon, and what is stored.
use smotryashchiy.Base.{
  ℕ, ◌+◌, ◌≡◌, refl, ap, ◌∙◌, true, false, not, ◌&&◌, List, Option, none, some, Bytes,
  if◌then◌else◌, is_empty, length,
}
use mathlib.Core.Path.{subst}
use smotryashchiy.Sql.{Db, Result, ok, err}
use smotryashchiy.Sql.Atomic.{Unchanged}
use smotryashchiy.Analytics.Beacon.{Site, Beacon, Library, normalized, normalize}
use smotryashchiy.Analytics.Agents.{is_bot}
use smotryashchiy.Analytics.Store.{
  VisitRow, PageviewRow, Tables, Error, list_sites, find_site, record_pageview, daily_salt_base,
}
use smotryashchiy.Analytics.Service.{
  Service, Outcome, stored, rate_limited, malformed, is_invalid, bot, unknown_site, origin_mismatch,
  failed, same_outcome, sites_from, cached, reload, known_sites, keep_salt, salt_for, pageview_of,
  visit_of, origin_matches, recorded, Hit, hash_of, external_referrer, collect_hashed, collect_at,
  collect_known, collect_normal, counted, collect,
}
use smotryashchiy.Analytics.Service.Recording.{
  visited, daily_salt_base-Fixes, list_sites-Fixes, Grows, record_pageview-Unchanged,
  record_pageview-Grows,
}

-- What is stored of a beacon with an outcome: one pageview, or neither a pageview nor a change of a
-- visit.
abbrev pub Stores : List PageviewRow × List VisitRow → Service × Outcome → Type 0
Stores before (s, stored) = length s.db.tables.pageviews ≡ length before.0 + 1
Stores before (s, o) = visited s.db.tables ≡ before

recorded-Stores :
    (s : Service) (r : Result Error (Unit {0}) × Db Tables)
    → Unchanged s.db r
    → Grows s.db.tables.pageviews r
    → Stores (visited s.db.tables) (recorded s r)
recorded-Stores s (ok u, d) h g = g
recorded-Stores s (err e, d) h g = ap visited h

-- A step that stores and counts nothing.
record Quiet (s s' : Service) : Type 0 where
  same_rows : visited s'.db.tables ≡ visited s.db.tables
  same_counts : s'.counts ≡ s.counts

record Effect (s : Service) (r : Service × Outcome) : Type 0 where
  stores : Stores (visited s.db.tables) r
  same_counts : r.0.counts ≡ s.counts

Effect-behind : (s s' : Service) (r : Service × Outcome) → Quiet s s' → Effect s' r → Effect s r
Effect-behind s s' r q e = record {
  stores = subst (λ (x : List PageviewRow × List VisitRow). Stores x r) q.same_rows e.stores;
  same_counts = e.same_counts ∙ q.same_counts;
}

reload-Quiet :
    (now : ℕ) (s : Service) (r : Result Error (List Site) × Db Tables)
    → visited r.1.tables ≡ visited s.db.tables
    → Quiet s (reload now s r).0
reload-Quiet now s (ok sites, d) h = record { same_rows = h; same_counts = refl }
reload-Quiet now s (err e, d) h = record { same_rows = h; same_counts = refl }

sites_from-Quiet : (now : ℕ) (s : Service) (o : Option (List Site)) → Quiet s (sites_from now s o).0
sites_from-Quiet now s (some sites) = record { same_rows = refl; same_counts = refl }
sites_from-Quiet now s none = reload-Quiet now s (list_sites s.db) (list_sites-Fixes.fixes s.db)

keep_salt-Quiet :
    (s : Service) (r : Result Error Bytes × Db Tables)
    → visited r.1.tables ≡ visited s.db.tables
    → Quiet s (keep_salt s r).0
keep_salt-Quiet s (ok base, d) h = record { same_rows = h; same_counts = refl }
keep_salt-Quiet s (err e, d) h = record { same_rows = h; same_counts = refl }

salt_for-Quiet : (secret : Option Bytes) (s : Service) → Quiet s (salt_for secret s).0
unfolding salt_for
salt_for-Quiet secret s =
    elim (is_empty s.salt_base)
      as (λ b.
        Quiet s
          (if b then keep_salt s (daily_salt_base secret s.db) else (s, some s.salt_base)).0) [
            | true ↦
                keep_salt-Quiet s (daily_salt_base secret s.db)
                  ((daily_salt_base-Fixes secret).fixes s.db)
            | false ↦ record { same_rows = refl; same_counts = refl }
          ]

recorded-counts :
    (s : Service) (r : Result Error (Unit {0}) × Db Tables) → (recorded s r).0.counts ≡ s.counts
recorded-counts s (ok u, d) = refl
recorded-counts s (err e, d) = refl

module _ (lib : Library) (hit : Hit) (b : Beacon) where
  collect_hashed-Effect :
      (site : Site) (r : Service × Option Bytes) → Effect r.0 (collect_hashed lib hit b site r)
  collect_hashed-Effect site (s, none) = record { stores = refl; same_counts = refl }
  collect_hashed-Effect site (s, some base) =
      let referrer = external_referrer lib b.referrer site.domain in
      let hash = hash_of lib base site hit.ip hit.user_agent hit.now in
      let p = pageview_of lib b site hash hit.user_agent hit.origin referrer hit.now in
      let v = visit_of lib b hit.ip hit.user_agent referrer in
      record {
        stores =
            recorded-Stores s (record_pageview p v hit.visit_id s.db)
              (record_pageview-Unchanged p v hit.visit_id s.db)
              (record_pageview-Grows p v hit.visit_id s.db);
        same_counts = recorded-counts s (record_pageview p v hit.visit_id s.db);
      }

  collect_at-Effect : (s : Service) (o : Option Site) → Effect s (collect_at lib hit b s o)
  collect_at-Effect s none = record { stores = refl; same_counts = refl }
  collect_at-Effect s (some site) =
      elim (origin_matches lib hit.origin site.domain)
        as (λ k. Effect s (
          if k
          then collect_hashed lib hit b site (salt_for hit.secret s)
          else (s, origin_mismatch))) [
            | true ↦
                Effect-behind s (salt_for hit.secret s).0 _ (salt_for-Quiet hit.secret s)
                  (collect_hashed-Effect site (salt_for hit.secret s))
            | false ↦ record { stores = refl; same_counts = refl }
          ]

  collect_known-Effect : (r : Service × Option (List Site)) → Effect r.0 (collect_known lib hit b r)
  collect_known-Effect (s, none) = record { stores = refl; same_counts = refl }
  collect_known-Effect (s, some sites) = collect_at-Effect s (find_site b.site sites)

  collect_normal-Effect : (s : Service) → Effect s (collect_normal lib hit b s)
  unfolding collect_normal known_sites
  collect_normal-Effect s =
      elim (is_bot (lib.to_lower hit.user_agent))
        as (λ k.
          Effect s (if k then (s, bot) else collect_known lib hit b (known_sites hit.now s))) [
            | true ↦ record { stores = refl; same_counts = refl }
            | false ↦
                Effect-behind s (known_sites hit.now s).0 _
                  (sites_from-Quiet hit.now s (cached hit.now s))
                  (collect_known-Effect (known_sites hit.now s))
          ]

-- One count more for the outcome, and no other.
abbrev pub Counts : Service → Service × Outcome → Type 0
Counts s (s', o) =
    (p : Outcome) → s'.counts p ≡ (if same_outcome o p then s.counts p + 1 else s.counts p)

counted-Stores :
    (before : List PageviewRow × List VisitRow) (s : Service) (o : Outcome)
    → Stores before (s, o)
    → Stores before (counted (s, o))
counted-Stores before s stored h = h
counted-Stores before s rate_limited h = h
counted-Stores before s malformed h = h
counted-Stores before s is_invalid h = h
counted-Stores before s bot h = h
counted-Stores before s unknown_site h = h
counted-Stores before s origin_mismatch h = h
counted-Stores before s failed h = h

counted-lem :
    (s : Service) (r : Service × Outcome)
    → Effect s r
    → Stores (visited s.db.tables) (counted r) × Counts s (counted r)
counted-lem s (s', o) e =
    (counted-Stores (visited s.db.tables) s' o e.stores, λ p. rw e.same_counts refl)

-- Every beacon is counted under exactly one outcome. If that is `stored`, one pageview was stored; if
-- it is any other, no pageview was, and no visit was changed, whatever statement failed.
pub collect_lem :
    (lib : Library) (hit : Hit) (s : Service)
    → Stores (visited s.db.tables) (collect lib hit s) × Counts s (collect lib hit s)
unfolding collect normalize
collect_lem lib hit s =
    let b = normalized lib hit.beacon in
    elim (not (is_empty b.site) && not (is_empty b.url))
      as (λ k.
        Stores (visited s.db.tables)
          (counted (if k then collect_normal lib hit b s else (s, is_invalid)))
        × Counts s (counted (if k then collect_normal lib hit b s else (s, is_invalid)))) [
          | true ↦ counted-lem s (collect_normal lib hit b s) (collect_normal-Effect lib hit b s)
          | false ↦ counted-lem s (s, is_invalid) (record { stores = refl; same_counts = refl })
        ]
