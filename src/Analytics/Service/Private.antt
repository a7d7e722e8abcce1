-- ===== src/Analytics/Service/Private.antt =====
-- service.go: what is never stored of a visitor.
use smotryashchiy.Base.{
  ℕ, ◌≡◌, true, false, not, ◌&&◌, List, Option, none, some, Bytes, if◌then◌else◌, is_empty,
}
use smotryashchiy.Sql.{Db, Result, ok, err}
use smotryashchiy.Analytics.Beacon.{Site, Beacon, Library, normalized, normalize}
use smotryashchiy.Analytics.Store.{
  Tables, Error, list_sites, find_site, record_pageview, daily_salt_base,
}
use smotryashchiy.Analytics.Agents.{is_bot}
use smotryashchiy.Analytics.Service.{
  Service, bot, is_invalid, origin_mismatch, hash_of, external_referrer, sites_from, cached, reload,
  known_sites, keep_salt, salt_for, pageview_of, visit_of, origin_matches, recorded, Hit,
  collect_hashed, collect_at, collect_known, collect_normal, counted, collect,
}
use smotryashchiy.Analytics.Service.Clean.{
  are_labels, Private, path_only-is_path, normalize_utm-are_labels, record_pageview-Keeps,
  daily_salt_base-Keeps, list_sites-Keeps,
}

-- The same for the service.
abbrev pub IsPrivate : Service → Type 0
IsPrivate s = Private s.db.tables

reload-IsPrivate :
    (now : ℕ) (s : Service) (r : Result Error (List Site) × Db Tables)
    → Private r.1.tables
    → IsPrivate (reload now s r).0
reload-IsPrivate now s (ok sites, d) h = h
reload-IsPrivate now s (err e, d) h = h

sites_from-IsPrivate :
    (now : ℕ) (s : Service) (o : Option (List Site))
    → IsPrivate s
    → IsPrivate (sites_from now s o).0
sites_from-IsPrivate now s (some sites) h = h
sites_from-IsPrivate now s none h =
    reload-IsPrivate now s (list_sites s.db) (list_sites-Keeps.keeps s.db h)

keep_salt-IsPrivate :
    (s : Service) (r : Result Error Bytes × Db Tables)
    → Private r.1.tables
    → IsPrivate (keep_salt s r).0
keep_salt-IsPrivate s (ok base, d) h = h
keep_salt-IsPrivate s (err e, d) h = h

salt_for-IsPrivate :
    (secret : Option Bytes) (s : Service) → IsPrivate s → IsPrivate (salt_for secret s).0
unfolding salt_for
salt_for-IsPrivate secret s h =
    elim (is_empty s.salt_base)
      as (λ b.
        IsPrivate
          (if b then keep_salt s (daily_salt_base secret s.db) else (s, some s.salt_base)).0) [
            | true ↦
                keep_salt-IsPrivate s (daily_salt_base secret s.db)
                  ((daily_salt_base-Keeps secret).keeps s.db h)
            | false ↦ h
          ]

recorded-IsPrivate :
    (s : Service) (r : Result Error (Unit {0}) × Db Tables)
    → Private r.1.tables
    → IsPrivate (recorded s r).0
recorded-IsPrivate s (ok u, d) h = h
recorded-IsPrivate s (err e, d) h = h

module _ (lib : Library) (hit : Hit) (b : Beacon) (labels : are_labels b.utm ≡ true) where
  collect_hashed-IsPrivate :
      (site : Site) (r : Service × Option Bytes)
      → IsPrivate r.0
      → IsPrivate (collect_hashed lib hit b site r).0
  collect_hashed-IsPrivate site (s, none) h = h
  collect_hashed-IsPrivate site (s, some base) h =
      let referrer = external_referrer lib b.referrer site.domain in
      let hash = hash_of lib base site hit.ip hit.user_agent hit.now in
      let p = pageview_of lib b site hash hit.user_agent hit.origin referrer hit.now in
      let v = visit_of lib b hit.ip hit.user_agent referrer in
      recorded-IsPrivate s (record_pageview p v hit.visit_id s.db)
        ((record_pageview-Keeps p v (path_only-is_path b.url) labels hit.visit_id).keeps s.db h)

  collect_at-IsPrivate :
      (s : Service) (o : Option Site) → IsPrivate s → IsPrivate (collect_at lib hit b s o).0
  collect_at-IsPrivate s none h = h
  collect_at-IsPrivate s (some site) h =
      elim (origin_matches lib hit.origin site.domain)
        as (λ k.
          IsPrivate
            (if k
              then collect_hashed lib hit b site (salt_for hit.secret s)
              else (s, origin_mismatch)).0) [
                | true ↦
                    collect_hashed-IsPrivate site (salt_for hit.secret s)
                      (salt_for-IsPrivate hit.secret s h)
                | false ↦ h
              ]

  collect_known-IsPrivate :
      (r : Service × Option (List Site)) → IsPrivate r.0 → IsPrivate (collect_known lib hit b r).0
  collect_known-IsPrivate (s, none) h = h
  collect_known-IsPrivate (s, some sites) h = collect_at-IsPrivate s (find_site b.site sites) h

  collect_normal-IsPrivate : (s : Service) → IsPrivate s → IsPrivate (collect_normal lib hit b s).0
  unfolding collect_normal known_sites
  collect_normal-IsPrivate s h =
      elim (is_bot (lib.to_lower hit.user_agent))
        as (λ k.
          IsPrivate (if k then (s, bot) else collect_known lib hit b (known_sites hit.now s)).0) [
            | true ↦ h
            | false ↦
                collect_known-IsPrivate (known_sites hit.now s)
                  (sites_from-IsPrivate hit.now s (cached hit.now s) h)
          ]

-- Whatever a beacon says, whoever sends it and whatever statement fails: if the stored paths carry no
-- query and no fragment, and the stored campaign values are empty, marked as invalid, or at most 100 of
-- the signs allowed, then so they are after the beacon was collected.
pub collect-IsPrivate :
    (lib : Library) (hit : Hit) (s : Service) → IsPrivate s → IsPrivate (collect lib hit s).0
unfolding collect normalize
collect-IsPrivate lib hit s h =
    let b = normalized lib hit.beacon in
    elim (not (is_empty b.site) && not (is_empty b.url))
      as (λ k. IsPrivate (counted (if k then collect_normal lib hit b s else (s, is_invalid))).0) [
        | true ↦
            collect_normal-IsPrivate lib hit b (normalize_utm-are_labels lib hit.beacon.utm) s h
        | false ↦ h
      ]
