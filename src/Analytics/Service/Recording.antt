-- ===== src/Analytics/Service/Recording.antt =====
-- service.go and store.go: what a stored pageview adds to the rows.
use smotryashchiy.Base.{
  ◌+◌, ◌≡◌, refl, true, false, List, [], ◌∷◌, ◌++◌, Option, none, some, Bytes, if◌then◌else◌,
  length, length-append, Bool-cases, Option-cases, inl, inr, next_fails,
}
use mathlib.Core.Path.{subst}
use smotryashchiy.Sql.{database, Db, Result, ok, err, ◌>>=◌, query, exec, commit, advance}
use smotryashchiy.Sql.Atomic.{Unchanged, transaction-Unchanged, statement-rule, continue}
use smotryashchiy.Sql.Fixes.{
  Fixes, Fixes-pure, Fixes-refuse, Fixes-statement, Fixes-constrained, Fixes-bind,
}
use smotryashchiy.Analytics.Beacon.{Pageview}
use smotryashchiy.Analytics.Store.{
  Visit, VisitRow, PageviewRow, Tables, Error, no_id, no_salt, list_sites, current_visit, opened,
  violates_visit, or_refuse, visit_for, pageview_row, has_no_visit, insert_pageview,
  record_pageview, put_salt, store_salt, daily_salt_base,
}

abbrev pub visited : Tables → List PageviewRow × List VisitRow
visited t = (t.pageviews, t.visits)

or_refuse-Fixes : {A : Type 0} (o : Option A) (e : Error) → Fixes visited (or_refuse o e)
or_refuse-Fixes none e = Fixes-refuse visited e
or_refuse-Fixes (some a) e = Fixes-pure visited a

store_salt-Fixes : (secret found : Option Bytes) → Fixes visited (store_salt secret found)
store_salt-Fixes secret (some old) = Fixes-pure visited old
store_salt-Fixes secret none =
    Fixes-bind visited (or_refuse secret no_id) _ (or_refuse-Fixes secret no_id) (λ s.
      Fixes-bind visited (exec (put_salt s)) _
        (Fixes-statement visited (λ t. (tt, put_salt s t)) (λ t. refl))
        (λ u.
          Fixes-bind visited (query (λ t. t.salt)) _
            (Fixes-statement visited (λ t. (t.salt, t)) (λ t. refl))
            (λ now. or_refuse-Fixes now no_salt)))

pub daily_salt_base-Fixes : (secret : Option Bytes) → Fixes visited (daily_salt_base secret)
unfolding daily_salt_base
daily_salt_base-Fixes secret =
    Fixes-bind visited (query (λ t. t.salt)) _
      (Fixes-statement visited (λ t. (t.salt, t)) (λ t. refl)) (store_salt-Fixes secret)

pub list_sites-Fixes : Fixes visited list_sites
unfolding list_sites
list_sites-Fixes = Fixes-statement visited _ (λ t. refl)

abbrev views_of : Tables → List PageviewRow
views_of t = t.pageviews

-- One row more, when there is no error.
abbrev pub Grows : List PageviewRow → Result Error (Unit {0}) × Db Tables → Type 0
Grows rows (ok u, d) = length d.tables.pageviews ≡ length rows + 1
Grows rows (err e, d) = Unit

commit-Grows :
    (before : Tables) (rows : List PageviewRow) (r : Result Error (Unit {0}) × Db Tables)
    → Grows rows r
    → Grows rows (commit before r)
commit-Grows before rows (err e, d) h = tt
commit-Grows before rows (ok u, d) h = elim (Bool-cases (next_fails d.faults)) [
  | inl e ↦ rw e tt
  | inr e ↦ rw e h
]

module _ (p : Pageview) (v : Visit) where
  visit_for-Fixes : (new_id found : Option Bytes) → Fixes views_of (visit_for p v new_id found)
  visit_for-Fixes new_id (some id) = Fixes-statement views_of _ (λ t. refl)
  visit_for-Fixes none none = Fixes-refuse views_of no_id
  visit_for-Fixes (some id) none =
      Fixes-constrained views_of (violates_visit (opened id p v))
        (λ t. (id, record t { visits = t.visits ++ opened id p v ∷ [] })) (λ t. refl)

  insert_pageview-Grows :
      (id : Bytes) (d : Db Tables) → Grows d.tables.pageviews (insert_pageview p id d)
  insert_pageview-Grows id d = elim (Bool-cases (next_fails d.faults)) [
    | inl e ↦ rw e tt
    | inr e ↦ rw e (elim (Option-cases (has_no_visit p id d.tables)) [
      | inl c ↦ rw c (length-append d.tables.pageviews (pageview_row p id ∷ []))
      | inr (x, c) ↦ rw c tt
    ])
  ]

  after_visit :
      (rows : List PageviewRow) (r : Result Error Bytes × Db Tables)
      → r.1.tables.pageviews ≡ rows
      → Grows rows (continue (insert_pageview p) r)
  after_visit rows (err e, d) h = tt
  after_visit rows (ok id, d) h =
      subst (λ (x : List PageviewRow). Grows x (insert_pageview p id d)) h
        (insert_pageview-Grows id d)

  pub record_pageview-Grows :
      (new_id : Option Bytes) (d : Db Tables)
      → Grows d.tables.pageviews (record_pageview p v new_id d)
  unfolding record_pageview
  record_pageview-Grows new_id d =
      let rows = d.tables.pageviews in
      elim (next_fails d.faults)
        as (λ b. Grows rows (
          if b
          then (err database, advance d)
          else commit d.tables (
              (query (current_visit p) >>= λ found.
              visit_for p v new_id found >>= insert_pageview p)
                (advance d)))) [
                  | true ↦ tt
                  | false ↦ commit-Grows d.tables rows _ (
                      statement-rule
                        (λ r.
                          Grows rows (
                            continue (λ found. visit_for p v new_id found >>= insert_pageview p) r))
                        (λ t. (current_visit p t, t)) (advance d) tt
                        (after_visit rows
                          (visit_for p v new_id (current_visit p d.tables) (advance (advance d)))
                          ((visit_for-Fixes new_id (current_visit p d.tables)).fixes
                            (advance (advance d)))))
                ]

  pub record_pageview-Unchanged :
      (new_id : Option Bytes) (d : Db Tables) → Unchanged d (record_pageview p v new_id d)
  unfolding record_pageview
  record_pageview-Unchanged new_id d =
      transaction-Unchanged
        (query (current_visit p) >>= λ found. visit_for p v new_id found >>= insert_pageview p) d
