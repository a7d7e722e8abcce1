-- ===== src/Analytics/Service/Purging.antt =====
-- service.go: the loop of `Purge` ends, and what it leaves.
use smotryashchiy.Base.{
  ℕ, zero, suc, ◌+◌, ◌-◌, ◌≤◌, ◌<◌, ◌≡◌, refl, sym, ap, ◌∙◌, Bool, true, false, not, ◌&&◌, List, [],
  ◌∷◌, none, some, arith, bytes_eq, nat_eq, length, keep_if, any, length-keep_if-le,
}
use smotryashchiy.Sql.{Db, Result, ok, err, advance, statement, pure, ◌>>=◌}
use smotryashchiy.Sql.Atomic.{continue, statement-rule}
use smotryashchiy.Analytics.Store.{
  VisitRow, PageviewRow, Tables, Error, Store, purged, is_old_view, is_old_visit, has_its_visit,
  has_visit, purge_views, purge_visits, purge_pageviews, unix_milli,
}
use smotryashchiy.Analytics.Service.{next_purge, purge_loop}

module _ {A : Type 0} where
  length-purged :
      (is_old : A → Bool) (limit : ℕ) (xs : List A) → length (purged is_old limit xs) ≤ length xs
  length-purged is_old limit [] = omega arith
  length-purged is_old limit (x ∷ xs) =
      ground (arith, length-purged is_old limit xs, length-purged is_old (limit - 1) xs)

  -- A batch takes nothing that is kept.
  keep_if-purged :
      (p is_old : A → Bool) (limit : ℕ) (xs : List A)
      → ((x : A) → p x ≡ true → is_old x ≡ false)
      → keep_if p (purged is_old limit xs) ≡ keep_if p xs
  keep_if-purged p is_old limit [] h = refl
  keep_if-purged p is_old limit (x ∷ xs) h =
      ground
        (arith, h x, keep_if-purged p is_old limit xs h, keep_if-purged p is_old (limit - 1) xs h)

  -- A batch with room that takes nothing has found nothing old.
  nothing_old :
      (is_old : A → Bool) (limit : ℕ) (xs : List A)
      → 1 ≤ limit
      → length (purged is_old limit xs) ≡ length xs
      → (purged is_old limit xs ≡ xs) × (keep_if (λ x. not (is_old x)) xs ≡ xs)
  nothing_old is_old limit [] l h = (refl, refl)
  nothing_old is_old limit (x ∷ xs) l h =
      ground (arith, nothing_old is_old limit xs, length-purged is_old (limit - 1) xs)

  keep_if-keep_if :
      (p q : A → Bool) (xs : List A)
      → ((x : A) → p x ≡ true → q x ≡ true)
      → keep_if p (keep_if q xs) ≡ keep_if p xs
  keep_if-keep_if p q [] h = refl
  keep_if-keep_if p q (x ∷ xs) h = ground (arith, h x, keep_if-keep_if p q xs h)

  keep_if-and :
      (p q : A → Bool) (xs : List A) → keep_if (λ x. p x && q x) xs ≡ keep_if q (keep_if p xs)
  keep_if-and p q [] = refl
  keep_if-and p q (x ∷ xs) = ground (arith, keep_if-and p q xs)

  any-keep_if : (p q : A → Bool) (xs : List A) → any p (keep_if q xs) ≡ true → any p xs ≡ true
  any-keep_if p q [] h = h
  any-keep_if p q (x ∷ xs) h = ground (arith, any-keep_if p q xs)

-- What is young enough to stay.
abbrev pub young_view : ℕ → PageviewRow → Bool
young_view ms p = not (is_old_view ms p)

abbrev pub young_visit : ℕ → VisitRow → Bool
young_visit ms v = not (is_old_visit ms v)

abbrev pub young_visits : ℕ → Tables → List VisitRow
young_visits ms t = keep_if (young_visit ms) t.visits

-- The young pageviews whose visit, if they have one, is young.
abbrev pub kept_views : ℕ → Tables → List PageviewRow
kept_views ms t = keep_if (λ p. young_view ms p && has_its_visit (young_visits ms t) p) t.pageviews

-- Two states of the tables with the same rows to stay.
pub record Same (ms : ℕ) (t u : Tables) : Type 0 where
  pub visits : young_visits ms u ≡ young_visits ms t
  pub views : kept_views ms u ≡ kept_views ms t
  pub sites : u.sites ≡ t.sites

Same-trans : {ms : ℕ} {t u v : Tables} → Same ms t u → Same ms u v → Same ms t v
Same-trans a b = record {
  visits = b.visits ∙ a.visits;
  views = b.views ∙ a.views;
  sites = b.sites ∙ a.sites;
}

Same-refl : (ms : ℕ) (t : Tables) → Same ms t t
Same-refl ms t = record { visits = refl; views = refl; sites = refl }

abbrev after_views : ℕ → Tables → Tables
after_views ms t = (purge_views ms 5000 t).1

abbrev after_visits : ℕ → Tables → Tables
after_visits ms t = (purge_visits ms 5000 t).1

after_views-Same : (ms : ℕ) (t : Tables) → Same ms t (after_views ms t)
after_views-Same ms t = record {
  visits = refl;
  views = keep_if-purged _ (is_old_view ms) 5000 t.pageviews (λ p h. ground arith);
  sites = refl;
}

-- A pageview whose visit is among the rows that a test picks has it among all of them.
has_its_visit-keep_if :
    (q : VisitRow → Bool) (vs : List VisitRow) (p : PageviewRow)
    → has_its_visit (keep_if q vs) p ≡ true
    → has_its_visit vs p ≡ true
has_its_visit-keep_if q vs p =
    elim p.visit_id
      as (λ o.
        (let b : Bool = elim o [ none ↦ true | some id ↦ has_visit id (keep_if q vs) ] in b) ≡ true
        → (let b : Bool = elim o [ none ↦ true | some id ↦ has_visit id vs ] in b) ≡ true) [
          | none ↦ λ h. refl
          | some id ↦ λ h. any-keep_if (λ (v : VisitRow). bytes_eq v.id id) q vs h
        ]

after_visits-Same : (ms : ℕ) (t : Tables) → Same ms t (after_visits ms t)
after_visits-Same ms t =
    let rows = purged (is_old_visit ms) 5000 t.visits in
    let same =
      keep_if-purged (young_visit ms) (is_old_visit ms) 5000 t.visits (λ v h. ground arith) in
    record {
      visits = same;
      views =
          keep_if-keep_if _ (has_its_visit rows) t.pageviews
            (λ p h. has_its_visit-keep_if (young_visit ms) rows p (ground arith))
          ∙ ap
              (λ (vs : List VisitRow).
                keep_if (λ p. young_view ms p && has_its_visit vs p) t.pageviews)
              same;
      sites = refl;
    }

-- How the loop ends: at a failing statement, or with nothing old left.
abbrev pub Purges : ℕ → Tables → Result Error Bool × Db Tables → Type 0
Purges ms t (ok false, d) = ⊥
Purges ms t (ok true, d) =
    (d.tables.visits ≡ young_visits ms t)
    × (d.tables.pageviews ≡ kept_views ms t)
    × (d.tables.sites ≡ t.sites)
Purges ms t (err e, d) = Same ms t d.tables

Purges-behind :
    {ms : ℕ} {t u : Tables}
    → Same ms t u
    → (r : Result Error Bool × Db Tables) → Purges ms u r
    → Purges ms t r
Purges-behind s (ok true, d) (v, p, n) = (v ∙ s.visits, p ∙ s.views, n ∙ s.sites)
Purges-behind s (ok false, d) p = p
Purges-behind s (err e, d) p = Same-trans s p

-- The rows that the loop counts.
abbrev rows_of : Tables → ℕ
rows_of t = length t.pageviews + length t.visits

abbrev views_gone : ℕ → Tables → ℕ
views_gone ms t = length t.pageviews - length (after_views ms t).pageviews

abbrev visits_gone : ℕ → Tables → ℕ
visits_gone ms t = length t.visits - length (after_visits ms t).visits

-- A round that deletes nothing has found nothing old.
through :
    (ms : ℕ) (t : Tables)
    → views_gone ms t ≡ 0
    → visits_gone ms (after_views ms t) ≡ 0
    → ((after_visits ms (after_views ms t)).visits ≡ young_visits ms t)
      × ((after_visits ms (after_views ms t)).pageviews ≡ kept_views ms t)
through ms t h k =
    let views =
      nothing_old (is_old_view ms) 5000 t.pageviews (omega arith)
        (ground (arith, length-purged (is_old_view ms) 5000 t.pageviews)) in
    let visits =
      nothing_old (is_old_visit ms) 5000 t.visits (omega arith)
        (ground (arith, length-purged (is_old_visit ms) 5000 t.visits)) in
    let rows = purged (is_old_visit ms) 5000 t.visits in
    let same = visits.0 ∙ sym visits.1 in
    (
      same,
      ap
            (λ (vs : List VisitRow).
              keep_if (has_its_visit vs) (purged (is_old_view ms) 5000 t.pageviews))
            same
          ∙ ap (keep_if (has_its_visit (young_visits ms t))) (views.0 ∙ sym views.1)
          ∙ sym (keep_if-and (young_view ms) (has_its_visit (young_visits ms t)) t.pageviews),
    )

-- A round that deletes something leaves fewer rows.
fewer :
    (ms : ℕ) (t : Tables)
    → nat_eq (views_gone ms t + visits_gone ms (after_views ms t)) 0 ≡ false
    → rows_of (after_visits ms (after_views ms t)) < rows_of t
fewer ms t h = ground (
  arith,
  length-purged (is_old_view ms) 5000 t.pageviews,
  length-purged (is_old_visit ms) 5000 t.visits,
  length-keep_if-le (has_its_visit (purged (is_old_visit ms) 5000 t.visits))
      (purged (is_old_view ms) 5000 t.pageviews),
)

abbrev behind : ℕ → Db Tables → Db Tables
behind ms d = record (advance (advance d)) { tables = after_visits ms (after_views ms d.tables) }

round-Purges :
    (ms : ℕ) (rest : Store Bool) (d : Db Tables) (k : Bool)
    → nat_eq (views_gone ms d.tables + visits_gone ms (after_views ms d.tables)) 0 ≡ k
    → (rows_of (behind ms d).tables < rows_of d.tables
        → Purges ms (behind ms d).tables (rest (behind ms d)))
    → Purges ms d.tables (next_purge k rest (behind ms d))
round-Purges ms rest d true e p =
    let (visits, views) = through ms d.tables (ground arith) (ground arith) in (visits, views, refl)
round-Purges ms rest d false e p =
    Purges-behind
      (Same-trans (after_views-Same ms d.tables) (after_visits-Same ms (after_views ms d.tables)))
      (rest (behind ms d)) (p (fewer ms d.tables e))

-- The loop ends with fuel for one round more than there are pageviews and visits. Then, unless a
-- statement failed, the young visits are left, and of the pageviews the young ones whose visit, if they
-- have one, is young, in their order; a failing statement costs none of these.
pub purge_pageviews_total :
    (fuel before : ℕ) (d : Db Tables)
    → rows_of d.tables < fuel
    → Purges (unix_milli before) d.tables (purge_loop fuel before d)
unfolding purge_loop purge_pageviews
purge_pageviews_total zero before d h = absurd (omega arith)
purge_pageviews_total (suc fuel) before d h =
    let ms = unix_milli before in
    let more : ℕ → Store Bool = λ n. next_purge (nat_eq n 0) (purge_loop fuel before) in
    let d' : Db Tables = record (advance d) { tables = after_views ms d.tables } in
    statement-rule
      (λ r. Purges ms d.tables (
        continue more (
          continue (λ views. statement (purge_visits ms 5000) >>= (λ visits. pure (views + visits)))
            r)))
      (purge_views ms 5000) d (Same-refl ms d.tables)
      (statement-rule
        (λ r.
          Purges ms d.tables
            (continue more (continue (λ visits. pure (views_gone ms d.tables + visits)) r)))
        (purge_visits ms 5000) d' (after_views-Same ms d.tables)
        (round-Purges ms (purge_loop fuel before) d
          (nat_eq (views_gone ms d.tables + visits_gone ms (after_views ms d.tables)) 0) refl
          (λ l. purge_pageviews_total fuel before (behind ms d) (omega arith))))
