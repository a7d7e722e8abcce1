-- ===== src/Analytics/Service/Clean.antt =====
-- service.go and store.go: which stored paths and campaign values are clean.
use smotryashchiy.Base.{
  ℕ, ◌≡◌, refl, Bool, true, not, ◌&&◌, ◌||◌, List, [], ◌∷◌, ◌++◌, Option, none, some, map, arith,
  Bytes, bytes_eq, nat_eq, leb, ltb, if◌then◌else◌, is_empty, length, every, every-append,
  Bool-cases, inl, inr,
}
use smotryashchiy.Sql.{query, exec}
use smotryashchiy.Sql.Keeps.{
  Keeps, Keeps-pure, Keeps-refuse, Keeps-statement, Keeps-query, Keeps-constrained, Keeps-bind,
  Keeps-transaction,
}
use smotryashchiy.Analytics.Beacon.{
  Utm, Pageview, Library, max_utm_bytes, invalid_utm, is_utm_char, checked_utm, utm_value,
  normalize_utm,
}
use smotryashchiy.Analytics.Store.{
  Visit, VisitRow, PageviewRow, Tables, Error, no_id, no_salt, list_sites, current_visit, opened,
  violates_visit, with_view, or_refuse, visit_for, pageview_row, has_no_visit, record_pageview,
  put_salt, store_salt, daily_salt_base,
}
use smotryashchiy.Analytics.Service.{before_query, or_root, path_only}

abbrev pub is_path_char : ℕ → Bool
is_path_char c = not (nat_eq c b'?' || nat_eq c b'#')

-- A path without a query and a fragment.
abbrev pub is_path : Bytes → Bool
is_path p = every is_path_char p

-- Nothing, the mark of a refused value, or at most 100 of the letters, digits and signs allowed.
abbrev pub is_label : Bytes → Bool
is_label v =
    is_empty v || bytes_eq v invalid_utm || (leb (length v) max_utm_bytes && every is_utm_char v)

abbrev pub are_labels : Utm → Bool
are_labels u =
    is_label u.source
    && is_label u.medium
    && is_label u.campaign
    && is_label u.content
    && is_label u.term

abbrev pub is_clean_view : PageviewRow → Bool
is_clean_view p = is_path p.view.path

abbrev pub is_clean_visit : VisitRow → Bool
is_clean_visit v = is_path v.entry_path && is_path v.exit_path && are_labels v.visit.utm

-- The stored paths carry no query and no fragment, and the campaign values no free text.
pub record Private (t : Tables) : Type 0 where
  pub views : every is_clean_view t.pageviews ≡ true
  pub visits : every is_clean_visit t.visits ≡ true

before_query-is_path : (u : Bytes) → is_path (before_query u) ≡ true
before_query-is_path [] = refl
before_query-is_path (c ∷ u) = ground (arith, before_query-is_path u)

or_root-is_path : (p : Bytes) → is_path p ≡ true → is_path (or_root p) ≡ true
or_root-is_path [] h = refl
or_root-is_path (c ∷ p) h = h

pub path_only-is_path : (u : Bytes) → is_path (path_only u) ≡ true
unfolding path_only
path_only-is_path u = or_root-is_path (before_query u) (before_query-is_path u)

checked_utm-is_label : (v : Bytes) → is_label (checked_utm v) ≡ true
checked_utm-is_label v = elim (Bool-cases (is_empty v)) [
  | inl e ↦ rw e refl
  | inr e ↦ elim (Bool-cases (ltb max_utm_bytes (length v))) [
    | inl f ↦ rw e (rw f refl)
    | inr f ↦ elim (Bool-cases (every is_utm_char v)) [
      | inl g ↦ rw e (rw f (rw g (ground arith)))
      | inr g ↦ rw e (rw f (rw g refl))
    ]
  ]
]

all_labels :
    (a b c d e : Bytes)
    → is_label a ≡ true
    → is_label b ≡ true
    → is_label c ≡ true
    → is_label d ≡ true
    → is_label e ≡ true
    → (is_label a && is_label b && is_label c && is_label d && is_label e) ≡ true
all_labels a b c d e ha hb hc hd he = rw ha (rw hb (rw hc (rw hd he)))

pub normalize_utm-are_labels : (lib : Library) (u : Utm) → are_labels (normalize_utm lib u) ≡ true
unfolding utm_value
normalize_utm-are_labels lib u =
    let label : Bytes → Bytes = λ v. checked_utm (lib.to_lower (lib.trim_space v)) in
    let h : (v : Bytes) → is_label (label v) ≡ true =
      λ v. checked_utm-is_label (lib.to_lower (lib.trim_space v)) in
    all_labels (label u.source) (label u.medium) (label u.campaign) (label u.content) (label u.term)
      (h u.source) (h u.medium) (h u.campaign) (h u.content) (h u.term)

continued_clean :
    (p : Pageview) (id : Bytes) (vs : List VisitRow)
    → is_path p.path ≡ true
    → every is_clean_visit vs ≡ true
    → every is_clean_visit
        (map (λ (v : VisitRow). if bytes_eq v.id id then with_view p v else v) vs)
      ≡ true
continued_clean p id [] c h = refl
continued_clean p id (v ∷ vs) c h = elim (Bool-cases (bytes_eq v.id id)) [
  | inl e ↦ rw e (ground (arith, continued_clean p id vs c))
  | inr e ↦ rw e (ground (arith, continued_clean p id vs c))
]

module _ (p : Pageview) (v : Visit) (is_clean : is_path p.path ≡ true)
    (labels : are_labels v.utm ≡ true) where
  opened_clean :
      (id : Bytes) (vs : List VisitRow)
      → every is_clean_visit vs ≡ true
      → every is_clean_visit (vs ++ opened id p v ∷ []) ≡ true
  opened_clean id vs h =
      rw (every-append is_clean_visit vs (opened id p v ∷ [])) (rw h (rw is_clean (rw labels refl)))

  visit_for-Keeps : (new_id found : Option Bytes) → Keeps Private (visit_for p v new_id found)
  visit_for-Keeps new_id (some id) =
      Keeps-statement _ (λ t h. record {
        views = h.views;
        visits = continued_clean p id t.visits is_clean h.visits;
      })
  visit_for-Keeps none none = Keeps-refuse no_id
  visit_for-Keeps (some id) none =
      Keeps-constrained (violates_visit (opened id p v))
        (λ t. (id, record t { visits = t.visits ++ opened id p v ∷ [] }))
        (λ t h c. record { views = h.views; visits = opened_clean id t.visits h.visits })

  pub record_pageview-Keeps : (new_id : Option Bytes) → Keeps Private (record_pageview p v new_id)
  unfolding record_pageview
  record_pageview-Keeps new_id = Keeps-transaction _ (
      Keeps-bind (query (current_visit p)) _ (Keeps-query (current_visit p)) (λ found.
        Keeps-bind (visit_for p v new_id found) _ (visit_for-Keeps new_id found) (λ id.
          Keeps-constrained (has_no_visit p id)
            (λ t. (tt, record t { pageviews = t.pageviews ++ pageview_row p id ∷ [] }))
            (λ t h c. record {
              views =
                  rw (every-append is_clean_view t.pageviews (pageview_row p id ∷ []))
                    (rw h.views (rw is_clean refl));
              visits = h.visits;
            }))))

-- The salt is another table.
or_refuse-Keeps : {A : Type 0} (o : Option A) (e : Error) → Keeps Private (or_refuse o e)
or_refuse-Keeps none e = Keeps-refuse e
or_refuse-Keeps (some a) e = Keeps-pure a

store_salt-Keeps : (secret found : Option Bytes) → Keeps Private (store_salt secret found)
store_salt-Keeps secret (some old) = Keeps-pure old
store_salt-Keeps secret none =
    Keeps-bind (or_refuse secret no_id) _ (or_refuse-Keeps secret no_id) (λ s.
      Keeps-bind (exec (put_salt s)) _
        (Keeps-statement (λ t. (tt, put_salt s t))
          (λ t h. record { views = h.views; visits = h.visits }))
        (λ u.
          Keeps-bind (query (λ t. t.salt)) _ (Keeps-query (λ t. t.salt))
            (λ now. or_refuse-Keeps now no_salt)))

pub daily_salt_base-Keeps : (secret : Option Bytes) → Keeps Private (daily_salt_base secret)
unfolding daily_salt_base
daily_salt_base-Keeps secret =
    Keeps-bind (query (λ t. t.salt)) _ (Keeps-query (λ t. t.salt)) (store_salt-Keeps secret)

pub list_sites-Keeps : Keeps Private list_sites
unfolding list_sites
list_sites-Keeps = Keeps-query _
