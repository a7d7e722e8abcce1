-- ===== src/Uptime/Store/Sound.antt =====
-- store.go: what holds of the tables after any calls.
use smotryashchiy.Base.{
  ℕ, ◌-◌, ◌≤◌, ◌≡◌, refl, Bool, true, false, not, ◌&&◌, List, [], ◌∷◌, ◌++◌, Option, none, some,
  arith, Bytes, bytes_eq, bytes_eq_iff, nat_eq, ltb, leb, if◌then◌else◌, is_between, length,
  length-append, length-keep_if-le, keep_if, any, every, Bool-cases, inl, inr, Sublist, done, skip,
  hold, keep_if-Sublist, Sublist-every, Sublist-Apart, Apart, Apart-append, any-append,
  every-append,
}
use smotryashchiy.Sql.{Db, pure, refuse}
use smotryashchiy.Sql.Keeps.{
  Keeps, Keeps-pure, Keeps-refuse, Keeps-statement, Keeps-constrained, Keeps-if, Keeps-bind,
  Keeps-found, Keeps-transaction, keeps_constrained, keeps_on,
}
use smotryashchiy.Uptime.Target.{
  Target, Observation, NewTarget, max_targets, min_interval_seconds, max_interval_seconds,
}
use smotryashchiy.Uptime.Store.{
  ResultRow, Tables, no_id, not_found, same_id, same_name, same_result, is_kind, has_target,
  violates, new_target, target_row, insert_counted, insert_target, create, without, delete,
  result_row, put_result, has_no_target, insert_result, purged, purge_results,
}

abbrev pub is_ranged : Target → Bool
is_ranged t =
    is_kind t.kind && is_between min_interval_seconds max_interval_seconds t.interval_seconds

abbrev pub has_owner : List Target → ResultRow → Bool
has_owner ts r = has_target r.target_id ts

-- At most 50 targets, with their own identifiers and names, of a known kind and with an interval in
-- range; each result is of one of them, and no two are of the same one at the same millisecond.
pub record Sound (t : Tables) : Type 0 where
  pub ids : Apart same_id t.targets
  pub names : Apart same_name t.targets
  pub few : length t.targets ≤ max_targets
  pub ranged : every is_ranged t.targets ≡ true
  pub owned : every (has_owner t.targets) t.results ≡ true
  pub keyed : Apart same_result t.results

same_bytes : (a b : Bytes) → bytes_eq a b ≡ bytes_eq b a
same_bytes a b = ground (arith, bytes_eq_iff a b, bytes_eq_iff b a)

owned_more :
    (ts : List Target) (t : Target) (rs : List ResultRow)
    → every (has_owner ts) rs ≡ true
    → every (has_owner (ts ++ t ∷ [])) rs ≡ true
owned_more ts t [] h = refl
owned_more ts t (r ∷ rs) h =
    ground (
      arith,
      owned_more ts t rs,
      any-append (λ (x : Target). bytes_eq x.id r.target_id) ts (t ∷ []),
    )

insert-Sound :
    (t : Target) (tables : Tables)
    → Sound tables
    → length tables.targets ≤ 49
    → violates t tables ≡ none
    → Sound (record tables { targets = tables.targets ++ t ∷ [] })
insert-Sound t tables s room v = record {
  ids = Apart-append same_id t tables.targets (λ x. same_bytes t.id x.id) (ground arith) s.ids;
  names =
      Apart-append same_name t tables.targets (λ x. same_bytes t.name x.name) (ground arith)
        s.names;
  few = omega (arith, length-append tables.targets (t ∷ []));
  ranged = ground (arith, every-append is_ranged tables.targets (t ∷ []), s.ranged);
  owned = owned_more tables.targets t tables.results s.owned;
  keyed = s.keyed;
}

-- A result of a target that stays keeps its owner.
owned_without :
    (id : Bytes) (ts : List Target) (rs : List ResultRow)
    → every (has_owner ts) rs ≡ true
    → every
        (has_owner (keep_if (λ (x : Target). not (bytes_eq x.id id)) ts))
        (keep_if (λ (r : ResultRow). not (bytes_eq r.target_id id)) rs)
      ≡ true
owned_without id ts [] h = refl
owned_without id ts (r ∷ rs) h = ground (arith, owned_without id ts rs, kept_target r.target_id ts)
  where
    kept_target :
        (other : Bytes) (ts : List Target)
        → has_target other ts ≡ true
        → bytes_eq other id ≡ false
        → has_target other (keep_if (λ (x : Target). not (bytes_eq x.id id)) ts) ≡ true
    kept_target other [] h d = cc
    kept_target other (x ∷ xs) h d = ground (
      arith,
      kept_target other xs,
      bytes_eq_iff x.id other,
      bytes_eq_iff x.id id,
      bytes_eq_iff other id,
    )

without-Sound : (id : Bytes) (t : Tables) → Sound t → Sound (without id t)
without-Sound id t s =
    let fewer = keep_if-Sublist (λ (x : Target). not (bytes_eq x.id id)) t.targets in
    let left = keep_if-Sublist (λ (r : ResultRow). not (bytes_eq r.target_id id)) t.results in
    record {
      ids = Sublist-Apart same_id fewer s.ids;
      names = Sublist-Apart same_name fewer s.names;
      few =
          omega
            (arith, s.few, length-keep_if-le (λ (x : Target). not (bytes_eq x.id id)) t.targets);
      ranged = Sublist-every is_ranged fewer s.ranged;
      owned = owned_without id t.targets t.results s.owned;
      keyed = Sublist-Apart same_result left s.keyed;
    }

put_result-Sound :
    (r : ResultRow) (t : Tables) → Sound t → has_no_target r t ≡ none → Sound (put_result r t)
put_result-Sound r t s v = elim (Bool-cases (any (same_result r) t.results)) [
  | inl e ↦ rw e s
  | inr e ↦ rw e (record {
    ids = s.ids;
    names = s.names;
    few = s.few;
    ranged = s.ranged;
    owned = ground (arith, every-append (has_owner t.targets) t.results (r ∷ []), s.owned);
    keyed = Apart-append same_result r t.results (same_result_sym r) e s.keyed;
  })
]
  where
    same_result_sym : (a b : ResultRow) → same_result a b ≡ same_result b a
    same_result_sym a b = ground (arith, same_bytes a.target_id b.target_id)

pub purged-Sublist : (ms limit : ℕ) (rs : List ResultRow) → Sublist (purged ms limit rs) rs
purged-Sublist ms limit [] = done
purged-Sublist ms limit (r ∷ rs) =
    elim (ltb r.ts ms && ltb 0 limit)
      as (λ b.
        Sublist
          (if b
            then purged ms (if b then limit - 1 else limit) rs
            else r ∷ purged ms (if b then limit - 1 else limit) rs)
          (r ∷ rs)) [
            | true ↦ skip r (purged-Sublist ms (limit - 1) rs)
            | false ↦ hold r (purged-Sublist ms limit rs)
          ]

insert_counted-Sound :
    (t : Target) (d : Db Tables)
    → Sound d.tables
    → Sound (insert_counted t (length d.tables.targets) d).1.tables
insert_counted-Sound t d s = elim (Bool-cases (leb max_targets (length d.tables.targets))) [
  | inl e ↦ rw e s
  | inr e ↦ rw e (
      keeps_on {I = Sound} (λ u. pure t) _ (λ u. Keeps-pure t)
        (keeps_constrained Sound (violates (target_row t))
          (λ (x : Tables). (tt, record x { targets = x.targets ++ target_row t ∷ [] })) d s
          (insert-Sound (target_row t) d.tables s (ground arith))))
]

insert_target-Keeps : (t : Target) → Keeps Sound (insert_target t)
unfolding insert_target
insert_target-Keeps t =
    Keeps-transaction _
      (Keeps-found (λ (x : Tables). length x.targets) (insert_counted t) (insert_counted-Sound t))

pub create-Keeps : (n : NewTarget) (id : Option Bytes) (now : ℕ) → Keeps Sound (create n id now)
unfolding create
create-Keeps n none now = Keeps-refuse no_id
create-Keeps n (some id) now = insert_target-Keeps (new_target id n now)

pub delete-Keeps : (id : Bytes) → Keeps Sound (delete id)
unfolding delete
delete-Keeps id = Keeps-bind _ _ (Keeps-statement _ (without-Sound id)) (λ n.
    Keeps-if (nat_eq n 0) (refuse not_found) (pure tt) (Keeps-refuse not_found) (Keeps-pure tt))

pub insert_result-Keeps : (r : Observation) → Keeps Sound (insert_result r)
unfolding insert_result
insert_result-Keeps r = Keeps-constrained _ _ (put_result-Sound (result_row r))

pub purge_results-Keeps : (before limit : ℕ) → Keeps Sound (purge_results before limit)
unfolding purge_results
purge_results-Keeps before limit = Keeps-statement _ (λ t s. record {
  ids = s.ids;
  names = s.names;
  few = s.few;
  ranged = s.ranged;
  owned = Sublist-every (has_owner t.targets) (purged-Sublist _ limit t.results) s.owned;
  keyed = Sublist-Apart same_result (purged-Sublist _ limit t.results) s.keyed;
})
