-- ===== src/Uptime/Service/Purging.antt =====
-- service.go: the loop of `purge` ends, and leaves no old result.
use smotryashchiy.Base.{
  ℕ, zero, suc, ◌-◌, ◌≤◌, ◌<◌, ◌≡◌, refl, sym, ◌∙◌, Bool, true, false, not, List, [], ◌∷◌, arith,
  ltb, nat_eq, length, keep_if,
}
use smotryashchiy.Sql.{Db, Result, ok, err, advance}
use smotryashchiy.Sql.Atomic.{continue, statement-rule}
use smotryashchiy.Uptime.Store.{ResultRow, Tables, Error, Store, purged, purge_results, unix_milli}
use smotryashchiy.Uptime.Service.{purge_batch, next_purge, purge_loop}

-- What is young enough to stay.
abbrev pub young : ℕ → ResultRow → Bool
young ms r = not (ltb r.ts ms)

length-purged : (ms limit : ℕ) (rs : List ResultRow) → length (purged ms limit rs) ≤ length rs
length-purged ms limit [] = omega arith
length-purged ms limit (r ∷ rs) =
    ground (arith, length-purged ms limit rs, length-purged ms (limit - 1) rs)

-- A batch takes no young result.
young-purged :
    (ms limit : ℕ) (rs : List ResultRow)
    → keep_if (young ms) (purged ms limit rs) ≡ keep_if (young ms) rs
young-purged ms limit [] = refl
young-purged ms limit (r ∷ rs) =
    ground (arith, young-purged ms limit rs, young-purged ms (limit - 1) rs)

-- A batch with room that takes nothing has found nothing old.
nothing_old :
    (ms limit : ℕ) (rs : List ResultRow)
    → 1 ≤ limit
    → length (purged ms limit rs) ≡ length rs
    → (purged ms limit rs ≡ rs) × (keep_if (young ms) rs ≡ rs)
nothing_old ms limit [] l h = (refl, refl)
nothing_old ms limit (r ∷ rs) l h =
    ground (arith, nothing_old ms limit rs, length-purged ms (limit - 1) rs)

-- How the loop ends: at a failing statement, or with every old result gone.
abbrev pub Purges : ℕ → Tables → Result Error Bool × Db Tables → Type 0
Purges before t (ok false, d) = ⊥
Purges before t (ok true, d) =
    (d.tables.results ≡ keep_if (young (unix_milli before)) t.results)
    × (d.tables.targets ≡ t.targets)
Purges before t (err e, d) =
    (keep_if (young (unix_milli before)) d.tables.results
      ≡ keep_if (young (unix_milli before)) t.results)
    × (d.tables.targets ≡ t.targets)

Purges-trans :
    (before : ℕ) (t u : Tables) (r : Result Error Bool × Db Tables)
    → keep_if (young (unix_milli before)) u.results ≡ keep_if (young (unix_milli before)) t.results
    → u.targets ≡ t.targets
    → Purges before u r
    → Purges before t r
Purges-trans before t u (ok true, d) h k p = (p.0 ∙ h, p.1 ∙ k)
Purges-trans before t u (ok false, d) h k p = p
Purges-trans before t u (err e, d) h k p = (p.0 ∙ h, p.1 ∙ k)

-- The rows and the schedule behind a batch.
abbrev after_batch : ℕ → Db Tables → Db Tables
after_batch before d = record (advance d) {
  tables = record d.tables { results = purged (unix_milli before) purge_batch d.tables.results };
}

round-Purges :
    (before : ℕ) (rest : Store Bool) (d : Db Tables) (k : Bool)
    → nat_eq (length d.tables.results - length (after_batch before d).tables.results) 0 ≡ k
    → (length (after_batch before d).tables.results < length d.tables.results
        → Purges before (after_batch before d).tables (rest (after_batch before d)))
    → Purges before d.tables (next_purge k rest (after_batch before d))
round-Purges before rest d true e p =
    let rs = d.tables.results in
    let ms = unix_milli before in
    let found =
      nothing_old ms purge_batch rs (omega arith)
        (ground (arith, length-purged ms purge_batch rs)) in
    (found.0 ∙ sym found.1, refl)
round-Purges before rest d false e p =
    Purges-trans before d.tables (after_batch before d).tables (rest (after_batch before d))
      (young-purged (unix_milli before) purge_batch d.tables.results) refl
      (p (ground (arith, length-purged (unix_milli before) purge_batch d.tables.results)))

-- The loop ends with fuel for one round more than there are results, and then, unless a statement
-- failed, every result before the cutoff is gone and the others are as they were, in their order. A
-- failing statement costs no result that is young enough.
pub purge_total :
    (fuel before : ℕ) (d : Db Tables)
    → length d.tables.results < fuel
    → Purges before d.tables (purge_loop fuel before d)
unfolding purge_loop purge_results
purge_total zero before d h = absurd (omega arith)
purge_total (suc fuel) before d h =
    statement-rule
      (λ r.
        Purges before d.tables (continue (λ n. next_purge (nat_eq n 0) (purge_loop fuel before)) r))
      (λ t. (
        length t.results - length (purged (unix_milli before) purge_batch t.results),
        record t { results = purged (unix_milli before) purge_batch t.results },
      ))
      d (refl, refl)
      (round-Purges before (purge_loop fuel before) d
        (nat_eq (length d.tables.results - length (after_batch before d).tables.results) 0) refl
        (λ l. purge_total fuel before (after_batch before d) (omega arith)))
