-- ===== src/Operator/Store/Counting.antt =====
-- store.go: how often a command is in what a claim selects.
use smotryashchiy.Base.{
  ℕ, zero, suc, ◌+◌, ◌≤◌, ◌≡◌, refl, Bool, List, [], ◌∷◌, ◌++◌, Option, none, some, map, arith,
  Bytes, bytes_eq, bytes_eq_iff, if◌then◌else◌, keep_if, take,
}
use smotryashchiy.Sql.{place, order_by}
use smotryashchiy.Operator.Command.{Claimed}
use smotryashchiy.Operator.Store.{
  Row, Tables, find_row, is_queued, is_waiting, is_older, claimed_of, select_queued,
}
use smotryashchiy.Operator.Store.Life.{Unique}

-- How often a command is handed out.
abbrev pub times_claimed : Bytes → List Claimed → ℕ
times_claimed id [] = 0
times_claimed id (c ∷ cs) =
    if bytes_eq c.id id then suc (times_claimed id cs) else times_claimed id cs

abbrev times : Bytes → List Row → ℕ
times id [] = 0
times id (r ∷ rs) = if bytes_eq r.id id then suc (times id rs) else times id rs

-- How often a command may still be handed out: once if it is queued or not there yet.
abbrev chance : Option Row → ℕ
chance none = 1
chance (some r) = if is_queued r.status then 1 else 0

abbrev pub chances : Bytes → List Row → ℕ
chances id rows = chance (find_row id rows)

pub times_claimed-append :
    (id : Bytes) (xs ys : List Claimed)
    → times_claimed id (xs ++ ys) ≡ times_claimed id xs + times_claimed id ys
times_claimed-append id [] ys = omega arith
times_claimed-append id (x ∷ xs) ys = ground (arith, times_claimed-append id xs ys)

times-claimed_of :
    (id : Bytes) (rows : List Row) → times_claimed id (map claimed_of rows) ≡ times id rows
times-claimed_of id [] = refl
times-claimed_of id (r ∷ rows) = ground (arith, times-claimed_of id rows)

times-take : (id : Bytes) (n : ℕ) (rows : List Row) → times id (take n rows) ≤ times id rows
times-take id zero rows = omega arith
times-take id (suc n) [] = omega arith
times-take id (suc n) (r ∷ rows) = ground (arith, times-take id n rows)

times-place :
    (id : Bytes) (before : Row → Row → Bool) (r : Row) (rows : List Row)
    → times id (place before r rows) ≡ times id (r ∷ rows)
times-place id before r [] = refl
times-place id before r (x ∷ rows) = ground (arith, times-place id before r rows)

times-order_by :
    (id : Bytes) (before : Row → Row → Bool) (rows : List Row)
    → times id (order_by before rows) ≡ times id rows
times-order_by id before [] = refl
times-order_by id before (r ∷ rows) =
    ground (arith, times-place id before r (order_by before rows), times-order_by id before rows)

times-absent :
    (id : Bytes) (p : Row → Bool) (rows : List Row)
    → find_row id rows ≡ none
    → times id (keep_if p rows) ≡ 0
times-absent id p [] h = refl
times-absent id p (r ∷ rows) h = ground (arith, times-absent id p rows)

-- Only a queued row waits, and the key is not repeated.
times-waiting :
    (id host : Bytes) (rows : List Row)
    → Unique rows
    → times id (keep_if (is_waiting host) rows) ≤ chances id rows
times-waiting id host [] u = omega arith
times-waiting id host (r ∷ rows) u = ground (
  arith,
  times-waiting id host rows u.1,
  times-absent id (is_waiting host) rows,
  bytes_eq_iff r.id id,
)

pub claimed-chances :
    (id host : Bytes) (limit : ℕ) (t : Tables)
    → Unique t.commands
    → times_claimed id (select_queued host limit t) ≤ chances id t.commands
claimed-chances id host limit t u =
    let waiting = keep_if (is_waiting host) t.commands in
    omega (
      arith,
      times-claimed_of id (take limit (order_by is_older waiting)),
      times-take id limit (order_by is_older waiting),
      times-order_by id is_older waiting,
      times-waiting id host t.commands u,
    )

pub unknown_claimed :
    (id host : Bytes) (limit : ℕ) (t : Tables)
    → find_row id t.commands ≡ none
    → times_claimed id (select_queued host limit t) ≡ 0
unknown_claimed id host limit t h =
    let waiting = keep_if (is_waiting host) t.commands in
    omega (
      arith,
      times-claimed_of id (take limit (order_by is_older waiting)),
      times-take id limit (order_by is_older waiting),
      times-order_by id is_older waiting,
      times-absent id (is_waiting host) t.commands h,
    )
