-- ===== src/Auth/LoginLimiter/Bounds.antt =====
-- login_limiter.go: one entry for a client, and at most `max_login_clients` of them.
use smotryashchiy.Base.{
  ℕ, ◌+◌, ◌/◌, ◌≤◌, ◌<◌, ◌≡◌, ap, ◌∙◌, ◌⊎◌, none, some, map, arith, Bytes, bytes_key, length, take,
  length-take, length-map, List,
}
use smotryashchiy.Assoc.{
  lookup, erase, erase_all, Distinct, insert-Distinct, erase-Distinct, length-insert, length-erase,
  lookup-keep, keep, keep-Distinct, length-keep-le,
}
use smotryashchiy.Sorting.{Sorter, count, perm-count, perm-length, count-take-drop}
use smotryashchiy.Eviction.{
  present, count-keys, lookup-erase_all, erase_all-Distinct, length-erase_all, sorted_cut,
}
use smotryashchiy.Auth.LoginLimiter.{
  LoginAttempt, Attempts, attempt_or_zero, max_login_clients, is_open, retry_after, evict,
  make_room, counted, failure, success,
}

pub record Inv (m : Attempts) : Type 0 where
  pub distinct : Distinct m
  pub bounded : length m ≤ max_login_clients

module _ (sorter : Sorter Bytes) where
  seen_of : Attempts → Bytes → ℕ
  seen_of m k = (attempt_or_zero (lookup k m)).seen

  by_seen : Attempts → List Bytes
  unfolding seen_of
  by_seen m = sorter.sort (seen_of m) (map (λ kv. kv.0) m)

  count-by_seen : (k : Bytes) (m : Attempts) → Distinct m → count k (by_seen m) ≡ present k m
  unfolding by_seen
  count-by_seen k m d =
      perm-count k (sorter.sort-perm (seen_of m) (map (λ kv. kv.0) m)) ∙ count-keys k m d

  length-by_seen : (m : Attempts) → length (by_seen m) ≡ length m
  unfolding by_seen
  length-by_seen m =
      perm-length (sorter.sort-perm (seen_of m) (map (λ kv. kv.0) m)) ∙ length-map (λ kv. kv.0) m

  evict_lem : (m : Attempts) → evict sorter m ≡ erase_all (take (length m / 10) (by_seen m)) m
  unfolding evict by_seen
  evict_lem m = rw (length-map (λ kv. kv.0) m)

  length-evict : (m : Attempts) → Distinct m → length (evict sorter m) + length m / 10 ≡ length m
  length-evict m d = rw (evict_lem m) (
      omega (
        arith,
        length-erase_all (take (length m / 10) (by_seen m)) m d (λ j.
            omega (arith, count-take-drop j (length m / 10) (by_seen m), count-by_seen j m d)),
        length-take (length m / 10) (by_seen m),
        length-by_seen m,
      ))

  evict-Distinct : (m : Attempts) → Distinct m → Distinct (evict sorter m)
  evict-Distinct m d = rw (evict_lem m) (erase_all-Distinct (take (length m / 10) (by_seen m)) m d)

  evict-oldest :
      (m : Attempts) (i j : Bytes) (a b : LoginAttempt)
      → Distinct m
      → lookup i m ≡ some a
      → lookup i (evict sorter m) ≡ none
      → lookup j (evict sorter m) ≡ some b
      → a.seen ≤ b.seen
  unfolding seen_of by_seen
  evict-oldest m i j a b d hi gone stays =
      let n = length m / 10 in
      ground (
        arith,
        sorted_cut (seen_of m) n i j (by_seen m)
            (sorter.sort-IsSorted (seen_of m) (map (λ kv. kv.0) m)),
        ap (lookup i) (evict_lem m),
        ap (lookup j) (evict_lem m),
        lookup-erase_all (take n (by_seen m)) i m,
        lookup-erase_all (take n (by_seen m)) j m,
        count-take-drop j n (by_seen m),
        count-by_seen j m d,
      )

  make_room-lt :
      (m : Attempts) (now : ℕ) → Inv m → length (make_room sorter m now) < max_login_clients
  unfolding make_room
  make_room-lt m now v =
      let current = keep (is_open now) m in
      ground (
        arith,
        length-evict current (keep-Distinct (is_open now) m v.distinct),
        length-keep-le (is_open now) m,
      )

  make_room-Distinct : (m : Attempts) (now : ℕ) → Distinct m → Distinct (make_room sorter m now)
  unfolding make_room
  make_room-Distinct m now d =
      ground (arith, keep-Distinct (is_open now) m d, evict-Distinct (keep (is_open now) m))

  -- A counted failure keeps one entry for a client, and at most `max_login_clients` entries.
  pub failure-Inv :
      (m : Attempts) (client : Bytes) (now : ℕ) → Inv m → Inv (failure sorter m client now)
  unfolding failure
  failure-Inv m client now v =
      let a = counted (attempt_or_zero (lookup client m)) now in
      let m' = make_room sorter m now in
      let d = make_room-Distinct m now v.distinct in
      ground (
        arith,
        insert-Distinct client a m v.distinct,
        insert-Distinct client a m' d,
        length-insert client a m,
        length-insert client a m',
        make_room-lt m now v,
      )

  -- What `makeRoom` gives up had an expired window, or was seen no later than anything it keeps.
  pub make_room-keeps_newest :
      (m : Attempts) (now : ℕ) (i j : Bytes) (a b : LoginAttempt)
      → Inv m
      → lookup i m ≡ some a
      → lookup i (make_room sorter m now) ≡ none
      → lookup j (make_room sorter m now) ≡ some b
      → (a.reset_at ≤ now) ⊎ (a.seen ≤ b.seen)
  unfolding make_room
  make_room-keeps_newest m now i j a b v hi gone stays =
      let current = keep (is_open now) m in
      ground (
        arith,
        lookup-keep (is_open now) i m v.distinct,
        evict-oldest current i j a b (keep-Distinct (is_open now) m v.distinct),
      )

erase-Inv : (client : Bytes) (m : Attempts) → Inv m → Inv (erase client m)
erase-Inv client m v =
    ground (arith, erase-Distinct client m v.distinct, length-erase client m v.distinct)

-- So do a look at the limit and a success.
pub retry_after-Inv :
    (m : Attempts) (client : Bytes) (now : ℕ) → Inv m → Inv (retry_after m client now).0
unfolding retry_after
retry_after-Inv m client now v = ground (arith, erase-Inv client m v)

pub success-Inv : (m : Attempts) (client : Bytes) → Inv m → Inv (success m client)
unfolding success
success-Inv m client v = erase-Inv client m v
