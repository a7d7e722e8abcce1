-- ===== src/RateLimit/Bounds.antt =====
-- ratelimit.go: memory stays bounded, and what `makeRoom` gives up was idle or least recently seen.
use mathlib.Core.List.Perm
use native.Mathlib.Nat.{ℕ_set}
use smotryashchiy.Base.{
  ℕ, ◌+◌, ◌-◌, ◌/◌, ◌≤◌, ◌<◌, ◌≡◌, refl, ◌∙◌, ap, ◌⊎◌, inl, inr, true, List, [], ◌∷◌, Option, none,
  some, map, arith, Bytes, bytes_key, bytes_eq_iff, length, take, length-take, length-map, map-take,
  All, Option-cases,
}
use smotryashchiy.Assoc.{
  is_some, lookup, erase_all, keep, Distinct, insert-Distinct, length-insert, lookup-keep,
  keep-Distinct, length-keep-le,
}
use smotryashchiy.Sorting.{Sorter, IsSorted, count, perm-count, perm-length, count-take-drop}
use smotryashchiy.Eviction.{
  present, count-keys, lookup-erase_all, erase_all-Distinct, length-erase_all, sorted_cut, Agrees,
  IsSorted-map, perm-All,
}
use smotryashchiy.RateLimit.{
  Rate, Entry, Limiter, max_keys, idle_after, is_active, aged, evict, make_room, entry_for, allow,
}

module _ (rate : Rate) where
  abbrev Entries : Type 0
  Entries = List (Bytes × Entry rate)

  -- The age that the sort reads, as a function of the key.
  seen_of : Option (Entry rate) → ℕ
  seen_of none = 0
  seen_of (some e) = e.seen

  age_of : Entries → Bytes → ℕ
  age_of m k = seen_of (lookup k m)

  keys-aged : (m : Entries) → map (λ a. a.0) (aged rate m) ≡ map (λ kv. kv.0) m
  keys-aged [] = refl
  keys-aged (kv ∷ m) = ap (◌∷◌ kv.0) (keys-aged m)

  -- The pairs that are sorted hold the age of their key.
  aged-Agrees :
      (m part : Entries)
      → Distinct part
      → ((k : Bytes) (e : Entry rate) → lookup k part ≡ some e → lookup k m ≡ some e)
      → All (Agrees (age_of m)) (aged rate part)
  unfolding age_of seen_of
  aged-Agrees m [] d h = tt
  aged-Agrees m ((j, w) ∷ part) d h = (
    ground (arith, h j w, bytes_eq_iff j j),
    aged-Agrees m part d.1 (λ k e p. h k e (ground (arith, bytes_eq_iff j k))),
  )

  module _ (sorter : Sorter (Bytes × ℕ)) where
    by_age : Entries → List Bytes
    by_age m = map (λ a. a.0) (sorter.sort (λ a. a.1) (aged rate m))

    count-by_age : (k : Bytes) (m : Entries) → Distinct m → count k (by_age m) ≡ present k m
    unfolding by_age
    count-by_age k m d =
        perm-count k (Perm.map (λ a. a.0) (sorter.sort-perm (λ a. a.1) (aged rate m)))
        ∙ ap (count k) (keys-aged m)
        ∙ count-keys k m d

    length-by_age : (m : Entries) → length (by_age m) ≡ length m
    unfolding by_age
    length-by_age m =
        length-map (λ a. a.0) (sorter.sort (λ a. a.1) (aged rate m))
        ∙ perm-length (sorter.sort-perm (λ a. a.1) (aged rate m))
        ∙ length-map (λ kv. (kv.0, kv.1.seen)) m

    evict_lem : (m : Entries) → evict rate sorter m ≡ erase_all (take (length m / 10) (by_age m)) m
    unfolding evict by_age
    evict_lem m = rw (map-take, length-map)

    -- The keys that are evicted are all there, once each.
    oldest_present :
        (n : ℕ) (m : Entries) (k : Bytes) → Distinct m → count k (take n (by_age m)) ≤ present k m
    oldest_present n m k d = omega (arith, count-take-drop k n (by_age m), count-by_age k m d)

    length-evict :
        (m : Entries) → Distinct m → length (evict rate sorter m) + length m / 10 ≡ length m
    length-evict m d = rw (evict_lem m) (
        omega (
          arith,
          length-erase_all (take (length m / 10) (by_age m)) m d
              (λ j. oldest_present (length m / 10) m j d),
          length-take (length m / 10) (by_age m),
          length-by_age m,
        ))

    evict-Distinct : (m : Entries) → Distinct m → Distinct (evict rate sorter m)
    evict-Distinct m d = rw (evict_lem m) (erase_all-Distinct (take (length m / 10) (by_age m)) m d)

    make_room-Distinct :
        (l : Limiter rate) (now : ℕ)
        → Distinct l.entries
        → Distinct (make_room rate sorter l now).entries
    unfolding make_room
    make_room-Distinct l now d = ground (
      arith,
      keep-Distinct (is_active rate now) l.entries d,
      evict-Distinct (keep (is_active rate now) l.entries),
    )

    by_age-IsSorted : (m : Entries) → Distinct m → IsSorted (age_of m) (by_age m)
    unfolding by_age
    by_age-IsSorted m d =
        IsSorted-map (age_of m) (sorter.sort (λ a. a.1) (aged rate m))
          (perm-All (Agrees (age_of m)) (λ a. ℕ_set _ _) (aged rate m) _
            (Perm.symm (sorter.sort-perm (λ a. a.1) (aged rate m)))
            (aged-Agrees m m d (λ k e h. h)))
          (sorter.sort-IsSorted (λ a. a.1) (aged rate m))

    -- A key that is evicted was seen no later than any key that stays.
    evict-oldest :
        (m : Entries) (i j : Bytes) (e f : Entry rate)
        → Distinct m
        → lookup i m ≡ some e
        → lookup i (evict rate sorter m) ≡ none
        → lookup j (evict rate sorter m) ≡ some f
        → e.seen ≤ f.seen
    unfolding age_of seen_of
    evict-oldest m i j e f d hi gone stays =
        let n = length m / 10 in
        ground (
          arith,
          sorted_cut (age_of m) n i j (by_age m) (by_age-IsSorted m d),
          ap (lookup i) (evict_lem m),
          ap (lookup j) (evict_lem m),
          lookup-erase_all (take n (by_age m)) i m,
          lookup-erase_all (take n (by_age m)) j m,
          count-take-drop j n (by_age m),
          count-by_age j m d,
        )

-- What holds of a limiter between two calls.
pub record Inv (rate : Rate) (l : Limiter rate) : Type 0 where
  pub distinct : Distinct l.entries
  pub bounded : length l.entries ≤ max_keys

module _ (rate : Rate) (sorter : Sorter (Bytes × ℕ)) where
  open rate use {allow_n}

  -- With one entry for a key and at most `max_keys` entries, making room leaves strictly fewer than
  -- `max_keys`, at whatever time.
  make_room-lt :
      (l : Limiter rate) (now : ℕ)
      → Inv rate l
      → length (make_room rate sorter l now).entries < max_keys
  unfolding make_room
  make_room-lt l now v =
      let active = keep (is_active rate now) l.entries in
      ground (
        arith,
        length-evict rate sorter active (keep-Distinct (is_active rate now) l.entries v.distinct),
        length-keep-le (is_active rate now) l.entries,
      )

  entry_for_room :
      (l : Limiter rate) (key : Bytes) (now : ℕ)
      → Inv rate l
      → let l' = (entry_for rate sorter l key now).0 in
        Inv rate l' × ((is_some (lookup key l'.entries) ≡ true) ⊎ (length l'.entries < max_keys))
  unfolding entry_for
  entry_for_room l key now v = elim (Option-cases (lookup key l.entries)) [
    | inl e ↦
        rw (e, entry_for)
          (ground (arith, make_room-lt l now v, make_room-Distinct rate sorter l now v.distinct))
    | inr (a, e) ↦ rw (e, entry_for) (v, inl (rw e))
  ]

  -- Every call keeps one entry for a key, and at most `max_keys` entries.
  pub allow-Inv :
      (l : Limiter rate) (key : Bytes) (now : ℕ)
      → Inv rate l
      → Inv rate (allow rate sorter l key now).0
  unfolding allow
  allow-Inv l key now v =
      let l' = (entry_for rate sorter l key now).0 in
      let e : Entry rate = record {
        limiter = (allow_n (entry_for rate sorter l key now).1.limiter now 1).0;
        seen = now;
      } in
      let (v', room) = entry_for_room l key now v in
      record {
        distinct = insert-Distinct key e l'.entries v'.distinct;
        bounded = ground (arith, length-insert key e l'.entries);
      }

  -- What `makeRoom` gives up was idle for more than ten minutes, or was seen no later than anything
  -- that it keeps.
  pub make_room_fair :
      (l : Limiter rate) (now : ℕ) (i j : Bytes) (e f : Entry rate)
      → Inv rate l
      → lookup i l.entries ≡ some e
      → lookup i (make_room rate sorter l now).entries ≡ none
      → lookup j (make_room rate sorter l now).entries ≡ some f
      → (idle_after < now - e.seen) ⊎ (e.seen ≤ f.seen)
  unfolding make_room
  make_room_fair l now i j e f v hi gone stays =
      let active = keep (is_active rate now) l.entries in
      ground (
        arith,
        lookup-keep (is_active rate now) i l.entries v.distinct,
        evict-oldest rate sorter active i j e f
            (keep-Distinct (is_active rate now) l.entries v.distinct),
      )
