-- ===== src/RateLimit/Isolation.antt =====
-- ratelimit.go: clients do not spend one another's tokens. Each key is answered as by a bucket of
-- its own, as long as no entry has to make room.
use smotryashchiy.Base.{
  ℕ, ◌+◌, ◌≤◌, ◌<◌, ◌≡◌, refl, inl, inr, Bool, false, List, [], ◌∷◌, Option, none, some, arith,
  Bytes, bytes_key, bytes_eq_iff, bytes_eq, leb, if◌then◌else◌, length, Option-cases,
}
use smotryashchiy.Assoc.{lookup, insert, lookup-insert, length-insert}
use smotryashchiy.Sorting.{Sorter}
use smotryashchiy.RateLimit.{Rate, Entry, Limiter, max_keys, entry_for, allow}

module _ (rate : Rate) where
  open rate use {Bucket, new_limiter, allow_n}

  -- The bucket that a key's next event meets.
  abbrev pub limiter_of : Limiter rate → Option (Entry rate) → Bucket
  limiter_of l none = new_limiter l.every l.burst
  limiter_of l (some e) = e.limiter

  abbrev pub bucket_of : Limiter rate → Bytes → Bucket
  bucket_of l key = limiter_of l (lookup key l.entries)

  -- One bucket that answers at each of the times.
  abbrev pub answers : Bucket → List ℕ → List Bool
  answers b [] = []
  answers b (t ∷ ts) = (allow_n b t 1).1 ∷ answers (allow_n b t 1).0 ts

  abbrev pub times_of : Bytes → List (Bytes × ℕ) → List ℕ
  times_of key [] = []
  times_of key ((k, t) ∷ es) = if bytes_eq k key then t ∷ times_of key es else times_of key es

  full_false :
      (l : Limiter rate) → length l.entries < max_keys → leb max_keys (length l.entries) ≡ false
  full_false l h = ground arith

  module _ (sorter : Sorter (Bytes × ℕ)) where
    -- The answers that the calls of one key get among all calls.
    abbrev pub answers_to : Bytes → Limiter rate → List (Bytes × ℕ) → List Bool
    answers_to key l [] = []
    answers_to key l ((k, t) ∷ es) =
        let (l', answer) = allow rate sorter l k t in
        let rest = answers_to key l' es in if bytes_eq k key then answer ∷ rest else rest

    -- A call that need not make room: the key's bucket answers, and only its entry changes.
    allow_room :
        (l : Limiter rate) (k : Bytes) (t : ℕ)
        → length l.entries < max_keys
        → let (bucket, answer) = allow_n (bucket_of l k) t 1 in
          let e : Entry rate = record { limiter = bucket; seen = t } in
          allow rate sorter l k t ≡ (record l { entries = insert k e l.entries }, answer)
    unfolding allow
    allow_room l k t h = elim (Option-cases (lookup k l.entries)) [
      | inl e ↦ rw (e, allow, entry_for, limiter_of) (rw (full_false l h))
      | inr (a, e) ↦ rw (e, allow, entry_for, limiter_of)
    ]

    -- While there is room, the answers to a key are those of one bucket that sees the times of this
    -- key alone, whatever the other keys do in between.
    pub answers_to_lem :
        (key : Bytes) (l : Limiter rate) (es : List (Bytes × ℕ))
        → length l.entries + length es ≤ max_keys
        → answers_to key l es ≡ answers (bucket_of l key) (times_of key es)
    answers_to_lem key l [] h = refl
    answers_to_lem key l ((k, t) ∷ es) h =
        let e : Entry rate = record { limiter = (allow_n (bucket_of l k) t 1).0; seen = t } in
        let l' : Limiter rate = record l { entries = insert k e l.entries } in
        let fits : length l'.entries + length es ≤ max_keys =
          ground (arith, length-insert k e l.entries) in
        rw (allow_room l k t (omega arith)) (
          rw (answers_to_lem key l' es fits)
            (ground (arith, lookup-insert k key e l.entries, bytes_eq_iff k key)))
