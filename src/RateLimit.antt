-- ===== src/RateLimit.antt =====
-- internal/platform/ratelimit/ratelimit.go: the keyed token-bucket limiter.
-- Times are nanoseconds since Go's zero time. The bucket is golang.org/x/time/rate's and a parameter.
pub mod Bounds
pub mod Isolation
mod Tests
use smotryashchiy.Base.{
  ℕ, ◌+◌, ◌-◌, ◌*◌, ◌/◌, ◌^◌, Bool, true, false, not, List, [], ◌∷◌, Option, none, some, map, Bytes,
  bytes_key, ltb, leb, if◌then◌else◌, length, take,
}
use smotryashchiy.Assoc.{is_some, lookup, insert, erase_all, keep}
use smotryashchiy.Sorting.{Sorter}

-- golang.org/x/time/rate: `NewLimiter(Every(every), burst)` and `AllowN(now, 1)`.
pub record Rate : Type 1 where
  pub Bucket : Type 0
  pub new_limiter : ℕ → ℕ → Bucket
  pub allow_n : Bucket → ℕ → ℕ → Bucket × Bool

abbrev pub max_keys : ℕ
max_keys = 10000

-- ten minutes
abbrev pub idle_after : ℕ
idle_after = 10 * 60 * 10 ^ 9

abbrev pub evict_fraction : ℕ
evict_fraction = 10

module _ (rate : Rate) where
  open rate use {Bucket, new_limiter, allow_n}

  pub record Entry : Type 0 where
    pub limiter : Bucket
    pub seen : ℕ

  pub record Limiter : Type 0 where
    pub every : ℕ
    pub burst : ℕ
    pub entries : List (Bytes × Entry)

  unfoldable pub new : ℕ → ℕ → Limiter
  new every burst = record { every = every; burst = burst; entries = [] }

  -- The sweep of `makeRoom` over the idle entries.
  abbrev pub is_active : ℕ → Entry → Bool
  is_active now e = not (ltb idle_after (now - e.seen))

  abbrev pub aged : List (Bytes × Entry) → List (Bytes × ℕ)
  aged = map (λ kv. (kv.0, kv.1.seen))

module _ (rate : Rate) (sorter : Sorter (Bytes × ℕ)) where
  open rate use {Bucket, new_limiter, allow_n}

  -- The second half of `makeRoom`.
  unfoldable pub evict : List (Bytes × Entry rate) → List (Bytes × Entry rate)
  evict m =
      let all = aged rate m in
      let oldest = take (length all / evict_fraction) (sorter.sort (λ a. a.1) all) in
      erase_all (map (λ a. a.0) oldest) m

  unfoldable pub make_room : Limiter rate → ℕ → Limiter rate
  unfolding evict
  make_room l now =
      let active = keep (is_active rate now) l.entries in
      if ltb (length active) max_keys
      then record l { entries = active }
      else record l { entries = evict active }

  -- The entry of the key, made when it is not there.
  unfoldable pub entry_for : Limiter rate → Bytes → ℕ → Limiter rate × Entry rate
  unfolding make_room
  entry_for l key now = elim (lookup key l.entries) [
    | some e ↦ (l, e)
    | none ↦ (
      if leb max_keys (length l.entries) then make_room l now else l,
      record { limiter = new_limiter l.every l.burst; seen = 0 },
    )
  ]

  unfoldable pub allow : Limiter rate → Bytes → ℕ → Limiter rate × Bool
  unfolding entry_for
  allow l key now =
      let (l', e) = entry_for l key now in
      let (bucket, answer) = allow_n e.limiter now 1 in
      (
        record l' { entries = insert key (record { limiter = bucket; seen = now }) l'.entries },
        answer,
      )
