-- ===== src/RateLimit/Tests.antt =====
-- Runs of the limiter, and its theorems at concrete inputs. The bucket of the tests gives one token
-- and never refills.
use smotryashchiy.Base.{
  ℕ, ◌-◌, ◌≤◌, ◌<◌, ◌≡◌, refl, ◌⊎◌, Bool, true, false, List, [], ◌∷◌, arith, Bytes, bytes_key,
  codes, length,
}
use smotryashchiy.Sorting.{Sorter, insertion_sorter}
use smotryashchiy.RateLimit.{Rate, Limiter, idle_after, make_room, allow}
use smotryashchiy.RateLimit.Bounds.{make_room_fair}
use smotryashchiy.RateLimit.Isolation.{answers, answers_to, answers_to_lem}

abbrev spend : ℕ → ℕ × Bool
spend n = elim n [ ℕ.zero ↦ (0, false) | ℕ.suc k ↦ (k, true) ]

abbrev one_token : Rate
one_token = record { Bucket = ℕ; new_limiter = λ every burst. burst; allow_n = λ b now n. spend b }

abbrev sorter : Sorter (Bytes × ℕ)
sorter = insertion_sorter

abbrev start : Limiter one_token
start = record { every = 1; burst = 1; entries = [] }

abbrev used : Limiter one_token
used = record start {
  entries =
      (codes "a", record { limiter = 0; seen = 5 })
      ∷ (codes "b", record { limiter = 1; seen = 9 })
      ∷ [];
}

second_refused : (allow one_token sorter used (codes "a") 10).1 ≡ false
unfolding allow
second_refused = refl

idle_dropped : length (make_room one_token sorter used 600_000_000_006).entries ≡ 1
unfolding make_room
idle_dropped = refl

make_room_fair_example : (idle_after < 600_000_000_006 - 5) ⊎ (5 ≤ 9)
unfolding make_room
make_room_fair_example =
    make_room_fair one_token sorter used 600_000_000_006 (codes "a") (codes "b")
      (record { limiter = 0; seen = 5 }) (record { limiter = 1; seen = 9 })
      (record { distinct = (refl, (refl, tt)); bounded = omega arith }) refl refl refl

abbrev events : List (Bytes × ℕ)
events = (codes "a", 1) ∷ (codes "b", 2) ∷ (codes "a", 3) ∷ []

answers_to_lem_example :
    answers_to one_token sorter (codes "a") start events ≡ answers one_token 1 (1 ∷ 3 ∷ [])
answers_to_lem_example = answers_to_lem one_token sorter (codes "a") start events (omega arith)
