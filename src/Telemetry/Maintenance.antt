-- ===== src/Telemetry/Maintenance.antt =====
-- internal/telemetry/application/maintenance.go: which hours are rolled up, and what may be purged.
-- The instant of an hour is its start; `fails` says for which hours the database reports an error.
use smotryashchiy.Base.{
  ℕ, zero, suc, ◌+◌, ◌-◌, ◌*◌, ◌%◌, ◌^◌, ◌≤◌, ◌≡◌, Bool, true, false, not, List, [], ◌∷◌, Option,
  none, some, arith, ltb, if◌then◌else◌,
}

abbrev pub hour : ℕ
hour = 60 * 60 * 10 ^ 9

abbrev pub reroll_window : ℕ
reroll_window = 24 * hour

-- `Truncate(time.Hour)`
abbrev pub hour_of : ℕ → ℕ
hour_of t = t - t % hour

-- The jobs with their two retention times, what the database says of its raw data, and the marker.
pub record Maintenance : Type 0 where
  pub raw_ttl : ℕ
  pub rollup_ttl : ℕ
  pub earliest : Option ℕ
  pub through : Option ℕ

-- The first hour that `Rollup` aggregates.
unfoldable pub rollup_from : ℕ → Option ℕ → ℕ
rollup_from earliest none = hour_of earliest
rollup_from earliest (some through) =
    if ltb (hour_of earliest) (through - reroll_window)
    then through - reroll_window
    else hour_of earliest

-- The loop over the hours: those that were rolled up, and whether none failed.
unfoldable pub roll_hours : ℕ → (ℕ → Bool) → ℕ → ℕ → List ℕ × Bool
roll_hours zero fails h current = ([], not (ltb h current))
roll_hours (suc fuel) fails h current =
    let (hours, ok) = roll_hours fuel fails (h + hour) current in
    if not (ltb h current) then ([], true) else if fails h then ([], false) else (h ∷ hours, ok)

-- The marker never moves backwards.
abbrev pub mark : Option ℕ → ℕ → Option ℕ
mark none current = some current
mark (some through) current = if not (ltb through current) then some through else some current

-- `Rollup` at `now`.
unfoldable pub rollup : ℕ → (ℕ → Bool) → Maintenance → ℕ → Maintenance × List ℕ × Bool
rollup fuel fails m now =
    let current = hour_of now in
    let marked : Maintenance = record m { through = mark m.through current } in
    elim m.earliest [
      | none ↦ (marked, [], true)
      | some e ↦
          let (hours, ok) = roll_hours fuel fails (rollup_from e m.through) current in
          if ok then (marked, hours, true) else (m, hours, false)
    ]

-- The instant before which `Purge` deletes raw rows; none are deleted before the first rollup.
unfoldable pub raw_cutoff : Maintenance → ℕ → Option ℕ
raw_cutoff m now = elim m.through [
  | none ↦ none
  | some through ↦
      let cutoff = now - m.raw_ttl in
      let safe = through - reroll_window in if ltb safe cutoff then some safe else some cutoff
]

unfoldable pub rollup_cutoff : Maintenance → ℕ → ℕ
rollup_cutoff m now = hour_of (now - m.rollup_ttl)

abbrev pub nth {ℓ} : {A : Type ℓ} → ℕ → List A → Option A
nth k [] = none
nth zero (x ∷ xs) = some x
nth (suc k) (x ∷ xs) = nth k xs

-- With fuel for every hour, a loop that reports no error has rolled up every hour from the first one
-- that begins before the current one, each once and in order, and no other.
pub roll_hours_lem :
    (fuel : ℕ) (fails : ℕ → Bool) (h current k : ℕ)
    → current ≤ h + fuel * hour
    → (roll_hours fuel fails h current).1 ≡ true
    → nth k (roll_hours fuel fails h current).0
      ≡ (if ltb (h + k * hour) current then some (h + k * hour) else none)
unfolding roll_hours
roll_hours_lem zero fails h current k room e = ground arith
roll_hours_lem (suc fuel) fails h current zero room e = ground arith
roll_hours_lem (suc fuel) fails h current (suc k) room e =
    ground (arith, roll_hours_lem fuel fails (h + hour) current k)

-- Without an error of the database, a loop with fuel for every hour reports none.
pub roll_hours-ok :
    (fuel : ℕ) (h current : ℕ)
    → current ≤ h + fuel * hour
    → (roll_hours fuel (λ t. false) h current).1 ≡ true
unfolding roll_hours
roll_hours-ok zero h current room = ground arith
roll_hours-ok (suc fuel) h current room = ground (arith, roll_hours-ok fuel (h + hour) current)
