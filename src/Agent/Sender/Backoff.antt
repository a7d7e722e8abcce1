-- ===== src/Agent/Sender/Backoff.antt =====
-- sender.go: the wait before a retry.
use Prim.Native.Nat.{min}
use native.Mathlib.Nat.{pow-suc}
use smotryashchiy.Base.{
  ℕ, zero, suc, ◌-◌, ◌*◌, ◌^◌, ◌≤◌, ◌<◌, ◌≡◌, refl, ap, arith, ltb, ltb→lt, true, false, Bool-cases,
  inl, inr, if◌then◌else◌,
}
use smotryashchiy.Agent.Sender.{backoff_min, backoff_max, double, backoff}

pow_pos : (k : ℕ) → 0 < 2 ^ k
pow_pos zero = omega arith
pow_pos (suc k) = omega (arith, pow_pos k, pow-suc 2 k)

capped : (d p : ℕ) → 0 < p → ltb d backoff_max ≡ false → min d backoff_max ≡ min (d * p) backoff_max
capped d p h e =
    let big : backoff_max ≤ d = ground arith in let more : d ≤ d * p = grind arith in omega arith

-- The loop stops at the cap at the latest, and what it would reach without it is the power of two.
double_cap :
    (rounds d : ℕ) → 0 < d → min (double rounds d) backoff_max ≡ min (d * 2 ^ rounds) backoff_max
unfolding double
double_cap zero d h = omega arith
double_cap (suc rounds) d h = elim (Bool-cases (ltb d backoff_max)) [
  | inl e ↦ rw e (
      omega (
        arith,
        double_cap rounds (d * 2) (omega arith),
        pow-suc 2 rounds,
        ap (λ (p : ℕ). d * p) (pow-suc 2 rounds),
      ))
  | inr e ↦ rw e (capped d (2 ^ suc rounds) (pow_pos (suc rounds)) e)
]

at_most : (d m : ℕ) → min d backoff_max ≡ m → (if ltb backoff_max d then backoff_max else d) ≡ m
at_most d m h = elim (Bool-cases (ltb backoff_max d)) [
  | inl e ↦ rw e (omega (arith, ltb→lt _ _ e))
  | inr e ↦ let le : d ≤ backoff_max = ground arith in rw e (omega arith)
]

capped_by :
    (n : ℕ)
    → ltb n 1 ≡ true
    → (if ltb backoff_max (double (1 - 1) backoff_min)
        then backoff_max
        else double (1 - 1) backoff_min)
      ≡ min (backoff_min * 2 ^ (n - 1)) backoff_max
unfolding double
capped_by n e = let z : n ≡ 0 = ground arith in rw z refl

-- Before the spread the wait is a second, doubled for each failure but the first, and at most a minute.
pub backoff_lem :
    (spread : ℕ → ℕ) (n : ℕ)
    → backoff spread n ≡ spread (min (backoff_min * 2 ^ (n - 1)) backoff_max)
unfolding backoff
backoff_lem spread n = ap spread (elim (Bool-cases (ltb n 1)) [
  | inl e ↦ rw e (capped_by n e)
  | inr e ↦
      rw e (at_most (double (n - 1) backoff_min) _ (double_cap (n - 1) backoff_min (omega arith)))
])
