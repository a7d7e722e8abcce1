-- ===== src/Telemetry/Enrollment/Addresses.antt =====
-- internal/telemetry/infrastructure/enrollment.go: the next free address of the tunnel's subnet. An
-- address is its number among those of its family.
use smotryashchiy.Base.{
  ℕ, zero, suc, ◌+◌, ◌≤◌, ◌<◌, ◌≡◌, Bool, true, false, not, ◌&&◌, ◌||◌, List, Option, none, some,
  arith, ltb, leb, nat_eq, if◌then◌else◌, any, Bool-cases, inl, inr,
}

-- A `netip.Prefix`: its masked address, its number of addresses, and that of its family.
pub record Subnet : Type 0 where
  pub network : ℕ
  pub size : ℕ
  pub space : ℕ

-- `Contains` and `Next`.
abbrev pub contains : Subnet → ℕ → Bool
contains s ip = leb s.network ip && ltb ip (s.network + s.size)

abbrev pub next : Subnet → ℕ → Option ℕ
next s ip = if ltb (ip + 1) s.space then some (ip + 1) else none

abbrev next_of : Subnet → Option ℕ → Option ℕ
next_of s none = none
next_of s (some ip) = next s ip

abbrev is_inside : Subnet → Option ℕ → Bool
is_inside s none = false
is_inside s (some ip) = contains s ip

abbrev pub is_broadcast : Subnet → ℕ → Bool
is_broadcast s ip = not (is_inside s (next s ip))

abbrev pub is_used : List ℕ → ℕ → Bool
is_used used ip = any (nat_eq ip) used

-- The loop from an address on, on fuel.
abbrev pub search : ℕ → Subnet → List ℕ → Option ℕ → Option ℕ
search fuel s used none = none
search zero s used (some ip) = none
search (suc fuel) s used (some ip) =
    let rest = search fuel s used (next s ip) in
    if not (contains s ip) || is_broadcast s ip
    then none
    else if not (is_used used ip)
    then some ip
    else rest

-- `nextFreeAddr`
unfoldable pub next_free_addr : Subnet → List ℕ → Option ℕ
next_free_addr s used = search s.size s used (next_of s (next s s.network))

-- The first unused address from one on that is not the last of the subnet.
abbrev IsFirst : Subnet → List ℕ → ℕ → Option ℕ → Type 0
IsFirst s used from (some ip) =
    (from ≤ ip)
    × (ip + 1 < s.network + s.size)
    × (is_used used ip ≡ false)
    × ((j : ℕ) → from ≤ j → j < ip → is_used used j ≡ true)
IsFirst s used from none = (j : ℕ) → from ≤ j → j + 1 < s.network + s.size → is_used used j ≡ true

IsFirst-later :
    (s : Subnet) (used : List ℕ) (from : ℕ) (r : Option ℕ)
    → is_used used from ≡ true
    → IsFirst s used (from + 1) r
    → IsFirst s used from r
IsFirst-later s used from (some ip) h (a, b, c, d) = (
  omega arith,
  b,
  c,
  λ j l k. elim (Bool-cases (nat_eq j from)) [
    | inl e ↦ ground (arith, e, h)
    | inr e ↦ d j (ground (arith, e)) k
  ],
)
IsFirst-later s used from none h d = λ j l k. elim (Bool-cases (nat_eq j from)) [
  | inl e ↦ ground (arith, e, h)
  | inr e ↦ d j (ground (arith, e)) k
]

-- What follows an address in the subnet.
next_inside :
    (s : Subnet) (ip : ℕ)
    → s.network + s.size ≤ s.space
    → ip + 1 < s.network + s.size
    → next s ip ≡ some (ip + 1)
next_inside s ip h k = ground arith

is_broadcast-inside :
    (s : Subnet) (ip : ℕ)
    → s.network + s.size ≤ s.space
    → s.network ≤ ip
    → (not (contains s ip) || is_broadcast s ip) ≡ not (ltb (ip + 1) (s.network + s.size))
is_broadcast-inside s ip h k = elim (Bool-cases (ltb (ip + 1) s.space)) [
  | inl e ↦ rw e (ground arith)
  | inr e ↦ rw e (ground arith)
]

search-IsFirst :
    (fuel : ℕ) (s : Subnet) (used : List ℕ) (ip : ℕ)
    → s.network + s.size ≤ s.space
    → s.network ≤ ip
    → s.network + s.size ≤ ip + fuel
    → IsFirst s used ip (search fuel s used (some ip))
search-IsFirst zero s used ip h k l = λ j m n. absurd (omega arith)
search-IsFirst (suc fuel) s used ip h k l = elim (Bool-cases (ltb (ip + 1) (s.network + s.size))) [
  | inr e ↦ rw (is_broadcast-inside s ip h k) (rw e (λ j m n. ground (arith, e)))
  | inl e ↦ rw (is_broadcast-inside s ip h k) (
      rw e (elim (Bool-cases (is_used used ip)) [
        | inr u ↦ rw u (omega arith, ground (arith, e), u, λ j m n. absurd (omega arith))
        | inl u ↦ rw u (
            rw (next_inside s ip h (ground (arith, e))) (
              IsFirst-later s used ip (search fuel s used (some (ip + 1))) u
                (search-IsFirst fuel s used (ip + 1) h (omega arith) (omega arith))))
      ]))
]

abbrev pub NextFree : Subnet → List ℕ → Option ℕ → Type 0
NextFree s used r = IsFirst s used (s.network + 1 + 1) r

-- The address found is the first from the second behind the network's on that no peer has, and is not
-- the broadcast address; none is found exactly if all of these are taken.
pub next_free_addr_lem :
    (s : Subnet) (used : List ℕ)
    → s.network + s.size ≤ s.space
    → NextFree s used (next_free_addr s used)
unfolding next_free_addr
next_free_addr_lem s used h = elim (Bool-cases (ltb (s.network + 1) s.space)) [
  | inr e ↦ rw e (λ j m n. ground (arith, e))
  | inl e ↦ rw e (elim (Bool-cases (ltb (s.network + 1 + 1) s.space)) [
    | inr f ↦ rw f (λ j m n. ground (arith, f))
    | inl f ↦ rw f (search-IsFirst s.size s used (s.network + 1 + 1) h (omega arith) (omega arith))
  ])
]
