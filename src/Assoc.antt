-- ===== src/Assoc.antt =====
-- A Go map as an association list. The order of the list is the order of an iteration, which Go
-- leaves open: what is proved of every list holds of every order.
use smotryashchiy.Base.{
  suc, ◌+◌, ◌≤◌, ◌≡◌, refl, ◌≢◌, Bool, true, false, List, [], ◌∷◌, Option, none, some, arith, Key,
  ◌==◌, if◌then◌else◌, length,
}

-- One mark for a key that is present.
abbrev pub is_some {ℓ} : {A : Type ℓ} → Option A → Bool
is_some none = false
is_some (some a) = true

module _ {ℓ κ} {K : Type ℓ} {V : Type κ} ⦃e : Key K⦄ where
  abbrev pub lookup : K → List (K × V) → Option V
  lookup k [] = none
  lookup k ((j, v) ∷ m) = if j == k then some v else lookup k m

  abbrev pub insert : K → V → List (K × V) → List (K × V)
  insert k v [] = (k, v) ∷ []
  insert k v ((j, w) ∷ m) = if j == k then (k, v) ∷ m else (j, w) ∷ insert k v m

  abbrev pub erase : K → List (K × V) → List (K × V)
  erase k [] = []
  erase k ((j, w) ∷ m) = if j == k then erase k m else (j, w) ∷ erase k m

  abbrev pub erase_all : List K → List (K × V) → List (K × V)
  erase_all [] m = m
  erase_all (k ∷ ks) m = erase_all ks (erase k m)

  -- Every key stands in the list once.
  abbrev pub Distinct : List (K × V) → Type κ
  Distinct [] = Unit
  Distinct ((j, w) ∷ m) = (lookup j m ≡ none) × Distinct m

  pub lookup-insert :
      (k j : K) (v : V) (m : List (K × V))
      → lookup j (insert k v m) ≡ (if k == j then some v else lookup j m)
  lookup-insert k j v [] = refl
  lookup-insert k j v ((i, w) ∷ m) =
      ground (arith, e.beq_iff k j, e.beq_iff i k, e.beq_iff i j, lookup-insert k j v m)

  pub lookup-erase :
      (k j : K) (m : List (K × V)) → lookup j (erase k m) ≡ (if k == j then none else lookup j m)
  lookup-erase k j [] = ground arith
  lookup-erase k j ((i, w) ∷ m) =
      ground (arith, e.beq_iff k j, e.beq_iff i k, e.beq_iff i j, lookup-erase k j m)

  pub lookup-insert_self : (k : K) (v : V) (m : List (K × V)) → lookup k (insert k v m) ≡ some v
  lookup-insert_self k v m = ground (arith, lookup-insert k k v m, e.beq_iff k k)

  pub lookup-insert_ne :
      (k j : K) (v : V) (m : List (K × V)) → k ≢ j → lookup j (insert k v m) ≡ lookup j m
  lookup-insert_ne k j v m h = ground (arith, lookup-insert k j v m, e.beq_iff k j)

  pub lookup-erase_self : (k : K) (m : List (K × V)) → lookup k (erase k m) ≡ none
  lookup-erase_self k m = ground (arith, lookup-erase k k m, e.beq_iff k k)

  pub lookup-erase_ne : (k j : K) (m : List (K × V)) → k ≢ j → lookup j (erase k m) ≡ lookup j m
  lookup-erase_ne k j m h = ground (arith, lookup-erase k j m, e.beq_iff k j)

  pub erase-of_none : (k : K) (m : List (K × V)) → lookup k m ≡ none → erase k m ≡ m
  erase-of_none k [] h = refl
  erase-of_none k ((i, w) ∷ m) h = ground (arith, erase-of_none k m)

  pub erase-Distinct : (k : K) (m : List (K × V)) → Distinct m → Distinct (erase k m)
  erase-Distinct k [] d = tt
  erase-Distinct k ((i, w) ∷ m) d =
      ground (arith, erase-Distinct k m d.1, lookup-erase k i m, e.beq_iff k i)

  pub insert-Distinct : (k : K) (v : V) (m : List (K × V)) → Distinct m → Distinct (insert k v m)
  insert-Distinct k v [] d = ground arith
  insert-Distinct k v ((i, w) ∷ m) d =
      ground (arith, insert-Distinct k v m d.1, lookup-insert k i v m, e.beq_iff k i, e.beq_iff i k)

  pub length-insert :
      (k : K) (v : V) (m : List (K × V))
      → length (insert k v m) ≡ (if is_some (lookup k m) then length m else length m + 1)
  length-insert k v [] = refl
  length-insert k v ((i, w) ∷ m) = ground (arith, length-insert k v m)

  pub length-erase :
      (k : K) (m : List (K × V))
      → Distinct m
      → length m ≡ (if is_some (lookup k m) then suc (length (erase k m)) else length (erase k m))
  length-erase k [] d = refl
  length-erase k ((i, w) ∷ m) d =
      ground (arith, length-erase k m d.1, e.beq_iff i k, erase-of_none k m)

-- What a lookup finds after a sweep.
abbrev pub kept {κ} : {V : Type κ} → (V → Bool) → Option V → Option V
kept p none = none
kept p (some w) = if p w then some w else none

module _ {ℓ κ} {K : Type ℓ} {V : Type κ} (p : V → Bool) where
  -- `for k, v := range m { if !p(v) { delete(m, k) } }`
  abbrev pub keep : List (K × V) → List (K × V)
  keep [] = []
  keep ((j, w) ∷ m) = if p w then (j, w) ∷ keep m else keep m

  pub length-keep-le : (m : List (K × V)) → length (keep m) ≤ length m
  length-keep-le [] = omega arith
  length-keep-le ((i, w) ∷ m) = ground (arith, length-keep-le m)

module _ {ℓ κ} {K : Type ℓ} {V : Type κ} ⦃e : Key K⦄ (p : V → Bool) where
  pub lookup-keep :
      (k : K) (m : List (K × V)) → Distinct m → lookup k (keep p m) ≡ kept p (lookup k m)
  lookup-keep k [] d = refl
  lookup-keep k ((i, w) ∷ m) d =
      ground (arith, lookup-keep k m d.1, lookup-keep i m d.1, e.beq_iff i k)

  pub keep-Distinct : (m : List (K × V)) → Distinct m → Distinct (keep p m)
  keep-Distinct [] d = tt
  keep-Distinct ((i, w) ∷ m) d = ground (arith, keep-Distinct m d.1, lookup-keep i m d.1)
