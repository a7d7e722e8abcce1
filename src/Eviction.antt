-- ===== src/Eviction.antt =====
-- Making room in a map: the keys of the least recent part of a sorted list are deleted.
use mathlib.Core.HLevel.{×_prop}
use mathlib.Core.List.{Perm, Permᴰ}
use mathlib.Core.Logic.{∥∥₁_elim}
use mathlib.Core.Path.{subst}
use smotryashchiy.Base.{
  ℕ, zero, suc, ◌+◌, ◌≤◌, ◌<◌, ◌≡◌, refl, List, [], ◌∷◌, none, map, arith, Key, ltb, if◌then◌else◌,
  length, take, drop, All,
}
use smotryashchiy.Assoc.{
  is_some, lookup, erase, erase_all, Distinct, lookup-erase, erase-Distinct, length-erase,
}
use smotryashchiy.Sorting.{IsSorted, AtLeast, count}

module _ {ℓ κ} {K : Type ℓ} {V : Type κ} ⦃e : Key K⦄ where
  abbrev pub present : K → List (K × V) → ℕ
  present k m = if is_some (lookup k m) then 1 else 0

  pub count-keys :
      (k : K) (m : List (K × V)) → Distinct m → count k (map (λ kv. kv.0) m) ≡ present k m
  count-keys k [] d = refl
  count-keys k ((j, v) ∷ m) d = ground (arith, count-keys k m d.1, e.beq_iff j k)

  pub lookup-erase_all :
      (ks : List K) (j : K) (m : List (K × V))
      → lookup j (erase_all ks m) ≡ (if ltb 0 (count j ks) then none else lookup j m)
  lookup-erase_all [] j m = ground arith
  lookup-erase_all (k ∷ ks) j m =
      ground (arith, lookup-erase_all ks j (erase k m), lookup-erase k j m)

  pub erase_all-Distinct : (ks : List K) (m : List (K × V)) → Distinct m → Distinct (erase_all ks m)
  erase_all-Distinct [] m d = d
  erase_all-Distinct (k ∷ ks) m d = erase_all-Distinct ks (erase k m) (erase-Distinct k m d)

  present-erase :
      (k : K) (ks : List K) (m : List (K × V)) (j : K)
      → count j (k ∷ ks) ≤ present j m
      → count j ks ≤ present j (erase k m)
  present-erase k ks m j h = ground (arith, lookup-erase k j m)

  -- Every one of the keys is deleted, and each deletion makes the map smaller by one.
  pub length-erase_all :
      (ks : List K) (m : List (K × V))
      → Distinct m
      → ((j : K) → count j ks ≤ present j m)
      → length (erase_all ks m) + length ks ≡ length m
  length-erase_all [] m d h = omega arith
  length-erase_all (k ∷ ks) m d h = ground (
    arith,
    length-erase_all ks (erase k m) (erase-Distinct k m d) (λ j. present-erase k ks m j (h j)),
    length-erase k m d,
    h k,
    e.beq_iff k k,
  )

module _ {ℓ} {K : Type ℓ} ⦃e : Key K⦄ (age : K → ℕ) where
  AtLeast-count : (n : ℕ) (b : K) (xs : List K) → AtLeast age n xs → 0 < count b xs → n ≤ age b
  AtLeast-count n b [] s h = elim h [ ]
  AtLeast-count n b (x ∷ xs) s h = ground (arith, AtLeast-count n b xs s.1, e.beq_iff x b)

  AtLeast-drop : (n i : ℕ) (xs : List K) → AtLeast age n xs → AtLeast age n (drop i xs)
  AtLeast-drop n zero xs s = s
  AtLeast-drop n (suc i) [] s = s
  AtLeast-drop n (suc i) (x ∷ xs) s = AtLeast-drop n i xs s.1

  -- What stands in front of the cut is at most as old as what stands behind it.
  pub sorted_cut :
      (n : ℕ) (a b : K) (xs : List K)
      → IsSorted age xs
      → 0 < count a (take n xs)
      → 0 < count b (drop n xs)
      → age a ≤ age b
  sorted_cut zero a b xs s ha hb = absurd (omega arith)
  sorted_cut (suc n) a b [] s ha hb = absurd (omega arith)
  sorted_cut (suc n) a b (x ∷ xs) s ha hb = ground (
    arith,
    sorted_cut n a b xs s.1,
    AtLeast-count (age x) b (drop n xs) (AtLeast-drop (age x) n xs s.0) hb,
    e.beq_iff x a,
  )

-- Sorted pairs of a key and its age, seen as sorted keys.
module _ {ℓ} {K : Type ℓ} (age : K → ℕ) where
  abbrev pub Agrees : K × ℕ → Type 0
  Agrees a = age a.0 ≡ a.1

  AtLeast-map :
      (n : ℕ) (xs : List (K × ℕ))
      → All Agrees xs
      → AtLeast (λ (a : K × ℕ). a.1) n xs
      → AtLeast age n (map (λ a. a.0) xs)
  AtLeast-map n [] h s = tt
  AtLeast-map n (x ∷ xs) h s = (omega (arith, h.0, s.0), AtLeast-map n xs h.1 s.1)

  pub IsSorted-map :
      (xs : List (K × ℕ))
      → All Agrees xs
      → IsSorted (λ (a : K × ℕ). a.1) xs
      → IsSorted age (map (λ a. a.0) xs)
  IsSorted-map [] h s = tt
  IsSorted-map (x ∷ xs) h s = (rw h.0 (AtLeast-map x.1 xs h.1 s.0), IsSorted-map xs h.1 s.1)

module _ {ℓ κ} {A : Type ℓ} (P : A → Type κ) (P_prop : (a : A) → IsProp (P a)) where
  All-prop : (xs : List A) → IsProp (All P xs)
  All-prop [] = hlevel
  All-prop (x ∷ xs) = ×_prop (P_prop x) (All-prop xs)

  permᴰ-All : {xs ys : List A} → Permᴰ xs ys → All P xs → All P ys
  permᴰ-All Permᴰ.nil h = h
  permᴰ-All (Permᴰ.cons p r) h = (subst P p h.0, permᴰ-All r h.1)
  permᴰ-All (Permᴰ.swap p q) h = (subst P q h.1.0, (subst P p h.0, h.1.1))
  permᴰ-All (Permᴰ.trans r s) h = permᴰ-All s (permᴰ-All r h)

  pub perm-All : (xs ys : List A) → Perm xs ys → All P xs → All P ys
  perm-All xs ys p h = ∥∥₁_elim p (All-prop ys) (λ r. permᴰ-All r h)
