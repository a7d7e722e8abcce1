-- ===== src/Sorting.antt =====
-- `slices.SortFunc` and `sort.Slice` of Go's library: what they promise, with the order of ties
-- left open, and an insertion sort that keeps the promise.
use mathlib.Core.List.{Perm, Permᴰ}
use mathlib.Core.List.Perm
use mathlib.Core.Logic.{∥∥₁_elim}
use native.Mathlib.Nat.{ℕ_set}
use smotryashchiy.Base.{
  ℕ, zero, suc, ◌+◌, ◌≤◌, ◌≡◌, refl, ap, ◌∙◌, List, [], ◌∷◌, arith, Key, ◌==◌, leb, if◌then◌else◌,
  take, drop, length, Bool-cases, inl, inr,
}

module _ {ℓ} {A : Type ℓ} (age : A → ℕ) where
  abbrev pub AtLeast : ℕ → List A → Type 0
  AtLeast n [] = Unit
  AtLeast n (x ∷ xs) = (n ≤ age x) × AtLeast n xs

  abbrev pub IsSorted : List A → Type 0
  IsSorted [] = Unit
  IsSorted (x ∷ xs) = AtLeast (age x) xs × IsSorted xs

  insert_sorted : A → List A → List A
  insert_sorted a [] = a ∷ []
  insert_sorted a (x ∷ xs) = if leb (age a) (age x) then a ∷ x ∷ xs else x ∷ insert_sorted a xs

  pub insertion_sort : List A → List A
  unfolding insert_sorted
  insertion_sort [] = []
  insertion_sort (x ∷ xs) = insert_sorted x (insertion_sort xs)

  AtLeast-le : (m n : ℕ) (xs : List A) → m ≤ n → AtLeast n xs → AtLeast m xs
  AtLeast-le m n [] h s = tt
  AtLeast-le m n (x ∷ xs) h s = (omega arith, AtLeast-le m n xs h s.1)

  insert_sorted-AtLeast :
      (n : ℕ) (a : A) (xs : List A) → n ≤ age a → AtLeast n xs → AtLeast n (insert_sorted a xs)
  unfolding insert_sorted
  insert_sorted-AtLeast n a [] h s = (h, tt)
  insert_sorted-AtLeast n a (x ∷ xs) h s = ground (arith, insert_sorted-AtLeast n a xs h s.1)

  insert_sorted-IsSorted : (a : A) (xs : List A) → IsSorted xs → IsSorted (insert_sorted a xs)
  unfolding insert_sorted
  insert_sorted-IsSorted a [] s = (tt, tt)
  insert_sorted-IsSorted a (x ∷ xs) s = ground (
    arith,
    insert_sorted-IsSorted a xs s.1,
    insert_sorted-AtLeast (age x) a xs,
    AtLeast-le (age a) (age x) xs,
  )

  pub insertion_sort-IsSorted : (xs : List A) → IsSorted (insertion_sort xs)
  unfolding insertion_sort
  insertion_sort-IsSorted [] = tt
  insertion_sort-IsSorted (x ∷ xs) =
      insert_sorted-IsSorted x (insertion_sort xs) (insertion_sort-IsSorted xs)

  insert_sorted-perm : (a : A) (xs : List A) → Perm (insert_sorted a xs) (a ∷ xs)
  unfolding insert_sorted
  insert_sorted-perm a [] = Perm.refl _
  insert_sorted-perm a (x ∷ xs) = elim (Bool-cases (leb (age a) (age x))) [
    | inl e ↦ rw e (Perm.refl _)
    | inr e ↦ rw e (Perm.trans (Perm.cons x (insert_sorted-perm a xs)) (Perm.swap a x xs))
  ]

  pub insertion_sort-perm : (xs : List A) → Perm (insertion_sort xs) xs
  unfolding insertion_sort
  insertion_sort-perm [] = Perm.refl _
  insertion_sort-perm (x ∷ xs) =
      Perm.trans (insert_sorted-perm x (insertion_sort xs)) (Perm.cons x (insertion_sort-perm xs))

-- A sort by a number: a permutation in rising order. Nothing is said of the order of ties.
pub record Sorter {ℓ} (A : Type ℓ) : Type ℓ where
  pub sort : (A → ℕ) → List A → List A
  pub sort-perm : (age : A → ℕ) (xs : List A) → Perm (sort age xs) xs
  pub sort-IsSorted : (age : A → ℕ) (xs : List A) → IsSorted age (sort age xs)

abbrev pub insertion_sorter {ℓ} : {A : Type ℓ} → Sorter A
unfolding insertion_sort
insertion_sorter = record {
  sort = insertion_sort;
  sort-perm = insertion_sort-perm;
  sort-IsSorted = insertion_sort-IsSorted;
}

module _ {ℓ} {A : Type ℓ} where
  permᴰ-length : {xs ys : List A} → Permᴰ xs ys → length xs ≡ length ys
  permᴰ-length Permᴰ.nil = refl
  permᴰ-length (Permᴰ.cons p r) = ap suc (permᴰ-length r)
  permᴰ-length (Permᴰ.swap p q) = refl
  permᴰ-length (Permᴰ.trans r s) = permᴰ-length r ∙ permᴰ-length s

  pub perm-length : {xs ys : List A} → Perm xs ys → length xs ≡ length ys
  perm-length p = ∥∥₁_elim p (ℕ_set _ _) permᴰ-length

-- How often a key stands in a list, and what a sort and a cut do to the count.
module _ {ℓ} {K : Type ℓ} ⦃e : Key K⦄ where
  abbrev pub count : K → List K → ℕ
  count a [] = 0
  count a (x ∷ xs) = if x == a then suc (count a xs) else count a xs

  permᴰ-count : (a : K) {xs ys : List K} → Permᴰ xs ys → count a xs ≡ count a ys
  permᴰ-count a Permᴰ.nil = refl
  permᴰ-count a (Permᴰ.cons p r) = rw (p, permᴰ-count a r)
  permᴰ-count a (Permᴰ.swap p q) = rw (p, q) (ground arith)
  permᴰ-count a (Permᴰ.trans r s) = permᴰ-count a r ∙ permᴰ-count a s

  pub perm-count : (a : K) {xs ys : List K} → Perm xs ys → count a xs ≡ count a ys
  perm-count a p = ∥∥₁_elim p (ℕ_set _ _) (λ r. permᴰ-count a r)

  pub count-take-drop :
      (a : K) (n : ℕ) (xs : List K) → count a xs ≡ count a (take n xs) + count a (drop n xs)
  count-take-drop a zero xs = omega arith
  count-take-drop a (suc n) [] = omega arith
  count-take-drop a (suc n) (x ∷ xs) = ground (arith, count-take-drop a n xs)
