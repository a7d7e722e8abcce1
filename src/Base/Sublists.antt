-- ===== src/Base/Sublists.antt =====
-- Lists with some elements left out, and lists whose elements are pairwise apart.
use mathlib.Core.Path.{◌≡◌, refl}
use mathlib.Core.Bool.{Bool, true, false, ◌&&◌, ◌||◌}
use mathlib.Core.List.{List, [], ◌∷◌, ◌++◌}
use native.Mathlib.Omega.{arith}
use smotryashchiy.Base.Tests.{if◌then◌else◌}
use Prim.Native.Nat.{◌≤◌}
use mathlib.Core.Logic.{◌⊎◌, inl, inr}
use smotryashchiy.Base.Lists.{length, any, every, keep_if}

pub data Sublist {ℓ} {A : Type ℓ} : List A → List A → Type ℓ where
  done : Sublist [] []
  skip : (x : A) {xs ys : List A} → Sublist xs ys → Sublist xs (x ∷ ys)
  hold : (x : A) {xs ys : List A} → Sublist xs ys → Sublist (x ∷ xs) (x ∷ ys)

module _ {ℓ} {A : Type ℓ} where
  pub keep_if-Sublist : (p : A → Bool) (xs : List A) → Sublist (keep_if p xs) xs
  keep_if-Sublist p [] = done
  keep_if-Sublist p (x ∷ xs) =
      elim (p x) as (λ b. Sublist (if b then x ∷ keep_if p xs else keep_if p xs) (x ∷ xs)) [
        | true ↦ hold x (keep_if-Sublist p xs)
        | false ↦ skip x (keep_if-Sublist p xs)
      ]

  pub Sublist-any :
      (p : A → Bool) {xs ys : List A} → Sublist xs ys → any p ys ≡ false → any p xs ≡ false
  Sublist-any p done h = refl
  Sublist-any p (skip x s) h = Sublist-any p s (ground arith)
  Sublist-any p (hold x s) h = ground (arith, Sublist-any p s)

  pub Sublist-every :
      (p : A → Bool) {xs ys : List A} → Sublist xs ys → every p ys ≡ true → every p xs ≡ true
  Sublist-every p done h = refl
  Sublist-every p (skip x s) h = Sublist-every p s (ground arith)
  Sublist-every p (hold x s) h = ground (arith, Sublist-every p s)

  pub any-append : (p : A → Bool) (xs ys : List A) → any p (xs ++ ys) ≡ (any p xs || any p ys)
  any-append p [] ys = refl
  any-append p (x ∷ xs) ys = ground (arith, any-append p xs ys)

  pub every-append :
      (p : A → Bool) (xs ys : List A) → every p (xs ++ ys) ≡ (every p xs && every p ys)
  every-append p [] ys = refl
  every-append p (x ∷ xs) ys = ground (arith, every-append p xs ys)

module _ {ℓ} {A : Type ℓ} where
  pub Sublist-refl : (xs : List A) → Sublist xs xs
  Sublist-refl [] = done
  Sublist-refl (x ∷ xs) = hold x (Sublist-refl xs)

  pub Sublist-trans :
      {ys zs : List A} → Sublist ys zs → {xs : List A} → Sublist xs ys → Sublist xs zs
  Sublist-trans done s = s
  Sublist-trans (skip x t) s = skip x (Sublist-trans t s)
  Sublist-trans (hold x t) (skip _ s) = skip x (Sublist-trans t s)
  Sublist-trans (hold x t) (hold _ s) = hold x (Sublist-trans t s)

  pub Sublist-cases :
      {xs ys : List A} {y : A}
      → Sublist xs (y ∷ ys)
      → ((zs : List A) × (xs ≡ y ∷ zs)) ⊎ Sublist xs ys
  Sublist-cases (skip _ s) = inr s
  Sublist-cases (hold _ {xs = zs} s) = inl (zs, refl)

  pub Sublist-append :
      {xs ys us vs : List A} → Sublist xs ys → Sublist us vs → Sublist (xs ++ us) (ys ++ vs)
  Sublist-append done t = t
  Sublist-append (skip x s) t = skip x (Sublist-append s t)
  Sublist-append (hold x s) t = hold x (Sublist-append s t)

  pub Sublist-none : (xs : List A) → Sublist xs (xs ++ [])
  Sublist-none [] = done
  Sublist-none (x ∷ xs) = hold x (Sublist-none xs)

  pub Sublist-length : {xs ys : List A} → Sublist xs ys → length xs ≤ length ys
  Sublist-length done = omega arith
  Sublist-length (skip x s) = omega (arith, Sublist-length s)
  Sublist-length (hold x s) = omega (arith, Sublist-length s)

module _ {ℓ} {A : Type ℓ} (same : A → A → Bool) where
  -- No two elements are the same.
  abbrev pub Apart : List A → Type 0
  Apart [] = Unit
  Apart (x ∷ xs) = (any (same x) xs ≡ false) × Apart xs

  pub Sublist-Apart : {xs ys : List A} → Sublist xs ys → Apart ys → Apart xs
  Sublist-Apart done h = tt
  Sublist-Apart (skip x s) h = Sublist-Apart s h.1
  Sublist-Apart (hold x s) h = (Sublist-any (same x) s h.0, Sublist-Apart s h.1)

  pub Apart-append :
      (r : A) (xs : List A)
      → ((x : A) → same r x ≡ same x r)
      → any (same r) xs ≡ false
      → Apart xs
      → Apart (xs ++ r ∷ [])
  Apart-append r [] s h a = (refl, tt)
  Apart-append r (x ∷ xs) s h a =
      (ground (arith, any-append (same x) xs (r ∷ []), s x), Apart-append r xs s (ground arith) a.1)
