-- ===== src/Sql/Fixes.antt =====
-- Calls that leave a part of the tables alone, whatever statement of them fails.
use smotryashchiy.Base.{
  ◌≡◌, refl, ◌∙◌, Bool, true, false, if◌then◌else◌, next_fails, Bool-cases, Option-cases, Option,
  inl, inr,
}
use smotryashchiy.Sql.{
  Db, Result, ok, err, Fault, Action, ◌>>=◌, pure, refuse, statement, constrained,
}
use smotryashchiy.Sql.Atomic.{continue}

pub record Fixes {T E A X : Type 0} (part : T → X) (m : Action T E A) : Type 0 where
  pub fixes : (d : Db T) → part (m d).1.tables ≡ part d.tables

module _ {T E X : Type 0} (part : T → X) where
  pub Fixes-pure : {A : Type 0} (a : A) → Fixes part (pure {T = T} {E = E} a)
  Fixes-pure a = record { fixes = λ d. refl }

  pub Fixes-refuse : {A : Type 0} (e : E) → Fixes part (refuse {T = T} {A = A} e)
  Fixes-refuse e = record { fixes = λ d. refl }

  pub Fixes-constrained :
      {A : Type 0} (c : T → Option (Fault E)) (f : T → A × T)
      → ((t : T) → part (f t).1 ≡ part t)
      → Fixes part (constrained c f)
  Fixes-constrained c f h = record {
    fixes = λ d. elim (Bool-cases (next_fails d.faults)) [
      | inl e ↦ rw e refl
      | inr e ↦
          rw e (elim (Option-cases (c d.tables)) [
            | inl v ↦ rw v (h d.tables)
            | inr (x, v) ↦ rw v refl
          ])
    ];
  }

  pub Fixes-statement :
      {A : Type 0} (f : T → A × T)
      → ((t : T) → part (f t).1 ≡ part t)
      → Fixes part (statement {T = T} {E = E} f)
  Fixes-statement f h = record {
    fixes = λ d. elim (Bool-cases (next_fails d.faults)) [
      | inl e ↦ rw e refl
      | inr e ↦ rw e (h d.tables)
    ];
  }

  pub Fixes-if :
      {A : Type 0} (b : Bool) (m n : Action T E A)
      → Fixes part m
      → Fixes part n
      → Fixes part (if b then m else n)
  Fixes-if true m n p q = p
  Fixes-if false m n p q = q

  fixed-continue :
      {A B : Type 0} (f : A → Action T E B) (x : X) (r : Result E A × Db T)
      → ((a : A) → Fixes part (f a))
      → part r.1.tables ≡ x
      → part (continue f r).1.tables ≡ x
  fixed-continue f x (ok a, d) p h = (p a).fixes d ∙ h
  fixed-continue f x (err e, d) p h = h

  pub Fixes-bind :
      {A B : Type 0} (m : Action T E A) (f : A → Action T E B)
      → Fixes part m
      → ((a : A) → Fixes part (f a))
      → Fixes part (m >>= f)
  Fixes-bind m f p q = record { fixes = λ d. fixed-continue f (part d.tables) (m d) q (p.fixes d) }
