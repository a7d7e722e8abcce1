-- ===== src/Operator/Records/Kept.antt =====
-- store.go and the triggers of 0010_operator.sql: young audit entries stay.
use smotryashchiy.Base.{
  ℕ, ◌≡◌, refl, Bool, true, not, List, [], ◌∷◌, arith, ltb, keep_if, every, Bool-cases, inl, inr,
  next_fails,
}
use smotryashchiy.Sql.{Db}
use smotryashchiy.Operator.Audit.{AuditEntry}
use smotryashchiy.Operator.Store.{Tables, unix_milli}
use smotryashchiy.Operator.Records.{may_go, purge_audit}

keep_if-twice :
    (young old : AuditEntry → Bool) (es : List AuditEntry)
    → every (λ e. not (young e)) (keep_if old es) ≡ true
    → keep_if young (keep_if (λ e. not (old e)) es) ≡ keep_if young es
keep_if-twice young old [] h = refl
keep_if-twice young old (e ∷ es) h = ground (arith, keep_if-twice young old es)

every-not-not :
    (p : AuditEntry → Bool) (es : List AuditEntry)
    → every p es ≡ true
    → every (λ e. not (not (p e))) es ≡ true
every-not-not p [] h = refl
every-not-not p (e ∷ es) h = ground (arith, every-not-not p es)

-- Whatever cutoff it is given, a purge leaves every entry that is less than three years old by the
-- clock of the database, in its place.
pub purge_audit-keeps_young :
    (clock before : ℕ) (d : Db Tables)
    → keep_if (λ (e : AuditEntry). not (may_go clock e)) (purge_audit clock before d).1.tables.audit
      ≡ keep_if (λ (e : AuditEntry). not (may_go clock e)) d.tables.audit
unfolding purge_audit
purge_audit-keeps_young clock before d =
    let old : AuditEntry → Bool = λ e. ltb e.at (unix_milli before) in
    elim (Bool-cases (next_fails d.faults)) [
      | inl e ↦ rw e refl
      | inr e ↦ rw e (elim (Bool-cases (every (may_go clock) (keep_if old d.tables.audit))) [
        | inl g ↦ rw g (
            keep_if-twice (λ e. not (may_go clock e)) old d.tables.audit
              (every-not-not (may_go clock) (keep_if old d.tables.audit) g))
        | inr g ↦ rw g refl
      ])
    ]
