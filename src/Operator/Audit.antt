-- ===== src/Operator/Audit.antt =====
-- internal/operator/domain/domain.go: an entry of the audit log, as it stands in its row.
use smotryashchiy.Base.{ℕ, Bytes}

pub record AuditEntry : Type 0 where
  pub id : ℕ
  pub at : ℕ
  pub action : Bytes
  pub target : Bytes
  pub detail : Bytes
  pub client : Bytes
  pub outcome : Bytes
