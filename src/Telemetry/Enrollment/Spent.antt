-- ===== src/Telemetry/Enrollment/Spent.antt =====
-- enrollment.go: a secret that was consumed is open no more.
use smotryashchiy.Base.{
  ℕ, ◌≡◌, refl, sym, ◌∙◌, Bool, true, false, ◌&&◌, List, [], ◌∷◌, Option, none, some, arith, Bytes,
  bytes_eq, bytes_eq_iff, map, any, Bool-cases, Option-cases, inl, inr, Apart, any-append,
  next_fails,
}
use smotryashchiy.Sql.{Db, Result, ok, err, advance, commit}
use smotryashchiy.Sql.Atomic.{statement-rule, continue}
use smotryashchiy.Sql.Keeps.{
  Keeps, Keeps-pure, Keeps-refuse, Keeps-statement, Keeps-query, Keeps-constrained, Keeps-bind,
  Keeps-transaction,
}
use smotryashchiy.Telemetry.Enrollment.Addresses.{Subnet, next_free_addr}
use smotryashchiy.Telemetry.Enrollment.Store.{
  Peer, Host, EnrollmentRow, Tables, Error, no_random, unauthorized, exhausted, violates_enrollment,
  violates_host, host_row, insert_host, insert_enrollment, new_host, new_enrollment,
  create_enrollable_host, is_unused, spend, first_host, consume, violates_peer, peer_row,
  tunnel_ips, new_peer, placed, admitted, enroll, unix_milli,
}
use smotryashchiy.Telemetry.Enrollment.Sound.{same_hash, same_bytes}

abbrev pub is_live : Bytes → EnrollmentRow → Bool
is_live hash e = bytes_eq e.secret_hash hash && is_unused e

-- No row holds the secret unused.
abbrev pub Spent : Bytes → Tables → Type 0
Spent hash t = any (is_live hash) t.enrollments ≡ false

abbrev has_hash : Bytes → List EnrollmentRow → Bool
has_hash hash es = any (λ (e : EnrollmentRow). bytes_eq e.secret_hash hash) es

spend-live :
    (ms : ℕ) (hash other : Bytes) (es : List EnrollmentRow)
    → any (is_live hash) es ≡ false
    → any (is_live hash) (map (spend ms other) es) ≡ false
spend-live ms hash other [] h = refl
spend-live ms hash other (e ∷ es) h = ground (arith, spend-live ms hash other es)

pub first_host-live :
    (ms : ℕ) (hash : Bytes) (es : List EnrollmentRow)
    → any (is_live hash) es ≡ false
    → first_host ms hash es ≡ none
first_host-live ms hash [] h = refl
first_host-live ms hash (e ∷ es) h = ground (arith, first_host-live ms hash es)

live-has_hash :
    (hash : Bytes) (es : List EnrollmentRow)
    → has_hash hash es ≡ false
    → any (is_live hash) es ≡ false
live-has_hash hash [] h = refl
live-has_hash hash (e ∷ es) h = ground (arith, live-has_hash hash es)

same_hash-has_hash :
    (e : EnrollmentRow) (hash : Bytes) (es : List EnrollmentRow)
    → bytes_eq e.secret_hash hash ≡ true
    → any (same_hash e) es ≡ has_hash hash es
same_hash-has_hash e hash [] k = refl
same_hash-has_hash e hash (x ∷ es) k = ground (
  arith,
  same_hash-has_hash e hash es k,
  same_bytes e.secret_hash x.secret_hash,
  bytes_eq_iff e.secret_hash hash,
)

-- The one row of an open secret is used behind the statement.
open-spent :
    (ms : ℕ) (hash host : Bytes) (es : List EnrollmentRow)
    → Apart same_hash es
    → first_host ms hash es ≡ some host
    → any (is_live hash) (map (spend ms hash) es) ≡ false
open-spent ms hash host [] a h = refl
open-spent ms hash host (e ∷ es) a h = elim (Bool-cases (bytes_eq e.secret_hash hash)) [
  | inl k ↦
      let rest = live-has_hash hash es (sym (same_hash-has_hash e hash es k) ∙ a.0) in
      ground (arith, k, h, spend-live ms hash hash es rest, first_host-live ms hash es rest)
  | inr k ↦ ground (arith, k, h, open-spent ms hash host es a.1)
]

module _ (hash : Bytes) where
  insert_host-Spent : (h : Host) → Keeps (Spent hash) (insert_host h)
  insert_host-Spent h = Keeps-constrained (violates_host (host_row h)) _ (λ t v n. v)

  insert_enrollment-Spent :
      (e : EnrollmentRow)
      → bytes_eq e.secret_hash hash ≡ false
      → Keeps (Spent hash) (insert_enrollment e)
  insert_enrollment-Spent e h =
      Keeps-constrained (violates_enrollment e) _
        (λ t v n. ground (arith, any-append (is_live hash) t.enrollments (e ∷ []), v, h))

  pub create_enrollable_host-Spent :
      (name other : Bytes) (now expires : ℕ) (id : Option Bytes)
      → bytes_eq other hash ≡ false
      → Keeps (Spent hash) (create_enrollable_host name other now expires id)
  unfolding create_enrollable_host
  create_enrollable_host-Spent name other now expires none h = Keeps-refuse no_random
  create_enrollable_host-Spent name other now expires (some id) h = Keeps-transaction _ (
      Keeps-bind _ _ (insert_host-Spent (new_host id name now)) (λ u.
        Keeps-bind _ _ (insert_enrollment-Spent (new_enrollment id other expires) h)
          (λ v. Keeps-pure (new_host id name now))))

  placed-Spent :
      (host key : Bytes) (now : ℕ) (ip : Option ℕ) → Keeps (Spent hash) (placed host key now ip)
  placed-Spent host key now none = Keeps-refuse exhausted
  placed-Spent host key now (some ip) =
      Keeps-bind _ _
        (Keeps-constrained (violates_peer (peer_row (new_peer host key now ip))) _ (λ t v n. v))
        (λ u. Keeps-pure (new_peer host key now ip))

  module _ (s : Subnet) where
    admitted-Spent :
        (key : Bytes) (now : ℕ) (found : Option Bytes)
        → Keeps (Spent hash) (admitted s key now found)
    admitted-Spent key now none = Keeps-refuse unauthorized
    admitted-Spent key now (some host) =
        Keeps-bind _ _ (Keeps-query tunnel_ips)
          (λ used. placed-Spent host key now (next_free_addr s used))

    pub enroll-Spent : (other key : Bytes) (now : ℕ) → Keeps (Spent hash) (enroll s other key now)
    unfolding enroll
    enroll-Spent other key now = Keeps-transaction _ (
        Keeps-bind _ _
          (Keeps-statement (consume (unix_milli now) other)
            (λ t v. spend-live (unix_milli now) hash other t.enrollments v))
          (admitted-Spent key now))

    -- What an enrollment without an error has done.
    abbrev pub Consumed : Result Error Peer × Db Tables → Type 0
    Consumed (ok p, d) = Spent hash d.tables
    Consumed (err e, d) = Unit

    consumed : (r : Result Error Peer × Db Tables) → Spent hash r.1.tables → Consumed r
    consumed (ok p, d) h = h
    consumed (err e, d) h = tt

    commit-Consumed :
        (before : Tables) (r : Result Error Peer × Db Tables)
        → Consumed r
        → Consumed (commit before r)
    commit-Consumed before (err e, d) h = tt
    commit-Consumed before (ok p, d) h = elim (Bool-cases (next_fails d.faults)) [
      | inl e ↦ rw e tt
      | inr e ↦ rw e h
    ]

    admitted-Consumed :
        (key : Bytes) (now : ℕ) (d : Db Tables)
        → Apart same_hash d.tables.enrollments
        → Consumed (
            admitted s key now
              (first_host (unix_milli now) hash d.tables.enrollments)
              (record (advance d) { tables = (consume (unix_milli now) hash d.tables).1 }))
    admitted-Consumed key now d a =
        elim (Option-cases (first_host (unix_milli now) hash d.tables.enrollments)) [
          | inl e ↦ rw e tt
          | inr (host, e) ↦ rw e (
              consumed _ (
                (admitted-Spent key now (some host)).keeps
                  (record (advance d) { tables = (consume (unix_milli now) hash d.tables).1 })
                  (open-spent (unix_milli now) hash host d.tables.enrollments a e)))
        ]

    pub enroll-Consumed :
        (key : Bytes) (now : ℕ) (d : Db Tables)
        → Apart same_hash d.tables.enrollments
        → Consumed (enroll s hash key now d)
    unfolding enroll
    enroll-Consumed key now d a = elim (Bool-cases (next_fails d.faults)) [
      | inl e ↦ rw e tt
      | inr e ↦ rw e (
          commit-Consumed d.tables _ (
            statement-rule (λ r. Consumed (continue (admitted s key now) r))
              (consume (unix_milli now) hash) (advance d) tt
              (admitted-Consumed key now (advance d) a)))
    ]
