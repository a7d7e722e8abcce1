-- ===== src/Telemetry/Enrollment/History/Once.antt =====
-- enrollment.go: a secret enrolls one host at most.
use smotryashchiy.Base.{
  ℕ, ◌≡◌, refl, Bool, true, false, not, List, arith, Bytes, bytes_eq, every, Bool-cases, inl, inr,
  next_fails,
}
use smotryashchiy.Sql.{Db, Result, ok, err, commit, advance}
use smotryashchiy.Sql.Atomic.{statement-rule, continue}
use smotryashchiy.Telemetry.Enrollment.Addresses.{Subnet}
use smotryashchiy.Telemetry.Enrollment.Store
use smotryashchiy.Telemetry.Enrollment.Store.{
  Tables, Error, Host, Peer, create_enrollable_host, peers, host_by_tunnel_ip, server_key,
  store_key, put_key, or_refuse, no_random, no_key, first_host, consume, unix_milli, admitted,
}
use smotryashchiy.Telemetry.Enrollment.Service.{
  Library, Service, Answer, done, enrolled, hash_secret, enroll,
}
use smotryashchiy.Telemetry.Enrollment.Sound.{Sound}
use smotryashchiy.Telemetry.Enrollment.Spent.{
  Spent, first_host-live, create_enrollable_host-Spent, enroll-Spent, Consumed, enroll-Consumed,
}
use smotryashchiy.Telemetry.Enrollment.History.{Request, may, run, let_in-holds, run-holds}

abbrev pub is_enrolled : {A : Type 0} → Answer A → Bool
is_enrolled (done a) = true
is_enrolled a = false

-- A call that reports an error.
abbrev Refuses : Result Error Peer × Db Tables → Type 0
Refuses (ok p, d) = ⊥
Refuses (err e, d) = Unit

commit-Refuses :
    (before : Tables) (r : Result Error Peer × Db Tables) → Refuses r → Refuses (commit before r)
commit-Refuses before (err e, d) h = tt
commit-Refuses before (ok p, d) h = elim h [ ]

enrolled-Refuses :
    (s : Service) (r : Result Error Peer × Db Tables)
    → Refuses r
    → is_enrolled (enrolled s r).1 ≡ false
enrolled-Refuses s (err e, d) h = refl
enrolled-Refuses s (ok p, d) h = elim h [ ]

enrolled-Consumed :
    (hash : Bytes) (subnet : Subnet) (s : Service) (r : Result Error Peer × Db Tables)
    → Consumed hash subnet r
    → is_enrolled (enrolled s r).1 ≡ true
    → Spent hash (enrolled s r).0.db.tables
enrolled-Consumed hash subnet s (ok p, d) h k =
    let_in-holds (Spent hash) (record s { db = d }) p s.tunnel h
enrolled-Consumed hash subnet s (err e, d) h k = cc

enroll-Refuses :
    (hash key : Bytes) (subnet : Subnet) (now : ℕ) (d : Db Tables)
    → Spent hash d.tables
    → Refuses (Store.enroll subnet hash key now d)
unfolding Store.enroll
enroll-Refuses hash key subnet now d h = elim (Bool-cases (next_fails d.faults)) [
  | inl e ↦ rw e tt
  | inr e ↦ rw e (
      commit-Refuses d.tables _ (
        statement-rule (λ r. Refuses (continue (admitted subnet key now) r))
          (consume (unix_milli now) hash) (advance d) tt
          (rw (first_host-live (unix_milli now) hash d.tables.enrollments h) tt)))
]

module _ (lib : Library) (subnet : Subnet) where
  enroll-consumes :
      (secret key : Bytes) (now : ℕ) (s : Service)
      → Sound subnet s.db.tables
      → is_enrolled (enroll lib subnet s secret key now).1 ≡ true
      → Spent (hash_secret lib secret) (enroll lib subnet s secret key now).0.db.tables
  unfolding enroll
  enroll-consumes secret key now s v h = elim (Bool-cases (lib.is_public_key key)) [
    | inr e ↦ absurd (ground (arith, e, h))
    | inl e ↦ rw e (
        enrolled-Consumed (hash_secret lib secret) subnet s
          (Store.enroll subnet (hash_secret lib secret) key now s.db)
          (enroll-Consumed (hash_secret lib secret) subnet key now s.db v.hashes)
          (ground (arith, e, h)))
  ]

  used_up :
      (secret key : Bytes) (now : ℕ) (s : Service)
      → Spent (hash_secret lib secret) s.db.tables
      → is_enrolled (enroll lib subnet s secret key now).1 ≡ false
  unfolding enroll
  used_up secret key now s h = elim (Bool-cases (lib.is_public_key key)) [
    | inr e ↦ rw e refl
    | inl e ↦
        rw e (enrolled-Refuses s _ (enroll-Refuses (hash_secret lib secret) key subnet now s.db h))
  ]

  -- After an enrollment with a secret, whatever calls follow and whatever statement of them fails, no
  -- other enrollment with this secret succeeds, as long as no new secret has the same hash.
  pub enrolled_once :
      (secret key key' : Bytes) (now now' : ℕ) (rs : List Request) (s : Service)
      → Sound subnet s.db.tables
      → is_enrolled (enroll lib subnet s secret key now).1 ≡ true
      → every (may lib subnet (λ h. not (bytes_eq h (hash_secret lib secret)))) rs ≡ true
      → is_enrolled
          (enroll lib subnet
            (run lib subnet rs (enroll lib subnet s secret key now).0)
            secret
            key'
            now').1
        ≡ false
  enrolled_once secret key key' now now' rs s v h a =
      let hash = hash_secret lib secret in
      used_up secret key' now' _ (
        run-holds (Spent hash) lib subnet (λ h. not (bytes_eq h hash))
          (record {
            create = λ name other at expires id k.
                create_enrollable_host-Spent hash name other at expires id (ground (arith, k));
            enroll = λ other k at. enroll-Spent hash subnet other k at;
            server = λ k t u. u;
          })
          rs _ a (enroll-consumes secret key now s v h))
