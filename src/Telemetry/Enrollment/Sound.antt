-- ===== src/Telemetry/Enrollment/Sound.antt =====
-- enrollment.go: what holds of the tables after any calls.
use smotryashchiy.Base.{
  ℕ, ◌+◌, ◌≤◌, ◌≡◌, refl, Bool, true, ◌&&◌, List, [], ◌∷◌, Option, none, some, arith, Bytes,
  bytes_eq, bytes_eq_iff, ltb, leb, map, any, every, Apart, Apart-append, every-append,
}
use smotryashchiy.Sql.Keeps.{
  Keeps, Keeps-pure, Keeps-refuse, Keeps-statement, Keeps-query, Keeps-constrained, Keeps-bind,
  Keeps-transaction,
}
use smotryashchiy.Telemetry.Enrollment.Addresses.{
  Subnet, next_free_addr, NextFree, next_free_addr_lem,
}
use smotryashchiy.Telemetry.Enrollment.Store.{
  Peer, Host, EnrollmentRow, Tables, no_random, unauthorized, exhausted, violates_enrollment,
  violates_host, host_row, insert_host, insert_enrollment, new_host, new_enrollment,
  create_enrollable_host, spend, consume, same_host, same_key, same_ip, violates_peer, peer_row,
  insert_peer, tunnel_ips, new_peer, placed, admitted, enroll,
}

abbrev pub same_hash : EnrollmentRow → EnrollmentRow → Bool
same_hash a b = bytes_eq a.secret_hash b.secret_hash

-- An address behind the network's and the server's, and before the broadcast address.
abbrev pub is_host_ip : Subnet → Peer → Bool
is_host_ip s p = leb (s.network + 2) p.tunnel_ip && ltb (p.tunnel_ip + 1) (s.network + s.size)

-- No two enrollments have the same secret, no two peers the same host, key or address, and each peer's
-- address is one that the subnet has for hosts.
pub record Sound (s : Subnet) (t : Tables) : Type 0 where
  pub hashes : Apart same_hash t.enrollments
  pub hosts : Apart same_host t.peers
  pub keys : Apart same_key t.peers
  pub ips : Apart same_ip t.peers
  pub ranged : every (is_host_ip s) t.peers ≡ true

pub same_bytes : (a b : Bytes) → bytes_eq a b ≡ bytes_eq b a
same_bytes a b = ground (arith, bytes_eq_iff a b, bytes_eq_iff b a)

any-same_hash :
    (e : EnrollmentRow) (es : List EnrollmentRow) (h : Bytes)
    → e.secret_hash ≡ h
    → any (same_hash e) es ≡ any (λ (x : EnrollmentRow). bytes_eq x.secret_hash h) es
any-same_hash e [] h k = refl
any-same_hash e (x ∷ es) h k =
    ground (arith, any-same_hash e es h k, same_bytes e.secret_hash x.secret_hash, k)

module _ (s : Subnet) where
  insert_enrollment-Keeps : (e : EnrollmentRow) → Keeps (Sound s) (insert_enrollment e)
  insert_enrollment-Keeps e = Keeps-constrained (violates_enrollment e) _ (λ t v n. record {
    hashes =
        Apart-append same_hash e t.enrollments (λ x. same_bytes e.secret_hash x.secret_hash)
          (ground (arith, any-same_hash e t.enrollments e.secret_hash refl)) v.hashes;
    hosts = v.hosts;
    keys = v.keys;
    ips = v.ips;
    ranged = v.ranged;
  })

  insert_host-Keeps : (h : Host) → Keeps (Sound s) (insert_host h)
  insert_host-Keeps h = Keeps-constrained (violates_host (host_row h)) _ (λ t v n. record {
    hashes = v.hashes;
    hosts = v.hosts;
    keys = v.keys;
    ips = v.ips;
    ranged = v.ranged;
  })

  pub create_enrollable_host-Keeps :
      (name hash : Bytes) (now expires : ℕ) (id : Option Bytes)
      → Keeps (Sound s) (create_enrollable_host name hash now expires id)
  unfolding create_enrollable_host
  create_enrollable_host-Keeps name hash now expires none = Keeps-refuse no_random
  create_enrollable_host-Keeps name hash now expires (some id) = Keeps-transaction _ (
      Keeps-bind _ _ (insert_host-Keeps (new_host id name now)) (λ u.
        Keeps-bind _ _ (insert_enrollment-Keeps (new_enrollment id hash expires))
          (λ v. Keeps-pure (new_host id name now))))

  any-spend :
      (ms : ℕ) (hash : Bytes) (e : EnrollmentRow) (es : List EnrollmentRow)
      → any (same_hash (spend ms hash e)) (map (spend ms hash) es) ≡ any (same_hash e) es
  any-spend ms hash e [] = refl
  any-spend ms hash e (x ∷ es) = ground (arith, any-spend ms hash e es)

  spend-Apart :
      (ms : ℕ) (hash : Bytes) (es : List EnrollmentRow)
      → Apart same_hash es
      → Apart same_hash (map (spend ms hash) es)
  spend-Apart ms hash [] a = tt
  spend-Apart ms hash (e ∷ es) a =
      (ground (arith, any-spend ms hash e es, a.0), spend-Apart ms hash es a.1)

  insert_peer-Keeps : (p : Peer) → is_host_ip s p ≡ true → Keeps (Sound s) (insert_peer p)
  insert_peer-Keeps p h = Keeps-constrained (violates_peer (peer_row p)) _ (λ t v n. record {
    hashes = v.hashes;
    hosts =
        Apart-append same_host (peer_row p) t.peers (λ x. same_bytes p.host_id x.host_id)
          (ground arith) v.hosts;
    keys =
        Apart-append same_key (peer_row p) t.peers (λ x. same_bytes p.public_key x.public_key)
          (ground arith) v.keys;
    ips = Apart-append same_ip (peer_row p) t.peers (λ x. ground arith) (ground arith) v.ips;
    ranged = ground (arith, every-append (is_host_ip s) t.peers (peer_row p ∷ []), v.ranged, h);
  })

  placed-Keeps :
      (host key : Bytes) (now : ℕ) (used : List ℕ) (ip : Option ℕ)
      → NextFree s used ip
      → Keeps (Sound s) (placed host key now ip)
  placed-Keeps host key now used none f = Keeps-refuse exhausted
  placed-Keeps host key now used (some ip) (a, b, c, d) =
      Keeps-bind _ _ (insert_peer-Keeps (new_peer host key now ip) (ground (arith, a, b)))
        (λ u. Keeps-pure (new_peer host key now ip))

  module _ (fits : s.network + s.size ≤ s.space) where
    admitted-Keeps :
        (key : Bytes) (now : ℕ) (found : Option Bytes) → Keeps (Sound s) (admitted s key now found)
    admitted-Keeps key now none = Keeps-refuse unauthorized
    admitted-Keeps key now (some host) = Keeps-bind _ _ (Keeps-query tunnel_ips) (λ used.
        placed-Keeps host key now used (next_free_addr s used) (next_free_addr_lem s used fits))

    pub enroll-Keeps : (hash key : Bytes) (now : ℕ) → Keeps (Sound s) (enroll s hash key now)
    unfolding enroll
    enroll-Keeps hash key now = Keeps-transaction _ (
        Keeps-bind _ _
          (Keeps-statement (consume _ hash) (λ t v. record {
            hashes = spend-Apart _ hash t.enrollments v.hashes;
            hosts = v.hosts;
            keys = v.keys;
            ips = v.ips;
            ranged = v.ranged;
          }))
          (admitted-Keeps key now))
