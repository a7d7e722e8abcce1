-- ===== src/Telemetry/Enrollment/History.antt =====
-- internal/telemetry/application/enrollment.go: any calls on the service, one after the other.
pub mod Once
use smotryashchiy.Base.{
  ℕ, ◌+◌, ◌≤◌, ◌≡◌, refl, Bool, true, false, not, ◌&&◌, ◌||◌, List, [], ◌∷◌, Option, none, some,
  arith, Bytes, bytes_eq, if◌then◌else◌, every, is_empty, ltb, length, Bool-cases, Option-cases,
  inl, inr, next_fails,
}
use smotryashchiy.Sql.{
  Db, Result, ok, err, ◌>>=◌, pure, refuse, query, exec, statement, transaction, commit, advance,
}
use smotryashchiy.Sql.Atomic.{statement-rule, continue}
use smotryashchiy.Sql.Keeps.{
  Keeps, Keeps-pure, Keeps-refuse, Keeps-statement, Keeps-query, Keeps-bind,
}
use smotryashchiy.Telemetry.Enrollment.Addresses.{Subnet}
use smotryashchiy.Telemetry.Enrollment.Store
use smotryashchiy.Telemetry.Enrollment.Store.{
  Tables, Error, Host, Peer, create_enrollable_host, peers, host_by_tunnel_ip, server_key,
  store_key, put_key, or_refuse, no_random, no_key, first_host, consume, unix_milli, admitted,
}
use smotryashchiy.Telemetry.Enrollment.Service.{
  Library, Tunnel, Service, Answer, done, invalid, failed, no_entropy, refused_peer, Enrollment,
  answered, with_secret, add_peer, told, let_in, enrolled, add_peers, restored, hash_secret,
  create_named, create_host, enroll, restore_peers, enrollment_ttl,
}
use smotryashchiy.Telemetry.Enrollment.Sound.{Sound, create_enrollable_host-Keeps, enroll-Keeps}
use smotryashchiy.Telemetry.Enrollment.Spent.{
  Spent, first_host-live, create_enrollable_host-Spent, enroll-Spent, Consumed, enroll-Consumed,
}

pub data Request : Type 0 where
  creates : Bytes → Option Bytes → Option Bytes → ℕ → Request
  enrolls : Bytes → Bytes → ℕ → Request
  restores : Request
  finds : ℕ → Request
  keys : Option Bytes → Request

module _ (lib : Library) (subnet : Subnet) where
  abbrev pub restore : Service → Option Tunnel → Service
  restore s none = s
  restore s (some t) = (restore_peers lib s t).0

  unfoldable pub perform : Request → Service → Service
  unfolding create_host enroll restore_peers
  perform (creates n id raw now) s = (create_host lib s n id raw now).0
  perform (enrolls secret key now) s = (enroll lib subnet s secret key now).0
  perform restores s = restore s s.tunnel
  perform (finds ip) s = record s { db = (host_by_tunnel_ip ip s.db).1 }
  perform (keys generated) s = record s { db = (server_key generated s.db).1 }

  abbrev pub run : List Request → Service → Service
  run [] s = s
  run (r ∷ rs) s = run rs (perform r s)

  -- The hash of a new host's secret passes a test.
  abbrev pub may : (Bytes → Bool) → Request → Bool
  may allowed (creates n id (some raw) now) = allowed (hash_secret lib (lib.base64 raw))
  may allowed r = true

module _ (I : Tables → Type 0) where
  or_refuse-Keeps : {A : Type 0} (o : Option A) (e : Error) → Keeps I (or_refuse o e)
  or_refuse-Keeps none e = Keeps-refuse e
  or_refuse-Keeps (some a) e = Keeps-pure a

  answered-holds :
      {A : Type 0} (s : Service) (r : Result Error A × Db Tables)
      → I r.1.tables
      → I (answered s r).0.db.tables
  answered-holds s (ok a, d) h = h
  answered-holds s (err e, d) h = h

  with_secret-holds :
      (secret : Bytes) (expires : ℕ) (r : Service × Answer Host)
      → I r.0.db.tables
      → I (with_secret secret expires r).0.db.tables
  with_secret-holds secret expires (s, done x) h = h
  with_secret-holds secret expires (s, invalid) h = h
  with_secret-holds secret expires (s, failed e) h = h
  with_secret-holds secret expires (s, no_entropy) h = h
  with_secret-holds secret expires (s, refused_peer) h = h

  told-holds :
      (s : Service) (p : Peer) (r : Tunnel × Bool) → I s.db.tables → I (told s p r).0.db.tables
  told-holds s p (t, true) h = h
  told-holds s p (t, false) h = h

  pub let_in-holds :
      (s : Service) (p : Peer) (o : Option Tunnel) → I s.db.tables → I (let_in s p o).0.db.tables
  let_in-holds s p none h = h
  let_in-holds s p (some t) h = told-holds s p (add_peer t p.public_key p.tunnel_ip) h

  enrolled-holds :
      (s : Service) (r : Result Error Peer × Db Tables)
      → I r.1.tables
      → I (enrolled s r).0.db.tables
  enrolled-holds s (ok p, d) h = let_in-holds (record s { db = d }) p s.tunnel h
  enrolled-holds s (err e, d) h = h

  restored-holds :
      (s : Service) (t : Tunnel) (r : Result Error (List Peer) × Db Tables)
      → I r.1.tables
      → I (restored s t r).0.db.tables
  restored-holds s t (ok ps, d) h = h
  restored-holds s t (err e, d) h = h

  service-if :
      {A : Type 0} (b : Bool) (x y : Service × A)
      → I x.0.db.tables
      → I y.0.db.tables
      → I (if b then x else y).0.db.tables
  service-if true x y h k = h
  service-if false x y h k = k

  -- What the calls keep that write, where the hashes of new secrets are allowed.
  pub record Kept (subnet : Subnet) (allowed : Bytes → Bool) : Type 0 where
    pub create :
        (name hash : Bytes) (now expires : ℕ) (id : Option Bytes)
        → allowed hash ≡ true
        → Keeps I (create_enrollable_host name hash now expires id)
    pub enroll : (hash key : Bytes) (now : ℕ) → Keeps I (Store.enroll subnet hash key now)
    pub server : (k : Bytes) (t : Tables) → I t → I (put_key k t)

  module _ (lib : Library) (subnet : Subnet) (allowed : Bytes → Bool)
      (kept : Kept subnet allowed) where
    create_named-holds :
        (s : Service) (name : Bytes) (id raw : Option Bytes) (now : ℕ)
        → may lib subnet allowed (creates name id raw now) ≡ true
        → I s.db.tables
        → I (create_named lib s name id raw now).0.db.tables
    create_named-holds s name id none now a h = h
    create_named-holds s name id (some raw) now a h =
        let hash = hash_secret lib (lib.base64 raw) in
        with_secret-holds (lib.base64 raw) (now + enrollment_ttl) _ (
          answered-holds s _ ((kept.create name hash now (now + enrollment_ttl) id a).keeps s.db h))

    store_key-Keeps : (generated found : Option Bytes) → Keeps I (store_key generated found)
    store_key-Keeps generated (some key) = Keeps-pure key
    store_key-Keeps generated none = Keeps-bind _ _ (or_refuse-Keeps generated no_random) (λ k.
        Keeps-bind (exec (put_key k)) _ (Keeps-statement (λ t. (tt, put_key k t)) (kept.server k))
          (λ u.
            Keeps-bind (query (λ (t : Tables). t.server_key)) _
              (Keeps-query (λ (t : Tables). t.server_key)) (λ now. or_refuse-Keeps now no_key)))

    server_key-Keeps : (generated : Option Bytes) → Keeps I (server_key generated)
    unfolding server_key
    server_key-Keeps generated =
        Keeps-bind (query (λ (t : Tables). t.server_key)) _
          (Keeps-query (λ (t : Tables). t.server_key)) (store_key-Keeps generated)

    peers-Keeps : Keeps I (peers lib.text_of)
    unfolding peers
    peers-Keeps = Keeps-query _

    host_by_tunnel_ip-Keeps : (ip : ℕ) → Keeps I (host_by_tunnel_ip ip)
    unfolding host_by_tunnel_ip
    host_by_tunnel_ip-Keeps ip = Keeps-query _

    restore-holds :
        (s : Service) (t : Option Tunnel) → I s.db.tables → I (restore lib subnet s t).db.tables
    unfolding restore_peers
    restore-holds s none h = h
    restore-holds s (some t) h =
        restored-holds s t (peers lib.text_of s.db) (peers-Keeps.keeps s.db h)

    perform-holds :
        (r : Request) (s : Service)
        → may lib subnet allowed r ≡ true
        → I s.db.tables
        → I (perform lib subnet r s).db.tables
    unfolding perform create_host enroll
    perform-holds (creates n id raw now) s a h =
        service-if (is_empty (lib.trim_space n) || ltb 80 (length (lib.trim_space n))) (s, invalid)
          (create_named lib s (lib.trim_space n) id raw now) h
          (create_named-holds s (lib.trim_space n) id raw now (may_named n id raw now a) h)
      where
        may_named :
            (n : Bytes) (id raw : Option Bytes) (now : ℕ)
            → may lib subnet allowed (creates n id raw now) ≡ true
            → may lib subnet allowed (creates (lib.trim_space n) id raw now) ≡ true
        may_named n id none now a = a
        may_named n id (some raw) now a = a
    perform-holds (enrolls secret key now) s a h =
        service-if (lib.is_public_key key)
          (enrolled s (Store.enroll subnet (hash_secret lib secret) key now s.db)) (s, invalid)
          (enrolled-holds s _ ((kept.enroll (hash_secret lib secret) key now).keeps s.db h)) h
    perform-holds restores s a h = restore-holds s s.tunnel h
    perform-holds (finds ip) s a h = (host_by_tunnel_ip-Keeps ip).keeps s.db h
    perform-holds (keys generated) s a h = (server_key-Keeps generated).keeps s.db h

    pub run-holds :
        (rs : List Request) (s : Service)
        → every (may lib subnet allowed) rs ≡ true
        → I s.db.tables
        → I (run lib subnet rs s).db.tables
    run-holds [] s a h = h
    run-holds (r ∷ rs) s a h =
        run-holds rs (perform lib subnet r s) (ground (arith, a))
          (perform-holds r s (ground (arith, a)) h)

module _ (lib : Library) (subnet : Subnet) where
  all_may : (rs : List Request) → every (may lib subnet (λ h. true)) rs ≡ true
  all_may [] = refl
  all_may (creates n id none now ∷ rs) = all_may rs
  all_may (creates n id (some raw) now ∷ rs) = all_may rs
  all_may (enrolls secret key now ∷ rs) = all_may rs
  all_may (restores ∷ rs) = all_may rs
  all_may (finds ip ∷ rs) = all_may rs
  all_may (keys generated ∷ rs) = all_may rs

  -- In a subnet of its family, whatever calls were made and whatever statement of them failed, no two
  -- secrets have the same hash, no two peers share a host, a key or an address, and each peer has an
  -- address that is neither the network's, the server's nor the broadcast address.
  pub run-Sound :
      (rs : List Request) (s : Service)
      → subnet.network + subnet.size ≤ subnet.space
      → Sound subnet s.db.tables
      → Sound subnet (run lib subnet rs s).db.tables
  run-Sound rs s fits h =
      run-holds (Sound subnet) lib subnet (λ hash. true)
        (record {
          create = λ name hash now expires id a.
              create_enrollable_host-Keeps subnet name hash now expires id;
          enroll = λ hash key now. enroll-Keeps subnet fits hash key now;
          server = λ k t v. record {
            hashes = v.hashes;
            hosts = v.hosts;
            keys = v.keys;
            ips = v.ips;
            ranged = v.ranged;
          };
        })
        rs s (all_may rs) h
