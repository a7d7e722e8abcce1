-- ===== src/Telemetry/Enrollment/Service.antt =====
-- internal/telemetry/application/enrollment.go. The clock's reading, the random identifier and the
-- random secret are arguments.
use smotryashchiy.Base.{
  ℕ, ◌+◌, ◌*◌, ◌^◌, Bool, true, false, ◌||◌, List, [], ◌∷◌, Option, none, some, Bytes, ltb,
  if◌then◌else◌, is_empty, length, next_fails, later_faults,
}
use smotryashchiy.Sql.{Db, Result, ok, err, Fault}
use smotryashchiy.Telemetry.Enrollment.Addresses.{Subnet}
use smotryashchiy.Telemetry.Enrollment.Store
use smotryashchiy.Telemetry.Enrollment.Store.{
  Tables, Error, Host, Peer, create_enrollable_host, peers,
}

-- The Go library and the tunnel's keys: `TrimSpace`, SHA-256 as hexadecimal digits, base64, the test
-- of a WireGuard key, and the text of an address.
pub record Library : Type 0 where
  pub trim_space : Bytes → Bytes
  pub sha256 : Bytes → Bytes
  pub base64 : Bytes → Bytes
  pub is_public_key : Bytes → Bool
  pub text_of : ℕ → Bytes

-- one hour
abbrev pub enrollment_ttl : ℕ
enrollment_ttl = 60 * 60 * 10 ^ 9

-- The tunnel: the peers that it accepts, the newest first, and which calls of `AddPeer` fail.
pub record Tunnel : Type 0 where
  pub accepted : List (Bytes × ℕ)
  pub faults : List Bool

-- The service; its subnet is an argument of what uses it.
pub record Service : Type 0 where
  pub db : Db Tables
  pub tunnel : Option Tunnel

pub data Answer (A : Type 0) : Type 0 where
  done : A → Answer A
  invalid : Answer A
  failed : Fault Error → Answer A
  no_entropy : Answer A
  refused_peer : Answer A

-- What enrollment tells the agent; the server's own address is the same for all.
pub record Enrollment : Type 0 where
  pub host_id : Bytes
  pub tunnel_ip : ℕ

abbrev pub answered : {A : Type 0} → Service → Result Error A × Db Tables → Service × Answer A
answered s (ok a, d) = (record s { db = d }, done a)
answered s (err e, d) = (record s { db = d }, failed e)

-- The host, its secret and when that expires.
abbrev pub with_secret : Bytes → ℕ → Service × Answer Host → Service × Answer (Host × Bytes × ℕ)
with_secret secret expires (s, done h) = (s, done (h, secret, expires))
with_secret secret expires (s, invalid) = (s, invalid)
with_secret secret expires (s, failed e) = (s, failed e)
with_secret secret expires (s, no_entropy) = (s, no_entropy)
with_secret secret expires (s, refused_peer) = (s, refused_peer)

abbrev pub add_peer : Tunnel → Bytes → ℕ → Tunnel × Bool
add_peer t key ip =
    if next_fails t.faults
    then (record t { faults = later_faults t.faults }, false)
    else (record { accepted = (key, ip) ∷ t.accepted; faults = later_faults t.faults }, true)

abbrev pub told : Service → Peer → Tunnel × Bool → Service × Answer Enrollment
told s p (t, true) =
    (record s { tunnel = some t }, done (record { host_id = p.host_id; tunnel_ip = p.tunnel_ip }))
told s p (t, false) = (record s { tunnel = some t }, refused_peer)

abbrev pub let_in : Service → Peer → Option Tunnel → Service × Answer Enrollment
let_in s p none = (s, done (record { host_id = p.host_id; tunnel_ip = p.tunnel_ip }))
let_in s p (some t) = told s p (add_peer t p.public_key p.tunnel_ip)

abbrev pub enrolled : Service → Result Error Peer × Db Tables → Service × Answer Enrollment
enrolled s (err e, d) = (record s { db = d }, failed e)
enrolled s (ok p, d) = let_in (record s { db = d }) p s.tunnel

-- The loop of `RestorePeers`: the peers that it added, or none at the first that was refused.
abbrev pub add_peers : Tunnel → List Peer → Tunnel × Bool
add_peers t [] = (t, true)
add_peers t (p ∷ ps) =
    let (t', added) = add_peer t p.public_key p.tunnel_ip in
    let rest = add_peers t' ps in if added then rest else (t', false)

abbrev pub restored : Service → Tunnel → Result Error (List Peer) × Db Tables → Service × Answer ℕ
restored s t (err e, d) = (record s { db = d }, failed e)
restored s t (ok ps, d) =
    let (t', added) = add_peers t ps in
    (record s { db = d; tunnel = some t' }, (if added then done (length ps) else refused_peer))

module _ (lib : Library) where
  -- `HashSecret`
  abbrev pub hash_secret : Bytes → Bytes
  hash_secret secret = lib.sha256 secret

  abbrev pub create_named :
      Service → Bytes → Option Bytes → Option Bytes → ℕ → Service × Answer (Host × Bytes × ℕ)
  create_named s name id none now = (s, no_entropy)
  create_named s name id (some raw) now =
      let secret = lib.base64 raw in
      with_secret secret (now + enrollment_ttl) (
        answered s
          (create_enrollable_host name (hash_secret secret) now (now + enrollment_ttl) id s.db))

  -- `CreateHost`
  unfoldable pub create_host :
      Service → Bytes → Option Bytes → Option Bytes → ℕ → Service × Answer (Host × Bytes × ℕ)
  create_host s n id raw now =
      let name = lib.trim_space n in
      if is_empty name || ltb 80 (length name) then (s, invalid) else create_named s name id raw now

  -- `Enroll`
  unfoldable pub enroll : Subnet → Service → Bytes → Bytes → ℕ → Service × Answer Enrollment
  enroll subnet s secret key now =
      if lib.is_public_key key
      then enrolled s (Store.enroll subnet (hash_secret secret) key now s.db)
      else (s, invalid)

  -- `RestorePeers`, where there is a tunnel.
  unfoldable pub restore_peers : Service → Tunnel → Service × Answer ℕ
  restore_peers s t = restored s t (peers lib.text_of s.db)
