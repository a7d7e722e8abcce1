-- ===== src/Telemetry/Enrollment/Store.antt =====
-- internal/telemetry/infrastructure/enrollment.go, with the keys of 0002_telemetry.sql and
-- 0004_enrollment.sql. Stored times are milliseconds; the text of an address is the address.
use smotryashchiy.Base.{
  ℕ, ◌-◌, ◌*◌, ◌/◌, ◌%◌, ◌^◌, Bool, true, false, not, ◌&&◌, ◌||◌, List, [], ◌∷◌, ◌++◌, Option, none,
  some, map, Bytes, bytes_eq, ltb, nat_eq, if◌then◌else◌, any, lex_lt,
}
use smotryashchiy.Sql.{
  Fault, database, refused, Action, ◌>>=◌, ◌>>◌, pure, refuse, statement, constrained, query, exec,
  transaction, order_by,
}
use smotryashchiy.Telemetry.Storage.Rows.{HostRow}
use smotryashchiy.Telemetry.Enrollment.Addresses.{Subnet, next_free_addr}

pub record Host : Type 0 where
  pub id : Bytes
  pub name : Bytes
  pub created_at : ℕ

pub record Peer : Type 0 where
  pub host_id : Bytes
  pub public_key : Bytes
  pub tunnel_ip : ℕ
  pub enrolled_at : ℕ

pub record EnrollmentRow : Type 0 where
  pub host_id : Bytes
  pub secret_hash : Bytes
  pub expires_at : ℕ
  pub used_at : Option ℕ

-- The rows of `host_peers` are peers, with the time in milliseconds; `server_key` is the row of
-- `settings`.
pub record Tables : Type 0 where
  pub hosts : List HostRow
  pub enrollments : List EnrollmentRow
  pub peers : List Peer
  pub server_key : Option Bytes

pub data Error : Type 0 where
  no_random name_taken unauthorized exhausted key_taken no_key : Error

abbrev pub Store : Type 0 → Type 0
Store A = Action Tables Error A

abbrev pub unix_milli : ℕ → ℕ
unix_milli t = t / 10 ^ 6

abbrev pub of_milli : ℕ → ℕ
of_milli ms = ms * 10 ^ 6

-- The keys of `hosts`, and of `host_enrollments` with its reference.
abbrev pub violates_host : HostRow → Tables → Option (Fault Error)
violates_host h t =
    if any (λ (x : HostRow). bytes_eq x.id h.id || bytes_eq x.name h.name) t.hosts
    then some (refused name_taken)
    else none

abbrev pub has_host : Bytes → Tables → Bool
has_host id t = any (λ (x : HostRow). bytes_eq x.id id) t.hosts

abbrev pub violates_enrollment : EnrollmentRow → Tables → Option (Fault Error)
violates_enrollment e t =
    if any (λ (x : EnrollmentRow). bytes_eq x.secret_hash e.secret_hash) t.enrollments
      || not (has_host e.host_id t)
    then some database
    else none

abbrev pub host_row : Host → HostRow
host_row h = record {
  id = h.id;
  name = h.name;
  created_at = unix_milli h.created_at;
  last_seen_at = none;
}

abbrev pub insert_host : Host → Store (Unit {0})
insert_host h =
    constrained (violates_host (host_row h))
      (λ t. (tt, record t { hosts = t.hosts ++ host_row h ∷ [] }))

abbrev pub insert_enrollment : EnrollmentRow → Store (Unit {0})
insert_enrollment e =
    constrained (violates_enrollment e)
      (λ t. (tt, record t { enrollments = t.enrollments ++ e ∷ [] }))

abbrev pub new_host : Bytes → Bytes → ℕ → Host
new_host id name now = record { id = id; name = name; created_at = now - now % 10 ^ 6 }

abbrev pub new_enrollment : Bytes → Bytes → ℕ → EnrollmentRow
new_enrollment host_id hash expires_at = record {
  host_id = host_id;
  secret_hash = hash;
  expires_at = unix_milli expires_at;
  used_at = none;
}

-- `CreateEnrollableHost`, with the random identifier.
unfoldable pub create_enrollable_host : Bytes → Bytes → ℕ → ℕ → Option Bytes → Store Host
create_enrollable_host name hash now expires_at none = refuse no_random
create_enrollable_host name hash now expires_at (some id) = transaction (do
  insert_host (new_host id name now)
  insert_enrollment (new_enrollment id hash expires_at)
  pure (new_host id name now))

abbrev pub is_unused : EnrollmentRow → Bool
is_unused e = elim e.used_at [ none ↦ true | some t ↦ false ]

-- `WHERE secret_hash = ? AND used_at IS NULL AND expires_at > ?`
abbrev pub is_open : ℕ → Bytes → EnrollmentRow → Bool
is_open ms hash e = bytes_eq e.secret_hash hash && is_unused e && ltb ms e.expires_at

abbrev pub spend : ℕ → Bytes → EnrollmentRow → EnrollmentRow
spend ms hash e = if is_open ms hash e then record e { used_at = some ms } else e

-- `RETURNING host_id`
abbrev pub first_host : ℕ → Bytes → List EnrollmentRow → Option Bytes
first_host ms hash [] = none
first_host ms hash (e ∷ es) = if is_open ms hash e then some e.host_id else first_host ms hash es

abbrev pub consume : ℕ → Bytes → Tables → Option Bytes × Tables
consume ms hash t =
    (first_host ms hash t.enrollments, record t { enrollments = map (spend ms hash) t.enrollments })

abbrev pub same_host : Peer → Peer → Bool
same_host a b = bytes_eq a.host_id b.host_id

abbrev pub same_key : Peer → Peer → Bool
same_key a b = bytes_eq a.public_key b.public_key

abbrev pub same_ip : Peer → Peer → Bool
same_ip a b = nat_eq a.tunnel_ip b.tunnel_ip

-- The keys of `host_peers`, and its reference.
abbrev pub violates_peer : Peer → Tables → Option (Fault Error)
violates_peer p t =
    if any (same_host p) t.peers || any (same_key p) t.peers || any (same_ip p) t.peers
    then some (refused key_taken)
    else if has_host p.host_id t
    then none
    else some database

abbrev pub peer_row : Peer → Peer
peer_row p = record p { enrolled_at = unix_milli p.enrolled_at }

abbrev pub insert_peer : Peer → Store (Unit {0})
insert_peer p =
    constrained (violates_peer (peer_row p))
      (λ t. (tt, record t { peers = t.peers ++ peer_row p ∷ [] }))

abbrev pub tunnel_ips : Tables → List ℕ
tunnel_ips t = map (λ (p : Peer). p.tunnel_ip) t.peers

abbrev pub new_peer : Bytes → Bytes → ℕ → ℕ → Peer
new_peer host_id public_key now ip = record {
  host_id = host_id;
  public_key = public_key;
  tunnel_ip = ip;
  enrolled_at = now - now % 10 ^ 6;
}

-- What follows the address that was found.
abbrev pub placed : Bytes → Bytes → ℕ → Option ℕ → Store Peer
placed host_id public_key now none = refuse exhausted
placed host_id public_key now (some ip) = do
  insert_peer (new_peer host_id public_key now ip)
  pure (new_peer host_id public_key now ip)

-- What follows the secret that was consumed.
abbrev pub admitted : Subnet → Bytes → ℕ → Option Bytes → Store Peer
admitted subnet public_key now none = refuse unauthorized
admitted subnet public_key now (some host_id) = do
  used ← query tunnel_ips
  placed host_id public_key now (next_free_addr subnet used)

-- `Enroll`
unfoldable pub enroll : Subnet → Bytes → Bytes → ℕ → Store Peer
enroll subnet hash public_key now =
    transaction
      (do found ← statement (consume (unix_milli now) hash); admitted subnet public_key now found)

abbrev pub scan_peer : Peer → Peer
scan_peer p = record p { enrolled_at = of_milli p.enrolled_at }

-- `ORDER BY tunnel_ip`, by the text of the address.
abbrev pub comes_first : (ℕ → Bytes) → Peer → Peer → Bool
comes_first text a b = not (lex_lt (text b.tunnel_ip) (text a.tunnel_ip))

-- `Peers`
unfoldable pub peers : (ℕ → Bytes) → Store (List Peer)
peers text = query (λ t. map scan_peer (order_by (comes_first text) t.peers))

abbrev pub host_at : ℕ → List Peer → Option Bytes
host_at ip [] = none
host_at ip (p ∷ ps) = if nat_eq p.tunnel_ip ip then some p.host_id else host_at ip ps

-- `HostByTunnelIP`
unfoldable pub host_by_tunnel_ip : ℕ → Store (Option Bytes)
host_by_tunnel_ip ip = query (λ t. host_at ip t.peers)

abbrev pub put_key : Bytes → Tables → Tables
put_key key t = record t {
  server_key = elim t.server_key [ none ↦ some key | some old ↦ some old ];
}

abbrev pub or_refuse : {A : Type 0} → Option A → Error → Store A
or_refuse none e = refuse e
or_refuse (some a) e = pure a

abbrev pub store_key : Option Bytes → Option Bytes → Store Bytes
store_key generated (some key) = pure key
store_key generated none = do
  private ← or_refuse generated no_random
  exec (put_key private)
  now ← query (λ t. t.server_key)
  or_refuse now no_key

-- `ServerKey`, with the key that `GenerateKey` makes.
unfoldable pub server_key : Option Bytes → Store Bytes
server_key generated = do found ← query (λ t. t.server_key); store_key generated found
