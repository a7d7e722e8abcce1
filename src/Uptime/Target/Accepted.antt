-- ===== src/Uptime/Target/Accepted.antt =====
-- domain.go: which targets are accepted.
use smotryashchiy.Base.{
  ◌≡◌, Bool, true, false, not, ◌&&◌, ◌||◌, Option, none, some, arith, Bytes, bytes_eq, bytes_eq_iff,
  leb, ltb, if◌then◌else◌, length, is_empty, codes, is_between, every, Bool-cases, Option-cases,
  inl, inr,
}
use smotryashchiy.Uptime.Target.{
  NewTarget, Url, Library, Checked, valid, invalid, bad_name, bad_interval, min_interval_seconds,
  max_interval_seconds, max_name_bytes, max_url_bytes, kind_of, is_host_char, is_port, check_url,
  check_host_port, check_address, trimmed, validate,
}

abbrev is_accepted : {A : Type 0} → Checked A → Bool
is_accepted (valid a) = true
is_accepted (invalid e) = false

abbrev pub Decides : Bool → NewTarget → Checked NewTarget → Type 0
Decides accepted n (valid m) = (accepted ≡ true) × (n ≡ m)
Decides accepted n (invalid e) = accepted ≡ false

decided :
    (n : NewTarget) (x : Checked (Unit {0})) (b : Bool)
    → is_accepted x ≡ b
    → Decides
        (not (is_empty n.name)
          && leb (length n.name) max_name_bytes
          && is_between min_interval_seconds max_interval_seconds n.interval_seconds
          && b)
        n
        (if is_empty n.name || ltb max_name_bytes (length n.name)
          then invalid bad_name
          else if is_between min_interval_seconds max_interval_seconds n.interval_seconds
          then (let y : Checked NewTarget = elim x [ valid u ↦ valid n | invalid e ↦ invalid e ] in
              y)
          else invalid bad_interval)
decided n (valid u) b h = ground arith
decided n (invalid e) b h = ground arith

module _ (lib : Library) where
  -- An absolute web address with a host, without credentials, with a port in range if it has one.
  abbrev web_ok : Option Url → Bool
  web_ok none = false
  web_ok (some u) =
      (bytes_eq u.scheme (codes "http") || bytes_eq u.scheme (codes "https"))
      && not (is_empty u.hostname)
      && not u.has_user
      && (is_empty u.port || is_port lib u.port)

  abbrev url_ok : Bytes → Bool
  url_ok raw = not (is_empty raw) && leb (length raw) max_url_bytes && web_ok (lib.parse_url raw)

  abbrev pair_ok : Option (Bytes × Bytes) → Bool
  pair_ok none = false
  pair_ok (some (host, port)) =
      not (is_empty host) && leb (length host) 253 && every is_host_char host && is_port lib port

  abbrev address_ok : Bytes → Bytes → Bool
  address_ok kind address =
      (bytes_eq kind (codes "http") && url_ok address)
      || ((bytes_eq kind (codes "tcp") || bytes_eq kind (codes "tls"))
          && pair_ok (lib.split_host_port address))

  abbrev pub acceptable : NewTarget → Bool
  acceptable n =
      not (is_empty n.name)
      && leb (length n.name) max_name_bytes
      && is_between min_interval_seconds max_interval_seconds n.interval_seconds
      && address_ok n.kind n.address

  check_url-ok : (raw : Bytes) → is_accepted (check_url lib raw) ≡ url_ok raw
  unfolding check_url
  check_url-ok raw = elim (Option-cases (lib.parse_url raw)) [
    | inl e ↦ ground arith
    | inr (u, e) ↦ ground arith
  ]

  check_host_port-ok :
      (raw : Bytes) → is_accepted (check_host_port lib raw) ≡ pair_ok (lib.split_host_port raw)
  unfolding check_host_port
  check_host_port-ok raw = elim (Option-cases (lib.split_host_port raw)) [
    | inl e ↦ ground arith
    | inr ((host, port), e) ↦ ground arith
  ]

  check_address-ok :
      (kind address : Bytes)
      → is_accepted (check_address lib (kind_of kind) address) ≡ address_ok kind address
  unfolding kind_of
  check_address-ok kind address = elim (Bool-cases (bytes_eq kind (codes "http"))) [
    | inl e ↦ rw ((bytes_eq_iff kind (codes "http")).0 e) (ground (arith, check_url-ok address))
    | inr e ↦ elim (Bool-cases (bytes_eq kind (codes "tcp"))) [
      | inl f ↦
          rw ((bytes_eq_iff kind (codes "tcp")).0 f) (ground (arith, check_host_port-ok address))
      | inr f ↦ rw e (rw f (ground (arith, check_host_port-ok address)))
    ]
  ]

  -- A target is accepted exactly if its trimmed name has 1 to 80 bytes, its interval, 60 if it is 0, is
  -- 30 to 3600 seconds, and its trimmed address is a web address for kind http, and a host with a port
  -- for kinds tcp and tls; what comes out is the trimmed definition.
  pub validate_target_lem :
      (n : NewTarget) → Decides (acceptable (trimmed lib n)) (trimmed lib n) (validate lib n)
  unfolding validate
  validate_target_lem n =
      decided (trimmed lib n) (check_address lib (kind_of n.kind) (lib.trim_space n.address))
        (address_ok n.kind (lib.trim_space n.address))
        (check_address-ok n.kind (lib.trim_space n.address))
