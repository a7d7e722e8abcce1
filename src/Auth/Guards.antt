-- ===== src/Auth/Guards.antt =====
-- internal/auth/interfaces/http/middleware.go: the guards in front of every API handler.
use smotryashchiy.Base.{
  ℕ, ◌≡◌, ◌⊎◌, Bool, true, false, not, ◌&&◌, ◌||◌, Option, none, some, arith, Bytes, bytes_eq, ltb,
  if◌then◌else◌, codes, starts_with, is_empty,
}
use smotryashchiy.Auth.Service.{Service, ok, err, validate_session}

-- Of Go's library: `url.Parse(origin)` down to its host, `mime.ParseMediaType` and
-- `strings.EqualFold`.
pub record Http : Type 0 where
  pub origin_host : Bytes → Option Bytes
  pub media_type : Bytes → Option Bytes
  pub equal_fold : Bytes → Bytes → Bool

-- `ContentLength`, which is -1 when it is not known.
pub data BodyLength : Type 0 where
  known : ℕ → BodyLength
  unknown : BodyLength

-- A header that is not there reads as "".
pub record Request : Type 0 where
  pub path : Bytes
  pub method : Bytes
  pub host : Bytes
  pub sec_fetch_site : Bytes
  pub origin : Bytes
  pub content_type : Bytes
  pub body : BodyLength
  pub cookie : Option Bytes

pub data Verdict : Type 0 where
  next forbidden unsupported_media session_invalid : Verdict

unfoldable pub is_api_path : Bytes → Bool
is_api_path path = bytes_eq path (codes "/api") || starts_with (codes "/api/") path

unfoldable pub public_api_paths : Bytes → Bool
public_api_paths path =
    bytes_eq path (codes "/api/auth/login")
    || bytes_eq path (codes "/api/enroll")
    || bytes_eq path (codes "/api/auth/session")
    || bytes_eq path (codes "/api/collect")

unfoldable pub cross_origin_exempt : Bytes → Bool
cross_origin_exempt path =
    bytes_eq path (codes "/api/collect") || bytes_eq path (codes "/api/enroll")

unfoldable pub is_safe_method : Bytes → Bool
is_safe_method m =
    bytes_eq m (codes "GET") || bytes_eq m (codes "HEAD") || bytes_eq m (codes "OPTIONS")

unfoldable pub has_body : BodyLength → Bool
has_body (known n) = ltb 0 n
has_body unknown = true

module _ (http : Http) where
  abbrev same_host : Option Bytes → Bytes → Bool
  same_host none host = false
  same_host (some h) host = if is_empty h then false else http.equal_fold h host

  unfoldable pub same_origin_request : Request → Bool
  same_origin_request r =
      if not (is_empty r.sec_fetch_site)
      then bytes_eq r.sec_fetch_site (codes "same-origin")
        || bytes_eq r.sec_fetch_site (codes "none")
      else if is_empty r.origin
      then true
      else same_host (http.origin_host r.origin) r.host

  abbrev json_type : Option Bytes → Bool
  json_type none = false
  json_type (some t) = bytes_eq t (codes "application/json")

  unfoldable pub is_json : Bytes → Bool
  is_json content_type = json_type (http.media_type content_type)

  unfoldable pub guard_cross_origin_writes : Request → Verdict → Verdict
  guard_cross_origin_writes r next_guard =
      if not (is_api_path r.path) || is_safe_method r.method || cross_origin_exempt r.path
      then next_guard
      else if not (same_origin_request r)
      then forbidden
      else if has_body r.body && not (is_json r.content_type)
      then unsupported_media
      else next_guard

unfoldable pub require_session : Service → Request → ℕ → Verdict
require_session svc r now =
    if not (is_api_path r.path) || public_api_paths r.path then next else (elim r.cookie [
      | none ↦ session_invalid
      | some token ↦ elim (validate_session svc token now) [ ok u ↦ next | err e ↦ session_invalid ]
    ])

-- `Protect`: the write guard outermost, then the session.
unfoldable pub protect : Http → Service → Request → ℕ → Verdict
protect http svc r now = guard_cross_origin_writes http r (require_session svc r now)

-- A request reaches a handler of the API that is not public only with a cookie whose session is
-- valid at that time, and one that may write, besides, only from the same origin and with a JSON
-- body if it has one (the beacon and the enrollment, which are exempt from that, are public).
pub protected_needs_session :
    (http : Http) (svc : Service) (r : Request) (now : ℕ)
    → is_api_path r.path ≡ true
    → public_api_paths r.path ≡ false
    → protect http svc r now ≡ next
    → ((token : Bytes) × (r.cookie ≡ some token) × (validate_session svc token now ≡ ok tt))
      × ((is_safe_method r.method ≡ true)
          ⊎ ((same_origin_request http r ≡ true)
              × ((has_body r.body ≡ false) ⊎ (is_json http r.content_type ≡ true))))
unfolding protect guard_cross_origin_writes require_session public_api_paths cross_origin_exempt
protected_needs_session http svc r now a p h = ground arith

-- A write to the API from another origin is refused as forbidden with or without a valid session,
-- unless its route is exempt.
pub foreign_write_forbidden :
    (http : Http) (svc : Service) (r : Request) (now : ℕ)
    → is_api_path r.path ≡ true
    → is_safe_method r.method ≡ false
    → cross_origin_exempt r.path ≡ false
    → same_origin_request http r ≡ false
    → protect http svc r now ≡ forbidden
unfolding protect guard_cross_origin_writes
foreign_write_forbidden http svc r now a m e o = ground arith
