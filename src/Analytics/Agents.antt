-- ===== src/Analytics/Agents.antt =====
-- internal/analytics/application/service.go and versions.go: what a User-Agent, in lower case, tells.
use smotryashchiy.Base.{
  Bool, ◌&&◌, ◌||◌, List, [], ◌∷◌, ◌++◌, Option, none, some, ℕ, Bytes, bytes_eq, leb, nat_eq,
  if◌then◌else◌, codes, starts_with, any, length, drop,
}

-- `strings.Contains s p`, with the part first.
abbrev pub contains : Bytes → Bytes → Bool
contains p [] = starts_with p []
contains p (c ∷ s) = starts_with p (c ∷ s) || contains p s

abbrev pub contains_any : List Bytes → Bytes → Bool
contains_any ps s = any (λ p. contains p s) ps

unfoldable pub bot_patterns : List Bytes
bot_patterns =
    codes "bot"
    ∷ codes "spider"
    ∷ codes "crawl"
    ∷ codes "slurp"
    ∷ codes "facebookexternalhit"
    ∷ codes "embedly"
    ∷ codes "quora link preview"
    ∷ codes "whatsapp"
    ∷ codes "google-inspectiontool"
    ∷ codes "bingpreview"
    ∷ codes "headlesschrome"
    ∷ codes "phantomjs"
    ∷ codes "pingdom"
    ∷ codes "uptimerobot"
    ∷ codes "curl/"
    ∷ codes "wget/"
    ∷ codes "python-requests"
    ∷ codes "go-http-client"
    ∷ codes "chrome-lighthouse"
    ∷ []

-- `isBotUA`
unfoldable pub is_bot : Bytes → Bool
unfolding bot_patterns
is_bot ua = contains_any bot_patterns ua

-- The cases of a `switch`: the first one that holds.
abbrev pub first_case : List (Bool × Bytes) → Bytes → Bytes
first_case [] otherwise = otherwise
first_case ((b, name) ∷ cases) otherwise = if b then name else first_case cases otherwise

-- `parseUserAgent`
unfoldable pub browser_of : Bytes → Bytes
browser_of ua =
    first_case
      ((contains (codes "yabrowser/") ua, codes "Yandex Browser")
        ∷ (contains_any (codes "edg/" ∷ codes "edgios/" ∷ codes "edga/" ∷ []) ua, codes "Edge")
        ∷ (contains_any (codes "opr/" ∷ codes "opera" ∷ []) ua, codes "Opera")
        ∷ (contains_any (codes "firefox/" ∷ codes "fxios/" ∷ []) ua, codes "Firefox")
        ∷ (contains_any (codes "chrome/" ∷ codes "crios/" ∷ []) ua, codes "Chrome")
        ∷ (contains (codes "safari/") ua, codes "Safari")
        ∷ [])
      (codes "Other")

unfoldable pub os_of : Bytes → Bytes
os_of ua =
    first_case
      ((contains (codes "windows") ua, codes "Windows")
        ∷ (contains_any (codes "iphone" ∷ codes "ipad" ∷ codes "ios" ∷ []) ua, codes "iOS")
        ∷ (contains_any (codes "mac os x" ∷ codes "macintosh" ∷ []) ua, codes "macOS")
        ∷ (contains (codes "android") ua, codes "Android")
        ∷ (contains (codes "linux") ua, codes "Linux")
        ∷ [])
      (codes "Other")

unfoldable pub device_of : Bytes → Bytes
device_of ua =
    first_case
      ((contains_any (codes "ipad" ∷ codes "tablet" ∷ []) ua, codes "tablet")
        ∷ (contains_any (codes "mobi" ∷ codes "iphone" ∷ codes "android" ∷ []) ua, codes "mobile")
        ∷ [])
      (codes "desktop")

abbrev pub is_digit : ℕ → Bool
is_digit c = leb b'0' c && leb c b'9'

-- `\d*` at the front.
abbrev pub digits : Bytes → Bytes
digits [] = []
digits (c ∷ s) = if is_digit c then c ∷ digits s else []

abbrev pub non_empty : Bytes → Option Bytes
non_empty [] = none
non_empty (c ∷ s) = some (c ∷ s)

-- `\d+` at the front.
abbrev pub number : Bytes → Option Bytes
number s = non_empty (digits s)

-- `(\d+)sep(\d+)` at the front, for the separators of a class, put together with a dot.
abbrev pub second_number : (ℕ → Bool) → Bytes → Bytes → Option Bytes
second_number is_sep major [] = none
second_number is_sep major (c ∷ s) =
    if is_sep c
    then (elim (number s) [ none ↦ none | some minor ↦ some (major ++ b'.' ∷ minor) ])
    else none

abbrev pub two_numbers : (ℕ → Bool) → Bytes → Option Bytes
two_numbers is_sep s = elim (number s) [
  | none ↦ none
  | some major ↦ second_number is_sep major (drop (length major) s)
]

-- One of the tokens at the front, and what the pattern finds behind it.
abbrev pub at_front : (Bytes → Option Bytes) → List Bytes → Bytes → Option Bytes
at_front pattern [] s = none
at_front pattern (t ∷ ts) s =
    let others = at_front pattern ts s in
    if starts_with t s
    then (elim (pattern (drop (length t) s)) [ none ↦ others | some m ↦ some m ])
    else others

-- `FindStringSubmatch`: the leftmost match.
abbrev pub find : (Bytes → Option Bytes) → List Bytes → Bytes → Option Bytes
find pattern ts [] = at_front pattern ts []
find pattern ts (c ∷ s) =
    let later = find pattern ts s in
    elim (at_front pattern ts (c ∷ s)) [ none ↦ later | some m ↦ some m ]

abbrev pub or_unknown : Option Bytes → Bytes
or_unknown none = []
or_unknown (some m) = m

-- `browserVersion`: the tokens before a browser's version.
unfoldable pub browser_tokens : Bytes → List Bytes
browser_tokens b =
    if bytes_eq b (codes "Yandex Browser")
    then codes "yabrowser/" ∷ []
    else if bytes_eq b (codes "Edge")
    then codes "edg/" ∷ codes "edga/" ∷ codes "edgios/" ∷ []
    else if bytes_eq b (codes "Opera")
    then codes "opr/" ∷ codes "opera/" ∷ []
    else if bytes_eq b (codes "Firefox")
    then codes "firefox/" ∷ codes "fxios/" ∷ []
    else if bytes_eq b (codes "Chrome")
    then codes "chrome/" ∷ codes "crios/" ∷ []
    else if bytes_eq b (codes "Safari")
    then codes "version/" ∷ []
    else []

-- `windowsNames`
unfoldable pub windows_name : Bytes → Bytes
windows_name v =
    if bytes_eq v (codes "10.0")
    then codes "10/11"
    else if bytes_eq v (codes "6.3")
    then codes "8.1"
    else if bytes_eq v (codes "6.2")
    then codes "8"
    else if bytes_eq v (codes "6.1")
    then codes "7"
    else []

abbrev pub is_dot : ℕ → Bool
is_dot c = nat_eq c b'.'

abbrev pub is_dot_or_bar : ℕ → Bool
is_dot_or_bar c = nat_eq c b'.' || nat_eq c b'_'

-- `uaVersions`
unfoldable pub browser_major : Bytes → Bytes → Bytes
unfolding browser_tokens
browser_major ua browser = or_unknown (find number (browser_tokens browser) ua)

unfoldable pub os_version : Bytes → Bytes → Bytes
unfolding windows_name
os_version ua os =
    if bytes_eq os (codes "Windows")
    then windows_name (or_unknown (find (two_numbers is_dot) (codes "windows nt " ∷ []) ua))
    else if bytes_eq os (codes "Android")
    then or_unknown (find number (codes "android " ∷ []) ua)
    else if bytes_eq os (codes "iOS")
    then or_unknown (find number (codes "iphone os " ∷ codes "cpu os " ∷ []) ua)
    else if bytes_eq os (codes "macOS")
    then or_unknown (find (two_numbers is_dot_or_bar) (codes "mac os x " ∷ []) ua)
    else []
