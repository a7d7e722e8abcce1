-- ===== src/Analytics/Channels.antt =====
-- internal/analytics/application/channels.go: the source and the channel of a visit.
pub mod Direct
use Prim.Native.String.{String}
use smotryashchiy.Base.{
  Bool, true, false, not, ◌&&◌, ◌||◌, List, [], ◌∷◌, ◌++◌, Option, none, some, Bytes, bytes_eq,
  nat_eq, if◌then◌else◌, codes, starts_with, is_empty, length, drop, leb, ◌-◌, any,
}
use smotryashchiy.Analytics.Beacon.{Utm, invalid_utm, is_unset}
use smotryashchiy.Analytics.Agents.{contains}

pub data Channel : Type 0 where
  paid_search organic_search paid_social social messengers ai_assistants email referral direct :
      Channel

pub data SourceKind : Type 0 where
  kind_other kind_search kind_social kind_messenger kind_ai kind_email : SourceKind

-- The host of the dictionary: a host with its subdomains, or a label with any top-level domain, which
-- the source writes with a dot at the end.
pub data Host : Type 0 where
  domain label : Bytes → Host

pub record KnownSource : Type 0 where
  pub name : String
  pub kind : SourceKind

unfoldable pub known_sources : List (Host × KnownSource)
known_sources =
    (domain (codes "alice.yandex.ru"), record { name = "Алиса"; kind = kind_ai })
    ∷ (domain (codes "gemini.google.com"), record { name = "Gemini"; kind = kind_ai })
    ∷ (domain (codes "chatgpt.com"), record { name = "ChatGPT"; kind = kind_ai })
    ∷ (domain (codes "chat.openai.com"), record { name = "ChatGPT"; kind = kind_ai })
    ∷ (domain (codes "perplexity.ai"), record { name = "Perplexity"; kind = kind_ai })
    ∷ (domain (codes "claude.ai"), record { name = "Claude"; kind = kind_ai })
    ∷ (domain (codes "copilot.microsoft.com"), record { name = "Copilot"; kind = kind_ai })
    ∷ (domain (codes "chat.deepseek.com"), record { name = "DeepSeek"; kind = kind_ai })
    ∷ (domain (codes "giga.chat"), record { name = "GigaChat"; kind = kind_ai })
    ∷ (domain (codes "zen.yandex.ru"), record { name = "Дзен"; kind = kind_social })
    ∷ (domain (codes "mail.yandex.ru"), record { name = "Яндекс Почта"; kind = kind_email })
    ∷ (domain (codes "e.mail.ru"), record { name = "Почта Mail"; kind = kind_email })
    ∷ (domain (codes "mail.google.com"), record { name = "Gmail"; kind = kind_email })
    ∷ (domain (codes "go.mail.ru"), record { name = "Поиск Mail"; kind = kind_search })
    ∷ (label (codes "yandex"), record { name = "Яндекс"; kind = kind_search })
    ∷ (domain (codes "ya.ru"), record { name = "Яндекс"; kind = kind_search })
    ∷ (label (codes "google"), record { name = "Google"; kind = kind_search })
    ∷ (domain (codes "bing.com"), record { name = "Bing"; kind = kind_search })
    ∷ (domain (codes "duckduckgo.com"), record { name = "DuckDuckGo"; kind = kind_search })
    ∷ (domain (codes "search.yahoo.com"), record { name = "Yahoo"; kind = kind_search })
    ∷ (domain (codes "nova.rambler.ru"), record { name = "Рамблер"; kind = kind_search })
    ∷ (domain (codes "vk.com"), record { name = "VK"; kind = kind_social })
    ∷ (domain (codes "vk.ru"), record { name = "VK"; kind = kind_social })
    ∷ (domain (codes "ok.ru"), record { name = "Одноклассники"; kind = kind_social })
    ∷ (domain (codes "dzen.ru"), record { name = "Дзен"; kind = kind_social })
    ∷ (domain (codes "youtube.com"), record { name = "YouTube"; kind = kind_social })
    ∷ (domain (codes "youtu.be"), record { name = "YouTube"; kind = kind_social })
    ∷ (domain (codes "tiktok.com"), record { name = "TikTok"; kind = kind_social })
    ∷ (domain (codes "pikabu.ru"), record { name = "Пикабу"; kind = kind_social })
    ∷ (domain (codes "rutube.ru"), record { name = "Rutube"; kind = kind_social })
    ∷ (domain (codes "t.me"), record { name = "Telegram"; kind = kind_messenger })
    ∷ (domain (codes "telegram.org"), record { name = "Telegram"; kind = kind_messenger })
    ∷ (domain (codes "web.whatsapp.com"), record { name = "WhatsApp"; kind = kind_messenger })
    ∷ (domain (codes "wa.me"), record { name = "WhatsApp"; kind = kind_messenger })
    ∷ (domain (codes "max.ru"), record { name = "MAX"; kind = kind_messenger })
    ∷ []

unfoldable pub utm_sources : List (Bytes × KnownSource)
utm_sources =
    (codes "yandex", record { name = "Яндекс"; kind = kind_search })
    ∷ (codes "google", record { name = "Google"; kind = kind_search })
    ∷ (codes "vk", record { name = "VK"; kind = kind_social })
    ∷ (codes "vkontakte", record { name = "VK"; kind = kind_social })
    ∷ (codes "ok", record { name = "Одноклассники"; kind = kind_social })
    ∷ (codes "dzen", record { name = "Дзен"; kind = kind_social })
    ∷ (codes "youtube", record { name = "YouTube"; kind = kind_social })
    ∷ (codes "telegram", record { name = "Telegram"; kind = kind_messenger })
    ∷ (codes "tg", record { name = "Telegram"; kind = kind_messenger })
    ∷ (codes "whatsapp", record { name = "WhatsApp"; kind = kind_messenger })
    ∷ (codes "max", record { name = "MAX"; kind = kind_messenger })
    ∷ (codes "chatgpt", record { name = "ChatGPT"; kind = kind_ai })
    ∷ (codes "email", record { name = "Email"; kind = kind_email })
    ∷ []

unfoldable pub paid_media : List Bytes
paid_media =
    codes "cpc"
    ∷ codes "ppc"
    ∷ codes "paid"
    ∷ codes "paidsearch"
    ∷ codes "paid_social"
    ∷ codes "paidsocial"
    ∷ codes "cpm"
    ∷ []

-- `strings.HasSuffix s p`, with the suffix first.
abbrev pub ends_with : Bytes → Bytes → Bool
ends_with p s = leb (length p) (length s) && bytes_eq (drop (length s - length p) s) p

abbrev pub trim_www : Bytes → Bytes
trim_www host = if starts_with (codes "www.") host then drop 4 host else host

abbrev pub fits : Host → Bytes → Bool
fits (domain d) host = bytes_eq host d || ends_with (b'.' ∷ d) host
fits (label l) host = starts_with (l ++ b'.' ∷ []) host || contains (b'.' ∷ l ++ b'.' ∷ []) host

abbrev pub first_fit : List (Host × KnownSource) → Bytes → Option KnownSource
first_fit [] host = none
first_fit ((h, k) ∷ rest) host = if fits h host then some k else first_fit rest host

abbrev pub first_name : List (Bytes × KnownSource) → Bytes → Option KnownSource
first_name [] s = none
first_name ((n, k) ∷ rest) s = if bytes_eq n s then some k else first_name rest s

-- `lookupHost`, at the host in lower case.
unfoldable pub lookup_host : Bytes → Option KnownSource
unfolding known_sources
lookup_host host = first_fit known_sources (trim_www host)

-- The name of a source: of the dictionary, the host's, the campaign's, or none.
pub data Source : Type 0 where
  named : String → Source
  hosted campaign : Bytes → Source
  unknown : Source

abbrev pub kind_is : SourceKind → SourceKind → Bool
kind_is kind_other kind_other = true
kind_is kind_search kind_search = true
kind_is kind_social kind_social = true
kind_is kind_messenger kind_messenger = true
kind_is kind_ai kind_ai = true
kind_is kind_email kind_email = true
kind_is a b = false

abbrev pub kind_of : Option KnownSource → SourceKind
kind_of none = kind_other
kind_of (some k) = k.kind

-- What the dictionaries know of the referrer or, without one, of the campaign.
unfoldable pub known_source : Bytes → Utm → Bytes → Option KnownSource
unfolding lookup_host utm_sources
known_source lower utm referrer = elim (lookup_host lower) [
  | some k ↦ some k
  | none ↦
      if is_empty referrer && not (is_empty utm.source) && not (bytes_eq utm.source invalid_utm)
      then first_name utm_sources utm.source
      else none
]

abbrev pub source_of : Option KnownSource → Bytes → Bytes → Utm → Source
source_of (some k) lower referrer utm = named k.name
source_of none lower referrer utm =
    if not (is_empty referrer)
    then hosted (trim_www lower)
    else if not (is_empty utm.source)
    then campaign utm.source
    else unknown

abbrev pub is_medium : Utm → Bytes → Bool
is_medium utm m = bytes_eq utm.medium m

-- The second `switch` of `classify`.
unfoldable pub channel_of : SourceKind → Bytes → Utm → Bool → Bool → Channel
channel_of kind referrer utm paid paid_medium =
    if paid || (paid_medium && kind_is kind kind_search)
    then paid_search
    else if paid_medium && kind_is kind kind_social
    then paid_social
    else if kind_is kind kind_search || is_medium utm (codes "organic")
    then organic_search
    else if kind_is kind kind_social || is_medium utm (codes "social")
    then social
    else if kind_is kind kind_messenger || is_medium utm (codes "messenger")
    then messengers
    else if kind_is kind kind_ai
    then ai_assistants
    else if kind_is kind kind_email || is_medium utm (codes "email")
    then email
    else if not (is_empty referrer) || not (is_unset utm)
    then referral
    else direct

-- `classify`, with the referrer in lower case beside it.
unfoldable pub classify : Bytes → Bytes → Utm → Bool → Source × Channel
unfolding known_source channel_of paid_media
classify lower referrer utm paid =
    let known = known_source lower utm referrer in
    (
      source_of known lower referrer utm,
      channel_of (kind_of known) referrer utm paid (any (λ m. bytes_eq m utm.medium) paid_media),
    )
