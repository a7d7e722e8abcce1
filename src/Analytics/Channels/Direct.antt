-- ===== src/Analytics/Channels/Direct.antt =====
-- channels.go: which visits are direct.
use smotryashchiy.Base.{
  ◌≡◌, refl, ◌∙◌, sym, ap, Bool, true, false, not, ◌&&◌, ◌||◌, [], ◌∷◌, arith, Bytes, is_empty,
  Bool-cases, inl, inr, codes, if◌then◌else◌,
}
use smotryashchiy.Analytics.Beacon.{Utm, is_unset}
use smotryashchiy.Analytics.Channels.{
  Channel, paid_search, organic_search, paid_social, social, messengers, ai_assistants, email,
  referral, direct, SourceKind, kind_is, kind_search, kind_social, kind_messenger, kind_ai,
  kind_email, known_sources, utm_sources, paid_media, lookup_host, known_source, is_medium,
  channel_of, classify,
}

abbrev pub is_direct : Channel → Bool
is_direct direct = true
is_direct c = false

-- Nothing tells where the visit came from.
abbrev pub is_bare : Bytes → Utm → Bool → Bool
is_bare referrer utm paid = is_empty referrer && is_unset utm && not paid

-- The tests of the `switch`, with what they come to.
first_tests :
    (paid a b c d e f g h : Bool)
    → is_direct (
        if paid || a
        then paid_search
        else if b
        then paid_social
        else if c
        then organic_search
        else if d
        then social
        else if e
        then messengers
        else if f
        then ai_assistants
        else if g
        then email
        else if h
        then referral
        else direct)
      ≡ not (paid || a || b || c || d || e || f || g || h)
first_tests paid a b c d e f g h = ground arith

not_direct :
    (kind : SourceKind) (referrer : Bytes) (utm : Utm) (paid media : Bool)
    → is_bare referrer utm paid ≡ false
    → is_direct (channel_of kind referrer utm paid media) ≡ false
unfolding channel_of
not_direct kind referrer utm paid media h =
    first_tests paid (media && kind_is kind kind_search) (media && kind_is kind kind_social)
      (kind_is kind kind_search || is_medium utm (codes "organic"))
      (kind_is kind kind_social || is_medium utm (codes "social"))
      (kind_is kind kind_messenger || is_medium utm (codes "messenger")) (kind_is kind kind_ai)
      (kind_is kind kind_email || is_medium utm (codes "email"))
      (not (is_empty referrer) || not (is_unset utm))
    ∙ bare_last paid (is_empty referrer) (is_unset utm) _ _ _ _ _ _ _ h
  where
    bare_last :
        (paid r u a b c d e f g : Bool)
        → (r && u && not paid) ≡ false
        → not (paid || a || b || c || d || e || f || g || (not r || not u)) ≡ false
    bare_last paid r u a b c d e f g h = ground arith

bare_utm :
    (a b c d e : Bytes)
    → (is_empty a && is_empty b && is_empty c && is_empty d && is_empty e) ≡ true
    → is_direct
        (classify [] []
          (record { source = a; medium = b; campaign = c; content = d; term = e })
          false).1
      ≡ true
unfolding classify known_source lookup_host known_sources utm_sources paid_media channel_of
bare_utm [] [] [] [] [] h = refl
bare_utm a b c d e h = cc

bare_visit :
    (utm : Utm) (paid : Bool)
    → is_bare [] utm paid ≡ true
    → is_direct (classify [] [] utm paid).1 ≡ true
bare_visit utm true h = ground arith
bare_visit utm false h =
    bare_utm utm.source utm.medium utm.campaign utm.content utm.term (ground arith)

-- A visit is direct exactly if it has no referrer from elsewhere, no campaign value and no paid click;
-- the text in lower case of no referrer is empty.
pub classify-direct :
    (lower referrer : Bytes) (utm : Utm) (paid : Bool)
    → (referrer ≡ [] → lower ≡ [])
    → is_direct (classify lower referrer utm paid).1 ≡ is_bare referrer utm paid
unfolding classify
classify-direct lower [] utm paid l = elim (Bool-cases (is_bare [] utm paid)) [
  | inl e ↦
      ap (λ (x : Bytes). is_direct (classify x [] utm paid).1) (l refl)
      ∙ bare_visit utm paid e
      ∙ sym e
  | inr e ↦ not_direct _ [] utm paid _ e ∙ sym e
]
classify-direct lower (c ∷ r) utm paid l = not_direct _ (c ∷ r) utm paid _ refl
