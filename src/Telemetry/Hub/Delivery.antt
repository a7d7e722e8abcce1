-- ===== src/Telemetry/Hub/Delivery.antt =====
-- hub.go: no panic, bounded buffers, and what one publication does to one subscriber.
use mathlib.Core.Path.{subst}
use smotryashchiy.Base.{
  ℕ, ◌≤◌, ◌≡◌, refl, Bool, true, false, ◌&&◌, List, [], ◌∷◌, ◌++◌, arith, append_assoc, append-nil,
  ltb, leb, nat_eq, if◌then◌else◌, length, length-append, take, keep_if, map, All, Bool-cases, inl,
  inr, ap, ◌∙◌,
}
use smotryashchiy.Telemetry.Hub.{
  Message, Subscription, Hub, new_hub, subscriber_buffer, disconnect, subscribe, unsubscribe_one,
  unsubscribe, is_wanted, offer, deliver, publish_one, publish, close_one, close, receive_one,
  receive, Call, call, calls, subscribes, unsubscribes, receives, publishes, closes_hub,
}

-- A live subscription has its channel open, any other has had it closed once; nothing was sent after
-- that, and the channel holds no more than its buffer.
pub record Sound (sub : Subscription) : Type 0 where
  pub closed_once : sub.closes ≡ (if sub.live then 0 else 1)
  pub in_time : sub.late ≡ 0
  pub buffered : length sub.queue ≤ subscriber_buffer
  pub dropped_dead : (sub.live && sub.dropped) ≡ false

abbrev pub AllSound : List (ℕ × Subscription) → Type 0
AllSound subs = All (λ (kv : ℕ × Subscription). Sound kv.1) subs

disconnect-Sound : (sub : Subscription) → sub.live ≡ true → Sound sub → Sound (disconnect sub)
disconnect-Sound sub l s = record {
  closed_once = ground (arith, s.closed_once);
  in_time = s.in_time;
  buffered = s.buffered;
  dropped_dead = refl;
}

offer-Sound : (sub : Subscription) (m : Message) → sub.live ≡ true → Sound sub → Sound (offer sub m)
offer-Sound sub m l s = record {
  closed_once = ground (arith, s.closed_once);
  in_time = ground (arith, s.in_time, s.closed_once);
  buffered = ground (arith, s.buffered, length-append sub.queue (m ∷ []));
  dropped_dead = ground (arith, s.dropped_dead);
}

offer-live :
    (sub : Subscription) (m : Message)
    → sub.live ≡ true
    → (offer sub m).dropped ≡ false
    → (offer sub m).live ≡ true
offer-live sub m l h = ground arith

deliver-Sound :
    (sub : Subscription) (msgs : List Message)
    → sub.live ≡ true
    → Sound sub
    → Sound (deliver sub msgs)
unfolding deliver
deliver-Sound sub [] l s = s
deliver-Sound sub (m ∷ ms) l s = elim (Bool-cases (is_wanted sub m)) [
  | inr e ↦ rw e (deliver-Sound sub ms l s)
  | inl e ↦ rw e (elim (Bool-cases (offer sub m).dropped) [
    | inl d ↦ rw d (offer-Sound sub m l s)
    | inr d ↦ rw d (deliver-Sound (offer sub m) ms (offer-live sub m l d) (offer-Sound sub m l s))
  ])
]

-- A change of each subscription by itself that keeps it sound keeps all of them sound.
map-AllSound :
    (f : ℕ × Subscription → ℕ × Subscription)
    → ((kv : ℕ × Subscription) → Sound kv.1 → Sound (f kv).1)
    → (subs : List (ℕ × Subscription)) → AllSound subs
    → AllSound (map f subs)
map-AllSound f h [] a = a
map-AllSound f h (kv ∷ subs) a = (h kv a.0, map-AllSound f h subs a.1)

if-Sound :
    (b : Bool) (x y : Subscription)
    → (b ≡ true → Sound x)
    → (b ≡ false → Sound y)
    → Sound (if b then x else y)
if-Sound true x y h k = h refl
if-Sound false x y h k = k refl

unsubscribe_one-Sound :
    (id : ℕ) (kv : ℕ × Subscription) → Sound kv.1 → Sound (unsubscribe_one id kv).1
unsubscribe_one-Sound id (k, sub) s =
    if-Sound (nat_eq k id && sub.live) (disconnect sub) sub
      (λ e. disconnect-Sound sub (ground arith) s) (λ e. s)

publish_one-Sound :
    (msgs : List Message) (kv : ℕ × Subscription) → Sound kv.1 → Sound (publish_one msgs kv).1
publish_one-Sound msgs (k, sub) s =
    if-Sound sub.live (deliver sub msgs) sub (λ e. deliver-Sound sub msgs e s) (λ e. s)

close_one-Sound : (kv : ℕ × Subscription) → Sound kv.1 → Sound (close_one kv).1
close_one-Sound (k, sub) s =
    if-Sound sub.live (disconnect sub) sub (λ e. disconnect-Sound sub e s) (λ e. s)

receive_one-Sound : (id : ℕ) (kv : ℕ × Subscription) → Sound kv.1 → Sound (receive_one id kv).1
receive_one-Sound id (k, sub) s = record {
  closed_once = ground (arith, s.closed_once);
  in_time = ground (arith, s.in_time);
  buffered = ground (arith, s.buffered);
  dropped_dead = ground (arith, s.dropped_dead);
}

call-AllSound : (h : Hub) (c : Call) → AllSound h.subs → AllSound (call h c).subs
unfolding subscribe unsubscribe publish close receive
call-AllSound h (subscribes id host typ) a = (
  record {
    closed_once = ground arith;
    in_time = refl;
    buffered = omega arith;
    dropped_dead = ground arith;
  },
  a,
)
call-AllSound h (unsubscribes id) a =
    map-AllSound (unsubscribe_one id) (unsubscribe_one-Sound id) h.subs a
call-AllSound h (receives id) a = map-AllSound (receive_one id) (receive_one-Sound id) h.subs a
call-AllSound h (publishes []) a = a
call-AllSound h (publishes (m ∷ ms)) a =
    map-AllSound (publish_one (m ∷ ms)) (publish_one-Sound (m ∷ ms)) h.subs a
call-AllSound h closes_hub a = map-AllSound close_one close_one-Sound h.subs a

calls-AllSound : (h : Hub) (cs : List Call) → AllSound h.subs → AllSound (calls h cs).subs
calls-AllSound h [] a = a
calls-AllSound h (c ∷ cs) a = calls-AllSound (call h c) cs (call-AllSound h c a)

-- Whatever is called on a hub, in whatever order: each channel is closed once when its subscription
-- leaves the hub and not before, nothing is ever sent on a closed channel, and no channel holds more
-- than 64 messages.
pub hub_sound : (cs : List Call) → AllSound (calls new_hub cs).subs
hub_sound cs = calls-AllSound new_hub cs tt

take-exactly : {A : Type 0} (xs ys : List A) → take (length xs) (xs ++ ys) ≡ xs
take-exactly [] ys = refl
take-exactly (x ∷ xs) ys = ap (◌∷◌ x) (take-exactly xs ys)

else-taken : {A : Type 0} (b : Bool) (x y : A) → b ≡ false → (if b then x else y) ≡ y
else-taken b x y h = rw h refl

offer_room :
    (sub : Subscription) (m : Message)
    → sub.live ≡ true
    → Sound sub
    → ltb (length sub.queue) subscriber_buffer ≡ true
    → offer sub m ≡ record sub { queue = sub.queue ++ m ∷ [] }
offer_room sub m l s h = ground (arith, s.closed_once)

offer_full :
    (sub : Subscription) (m : Message)
    → sub.live ≡ true
    → Sound sub
    → ltb (length sub.queue) subscriber_buffer ≡ false
    → offer sub m ≡ disconnect (record sub { dropped = true })
offer_full sub m l s h = ground (arith, s.closed_once)

-- The subscription when everything up to and with `all` was offered to it.
abbrev pub filled : Subscription → List Message → Subscription
filled sub all =
    if leb (length all) subscriber_buffer
    then record sub { queue = all }
    else disconnect (record sub { queue = take subscriber_buffer all; dropped = true })

full-filled :
    (sub : Subscription) (m : Message) (ms : List Message)
    → Sound sub
    → ltb (length sub.queue) subscriber_buffer ≡ false
    → disconnect (record sub { dropped = true }) ≡ filled sub (sub.queue ++ m ∷ ms)
full-filled sub m ms s h =
    let full : length sub.queue ≡ subscriber_buffer = ground (arith, s.buffered) in
    let over : leb (length (sub.queue ++ m ∷ ms)) subscriber_buffer ≡ false =
      ground (arith, length-append sub.queue (m ∷ ms)) in
    let front : take subscriber_buffer (sub.queue ++ m ∷ ms) ≡ sub.queue =
      subst (λ (n : ℕ). take n (sub.queue ++ m ∷ ms) ≡ sub.queue) full
        (take-exactly sub.queue (m ∷ ms)) in
    rw over (rw front refl)

-- A publication queues for a live subscriber exactly the messages that its filters let through, in
-- order, if they all fit into the buffer; if they do not, those that fit, and disconnects it.
pub deliver_lem :
    (sub : Subscription) (msgs : List Message)
    → sub.live ≡ true
    → Sound sub
    → deliver sub msgs ≡ filled sub (sub.queue ++ keep_if (is_wanted sub) msgs)
unfolding deliver
deliver_lem sub [] l s =
    let fits : leb (length sub.queue) subscriber_buffer ≡ true = ground (arith, s.buffered) in
    rw (append-nil sub.queue) (rw fits refl)
deliver_lem sub (m ∷ ms) l s = elim (Bool-cases (is_wanted sub m)) [
  | inr e ↦ rw e (deliver_lem sub ms l s)
  | inl e ↦ rw e (elim (Bool-cases (ltb (length sub.queue) subscriber_buffer)) [
    | inl h ↦
        let pushed : Subscription = record sub { queue = sub.queue ++ m ∷ [] } in
        let sound : Sound pushed = subst Sound (offer_room sub m l s h) (offer-Sound sub m l s) in
        rw (offer_room sub m l s h) (
          else-taken sub.dropped pushed (deliver pushed ms) (ground (arith, s.dropped_dead))
          ∙ deliver_lem pushed ms l sound
          ∙ ap (filled sub) (append_assoc sub.queue (m ∷ []) (keep_if (is_wanted sub) ms)))
    | inr h ↦ rw (offer_full sub m l s h) (full-filled sub m (keep_if (is_wanted sub) ms) s h)
  ])
]
