-- ===== src/Telemetry/Hub.antt =====
-- internal/telemetry/application/hub.go: the fan-out of accepted records to live subscribers.
-- A subscription keeps whether it is in the hub's set. A send on a closed channel and a second close
-- would panic in Go: both are counted.
pub mod Delivery
use smotryashchiy.Base.{
  ℕ, ◌+◌, ◌<◌, Bool, true, false, not, ◌&&◌, ◌||◌, List, [], ◌∷◌, ◌++◌, Bytes, bytes_eq, ltb,
  nat_eq, if◌then◌else◌, codes, length, is_empty, map,
}
use smotryashchiy.Telemetry.Batch.{Metric, Check, Event, Batch}

abbrev pub type_metric : Bytes
type_metric = codes "metric"

abbrev pub type_check : Bytes
type_check = codes "check"

abbrev pub type_event : Bytes
type_event = codes "event"

abbrev pub subscriber_buffer : ℕ
subscriber_buffer = 64

-- The field of `Message` that is set; the last is the target and the payload of an uptime probe.
pub data Content : Type 0 where
  metric : Metric → Content
  check : Check → Content
  event : Event → Content
  uptime : Bytes → Bytes → Content

pub record Message : Type 0 where
  pub typ : Bytes
  pub host_id : Bytes
  pub content : Content

pub record Subscription : Type 0 where
  pub queue : List Message
  pub host : Bytes
  pub typ : Bytes
  pub dropped : Bool
  pub live : Bool
  pub closes : ℕ
  pub late : ℕ

-- Each subscription that was handed out, under its pointer.
pub record Hub : Type 0 where
  pub subs : List (ℕ × Subscription)
  pub closed : Bool

abbrev pub new_hub : Hub
new_hub = record { subs = []; closed = false }

-- `delete(h.subs, sub); close(sub.C)`
abbrev pub disconnect : Subscription → Subscription
disconnect sub = record sub { live = false; closes = sub.closes + 1 }

unfoldable pub subscribe : Hub → ℕ → Bytes → Bytes → Hub
subscribe h id host typ =
    let sub : Subscription = record {
      queue = [];
      host = host;
      typ = typ;
      dropped = false;
      live = not h.closed;
      closes = if h.closed then 1 else 0;
      late = 0;
    } in
    record h { subs = (id, sub) ∷ h.subs }

abbrev pub unsubscribe_one : ℕ → ℕ × Subscription → ℕ × Subscription
unsubscribe_one id (k, sub) = (k, if nat_eq k id && sub.live then disconnect sub else sub)

unfoldable pub unsubscribe : Hub → ℕ → Hub
unsubscribe h id = record h { subs = map (unsubscribe_one id) h.subs }

-- Whether the filters of a subscription let a message through.
abbrev pub is_wanted : Subscription → Message → Bool
is_wanted sub m = not (
    (not (is_empty sub.host) && not (bytes_eq sub.host m.host_id))
    || (not (is_empty sub.typ) && not (bytes_eq sub.typ m.typ)))

-- The `select` of `Publish`.
abbrev pub offer : Subscription → Message → Subscription
offer sub m =
    if ltb 0 sub.closes
    then record sub { late = sub.late + 1 }
    else if ltb (length sub.queue) subscriber_buffer
    then record sub { queue = sub.queue ++ m ∷ [] }
    else disconnect (record sub { dropped = true })

-- The inner loop of `Publish`.
unfoldable pub deliver : Subscription → List Message → Subscription
deliver sub [] = sub
deliver sub (m ∷ ms) =
    let skipped = deliver sub ms in
    let offered = offer sub m in
    let more = deliver offered ms in
    if not (is_wanted sub m) then skipped else if offered.dropped then offered else more

abbrev pub publish_one : List Message → ℕ × Subscription → ℕ × Subscription
publish_one msgs (k, sub) = (k, if sub.live then deliver sub msgs else sub)

unfoldable pub publish : Hub → List Message → Hub
publish h [] = h
publish h (m ∷ ms) = record h { subs = map (publish_one (m ∷ ms)) h.subs }

abbrev pub close_one : ℕ × Subscription → ℕ × Subscription
close_one (k, sub) = (k, if sub.live then disconnect sub else sub)

unfoldable pub close : Hub → Hub
close h = record { subs = map close_one h.subs; closed = true }

-- A client reads the oldest message.
abbrev rest : List Message → List Message
rest [] = []
rest (m ∷ ms) = ms

abbrev pub receive_one : ℕ → ℕ × Subscription → ℕ × Subscription
receive_one id (k, sub) = (k, if nat_eq k id then record sub { queue = rest sub.queue } else sub)

unfoldable pub receive : Hub → ℕ → Hub
receive h id = record h { subs = map (receive_one id) h.subs }

unfoldable pub messages_for : Bytes → Batch → List Message
messages_for host b =
    map (λ (m : Metric). record { typ = type_metric; host_id = host; content = metric m }) b.metrics
    ++ map (λ (c : Check). record { typ = type_check; host_id = host; content = check c }) b.checks
    ++ map (λ (e : Event). record { typ = type_event; host_id = host; content = event e }) b.events

-- What is done with a hub.
pub data Call : Type 0 where
  subscribes : ℕ → Bytes → Bytes → Call
  unsubscribes receives : ℕ → Call
  publishes : List Message → Call
  closes_hub : Call

abbrev pub call : Hub → Call → Hub
call h (subscribes id host typ) = subscribe h id host typ
call h (unsubscribes id) = unsubscribe h id
call h (receives id) = receive h id
call h (publishes msgs) = publish h msgs
call h closes_hub = close h

abbrev pub calls : Hub → List Call → Hub
calls h [] = h
calls h (c ∷ cs) = calls (call h c) cs
