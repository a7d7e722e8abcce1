-- ===== src/Agent/Sender.antt =====
-- internal/agent/sender.go: the sender drains the spool, oldest batch first, over one session.
-- What the network answers is a script: one mark for each dial, one reply for each request.
pub mod Adding
pub mod Turns
pub mod Keeping
pub mod Settling
pub mod Delivery
pub mod Backoff
use smotryashchiy.Base.{
  ℕ, zero, suc, ◌+◌, ◌-◌, ◌*◌, ◌^◌, Bool, true, false, not, ◌||◌, List, [], ◌∷◌, Bytes, nat_eq, ltb,
  leb, if◌then◌else◌, Option, none, some,
}
use smotryashchiy.Agent.Spool.{
  AddError, drop_failed, add, Codec, Entry, Spool, Peeked, entry, empty, discard_failed, peek,
  remove,
}

abbrev pub rebuild_after_fails : ℕ
rebuild_after_fails = 3

-- The answer to `Send`: 200, another status, or no answer at all.
pub data Reply : Type 0 where
  accepted no_answer : Reply
  status : ℕ → Reply

-- The dials and the requests to come. A dial fails at `false`, and when no mark is left; a request
-- whose reply is missing has no answer.
pub record Network : Type 0 where
  pub dials : List Bool
  pub replies : List Reply

-- One request: the key, the reply, and whether the batch left the spool after it.
pub record Sent : Type 0 where
  pub key : Bytes
  pub batch : Bytes
  pub reply : Reply
  pub left : Bool

-- What another goroutine does to what the sender shares: the runner adds a batch (its key, the batch,
-- the clock's reading, a temporary name), or the operator's poller asks for the session.
pub data Doing : Type 0 where
  adds : Bytes → Bytes → ℕ → Bytes → Doing
  links : Doing

-- `others` is what the other goroutines do, a list for each time the sender lets go of the spool;
-- `dropped` and `refused` are what their `Add` reported: old batches dropped, new ones not stored.
pub record Sender : Type 0 where
  pub spool : Spool
  pub others : List (List Doing)
  pub dropped : ℕ
  pub refused : ℕ
  pub linked : Bool
  pub fails : ℕ
  pub network : Network
  pub log : List Sent

pub data Drained : Type 0 where
  done back_off out_of_fuel : Drained

abbrev pub first_dial : List Bool → Bool
first_dial [] = false
first_dial (d ∷ ds) = d

abbrev pub first_reply : List Reply → Reply
first_reply [] = Reply.no_answer
first_reply (r ∷ rs) = r

abbrev pub rest_of {ℓ} : {A : Type ℓ} → List A → List A
rest_of [] = []
rest_of (x ∷ xs) = xs

-- `Close`: the session is given up.
abbrev pub close : Sender → Sender
close s = record s { linked = false }

-- `Link`: the session that there is, or a new one; whether there is one now.
unfoldable pub link : Sender → Sender × Bool
link s = if s.linked then (s, true) else (
  record s {
    linked = first_dial s.network.dials;
    network = record { dials = rest_of s.network.dials; replies = s.network.replies };
  },
  first_dial s.network.dials,
)

abbrev pub first_turn : List (List Doing) → List Doing
first_turn [] = []
first_turn (ds ∷ turns) = ds

-- One if `Add` failed before the batch was stored.
abbrev pub refusals : Option AddError → ℕ
refusals none = 0
refusals (some drop_failed) = 0
refusals (some _) = 1

abbrev pub added : Sender → Spool × ℕ × Option AddError → Sender
added s (spool, n, e) = record s {
  spool = spool;
  dropped = s.dropped + n;
  refused = s.refused + refusals e;
}

module _ (codec : Codec) where
  abbrev pub does : Doing → Sender → Sender
  does (adds key batch now tmp) s = added s (add codec s.spool key batch now tmp)
  does links s = (link s).0

  abbrev pub do_all : List Doing → Sender → Sender
  do_all [] s = s
  do_all (d ∷ ds) s = do_all ds (does d s)

  -- The other goroutines' turn.
  unfoldable pub meanwhile : Sender → Sender
  meanwhile s = do_all (first_turn s.others) (record s { others = rest_of s.others })

-- `fail`
unfoldable pub fail : Sender → Sender × Drained
fail s =
    let s' : Sender = record s { fails = s.fails + 1 } in
    if leb rebuild_after_fails s'.fails then (close s', back_off) else (s', back_off)

-- 400 and 413: the server can never accept this batch.
abbrev pub is_permanent : Reply → Bool
is_permanent (status code) = nat_eq code 400 || nat_eq code 413
is_permanent _ = false

abbrev pub is_accepted : Reply → Bool
is_accepted Reply.accepted = true
is_accepted _ = false

-- The request for a batch, with its reply.
abbrev pub send : Sender → Sender × Reply
send s = (
  record s { network = record { dials = s.network.dials; replies = rest_of s.network.replies } },
  first_reply s.network.replies,
)

abbrev pub logged : Sender → Entry → Reply → Bool → Sender
logged s e reply left = record s {
  log = record { key = e.key; batch = e.batch; reply = reply; left = left } ∷ s.log;
}

-- What one round of `Drain` ends in: another round, or a result.
pub data Round : Type 0 where
  again : Sender → Round
  finished : Sender → Drained → Round

abbrev pub finish : Sender × Drained → Round
finish (s, r) = finished s r

-- `Remove` behind a reply, and what follows it.
unfoldable pub settle : Sender → Entry → Reply → Round
unfolding fail
settle s e reply =
    let (spool, ok) = remove s.spool e in
    let s' = logged (record s { spool = spool }) e reply ok in
    if is_accepted reply
    then (if ok then again (record s' { fails = 0 }) else finish (fail s'))
    else if is_permanent reply
    then (if ok then again s' else finish (fail s'))
    else finish (fail (logged s e reply false))

module _ (codec : Codec) where
  -- A round of `Drain` behind its look at the queue. The others go on before the batch is removed, so
  -- that it may have been dropped by then.
  unfoldable pub after_peek : Sender → Peeked → Round
  unfolding link fail
  after_peek s discard_failed = finish (fail s)
  after_peek s empty = finished (record s { fails = 0 }) done
  after_peek s (entry e) =
      let (linked, up) = link (meanwhile codec s) in
      if not up
      then finish (fail linked)
      else (let (sent, reply) = send linked in settle sent e reply)

  unfoldable pub round : Sender → Round
  unfolding after_peek
  round s =
      let turn = meanwhile codec s in
      let (spool, peeked) = peek codec turn.spool in
      after_peek (record turn { spool = spool }) peeked

  -- The loop of `Drain`.
  unfoldable pub drain : ℕ → Sender → Sender × Drained
  drain zero s = (s, out_of_fuel)
  drain (suc fuel) s = elim (round s) [ again s' ↦ drain fuel s' | finished s' r ↦ (s', r) ]

-- `Backoff` down to the spread, which is floating-point: the wait in nanoseconds.
abbrev pub backoff_min : ℕ
backoff_min = 10 ^ 9

abbrev pub backoff_max : ℕ
backoff_max = 60 * 10 ^ 9

-- The loop `for i := 1; i < n && d < backoffMax; i++ { d *= 2 }`, with `n - i` rounds left.
unfoldable pub double : ℕ → ℕ → ℕ
double zero d = d
double (suc rounds) d = let more = double rounds (d * 2) in if ltb d backoff_max then more else d

unfoldable pub backoff : (ℕ → ℕ) → ℕ → ℕ
unfolding double
backoff spread n =
    let n' = if ltb n 1 then 1 else n in
    let d = double (n' - 1) backoff_min in spread (if ltb backoff_max d then backoff_max else d)
