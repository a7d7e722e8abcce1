-- ===== src/Agent/Sender/Keeping.antt =====
-- sender.go: what a look at the queue and the others' turns keep of what is on its way.
use mathlib.Core.Path.{subst}
use smotryashchiy.Base.{
  Sublist-refl, Sublist-trans, Sublist-append, ℕ, ◌+◌, ◌≤◌, ◌≡◌, inl, inr, refl, sym, ap, List, [],
  ◌++◌, arith, length, length-append, All, leb, Bool-cases, Sublist,
}
use smotryashchiy.Agent.Spool.{Codec, peek}
use smotryashchiy.Agent.Spool.Peeking.{peek_counts, peek-Inv}
use smotryashchiy.Agent.Spool.Contents.{peek-Sublist, peek-seq, labels, values-Sublist}
use smotryashchiy.Agent.Sender.{
  Sender, first_turn, rest_of, meanwhile, Round, again, finished, Drained, back_off, out_of_fuel,
  fail, close, finish, rebuild_after_fails,
}
use smotryashchiy.Agent.Sender.Turns.{
  IsAnswered, Value, delivered, queued, additions, pending, Fit, pending_split, meanwhile-Turn,
  turn_in_order,
}

module _ (codec : Codec) (k : ℕ) where
  -- Everything that is on its way: delivered, queued, or still to be added.
  abbrev pub trail : Sender → List Value
  trail s = delivered s.log ++ (queued codec s.spool ++ pending codec s.others)

  abbrev pub account : Sender → ℕ
  account s =
      length (delivered s.log)
      + s.spool.corrupt
      + s.dropped
      + s.refused
      + length s.spool.items
      + length (pending codec s.others)

  -- What a round or a drain keeps of the sender it started from.
  pub record Keeps (s s' : Sender) : Type 0 where
    pub in_order : Sublist (trail s') (trail s)
    pub accounted : account s ≤ account s'
    pub answered : All IsAnswered s.log → All IsAnswered s'.log
    pub fit : Fit codec k s'.spool [] s'.others

  -- The others' turn keeps what is on its way.
  pub meanwhile-Keeps : (s : Sender) → Fit codec k s.spool [] s.others → Keeps s (meanwhile codec s)
  meanwhile-Keeps s f =
      let t = meanwhile codec s in
      let v = meanwhile-Turn codec k s f in
      let split = pending_split codec k s.others in
      let ds = first_turn s.others in
      let turns = rest_of s.others in
      record {
        in_order =
            rw (v.same_log, v.same_others)
              (Sublist-append (Sublist-refl (delivered s.log)) (
                subst
                  (λ vs.
                    Sublist (queued codec t.spool ++ pending codec turns)
                      (queued codec s.spool ++ vs))
                  (sym split)
                  (turn_in_order codec k t ds turns (labels codec s.spool.disk s.spool.items) v.new
                    v.in_order v.from)));
        accounted = omega (
          arith,
          v.counted,
          v.same_corrupt,
          ap (λ log. length (delivered log)) v.same_log,
          ap (λ o. length (pending codec o)) v.same_others,
          ap (λ (vs : List Value). length vs) split,
          length-append (additions codec ds) (pending codec turns),
        );
        answered = λ h. subst (All IsAnswered) (sym v.same_log) h;
        fit = rw v.same_others v.fit;
      }

  pub Keeps-refl : (s : Sender) → Fit codec k s.spool [] s.others → Keeps s s
  Keeps-refl s f = record {
    in_order = Sublist-refl _;
    accounted = omega arith;
    answered = λ h. h;
    fit = f;
  }

  pub Keeps-trans : (s t u : Sender) → Keeps s t → Keeps t u → Keeps s u
  Keeps-trans s t u a b = record {
    in_order = Sublist-trans a.in_order b.in_order;
    accounted = omega (arith, b.accounted, a.accounted);
    answered = λ h. b.answered (a.answered h);
    fit = b.fit;
  }

  -- `Peek` keeps what is on its way, but for the batches that it counts as corrupt.
  unfoldable pub looked : Sender → Sender
  looked s = record s { spool = (peek codec s.spool).0 }

  pub looked-Keeps : (s : Sender) → Fit codec k s.spool [] s.others → Keeps s (looked s)
  unfolding looked
  looked-Keeps s f = record {
    in_order = Sublist-append (Sublist-refl (delivered s.log)) (
        Sublist-append (values-Sublist (peek-Sublist codec s.spool f.sound).0)
          (Sublist-refl (pending codec s.others)));
    accounted = omega (arith, peek_counts codec s.spool);
    answered = λ h. h;
    fit = record {
      sound = peek-Inv codec s.spool f.sound;
      room = omega (arith, f.room, peek-seq codec s.spool);
      few = f.few;
      timely = f.timely;
      later = f.later;
    };
  }

  -- The same sender but for the session, the count of failures and the script of the network.
  unfoldable pub Same : Sender → Sender → Type 0
  Same s t =
      (t.spool ≡ s.spool)
      × (t.dropped ≡ s.dropped)
      × (t.refused ≡ s.refused)
      × (t.log ≡ s.log)
      × (t.others ≡ s.others)

  pub Same-Keeps : (s t : Sender) → Fit codec k s.spool [] s.others → Same s t → Keeps s t
  unfolding Same
  Same-Keeps s t f (sp, dr, re, lo, ot) = record {
    in_order = rw (sp, lo, ot) (Sublist-refl (trail s));
    accounted = rw (sp, lo, ot, dr, re) (omega arith);
    answered = λ h. subst (All IsAnswered) (sym lo) h;
    fit = rw (sp, ot) f;
  }

  -- A round that goes on took a batch off by a request; it is done on an empty queue.
  abbrev pub AfterRound : Sender → Round → Type 0
  AfterRound s (again t) = Keeps s t × (length (delivered t.log) ≡ length (delivered s.log) + 1)
  AfterRound s (finished t Drained.done) = Keeps s t × (t.spool.items ≡ []) × (t.fails ≡ 0)
  AfterRound s (finished t back_off) = Keeps s t
  AfterRound s (finished t out_of_fuel) = ⊥

  pub fail-AfterRound : (s t : Sender) → Keeps s t → AfterRound s (finish (fail t))
  unfolding fail Same
  fail-AfterRound s t v = elim (Bool-cases (leb rebuild_after_fails (t.fails + 1))) [
    | inl e ↦ rw e (
        Keeps-trans s t _ v (
          Same-Keeps t (close (record t { fails = t.fails + 1 })) v.fit
            (refl, refl, refl, refl, refl)))
    | inr e ↦ rw e (
        Keeps-trans s t _ v
          (Same-Keeps t (record t { fails = t.fails + 1 }) v.fit (refl, refl, refl, refl, refl)))
  ]
