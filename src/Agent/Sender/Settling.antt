-- ===== src/Agent/Sender/Settling.antt =====
-- sender.go: what a request and the removal behind it keep, and so a round.
use mathlib.Core.Path.{subst}
use smotryashchiy.Base.{
  Sublist-cases, Sublist-refl, Sublist-append, ℕ, zero, suc, ◌+◌, ◌≡◌, ◌⊎◌, inl, inr, refl, sym, ap,
  ◌∙◌, Bool, true, false, ◌||◌, List, [], ◌∷◌, ◌++◌, some, arith, if◌then◌else◌, length,
  length-append, append_assoc, Bool-cases, any, any-append, Sublist, Sublist-any,
}
use smotryashchiy.Agent.Spool.{
  Codec, Spool, Entry, entry, empty, discard_failed, Peeked, peek, remove,
}
use smotryashchiy.Agent.Spool.Queue.{Inv}
use smotryashchiy.Agent.Spool.Peeking.{Front, peek-Front}
use smotryashchiy.Agent.Spool.Contents.{
  peek-Sublist, Shown, remove-labels, remove-seq, remove-absent, front_apart, is_named, Label,
  labels, values,
}
use smotryashchiy.Agent.Sender.{
  Reply, Sender, is_permanent, is_accepted, link, first_turn, rest_of, meanwhile, Round, again,
  finished, Drained, back_off, out_of_fuel, settle, after_peek, round, send, logged,
}
use smotryashchiy.Agent.Sender.Turns.{
  Value, delivered, queued, pending, Fit, link-same, pending_split, meanwhile-Turn, turn_in_order,
}
use smotryashchiy.Agent.Sender.Keeping.{
  trail, Keeps, meanwhile-Keeps, Keeps-refl, Keeps-trans, looked, looked-Keeps, Same, Same-Keeps,
  AfterRound, fail-AfterRound,
}

module _ (codec : Codec) (k : ℕ) where
  -- What the queue is when the batch that was shown is removed: that batch and others behind it, or,
  -- when it was dropped meanwhile, some of these.
  abbrev pub IsBehind : Sender → Sender → Entry → Type 0
  IsBehind s t e =
      (T : List Value) × (queued codec s.spool ++ pending codec s.others
        ≡ some (e.key, e.batch) ∷ T)
      × (((ls : List Label) × (labels codec t.spool.disk t.spool.items
              ≡ (e.name, some (e.key, e.batch)) ∷ ls))
          ⊎ ((any (is_named e.name) (labels codec t.spool.disk t.spool.items) ≡ false)
              × Sublist (queued codec t.spool ++ pending codec t.others) T))

  abbrev pub cut : Sender → Entry → Reply → Bool → Sender
  cut t e reply left = logged (record t { spool = (remove t.spool e).0 }) e reply left

  -- A request whose batch stays in the queue.
  pub unsettled :
      (s t : Sender) (e : Entry) (reply : Reply)
      → Keeps codec k s t
      → Keeps codec k s (logged t e reply false)
  unsettled s t e reply v = record {
    in_order = v.in_order;
    accounted = v.accounted;
    answered = λ h. (inl refl, v.answered h);
    fit = v.fit;
  }

  pub numbers_left :
      (t : Sender) (e : Entry)
      → Fit codec k t.spool [] t.others
      → Inv (remove t.spool e).0
      → Fit codec k (remove t.spool e).0 [] t.others
  numbers_left t e f v = record {
    sound = v;
    room = omega (arith, f.room, remove-seq t.spool e);
    few = f.few;
    timely = f.timely;
    later = f.later;
  }

  unfoldable pub front : Entry → Label
  front e = (e.name, some (e.key, e.batch))

  pub stays :
      (s t : Sender) (e : Entry) (reply : Reply)
      → Keeps codec k s t
      → IsBehind s t e
      → (remove t.spool e).1 ≡ false
      → Keeps codec k s (cut t e reply false)
  unfolding front
  stays s t e reply v (T, h, inl (ls, is)) failed =
      let (after, sound, corrupt, count) =
        remove-labels codec t.spool e (front e) ls v.fit.sound is refl in
      let all : labels codec (remove t.spool e).0.disk (remove t.spool e).0.items
          ≡ labels codec t.spool.disk t.spool.items =
        after ∙ ap (λ b. if b then ls else front e ∷ ls) failed ∙ sym is in
      let len : (if (remove t.spool e).1 then (suc zero) else zero) ≡ zero =
        ap (λ b. if b then suc zero else zero) failed in
      record {
        in_order =
            subst
              (λ L.
                Sublist (delivered t.log ++ (values L ++ pending codec t.others)) (trail codec k s))
              (sym all) v.in_order;
        accounted = omega (arith, v.accounted, corrupt, count, len);
        answered = λ h. (inl refl, v.answered h);
        fit = numbers_left t e v.fit sound;
      }
  stays s t e reply v (T, h, inr (no_more, behind)) failed = absurd (
      let ok : (remove t.spool e).1 ≡ true =
        ap (λ (r : Spool × Bool). r.1) (remove-absent codec t.spool e no_more) in
      cc)

  pub leaves :
      (s t : Sender) (e : Entry) (reply : Reply)
      → Keeps codec k s t
      → t.log ≡ s.log
      → IsBehind s t e
      → (remove t.spool e).1 ≡ true
      → is_accepted reply || is_permanent reply ≡ true
      → Keeps codec k s (cut t e reply true)
  unfolding front
  leaves s t e reply v same (T, h, inl (ls, is)) ok ans =
      let (after, sound, corrupt, count) =
        remove-labels codec t.spool e (front e) ls v.fit.sound is refl in
      let rest : labels codec (remove t.spool e).0.disk (remove t.spool e).0.items ≡ ls =
        after ∙ ap (λ b. if b then ls else front e ∷ ls) ok in
      let len : (if (remove t.spool e).1 then suc zero else zero) ≡ suc zero =
        ap (λ b. if b then suc zero else zero) ok in
      let P = pending codec t.others in
      let before : Sublist (delivered t.log ++ (values (front e ∷ ls) ++ P)) (trail codec k s) =
        subst (λ L. Sublist (delivered t.log ++ (values L ++ P)) (trail codec k s)) is v.in_order in
      record {
        in_order =
            subst
              (λ L.
                Sublist ((delivered t.log ++ some (e.key, e.batch) ∷ []) ++ (values L ++ P))
                  (trail codec k s))
              (sym rest)
              (subst (λ vs. Sublist vs (trail codec k s))
                (sym (append_assoc (delivered t.log) (some (e.key, e.batch) ∷ []) (values ls ++ P)))
                before);
        accounted = omega (
          arith,
          v.accounted,
          corrupt,
          count,
          len,
          length-append (delivered t.log) (some (e.key, e.batch) ∷ []),
        );
        answered = λ h. (inr ans, v.answered h);
        fit = numbers_left t e v.fit sound;
      }
  leaves s t e reply v same (T, h, inr (no_more, behind)) ok ans =
      let nothing = remove-absent codec t.spool e no_more in
      let P = pending codec t.others in
      let it : Value = some (e.key, e.batch) in
      let there : Sublist ((delivered s.log ++ it ∷ []) ++ (queued codec t.spool ++ P))
          (trail codec k s) =
        subst (Sublist ((delivered s.log ++ it ∷ []) ++ (queued codec t.spool ++ P)))
          (append_assoc (delivered s.log) (it ∷ []) T ∙ ap (λ vs. delivered s.log ++ vs) (sym h))
          (Sublist-append (Sublist-refl (delivered s.log ++ it ∷ [])) behind) in
      subst (λ (p : Spool). Keeps codec k s (logged (record t { spool = p }) e reply true))
        (sym (ap (λ (r : Spool × Bool). r.0) nothing))
        (record {
          in_order = rw same there;
          accounted = omega (arith, v.accounted, length-append (delivered t.log) (it ∷ []));
          answered = λ h. (inr ans, v.answered h);
          fit = v.fit;
        })

  pub more_delivered :
      (s t : Sender) (e : Entry) (reply : Reply)
      → t.log ≡ s.log
      → length (delivered (cut t e reply true).log) ≡ length (delivered s.log) + 1
  more_delivered s t e reply same =
      rw same (omega (arith, length-append (delivered s.log) (some (e.key, e.batch) ∷ [])))

  pub settle-AfterRound :
      (s t : Sender) (e : Entry) (reply : Reply)
      → Keeps codec k s t
      → t.log ≡ s.log
      → IsBehind s t e
      → AfterRound codec k s (settle t e reply)
  unfolding settle Same
  settle-AfterRound s t e reply v same b = elim (Bool-cases (remove t.spool e).1) [
    | inl ok ↦ elim (Bool-cases (is_accepted reply)) [
      | inl a ↦ rw ok (
          rw a (
            let u = cut t e reply true in
            let l = leaves s t e reply v same b ok (rw a refl) in
            (
              Keeps-trans codec k s u _ l (
                  Same-Keeps codec k u (record u { fails = 0 }) l.fit
                    (refl, refl, refl, refl, refl)),
              more_delivered s t e reply same,
            )))
      | inr a ↦ elim (Bool-cases (is_permanent reply)) [
        | inl p ↦
            rw ok (
              rw a
                (rw p (leaves s t e reply v same b ok (rw a p), more_delivered s t e reply same)))
        | inr p ↦
            rw a
              (rw p (fail-AfterRound codec k s (logged t e reply false) (unsettled s t e reply v)))
      ]
    ]
    | inr failed ↦ elim (Bool-cases (is_accepted reply)) [
      | inl a ↦
          rw failed
            (rw a (fail-AfterRound codec k s (cut t e reply false) (stays s t e reply v b failed)))
      | inr a ↦ elim (Bool-cases (is_permanent reply)) [
        | inl p ↦ rw failed (
            rw a (
              rw p
                (fail-AfterRound codec k s (cut t e reply false) (stays s t e reply v b failed))))
        | inr p ↦
            rw a
              (rw p (fail-AfterRound codec k s (logged t e reply false) (unsettled s t e reply v)))
      ]
    ]
  ]

  pub meanwhile-IsBehind :
      (s : Sender) (e : Entry)
      → Fit codec k s.spool [] s.others
      → Shown codec s.spool (entry e)
      → IsBehind s (meanwhile codec s) e
  meanwhile-IsBehind s e f (ls, shown) =
      let t = meanwhile codec s in
      let v = meanwhile-Turn codec k s f in
      let ds = first_turn s.others in
      let turns = rest_of s.others in
      let first : Label = (e.name, some (e.key, e.batch)) in
      let (n, name, le, apart) = front_apart codec s.spool first ls f.sound shown in
      let new_apart : any (is_named e.name) v.new ≡ false = rw name (v.apart n le) in
      let sub : Sublist (labels codec t.spool.disk t.spool.items) (first ∷ (ls ++ v.new)) =
        subst (λ L. Sublist (labels codec t.spool.disk t.spool.items) (L ++ v.new)) shown
          v.in_order in
      (
        values ls ++ pending codec s.others,
        ap (λ L. values L ++ pending codec s.others) shown,
        elim (Sublist-cases sub) [
          | inl still ↦ inl still
          | inr behind ↦ inr (
            Sublist-any (is_named e.name) behind
                (any-append (is_named e.name) ls v.new ∙ ground (arith, apart, new_apart)),
            rw v.same_others (
                subst
                  (λ vs. Sublist (queued codec t.spool ++ pending codec turns) (values ls ++ vs))
                  (sym (pending_split codec k s.others))
                  (turn_in_order codec k t ds turns ls v.new behind v.from)),
          )
        ],
      )

  pub sent_to : Sender → Sender
  sent_to t = (send (link t).0).0

  pub after_peek-AfterRound :
      (s : Sender) (p : Peeked)
      → Fit codec k s.spool [] s.others
      → Shown codec s.spool p
      → Front s.spool p
      → AfterRound codec k s (after_peek codec s p)
  unfolding after_peek Same
  after_peek-AfterRound s discard_failed f shown fr =
      fail-AfterRound codec k s s (Keeps-refl codec k s f)
  after_peek-AfterRound s empty f shown fr =
      (Same-Keeps codec k s (record s { fails = 0 }) f (refl, refl, refl, refl, refl), fr, refl)
  after_peek-AfterRound s (entry e) f shown fr =
      let t = meanwhile codec s in
      let v = meanwhile-Keeps codec k s f in
      let l = (link t).0 in
      let same = link-same codec k t in
      let kept = Keeps-trans codec k s t l v (Same-Keeps codec k t l v.fit same) in
      let w = (send l).0 in
      let sent =
        Keeps-trans codec k s l w kept
          (Same-Keeps codec k l w kept.fit (refl, refl, refl, refl, refl)) in
      elim (Bool-cases (link t).1) [
        | inl up ↦ rw up (
            settle-AfterRound s w e (send l).1 sent (same.3 ∙ (meanwhile-Turn codec k s f).same_log)
              (rw (same.0, same.4) (meanwhile-IsBehind s e f shown)))
        | inr up ↦ rw up (fail-AfterRound codec k s l kept)
      ]

  -- A round that went on from a sender behind another turn or look.
  pub AfterRound-looked :
      (s t : Sender) (r : Round)
      → Keeps codec k s t
      → length (delivered t.log) ≡ length (delivered s.log)
      → AfterRound codec k t r
      → AfterRound codec k s r
  AfterRound-looked s t (again u) v log a =
      (Keeps-trans codec k s t u v a.0, a.1 ∙ ap (λ (n : ℕ). n + 1) log)
  AfterRound-looked s t (finished u Drained.done) v log a =
      (Keeps-trans codec k s t u v a.0, a.1, a.2)
  AfterRound-looked s t (finished u back_off) v log a = Keeps-trans codec k s t u v a
  AfterRound-looked s t (finished u out_of_fuel) v log a = a

  pub round-AfterRound :
      (s : Sender) → Fit codec k s.spool [] s.others → AfterRound codec k s (round codec s)
  unfolding round looked
  round-AfterRound s f =
      let t = meanwhile codec s in
      let v = meanwhile-Keeps codec k s f in
      let l = looked codec k t in
      let seen = Keeps-trans codec k s t l v (looked-Keeps codec k t v.fit) in
      AfterRound-looked s l (round codec s) seen
        (ap (λ log. length (delivered log)) (meanwhile-Turn codec k s f).same_log)
        (after_peek-AfterRound l (peek codec t.spool).1 seen.fit
          (peek-Sublist codec t.spool v.fit.sound).1 (peek-Front codec t.spool))
