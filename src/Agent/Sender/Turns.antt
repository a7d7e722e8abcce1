-- ===== src/Agent/Sender/Turns.antt =====
-- sender.go, runner.go: what the other goroutines make of the queue in one turn.
use mathlib.Core.Path.{subst}
use smotryashchiy.Base.{
  Sublist-refl, Sublist-none, Sublist-trans, Sublist-append, ℕ, ◌+◌, ◌^◌, ◌≤◌, ◌<◌, ◌≡◌, ◌⊎◌, inl,
  inr, refl, sym, ap, ◌∙◌, Bool, true, false, ◌&&◌, ◌||◌, List, [], ◌∷◌, ◌++◌, Option, some, arith,
  Bytes, bytes_eq, if◌then◌else◌, length, append_assoc, every, ltb, any, any-append, codes,
  starts_with, Sublist, done,
}
use smotryashchiy.Agent.Spool.{Codec, Spool, name_of}
use smotryashchiy.Agent.Spool.Queue.{Inv}
use smotryashchiy.Agent.Spool.Contents.{Label, labels, values, values-Sublist, values-append}
use smotryashchiy.Agent.Sender.Adding.{add-Adds, value_of}
use smotryashchiy.Agent.Sender.{
  Sent, Sender, Doing, adds, links, is_permanent, is_accepted, link, first_turn, rest_of, does,
  do_all, meanwhile,
}

-- A batch leaves only after the server accepted it, or answered 400 or 413.
abbrev pub IsAnswered : Sent → Type 0
IsAnswered s = (s.left ≡ false) ⊎ (is_accepted s.reply || is_permanent s.reply ≡ true)

-- A key with its batch; none for a file that does not read as one.
abbrev pub Value : Type 0
Value = Option (Bytes × Bytes)

-- What requests took off the queue, the first request first.
abbrev pub delivered : List Sent → List Value
delivered [] = []
delivered (s ∷ log) = if s.left then delivered log ++ some (s.key, s.batch) ∷ [] else delivered log

module _ (codec : Codec) where
  -- What the queue's files say, the oldest first.
  abbrev pub queued : Spool → List Value
  queued s = values (labels codec s.disk s.items)

  -- What others add in a turn, and in all turns to come.
  abbrev pub additions : List Doing → List Value
  additions [] = []
  additions (adds key batch now tmp ∷ ds) = value_of codec key batch ∷ additions ds
  additions (links ∷ ds) = additions ds

  abbrev pub pending : List (List Doing) → List Value
  pending [] = []
  pending (ds ∷ turns) = additions ds ++ pending turns

-- Temporary names as the pattern gives them, and clocks that leave room for `k` more numbers.
abbrev pub is_timely : ℕ → Doing → Bool
is_timely k (adds key batch now tmp) = starts_with (codes ".tmp-") tmp && ltb (now + k) (2 ^ 64)
is_timely k links = true

abbrev pub all_timely : ℕ → List (List Doing) → Bool
all_timely k [] = true
all_timely k (ds ∷ turns) = every (is_timely k) ds && all_timely k turns

-- The queue is sound, with numbers left for what is still added.
pub record Fit (codec : Codec) (k : ℕ) (s : Spool) (ds : List Doing) (turns : List (List Doing))
    : Type 0 where
  pub sound : Inv s
  pub room : s.last_seq + length (additions codec ds ++ pending codec turns) < 2 ^ 64
  pub few : length (additions codec ds ++ pending codec turns) ≤ k
  pub timely : every (is_timely k) ds ≡ true
  pub later : all_timely k turns ≡ true

module _ (codec : Codec) (k : ℕ) where
  -- What a turn of the others, of which `ds` is left, makes of the sender.
  pub record Turn (s : Sender) (ds : List Doing) (turns : List (List Doing)) (s' : Sender)
      : Type 0 where
    pub new : List Label
    pub in_order :
        Sublist
          (labels codec s'.spool.disk s'.spool.items)
          (labels codec s.spool.disk s.spool.items ++ new)
    pub from : Sublist (values new) (additions codec ds)
    pub apart :
        (m : ℕ) → m ≤ s.spool.last_seq → any (λ (l : Label). bytes_eq l.0 (name_of m)) new ≡ false
    pub fit : Fit codec k s'.spool [] turns
    pub counted :
        s'.dropped + s'.refused + length s'.spool.items
        ≡ s.dropped + s.refused + length s.spool.items + length (additions codec ds)
    pub same_corrupt : s'.spool.corrupt ≡ s.spool.corrupt
    pub same_log : s'.log ≡ s.log
    pub same_others : s'.others ≡ s.others

  pub link-same :
      (s : Sender)
      → let t = (link s).0 in
        (t.spool ≡ s.spool)
        × (t.dropped ≡ s.dropped)
        × (t.refused ≡ s.refused)
        × (t.log ≡ s.log)
        × (t.others ≡ s.others)
  unfolding link
  link-same s = ground arith

  -- Another turn from a sender with the same queue and the same books.
  pub Turn-same :
      (s t u : Sender) (ds : List Doing) (turns : List (List Doing))
      → (t.spool ≡ s.spool)
        × (t.dropped ≡ s.dropped)
        × (t.refused ≡ s.refused)
        × (t.log ≡ s.log)
        × (t.others ≡ s.others)
      → Turn t ds turns u
      → Turn s (links ∷ ds) turns u
  Turn-same s t u ds turns (sp, dr, re, lo, ot) v = record {
    new = v.new;
    in_order =
        subst
          (λ (x : Spool).
            Sublist (labels codec u.spool.disk u.spool.items)
              (labels codec x.disk x.items ++ v.new))
          sp v.in_order;
    from = v.from;
    apart = λ m h. v.apart m (subst (λ (x : Spool). m ≤ x.last_seq) (sym sp) h);
    fit = v.fit;
    counted = ground (arith, v.counted, ap (λ (x : Spool). length x.items) sp);
    same_corrupt = v.same_corrupt ∙ ap (λ (x : Spool). x.corrupt) sp;
    same_log = v.same_log ∙ lo;
    same_others = v.same_others ∙ ot;
  }

  pub do_all-Turn :
      (ds : List Doing) (turns : List (List Doing)) (s : Sender)
      → Fit codec k s.spool ds turns
      → Turn s ds turns (do_all codec ds s)
  do_all-Turn [] turns s f = record {
    new = [];
    in_order = Sublist-none _;
    from = done;
    apart = λ m h. refl;
    fit = f;
    counted = omega arith;
    same_corrupt = refl;
    same_log = refl;
    same_others = refl;
  }
  do_all-Turn (links ∷ ds) turns s f =
      let same = link-same s in
      Turn-same s (link s).0 (do_all codec ds (link s).0) ds turns same (
        do_all-Turn ds turns (link s).0 (
          subst (λ (x : Spool). Fit codec k x ds turns) (sym same.0)
            (record {
              sound = f.sound;
              room = f.room;
              few = f.few;
              timely = ground (arith, f.timely);
              later = f.later;
            })))
  do_all-Turn (adds key batch now tmp ∷ ds) turns s f =
      let t = does codec (adds key batch now tmp) s in
      let named : starts_with (codes ".tmp-") tmp ≡ true = ground (arith, f.timely) in
      let early : now + k < 2 ^ 64 = ground (arith, f.timely) in
      let a = add-Adds codec s.spool key batch now tmp f.sound named (omega (arith, f.room)) in
      let fit : Fit codec k t.spool ds turns = record {
        sound = a.sound;
        room = elim (a.seq) [
          | inl h ↦ omega (arith, h, f.room)
          | inr h ↦ omega (arith, h, early, f.few)
        ];
        few = omega (arith, f.few);
        timely = ground (arith, f.timely);
        later = f.later;
      } in
      let v = do_all-Turn ds turns t fit in
      let u = do_all codec ds t in
      record {
        new = a.new ++ v.new;
        in_order =
            subst (Sublist (labels codec u.spool.disk u.spool.items))
              (append_assoc (labels codec s.spool.disk s.spool.items) a.new v.new)
              (Sublist-trans (Sublist-append a.in_order (Sublist-refl v.new)) v.in_order);
        from =
            subst (λ vs. Sublist vs (value_of codec key batch ∷ additions codec ds))
              (sym (values-append a.new v.new)) (Sublist-append a.from v.from);
        apart = λ m h. ground (
          arith,
          any-append (λ (l : Label). bytes_eq l.0 (name_of m)) a.new v.new,
          a.apart m h,
          v.apart m (omega (arith, h, a.seq_le)),
        );
        fit = v.fit;
        counted = omega (arith, v.counted, a.counted);
        same_corrupt = v.same_corrupt ∙ a.same_corrupt;
        same_log = v.same_log;
        same_others = v.same_others;
      }

  pub all_left :
      (p : Spool) (turns : List (List Doing))
      → Fit codec k p [] turns
      → Fit codec k p (first_turn turns) (rest_of turns)
  all_left p [] f = f
  all_left p (ds ∷ turns) f = record {
    sound = f.sound;
    room = f.room;
    few = f.few;
    timely = ground (arith, f.later);
    later = ground (arith, f.later);
  }

  pub pending_split :
      (turns : List (List Doing))
      → pending codec turns ≡ additions codec (first_turn turns) ++ pending codec (rest_of turns)
  pending_split [] = refl
  pending_split (ds ∷ turns) = refl

  pub meanwhile-Turn :
      (s : Sender)
      → Fit codec k s.spool [] s.others
      → Turn
          (record s { others = rest_of s.others })
          (first_turn s.others)
          (rest_of s.others)
          (meanwhile codec s)
  unfolding meanwhile
  meanwhile-Turn s f =
      do_all-Turn (first_turn s.others) (rest_of s.others) (record s { others = rest_of s.others })
        (all_left s.spool s.others f)

  pub turn_in_order :
      (t : Sender) (ds : List Doing) (turns : List (List Doing)) (old new : List Label)
      → Sublist (labels codec t.spool.disk t.spool.items) (old ++ new)
      → Sublist (values new) (additions codec ds)
      → Sublist
          (queued codec t.spool ++ pending codec turns)
          (values old ++ (additions codec ds ++ pending codec turns))
  turn_in_order t ds turns old new sub from =
      subst (Sublist (queued codec t.spool ++ pending codec turns))
        (append_assoc (values old) (additions codec ds) (pending codec turns))
        (Sublist-append
          (Sublist-trans
            (subst (λ vs. Sublist vs (values old ++ additions codec ds))
              (sym (values-append old new)) (Sublist-append (Sublist-refl (values old)) from))
            (values-Sublist sub))
          (Sublist-refl (pending codec turns)))
