-- ===== src/Agent/Sender/Delivery.antt =====
-- sender.go: what a drain does with every batch of the queue, whatever is added beside it.
use smotryashchiy.Base.{ℕ, ◌+◌, ◌≡◌, ◌⊎◌, [], length}
use smotryashchiy.Agent.Spool.{Codec, Spool}
use smotryashchiy.Agent.Sender.{Sender, Drained, back_off}
use smotryashchiy.Agent.Sender.Turns.{pending}
use smotryashchiy.Agent.Sender.Keeping.{Keeps}

module _ (codec : Codec) (k : ℕ) where
  -- How much there is to drain.
  abbrev pub load : Sender → ℕ
  load s = length s.spool.items + length (pending codec s.others)

  -- What a drain comes to.
  abbrev Ends : Sender → Sender × Drained → Type 0
  Ends s (t, r) =
      Keeps codec k s t
      × ((r ≡ back_off) ⊎ ((r ≡ Drained.done) × (t.spool.items ≡ []) × (t.fails ≡ 0)))
