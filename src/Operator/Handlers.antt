-- ===== src/Operator/Handlers.antt =====
-- internal/operator/interfaces/http/handlers.go: queueing a command, which asks for the password again
-- where its kind needs that. The body is decoded, and the client's key is given.
use smotryashchiy.Base.{ℕ, ◌≡◌, Bool, true, false, Option, none, arith, Bytes, codes, if◌then◌else◌}
use smotryashchiy.Sorting.{Sorter}
use smotryashchiy.Sql
use smotryashchiy.Sql.{Db, Fault}
use smotryashchiy.Auth.Service.{Bcrypt, verify_password, ok}
use smotryashchiy.Auth.LoginLimiter.{retry_after}
use smotryashchiy.Auth.Handlers
use smotryashchiy.Auth.Handlers.{StepUp, confirmed, limited, wrong, Turns, look, step_up}
use smotryashchiy.Operator.Command.{Command, NewCommand, Library, needs_step_up}
use smotryashchiy.Operator.Store.{Tables, Error}
use smotryashchiy.Operator.Service.{Json, queue, refused_queue}

-- The handlers of login, with their limiter, and the database of the console.
pub record Console : Type 0 where
  pub guard : Handlers.Handlers
  pub database : Db Tables

-- What the operator is answered.
pub data Answer : Type 0 where
  accepted : Command → Answer
  step_up_refused : StepUp → Answer
  error : Fault Error → Answer

abbrev answer_of : Console → Sql.Result Error Command × Db Tables → Console × Answer
answer_of c (Sql.ok x, d) = (record c { database = d }, accepted x)
answer_of c (Sql.err e, d) = (record c { database = d }, error e)

abbrev pub is_confirmed : StepUp → Bool
is_confirmed StepUp.confirmed = true
is_confirmed _ = false

module _ (bcrypt : Bcrypt) (sorter : Sorter Bytes) (lib : Library) (json : Json) where
  -- `queue`
  unfoldable pub queue_handler :
      Turns → Console → Bytes → NewCommand → Bytes → Option Bytes → ℕ → Console × Answer
  queue_handler turns c client req password new_id now =
      let queued : Console → Console × Answer =
        λ (c' : Console). answer_of c' (queue lib json req client new_id now c'.database) in
      if needs_step_up req.kind
      then (let (guard, answer) = step_up bcrypt sorter turns c.guard client password in
          if is_confirmed answer then queued (record c { guard = guard }) else (
            record {
              guard = guard;
              database =
                  (refused_queue lib json req client (codes "step-up refused") now c.database).1;
            },
            step_up_refused answer,
          ))
      else queued c

  -- A command whose kind needs the password again is accepted only if the client was not limited when
  -- its request looked, and the password that came with it is one that the stored hash accepts when it
  -- is compared, whatever other requests do in between.
  pub accepted_needs_password :
      (turns : Turns) (c c' : Console) (client : Bytes) (req : NewCommand) (password : Bytes)
      (new_id : Option Bytes) (now : ℕ) (x : Command)
      → needs_step_up req.kind ≡ true
      → queue_handler turns c client req password new_id now ≡ (c', accepted x)
      → ((retry_after c.guard.attempts client turns.look_at).1 ≡ none)
        × (verify_password bcrypt
              (turns.after_look (look c.guard client turns.look_at).0).service
              password
            ≡ ok tt)
  unfolding queue_handler step_up
  accepted_needs_password turns c c' client req password new_id now x n h = ground arith
