-- ===== src/Auth/Handlers/Requests.antt =====
-- handlers.go: requests in flight together. Their parts, each under its own mutex, come in any order.
use smotryashchiy.Base.{ℕ, zero, suc, List, [], ◌∷◌, Option, none, some, Bytes}
use smotryashchiy.Sorting.{Sorter}
use smotryashchiy.Auth.Service.{Session, Result, Bcrypt, verify_password}
use smotryashchiy.Auth.Handlers.{Handlers, look, checked_login, settled_login, settled_step_up}

-- What a request is about to do: compare its password, or have the result counted.
pub data Stage : Type 0 where
  login_waits : Bytes → Option Bytes → Stage
  step_up_waits : Bytes → Stage
  login_checked : Result Session → Stage
  step_up_checked : Result (Unit {0}) → Stage

-- A request that the limiter let through.
pub record Flight : Type 0 where
  pub client : Bytes
  pub stage : Stage

-- The handlers, the requests in flight, and the clients whose passwords were compared, the last first.
pub record World : Type 0 where
  pub handlers : Handlers
  pub flights : List Flight
  pub compared : List Bytes

-- A request comes in, with its body, or the request at an index goes on.
pub data Move : Type 0 where
  login_comes : Bytes → Option Bytes → Option Bytes → ℕ → Move
  step_up_comes : Bytes → Bytes → ℕ → Move
  goes : ℕ → ℕ → Move

-- What follows the look, with what the request would do next.
abbrev pub let_through : World → Bytes → Option Stage → Handlers × Option ℕ → World
let_through w client stage (h, some d) = record w { handlers = h }
let_through w client none (h, none) = record w { handlers = h }
let_through w client (some stage) (h, none) = record w {
  handlers = h;
  flights = record { client = client; stage = stage } ∷ w.flights;
}

abbrev pub stage_of : Option Bytes → Option Bytes → Option Stage
stage_of none token = none
stage_of (some password) token = some (login_waits password token)

-- The request at an index, and the others.
abbrev pub taken : ℕ → List Flight → Option (Flight × List Flight)
taken i [] = none
taken zero (r ∷ rs) = some (r, rs)
taken (suc i) (r ∷ rs) = elim (taken i rs) [ none ↦ none | some (x, others) ↦ some (x, r ∷ others) ]

module _ (bcrypt : Bcrypt) (sorter : Sorter Bytes) where
  abbrev pub go : World → List Flight → Bytes → Stage → ℕ → World
  go w others client (login_waits password token) now =
      let (h, result) = checked_login bcrypt sorter w.handlers password token now in
      record {
        handlers = h;
        flights = record { client = client; stage = login_checked result } ∷ others;
        compared = client ∷ w.compared;
      }
  go w others client (step_up_waits password) now = record {
    handlers = w.handlers;
    flights =
        record {
          client = client;
          stage = step_up_checked (verify_password bcrypt w.handlers.service password);
        }
        ∷ others;
    compared = client ∷ w.compared;
  }
  go w others client (login_checked result) now = record w {
    handlers = (settled_login bcrypt sorter w.handlers client result now).0;
    flights = others;
  }
  go w others client (step_up_checked result) now = record w {
    handlers = (settled_step_up bcrypt sorter w.handlers client result now).0;
    flights = others;
  }

  abbrev pub gone_on : World → Option (Flight × List Flight) → ℕ → World
  gone_on w none now = w
  gone_on w (some (r, others)) now = go w others r.client r.stage now

  unfoldable pub move : Move → World → World
  move (login_comes client body token now) w =
      let_through w client (stage_of body token) (look w.handlers client now)
  move (step_up_comes client password now) w =
      let_through w client (some (step_up_waits password)) (look w.handlers client now)
  move (goes i now) w = gone_on w (taken i w.flights) now

  abbrev pub moves : List Move → World → World
  moves [] w = w
  moves (m ∷ ms) w = moves ms (move m w)
