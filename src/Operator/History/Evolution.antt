-- ===== src/Operator/History/Evolution.antt =====
-- service.go: what any history of calls does to the commands.
use smotryashchiy.Base.{ℕ, List, [], ◌∷◌}
use smotryashchiy.Sql.{Db}
use smotryashchiy.Operator.Command.{Library}
use smotryashchiy.Operator.Store.{Tables}
use smotryashchiy.Operator.Service.{Json}
use smotryashchiy.Operator.Store.Life.{Evolves, Evolves-refl, Evolves-trans, Aging}
use smotryashchiy.Operator.Store.Evolution.{expire-Aging}
use smotryashchiy.Operator.History.{
  Request, queues, is_refused, claims, answers, looks, lists, creates, edits, removes, pages,
  maintains, ticks, perform, run,
}
use smotryashchiy.Operator.History.Calls.{
  Aging-drop, answer-Aging, claims-Aging, create_incident-Aging, edit_incident-Aging, lists-Aging,
  looks-Aging, maintain-Aging, pages-Aging, queue-Aging, refused-Aging, remove_incident-Aging,
}

module _ (lib : Library) (json : Json) where
  pub perform-Aging : (now : ℕ) (req : Request) → Aging (perform lib json now req)
  perform-Aging now (queues n client id) = Aging-drop _ (queue-Aging lib json n client id now)
  perform-Aging now (is_refused n client why) =
      Aging-drop _ (refused-Aging lib json n client why now)
  perform-Aging now (claims host) = claims-Aging host now
  perform-Aging now (answers host id report) =
      Aging-drop _ (answer-Aging lib json host id report now)
  perform-Aging now (looks id) = Aging-drop _ (looks-Aging id now)
  perform-Aging now (lists limit) = Aging-drop _ (lists-Aging limit now)
  perform-Aging now (creates i client id) =
      Aging-drop _ (create_incident-Aging lib json i client id now)
  perform-Aging now (edits id i client) =
      Aging-drop _ (edit_incident-Aging lib json id i client now)
  perform-Aging now (removes id client) =
      Aging-drop _ (remove_incident-Aging lib json id client now)
  perform-Aging now (pages before limit) = Aging-drop _ (pages-Aging before limit)
  perform-Aging now (maintains clock) = Aging-drop _ (maintain-Aging clock now)
  perform-Aging now ticks = Aging-drop _ (expire-Aging now)

  -- Whatever is called, in whatever order, at whatever times, and whatever statement fails: each
  -- command that was in the table stays there, for the same host, of the same kind, with the same
  -- arguments, and its status moves only from queued to running or expired, and from running to done
  -- or failed.
  pub commands_evolve :
      (reqs : List (ℕ × Request)) (d : Db Tables)
      → Evolves d.tables.commands (run lib json reqs d).1.tables.commands
  commands_evolve [] d = Evolves-refl d.tables.commands
  commands_evolve ((now, req) ∷ reqs) d =
      let d' = (perform lib json now req d).1 in
      Evolves-trans d.tables.commands d'.tables.commands (run lib json reqs d').1.tables.commands
        ((perform-Aging now req).ages d).evolved (commands_evolve reqs d')
