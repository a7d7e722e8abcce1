-- ===== src/Uptime/Tests.antt =====
-- Runs of the prober, and the theorems at concrete inputs.
use smotryashchiy.Base.{
  ℕ, ◌≡◌, refl, true, false, List, [], ◌∷◌, none, some, arith, codes, pos, length,
}
use smotryashchiy.Uptime.Target.{tcp, Target, Observation, NewTarget, Library, validate, trimmed}
use smotryashchiy.Uptime.Target.Accepted.{Decides, acceptable, validate_target_lem}
use smotryashchiy.Uptime.Store
use smotryashchiy.Uptime.Store.{ResultRow, Tables, has_target, targets}
use smotryashchiy.Uptime.Service.{
  probing, Service, runs, creates, syncs, wakes, takes, answers, deletes, quits, Move, in_flight,
  create, delete, reconcile, purge_loop, move, moves,
}
use smotryashchiy.Uptime.Service.Purging.{Purges, purge_total}
use smotryashchiy.Uptime.Service.Scheduling.{Inv, moves-Inv, reconcile_lem}

-- Every address splits into the host `h` and the port 80.
abbrev library : Library
library = record {
  trim_space = λ s. s;
  parse_url = λ s. none;
  split_host_port = λ s. some (codes "h", codes "80");
  atoi = λ s. some (pos 80);
}

abbrev shop : NewTarget
shop = record {
  name = codes "shop";
  kind = codes "tcp";
  address = codes "h:80";
  interval_seconds = pos 0;
}

abbrev mail : Target
mail = record {
  id = codes "m";
  name = codes "mail";
  kind = tcp;
  address = codes "h:25";
  interval_seconds = pos 30;
  created_at = 7;
}

abbrev result_at : ℕ → ResultRow
result_at ms = record {
  target_id = codes "m";
  ts = ms;
  is_ok = true;
  latency_ms = some 3;
  status_code = none;
  error = none;
  cert_expires_at = none;
}

abbrev found : Observation
found = record {
  target_id = [];
  ts = 9000000;
  is_ok = true;
  latency_ms = some 4;
  status_code = none;
  error = [];
  cert_expires_at = none;
}

-- One target with two results, and its worker in a check.
abbrev busy : Service
busy = record {
  db = record {
    tables = record { targets = mail ∷ []; results = result_at 1 ∷ result_at 5 ∷ [] };
    faults = [];
  };
  sync = false;
  workers = record { target = mail; cancelled = false; phase = probing } ∷ [];
  published = [];
}

abbrev busy_Inv : Inv busy
busy_Inv = record {
  sound = record {
    ids = (refl, tt);
    names = (refl, tt);
    few = ground arith;
    ranged = refl;
    owned = refl;
    keyed = (refl, (refl, tt));
  };
  alone = (refl, tt);
  slots = ground arith;
}

-- A target is created, its worker starts and takes a slot, while the other one returns with a result.
abbrev day : List Move
day =
    creates shop (some (codes "s")) 20
    ∷ syncs
    ∷ wakes 1
    ∷ takes 1
    ∷ answers 0 found
    ∷ deletes (codes "m")
    ∷ syncs
    ∷ quits 0
    ∷ []

day_workers : in_flight (moves library day busy).workers ≡ 1
unfolding move create delete reconcile targets validate Store.delete Store.create
    Store.insert_result
day_workers = refl

day_published : length (moves library day busy).published ≡ 1
unfolding move create delete reconcile targets validate Store.delete Store.create
    Store.insert_result
day_published = refl

moves-Inv_example : Inv (moves library day busy)
moves-Inv_example = moves-Inv library day busy busy_Inv

reconcile_lem_example : runs (codes "m") (reconcile busy).workers ≡ true
reconcile_lem_example = reconcile_lem busy (codes "m") refl

purge_total_example : Purges 3000000 busy.db.tables (purge_loop 3 3000000 busy.db)
purge_total_example = purge_total 3 3000000 busy.db (ground arith)

validate_target_lem_example :
    Decides
      (acceptable library (trimmed library shop))
      (trimmed library shop)
      (validate library shop)
validate_target_lem_example = validate_target_lem library shop
