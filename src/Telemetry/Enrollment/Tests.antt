-- ===== src/Telemetry/Enrollment/Tests.antt =====
-- Runs of the enrollment of hosts, and the theorems at concrete inputs.
use smotryashchiy.Base.{◌≡◌, refl, true, false, [], ◌∷◌, none, some, arith, codes, ◌++◌, ◌^◌}
use smotryashchiy.Telemetry.Enrollment.Addresses.{
  Subnet, next_free_addr, NextFree, next_free_addr_lem,
}
use smotryashchiy.Telemetry.Enrollment.Store
use smotryashchiy.Telemetry.Enrollment.Store.{Tables, create_enrollable_host}
use smotryashchiy.Telemetry.Enrollment.Service.{Library, Service, create_host, enroll}
use smotryashchiy.Telemetry.Enrollment.Sound.{Sound}
use smotryashchiy.Telemetry.Enrollment.History.{
  Request, creates, enrolls, restores, perform, run, run-Sound,
}
use smotryashchiy.Telemetry.Enrollment.History.Once.{is_enrolled, enrolled_once}

-- The hash of a secret is the secret behind a letter.
abbrev library : Library
library = record {
  trim_space = λ s. s;
  sha256 = λ s. codes "h" ++ s;
  base64 = λ s. s;
  is_public_key = λ s. true;
  text_of = λ ip. [];
}

-- Eight addresses from 8 on: 10 to 14 are for hosts.
abbrev tunnel_subnet : Subnet
tunnel_subnet = record { network = 8; size = 8; space = 2 ^ 32 }

abbrev empty : Service
empty = record {
  db = record {
    tables = record { hosts = []; enrollments = []; peers = []; server_key = none };
    faults = [];
  };
  tunnel = some (record { accepted = []; faults = [] });
}

abbrev web : Request
web = creates (codes "web") (some (codes "1")) (some (codes "s")) 1000000

abbrev mail : Request
mail = creates (codes "mail") (some (codes "2")) (some (codes "t")) 2000000

abbrev empty-Sound : Sound tunnel_subnet empty.db.tables
empty-Sound = record { hashes = tt; hosts = tt; keys = tt; ips = tt; ranged = refl }

abbrev ready : Service
ready = run library tunnel_subnet (web ∷ []) empty

third_free : next_free_addr tunnel_subnet (10 ∷ 12 ∷ []) ≡ some 11
unfolding next_free_addr
third_free = refl

full : next_free_addr tunnel_subnet (10 ∷ 12 ∷ 11 ∷ 14 ∷ 13 ∷ []) ≡ none
unfolding next_free_addr
full = refl

next_free_addr_lem_example :
    NextFree tunnel_subnet (10 ∷ 12 ∷ []) (next_free_addr tunnel_subnet (10 ∷ 12 ∷ []))
next_free_addr_lem_example = next_free_addr_lem tunnel_subnet (10 ∷ 12 ∷ []) (omega arith)

run-Sound_example :
    Sound tunnel_subnet
      (run library tunnel_subnet
        (web ∷ mail ∷ enrolls (codes "t") (codes "k") 3000000 ∷ restores ∷ [])
        empty).db.tables
run-Sound_example =
    run-Sound library tunnel_subnet
      (web ∷ mail ∷ enrolls (codes "t") (codes "k") 3000000 ∷ restores ∷ []) empty (omega arith)
      empty-Sound

ready-Sound : Sound tunnel_subnet ready.db.tables
ready-Sound = run-Sound library tunnel_subnet (web ∷ []) empty (omega arith) empty-Sound

ready_enrolls :
    is_enrolled (enroll library tunnel_subnet ready (codes "s") (codes "k") 3000000).1 ≡ true
unfolding perform create_host enroll create_enrollable_host Store.enroll next_free_addr
ready_enrolls = refl

enrolled_once_example :
    is_enrolled
      (enroll library tunnel_subnet
        (run library tunnel_subnet
          (mail ∷ [])
          (enroll library tunnel_subnet ready (codes "s") (codes "k") 3000000).0)
        (codes "s")
        (codes "l")
        4000000).1
    ≡ false
enrolled_once_example =
    enrolled_once library tunnel_subnet (codes "s") (codes "k") (codes "l") 3000000 4000000
      (mail ∷ []) ready ready-Sound ready_enrolls refl
