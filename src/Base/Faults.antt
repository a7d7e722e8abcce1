-- ===== src/Base/Faults.antt =====
-- A schedule of failing calls. Each call takes the next mark: it fails if the mark is `true`. With no
-- mark left no call fails.
use mathlib.Core.Bool.{Bool, false}
use mathlib.Core.List.{List, [], ◌∷◌}

abbrev pub next_fails : List Bool → Bool
next_fails [] = false
next_fails (f ∷ fs) = f

abbrev pub later_faults : List Bool → List Bool
later_faults [] = []
later_faults (f ∷ fs) = fs
