-- ===== src/Lock/Tests.antt =====
-- The lock on concrete schedules.
use greenfield.Base.{◌≤◌, ◌≡◌, refl, none, some, List, [], ◌∷◌}
use greenfield.Lock.{
  World, idle, ended, Event, tick, proceeds, crashes, run, holders, idle_processes,
}
use greenfield.Lock.Exclusion.{run-holders}

-- One process takes the lock while another is refused, and the other takes it later.
abbrev handover : List Event
handover = proceeds 0 ∷ proceeds 1 ∷ tick 5 ∷ proceeds 1 ∷ proceeds 0 ∷ proceeds 0 ∷ []

run-holders_example :
    holders
      (run 10 handover (record { now = 100; file = none; processes = idle_processes 2 })).processes
    ≤ 1
unfolding run greenfield.Lock.stays_fresh idle_processes
run-holders_example = run-holders 10 2 100 handover refl

-- A stale file: both processes read its age before either unlinks it, and the second unlinks the new
-- file of the first.
abbrev race : List Event
race =
    proceeds 0
    ∷ proceeds 1
    ∷ proceeds 0
    ∷ proceeds 1
    ∷ proceeds 0
    ∷ proceeds 0
    ∷ proceeds 1
    ∷ proceeds 1
    ∷ []

holders-race :
    holders
      (run 10 race (record { now = 100; file = some 50; processes = idle ∷ idle ∷ [] })).processes
    ≡ 2
unfolding run holders
holders-race = refl
