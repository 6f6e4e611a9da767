-- ===== src/Leases/ObserveExamples.antt =====
-- One lease that is observed and listed.
use coordination_loop_harnes.Base.{true, codes, ok, ◌≡◌, ◌⊎◌, some, none}
use coordination_loop_harnes.Leases.Observe.{active, unknown_fail_closed}
use coordination_loop_harnes.Leases.Observed.{Told, observe-Told}
use coordination_loop_harnes.Leases.Fixture.{disk, host, moment, first_root}
use coordination_loop_harnes.Leases.Runs.{sight, runs}

observe-Told_example :
    (active ≡ unknown_fail_closed)
    ⊎ Told host moment (some (ok disk)) none first_root.entries (codes "L1") sight
observe-Told_example =
    observe-Told host moment (some (ok disk)) none true first_root.entries (codes "L1") sight runs.5
