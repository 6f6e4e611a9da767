-- ===== src/Leases/Examples.antt =====
-- One lease that is acquired and replaced, and the theorems at it.
use coordination_loop_harnes.Base.{◌↔◌, ok, true, false, [], codes, some, ◌≡◌, refl}
use coordination_loop_harnes.Json.{Json, obj, arr, cons, nil, field, end, is_text, get}
use coordination_loop_harnes.Leases.Fixture.{
  text, host, moment, first_lease, second_lease, empty_root,
}
use coordination_loop_harnes.Leases.Sets.{sets, claimed, unhashable_mode}
use coordination_loop_harnes.Leases.Overlap.{set_overlaps}
use coordination_loop_harnes.Leases.Compatible.{Compatible}
use coordination_loop_harnes.Leases.Exact.{set_overlaps_iff}
use coordination_loop_harnes.Base.Int.{pos}
use coordination_loop_harnes.Leases.Overlap.{set_overlaps}
use coordination_loop_harnes.Leases.Registry.{readable}
use coordination_loop_harnes.Leases.Compatible.{Compatible}
use coordination_loop_harnes.Leases.Apart.{Exclusive}
use coordination_loop_harnes.Leases.Guarded.{
  Changes, unchanged, then_one, acquired, replaced, Changes-Exclusive,
}
use coordination_loop_harnes.Leases.View.{view}
use coordination_loop_harnes.Leases.Steps.{Changes-final}
use coordination_loop_harnes.Leases.Runs.{second_root, closed_lease, closed_root, later_root, runs}

two-Changes : Changes host empty_root second_root
two-Changes =
    then_one (then_one unchanged (acquired (λ n. moment) true first_lease runs.1))
      (replaced (λ n. moment) true second_lease (pos 1) runs.3)

Changes-Exclusive_example : Exclusive host second_root.entries
Changes-Exclusive_example = Changes-Exclusive host empty_root second_root two-Changes tt

-- A record that reads another repository.
abbrev reader : Json
reader = obj (
    field "schema_version" (text "coord.repo-set-lease.v2") (
      field "repositories"
        (arr (
          cons (obj (field "repository" (text "acme/other") (field "mode" (text "READ") end))) nil))
        end))

writer-sets : sets host first_lease ≡ ok (claimed host first_lease)
unfolding sets unhashable_mode get
writer-sets = refl

reader-sets : sets host reader ≡ ok (claimed host reader)
unfolding sets unhashable_mode get
reader-sets = refl

set_overlaps_iff_example :
    (set_overlaps (codes "L2") (claimed host first_lease) (claimed host reader) ≡ [])
    ↔ Compatible (claimed host first_lease) (claimed host reader)
set_overlaps_iff_example =
    set_overlaps_iff host (codes "L2") first_lease reader (claimed host first_lease)
      (claimed host reader) writer-sets reader-sets

closed_first : view closed_root.entries (codes "L0") ≡ some (readable closed_lease)
unfolding view
closed_first = refl

closed_not_active : is_text "ACTIVE" (get "state" closed_lease) ≡ false
unfolding get
closed_not_active = refl

Changes-final_example : view later_root.entries (codes "L0") ≡ some (readable closed_lease)
Changes-final_example =
    Changes-final host closed_root later_root (codes "L0") closed_lease
      (then_one unchanged (acquired (λ n. moment) true first_lease runs.2)) closed_first
      closed_not_active
