-- ===== src/Leases/Guarded.antt =====
-- Sequences of operations on a lock root.
use coordination_loop_harnes.Base.{ℕ, Bool, Option, Text, ok, ◌≡◌}
use coordination_loop_harnes.Base.Int.{ℤ}
use coordination_loop_harnes.Json.{Json}
use coordination_loop_harnes.Util.Host.{Host}
use coordination_loop_harnes.Leases.Registry.{LockRoot, Moment, acquire}
use coordination_loop_harnes.Leases.Changes.{replace, release}
use coordination_loop_harnes.Leases.Apart.{Exclusive}
use coordination_loop_harnes.Leases.Exclusive.{acquire-Exclusive}
use coordination_loop_harnes.Leases.Replacement.{replace-Exclusive}
use coordination_loop_harnes.Leases.Release.{release-Exclusive}

module _ (h : Host) where
  -- A change of the lock root by one of the three operations.
  pub data Change (root after : LockRoot) : Type 0 where
    acquired :
        (at : ℕ → Moment) (explicit_root : Bool) (candidate : Json)
        → acquire h at explicit_root candidate root ≡ ok after
        → Change root after
    replaced :
        (at : ℕ → Moment) (explicit_root : Bool) (candidate : Json) (generation : ℤ)
        → replace h at explicit_root candidate generation root ≡ ok after
        → Change root after
    released :
        (at : ℕ → Moment) (explicit_root : Bool) (lease_id : Text) (generation : ℤ)
        (outcome_ref : Option Text) (candidate : Option Json)
        → release h at explicit_root lease_id generation outcome_ref candidate root ≡ ok after
        → Change root after

  pub data Changes (root : LockRoot) : LockRoot → Type 0 where
    unchanged : Changes root root
    then_one :
        {before after : LockRoot} → Changes root before → Change before after → Changes root after

  -- From a lock root whose readable ACTIVE records are pairwise compatible, whatever acquisitions,
  -- replacements and releases succeed, in any order and whatever each of them saw of the world, they
  -- stay so: no repository, branch, infrastructure identity, or pair of nested paths is claimed by
  -- two of them with WRITE on either side.
  pub Changes-Exclusive :
      (root after : LockRoot)
      → Changes root after
      → Exclusive h root.entries
      → Exclusive h after.entries
  Changes-Exclusive root after unchanged ex = ex
  Changes-Exclusive root after (then_one {before} cs (acquired at explicit_root candidate k)) ex =
      acquire-Exclusive h at explicit_root candidate before after
        (Changes-Exclusive root before cs ex) k
  Changes-Exclusive root after
        (then_one {before} cs (replaced at explicit_root candidate generation k)) ex =
      replace-Exclusive h at explicit_root candidate generation before after
        (Changes-Exclusive root before cs ex) k
  Changes-Exclusive root after
        (then_one {before} cs
          (released at explicit_root lease_id generation outcome_ref candidate k))
        ex =
      release-Exclusive h at explicit_root lease_id generation outcome_ref candidate before after
        (Changes-Exclusive root before cs ex) k
