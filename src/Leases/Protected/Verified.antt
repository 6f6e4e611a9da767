-- ===== src/Leases/Protected/Verified.antt =====
-- What a snapshot of a custody shows.
use coordination_loop_harnes.Base.{ℕ, ◌<◌, ◌≤◌, true, false, List, Text, ok, ◌≡◌}
use coordination_loop_harnes.Base.Int.{ℤ}
use coordination_loop_harnes.Json.{Json, str, int, get, is_text, json_eq}
use coordination_loop_harnes.Util.Host.{Host}
use coordination_loop_harnes.Util.Canonical.{canonical_json_bytes}
use coordination_loop_harnes.Decisions.Verify.{Report}
use coordination_loop_harnes.Leases.Sets.{is_v2}
use coordination_loop_harnes.Leases.Validate.{validate_lease}
use coordination_loop_harnes.Leases.Authority.{verify_bound_lease_decision}
use coordination_loop_harnes.Leases.Registry.{require_unexpired_acquisition}
use coordination_loop_harnes.Leases.Changes.{read_entry}
use coordination_loop_harnes.Leases.Protected.Tree.{Identities, same_identities, protected_tree}
use coordination_loop_harnes.Leases.Protected.Fixed.{FixedTree}
use coordination_loop_harnes.Leases.Protected.Custody.{Custody, generations_before, current_action}
use coordination_loop_harnes.Leases.Protected.Lineage.{Succession}

module _ (h : Host) where
  -- The current record of a custody.
  pub record Current (w : Custody) (lease_id : Text) (g : ℤ) (serialized : List ℕ) (current : Json)
      : Type 0 where
    pub was : read_entry h lease_id w.entries ≡ ok current
    pub exact : canonical_json_bytes h current ≡ ok serialized
    pub of_lease : json_eq (get "lease_id" current) (str lease_id) ≡ true
    pub at_generation : json_eq (get "generation" current) (int g) ≡ true
    pub v2 : is_v2 current ≡ true
    pub is_active : is_text "ACTIVE" (get "state" current) ≡ true
    pub valid : validate_lease h current true false ≡ ok tt

  -- A custody that only privileged users can change, with the whole chain of its generations.
  pub record Custodied (w : Custody) (lease_id : Text) (g : ℤ) (serialized : List ℕ) : Type 0 where
    pub current : Json
    pub record_is : Current w lease_id g serialized current
    pub path : Text
    pub report : Report
    pub authorized :
        verify_bound_lease_decision h w.moment.disk current path (current_action g) ≡ ok report
    pub history :
        (generation : ℕ)
        → 0 < generation
        → generation ≤ generations_before g
        → Succession h w.moment.disk w.locks lease_id (generations_before g) generation current
    pub no_mutation : w.mutex_exists ≡ false
    pub unchanged : w.moment.entry_unchanged ≡ ok tt
    pub unexpired : require_unexpired_acquisition h w.moment current ≡ ok tt
    pub locks_fixed : FixedTree h w.observer w.lock_tree × FixedTree h w.observer w.lock_tree_after
    pub repo_fixed : FixedTree h w.observer w.repo_tree × FixedTree h w.observer w.repo_tree_after
    pub same_roots :
        (a : Identities) × (b : Identities) × (c : Identities) × (e : Identities) × (protected_tree
            h w.observer w.lock_tree
          ≡ ok a)
        × (protected_tree h w.observer w.lock_tree_after ≡ ok b)
        × (same_identities b a ≡ true)
        × (protected_tree h w.observer w.repo_tree ≡ ok c)
        × (protected_tree h w.observer w.repo_tree_after ≡ ok e)
        × (same_identities e c ≡ true)
