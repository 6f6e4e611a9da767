-- ===== src/Leases/Protected/Examples.antt =====
-- A custody of the second generation of a lease, and the theorems at it.
use coordination_loop_harnes.Base.{ok, [], ◌∷◌, codes, ◌≡◌, refl}
use coordination_loop_harnes.Leases.Fixture.{host}
use coordination_loop_harnes.Leases.Protected.Tree.{
  Identities, mutable, set_identity, traversal, check_attributes, check, check_classified, scan,
  visit, check_above, protected_tree,
}
use coordination_loop_harnes.Leases.Protected.Fixed.{FixedTree, protected_tree-FixedTree}
use coordination_loop_harnes.Leases.Protected.Fixture.{tree, observer, stat_at}

abbrev identities : Identities
identities =
    (codes "/", stat_at 1 16_877)
    ∷ (codes "/l", stat_at 2 16_877)
    ∷ (codes "/l/L1.lease.json", stat_at 3 33_188)
    ∷ (codes "/l/lease-history", stat_at 4 16_877)
    ∷ (codes "/l/lease-history/1.json", stat_at 5 33_188)
    ∷ []

walks : protected_tree host observer tree ≡ ok identities
unfolding protected_tree check_above check check_attributes check_classified scan visit traversal
    mutable set_identity
walks = refl

protected_tree-FixedTree_example : FixedTree host observer tree
protected_tree-FixedTree_example = protected_tree-FixedTree host observer tree identities walks
