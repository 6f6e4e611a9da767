-- ===== src/Leases/Protected/Fixed.antt =====
-- Nothing in a tree that `_protected_tree` passes can be changed by others.
use coordination_loop_harnes.Base.{
  ℕ, ◌==◌, Bool, true, false, ◌&&◌, ◌||◌, not, Option, none, some, List, [], ◌∷◌, Text, any,
  if◌then◌else◌, Result, ok, err, value_error, type_error, os_error, runtime_error, key_error,
  raise_if, ◌>>=◌, ◌>>◌, ◌≡◌, refl, arith, ◌⊎◌, >>=-eq-ok, raise_if-eq-ok,
}
use coordination_loop_harnes.Util.Host.{Host, is_posix}
use coordination_loop_harnes.Leases.Protected.Tree.{
  Stat, Metadata, Node, node, Contents, done, broken, item, Tree, Observer, Identities, mutable,
  others_write, is_link, is_directory, is_regular, set_identity, below, traversal, names_acl,
  check_attributes, check, check_classified, scan, is_directory_of, visit, check_above,
  protected_tree,
}

module _ (h : Host) where
  -- Only a privileged user can change the entry.
  pub record Fixed (m : Metadata) : Type 0 where
    pub stat : Stat
    pub names : List Text
    pub status : m.status ≡ some stat
    pub owned : (stat.uid == 0) ≡ true
    pub others_cannot_write : others_write stat ≡ false
    pub directory_or_file :
        (is_directory stat ≡ true) ⊎ ((is_regular stat ≡ true) × ((stat.links == 1) ≡ true))
    pub attributes : m.attributes ≡ some names
    pub no_acl : any (names_acl h) names ≡ false

  -- So with each entry that a scan lists.
  abbrev pub AllListed : Contents → Type 0
  AllListed done = Unit
  AllListed broken = ⊥
  AllListed (item name classified (node m sub) rest) = Fixed m × AllListed rest

  -- And in the directories below.
  abbrev mutual
    pub AllBelow : Contents → Type 0
    AllBelow done = Unit
    AllBelow broken = ⊥
    AllBelow (item name classified n rest) = FixedNode n × AllBelow rest

    FixedNode : Node → Type 0
    FixedNode (node m sub) = Fixed m × (is_directory_of h m ≡ true → AllBelow sub)

  check_fact : (m : Metadata) (s : Stat) → check h m ≡ ok s → Fixed m × (m.status ≡ some s)
  unfolding check check_attributes mutable
  check_fact m s k = by_status m.status m.attributes refl refl k
    where
      mode_fact :
          (l u w d r o : Bool)
          → (l || not u || w || not (d || r) || (r && not o)) ≡ false
          → (u ≡ true) × (w ≡ false) × ((d ≡ true) ⊎ ((r ≡ true) × (o ≡ true)))
      mode_fact l u w d r o q = ground arith

      by_status :
          (o : Option Stat) (a : Option (List Text))
          → m.status ≡ o
          → m.attributes ≡ a
          → ◌≡◌ {A = Result Stat}
              (elim o [
                | none ↦ err (os_error "lstat failed")
                | some t ↦
                    raise_if (mutable t) (
                      value_error
                        "HOLD_ROOT_PROTECTION_UNPROVEN: mutable or aliased authority entry")
                    >> (check_attributes h a >> ok t)
              ])
              (ok s)
          → Fixed m × (m.status ≡ some s)
      by_status none a e f q = cc
      by_status (some t) none e f q =
          let (_, q1) = raise_if-eq-ok (mutable t) _ _ q in absurd (cc q1)
      by_status (some t) (some names) e f q =
          let (fixed, q1) = raise_if-eq-ok (mutable t) _ _ q in
          let (clear, q2) = raise_if-eq-ok (any (names_acl h) names) _ _ q1 in
          let (owned, unwritable, kinds) =
            mode_fact (is_link t) (t.uid == 0) (others_write t) (is_directory t) (is_regular t)
              (t.links == 1) fixed in
          (
            record {
              stat = t;
              names = names;
              status = e;
              owned = owned;
              others_cannot_write = unwritable;
              directory_or_file = kinds;
              attributes = f;
              no_acl = clear;
            },
            cc,
          )

  classified_fact :
      (c : Option (ℕ × ℕ)) (m : Metadata) (s : Stat) → check_classified h c m ≡ ok s → Fixed m
  unfolding check_classified
  classified_fact none m s k = cc
  classified_fact (some (device, inode)) m s k =
      let (t, c, _) = >>=-eq-ok (check h m) _ k in (check_fact m t c).0

  scan-AllListed :
      (path : Text) (c : Contents) (ids found : Identities)
      → scan h path c ids ≡ ok found
      → AllListed c
  unfolding scan
  scan-AllListed path done ids found k = tt
  scan-AllListed path broken ids found k = cc
  scan-AllListed path (item name classified (node m sub) rest) ids found k =
      let (s, c, k1) = >>=-eq-ok (check_classified h classified m) _ k in
      let (_, k2) = raise_if-eq-ok _ _ _ k1 in
      (
        classified_fact classified m s c,
        scan-AllListed path rest (set_identity (below path name) s ids) found k2,
      )

  visit-AllBelow :
      (path : Text) (c : Contents) (ids found : Identities)
      → AllListed c
      → visit h path c ids ≡ ok found
      → AllBelow c
  unfolding visit
  visit-AllBelow path done ids found a k = tt
  visit-AllBelow path broken ids found a k = a
  visit-AllBelow path (item name classified (node m sub) rest) ids found (f, a) k =
      let (seen, v, k1) = >>=-eq-ok (visit h path rest ids) _ k in
      (
        (
          f,
          λ d.
              below_fact (visit-AllBelow (below path name) sub) seen
                (taken (is_directory_of h m) _ _ d k1),
        ),
        visit-AllBelow path rest ids seen a v,
      )
    where
      taken :
          (b : Bool) (x y : Result Identities)
          → b ≡ true
          → (if b then x else y) ≡ ok found
          → x ≡ ok found
      taken true x y d q = q
      taken false x y d q = cc

      below_fact :
          ((scanned last : Identities)
            → AllListed sub
            → visit h (below path name) sub scanned ≡ ok last
            → AllBelow sub)
          → (seen : Identities)
          → (scan h (below path name) sub seen >>= visit h (below path name) sub) ≡ ok found
          → AllBelow sub
      below_fact deeper seen q =
          let (scanned, s, q1) = >>=-eq-ok (scan h (below path name) sub seen) _ q in
          deeper scanned found (scan-AllListed (below path name) sub seen scanned s) q1

  abbrev pub AllAbove : List (Text × Metadata) → Type 0
  AllAbove [] = Unit
  AllAbove ((path, m) ∷ ms) = Fixed m × AllAbove ms

  check_above-AllAbove :
      (ms : List (Text × Metadata)) (ids found : Identities)
      → check_above h ms ids ≡ ok found
      → AllAbove ms
  unfolding check_above
  check_above-AllAbove [] ids found k = tt
  check_above-AllAbove ((path, m) ∷ ms) ids found k =
      let (s, c, k1) = >>=-eq-ok (check h m) _ k in
      ((check_fact m s c).0, check_above-AllAbove ms (set_identity path s ids) found k1)

  traversal-ok : (r : Result Identities) (ids : Identities) → traversal r ≡ ok ids → r ≡ ok ids
  unfolding traversal
  traversal-ok (ok a) ids k = k
  traversal-ok (err (os_error m)) ids k = cc
  traversal-ok (err (value_error m)) ids k = cc
  traversal-ok (err (type_error m)) ids k = cc
  traversal-ok (err (runtime_error m)) ids k = cc
  traversal-ok (err (key_error m)) ids k = cc

  pub record FixedTree (o : Observer) (t : Tree) : Type 0 where
    pub unprivileged : (is_posix h.os && o.has_listxattr && not (o.euid == 0)) ≡ true
    pub above : AllAbove t.ancestors
    pub itself : Fixed t.root
    pub is_dir : t.is_dir ≡ true
    pub inside : AllBelow t.contents

  -- Whatever the shape of the tree, if `_protected_tree` passes it, then the observer is not
  -- privileged, and the root, each directory above it, and every entry below it at any depth is a
  -- directory or a regular file with one link, owned by user 0, not writable by group or others,
  -- and without an ACL attribute.
  pub protected_tree-FixedTree :
      (o : Observer) (t : Tree) (ids : Identities) → protected_tree h o t ≡ ok ids → FixedTree o t
  unfolding protected_tree
  protected_tree-FixedTree o t ids k =
      let (p, k1) =
        raise_if-eq-ok (not (is_posix h.os) || not o.has_listxattr || o.euid == 0) _ _ k in
      let (above, a, k2) = >>=-eq-ok (check_above h t.ancestors []) _ k1 in
      let (s, c, k3) = >>=-eq-ok (check h t.root) _ k2 in
      let (d, k4) = raise_if-eq-ok (not t.is_dir) _ _ k3 in
      let (found, f, k5) =
        >>=-eq-ok (scan h t.path t.contents (set_identity t.path s above)) _
          (traversal-ok _ ids k4) in
      record {
        unprivileged = rights (is_posix h.os) o.has_listxattr (o.euid == 0) p;
        above = check_above-AllAbove t.ancestors [] above a;
        itself = (check_fact t.root s c).0;
        is_dir = positive t.is_dir d;
        inside =
            visit-AllBelow t.path t.contents found ids (scan-AllListed t.path t.contents _ found f)
              k5;
      }
    where
      rights : (a b c : Bool) → (not a || not b || c) ≡ false → (a && b && not c) ≡ true
      rights a b c q = ground arith

      positive : (b : Bool) → not b ≡ false → b ≡ true
      positive b q = ground arith
