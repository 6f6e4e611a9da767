-- ===== src/Bundles/Links.antt =====
-- A walk that succeeds met no link.
use coordination_loop_harnes.Base.{
  Bool, true, false, ◌&&◌, List, [], ◌∷◌, String, Text, codes, all, ok, ◌≡◌, refl, arith, >>=-eq-ok,
}
use coordination_loop_harnes.Bundles.Tree.{
  Node, file, directory, link, special, Entries, nil, entry, Base, absent, behind_link, present,
  Durable, Paths, durable_directories, below, scan_node, scan_entries, scan_base, scan_directories,
  durable_files,
}

mutual
  no_link : Node → Bool
  no_link (file _ _) = true
  no_link (directory es) = no_links es
  no_link link = false
  no_link special = true

  no_links : Entries → Bool
  no_links nil = true
  no_links (entry _ node es) = no_link node && no_links es

unfoldable pub is_unlinked : Base → Bool
unfolding no_link
is_unlinked absent = true
is_unlinked behind_link = false
is_unlinked (present node) = no_link node

both : (a b : Bool) → a ≡ true → b ≡ true → (a && b) ≡ true
both a b p q = ground arith

module _ (p : Paths) where
  mutual
    unfolding no_link no_links scan_node scan_entries

    scan_node-no_link :
        (path name : Text) (node : Node) (fs : List Durable)
        → scan_node p path name node ≡ ok fs
        → no_link node ≡ true
    scan_node-no_link path name (file _ _) fs k = refl
    scan_node-no_link path name (directory es) fs k = scan_entries-no_links path es fs k
    scan_node-no_link path name link fs k = cc
    scan_node-no_link path name special fs k = refl

    scan_entries-no_links :
        (path : Text) (es : Entries) (fs : List Durable)
        → scan_entries p path es ≡ ok fs
        → no_links es ≡ true
    scan_entries-no_links path nil fs k = refl
    scan_entries-no_links path (entry name node es) fs k =
        let (first, a, k1) = >>=-eq-ok (scan_node p (below path name) name node) _ k in
        let (rest, b, _) = >>=-eq-ok (scan_entries p path es) _ k1 in
        both (no_link node) (no_links es) (scan_node-no_link (below path name) name node first a)
          (scan_entries-no_links path es rest b)

  scan_base-is_unlinked :
      (path : Text) (b : Base) (fs : List Durable)
      → scan_base p path b ≡ ok fs
      → is_unlinked b ≡ true
  unfolding scan_base is_unlinked no_link
  scan_base-is_unlinked path absent fs k = refl
  scan_base-is_unlinked path behind_link fs k = cc
  scan_base-is_unlinked path (present link) fs k = cc
  scan_base-is_unlinked path (present (directory es)) fs k = scan_entries-no_links path es fs k
  scan_base-is_unlinked path (present (file _ _)) fs k = refl
  scan_base-is_unlinked path (present special) fs k = refl

  scan_directories-is_unlinked :
      (tree : String → Base) (run_id : Text) (ds : List String) (fs : List Durable)
      → scan_directories p tree run_id ds ≡ ok fs
      → all (λ d. is_unlinked (tree d)) ds ≡ true
  unfolding scan_directories
  scan_directories-is_unlinked tree run_id [] fs k = refl
  scan_directories-is_unlinked tree run_id (d ∷ ds) fs k =
      let (first, a, k1) = >>=-eq-ok (scan_base p (below (codes d) run_id) (tree d)) _ k in
      let (rest, b, _) = >>=-eq-ok (scan_directories p tree run_id ds) _ k1 in
      both (is_unlinked (tree d)) _ (scan_base-is_unlinked _ (tree d) first a)
        (scan_directories-is_unlinked tree run_id ds rest b)

  pub durable_files-is_unlinked :
      (tree : String → Base) (run_id : Text) (fs : List Durable)
      → durable_files p tree run_id ≡ ok fs
      → all (λ d. is_unlinked (tree d)) durable_directories ≡ true
  unfolding durable_files
  durable_files-is_unlinked tree run_id fs k =
      let (found, a, _) = >>=-eq-ok (scan_directories p tree run_id durable_directories) _ k in
      scan_directories-is_unlinked tree run_id durable_directories found a
