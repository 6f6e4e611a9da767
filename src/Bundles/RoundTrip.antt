-- ===== src/Bundles/RoundTrip.antt =====
-- A bundle that was sealed passes while its files stay as they were.
use coordination_loop_harnes.Base.{
  Bool, true, false, ◌&&◌, not, Option, some, List, [], ◌∷◌, ◌++◌, String, Text, codes, str_eq,
  text_eq, is_empty, if◌then◌else◌, Result, ok, err, os_error, ◌>>=◌, ◌>>◌, ◌≡◌, refl, subst,
  eq_iff, >>=-eq-ok, raise_if-eq-ok,
}
use coordination_loop_harnes.Json.{Json, get, json_eq}
use coordination_loop_harnes.Util.Host.{Host}
use coordination_loop_harnes.Util.Safe.{is_safe_id}
use coordination_loop_harnes.Util.Validation.{validate_document}
use coordination_loop_harnes.Bundles.Tree.{
  Node, file, directory, link, special, Entries, nil, entry, Base, absent, behind_link, present,
  Durable, Paths, durable_directories, seal_name, below, is_durable, scan_node, scan_entries,
  scan_base, scan_directories, durable_files,
}
use coordination_loop_harnes.Bundles.Seal.{
  entry_json, binding_json, bindings, seal_document, check_contents, seal_bundle,
}
use coordination_loop_harnes.Bundles.Verify.{
  iterated, actual_from, BundleReport, found_findings, verify_bundle,
}
use coordination_loop_harnes.Bundles.Sealed.{
  distinct, text_refl, actual_digests, to_list-items_by, files_as_sealed,
}
use coordination_loop_harnes.Bundles.Bound.{
  bindings-Holds, targets_hold, declared_keys-map, pairs_as_sealed,
}

-- `write_json_atomic` of the seal: its file is made, or takes the place of a file.
unfoldable pub put_seal : Node → Entries → Result Entries
put_seal seal nil = ok (entry seal_name seal nil)
put_seal seal (entry name node es) = elim (text_eq name seal_name) [
  | false ↦ put_seal seal es >>= λ rest. ok (entry name node rest)
  | true ↦ elim node [
    | file _ _ ↦ ok (entry name seal es)
    | directory _ ↦ err (os_error "Is a directory")
    | link ↦ ok (entry name seal es)
    | special ↦ err (os_error "cannot be replaced")
  ]
]

unfoldable pub put_in_base : Node → Base → Result Base
unfolding put_seal
put_in_base seal absent = ok (present (directory (entry seal_name seal nil)))
put_in_base seal behind_link = ok behind_link
put_in_base seal (present (directory es)) =
    put_seal seal es >>= λ rest. ok (present (directory rest))
put_in_base seal (present (file _ _)) = err (os_error "Not a directory")
put_in_base seal (present link) = ok (present link)
put_in_base seal (present special) = err (os_error "Not a directory")

-- The tree with the seal written for the run.
unfoldable pub write_seal : Node → (String → Base) → Result (String → Base)
unfolding put_in_base
write_seal seal tree =
    put_in_base seal (tree "runs") >>= λ runs. ok (λ d. if str_eq d "runs" then runs else tree d)

module _ (p : Paths) (sha256 : Text) (content : Option Text) where
  -- The walk passes over a file of the seal's name.
  passed_over :
      (path name : Text) (d : Text) (c : Option Text)
      → text_eq name seal_name ≡ true
      → scan_node p path name (file d c) ≡ ok []
  unfolding scan_node is_durable
  passed_over path name d c e = rw e (last _ _)
    where
      last :
          (fs : List Durable) (b : Bool)
          → ◌≡◌ {A = Result (List Durable)} (if b && false then ok fs else ok []) (ok [])
      last fs true = refl
      last fs false = refl

  put_seal-scan :
      (path : Text) (es after : Entries)
      → put_seal (file sha256 content) es ≡ ok after
      → (fs : List Durable) → scan_entries p path es ≡ ok fs
      → scan_entries p path after ≡ ok fs
  unfolding put_seal scan_entries scan_node
  put_seal-scan path nil after k fs s =
      subst (λ z. scan_entries p path z ≡ ok fs) (same _ after k)
        (rw (passed_over (below path seal_name) seal_name sha256 content (text_refl seal_name)) s)
    where
      same : (a b : Entries) → ok a ≡ ok b → a ≡ b
      same a b r = cc
  put_seal-scan path (entry name node es) after k fs s =
      split (text_eq name seal_name) refl node k s (put_seal-scan path es)
    where
      same : (a b : Entries) → ok a ≡ ok b → a ≡ b
      same a b r = cc

      seal : Node
      seal = file sha256 content

      no_link :
          (q : Text)
          → (scan_node p q name link >>= λ first.
              scan_entries p path es >>= λ rest. ok (first ++ rest))
            ≡ ok fs
          → ⊥
      no_link q r = cc

      split :
          (b : Bool)
          → text_eq name seal_name ≡ b
          → (n : Node)
          → elim b [
            | false ↦ put_seal seal es >>= λ rest. ok (entry name n rest)
            | true ↦ elim n [
              | file _ _ ↦ ok (entry name seal es)
              | directory _ ↦ err (os_error "Is a directory")
              | link ↦ ok (entry name seal es)
              | special ↦ err (os_error "cannot be replaced")
            ]
          ]
            ≡ ok after
          → (scan_node p (below path name) name n >>= λ first.
              scan_entries p path es >>= λ rest. ok (first ++ rest))
            ≡ ok fs
          → ((after' : Entries)
              → put_seal seal es ≡ ok after'
              → (fs' : List Durable) → scan_entries p path es ≡ ok fs'
              → scan_entries p path after' ≡ ok fs')
          → scan_entries p path after ≡ ok fs
      split true e (file d c) r t ih =
          subst (λ z. scan_entries p path z ≡ ok fs) (same _ after r)
            (rw (passed_over (below path name) name sha256 content e)
              (rw (passed_over (below path name) name d c e) at t))
      split true e (directory _) r t ih = cc
      split true e link r t ih = absurd (no_link (below path name) t)
      split true e special r t ih = cc
      split false e n r t ih =
          let (rest, q, r1) = >>=-eq-ok (put_seal seal es) _ r in
          let (first, a, t1) = >>=-eq-ok (scan_node p (below path name) name n) _ t in
          let (more, c, t2) = >>=-eq-ok (scan_entries p path es) _ t1 in
          subst (λ z. scan_entries p path z ≡ ok fs) (same _ after r1) (rw (a, ih rest q more c) t2)

  put_in_base-scan :
      (path : Text) (b after : Base) (fs : List Durable)
      → put_in_base (file sha256 content) b ≡ ok after
      → scan_base p path b ≡ ok fs
      → scan_base p path after ≡ ok fs
  unfolding put_in_base put_seal scan_base scan_entries
  put_in_base-scan path absent after fs k s =
      subst (λ z. scan_base p path z ≡ ok fs) (same _ after k)
        (put_seal-scan path nil (entry seal_name (file sha256 content) nil) refl fs s)
    where
      same : (a b : Base) → ok a ≡ ok b → a ≡ b
      same a b r = cc
  put_in_base-scan path behind_link after fs k s = cc
  put_in_base-scan path (present (directory es)) after fs k s =
      let (rest, q, k1) = >>=-eq-ok (put_seal (file sha256 content) es) _ k in
      subst (λ z. scan_base p path z ≡ ok fs) (same _ after k1) (put_seal-scan path es rest q fs s)
    where
      same : (a b : Base) → ok a ≡ ok b → a ≡ b
      same a b r = cc
  put_in_base-scan path (present (file _ _)) after fs k s = cc
  put_in_base-scan path (present link) after fs k s = cc
  put_in_base-scan path (present special) after fs k s = cc

  Keeps : (String → Base) → (String → Base) → Type 0
  Keeps tree after =
      (d : String) (path : Text) (fs : List Durable)
      → scan_base p path (tree d) ≡ ok fs
      → scan_base p path (after d) ≡ ok fs

  scan_directories-Keeps :
      (tree after : String → Base)
      → Keeps tree after
      → (run_id : Text) (ds : List String) (fs : List Durable)
      → scan_directories p tree run_id ds ≡ ok fs
      → scan_directories p after run_id ds ≡ ok fs
  unfolding scan_directories Keeps
  scan_directories-Keeps tree after keeps run_id [] fs k = k
  scan_directories-Keeps tree after keeps run_id (d ∷ ds) fs k =
      let (first, a, k1) = >>=-eq-ok (scan_base p (below (codes d) run_id) (tree d)) _ k in
      let (rest, b, k2) = >>=-eq-ok (scan_directories p tree run_id ds) _ k1 in
      rw
        (
          keeps d (below (codes d) run_id) first a,
          scan_directories-Keeps tree after keeps run_id ds rest b,
        )
        k2

  write_seal-Keeps :
      (tree after : String → Base)
      → write_seal (file sha256 content) tree ≡ ok after
      → Keeps tree after
  unfolding write_seal Keeps
  write_seal-Keeps tree after k d path fs s =
      let (runs, a, k1) = >>=-eq-ok (put_in_base (file sha256 content) (tree "runs")) _ k in
      subst (λ z. scan_base p path (z d) ≡ ok fs) (same _ after k1)
        (pick runs a (str_eq d "runs") refl)
    where
      same : (a b : String → Base) → ok a ≡ ok b → a ≡ b
      same a b r = cc

      pick :
          (runs : Base)
          → put_in_base (file sha256 content) (tree "runs") ≡ ok runs
          → (b : Bool) → str_eq d "runs" ≡ b
          → scan_base p path (if b then runs else tree d) ≡ ok fs
      pick runs a true e =
          put_in_base-scan path (tree "runs") runs fs a
            (subst (λ z. scan_base p path (tree z) ≡ ok fs) ((eq_iff d "runs").0 e) s)
      pick runs a false e = s

  write_seal-files :
      (tree after : String → Base) (run_id : Text) (fs : List Durable)
      → write_seal (file sha256 content) tree ≡ ok after
      → durable_files p tree run_id ≡ ok fs
      → durable_files p after run_id ≡ ok fs
  unfolding durable_files
  write_seal-files tree after run_id fs w k =
      let (found, a, k1) = >>=-eq-ok (scan_directories p tree run_id durable_directories) _ k in
      rw
        (scan_directories-Keeps tree after (write_seal-Keeps tree after w) run_id
          durable_directories found a)
        k1

then-ok : {B : Type 0} (c : Result (Unit {0})) {r : Result B} {x : B} → (c >> r) ≡ ok x → r ≡ ok x
then-ok (ok _) q = q
then-ok (err _) q = cc

abbrev pub intact : BundleReport
intact = record { is_ok = true; findings = [] }

module _ (h : Host) (p : Paths) (sensitive : Text → Bool) where
  document_passes :
      (tree : String → Base) (run_id : Text) (files : List Durable)
      → distinct files ≡ true
      → found_findings h p tree run_id
          (seal_document run_id files (bindings p files))
          []
          (some files)
        ≡ ok []
  unfolding found_findings iterated get json_eq
  document_passes tree run_id files d =
      let kept = actual_digests files [] d in
      rw
        (
          to_list-items_by entry_json files,
          to_list-items_by binding_json (bindings p files),
          targets_hold (actual_from files []) (bindings p files)
              (bindings-Holds p (actual_from files []) files kept),
          declared_keys-map (bindings p files),
          pairs_as_sealed (bindings p files),
          files_as_sealed files d,
          text_refl run_id,
        )
        refl

  -- After `seal_bundle` has written its seal into the directory of the run, `verify_bundle` on the
  -- seal passes, if the scan listed no path twice and the files stayed as they were.
  pub verify_bundle-seal_bundle :
      (tree after : String → Base) (run_id sha256 : Text) (content : Option Text) (seal : Json)
      (files : List Durable)
      → seal_bundle p h sensitive tree run_id ≡ ok seal
      → write_seal (file sha256 content) tree ≡ ok after
      → durable_files p tree run_id ≡ ok files
      → distinct files ≡ true
      → verify_bundle h p after (ok seal) run_id ≡ ok intact
  unfolding seal_bundle verify_bundle
  verify_bundle-seal_bundle tree after run_id sha256 content seal files k w f d =
      let (safe, k1) = raise_if-eq-ok (not (is_safe_id run_id)) _ _ k in
      let (_, k2) = raise_if-eq-ok (is_empty files) _ _ (rw f at k1) in
      let k3 = then-ok (check_contents p sensitive files) k2 in
      let document = seal_document run_id files (bindings p files) in
      let (errors, v, k4) = >>=-eq-ok (validate_document h document) _ k3 in
      let (clean, k5) = raise_if-eq-ok (not (is_empty errors)) _ _ k4 in
      subst (λ z. verify_bundle h p after (ok z) run_id ≡ ok intact) (same document seal k5)
        (rw
          (
            safe,
            v,
            nothing errors clean,
            write_seal-files p sha256 content tree after run_id files w f,
            document_passes after run_id files d,
          )
          refl)
    where
      same : (a b : Json) → ok a ≡ ok b → a ≡ b
      same a b q = cc

      nothing : (errors : List String) → not (is_empty errors) ≡ false → errors ≡ []
      nothing [] q = refl
      nothing (x ∷ xs) q = cc
