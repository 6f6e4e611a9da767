-- ===== src/Bundles/Intact.antt =====
-- What a bundle that `verify_bundle` passes is.
use coordination_loop_harnes.Base.{
  Bool, true, false, not, ◌==◌, Option, none, some, List, [], ◌∷◌, String, Text, is_empty, any, all,
  select, map, length, if◌then◌else◌, Result, ok, err, caught, caught-some, ◌≡◌, refl, sym, ap, ◌∙◌,
  arith, >>=-eq-ok, raise_if-eq-ok, append_nil,
}
use coordination_loop_harnes.Json.{Json, str, get, json_eq}
use coordination_loop_harnes.Util.Host.{Host}
use coordination_loop_harnes.Util.Safe.{is_safe_id}
use coordination_loop_harnes.Util.Validation.{validate_document}
use coordination_loop_harnes.Bundles.Tree.{Base, Durable, Paths, durable_directories, durable_files}
use coordination_loop_harnes.Bundles.Links.{is_unlinked, durable_files-is_unlinked}
use coordination_loop_harnes.Bundles.Seal.{Binding, bindings}
use coordination_loop_harnes.Bundles.Maps.{Digests, digest_at, only_in, same_digests}
use coordination_loop_harnes.Bundles.Verify.{
  Finding, BundleReport, schema_error, malformed_entries, missing, extra, changed, run_id_mismatch,
  iterated, field_of, declared_from, actual_from, file_findings, binding_findings, Key, key_eq,
  declared_keys, binding_key, less_key, insert_key, placed, sort_keys, each_once, keys_only_in,
  missing_of, extra_of, key_findings, scanned, scan_findings, found_findings, verify_bundle,
}

map-eq-nil {ℓ κ} : {A : Type ℓ} {B : Type κ} (f : A → B) (xs : List A) → map f xs ≡ [] → xs ≡ []
map-eq-nil f [] k = refl
map-eq-nil f (x ∷ xs) k = cc

-- A list that passes whole.
pub record Files (entries : List Json) (actual : Digests) : Type 0 where
  pub one_each : (length (declared_from entries []) == length entries) ≡ true
  pub same : (path : Text) → digest_at path (declared_from entries []) ≡ digest_at path actual

file_fact :
    (entries : List Json) (actual : Digests)
    → file_findings entries (declared_from entries []) actual ≡ []
    → Files entries actual
unfolding file_findings
file_fact entries actual k =
    let a =
      append_nil
        (if length (declared_from entries []) == length entries then [] else malformed_entries ∷ [])
        _ k in
    let b = append_nil (map missing (only_in (declared_from entries []) actual)) _ a.1 in
    let c = append_nil (map extra (only_in actual (declared_from entries []))) _ b.1 in
    record {
      one_each = same_length _ a.0;
      same = λ path. sym (
          same_digests actual (declared_from entries []) (map-eq-nil extra _ c.0)
            (map-eq-nil missing _ b.0) (map-eq-nil changed _ c.1) path);
    }
  where
    same_length :
        (b : Bool) → ◌≡◌ {A = List Finding} (if b then [] else malformed_entries ∷ []) [] → b ≡ true
    same_length true q = refl
    same_length false q = cc

each_once-eq-nil : (ks : List Key) → each_once ks ≡ [] → ks ≡ []
unfolding each_once
each_once-eq-nil [] k = refl
each_once-eq-nil (x ∷ xs) k = split (any (key_eq x) xs) refl k (each_once-eq-nil xs)
  where
    split :
        (b : Bool)
        → any (key_eq x) xs ≡ b
        → (if b then each_once xs else x ∷ each_once xs) ≡ []
        → (each_once xs ≡ [] → xs ≡ [])
        → x ∷ xs ≡ []
    split true e q ih = absurd (cc (ap (any (key_eq x)) (ih q), e))
    split false e q ih = cc

insert_key-ne-nil : (k : Key) (js : List Key) → insert_key k js ≡ ok [] → ⊥
unfolding insert_key
insert_key-ne-nil k [] e = cc
insert_key-ne-nil k (j ∷ js) e =
    let (b, _, q) = >>=-eq-ok (less_key k j) _ e in split b (insert_key k js) q
  where
    split : (b : Bool) (r : Result (List Key)) → placed k j js r b ≡ ok [] → ⊥
    split true r q = cc
    split false (ok _) q = cc
    split false (err _) q = cc

sort_keys-eq-nil : (ks : List Key) → sort_keys ks ≡ ok [] → ks ≡ []
unfolding sort_keys
sort_keys-eq-nil [] e = refl
sort_keys-eq-nil (k ∷ ks) e =
    let (js, _, q) = >>=-eq-ok (sort_keys ks) _ e in absurd (insert_key-ne-nil k js q)

-- Nothing is left of a list by a test, so all of it passes the opposite one.
all_pass {ℓ} :
    {A : Type ℓ} (test : A → Bool) (xs : List A)
    → select (λ x. not (test x)) xs ≡ []
    → all test xs ≡ true
all_pass test [] k = refl
all_pass test (x ∷ xs) k = ground (arith, all_pass test xs)

-- The declared pairs of paths are the pairs that are there.
pub record Pairs (found : List Binding) (keys : List Key) : Type 0 where
  pub all_declared : all (λ b. any (key_eq (binding_key b)) keys) found ≡ true
  pub all_found : all (λ k. any (key_eq k) (map binding_key found)) keys ≡ true

pair_fact :
    (found : List Binding) (keys : List Key) → key_findings found keys ≡ ok [] → Pairs found keys
unfolding key_findings keys_only_in
pair_fact found keys k =
    let (extras, e, q) = >>=-eq-ok (sort_keys (keys_only_in keys (map binding_key found))) _ k in
    let none = append_nil (map missing_of _) (map extra_of extras) (payload _ q) in
    let sorted = sort_keys-eq-nil _ (e ∙ ap ok (map-eq-nil extra_of extras none.1)) in
    record {
      all_declared = all_pass _ found (map-eq-nil missing_of _ none.0);
      all_found = all_pass _ keys (each_once-eq-nil _ sorted);
    }
  where
    payload : (fs : List Finding) → ok fs ≡ ok [] → fs ≡ []
    payload fs e = cc

module _ (h : Host) (p : Paths) (tree : String → Base) where
  -- A bundle whose seal states exactly the files that are there.
  pub record Intact (seal : Json) (run_id : Text) : Type 0 where
    pub schema_valid : validate_document h seal ≡ ok []
    pub of_run : json_eq (get "run_id" seal) (str run_id) ≡ true
    pub files : List Durable
    pub scan : durable_files p tree run_id ≡ ok files
    pub unlinked : all (λ d. is_unlinked (tree d)) durable_directories ≡ true
    pub entries : List Json
    pub listed : iterated (field_of "files" seal) ≡ ok entries
    pub exact_files : Files entries (actual_from files [])
    pub declared : List Json
    pub bound : iterated (field_of "markdown_json_bindings" seal) ≡ ok declared
    pub targets_hold : binding_findings (actual_from files []) declared ≡ ok []
    pub keys : List Key
    pub paired : declared_keys declared ≡ ok keys
    pub exact_pairs : Pairs (bindings p files) keys

  found_fact :
      (run_id : Text) (seal : Json) (errors : List String) (o : Option (List Durable))
      → validate_document h seal ≡ ok errors
      → caught (durable_files p tree run_id) ≡ ok o
      → found_findings h p tree run_id seal errors o ≡ ok []
      → Intact seal run_id
  unfolding found_findings
  found_fact run_id seal errors o v c k =
      let (entries, a, k1) = >>=-eq-ok (iterated (field_of "files" seal)) _ k in
      let (declared, b, k2) = >>=-eq-ok (iterated (field_of "markdown_json_bindings" seal)) _ k1 in
      let (targets, t, k3) =
        >>=-eq-ok (binding_findings (actual_from (scanned o) []) declared) _ k2 in
      let (keys, d, k4) = >>=-eq-ok (declared_keys declared) _ k3 in
      let (pairs, e, k5) = >>=-eq-ok (key_findings (bindings p (scanned o)) keys) _ k4 in
      let f1 = append_nil (map schema_error errors) _ (payload _ k5) in
      let f2 =
        append_nil (if json_eq (get "run_id" seal) (str run_id) then [] else run_id_mismatch ∷ []) _
          f1.1 in
      let f3 = append_nil (scan_findings o) _ f2.1 in
      let f4 =
        append_nil (file_findings entries (declared_from entries []) (actual_from (scanned o) [])) _
          f3.1 in
      let f5 = append_nil targets pairs f4.1 in
      record {
        schema_valid = v ∙ ap ok (map-eq-nil schema_error errors f1.0);
        of_run = same_run _ f2.0;
        files = scanned o;
        scan = scan_fact o c f3.0;
        unlinked = durable_files-is_unlinked p tree run_id (scanned o) (scan_fact o c f3.0);
        entries = entries;
        listed = a;
        exact_files = file_fact entries (actual_from (scanned o) []) f4.0;
        declared = declared;
        bound = b;
        targets_hold = t ∙ ap ok f5.0;
        keys = keys;
        paired = d;
        exact_pairs = pair_fact (bindings p (scanned o)) keys (e ∙ ap ok f5.1);
      }
    where
      payload : (fs : List Finding) → ok fs ≡ ok [] → fs ≡ []
      payload fs q = cc

      same_run :
          (b : Bool) → ◌≡◌ {A = List Finding} (if b then [] else run_id_mismatch ∷ []) [] → b ≡ true
      same_run true q = refl
      same_run false q = cc

      scan_fact :
          (o : Option (List Durable))
          → caught (durable_files p tree run_id) ≡ ok o
          → scan_findings o ≡ []
          → durable_files p tree run_id ≡ ok (scanned o)
      scan_fact none q e = cc
      scan_fact (some fs) q e = caught-some _ fs q

  -- A bundle that passes has a valid seal for its run; the paths and digests that the seal lists,
  -- each once, are those of the durable files of the run, no more and no fewer, none of them behind
  -- a link; every JSON file that has a Markdown companion is bound to it in the seal, no other pair
  -- is, and the digests of both are those of the files.
  pub verify_bundle-Intact :
      (seal : Json) (run_id : Text) (report : BundleReport)
      → verify_bundle h p tree (ok seal) run_id ≡ ok report
      → report.is_ok ≡ true
      → Intact seal run_id
  unfolding verify_bundle
  verify_bundle-Intact seal run_id report k good =
      let (_, k1) = raise_if-eq-ok (not (is_safe_id run_id)) _ _ k in
      let (errors, v, k2) = >>=-eq-ok (validate_document h seal) _ k1 in
      let (o, c, k3) = >>=-eq-ok (caught (durable_files p tree run_id)) _ k2 in
      let (fs, f, k4) = >>=-eq-ok (found_findings h p tree run_id seal errors o) _ k3 in
      let empty = nothing fs (same _ report k4) in
      found_fact run_id seal errors o v c (f ∙ ap ok empty)
    where
      same : (a b : BundleReport) → ok a ≡ ok b → a ≡ b
      same a b q = cc

      nothing :
          (fs : List Finding) → record { is_ok = is_empty fs; findings = fs } ≡ report → fs ≡ []
      nothing [] q = refl
      nothing (x ∷ xs) q = absurd (cc (ap (λ r. r.is_ok) q, good))
