-- ===== src/Bundles/Verify.antt =====
-- `verify_bundle`. The seal is what `load_json` gives for its path.
use coordination_loop_harnes.Base.{
  Bool, true, false, ◌&&◌, ◌||◌, not, ◌==◌, Option, none, some, List, [], ◌∷◌, ◌++◌, String, Text,
  codes, is_empty, any, select, map, length, if◌then◌else◌, Result, ok, err, value_error,
  type_error, raise_if, caught, ◌>>=◌, ◌>>◌,
}
use coordination_loop_harnes.Base.Int.{ltb_ℤ}
use coordination_loop_harnes.Json.{
  Json, null, bool, int, real, str, arr, obj, Fields, end, field, find, get, to_list, fields?,
  text?, is_object, is_list, number?, shift, json_eq,
}
use coordination_loop_harnes.Util.Host.{Host}
use coordination_loop_harnes.Util.Safe.{is_safe_id}
use coordination_loop_harnes.Util.Validation.{validate_document}
use coordination_loop_harnes.Leases.Access.{text_leb}
use coordination_loop_harnes.Bundles.Tree.{Base, Durable, Paths, durable_files}
use coordination_loop_harnes.Bundles.Seal.{Binding, bindings}
use coordination_loop_harnes.Bundles.Maps.{Digests, digest_at, set_digest, only_in, changed_in}

pub data Finding : Type 0 where
  schema_error : String → Finding
  run_id_mismatch scan_failed malformed_entries invalid_binding : Finding
  missing extra changed : Text → Finding
  target_missing hash_mismatch : Json → Finding
  missing_binding : Text → Text → Finding
  extra_binding : Json → Json → Finding

pub record BundleReport : Type 0 where
  pub is_ok : Bool
  pub findings : List Finding

abbrev keys_of : Fields → List Json
keys_of end = []
keys_of (field k v fs) = str (codes k) ∷ keys_of fs

abbrev characters : Text → List Json
characters [] = []
characters (c ∷ s) = str (c ∷ []) ∷ characters s

-- What a loop over `seal.get(key, [])` runs through.
unfoldable pub iterated : Option Json → Result (List Json)
iterated none = ok []
iterated (some (arr xs)) = ok (to_list xs)
iterated (some (str s)) = ok (characters s)
iterated (some (obj fs)) = ok (keys_of fs)
iterated (some null) = err (type_error "object is not iterable")
iterated (some (bool _)) = err (type_error "object is not iterable")
iterated (some (int _)) = err (type_error "object is not iterable")
iterated (some (real _ _)) = err (type_error "object is not iterable")

abbrev pub field_of : String → Json → Option Json
field_of key seal = elim (fields? seal) [ none ↦ none | some fs ↦ find key fs ]

abbrev add_declared : Option Text → Option Text → Digests → Digests
add_declared none d m = m
add_declared (some path) none m = m
add_declared (some path) (some digest) m = set_digest path digest m

-- The loop of the dictionary of well-formed entries; a value that is no dictionary has no fields.
unfoldable pub declared_from : List Json → Digests → Digests
declared_from [] m = m
declared_from (e ∷ es) m =
    declared_from es (add_declared (text? (get "path" e)) (text? (get "sha256" e)) m)

unfoldable pub actual_from : List Durable → Digests → Digests
actual_from [] m = m
actual_from (f ∷ fs) m = actual_from fs (set_digest f.path f.sha256 m)

-- The findings on the files.
unfoldable pub file_findings : List Json → Digests → Digests → List Finding
file_findings entries declared actual =
    (if length declared == length entries then [] else malformed_entries ∷ [])
    ++ (map missing (only_in declared actual)
        ++ (map extra (only_in actual declared) ++ map changed (changed_in actual declared)))

abbrev pub unhashable : Json → Bool
unhashable v = is_list v || is_object v

abbrev digest_found : Json → Json → Option Text → List Finding
digest_found relative expected none = target_missing relative ∷ []
digest_found relative expected (some digest) =
    if json_eq expected (str digest) then [] else hash_mismatch relative ∷ []

abbrev digest_of : Digests → Option Text → Option Text
digest_of actual none = none
digest_of actual (some path) = digest_at path actual

-- One path of a binding and the digest stated for it.
unfoldable pub target_findings : Digests → Json → Json → Result (List Finding)
target_findings actual relative expected =
    if unhashable relative
    then err (type_error "unhashable type")
    else ok (digest_found relative expected (digest_of actual (text? relative)))

unfoldable pub binding_findings : Digests → List Json → Result (List Finding)
binding_findings actual [] = ok []
binding_findings actual (b ∷ bs) = elim (is_object b) [
  | false ↦ binding_findings actual bs >>= λ rest. ok (invalid_binding ∷ rest)
  | true ↦ target_findings actual (get "json_path" b) (get "json_sha256" b) >>= λ first.
      target_findings actual (get "markdown_path" b) (get "markdown_sha256" b) >>= λ second.
      binding_findings actual bs >>= λ rest. ok (first ++ (second ++ rest))
]

abbrev pub Key : Type 0
Key = Json × Json

abbrev pub key_eq : Key → Key → Bool
key_eq (a, b) (c, d) = json_eq a c && json_eq b d

-- The set of the declared pairs of paths.
unfoldable pub declared_keys : List Json → Result (List Key)
declared_keys [] = ok []
declared_keys (b ∷ bs) = elim (is_object b) [
  | false ↦ declared_keys bs
  | true ↦
      if unhashable (get "json_path" b) || unhashable (get "markdown_path" b)
      then err (type_error "unhashable type")
      else declared_keys bs >>= λ rest. ok ((get "json_path" b, get "markdown_path" b) ∷ rest)
]

abbrev pub binding_key : Binding → Key
binding_key b = (str b.json_path, str b.markdown_path)

-- `a < b`
unfoldable pub less_json : Json → Json → Result Bool
less_json a b = elim (text? a) [
  | some s ↦ elim (text? b) [
    | some t ↦ ok (not (text_leb t s))
    | none ↦ err (type_error "'<' not supported")
  ]
  | none ↦ elim (number? a) [
    | none ↦ err (type_error "'<' not supported")
    | some (x, e) ↦ elim (number? b) [
      | none ↦ err (type_error "'<' not supported")
      | some (y, f) ↦ ok (ltb_ℤ (shift x f) (shift y e))
    ]
  ]
]

abbrev pub less_key : Key → Key → Result Bool
less_key (a, b) (c, d) =
    if json_eq a c then (if json_eq b d then ok false else less_json b d) else less_json a c

abbrev pub placed : Key → Key → List Key → Result (List Key) → Bool → Result (List Key)
placed k j js rest true = ok (k ∷ j ∷ js)
placed k j js rest false = rest >>= λ r. ok (j ∷ r)

unfoldable pub insert_key : Key → List Key → Result (List Key)
insert_key k [] = ok (k ∷ [])
insert_key k (j ∷ js) = less_key k j >>= placed k j js (insert_key k js)

-- `sorted`, which raises where two values have no order.
unfoldable pub sort_keys : List Key → Result (List Key)
sort_keys [] = ok []
sort_keys (k ∷ ks) = sort_keys ks >>= insert_key k

-- Each of the keys once.
unfoldable pub each_once : List Key → List Key
each_once [] = []
each_once (k ∷ ks) = let rest = each_once ks in if any (key_eq k) ks then rest else k ∷ rest

-- The keys that are not among the second.
unfoldable pub keys_only_in : List Key → List Key → List Key
keys_only_in ks other = each_once (select (λ k. not (any (key_eq k) other)) ks)

abbrev pub missing_of : Binding → Finding
missing_of b = missing_binding b.json_path b.markdown_path

abbrev pub extra_of : Key → Finding
extra_of (a, b) = extra_binding a b

-- The two differences of the sets of pairs.
unfoldable pub key_findings : List Binding → List Key → Result (List Finding)
key_findings actual declared =
    sort_keys (keys_only_in declared (map binding_key actual)) >>= λ extras. ok (
      map missing_of (select (λ b. not (any (key_eq (binding_key b)) declared)) actual)
      ++ map extra_of extras)

abbrev pub scanned : Option (List Durable) → List Durable
scanned none = []
scanned (some files) = files

abbrev pub scan_findings : Option (List Durable) → List Finding
scan_findings none = scan_failed ∷ []
scan_findings (some _) = []

module _ (h : Host) (p : Paths) (tree : String → Base) where
  -- The findings, once the files have been looked for.
  unfoldable pub found_findings :
      Text → Json → List String → Option (List Durable) → Result (List Finding)
  found_findings run_id seal errors found = do
    entries ← iterated (field_of "files" seal)
    declared ← iterated (field_of "markdown_json_bindings" seal)
    targets ← binding_findings (actual_from (scanned found) []) declared
    keys ← declared_keys declared
    pairs ← key_findings (bindings p (scanned found)) keys
    ok (
        map schema_error errors
        ++ ((if json_eq (get "run_id" seal) (str run_id) then [] else run_id_mismatch ∷ [])
            ++ (scan_findings found
                ++ (file_findings entries (declared_from entries [])
                      (actual_from (scanned found) [])
                    ++ (targets ++ pairs)))))

  unfoldable pub verify_bundle : Result Json → Text → Result BundleReport
  verify_bundle loaded run_id = do
    raise_if (not (is_safe_id run_id)) (value_error "Invalid run_id")
    seal ← loaded
    errors ← validate_document h seal
    found ← caught (durable_files p tree run_id)
    findings ← found_findings run_id seal errors found
    ok (record { is_ok = is_empty findings; findings = findings })
