-- ===== src/Util/Canonical.antt =====
-- `canonical_json_bytes`, as far as a digest of it goes.
use coordination_loop_harnes.Base.{
  ℕ, List, not, Text, Result, ok, err, value_error, raise_if, ◌>>=◌, ◌>>◌,
}
use coordination_loop_harnes.Json.{
  Json, null, bool, int, real, str, arr, obj, Items, nil, cons, Fields, end, field,
}
use coordination_loop_harnes.Util.Host.{Host}
use coordination_loop_harnes.Util.Safe.{is_safe_json_integer}

-- `_validate_canonical_json_numbers`
unfoldable mutual
  pub validate_canonical_json_numbers : Json → Result (Unit {0})
  validate_canonical_json_numbers null = ok tt
  validate_canonical_json_numbers (bool _) = ok tt
  validate_canonical_json_numbers (str _) = ok tt
  validate_canonical_json_numbers (int z) =
      raise_if (not (is_safe_json_integer (int z)))
        (value_error "Canonical JSON integers must stay within the IEEE-754 safe integer range")
  validate_canonical_json_numbers (real _ _) =
      err (value_error "Canonical JSON does not permit floating-point numbers")
  validate_canonical_json_numbers (arr xs) = validate_items xs
  validate_canonical_json_numbers (obj fs) = validate_fields fs

  validate_items : Items → Result (Unit {0})
  validate_items nil = ok tt
  validate_items (cons x xs) = validate_canonical_json_numbers x >> validate_items xs

  validate_fields : Fields → Result (Unit {0})
  validate_fields end = ok tt
  validate_fields (field k v fs) = validate_canonical_json_numbers v >> validate_fields fs

-- `canonical_json_bytes`
unfoldable pub canonical_json_bytes : Host → Json → Result (List ℕ)
canonical_json_bytes h value = validate_canonical_json_numbers value >> h.dumped value

-- `lease_candidate_sha256`
unfoldable pub lease_candidate_sha256 : Host → Json → Result Text
lease_candidate_sha256 h lease = canonical_json_bytes h lease >>= λ bytes. ok (h.sha256 bytes)
