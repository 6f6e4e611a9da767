-- ===== src/Leases/Archive.antt =====
-- What a replacement of a v2 record keeps: its identity, and the record that it replaces.
use coordination_loop_harnes.Base.{ℕ, true, false, some, List, Text, ok, ◌≡◌}
use coordination_loop_harnes.Base.Int.{ℤ, pos, ◌+ℤ◌}
use coordination_loop_harnes.Json.{Json, int, get, int?, text?, is_text, json_eq}
use coordination_loop_harnes.Util.Host.{Host}
use coordination_loop_harnes.Util.Canonical.{canonical_json_bytes}
use coordination_loop_harnes.Leases.Registry.{LockRoot, Archived}
use coordination_loop_harnes.Leases.Changes.{
  changes_any, identity_fields, archived_bytes, read_entry,
}

-- Everything that was archived still is, as it was.
abbrev pub Keeps : List Archived → List Archived → Type 0
Keeps old new =
    (lease_id : Text) (generation : ℤ) (bytes : List ℕ)
    → archived_bytes lease_id generation old ≡ some bytes
    → archived_bytes lease_id generation new ≡ some bytes

module _ (h : Host) where
  pub record Preserved (current : Json) (old new : List Archived) : Type 0 where
    pub lease_id : Text
    pub generation : ℤ
    pub bytes : List ℕ
    pub of_lease : text? (get "lease_id" current) ≡ some lease_id
    pub at_generation : int? (get "generation" current) ≡ some generation
    pub dumped : canonical_json_bytes h current ≡ ok bytes
    pub stored : archived_bytes lease_id generation new ≡ some bytes
    pub kept : Keeps old new

  pub record Succeeds (candidate : Json) (generation : ℤ) (root after : LockRoot) : Type 0 where
    pub current : Json
    pub name : Text
    pub was : read_entry h name root.entries ≡ ok current
    pub was_active : is_text "ACTIVE" (get "state" current) ≡ true
    pub was_at : json_eq (get "generation" current) (int generation) ≡ true
    pub is_at : json_eq (get "generation" candidate) (int (generation +ℤ pos 1)) ≡ true
    pub same_identity : changes_any identity_fields candidate current ≡ false
    pub preserved : Preserved current root.history after.history
