-- ===== src/Windows/Custody.antt =====
-- windows_custody.py: the policy on tokens, owners and access-control entries.
use Prim.Native.Nat.{bit_and, bit_or, bit_xor}
use coordination_loop_harnes.Base.{
  ℕ, ◌==◌, ◌/◌, Bool, true, false, ◌&&◌, ◌||◌, not, List, [], ◌∷◌, String, str_eq, str_in, any,
  is_empty, Result, ok, value_error, raise_if, ◌>>◌, if◌then◌else◌,
}
use coordination_loop_harnes.LocalTime.Deadline.{is_digest}
use coordination_loop_harnes.Windows.Security.{Ace, FileSecurity, TokenSecurity}

abbrev pub system : String
system = "S-1-5-18"

abbrev pub administrators : String
administrators = "S-1-5-32-544"

abbrev pub trusted_installer : String
trusted_installer = "S-1-5-80-956008885-3418522649-1831038044-1853292631-2271478464"

abbrev pub mutation_mask : ℕ
mutation_mask = bit_or 0x116 (
    bit_or 0x40 (
      bit_or 0x10000
        (bit_or 0x40000 (bit_or 0x80000 (bit_or 0x10000000 (bit_or 0x40000000 0x2000000))))))

-- `MUTATION_MASK & ~(0x116 | 0x40000000)`: both are among the bits of the mask.
abbrev pub ancestor_namespace_mask : ℕ
ancestor_namespace_mask = bit_xor mutation_mask (bit_or 0x116 0x40000000)

unfoldable pub intersects : List String → List String → Bool
intersects trusted sids = any (λ s. str_in s trusted) sids

abbrev pub observer_trusted : String → List String
observer_trusted issuer_sid = issuer_sid ∷ system ∷ administrators ∷ trusted_installer ∷ []

unfoldable pub same_or_privileged : TokenSecurity → String → Bool
unfolding intersects
same_or_privileged token issuer_sid =
    str_in token.user (observer_trusted issuer_sid)
    || intersects (observer_trusted issuer_sid) token.grant_capable_groups
    || intersects (observer_trusted issuer_sid) token.restricting_sids

-- `set(token.privileges) - {"SeChangeNotifyPrivilege"}`
unfoldable pub extra_privilege : TokenSecurity → Bool
extra_privilege token = any (λ p. not (str_eq p "SeChangeNotifyPrivilege")) token.privileges

unfoldable pub unrestricted : TokenSecurity → Bool
unrestricted token = is_empty token.restricting_sids || not (token.token_type == 1)

unfoldable pub check_observer : TokenSecurity → String → Bool → Result (Unit {0})
check_observer token issuer_sid restricted_writer = do
  raise_if (same_or_privileged token issuer_sid) (value_error "HOLD_SAME_OR_PRIVILEGED_PRINCIPAL")
  raise_if (extra_privilege token) (value_error "HOLD_PRIVILEGED_TOKEN")
  raise_if (restricted_writer && unrestricted token)
      (value_error "HOLD_RESTRICTED_WRITER_TOKEN_UNPROVEN")

-- `ace.kind not in (0, 1) or ace.flags & ~0x1F`
unfoldable pub unsupported : Ace → Bool
unsupported ace = not (ace.kind == 0 || ace.kind == 1) || not (ace.flags / 0x20 == 0)

-- The entry is inheritable only, so it has no effect on the object itself.
unfoldable pub inherit_only_entry : Ace → Bool
inherit_only_entry ace = not (bit_and ace.flags 0x08 == 0)

unfoldable pub lets_mutate : List String → ℕ → Ace → Bool
lets_mutate trusted mask ace =
    ace.kind == 0 && not (bit_and ace.mask mask == 0) && not (str_in ace.sid trusted)

-- The body of the loop over the entries.
unfoldable pub check_ace : List String → ℕ → Bool → Ace → Result (Unit {0})
check_ace trusted mask inherit_only ace = do
  raise_if (unsupported ace) (value_error "HOLD_UNSUPPORTED_ACE")
  if inherit_only && inherit_only_entry ace
      then ok tt
      else raise_if (lets_mutate trusted mask ace) (value_error "HOLD_NON_OPERATOR_MUTATION_ACCESS")

unfoldable pub check_each : List String → ℕ → Bool → List Ace → Result (Unit {0})
check_each trusted mask inherit_only [] = ok tt
check_each trusted mask inherit_only (ace ∷ aces) = do
  check_ace trusted mask inherit_only ace
  check_each trusted mask inherit_only aces

unfoldable pub check_aces : FileSecurity → List String → ℕ → Bool → Result (Unit {0})
check_aces evidence trusted mask inherit_only = do
  raise_if (is_empty evidence.aces || not (is_digest evidence.descriptor_sha256))
      (value_error "HOLD_DACL_EVIDENCE_MISSING")
  check_each trusted mask inherit_only evidence.aces

abbrev pub file_trusted : String → List String
file_trusted issuer_sid = issuer_sid ∷ system ∷ administrators ∷ []

unfoldable pub check_file_security : FileSecurity → String → Bool → Result (Unit {0})
check_file_security evidence issuer_sid require_protected = do
  raise_if
      (not (str_in evidence.owner (file_trusted issuer_sid))
        || (require_protected && not evidence.protected_dacl))
      (value_error "HOLD_ROOT_OWNER_OR_PROTECTED_DACL_UNPROVEN")
  check_aces evidence (file_trusted issuer_sid) mutation_mask false

unfoldable pub check_ancestor_security : FileSecurity → String → Result (Unit {0})
check_ancestor_security evidence issuer_sid = do
  raise_if (not (str_in evidence.owner (observer_trusted issuer_sid)))
      (value_error "HOLD_ANCESTOR_OWNER_UNPROVEN")
  check_aces evidence (observer_trusted issuer_sid) ancestor_namespace_mask true
