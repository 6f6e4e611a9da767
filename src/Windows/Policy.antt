-- ===== src/Windows/Policy.antt =====
-- What the token and entry policy of windows_custody.py guarantees.

use coordination_loop_harnes.Base.{
  ℕ, Bool, true, false, ◌&&◌, ◌||◌, not, List, [], ◌∷◌, String, str_in, is_empty, ◌≡◌,
}
use coordination_loop_harnes.LocalTime.Deadline.{is_digest}
use coordination_loop_harnes.Windows.Security.{Ace, FileSecurity}
use coordination_loop_harnes.Windows.Custody.{
  unsupported, inherit_only_entry, lets_mutate, file_trusted, mutation_mask,
}

-- An entry that the policy lets stand: known and, unless it is inheritable only where that is
-- excused, no grant of a bit of the mask to a principal outside the trusted ones.
abbrev pub Harmless : List String → ℕ → Bool → Ace → Type 0
Harmless trusted mask inherit_only ace =
    (unsupported ace ≡ false)
    × ((inherit_only && inherit_only_entry ace) || not (lets_mutate trusted mask ace) ≡ true)

abbrev pub Each : (Ace → Type 0) → List Ace → Type 0
Each P [] = Unit {0}
Each P (a ∷ rest) = P a × Each P rest

-- What a protected object's evidence must show.
pub record FileProtected (evidence : FileSecurity) (issuer_sid : String) (require_protected : Bool)
    : Type 0 where
  pub owned : str_in evidence.owner (file_trusted issuer_sid) ≡ true
  pub protected : (require_protected && not evidence.protected_dacl) ≡ false
  pub has_entries : is_empty evidence.aces ≡ false
  pub digested : is_digest evidence.descriptor_sha256 ≡ true
  pub harmless : Each (Harmless (file_trusted issuer_sid) mutation_mask false) evidence.aces
