-- ===== src/Leases/States.antt =====
-- The two states of a v2 record that `_validate_v2_lifecycle` lets through.
use coordination_loop_harnes.Base.{
  ℕ, ◌≤◌, ◌<◌, true, false, some, List, [], ◌∷◌, Text, ok, ◌≡◌, ◌⊎◌,
}
use coordination_loop_harnes.Json.{Json, get, is_null, is_text, text?, truthy}
use coordination_loop_harnes.Util.Host.{Host}
use coordination_loop_harnes.Util.Safe.{at_least}
use coordination_loop_harnes.Leases.Lifecycle.{has_terminal_field, known_authority}
use coordination_loop_harnes.Leases.LifecycleFacts.{writers, released_at, expires_at}

-- Who writes under a record: nobody, or the one repository whose serialized name
-- `active_writer_repository` repeats.
abbrev pub SoleWriter : Json → List Text → Type 0
SoleWriter active_writer ws =
    ((is_null active_writer ≡ true) × (ws ≡ []))
    ⊎ ((w : Text) × (text? active_writer ≡ some w) × (ws ≡ w ∷ []))

pub record ActiveState (lease : Json) : Type 0 where
  pub acts : is_text "ACTIVE" (get "state" lease) ≡ true
  pub no_terminal_field : has_terminal_field lease ≡ false
  pub decided : truthy (get "decision_ref" lease) ≡ true
  pub sole_writer : SoleWriter (get "active_writer_repository" lease) (writers lease)

module _ (h : Host) where
  pub record ReleasedState (lease : Json) : Type 0 where
    pub released : ℕ
    pub expires : ℕ
    pub ends : is_text "RELEASED" (get "state" lease) ≡ true
    pub released_time : released_at h lease ≡ ok released
    pub expiry : expires_at h lease ≡ ok expires
    pub successor : at_least 2 (get "generation" lease) ≡ true
    pub no_writer : is_null (get "active_writer_repository" lease) ≡ true
    pub authority : known_authority (get "release_authority" lease) ≡ true
    pub normal_in_time :
        is_text "NORMAL" (get "release_authority" lease) ≡ true → released ≤ expires
    pub stale_after_expiry :
        is_text "STALE_RECOVERY" (get "release_authority" lease) ≡ true → expires < released
