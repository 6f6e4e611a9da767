-- ===== src/Windows/WriterFacts.antt =====
-- What an accepted writer snapshot shows.
use Prim.Native.Nat.{bit_and, bit_or}
use coordination_loop_harnes.Base.{
  ℕ, Bool, true, false, ◌&&◌, ◌||◌, not, List, [], ◌∷◌, String, str_eq, str_in, strs_eq, length,
  eq_iff, ok, ◌≡◌, refl, ◌⊎◌, inl, inr, arith,
}
use coordination_loop_harnes.Base.Int.{pos, eqb_ℤ, eqb_ℤ_iff}
use coordination_loop_harnes.LocalTime.Deadline.{LocalIntent}
use coordination_loop_harnes.Windows.Security.{TokenSecurity}
use coordination_loop_harnes.Windows.Custody.{
  check_observer, same_or_privileged, extra_privilege, unrestricted, observer_trusted,
}
use coordination_loop_harnes.Windows.Writer.{
  JobSnapshot, WindowsWriterBinding, WriterSnapshot, source_snapshot, check_writer_snapshot,
  identity_mismatch, containment_unproven, membership_uncertain, settle_descendants, pid_in,
  pids_distinct,
}

observer_tests :
    (token : TokenSecurity) (issuer_sid : String)
    → check_observer token issuer_sid true ≡ ok tt
    → (same_or_privileged token issuer_sid ≡ false)
      × (extra_privilege token ≡ false)
      × (unrestricted token ≡ false)
unfolding check_observer
observer_tests token issuer_sid h = ground arith

snapshot_tests :
    (token : TokenSecurity) (job : JobSnapshot) (binding : WindowsWriterBinding)
    (intent : LocalIntent) (s : WriterSnapshot)
    → check_writer_snapshot token job binding intent ≡ ok s
    → (check_observer token binding.issuer_sid true ≡ ok tt)
      × (identity_mismatch token job binding intent ≡ false)
      × (containment_unproven job ≡ false)
      × (membership_uncertain job ≡ false)
      × (settle_descendants job ≡ ok tt)
      × (s ≡ source_snapshot)
unfolding check_writer_snapshot
snapshot_tests token job binding intent s h = ground arith

-- The facts that an accepted snapshot shows.
pub record Contained (token : TokenSecurity) (job : JobSnapshot) (binding : WindowsWriterBinding)
    (intent : LocalIntent) : Type 0 where
  pub worker : token.user ≡ binding.worker_sid
  pub untrusted : str_in token.user (observer_trusted binding.issuer_sid) ≡ false
  pub participant : pos job.participant_pid ≡ binding.participant_pid
  pub same_intent :
      (intent.intent_id ≡ binding.intent_id) × (intent.generation ≡ binding.generation)
  pub no_breakaway : bit_and job.limit_flags (bit_or 0x800 0x1000) ≡ 0
  pub kill_on_close : bit_and job.limit_flags 0x2000 ≡ 0 → ⊥
  pub counted : job.active_count ≡ length job.active_pids
  pub distinct : pids_distinct job.active_pids ≡ true
  pub settled :
      ((job.participant_exit ≡ 259) × (pid_in job.participant_pid job.active_pids ≡ true))
      ⊎ (job.active_pids ≡ [])

identity_facts :
    (token : TokenSecurity) (job : JobSnapshot) (binding : WindowsWriterBinding)
    (intent : LocalIntent)
    → identity_mismatch token job binding intent ≡ false
    → (token.user ≡ binding.worker_sid)
      × (pos job.participant_pid ≡ binding.participant_pid)
      × (intent.intent_id ≡ binding.intent_id)
      × (intent.generation ≡ binding.generation)
unfolding identity_mismatch
identity_facts token job binding intent h =
    let t =
      parts (str_eq token.user binding.worker_sid)
        (strs_eq token.restricting_sids (binding.scratch_sid ∷ []))
        (eqb_ℤ (pos job.participant_pid) binding.participant_pid)
        (eqb_ℤ (pos job.participant_creation) binding.participant_creation)
        (str_eq intent.intent_id binding.intent_id) (eqb_ℤ intent.generation binding.generation)
        (str_eq intent.lease_sha256 binding.lease_sha256) h in
    ((eq_iff _ _).0 t.0, (eqb_ℤ_iff _ _).0 t.1, (eq_iff _ _).0 t.2, (eqb_ℤ_iff _ _).0 t.3)
  where
    parts :
        (a b c d e f g : Bool)
        → (not a || not b || not (c && d) || not (e && f && g)) ≡ false
        → (a ≡ true) × (c ≡ true) × (e ≡ true) × (f ≡ true)
    parts a b c d e f g k = ground arith

containment_facts :
    (job : JobSnapshot)
    → containment_unproven job ≡ false
    → (bit_and job.limit_flags (bit_or 0x800 0x1000) ≡ 0) × (bit_and job.limit_flags 0x2000 ≡ 0 → ⊥)
unfolding containment_unproven
containment_facts job h = ground arith

membership_facts :
    (job : JobSnapshot)
    → membership_uncertain job ≡ false
    → (job.active_count ≡ length job.active_pids) × (pids_distinct job.active_pids ≡ true)
unfolding membership_uncertain
membership_facts job h = ground arith

empty_of_length : (ps : List ℕ) → length ps ≡ 0 → ps ≡ []
empty_of_length [] h = refl
empty_of_length (p ∷ ps) h = absurd (omega arith)

descendant_facts :
    (job : JobSnapshot)
    → settle_descendants job ≡ ok tt
    → ((job.participant_exit ≡ 259) × (pid_in job.participant_pid job.active_pids ≡ true))
      ⊎ (job.active_count ≡ 0)
unfolding settle_descendants
descendant_facts job h = ground arith

user_untrusted :
    (token : TokenSecurity) (issuer_sid : String)
    → same_or_privileged token issuer_sid ≡ false
    → str_in token.user (observer_trusted issuer_sid) ≡ false
unfolding same_or_privileged
user_untrusted token issuer_sid h = first (str_in token.user (observer_trusted issuer_sid)) _ _ h
  where
    first : (a b c : Bool) → (a || b || c) ≡ false → a ≡ false
    first a b c k = ground arith

pub check_writer_snapshot-Contained :
    (token : TokenSecurity) (job : JobSnapshot) (binding : WindowsWriterBinding)
    (intent : LocalIntent) (s : WriterSnapshot)
    → check_writer_snapshot token job binding intent ≡ ok s
    → Contained token job binding intent × (s.custody_resolved ≡ false)
check_writer_snapshot-Contained token job binding intent s h =
    let t = snapshot_tests token job binding intent s h in
    let o = observer_tests token binding.issuer_sid t.0 in
    let i = identity_facts token job binding intent t.1 in
    let c = containment_facts job t.2 in
    let m = membership_facts job t.3 in
    (
      record {
        worker = i.0;
        untrusted = user_untrusted token binding.issuer_sid o.0;
        participant = i.1;
        same_intent = (i.2, i.3);
        no_breakaway = c.0;
        kill_on_close = c.1;
        counted = m.0;
        distinct = m.1;
        settled = elim (descendant_facts job t.4) [
          | inl running ↦ inl running
          | inr none_left ↦ inr (empty_of_length job.active_pids (omega (arith, m.0)))
        ];
      },
      λ i. (t.5 i).custody_resolved,
    )
