-- ===== src/Windows/Writer.antt =====
-- windows_writer.py: the identity of a writer and the checks on a snapshot of its job.
use Prim.Native.Nat.{bit_and, bit_or}
use coordination_loop_harnes.Base.{
  ℕ, ◌==◌, Bool, true, false, ◌&&◌, ◌||◌, not, List, [], ◌∷◌, String, str_eq, strs_eq, any, length,
  Result, ok, value_error, raise_if, ◌>>◌, if◌then◌else◌,
}
use coordination_loop_harnes.Base.Int.{ℤ, pos, eqb_ℤ, ltb_ℤ}
use coordination_loop_harnes.LocalTime.Deadline.{LocalIntent, is_digest}
use coordination_loop_harnes.Windows.Security.{TokenSecurity, is_account_sid}
use coordination_loop_harnes.Windows.Custody.{system, check_observer}

pub record JobSnapshot : Type 0 where
  pub participant_pid : ℕ
  pub participant_creation : ℕ
  pub participant_in_job : Bool
  pub participant_exit : ℕ
  pub limit_flags : ℕ
  pub active_count : ℕ
  pub active_pids : List ℕ

pub record WindowsWriterBinding : Type 0 where
  pub issuer_sid : String
  pub worker_sid : String
  pub scratch_sid : String
  pub participant_pid : ℤ
  pub participant_creation : ℤ
  pub intent_id : String
  pub generation : ℤ
  pub lease_sha256 : String

-- `__post_init__`: a binding that it refuses is never constructed.
unfoldable pub binding_invalid : WindowsWriterBinding → Bool
binding_invalid b =
    not (str_eq b.issuer_sid system)
    || not (is_account_sid b.worker_sid)
    || not (is_account_sid b.scratch_sid)
    || str_eq b.worker_sid b.scratch_sid
    || ltb_ℤ b.participant_pid (pos 1)
    || ltb_ℤ b.participant_creation (pos 1)
    || str_eq b.intent_id ""
    || ltb_ℤ b.generation (pos 1)
    || not (is_digest b.lease_sha256)

unfoldable pub writer_binding : WindowsWriterBinding → Result WindowsWriterBinding
writer_binding b =
    raise_if (binding_invalid b) (value_error "HOLD_FIXED_WRITER_BINDING_REQUIRED") >> ok b

unfoldable pub identity_mismatch :
    TokenSecurity → JobSnapshot → WindowsWriterBinding → LocalIntent → Bool
identity_mismatch token job binding intent =
    not (str_eq token.user binding.worker_sid)
    || not (strs_eq token.restricting_sids (binding.scratch_sid ∷ []))
    || not (
        eqb_ℤ (pos job.participant_pid) binding.participant_pid
        && eqb_ℤ (pos job.participant_creation) binding.participant_creation)
    || not (
        str_eq intent.intent_id binding.intent_id
        && eqb_ℤ intent.generation binding.generation
        && str_eq intent.lease_sha256 binding.lease_sha256)

-- 0x800 and 0x1000 let a process break away, 0x2000 kills the job with its last handle.
unfoldable pub containment_unproven : JobSnapshot → Bool
containment_unproven job =
    not job.participant_in_job
    || job.participant_pid == 0
    || job.participant_creation == 0
    || not (bit_and job.limit_flags (bit_or 0x800 0x1000) == 0)
    || bit_and job.limit_flags 0x2000 == 0

unfoldable pub pid_in : ℕ → List ℕ → Bool
pid_in p ps = any (λ q. p == q) ps

-- `len(set(pids)) == len(pids)`
unfoldable pub pids_distinct : List ℕ → Bool
pids_distinct [] = true
pids_distinct (p ∷ ps) = not (pid_in p ps) && pids_distinct ps

unfoldable pub membership_uncertain : JobSnapshot → Bool
membership_uncertain job =
    not (job.active_count == length job.active_pids) || not (pids_distinct job.active_pids)

unfoldable pub settle_descendants : JobSnapshot → Result (Unit {0})
settle_descendants job =
    if job.participant_exit == 259
    then raise_if (not (pid_in job.participant_pid job.active_pids))
        (value_error "HOLD_PARTICIPANT_IDENTITY_MISSING")
    else raise_if (not (job.active_count == 0)) (value_error "HOLD_DESCENDANTS_UNSETTLED")

pub record WriterSnapshot : Type 0 where
  pub verification : String
  pub custody_resolved : Bool
  pub runtime_gate : String

abbrev pub source_snapshot : WriterSnapshot
source_snapshot = record {
  verification = "WINDOWS_WRITER_SOURCE_SNAPSHOT_ONLY";
  custody_resolved = false;
  runtime_gate = "ATOMIC_START_ACL_DENIAL_AND_DESCENDANT_TERMINALS_UNQUALIFIED";
}

unfoldable pub check_writer_snapshot :
    TokenSecurity → JobSnapshot → WindowsWriterBinding → LocalIntent → Result WriterSnapshot
check_writer_snapshot token job binding intent = do
  check_observer token binding.issuer_sid true
  raise_if (identity_mismatch token job binding intent)
      (value_error "HOLD_WRITER_OR_LEASE_INTENT_IDENTITY_MISMATCH")
  raise_if (containment_unproven job) (value_error "HOLD_JOB_CONTAINMENT_UNPROVEN")
  raise_if (membership_uncertain job) (value_error "HOLD_JOB_MEMBERSHIP_UNCERTAIN")
  settle_descendants job
  ok source_snapshot
