-- ===== src/Windows/Examples.antt =====
-- The policy and the writer check at a concrete object and a concrete job.
use coordination_loop_harnes.Base.{String, true, [], ◌∷◌, ◌≡◌, refl, err, value_error}
use coordination_loop_harnes.Base.Int.{pos}
use coordination_loop_harnes.LocalTime.Sample.{source}
use coordination_loop_harnes.LocalTime.Deadline.{LocalIntent}
use coordination_loop_harnes.Windows.Security.{FileSecurity, TokenSecurity}
use coordination_loop_harnes.Windows.Custody.{
  check_file_security, check_aces, check_each, check_ace, unsupported, inherit_only_entry,
  lets_mutate,
}
use coordination_loop_harnes.Windows.Writer.{JobSnapshot, WindowsWriterBinding}

abbrev digest : String
digest = "00000000000000000000000000000000000000000000000000000000000000ff"

abbrev issuer : String
issuer = "S-1-5-18"

-- SYSTEM may do everything, everybody may read.
abbrev protected_file : FileSecurity
protected_file = record {
  owner = issuer;
  protected_dacl = true;
  aces =
      record { kind = 0; flags = 0; mask = 0x1f01ff; sid = issuer }
      ∷ record { kind = 0; flags = 0; mask = 0x120089; sid = "S-1-1-0" }
      ∷ [];
  identity = 1 ∷ 2 ∷ [];
  descriptor_sha256 = digest;
}

-- A principal that is not trusted and may write stops the check.
writable_is_refused :
    check_file_security
      (record protected_file {
        aces = record { kind = 0; flags = 0; mask = 0x2; sid = "S-1-1-0" } ∷ [];
      })
      issuer
      true
    ≡ err (value_error "HOLD_NON_OPERATOR_MUTATION_ACCESS")
unfolding check_file_security check_aces check_each check_ace unsupported inherit_only_entry
    lets_mutate
writable_is_refused = refl

abbrev worker : String
worker = "S-1-5-21-1-2-3-1001"

abbrev scratch : String
scratch = "S-1-5-21-1-2-3-1002"

abbrev token : TokenSecurity
token = record {
  user = worker;
  grant_capable_groups = [];
  restricting_sids = scratch ∷ [];
  privileges = "SeChangeNotifyPrivilege" ∷ [];
  token_type = 1;
}

abbrev job : JobSnapshot
job = record {
  participant_pid = 42;
  participant_creation = 7;
  participant_in_job = true;
  participant_exit = 259;
  limit_flags = 0x2000;
  active_count = 2;
  active_pids = 42 ∷ 43 ∷ [];
}

abbrev binding : WindowsWriterBinding
binding = record {
  issuer_sid = issuer;
  worker_sid = worker;
  scratch_sid = scratch;
  participant_pid = pos 42;
  participant_creation = pos 7;
  intent_id = "i";
  generation = pos 1;
  lease_sha256 = digest;
}

abbrev intent : LocalIntent
intent = record {
  intent_id = "i";
  generation = pos 1;
  lease_sha256 = digest;
  anchor = record {
    boot_id = "b";
    process_id = "p";
    interrupt_before = pos 0;
    unbiased = pos 0;
    interrupt_after = pos 0;
    sample_source = source;
  };
  deadline = pos 10;
}
