-- ===== src/Handoff/Examples.antt =====
-- A session of the handoff through its bind and its first stage, and the theorems at it.
use coordination_loop_harnes.Util.Decimal.{str_int}
use coordination_loop_harnes.Base.{
  ℕ, ◌+◌, ◌++◌, true, false, none, some, List, [], ◌∷◌, String, codes, ok, ◌≡◌, refl, Result, arith,
}
use coordination_loop_harnes.Base.Int.{pos, ◌+ℤ◌, ◌-ℤ◌}
use coordination_loop_harnes.Json.{str, Json, json_eq, int, obj, field, end, get, text?}
use coordination_loop_harnes.Util.Host.{Host}
use coordination_loop_harnes.Util.Safe.{is_safe_json_integer}
use coordination_loop_harnes.Util.Canonical.{canonical_json_bytes, validate_canonical_json_numbers}
use coordination_loop_harnes.LocalTime.Sample.{
  HostSample, source, validate, boot_witness, ticks_invalid, uncertain,
}
use coordination_loop_harnes.LocalTime.Uuid.{uuid_int, uuid_text}
use coordination_loop_harnes.LocalTime.Deadline.{
  LocalDeadline, sampled, check, observe, intent_changed, intent_eq, witness_changed, regressed,
  discontinuous, expired,
}
use coordination_loop_harnes.Windows.Security.{TokenSecurity}
use coordination_loop_harnes.Windows.Custody.{
  check_observer, same_or_privileged, extra_privilege, unrestricted, intersects,
}
use coordination_loop_harnes.Windows.Writer.{
  JobSnapshot, WindowsWriterBinding, source_snapshot, check_writer_snapshot, identity_mismatch,
  containment_unproven, membership_uncertain, settle_descendants, pid_in, pids_distinct,
}
use coordination_loop_harnes.Leases.Fixture.{host, text}
use coordination_loop_harnes.Handoff.Wire.{
  is_decimal, decimal, decimal_text, parse_interrupt_deadline, parse_native_handle, binding_wire,
}
use coordination_loop_harnes.Handoff.Decimal.{parse_interrupt_deadline-str_int}
use coordination_loop_harnes.Handoff.Inspect.{inspect}
use coordination_loop_harnes.Handoff.Session.{
  checkpoint_order, WindowsHandoffSession, World, require_client_boot_deadline, exchange,
  out_of_order, binding_differs, bind_handles, bind,
}
use coordination_loop_harnes.Handoff.Calls.{Call, binds, checkpoints, step, run, raises, stages}
use coordination_loop_harnes.Handoff.Order.{take, stages_in_order}
use coordination_loop_harnes.Handoff.Lost.{IsHeld, lost_session_holds}
use coordination_loop_harnes.Handoff.Passed.{Passed}

abbrev written : Json → List ℕ
written v = elim (text? v) [ none ↦ [] | some s ↦ s ]

-- Frames are told apart by their kind and their stage, which is enough here.
abbrev dump : Json → Result (List ℕ)
dump v = ok (written (get "schema_version" v) ++ written (get "stage" v))

abbrev windows : Host
windows = record host { dumped = dump }

abbrev sample_at : ℕ → HostSample
sample_at t = record {
  boot_id = "0a1b2c3d-0000-4000-8000-00000000000f";
  process_id = "7:1";
  interrupt_before = pos t;
  unbiased = pos t;
  interrupt_after = pos (t + 5);
  sample_source = source;
}

abbrev digest : String
digest = "00000000000000000000000000000000000000000000000000000000000000ff"

abbrev deadline : LocalDeadline
deadline = record {
  intent = record {
    intent_id = "i";
    generation = pos 1;
    lease_sha256 = digest;
    anchor = sample_at 1000;
    deadline = pos 20_001_000;
  };
  last = sample_at 1000;
  hold = none;
  issuer_claim_consumed = false;
}

abbrev worker : String
worker = "S-1-5-21-1-2-3-1001"

abbrev scratch : String
scratch = "S-1-5-21-1-2-3-1002"

abbrev token : TokenSecurity
token = record {
  user = worker;
  grant_capable_groups = [];
  restricting_sids = scratch ∷ [];
  privileges = "SeChangeNotifyPrivilege" ∷ [];
  token_type = 1;
}

abbrev job : JobSnapshot
job = record {
  participant_pid = 42;
  participant_creation = 7;
  participant_in_job = true;
  participant_exit = 259;
  limit_flags = 0x2000;
  active_count = 1;
  active_pids = 42 ∷ [];
}

abbrev binding : WindowsWriterBinding
binding = record {
  issuer_sid = "S-1-5-18";
  worker_sid = worker;
  scratch_sid = scratch;
  participant_pid = pos 42;
  participant_creation = pos 7;
  intent_id = "i";
  generation = pos 1;
  lease_sha256 = digest;
}

abbrev fresh : WindowsHandoffSession
fresh = record {
  request = obj (
      field "intent_id" (text "i") (
        field "generation" (int (pos 1)) (
          field "lease_sha256" (text digest) (
            field "boot_id" (text "0a1b2c3d-0000-4000-8000-00000000000f")
              (field "deadline_interrupt" (text "20001000") end)))));
  handoff_digest = codes digest;
  worker_sid = worker;
  scratch_sid = scratch;
  client_deadline = deadline;
  binding = none;
  bound_handles = none;
  next = 0;
  closed = false;
}

-- A call at a time of the counter, to which the issuer gives that answer.
abbrev world : ℕ → String → World
world t stage = record {
  own_thread = true;
  process_self = ok tt;
  clock_before = ok (sample_at t);
  clock_after = ok (sample_at (t + 50));
  handle_bits = 64;
  inspector = ok tt;
  sight = record {
    first_read = sampled (sample_at (t + 10));
    evidence = ok (token, job);
    second_read = sampled (sample_at (t + 20));
  };
  write_frame = λ bytes. ok tt;
  read_frame = ok (codes "clh.windows-local-checkpoint-ack.v1" ++ codes stage);
  stack_close = ok tt;
}

abbrev bound : WindowsHandoffSession
bound = record fresh {
  binding = some binding;
  bound_handles = some (pos 100, pos 104);
  client_deadline = record deadline { last = sample_at 2020 };
}

bind_runs :
    bind windows (world 2000 "bind") binding (pos 100) (pos 104) fresh ≡ (ok source_snapshot, bound)
unfolding bind out_of_order bind_handles binding_differs parse_native_handle str_int is_decimal
    decimal decimal_text require_client_boot_deadline parse_interrupt_deadline inspect exchange
    canonical_json_bytes validate_canonical_json_numbers is_safe_json_integer binding_wire check
    observe intent_changed intent_eq witness_changed regressed discontinuous expired validate
    boot_witness ticks_invalid uncertain uuid_int uuid_text ◌-ℤ◌ ◌+ℤ◌ check_writer_snapshot
    check_observer same_or_privileged intersects extra_privilege unrestricted identity_mismatch
    containment_unproven membership_uncertain settle_descendants pid_in pids_distinct get json_eq
bind_runs = refl

abbrev calls : List Call
calls =
    binds (world 2000 "bind") binding (pos 100) (pos 104)
    ∷ checkpoints (world 3000 "resume") "resume" (pos 100) (pos 104)
    ∷ []

stages_in_order_example : (n : ℕ) × (stages windows calls fresh ≡ take n checkpoint_order)
stages_in_order_example = stages_in_order windows calls fresh refl

-- A stage before its turn.
abbrev skips : Call
skips = checkpoints (world 4000 "dag_ack") "dag_ack" (pos 100) (pos 104)

lost_session_holds_example :
    ((run windows calls fresh).closed ≡ true → IsHeld (run windows calls fresh))
    × (raises windows skips (run windows calls fresh) ≡ true
        → IsHeld (step windows skips (run windows calls fresh)))
lost_session_holds_example = lost_session_holds windows calls skips fresh refl

parse_interrupt_deadline-str_int_example :
    parse_interrupt_deadline (str (str_int (pos 184_467))) ≡ ok 184_467
parse_interrupt_deadline-str_int_example =
    parse_interrupt_deadline-str_int 184_467 (omega arith) (omega arith)
