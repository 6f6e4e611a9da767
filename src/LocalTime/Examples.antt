-- ===== src/LocalTime/Examples.antt =====
-- Runs of a deadline on one boot, and the theorems at them.
use coordination_loop_harnes.Base.{
  ℕ, String, [], ◌∷◌, none, ◌≡◌, refl, ok, err, value_error, false, ◌+◌, arith,
}
use coordination_loop_harnes.Base.Int.{pos, ◌+ℤ◌, ◌-ℤ◌, ◌≤ℤ◌, ◌<ℤ◌}
use coordination_loop_harnes.LocalTime.Sample.{
  HostSample, source, validate, boot_witness, ticks_invalid, uncertain,
}
use coordination_loop_harnes.LocalTime.Uuid.{uuid_int, uuid_text}
use coordination_loop_harnes.LocalTime.Deadline.{
  LocalIntent, LocalDeadline, sampled, raised_other, create, capped, check, consume_issuer_claim,
  observe, intent_invalid, duration_invalid, intent_changed, intent_eq, witness_changed, regressed,
  discontinuous, expired, hold_reason,
}
use coordination_loop_harnes.LocalTime.Due.{Due, check-Due}
use coordination_loop_harnes.LocalTime.Latch.{
  consumes, invalidates, run, step, refused_forever, claim_spent_once,
}
use coordination_loop_harnes.LocalTime.Expiry.{
  IsBounded, create-IsBounded, accepted_within_600_s, accepted_in_order,
}

abbrev sample_at : ℕ → HostSample
sample_at t = record {
  boot_id = "0a1b2c3d-0000-4000-8000-00000000000f";
  process_id = "7:1";
  interrupt_before = pos t;
  unbiased = pos t;
  interrupt_after = pos (t + 5);
  sample_source = source;
}

abbrev digest : String
digest = "00000000000000000000000000000000000000000000000000000000000000ff"

abbrev intent : LocalIntent
intent = record {
  intent_id = "i";
  generation = pos 1;
  lease_sha256 = digest;
  anchor = sample_at 1000;
  deadline = pos 20_001_000;
}

abbrev started : LocalDeadline
started = record {
  intent = intent;
  last = sample_at 1000;
  hold = none;
  issuer_claim_consumed = false;
}

create_runs : create (sampled (sample_at 1000)) "i" (pos 1) digest (pos 2) none ≡ ok started
unfolding create capped intent_invalid duration_invalid validate boot_witness ticks_invalid
    uncertain uuid_int uuid_text ◌-ℤ◌ ◌+ℤ◌
create_runs = refl

create_IsBounded_example : IsBounded started
create_IsBounded_example =
    create-IsBounded (sampled (sample_at 1000)) "i" (pos 1) digest (pos 2) none started create_runs

accepts : (check "admission" intent (sampled (sample_at 2000)) started).0 ≡ ok (sample_at 2000)
unfolding check observe intent_changed intent_eq witness_changed regressed discontinuous expired
    validate boot_witness ticks_invalid uncertain uuid_int uuid_text ◌-ℤ◌ ◌+ℤ◌
accepts = refl

refuses :
    (check "admission" intent raised_other started).0 ≡ err (value_error "HOLD_TIME_READ_FAILED")
unfolding check observe intent_changed intent_eq hold_reason
refuses = refl

refused_forever_example :
    (check "receipt" intent
      (sampled (sample_at 2000))
      (run (consumes ∷ []) (check "admission" intent raised_other started).1)).0
    ≡ err (value_error "HOLD_TIME_READ_FAILED")
refused_forever_example =
    refused_forever "admission" intent raised_other started (value_error "HOLD_TIME_READ_FAILED")
      (consumes ∷ []) "receipt" intent (sampled (sample_at 2000)) refuses

claim_spent_once_example :
    (consume_issuer_claim (run (invalidates "" ∷ []) (consume_issuer_claim started).1)).0
    ≡ err (value_error "HOLD_ISSUER_INTENT_ALREADY_ATTEMPTED")
claim_spent_once_example = claim_spent_once started (invalidates "" ∷ [])

accepts_again :
    (check "receipt" intent
      (sampled (sample_at 3000))
      (run (consumes ∷ []) (check "admission" intent (sampled (sample_at 2000)) started).1)).0
    ≡ ok (sample_at 3000)
unfolding run step consume_issuer_claim check observe intent_changed intent_eq witness_changed
    regressed discontinuous expired validate boot_witness ticks_invalid uncertain uuid_int uuid_text
    ◌-ℤ◌ ◌+ℤ◌
accepts_again = refl

accepts_later :
    (check "receipt" intent (sampled (sample_at 3000)) (run (consumes ∷ []) started)).0
    ≡ ok (sample_at 3000)
unfolding run step consume_issuer_claim check observe intent_changed intent_eq witness_changed
    regressed discontinuous expired validate boot_witness ticks_invalid uncertain uuid_int uuid_text
    ◌-ℤ◌ ◌+ℤ◌
accepts_later = refl

accepted_within_600_s_example :
    (pos 3005 <ℤ pos 20_001_000)
    × (pos 3005 <ℤ pos 1000 +ℤ pos 6_000_000_000)
    × ((sample_at 3000).boot_id ≡ (sample_at 1000).boot_id)
    × ((sample_at 3000).process_id ≡ (sample_at 1000).process_id)
accepted_within_600_s_example =
    accepted_within_600_s started (consumes ∷ []) "receipt" intent (sampled (sample_at 3000))
      (sample_at 3000) create_IsBounded_example accepts_later

accepted_in_order_example : pos 2005 ≤ℤ pos 3000
accepted_in_order_example =
    accepted_in_order started (consumes ∷ []) "admission" "receipt" intent intent
      (sampled (sample_at 2000)) (sampled (sample_at 3000)) (sample_at 2000) (sample_at 3000)
      accepts accepts_again

-- The same sample is due.
started-Due : Due started "admission" intent (sample_at 2000)
unfolding intent_eq validate boot_witness ticks_invalid uncertain uuid_int uuid_text ◌-ℤ◌ ◌+ℤ◌
started-Due = record {
  free = refl;
  known = refl;
  same_intent = refl;
  valid = refl;
  same_boot = refl;
  same_process = refl;
  same_source = refl;
  monotone = omega arith;
  unbiased_monotone = omega arith;
  watched = omega arith;
  not_suspended = omega arith;
  not_reversed = omega arith;
  unexpired = omega arith;
}

check-Due_example :
    check "admission" intent (sampled (sample_at 2000)) started
    ≡ (ok (sample_at 2000), record started { last = sample_at 2000 })
check-Due_example = check-Due started "admission" intent (sample_at 2000) started-Due
