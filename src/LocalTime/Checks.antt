-- ===== src/LocalTime/Checks.antt =====
-- What a `check` that returns has established.
use coordination_loop_harnes.Base.{
  Bool, true, false, not, ◌||◌, String, str_in, ◌≡◌, ok, eq_iff, arith,
}
use coordination_loop_harnes.Base.Int.{pos, ◌-ℤ◌, ◌≤ℤ◌, ◌<ℤ◌}
use coordination_loop_harnes.LocalTime.Sample.{HostSample, IsValid, validate, validate-IsValid}
use coordination_loop_harnes.LocalTime.Deadline.{
  LocalIntent, LocalDeadline, Reading, sampled, raised_hold, raised_other, checkpoints, check,
  observe, witness_changed, regressed, discontinuous, intent_eq, intent_changed, expired,
}

-- The facts about a sample that `check` returned.
pub record Admitted (d : LocalDeadline) (checkpoint : String) (retained : LocalIntent)
    (now : HostSample) : Type 0 where
  pub known : str_in checkpoint checkpoints ≡ true
  pub same_intent : intent_eq retained d.intent ≡ true
  pub valid : IsValid now
  pub same_boot : now.boot_id ≡ d.intent.anchor.boot_id
  pub same_process : now.process_id ≡ d.intent.anchor.process_id
  pub monotone : d.last.interrupt_after ≤ℤ now.interrupt_before
  pub unbiased_monotone : d.last.unbiased ≤ℤ now.unbiased
  pub watched : now.interrupt_after -ℤ d.last.interrupt_before ≤ℤ pos 50_000_000
  pub unexpired : now.interrupt_after <ℤ d.intent.deadline

witness_changed_facts :
    (now anchor : HostSample)
    → witness_changed now anchor ≡ false
    → (now.boot_id ≡ anchor.boot_id) × (now.process_id ≡ anchor.process_id)
unfolding witness_changed
witness_changed_facts now anchor h =
    ground (arith, eq_iff now.boot_id anchor.boot_id, eq_iff now.process_id anchor.process_id)

regressed_facts :
    (now last : HostSample)
    → regressed now last ≡ false
    → (last.interrupt_after ≤ℤ now.interrupt_before) × (last.unbiased ≤ℤ now.unbiased)
unfolding regressed
regressed_facts now last h = ground arith

discontinuous_facts :
    (now last anchor : HostSample)
    → discontinuous now last anchor ≡ false
    → now.interrupt_after -ℤ last.interrupt_before ≤ℤ pos 50_000_000
unfolding discontinuous
discontinuous_facts now last anchor h = ground arith

intent_changed_facts :
    (checkpoint : String) (retained intent : LocalIntent)
    → intent_changed checkpoint retained intent ≡ false
    → (str_in checkpoint checkpoints ≡ true) × (intent_eq retained intent ≡ true)
unfolding intent_changed
intent_changed_facts checkpoint retained intent h =
    not_or (str_in checkpoint checkpoints) (intent_eq retained intent) h
  where
    not_or : (a b : Bool) → (not a || not b) ≡ false → (a ≡ true) × (b ≡ true)
    not_or a b e = ground arith

expired_facts :
    (now : HostSample) (intent : LocalIntent)
    → expired now intent ≡ false
    → now.interrupt_after <ℤ intent.deadline
unfolding expired
expired_facts now intent h = ground arith

-- The tests of `observe` that passed, with the conditions shut.
observe_tests :
    (d : LocalDeadline) (checkpoint : String) (retained : LocalIntent) (read : Reading)
    (now : HostSample)
    → observe d checkpoint retained read ≡ ok now
    → (intent_changed checkpoint retained d.intent ≡ false)
      × (read ≡ sampled now)
      × (validate now ≡ ok tt)
      × (witness_changed now d.intent.anchor ≡ false)
      × (regressed now d.last ≡ false)
      × (discontinuous now d.last d.intent.anchor ≡ false)
      × (expired now d.intent ≡ false)
unfolding observe
observe_tests d checkpoint retained (sampled s) now h = ground arith
observe_tests d checkpoint retained (raised_hold m) now h = ground arith
observe_tests d checkpoint retained raised_other now h = ground arith

pub check-Admitted :
    (d : LocalDeadline) (checkpoint : String) (retained : LocalIntent) (read : Reading)
    (now : HostSample)
    → (check checkpoint retained read d).0 ≡ ok now
    → Admitted d checkpoint retained now
unfolding check
check-Admitted d checkpoint retained read now h =
    let passed : observe d checkpoint retained read ≡ ok now = ground arith in
    let tests = observe_tests d checkpoint retained read now passed in
    let known = intent_changed_facts checkpoint retained d.intent tests.0 in
    let witness = witness_changed_facts now d.intent.anchor tests.3 in
    let order = regressed_facts now d.last tests.4 in
    record {
      known = known.0;
      same_intent = known.1;
      valid = validate-IsValid now tests.2;
      same_boot = witness.0;
      same_process = witness.1;
      monotone = order.0;
      unbiased_monotone = order.1;
      watched = discontinuous_facts now d.last d.intent.anchor tests.5;
      unexpired = expired_facts now d.intent tests.6;
    }
