-- ===== src/LocalTime/Expiry.antt =====
-- How long a deadline can let anything through.
use coordination_loop_harnes.Base.{
  Bool, false, ◌||◌, not, str_eq, Option, none, some, String, List, [], ◌∷◌, ◌≡◌, ok, arith, subst,
  sym, ◌⊎◌, inl, inr,
}
use coordination_loop_harnes.Base.Int.{ℤ, pos, negsuc, ltb_ℤ, ◌+ℤ◌, ◌≤ℤ◌, ◌<ℤ◌, int_laws}
use coordination_loop_harnes.LocalTime.Sample.{HostSample, IsValid, validate, validate-IsValid}
use coordination_loop_harnes.LocalTime.Deadline.{
  LocalIntent, LocalDeadline, Reading, sampled, raised_hold, raised_other, create, capped, check,
  invalidate, consume_issuer_claim, in_ticks, is_digest, intent_invalid, duration_invalid,
}
use coordination_loop_harnes.LocalTime.Checks.{check-Admitted}
use coordination_loop_harnes.LocalTime.Latch.{
  Call, checks, invalidates, consumes, step, run, intent-run,
}

-- The bounds of a newly created deadline.
pub record IsBounded (d : LocalDeadline) : Type 0 where
  pub anchored : IsValid d.intent.anchor
  pub starts : d.last ≡ d.intent.anchor
  pub open_at_start : d.intent.anchor.interrupt_after <ℤ d.intent.deadline
  pub at_most_600_s : d.intent.deadline ≤ℤ d.intent.anchor.interrupt_before +ℤ pos 6_000_000_000
  pub fits : d.intent.deadline <ℤ pos 18_446_744_073_709_551_616
  pub not_held : d.hold ≡ none

or_false : (a b c d : Bool) → (a || b || c || d) ≡ false → c ≡ false
or_false a b c d h = ground arith

duration_bounds :
    (duration : ℤ)
    → duration_invalid duration ≡ false
    → (pos 10_000_000 ≤ℤ in_ticks duration) × (in_ticks duration ≤ℤ pos 6_000_000_000)
unfolding duration_invalid
duration_bounds (pos n) h = ground arith
duration_bounds (negsuc n) h = ground arith

intent_duration :
    (intent_id : String) (generation : ℤ) (digest : String) (duration : ℤ)
    → intent_invalid intent_id generation digest duration ≡ false
    → duration_invalid duration ≡ false
unfolding intent_invalid
intent_duration intent_id generation digest duration h =
    or_false (str_eq intent_id "") (ltb_ℤ generation (pos 1)) (duration_invalid duration)
      (not (is_digest digest)) h

capped_bounds :
    (anchor : HostSample) (deadline : ℤ) (cap : Option ℤ) (d : ℤ)
    → capped anchor deadline cap ≡ ok d
    → anchor.interrupt_after <ℤ deadline
    → (d ≤ℤ deadline) × (anchor.interrupt_after <ℤ d)
unfolding capped
capped_bounds anchor deadline none d h lt = ground arith
capped_bounds anchor deadline (some c) d h lt = ground arith

pub capped-le :
    (anchor : HostSample) (deadline cap d : ℤ) → capped anchor deadline (some cap) ≡ ok d → d ≤ℤ cap
unfolding capped
capped-le anchor deadline cap d h = ground arith

create_tests :
    (read : Reading) (intent_id : String) (generation : ℤ) (digest : String) (duration : ℤ)
    (cap : Option ℤ) (d : LocalDeadline)
    → create read intent_id generation digest duration cap ≡ ok d
    → (intent_invalid intent_id generation digest duration ≡ false)
      × (validate d.intent.anchor ≡ ok tt)
      × (capped d.intent.anchor (d.intent.anchor.interrupt_before +ℤ in_ticks duration) cap
          ≡ ok d.intent.deadline)
      × (d.intent.deadline <ℤ pos 18_446_744_073_709_551_616)
      × (d.last ≡ d.intent.anchor)
      × (d.hold ≡ none)
unfolding create
create_tests (sampled s) intent_id generation digest duration cap d h = ground arith
create_tests (raised_hold m) intent_id generation digest duration cap d h = ground arith
create_tests raised_other intent_id generation digest duration cap d h = ground arith

-- A deadline that `create` returns is anchored in a valid sample, is still open there, ends at
-- most 600 s after it and in the range of the counter, and is not held.
pub create-IsBounded :
    (read : Reading) (intent_id : String) (generation : ℤ) (digest : String) (duration : ℤ)
    (cap : Option ℤ) (d : LocalDeadline)
    → create read intent_id generation digest duration cap ≡ ok d
    → IsBounded d
create-IsBounded read intent_id generation digest duration cap d h =
    let tests = create_tests read intent_id generation digest duration cap d h in
    let valid = validate-IsValid d.intent.anchor tests.1 in
    let ticks =
      duration_bounds duration (intent_duration intent_id generation digest duration tests.0) in
    let bounds =
      capped_bounds d.intent.anchor _ cap d.intent.deadline tests.2
        (omega (int_laws, valid.narrow, ticks.0)) in
    record {
      anchored = valid;
      starts = tests.4;
      open_at_start = bounds.1;
      at_most_600_s = omega (int_laws, bounds.0, ticks.1);
      fits = tests.3;
      not_held = tests.5;
    }

check_last :
    (checkpoint : String) (retained : LocalIntent) (read : Reading) (d : LocalDeadline)
    → ((check checkpoint retained read d).1.last ≡ d.last)
      ⊎ ((check checkpoint retained read d).0 ≡ ok (check checkpoint retained read d).1.last)
unfolding check
check_last checkpoint retained read d = ground arith

accepted_last :
    (checkpoint : String) (retained : LocalIntent) (read : Reading) (d : LocalDeadline)
    (now : HostSample)
    → (check checkpoint retained read d).0 ≡ ok now
    → (check checkpoint retained read d).1.last ≡ now
unfolding check
accepted_last checkpoint retained read d now h = ground arith

-- The last accepted sample is valid, and never earlier than it was.
abbrev Follows : LocalDeadline → LocalDeadline → Type 0
Follows d e = IsValid e.last × (d.last.interrupt_after ≤ℤ e.last.interrupt_after)

accepted_follows :
    (checkpoint : String) (retained : LocalIntent) (read : Reading) (d : LocalDeadline)
    (now : HostSample)
    → (check checkpoint retained read d).0 ≡ ok now
    → IsValid now × (d.last.interrupt_after ≤ℤ now.interrupt_after)
accepted_follows checkpoint retained read d now h =
    let a = check-Admitted d checkpoint retained read now h in
    (a.valid, omega (int_laws, a.monotone, a.valid.ordered))

check-Follows :
    (checkpoint : String) (retained : LocalIntent) (read : Reading) (d : LocalDeadline)
    → IsValid d.last
    → Follows d (check checkpoint retained read d).1
check-Follows checkpoint retained read d v = elim (check_last checkpoint retained read d) [
  | inl same ↦
      subst (λ s. IsValid s × (d.last.interrupt_after ≤ℤ s.interrupt_after)) (sym same)
        (v, omega int_laws)
  | inr accepted ↦ accepted_follows checkpoint retained read d _ accepted
]

consume_last : (d : LocalDeadline) → (consume_issuer_claim d).1.last ≡ d.last
unfolding consume_issuer_claim
consume_last d = ground arith

step-Follows : (c : Call) (d : LocalDeadline) → IsValid d.last → Follows d (step c d)
unfolding step invalidate
step-Follows (checks checkpoint retained read) d v = check-Follows checkpoint retained read d v
step-Follows (invalidates reason) d v = (v, omega int_laws)
step-Follows consumes d v =
    subst (λ s. IsValid s × (d.last.interrupt_after ≤ℤ s.interrupt_after)) (sym (consume_last d))
      (v, omega int_laws)

run-Follows : (cs : List Call) (d : LocalDeadline) → IsValid d.last → Follows d (run cs d)
unfolding run
run-Follows [] d v = (v, omega int_laws)
run-Follows (c ∷ cs) d v =
    let one = step-Follows c d v in
    let rest = run-Follows cs (step c d) one.0 in (rest.0, omega (int_laws, one.1, rest.1))

-- A check that a created deadline accepts after any history of calls shows a sample of the boot
-- and the process of the anchor, before the deadline, and so less than 600 s of interrupt time
-- after the anchor.
pub accepted_within_600_s :
    (d : LocalDeadline) (cs : List Call) (checkpoint : String) (retained : LocalIntent)
    (read : Reading) (now : HostSample)
    → IsBounded d
    → (check checkpoint retained read (run cs d)).0 ≡ ok now
    → (now.interrupt_after <ℤ d.intent.deadline)
      × (now.interrupt_after <ℤ d.intent.anchor.interrupt_before +ℤ pos 6_000_000_000)
      × (now.boot_id ≡ d.intent.anchor.boot_id)
      × (now.process_id ≡ d.intent.anchor.process_id)
accepted_within_600_s d cs checkpoint retained read now b h =
    let a = check-Admitted (run cs d) checkpoint retained read now h in
    let same = intent-run cs d in
    let before = subst (λ i. now.interrupt_after <ℤ i.deadline) same a.unexpired in
    (
      before,
      omega (int_laws, before, b.at_most_600_s),
      subst (λ i. now.boot_id ≡ i.anchor.boot_id) same a.same_boot,
      subst (λ i. now.process_id ≡ i.anchor.process_id) same a.same_process,
    )

-- Of two checks that one deadline accepts, with any calls between them, the later shows a sample
-- that begins no earlier than the first one ended, whichever checkpoints they are for.
pub accepted_in_order :
    (d : LocalDeadline) (cs : List Call) (checkpoint checkpoint' : String)
    (retained retained' : LocalIntent) (read read' : Reading) (first second : HostSample)
    → (check checkpoint retained read d).0 ≡ ok first
    → (check checkpoint' retained' read' (run cs (check checkpoint retained read d).1)).0
      ≡ ok second
    → first.interrupt_after ≤ℤ second.interrupt_before
accepted_in_order d cs checkpoint checkpoint' retained retained' read read' first second h k =
    let stored = accepted_last checkpoint retained read d first h in
    let valid = (accepted_follows checkpoint retained read d first h).0 in
    let after =
      run-Follows cs (check checkpoint retained read d).1 (subst IsValid (sym stored) valid) in
    let a = check-Admitted _ checkpoint' retained' read' second k in
    let from_first =
      subst
        (λ s.
          s.interrupt_after ≤ℤ (run cs (check checkpoint retained read d).1).last.interrupt_after)
        stored after.1 in
    omega (int_laws, from_first, a.monotone)
