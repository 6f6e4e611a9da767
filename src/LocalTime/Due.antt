-- ===== src/LocalTime/Due.antt =====
-- A check that is due passes: the deadline refuses nothing that it should accept.
use coordination_loop_harnes.Base.{
  Bool, true, false, not, ◌||◌, none, String, str_in, ◌≡◌, refl, ok, Result, raise_if, ◌>>◌, eq_iff,
  arith, Exn,
}
use coordination_loop_harnes.Base.Int.{ℤ, ltb_ℤ, pos, ◌+ℤ◌, ◌-ℤ◌, ◌≤ℤ◌, ◌<ℤ◌}
use coordination_loop_harnes.LocalTime.Sample.{HostSample, validate, tolerance}
use coordination_loop_harnes.LocalTime.Deadline.{
  LocalIntent, LocalDeadline, sampled, checkpoints, check, observe, witness_changed, regressed,
  discontinuous, intent_eq, intent_changed, expired,
}

-- What a sample must be for a check to be due.
pub record Due (d : LocalDeadline) (checkpoint : String) (retained : LocalIntent) (now : HostSample)
    : Type 0 where
  pub free : d.hold ≡ none
  pub known : str_in checkpoint checkpoints ≡ true
  pub same_intent : intent_eq retained d.intent ≡ true
  pub valid : validate now ≡ ok tt
  pub same_boot : now.boot_id ≡ d.intent.anchor.boot_id
  pub same_process : now.process_id ≡ d.intent.anchor.process_id
  pub same_source : now.sample_source ≡ d.intent.anchor.sample_source
  pub monotone : d.last.interrupt_after ≤ℤ now.interrupt_before
  pub unbiased_monotone : d.last.unbiased ≤ℤ now.unbiased
  pub watched : now.interrupt_after -ℤ d.last.interrupt_before ≤ℤ pos 50_000_000
  -- the time spent in suspension, by the narrowest readings of both samples, within the tolerance
  pub not_suspended :
      now.interrupt_before -ℤ now.unbiased
      ≤ℤ (d.intent.anchor.interrupt_after -ℤ d.intent.anchor.unbiased) +ℤ tolerance
  pub not_reversed :
      (d.intent.anchor.interrupt_before -ℤ d.intent.anchor.unbiased) -ℤ tolerance
      ≤ℤ now.interrupt_after -ℤ now.unbiased
  pub unexpired : now.interrupt_after <ℤ d.intent.deadline

witness_kept :
    (now anchor : HostSample)
    → now.boot_id ≡ anchor.boot_id
    → now.process_id ≡ anchor.process_id
    → now.sample_source ≡ anchor.sample_source
    → witness_changed now anchor ≡ false
unfolding witness_changed
witness_kept now anchor b p s = ground (
  arith,
  eq_iff now.boot_id anchor.boot_id,
  eq_iff now.process_id anchor.process_id,
  eq_iff now.sample_source anchor.sample_source,
)

not_regressed :
    (now last : HostSample)
    → last.interrupt_after ≤ℤ now.interrupt_before
    → last.unbiased ≤ℤ now.unbiased
    → regressed now last ≡ false
unfolding regressed
not_regressed now last a b = ground arith

continuous :
    (now last anchor : HostSample)
    → now.interrupt_after -ℤ last.interrupt_before ≤ℤ pos 50_000_000
    → now.interrupt_before -ℤ now.unbiased
      ≤ℤ (anchor.interrupt_after -ℤ anchor.unbiased) +ℤ tolerance
    → (anchor.interrupt_before -ℤ anchor.unbiased) -ℤ tolerance
      ≤ℤ now.interrupt_after -ℤ now.unbiased
    → discontinuous now last anchor ≡ false
unfolding discontinuous
continuous now last anchor a b c =
    three _ _ _ (not_less (now.interrupt_after -ℤ last.interrupt_before) (pos 50_000_000) a)
      (not_less (now.interrupt_before -ℤ now.unbiased)
        ((anchor.interrupt_after -ℤ anchor.unbiased) +ℤ tolerance) b)
      (not_less ((anchor.interrupt_before -ℤ anchor.unbiased) -ℤ tolerance)
        (now.interrupt_after -ℤ now.unbiased) c)
  where
    not_less : (x y : ℤ) → x ≤ℤ y → ltb_ℤ y x ≡ false
    not_less x y h = ground arith

    three : (a b c : Bool) → a ≡ false → b ≡ false → c ≡ false → (a || b || c) ≡ false
    three a b c p q r = ground arith

not_expired :
    (now : HostSample) (intent : LocalIntent)
    → now.interrupt_after <ℤ intent.deadline
    → expired now intent ≡ false
unfolding expired
not_expired now intent h = ground arith

same_known :
    (checkpoint : String) (retained intent : LocalIntent)
    → str_in checkpoint checkpoints ≡ true
    → intent_eq retained intent ≡ true
    → intent_changed checkpoint retained intent ≡ false
unfolding intent_changed
same_known checkpoint retained intent a b =
    both (str_in checkpoint checkpoints) (intent_eq retained intent) a b
  where
    both : (x y : Bool) → x ≡ true → y ≡ true → (not x || not y) ≡ false
    both x y p q = ground arith

all_pass :
    (a c e f g : Bool) (v : Result (Unit {0})) (x1 x2 x3 x4 x5 : Exn) (now : HostSample)
    → a ≡ false
    → v ≡ ok tt
    → c ≡ false
    → e ≡ false
    → f ≡ false
    → g ≡ false
    → (raise_if a x1
        >> (v
            >> (raise_if c x2 >> (raise_if e x3 >> (raise_if f x4 >> (raise_if g x5 >> ok now))))))
      ≡ ok now
all_pass a c e f g v x1 x2 x3 x4 x5 now p1 p2 p3 p4 p5 p6 = rw (p1, p2, p3, p4, p5, p6) refl

-- A check that is due passes, and the sample becomes the last one: at a known checkpoint, for the
-- intent retained, with a valid sample of the same boot, process and source that is not behind the
-- last one, at most 5 s after it, within the tolerance of the anchor in the time suspended, and
-- before the deadline, a deadline that holds nothing never refuses.
pub check-Due :
    (d : LocalDeadline) (checkpoint : String) (retained : LocalIntent) (now : HostSample)
    → Due d checkpoint retained now
    → check checkpoint retained (sampled now) d ≡ (ok now, record d { last = now })
unfolding check observe
check-Due d checkpoint retained now due =
    let passed : observe d checkpoint retained (sampled now) ≡ ok now =
      all_pass (intent_changed checkpoint retained d.intent) (witness_changed now d.intent.anchor)
        (regressed now d.last) (discontinuous now d.last d.intent.anchor) (expired now d.intent)
        (validate now) _ _ _ _ _ now
        (same_known checkpoint retained d.intent due.known due.same_intent) due.valid
        (witness_kept now d.intent.anchor due.same_boot due.same_process due.same_source)
        (not_regressed now d.last due.monotone due.unbiased_monotone)
        (continuous now d.last d.intent.anchor due.watched due.not_suspended due.not_reversed)
        (not_expired now d.intent due.unexpired) in
    rw (due.free, passed) refl
