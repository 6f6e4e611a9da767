-- ===== src/LocalTime/Sample.antt =====
-- `HostSample` and its `validate`.
use coordination_loop_harnes.Base.{
  ℕ, ◌≡◌, Bool, false, not, ◌||◌, ◌&&◌, none, some, String, eq_iff, codes, text_eq, str_eq, arith,
  Result, ok, err, value_error, raise_if, ◌>>◌, ◌==◌,
}
use coordination_loop_harnes.Base.Int.{ℤ, pos, ◌-ℤ◌, ◌≤ℤ◌, ◌<ℤ◌, ltb_ℤ, leb_ℤ, int_laws}
use coordination_loop_harnes.LocalTime.Uuid.{uuid_int, uuid_text}

abbrev pub ticks_per_second : ℕ
ticks_per_second = 10_000_000

-- `TICKS_PER_SECOND // 50`: the width that one sample may have, 20 ms.
abbrev pub tolerance : ℤ
tolerance = pos 200_000

abbrev pub source : String
source = "WINDOWS_INTERRUPT_PRECISE_BOOT_GUID_V1"

pub record HostSample : Type 0 where
  pub boot_id : String
  pub process_id : String
  pub interrupt_before : ℤ
  pub unbiased : ℤ
  pub interrupt_after : ℤ
  pub sample_source : String

-- `0 <= tick < 2**64`
abbrev pub is_tick : ℤ → Bool
is_tick t = leb_ℤ (pos 0) t && ltb_ℤ t (pos 18_446_744_073_709_551_616)

unfoldable pub boot_witness : String → String → Result (Unit {0})
unfolding uuid_int
boot_witness boot_id process_id = elim (uuid_int boot_id) [
  | none ↦ err (value_error "HOLD_BOOT_ID_UNPROVEN")
  | some n ↦
      raise_if (n == 0 || not (text_eq (uuid_text n) (codes boot_id)) || str_eq process_id "")
        (value_error "HOLD_PROCESS_OR_BOOT_WITNESS_MISSING")
]

unfoldable pub ticks_invalid : ℤ → ℤ → ℤ → Bool
ticks_invalid before unbiased after = not (is_tick before && is_tick unbiased && is_tick after)

unfoldable pub uncertain : HostSample → Bool
uncertain s =
    not (str_eq s.sample_source source)
    || not (leb_ℤ s.unbiased s.interrupt_after)
    || not (
        leb_ℤ (pos 0) (s.interrupt_after -ℤ s.interrupt_before)
        && leb_ℤ (s.interrupt_after -ℤ s.interrupt_before) tolerance)

unfoldable pub validate : HostSample → Result (Unit {0})
validate s = do
  boot_witness s.boot_id s.process_id
  raise_if (ticks_invalid s.interrupt_before s.unbiased s.interrupt_after)
      (value_error "HOLD_COUNTER_INVALID")
  raise_if (uncertain s) (value_error "HOLD_SOURCE_OR_SAMPLE_UNCERTAIN")

-- What `validate` lets through, read off without its order of tests.
pub record IsValid (s : HostSample) : Type 0 where
  pub before_range :
      (pos 0 ≤ℤ s.interrupt_before) × (s.interrupt_before <ℤ pos 18_446_744_073_709_551_616)
  pub unbiased_range : (pos 0 ≤ℤ s.unbiased) × (s.unbiased ≤ℤ s.interrupt_after)
  pub after_range : s.interrupt_after <ℤ pos 18_446_744_073_709_551_616
  pub ordered : s.interrupt_before ≤ℤ s.interrupt_after
  pub narrow : s.interrupt_after -ℤ s.interrupt_before ≤ℤ tolerance
  pub sourced : s.sample_source ≡ source
  pub has_process : str_eq s.process_id "" ≡ false

boot_witness_process : (b p : String) → boot_witness b p ≡ ok tt → str_eq p "" ≡ false
unfolding boot_witness
boot_witness_process b p h = ground arith

ticks_invalid_range :
    (b u a : ℤ)
    → ticks_invalid b u a ≡ false
    → (pos 0 ≤ℤ b)
      × (pos 0 ≤ℤ u)
      × (b <ℤ pos 18_446_744_073_709_551_616)
      × (a <ℤ pos 18_446_744_073_709_551_616)
unfolding ticks_invalid
ticks_invalid_range b u a h = ground arith

uncertain_facts :
    (s : HostSample)
    → uncertain s ≡ false
    → (s.sample_source ≡ source)
      × (s.unbiased ≤ℤ s.interrupt_after)
      × (pos 0 ≤ℤ s.interrupt_after -ℤ s.interrupt_before)
      × (s.interrupt_after -ℤ s.interrupt_before ≤ℤ tolerance)
unfolding uncertain
uncertain_facts s h = ground (arith, eq_iff s.sample_source source)

pub validate-IsValid : (s : HostSample) → validate s ≡ ok tt → IsValid s
unfolding validate
validate-IsValid s h =
    let tests : (boot_witness s.boot_id s.process_id ≡ ok tt)
        × (ticks_invalid s.interrupt_before s.unbiased s.interrupt_after ≡ false)
        × (uncertain s ≡ false) =
      ground arith in
    let witness = boot_witness_process s.boot_id s.process_id tests.0 in
    let ticks = ticks_invalid_range s.interrupt_before s.unbiased s.interrupt_after tests.1 in
    let certain = uncertain_facts s tests.2 in
    record {
      before_range = (ticks.0, ticks.2);
      unbiased_range = (ticks.1, certain.1);
      after_range = ticks.3;
      ordered = omega int_laws;
      narrow = certain.3;
      sourced = certain.0;
      has_process = witness;
    }
