-- ===== src/LocalTime/Deadline.antt =====
-- `LocalIntent` and `LocalDeadline`.
use coordination_loop_harnes.Base.{
  suc, ◌-◌, ◌*◌, ◌==◌, Bool, true, false, not, ◌||◌, ◌&&◌, Option, none, some, String, List, [],
  ◌∷◌, codes, str_eq, str_in, Result, ok, err, Exn, value_error, runtime_error, type_error,
  os_error, key_error, raise_if, ◌>>=◌, ◌>>◌, if◌then◌else◌, length, all, is_hex, is_blank,
}
use coordination_loop_harnes.Base.Int.{ℤ, pos, ◌+ℤ◌, ◌-ℤ◌, ltb_ℤ, leb_ℤ, eqb_ℤ, min_ℤ}
use coordination_loop_harnes.LocalTime.Sample.{HostSample, tolerance, validate}

pub record LocalIntent : Type 0 where
  pub intent_id : String
  pub generation : ℤ
  pub lease_sha256 : String
  pub anchor : HostSample
  pub deadline : ℤ

-- The mutable fields of a `LocalDeadline`; its lock serialises the calls.
pub record LocalDeadline : Type 0 where
  pub intent : LocalIntent
  pub last : HostSample
  pub hold : Option String
  pub issuer_claim_consumed : Bool

-- What one call of the `read` callback does.
pub data Reading : Type 0 where
  sampled : HostSample → Reading
  raised_hold : String → Reading
  raised_other : Reading

abbrev pub read_result : Reading → Result HostSample
read_result (sampled s) = ok s
read_result (raised_hold m) = err (value_error m)
read_result raised_other = err (os_error "read")

abbrev pub checkpoints : List String
checkpoints =
    "admission" ∷ "pre_spawn" ∷ "watchdog" ∷ "resume" ∷ "effect_publication" ∷ "receipt" ∷ "dag_ack"
    ∷ []

-- A lowercase SHA-256 in hexadecimal.
abbrev pub is_digest : String → Bool
is_digest s = length (codes s) == 64 && all is_hex (codes s)

-- `not 1 <= duration_seconds <= 600`
unfoldable pub duration_invalid : ℤ → Bool
duration_invalid duration = not (leb_ℤ (pos 1) duration && leb_ℤ duration (pos 600))

unfoldable pub intent_invalid : String → ℤ → String → ℤ → Bool
intent_invalid intent_id generation lease_sha256 duration =
    str_eq intent_id ""
    || ltb_ℤ generation (pos 1)
    || duration_invalid duration
    || not (is_digest lease_sha256)

-- `duration_seconds * TICKS_PER_SECOND` for a duration that passed the test above
abbrev pub in_ticks : ℤ → ℤ
in_ticks (ℤ.pos n) = pos (n * 10_000_000)
in_ticks (ℤ.negsuc n) = ℤ.negsuc (suc n * 10_000_000 - 1)

-- The `shorter_cap` argument, applied to the deadline.
unfoldable pub capped : HostSample → ℤ → Option ℤ → Result ℤ
capped anchor deadline none = ok deadline
capped anchor deadline (some cap) =
    if leb_ℤ cap anchor.interrupt_after
    then err (value_error "HOLD_LOCAL_CAP_INVALID_OR_EXPIRED")
    else ok (min_ℤ deadline cap)

-- `LocalDeadline.__init__`
unfoldable pub create : Reading → String → ℤ → String → ℤ → Option ℤ → Result LocalDeadline
create read intent_id generation lease_sha256 duration shorter_cap = do
  raise_if (intent_invalid intent_id generation lease_sha256 duration)
      (value_error "HOLD_INTENT_INVALID")
  anchor ← read_result read
  validate anchor
  deadline ← capped anchor (anchor.interrupt_before +ℤ in_ticks duration) shorter_cap
  raise_if (leb_ℤ (pos 18_446_744_073_709_551_616) deadline) (value_error "HOLD_COUNTER_OVERFLOW")
  ok (record {
    intent = record {
      intent_id = intent_id;
      generation = generation;
      lease_sha256 = lease_sha256;
      anchor = anchor;
      deadline = deadline;
    };
    last = anchor;
    hold = none;
    issuer_claim_consumed = false;
  })

abbrev pub hold_or : Option String → String → Option String
hold_or none reason = some reason
hold_or (some h) _ = some h

-- `LocalDeadline.invalidate`
unfoldable pub invalidate : String → LocalDeadline → LocalDeadline
invalidate reason d = record d {
  hold = hold_or d.hold (if is_blank (codes reason) then "HOLD_ROOT_OR_WATCHDOG_LOST" else reason);
}

-- `LocalDeadline.consume_issuer_claim`
unfoldable pub consume_issuer_claim : LocalDeadline → Result (Unit {0}) × LocalDeadline
consume_issuer_claim d =
    if d.issuer_claim_consumed
    then (err (value_error "HOLD_ISSUER_INTENT_ALREADY_ATTEMPTED"), d)
    else (ok tt, record d { issuer_claim_consumed = true })

-- `==` of the two frozen dataclasses
unfoldable pub sample_eq : HostSample → HostSample → Bool
sample_eq a b =
    str_eq a.boot_id b.boot_id
    && str_eq a.process_id b.process_id
    && eqb_ℤ a.interrupt_before b.interrupt_before
    && eqb_ℤ a.unbiased b.unbiased
    && eqb_ℤ a.interrupt_after b.interrupt_after
    && str_eq a.sample_source b.sample_source

unfoldable pub intent_eq : LocalIntent → LocalIntent → Bool
unfolding sample_eq
intent_eq a b =
    str_eq a.intent_id b.intent_id
    && eqb_ℤ a.generation b.generation
    && str_eq a.lease_sha256 b.lease_sha256
    && sample_eq a.anchor b.anchor
    && eqb_ℤ a.deadline b.deadline

unfoldable pub witness_changed : HostSample → HostSample → Bool
witness_changed now anchor = not (
    str_eq now.boot_id anchor.boot_id
    && str_eq now.process_id anchor.process_id
    && str_eq now.sample_source anchor.sample_source)

unfoldable pub regressed : HostSample → HostSample → Bool
regressed now last =
    ltb_ℤ now.interrupt_before last.interrupt_after || ltb_ℤ now.unbiased last.unbiased

-- A gap of more than 5 s, or a changed difference between the biased and the unbiased counter.
unfoldable pub discontinuous : HostSample → HostSample → HostSample → Bool
discontinuous now last anchor =
    ltb_ℤ (pos 50_000_000) (now.interrupt_after -ℤ last.interrupt_before)
    || ltb_ℤ ((anchor.interrupt_after -ℤ anchor.unbiased) +ℤ tolerance)
        (now.interrupt_before -ℤ now.unbiased)
    || ltb_ℤ (now.interrupt_after -ℤ now.unbiased)
        ((anchor.interrupt_before -ℤ anchor.unbiased) -ℤ tolerance)

unfoldable pub intent_changed : String → LocalIntent → LocalIntent → Bool
intent_changed checkpoint retained intent =
    not (str_in checkpoint checkpoints) || not (intent_eq retained intent)

unfoldable pub expired : HostSample → LocalIntent → Bool
expired now intent = leb_ℤ intent.deadline now.interrupt_after

-- The body of the `try` in `check`.
unfoldable pub observe : LocalDeadline → String → LocalIntent → Reading → Result HostSample
observe d checkpoint retained read = do
  raise_if (intent_changed checkpoint retained d.intent)
      (value_error "HOLD_INTENT_CHANGED_OR_UNKNOWN_CHECKPOINT")
  now ← read_result read
  validate now
  raise_if (witness_changed now d.intent.anchor) (value_error "HOLD_BOOT_PROCESS_OR_SOURCE_CHANGED")
  raise_if (regressed now d.last) (value_error "HOLD_COUNTER_REGRESSION")
  raise_if (discontinuous now d.last d.intent.anchor)
      (value_error "HOLD_SUSPEND_OR_WATCHDOG_CONTINUITY_UNPROVEN")
  raise_if (expired now d.intent) (value_error "HOLD_LOCAL_DEADLINE_EXPIRED")
  ok now

-- The reason that the `except` stores.
unfoldable pub hold_reason : Exn → String
hold_reason (value_error m) = if str_eq m "" then "HOLD_TIME_READ_FAILED" else m
hold_reason (runtime_error _) = "HOLD_TIME_READ_FAILED"
hold_reason (type_error _) = "HOLD_TIME_READ_FAILED"
hold_reason (os_error _) = "HOLD_TIME_READ_FAILED"
hold_reason (key_error _) = "HOLD_TIME_READ_FAILED"

abbrev pub settle : Result HostSample → LocalDeadline → Result HostSample × LocalDeadline
settle (ok now) d = (ok now, record d { last = now })
settle (err e) d = (err (value_error (hold_reason e)), record d { hold = some (hold_reason e) })

abbrev pub unless_held :
    Option String → Result HostSample → LocalDeadline → Result HostSample × LocalDeadline
unless_held (some h) r d = (err (value_error h), d)
unless_held none r d = settle r d

-- `LocalDeadline.check`
unfoldable pub check :
    String → LocalIntent → Reading → LocalDeadline → Result HostSample × LocalDeadline
check checkpoint retained read d = unless_held d.hold (observe d checkpoint retained read) d
