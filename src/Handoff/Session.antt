-- ===== src/Handoff/Session.antt =====
-- windows_capability.py: `WindowsHandoffSession`. What a call meets in the world is an argument.
use coordination_loop_harnes.Util.Decimal.{str_int}
use coordination_loop_harnes.Base.{
  ℕ, ltb, Bool, true, false, not, ◌&&◌, ◌||◌, Option, none, some, List, [], ◌∷◌, String, str_eq,
  Text, text_eq, Result, ok, err, Exn, value_error, raise_if, ◌>>=◌, ◌>>◌, if◌then◌else◌,
}
use coordination_loop_harnes.Base.Int.{ℤ, pos, leb_ℤ}
use coordination_loop_harnes.Json.{Json, int, get, is_text, json_eq}
use coordination_loop_harnes.Util.Host.{Host}
use coordination_loop_harnes.Util.Canonical.{canonical_json_bytes}
use coordination_loop_harnes.LocalTime.Sample.{HostSample}
use coordination_loop_harnes.LocalTime.Deadline.{LocalDeadline, invalidate}
use coordination_loop_harnes.Windows.Custody.{system}
use coordination_loop_harnes.Windows.Writer.{WindowsWriterBinding, WriterSnapshot}
use coordination_loop_harnes.Handoff.Wire.{
  parse_interrupt_deadline, parse_native_handle, pre_spawn_frame, bind_frame, ack_frame,
}
use coordination_loop_harnes.Handoff.Inspect.{Sight, inspect}

abbrev pub checkpoint_order : List String
checkpoint_order = "resume" ∷ "effect_publication" ∷ "receipt" ∷ "dag_ack" ∷ []

-- The response and the pinned client process are kept by the world.
pub record WindowsHandoffSession : Type 0 where
  pub request : Json
  pub handoff_digest : Text
  pub worker_sid : String
  pub scratch_sid : String
  pub client_deadline : LocalDeadline
  pub binding : Option WindowsWriterBinding
  pub bound_handles : Option (ℤ × ℤ)
  pub next : ℕ
  pub closed : Bool

pub record World : Type 0 where
  -- the call comes from the thread that made the session
  pub own_thread : Bool
  -- `require_process_self(self._client_pin)`
  pub process_self : Result (Unit {0})
  -- `WindowsHostClock().read()` before and after the frames
  pub clock_before : Result HostSample
  pub clock_after : Result HostSample
  -- the size of a handle in bits
  pub handle_bits : ℕ
  -- the constructor of `WindowsWriterInspector`, and what it sees
  pub inspector : Result (Unit {0})
  pub sight : Sight
  pub write_frame : List ℕ → Result (Unit {0})
  pub read_frame : Result (List ℕ)
  -- `self._stack.close()`
  pub stack_close : Result (Unit {0})

abbrev pub held : String → WindowsHandoffSession → WindowsHandoffSession
held reason s = record s { client_deadline = invalidate reason s.client_deadline }

abbrev pub closing : WindowsHandoffSession → WindowsHandoffSession
closing s =
    if ltb s.next 4
    then record s {
      closed = true;
      client_deadline = invalidate "HOLD_HANDOFF_SESSION_LOST" s.client_deadline;
    }
    else record s { closed = true }

unfoldable pub close : World → WindowsHandoffSession → Result (Unit {0}) × WindowsHandoffSession
close w s =
    if not w.own_thread
    then (
      err (value_error "HOLD_HANDOFF_SESSION_THREAD_CHANGED"),
      held "HOLD_HANDOFF_SESSION_THREAD_CHANGED" s,
    )
    else if s.closed
    then (ok tt, s)
    else (w.stack_close, closing s)

-- What is raised where `close` comes first and may raise itself.
abbrev pub raised {ℓ} : {A : Type ℓ} → Exn → Result (Unit {0}) → Result A
raised e (ok _) = err e
raised e (err f) = err f

-- `self.close()`, then `raise`
abbrev pub refuse {ℓ} :
    {A : Type ℓ} → World → Exn → WindowsHandoffSession → Result A × WindowsHandoffSession
refuse w e s = (raised e (close w s).0, (close w s).1)

unfoldable pub require_client_boot_deadline : Json → Result HostSample → Result (Unit {0})
require_client_boot_deadline request clock = do
  now ← clock
  raise_if (not (is_text now.boot_id (get "boot_id" request)))
      (value_error "HOLD_CLIENT_BOOT_OR_DEADLINE_MISMATCH")
  deadline ← parse_interrupt_deadline (get "deadline_interrupt" request)
  raise_if (leb_ℤ (pos deadline) now.interrupt_after)
      (value_error "HOLD_CLIENT_BOOT_OR_DEADLINE_MISMATCH")

-- One frame out and the exact answer back, and the deadline again.
unfoldable pub exchange : Host → World → Json → Json → String → Json → Result (Unit {0})
exchange h w frame ack mismatch request = do
  bytes ← canonical_json_bytes h frame
  w.write_frame bytes
  expected ← canonical_json_bytes h ack
  answer ← w.read_frame
  raise_if (not (text_eq answer expected)) (value_error mismatch)
  require_client_boot_deadline request w.clock_after

-- The answer of a call, and the session: the `except` closes it.
abbrev pub answered {ℓ} :
    {A : Type ℓ}
    → World
    → Result A
    → WindowsHandoffSession
    → WindowsHandoffSession
    → Result A × WindowsHandoffSession
answered w (err e) s done = refuse w e s
answered w (ok v) s done = (ok v, done)

abbrev pub is_bound : WindowsHandoffSession → Bool
is_bound s = elim s.binding [ none ↦ false | some _ ↦ true ]

unfoldable pub out_of_order : World → WindowsHandoffSession → Bool
out_of_order w s = not w.own_thread || s.closed || is_bound s

unfoldable pub pre_spawn_watchdog :
    Host → World → WindowsHandoffSession → Result (Unit {0}) × WindowsHandoffSession
pre_spawn_watchdog h w s =
    if out_of_order w s
    then refuse w (value_error "HOLD_HANDOFF_CHECKPOINT_ORDER") s
    else answered w
        (w.process_self
          >> (require_client_boot_deadline s.request w.clock_before
              >> exchange h w (pre_spawn_frame s.handoff_digest)
                  (ack_frame s.handoff_digest "pre_spawn_watchdog")
                  "HOLD_HANDOFF_CHECKPOINT_ACK_MISMATCH" s.request))
        s s

unfoldable pub binding_differs : WindowsHandoffSession → WindowsWriterBinding → Bool
binding_differs s b =
    not (
      str_eq b.issuer_sid system
      && str_eq b.worker_sid s.worker_sid
      && str_eq b.scratch_sid s.scratch_sid)
    || not (
        is_text b.intent_id (get "intent_id" s.request)
        && json_eq (int b.generation) (get "generation" s.request)
        && is_text b.lease_sha256 (get "lease_sha256" s.request))

-- `bind` up to the inspection; the handles as the frame has them.
unfoldable pub bind_handles :
    World → WindowsWriterBinding → ℤ → ℤ → WindowsHandoffSession → Result (ℕ × ℕ)
bind_handles w b participant job s = do
  raise_if (binding_differs s b) (value_error "HOLD_FIXED_WRITER_BINDING_REQUIRED")
  participant_native ← parse_native_handle w.handle_bits (str_int participant)
  job_native ← parse_native_handle w.handle_bits (str_int job)
  w.process_self
  require_client_boot_deadline s.request w.clock_before
  w.inspector
  ok (participant_native, job_native)

-- From the inspection on.
abbrev pub bind_seen :
    Host
    → World
    → WindowsWriterBinding
    → ℤ
    → ℤ
    → ℕ × ℕ
    → WindowsHandoffSession
    → Result WriterSnapshot × LocalDeadline
    → Result WriterSnapshot × WindowsHandoffSession
bind_seen h w b participant job native s (seen, d) =
    answered w
      (seen >>= λ snapshot.
        exchange h w (bind_frame s.handoff_digest b native.0 native.1)
          (ack_frame s.handoff_digest "bind") "HOLD_HANDOFF_BIND_ACK_MISMATCH" s.request
        >> ok snapshot)
      (record s { client_deadline = d })
      (record s { client_deadline = d; binding = some b; bound_handles = some (participant, job) })

abbrev pub bind_tried :
    Host
    → World
    → WindowsWriterBinding
    → ℤ
    → ℤ
    → WindowsHandoffSession
    → Result (ℕ × ℕ)
    → Result WriterSnapshot × WindowsHandoffSession
bind_tried h w b participant job s (err e) = refuse w e s
bind_tried h w b participant job s (ok native) =
    bind_seen h w b participant job native s
      (inspect w.sight b (pos native.0) (pos native.1) s.client_deadline)

unfoldable pub bind :
    Host
    → World
    → WindowsWriterBinding
    → ℤ
    → ℤ
    → WindowsHandoffSession
    → Result WriterSnapshot × WindowsHandoffSession
bind h w b participant job s =
    if out_of_order w s
    then refuse w (value_error "HOLD_HANDOFF_BIND_ORDER") s
    else bind_tried h w b participant job s (bind_handles w b participant job s)
