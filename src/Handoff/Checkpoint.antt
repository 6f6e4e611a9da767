-- ===== src/Handoff/Checkpoint.antt =====
-- windows_capability.py: `WindowsHandoffSession.checkpoint`.
use coordination_loop_harnes.Base.{
  ℕ, zero, suc, ◌+◌, ltb, Bool, false, not, ◌&&◌, ◌||◌, Option, none, some, List, [], ◌∷◌, String,
  str_eq, Result, ok, err, value_error, ◌>>=◌, ◌>>◌, if◌then◌else◌,
}
use coordination_loop_harnes.Base.Int.{ℤ, eqb_ℤ}
use coordination_loop_harnes.Util.Host.{Host}
use coordination_loop_harnes.LocalTime.Deadline.{LocalDeadline}
use coordination_loop_harnes.Windows.Writer.{WindowsWriterBinding, WriterSnapshot}
use coordination_loop_harnes.Handoff.Wire.{checkpoint_frame, ack_frame}
use coordination_loop_harnes.Handoff.Inspect.{inspect}
use coordination_loop_harnes.Handoff.Session.{
  checkpoint_order, WindowsHandoffSession, World, held, close, refuse, answered,
  require_client_boot_deadline, exchange,
}

abbrev pub nth : ℕ → List String → Option String
nth n [] = none
nth zero (x ∷ xs) = some x
nth (suc n) (x ∷ xs) = nth n xs

abbrev pub is_stage : String → Option String → Bool
is_stage stage none = false
is_stage stage (some s) = str_eq stage s

-- The stages that a session with `next` checkpoints behind it lets pass.
unfoldable pub stage_allowed : String → ℕ → Bool
stage_allowed stage next =
    ltb next 4 && (str_eq stage "watchdog" || is_stage stage (nth next checkpoint_order))

unfoldable pub handles_eq : ℤ → ℤ → Option (ℤ × ℤ) → Bool
handles_eq participant job none = false
handles_eq participant job (some (p, j)) = eqb_ℤ participant p && eqb_ℤ job j

-- `self._next += 1`, but not at a watchdog
abbrev pub advanced : String → WindowsHandoffSession → WindowsHandoffSession
advanced stage s = if str_eq stage "watchdog" then s else record s { next = s.next + 1 }

-- The end of the `try`: the session is closed after the last stage. If that raises, the `except`
-- finds it closed.
abbrev pub finish :
    World
    → String
    → Result WriterSnapshot
    → WindowsHandoffSession
    → Result WriterSnapshot × WindowsHandoffSession
finish w stage (err e) s = refuse w e s
finish w stage (ok v) s =
    if str_eq stage "dag_ack"
    then answered w ((close w (advanced stage s)).0 >> ok v) (close w (advanced stage s)).1
        (close w (advanced stage s)).1
    else (ok v, advanced stage s)

-- From the inspection on.
abbrev pub checkpoint_seen :
    Host
    → World
    → String
    → WindowsWriterBinding
    → WindowsHandoffSession
    → Result WriterSnapshot × LocalDeadline
    → Result WriterSnapshot × WindowsHandoffSession
checkpoint_seen h w stage b s (seen, d) =
    finish w stage
      (seen >>= λ snapshot.
        exchange h w (checkpoint_frame s.handoff_digest stage b) (ack_frame s.handoff_digest stage)
          "HOLD_HANDOFF_CHECKPOINT_ACK_MISMATCH" s.request
        >> ok snapshot)
      (record s { client_deadline = d })

unfoldable pub checkpoint_ready : World → WindowsHandoffSession → Result (Unit {0})
checkpoint_ready w s = do
  w.process_self
  require_client_boot_deadline s.request w.clock_before
  w.inspector

abbrev pub checkpoint_tried :
    Host
    → World
    → String
    → ℤ
    → ℤ
    → WindowsWriterBinding
    → WindowsHandoffSession
    → Result (Unit {0})
    → Result WriterSnapshot × WindowsHandoffSession
checkpoint_tried h w stage participant job b s (err e) = refuse w e s
checkpoint_tried h w stage participant job b s (ok _) =
    checkpoint_seen h w stage b s (inspect w.sight b participant job s.client_deadline)

-- With the binding of the session.
abbrev pub checkpoint_bound :
    Host
    → World
    → String
    → ℤ
    → ℤ
    → Option WindowsWriterBinding
    → WindowsHandoffSession
    → Result WriterSnapshot × WindowsHandoffSession
checkpoint_bound h w stage participant job none s =
    refuse w (value_error "HOLD_HANDOFF_CHECKPOINT_ORDER") s
checkpoint_bound h w stage participant job (some b) s =
    if s.closed
      || not (handles_eq participant job s.bound_handles)
      || not (stage_allowed stage s.next)
    then refuse w (value_error "HOLD_HANDOFF_CHECKPOINT_ORDER") s
    else checkpoint_tried h w stage participant job b s (checkpoint_ready w s)

unfoldable pub checkpoint :
    Host
    → World
    → String
    → ℤ
    → ℤ
    → WindowsHandoffSession
    → Result WriterSnapshot × WindowsHandoffSession
checkpoint h w stage participant job s =
    if not w.own_thread
    then (
      err (value_error "HOLD_HANDOFF_SESSION_THREAD_CHANGED"),
      held "HOLD_HANDOFF_SESSION_THREAD_CHANGED" s,
    )
    else checkpoint_bound h w stage participant job s.binding s
