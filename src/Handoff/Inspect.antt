-- ===== src/Handoff/Inspect.antt =====
-- windows_writer.py: `WindowsWriterInspector.observe`. What the native queries answer is an
-- argument, as is what the clock shows at the two checks of the deadline.
use coordination_loop_harnes.Base.{◌||◌, Result, ok, err, value_error, ◌>>=◌, if◌then◌else◌}
use coordination_loop_harnes.Base.Int.{ℤ, pos, eqb_ℤ}
use coordination_loop_harnes.LocalTime.Sample.{HostSample}
use coordination_loop_harnes.LocalTime.Deadline.{LocalDeadline, Reading, check, invalidate}
use coordination_loop_harnes.Windows.Security.{TokenSecurity}
use coordination_loop_harnes.Windows.Writer.{
  JobSnapshot, WindowsWriterBinding, WriterSnapshot, check_writer_snapshot,
}

-- What a look at the process and its job meets.
pub record Sight : Type 0 where
  pub first_read : Reading
  pub evidence : Result (TokenSecurity × JobSnapshot)
  pub second_read : Reading

abbrev pub lost : LocalDeadline → LocalDeadline
lost d = invalidate "HOLD_WRITER_OR_JOB_CONTINUITY_LOST" d

-- After the second check of the deadline.
abbrev pub settled :
    WriterSnapshot → Result HostSample × LocalDeadline → Result WriterSnapshot × LocalDeadline
settled v (ok now, d) = (ok v, d)
settled v (err e, d) = (err e, lost d)

abbrev pub rechecked :
    Sight → Result WriterSnapshot → LocalDeadline → Result WriterSnapshot × LocalDeadline
rechecked w (err e) d = (err e, lost d)
rechecked w (ok v) d = settled v (check "watchdog" d.intent w.second_read d)

-- After the first check of the deadline: `_observe`, and the second check.
abbrev pub looked :
    Sight
    → WindowsWriterBinding
    → Result HostSample × LocalDeadline
    → Result WriterSnapshot × LocalDeadline
looked w b (err e, d) = (err e, d)
looked w b (ok now, d) =
    rechecked w (w.evidence >>= λ seen. check_writer_snapshot seen.0 seen.1 b d.intent) d

unfoldable pub inspect :
    Sight → WindowsWriterBinding → ℤ → ℤ → LocalDeadline → Result WriterSnapshot × LocalDeadline
inspect w b participant job d =
    if eqb_ℤ participant (pos 0) || eqb_ℤ job (pos 0)
    then (
      err (value_error "HOLD_OWNED_PROCESS_AND_JOB_HANDLES_REQUIRED"),
      invalidate "HOLD_OWNED_PROCESS_OR_JOB_HANDLE_LOST" d,
    )
    else looked w b (check "watchdog" d.intent w.first_read d)
