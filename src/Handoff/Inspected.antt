-- ===== src/Handoff/Inspected.antt =====
-- What an inspection of the writer that passes has seen.
use coordination_loop_harnes.Base.{◌||◌, Result, ok, err, ◌>>=◌, ◌≡◌, refl, >>=-eq-ok}
use coordination_loop_harnes.Base.Int.{ℤ, pos, eqb_ℤ}
use coordination_loop_harnes.LocalTime.Sample.{HostSample}
use coordination_loop_harnes.LocalTime.Deadline.{LocalDeadline, check}
use coordination_loop_harnes.Windows.Security.{TokenSecurity}
use coordination_loop_harnes.Windows.Writer.{
  JobSnapshot, WindowsWriterBinding, WriterSnapshot, check_writer_snapshot,
}
use coordination_loop_harnes.Windows.WriterFacts.{Contained, check_writer_snapshot-Contained}
use coordination_loop_harnes.Handoff.Inspect.{Sight, inspect, looked, rechecked, settled}
use coordination_loop_harnes.Handoff.Calls.{else-ok}

-- An inspection that passes: both checks of the deadline do, and the evidence is that of the bound
-- writer in a contained job.
pub record Inspected (w : Sight) (b : WindowsWriterBinding) (d : LocalDeadline) : Type 0 where
  token : TokenSecurity
  job : JobSnapshot
  first_sample : HostSample
  second_sample : HostSample
  seen : w.evidence ≡ ok (token, job)
  first_check : (check "watchdog" d.intent w.first_read d).0 ≡ ok first_sample
  second_check :
      (check "watchdog"
        (check "watchdog" d.intent w.first_read d).1.intent
        w.second_read
        (check "watchdog" d.intent w.first_read d).1).0
      ≡ ok second_sample
  contained : Contained token job b (check "watchdog" d.intent w.first_read d).1.intent

settled-ok :
    (v x : WriterSnapshot) (r : Result HostSample × LocalDeadline)
    → (settled v r).0 ≡ ok x
    → (now : HostSample) × (r.0 ≡ ok now)
settled-ok v x (ok now, d) k = (now, refl)
settled-ok v x (err e, d) k = absurd cc

rechecked-ok :
    (w : Sight) (r : Result WriterSnapshot) (d : LocalDeadline) (x : WriterSnapshot)
    → (rechecked w r d).0 ≡ ok x
    → ((v : WriterSnapshot) × (r ≡ ok v))
      × ((now : HostSample) × ((check "watchdog" d.intent w.second_read d).0 ≡ ok now))
rechecked-ok w (err e) d x k = absurd cc
rechecked-ok w (ok v) d x k = ((v, refl), settled-ok v x _ k)

looked-ok :
    (w : Sight) (b : WindowsWriterBinding) (r : Result HostSample × LocalDeadline)
    (x : WriterSnapshot)
    → (looked w b r).0 ≡ ok x
    → ((now : HostSample) × (r.0 ≡ ok now))
      × ((rechecked w
            (w.evidence >>= λ seen. check_writer_snapshot seen.0 seen.1 b r.1.intent)
            r.1).0
          ≡ ok x)
looked-ok w b (ok now, d) x k = ((now, refl), k)
looked-ok w b (err e, d) x k = absurd cc

pub inspected :
    (w : Sight) (b : WindowsWriterBinding) (participant job : ℤ) (d : LocalDeadline)
    (x : WriterSnapshot)
    → (inspect w b participant job d).0 ≡ ok x
    → Inspected w b d
unfolding inspect
inspected w b participant job d x k =
    let (_, k0) = else-ok (eqb_ℤ participant (pos 0) || eqb_ℤ job (pos 0)) _ _ refl k in
    let ((now, first), k1) = looked-ok w b (check "watchdog" d.intent w.first_read d) x k0 in
    let ((v, seen), (later, second)) = rechecked-ok w _ _ x k1 in
    let ((token, state), evidence, passed) = >>=-eq-ok w.evidence _ seen in
    record {
      token = token;
      job = state;
      first_sample = now;
      second_sample = later;
      seen = evidence;
      first_check = first;
      second_check = second;
      contained = (check_writer_snapshot-Contained token state b _ v passed).0;
    }
