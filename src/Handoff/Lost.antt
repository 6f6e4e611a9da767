-- ===== src/Handoff/Lost.antt =====
-- A session that fails before its last stage leaves the deadline on hold.
use coordination_loop_harnes.Base.{
  ltb, if◌then◌else◌, str_eq, Bool, true, false, ◌||◌, List, [], ◌∷◌, String, is_some, Result, ok,
  err, Exn, ◌≡◌, refl, arith, Option, none, some, ℕ, not,
}
use coordination_loop_harnes.Base.Int.{ℤ}
use coordination_loop_harnes.Util.Host.{Host}
use coordination_loop_harnes.LocalTime.Deadline.{invalidate}
use coordination_loop_harnes.Windows.Writer.{WindowsWriterBinding, WriterSnapshot}
use coordination_loop_harnes.Handoff.Session.{
  WindowsHandoffSession, World, held, close, refuse, answered, out_of_order, pre_spawn_watchdog,
  bind, bind_tried,
}
use coordination_loop_harnes.Handoff.Checkpoint.{
  checkpoint, checkpoint_bound, checkpoint_tried, finish, advanced, handles_eq, stage_allowed,
}
use coordination_loop_harnes.Handoff.Calls.{
  Call, failed, pre_spawns, binds, checkpoints, closes, step, run, raises,
}

-- The deadline is on hold, unless the session is through its last stage.
pub IsHeld : WindowsHandoffSession → Type 0
IsHeld s = ltb s.next 4 ≡ true → is_some s.client_deadline.hold ≡ true

ClosedIsHeld : WindowsHandoffSession → Type 0
ClosedIsHeld s = s.closed ≡ true → IsHeld s

close-IsHeld : (w : World) (s : WindowsHandoffSession) → ClosedIsHeld s → IsHeld (close w s).1
unfolding close invalidate IsHeld ClosedIsHeld
close-IsHeld w s i = ground arith

still_held : (s : WindowsHandoffSession) → IsHeld s → ClosedIsHeld s
unfolding ClosedIsHeld
still_held s i _ = i

open_is_fine : (s : WindowsHandoffSession) → s.closed ≡ false → ClosedIsHeld s
unfolding ClosedIsHeld IsHeld
open_is_fine s o = ground arith

answered-ClosedIsHeld {ℓ} :
    {A : Type ℓ} (w : World) (r : Result A) (s done : WindowsHandoffSession)
    → ClosedIsHeld s
    → ClosedIsHeld done
    → ClosedIsHeld (answered w r s done).1
answered-ClosedIsHeld w (err e) s done i j = still_held _ (close-IsHeld w s i)
answered-ClosedIsHeld w (ok v) s done i j = j

failed-IsHeld {ℓ} :
    {A : Type ℓ} (w : World) (r : Result A) (s done : WindowsHandoffSession)
    → ClosedIsHeld s
    → failed (answered w r s done).0 ≡ true
    → IsHeld (answered w r s done).1
failed-IsHeld w (err e) s done i k = close-IsHeld w s i
failed-IsHeld w (ok v) s done i k = absurd cc

in_order_open :
    (w : World) (s : WindowsHandoffSession) → out_of_order w s ≡ false → s.closed ≡ false
unfolding out_of_order
in_order_open w s k = ground arith

-- What a call leaves: a closed session is held, and so is one whose call raised.
record Settled {A : Type 0} (out : Result A × WindowsHandoffSession) : Type 0 where
  closed_held : ClosedIsHeld out.1
  failed_held : failed out.0 ≡ true → IsHeld out.1

refuse-Settled :
    {A : Type 0} (w : World) (e : Exn) (s : WindowsHandoffSession)
    → ClosedIsHeld s
    → Settled {A = A} (refuse w e s)
refuse-Settled w e s i = record {
  closed_held = still_held _ (close-IsHeld w s i);
  failed_held = λ _. close-IsHeld w s i;
}

answered-Settled :
    {A : Type 0} (w : World) (r : Result A) (s done : WindowsHandoffSession)
    → ClosedIsHeld s
    → ClosedIsHeld done
    → Settled (answered w r s done)
answered-Settled w r s done i j = record {
  closed_held = answered-ClosedIsHeld w r s done i j;
  failed_held = failed-IsHeld w r s done i;
}

if-Settled :
    {A : Type 0} (b : Bool) {x y : Result A × WindowsHandoffSession}
    → Settled x
    → (b ≡ false → Settled y)
    → Settled (if b then x else y)
if-Settled true p q = p
if-Settled false p q = q refl

no_third : (a b c : Bool) → (a || b || c) ≡ false → a ≡ false
no_third a b c k = ground arith

held-Settled :
    {A : Type 0} {r : Result A} (reason : String) (s : WindowsHandoffSession)
    → Settled (r, held reason s)
unfolding invalidate IsHeld ClosedIsHeld
held-Settled reason s = record { closed_held = λ _. kept; failed_held = λ _. kept }
  where
    kept : IsHeld (held reason s)
    kept = ground arith

module _ (h : Host) (w : World) where
  pre_spawn_watchdog-Settled :
      (s : WindowsHandoffSession) → ClosedIsHeld s → Settled (pre_spawn_watchdog h w s)
  unfolding pre_spawn_watchdog
  pre_spawn_watchdog-Settled s i =
      if-Settled (out_of_order w s) (refuse-Settled w _ s i) (λ _. answered-Settled w _ s s i i)

  bind_tried-Settled :
      (b : WindowsWriterBinding) (participant job : ℤ) (s : WindowsHandoffSession)
      (r : Result (ℕ × ℕ))
      → s.closed ≡ false
      → Settled (bind_tried h w b participant job s r)
  bind_tried-Settled b participant job s (err e) o = refuse-Settled w e s (open_is_fine s o)
  bind_tried-Settled b participant job s (ok native) o =
      answered-Settled w _ _ _ (open_is_fine _ o) (open_is_fine _ o)

  bind-Settled :
      (b : WindowsWriterBinding) (participant job : ℤ) (s : WindowsHandoffSession)
      → ClosedIsHeld s
      → Settled (bind h w b participant job s)
  unfolding bind
  bind-Settled b participant job s i =
      if-Settled (out_of_order w s) (refuse-Settled w _ s i)
        (λ fine. bind_tried-Settled b participant job s _ (in_order_open w s fine))

  finish-Settled :
      (stage : String) (r : Result WriterSnapshot) (s : WindowsHandoffSession)
      → s.closed ≡ false
      → Settled (finish w stage r s)
  finish-Settled stage (err e) s o = refuse-Settled w e s (open_is_fine s o)
  finish-Settled stage (ok v) s o =
      if-Settled (str_eq stage "dag_ack") (answered-Settled w _ _ _ shut shut)
        (λ _. record { closed_held = open_is_fine _ ahead; failed_held = λ k. absurd cc })
    where
      ahead : (advanced stage s).closed ≡ false
      ahead = ground arith

      shut : ClosedIsHeld (close w (advanced stage s)).1
      shut = still_held _ (close-IsHeld w (advanced stage s) (open_is_fine _ ahead))

  checkpoint_tried-Settled :
      (stage : String) (participant job : ℤ) (b : WindowsWriterBinding) (s : WindowsHandoffSession)
      (r : Result (Unit {0}))
      → s.closed ≡ false
      → Settled (checkpoint_tried h w stage participant job b s r)
  checkpoint_tried-Settled stage participant job b s (err e) o =
      refuse-Settled w e s (open_is_fine s o)
  checkpoint_tried-Settled stage participant job b s (ok _) o = finish-Settled stage _ _ o

  checkpoint_bound-Settled :
      (stage : String) (participant job : ℤ) (b : Option WindowsWriterBinding)
      (s : WindowsHandoffSession)
      → ClosedIsHeld s
      → Settled (checkpoint_bound h w stage participant job b s)
  checkpoint_bound-Settled stage participant job none s i = refuse-Settled w _ s i
  checkpoint_bound-Settled stage participant job (some b) s i =
      if-Settled
        (s.closed
          || not (handles_eq participant job s.bound_handles)
          || not (stage_allowed stage s.next))
        (refuse-Settled w _ s i)
        (λ fine. checkpoint_tried-Settled stage participant job b s _ (no_third _ _ _ fine))

  checkpoint-Settled :
      (stage : String) (participant job : ℤ) (s : WindowsHandoffSession)
      → ClosedIsHeld s
      → Settled (checkpoint h w stage participant job s)
  unfolding checkpoint
  checkpoint-Settled stage participant job s i =
      if-Settled (not w.own_thread) (held-Settled _ s)
        (λ _. checkpoint_bound-Settled stage participant job s.binding s i)

step_settled :
    (h : Host) (c : Call) (s : WindowsHandoffSession)
    → ClosedIsHeld s
    → ClosedIsHeld (step h c s) × (raises h c s ≡ true → IsHeld (step h c s))
unfolding step raises
step_settled h (pre_spawns w) s i =
    let t = pre_spawn_watchdog-Settled h w s i in (t.closed_held, t.failed_held)
step_settled h (binds w b participant job) s i =
    let t = bind-Settled h w b participant job s i in (t.closed_held, t.failed_held)
step_settled h (checkpoints w stage participant job) s i =
    let t = checkpoint-Settled h w stage participant job s i in (t.closed_held, t.failed_held)
step_settled h (closes w) s i = let t = close-IsHeld w s i in (still_held _ t, λ _. t)

run_settled :
    (h : Host) (cs : List Call) (s : WindowsHandoffSession)
    → ClosedIsHeld s
    → ClosedIsHeld (run h cs s)
unfolding run
run_settled h [] s i = i
run_settled h (c ∷ cs) s i = run_settled h cs (step h c s) (step_settled h c s i).0

-- Whatever calls an open session gets, in any order and whatever each of them meets: once it is
-- closed, and whenever a call raises, the deadline of the client is on hold, unless the session is
-- through its last stage.
pub lost_session_holds :
    (h : Host) (cs : List Call) (c : Call) (s : WindowsHandoffSession)
    → s.closed ≡ false
    → ((run h cs s).closed ≡ true → IsHeld (run h cs s))
      × (raises h c (run h cs s) ≡ true → IsHeld (step h c (run h cs s)))
unfolding ClosedIsHeld
lost_session_holds h cs c s o =
    let i = run_settled h cs s (open_is_fine s o) in (i, (step_settled h c (run h cs s) i).1)
