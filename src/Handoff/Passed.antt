-- ===== src/Handoff/Passed.antt =====
-- What a checkpoint that `WindowsHandoffSession` lets pass has seen.
use coordination_loop_harnes.Base.{
  ◌+◌, Bool, true, false, not, ◌||◌, Option, none, some, String, str_eq, Result, ok, err, Exn, ◌>>◌,
  if◌then◌else◌, ◌≡◌, refl, ◌∙◌, arith, >>=-eq-ok,
}
use coordination_loop_harnes.Base.Int.{ℤ}
use coordination_loop_harnes.Util.Host.{Host}
use coordination_loop_harnes.Windows.Writer.{WindowsWriterBinding, WriterSnapshot}
use coordination_loop_harnes.Handoff.Inspected.{Inspected, inspected}
use coordination_loop_harnes.Handoff.Wire.{checkpoint_frame, ack_frame}
use coordination_loop_harnes.Handoff.Inspect.{inspect}
use coordination_loop_harnes.Handoff.Session.{
  WindowsHandoffSession, World, close, raised, answered, exchange,
}
use coordination_loop_harnes.Handoff.Calls.{failed, failed-ok, else-ok}
use coordination_loop_harnes.Handoff.Checkpoint.{
  checkpoint, checkpoint_bound, checkpoint_tried, checkpoint_ready, finish, advanced, handles_eq,
  stage_allowed,
}

raised_fails : (A : Type 0) (e : Exn) (r : Result (Unit {0})) → failed (raised {A = A} e r) ≡ true
raised_fails A e (ok _) = refl
raised_fails A e (err _) = refl

answered-ok :
    {A : Type 0} (w : World) (r : Result A) (s done : WindowsHandoffSession) {v : A}
    → (answered w r s done).0 ≡ ok v
    → (r ≡ ok v) × ((answered w r s done).1 ≡ done)
answered-ok w (ok x) s done k = (k, refl)
answered-ok {A = A} w (err e) s done k = absurd (failed-ok _ (raised_fails A e (close w s).0) k)

-- A checkpoint that passed: the session is open, bound, with these handles, the stage is a watchdog
-- or the next of the order, the evidence is that of the bound writer, and the peer acknowledged it.
pub record Passed (h : Host) (w : World) (stage : String) (participant job : ℤ)
    (s : WindowsHandoffSession) : Type 0 where
  own_thread : w.own_thread ≡ true
  pub is_open : s.closed ≡ false
  pub binding : WindowsWriterBinding
  bound : s.binding ≡ some binding
  same_handles : handles_eq participant job s.bound_handles ≡ true
  pub in_turn : stage_allowed stage s.next ≡ true
  inspection : Inspected w.sight binding s.client_deadline
  acknowledged :
      exchange h w
        (checkpoint_frame s.handoff_digest stage binding)
        (ack_frame s.handoff_digest stage)
        "HOLD_HANDOFF_CHECKPOINT_ACK_MISMATCH"
        s.request
      ≡ ok tt

-- Where it left the session.
unfoldable pub After : String → WindowsHandoffSession → WindowsHandoffSession → Type 0
After stage s out =
    (out.next ≡ (if str_eq stage "watchdog" then s.next else s.next + 1))
    × (out.closed ≡ str_eq stage "dag_ack")

pub closed_after :
    (w : World) (s : WindowsHandoffSession)
    → w.own_thread ≡ true
    → s.closed ≡ false
    → ((close w s).1.next ≡ s.next) × ((close w s).1.closed ≡ true)
unfolding close
closed_after w s own o = ground arith

-- The end of a checkpoint, which closes the session after the last stage.
ending :
    (w : World) (v x : WriterSnapshot) (s : WindowsHandoffSession) (last : Bool)
    → w.own_thread ≡ true
    → s.closed ≡ false
    → (if last then answered w ((close w s).0 >> ok v) (close w s).1 (close w s).1 else (ok v, s)).0
      ≡ ok x
    → ((if last
          then answered w ((close w s).0 >> ok v) (close w s).1 (close w s).1
          else (ok v, s)).1.next
        ≡ s.next)
      × ((if last
            then answered w ((close w s).0 >> ok v) (close w s).1 (close w s).1
            else (ok v, s)).1.closed
          ≡ last)
ending w v x s true own o k =
    let same = (answered-ok w ((close w s).0 >> ok v) (close w s).1 (close w s).1 k).1 in
    let shut = closed_after w s own o in
    ((λ i. (same i).next) ∙ shut.0, (λ i. (same i).closed) ∙ shut.1)
ending w v x s false own o k = (refl, o)

finish-After :
    (w : World) (stage : String) (r : Result WriterSnapshot) (s : WindowsHandoffSession)
    (x : WriterSnapshot)
    → w.own_thread ≡ true
    → s.closed ≡ false
    → (finish w stage r s).0 ≡ ok x
    → ((v : WriterSnapshot) × (r ≡ ok v)) × After stage s (finish w stage r s).1
unfolding After
finish-After w stage (err e) s x own o k =
    absurd (failed-ok _ (raised_fails WriterSnapshot e (close w s).0) k)
finish-After w stage (ok v) s x own o k =
    let end = ending w v x (advanced stage s) (str_eq stage "dag_ack") own ahead k in
    ((v, refl), (end.0 ∙ counted, end.1))
  where
    ahead : (advanced stage s).closed ≡ false
    ahead = ground arith

    counted : (advanced stage s).next ≡ (if str_eq stage "watchdog" then s.next else s.next + 1)
    counted = ground arith

module _ (h : Host) (w : World) (stage : String) (participant job : ℤ) where
  tried_passed :
      (b : WindowsWriterBinding) (s : WindowsHandoffSession) (r : Result (Unit {0}))
      (x : WriterSnapshot)
      → w.own_thread ≡ true
      → s.closed ≡ false
      → (checkpoint_tried h w stage participant job b s r).0 ≡ ok x
      → Inspected w.sight b s.client_deadline
        × (exchange h w
              (checkpoint_frame s.handoff_digest stage b)
              (ack_frame s.handoff_digest stage)
              "HOLD_HANDOFF_CHECKPOINT_ACK_MISMATCH"
              s.request
            ≡ ok tt)
        × After stage s (checkpoint_tried h w stage participant job b s r).1
  unfolding After
  tried_passed b s (err e) x own o k =
      absurd (failed-ok _ (raised_fails WriterSnapshot e (close w s).0) k)
  tried_passed b s (ok _) x own o k =
      let d = (inspect w.sight b participant job s.client_deadline).1 in
      let ((v, q), after) = finish-After w stage _ (record s { client_deadline = d }) x own o k in
      let (snapshot, looks, q1) =
        >>=-eq-ok (inspect w.sight b participant job s.client_deadline).0 _ q in
      let (_, sent, _) =
        >>=-eq-ok
          (exchange h w (checkpoint_frame s.handoff_digest stage b)
            (ack_frame s.handoff_digest stage) "HOLD_HANDOFF_CHECKPOINT_ACK_MISMATCH" s.request)
          _ q1 in
      (inspected w.sight b participant job s.client_deadline snapshot looks, sent, after)

  else-After :
      (s : WindowsHandoffSession) (c : Bool) (x y : Result WriterSnapshot × WindowsHandoffSession)
      → c ≡ false
      → After stage s y.1
      → After stage s (if c then x else y).1
  else-After s true x y e a = absurd cc
  else-After s false x y e a = a

  bound-Passed :
      (o : Option WindowsWriterBinding) (s : WindowsHandoffSession) (x : WriterSnapshot)
      → s.binding ≡ o
      → w.own_thread ≡ true
      → (checkpoint_bound h w stage participant job o s).0 ≡ ok x
      → Passed h w stage participant job s
        × After stage s (checkpoint_bound h w stage participant job o s).1
  bound-Passed none s x e own k =
      absurd (failed-ok _ (raised_fails WriterSnapshot _ (close w s).0) k)
  bound-Passed (some b) s x e own k =
      let (fine, k1) =
        else-ok
          (s.closed
            || not (handles_eq participant job s.bound_handles)
            || not (stage_allowed stage s.next))
          _ _ (raised_fails WriterSnapshot _ (close w s).0) k in
      let (opened, same, turn) = all_false _ _ _ fine in
      let (looks, sent, after) = tried_passed b s (checkpoint_ready w s) x own opened k1 in
      (
        record {
          own_thread = own;
          is_open = opened;
          binding = b;
          bound = e;
          same_handles = same;
          in_turn = turn;
          inspection = looks;
          acknowledged = sent;
        },
        else-After s _ _ _ fine after,
      )
    where
      all_false :
          (a b c : Bool) → (a || not b || not c) ≡ false → (a ≡ false) × (b ≡ true) × (c ≡ true)
      all_false a b c q = ground arith

  pub checkpoint-Passed :
      (s : WindowsHandoffSession) (x : WriterSnapshot)
      → (checkpoint h w stage participant job s).0 ≡ ok x
      → Passed h w stage participant job s
        × After stage s (checkpoint h w stage participant job s).1
  unfolding checkpoint
  checkpoint-Passed s x k =
      let (own, k1) = else-ok (not w.own_thread) _ _ refl k in
      let (facts, after) = bound-Passed s.binding s x refl (present _ own) k1 in
      (facts, else-After s _ _ _ own after)
    where
      present : (b : Bool) → not b ≡ false → b ≡ true
      present b q = ground arith
