-- ===== src/Handoff/Steps.antt =====
-- Where the calls on a session that are no passing checkpoints leave it.
use coordination_loop_harnes.Base.{
  ℕ, Bool, true, false, not, ◌||◌, Option, none, some, String, str_eq, Result, ok, err, Exn,
  value_error, if◌then◌else◌, ◌≡◌, refl, ◌∙◌, arith, ◌⊎◌, inl, inr, ◌>>◌,
}
use coordination_loop_harnes.Base.Int.{ℤ}
use coordination_loop_harnes.Util.Host.{Host}
use coordination_loop_harnes.Windows.Writer.{WindowsWriterBinding, WriterSnapshot}
use coordination_loop_harnes.Handoff.Session.{
  WindowsHandoffSession, World, close, held, refuse, answered, out_of_order, pre_spawn_watchdog,
  bind, bind_tried, bind_handles,
}
use coordination_loop_harnes.Handoff.Checkpoint.{
  stage_allowed, handles_eq, advanced, finish, checkpoint_ready, checkpoint_tried, checkpoint_bound,
  checkpoint,
}
use coordination_loop_harnes.Handoff.Passed.{closed_after}

-- A call that is no passing checkpoint stays at the stage, or closes the session, for good.
pub record Stays (s out : WindowsHandoffSession) : Type 0 where
  pub same_or_closed : (out.next ≡ s.next) ⊎ (out.closed ≡ true)
  pub stays_closed : s.closed ≡ true → out.closed ≡ true

pub close-Stays : (w : World) (s : WindowsHandoffSession) → Stays s (close w s).1
unfolding close
close-Stays w s = record { same_or_closed = inl next; stays_closed = shut }
  where
    next : (close w s).1.next ≡ s.next
    next = ground arith

    shut : s.closed ≡ true → (close w s).1.closed ≡ true
    shut e = ground arith

trans-Stays : (s t u : WindowsHandoffSession) → Stays s t → Stays t u → Stays s u
trans-Stays s t u a b = record {
  same_or_closed = elim a.same_or_closed [
    | inr shut ↦ inr (b.stays_closed shut)
    | inl same ↦ elim b.same_or_closed [ inr shut ↦ inr shut | inl again ↦ inl (again ∙ same) ]
  ];
  stays_closed = λ e. b.stays_closed (a.stays_closed e);
}

answered-Stays :
    {A : Type 0} (w : World) (r : Result A) (o s done : WindowsHandoffSession)
    → Stays o s
    → Stays o done
    → Stays o (answered w r s done).1
answered-Stays w (err e) o s done i j = trans-Stays o s _ i (close-Stays w s)
answered-Stays w (ok v) o s done i j = j

-- `Stays`, said of the answer too.
record Leaves {A : Type 0} (s : WindowsHandoffSession) (out : Result A × WindowsHandoffSession)
    : Type 0 where
  stays : Stays s out.1

answered-Leaves :
    {A : Type 0} (w : World) (r : Result A) (o s done : WindowsHandoffSession)
    → Stays o s
    → Stays o done
    → Leaves o (answered w r s done)
answered-Leaves w r o s done i j = record { stays = answered-Stays w r o s done i j }

if-Stays :
    {A : Type 0} {s : WindowsHandoffSession} (b : Bool) (x y : Result A × WindowsHandoffSession)
    → Stays s x.1
    → (b ≡ false → Stays s y.1)
    → Stays s (if b then x else y).1
if-Stays true x y i j = i
if-Stays false x y i j = j refl

unmoved : (s : WindowsHandoffSession) → Stays s s
unmoved s = record { same_or_closed = inl refl; stays_closed = λ e. e }

likewise : (s out : WindowsHandoffSession) → out.next ≡ s.next → out.closed ≡ s.closed → Stays s out
likewise s out p q = record { same_or_closed = inl p; stays_closed = λ e. q ∙ e }

module _ (h : Host) (w : World) where
  pub pre_spawn_watchdog-Stays : (s : WindowsHandoffSession) → Stays s (pre_spawn_watchdog h w s).1
  unfolding pre_spawn_watchdog
  pre_spawn_watchdog-Stays s =
      if-Stays (out_of_order w s) _ _ (close-Stays w s)
        (λ _. answered-Stays w _ s s s (unmoved s) (unmoved s))

  bind_tried-Leaves :
      (b : WindowsWriterBinding) (participant job : ℤ) (s : WindowsHandoffSession)
      (r : Result (ℕ × ℕ))
      → Leaves s (bind_tried h w b participant job s r)
  bind_tried-Leaves b participant job s (err e) = record { stays = close-Stays w s }
  bind_tried-Leaves b participant job s (ok native) =
      answered-Leaves w _ s _ _ (likewise s _ refl refl) (likewise s _ refl refl)

  pub bind-Stays :
      (b : WindowsWriterBinding) (participant job : ℤ) (s : WindowsHandoffSession)
      → Stays s (bind h w b participant job s).1
  unfolding bind
  bind-Stays b participant job s =
      if-Stays (out_of_order w s) _ _ (close-Stays w s)
        (λ _. (bind_tried-Leaves b participant job s (bind_handles w b participant job s)).stays)

  failed_end :
      (v : WriterSnapshot) (s t : WindowsHandoffSession) (last : Bool) (e : Exn)
      → w.own_thread ≡ true
      → s.closed ≡ false
      → t.closed ≡ false
      → (if last
          then answered w ((close w s).0 >> ok v) (close w s).1 (close w s).1
          else (ok v, s)).0
        ≡ err e
      → Stays t
          (if last
            then answered w ((close w s).0 >> ok v) (close w s).1 (close w s).1
            else (ok v, s)).1
  failed_end v s t true e own o p k =
      let shut = (closed_after w s own o).1 in
      let ended =
        answered-Stays w ((close w s).0 >> ok v) (close w s).1 (close w s).1 (close w s).1
          (unmoved _) (unmoved _) in
      record {
        same_or_closed = inr (ended.stays_closed shut);
        stays_closed = λ _. ended.stays_closed shut;
      }
  failed_end v s t false e own o p k = absurd cc

  finish-Stays :
      (stage : String) (r : Result WriterSnapshot) (s : WindowsHandoffSession) (e : Exn)
      → w.own_thread ≡ true
      → s.closed ≡ false
      → (finish w stage r s).0 ≡ err e
      → Stays s (finish w stage r s).1
  finish-Stays stage (err f) s e own o k = close-Stays w s
  finish-Stays stage (ok v) s e own o k =
      failed_end v (advanced stage s) s (str_eq stage "dag_ack") e own ahead o k
    where
      ahead : (advanced stage s).closed ≡ false
      ahead = ground arith

  tried-Stays :
      (stage : String) (participant job : ℤ) (b : WindowsWriterBinding) (s : WindowsHandoffSession)
      (r : Result (Unit {0})) (e : Exn)
      → w.own_thread ≡ true
      → s.closed ≡ false
      → (checkpoint_tried h w stage participant job b s r).0 ≡ err e
      → Stays s (checkpoint_tried h w stage participant job b s r).1
  tried-Stays stage participant job b s (err f) e own o k = close-Stays w s
  tried-Stays stage participant job b s (ok _) e own o k =
      trans-Stays s _ _ (likewise s _ refl refl) (finish-Stays stage _ _ e own o k)

  bound-Stays :
      (stage : String) (participant job : ℤ) (b : Option WindowsWriterBinding)
      (s : WindowsHandoffSession) (e : Exn)
      → w.own_thread ≡ true
      → (checkpoint_bound h w stage participant job b s).0 ≡ err e
      → Stays s (checkpoint_bound h w stage participant job b s).1
  bound-Stays stage participant job none s e own k = close-Stays w s
  bound-Stays stage participant job (some b) s e own k =
      late
        (s.closed
          || not (handles_eq participant job s.bound_handles)
          || not (stage_allowed stage s.next))
        k (opened _ _ _)
    where
      opened : (a b c : Bool) → (a || b || c) ≡ false → a ≡ false
      opened a b c q = ground arith

      late :
          (c : Bool)
          → (if c
              then refuse w (value_error "HOLD_HANDOFF_CHECKPOINT_ORDER") s
              else checkpoint_tried h w stage participant job b s (checkpoint_ready w s)).0
            ≡ err e
          → (c ≡ false → s.closed ≡ false)
          → Stays s
              (if c
                then refuse w (value_error "HOLD_HANDOFF_CHECKPOINT_ORDER") s
                else checkpoint_tried h w stage participant job b s (checkpoint_ready w s)).1
      late true q o = close-Stays w s
      late false q o = tried-Stays stage participant job b s _ e own (o refl) q

  pub checkpoint-Stays :
      (stage : String) (participant job : ℤ) (s : WindowsHandoffSession) (e : Exn)
      → (checkpoint h w stage participant job s).0 ≡ err e
      → Stays s (checkpoint h w stage participant job s).1
  unfolding checkpoint
  checkpoint-Stays stage participant job s e k = own w.own_thread refl k
    where
      own :
          (b : Bool)
          → w.own_thread ≡ b
          → (if not b
              then (
                err (value_error "HOLD_HANDOFF_SESSION_THREAD_CHANGED"),
                held "HOLD_HANDOFF_SESSION_THREAD_CHANGED" s,
              )
              else checkpoint_bound h w stage participant job s.binding s).0
            ≡ err e
          → Stays s
              (if not b
                then (
                  err (value_error "HOLD_HANDOFF_SESSION_THREAD_CHANGED"),
                  held "HOLD_HANDOFF_SESSION_THREAD_CHANGED" s,
                )
                else checkpoint_bound h w stage participant job s.binding s).1
      own true o q = bound-Stays stage participant job s.binding s e o q
      own false o q = likewise s _ refl refl
