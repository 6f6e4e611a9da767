-- ===== src/LocalTime/Latch.antt =====
-- Histories of calls on one deadline: a refusal is final, and the issuer claim is spent once.
use coordination_loop_harnes.Base.{
  true, some, String, List, [], ◌∷◌, ◌≡◌, refl, err, Exn, value_error, arith, ◌∙◌, sym,
}
use coordination_loop_harnes.LocalTime.Deadline.{
  LocalIntent, LocalDeadline, Reading, check, invalidate, consume_issuer_claim,
}

pub data Call : Type 0 where
  checks : String → LocalIntent → Reading → Call
  invalidates : String → Call
  consumes : Call

-- The object after a call, whether the call returned or raised.
unfoldable pub step : Call → LocalDeadline → LocalDeadline
step (checks checkpoint retained read) d = (check checkpoint retained read d).1
step (invalidates reason) d = invalidate reason d
step consumes d = (consume_issuer_claim d).1

unfoldable pub run : List Call → LocalDeadline → LocalDeadline
run [] d = d
run (c ∷ cs) d = run cs (step c d)

step_held : (c : Call) (d : LocalDeadline) (h : String) → d.hold ≡ some h → (step c d).hold ≡ some h
unfolding step check invalidate consume_issuer_claim
step_held (checks checkpoint retained read) d h e = ground arith
step_held (invalidates reason) d h e = ground arith
step_held consumes d h e = ground arith

pub run_held :
    (cs : List Call) (d : LocalDeadline) (h : String) → d.hold ≡ some h → (run cs d).hold ≡ some h
unfolding run
run_held [] d h e = e
run_held (c ∷ cs) d h e = run_held cs (step c d) h (step_held c d h e)

pub intent-step : (c : Call) (d : LocalDeadline) → (step c d).intent ≡ d.intent
unfolding step check invalidate consume_issuer_claim
intent-step (checks checkpoint retained read) d = ground arith
intent-step (invalidates reason) d = refl
intent-step consumes d = ground arith

pub intent-run : (cs : List Call) (d : LocalDeadline) → (run cs d).intent ≡ d.intent
unfolding run
intent-run [] d = refl
intent-run (c ∷ cs) d = intent-run cs (step c d) ∙ intent-step c d

refusal_stored :
    (checkpoint : String) (retained : LocalIntent) (read : Reading) (d : LocalDeadline) (e : Exn)
    → (check checkpoint retained read d).0 ≡ err e
    → (h : String) × (e ≡ value_error h) × ((check checkpoint retained read d).1.hold ≡ some h)
unfolding check
refusal_stored checkpoint retained read d e p = ground arith

held_refuses :
    (checkpoint : String) (retained : LocalIntent) (read : Reading) (d : LocalDeadline) (h : String)
    → d.hold ≡ some h
    → (check checkpoint retained read d).0 ≡ err (value_error h)
unfolding check
held_refuses checkpoint retained read d h e = ground arith

-- If a check of a deadline raises, then after any further calls, whatever they are and whatever
-- the clock then shows, every check raises that same hold.
pub refused_forever :
    (checkpoint : String) (retained : LocalIntent) (read : Reading) (d : LocalDeadline) (e : Exn)
    (cs : List Call) (checkpoint' : String) (retained' : LocalIntent) (read' : Reading)
    → (check checkpoint retained read d).0 ≡ err e
    → (check checkpoint' retained' read' (run cs (check checkpoint retained read d).1)).0 ≡ err e
refused_forever checkpoint retained read d e cs checkpoint' retained' read' p =
    let (h, q, stored) = refusal_stored checkpoint retained read d e p in
    held_refuses checkpoint' retained' read' _ h (run_held cs _ h stored) ∙ (λ i. err (sym q i))

step_consumed :
    (c : Call) (d : LocalDeadline)
    → d.issuer_claim_consumed ≡ true
    → (step c d).issuer_claim_consumed ≡ true
unfolding step check invalidate consume_issuer_claim
step_consumed (checks checkpoint retained read) d e = ground arith
step_consumed (invalidates reason) d e = e
step_consumed consumes d e = ground arith

run_consumed :
    (cs : List Call) (d : LocalDeadline)
    → d.issuer_claim_consumed ≡ true
    → (run cs d).issuer_claim_consumed ≡ true
unfolding run
run_consumed [] d e = e
run_consumed (c ∷ cs) d e = run_consumed cs (step c d) (step_consumed c d e)

consume_consumed : (d : LocalDeadline) → (consume_issuer_claim d).1.issuer_claim_consumed ≡ true
unfolding consume_issuer_claim
consume_consumed d = ground arith

consumed_refuses :
    (d : LocalDeadline)
    → d.issuer_claim_consumed ≡ true
    → (consume_issuer_claim d).0 ≡ err (value_error "HOLD_ISSUER_INTENT_ALREADY_ATTEMPTED")
unfolding consume_issuer_claim
consumed_refuses d e = rw e

-- After one attempt to take the issuer claim, successful or not, and any further calls, every
-- other attempt raises.
pub claim_spent_once :
    (d : LocalDeadline) (cs : List Call)
    → (consume_issuer_claim (run cs (consume_issuer_claim d).1)).0
      ≡ err (value_error "HOLD_ISSUER_INTENT_ALREADY_ATTEMPTED")
claim_spent_once d cs = consumed_refuses _ (run_consumed cs _ (consume_consumed d))
