-- ===== src/Handoff/Order.antt =====
-- The stages of a session pass in the order of `CHECKPOINT_ORDER`.
use coordination_loop_harnes.Base.{
  ℕ, zero, suc, ◌+◌, Bool, true, false, ◌&&◌, ◌||◌, List, [], ◌∷◌, ◌++◌, String, str_eq,
  if◌then◌else◌, ◌≡◌, refl, sym, ap, subst, ◌∙◌, arith, ◌⊎◌, inl, inr, Result-cases, eq_iff,
}
use coordination_loop_harnes.Base.Int.{ℤ}
use coordination_loop_harnes.Util.Host.{Host}
use coordination_loop_harnes.Handoff.Session.{checkpoint_order, WindowsHandoffSession, World}
use coordination_loop_harnes.Handoff.Checkpoint.{nth, is_stage, stage_allowed, checkpoint}
use coordination_loop_harnes.Handoff.Calls.{
  Call, pre_spawns, binds, checkpoints, closes, step, run, passes, stage_of, stages,
}
use coordination_loop_harnes.Handoff.Passed.{Passed, After, checkpoint-Passed}
use coordination_loop_harnes.Handoff.Steps.{
  Stays, close-Stays, pre_spawn_watchdog-Stays, bind-Stays, checkpoint-Stays,
}

abbrev pub take : ℕ → List String → List String
take zero xs = []
take (suc n) [] = []
take (suc n) (x ∷ xs) = x ∷ take n xs

-- The stages so far are those that `next` counts; a closed session may count one more.
record InOrder (passed : List String) (s : WindowsHandoffSession) : Type 0 where
  counted :
      (passed ≡ take s.next checkpoint_order)
      ⊎ ((s.closed ≡ true) × ((n : ℕ) × (passed ≡ take n checkpoint_order)))

append-nil : (xs : List String) → xs ++ [] ≡ xs
append-nil [] = refl
append-nil (x ∷ xs) = ap (λ l. x ∷ l) (append-nil xs)

append_assoc : (xs ys zs : List String) → (xs ++ ys) ++ zs ≡ xs ++ (ys ++ zs)
append_assoc [] ys zs = refl
append_assoc (x ∷ xs) ys zs = ap (λ l. x ∷ l) (append_assoc xs ys zs)

take-nth :
    (stage : String) (n : ℕ) (xs : List String)
    → is_stage stage (nth n xs) ≡ true
    → take n xs ++ (stage ∷ []) ≡ take (suc n) xs
take-nth stage n [] e = cc
take-nth stage zero (x ∷ xs) e = ap (λ y. y ∷ []) ((eq_iff stage x).0 e)
take-nth stage (suc n) (x ∷ xs) e = ap (λ l. x ∷ l) (take-nth stage n xs e)

Stays-InOrder :
    (passed : List String) (s out : WindowsHandoffSession)
    → Stays s out
    → InOrder passed s
    → InOrder (passed ++ []) out
Stays-InOrder passed s out k i =
    subst (λ l. InOrder l out) (sym (append-nil passed))
      record {
        counted = elim i.counted [
          | inr (shut, (n, e)) ↦ inr (k.stays_closed shut, (n, e))
          | inl e ↦ elim k.same_or_closed [
            | inl same ↦ inl (e ∙ ap (λ n. take n checkpoint_order) (sym same))
            | inr shut ↦ inr (shut, (s.next, e))
          ]
        ];
      }

stage_in_turn :
    (stage : String) (n : ℕ)
    → str_eq stage "watchdog" ≡ false
    → stage_allowed stage n ≡ true
    → is_stage stage (nth n checkpoint_order) ≡ true
unfolding stage_allowed
stage_in_turn stage n = third _ _ _
  where
    third : (a b c : Bool) → b ≡ false → (a && (b || c)) ≡ true → c ≡ true
    third a b c p q = ground arith

module _ (h : Host) (w : World) (stage : String) (participant job : ℤ) where
  -- A checkpoint that passes appends its stage.
  appended :
      (passed : List String) (s out : WindowsHandoffSession)
      → Passed h w stage participant job s
      → After stage s out
      → InOrder passed s
      → InOrder (passed ++ (if str_eq stage "watchdog" then [] else stage ∷ [])) out
  unfolding After
  appended passed s out p a i = counted_on i.counted
    where
      more :
          passed ≡ take s.next checkpoint_order
          → (b : Bool) → str_eq stage "watchdog" ≡ b
          → out.next ≡ (if b then s.next else s.next + 1)
          → InOrder (passed ++ (if b then [] else stage ∷ [])) out
      more e true d q = record {
        counted = inl (append-nil passed ∙ e ∙ ap (λ n. take n checkpoint_order) (sym q));
      }
      more e false d q = record {
        counted = inl (
            ap (λ l. l ++ (stage ∷ [])) e
            ∙ take-nth stage s.next checkpoint_order (stage_in_turn stage s.next d p.in_turn)
            ∙ ap (λ n. take n checkpoint_order) (succ s.next ∙ sym q));
      }
        where
          succ : (n : ℕ) → suc n ≡ n + 1
          succ n = omega arith

      counted_on :
          (passed ≡ take s.next checkpoint_order)
            ⊎ ((s.closed ≡ true) × ((n : ℕ) × (passed ≡ take n checkpoint_order)))
          → InOrder (passed ++ (if str_eq stage "watchdog" then [] else stage ∷ [])) out
      counted_on (inr (shut, _)) = absurd (clash shut p.is_open)
        where
          clash : s.closed ≡ true → s.closed ≡ false → ⊥
          clash x y = cc
      counted_on (inl e) = more e (str_eq stage "watchdog") refl a.0

  checkpoint-InOrder :
      (passed : List String) (s : WindowsHandoffSession)
      → InOrder passed s
      → InOrder
          (passed ++ stage_of stage (checkpoint h w stage participant job s).0)
          (checkpoint h w stage participant job s).1
  checkpoint-InOrder passed s i = elim (Result-cases (checkpoint h w stage participant job s).0) [
    | inl (v, e) ↦
        let (p, a) = checkpoint-Passed h w stage participant job s v e in
        subst (λ r. InOrder (passed ++ stage_of stage r) (checkpoint h w stage participant job s).1)
          (sym e) (appended passed s _ p a i)
    | inr (f, e) ↦
        subst (λ r. InOrder (passed ++ stage_of stage r) (checkpoint h w stage participant job s).1)
          (sym e) (Stays-InOrder passed s _ (checkpoint-Stays h w stage participant job s f e) i)
  ]

step-InOrder :
    (h : Host) (c : Call) (passed : List String) (s : WindowsHandoffSession)
    → InOrder passed s
    → InOrder (passed ++ passes h c s) (step h c s)
unfolding step passes
step-InOrder h (pre_spawns w) passed s i =
    Stays-InOrder passed s _ (pre_spawn_watchdog-Stays h w s) i
step-InOrder h (binds w b participant job) passed s i =
    Stays-InOrder passed s _ (bind-Stays h w b participant job s) i
step-InOrder h (checkpoints w stage participant job) passed s i =
    checkpoint-InOrder h w stage participant job passed s i
step-InOrder h (closes w) passed s i = Stays-InOrder passed s _ (close-Stays w s) i

run-InOrder :
    (h : Host) (cs : List Call) (passed : List String) (s : WindowsHandoffSession)
    → InOrder passed s
    → InOrder (passed ++ stages h cs s) (run h cs s)
unfolding run stages
run-InOrder h [] passed s i = subst (λ l. InOrder l s) (sym (append-nil passed)) i
run-InOrder h (c ∷ cs) passed s i =
    subst (λ l. InOrder l (run h cs (step h c s)))
      (append_assoc passed (passes h c s) (stages h cs (step h c s)))
      (run-InOrder h cs (passed ++ passes h c s) (step h c s) (step-InOrder h c passed s i))

-- Whatever calls a new session gets, in any order and whatever each of them meets, the stages that
-- it lets pass, watchdogs apart, are the first ones of `CHECKPOINT_ORDER`, in that order and each
-- once.
pub stages_in_order :
    (h : Host) (cs : List Call) (s : WindowsHandoffSession)
    → s.next ≡ 0
    → (n : ℕ) × (stages h cs s ≡ take n checkpoint_order)
stages_in_order h cs s fresh = elim (run-InOrder h cs [] s start).counted [
  | inl e ↦ ((run h cs s).next, e)
  | inr (_, (n, e)) ↦ (n, e)
]
  where
    start : InOrder [] s
    start = record { counted = inl (ap (λ n. take n checkpoint_order) (sym fresh)) }
