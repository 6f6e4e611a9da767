-- ===== src/Handoff/Calls.antt =====
-- Histories of calls on one session of windows_capability.py.
use coordination_loop_harnes.Base.{
  Bool, true, false, List, [], ◌∷◌, ◌++◌, ◌≡◌, refl, String, str_eq, Result, ok, err, if◌then◌else◌,
}
use coordination_loop_harnes.Base.Int.{ℤ}
use coordination_loop_harnes.Util.Host.{Host}
use coordination_loop_harnes.Windows.Writer.{WindowsWriterBinding}
use coordination_loop_harnes.Handoff.Session.{
  WindowsHandoffSession, World, close, pre_spawn_watchdog, bind,
}
use coordination_loop_harnes.Handoff.Checkpoint.{checkpoint}

pub data Call : Type 0 where
  pre_spawns : World → Call
  binds : World → WindowsWriterBinding → ℤ → ℤ → Call
  checkpoints : World → String → ℤ → ℤ → Call
  closes : World → Call

-- The session after a call, whether the call returned or raised.
unfoldable pub step : Host → Call → WindowsHandoffSession → WindowsHandoffSession
step h (pre_spawns w) s = (pre_spawn_watchdog h w s).1
step h (binds w b participant job) s = (bind h w b participant job s).1
step h (checkpoints w stage participant job) s = (checkpoint h w stage participant job s).1
step h (closes w) s = (close w s).1

unfoldable pub run : Host → List Call → WindowsHandoffSession → WindowsHandoffSession
run h [] s = s
run h (c ∷ cs) s = run h cs (step h c s)

abbrev pub failed {ℓ} : {A : Type ℓ} → Result A → Bool
failed (ok _) = false
failed (err _) = true

pub failed-ok {ℓ} : {A : Type ℓ} (r : Result A) {v : A} → failed r ≡ true → r ≡ ok v → ⊥
failed-ok (ok _) p q = cc
failed-ok (err _) p q = cc

-- Where the first branch raises, a call that returned took the second.
pub else-ok {ℓ κ} :
    {A : Type ℓ} {S : Type κ} (c : Bool) (x y : Result A × S) {v : A}
    → failed x.0 ≡ true
    → (if c then x else y).0 ≡ ok v
    → (c ≡ false) × (y.0 ≡ ok v)
else-ok true x y f k = absurd (failed-ok x.0 f k)
else-ok false x y f k = (refl, k)

unfoldable pub raises : Host → Call → WindowsHandoffSession → Bool
raises h (pre_spawns w) s = failed (pre_spawn_watchdog h w s).0
raises h (binds w b participant job) s = failed (bind h w b participant job s).0
raises h (checkpoints w stage participant job) s = failed (checkpoint h w stage participant job s).0
raises h (closes w) s = failed (close w s).0

abbrev pub stage_of {ℓ} : {A : Type ℓ} → String → Result A → List String
stage_of stage (err _) = []
stage_of stage (ok _) = if str_eq stage "watchdog" then [] else stage ∷ []

-- The stage, other than a watchdog, that a call lets pass.
unfoldable pub passes : Host → Call → WindowsHandoffSession → List String
passes h (pre_spawns w) s = []
passes h (binds w b participant job) s = []
passes h (checkpoints w stage participant job) s =
    stage_of stage (checkpoint h w stage participant job s).0
passes h (closes w) s = []

unfoldable pub stages : Host → List Call → WindowsHandoffSession → List String
stages h [] s = []
stages h (c ∷ cs) s = passes h c s ++ stages h cs (step h c s)
