-- ===== src/Status/Runs.antt =====
-- Sequences of transitions of one status file.
use coordination_loop_harnes.Base.{
  ℕ, suc, Bool, true, false, Option, Text, codes, ok, ◌≡◌, sym, ap, subst, ◌∙◌, arith, ◌⊎◌, inl,
  inr,
}
use coordination_loop_harnes.Base.Int.{ℤ, pos, ◌+ℤ◌, eqb_ℤ_iff, eq_of_parts, +ℤ_parts}
use coordination_loop_harnes.Json.{Json, int, str, get, json_eq, shift}
use coordination_loop_harnes.Util.Host.{Host}
use coordination_loop_harnes.Util.Disk.{Disk, load_json}
use coordination_loop_harnes.Status.Transition.{
  transition_status, state_text, is_legal, legal_transitions,
}
use coordination_loop_harnes.Status.Legal.{transition_status-Transitioned}

abbrev pub IsFinal : Json → Type 0
IsFinal status =
    (get "state" status ≡ str (codes "COMPLETE")) ⊎ (get "state" status ≡ str (codes "ABORTED"))

module _ (h : Host) where
  -- n transitions, each of what the one before wrote.
  pub data Steps (first : Json) : ℕ → Json → Type 0 where
    done : Steps first 0 first
    step :
        {n : ℕ} {before after : Json}
        → Steps first n before
        → (d : Disk) (run_id target : Text) (generation : ℤ) (timestamp checkpoint : Text)
          (decision_path : Option Text) (path : Text)
        → load_json d path ≡ ok before
        → transition_status h d run_id target generation timestamp checkpoint decision_path
          ≡ ok (path, after)
        → Steps first (suc n) after

  same_loaded :
      (d : Disk) (p : Text) (v w : Json) → load_json d p ≡ ok v → load_json d p ≡ ok w → w ≡ v
  same_loaded d p v w a b = cc

  same_int : (g z : ℤ) → json_eq (int g) (int z) ≡ true → g ≡ z
  unfolding json_eq
  same_int g z k = scaled g z ((eqb_ℤ_iff (shift g 0) (shift z 0)).0 k)
    where
      scaled : (a b : ℤ) → shift a 0 ≡ shift b 0 → a ≡ b
      scaled a b e = ground arith

  successor : (g : ℤ) (n : ℕ) → (g +ℤ pos n) +ℤ pos 1 ≡ g +ℤ pos (suc n)
  successor g n =
      eq_of_parts ((g +ℤ pos n) +ℤ pos 1) (g +ℤ pos (suc n))
        (omega (arith, +ℤ_parts g (pos n), +ℤ_parts (g +ℤ pos n) (pos 1), +ℤ_parts g (pos (suc n))))

  start : (g : ℤ) → g ≡ g +ℤ pos 0
  start g = eq_of_parts g (g +ℤ pos 0) (omega (arith, +ℤ_parts g (pos 0)))

  -- After n transitions of a status with generation g, the generation is g + n: none is lost or
  -- repeated, since each names the generation that it found.
  pub generation_counts_transitions :
      (first last : Json) (n : ℕ) (g : ℤ)
      → Steps first n last
      → get "generation" first ≡ int g
      → get "generation" last ≡ int (g +ℤ pos n)
  generation_counts_transitions first last n g done at = at ∙ ap int (start g)
  generation_counts_transitions first last (suc n) g
        (step {before} steps d run_id target generation timestamp checkpoint decision_path path was
          moved)
        at =
      let t =
        transition_status-Transitioned h d run_id target generation timestamp checkpoint
          decision_path path last moved in
      let ih = generation_counts_transitions first before n g steps at in
      let same = ap (get "generation") (same_loaded d path before t.status was t.was) ∙ ih in
      let named =
        same_int (g +ℤ pos n) generation
          (subst (λ v. json_eq v (int generation) ≡ true) same t.expected) in
      t.new_generation ∙ ap (λ z. int (z +ℤ pos 1)) (sym named) ∙ ap int (successor g n)

  final_is_stuck :
      (status : Json) (target : Text)
      → IsFinal status
      → is_legal legal_transitions (state_text (get "state" status)) target ≡ false
  unfolding is_legal
  final_is_stuck status target (inl e) =
      ap (λ v. is_legal legal_transitions (state_text v) target) e
  final_is_stuck status target (inr e) =
      ap (λ v. is_legal legal_transitions (state_text v) target) e

  clash : (b : Bool) → b ≡ true → b ≡ false → ⊥
  clash b p q = cc

  -- No transition of a stored status in COMPLETE or ABORTED succeeds, whatever it asks for and
  -- whatever decision it brings.
  pub final_status_refuses :
      (d : Disk) (run_id target : Text) (generation : ℤ) (timestamp checkpoint : Text)
      (decision_path : Option Text) (path : Text) (status doc : Json)
      → load_json d path ≡ ok status
      → IsFinal status
      → ¬ (
          transition_status h d run_id target generation timestamp checkpoint decision_path
          ≡ ok (path, doc))
  final_status_refuses d run_id target generation timestamp checkpoint decision_path path status doc
        was f moved =
      let t =
        transition_status-Transitioned h d run_id target generation timestamp checkpoint
          decision_path path doc moved in
      let legal =
        subst (λ v. is_legal legal_transitions (state_text (get "state" v)) (h.upper target) ≡ true)
          (same_loaded d path status t.status was t.was) t.legal in
      clash (is_legal legal_transitions (state_text (get "state" status)) (h.upper target)) legal
        (final_is_stuck status (h.upper target) f)
