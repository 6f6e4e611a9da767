-- ===== src/Decisions/Fuel.antt =====
-- The loop over the predecessors ends: each round but the last reads a file that no earlier round read.
use coordination_loop_harnes.Base.{
  ℕ, zero, suc, ◌+◌, ◌≤◌, ◌<◌, Bool, true, false, ◌&&◌, ◌||◌, not, Option, none, some, List, [],
  ◌∷◌, ◌++◌, String, Text, text_eq, any, is_some, length, if◌then◌else◌, Result, ok, err, ◌≡◌, refl,
  sym, subst, ◌∙◌, arith, >>=-eq-ok, raise_if-eq-ok, value_error,
}
use coordination_loop_harnes.Json.{Json}
use coordination_loop_harnes.Util.Host.{Host}
use coordination_loop_harnes.Util.Disk.{
  Disk, File, find_file, load_json, ensure_within, ensure_within_root, canonical_path,
  is_relative_to, is_file, is_directory,
}
use coordination_loop_harnes.Leases.AccessLaws.{text_eq_iff}
use coordination_loop_harnes.Decisions.Chain.{
  Next, stop, follow, next_decision, previous_findings, prepend, verify_predecessor_chain,
}
use coordination_loop_harnes.Decisions.Verify.{chain_fuel}
use coordination_loop_harnes.Decisions.Rounds.{follow_fact}

-- `Path.resolve` leaves a resolved path as it is.
abbrev pub ResolvesOnce : Disk → Type 0
ResolvesOnce d = (p q : Text) → d.resolve p ≡ ok q → d.resolve q ≡ ok q

abbrev unseen : Text → List Text → ℕ
unseen p seen = if any (λ s. text_eq s p) seen then 0 else 1

-- The files that no round has read.
abbrev remaining : List (Text × File) → List Text → ℕ
remaining [] seen = 0
remaining ((q, f) ∷ fs) seen = unseen q seen + remaining fs seen

remaining-length : (fs : List (Text × File)) (seen : List Text) → remaining fs seen ≤ length fs
remaining-length [] seen = omega arith
remaining-length ((q, f) ∷ fs) seen = ground (arith, remaining-length fs seen)

remaining_mono :
    (fs : List (Text × File)) (p : Text) (seen : List Text)
    → remaining fs (p ∷ seen) ≤ remaining fs seen
remaining_mono [] p seen = omega arith
remaining_mono ((q, f) ∷ fs) p seen = ground (arith, remaining_mono fs p seen)

remaining_less :
    (fs : List (Text × File)) (p : Text) (seen : List Text)
    → is_some (find_file p fs) ≡ true
    → any (λ s. text_eq s p) seen ≡ false
    → remaining fs (p ∷ seen) < remaining fs seen
remaining_less [] p seen k new = cc
remaining_less ((q, f) ∷ fs) p seen k new =
    ground
      (arith, text_eq_iff q p, text_eq_iff p q, remaining_mono fs p seen, remaining_less fs p seen)

loaded_file :
    (d : Disk) (p : Text) (v : Json) → load_json d p ≡ ok v → is_some (find_file p d.files) ≡ true
unfolding load_json
loaded_file d p v k = ground arith

within_resolved :
    (d : Disk) (p q : Text) → ResolvesOnce d → ensure_within d false p ≡ ok q → d.resolve q ≡ ok q
unfolding ensure_within_root canonical_path
within_resolved d p q once k =
    let (root, _, k1) = >>=-eq-ok (canonical_path d false d.root) _ k in
    let (z, r, k2) = >>=-eq-ok (canonical_path d false p) _ k1 in
    let (_, k3) = raise_if-eq-ok (not (is_relative_to d z root)) _ _ k2 in
    once p q (tests (d.resolve p) z r ∙ k3)
  where
    tests :
        (r : Result Text) (z : Text)
        → elim r [
          | err _ ↦ err (value_error "Cannot safely resolve path")
          | ok y ↦
              if false && not (is_file d y || is_directory d y)
              then err (value_error "Cannot safely resolve path")
              else ok y
        ]
          ≡ ok z
        → r ≡ ok z
    tests (err e) z e' = cc
    tests (ok y) z e = e

module _ (h : Host) (d : Disk) (run_id : Json) (portable : Bool) (decision_path : Text) where
  Ends : ℕ → Type 0
  Ends fuel =
      (seen : List Text) (v : Json)
      → remaining d.files seen < fuel
      → is_some (verify_predecessor_chain h d run_id portable decision_path fuel seen v) ≡ true

  prepend_some :
      (fs : List String) (o : Option (Result (List String)))
      → is_some o ≡ true
      → is_some (prepend fs o) ≡ true
  prepend_some fs none k = cc
  prepend_some fs (some (err e)) k = refl
  prepend_some fs (some (ok gs)) k = refl

  judged_ends :
      (path : Text) (w : Result (List String)) (o : Option (Result (List String)))
      → is_some o ≡ true
      → is_some (elim w [
        | err e ↦ some (err e)
        | ok fs ↦ elim (text_eq path decision_path) [
          | true ↦ some (ok (fs ++ ("decision predecessor chain contains a cycle" ∷ [])))
          | false ↦ prepend fs o
        ]
      ])
        ≡ true
  judged_ends path (err e) o k = refl
  judged_ends path (ok fs) o k = split (text_eq path decision_path)
    where
      split :
          (b : Bool)
          → is_some (elim b [
            | true ↦ some (ok (fs ++ ("decision predecessor chain contains a cycle" ∷ [])))
            | false ↦ prepend fs o
          ])
            ≡ true
      split true = refl
      split false = prepend_some fs o k

  round-Ends :
      (once : ResolvesOnce d) (fuel : ℕ) (seen : List Text) (v : Json) (r : Result Next)
      → Ends fuel
      → remaining d.files seen < suc fuel
      → next_decision d portable seen v ≡ r
      → is_some (elim r [
        | err e ↦ some (err e)
        | ok (stop fs) ↦ some (ok fs)
        | ok (follow n path resolved previous) ↦
            elim (previous_findings h d run_id n path previous) [
              | err e ↦ some (err e)
              | ok fs ↦ elim (text_eq path decision_path) [
                | true ↦ some (ok (fs ++ ("decision predecessor chain contains a cycle" ∷ [])))
                | false ↦ prepend fs (
                    verify_predecessor_chain h d run_id portable decision_path fuel
                      (resolved ∷ seen)
                      previous)
              ]
            ]
      ])
        ≡ true
  unfolding Ends
  round-Ends once fuel seen v (err e) ih room p = refl
  round-Ends once fuel seen v (ok (stop fs)) ih room p = refl
  round-Ends once fuel seen v (ok (follow n path resolved previous)) ih room p =
      let f = follow_fact d portable seen v n path resolved previous p in
      let same =
        resolved_eq (within_resolved d (d.join d.root f.ref) path once f.within) f.resolves in
      let less =
        subst (λ t. remaining d.files (t ∷ seen) < remaining d.files seen) same
          (remaining_less d.files path seen (loaded_file d path previous f.is_there)
            (subst (λ t. any (λ s. text_eq s t) seen ≡ false) (sym same) f.new)) in
      judged_ends path (previous_findings h d run_id n path previous) _
        (ih (resolved ∷ seen) previous (omega (arith, less, room)))
    where
      resolved_eq : d.resolve path ≡ ok path → d.resolve path ≡ ok resolved → path ≡ resolved
      resolved_eq a b = cc

  chain-Ends : (once : ResolvesOnce d) (fuel : ℕ) → Ends fuel
  unfolding Ends verify_predecessor_chain
  chain-Ends once zero seen v room = absurd (omega (arith, room))
  chain-Ends once (suc fuel) seen v room =
      round-Ends once fuel seen v (next_decision d portable seen v) (chain-Ends once fuel) room refl

  -- With the fuel that `verify_decision` gives it, the loop over the predecessors ends, from any
  -- decision, if resolving a resolved path changes nothing.
  pub verify_predecessor_chain_ends :
      (once : ResolvesOnce d) (seen : List Text) (decision : Json)
      → is_some
          (verify_predecessor_chain h d run_id portable decision_path (chain_fuel d) seen decision)
        ≡ true
  unfolding Ends
  verify_predecessor_chain_ends once seen decision =
      chain-Ends once (chain_fuel d) seen decision (omega (arith, remaining-length d.files seen))
