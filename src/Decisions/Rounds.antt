-- ===== src/Decisions/Rounds.antt =====
-- The ways in which a round of the loop over the predecessors ends before it judges one.
use coordination_loop_harnes.Base.{
  ℕ, zero, suc, ◌*◌, ◌^◌, ◌-◌, ◌==◌, Bool, true, false, ◌&&◌, not, Option, none, some, List, [],
  String, Text, text_eq, any, if◌then◌else◌, is_empty, Result, ok, err, ◌>>=◌, ◌≡◌, refl, ap, subst,
  arith, ◌⊎◌, inl, inr, caught, caught-some,
}
use coordination_loop_harnes.Base.Int.{ℤ, pos, negsuc, eqb_ℤ, eqb_ℤ_iff}
use coordination_loop_harnes.Json.{
  Json, null, bool, int, real, str, arr, obj, get, is_null, int?, text?, json_eq,
}
use coordination_loop_harnes.Util.Safe.{is_safe_json_integer}
use coordination_loop_harnes.Util.Scope.{is_repository_relative_path_v2}
use coordination_loop_harnes.Util.Disk.{Disk, load_json, ensure_within}
use coordination_loop_harnes.Decisions.Chain.{
  Next, stop, follow, positive?, positive_sequence, when, next_decision, next_of, read_previous,
  stopped_by,
}

positive_int :
    (v : Json) (m k : ℕ) → positive? (int? v) ≡ some m → json_eq v (int (pos k)) ≡ true → m ≡ k
unfolding json_eq
positive_int (int (pos zero)) m k p q = cc
positive_int (int (pos (suc n))) m k p q = here (suc n) (some-eq p) ((eqb_ℤ_iff _ _).0 q)
  where
    some-eq : some (suc n) ≡ some m → suc n ≡ m
    some-eq e = cc

    here : (x : ℕ) → x ≡ m → pos (x * 2 ^ 0) ≡ pos (k * 2 ^ 0) → m ≡ k
    here x e f = ground arith
positive_int (int (negsuc n)) m k p q = cc
positive_int null m k p q = cc
positive_int (bool b) m k p q = cc
positive_int (real z e) m k p q = cc
positive_int (str s) m k p q = cc
positive_int (arr xs) m k p q = cc
positive_int (obj fs) m k p q = cc

pub sequence_int :
    (safe : Bool) (v : Json) (m k : ℕ)
    → positive_sequence safe v ≡ some m
    → json_eq v (int (pos k)) ≡ true
    → m ≡ k
unfolding positive_sequence
sequence_int safe v m k p q =
    positive_int v m k (tested (safe && not (is_safe_json_integer v)) (positive? (int? v)) p) q
  where
    tested : (b : Bool) (o : Option ℕ) → (if b then none else o) ≡ some m → o ≡ some m
    tested b o e = ground arith

positive_one : (v : Json) → positive? (int? v) ≡ some 1 → json_eq v (int (pos 1)) ≡ true
unfolding json_eq
positive_one (int (pos zero)) p = cc
positive_one (int (pos (suc n))) p = one_eq (suc n) p
  where
    one_eq : (x : ℕ) → some x ≡ some 1 → eqb_ℤ (pos (x * 2 ^ 0)) (pos 1) ≡ true
    one_eq x e = ground arith
positive_one (int (negsuc n)) p = cc
positive_one null p = cc
positive_one (bool b) p = cc
positive_one (real z e) p = cc
positive_one (str s) p = cc
positive_one (arr xs) p = cc
positive_one (obj fs) p = cc

-- A decision whose sequence is 1 compares equal to 1.
pub sequence_one :
    (safe : Bool) (v : Json) → positive_sequence safe v ≡ some 1 → json_eq v (int (pos 1)) ≡ true
unfolding positive_sequence
sequence_one safe v p =
    positive_one v (tested (safe && not (is_safe_json_integer v)) (positive? (int? v)) p)
  where
    tested : (b : Bool) (o : Option ℕ) → (if b then none else o) ≡ some 1 → o ≡ some 1
    tested b o e = ground arith

module _ (d : Disk) (portable : Bool) where
  pub positive_suc : (v : Json) (n : ℕ) → positive_sequence portable v ≡ some n → suc (n - 1) ≡ n
  unfolding positive_sequence
  positive_suc v n k = split (portable && not (is_safe_json_integer v)) (int? v) k
    where
      split :
          (b : Bool) (o : Option ℤ) → (if b then none else positive? o) ≡ some n → suc (n - 1) ≡ n
      split true o e = cc
      split false none e = cc
      split false (some (pos zero)) e = cc
      split false (some (pos (suc m))) e = ground arith
      split false (some (negsuc m)) e = cc

  read_cases :
      (seen : List Text) (n : ℕ) (ref : Text) (r : Next)
      → read_previous d seen n ref ≡ ok r
      → ((s : String) × (r ≡ stopped_by s))
        ⊎ ((path resolved : Text) × (previous : Json) × (ensure_within d false (d.join d.root ref)
              ≡ ok path)
            × (d.resolve path ≡ ok resolved)
            × (any (λ s. text_eq s resolved) seen ≡ false)
            × (load_json d path ≡ ok previous)
            × (r ≡ follow n path resolved previous))
  unfolding read_previous
  read_cases seen n ref r k =
      elim (cases (caught (ensure_within d false (d.join d.root ref))) d.resolve
        (λ z. any (λ s. text_eq s z) seen) (λ p. caught (load_json d p)) k) [
          | inl t ↦ inl t
          | inr (path, z, v, w, rz, c, l, e) ↦ inr (
            path,
            z,
            v,
            caught-some (ensure_within d false (d.join d.root ref)) path w,
            rz,
            c,
            caught-some (load_json d path) v l,
            e,
          )
        ]
    where
      cases :
          (w : Result (Option Text)) (rs : Text → Result Text) (c : Text → Bool)
          (l : Text → Result (Option Json))
          → (w >>= λ within. elim within [
            | none ↦ ok (stopped_by "previous_decision_ref must stay within the root")
            | some path ↦ rs path >>= λ z.
                if c z
                then ok (stopped_by "decision predecessor chain contains a cycle")
                else l path >>= λ loaded. elim loaded [
                  | none ↦ ok (stopped_by "Invalid JSON")
                  | some previous ↦ ok (follow n path z previous)
                ]
          ])
            ≡ ok r
          → ((s : String) × (r ≡ stopped_by s))
            ⊎ ((path resolved : Text) × (previous : Json) × (w ≡ ok (some path))
                × (rs path ≡ ok resolved)
                × (c resolved ≡ false)
                × (l path ≡ ok (some previous))
                × (r ≡ follow n path resolved previous))
      cases (err e) rs c l q = ground arith
      cases (ok none) rs c l q = ground arith
      cases (ok (some path)) rs c l q = ground arith

  first_message : String
  first_message = "sequence 1 decision must not reference a previous decision"

  one : (n : ℕ) → (n == 1) ≡ true → n ≡ 1
  one n e = ground arith

  ok_eq : {a b : Next} → ok a ≡ ok b → b ≡ a
  ok_eq e = cc

  pick :
      (a b c : Bool) (x y z w : Result Next) (r : Next)
      → (if a then x else if b then y else if c then z else w) ≡ ok r
      → ((a ≡ true) × (x ≡ ok r)) ⊎ ((y ≡ ok r) ⊎ ((z ≡ ok r) ⊎ ((a ≡ false) × (w ≡ ok r))))
  pick a b c x y z w r q = ground arith

  next_cases :
      (seen : List Text) (v : Json) (r : Next)
      → next_decision d portable seen v ≡ ok r
      → ((s : String) × (r ≡ stopped_by s))
        ⊎ (((positive_sequence portable (get "sequence" v) ≡ some 1)
              × (r ≡ stop (when (not (is_null (get "previous_decision_ref" v))) first_message)))
            ⊎ ((n : ℕ) × (ref : Text) × (positive_sequence portable (get "sequence" v) ≡ some n)
                × ((n == 1) ≡ false)
                × (text? (get "previous_decision_ref" v) ≡ some ref)
                × (read_previous d seen n ref ≡ ok r)))
  unfolding next_decision next_of first_message
  next_cases seen v r k =
      cases (positive_sequence portable (get "sequence" v))
        (is_null (get "previous_decision_ref" v)) (text? (get "previous_decision_ref" v)) k
    where
      cases :
          (o : Option ℕ) (missing : Bool) (t : Option Text)
          → elim o [
            | none ↦ ok (stopped_by "decision predecessor sequence must be a positive integer")
            | some n ↦
                if n == 1
                then ok (
                    stop (
                      when
                        (not missing)
                        "sequence 1 decision must not reference a previous decision"))
                else elim t [
                  | none ↦ ok (stopped_by "sequence greater than 1 requires previous_decision_ref")
                  | some ref ↦
                      if is_empty ref
                      then ok (stopped_by "sequence greater than 1 requires previous_decision_ref")
                      else if portable && not (is_repository_relative_path_v2 ref)
                      then ok (
                          stopped_by
                            "previous_decision_ref must use portable repository-relative path syntax")
                      else read_previous d seen n ref
                ]
          ]
            ≡ ok r
          → ((s : String) × (r ≡ stopped_by s))
            ⊎ (((o ≡ some 1)
                  × (r
                      ≡ stop (
                          when
                            (not missing)
                            "sequence 1 decision must not reference a previous decision")))
                ⊎ ((n : ℕ) × (ref : Text) × (o ≡ some n)
                    × ((n == 1) ≡ false)
                    × (t ≡ some ref)
                    × (read_previous d seen n ref ≡ ok r)))
      cases none missing t q = ground arith
      cases (some n) missing none q = ground arith
      cases (some n) missing (some ref) q =
          elim (pick (n == 1) (is_empty ref) (portable && not (is_repository_relative_path_v2 ref))
            (ok (
              stop
                (when (not missing) "sequence 1 decision must not reference a previous decision")))
            (ok (stopped_by "sequence greater than 1 requires previous_decision_ref"))
            (ok (
              stopped_by "previous_decision_ref must use portable repository-relative path syntax"))
            (read_previous d seen n ref) r q) [
              | inl t ↦ inr (inl (ap some (one n t.0), ok_eq t.1))
              | inr (inl t) ↦ inl (_, ok_eq t)
              | inr (inr (inl t)) ↦ inl (_, ok_eq t)
              | inr (inr (inr t)) ↦ inr (inr (n, ref, refl, t.0, refl, t.1))
            ]

  -- A round that stops with no finding has read a first decision.
  pub stop_fact :
      (seen : List Text) (v : Json)
      → next_decision d portable seen v ≡ ok (stop [])
      → (positive_sequence portable (get "sequence" v) ≡ some 1)
        × (is_null (get "previous_decision_ref" v) ≡ true)
  stop_fact seen v k = elim (next_cases seen v (stop []) k) [
    | inl t ↦ cc
    | inr (inl t) ↦ (t.0, absent (is_null (get "previous_decision_ref" v)) t.1)
    | inr (inr (n, ref, _, _, _, q)) ↦ elim (read_cases seen n ref (stop []) q) [
      | inl t ↦ cc
      | inr t ↦ cc
    ]
  ]
    where
      absent : (b : Bool) → stop [] ≡ stop (when (not b) first_message) → b ≡ true
      absent b q = ground arith

  pub record Followed (seen : List Text) (v : Json) (n : ℕ) (path resolved : Text) (previous : Json)
      : Type 0 where
    pub at_n : positive_sequence portable (get "sequence" v) ≡ some n
    pub ref : Text
    pub named : text? (get "previous_decision_ref" v) ≡ some ref
    pub within : ensure_within d false (d.join d.root ref) ≡ ok path
    pub resolves : d.resolve path ≡ ok resolved
    pub new : any (λ s. text_eq s resolved) seen ≡ false
    pub is_there : load_json d path ≡ ok previous

  pub follow_fact :
      (seen : List Text) (v : Json) (n : ℕ) (path resolved : Text) (previous : Json)
      → next_decision d portable seen v ≡ ok (follow n path resolved previous)
      → Followed seen v n path resolved previous
  follow_fact seen v n path resolved previous k =
      elim (next_cases seen v (follow n path resolved previous) k) [
        | inl t ↦ cc
        | inr (inl t) ↦ cc
        | inr (inr (m, ref, at_m, _, named, q)) ↦
            elim (read_cases seen m ref (follow n path resolved previous) q) [
              | inl t ↦ cc
              | inr (p, z, w, within, resolves, new, there, same) ↦ record {
                at_n = cc;
                ref = ref;
                named = named;
                within = cc;
                resolves = cc;
                new = subst (λ t. any (λ s. text_eq s t) seen ≡ false) (the_resolved same) new;
                is_there = cc;
              }
            ]
      ]
    where
      the_resolved :
          {a b : ℕ} {x y z t : Text} {u w : Json} → follow a x z u ≡ follow b y t w → t ≡ z
      the_resolved e = cc
