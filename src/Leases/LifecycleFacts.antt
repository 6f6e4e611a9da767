-- ===== src/Leases/LifecycleFacts.antt =====
-- What a v2 record that passes `_validate_v2_lifecycle` satisfies.
use coordination_loop_harnes.Base.{
  ℕ, ◌≤◌, ◌<◌, leb, Bool, true, false, ◌||◌, not, List, Text, length, if◌then◌else◌, Result, ok,
  value_error, type_error, raise_if, ◌>>◌, ◌≡◌, arith, Exn, raise_if-eq-ok, >>=-eq-ok, subst,
}
use coordination_loop_harnes.Json.{Json, get, is_text, elements}
use coordination_loop_harnes.Util.Host.{Host}
use coordination_loop_harnes.Util.Safe.{is_safe_json_integer, at_least}
use coordination_loop_harnes.Leases.Lifecycle.{
  timestamp, validate_v2_lifecycle, check_times, check_state, check_repositories, check_scopes,
  check_active, check_released, check_bindings, serialized_writers, unhashable, generation_invalid,
}

abbrev pub writers : Json → List Text
writers lease = serialized_writers (elements (get "repositories" lease))

module _ (h : Host) where
  abbrev created_at : Json → Result ℕ
  created_at lease =
      timestamp h "created_utc must be a canonical UTC timestamp" (get "created_utc" lease)

  abbrev heartbeat_at : Json → Result ℕ
  heartbeat_at lease =
      timestamp h "heartbeat_utc must be a canonical UTC timestamp" (get "heartbeat_utc" lease)

  abbrev pub expires_at : Json → Result ℕ
  expires_at lease =
      timestamp h "expires_utc must be a canonical UTC timestamp" (get "expires_utc" lease)

  abbrev pub released_at : Json → Result ℕ
  released_at lease =
      timestamp h "released_utc must be a canonical UTC timestamp" (get "released_utc" lease)

  -- The stages of the validation, with what each computed.
  pub record Stages (lease : Json) : Type 0 where
    pub heartbeat : ℕ
    pub expires : ℕ
    pub generation : at_least 1 (get "generation" lease) ≡ true
    pub expiry : expires_at lease ≡ ok expires
    pub lives : heartbeat < expires
    pub one_writer : length (writers lease) ≤ 1
    pub state :
        (is_text "ACTIVE" (get "state" lease) || is_text "RELEASED" (get "state" lease)) ≡ true
    pub active :
        is_text "ACTIVE" (get "state" lease) ≡ true → check_active lease (writers lease) ≡ ok tt
    pub released :
        is_text "ACTIVE" (get "state" lease) ≡ false
        → check_released h lease heartbeat expires ≡ ok tt

  times_facts : (c b e : ℕ) → check_times h c b e ≡ ok tt → (c ≤ b) × (b < e)
  unfolding check_times
  times_facts c b e k = ground arith

  state_fact :
      (state : Json)
      → check_state h state ≡ ok tt
      → (is_text "ACTIVE" state || is_text "RELEASED" state) ≡ true
  unfolding check_state
  state_fact state k =
      tests (unhashable state) (is_text "ACTIVE" state || is_text "RELEASED" state) k
    where
      tests :
          (a b : Bool)
          → (raise_if a (type_error "unhashable type")
              >> raise_if (not b) (value_error "A v2 lease state must be ACTIVE or RELEASED"))
            ≡ ok tt
          → b ≡ true
      tests a b e = ground arith

  repositories_shape :
      (a c : Bool) (e e' : Exn) (b : Result (Unit {0})) (w ws : List Text)
      → (raise_if a e >> (b >> (raise_if c e' >> ok w))) ≡ ok ws
      → (c ≡ false) × (ws ≡ w)
  repositories_shape a c e e' b w ws k = ground arith

  short : (w : List Text) → leb 2 (length w) ≡ false → length w ≤ 1
  short w k = ground arith

  repositories_fact :
      (repositories : Json) (ws : List Text)
      → check_repositories h repositories ≡ ok ws
      → (ws ≡ serialized_writers (elements repositories))
        × (length (serialized_writers (elements repositories)) ≤ 1)
  unfolding check_repositories
  repositories_fact repositories ws k =
      let w = serialized_writers (elements repositories) in
      let t =
        repositories_shape _ (leb 2 (length w)) _ _ (check_bindings h (elements repositories)) w ws
          k in
      (t.1, short w t.0)

  generation_fact :
      (generation : Json) → generation_invalid generation ≡ false → at_least 1 generation ≡ true
  unfolding generation_invalid
  generation_fact generation k = second (is_safe_json_integer generation) (at_least 1 generation) k
    where
      second : (a b : Bool) → (not a || not b) ≡ false → b ≡ true
      second a b e = ground arith

  branch_fact :
      (b : Bool) (x y : Result (Unit {0}))
      → (if b then x else y) ≡ ok tt
      → (b ≡ true → x ≡ ok tt) × (b ≡ false → y ≡ ok tt)
  branch_fact true x y k = (λ _. k, λ e. cc)
  branch_fact false x y k = (λ e. cc, λ _. k)

  pub stages : (lease : Json) → validate_v2_lifecycle h lease ≡ ok tt → Stages lease
  unfolding validate_v2_lifecycle
  stages lease k =
      let (g, k1) = raise_if-eq-ok (generation_invalid (get "generation" lease)) _ _ k in
      let (c, ec, k2) = >>=-eq-ok (created_at lease) _ k1 in
      let (b, eb, k3) = >>=-eq-ok (heartbeat_at lease) _ k2 in
      let (e, ee, k4) = >>=-eq-ok (expires_at lease) _ k3 in
      let (_, t, k5) = >>=-eq-ok (check_times h c b e) _ k4 in
      let (_, s, k6) = >>=-eq-ok (check_state h (get "state" lease)) _ k5 in
      let (ws, r, k7) = >>=-eq-ok (check_repositories h (get "repositories" lease)) _ k6 in
      let (_, sc, k8) = >>=-eq-ok (check_scopes h lease) _ k7 in
      let w = repositories_fact (get "repositories" lease) ws r in
      let times = times_facts c b e t in
      let last =
        branch_fact (is_text "ACTIVE" (get "state" lease)) (check_active lease ws)
          (check_released h lease b e) k8 in
      record {
        heartbeat = b;
        expires = e;
        generation = generation_fact (get "generation" lease) g;
        expiry = ee;
        lives = times.1;
        one_writer = w.1;
        state = state_fact (get "state" lease) s;
        active = λ a. subst (λ v. check_active lease v ≡ ok tt) w.0 (last.0 a);
        released = last.1;
      }
