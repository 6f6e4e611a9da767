-- ===== src/Leases/Observed.antt =====
-- What an observation says of the record, and that a listing is whole.
use coordination_loop_harnes.Base.{
  ℕ, ltb, Bool, true, false, not, Option, none, some, List, [], ◌∷◌, ◌++◌, String, Text,
  if◌then◌else◌, Result, ok, err, text_eq, codes, ◌>>=◌, ◌>>◌, ◌≡◌, refl, sym, ap, subst, ◌∙◌, ◌⊎◌,
  inl, inr, Bool-cases, >>=-eq-ok, raise_if-eq-ok, append_nil, value_error, type_error, os_error,
  runtime_error, key_error,
}
use coordination_loop_harnes.Leases.AccessLaws.{text_eq_iff}
use coordination_loop_harnes.Json.{
  null, bool, int, real, arr, obj, Json, str, get, is_text, json_eq,
}
use coordination_loop_harnes.Util.Host.{Host}
use coordination_loop_harnes.Util.Safe.{is_safe_id}
use coordination_loop_harnes.Util.Disk.{Disk}
use coordination_loop_harnes.Leases.Sets.{is_v1, is_v2}
use coordination_loop_harnes.Leases.Lifecycle.{timestamp}
use coordination_loop_harnes.Leases.Validate.{validate_lease}
use coordination_loop_harnes.Leases.Legacy.{legacy_record_is_valid, legacy_terminal_record_is_valid}
use coordination_loop_harnes.Leases.Authority.{validate_terminal_release}
use coordination_loop_harnes.Leases.Registry.{Entry, Moment, current_time}
use coordination_loop_harnes.Leases.Changes.{read_entry}
use coordination_loop_harnes.Leases.Observe.{
  Ownership, unknown_fail_closed, terminal_released, active_legacy, active, stale_active,
  Observation, noted, Seen, failed, seen, attempted, validation_root, observation_of, observed_text,
  check_observed, v2_findings, v1_findings, record_findings, ownership, observe_record,
  observe_seen, observe,
}

noted-eq-nil : (r : Result (Unit {0})) → noted r ≡ ok [] → r ≡ ok tt
unfolding noted
noted-eq-nil (ok tt) k = refl
noted-eq-nil (err (value_error m)) k = cc
noted-eq-nil (err (type_error m)) k = cc
noted-eq-nil (err (os_error m)) k = cc
noted-eq-nil (err (runtime_error m)) k = cc
noted-eq-nil (err (key_error m)) k = cc

attempted-seen : (r : Result Json) (lease : Json) → attempted r ≡ ok (seen lease) → r ≡ ok lease
unfolding attempted
attempted-seen (ok v) lease k = cc
attempted-seen (err (value_error m)) lease k = cc
attempted-seen (err (type_error m)) lease k = cc
attempted-seen (err (os_error m)) lease k = cc
attempted-seen (err (runtime_error m)) lease k = cc
attempted-seen (err (key_error m)) lease k = cc

validation_root-eq-nil :
    (repo : Option (Result Disk)) (root : Option Disk)
    → validation_root repo ≡ ok ([], root)
    → (d : Disk) × (repo ≡ some (ok d)) × (root ≡ some d)
unfolding validation_root
validation_root-eq-nil none root k = cc
validation_root-eq-nil (some (ok d)) root k = (d, refl, cc)
validation_root-eq-nil (some (err (value_error m))) root k = cc
validation_root-eq-nil (some (err (type_error m))) root k = cc
validation_root-eq-nil (some (err (os_error m))) root k = cc
validation_root-eq-nil (some (err (runtime_error m))) root k = cc
validation_root-eq-nil (some (err (key_error m))) root k = cc

v2_not_v1 :
    (v : Json)
    → is_text "coord.repo-set-lease.v2" v ≡ true
    → is_text "coord.repo-set-lease.v1" v ≡ false
v2_not_v1 (str t) k =
    ap (λ s. text_eq s (codes "coord.repo-set-lease.v1"))
      ((text_eq_iff t (codes "coord.repo-set-lease.v2")).0 k)
v2_not_v1 null k = cc
v2_not_v1 (bool b) k = cc
v2_not_v1 (int z) k = cc
v2_not_v1 (real z e) k = cc
v2_not_v1 (arr xs) k = cc
v2_not_v1 (obj fs) k = cc

module _ (h : Host) (m : Moment) (repo : Option (Result Disk)) (observed_utc : Option Text) where
  -- A v2 record that was validated in the repository.
  pub record Validated (lease : Json) : Type 0 where
    pub disk : Disk
    pub named : repo ≡ some (ok disk)
    pub valid : validate_lease h lease true false ≡ ok tt
    pub terminal :
        is_text "RELEASED" (get "state" lease) ≡ true
        → (now : ℕ) × (current_time h m ≡ ok now)
          × (validate_terminal_release h disk lease now ≡ ok tt)

  -- The time that an ACTIVE v2 record has left.
  pub record Timed (lease : Json) (is_over : Bool) : Type 0 where
    pub observed : ℕ
    pub expires : ℕ
    pub observed_at :
        timestamp h "observed_utc must be a canonical UTC timestamp"
          (str (observed_text m observed_utc))
        ≡ ok observed
    pub expires_at :
        timestamp h "expires_utc must be a canonical UTC timestamp" (get "expires_utc" lease)
        ≡ ok expires
    pub order : ltb expires observed ≡ is_over

  -- What each status but the unknown one says.
  pub data Verdict (lease : Json) : Ownership → Type 0 where
    released_v2 :
        is_text "RELEASED" (get "state" lease) ≡ true
        → is_v2 lease ≡ true
        → Validated lease
        → Verdict lease terminal_released
    released_v1 :
        is_v1 lease ≡ true
        → legacy_terminal_record_is_valid h lease ≡ ok true
        → Verdict lease terminal_released
    active_v1 :
        is_text "ACTIVE" (get "state" lease) ≡ true
        → is_v1 lease ≡ true
        → legacy_record_is_valid h lease ≡ ok true
        → Verdict lease active_legacy
    active_v2 :
        is_text "ACTIVE" (get "state" lease) ≡ true
        → is_v2 lease ≡ true
        → Validated lease
        → Timed lease false
        → Verdict lease active
    stale_v2 :
        is_text "ACTIVE" (get "state" lease) ≡ true
        → is_v2 lease ≡ true
        → Validated lease
        → Timed lease true
        → Verdict lease stale_active

  checked_fact :
      (d : Disk) (lease : Json)
      → repo ≡ some (ok d)
      → check_observed h m (some d) lease ≡ ok tt
      → Validated lease
  unfolding check_observed
  checked_fact d lease named k =
      let (_, v, k1) = >>=-eq-ok (validate_lease h lease true false) _ k in
      record {
        disk = d;
        named = named;
        valid = v;
        terminal = λ r.
            let (now, c, k2) = >>=-eq-ok (current_time h m) _ (at_release _ _ r k1) in (now, c, k2);
      }
    where
      at_release :
          (b : Bool) (x : Result (Unit {0}))
          → b ≡ true
          → (if b then x else ok tt) ≡ ok tt
          → x ≡ ok tt
      at_release true x r q = q
      at_release false x r q = cc

  v2_fact : (lease : Json) → v2_findings h m repo lease ≡ ok [] → Validated lease
  unfolding v2_findings
  v2_fact lease k =
      let (root, a, k1) = >>=-eq-ok (validation_root repo) _ k in
      let (more, b, k2) = >>=-eq-ok (noted (check_observed h m root.1 lease)) _ k1 in
      let (x, y) = append_nil root.0 more (payload _ k2) in
      let (d, named, is_d) = validation_root-eq-nil repo root.1 (a ∙ ap (λ z. ok (z, root.1)) x) in
      checked_fact d lease named (
        subst (λ z. check_observed h m z lease ≡ ok tt) is_d
          (noted-eq-nil (check_observed h m root.1 lease) (b ∙ ap ok y)))
    where
      payload : (fs : List String) → ok fs ≡ ok [] → fs ≡ []
      payload fs q = cc

  -- What a v1 record without findings is.
  abbrev Legacy : Json → Type 0
  Legacy lease =
      (legacy_record_is_valid h lease ≡ ok true)
      × (is_text "RELEASED" (get "state" lease) ≡ true
          → legacy_terminal_record_is_valid h lease ≡ ok true)

  v1_fact : (lease : Json) → v1_findings h m lease ≡ ok [] → Legacy lease
  unfolding v1_findings
  v1_fact lease k =
      let (valid, v, k1) = >>=-eq-ok (legacy_record_is_valid h lease) _ k in by_valid valid v k1
    where
      by_released :
          (b : Bool) (r : Result Bool)
          → b ≡ true
          → (if b
              then ◌>>=◌ {B = List String} r
                  (λ t. ok (if t then [] else "Legacy terminal lease evidence is incomplete" ∷ []))
              else ok [])
            ≡ ok []
          → r ≡ ok true
      by_released true (ok true) e q = refl
      by_released true (ok false) e q = cc
      by_released true (err x) e q = cc
      by_released false r e q = cc

      by_valid :
          (valid : Bool)
          → legacy_record_is_valid h lease ≡ ok valid
          → ◌≡◌ {A = Result (List String)}
              (if not valid
                then ok ("Legacy lease structure or lifecycle is invalid" ∷ [])
                else if is_text "RELEASED" (get "state" lease)
                then (legacy_terminal_record_is_valid h lease >>= λ terminal.
                    ok (
                      if terminal then [] else "Legacy terminal lease evidence is incomplete" ∷ []))
                else ok [])
              (ok [])
          → Legacy lease
      by_valid true v q = (v, λ r. by_released _ _ r q)
      by_valid false v q = cc

  -- The two kinds of records that have no findings.
  Kinds : Json → Type 0
  Kinds lease =
      ((is_v2 lease ≡ true) × (is_v1 lease ≡ false) × Validated lease)
      ⊎ ((is_v1 lease ≡ true) × Legacy lease)

  Kinds-fact : (lease : Json) → record_findings h m repo lease ≡ ok [] → Kinds lease
  unfolding record_findings Kinds
  Kinds-fact lease k = elim (Bool-cases (is_v2 lease)) [
    | inl v2 ↦ inl (v2, v2_not_v1 (get "schema_version" lease) v2, v2_fact lease (rw v2 at k))
    | inr v2 ↦ elim (Bool-cases (is_v1 lease)) [
      | inl v1 ↦ inr (v1, v1_fact lease (rw (v2, v1) at k))
      | inr v1 ↦ absurd (cc (rw (v2, v1) at k))
    ]
  ]

  Timed-fact :
      (lease : Json) (status : Ownership)
      → (do
        observed ←
            timestamp h "observed_utc must be a canonical UTC timestamp"
              (str (observed_text m observed_utc))
        expires ←
            timestamp h "expires_utc must be a canonical UTC timestamp" (get "expires_utc" lease)
        ok (if ltb expires observed then stale_active else active))
        ≡ ok status
      → ((status ≡ active) × Timed lease false) ⊎ ((status ≡ stale_active) × Timed lease true)
  Timed-fact lease status k =
      let (observed, a, k1) =
        >>=-eq-ok
          (timestamp h "observed_utc must be a canonical UTC timestamp"
            (str (observed_text m observed_utc)))
          _ k in
      let (expires, b, k2) =
        >>=-eq-ok
          (timestamp h "expires_utc must be a canonical UTC timestamp" (get "expires_utc" lease)) _
          k1 in
      by_order (ltb expires observed) observed expires a b refl k2
    where
      by_order :
          (c : Bool) (observed expires : ℕ)
          → timestamp h "observed_utc must be a canonical UTC timestamp"
              (str (observed_text m observed_utc))
            ≡ ok observed
          → timestamp h "expires_utc must be a canonical UTC timestamp" (get "expires_utc" lease)
            ≡ ok expires
          → ltb expires observed ≡ c
          → ok (if c then stale_active else active) ≡ ok status
          → ((status ≡ active) × Timed lease false) ⊎ ((status ≡ stale_active) × Timed lease true)
      by_order true observed expires a b e q = inr (
        cc,
        record {
          observed = observed;
          expires = expires;
          observed_at = a;
          expires_at = b;
          order = e;
        },
      )
      by_order false observed expires a b e q = inl (
        cc,
        record {
          observed = observed;
          expires = expires;
          observed_at = a;
          expires_at = b;
          order = e;
        },
      )

  record-Verdict :
      (lease : Json) (status : Ownership)
      → record_findings h m repo lease ≡ ok []
      → ownership h m observed_utc lease [] ≡ ok status
      → (status ≡ unknown_fail_closed) ⊎ Verdict lease status
  unfolding ownership Kinds
  record-Verdict lease status k q =
      by_state (is_text "RELEASED" (get "state" lease)) (is_text "ACTIVE" (get "state" lease))
        (is_v1 lease) refl refl refl (Kinds-fact lease k) q
    where
      same : (a : Ownership) → ok a ≡ ok status → a ≡ status
      same a q = cc

      by_state :
          (r a v1 : Bool)
          → is_text "RELEASED" (get "state" lease) ≡ r
          → is_text "ACTIVE" (get "state" lease) ≡ a
          → is_v1 lease ≡ v1
          → Kinds lease
          → (if r
              then ok terminal_released
              else if not a
              then ok unknown_fail_closed
              else if v1
              then ok active_legacy
              else do
                observed ←
                    timestamp h "observed_utc must be a canonical UTC timestamp"
                      (str (observed_text m observed_utc))
                expires ←
                    timestamp h "expires_utc must be a canonical UTC timestamp"
                      (get "expires_utc" lease)
                ok (if ltb expires observed then stale_active else active))
            ≡ ok status
          → (status ≡ unknown_fail_closed) ⊎ Verdict lease status
      by_state true a v1 er ea ev (inl (v2, _, v)) q =
          inr (subst (Verdict lease) (same _ q) (released_v2 er v2 v))
      by_state true a v1 er ea ev (inr (is1, (_, terminal))) q =
          inr (subst (Verdict lease) (same _ q) (released_v1 is1 (terminal er)))
      by_state false false v1 er ea ev kd q = inl (sym (same _ q))
      by_state false true true er ea ev (inl (v2, not1, v)) q = absurd (cc (ev, not1))
      by_state false true true er ea ev (inr (is1, (valid, _))) q =
          inr (subst (Verdict lease) (same _ q) (active_v1 ea is1 valid))
      by_state false true false er ea ev (inl (v2, _, v)) q = elim (Timed-fact lease status q) [
        | inl (e, t) ↦ inr (subst (Verdict lease) (sym e) (active_v2 ea v2 v t))
        | inr (e, t) ↦ inr (subst (Verdict lease) (sym e) (stale_v2 ea v2 v t))
      ]
      by_state false true false er ea ev (inr (is1, _)) q = absurd (cc (ev, is1))

  -- What an observation with a status that is known tells of the record.
  pub record Told (entries : List Entry) (lease_id : Text) (o : Observation) : Type 0 where
    pub lease : Json
    pub was : read_entry h lease_id entries ≡ ok lease
    pub unchanged : m.entry_unchanged ≡ ok tt
    pub bound : json_eq (get "lease_id" lease) (str lease_id) ≡ true
    pub no_findings : o.findings ≡ []
    pub copied : o.state ≡ get "state" lease
    pub verdict : Verdict lease o.ownership_status

  seen_fact :
      (entries : List Entry) (lease_id : Text) (lease : Json) (o : Observation)
      → read_entry h lease_id entries ≡ ok lease
      → m.entry_unchanged ≡ ok tt
      → observe_record h m lease_id repo observed_utc lease ≡ ok o
      → (o.ownership_status ≡ unknown_fail_closed) ⊎ Told entries lease_id o
  unfolding observe_record ownership
  seen_fact entries lease_id lease o was unchanged k =
      let (more, r, k1) = >>=-eq-ok (record_findings h m repo lease) _ k in
      let bound =
        if json_eq (get "lease_id" lease) (str lease_id)
        then []
        else "Lease file is not bound to the requested lease_id" ∷ [] in
      let (status, s, k2) = >>=-eq-ok (ownership h m observed_utc lease (bound ++ more)) _ k1 in
      subst (λ z. (z.ownership_status ≡ unknown_fail_closed) ⊎ Told entries lease_id z)
        (same (observation_of lease (bound ++ more) status) k2)
        (told (bound ++ more) status r refl s)
    where
      same : (a : Observation) → ok a ≡ ok o → a ≡ o
      same a q = cc

      bound_fact :
          (b : Bool) (message : String)
          → ◌≡◌ {A = List String} (if b then [] else message ∷ []) []
          → b ≡ true
      bound_fact true message q = refl
      bound_fact false message q = cc

      told :
          (fs : List String) (status : Ownership) {more : List String}
          → record_findings h m repo lease ≡ ok more
          → (if json_eq (get "lease_id" lease) (str lease_id)
                then []
                else "Lease file is not bound to the requested lease_id" ∷ [])
              ++ more
            ≡ fs
          → ownership h m observed_utc lease fs ≡ ok status
          → (status ≡ unknown_fail_closed) ⊎ Told entries lease_id (observation_of lease fs status)
      told [] status {more} r e s =
          let (b, none_more) = append_nil _ more e in
          elim (record-Verdict lease status (r ∙ ap ok none_more) s) [
            | inl u ↦ inl u
            | inr v ↦ inr (record {
              lease = lease;
              was = was;
              unchanged = unchanged;
              bound = bound_fact _ _ b;
              no_findings = refl;
              copied = refl;
              verdict = v;
            })
          ]
      told (x ∷ xs) status r e s = inl cc

  -- An observation whose status is known has no findings and is that of the one entry of the lease,
  -- bound to it and unchanged. A record is terminal only after its whole validation: of the release
  -- and its decisions for a v2 record, of the terminal evidence for a v1 record. It is ACTIVE, v1 or
  -- v2, only if it is valid and its state is ACTIVE; and whether it is stale is whether it has
  -- expired. Everything else is UNKNOWN_FAIL_CLOSED.
  pub observe-Told :
      (exists : Bool) (entries : List Entry) (lease_id : Text) (o : Observation)
      → observe h m exists entries lease_id repo observed_utc ≡ ok o
      → (o.ownership_status ≡ unknown_fail_closed) ⊎ Told entries lease_id o
  unfolding observe observe_seen
  observe-Told exists entries lease_id o k =
      let (_, k1) = raise_if-eq-ok (not (is_safe_id lease_id)) _ _ k in
      let (_, k2) = raise_if-eq-ok (not exists) _ _ k1 in
      let (found, a, k3) =
        >>=-eq-ok
          (attempted (read_entry h lease_id entries >>= λ lease. m.entry_unchanged >> ok lease)) _
          k2 in
      by_found found a k3
    where
      same : (a b : Json) → ok a ≡ ok b → a ≡ b
      same a b q = cc

      told_same : (a : Observation) → ok a ≡ ok o → a ≡ o
      told_same a q = cc

      by_found :
          (found : Seen)
          → attempted (read_entry h lease_id entries >>= λ lease. m.entry_unchanged >> ok lease)
            ≡ ok found
          → observe_seen h m lease_id repo observed_utc found ≡ ok o
          → (o.ownership_status ≡ unknown_fail_closed) ⊎ Told entries lease_id o
      by_found (failed message) a q = inl (ap (λ z. z.ownership_status) (sym (told_same _ q)))
      by_found (seen lease) a q =
          let (v, was, k1) =
            >>=-eq-ok (read_entry h lease_id entries) _ (attempted-seen _ lease a) in
          let (u, unchanged, k2) = >>=-eq-ok m.entry_unchanged _ k1 in
          seen_fact entries lease_id lease o (was ∙ ap ok (same v lease k2)) unchanged q
