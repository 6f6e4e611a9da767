-- ===== src/Leases/Apart.antt =====
-- Lock roots whose ACTIVE records have compatible claims.
use coordination_loop_harnes.Base.{
  Bool, true, false, ◌&&◌, not, Option, none, some, List, [], ◌∷◌, Text, codes, text_eq, is_empty,
  if◌then◌else◌, Result, ok, runtime_error, raise_if, ◌>>=◌, ◌≡◌, refl, sym, ap, subst, ◌∙◌, arith,
  >>=-eq-ok, append_nil,
}
use coordination_loop_harnes.Json.{Json, get, is_text, null, bool, int, real, str, arr, obj}
use coordination_loop_harnes.Util.Host.{Host}
use coordination_loop_harnes.Leases.AccessLaws.{text_eq_iff}
use coordination_loop_harnes.Leases.Sets.{Sets, sets}
use coordination_loop_harnes.Leases.Overlap.{
  Found, Overlap, find_overlaps, overlaps_each, overlaps_with, id_overlaps, set_overlaps,
  or_inferred, declared_id,
}
use coordination_loop_harnes.Leases.Compatible.{Compatible, Compatible-sym, set_overlaps-Compatible}
use coordination_loop_harnes.Leases.Registry.{
  supported, is_named, Content, readable, unreadable, irregular, Entry, Moment, scan_record,
  scan_content, active_leases, refuse_overlaps,
}

abbrev pub if_active : Json → Option Json
if_active lease = if is_text "ACTIVE" (get "state" lease) then some lease else none

abbrev pub live_content : Content → Option Json
live_content (readable lease) = if_active lease
live_content unreadable = none
live_content (irregular _) = none

-- The record of an entry that can be read and is ACTIVE.
abbrev pub live : Entry → Option Json
live e = live_content e.content

active_not_released : (v : Json) → is_text "ACTIVE" v ≡ true → is_text "RELEASED" v ≡ false
active_not_released (str t) k =
    ap (λ s. text_eq s (codes "RELEASED")) ((text_eq_iff t (codes "ACTIVE")).0 k)
active_not_released null k = refl
active_not_released (bool b) k = refl
active_not_released (int z) k = refl
active_not_released (real z e) k = refl
active_not_released (arr xs) k = refl
active_not_released (obj fs) k = refl

live_fact :
    (lease k : Json)
    → if_active lease ≡ some k
    → (lease ≡ k) × (is_text "ACTIVE" (get "state" lease) ≡ true)
live_fact lease k e = split (is_text "ACTIVE" (get "state" lease)) e
  where
    split : (b : Bool) → (if b then some lease else none) ≡ some k → (lease ≡ k) × (b ≡ true)
    split true q = (cc, refl)
    split false q = cc

module _ (h : Host) where
  -- Whatever two records claim can be claimed at once.
  abbrev pub Together : Json → Json → Type 0
  Together j k = (a b : Sets) → sets h j ≡ ok a → sets h k ≡ ok b → Compatible a b

  abbrev pub Apart : Entry → Entry → Type 0
  Apart e f = (j k : Json) → live e ≡ some j → live f ≡ some k → Together j k

  abbrev pub ApartFrom : Entry → List Entry → Type 0
  ApartFrom e [] = Unit {0}
  ApartFrom e (f ∷ fs) = Apart e f × ApartFrom e fs

  -- Any two ACTIVE records are compatible.
  abbrev pub Exclusive : List Entry → Type 0
  Exclusive [] = Unit {0}
  Exclusive (e ∷ es) = ApartFrom e es × Exclusive es

  pub Apart-sym : (e f : Entry) → Apart e f → Apart f e
  Apart-sym e f p j k x y a b s t = Compatible-sym b a (p k j y x b a t s)

  overlaps_nil :
      (candidate : Json) (a : Sets) (other : Found) (b : Sets)
      → overlaps_with h candidate a other ≡ ok []
      → sets h other.lease ≡ ok b
      → Compatible a b
  unfolding overlaps_with
  overlaps_nil candidate a other b k s =
      let (c, t, k1) = >>=-eq-ok (sets h other.lease) _ k in
      let parts =
        append_nil (id_overlaps h candidate other)
          (set_overlaps (or_inferred h (declared_id other.lease) other.inferred_id) a c)
          (payload _ k1) in
      subst (Compatible a) (same c b t s) (
        set_overlaps-Compatible (or_inferred h (declared_id other.lease) other.inferred_id) a c
          parts.1)
    where
      payload : (xs : List Overlap) → ok xs ≡ ok [] → xs ≡ []
      payload xs q = cc

      same : (c b : Sets) → sets h other.lease ≡ ok c → sets h other.lease ≡ ok b → c ≡ b
      same c b p q = cc

  each_nil :
      (candidate : Json) (a : Sets) (other : Found) (rest : List Found)
      → overlaps_each h candidate a (other ∷ rest) ≡ ok []
      → (overlaps_with h candidate a other ≡ ok []) × (overlaps_each h candidate a rest ≡ ok [])
  unfolding overlaps_each
  each_nil candidate a other rest k =
      let (one, p, k1) = >>=-eq-ok (overlaps_with h candidate a other) _ k in
      let (more, q, k2) = >>=-eq-ok (overlaps_each h candidate a rest) _ k1 in
      let parts = append_nil one more (payload _ k2) in (p ∙ ap ok parts.0, q ∙ ap ok parts.1)
    where
      payload : (xs : List Overlap) → ok xs ≡ ok [] → xs ≡ []
      payload xs q = cc

  -- The scan hands an ACTIVE record on as it is.
  scan_live :
      (m : Moment) (name : Text) (c : Content) (k : Json) (f : Found)
      → live_content c ≡ some k
      → scan_content h m name c ≡ ok f
      → f.lease ≡ k
  unfolding scan_content scan_record
  scan_live m name (readable lease) k f p q =
      let t = live_fact lease k p in
      seen (is_text "RELEASED" (get "state" lease)) (supported h lease) (is_named name lease) _
        (active_not_released (get "state" lease) t.1) q
      ∙ t.0
    where
      seen :
          (b c d : Bool) (r : Result Json)
          → b ≡ false
          → ((if b && c && d then r else ok lease) >>= λ v.
              ok (record { inferred_id = name; lease = v }))
            ≡ ok f
          → f.lease ≡ lease
      seen b c d r x y = ground arith
  scan_live m name unreadable k f p q = cc
  scan_live m name (irregular retained) k f p q = cc

  -- A candidate without overlaps is compatible with every ACTIVE record that the scan saw.
  scanned :
      (m : Moment) (candidate : Json) (a : Sets) (entries : List Entry) (found : List Found)
      → sets h candidate ≡ ok a
      → active_leases h m entries ≡ ok found
      → overlaps_each h candidate a found ≡ ok []
      → (e : Entry) → live e ≡ some candidate
      → ApartFrom e entries
  unfolding active_leases
  scanned m candidate a [] found s k n e l = tt
  scanned m candidate a (f ∷ fs) found s k n e l =
      let (one, p, k1) = >>=-eq-ok (scan_content h m f.name f.content) _ k in
      let (more, q, k2) = >>=-eq-ok (active_leases h m fs) _ k1 in
      let parts =
        each_nil candidate a one more
          (subst (λ z. overlaps_each h candidate a z ≡ ok []) (cons_eq _ _ k2) n) in
      (
        λ j k' x y b c t u.
            let seen = scan_live m f.name f.content k' one y p in
            subst (λ z. Compatible z c)
              (same a b s (subst (λ v. sets h v ≡ ok b) (some_eq j candidate (sym x ∙ l)) t))
              (overlaps_nil candidate a one c parts.0 (subst (λ v. sets h v ≡ ok c) (sym seen) u)),
        scanned m candidate a fs more s q parts.1 e l,
      )
    where
      cons_eq : (x y : List Found) → ok x ≡ ok y → y ≡ x
      cons_eq x y z = cc

      same : (x y : Sets) → sets h candidate ≡ ok x → sets h candidate ≡ ok y → x ≡ y
      same x y p q = cc

      some_eq : (x y : Json) → some x ≡ some y → x ≡ y
      some_eq x y p = cc

  -- What `refuse_overlaps` lets through.
  pub refuse_overlaps-ApartFrom :
      (m : Moment) (candidate : Json) (entries : List Entry)
      → refuse_overlaps h m candidate entries ≡ ok tt
      → (e : Entry) → live e ≡ some candidate
      → ApartFrom e entries
  unfolding refuse_overlaps find_overlaps
  refuse_overlaps-ApartFrom m candidate entries k =
      let (found, p, k1) = >>=-eq-ok (active_leases h m entries) _ k in
      let (overlaps, q, k2) =
        >>=-eq-ok (sets h candidate >>= λ a. overlaps_each h candidate a found) _ k1 in
      let (a, s, k3) = >>=-eq-ok (sets h candidate) _ q in
      scanned m candidate a entries found s p (k3 ∙ ap ok (empty overlaps k2))
    where
      empty :
          (xs : List Overlap)
          → raise_if (not (is_empty xs)) (runtime_error "Repository-set overlap detected") ≡ ok tt
          → xs ≡ []
      empty [] q = refl
      empty (x ∷ xs) q = cc
