-- ===== src/Leases/Replacement.antt =====
-- What a successful `replace` made sure of, and what it leaves.
use coordination_loop_harnes.Base.{
  ℕ, Bool, true, false, ◌&&◌, not, List, [], ◌∷◌, Text, select, ok, ◌≡◌, refl, sym, ap, subst, ◌∙◌,
  inl, inr, >>=-eq-ok, raise_if-eq-ok,
}
use coordination_loop_harnes.Base.Int.{ℤ}
use coordination_loop_harnes.Json.{Json, get}
use coordination_loop_harnes.Util.Host.{Host}
use coordination_loop_harnes.Leases.Sets.{is_v2}
use coordination_loop_harnes.Leases.Validate.{validate_lease, text_of}
use coordination_loop_harnes.Leases.Authority.{within_repository, validate_replacement_authority}
use coordination_loop_harnes.Leases.Registry.{
  Entry, Archived, LockRoot, Moment, others, refuse_overlaps, overwrite,
}
use coordination_loop_harnes.Leases.Changes.{
  read_entry, check_current, check_schemas, check_replacement, archive, publish_replacement,
  replace, single,
}
use coordination_loop_harnes.Leases.Apart.{Exclusive}
use coordination_loop_harnes.Leases.Exclusive.{folded, AtMostOne, Exclusive-overwrite, new_apart}

module _ (h : Host) where
  pub read_alone :
      (name : Text) (entries : List Entry) (current : Json)
      → read_entry h name entries ≡ ok current
      → AtMostOne h (select (folded h name) entries)
  unfolding read_entry
  read_alone name entries current k = found (select (folded h name) entries) k
    where
      found : (r : List Entry) → single h name r ≡ ok current → AtMostOne h r
      found [] q = inl refl
      found (e ∷ []) q = inr (e, refl)
      found (e ∷ f ∷ r) q = cc

  -- What the second half of `replace` made sure of and wrote.
  pub record Published (at : ℕ → Moment) (name : Text) (candidate current : Json)
      (root after : LockRoot) : Type 0 where
    pub clear : refuse_overlaps h (at 2) candidate (others h name root.entries) ≡ ok tt
    pub archived : archive h (at 4) current root.history ≡ ok after.history
    pub entries : after.entries ≡ overwrite h name candidate root.entries

  -- What a successful `replace` went through.
  pub record Replaced (at : ℕ → Moment) (candidate : Json) (generation : ℤ) (root after : LockRoot)
      : Type 0 where
    pub name : Text
    pub current : Json
    pub named : text_of (get "lease_id" candidate) ≡ ok name
    pub was : read_entry h name root.entries ≡ ok current
    pub checked :
        check_current "Only an ACTIVE lease can be replaced" name current generation ≡ ok tt
    pub schemas : check_schemas h candidate current ≡ ok tt
    pub successor : check_replacement h candidate generation ≡ ok tt
    pub published : Published at name candidate current root after

  written_root : (a b : LockRoot) → ok a ≡ ok b → b ≡ a
  written_root a b q = cc

  publish-Published :
      (at : ℕ → Moment) (name : Text) (candidate current : Json) (path : Text)
      (root after : LockRoot)
      → publish_replacement h at name candidate current path root ≡ ok after
      → Published at name candidate current root after
  unfolding publish_replacement
  publish-Published at name candidate current path root after k =
      let (_, _, k1) =
        >>=-eq-ok (validate_replacement_authority h (at 0).disk candidate current path) _ k in
      let (_, _, k2) = >>=-eq-ok ((at 0).writer_binding candidate) _ k1 in
      let (_, _, k3) = >>=-eq-ok ((at 1).git_guard candidate) _ k2 in
      let (_, _, k4) = >>=-eq-ok ((at 1).writer_binding candidate) _ k3 in
      let (_, clear, k5) =
        >>=-eq-ok (refuse_overlaps h (at 2) candidate (others h name root.entries)) _ k4 in
      let (_, _, k6) = >>=-eq-ok ((at 3).writer_binding candidate) _ k5 in
      let (_, _, k7) =
        >>=-eq-ok (validate_replacement_authority h (at 3).disk candidate current path) _ k6 in
      let (_, _, k8) = >>=-eq-ok (at 3).entry_unchanged _ k7 in
      let (history, archived, k9) = >>=-eq-ok (archive h (at 4) current root.history) _ k8 in
      published history clear archived k9
    where
      published :
          (history : List Archived)
          → refuse_overlaps h (at 2) candidate (others h name root.entries) ≡ ok tt
          → archive h (at 4) current root.history ≡ ok history
          → ok (record { entries = overwrite h name candidate root.entries; history = history })
            ≡ ok after
          → Published at name candidate current root after
      published history clear archived k9 =
          let done =
            written_root
              (record { entries = overwrite h name candidate root.entries; history = history })
              after k9 in
          record {
            clear = clear;
            archived = archived ∙ ap (λ z. ok z.history) (sym done);
            entries = ap (λ z. z.entries) done;
          }

  pub replace-Replaced :
      (at : ℕ → Moment) (explicit_root : Bool) (candidate : Json) (generation : ℤ)
      (root after : LockRoot)
      → replace h at explicit_root candidate generation root ≡ ok after
      → Replaced at candidate generation root after
  unfolding replace
  replace-Replaced at explicit_root candidate generation root after k =
      let (_, k1) = raise_if-eq-ok (is_v2 candidate && not explicit_root) _ _ k in
      let (_, _, k2) = >>=-eq-ok (validate_lease h candidate true true) _ k1 in
      let (name, named, k3) = >>=-eq-ok (text_of (get "lease_id" candidate)) _ k2 in
      let (current, was, k4) = >>=-eq-ok (read_entry h name root.entries) _ k3 in
      let (_, _, k5) = >>=-eq-ok (at 0).entry_unchanged _ k4 in
      let (_, checked, k6) =
        >>=-eq-ok (check_current "Only an ACTIVE lease can be replaced" name current generation) _
          k5 in
      let (_, schemas, k7) = >>=-eq-ok (check_schemas h candidate current) _ k6 in
      let (_, successor, k8) = >>=-eq-ok (check_replacement h candidate generation) _ k7 in
      let (ref, _, k9) = >>=-eq-ok (text_of (get "decision_ref" candidate)) _ k8 in
      let (path, _, k10) = >>=-eq-ok (within_repository h (at 0).disk false ref) _ k9 in
      let p = publish-Published at name candidate current path root after k10 in
      record {
        name = name;
        current = current;
        named = named;
        was = was;
        checked = checked;
        schemas = schemas;
        successor = successor;
        published = p;
      }

  pub replace-Exclusive :
      (at : ℕ → Moment) (explicit_root : Bool) (candidate : Json) (generation : ℤ)
      (root after : LockRoot)
      → Exclusive h root.entries
      → replace h at explicit_root candidate generation root ≡ ok after
      → Exclusive h after.entries
  replace-Exclusive at explicit_root candidate generation root after ex k =
      let r = replace-Replaced at explicit_root candidate generation root after k in
      subst (Exclusive h) (sym r.published.entries) (
        Exclusive-overwrite h r.name candidate root.entries ex
          (read_alone r.name root.entries r.current r.was)
          (new_apart h (at 2) r.name candidate (others h r.name root.entries) r.published.clear))
