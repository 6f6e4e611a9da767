-- ===== src/Leases/Refines.antt =====
-- `acquire`, `replace` and `release` are steps of the table of leases.
use coordination_loop_harnes.Base.{
  Bool, true, false, Option, some, List, [], ◌∷◌, Text, text_eq, select, if◌then◌else◌, ok, ◌≡◌,
  refl, sym, ap, ◌∙◌, inl, inr, Bool-cases,
}
use coordination_loop_harnes.Json.{Json}
use coordination_loop_harnes.Util.Host.{Host}
use coordination_loop_harnes.Leases.AccessLaws.{text_eq_iff}
use coordination_loop_harnes.Leases.Registry.{
  Content, readable, unreadable, irregular, Entry, same_name, overwrite,
}
use coordination_loop_harnes.Leases.Changes.{read_entry, single, exact_content}
use coordination_loop_harnes.Leases.Exclusive.{written_entry, folded, same_folded}
use coordination_loop_harnes.Leases.View.{view, Sets}

-- Adding a record under a name that is free.
pub added-Sets :
    (name : Text) (lease : Json) (es : List Entry)
    → Sets name lease (view es) (view (written_entry name lease ∷ es))
unfolding view
added-Sets name lease es = record {
  there =
      ap (λ b. if b then some (readable lease) else view es name) ((text_eq_iff name name).1 refl);
  elsewhere = λ other d. ap (λ b. if b then some (readable lease) else view es other) d;
}

module _ (h : Host) where
  -- A record that was read is the one in the table.
  pub read_entry-view :
      (name : Text) (es : List Entry) (lease : Json)
      → read_entry h name es ≡ ok lease
      → view es name ≡ some (readable lease)
  unfolding read_entry view
  read_entry-view name es lease k = found es k
    where
      exact_fact :
          (b : Bool) (c : Content)
          → exact_content h b c ≡ ok lease
          → (b ≡ true) × (c ≡ readable lease)
      exact_fact true (readable v) q = (refl, cc)
      exact_fact true unreadable q = cc
      exact_fact true (irregular v) q = cc
      exact_fact false c q = cc

      hit :
          (b : Bool) (e : Entry) (r : List Entry) (rest : Option Content)
          → folded h name e ≡ b
          → (b ≡ false → single h name r ≡ ok lease → rest ≡ some (readable lease))
          → single h name (if b then e ∷ r else r) ≡ ok lease
          → (if same_name name e then some e.content else rest) ≡ some (readable lease)
      hit true e [] rest f ih q =
          let (same, is) = exact_fact (same_name name e) e.content q in
          ap (λ c. if c then some e.content else rest) same ∙ ap some is
      hit true e (x ∷ r) rest f ih q = cc
      hit false e r rest f ih q = elim (Bool-cases (same_name name e)) [
        | inl s ↦ absurd (clash (same_folded h name e s) f)
        | inr s ↦ ap (λ c. if c then some e.content else rest) s ∙ ih refl q
      ]
        where
          clash : {b : Bool} → b ≡ true → b ≡ false → ⊥
          clash p r = cc

      found :
          (es : List Entry)
          → single h name (select (folded h name) es) ≡ ok lease
          → view es name ≡ some (readable lease)
      found [] q = cc
      found (e ∷ es) q =
          hit (folded h name e) e (select (folded h name) es) (view es name) refl (λ f. found es) q

  pub overwrite-Sets :
      (name : Text) (old lease : Json) (es : List Entry)
      → view es name ≡ some (readable old)
      → Sets name lease (view es) (view (overwrite h name lease es))
  unfolding view overwrite
  overwrite-Sets name old lease [] k = cc
  overwrite-Sets name old lease (e ∷ es) k = placed (same_name name e) refl (λ s.
      overwrite-Sets name old lease es
        (sym (ap (λ c. if c then some e.content else view es name) s) ∙ k))
    where
      placed :
          (b : Bool)
          → same_name name e ≡ b
          → (same_name name e ≡ false
              → Sets name lease (view es) (view (overwrite h name lease es)))
          → Sets name lease
              (view (e ∷ es))
              (view (if b then written_entry name lease ∷ es else e ∷ overwrite h name lease es))
      placed true s rest = record {
        there =
            ap (λ c. if c then some (readable lease) else view es name)
              ((text_eq_iff name name).1 refl);
        elsewhere = λ other d.
            ap (λ c. if c then some (readable lease) else view es other) d
            ∙ sym (
                ap (λ c. if c then some e.content else view es other)
                  (ap (λ z. text_eq z other) ((text_eq_iff e.name name).0 s) ∙ d));
      }
      placed false s rest = record {
        there =
            ap (λ c. if c then some e.content else view (overwrite h name lease es) name) s
            ∙ (rest s).there;
        elsewhere = λ other d.
            ap (λ z. if same_name other e then some e.content else z) ((rest s).elsewhere other d);
      }
