-- ===== src/Leases/View.antt =====
-- What the lock root promises: a table of leases, each claimed once, renewed generation by
-- generation, and closed for good.
use coordination_loop_harnes.Base.{
  false, true, Option, none, some, List, [], ◌∷◌, Text, text_eq, if◌then◌else◌, ◌≡◌,
}
use coordination_loop_harnes.Base.Int.{ℤ, pos, ◌+ℤ◌}
use coordination_loop_harnes.Json.{Json, int, get, is_text, json_eq}
use coordination_loop_harnes.Leases.Registry.{Content, readable, Entry, same_name}

-- The table that the entries of a lock root represent, whatever their order.
abbrev pub View : Type 0
View = Text → Option Content

unfoldable pub view : List Entry → View
view [] name = none
view (e ∷ es) name = if same_name name e then some e.content else view es name

abbrev pub IsActive : Json → Type 0
IsActive lease = is_text "ACTIVE" (get "state" lease) ≡ true

abbrev pub At : Json → ℤ → Type 0
At lease generation = json_eq (get "generation" lease) (int generation) ≡ true

-- One lease has a new record, and no other changes.
pub record Sets (name : Text) (lease : Json) (before after : View) : Type 0 where
  pub there : after name ≡ some (readable lease)
  pub elsewhere : (other : Text) → text_eq name other ≡ false → after other ≡ before other

-- The steps of the table.
pub data Step (before after : View) : Type 0 where
  claim :
      (name : Text) (lease : Json)
      → before name ≡ none
      → IsActive lease
      → At lease (pos 1)
      → Sets name lease before after
      → Step before after
  renew :
      (name : Text) (old new : Json) (generation : ℤ)
      → before name ≡ some (readable old)
      → IsActive old
      → At old generation
      → IsActive new
      → At new (generation +ℤ pos 1)
      → Sets name new before after
      → Step before after
  close :
      (name : Text) (old new : Json) (generation : ℤ)
      → before name ≡ some (readable old)
      → IsActive old
      → At old generation
      → is_text "ACTIVE" (get "state" new) ≡ false
      → At new (generation +ℤ pos 1)
      → Sets name new before after
      → Step before after
