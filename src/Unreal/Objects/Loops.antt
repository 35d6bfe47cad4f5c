-- ===== src/Unreal/Objects/Loops.antt =====
-- The loop over all objects.
use unrealsdk.Base.{
  ℕ, zero, suc, ◌≤◌, ◌≡◌, refl, sym, ◌∙◌, ap, Option, none, some, List, [], ◌∷◌, length, arith,
  Option-cases, inl, inr,
}
use unrealsdk.Unreal.Objects.{Object, Item, next_object, visit, all_objects}

-- The objects that are alive, in order.
unfoldable pub alive : List Item → List (Option Object)
alive [] = []
alive (item ∷ items) =
    let rest = alive items in elim (item.object) [ none ↦ rest | some o ↦ some o ∷ rest ]

module _ (item : Item) (items : List Item) where
  next_object-dead : item.object ≡ none → next_object (item ∷ items) ≡ next_object items
  unfolding next_object
  next_object-dead e =
      ap (λ o. elim o as (λ _. List Item) [ none ↦ next_object items | some o ↦ item ∷ items ]) e

  next_object-alive :
      (o : Object) → item.object ≡ some o → next_object (item ∷ items) ≡ item ∷ items
  unfolding next_object
  next_object-alive o e =
      ap (λ o. elim o as (λ _. List Item) [ none ↦ next_object items | some o ↦ item ∷ items ]) e

  alive-dead : item.object ≡ none → alive (item ∷ items) ≡ alive items
  unfolding alive
  alive-dead e =
      ap
        (λ o. elim o as (λ _. List (Option Object)) [
          | none ↦ alive items
          | some o ↦ some o ∷ alive items
        ])
        e

  alive-alive : (o : Object) → item.object ≡ some o → alive (item ∷ items) ≡ some o ∷ alive items
  unfolding alive
  alive-alive o e =
      ap
        (λ o. elim o as (λ _. List (Option Object)) [
          | none ↦ alive items
          | some o ↦ some o ∷ alive items
        ])
        e

visit-next_object :
    (fuel : ℕ) (items : List Item)
    → length items ≤ fuel
    → visit fuel (next_object items) ≡ alive items
unfolding visit next_object alive
visit-next_object zero [] l = refl
visit-next_object (suc fuel) [] l = refl
visit-next_object zero (item ∷ items) l = absurd (omega arith)
visit-next_object (suc fuel) (item ∷ items) l = elim (Option-cases (item.object)) [
  | inl e ↦
      ap (visit (suc fuel)) (next_object-dead item items e)
      ∙ visit-next_object (suc fuel) items (omega arith)
      ∙ sym (alive-dead item items e)
  | inr (o, e) ↦
      ap (visit (suc fuel)) (next_object-alive item items o e)
      ∙ ap (◌∷◌ (item.object)) (visit-next_object fuel items (omega arith))
      ∙ ap (λ x. x ∷ alive items) e
      ∙ sym (alive-alive item items o e)
]

-- The loop over the objects of a table that is not empty reads its first entry, alive or not, and
-- then each object that is alive, in order; on an empty table it throws.
pub all_objects_lem :
    (item : Item) (items : List Item) (master : ℕ)
    → (all_objects (record { items = item ∷ items; master_serial_number = master })
        ≡ some (item.object ∷ alive items))
      × (all_objects (record { items = []; master_serial_number = master }) ≡ none)
unfolding all_objects visit
all_objects_lem item items master = (
  ap (λ os. some (item.object ∷ os)) (visit-next_object (length items) items (omega arith)),
  refl,
)
