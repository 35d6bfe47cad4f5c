-- ===== src/Unreal/Structs/Lookups.antt =====
-- Inheritance, interfaces and lookups by name.
use unrealsdk.Base.{
  ℕ, ◌≡◌, ◌≢◌, ◌⊎◌, inl, inr, refl, sym, subst, Bool, true, List, [], ◌∷◌, arith, is_some, Option,
  none, some, ite, ℕ_discrete,
}
use unrealsdk.Unreal.Structs.{
  Field, Struct, struct, superfields, contains, inherits, implements, first_named, find_prop, Found,
  property, field, not_found, found_in, find,
}
use unrealsdk.Unreal.Structs.Iteration.{
  all_children, all_properties, visit-fields, visit-properties,
}

-- The struct itself or one it inherits from.
pub data IsSuper : Struct → Struct → Type 0 where
  self : {this : Struct} → IsSuper this this
  above :
      {a : ℕ} {cs ps : List Field} {is : List ℕ} {c : Bool} {super that : Struct}
      → IsSuper super that
      → IsSuper (struct a cs ps is c super) that

-- What a struct inherits from, each struct whose chain of super structs leads to it inherits from.
pub inherits-IsSuper :
    (this that : Struct) (base : ℕ)
    → IsSuper this that
    → inherits that base ≡ true
    → inherits this base ≡ true
unfolding inherits superfields contains
inherits-IsSuper this that base self e = e
inherits-IsSuper (struct a cs ps is c super) that base (above s) e =
    ground (arith, inherits-IsSuper super that base s e)

-- An interface that a class implements, each class whose chain of super classes leads to it
-- implements.
pub implements-IsSuper :
    (this that : Struct) (iface : ℕ)
    → IsSuper this that
    → is_some (implements that iface) ≡ true
    → is_some (implements this iface) ≡ true
unfolding implements
implements-IsSuper this that iface self e = e
implements-IsSuper (struct a cs ps is c super) that iface (above s) e =
    ground (arith, implements-IsSuper super that iface s e)

-- The first of the fields that has the name, or none when none of them has it.
unfoldable pub IsFirst : ℕ → List Field → Option Field → Type 0
IsFirst name [] found = found ≡ none
IsFirst name (f ∷ fs) found =
    ((f.name ≡ name) × (found ≡ some f)) ⊎ ((f.name ≢ name) × IsFirst name fs found)

-- A property that is found is the first of the name on the chain; a field is the first of the name where
-- no property has it; and nothing is found where neither has it.
unfoldable pub IsFound : ℕ → Struct → Found → Type 0
IsFound name this (property f) = IsFirst name (all_properties this) (some f)
IsFound name this (field f) =
    IsFirst name (all_properties this) none × IsFirst name (all_children this) (some f)
IsFound name this not_found =
    IsFirst name (all_properties this) none × IsFirst name (all_children this) none

first_named-IsFirst : (name : ℕ) (fs : List Field) → IsFirst name fs (first_named name fs)
unfolding first_named IsFirst
first_named-IsFirst name [] = refl
first_named-IsFirst name (f ∷ fs) =
    elim (ℕ_discrete f.name name)
      as (λ d.
        ((f.name ≡ name) × (ite d (some f) (first_named name fs) ≡ some f))
        ⊎ ((f.name ≢ name) × IsFirst name fs (ite d (some f) (first_named name fs)))) [
          | yes same ↦ inl (same, refl)
          | no other ↦ inr (other, first_named-IsFirst name fs)
        ]

found_in-IsFound :
    (name : ℕ) (this : Struct) (p f : Option Field)
    → IsFirst name (all_properties this) p
    → IsFirst name (all_children this) f
    → IsFound name this (found_in p f)
unfolding found_in IsFound
found_in-IsFound name this (some p) f first other = first
found_in-IsFound name this none (some f) first other = (first, other)
found_in-IsFound name this none none first other = (first, other)

-- `find_prop` gives the first property of the name, from the struct up the chain of its super structs,
-- and throws when there is none. `find` prefers a property anywhere on the chain to a field: it gives the
-- first field of the name only when no property has it, and throws when no field has it either.
pub find_lem :
    (this : Struct) (name : ℕ)
    → IsFirst name (all_properties this) (find_prop this name) × IsFound name this (find this name)
unfolding find find_prop
find_lem this name =
    let props =
      subst (λ fs. IsFirst name (all_properties this) (first_named name fs))
        (sym (visit-properties this)) (first_named-IsFirst name (all_properties this)) in
    let others =
      subst (λ fs. IsFirst name (all_children this) (first_named name fs)) (sym (visit-fields this))
        (first_named-IsFirst name (all_children this)) in
    (props, found_in-IsFound name this _ _ props others)
