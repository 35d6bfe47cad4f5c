-- ===== src/Unreal/Structs.antt =====
-- src/unrealsdk/unreal/classes/ustruct.cpp and uclass.cpp: the fields and properties of a struct and of
-- those it inherits from. A pointer to a field is the rest of its list, and a pointer to a struct is
-- the chain of that struct and its super structs, whose end is null.
pub mod Iteration
pub mod Lookups
use unrealsdk.Base.{
  ℕ, zero, suc, ◌+◌, ◌≡◌, refl, Bool, true, false, if◌then◌else◌, ◌==◌, Option, none, some, List,
  [], ◌∷◌, ◌++◌, ite, ℕ_discrete, length,
}

-- A `UField` or an `FField`: its name, and whether its class inherits from the property class.
pub record Field : Type 0 where
  pub name : ℕ
  pub is_property : Bool

-- A struct: its address, the lists of its children and of its child properties, the interfaces it
-- implements and whether it is a class, and its super struct.
pub data Struct : Type 0 where
  null : Struct
  struct : ℕ → List Field → List Field → List ℕ → Bool → Struct → Struct

-- `FieldIterator` and `PropertyIterator`: the struct they are in and the field they are at.
abbrev pub Iterator : Type 0
Iterator = Struct × List Field

unfoldable pub children : Struct → List Field
children null = []
children (struct a cs ps is c super) = cs

unfoldable pub child_properties : Struct → List Field
child_properties null = []
child_properties (struct a cs ps is c super) = ps

-- The loop of `FieldIterator::operator++` that tries the next struct while there is no field.
unfoldable pub next_struct : Struct → List Field → Iterator
next_struct this (f ∷ fs) = (this, f ∷ fs)
next_struct null [] = (null, [])
next_struct (struct a cs ps is c super) [] = next_struct super (children super)

unfoldable pub next_field : Iterator → Iterator
next_field (this, []) = next_struct this []
next_field (this, f ∷ fs) = next_struct this fs

-- `fields`: where the iteration begins.
unfoldable pub fields : Struct → Iterator
fields this = elim (children this) [ [] ↦ next_field (this, []) | f ∷ fs ↦ (this, f ∷ fs) ]

-- The field at or after a position that is a property.
unfoldable pub skip_to_property : List Field → List Field
skip_to_property [] = []
skip_to_property (f ∷ fs) = let rest = skip_to_property fs in if f.is_property then f ∷ fs else rest

unfoldable pub next_property_struct : Struct → List Field → Iterator
next_property_struct this (f ∷ fs) = (this, f ∷ fs)
next_property_struct null [] = (null, [])
next_property_struct (struct a cs ps is c super) [] =
    next_property_struct super (skip_to_property (child_properties super))

unfoldable pub next_property : Iterator → Iterator
next_property (this, []) = next_property_struct this []
next_property (this, f ∷ fs) = next_property_struct this (skip_to_property fs)

unfoldable pub properties : Struct → Iterator
properties this = elim (child_properties this) [
  | [] ↦ next_property (this, [])
  | f ∷ fs ↦ if f.is_property then (this, f ∷ fs) else next_property (this, f ∷ fs)
]

-- A loop from an iterator to the end, `{nullptr, nullptr}`, with `fuel` rounds left: what it visits.
unfoldable pub visit : (Iterator → Iterator) → ℕ → Iterator → List Field
visit increment zero it = []
visit increment (suc fuel) (this, []) = []
visit increment (suc fuel) (this, f ∷ fs) = f ∷ visit increment fuel (increment (this, f ∷ fs))

-- `superfields`: the addresses of a struct and those it inherits from.
unfoldable pub superfields : Struct → List ℕ
superfields null = []
superfields (struct a cs ps is c super) = a ∷ superfields super

unfoldable pub contains : ℕ → List ℕ → Bool
contains a [] = false
contains a (b ∷ bs) = ite (ℕ_discrete b a) true (contains a bs)

-- `inherits`
unfoldable pub inherits : Struct → ℕ → Bool
inherits this base_struct = contains base_struct (superfields this)

-- `UClass::implements`, with the class whose interface it is.
unfoldable pub implements : Struct → ℕ → Option ℕ
implements null iface = none
implements (struct a cs ps is is_class super) iface =
    let rest = implements super iface in
    if is_class then if contains iface is then some a else rest else rest

-- The first field with a name among those a loop visits.
unfoldable pub first_named : ℕ → List Field → Option Field
first_named name [] = none
first_named name (f ∷ fs) = ite (ℕ_discrete (f.name) name) (some f) (first_named name fs)

-- How many fields, and how many child properties, a struct and those it inherits from have: enough
-- rounds for a loop over them.
unfoldable pub field_count : Struct → ℕ
field_count null = 0
field_count (struct a cs ps is c super) = length cs + field_count super

unfoldable pub property_count : Struct → ℕ
property_count null = 0
property_count (struct a cs ps is c super) = length ps + property_count super

-- `find_prop`, which throws when there is none.
unfoldable pub find_prop : Struct → ℕ → Option Field
find_prop this name = first_named name (visit next_property (property_count this) (properties this))

-- `find`, where properties are no `UField`s: a property, a field, or an exception.
pub data Found : Type 0 where
  property : Field → Found
  field : Field → Found
  not_found : Found

-- A property, if there is one, else a field.
unfoldable pub found_in : Option Field → Option Field → Found
found_in (some f) other = property f
found_in none (some f) = field f
found_in none none = not_found

unfoldable pub find : Struct → ℕ → Found
find this name =
    found_in (find_prop this name)
      (first_named name (visit next_field (field_count this) (fields this)))
