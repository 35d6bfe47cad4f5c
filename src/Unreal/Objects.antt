-- ===== src/Unreal/Objects.antt =====
-- src/unrealsdk/unreal/wrappers/gobjects.cpp and weak_pointer.cpp: the table
-- of all objects, and references that do not keep their object alive.
pub mod Loops
pub mod WeakPointers
pub mod Fading
use unrealsdk.Base.{
  ℤ, pos, negsuc, ◌%◌, ℕ, zero, suc, ◌+◌, ◌-◌, ◌≡◌, refl, Bool, true, false, not, if◌then◌else◌,
  ◌==◌, leb, ltb, ◌&&◌, ◌||◌, Option, none, some, List, [], ◌∷◌, ◌++◌, get_elem?, length, ite,
  ℕ_discrete,
}

-- An object's address, its index in the table, and what an UE3 weak pointer compares.
pub record Object : Type 0 where
  pub address : ℕ
  pub internal_index : ℕ
  pub outer : ℕ
  pub vftable : ℕ
  pub class_address : ℕ
  pub name : ℕ

-- An entry of the table: the object, if it is alive, and the serial number, 0 for none.
pub record Item : Type 0 where
  pub object : Option Object
  pub serial_number : ℕ

pub record GObjects : Type 0 where
  pub items : List Item
  pub master_serial_number : ℕ

unfoldable pub size : GObjects → ℕ
size g = length (g.items)

unfoldable pub object_of : Option Item → Option Object
object_of none = none
object_of (some item) = item.object

-- `obj_at`: an exception out of range, else the object, or null.
unfoldable pub obj_at : GObjects → ℕ → Option (Option Object)
obj_at g idx = elim (get_elem? (g.items) idx) [ none ↦ none | some item ↦ some (item.object) ]

-- The iterator's loop, over the entries after the one it is at: the next that is not null.
unfoldable pub next_object : List Item → List Item
next_object [] = []
next_object (item ∷ items) =
    let rest = next_object items in elim (item.object) [ none ↦ rest | some o ↦ item ∷ items ]

-- A loop over the table, with `fuel` rounds left, from an entry to the end. The first entry is not
-- skipped when it is null.
unfoldable pub visit : ℕ → List Item → List (Option Object)
visit zero items = []
visit (suc fuel) [] = []
visit (suc fuel) (item ∷ items) = item.object ∷ visit fuel (next_object items)

-- The loop from `begin`: reading the first entry of an empty table throws.
unfoldable pub all_objects : GObjects → Option (List (Option Object))
all_objects g = elim (g.items) [
  | [] ↦ none
  | item ∷ items ↦ some (visit (suc (length items)) (item ∷ items))
]

-- `FWeakObjectPtr`
pub record FWeakObjectPtr : Type 0 where
  pub object_index : ℤ
  pub object_serial_number : ℕ

abbrev pub null_weak : FWeakObjectPtr
null_weak = record { object_index = negsuc 0; object_serial_number = 0 }

-- `ObjObjects.at` behind the check of the index, which is signed.
unfoldable pub item_at : List Item → ℤ → Option Item
item_at items (pos idx) = get_elem? items idx
item_at items (negsuc n) = none

-- `++MasterSerialNumber`, of 32 bits.
unfoldable pub next_serial : GObjects → ℕ
next_serial g = suc (g.master_serial_number) % 4294967296

unfoldable pub get_weak_object : GObjects → FWeakObjectPtr → Option Object
get_weak_object g ptr =
    if ptr.object_serial_number == 0 then none else elim (item_at (g.items) (ptr.object_index)) [
      | none ↦ none
      | some item ↦ if ptr.object_serial_number == item.serial_number then item.object else none
    ]

unfoldable pub set_serial : ℕ → ℕ → List Item → List Item
set_serial idx serial [] = []
set_serial zero serial (item ∷ items) =
    record { object = item.object; serial_number = serial } ∷ items
set_serial (suc idx) serial (item ∷ items) = item ∷ set_serial idx serial items

-- `set_weak_object`: `raced` is the serial number that another thread stored between the two reads of
-- the entry, 0 for none. An index outside the table is undefined behaviour, `none` here.
unfoldable pub chosen_serial : ℕ → ℕ → ℕ
chosen_serial raced fresh = if raced == 0 then fresh else raced

unfoldable pub weak_to : ℕ → ℕ → FWeakObjectPtr
weak_to idx serial = record { object_index = pos idx; object_serial_number = serial }

unfoldable pub with_serial : ℕ → ℕ → GObjects → GObjects
with_serial idx serial g = record {
  items = set_serial idx serial (g.items);
  master_serial_number = next_serial g;
}

unfoldable pub set_weak_object : ℕ → GObjects → Option Object → Option (GObjects × FWeakObjectPtr)
set_weak_object raced g none = some (g, null_weak)
set_weak_object raced g (some obj) = elim (get_elem? (g.items) (obj.internal_index)) [
  | none ↦ none
  | some item ↦
      let serial = chosen_serial raced (next_serial g) in
      if item.serial_number == 0
      then some (with_serial (obj.internal_index) serial g, weak_to (obj.internal_index) serial)
      else some (g, weak_to (obj.internal_index) (item.serial_number))
]
