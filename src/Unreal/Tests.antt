-- ===== src/Unreal/Tests.antt =====
-- Arrays, structs and objects at concrete inputs.
use unrealsdk.Base.{◌≤◌, ℕ, ◌≡◌, refl, Bool, true, false, none, some, List, [], ◌∷◌, arith}
use unrealsdk.Unreal.TArray.{
  TArray, resize, grown_capacity, resized, with_count, reserve, reserved_cells, zeroed_from,
  allocated, replicate,
}
use unrealsdk.Unreal.TArray.Sizes.{IsTArray, HasCells}
use unrealsdk.Unreal.TArray.Resize.{Resizes, resize-Resizes}
use unrealsdk.Unreal.Structs.{
  Field, Struct, null, struct, visit, next_property, properties, property_count, find, find_prop,
}
use unrealsdk.Unreal.Structs.Iteration.{all_properties, visit-properties}
use unrealsdk.Unreal.Structs.Lookups.{IsFirst, IsFound, find_lem}
use unrealsdk.Unreal.PathNames.{
  Outer, object, no_outer, is_package, is_subobject_outer, iter_path_name, IsPackaged, HasNoColons,
  count, path_name_colons,
}
use unrealsdk.Unreal.Objects.{
  Object, Item, GObjects, next_serial, obj_at, size, FWeakObjectPtr, get_weak_object,
  set_weak_object, with_serial, weak_to,
}
use unrealsdk.Unreal.Objects.Fading.{dereference_all, Fades, dereference_all-Fades}
use unrealsdk.Unreal.Objects.WeakPointers.{
  WeakPointer, assign, dereference, dereference-assign, is_same, dereference_mutable,
  get_weak_object-set_weak_object, get_weak_object_stale,
}

abbrev gives : ℕ → Bool
gives bytes = true

abbrev array : TArray ℕ
array = record { cells = some (7 ∷ 8 ∷ []); count = 2; max = 2 }

array-IsTArray : IsTArray array
unfolding IsTArray HasCells
array-IsTArray = (omega arith, omega arith, refl)

-- Growing to three elements asks for four cells, and zeroes the new ones.
resize_test :
    resize gives 99 0 4 3 array
    ≡ (record { cells = some (7 ∷ 8 ∷ 0 ∷ 0 ∷ []); count = 3; max = 4 }, none)
unfolding resize resized with_count reserve reserved_cells zeroed_from allocated replicate
    grown_capacity
resize_test = refl

resize-Resizes_example : Resizes 3 array (resize gives 99 0 4 3 array)
resize-Resizes_example = resize-Resizes gives 99 0 4 3 array array-IsTArray (omega arith)

abbrev health : Field
health = record { name = 1; is_property = true }

abbrev function : Field
function = record { name = 2; is_property = false }

-- A struct without children of its own, over one with a function and a property.
abbrev base : Struct
base = struct 100 (function ∷ []) (function ∷ health ∷ []) (50 ∷ []) true null

abbrev derived : Struct
derived = struct 200 [] [] [] true base

visit-properties_example :
    visit next_property (property_count derived) (properties derived) ≡ all_properties derived
visit-properties_example = visit-properties derived

find_lem_example :
    IsFirst 1 (all_properties derived) (find_prop derived 1) × IsFound 1 derived (find derived 1)
find_lem_example = find_lem derived 1

abbrev actor : Object
actor = record {
  address = 1000;
  internal_index = 1;
  outer = 900;
  vftable = 800;
  class_address = 700;
  name = 3;
}

abbrev empty_item : Item
empty_item = record { object = none; serial_number = 0 }

abbrev actor_item : Item
actor_item = record { object = some actor; serial_number = 0 }

abbrev objects : GObjects
objects = record { items = empty_item ∷ actor_item ∷ []; master_serial_number = 5 }

abbrev unset : WeakPointer
unset = record {
  obj_addr = 0;
  index = 0;
  outer_addr = 0;
  vftable_addr = 0;
  class_addr = 0;
  name = 0;
}

actor_stands : obj_at objects 1 ≡ some (some actor)
unfolding obj_at
actor_stands = refl

dereference-assign-actor : dereference objects (assign unset (some actor)) ≡ some actor
dereference-assign-actor = dereference-assign objects unset actor (omega arith) actor_stands

-- The table before and after the actor is gone, and after it is back.
abbrev tables : List GObjects
tables =
    objects
    ∷ (record { items = empty_item ∷ empty_item ∷ []; master_serial_number = 5 })
    ∷ objects
    ∷ []

tables_test : dereference_all tables (assign unset (some actor)) ≡ some actor ∷ none ∷ none ∷ []
unfolding dereference_all dereference_mutable dereference assign is_same obj_at size
tables_test = refl

dereference_all-Fades_example :
    Fades actor tables (dereference_all tables (assign unset (some actor)))
dereference_all-Fades_example = dereference_all-Fades actor tables unset

get_weak_object-set_weak_object_example :
    (after : GObjects) × (ptr : FWeakObjectPtr) × (set_weak_object 0 objects (some actor)
      ≡ some (after, ptr))
    × (get_weak_object after ptr ≡ some actor)
get_weak_object-set_weak_object_example =
    get_weak_object-set_weak_object 0 objects actor actor_item (omega arith) refl refl

-- A reference with an older serial number.
get_weak_object_stale_example :
    (get_weak_object objects (weak_to 1 4) ≡ none)
    × (set_weak_object 0 objects (some actor)
        ≡ some (with_serial 1 (next_serial objects) objects, weak_to 1 (next_serial objects)))
    × (get_weak_object (with_serial 1 (next_serial objects) objects) (weak_to 1 4) ≡ none)
get_weak_object_stale_example =
    get_weak_object_stale objects 1 4 actor actor_item (omega arith) (omega arith) refl refl refl

-- A map in a package, its level, and an actor in the level.
abbrev package_object : Outer
package_object = object (b'P' ∷ []) true no_outer

abbrev level_object : Outer
level_object = object (b'M' ∷ []) false package_object

abbrev actor_object : Outer
actor_object = object (b'A' ∷ []) false (object (b'L' ∷ []) false level_object)

path_name_test : iter_path_name actor_object ≡ b'P' ∷ b'.' ∷ b'M' ∷ b':' ∷ b'L' ∷ b'.' ∷ b'A' ∷ []
unfolding iter_path_name is_subobject_outer is_package
path_name_test = refl

actor-IsPackaged : IsPackaged actor_object
unfolding IsPackaged
actor-IsPackaged = tt

actor-HasNoColons : HasNoColons actor_object
unfolding HasNoColons count
actor-HasNoColons = (refl, (refl, (refl, (refl, tt))))

path_name_colons_test : count b':' (iter_path_name actor_object) ≤ 1
path_name_colons_test = path_name_colons actor_object actor-IsPackaged actor-HasNoColons
