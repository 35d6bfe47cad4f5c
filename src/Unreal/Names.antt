-- ===== src/Unreal/Names.antt =====
-- unreal/classes/uenum.cpp, unreal/namedobjectcache.h and unreal/find_class.cpp: the names of an enum's
-- values, and the lookup of objects by name. A name is text here, and case is not considered.
pub mod Enums
pub mod Lookup
mod Tests
use unrealsdk.Base.{
  ℕ, zero, suc, ◌+◌, ◌≡◌, Bool, true, false, if◌then◌else◌, ◌==◌, Option, none, some, List, [], ◌∷◌,
  ◌++◌, Wide, wide_discrete, lookup, assign,
}

-- `find_first_of(':')`: the text from the first colon on.
unfoldable pub from_colon : Wide → Option Wide
from_colon [] = none
from_colon (c ∷ cs) = let rest = from_colon cs in if c == b':' then some (c ∷ cs) else rest

-- `find_first_not_of(':')`: the text from the first character on that is no colon.
unfoldable pub skip_colons : Wide → Option Wide
skip_colons [] = none
skip_colons (c ∷ cs) = let rest = skip_colons cs in if c == b':' then rest else some (c ∷ cs)

-- The key without the enum's name and the colons.
unfoldable pub stripped : Wide → Wide
stripped key = elim (from_colon key) [
  | none ↦ key
  | some colons ↦ elim (skip_colons colons) [ none ↦ key | some name ↦ name ]
]

-- `emplace`, which keeps the value of a key that is there.
unfoldable pub emplace : Wide → ℕ → List (Wide × ℕ) → List (Wide × ℕ)
emplace k v m = elim (lookup k m) [ none ↦ assign k v m | some u ↦ m ]

-- `get_names` of the later games: the loop over the pairs.
unfoldable pub get_names_from : List (Wide × ℕ) → List (Wide × ℕ) → List (Wide × ℕ)
get_names_from [] output = output
get_names_from ((key, value) ∷ pairs) output =
    get_names_from pairs (emplace (stripped key) value output)

unfoldable pub get_names : List (Wide × ℕ) → List (Wide × ℕ)
get_names pairs = get_names_from pairs []

-- `get_names` of the earlier games: the loop over the names, from index `i`.
unfoldable pub get_ordered_names : List Wide → ℕ → List (Wide × ℕ) → List (Wide × ℕ)
get_ordered_names [] i output = output
get_ordered_names (name ∷ names) i output = get_ordered_names names (suc i) (emplace name i output)

pub record Named : Type 0 where
  pub address : ℕ
  pub object_name : Wide

-- `uclass`, with none for a null pointer, and the objects by name.
pub record Cache : Type 0 where
  pub uclass : Option ℕ
  pub cached : List (Wide × ℕ)

unfoldable pub add_to_cache : Named → List (Wide × ℕ) → List (Wide × ℕ)
add_to_cache obj cached = assign obj.object_name obj.address cached

-- The class of classes: the chain of classes from an object's, which ends at the class that is its own.
-- None when the rounds in the first argument are not enough.
unfoldable pub find_uclass : (ℕ → ℕ) → ℕ → ℕ → Option ℕ
find_uclass class_of zero cls = none
find_uclass class_of (suc fuel) cls =
    let rest = find_uclass class_of fuel (class_of cls) in
    if class_of cls == cls then some cls else rest

-- `is_instance` says whether an object is of a class.
module _ (is_instance : Named → ℕ → Bool) where
  -- The loop over all objects.
  unfoldable pub populate : ℕ → List Named → List (Wide × ℕ) → List (Wide × ℕ)
  populate cls [] cached = cached
  populate cls (obj ∷ objects) cached =
      populate cls objects (if is_instance obj cls then add_to_cache obj cached else cached)

  -- `ensure_initialized`, where `cls` is the class that `find_uclass` finds.
  unfoldable pub ensure_initialized : ℕ → List Named → Cache → Cache
  ensure_initialized cls objects c = elim c.cached [
    | [] ↦ record { uclass = some cls; cached = populate cls objects [] }
    | e ∷ es ↦ c
  ]

  -- `find` by a name: the cache afterwards, and the object.
  unfoldable pub find : ℕ → List Named → Wide → Cache → Cache × Option ℕ
  find cls objects name c = let c' = ensure_initialized cls objects c in (c', lookup name c'.cached)

-- What `find` by a string comes to: the object, or none, or the exception.
pub data Found : Type 0 where
  found_object : (address : ℕ) → Found
  no_object : Found
  unexpected_class : Found

module _ (is_instance : Named → ℕ → Bool) (find_object : ℕ → Wide → Option Named) where
  unfoldable pub checked : ℕ → Cache → Option Named → Cache × Found
  checked cls c none = (c, no_object)
  checked cls c (some obj) =
      if is_instance obj cls
      then (record c { cached = add_to_cache obj c.cached }, found_object obj.address)
      else (c, unexpected_class)

  -- `find` by a string, the path name of an object.
  unfoldable pub find_by_path : ℕ → List Named → Wide → Cache → Cache × Found
  find_by_path cls objects path c =
      let c' = ensure_initialized is_instance cls objects c in checked cls c' (find_object cls path)
