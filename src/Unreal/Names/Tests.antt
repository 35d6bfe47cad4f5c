-- ===== src/Unreal/Names/Tests.antt =====
-- Names of enums and of objects at concrete inputs.
use unrealsdk.Base.{
  ℕ, ◌<◌, ◌≡◌, ◌≢◌, refl, Bool, if◌then◌else◌, ◌==◌, none, some, List, [], ◌∷◌, Wide, lookup,
  assign, wide_discrete, ℕ_discrete, arith,
}
use unrealsdk.Unreal.Names.{
  Named, Cache, from_colon, skip_colons, stripped, emplace, get_names, get_names_from,
  get_ordered_names, find, find_uclass,
}
use unrealsdk.Unreal.Names.Enums.{NoColon, AllValueNames, IsValueName, stored, lookup-get_names}
use unrealsdk.Unreal.Names.Lookup.{latest, find-latest, find_uclass_ends}

abbrev enum_name : Wide
enum_name = b'E' ∷ []

abbrev values : List (Wide × ℕ)
values = (b'A' ∷ [], 3) ∷ (b'B' ∷ [], 4) ∷ (b'A' ∷ [], 5) ∷ []

names_test : get_names (stored enum_name values) ≡ (b'A' ∷ [], 3) ∷ (b'B' ∷ [], 4) ∷ []
unfolding get_names get_names_from stripped from_colon skip_colons emplace lookup assign
    wide_discrete ℕ_discrete
names_test = refl

ordered_test :
    get_ordered_names ((b'A' ∷ []) ∷ (b'B' ∷ []) ∷ []) 0 [] ≡ (b'A' ∷ [], 0) ∷ (b'B' ∷ [], 1) ∷ []
unfolding get_ordered_names emplace lookup assign wide_discrete ℕ_discrete
ordered_test = refl

enum_NoColon : NoColon enum_name
unfolding NoColon
enum_NoColon = (λ e. absurd (omega arith), tt)

values-AllValueNames : AllValueNames values
unfolding AllValueNames IsValueName
values-AllValueNames =
    (λ e. absurd (omega arith), (λ e. absurd (omega arith), (λ e. absurd (omega arith), tt)))

lookup-get_names_example :
    lookup (b'B' ∷ []) (get_names (stored enum_name values)) ≡ lookup (b'B' ∷ []) values
lookup-get_names_example =
    lookup-get_names enum_name (b'B' ∷ []) values enum_NoColon values-AllValueNames

abbrev objects : List Named
objects =
    (record { address = 10; object_name = b'A' ∷ [] })
    ∷ (record { address = 20; object_name = b'B' ∷ [] })
    ∷ (record { address = 30; object_name = b'A' ∷ [] })
    ∷ []

abbrev is_instance : Named → ℕ → Bool
is_instance obj cls = cls == 1

abbrev empty_cache : Cache
empty_cache = record { uclass = none; cached = [] }

find-latest_example :
    (find is_instance 1 objects (b'A' ∷ []) empty_cache).1
    ≡ latest is_instance 1 (b'A' ∷ []) objects
find-latest_example = find-latest is_instance 1 objects (b'A' ∷ []) empty_cache refl

-- The class of an object is 2, whose class is 1, which is its own.
abbrev class_of : ℕ → ℕ
class_of k = if k == 2 then 1 else if k == 3 then 2 else k

nearer : (k : ℕ) → class_of k ≢ k → class_of k < k
nearer k other = ground (arith, other)

find_uclass_ends_test :
    (found : ℕ) × (find_uclass class_of 4 3 ≡ some found) × (class_of found ≡ found)
find_uclass_ends_test = find_uclass_ends class_of (λ k. k) 4 3 nearer (omega arith)
