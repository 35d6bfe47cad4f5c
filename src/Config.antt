-- ===== src/Config.antt =====
-- src/unrealsdk/config.cpp: where the configuration files are looked for, how the two are merged, and
-- the typed getters. toml++ (its parser and its path syntax) and the Windows API are not modelled:
-- a parsed file is a table, a path is the list of its keys, and the environment is a parameter.
pub mod Merge
pub mod Overlay
pub mod Paths
mod Tests
use unrealsdk.Base.{
  ℕ, ◌≡◌, refl, Bool, true, false, Option, none, some, List, [], ◌∷◌, ◌++◌, Wide, wide_discrete,
  ite, if◌then◌else◌,
}

-- `toml::table` with its nodes. Arrays, floats and dates are `opaque`, told apart by a number.
mutual
  pub data Node : Type 0 where
    boolean : Bool → Node
    integer : ℕ → Node
    string : Wide → Node
    opaque : ℕ → Node
    table : Table → Node

  pub data Table : Type 0 where
    empty : Table
    entry : Wide → Node → Table → Table

-- "Failed to load "
abbrev pub failed_to_load : Wide
failed_to_load =
    b'F' ∷ b'a' ∷ b'i' ∷ b'l' ∷ b'e' ∷ b'd' ∷ b' ' ∷ b't' ∷ b'o' ∷ b' ' ∷ b'l' ∷ b'o' ∷ b'a' ∷ b'd'
    ∷ b' ' ∷ []

unfoldable pub find : Wide → Table → Option Node
find k empty = none
find k (entry j v t) = let rest = find k t in ite (wide_discrete j k) (some v) rest

unfoldable pub insert_or_assign : Wide → Node → Table → Table
insert_or_assign k v empty = entry k v empty
insert_or_assign k v (entry j w t) =
    let rest = insert_or_assign k v t in ite (wide_discrete j k) (entry k v t) (entry j w rest)

-- `merge_node` is the new value of a key from its base value, if any, and the override.
unfoldable mutual
  unfolding find insert_or_assign

  pub merge_node : Node → Option Node → Node
  merge_node (table o) (some (table b)) = table (recursive_merge_table o b)
  merge_node v _ = v

  pub recursive_merge_table : Table → Table → Table
  recursive_merge_table empty base = base
  recursive_merge_table (entry k v t) base =
      recursive_merge_table t (insert_or_assign k (merge_node v (find k base)) base)

-- `toml::table::at_path`, for a path of keys.
unfoldable pub at_path : List Wide → Node → Option Node
at_path [] v = some v
at_path (k ∷ path) (table t) = elim (find k t) [ none ↦ none | some v ↦ at_path path v ]
at_path (k ∷ path) _ = none

-- What `load_config_file` meets at a path, the error as the lines it prints.
pub data ConfigFile : Type 0 where
  missing : ConfigFile
  invalid : List Wide → ConfigFile
  parsed : Table → ConfigFile

-- `load_config_file`, with the lines it logs as errors.
unfoldable pub load_config_file : Wide → ConfigFile → Option Table × List Wide
load_config_file path missing = (none, [])
load_config_file path (invalid error) = (none, (failed_to_load ++ path) ∷ error)
load_config_file path (parsed t) = (some t, [])

-- `merged_raw_config` after `load`, from what it was and the two tables.
unfoldable pub merge_configs : Table → Option Table → Option Table → Table
merge_configs merged_raw_config none none = merged_raw_config
merge_configs merged_raw_config none (some user) = user
merge_configs merged_raw_config (some base) none = base
merge_configs merged_raw_config (some base) (some user) = recursive_merge_table user base

unfoldable pub load : Table → Wide × ConfigFile → Wide × ConfigFile → Table × List Wide
load merged_raw_config (base_path, base_file) (user_path, user_file) = (
  merge_configs merged_raw_config (load_config_file base_path base_file).0
      (load_config_file user_path user_file).0,
  (load_config_file base_path base_file).1 ++ (load_config_file user_path user_file).1,
)

-- `get_bool`, `get_int` and `get_str`: `convert` is toml++'s conversion of a node to the wanted type.
module _ {ℓ} {A : Type ℓ} (convert : Node → Option A) where
  unfoldable pub get_value : Table → List Wide → Option A
  get_value merged_raw_config path = elim (at_path path (table merged_raw_config)) [
    | none ↦ none
    | some v ↦ convert v
  ]

  -- `config_get_bool` and its siblings, over the C interface: whether there is a value, and what
  -- the caller's variable then holds.
  unfoldable pub config_get : Table → List Wide → A → Bool × A
  config_get merged_raw_config path old = elim (at_path path (table merged_raw_config)) [
    | none ↦ (false, old)
    | some v ↦ elim (convert v) [ none ↦ (false, old) | some a ↦ (true, a) ]
  ]

  -- The getters of a build that imports the interface.
  unfoldable pub get_imported : Table → List Wide → A → Option A
  get_imported merged_raw_config path initial =
      let (found, value) = config_get merged_raw_config path initial in
      if found then some value else none
