-- ===== src/Config/Tests.antt =====
-- The configuration at concrete inputs: a key of the user's file, a key of the base file, and paths.
use unrealsdk.Base.{
  ℕ, ◌+◌, ◌≡◌, refl, subst, true, Option, none, some, List, [], ◌∷◌, ◌++◌, Wide, wide_discrete,
  length, ℕ_discrete, ◌==◌, if◌then◌else◌,
}
use mathlib.Core.Option.{some-injective}
use unrealsdk.Config.{
  Node, Table, empty, entry, table, boolean, integer, find, insert_or_assign, merge_node,
  recursive_merge_table, at_path, merge_configs,
}
use unrealsdk.Config.Merge.{IsTable, at_path_of, is_silent}
use unrealsdk.Config.Overlay.{nothing_there, seen, overlay_at, at_path-merge_configs}
use unrealsdk.Config.Paths.{
  Environment, config_file_name, default_config_file_name, config_file_name_default, Paths, stem,
  extension, stem_of, extension_of, has_dot, dot_user,
}

abbrev key_sdk : Wide
key_sdk = b's' ∷ []

abbrev key_level : Wide
key_level = b'l' ∷ []

abbrev key_lock : Wide
key_lock = b'k' ∷ []

-- [s] l = 1, k = true
abbrev base_table : Table
base_table =
    entry key_sdk (table (entry key_level (integer 1) (entry key_lock (boolean true) empty))) empty

-- [s] l = 2
abbrev user_table : Table
user_table = entry key_sdk (table (entry key_level (integer 2) empty)) empty

user_distinct : IsTable user_table
unfolding IsTable find
user_distinct = (refl, (refl, tt, tt), tt)

merged_test :
    merge_configs empty (some base_table) (some user_table)
    ≡ entry key_sdk
        (table (entry key_level (integer 2) (entry key_lock (boolean true) empty)))
        empty
unfolding merge_configs recursive_merge_table merge_node find insert_or_assign wide_discrete
    ℕ_discrete
merged_test = refl

at_path-merge_configs_example :
    seen (
      at_path
        (key_sdk ∷ key_level ∷ [])
        (table (merge_configs empty (some base_table) (some user_table))))
    ≡ overlay_at (key_sdk ∷ key_level ∷ []) (some (table user_table)) (some (table base_table))
at_path-merge_configs_example =
    at_path-merge_configs empty base_table user_table (key_sdk ∷ key_level ∷ []) user_distinct

-- A key of the base file under a table of both, and one that a value of the user's file hides.
overlay_test :
    (overlay_at (key_sdk ∷ key_lock ∷ []) (some (table user_table)) (some (table base_table))
      ≡ seen (at_path (key_sdk ∷ key_lock ∷ []) (table base_table)))
    × (overlay_at
          (key_sdk ∷ key_lock ∷ [])
          (some (table (entry key_sdk (integer 3) empty)))
          (some (table base_table))
        ≡ nothing_there)
unfolding overlay_at at_path_of find wide_discrete ℕ_discrete seen at_path
overlay_test = (refl, refl)

user_level : at_path (key_sdk ∷ key_level ∷ []) (table user_table) ≡ some (integer 2)
unfolding at_path find wide_discrete ℕ_discrete
user_level = refl

user_silent : is_silent (key_sdk ∷ key_lock ∷ []) (table user_table) ≡ true
unfolding is_silent find wide_discrete ℕ_discrete
user_silent = refl

-- The variable is set to "x": the first call gives 2, and the second, with a buffer of 2, gives 1.
abbrev environment : Environment
environment size = if size == 0 then (2, []) else (1, b'x' ∷ [])

abbrev value_x : Option Wide
value_x = some (b'x' ∷ [])

environment_full :
    (text : Wide) → value_x ≡ some text → environment (length text + 1) ≡ (length text, text)
environment_full text e =
    subst (λ text. environment (length text + 1) ≡ (length text, text)) (some-injective _ _ e) refl

full_buffer_test : config_file_name environment ≡ default_config_file_name
full_buffer_test = config_file_name_default environment value_x refl environment_full

-- The user's file beside "unrealsdk.toml" is "unrealsdk.user.toml".
user_file_test :
    stem default_config_file_name ++ dot_user ++ extension default_config_file_name
    ≡ b'u' ∷ b'n' ∷ b'r' ∷ b'e' ∷ b'a' ∷ b'l' ∷ b's' ∷ b'd' ∷ b'k' ∷ b'.' ∷ b'u' ∷ b's' ∷ b'e'
      ∷ b'r' ∷ b'.' ∷ b't' ∷ b'o' ∷ b'm' ∷ b'l' ∷ []
unfolding stem extension stem_of extension_of has_dot
user_file_test = refl

abbrev directory : Wide
directory = b'd' ∷ []

abbrev no_paths : Paths
no_paths = record { base_path = none; user_path = none }

abbrev some_error : List Wide
some_error = key_lock ∷ []

abbrev as_integer : Node → Option ℕ
as_integer (integer n) = some n
as_integer _ = none

abbrev level_path : List Wide
level_path = key_sdk ∷ key_level ∷ []
