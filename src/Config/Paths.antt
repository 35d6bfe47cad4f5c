-- ===== src/Config/Paths.antt =====
-- src/unrealsdk/config.cpp: the names of the configuration files. The Windows call that reads an
-- environment variable and the directory of this library are parameters; a path is a directory and a
-- file's name.
use unrealsdk.Base.{
  ℕ, ◌+◌, ◌-◌, ◌≡◌, refl, Bool, false, Option, none, some, [], ◌∷◌, ◌++◌, Wide, arith, ◌==◌, ◌&&◌,
  ◌||◌, not, if◌then◌else◌, length,
}

-- "unrealsdk.toml"
abbrev pub default_config_file_name : Wide
default_config_file_name =
    b'u' ∷ b'n' ∷ b'r' ∷ b'e' ∷ b'a' ∷ b'l' ∷ b's' ∷ b'd' ∷ b'k' ∷ b'.' ∷ b't' ∷ b'o' ∷ b'm' ∷ b'l'
    ∷ []

-- ".user"
abbrev pub dot_user : Wide
dot_user = b'.' ∷ b'u' ∷ b's' ∷ b'e' ∷ b'r' ∷ []

unfoldable pub pop_back : Wide → Wide
pop_back [] = []
pop_back (c ∷ []) = []
pop_back (c ∷ d ∷ s) = c ∷ pop_back (d ∷ s)

-- `GetEnvironmentVariableA` at the name of the variable: by the size of the buffer it is given, what
-- it returns and what the buffer then holds.
abbrev pub Environment : Type 0
Environment = ℕ → ℕ × Wide

-- The file's name that `get_base_config_file_path` chooses.
unfoldable pub config_file_name : Environment → Wide
config_file_name get_environment_variable =
    let (num_chars, nothing) = get_environment_variable 0 in
    let (written, env_var_name) = get_environment_variable num_chars in
    if not (num_chars == 0) && not (written == num_chars - 1)
    then pop_back env_var_name
    else default_config_file_name

-- `std::filesystem::path::extension` of a file's name: from its last dot, unless that begins the
-- name. `no_dot` is the part of a name before its extension, `stem`.
unfoldable pub has_dot : Wide → Bool
has_dot [] = false
has_dot (c ∷ s) = (c == b'.') || has_dot s

unfoldable pub stem_of : Wide → Wide
stem_of [] = []
stem_of (c ∷ s) = let rest = stem_of s in if (c == b'.') && not (has_dot s) then [] else c ∷ rest

unfoldable pub extension_of : Wide → Wide
extension_of [] = []
extension_of (c ∷ s) =
    let rest = extension_of s in if (c == b'.') && not (has_dot s) then c ∷ s else rest

-- A leading dot begins no extension.
unfoldable pub stem : Wide → Wide
stem [] = []
stem (c ∷ s) = if has_dot s then c ∷ stem_of s else c ∷ s

unfoldable pub extension : Wide → Wide
extension [] = []
extension (c ∷ s) = if has_dot s then extension_of s else []

pub record FilePath : Type 0 where
  pub directory : Wide
  pub filename : Wide

-- The two static variables that hold a path once it is known.
pub record Paths : Type 0 where
  pub base_path : Option FilePath
  pub user_path : Option FilePath

unfoldable pub get_base_config_file_path : Wide → Environment → Paths → FilePath × Paths
get_base_config_file_path this_dll get_environment_variable paths = elim (paths.base_path) [
  | some path ↦ (path, paths)
  | none ↦
      let path : FilePath = record {
        directory = this_dll;
        filename = config_file_name get_environment_variable;
      } in
      (path, record { base_path = some path; user_path = paths.user_path })
]

unfoldable pub get_user_config_file_path : Wide → Environment → Paths → FilePath × Paths
get_user_config_file_path this_dll get_environment_variable paths = elim (paths.user_path) [
  | some path ↦ (path, paths)
  | none ↦
      let (base_path, after) = get_base_config_file_path this_dll get_environment_variable paths in
      let name = base_path.filename in
      let path : FilePath = record {
        directory = base_path.directory;
        filename = stem name ++ dot_user ++ extension name;
      } in
      (path, record { base_path = after.base_path; user_path = some path })
]

-- With the Windows call as documented, which returns the length of the value without its terminator
-- when the buffer fits it with one, the file's name is the default one whether or not the variable is
-- set: the value of `UNREALSDK_CONFIG_FILE` is never used.
pub config_file_name_default :
    (get_environment_variable : Environment) (value : Option Wide)
    → ((get_environment_variable 0).0 ≡ elim value [ none ↦ 0 | some text ↦ length text + 1 ])
    → ((text : Wide)
        → value ≡ some text
        → get_environment_variable (length text + 1) ≡ (length text, text))
    → config_file_name get_environment_variable ≡ default_config_file_name
unfolding config_file_name
config_file_name_default env none size full = ground arith
config_file_name_default env (some text) size full = ground (arith, full text refl)

-- Both paths are chosen once: after the first call, the same path comes back whatever the environment
-- holds by then.
pub paths_chosen_once :
    (this_dll : Wide) (env env_later : Environment) (paths : Paths)
    → let (base, after) = get_base_config_file_path this_dll env paths in
      let (user, later) = get_user_config_file_path this_dll env_later after in
      (get_base_config_file_path this_dll env_later later ≡ (base, later))
      × (get_user_config_file_path this_dll env_later later ≡ (user, later))
unfolding get_base_config_file_path get_user_config_file_path
paths_chosen_once this_dll env env_later paths = ground arith
