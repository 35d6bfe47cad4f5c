-- ===== src/Games/Tests.antt =====
-- The choice of a game and the load of the startup package at concrete inputs.
use unrealsdk.Base.{
  ℕ, ◌≡◌, ◌≢◌, refl, inl, inr, true, false, none, some, Option, [], ◌∷◌, ◌++◌, Wide, wide_discrete,
  ite, ℕ_discrete, pos, arith,
}
use unrealsdk.Games.Selector.{
  bl2, tina_exe, Known, value_or, willow_32_bit, all_known_games, matches_executable, bl2_matches,
  is, select_based_on_executable, select_based_on_executable_unique,
}
use unrealsdk.Games.Startup.{
  Linker, Startup, startup_name, startup_prefix, starts_with, without_startup, enter_load_package,
  left, leave_load_package, remember_linker, original, forwarded, enter, leave, create, export_at,
  export_class, load_export, forward_export, create_export_hook, step, run, initial, keep_alive,
}
use unrealsdk.Games.Startup.Loading.{
  IsLoading, AllOriginal, create_export_hook-IsLoading, leave-AllOriginal,
}

bl2_Known : Known bl2 (all_known_games willow_32_bit)
unfolding Known all_known_games
bl2_Known = inr (inl refl)

tina_matches : matches_executable bl2 (value_or (some tina_exe) []) ≡ true
unfolding matches_executable bl2_matches is wide_discrete ℕ_discrete value_or
tina_matches = refl

unique_test : select_based_on_executable willow_32_bit (some tina_exe) [] ≡ some bl2
unique_test =
    select_based_on_executable_unique willow_32_bit (some tina_exe) [] bl2 bl2_Known tina_matches

-- A linker whose exports are all classes that are not loaded.
abbrev linker : Linker
linker = record {
  address = 12;
  chunks = λ chunk index. record { object_name = []; class_index = pos 0; object = none };
  import_name = λ i. none;
}

abbrev find_class : Wide → Option ℕ
find_class name = none

-- The path of an export is "Startup.A".
abbrev path_name : Linker → ℕ → Wide
path_name self index = startup_prefix ++ b'A' ∷ []

-- The object 5 has the path "A".
abbrev static_load_object : ℕ → Wide → Option ℕ
static_load_object cls path = ite (wide_discrete path (b'A' ∷ [])) (some 5) none

abbrev object_flags : ℕ → ℕ
object_flags object = 1

-- An export is forwarded within the load of Startup, and not after it.
startup_test :
    (run find_class 1 path_name static_load_object object_flags true
      (enter startup_name ∷ create linker 700 ∷ leave ∷ create linker 700 ∷ [])
      initial).1
    ≡ forwarded 5 16385 ∷ original ∷ []
unfolding run step enter_load_package leave_load_package left create_export_hook remember_linker
    forward_export export_at export_class load_export without_startup starts_with wide_discrete
    ℕ_discrete keep_alive
startup_test = refl

forwarded_first :
    (create_export_hook find_class 1 path_name static_load_object object_flags linker 0
      (run find_class 1 path_name static_load_object object_flags true
        (enter startup_name ∷ [])
        initial).0).1
    ≢ original
unfolding run step enter_load_package create_export_hook remember_linker forward_export export_at
    export_class load_export without_startup starts_with wide_discrete ℕ_discrete keep_alive
forwarded_first same = absurd (ground arith)

create_export_hook-IsLoading_example :
    IsLoading
      (run find_class 1 path_name static_load_object object_flags true
        (enter startup_name ∷ [])
        initial).0.loading
    × (12
        ≡ (remember_linker 12
            (run find_class 1 path_name static_load_object object_flags true
              (enter startup_name ∷ [])
              initial).0).startup_linker)
create_export_hook-IsLoading_example =
    create_export_hook-IsLoading find_class 1 path_name static_load_object object_flags
      (enter startup_name ∷ []) linker 0 (λ same. absurd (ground arith)) forwarded_first

abbrev within : Startup
within = record {
  should_set_startup_linker = false;
  startup_file_loaded = false;
  startup_linker = 12;
  loading = true ∷ [];
}

leave-AllOriginal_example :
    AllOriginal
      (run find_class 1 path_name static_load_object object_flags true
        (leave ∷ create linker 700 ∷ [])
        within).1
leave-AllOriginal_example =
    leave-AllOriginal find_class 1 path_name static_load_object object_flags
      (create linker 700 ∷ []) within [] refl
