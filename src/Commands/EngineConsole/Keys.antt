-- ===== src/Commands/EngineConsole/Keys.antt =====
-- game/bl3/console.cpp, game/bl4/console.cpp and game/bl1e/console.cpp: the injection of the console, and
-- the key that opens it.
use unrealsdk.Base.{
  ℕ, ◌≡◌, ◌≢◌, refl, Bool, true, false, Option, none, some, List, [], ◌∷◌, Wide, wide_discrete, ite,
  get_elem?, sym, ◌∙◌, ℕ_discrete, arith, inl, inr, ◌⊎◌,
}

abbrev pub none_name : Wide
none_name = b'N' ∷ b'o' ∷ b'n' ∷ b'e' ∷ []

abbrev pub undefine_name : Wide
undefine_name = b'U' ∷ b'n' ∷ b'd' ∷ b'e' ∷ b'f' ∷ b'i' ∷ b'n' ∷ b'e' ∷ []

abbrev pub tilde_name : Wide
tilde_name = b'T' ∷ b'i' ∷ b'l' ∷ b'd' ∷ b'e' ∷ []

-- The setting `unrealsdk.console_key`, or its default.
unfoldable pub wanted_key : Option Wide → Wide
wanted_key none = tilde_name
wanted_key (some key) = key

-- An object of class `InputSettings`.
pub record InputSettings : Type 0 where
  pub console_key : Wide
  pub console_keys : List Wide

unfoldable pub bl3_console_key : Option Wide → Wide → Wide
bl3_console_key wanted existing =
    ite (wide_discrete existing none_name) (wanted_key wanted)
      (ite (wide_discrete existing undefine_name) (wanted_key wanted) existing)

unfoldable pub bl3_set_key : Option Wide → InputSettings → InputSettings
bl3_set_key wanted s =
    let key = bl3_console_key wanted s.console_key in
    record { console_key = key; console_keys = key ∷ [] }

unfoldable pub bl4_set_key : Option Wide → List Wide → List Wide
bl4_set_key wanted [] = wanted_key wanted ∷ []
bl4_set_key none (existing ∷ keys) = existing ∷ keys
bl4_set_key (some wanted) (existing ∷ keys) =
    ite (wide_discrete existing wanted) (existing ∷ keys) (wanted ∷ [])

-- The first test is `existing != None || existing == Undefine`.
unfoldable pub bl1e_console_key : Option Wide → Wide → Wide
bl1e_console_key wanted existing =
    ite (wide_discrete existing none_name)
      (ite (wide_discrete existing undefine_name) existing (wanted_key wanted)) existing

-- The objects that the loop over all objects visits.
pub data EngineObject : Type 0 where
  input_settings : InputSettings → EngineObject
  other_object : EngineObject

unfoldable pub set_keys : Option Wide → List EngineObject → List EngineObject
set_keys wanted [] = []
set_keys wanted (other_object ∷ objects) = other_object ∷ set_keys wanted objects
set_keys wanted (input_settings s ∷ objects) =
    input_settings (bl3_set_key wanted s) ∷ set_keys wanted objects

-- What the injection reads and changes. A null pointer is none.
pub record Injection : Type 0 where
  pub inject_hooked : Bool
  pub console : Option ℕ
  pub viewport_console : Option ℕ
  pub target_player : Option ℕ
  pub command_detoured : Option ℕ
  pub objects : List EngineObject

unfoldable pub existing_or : Option ℕ → ℕ → ℕ
existing_or none constructed = constructed
existing_or (some c) constructed = c

-- `inject_console_hook`, where `constructed` is the console that the engine constructs on demand.
unfoldable pub inject_console_hook : Option Wide → ℕ → ℕ → Injection → Injection
inject_console_hook wanted local_player constructed s =
    let c = existing_or s.viewport_console constructed in
    record {
      inject_hooked = false;
      console = some c;
      viewport_console = some c;
      target_player = some local_player;
      command_detoured = some c;
      objects = set_keys wanted s.objects;
    }

unfoldable pub inject_console : Injection → Injection
inject_console s = record s { inject_hooked = true }

unfoldable pub is_console_ready : Injection → Bool
is_console_ready s = elim s.console [ none ↦ false | some c ↦ true ]

-- A key opens the console, and the array of keys has this key alone.
unfoldable pub Opens : InputSettings → Type 0
Opens s =
    (s.console_key ≢ none_name)
    × (s.console_key ≢ undefine_name)
    × (s.console_keys ≡ s.console_key ∷ [])

unfoldable pub AllOpen : List EngineObject → Type 0
AllOpen [] = Unit
AllOpen (other_object ∷ objects) = AllOpen objects
AllOpen (input_settings s ∷ objects) = Opens s × AllOpen objects

bl3_console_key_cases :
    (wanted : Option Wide) (existing : Wide)
    → (bl3_console_key wanted existing ≡ wanted_key wanted)
      ⊎ ((bl3_console_key wanted existing ≡ existing)
          × (existing ≢ none_name)
          × (existing ≢ undefine_name))
unfolding bl3_console_key
bl3_console_key_cases wanted existing = elim (wide_discrete existing none_name) [
  | yes e ↦ inl (ground arith)
  | no n ↦ elim (wide_discrete existing undefine_name) [
    | yes e ↦ inl (ground arith)
    | no m ↦ inr (ground arith, n, m)
  ]
]

bl3_set_key-Opens :
    (wanted : Option Wide) (s : InputSettings)
    → wanted_key wanted ≢ none_name
    → wanted_key wanted ≢ undefine_name
    → Opens (bl3_set_key wanted s)
unfolding bl3_set_key Opens
bl3_set_key-Opens wanted s named defined = elim (bl3_console_key_cases wanted s.console_key) [
  | inl e ↦ (λ e'. named (sym e ∙ e'), λ e'. defined (sym e ∙ e'), refl)
  | inr (e, n, m) ↦ (λ e'. n (sym e ∙ e'), λ e'. m (sym e ∙ e'), refl)
]

set_keys-AllOpen :
    (wanted : Option Wide) (objects : List EngineObject)
    → wanted_key wanted ≢ none_name
    → wanted_key wanted ≢ undefine_name
    → AllOpen (set_keys wanted objects)
unfolding set_keys AllOpen
set_keys-AllOpen wanted [] named defined = tt
set_keys-AllOpen wanted (other_object ∷ objects) named defined =
    set_keys-AllOpen wanted objects named defined
set_keys-AllOpen wanted (input_settings s ∷ objects) named defined =
    (bl3_set_key-Opens wanted s named defined, set_keys-AllOpen wanted objects named defined)

-- After the injection the console is ready, it is the viewport's, its command function is detoured,
-- and each of the input settings has a key, in both places, if the wanted key is one.
pub inject_console_hook-AllOpen :
    (wanted : Option Wide) (local_player constructed : ℕ) (s : Injection)
    → wanted_key wanted ≢ none_name
    → wanted_key wanted ≢ undefine_name
    → (is_console_ready (inject_console_hook wanted local_player constructed s) ≡ true)
      × ((inject_console_hook wanted local_player constructed s).console
          ≡ (inject_console_hook wanted local_player constructed s).viewport_console)
      × ((inject_console_hook wanted local_player constructed s).console
          ≡ (inject_console_hook wanted local_player constructed s).command_detoured)
      × AllOpen (inject_console_hook wanted local_player constructed s).objects
unfolding inject_console_hook is_console_ready
inject_console_hook-AllOpen wanted local_player constructed s named defined =
    (refl, refl, refl, set_keys-AllOpen wanted s.objects named defined)

-- BL4's first key is the configured one, and without a configuration the keys are kept, or are Tilde
-- when there were none.
pub bl4_set_key_lem :
    (key existing : Wide) (keys : List Wide)
    → (get_elem? (bl4_set_key (some key) keys) 0 ≡ some key)
      × (bl4_set_key none (existing ∷ keys) ≡ existing ∷ keys)
      × (bl4_set_key none [] ≡ tilde_name ∷ [])
unfolding bl4_set_key wanted_key
bl4_set_key_lem key existing [] = (refl, refl, refl)
bl4_set_key_lem key existing (first ∷ keys) = elim (wide_discrete first key) [
  | yes e ↦ (ground arith, refl, refl)
  | no n ↦ (ground arith, refl, refl)
]

-- Where BL3 replaces the name Undefine by the wanted key, BL1E keeps it.
pub bl1e_console_key-undefine :
    (wanted : Option Wide)
    → (bl1e_console_key wanted undefine_name ≡ undefine_name)
      × (bl3_console_key wanted undefine_name ≡ wanted_key wanted)
unfolding bl1e_console_key bl3_console_key wide_discrete ℕ_discrete
bl1e_console_key-undefine wanted = (refl, refl)
