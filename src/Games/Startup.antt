-- ===== src/Games/Startup.antt =====
-- game/bl1e/startup_file.cpp: while BL1E loads the package Startup, the objects that its linker creates
-- are loaded from their own packages. The engine's functions are parameters.
pub mod Loading
use Prim.Native.Nat.{bit_or}
use unrealsdk.Base.{
  ℕ, zero, suc, ◌+◌, ◌-◌, ◌/◌, ◌%◌, ◌≡◌, Bool, true, false, not, ◌&&◌, ◌||◌, if◌then◌else◌, ◌==◌,
  leb, Option, none, some, List, [], ◌∷◌, ◌++◌, Wide, wide_discrete, ite, length, take, drop, ℤ,
  pos, negsuc,
}

-- An entry of a linker's table of exports. The object is none until the game sets it.
pub record Export : Type 0 where
  pub object_name : Wide
  pub class_index : ℤ
  pub object : Option ℕ

abbrev pub max_items_per_chunk : ℕ
max_items_per_chunk = 655

abbrev pub max_chunks : ℕ
max_chunks = 64

-- `ExportTable::at` for an index that is not negative, or none where it throws.
unfoldable pub export_at : (ℕ → ℕ → Export) → ℕ → Option Export
export_at chunks flat_index =
    let chunk = flat_index / max_items_per_chunk in
    let index = flat_index % max_items_per_chunk in
    if leb max_chunks chunk
    then none
    else if leb max_items_per_chunk index
    then none
    else some (chunks chunk index)

-- What a linker has: its exports, and the names of its imports.
pub record Linker : Type 0 where
  pub address : ℕ
  pub chunks : ℕ → ℕ → Export
  pub import_name : ℕ → Option Wide

abbrev pub startup_name : Wide
startup_name = b'S' ∷ b't' ∷ b'a' ∷ b'r' ∷ b't' ∷ b'u' ∷ b'p' ∷ []

abbrev pub startup_prefix : Wide
startup_prefix = b'S' ∷ b't' ∷ b'a' ∷ b'r' ∷ b't' ∷ b'u' ∷ b'p' ∷ b'.' ∷ []

unfoldable pub starts_with : Wide → Wide → Bool
starts_with text prefix = ite (wide_discrete (take (length prefix) text) prefix) true false

-- The path name without the prefix "Startup.".
unfoldable pub without_startup : Wide → Wide
without_startup path =
    if starts_with path startup_prefix then drop (length startup_prefix) path else path

-- The two flags, and the linker that is known for the startup package, with 0 for a null pointer. The
-- stack has `is_startup` of each load of a package that has not returned, the innermost first.
pub record Startup : Type 0 where
  pub should_set_startup_linker : Bool
  pub startup_file_loaded : Bool
  pub startup_linker : ℕ
  pub loading : List Bool

-- `load_package_hook` up to the call of the engine's function, and after it, where `bypass` is the
-- setting `unrealsdk.bypass_startup_file`.
unfoldable pub enter_load_package : Bool → Wide → Startup → Startup
enter_load_package bypass name s =
    let is_startup =
      not s.startup_file_loaded && ite (wide_discrete startup_name name) true false in
    if bypass
    then (record s { should_set_startup_linker = is_startup; loading = is_startup ∷ s.loading })
    else (record s { loading = false ∷ s.loading })

unfoldable pub left : Bool → Bool → List Bool → Startup → Startup
left bypass is_startup loading s =
    if bypass
    then (record {
      should_set_startup_linker = false;
      startup_file_loaded = is_startup || s.startup_file_loaded;
      startup_linker = s.startup_linker;
      loading = loading;
    })
    else (record s { loading = loading })

unfoldable pub leave_load_package : Bool → Startup → Startup
leave_load_package bypass s = elim s.loading [
  | [] ↦ s
  | is_startup ∷ loading ↦ left bypass is_startup loading s
]

-- The start of `create_export_hook`, which remembers the first linker.
unfoldable pub remember_linker : ℕ → Startup → Startup
remember_linker self s =
    if s.should_set_startup_linker && s.startup_linker == 0
    then (record s { startup_linker = self; should_set_startup_linker = false })
    else s

-- What an export comes to: the engine's function, or an object from its own package; or an exception.
pub data Created : Type 0 where
  original : Created
  forwarded : (object flags : ℕ) → Created
  thrown : Created

-- What the engine does, in order: a package is loaded, the load returns, or a linker creates an export.
pub data Event : Type 0 where
  enter : (name : Wide) → Event
  leave : Event
  create : (self : Linker) → (index : ℕ) → Event

-- The flags of an object that is kept alive.
unfoldable pub keep_alive : ℕ → ℕ
keep_alive flags = bit_or flags 16384

module _ (find_class : Wide → Option ℕ) (core_class : ℕ) where
  -- The class of an export, or none where it is not found.
  unfoldable pub export_class : Linker → Export → Option (Option ℕ)
  export_class self e = elim e.class_index [
    | pos zero ↦ some (some core_class)
    | pos (suc i) ↦ elim (export_at self.chunks i) [
      | none ↦ none
      | some c ↦ some (find_class c.object_name)
    ]
    | negsuc i ↦ elim (self.import_name i) [ none ↦ none | some name ↦ some (find_class name) ]
  ]

  module _ (path_name : Linker → ℕ → Wide) (static_load_object : ℕ → Wide → Option ℕ)
      (object_flags : ℕ → ℕ) where
    unfoldable pub load_export : Linker → ℕ → ℕ → Created
    load_export self index cls =
        elim (static_load_object cls (without_startup (path_name self index))) [
          | none ↦ original
          | some object ↦ forwarded object (keep_alive (object_flags object))
        ]

    -- `create_export_hook` after the linker was remembered.
    unfoldable pub forward_export : Linker → ℕ → Startup → Created
    forward_export self index s =
        if s.startup_file_loaded || not (self.address == s.startup_linker)
        then original
        else elim (export_at self.chunks index) [
          | none ↦ thrown
          | some e ↦ elim e.object [
            | some object ↦ original
            | none ↦ elim (export_class self e) [
              | none ↦ thrown
              | some none ↦ original
              | some (some cls) ↦ load_export self index cls
            ]
          ]
        ]

    unfoldable pub create_export_hook : Linker → ℕ → Startup → Startup × Created
    create_export_hook self index s =
        let s' = remember_linker self.address s in (s', forward_export self index s')

    unfoldable pub step : Bool → Event → Startup → Startup × List Created
    step bypass (enter name) s = (enter_load_package bypass name s, [])
    step bypass leave s = (leave_load_package bypass s, [])
    step bypass (create self index) s = let r = create_export_hook self index s in (r.0, r.1 ∷ [])

    unfoldable pub run : Bool → List Event → Startup → Startup × List Created
    run bypass [] s = (s, [])
    run bypass (e ∷ es) s =
        let first = step bypass e s in
        let rest = run bypass es first.0 in (rest.0, first.1 ++ rest.1)

-- The state when the library is loaded.
abbrev pub initial : Startup
initial = record {
  should_set_startup_linker = false;
  startup_file_loaded = false;
  startup_linker = 0;
  loading = [];
}
