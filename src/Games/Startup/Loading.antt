-- ===== src/Games/Startup/Loading.antt =====
-- game/bl1e/startup_file.cpp: when objects are loaded from their own packages.
use unrealsdk.Base.{
  ℕ, ◌≡◌, ◌≢◌, refl, sym, ◌∙◌, subst, Bool, true, false, not, ◌&&◌, ◌||◌, if◌then◌else◌, ◌==◌,
  Option, inl, inr, ◌⊎◌, List, [], ◌∷◌, Wide, arith, Bool-cases,
}
use unrealsdk.Games.Startup.{
  Linker, Startup, enter_load_package, left, leave_load_package, remember_linker, Created, original,
  Event, enter, leave, create, forward_export, create_export_hook, step, run, initial,
}

-- A load of the package Startup has not returned.
unfoldable pub IsLoading : List Bool → Type 0
IsLoading [] = ⊥
IsLoading (b ∷ loading) = (b ≡ true) ⊎ IsLoading loading

-- The next linker is remembered only within a load of Startup; and a linker is known only within one, or
-- after it.
Consistent : Startup → Type 0
Consistent s =
    ((s.should_set_startup_linker ≡ false) ⊎ IsLoading s.loading)
    × ((s.startup_linker ≡ 0) ⊎ (s.startup_file_loaded ≡ true) ⊎ IsLoading s.loading)

enter_load_package-Consistent :
    (name : Wide) (s : Startup) → Consistent s → Consistent (enter_load_package true name s)
unfolding enter_load_package Consistent IsLoading
enter_load_package-Consistent name s (next, known) = (
  elim (Bool-cases (enter_load_package true name s).should_set_startup_linker) [
    | inl e ↦ inr (inl e)
    | inr e ↦ inl e
  ],
  elim known [
    | inl null ↦ inl null
    | inr (inl loaded) ↦ inr (inl loaded)
    | inr (inr loading) ↦ inr (inr (inr loading))
  ],
)

left-Consistent :
    (is_startup : Bool) (loading : List Bool) (s : Startup)
    → (s.startup_linker ≡ 0) ⊎ (s.startup_file_loaded ≡ true) ⊎ IsLoading (is_startup ∷ loading)
    → Consistent (left true is_startup loading s)
unfolding left Consistent IsLoading
left-Consistent is_startup loading s (inl null) = (inl refl, inl null)
left-Consistent is_startup loading s (inr (inl loaded)) = (inl refl, inr (inl (ground arith)))
left-Consistent is_startup loading s (inr (inr (inl now))) = (inl refl, inr (inl (ground arith)))
left-Consistent is_startup loading s (inr (inr (inr outer))) = (inl refl, inr (inr outer))

abbrev after_leave : Startup → List Bool → Startup
after_leave s [] = s
after_leave s (b ∷ rest) = left true b rest s

leave_load_package-Consistent :
    (s : Startup) (loading : List Bool)
    → s.loading ≡ loading
    → Consistent s
    → Consistent (leave_load_package true s)
unfolding leave_load_package Consistent
leave_load_package-Consistent s [] e h = subst (λ l. Consistent (after_leave s l)) (sym e) h
leave_load_package-Consistent s (b ∷ rest) e (next, known) =
    subst (λ l. Consistent (after_leave s l)) (sym e)
      (left-Consistent b rest s (
        subst (λ l. (s.startup_linker ≡ 0) ⊎ (s.startup_file_loaded ≡ true) ⊎ IsLoading l) e known))

remembered-Consistent :
    (c : Bool) (self : ℕ) (s : Startup)
    → (c ≡ true → IsLoading s.loading)
    → Consistent s
    → Consistent
        (if c then (record s { startup_linker = self; should_set_startup_linker = false }) else s)
unfolding Consistent
remembered-Consistent true self s within h = (inl refl, inr (inr (within refl)))
remembered-Consistent false self s within h = h

remember_linker-Consistent :
    (self : ℕ) (s : Startup) → Consistent s → Consistent (remember_linker self s)
unfolding remember_linker Consistent
remember_linker-Consistent self s h =
    remembered-Consistent (s.should_set_startup_linker && s.startup_linker == 0) self s
      (λ e. elim h.0 [ inl none_next ↦ absurd (ground arith) | inr loading ↦ loading ]) h

initial-Consistent : Consistent initial
unfolding Consistent
initial-Consistent = (inl refl, inl refl)

remember_linker_keeps :
    (self : ℕ) (s : Startup)
    → ((remember_linker self s).loading ≡ s.loading)
      × ((remember_linker self s).startup_file_loaded ≡ s.startup_file_loaded)
unfolding remember_linker
remember_linker_keeps self s =
    elim (Bool-cases (s.should_set_startup_linker && s.startup_linker == 0)) [
      | inl e ↦ (ground arith, ground arith)
      | inr e ↦ (ground arith, ground arith)
    ]

leave_load_package_loaded :
    (s : Startup) (loading : List Bool)
    → s.loading ≡ loading
    → (s.startup_file_loaded ≡ true) ⊎ ((rest : List Bool) × (loading ≡ true ∷ rest))
    → (leave_load_package true s).startup_file_loaded ≡ true
unfolding leave_load_package left
leave_load_package_loaded s [] e (inl loaded) =
    subst (λ l. (after_leave s l).startup_file_loaded ≡ true) (sym e) loaded
leave_load_package_loaded s [] e (inr (rest, top)) = absurd (ground arith)
leave_load_package_loaded s (b ∷ rest) e (inl loaded) =
    subst (λ l. (after_leave s l).startup_file_loaded ≡ true) (sym e) (ground arith)
leave_load_package_loaded s (b ∷ rest) e (inr (rest', top)) =
    subst (λ l. (after_leave s l).startup_file_loaded ≡ true) (sym e) (ground arith)

unfoldable pub AllOriginal : List Created → Type 0
AllOriginal [] = Unit
AllOriginal (c ∷ cs) = (c ≡ original) × AllOriginal cs

module _ (find_class : Wide → Option ℕ) (core_class : ℕ) (path_name : Linker → ℕ → Wide)
    (static_load_object : ℕ → Wide → Option ℕ) (object_flags : ℕ → ℕ) where
  abbrev run_from : List Event → Startup → Startup × List Created
  run_from = run find_class core_class path_name static_load_object object_flags true

  run-Consistent : (es : List Event) (s : Startup) → Consistent s → Consistent (run_from es s).0
  unfolding run step create_export_hook
  run-Consistent [] s h = h
  run-Consistent (enter name ∷ es) s h =
      run-Consistent es _ (enter_load_package-Consistent name s h)
  run-Consistent (leave ∷ es) s h =
      run-Consistent es _ (leave_load_package-Consistent s s.loading refl h)
  run-Consistent (create self index ∷ es) s h =
      run-Consistent es _ (remember_linker-Consistent self.address s h)

  -- Whatever the engine loads and creates, an export that is not left to the engine's function is one of
  -- the linker that was remembered, while a load of the package Startup has not returned.
  pub create_export_hook-IsLoading :
      (es : List Event) (self : Linker) (index : ℕ)
      → self.address ≢ 0
      → (create_export_hook find_class core_class path_name static_load_object object_flags self
          index
          (run_from es initial).0).1
        ≢ original
      → IsLoading (run_from es initial).0.loading
        × (self.address ≡ (remember_linker self.address (run_from es initial).0).startup_linker)
  unfolding create_export_hook forward_export Consistent
  create_export_hook-IsLoading es self index real other =
      let s = (run_from es initial).0 in
      let s' = remember_linker self.address s in
      let (next, known) =
        remember_linker-Consistent self.address s (run-Consistent es initial initial-Consistent) in
      let (same, kept) = remember_linker_keeps self.address s in
      elim (Bool-cases (s'.startup_file_loaded || not (self.address == s'.startup_linker))) [
        | inl e ↦ absurd (other (ground arith))
        | inr e ↦ (
          elim known [
            | inl null ↦ absurd (ground arith)
            | inr (inl loaded) ↦ absurd (ground arith)
            | inr (inr loading) ↦ subst IsLoading same loading
          ],
          ground arith,
        )
      ]

  loaded-AllOriginal :
      (es : List Event) (s : Startup) → s.startup_file_loaded ≡ true → AllOriginal (run_from es s).1
  unfolding run step create_export_hook AllOriginal forward_export enter_load_package
  loaded-AllOriginal [] s e = tt
  loaded-AllOriginal (enter name ∷ es) s e = loaded-AllOriginal es _ e
  loaded-AllOriginal (leave ∷ es) s e =
      loaded-AllOriginal es _ (leave_load_package_loaded s s.loading refl (inl e))
  loaded-AllOriginal (create self index ∷ es) s e =
      let (same, kept) = remember_linker_keeps self.address s in
      (ground arith, loaded-AllOriginal es _ (kept ∙ e))

  -- Once the load of the package Startup returns, every later export is left to the engine's function.
  pub leave-AllOriginal :
      (es : List Event) (s : Startup) (loading : List Bool)
      → s.loading ≡ true ∷ loading
      → AllOriginal (run_from (leave ∷ es) s).1
  unfolding run step
  leave-AllOriginal es s loading e =
      loaded-AllOriginal es (leave_load_package true s)
        (leave_load_package_loaded s s.loading refl (inr (loading, e)))
