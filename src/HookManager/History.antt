-- ===== src/HookManager/History.antt =====
-- Any history of `add_hook` and `remove_hook` against the reference map.
use unrealsdk.Base.{
  true, false, not, ◌||◌, ℕ, ◌≡◌, refl, ap, ◌∙◌, fun_ext, ite, List, [], ◌∷◌, Wide, wide_discrete,
}
use unrealsdk.HookManager.{HookType, Hook, HookType-discrete}
use unrealsdk.HookManager.Find.{find_collision, find_function, find_type, hook_list}
use unrealsdk.HookManager.Spec.{types_at, contains, insert, erase}
use unrealsdk.HookManager.Table.{
  Table, empty_table, add_hook, has_hook, remove_hook, hooks_at, extract_func_obj_name,
}
use unrealsdk.HookManager.Dispatch.{Manager, Function, preprocess_hook}
use unrealsdk.HookManager.DispatchLaws.{preprocess_hook-hooks_at}
use unrealsdk.HookManager.TableLaws.{
  make_hook, IsValid, hooks_at-add_hook, hooks_at-remove_hook, has_hook-contains, add_hook-IsValid,
  remove_hook-IsValid,
}

pub data Call {ℓ} (C : Type ℓ) : Type ℓ where
  adds : Wide → HookType → Wide → C → Call C
  removes : Wide → HookType → Wide → Call C

-- What the registry promises: a list of hooks for each function and type.
abbrev pub Registry {ℓ} : Type ℓ → Type ℓ
Registry C = Wide → HookType → List (Hook C)

module _ {ℓ} {C : Type ℓ} (make_fname : Wide → ℕ) where
  unfoldable pub step : Table C → Call C → Table C
  step t (adds func type identifier callback) =
      (add_hook make_fname t func type identifier callback).0
  step t (removes func type identifier) = (remove_hook make_fname t func type identifier).0

  unfoldable pub run : Table C → List (Call C) → Table C
  unfolding step
  run t [] = t
  run t (c ∷ cs) = run (step t c) cs

  unfoldable pub spec_step : Registry C → Call C → Registry C
  spec_step r (adds func type identifier callback) name other =
      ite (wide_discrete func name)
        (ite (HookType-discrete type other)
          (insert (make_hook make_fname func type identifier callback) (r name other))
          (r name other))
        (r name other)
  spec_step r (removes func type identifier) name other =
      ite (wide_discrete func name)
        (ite (HookType-discrete type other) (erase identifier (r name other)) (r name other))
        (r name other)

  unfoldable pub spec_run : Registry C → List (Call C) → Registry C
  unfolding spec_step
  spec_run r [] = r
  spec_run r (c ∷ cs) = spec_run (spec_step r c) cs

  step-IsValid : (t : Table C) (c : Call C) → IsValid make_fname t → IsValid make_fname (step t c)
  unfolding step
  step-IsValid t (adds func type identifier callback) v =
      add_hook-IsValid make_fname t func type identifier callback v
  step-IsValid t (removes func type identifier) v =
      remove_hook-IsValid make_fname t func type identifier v

  hooks_at-step :
      (t : Table C) (c : Call C)
      → IsValid make_fname t
      → hooks_at make_fname (step t c) ≡ spec_step (hooks_at make_fname t) c
  unfolding step spec_step
  hooks_at-step t (adds func type identifier callback) v = fun_ext λ name.
      fun_ext λ other. hooks_at-add_hook make_fname t func type identifier callback name other
  hooks_at-step t (removes func type identifier) v =
      fun_ext
        λ name. fun_ext λ other. hooks_at-remove_hook make_fname t func type identifier name other v

  -- From a valid table, any history leaves the lists that the reference map computes.
  pub hooks_at-run :
      (t : Table C) (cs : List (Call C))
      → IsValid make_fname t
      → hooks_at make_fname (run t cs) ≡ spec_run (hooks_at make_fname t) cs
  unfolding run spec_run
  hooks_at-run t [] v = refl
  hooks_at-run t (c ∷ cs) v =
      hooks_at-run (step t c) cs (step-IsValid t c v)
      ∙ ap (λ r. spec_run r cs) (hooks_at-step t c v)

  -- Any history keeps a valid table valid.
  pub run-IsValid :
      (t : Table C) (cs : List (Call C)) → IsValid make_fname t → IsValid make_fname (run t cs)
  unfolding run
  run-IsValid t [] v = v
  run-IsValid t (c ∷ cs) v = run-IsValid (step t c) cs (step-IsValid t c v)

  from_empty :
      (cs : List (Call C)) → hooks_at make_fname (run empty_table cs) ≡ spec_run (λ _ _. []) cs
  unfolding hooks_at hook_list find_type find_function find_collision
  from_empty cs = hooks_at-run empty_table cs (λ _. tt)

  -- After any history from the empty table, `has_hook` answers as the reference map does.
  pub has_hook-run :
      (cs : List (Call C)) (func : Wide) (type : HookType) (identifier : Wide)
      → has_hook make_fname (run empty_table cs) func type identifier
        ≡ contains identifier (spec_run (λ _ _. []) cs func type)
  has_hook-run cs func type identifier =
      has_hook-contains make_fname (run empty_table cs) func type identifier
      ∙ ap (λ (r : Registry C). contains identifier (r func type)) (from_empty cs)

  -- After any history of the table, if the sdk is initialized, no injection is pending, and calls are not
  -- logged or are logged to an open file, the node that `preprocess_hook` returns for a function has, at
  -- each type, the list of hooks of the reference map, whatever other functions share its bucket or its
  -- `FName`. The name of the function is the last part of its path.
  pub types_at-preprocess_hook :
      (cs : List (Call C)) (m : Manager C) (source obj : Wide) (func : Function) (type : HookType)
      → m.table ≡ run empty_table cs
      → func.fname ≡ extract_func_obj_name make_fname func.path_name
      → m.should_inject_next_call ≡ false
      → (not m.should_log_all_calls || m.stream.is_open) ≡ true
      → types_at type (preprocess_hook true source func obj m).1
        ≡ spec_run (λ _ _. []) cs func.path_name type
  types_at-preprocess_hook cs m source obj func type history name inject log =
      preprocess_hook-hooks_at make_fname m source obj func type name inject log
      ∙ ap (λ t. hooks_at make_fname t func.path_name type) history
      ∙ ap (λ (r : Registry C). r func.path_name type) (from_empty cs)
