-- ===== src/HookManager/Find.antt =====
-- hook_manager.cpp: the loops by which `preprocess_hook` and `run_hooks_of_type` reach a list.
use unrealsdk.Base.{ℕ, ite, List, [], ◌∷◌, Wide, wide_discrete, ℕ_discrete}
use unrealsdk.HookManager.{HookType, Hook, Node, null, node, HookType-discrete}

module _ {ℓ} {C : Type ℓ} where
  -- The loops of `preprocess_hook`, and the first loop of `run_hooks_of_type`.
  unfoldable pub find_collision : ℕ → Node C → Node C
  find_collision fname null = null
  find_collision fname (node h c f t k) =
      let rest = find_collision fname c in ite (ℕ_discrete h.fname fname) (node h c f t k) rest

  unfoldable pub find_function : Wide → Node C → Node C
  find_function name null = null
  find_function name (node h c f t k) =
      let rest = find_function name f in ite (wide_discrete h.full_name name) (node h c f t k) rest

  unfoldable pub find_type : HookType → Node C → Node C
  find_type type null = null
  find_type type (node h c f t k) =
      let rest = find_type type t in ite (HookType-discrete h.hook_type type) (node h c f t k) rest

  -- The hooks behind a node of the lowest list, in the order in which they run.
  unfoldable pub hook_list : Node C → List (Hook C)
  hook_list null = []
  hook_list (node h c f t k) = h ∷ hook_list k
