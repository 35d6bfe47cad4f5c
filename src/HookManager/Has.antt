-- ===== src/HookManager/Has.antt =====
-- hook_manager.cpp, `has_hook`: the four loops.
use unrealsdk.Base.{Bool, true, false, ite, wide_discrete, ℕ_discrete}
use unrealsdk.HookManager.{Key, Node, null, node, HookType-discrete}

module _ {ℓ} {C : Type ℓ} where
  unfoldable pub has_in_collection : Key → Node C → Bool
  has_in_collection q null = false
  has_in_collection q (node h c f t k) =
      let rest = has_in_collection q k in ite (wide_discrete h.identifier q.identifier) true rest

  unfoldable pub has_types : Key → Node C → Bool
  has_types q null = false
  has_types q (node h c f t k) =
      let rest = has_types q t in
      ite (HookType-discrete h.hook_type q.hook_type) (has_in_collection q (node h c f t k)) rest

  unfoldable pub has_functions : Key → Node C → Bool
  has_functions q null = false
  has_functions q (node h c f t k) =
      let rest = has_functions q f in
      ite (wide_discrete h.full_name q.full_name) (has_types q (node h c f t k)) rest

  unfoldable pub has_collisions : Key → Node C → Bool
  has_collisions q null = false
  has_collisions q (node h c f t k) =
      let rest = has_collisions q c in
      ite (ℕ_discrete h.fname q.fname) (has_functions q (node h c f t k)) rest
