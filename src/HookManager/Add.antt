-- ===== src/HookManager/Add.antt =====
-- hook_manager.cpp, `add_hook`: the four loops, one for each list, and what each appends.
use unrealsdk.Base.{Bool, true, false, ite, wide_discrete, ℕ_discrete}
use unrealsdk.HookManager.{Hook, Node, null, node, leaf, HookType-discrete}

module _ {ℓ} {C : Type ℓ} where
  -- The last loop of `add_hook`: after an append it steps to the new node, whose identifier
  -- matches, so that it leaves by the final `return false`.
  unfoldable pub add_in_collection : Hook C → Node C → Node C × Bool
  add_in_collection new null = (leaf new, false)
  add_in_collection new (node h c f t k) =
      let rest = add_in_collection new k in
      ite (wide_discrete h.identifier new.identifier) (node h c f t k, false)
        (node h c f t rest.0, rest.1)

  unfoldable pub add_types : Hook C → Node C → Node C × Bool
  add_types new null = (leaf new, true)
  add_types new (node h c f t k) =
      let rest = add_types new t in
      ite (HookType-discrete h.hook_type new.hook_type) (add_in_collection new (node h c f t k))
        (node h c f rest.0 k, rest.1)

  unfoldable pub add_functions : Hook C → Node C → Node C × Bool
  add_functions new null = (leaf new, true)
  add_functions new (node h c f t k) =
      let rest = add_functions new f in
      ite (wide_discrete h.full_name new.full_name) (add_types new (node h c f t k))
        (node h c rest.0 t k, rest.1)

  unfoldable pub add_collisions : Hook C → Node C → Node C × Bool
  add_collisions new null = (leaf new, true)
  add_collisions new (node h c f t k) =
      let rest = add_collisions new c in
      ite (ℕ_discrete h.fname new.fname) (add_functions new (node h c f t k))
        (node h rest.0 f t k, rest.1)
