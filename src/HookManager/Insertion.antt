-- ===== src/HookManager/Insertion.antt =====
-- `add_hook` against the abstract table.
use unrealsdk.Base.{ℕ, ◌≡◌, refl, false, ite, Wide, wide_discrete, ℕ_discrete, arith}
use unrealsdk.HookManager.{HookType, Hook, Node, null, node, HookType-discrete}
use unrealsdk.HookManager.Add.{add_in_collection, add_types, add_functions, add_collisions}
use unrealsdk.HookManager.Find.{find_collision, find_function, find_type, hook_list}
use unrealsdk.HookManager.Spec.{types_at, functions_at, collisions_at, insert, is_empty}

module _ {ℓ} {C : Type ℓ} where
  pub hook_list-add_in_collection :
      (new : Hook C) (s : Node C) → hook_list (add_in_collection new s).0 ≡ insert new (hook_list s)
  unfolding add_in_collection hook_list insert
  hook_list-add_in_collection new null = refl
  hook_list-add_in_collection new (node h c f t k) =
      ground (arith, hook_list-add_in_collection new k)

  -- The loop leaves the head of its list in place.
  pub add_in_collection_head :
      (new : Hook C) (h : Hook C) (c f t k : Node C)
      → (k' : Node C) × ((add_in_collection new (node h c f t k)).0 ≡ node h c f t k')
  unfolding add_in_collection
  add_in_collection_head new h c f t k = elim (wide_discrete h.identifier new.identifier) [
    | yes p ↦ (k, ground arith)
    | no p ↦ ((add_in_collection new k).0, ground arith)
  ]

  types_at-add_types :
      (new : Hook C) (type : HookType) (s : Node C)
      → types_at type (add_types new s).0
        ≡ ite
            (HookType-discrete new.hook_type type)
            (insert new (types_at type s))
            (types_at type s)
  unfolding add_types find_type hook_list insert
  types_at-add_types new type null = ground arith
  types_at-add_types new type (node h c f t k) = ground (
    arith,
    types_at-add_types new type t,
    add_in_collection_head new h c f t k,
    hook_list-add_in_collection new (node h c f t k),
  )

  pub add_types_head :
      (new : Hook C) (h : Hook C) (c f t k : Node C)
      → (t' k' : Node C) × ((add_types new (node h c f t k)).0 ≡ node h c f t' k')
  unfolding add_types
  add_types_head new h c f t k =
      let (k', e) = add_in_collection_head new h c f t k in
      elim (HookType-discrete h.hook_type new.hook_type) [
        | yes p ↦ (t, k', ground (arith, e))
        | no p ↦ ((add_types new t).0, k, ground arith)
      ]

  functions_at-add_functions :
      (new : Hook C) (name : Wide) (type : HookType) (s : Node C)
      → functions_at name type (add_functions new s).0
        ≡ ite
            (wide_discrete new.full_name name)
            (ite
              (HookType-discrete new.hook_type type)
              (insert new (functions_at name type s))
              (functions_at name type s))
            (functions_at name type s)
  unfolding add_functions find_function find_type hook_list insert
  functions_at-add_functions new name type null = ground arith
  functions_at-add_functions new name type (node h c f t k) = ground (
    arith,
    functions_at-add_functions new name type f,
    add_types_head new h c f t k,
    types_at-add_types new type (node h c f t k),
  )

  pub add_functions_head :
      (new : Hook C) (h : Hook C) (c f t k : Node C)
      → (f' t' k' : Node C) × ((add_functions new (node h c f t k)).0 ≡ node h c f' t' k')
  unfolding add_functions
  add_functions_head new h c f t k =
      let (t', k', e) = add_types_head new h c f t k in
      elim (wide_discrete h.full_name new.full_name) [
        | yes p ↦ (f, t', k', ground (arith, e))
        | no p ↦ ((add_functions new f).0, t, k, ground arith)
      ]

  pub collisions_at-add_collisions :
      (new : Hook C) (fname : ℕ) (name : Wide) (type : HookType) (s : Node C)
      → collisions_at fname name type (add_collisions new s).0
        ≡ ite
            (ℕ_discrete new.fname fname)
            (ite
              (wide_discrete new.full_name name)
              (ite
                (HookType-discrete new.hook_type type)
                (insert new (collisions_at fname name type s))
                (collisions_at fname name type s))
              (collisions_at fname name type s))
            (collisions_at fname name type s)
  unfolding add_collisions find_collision find_function find_type hook_list insert
  collisions_at-add_collisions new fname name type null = ground arith
  collisions_at-add_collisions new fname name type (node h c f t k) = ground (
    arith,
    collisions_at-add_collisions new fname name type c,
    add_functions_head new h c f t k,
    functions_at-add_functions new name type (node h c f t k),
  )

  -- The result is whether the list of that function and type was empty.
  add_in_collection_result : (new : Hook C) (s : Node C) → (add_in_collection new s).1 ≡ false
  unfolding add_in_collection
  add_in_collection_result new null = refl
  add_in_collection_result new (node h c f t k) = ground (arith, add_in_collection_result new k)

  add_types_result :
      (new : Hook C) (s : Node C) → (add_types new s).1 ≡ is_empty (types_at new.hook_type s)
  unfolding add_types find_type hook_list is_empty
  add_types_result new null = refl
  add_types_result new (node h c f t k) =
      ground (arith, add_types_result new t, add_in_collection_result new (node h c f t k))

  add_functions_result :
      (new : Hook C) (s : Node C)
      → (add_functions new s).1 ≡ is_empty (functions_at new.full_name new.hook_type s)
  unfolding add_functions find_function find_type hook_list is_empty
  add_functions_result new null = refl
  add_functions_result new (node h c f t k) =
      ground (arith, add_functions_result new f, add_types_result new (node h c f t k))

  pub add_collisions_result :
      (new : Hook C) (s : Node C)
      → (add_collisions new s).1 ≡ is_empty (collisions_at new.fname new.full_name new.hook_type s)
  unfolding add_collisions find_collision find_function find_type hook_list is_empty
  add_collisions_result new null = refl
  add_collisions_result new (node h c f t k) =
      ground (arith, add_collisions_result new c, add_functions_result new (node h c f t k))
