-- ===== src/HookManager/Membership.antt =====
-- `has_hook` against the abstract table.
use unrealsdk.Base.{◌≡◌, refl, arith}
use unrealsdk.HookManager.{Key, Node, null, node}
use unrealsdk.HookManager.Has.{has_in_collection, has_types, has_functions, has_collisions}
use unrealsdk.HookManager.Find.{find_collision, find_function, find_type, hook_list}
use unrealsdk.HookManager.Spec.{types_at, functions_at, collisions_at, contains}

module _ {ℓ} {C : Type ℓ} (q : Key) where
  has_in_collection-contains :
      (s : Node C) → has_in_collection q s ≡ contains q.identifier (hook_list s)
  unfolding has_in_collection hook_list contains
  has_in_collection-contains null = refl
  has_in_collection-contains (node h c f t k) = ground (arith, has_in_collection-contains k)

  has_types-contains : (s : Node C) → has_types q s ≡ contains q.identifier (types_at q.hook_type s)
  unfolding has_types find_type hook_list contains
  has_types-contains null = refl
  has_types-contains (node h c f t k) =
      ground (arith, has_types-contains t, has_in_collection-contains (node h c f t k))

  has_functions-contains :
      (s : Node C)
      → has_functions q s ≡ contains q.identifier (functions_at q.full_name q.hook_type s)
  unfolding has_functions find_function find_type hook_list contains
  has_functions-contains null = refl
  has_functions-contains (node h c f t k) =
      ground (arith, has_functions-contains f, has_types-contains (node h c f t k))

  pub has_collisions-contains :
      (s : Node C)
      → has_collisions q s ≡ contains q.identifier (collisions_at q.fname q.full_name q.hook_type s)
  unfolding has_collisions find_collision find_function find_type hook_list contains
  has_collisions-contains null = refl
  has_collisions-contains (node h c f t k) =
      ground (arith, has_collisions-contains c, has_functions-contains (node h c f t k))
