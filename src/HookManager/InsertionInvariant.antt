-- ===== src/HookManager/InsertionInvariant.antt =====
-- `add_hook` keeps the shape of a bucket.
use unrealsdk.Base.{ℕ, ◌%◌, ◌≡◌, ◌≢◌, sym, subst, false, List, [], ◌∷◌, Wide, ℕ_discrete, arith}
use unrealsdk.HookManager.{HookType, Hook, Node, null, node}
use unrealsdk.HookManager.Add.{add_in_collection, add_types, add_functions, add_collisions}
use unrealsdk.HookManager.Find.{find_collision, find_function, find_type, hook_list}
use unrealsdk.HookManager.Spec.{contains, insert}
use unrealsdk.HookManager.Invariant.{InCollection, InTypes, InFunctions, InBucket}
use unrealsdk.HookManager.Insertion.{
  hook_list-add_in_collection, add_in_collection_head, add_types_head, add_functions_head,
}

module _ {ℓ} {C : Type ℓ} (new : Hook C) where
  contains-insert :
      (id : Wide) (xs : List (Hook C))
      → contains id xs ≡ false
      → new.identifier ≢ id
      → contains id (insert new xs) ≡ false
  unfolding contains insert
  contains-insert id [] h ne = ground arith
  contains-insert id (x ∷ xs) h ne = ground (arith, contains-insert id xs)

  add_in_collection-InCollection :
      (s : Node C)
      → InCollection new.fname new.full_name new.hook_type s
      → InCollection new.fname new.full_name new.hook_type (add_in_collection new s).0
  unfolding add_in_collection hook_list contains
  add_in_collection-InCollection null v = ground arith
  add_in_collection-InCollection (node h c f t k) v = ground (
    arith,
    add_in_collection-InCollection k v.4,
    hook_list-add_in_collection new k,
    contains-insert h.identifier (hook_list k) v.3,
  )

  find_type-add_types :
      (type : HookType) (s : Node C)
      → find_type type s ≡ null
      → new.hook_type ≢ type
      → find_type type (add_types new s).0 ≡ null
  unfolding add_types find_type
  find_type-add_types type null e ne = ground arith
  find_type-add_types type (node h c f t k) e ne =
      ground (arith, find_type-add_types type t, add_in_collection_head new h c f t k)

  add_types-InTypes :
      (s : Node C)
      → InTypes new.fname new.full_name s
      → InTypes new.fname new.full_name (add_types new s).0
  unfolding add_types find_type hook_list contains
  add_types-InTypes null v = ground arith
  add_types-InTypes (node h c f t k) v = ground (
    arith,
    add_types-InTypes t v.2,
    find_type-add_types h.hook_type t v.1,
    add_in_collection_head new h c f t k,
    add_in_collection-InCollection (node h c f t k),
  )

  find_function-add_functions :
      (name : Wide) (s : Node C)
      → find_function name s ≡ null
      → new.full_name ≢ name
      → find_function name (add_functions new s).0 ≡ null
  unfolding add_functions find_function
  find_function-add_functions name null e ne = ground arith
  find_function-add_functions name (node h c f t k) e ne =
      ground (arith, find_function-add_functions name f, add_types_head new h c f t k)

  add_functions-InFunctions :
      (s : Node C) → InFunctions new.fname s → InFunctions new.fname (add_functions new s).0
  unfolding add_functions find_type find_function hook_list contains
  add_functions-InFunctions null v = ground arith
  add_functions-InFunctions (node h c f t k) v = ground (
    arith,
    add_functions-InFunctions f v.2,
    find_function-add_functions h.full_name f v.1,
    add_types_head new h c f t k,
    add_types-InTypes (node h c f t k),
  )

  find_collision-add_collisions :
      (fname : ℕ) (s : Node C)
      → find_collision fname s ≡ null
      → new.fname ≢ fname
      → find_collision fname (add_collisions new s).0 ≡ null
  unfolding add_collisions find_collision
  find_collision-add_collisions fname null e ne = ground arith
  find_collision-add_collisions fname (node h c f t k) e ne =
      ground (arith, find_collision-add_collisions fname c, add_functions_head new h c f t k)

  same_collision :
      (h : Hook C) (c f t k : Node C)
      → h.fname ≡ new.fname
      → InBucket (new.fname % 0x1000) (node h c f t k)
      → InBucket (new.fname % 0x1000) (add_functions new (node h c f t k)).0
  same_collision h c f t k p v =
      let (f', t', k', e) = add_functions_head new h c f t k in
      let kept : InFunctions h.fname (add_functions new (node h c f t k)).0 =
        subst (λ n. InFunctions n (add_functions new (node h c f t k)).0) (sym p)
          (add_functions-InFunctions (node h c f t k)
            (subst (λ n. InFunctions n (node h c f t k)) p v.1)) in
      rw e (v.0, rw e at kept, v.2, v.3)

  pub add_collisions-InBucket :
      (s : Node C)
      → InBucket (new.fname % 0x1000) s
      → InBucket (new.fname % 0x1000) (add_collisions new s).0
  unfolding add_collisions find_collision find_type find_function hook_list contains
  add_collisions-InBucket null v = ground arith
  add_collisions-InBucket (node h c f t k) v = elim (ℕ_discrete h.fname new.fname) [
    | yes p ↦
        let e : (add_collisions new (node h c f t k)).0 ≡ (add_functions new (node h c f t k)).0 =
          ground arith in
        subst (InBucket (new.fname % 0x1000)) (sym e) (same_collision h c f t k p v)
    | no p ↦
        let e : (add_collisions new (node h c f t k)).0 ≡ node h (add_collisions new c).0 f t k =
          ground arith in
        subst (InBucket (new.fname % 0x1000)) (sym e) (
          v.0,
          v.1,
          find_collision-add_collisions h.fname c v.2 (λ e. p (sym e)),
          add_collisions-InBucket c v.3,
        )
  ]
