-- ===== src/HookManager/TableLaws.antt =====
-- The operations on the table refine a map from a function and a type to a list of hooks.
use unrealsdk.Base.{ℕ, ◌≡◌, ite, subst, Wide, wide_discrete, ℕ_discrete, arith, ◌==◌, true, false}
use unrealsdk.HookManager.{HookType, Hook, Node, HookType-discrete}
use unrealsdk.HookManager.Spec.{contains, insert, erase, is_empty}
use unrealsdk.HookManager.Invariant.{InBucket}
use unrealsdk.HookManager.Insertion.{collisions_at-add_collisions, add_collisions_result}
use unrealsdk.HookManager.InsertionInvariant.{add_collisions-InBucket}
use unrealsdk.HookManager.Membership.{has_collisions-contains}
use unrealsdk.HookManager.CollisionRemovals.{
  collisions_at-unlink_collisions, unlink_collisions_result, unlink_collisions-InBucket,
}
use unrealsdk.HookManager.Table.{
  Table, store, get_table_index, extract_func_obj_name, add_hook, has_hook, remove_hook, hooks_at,
  make_key,
}

module _ {ℓ} {C : Type ℓ} (make_fname : Wide → ℕ) where
  abbrev pub make_hook : Wide → HookType → Wide → C → Hook C
  make_hook func type identifier callback = record {
    fname = extract_func_obj_name make_fname func;
    full_name = func;
    hook_type = type;
    identifier = identifier;
    callback = callback;
  }

  -- `add_hook` appends the hook to the list of its function and type, unless the identifier is
  -- there, and leaves every other list alone.
  pub hooks_at-add_hook :
      (table : Table C) (func : Wide) (type : HookType) (identifier : Wide) (callback : C)
      (name : Wide) (other : HookType)
      → hooks_at make_fname (add_hook make_fname table func type identifier callback).0 name other
        ≡ ite
            (wide_discrete func name)
            (ite
              (HookType-discrete type other)
              (insert
                (make_hook func type identifier callback)
                (hooks_at make_fname table name other))
              (hooks_at make_fname table name other))
            (hooks_at make_fname table name other)
  unfolding hooks_at add_hook
  hooks_at-add_hook table func type identifier callback name other =
      let fname = extract_func_obj_name make_fname func in
      let fname' = extract_func_obj_name make_fname name in
      ground (
        arith,
        collisions_at-add_collisions (make_hook func type identifier callback) fname' name other
            (table (get_table_index fname)),
      )

  -- `add_hook` returns true exactly if the function had no hook of that type.
  pub add_hook_result :
      (table : Table C) (func : Wide) (type : HookType) (identifier : Wide) (callback : C)
      → (add_hook make_fname table func type identifier callback).1
        ≡ is_empty (hooks_at make_fname table func type)
  unfolding hooks_at add_hook
  add_hook_result table func type identifier callback =
      add_collisions_result (make_hook func type identifier callback) _

  -- `has_hook` tells whether the list of the function and type holds the identifier.
  pub has_hook-contains :
      (table : Table C) (func : Wide) (type : HookType) (identifier : Wide)
      → has_hook make_fname table func type identifier
        ≡ contains identifier (hooks_at make_fname table func type)
  unfolding hooks_at has_hook
  has_hook-contains table func type identifier =
      has_collisions-contains (make_key make_fname func type identifier) _

  -- Every bucket holds the nodes that hash to it, under distinct keys.
  abbrev pub IsValid : Table C → Type ℓ
  IsValid table = (idx : ℕ) → InBucket idx (table idx)

  -- In a valid table `remove_hook` takes the identifier off the list of its function and type, and
  -- leaves every other list alone.
  pub hooks_at-remove_hook :
      (table : Table C) (func : Wide) (type : HookType) (identifier : Wide) (name : Wide)
      (other : HookType)
      → IsValid table
      → hooks_at make_fname (remove_hook make_fname table func type identifier).0 name other
        ≡ ite
            (wide_discrete func name)
            (ite
              (HookType-discrete type other)
              (erase identifier (hooks_at make_fname table name other))
              (hooks_at make_fname table name other))
            (hooks_at make_fname table name other)
  unfolding hooks_at remove_hook
  hooks_at-remove_hook table func type identifier name other v =
      let fname = extract_func_obj_name make_fname func in
      let fname' = extract_func_obj_name make_fname name in
      let idx = get_table_index fname in
      ground (
        arith,
        collisions_at-unlink_collisions (make_key make_fname func type identifier) fname' name other
            idx (table idx) (v idx),
      )

  -- `remove_hook` returns whether the identifier was on that list.
  pub remove_hook_result :
      (table : Table C) (func : Wide) (type : HookType) (identifier : Wide)
      → (remove_hook make_fname table func type identifier).1
        ≡ contains identifier (hooks_at make_fname table func type)
  unfolding hooks_at remove_hook
  remove_hook_result table func type identifier =
      unlink_collisions_result (make_key make_fname func type identifier) _

  store-IsValid :
      (table : Table C) (idx : ℕ) (n : Node C)
      → IsValid table
      → InBucket idx n
      → IsValid (store table idx n)
  unfolding store
  store-IsValid table idx n v w j = elim (ℕ_discrete idx j) [
    | yes e ↦ let same : (idx == j) ≡ true = ground arith in rw same (subst (λ i. InBucket i n) e w)
    | no ne ↦ let other : (idx == j) ≡ false = ground arith in rw other (v j)
  ]

  pub add_hook-IsValid :
      (table : Table C) (func : Wide) (type : HookType) (identifier : Wide) (callback : C)
      → IsValid table
      → IsValid (add_hook make_fname table func type identifier callback).0
  unfolding add_hook get_table_index
  add_hook-IsValid table func type identifier callback v =
      store-IsValid table _ _ v
        (add_collisions-InBucket (make_hook func type identifier callback) _ (v _))

  pub remove_hook-IsValid :
      (table : Table C) (func : Wide) (type : HookType) (identifier : Wide)
      → IsValid table
      → IsValid (remove_hook make_fname table func type identifier).0
  unfolding remove_hook
  remove_hook-IsValid table func type identifier v =
      store-IsValid table _ _ v
        (unlink_collisions-InBucket (make_key make_fname func type identifier) _ _ (v _))
