-- ===== src/HookManager/Remove.antt =====
-- hook_manager.cpp, `remove_hook`: the walk to the node, and the promotion of its neighbours.
use unrealsdk.Base.{Bool, true, false, ite, if◌then◌else◌, wide_discrete, ℕ_discrete}
use unrealsdk.HookManager.{Hook, Key, Node, null, node, HookType-discrete}

-- What a list says of its head: nothing matched, a node behind the head was unlinked, or the head
-- itself was, and the slot that led to it takes another node.
pub data Removal {ℓ} (C : Type ℓ) : Type ℓ where
  missing : Removal C
  kept dropped : Node C → Removal C

module _ {ℓ} {C : Type ℓ} where
  -- The new contents of a slot that led to the node.
  unfoldable pub relink : Removal C → Node C → Node C × Bool
  relink missing n = (n, false)
  relink (kept m) n = (m, true)
  relink (dropped m) n = (m, true)

  -- `node->next_in_collection->next_type = node->next_type`, and its promotion to `next_type`.
  unfoldable pub promote_type : Node C → Node C → Node C
  promote_type null t = t
  promote_type (node h c f _ k) t = node h c f t k

  unfoldable pub promote_function : Node C → Node C → Node C
  promote_function null f = f
  promote_function (node h c _ t k) f = node h c f t k

  unfoldable pub promote_collision : Node C → Node C → Node C
  promote_collision null c = c
  promote_collision (node h _ f t k) c = node h c f t k

  unfoldable pub promote_to_function : Removal C → Node C → Removal C
  unfolding promote_function
  promote_to_function missing f = missing
  promote_to_function (kept n) f = kept n
  promote_to_function (dropped n) f = dropped (promote_function n f)

  unfoldable pub promote_to_collision : Removal C → Node C → Removal C
  unfolding promote_collision
  promote_to_collision missing c = missing
  promote_to_collision (kept n) c = kept n
  promote_to_collision (dropped n) c = dropped (promote_collision n c)

  -- `prev_in_collection` is not null: the slot is its `next_in_collection`.
  unfoldable pub unlink_in_collection : Key → Node C → Node C × Bool
  unlink_in_collection q null = (null, false)
  unlink_in_collection q (node h c f t k) =
      let rest = unlink_in_collection q k in
      ite (wide_discrete h.identifier q.identifier) (k, true) (node h c f t rest.0, rest.1)

  unfoldable pub remove_in_collection : Key → Hook C → Node C → Node C → Node C → Node C → Removal C
  unfolding unlink_in_collection promote_type
  remove_in_collection q h c f t k =
      let rest = unlink_in_collection q k in
      ite (wide_discrete h.identifier q.identifier) (dropped (promote_type k t))
        (if rest.1 then kept (node h c f t rest.0) else missing)

  -- `rest` is the outcome for the list behind `next_type`.
  unfoldable pub match_types :
      Key → Hook C → Node C → Node C → Node C → Node C → Node C × Bool → Removal C
  unfolding remove_in_collection
  match_types q h c f t k rest =
      ite (HookType-discrete h.hook_type q.hook_type) (remove_in_collection q h c f t k)
        (if rest.1 then kept (node h c f rest.0 k) else missing)

  unfoldable pub unlink_types : Key → Node C → Node C × Bool
  unfolding match_types relink
  unlink_types q null = (null, false)
  unlink_types q (node h c f t k) =
      let rest = unlink_types q t in relink (match_types q h c f t k rest) (node h c f t k)

  unfoldable pub match_functions :
      Key → Hook C → Node C → Node C → Node C → Node C → Node C × Bool → Removal C
  unfolding match_types unlink_types promote_to_function
  match_functions q h c f t k rest =
      ite (wide_discrete h.full_name q.full_name)
        (promote_to_function (match_types q h c f t k (unlink_types q t)) f)
        (if rest.1 then kept (node h c rest.0 t k) else missing)

  unfoldable pub unlink_functions : Key → Node C → Node C × Bool
  unfolding match_functions relink
  unlink_functions q null = (null, false)
  unlink_functions q (node h c f t k) =
      let rest = unlink_functions q f in relink (match_functions q h c f t k rest) (node h c f t k)

  unfoldable pub match_collisions :
      Key → Hook C → Node C → Node C → Node C → Node C → Node C × Bool → Removal C
  unfolding match_functions unlink_functions promote_to_collision
  match_collisions q h c f t k rest =
      ite (ℕ_discrete h.fname q.fname)
        (promote_to_collision (match_functions q h c f t k (unlink_functions q f)) c)
        (if rest.1 then kept (node h rest.0 f t k) else missing)

  -- The slot is the hash table's own entry, or the `next_collision` of the node before.
  unfoldable pub unlink_collisions : Key → Node C → Node C × Bool
  unfolding match_collisions relink
  unlink_collisions q null = (null, false)
  unlink_collisions q (node h c f t k) =
      let rest = unlink_collisions q c in
      relink (match_collisions q h c f t k rest) (node h c f t k)
