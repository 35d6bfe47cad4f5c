-- ===== src/HookManager/CollisionRemovals.antt =====
-- `remove_hook` within one bucket of the hash table.
use unrealsdk.Base.{
  ℕ, ◌≡◌, refl, ◌⊎◌, inl, inr, ite, if_pos, Bool, Wide, wide_discrete, ℕ_discrete, arith,
  Bool-cases,
}
use unrealsdk.HookManager.{HookType, Hook, Key, Node, null, node, HookType-discrete}
use unrealsdk.HookManager.Remove.{
  Removal, missing, kept, dropped, relink, promote_function, promote_to_function,
  promote_to_collision, unlink_types, match_functions, unlink_functions, match_collisions,
  unlink_collisions,
}
use unrealsdk.HookManager.Find.{find_collision, find_function, find_type, hook_list}
use unrealsdk.HookManager.Spec.{functions_at, collisions_at, contains, erase}
use unrealsdk.HookManager.Invariant.{InBucket}
use unrealsdk.HookManager.Removals.{erase-contains}
use unrealsdk.HookManager.FunctionRemovals.{
  KeepsTypes, match_types-KeepsTypes, functions_at-unlink_functions, unlink_functions-InFunctions,
  unlink_functions_result,
}

module _ {ℓ} {C : Type ℓ} (q : Key) where
  abbrev KeepsFunctions : Removal C → Hook C → Node C → Type ℓ
  KeepsFunctions r h c =
      (r ≡ missing)
      ⊎ ((f' : Node C) × (t' : Node C) × (k' : Node C) × (r ≡ kept (node h c f' t' k')))
      ⊎ ((m : Node C) × (r ≡ dropped m))

  promote_to_function-KeepsFunctions :
      (h : Hook C) (c f : Node C) (r : Removal C)
      → KeepsTypes q r h c f
      → KeepsFunctions (promote_to_function r f) h c
  unfolding promote_to_function
  promote_to_function-KeepsFunctions h c f r (inl e) = inl (ground arith)
  promote_to_function-KeepsFunctions h c f r (inr (inl (t', k', e))) =
      inr (inl (f, t', k', ground arith))
  promote_to_function-KeepsFunctions h c f r (inr (inr (m, e))) =
      inr (inr (promote_function m f, ground arith))

  match_functions-KeepsFunctions :
      (h : Hook C) (c f t k : Node C) (rest : Node C × Bool)
      → KeepsFunctions (match_functions q h c f t k rest) h c
  unfolding match_functions
  match_functions-KeepsFunctions h c f t k rest = elim (wide_discrete h.full_name q.full_name) [
    | yes p ↦ rw (if_pos _ p) (
        promote_to_function-KeepsFunctions h c f _
          (match_types-KeepsTypes q h c f t k (unlink_types q t)))
    | no p ↦ elim (Bool-cases rest.1) [
      | inl b ↦ inr (inl (rest.0, t, k, ground arith))
      | inr b ↦ inl (ground arith)
    ]
  ]

  collisions_head :
      (fname : ℕ) (name : Wide) (type : HookType) (idx : ℕ) (h : Hook C) (c f t k : Node C)
      → InBucket idx (node h c f t k)
      → h.fname ≡ q.fname
      → (r : Removal C) → r ≡ match_functions q h c f t k (unlink_functions q f)
      → KeepsFunctions r h c
      → collisions_at fname name type (relink (promote_to_collision r c) (node h c f t k)).0
        ≡ ite
            (ℕ_discrete q.fname fname)
            (ite
              (wide_discrete q.full_name name)
              (ite
                (HookType-discrete q.hook_type type)
                (erase q.identifier (collisions_at fname name type (node h c f t k)))
                (collisions_at fname name type (node h c f t k)))
              (collisions_at fname name type (node h c f t k)))
            (collisions_at fname name type (node h c f t k))
  unfolding relink promote_to_collision unlink_functions find_collision find_function find_type
      hook_list
  collisions_head fname name type idx h c f t k v e missing d w =
      ground (arith, functions_at-unlink_functions q name type h.fname (node h c f t k) v.1)
  collisions_head fname name type idx h c f t k v e (kept null) d w =
      ground (arith, functions_at-unlink_functions q name type h.fname (node h c f t k) v.1)
  collisions_head fname name type idx h c f t k v e (kept (node h' c' f' t' k')) d w =
      ground (arith, functions_at-unlink_functions q name type h.fname (node h c f t k) v.1)
  collisions_head fname name type idx h c f t k v e (dropped null) d w =
      ground (arith, functions_at-unlink_functions q name type h.fname (node h c f t k) v.1)
  collisions_head fname name type idx h c f t k v e (dropped (node h' c' f' t' k')) d w = ground (
    arith,
    functions_at-unlink_functions q name type h.fname (node h c f t k) v.1,
    unlink_functions-InFunctions q h.fname (node h c f t k) v.1,
  )

  collisions_head_InBucket :
      (idx : ℕ) (h : Hook C) (c f t k : Node C)
      → InBucket idx (node h c f t k)
      → (r : Removal C) → r ≡ match_functions q h c f t k (unlink_functions q f)
      → KeepsFunctions r h c
      → InBucket idx (relink (promote_to_collision r c) (node h c f t k)).0
  unfolding relink promote_to_collision unlink_functions
  collisions_head_InBucket idx h c f t k v missing d w = v
  collisions_head_InBucket idx h c f t k v (kept null) d w = ground arith
  collisions_head_InBucket idx h c f t k v (kept (node h' c' f' t' k')) d w =
      ground (arith, unlink_functions-InFunctions q h.fname (node h c f t k) v.1)
  collisions_head_InBucket idx h c f t k v (dropped null) d w = v.3
  collisions_head_InBucket idx h c f t k v (dropped (node h' c' f' t' k')) d w =
      ground (arith, unlink_functions-InFunctions q h.fname (node h c f t k) v.1)

  collisions_head_absent :
      (fname idx : ℕ) (h : Hook C) (c f t k : Node C)
      → InBucket idx (node h c f t k)
      → find_collision fname (node h c f t k) ≡ null
      → (r : Removal C) → r ≡ match_functions q h c f t k (unlink_functions q f)
      → KeepsFunctions r h c
      → find_collision fname (relink (promote_to_collision r c) (node h c f t k)).0 ≡ null
  unfolding relink promote_to_collision unlink_functions find_collision
  collisions_head_absent fname idx h c f t k v e missing d w = e
  collisions_head_absent fname idx h c f t k v e (kept null) d w = refl
  collisions_head_absent fname idx h c f t k v e (kept (node h' c' f' t' k')) d w = ground arith
  collisions_head_absent fname idx h c f t k v e (dropped null) d w = ground arith
  collisions_head_absent fname idx h c f t k v e (dropped (node h' c' f' t' k')) d w =
      ground (arith, unlink_functions-InFunctions q h.fname (node h c f t k) v.1)

  collisions_head_result :
      (h : Hook C) (c f t k : Node C) (r : Removal C)
      → r ≡ match_functions q h c f t k (unlink_functions q f)
      → (relink (promote_to_collision r c) (node h c f t k)).1
        ≡ contains q.identifier (functions_at q.full_name q.hook_type (node h c f t k))
  unfolding relink promote_to_collision unlink_functions
  collisions_head_result h c f t k missing d =
      ground (arith, unlink_functions_result q (node h c f t k))
  collisions_head_result h c f t k (kept m) d =
      ground (arith, unlink_functions_result q (node h c f t k))
  collisions_head_result h c f t k (dropped m) d =
      ground (arith, unlink_functions_result q (node h c f t k))

  -- `remove_hook` reports whether the hook was there.
  pub unlink_collisions_result :
      (s : Node C)
      → (unlink_collisions q s).1
        ≡ contains q.identifier (collisions_at q.fname q.full_name q.hook_type s)
  unfolding unlink_collisions match_collisions relink find_collision find_function find_type
      hook_list contains
  unlink_collisions_result null = refl
  unlink_collisions_result (node h c f t k) = ground (
    arith,
    unlink_collisions_result c,
    collisions_head_result h c f t k (match_functions q h c f t k (unlink_functions q f)) refl,
  )

  pub collisions_at-unlink_collisions :
      (fname : ℕ) (name : Wide) (type : HookType) (idx : ℕ) (s : Node C)
      → InBucket idx s
      → collisions_at fname name type (unlink_collisions q s).0
        ≡ ite
            (ℕ_discrete q.fname fname)
            (ite
              (wide_discrete q.full_name name)
              (ite
                (HookType-discrete q.hook_type type)
                (erase q.identifier (collisions_at fname name type s))
                (collisions_at fname name type s))
              (collisions_at fname name type s))
            (collisions_at fname name type s)
  unfolding unlink_collisions match_collisions relink find_collision find_function find_type
      hook_list erase
  collisions_at-unlink_collisions fname name type idx null v = ground arith
  collisions_at-unlink_collisions fname name type idx (node h c f t k) v =
      let r = match_functions q h c f t k (unlink_functions q f) in
      ground (
        arith,
        collisions_at-unlink_collisions fname name type idx c v.3,
        λ (e : h.fname ≡ q.fname).
            collisions_head fname name type idx h c f t k v e r refl
              (match_functions-KeepsFunctions h c f t k (unlink_functions q f)),
        unlink_collisions_result c,
        erase-contains q q.identifier (collisions_at fname name type c),
      )

  find_collision-unlink_collisions :
      (fname idx : ℕ) (s : Node C)
      → InBucket idx s
      → find_collision fname s ≡ null
      → find_collision fname (unlink_collisions q s).0 ≡ null
  unfolding unlink_collisions match_collisions relink find_collision
  find_collision-unlink_collisions fname idx null v e = refl
  find_collision-unlink_collisions fname idx (node h c f t k) v e = ground (
    arith,
    find_collision-unlink_collisions fname idx c v.3,
    collisions_head_absent fname idx h c f t k v e
        (match_functions q h c f t k (unlink_functions q f)) refl
        (match_functions-KeepsFunctions h c f t k (unlink_functions q f)),
  )

  pub unlink_collisions-InBucket :
      (idx : ℕ) (s : Node C) → InBucket idx s → InBucket idx (unlink_collisions q s).0
  unfolding unlink_collisions match_collisions relink
  unlink_collisions-InBucket idx null v = v
  unlink_collisions-InBucket idx (node h c f t k) v = ground (
    arith,
    unlink_collisions-InBucket idx c v.3,
    find_collision-unlink_collisions h.fname idx c,
    collisions_head_InBucket idx h c f t k v (match_functions q h c f t k (unlink_functions q f))
        refl (match_functions-KeepsFunctions h c f t k (unlink_functions q f)),
  )
