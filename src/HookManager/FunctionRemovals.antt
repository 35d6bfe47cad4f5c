-- ===== src/HookManager/FunctionRemovals.antt =====
-- `remove_hook` within one list of functions.
use unrealsdk.Base.{ℕ, ◌≡◌, refl, ◌⊎◌, inl, inr, ite, Bool, Wide, wide_discrete, arith, Bool-cases}
use unrealsdk.HookManager.{HookType, Hook, Key, Node, null, node, HookType-discrete}
use unrealsdk.HookManager.Remove.{
  Removal, missing, kept, dropped, relink, promote_type, promote_to_function, unlink_in_collection,
  remove_in_collection, match_types, unlink_types, match_functions, unlink_functions,
}
use unrealsdk.HookManager.Find.{find_function, find_type, hook_list}
use unrealsdk.HookManager.Spec.{types_at, functions_at, contains, erase}
use unrealsdk.HookManager.Invariant.{InFunctions}
use unrealsdk.HookManager.Removals.{
  types_at-unlink_types, unlink_types-InTypes, unlink_types_result, erase-contains,
}

module _ {ℓ} {C : Type ℓ} (q : Key) where
  -- A head that is kept keeps its place in the lists above.
  abbrev pub KeepsTypes : Removal C → Hook C → Node C → Node C → Type ℓ
  KeepsTypes r h c f =
      (r ≡ missing)
      ⊎ ((t' : Node C) × (k' : Node C) × (r ≡ kept (node h c f t' k')))
      ⊎ ((m : Node C) × (r ≡ dropped m))

  pub match_types-KeepsTypes :
      (h : Hook C) (c f t k : Node C) (rest : Node C × Bool)
      → KeepsTypes (match_types q h c f t k rest) h c f
  unfolding match_types remove_in_collection
  match_types-KeepsTypes h c f t k rest = elim (HookType-discrete h.hook_type q.hook_type) [
    | yes p ↦ elim (wide_discrete h.identifier q.identifier) [
      | yes i ↦ inr (inr (promote_type k t, ground arith))
      | no i ↦ elim (Bool-cases (unlink_in_collection q k).1) [
        | inl b ↦ inr (inl (t, (unlink_in_collection q k).0, ground arith))
        | inr b ↦ inl (ground arith)
      ]
    ]
    | no p ↦ elim (Bool-cases rest.1) [
      | inl b ↦ inr (inl (rest.0, k, ground arith))
      | inr b ↦ inl (ground arith)
    ]
  ]

  functions_head :
      (name : Wide) (type : HookType) (fname : ℕ) (h : Hook C) (c f t k : Node C)
      → InFunctions fname (node h c f t k)
      → h.full_name ≡ q.full_name
      → (r : Removal C) → r ≡ match_types q h c f t k (unlink_types q t)
      → KeepsTypes r h c f
      → functions_at name type (relink (promote_to_function r f) (node h c f t k)).0
        ≡ ite
            (wide_discrete q.full_name name)
            (ite
              (HookType-discrete q.hook_type type)
              (erase q.identifier (functions_at name type (node h c f t k)))
              (functions_at name type (node h c f t k)))
            (functions_at name type (node h c f t k))
  unfolding relink promote_to_function unlink_types find_function find_type hook_list
  functions_head name type fname h c f t k v e missing d w =
      ground (arith, types_at-unlink_types q type fname h.full_name (node h c f t k) v.0)
  functions_head name type fname h c f t k v e (kept null) d w =
      ground (arith, types_at-unlink_types q type fname h.full_name (node h c f t k) v.0)
  functions_head name type fname h c f t k v e (kept (node h' c' f' t' k')) d w =
      ground (arith, types_at-unlink_types q type fname h.full_name (node h c f t k) v.0)
  functions_head name type fname h c f t k v e (dropped null) d w =
      ground (arith, types_at-unlink_types q type fname h.full_name (node h c f t k) v.0)
  functions_head name type fname h c f t k v e (dropped (node h' c' f' t' k')) d w = ground (
    arith,
    types_at-unlink_types q type fname h.full_name (node h c f t k) v.0,
    unlink_types-InTypes q fname h.full_name (node h c f t k) v.0,
  )

  functions_head_InFunctions :
      (fname : ℕ) (h : Hook C) (c f t k : Node C)
      → InFunctions fname (node h c f t k)
      → (r : Removal C) → r ≡ match_types q h c f t k (unlink_types q t)
      → KeepsTypes r h c f
      → InFunctions fname (relink (promote_to_function r f) (node h c f t k)).0
  unfolding relink promote_to_function unlink_types
  functions_head_InFunctions fname h c f t k v missing d w = v
  functions_head_InFunctions fname h c f t k v (kept null) d w = ground arith
  functions_head_InFunctions fname h c f t k v (kept (node h' c' f' t' k')) d w =
      ground (arith, unlink_types-InTypes q fname h.full_name (node h c f t k) v.0)
  functions_head_InFunctions fname h c f t k v (dropped null) d w = v.2
  functions_head_InFunctions fname h c f t k v (dropped (node h' c' f' t' k')) d w =
      ground (arith, unlink_types-InTypes q fname h.full_name (node h c f t k) v.0)

  functions_head_result :
      (h : Hook C) (c f t k : Node C) (r : Removal C)
      → r ≡ match_types q h c f t k (unlink_types q t)
      → (relink (promote_to_function r f) (node h c f t k)).1
        ≡ contains q.identifier (types_at q.hook_type (node h c f t k))
  unfolding relink promote_to_function unlink_types
  functions_head_result h c f t k missing d = ground (arith, unlink_types_result q (node h c f t k))
  functions_head_result h c f t k (kept m) d =
      ground (arith, unlink_types_result q (node h c f t k))
  functions_head_result h c f t k (dropped m) d =
      ground (arith, unlink_types_result q (node h c f t k))

  pub unlink_functions_result :
      (s : Node C)
      → (unlink_functions q s).1 ≡ contains q.identifier (functions_at q.full_name q.hook_type s)
  unfolding unlink_functions match_functions relink find_function find_type hook_list contains
  unlink_functions_result null = refl
  unlink_functions_result (node h c f t k) = ground (
    arith,
    unlink_functions_result f,
    functions_head_result h c f t k (match_types q h c f t k (unlink_types q t)) refl,
  )

  pub functions_at-unlink_functions :
      (name : Wide) (type : HookType) (fname : ℕ) (s : Node C)
      → InFunctions fname s
      → functions_at name type (unlink_functions q s).0
        ≡ ite
            (wide_discrete q.full_name name)
            (ite
              (HookType-discrete q.hook_type type)
              (erase q.identifier (functions_at name type s))
              (functions_at name type s))
            (functions_at name type s)
  unfolding unlink_functions match_functions relink find_function find_type hook_list erase
  functions_at-unlink_functions name type fname null v = ground arith
  functions_at-unlink_functions name type fname (node h c f t k) v =
      let r = match_types q h c f t k (unlink_types q t) in
      ground (
        arith,
        functions_at-unlink_functions name type fname f v.2,
        λ (e : h.full_name ≡ q.full_name).
            functions_head name type fname h c f t k v e r refl
              (match_types-KeepsTypes h c f t k (unlink_types q t)),
        unlink_functions_result f,
        erase-contains q q.identifier (functions_at name type f),
      )

  functions_head_absent :
      (name : Wide) (fname : ℕ) (h : Hook C) (c f t k : Node C)
      → InFunctions fname (node h c f t k)
      → find_function name (node h c f t k) ≡ null
      → (r : Removal C) → r ≡ match_types q h c f t k (unlink_types q t)
      → KeepsTypes r h c f
      → find_function name (relink (promote_to_function r f) (node h c f t k)).0 ≡ null
  unfolding relink promote_to_function unlink_types find_function
  functions_head_absent name fname h c f t k v e missing d w = e
  functions_head_absent name fname h c f t k v e (kept null) d w = refl
  functions_head_absent name fname h c f t k v e (kept (node h' c' f' t' k')) d w = ground arith
  functions_head_absent name fname h c f t k v e (dropped null) d w = ground arith
  functions_head_absent name fname h c f t k v e (dropped (node h' c' f' t' k')) d w =
      ground (arith, unlink_types-InTypes q fname h.full_name (node h c f t k) v.0)

  find_function-unlink_functions :
      (name : Wide) (fname : ℕ) (s : Node C)
      → InFunctions fname s
      → find_function name s ≡ null
      → find_function name (unlink_functions q s).0 ≡ null
  unfolding unlink_functions match_functions relink find_function
  find_function-unlink_functions name fname null v e = refl
  find_function-unlink_functions name fname (node h c f t k) v e = ground (
    arith,
    find_function-unlink_functions name fname f v.2,
    functions_head_absent name fname h c f t k v e (match_types q h c f t k (unlink_types q t)) refl
        (match_types-KeepsTypes h c f t k (unlink_types q t)),
  )

  pub unlink_functions-InFunctions :
      (fname : ℕ) (s : Node C) → InFunctions fname s → InFunctions fname (unlink_functions q s).0
  unfolding unlink_functions match_functions relink
  unlink_functions-InFunctions fname null v = v
  unlink_functions-InFunctions fname (node h c f t k) v = ground (
    arith,
    unlink_functions-InFunctions fname f v.2,
    find_function-unlink_functions h.full_name fname f,
    functions_head_InFunctions fname h c f t k v (match_types q h c f t k (unlink_types q t)) refl
        (match_types-KeepsTypes h c f t k (unlink_types q t)),
  )
