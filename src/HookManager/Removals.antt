-- ===== src/HookManager/Removals.antt =====
-- `remove_hook` within one list of types.
use unrealsdk.Base.{ℕ, ◌≡◌, refl, false, ite, List, [], ◌∷◌, Wide, arith}
use unrealsdk.HookManager.{HookType, Hook, Key, Node, null, node, HookType-discrete}
use unrealsdk.HookManager.Remove.{
  relink, unlink_in_collection, remove_in_collection, match_types, unlink_types,
}
use unrealsdk.HookManager.Find.{find_type, hook_list}
use unrealsdk.HookManager.Spec.{types_at, contains, erase}
use unrealsdk.HookManager.Invariant.{InCollection, InTypes}

module _ {ℓ} {C : Type ℓ} (q : Key) where
  unlink_in_collection-erase :
      (s : Node C)
      → (hook_list (unlink_in_collection q s).0 ≡ erase q.identifier (hook_list s))
        × ((unlink_in_collection q s).1 ≡ contains q.identifier (hook_list s))
  unfolding unlink_in_collection hook_list erase contains
  unlink_in_collection-erase null = (refl, refl)
  unlink_in_collection-erase (node h c f t k) = ground (arith, unlink_in_collection-erase k)

  pub erase-contains : (id : Wide) (xs : List (Hook C)) → contains id xs ≡ false → erase id xs ≡ xs
  unfolding erase contains
  erase-contains id [] h = refl
  erase-contains id (x ∷ xs) h = ground (arith, erase-contains id xs)

  contains-erase :
      (id : Wide) (xs : List (Hook C))
      → contains id xs ≡ false
      → contains id (erase q.identifier xs) ≡ false
  unfolding erase contains
  contains-erase id [] h = refl
  contains-erase id (x ∷ xs) h = ground (arith, contains-erase id xs)

  unlink_in_collection-InCollection :
      (fname : ℕ) (name : Wide) (type : HookType) (s : Node C)
      → InCollection fname name type s
      → InCollection fname name type (unlink_in_collection q s).0
  unfolding unlink_in_collection
  unlink_in_collection-InCollection fname name type null v = v
  unlink_in_collection-InCollection fname name type (node h c f t k) v = ground (
    arith,
    unlink_in_collection-InCollection fname name type k v.4,
    unlink_in_collection-erase k,
    contains-erase h.identifier (hook_list k),
  )

  -- The head of a list, of the type that is looked for.
  head_at :
      (type : HookType) (fname : ℕ) (name : Wide) (h : Hook C) (c f t k : Node C)
      → InTypes fname name (node h c f t k)
      → h.hook_type ≡ q.hook_type
      → types_at type (relink (remove_in_collection q h c f t k) (node h c f t k)).0
        ≡ ite
            (HookType-discrete q.hook_type type)
            (erase q.identifier (types_at type (node h c f t k)))
            (types_at type (node h c f t k))
  unfolding relink remove_in_collection find_type hook_list erase
  head_at type fname name h c f t null v e = ground (arith)
  head_at type fname name h c f t (node h' c' f' t' k') v e = ground (
    arith,
    unlink_in_collection-erase (node h' c' f' t' k'),
    erase-contains q.identifier (hook_list (node h' c' f' t' k')),
  )

  -- What is left of the slot keeps the invariant, and holds no new type.
  head_InTypes :
      (fname : ℕ) (name : Wide) (h : Hook C) (c f t k : Node C)
      → InTypes fname name (node h c f t k)
      → InTypes fname name (relink (remove_in_collection q h c f t k) (node h c f t k)).0
  unfolding relink remove_in_collection find_type
  head_InTypes fname name h c f t null v = ground arith
  head_InTypes fname name h c f t (node h' c' f' t' k') v = ground (
    arith,
    unlink_in_collection-erase (node h' c' f' t' k'),
    contains-erase h.identifier (hook_list (node h' c' f' t' k')),
    unlink_in_collection-InCollection fname name h.hook_type (node h' c' f' t' k'),
  )

  find_type-unlink_types :
      (type : HookType) (fname : ℕ) (name : Wide) (s : Node C)
      → InTypes fname name s
      → find_type type s ≡ null
      → find_type type (unlink_types q s).0 ≡ null
  unfolding unlink_types find_type
  find_type-unlink_types type fname name null v e = refl
  find_type-unlink_types type fname name (node h c f t null) v e =
      ground (arith, find_type-unlink_types type fname name t)
  find_type-unlink_types type fname name (node h c f t (node h' c' f' t' k')) v e =
      ground (arith, find_type-unlink_types type fname name t)

  head_result :
      (h : Hook C) (c f t k : Node C)
      → (relink (remove_in_collection q h c f t k) (node h c f t k)).1
        ≡ contains q.identifier (hook_list (node h c f t k))
  unfolding relink remove_in_collection hook_list contains
  head_result h c f t k = ground (arith, unlink_in_collection-erase k)

  pub unlink_types_result :
      (s : Node C) → (unlink_types q s).1 ≡ contains q.identifier (types_at q.hook_type s)
  unfolding unlink_types match_types relink find_type hook_list contains
  unlink_types_result null = refl
  unlink_types_result (node h c f t k) =
      ground (arith, unlink_types_result t, head_result h c f t k)

  pub types_at-unlink_types :
      (type : HookType) (fname : ℕ) (name : Wide) (s : Node C)
      → InTypes fname name s
      → types_at type (unlink_types q s).0
        ≡ ite
            (HookType-discrete q.hook_type type)
            (erase q.identifier (types_at type s))
            (types_at type s)
  unfolding unlink_types match_types relink find_type hook_list erase
  types_at-unlink_types type fname name null v = ground arith
  types_at-unlink_types type fname name (node h c f t k) v = ground (
    arith,
    types_at-unlink_types type fname name t v.2,
    head_at type fname name h c f t k v,
    unlink_types_result t,
    erase-contains q.identifier (types_at type t),
  )

  pub unlink_types-InTypes :
      (fname : ℕ) (name : Wide) (s : Node C)
      → InTypes fname name s
      → InTypes fname name (unlink_types q s).0
  unfolding unlink_types match_types relink
  unlink_types-InTypes fname name null v = v
  unlink_types-InTypes fname name (node h c f t k) v = ground (
    arith,
    unlink_types-InTypes fname name t v.2,
    find_type-unlink_types h.hook_type fname name t,
    head_InTypes fname name h c f t k v,
  )
