-- ===== src/HookManager/Spec.antt =====
-- What the table of hooks stands for: for each function and type, the list of its hooks.
use unrealsdk.Base.{ℕ, Bool, true, false, ite, List, [], ◌∷◌, Wide, wide_discrete}
use unrealsdk.HookManager.{HookType, Hook, Node}
use unrealsdk.HookManager.Find.{find_collision, find_function, find_type, hook_list}

module _ {ℓ} {C : Type ℓ} where
  -- The hooks that run at one type of one function, read off the lists of one bucket.
  abbrev pub types_at : HookType → Node C → List (Hook C)
  types_at type s = hook_list (find_type type s)

  abbrev pub functions_at : Wide → HookType → Node C → List (Hook C)
  functions_at name type s = types_at type (find_function name s)

  abbrev pub collisions_at : ℕ → Wide → HookType → Node C → List (Hook C)
  collisions_at fname name type s = functions_at name type (find_collision fname s)

  unfoldable pub contains : Wide → List (Hook C) → Bool
  contains id [] = false
  contains id (h ∷ hs) = ite (wide_discrete h.identifier id) true (contains id hs)

  -- A hook whose identifier is taken changes nothing, any other goes to the end.
  unfoldable pub insert : Hook C → List (Hook C) → List (Hook C)
  insert new [] = new ∷ []
  insert new (h ∷ hs) = ite (wide_discrete h.identifier new.identifier) (h ∷ hs) (h ∷ insert new hs)

  unfoldable pub erase : Wide → List (Hook C) → List (Hook C)
  erase id [] = []
  erase id (h ∷ hs) = ite (wide_discrete h.identifier id) hs (h ∷ erase id hs)

  unfoldable pub is_empty : List (Hook C) → Bool
  is_empty [] = true
  is_empty (h ∷ hs) = false
