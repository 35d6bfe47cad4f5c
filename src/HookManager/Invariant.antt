-- ===== src/HookManager/Invariant.antt =====
-- The shape of the lists of one bucket: each head has its own key, and what stands behind it in a
-- lower list shares that key.
use unrealsdk.Base.{ℕ, ◌≡◌, false, ◌%◌, Wide}
use unrealsdk.HookManager.{HookType, Node, null, node}
use unrealsdk.HookManager.Find.{find_collision, find_function, find_type, hook_list}
use unrealsdk.HookManager.Spec.{contains}

module _ {ℓ} {C : Type ℓ} where
  abbrev pub InCollection : ℕ → Wide → HookType → Node C → Type ℓ
  InCollection fname name type null = Unit
  InCollection fname name type (node h c f t k) =
      (h.fname ≡ fname)
      × (h.full_name ≡ name)
      × (h.hook_type ≡ type)
      × (contains h.identifier (hook_list k) ≡ false)
      × InCollection fname name type k

  abbrev pub InTypes : ℕ → Wide → Node C → Type ℓ
  InTypes fname name null = Unit
  InTypes fname name (node h c f t k) =
      InCollection fname name h.hook_type (node h c f t k)
      × (find_type h.hook_type t ≡ null)
      × InTypes fname name t

  abbrev pub InFunctions : ℕ → Node C → Type ℓ
  InFunctions fname null = Unit
  InFunctions fname (node h c f t k) =
      InTypes fname h.full_name (node h c f t k)
      × (find_function h.full_name f ≡ null)
      × InFunctions fname f

  -- Every node of the bucket `idx` hashes to `idx`.
  abbrev pub InBucket : ℕ → Node C → Type ℓ
  InBucket idx null = Unit
  InBucket idx (node h c f t k) =
      (h.fname % 0x1000 ≡ idx)
      × InFunctions h.fname (node h c f t k)
      × (find_collision h.fname c ≡ null)
      × InBucket idx c
