-- ===== src/HookManager.antt =====
-- hook_manager.cpp: the table of hooks. A node is owned by the one pointer that leads to it, so
-- the nodes behind a `std::shared_ptr` form a tree with four children; a null pointer is `null`.
-- A function that walks a list and writes one `next` pointer maps the slot to its new contents.
pub mod Add
pub mod Has
pub mod Remove
pub mod Find
pub mod Spec
pub mod Insertion
pub mod Membership
pub mod Invariant
pub mod InsertionInvariant
pub mod Table
pub mod TableLaws
pub mod History
pub mod Dispatch
pub mod DispatchLaws
pub mod Processing
pub mod ProcessingLaws
mod Tests
pub mod Removals
pub mod FunctionRemovals
pub mod CollisionRemovals
use unrealsdk.Base.{ℕ, Wide}

-- `enum class Type`
pub data HookType : Type 0 where
  pre post post_unconditional : HookType

unfoldable pub HookType-discrete : Discrete HookType
HookType-discrete = hlevel

-- The fields of `Node` that are no pointers. `C` is the type of callbacks.
pub record Hook {ℓ} (C : Type ℓ) : Type ℓ where
  pub fname : ℕ
  pub full_name : Wide
  pub hook_type : HookType
  pub identifier : Wide
  pub callback : C

-- node hook next_collision next_function next_type next_in_collection
pub data Node {ℓ} (C : Type ℓ) : Type ℓ where
  null : Node C
  node : Hook C → Node C → Node C → Node C → Node C → Node C

-- What `add_hook`, `has_hook` and `remove_hook` look for; `fname` is computed from `full_name`.
pub record Key : Type 0 where
  pub fname : ℕ
  pub full_name : Wide
  pub hook_type : HookType
  pub identifier : Wide

module _ {ℓ} {C : Type ℓ} where
  abbrev pub leaf : Hook C → Node C
  leaf h = node h null null null null

  abbrev pub key : Hook C → Key
  key h = record {
    fname = h.fname;
    full_name = h.full_name;
    hook_type = h.hook_type;
    identifier = h.identifier;
  }
