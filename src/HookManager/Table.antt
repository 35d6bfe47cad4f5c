-- ===== src/HookManager/Table.antt =====
-- hook_manager.cpp: the hash table of lists, and `add_hook`, `has_hook` and `remove_hook` on it.
-- The game's constructor of an `FName` is the parameter `make_fname`: it returns the 64 bits that
-- the code reads by `memcpy`.
use unrealsdk.Base.{
  ℕ, ◌+◌, ◌%◌, Bool, Option, none, some, List, [], ◌∷◌, ◌||◌, Wide, ◌==◌, if◌then◌else◌, drop,
}
use unrealsdk.HookManager.{HookType, Hook, Key, Node, null}
use unrealsdk.HookManager.Add.{add_collisions}
use unrealsdk.HookManager.Has.{has_collisions}
use unrealsdk.HookManager.Remove.{unlink_collisions}
use unrealsdk.HookManager.Spec.{collisions_at}

abbrev pub hash_table_size : ℕ
hash_table_size = 0x1000

unfoldable pub get_table_index : ℕ → ℕ
get_table_index fname = fname % hash_table_size

unfoldable pub is_separator : ℕ → Bool
is_separator c = c == b'.' || c == b':'

-- `std::wstring_view::find_last_of`; `none` is `npos`.
unfoldable pub find_last_of : (ℕ → Bool) → Wide → Option ℕ
find_last_of test [] = none
find_last_of test (c ∷ cs) = elim (find_last_of test cs) [
  | some i ↦ some (i + 1)
  | none ↦ if test c then some 0 else none
]

unfoldable pub object_name : Wide → Wide
unfolding find_last_of is_separator
object_name func = elim (find_last_of is_separator func) [
  | none ↦ func
  | some idx ↦ drop (idx + 1) func
]

abbrev pub Table {ℓ} : Type ℓ → Type ℓ
Table C = ℕ → Node C

module _ {ℓ} {C : Type ℓ} where
  abbrev pub empty_table : Table C
  empty_table i = null

  unfoldable pub store : Table C → ℕ → Node C → Table C
  store t i n j = if i == j then n else t j

module _ (make_fname : Wide → ℕ) where
  unfoldable pub extract_func_obj_name : Wide → ℕ
  unfolding object_name
  extract_func_obj_name func = make_fname (object_name func)

  abbrev pub make_key : Wide → HookType → Wide → Key
  make_key func type identifier = record {
    fname = extract_func_obj_name func;
    full_name = func;
    hook_type = type;
    identifier = identifier;
  }

  module _ {ℓ} {C : Type ℓ} where
    unfoldable pub add_hook : Table C → Wide → HookType → Wide → C → Table C × Bool
    unfolding store
    add_hook table func type identifier callback =
        let new : Hook C = record {
          fname = extract_func_obj_name func;
          full_name = func;
          hook_type = type;
          identifier = identifier;
          callback = callback;
        } in
        let idx = get_table_index new.fname in
        let r = add_collisions new (table idx) in (store table idx r.0, r.1)

    unfoldable pub has_hook : Table C → Wide → HookType → Wide → Bool
    has_hook table func type identifier =
        let q = make_key func type identifier in has_collisions q (table (get_table_index q.fname))

    unfoldable pub remove_hook : Table C → Wide → HookType → Wide → Table C × Bool
    unfolding store
    remove_hook table func type identifier =
        let q = make_key func type identifier in
        let idx = get_table_index q.fname in
        let r = unlink_collisions q (table idx) in (store table idx r.0, r.1)

    -- The hooks of one type on one function, in the order in which they run.
    unfoldable pub hooks_at : Table C → Wide → HookType → List (Hook C)
    hooks_at table func type =
        let fname = extract_func_obj_name func in
        collisions_at fname func type (table (get_table_index fname))
