-- ===== src/HookManager/Dispatch.antt =====
-- hook_manager.cpp: the flags of the manager, `preprocess_hook`, `has_post_hooks` and
-- `run_hooks_of_type`. A callback reads and changes a state of type `S`, which stands for the
-- `Details` it is given and all that it reaches through them; it returns, or throws an exception that is
-- derived from `std::exception`, the only ones that the source catches.
use unrealsdk.Base.{
  ℕ, ◌+◌, Bool, true, false, not, ◌&&◌, ◌||◌, List, [], ◌∷◌, ◌++◌, Wide, if◌then◌else◌,
}
use unrealsdk.HookManager.{HookType, pre, post, post_unconditional, Hook, Node, null, node}
use unrealsdk.HookManager.Find.{find_collision, find_function, find_type, hook_list}
use unrealsdk.HookManager.Table.{Table, get_table_index}

-- `log_all_calls_stream`: a `std::wofstream` with its file's lines. `open` on an open stream fails
-- and leaves it open, a failed stream drops what is written, and a successful `open` clears it.
pub record Stream : Type 0 where
  pub is_open : Bool
  pub failed : Bool
  pub lines : List (Wide × Wide × Wide)

-- `opens` is whether the file system lets the file be created.
unfoldable pub open_stream : Bool → Stream → Stream
open_stream opens s =
    if s.is_open
    then record s { failed = true }
    else if opens
    then record { is_open = true; failed = false; lines = [] }
    else record s { failed = true }

unfoldable pub close_stream : Stream → Stream
close_stream s = if s.is_open then record s { is_open = false } else record s { failed = true }

unfoldable pub write_line : Wide × Wide × Wide → Stream → Stream
write_line line s = if s.failed then s else record s { lines = s.lines ++ line ∷ [] }

pub record Manager {ℓ} (C : Type ℓ) : Type ℓ where
  pub table : Table C
  pub should_log_all_calls : Bool
  pub stream : Stream
  pub should_inject_next_call : Bool
  pub log_once : Bool
  pub errors : ℕ

-- What `preprocess_hook` reads of a `UFunction`.
pub record Function : Type 0 where
  pub fname : ℕ
  pub path_name : Wide

abbrev pub is_post : HookType → Bool
is_post pre = false
is_post post = true
is_post post_unconditional = true

module _ {ℓ} {C : Type ℓ} where
  unfoldable pub log_all_calls : Bool → Bool → Manager C → Manager C
  unfolding open_stream close_stream
  log_all_calls opens should_log m = record m {
    stream = if should_log then open_stream opens m.stream else close_stream m.stream;
    should_log_all_calls = should_log;
  }

  unfoldable pub inject_next_call : Manager C → Manager C
  inject_next_call m = record m { should_inject_next_call = true }

  -- The full name that the lists are searched for.
  unfoldable pub searched_name : Manager C → Function → Wide
  searched_name m func =
      if m.should_log_all_calls
      then (if m.stream.is_open then func.path_name else [])
      else func.path_name

  unfoldable pub log_call : Manager C → Wide → Function → Wide → Manager C
  unfolding write_line
  log_call m source func obj =
      if m.should_log_all_calls && m.stream.is_open
      then record m { stream = write_line (source, func.path_name, obj) m.stream }
      else m

  unfoldable pub preprocess_hook : Bool → Wide → Function → Wide → Manager C → Manager C × Node C
  unfolding searched_name log_call
  preprocess_hook initialized source func obj m =
      if not initialized
      then ((if m.log_once then m else record m { log_once = true; errors = m.errors + 1 }), null)
      else if m.should_inject_next_call
      then (record m { should_inject_next_call = false }, null)
      else (
        log_call m source func obj,
        find_function (searched_name m func)
            (find_collision func.fname (m.table (get_table_index func.fname))),
      )

  unfoldable pub has_post_hooks : Node C → Bool
  has_post_hooks null = false
  has_post_hooks (node h c f t k) = is_post h.hook_type || has_post_hooks t

-- `throws` is an exception derived from `std::exception`.
pub data Outcome {ℓ} (S : Type ℓ) : Type ℓ where
  returns : S → Bool → Outcome S
  throws : S → Outcome S

abbrev pub Callback {ℓ} : Type ℓ → Type ℓ
Callback S = S → Outcome S

module _ {ℓ} {S : Type ℓ} where
  abbrev pub state_after : Outcome S → S
  state_after (returns s b) = s
  state_after (throws s) = s

  -- What `ret |=` takes: an exception skips it.
  abbrev pub blocks : Outcome S → Bool
  blocks (returns s b) = b
  blocks (throws s) = false

  abbrev pub caught_by : Outcome S → ℕ
  caught_by (returns s b) = 0
  caught_by (throws s) = 1

  -- The second loop of `run_hooks_of_type`: `ret` so far, and the number of caught exceptions.
  unfoldable pub run_list : List (Hook (Callback S)) → S → Bool → ℕ → S × Bool × ℕ
  run_list [] s ret caught = (s, ret, caught)
  run_list (h ∷ hs) s ret caught =
      let o = h.callback s in run_list hs (state_after o) (ret || blocks o) (caught + caught_by o)

  unfoldable pub run_hooks_of_type : Node (Callback S) → HookType → S → S × Bool × ℕ
  unfolding run_list
  run_hooks_of_type n type s = run_list (hook_list (find_type type n)) s false 0
