-- ===== src/HookManager/Tests.antt =====
-- The hook manager at concrete inputs. A callback is a number, or a function on a counter; the
-- game's `FName` of a name is its length here, so that names of one length collide.
use unrealsdk.Base.{
  Option, some, ℕ, ◌+◌, ◌≡◌, ◌↔◌, refl, true, false, List, [], ◌∷◌, Wide, length, none,
  wide_discrete, ℕ_discrete,
}
use unrealsdk.HookManager.{pre, post, Hook, Node, null, node, leaf, HookType-discrete}
use unrealsdk.HookManager.Add.{add_collisions, add_functions, add_types, add_in_collection}
use unrealsdk.HookManager.Has.{has_collisions, has_functions, has_types, has_in_collection}
use unrealsdk.HookManager.Remove.{unlink_collisions}
use unrealsdk.HookManager.Find.{find_collision, find_function, find_type, hook_list}
use unrealsdk.HookManager.Spec.{contains, is_empty, types_at}
use unrealsdk.HookManager.Table.{
  empty_table, add_hook, has_hook, remove_hook, hooks_at, get_table_index, extract_func_obj_name,
  object_name,
}
use unrealsdk.HookManager.TableLaws.{IsValid, add_hook_result}
use unrealsdk.HookManager.History.{
  types_at-preprocess_hook, Call, adds, removes, run, spec_run, has_hook-run, run-IsValid,
  hooks_at-run,
}
use unrealsdk.HookManager.Dispatch.{
  Manager, Function, Stream, preprocess_hook, has_post_hooks, Callback, returns, throws,
  run_hooks_of_type,
}
use unrealsdk.HookManager.DispatchLaws.{
  preprocess_hook_unlogged, Blocker, run_hooks_of_type_blocks, run_hooks_of_type_state,
  state_through,
}
use unrealsdk.HookManager.Processing.{PropertyProxy, Details, Frame, process_event_hook}
use unrealsdk.HookManager.ProcessingLaws.{calls, calls-process_event_hook}

abbrev make_fname : Wide → ℕ
make_fname w = length w

-- "A.F" and "B.F", two functions with one `FName`, and "A.GG".
abbrev func_af : Wide
func_af = b'A' ∷ b'.' ∷ b'F' ∷ []

abbrev func_bf : Wide
func_bf = b'B' ∷ b'.' ∷ b'F' ∷ []

abbrev func_ag : Wide
func_ag = b'A' ∷ b'.' ∷ b'G' ∷ b'G' ∷ []

abbrev id_x : Wide
id_x = b'x' ∷ []

abbrev id_y : Wide
id_y = b'y' ∷ []

abbrev some_callback : ℕ
some_callback = 1

abbrev history : List (Call ℕ)
history =
    adds func_af pre id_x 1
    ∷ adds func_af pre id_y 2
    ∷ adds func_bf pre id_x 3
    ∷ adds func_af post id_x 4
    ∷ adds func_ag pre id_x 5
    ∷ removes func_af pre id_x
    ∷ []

object_name_af : object_name func_af ≡ b'F' ∷ []
unfolding object_name
object_name_af = refl

has_hook-run_example :
    has_hook make_fname (run make_fname empty_table history) func_af pre id_y
    ≡ contains id_y (spec_run make_fname (λ _ _. []) history func_af pre)
has_hook-run_example = has_hook-run make_fname history func_af pre id_y

run-IsValid_example : IsValid make_fname (run make_fname empty_table history)
run-IsValid_example = run-IsValid make_fname empty_table history (λ _. tt)

hooks_at-run_example :
    hooks_at make_fname (run make_fname empty_table history)
    ≡ spec_run make_fname (hooks_at make_fname empty_table) history
hooks_at-run_example = hooks_at-run make_fname empty_table history (λ _. tt)

add_hook_result_test :
    (add_hook make_fname (run make_fname empty_table history) func_af pre id_x some_callback).1
    ≡ is_empty (hooks_at make_fname (run make_fname empty_table history) func_af pre)
add_hook_result_test =
    add_hook_result make_fname (run make_fname empty_table history) func_af pre id_x some_callback

-- A second hook of one type is added, and reported as not added.
second_hook :
    let (t, added) =
      add_hook make_fname
        (add_hook make_fname empty_table func_af pre id_x some_callback).0
        func_af
        pre
        id_y
        some_callback in
    (added ≡ false) × (has_hook make_fname t func_af pre id_y ≡ true)
unfolding add_hook has_hook wide_discrete HookType-discrete add_collisions get_table_index
    extract_func_obj_name add_functions add_types add_in_collection has_collisions has_functions
    has_types has_in_collection
second_hook = (refl, refl)

abbrev closed_stream : Stream
closed_stream = record { is_open = false; failed = false; lines = [] }

abbrev manager : Manager ℕ
manager = record {
  table = run make_fname empty_table history;
  should_log_all_calls = false;
  stream = closed_stream;
  should_inject_next_call = false;
  log_once = false;
  errors = 0;
}

abbrev function_af : Function
function_af = record { fname = 1; path_name = func_af }

types_at-preprocess_hook_example :
    types_at pre (preprocess_hook true [] function_af [] manager).1
    ≡ spec_run make_fname (λ _ _. []) history func_af pre
unfolding extract_func_obj_name object_name
types_at-preprocess_hook_example =
    types_at-preprocess_hook make_fname history manager [] [] function_af pre refl refl refl refl

abbrev logging_manager : Manager ℕ
logging_manager = record manager { should_log_all_calls = true }

unlogged_test : (preprocess_hook true [] function_af [] logging_manager).1 ≡ null
unfolding run add_hook remove_hook find_function find_collision get_table_index
    extract_func_obj_name object_name wide_discrete ℕ_discrete HookType-discrete unlink_collisions
    add_collisions add_functions add_types add_in_collection
unlogged_test = preprocess_hook_unlogged logging_manager [] [] function_af refl refl refl

-- Callbacks on a counter: one blocks, one throws after it has counted.
abbrev count_and_block : Callback ℕ
count_and_block n = returns (n + 1) true

abbrev count_and_throw : Callback ℕ
count_and_throw n = throws (n + 10)

abbrev counting_hook : Callback ℕ → Hook (Callback ℕ)
counting_hook f = record {
  fname = 1;
  full_name = func_af;
  hook_type = pre;
  identifier = id_x;
  callback = f;
}

abbrev counting : Node (Callback ℕ)
counting =
    node (counting_hook count_and_throw) null null null (leaf (counting_hook count_and_block))

run_hooks_of_type_state_example :
    (run_hooks_of_type counting pre 0).0 ≡ state_through 0 (types_at pre counting)
run_hooks_of_type_state_example = run_hooks_of_type_state counting pre 0

run_hooks_of_type_blocks_example :
    ((run_hooks_of_type counting pre 0).1 ≡ true) ↔ Blocker (types_at pre counting) 0
run_hooks_of_type_blocks_example = run_hooks_of_type_blocks counting pre 0

run_counting : run_hooks_of_type counting pre 0 ≡ (11, true, 1)
unfolding run_hooks_of_type find_type hook_list HookType-discrete
run_counting = refl

-- A function with a post-hook, whose return property `cast` does not know.
abbrev quiet : Callback (Details ℕ ℕ)
quiet d = returns d false

abbrev post_node : Node (Callback (Details ℕ ℕ))
post_node = leaf (record {
  fname = 1;
  full_name = func_af;
  hook_type = post;
  identifier = id_x;
  callback = quiet;
})

abbrev unknown_property : PropertyProxy ℕ
unknown_property = record { has_prop = true; value = none }

-- No value can be copied.
abbrev unknown_class : ℕ → Option ℕ
unknown_class v = some v

abbrev fresh_frame : Frame ℕ ℕ
fresh_frame = record {
  details = record { ret = unknown_property; world = 0 };
  result = 0;
  code = 0;
  events = [];
}

abbrev tick_world : ℕ → ℕ → ℕ × ℕ
tick_world v x = (v, x + 1)

calls-process_event_hook_example :
    calls (process_event_hook tick_world unknown_class true post_node fresh_frame).events ≡ 2
unfolding calls run_hooks_of_type has_post_hooks find_type hook_list HookType-discrete
calls-process_event_hook_example =
    calls-process_event_hook tick_world unknown_class true _ null null null null fresh_frame
