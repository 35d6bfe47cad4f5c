-- ===== src/Process.antt =====
-- src/unrealsdk/unrealsdk_main.cpp and utils.cpp: the initialization of the library in its process, and
-- the suspension of the process's other threads. MinHook and Windows are parameters.
pub mod Threads
pub mod Once
pub mod Locks
mod Tests
use unrealsdk.Base.{
  ℕ, zero, suc, ◌+◌, ◌-◌, ◌≡◌, Bool, true, false, not, ◌&&◌, ◌||◌, if◌then◌else◌, ◌==◌, Option,
  none, some, List, [], ◌∷◌, ◌++◌,
}

-- What is done on the way to an initialized library, in order.
pub data InitEvent : Type 0 where
  config_loaded : InitEvent
  logging_started : InitEvent
  version_logged : InitEvent
  game_hooked : (game : ℕ) → InitEvent
  post_init_done : (game : ℕ) → InitEvent

-- The game's hooks, by a number, and what was done.
pub record Library : Type 0 where
  pub hook_instance : Option ℕ
  pub events : List InitEvent

-- What the calls of `init` answer: whether `MH_Initialize` returns `MH_OK`, the game, or none where
-- `game_getter` throws, and whether `hook` and `post_init` return.
pub record Answers : Type 0 where
  pub minhook_ok : Bool
  pub game : Option ℕ
  pub hook_returns : Bool
  pub post_init_returns : Bool

pub data InitResult : Type 0 where
  initialized : InitResult
  already_initialized : InitResult
  thrown : InitResult

unfoldable pub with_events : List InitEvent → Library → Library
with_events events s = record s { events = s.events ++ events }

-- `init` from the hook on.
unfoldable pub hook_game : Answers → ℕ → Library → Library × InitResult
hook_game a game s =
    if a.hook_returns
    then (let hooked =
          with_events (game_hooked game ∷ []) (record s { hook_instance = some game }) in
        if a.post_init_returns
        then (with_events (post_init_done game ∷ []) hooked, initialized)
        else (hooked, thrown))
    else (s, thrown)

-- `init` after the check.
unfoldable pub first_init : Answers → Library → Library × InitResult
first_init a s =
    let started = with_events (config_loaded ∷ logging_started ∷ version_logged ∷ []) s in
    if not a.minhook_ok
    then (started, thrown)
    else elim a.game [ none ↦ (started, thrown) | some game ↦ hook_game a game started ]

unfoldable pub init : Answers → Library → Library × InitResult
init a s = elim s.hook_instance [ none ↦ first_init a s | some game ↦ (s, already_initialized) ]

unfoldable pub is_initialized : Library → Bool
is_initialized s = elim s.hook_instance [ none ↦ false | some game ↦ true ]

unfoldable pub init_all : List Answers → Library → Library × List InitResult
init_all [] s = (s, [])
init_all (a ∷ answers) s =
    let first = init a s in let rest = init_all answers first.0 in (rest.0, first.1 ∷ rest.1)

-- The library before any call.
abbrev pub unloaded : Library
unloaded = record { hook_instance = none; events = [] }

-- A thread of the system: its number, its process, whether it can be opened, and how often it is
-- suspended.
pub record Thread : Type 0 where
  pub thread_id : ℕ
  pub process_id : ℕ
  pub opens : Bool
  pub suspensions : ℕ

-- The body of the loop over the threads, in process `p` and thread `t`: how often the thread is
-- suspended afterwards.
unfoldable pub suspensions_after : ℕ → ℕ → Bool → Thread → ℕ
suspensions_after p t resume thread =
    if not (thread.process_id == p) || thread.thread_id == t
    then thread.suspensions
    else if thread.opens
    then (if resume then thread.suspensions - 1 else thread.suspensions + 1)
    else thread.suspensions

unfoldable pub adjust_thread : ℕ → ℕ → Bool → Thread → Thread
adjust_thread p t resume thread = record thread {
  suspensions = suspensions_after p t resume thread;
}

unfoldable pub adjust_threads : ℕ → ℕ → Bool → List Thread → List Thread
adjust_threads p t resume [] = []
adjust_threads p t resume (thread ∷ threads) =
    adjust_thread p t resume thread ∷ adjust_threads p t resume threads

-- `adjust_thread_running_status`, where the snapshot may fail.
unfoldable pub adjust_thread_running_status : Bool → ℕ → ℕ → Bool → List Thread → List Thread
adjust_thread_running_status has_snapshot p t resume threads =
    if has_snapshot then adjust_threads p t resume threads else threads
