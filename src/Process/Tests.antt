-- ===== src/Process/Tests.antt =====
-- The initialization and the suspension of threads at concrete inputs.
use unrealsdk.Base.{◌<◌, ◌≢◌, arith, ℕ, ◌≡◌, refl, true, false, ◌⊎◌, none, some, List, [], ◌∷◌}
use unrealsdk.Process.{
  Answers, initialized, already_initialized, thrown, Thread, hook_game, first_init, init,
  is_initialized, init_all, unloaded, with_events, suspensions_after, adjust_thread, adjust_threads,
  adjust_thread_running_status,
}
use unrealsdk.Process.Once.{successes, init_all_once}
use unrealsdk.Process.Locks.{
  Locks, lock, no_scopes, in_scope, enter, Reaches, start, next, enters, Reaches-exclusive,
}
use unrealsdk.Process.Threads.{AllStopped, adjust_thread_running_status-AllStopped}

abbrev works : Answers
works = record { minhook_ok = true; game = some 1; hook_returns = true; post_init_returns = true }

abbrev no_game : Answers
no_game = record { minhook_ok = true; game = none; hook_returns = true; post_init_returns = true }

-- MinHook refuses to be initialized again, after a call that found no game.
abbrev works_again : Answers
works_again = record works { minhook_ok = false }

init_test :
    ((init_all (works ∷ works ∷ []) unloaded).1 ≡ initialized ∷ already_initialized ∷ [])
    × ((init_all (no_game ∷ works_again ∷ []) unloaded).1 ≡ thrown ∷ thrown ∷ [])
unfolding init_all init first_init hook_game with_events
init_test = (refl, refl)

init_all_once_example :
    (successes (init_all (works ∷ works ∷ []) unloaded).1 ≡ 0)
    ⊎ ((successes (init_all (works ∷ works ∷ []) unloaded).1 ≡ 1)
        × (is_initialized (init_all (works ∷ works ∷ []) unloaded).0 ≡ true))
init_all_once_example = init_all_once (works ∷ works ∷ [])

abbrev thread : ℕ → ℕ → Thread
thread number process = record {
  thread_id = number;
  process_id = process;
  opens = true;
  suspensions = 0;
}

abbrev threads : List Thread
threads = thread 1 7 ∷ thread 2 7 ∷ thread 3 8 ∷ []

-- Thread 1 of process 7 suspends thread 2.
suspended_test :
    adjust_thread_running_status true 7 1 false threads
    ≡ thread 1 7 ∷ (record (thread 2 7) { suspensions = 1 }) ∷ thread 3 8 ∷ []
unfolding adjust_thread_running_status adjust_threads adjust_thread suspensions_after
suspended_test = refl

resumed_test :
    AllStopped 7 1 (adjust_thread_running_status true 7 1 false threads)
    × (adjust_thread_running_status true 7 1 true
          (adjust_thread_running_status true 7 1 false threads)
        ≡ threads)
resumed_test = adjust_thread_running_status-AllStopped 7 1 threads

-- Thread 3 enters a scope and another one inside it.
abbrev once : Locks
once = in_scope 3 no_scopes (record { owner = 3; depth = 1 })

abbrev twice : Locks
twice = in_scope 3 once (record { owner = 3; depth = 2 })

enters_once : enter true 3 no_scopes ≡ some once
unfolding enter lock
enters_once = refl

enters_twice : enter true 3 once ≡ some twice
unfolding enter lock in_scope
enters_twice = refl

reaches_twice : Reaches true no_scopes twice
reaches_twice =
    next no_scopes once twice
      (next no_scopes no_scopes once (start no_scopes) (enters 3 no_scopes once enters_once))
      (enters 3 once twice enters_twice)

-- Another thread waits.
waiting_test : enter true 4 twice ≡ none
unfolding enter lock in_scope
waiting_test = refl

twice_in : 0 < twice.scopes 3
unfolding in_scope
twice_in = omega arith

Reaches-exclusive_example : (◌≡◌ {A = ℕ} 3 3) × (enter true 3 twice ≢ none)
Reaches-exclusive_example = Reaches-exclusive twice 3 3 reaches_twice twice_in twice_in
