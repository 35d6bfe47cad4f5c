-- ===== src/Process/Threads.antt =====
-- src/unrealsdk/utils.cpp: which threads a `ThreadSuspender` stops, and that it lets them run again.
use unrealsdk.Base.{
  ℕ, ◌<◌, ◌≡◌, ◌≢◌, refl, ap, true, false, ◌==◌, inl, inr, ◌⊎◌, List, [], ◌∷◌, arith, Bool-cases,
}
use unrealsdk.Process.{
  Thread, suspensions_after, adjust_thread, adjust_threads, adjust_thread_running_status,
}

-- Of each thread of the process that can be opened, but the current one, it is known that it does not
-- run.
unfoldable pub Stopped : ℕ → ℕ → Thread → Type 0
Stopped p t thread =
    (thread.process_id ≢ p)
    ⊎ (thread.thread_id ≡ t)
    ⊎ (thread.opens ≡ false)
    ⊎ (0 < thread.suspensions)

unfoldable pub AllStopped : ℕ → ℕ → List Thread → Type 0
AllStopped p t [] = Unit
AllStopped p t (thread ∷ threads) = Stopped p t thread × AllStopped p t threads

module _ (p t : ℕ) where
  adjust_thread_back :
      (thread : Thread) → adjust_thread p t true (adjust_thread p t false thread) ≡ thread
  unfolding adjust_thread suspensions_after
  adjust_thread_back thread = ap (λ n. record thread { suspensions = n }) (ground arith)

  adjust_thread-Stopped : (thread : Thread) → Stopped p t (adjust_thread p t false thread)
  unfolding adjust_thread suspensions_after Stopped
  adjust_thread-Stopped thread = elim (Bool-cases (thread.process_id == p)) [
    | inr other ↦ inl (λ same. absurd (ground arith))
    | inl own ↦ elim (Bool-cases (thread.thread_id == t)) [
      | inl current ↦ inr (inl (ground arith))
      | inr running ↦ elim (Bool-cases thread.opens) [
        | inl opens ↦ inr (inr (inr (ground arith)))
        | inr shut ↦ inr (inr (inl shut))
      ]
    ]
  ]

  adjust_threads_back :
      (threads : List Thread) → adjust_threads p t true (adjust_threads p t false threads) ≡ threads
  unfolding adjust_threads
  adjust_threads_back [] = refl
  adjust_threads_back (thread ∷ threads) =
      cc (adjust_thread_back thread, adjust_threads_back threads)

  adjust_threads-AllStopped :
      (threads : List Thread) → AllStopped p t (adjust_threads p t false threads)
  unfolding adjust_threads AllStopped
  adjust_threads-AllStopped [] = tt
  adjust_threads-AllStopped (thread ∷ threads) =
      (adjust_thread-Stopped thread, adjust_threads-AllStopped threads)

  -- While a `ThreadSuspender` lives, no other thread of the process runs that can be opened, and after
  -- it every thread is suspended as often as before.
  pub adjust_thread_running_status-AllStopped :
      (threads : List Thread)
      → AllStopped p t (adjust_thread_running_status true p t false threads)
        × (adjust_thread_running_status true p t true
              (adjust_thread_running_status true p t false threads)
            ≡ threads)
  unfolding adjust_thread_running_status
  adjust_thread_running_status-AllStopped threads =
      (adjust_threads-AllStopped threads, adjust_threads_back threads)
