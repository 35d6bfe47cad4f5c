-- ===== src/Logging/Thread.antt =====
-- The logger thread and the threads that log, as steps: the queue of pending messages, the callbacks,
-- and where the logger thread stands.
use unrealsdk.Base.{
  ℕ, zero, suc, Bool, true, false, if◌then◌else◌, Option, none, some, List, [], ◌∷◌, ◌++◌, ite,
  ℕ_discrete,
}
use unrealsdk.Logging.{LogMessage}

-- A `log_callback` is a pointer.
abbrev pub LogCallback : Type 0
LogCallback = ℕ

-- Where `logger_thread` stands: waiting for messages, at the head of its inner loop with the lock on
-- the callbacks held, or with a message that some callbacks are still to get.
pub data Thread : Type 0 where
  waiting : Thread
  draining : Thread
  delivering : LogMessage → List LogCallback → Thread

-- `delivered` records the calls that the thread made, in order.
pub record Logger : Type 0 where
  pub pending_messages : List LogMessage
  pub all_log_callbacks : List LogCallback
  pub thread : Thread
  pub delivered : List (LogCallback × LogMessage)

abbrev pub logger :
    List LogMessage → List LogCallback → Thread → List (LogCallback × LogMessage) → Logger
logger pending callbacks thread delivered = record {
  pending_messages = pending;
  all_log_callbacks = callbacks;
  thread = thread;
  delivered = delivered;
}

-- The thread's next step from where it stands. It waits while there is nothing to do.
unfoldable pub step_at :
    List LogMessage → List LogCallback → Thread → List (LogCallback × LogMessage) → Logger
step_at [] callbacks waiting delivered = logger [] callbacks waiting delivered
step_at (m ∷ ms) callbacks waiting delivered = logger (m ∷ ms) callbacks draining delivered
step_at [] callbacks draining delivered = logger [] callbacks waiting delivered
step_at (m ∷ ms) callbacks draining delivered =
    logger ms callbacks (delivering m callbacks) delivered
step_at ms callbacks (delivering m []) delivered = logger ms callbacks draining delivered
step_at ms callbacks (delivering m (c ∷ rest)) delivered =
    logger ms callbacks (delivering m rest) (delivered ++ (c, m) ∷ [])

unfoldable pub logger_thread : Logger → Logger
logger_thread s = step_at (s.pending_messages) (s.all_log_callbacks) (s.thread) (s.delivered)

-- `enqueue_log_msg`, from any thread, a callback's included.
unfoldable pub enqueue_log_msg : LogMessage → Logger → Logger
enqueue_log_msg m s =
    logger (s.pending_messages ++ m ∷ []) (s.all_log_callbacks) (s.thread) (s.delivered)

unfoldable pub without : LogCallback → List LogCallback → List LogCallback
without c [] = []
without c (d ∷ ds) = ite (ℕ_discrete d c) (without c ds) (d ∷ without c ds)

-- The lock on the callbacks is free only while the logger thread waits.
unfoldable pub callback_mutex_free : Thread → Bool
callback_mutex_free waiting = true
callback_mutex_free _ = false

-- `add_callback` and `remove_callback`: no result while they have to wait for the lock.
unfoldable pub add_callback : LogCallback → Logger → Option Logger
add_callback c s =
    if callback_mutex_free (s.thread)
    then some (logger (s.pending_messages) (s.all_log_callbacks ++ c ∷ []) (s.thread) (s.delivered))
    else none

unfoldable pub remove_callback : LogCallback → Logger → Option Logger
remove_callback c s =
    if callback_mutex_free (s.thread)
    then some
        (logger (s.pending_messages) (without c (s.all_log_callbacks)) (s.thread) (s.delivered))
    else none

-- An interleaving: steps of the logger thread, and messages from other threads.
pub data Event : Type 0 where
  thread_runs : Event
  logs : LogMessage → Event

unfoldable pub step : Event → Logger → Logger
step thread_runs s = logger_thread s
step (logs m) s = enqueue_log_msg m s

unfoldable pub run : List Event → Logger → Logger
run [] s = s
run (e ∷ es) s = run es (step e s)

unfoldable pub thread_steps : ℕ → Logger → Logger
thread_steps zero s = s
thread_steps (suc n) s = thread_steps n (logger_thread s)
