-- ===== src/Logging/Delivery.antt =====
-- src/unrealsdk/logging.cpp: the calls that the logger thread makes and those that it still owes.
use mathlib.Core.List.{append-nil, append_assoc}
use unrealsdk.Base.{ℕ, suc, ◌≡◌, refl, sym, ◌∙◌, ap, subst, List, [], ◌∷◌, ◌++◌}
use unrealsdk.Logging.{LogMessage}
use unrealsdk.Logging.Thread.{
  LogCallback, Thread, waiting, draining, delivering, Logger, logger, step_at, logger_thread,
  enqueue_log_msg, Event, thread_runs, logs, step, run, thread_steps,
}

-- A message for each callback, and messages for each.
unfoldable pub calls : List LogCallback → LogMessage → List (LogCallback × LogMessage)
calls [] m = []
calls (c ∷ cs) m = (c, m) ∷ calls cs m

unfoldable pub all_calls : List LogCallback → List LogMessage → List (LogCallback × LogMessage)
all_calls cs [] = []
all_calls cs (m ∷ ms) = calls cs m ++ all_calls cs ms

unfoldable pub messages : List Event → List LogMessage
messages [] = []
messages (thread_runs ∷ es) = messages es
messages (logs m ∷ es) = m ∷ messages es

unfoldable pub owed_now : Thread → List (LogCallback × LogMessage)
owed_now (delivering m rest) = calls rest m
owed_now _ = []

-- The calls made so far and those still owed.
unfoldable pub promised : Logger → List (LogCallback × LogMessage)
promised s =
    s.delivered ++ owed_now (s.thread) ++ all_calls (s.all_log_callbacks) (s.pending_messages)

all_calls-append :
    (cs : List LogCallback) (ms ns : List LogMessage)
    → all_calls cs (ms ++ ns) ≡ all_calls cs ms ++ all_calls cs ns
unfolding all_calls
all_calls-append cs [] ns = refl
all_calls-append cs (m ∷ ms) ns =
    ap (◌++◌ (calls cs m)) (all_calls-append cs ms ns)
    ∙ sym (append_assoc (calls cs m) (all_calls cs ms) (all_calls cs ns))

all_calls-one : (cs : List LogCallback) (m : LogMessage) → all_calls cs (m ∷ []) ≡ calls cs m
unfolding all_calls
all_calls-one cs m = append-nil (calls cs m)

promised-step_at :
    (ms : List LogMessage) (cs : List LogCallback) (t : Thread)
    (d : List (LogCallback × LogMessage))
    → promised (step_at ms cs t d) ≡ promised (logger ms cs t d)
unfolding promised step_at owed_now all_calls calls
promised-step_at [] cs waiting d = refl
promised-step_at (m ∷ ms) cs waiting d = refl
promised-step_at [] cs draining d = refl
promised-step_at (m ∷ ms) cs draining d =
    append_assoc d (calls cs m) (all_calls cs ms)
    ∙ ap (λ x. x ++ (calls cs m ++ all_calls cs ms)) (sym (append-nil d))
promised-step_at ms cs (delivering m []) d = refl
promised-step_at ms cs (delivering m (c ∷ rest)) d =
    ap (λ x. x ++ all_calls cs ms) (append_assoc d ((c, m) ∷ []) (calls rest m))

promised-logger_thread : (s : Logger) → promised (logger_thread s) ≡ promised s
unfolding promised logger_thread
promised-logger_thread s =
    promised-step_at (s.pending_messages) (s.all_log_callbacks) (s.thread) (s.delivered)

promised-enqueue_log_msg :
    (m : LogMessage) (s : Logger)
    → promised (enqueue_log_msg m s) ≡ promised s ++ calls (s.all_log_callbacks) m
unfolding promised enqueue_log_msg
promised-enqueue_log_msg m s =
    let cs = s.all_log_callbacks in
    let owed = owed_now (s.thread) in
    let pending = all_calls cs (s.pending_messages) in
    ap (λ p. s.delivered ++ owed ++ p)
      (all_calls-append cs (s.pending_messages) (m ∷ []) ∙ ap (◌++◌ pending) (all_calls-one cs m))
    ∙ sym (append_assoc (s.delivered ++ owed) pending (calls cs m))

callbacks-step_at :
    (ms : List LogMessage) (cs : List LogCallback) (t : Thread)
    (d : List (LogCallback × LogMessage))
    → (step_at ms cs t d).all_log_callbacks ≡ cs
unfolding step_at
callbacks-step_at [] cs waiting d = refl
callbacks-step_at (m ∷ ms) cs waiting d = refl
callbacks-step_at [] cs draining d = refl
callbacks-step_at (m ∷ ms) cs draining d = refl
callbacks-step_at ms cs (delivering m []) d = refl
callbacks-step_at ms cs (delivering m (c ∷ rest)) d = refl

callbacks-step : (e : Event) (s : Logger) → (step e s).all_log_callbacks ≡ s.all_log_callbacks
unfolding step logger_thread enqueue_log_msg
callbacks-step thread_runs s =
    callbacks-step_at (s.pending_messages) (s.all_log_callbacks) (s.thread) (s.delivered)
callbacks-step (logs m) s = refl

-- However the steps of the logger thread and the messages of other threads interleave, what has been
-- delivered and what is still owed is what was promised before and then, in order, each new message
-- to each callback: none is lost, repeated or overtaken.
pub promised-run :
    (es : List Event) (s : Logger)
    → promised (run es s) ≡ promised s ++ all_calls (s.all_log_callbacks) (messages es)
unfolding run messages all_calls step enqueue_log_msg
promised-run [] s = sym (append-nil (promised s))
promised-run (thread_runs ∷ es) s =
    promised-run es (logger_thread s)
    ∙ ap (λ p. p ++ all_calls ((logger_thread s).all_log_callbacks) (messages es))
        (promised-logger_thread s)
    ∙ ap (λ cs. promised s ++ all_calls cs (messages es)) (callbacks-step thread_runs s)
promised-run (logs m ∷ es) s =
    let cs = s.all_log_callbacks in
    promised-run es (enqueue_log_msg m s)
    ∙ ap (λ p. p ++ all_calls cs (messages es)) (promised-enqueue_log_msg m s)
    ∙ append_assoc (promised s) (calls cs m) (all_calls cs (messages es))

-- One state is reached from another in some number of the thread's own steps.
unfoldable pub Reaches : Logger → Logger → Type 0
Reaches s t = (n : ℕ) × (thread_steps n s ≡ t)

before : (s t : Logger) → Reaches (logger_thread s) t → Reaches s t
unfolding thread_steps Reaches
before s t (n, e) = (suc n, e)

-- The queue is empty, the thread waits, and these calls were made.
abbrev pub settled : List LogCallback → List (LogCallback × LogMessage) → Logger
settled cs d = logger [] cs waiting d

from_delivering :
    (ms : List LogMessage) (cs rest : List LogCallback) (m : LogMessage)
    (d : List (LogCallback × LogMessage))
    → ((e : List (LogCallback × LogMessage))
        → Reaches (logger ms cs draining e) (settled cs (e ++ all_calls cs ms)))
    → Reaches
        (logger ms cs (delivering m rest) d)
        (settled cs (d ++ (calls rest m ++ all_calls cs ms)))
unfolding logger_thread step_at calls
from_delivering ms cs [] m d k =
    before (logger ms cs (delivering m []) d) (settled cs (d ++ all_calls cs ms)) (k d)
from_delivering ms cs (c ∷ rest) m d k =
    let end = calls rest m ++ all_calls cs ms in
    before (logger ms cs (delivering m (c ∷ rest)) d) (settled cs (d ++ ((c, m) ∷ end))) (
      subst (λ x. Reaches (logger ms cs (delivering m rest) (d ++ (c, m) ∷ [])) (settled cs x))
        (append_assoc d ((c, m) ∷ []) end) (from_delivering ms cs rest m (d ++ (c, m) ∷ []) k))

from_draining :
    (ms : List LogMessage) (cs : List LogCallback) (d : List (LogCallback × LogMessage))
    → Reaches (logger ms cs draining d) (settled cs (d ++ all_calls cs ms))
unfolding logger_thread step_at all_calls Reaches thread_steps
from_draining [] cs d =
    subst (λ x. Reaches (logger [] cs draining d) (settled cs x)) (sym (append-nil d))
      (before (logger [] cs draining d) (settled cs d) (0, refl))
from_draining (m ∷ ms) cs d =
    before (logger (m ∷ ms) cs draining d) (settled cs (d ++ all_calls cs (m ∷ ms)))
      (from_delivering ms cs cs m d (from_draining ms cs))

settles_at :
    (ms : List LogMessage) (cs : List LogCallback) (t : Thread)
    (d : List (LogCallback × LogMessage))
    → Reaches (logger ms cs t d) (settled cs (d ++ owed_now t ++ all_calls cs ms))
unfolding owed_now logger_thread step_at all_calls Reaches thread_steps
settles_at [] cs waiting d =
    subst (λ x. Reaches (logger [] cs waiting d) (settled cs x))
      (sym (append-nil (d ++ []) ∙ append-nil d)) (0, refl)
settles_at (m ∷ ms) cs waiting d =
    subst (λ x. Reaches (logger (m ∷ ms) cs waiting d) (settled cs (x ++ all_calls cs (m ∷ ms))))
      (sym (append-nil d))
      (before (logger (m ∷ ms) cs waiting d) (settled cs (d ++ all_calls cs (m ∷ ms)))
        (from_draining (m ∷ ms) cs d))
settles_at ms cs draining d =
    subst (λ x. Reaches (logger ms cs draining d) (settled cs (x ++ all_calls cs ms)))
      (sym (append-nil d)) (from_draining ms cs d)
settles_at ms cs (delivering m rest) d =
    subst (λ x. Reaches (logger ms cs (delivering m rest) d) (settled cs x))
      (sym (append_assoc d (calls rest m) (all_calls cs ms)))
      (from_delivering ms cs rest m d (from_draining ms cs))

-- From any state, some number of the logger thread's own steps empties the queue, brings the thread
-- back to waiting, where the callbacks' lock is free, and makes exactly the calls that were owed.
pub logger_thread-settles : (s : Logger) → Reaches s (settled (s.all_log_callbacks) (promised s))
unfolding promised
logger_thread-settles s =
    settles_at (s.pending_messages) (s.all_log_callbacks) (s.thread) (s.delivered)
