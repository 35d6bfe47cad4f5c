-- ===== src/HookManager/ProcessingLaws.antt =====
-- The order of events around a hooked call.
use unrealsdk.Base.{
  Option, none, some, is_some, Option-cases, inl, inr, ℕ, ◌+◌, ◌≡◌, refl, Bool, true, false, not,
  ◌&&◌, ◌||◌, List, [], ◌∷◌, ◌++◌, if◌then◌else◌, arith,
}
use unrealsdk.HookManager.{pre, post, post_unconditional, Hook, Node, node}
use unrealsdk.HookManager.Dispatch.{Callback, run_hooks_of_type, has_post_hooks}
use unrealsdk.HookManager.Processing.{
  PropertyProxy, Details, Event, hooks_run, original_called, value_written, value_read, Frame,
  Attempt, done, threw, ◌>>=◌, has_value, write_back, read_back, run_post_hooks, run_type,
  after_call, call_original, process_event_body, process_event_hook, or_original,
}

-- How often the unreal function was called.
unfoldable pub calls : List Event → ℕ
calls [] = 0
calls (hooks_run type ∷ es) = calls es
calls (original_called ∷ es) = calls es + 1
calls (value_written ∷ es) = calls es
calls (value_read ∷ es) = calls es

calls-append : (xs ys : List Event) → calls (xs ++ ys) ≡ calls xs + calls ys
unfolding calls
calls-append [] ys = omega arith
calls-append (hooks_run type ∷ xs) ys = calls-append xs ys
calls-append (original_called ∷ xs) ys = omega (arith, calls-append xs ys)
calls-append (value_written ∷ xs) ys = calls-append xs ys
calls-append (value_read ∷ xs) ys = calls-append xs ys

module _ {V : Type 0} where
  -- Whether a copy of the value, where there is one, throws.
  abbrev pub value_throws : (V → Option V) → Option V → Bool
  value_throws failure none = false
  value_throws failure (some v) = is_some (failure v)

module _ {V X : Type 0} where
  abbrev pub frame_of : Attempt (Frame V X) → Frame V X
  frame_of (done fr) = fr
  frame_of (threw fr) = fr

  abbrev pub is_thrown : Attempt (Frame V X) → Bool
  is_thrown (done fr) = false
  is_thrown (threw fr) = true

  calls-write_back :
      (failure : V → Option V) (fr : Frame V X)
      → (calls (frame_of (write_back failure fr)).events ≡ calls fr.events)
        × ((frame_of (write_back failure fr)).details ≡ fr.details)
        × (is_thrown (write_back failure fr)
            ≡ (fr.details.ret.has_prop && value_throws failure fr.details.ret.value))
        × (fr.details.ret.value ≡ none → (frame_of (write_back failure fr)).result ≡ fr.result)
  unfolding write_back calls
  calls-write_back failure fr = elim (Option-cases fr.details.ret.value) [
    | inl e ↦ ground (arith, e, calls-append fr.events (value_written ∷ []))
    | inr (v, e) ↦ ground (arith, e, calls-append fr.events (value_written ∷ []))
  ]

  calls-read_back :
      (failure : V → Option V) (block : Bool) (fr : Frame V X)
      → (calls (frame_of (read_back failure block fr)).events ≡ calls fr.events)
        × (is_thrown (read_back failure block fr) ≡ (
            fr.details.ret.has_prop
            && not (has_value fr.details.ret)
            && not block
            && is_some (failure fr.result)))
  unfolding read_back calls
  calls-read_back failure block fr = ground (arith, calls-append fr.events (value_read ∷ []))

  calls-run_post_hooks :
      (n : Node (Callback (Details V X))) (block : Bool) (fr : Frame V X)
      → calls (run_post_hooks n block fr).events ≡ calls fr.events
  unfolding run_post_hooks calls
  calls-run_post_hooks n true fr =
      ground (arith, calls-append fr.events (hooks_run post_unconditional ∷ []))
  calls-run_post_hooks n false fr = ground (
    arith,
    calls-append fr.events (hooks_run post ∷ []),
    calls-append (fr.events ++ hooks_run post ∷ []) (hooks_run post_unconditional ∷ []),
  )

  -- Whether a copy of the return value throws: to the target where a hook gave one, else from it, where
  -- the post-hooks are to read it.
  abbrev pub throws_after :
      (V → Option V) → Node (Callback (Details V X)) → Bool → Option V → V → Bool
  throws_after failure n block none result =
      has_post_hooks n && not block && is_some (failure result)
  throws_after failure n block (some v) result = is_some (failure v)

  -- Whatever follows the call makes no further call, and throws at a copy only.
  calls-after_call :
      (failure : V → Option V) (n : Node (Callback (Details V X))) (block : Bool) (fr : Frame V X)
      → (calls (frame_of (after_call failure n block fr)).events ≡ calls fr.events)
        × (is_thrown (after_call failure n block fr) ≡ (
            fr.details.ret.has_prop && throws_after failure n block fr.details.ret.value fr.result))
  unfolding after_call
  calls-after_call failure n block fr = written (write_back failure fr) refl
    where
      post_run : (m : Attempt (Frame V X)) → Attempt (Frame V X)
      post_run m = m >>= λ g. done (run_post_hooks n block g)

      read :
          (g : Frame V X) (m : Attempt (Frame V X))
          → m ≡ read_back failure block g
          → (calls (frame_of (post_run m)).events ≡ calls g.events)
            × (is_thrown (post_run m) ≡ is_thrown m)
      read g (done r) e =
          ground (arith, calls-run_post_hooks n block r, calls-read_back failure block g)
      read g (threw r) e = ground (arith, calls-read_back failure block g)

      written :
          (m : Attempt (Frame V X))
          → m ≡ write_back failure fr
          → (calls
                (frame_of (
                  m >>= λ g.
                  if not (has_post_hooks n)
                  then done g
                  else post_run (read_back failure block g))).events
              ≡ calls fr.events)
            × (is_thrown (
                  m >>= λ g.
                  if not (has_post_hooks n) then done g else post_run (read_back failure block g))
                ≡ (fr.details.ret.has_prop
                    && throws_after failure n block fr.details.ret.value fr.result))
      written (done g) e = ground (
        arith,
        calls-write_back failure fr,
        calls-read_back failure block g,
        read g (read_back failure block g) refl,
      )
      written (threw g) e = ground (arith, calls-write_back failure fr)

  module _ (original : V → X → V × X) where
    calls-call_original :
        (fr : Frame V X) → calls (call_original original fr).events ≡ calls fr.events + 1
    unfolding call_original calls
    calls-call_original fr = calls-append fr.events (original_called ∷ [])

    -- The state of the return value once the pre-hooks have run, and whether they block.
    abbrev pub ret_after : Node (Callback (Details V X)) → Frame V X → PropertyProxy V
    ret_after n fr = (run_hooks_of_type n pre fr.details).0.ret

    abbrev pub blocked : Node (Callback (Details V X)) → Frame V X → Bool
    blocked n fr = (run_hooks_of_type n pre fr.details).1

    -- What stands in the memory of the return value after the original call.
    abbrev pub result_after : Node (Callback (Details V X)) → Frame V X → V
    result_after n fr = (original fr.result (run_hooks_of_type n pre fr.details).0.world).0

    -- A copy of the return value throws.
    abbrev pub copy_throws : (V → Option V) → Node (Callback (Details V X)) → Frame V X → Bool
    copy_throws failure n fr =
        (ret_after n fr).has_prop
        && throws_after failure n (blocked n fr) (ret_after n fr).value (result_after n fr)

    calls-process_event_body :
        (failure : V → Option V) (copies : Bool) (n : Node (Callback (Details V X)))
        (fr : Frame V X)
        → (calls (frame_of (process_event_body original failure copies n fr)).events
            ≡ calls fr.events + (if copies && not (blocked n fr) then 1 else 0))
          × (is_thrown (process_event_body original failure copies n fr)
              ≡ (not copies || copy_throws failure n fr))
    unfolding process_event_body run_type call_original calls
    calls-process_event_body failure false n fr = (omega arith, refl)
    calls-process_event_body failure true n fr =
        let g : Frame V X = (run_type n pre fr).0 in
        ground (
          arith,
          calls-append fr.events (hooks_run pre ∷ []),
          calls-after_call failure n true g,
          calls-after_call failure n false (call_original original g),
          calls-append g.events (original_called ∷ []),
        )

    -- A hooked call makes the original call once unless a pre-hook blocks it, and once more if the
    -- parameters or the return value cannot be copied.
    pub calls-process_event_hook :
        (failure : V → Option V) (copies : Bool) (h : Hook (Callback (Details V X)))
        (c f t k : Node (Callback (Details V X))) (fr : Frame V X)
        → let n = node h c f t k in
          calls (process_event_hook original failure copies n fr).events
          ≡ calls fr.events
            + (if copies && not (blocked n fr) then 1 else 0)
            + (if not copies || copy_throws failure n fr then 1 else 0)
    unfolding process_event_hook
    calls-process_event_hook failure copies h c f t k fr =
        let body = process_event_body original failure copies (node h c f t k) fr in
        returned body refl
      where
        returned :
            (m : Attempt (Frame V X))
            → m ≡ process_event_body original failure copies (node h c f t k) fr
            → calls (or_original original m).events
              ≡ calls fr.events
                + (if copies && not (blocked (node h c f t k) fr) then 1 else 0)
                + (if not copies || copy_throws failure (node h c f t k) fr then 1 else 0)
        returned (done g) e =
            ground (arith, calls-process_event_body failure copies (node h c f t k) fr)
        returned (threw g) e = ground (
          arith,
          calls-process_event_body failure copies (node h c f t k) fr,
          calls-call_original g,
        )
