-- ===== src/HookManager/Processing.antt =====
-- game/bl3/hooks.cpp (and the same code in the other games' hooks.cpp): what happens around a call
-- of a hooked function, with src/unrealsdk/unreal/wrappers/property_proxy.cpp for its return value.
-- The unreal function is the parameter `original`.
use unrealsdk.Base.{
  ℕ, ◌+◌, Bool, true, false, not, ◌&&◌, Option, none, some, List, [], ◌∷◌, ◌++◌, if◌then◌else◌,
}
use unrealsdk.HookManager.{HookType, pre, post, post_unconditional, Node, null, node}
use unrealsdk.HookManager.Dispatch.{Callback, run_hooks_of_type, has_post_hooks}

pub data Attempt {ℓ} (S : Type ℓ) : Type ℓ where
  done threw : S → Attempt S

infixl 5 ◌>>=◌
abbrev pub ◌>>=◌ {ℓ} : {S : Type ℓ} → Attempt S → (S → Attempt S) → Attempt S
done s >>= f = f s
threw s >>= f = threw s

-- `PropertyProxy`: `has_prop` is `prop != nullptr`, and `value` is what `ptr` points to.
pub record PropertyProxy (V : Type 0) : Type 0 where
  pub has_prop : Bool
  pub value : Option V

-- The part of `Details` that callbacks change, and whatever else they reach.
pub record Details (V X : Type 0) : Type 0 where
  pub ret : PropertyProxy V
  pub world : X

pub data Event : Type 0 where
  hooks_run : HookType → Event
  original_called value_written value_read : Event

-- A call in progress: `result` is the memory of the return value, `code` is `stack->Code()`, and
-- `events` is what has happened.
pub record Frame (V X : Type 0) : Type 0 where
  pub details : Details V X
  pub result : V
  pub code : ℕ
  pub events : List Event

abbrev pub has_value : {V : Type 0} → PropertyProxy V → Bool
has_value p = elim p.value [ none ↦ false | some _ ↦ true ]

module _ {V X : Type 0} where
  abbrev pub record_event : Event → Frame V X → Frame V X
  record_event e fr = record fr { events = fr.events ++ e ∷ [] }

  -- `failure` is a copy of a value of the return type: none where `cast` knows its class and the read
  -- and the write of each of its elements return, else what stands in the target once one has thrown.
  unfoldable pub copy_to : (V → Option V) → Frame V X → Attempt (Frame V X)
  copy_to failure fr = elim fr.details.ret.value [
    | none ↦ threw fr
    | some v ↦ if not fr.details.ret.has_prop then done fr else elim (failure v) [
      | none ↦ done (record_event value_written (record fr { result = v }))
      | some left ↦ threw (record fr { result = left })
    ]
  ]

  abbrev pub with_value : V → Frame V X → Frame V X
  with_value v fr = record fr {
    details = record { ret = record fr.details.ret { value = some v }; world = fr.details.world };
  }

  unfoldable pub copy_from : (V → Option V) → Frame V X → Attempt (Frame V X)
  copy_from failure fr =
      if not fr.details.ret.has_prop then threw fr else elim (failure fr.result) [
        | none ↦ done (record_event value_read (with_value fr.result fr))
        | some left ↦ threw (with_value left fr)
      ]

  unfoldable pub run_type : Node (Callback (Details V X)) → HookType → Frame V X → Frame V X × Bool
  run_type n type fr =
      let r = run_hooks_of_type n type fr.details in
      (record_event (hooks_run type) (record fr { details = r.0 }), r.1)

  -- `if (hook.ret.has_value()) hook.ret.copy_to(…)`
  unfoldable pub write_back : (V → Option V) → Frame V X → Attempt (Frame V X)
  unfolding copy_to
  write_back failure fr = if has_value fr.details.ret then copy_to failure fr else done fr

  unfoldable pub read_back : (V → Option V) → Bool → Frame V X → Attempt (Frame V X)
  unfolding copy_from
  read_back failure block fr =
      if fr.details.ret.has_prop && not (has_value fr.details.ret) && not block
      then copy_from failure fr
      else done fr

  unfoldable pub run_post_hooks : Node (Callback (Details V X)) → Bool → Frame V X → Frame V X
  unfolding run_type
  run_post_hooks n block fr =
      (run_type n post_unconditional (if block then fr else (run_type n post fr).0)).0

  -- What follows the call, or the decision not to make it.
  unfoldable pub after_call :
      (V → Option V) → Node (Callback (Details V X)) → Bool → Frame V X → Attempt (Frame V X)
  after_call failure n block fr = do
    fr ← write_back failure fr
    if not (has_post_hooks n)
        then done fr
        else do fr ← read_back failure block fr; done (run_post_hooks n block fr)

  module _ (original : V → X → V × X) where
    unfoldable pub call_original : Frame V X → Frame V X
    call_original fr =
        let r = original fr.result fr.details.world in
        record_event original_called
          (record fr { details = record { ret = fr.details.ret; world = r.1 }; result = r.0 })

    -- The `catch`, and the call behind it.
    abbrev pub or_original : Attempt (Frame V X) → Frame V X
    or_original (done fr) = fr
    or_original (threw fr) = call_original fr

    module _ (failure : V → Option V) where
      -- `copies` is whether `copy_params_only` returns, and does not throw at some parameter.
      unfoldable pub process_event_body :
          Bool → Node (Callback (Details V X)) → Frame V X → Attempt (Frame V X)
      process_event_body copies n fr =
          if not copies
          then threw fr
          else let (fr, block) = run_type n pre fr in
            after_call failure n block (if block then fr else call_original fr)

      unfoldable pub process_event_hook :
          Bool → Node (Callback (Details V X)) → Frame V X → Frame V X
      process_event_hook copies null fr = call_original fr
      process_event_hook copies (node h c f t k) fr =
          or_original (process_event_body copies (node h c f t k) fr)

      -- `extract` is where `extract_current_args` leaves `Code()`, at the end of the parameters.
      unfoldable pub call_function_body :
          ℕ → Node (Callback (Details V X)) → Frame V X → Attempt (Frame V X)
      call_function_body extract n fr =
          let original_code = fr.code in
          let (fr, block) = run_type n pre (record fr { code = extract }) in
          after_call failure n block (
            if block
            then record fr { code = fr.code + 1 }
            else call_original (record fr { code = original_code }))

      unfoldable pub call_function_hook : ℕ → Node (Callback (Details V X)) → Frame V X → Frame V X
      call_function_hook extract null fr = call_original fr
      call_function_hook extract (node h c f t k) fr =
          or_original (call_function_body extract (node h c f t k) fr)
