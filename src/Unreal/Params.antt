-- ===== src/Unreal/Params.antt =====
-- unreal/wrappers/bound_function.h and bound_function.cpp: how the arguments of a call are written to the
-- parameters of a function, and the call. The memory of the parameters holds a value at each offset.
pub mod Writing
mod Tests
use Prim.Native.Nat.{bit_and, bit_or}
use unrealsdk.Base.{
  ℕ, zero, suc, ◌≡◌, Bool, true, false, not, ◌&&◌, ◌||◌, if◌then◌else◌, ◌==◌, ltb, Option, none,
  some, List, [], ◌∷◌,
}

pub record Param : Type 0 where
  pub param_class : ℕ
  pub property_flags : ℕ
  pub array_dim : ℕ
  pub offset : ℕ

pub record Argument (V : Type 0) : Type 0 where
  pub argument_class : ℕ
  pub value : V

pub data ParamError : Type 0 where
  too_many_parameters : ParamError
  too_few_parameters : ParamError
  static_array : ParamError
  invalid_type : ParamError
  value_refused : ParamError
  index_out_of_range : ParamError

-- Whether a property has a flag, one bit.
unfoldable pub has_flag : ℕ → Param → Bool
has_flag flag p = not (bit_and p.property_flags flag == 0)

-- `PROP_FLAG_PARAM`, `PROP_FLAG_RETURN` and `PROP_FLAG_OPTIONAL`
unfoldable pub is_parameter : Param → Bool
is_parameter p = has_flag 128 p

unfoldable pub may_be_missing : Bool → Param → Bool
may_be_missing has_optional p = has_flag 1024 p || has_optional && has_flag 16 p

-- The linked properties from the first parameter on: `get_next_param` after its first step.
unfoldable pub next_param : List Param → List Param
next_param [] = []
next_param (p ∷ ps) = if is_parameter p then p ∷ ps else next_param ps

module _ {V : Type 0} where
  unfoldable pub write_at : (ℕ → V) → ℕ → V → ℕ → V
  write_at memory offset v o = if o == offset then v else memory o

  -- `params.set` on the first element: what it throws, and what stands in the element then. The last
  -- parameter is `PropTraits::set` of the parameter's class: none where it returns, else what it leaves
  -- where it throws.
  unfoldable pub set_error :
      (Param → V → V → Option V) → Param → Argument V → (ℕ → V) → Option (ParamError × (ℕ → V))
  set_error set_failure p a memory =
      if ltb 1 p.array_dim
      then some (static_array, memory)
      else if not (p.param_class == a.argument_class)
      then some (invalid_type, memory)
      else if p.array_dim == 0
      then some (index_out_of_range, memory)
      else elim (set_failure p a.value (memory p.offset)) [
        | none ↦ none
        | some left ↦ some (value_refused, write_at memory p.offset left)
      ]

-- `has_optional` is whether the engine has optional parameters.
module _ (has_optional : Bool) where
  unfoldable pub validate_no_more_params : List Param → Option ParamError
  validate_no_more_params [] = none
  validate_no_more_params (p ∷ ps) =
      let rest = validate_no_more_params ps in
      if is_parameter p && not (may_be_missing has_optional p)
      then some too_few_parameters
      else rest

  module _ {V : Type 0} (set_failure : Param → V → V → Option V) where
    -- `set_param`, from the first of the properties: the memory, and the exception, if any.
    unfoldable pub set_param :
        List Param → List (Argument V) → (ℕ → V) → (ℕ → V) × Option ParamError
    set_param ps [] memory = (memory, validate_no_more_params ps)
    set_param [] (a ∷ args) memory = (memory, some too_many_parameters)
    set_param (p ∷ ps) (a ∷ args) memory =
        let rest = set_param (next_param ps) args (write_at memory p.offset a.value) in
        elim (set_error set_failure p a memory) [ none ↦ rest | some (e, after) ↦ (after, some e) ]

    unfoldable pub write_params :
        List Param → List (Argument V) → (ℕ → V) → (ℕ → V) × Option ParamError
    write_params ps args memory = set_param (next_param ps) args memory

-- `bound_function_call_with_params`: the function is marked native during the call. `process_event` is
-- none where it throws, and the flags are not restored then.
unfoldable pub call_with_params : {W : Type 0} → (ℕ → W → Option W) → ℕ → W → ℕ × Option W
call_with_params process_event function_flags w =
    let native_flags = bit_or function_flags 1024 in
    elim (process_event native_flags w) [
      | none ↦ (native_flags, none)
      | some w' ↦ (function_flags, some w')
    ]
