-- ===== src/Unreal/Delegates.antt =====
-- unreal/structs/fscriptdelegate.cpp, unreal/properties/zdelegateproperty.cpp and
-- unreal/wrappers/wrapped_multicast_delegate.cpp: references to functions of objects by their names. The
-- lookup of a function by its name, and the call of one, are parameters; this is the layout whose
-- delegates point to objects.
pub mod Binding
pub mod Calls
mod Tests
use Prim.Native.Nat.{bit_and}
use unrealsdk.Base.{
  ℕ, zero, suc, ◌≡◌, Bool, true, false, not, if◌then◌else◌, ◌==◌, Option, none, some, List, [], ◌∷◌,
  ◌++◌,
}

pub record Property : Type 0 where
  pub property_class : ℕ
  pub flags : ℕ

pub record Function : Type 0 where
  pub address : ℕ
  pub function_name : ℕ
  pub properties : List Property

pub record BoundFunction : Type 0 where
  pub func : Function
  pub target : ℕ

-- A name is a number, and 0 is `FName{}`.
pub record ScriptDelegate : Type 0 where
  pub object : Option ℕ
  pub func_name : ℕ

-- Why a function does not fit a delegate.
pub data Invalid : Type 0 where
  not_found : Invalid
  other_function : Invalid
  signature_mismatch : Invalid
  too_many_args : Invalid
  too_few_args : Invalid

-- `PROP_FLAG_PARAM`
unfoldable pub is_param : Property → Bool
is_param p = not (bit_and p.flags 128 == 0)

unfoldable pub params : List Property → List Property
params [] = []
params (p ∷ ps) = if is_param p then p ∷ params ps else params ps

-- `mismatch` over the two ranges of parameters, and what it means.
unfoldable pub compare_params : List Property → List Property → Option Invalid
compare_params [] [] = none
compare_params (f ∷ fs) [] = some too_many_args
compare_params [] (s ∷ ss) = some too_few_args
compare_params (f ∷ fs) (s ∷ ss) =
    let rest = compare_params fs ss in
    if f.property_class == s.property_class then rest else some signature_mismatch

unfoldable pub bind : Option BoundFunction → ScriptDelegate
bind none = record { object = none; func_name = 0 }
bind (some f) = record { object = some f.target; func_name = f.func.function_name }

-- `find_func` is `find_func_and_validate` on the class of an object, none where it throws.
module _ (find_func : ℕ → ℕ → Option Function) where
  -- The function of a delegate, which may be none; or none where the lookup throws.
  unfoldable pub as_function : ScriptDelegate → Option (Option BoundFunction)
  as_function d = elim d.object [
    | none ↦ some none
    | some obj ↦ elim (find_func obj d.func_name) [
      | none ↦ none
      | some f ↦ some (some (record { func = f; target = obj }))
    ]
  ]

  unfoldable pub validate_signature : Option BoundFunction → Function → Option Invalid
  validate_signature none signature = none
  validate_signature (some f) signature = elim (find_func f.target f.func.function_name) [
    | none ↦ some not_found
    | some found ↦
        if found.address == f.func.address
        then compare_params (params f.func.properties) (params signature.properties)
        else some other_function
  ]

  -- `set` of a delegate property: the delegate afterwards, and the exception, if any.
  unfoldable pub set_delegate :
      Function → Option BoundFunction → ScriptDelegate → ScriptDelegate × Option Invalid
  set_delegate signature value d = elim (validate_signature value signature) [
    | none ↦ (bind value, none)
    | some e ↦ (d, some e)
  ]

  -- `push_back`, whose array grows by one.
  unfoldable pub push_back :
      Function → BoundFunction → List ScriptDelegate → List ScriptDelegate × Option Invalid
  push_back signature f ds = elim (validate_signature (some f) signature) [
    | none ↦ (ds ++ bind (some f) ∷ [], none)
    | some e ↦ (ds, some e)
  ]

  -- The calls of the delegates in order, from the state `w`, where `invoke` calls a function with
  -- parameters that it may change. A copy of the parameters is given to all but the last. The result is
  -- none where a delegate has no function, which is not checked, or its lookup throws.
  module _ {P W : Type 0} (invoke : BoundFunction → P → W → P × W) where
    unfoldable pub call_entries : List ScriptDelegate → P → W → Option (P × W)
    call_entries [] p w = some (p, w)
    call_entries (d ∷ []) p w = elim (as_function d) [
      | none ↦ none
      | some none ↦ none
      | some (some f) ↦ some (invoke f p w)
    ]
    call_entries (d ∷ e ∷ ds) p w = elim (as_function d) [
      | none ↦ none
      | some none ↦ none
      | some (some f) ↦ call_entries (e ∷ ds) p (invoke f p w).1
    ]

    -- `call`, where `types_match` says that the parameters are of the signature's type.
    unfoldable pub call : Bool → List ScriptDelegate → P → W → Option (P × W)
    call types_match ds p w = if types_match then call_entries ds p w else none
