-- ===== src/Unreal/Delegates/Tests.antt =====
-- Delegates at concrete inputs.
use unrealsdk.Base.{
  ℕ, ◌+◌, ◌≡◌, refl, true, if◌then◌else◌, ◌==◌, Option, none, some, List, [], ◌∷◌, ◌++◌, ◌⊎◌,
}
use unrealsdk.Unreal.Delegates.{
  Function, BoundFunction, ScriptDelegate, Invalid, too_few_args, is_param, params, compare_params,
  bind, as_function, validate_signature, set_delegate, push_back, call_entries, call,
}
use unrealsdk.Unreal.Delegates.Binding.{classes, RefersTo, set_delegate-RefersTo}
use unrealsdk.Unreal.Delegates.Calls.{Bound, push_back-Bound}

-- A function with one parameter, and one with none.
abbrev takes_one : Function
takes_one = record {
  address = 100;
  function_name = 3;
  properties = (record { property_class = 7; flags = 130 }) ∷ [];
}

abbrev takes_none : Function
takes_none = record { address = 200; function_name = 4; properties = [] }

abbrev find_func : ℕ → ℕ → Option Function
find_func obj name =
    if name == 3 then some takes_one else if name == 4 then some takes_none else none

abbrev bound : BoundFunction
bound = record { func = takes_one; target = 9 }

abbrev empty_delegate : ScriptDelegate
empty_delegate = record { object = none; func_name = 0 }

too_few_test :
    (set_delegate find_func takes_one
      (some (record { func = takes_none; target = 9 }))
      empty_delegate).1
    ≡ some too_few_args
unfolding set_delegate validate_signature compare_params params is_param
too_few_test = refl

set_delegate-RefersTo_example :
    (((set_delegate find_func takes_one (some bound) empty_delegate).1 ≡ none)
      × RefersTo find_func (set_delegate find_func takes_one (some bound) empty_delegate).0 bound
      × (classes (params takes_one.properties) ≡ classes (params takes_one.properties)))
    ⊎ ((e : Invalid) × ((set_delegate find_func takes_one (some bound) empty_delegate).1 ≡ some e)
        × ((set_delegate find_func takes_one (some bound) empty_delegate).0 ≡ empty_delegate))
set_delegate-RefersTo_example = set_delegate-RefersTo find_func takes_one bound empty_delegate

-- Each call adds to its parameter, and keeps what it was given.
abbrev invoke : BoundFunction → ℕ → List ℕ → ℕ × List ℕ
invoke f p w = (p + 1, w ++ p ∷ [])

abbrev two : List ScriptDelegate
two = bind (some bound) ∷ bind (some bound) ∷ []

two-Bound : Bound find_func two (bound ∷ bound ∷ [])
unfolding Bound as_function bind
two-Bound = (refl, (refl, tt))

-- Both calls are given 5, and the caller has the 6 of the second.
call_test : call find_func invoke true two 5 [] ≡ some (6, 5 ∷ 5 ∷ [])
unfolding call call_entries as_function bind
call_test = refl

added : (push_back find_func takes_one bound two).1 ≡ none
unfolding push_back validate_signature compare_params params is_param
added = refl

added_last_test :
    (g : BoundFunction) × Bound find_func
      (push_back find_func takes_one bound two).0
      ((bound ∷ bound ∷ []) ++ g ∷ [])
    × (g.target ≡ 9)
    × (g.func.address ≡ 100)
added_last_test = push_back-Bound find_func takes_one bound two (bound ∷ bound ∷ []) two-Bound added
