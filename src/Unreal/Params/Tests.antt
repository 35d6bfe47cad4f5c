-- ===== src/Unreal/Params/Tests.antt =====
-- Arguments of a call at concrete inputs.
use unrealsdk.Base.{
  ◌+◌, if◌then◌else◌, ◌==◌, Option, ℕ, ◌≡◌, refl, true, false, none, some, List, [], ◌∷◌, ◌++◌,
  arith,
}
use unrealsdk.Unreal.Params.{
  Param, Argument, too_few_parameters, value_refused, write_at, has_flag, is_parameter,
  may_be_missing, next_param, validate_no_more_params, set_error, set_param, write_params,
  call_with_params,
}
use unrealsdk.Unreal.Params.Writing.{parameters, Avoids, Apart, Holds, Takes, write_params-Holds}

abbrev param : ℕ → ℕ → Param
param flags offset = record {
  param_class = 1;
  property_flags = flags;
  array_dim = 1;
  offset = offset;
}

-- A parameter, a local variable, an optional parameter, and the return value.
abbrev properties : List Param
properties = param 128 0 ∷ param 0 4 ∷ param 144 8 ∷ param 1152 12 ∷ []

abbrev arguments : List (Argument ℕ)
arguments = (record { argument_class = 1; value = 55 }) ∷ []

abbrev zeroed : ℕ → ℕ
zeroed o = 0

abbrev takes_any : Param → ℕ → ℕ → Option ℕ
takes_any p value old = none

-- A class that refuses 55, once it wrote a part of it.
abbrev refuses : Param → ℕ → ℕ → Option ℕ
refuses p value old = if value == 55 then some (old + 1) else none

refused_test :
    ((write_params true refuses properties arguments zeroed).1 ≡ some value_refused)
    × ((write_params true refuses properties arguments zeroed).0 0 ≡ 1)
unfolding write_params set_param next_param is_parameter has_flag set_error write_at
refused_test = (refl, refl)

written_test :
    ((write_params true takes_any properties arguments zeroed).1 ≡ none)
    × ((write_params true takes_any properties [] zeroed).1 ≡ some too_few_parameters)
    × ((write_params false takes_any properties arguments zeroed).1 ≡ some too_few_parameters)
unfolding write_params set_param next_param is_parameter has_flag may_be_missing
    validate_no_more_params set_error
written_test = (refl, refl, refl)

-- The flags are as they were after a call, and stay native after an exception.
flags_test :
    ((call_with_params (λ flags w. some (w ++ flags ∷ [])) 2 []) ≡ (2, some (1026 ∷ [])))
    × ((call_with_params {W = List ℕ} (λ flags w. none) 2 []).0 ≡ 1026)
unfolding call_with_params
flags_test = (refl, refl)

properties-Apart : Apart (parameters properties)
unfolding Apart Avoids parameters is_parameter has_flag
properties-Apart = (
  (λ e. absurd (omega arith), (λ e. absurd (omega arith), tt)),
  ((λ e. absurd (omega arith), tt), (tt, tt)),
)

properties-Takes : Takes true takes_any (parameters properties) arguments
unfolding Takes parameters is_parameter has_flag may_be_missing
properties-Takes = (refl, refl, λ old. refl, (refl, (refl, tt)))

write_params-Holds_example :
    ((write_params true takes_any properties arguments zeroed).1 ≡ none)
    × Holds true
        (parameters properties)
        arguments
        (write_params true takes_any properties arguments zeroed).0
write_params-Holds_example =
    write_params-Holds true takes_any properties arguments zeroed properties-Apart properties-Takes
