-- ===== src/Unreal/Params/Writing.antt =====
-- unreal/wrappers/bound_function.h: which arguments a function takes, and where they are written.
use unrealsdk.Base.{
  ap, ℕ, ◌≡◌, ◌≢◌, refl, sym, ◌∙◌, subst, Bool, true, false, if◌then◌else◌, Option, none, some, inl,
  inr, List, [], ◌∷◌, arith, Bool-cases, Option-cases,
}
use unrealsdk.Unreal.Params.{
  Param, Argument, ParamError, is_parameter, may_be_missing, next_param, validate_no_more_params,
  write_at, set_error, set_param, write_params,
}

-- The parameters among the properties.
unfoldable pub parameters : List Param → List Param
parameters [] = []
parameters (p ∷ ps) = if is_parameter p then p ∷ parameters ps else parameters ps

-- No parameter has this offset.
unfoldable pub Avoids : ℕ → List Param → Type 0
Avoids o [] = Unit
Avoids o (p ∷ ps) = (o ≢ p.offset) × Avoids o ps

-- No two of them have the same offset.
unfoldable pub Apart : List Param → Type 0
Apart [] = Unit
Apart (p ∷ ps) = Avoids p.offset ps × Apart ps

module _ (has_optional : Bool) {V : Type 0} where
  -- Each argument is at the offset of its parameter, in order, and has its class; and the parameters
  -- after these are optional or the return value.
  unfoldable pub Holds : List Param → List (Argument V) → (ℕ → V) → Type 0
  Holds [] [] memory = Unit
  Holds [] (a ∷ args) memory = ⊥
  Holds (p ∷ ps) [] memory = (may_be_missing has_optional p ≡ true) × Holds ps [] memory
  Holds (p ∷ ps) (a ∷ args) memory =
      (p.param_class ≡ a.argument_class) × (memory p.offset ≡ a.value) × Holds ps args memory

  validate_no_more_params-Holds :
      (ps : List Param) (memory : ℕ → V)
      → validate_no_more_params has_optional ps ≡ none
      → Holds (parameters ps) [] memory
  unfolding validate_no_more_params parameters Holds
  validate_no_more_params-Holds [] memory e = tt
  validate_no_more_params-Holds (p ∷ ps) memory e = elim (Bool-cases (is_parameter p)) [
    | inl here ↦ elim (Bool-cases (may_be_missing has_optional p)) [
      | inl missing ↦
          subst (λ c. Holds (if c then p ∷ parameters ps else parameters ps) [] memory) (sym here)
            (missing, validate_no_more_params-Holds ps memory (ground arith))
      | inr needed ↦ absurd (ground arith)
    ]
    | inr other ↦
        subst (λ c. Holds (if c then p ∷ parameters ps else parameters ps) [] memory) (sym other)
          (validate_no_more_params-Holds ps memory (ground arith))
  ]

  module _ (set_failure : Param → V → V → Option V) where
    -- Each argument has the class of its parameter, in order, and is a value that the class takes, whatever
    -- stood there before; no parameter is a static array, and the parameters after these are optional or
    -- the return value.
    unfoldable pub Takes : List Param → List (Argument V) → Type 0
    Takes [] [] = Unit
    Takes [] (a ∷ args) = ⊥
    Takes (p ∷ ps) [] = (may_be_missing has_optional p ≡ true) × Takes ps []
    Takes (p ∷ ps) (a ∷ args) =
        (p.param_class ≡ a.argument_class)
        × (p.array_dim ≡ 1)
        × ((old : V) → set_failure p a.value old ≡ none)
        × Takes ps args

    class_written :
        (p : Param) (a : Argument V) (memory : ℕ → V)
        → set_error set_failure p a memory ≡ none
        → p.param_class ≡ a.argument_class
    unfolding set_error
    class_written p a memory e = ground arith

    memory_after : (ℕ → V) → Option (ParamError × (ℕ → V)) → ℕ → V
    memory_after memory none = memory
    memory_after memory (some (e, after)) = after

    -- An exception leaves what stands at other offsets.
    failure_keeps :
        (o : ℕ) (p : Param) (a : Argument V) (memory : ℕ → V)
        → o ≢ p.offset
        → memory_after memory (set_error set_failure p a memory) o ≡ memory o
    unfolding memory_after set_error write_at
    failure_keeps o p a memory other = ground (arith, other)

    -- What a write leaves at an offset, by cases on whether the first property is a parameter.
    keeps_round :
        (c : Bool) (o : ℕ) (p : Param) (ps : List Param) (args : List (Argument V)) (memory : ℕ → V)
        → Avoids o (if c then p ∷ parameters ps else parameters ps)
        → ((args : List (Argument V)) (memory : ℕ → V)
            → Avoids o (parameters ps)
            → (set_param has_optional set_failure (next_param ps) args memory).0 o ≡ memory o)
        → (set_param has_optional set_failure (if c then p ∷ ps else next_param ps) args memory).0 o
          ≡ memory o
    unfolding set_param write_at Avoids memory_after
    keeps_round false o p ps args memory h rest = rest args memory h
    keeps_round true o p ps [] memory h rest = refl
    keeps_round true o p ps (a ∷ args) memory (other, h) rest =
        elim (Option-cases (set_error set_failure p a memory)) [
          | inl e ↦
              let later = rest args (write_at memory p.offset a.value) h in ground (arith, later)
          | inr ((bad, after), e) ↦
              let kept = failure_keeps o p a memory other in
              let same = ap (λ r. memory_after memory r o) e in ground (arith, e, kept, same)
        ]

    set_param_keeps :
        (o : ℕ) (ps : List Param) (args : List (Argument V)) (memory : ℕ → V)
        → Avoids o (parameters ps)
        → (set_param has_optional set_failure (next_param ps) args memory).0 o ≡ memory o
    unfolding set_param next_param parameters
    set_param_keeps o [] [] memory h = refl
    set_param_keeps o [] (a ∷ args) memory h = refl
    set_param_keeps o (p ∷ ps) args memory h =
        keeps_round (is_parameter p) o p ps args memory h
          (λ args memory h. set_param_keeps o ps args memory h)

    writes_round :
        (c : Bool) (p : Param) (ps : List Param) (args : List (Argument V)) (memory : ℕ → V)
        → c ≡ is_parameter p
        → Apart (if c then p ∷ parameters ps else parameters ps)
        → ((args : List (Argument V)) (memory : ℕ → V)
            → Apart (parameters ps)
            → (set_param has_optional set_failure (next_param ps) args memory).1 ≡ none
            → Holds
                (parameters ps)
                args
                (set_param has_optional set_failure (next_param ps) args memory).0)
        → (set_param has_optional set_failure (if c then p ∷ ps else next_param ps) args memory).1
          ≡ none
        → Holds
            (if c then p ∷ parameters ps else parameters ps)
            args
            (set_param has_optional set_failure (if c then p ∷ ps else next_param ps) args memory).0
    unfolding set_param Holds Apart write_at parameters
    writes_round false p ps args memory same h rest e = rest args memory h e
    writes_round true p ps [] memory same h rest e =
        subst (λ c. Holds (if c then p ∷ parameters ps else parameters ps) [] memory) (sym same)
          (validate_no_more_params-Holds (p ∷ ps) memory e)
    writes_round true p ps (a ∷ args) memory same (avoids, h) rest e =
        elim (Option-cases (set_error set_failure p a memory)) [
          | inl fits ↦
              let written = write_at memory p.offset a.value in
              let r = set_param has_optional set_failure (next_param ps) args written in
              let kept = set_param_keeps p.offset ps args written avoids in
              subst
                (λ o.
                  Holds (p ∷ parameters ps) (a ∷ args)
                    (elim o as (λ x. (ℕ → V) × Option ParamError) [
                      | none ↦ r
                      | some (e, after) ↦ (after, some e)
                    ]).0)
                (sym fits)
                (
                  class_written p a memory fits,
                  kept ∙ ground arith,
                  rest args written h (ground (arith, fits)),
                )
          | inr ((bad, after), other) ↦ absurd (ground (arith, other))
        ]

    writes :
        (ps : List Param) (args : List (Argument V)) (memory : ℕ → V)
        → Apart (parameters ps)
        → (set_param has_optional set_failure (next_param ps) args memory).1 ≡ none
        → Holds
            (parameters ps)
            args
            (set_param has_optional set_failure (next_param ps) args memory).0
    unfolding set_param next_param parameters Holds validate_no_more_params
    writes [] [] memory h e = tt
    writes [] (a ∷ args) memory h e = absurd (ground arith)
    writes (p ∷ ps) args memory h e =
        writes_round (is_parameter p) p ps args memory refl h
          (λ args memory h e. writes ps args memory h e) e

    set_error_fits :
        (p : Param) (a : Argument V) (memory : ℕ → V)
        → p.param_class ≡ a.argument_class
        → p.array_dim ≡ 1
        → set_failure p a.value (memory p.offset) ≡ none
        → set_error set_failure p a memory ≡ none
    unfolding set_error
    set_error_fits p a memory same one takes = ground (arith, same, one, takes)

    Takes-validate_no_more_params :
        (ps : List Param) (memory : ℕ → V)
        → Takes (parameters ps) []
        → validate_no_more_params has_optional ps ≡ none
    unfolding validate_no_more_params parameters Takes
    Takes-validate_no_more_params [] memory h = refl
    Takes-validate_no_more_params (p ∷ ps) memory h = elim (Bool-cases (is_parameter p)) [
      | inl here ↦
          let (missing, h) =
            subst (λ c. Takes (if c then p ∷ parameters ps else parameters ps) []) here h in
          let rest = Takes-validate_no_more_params ps memory h in ground (arith, missing, rest)
      | inr other ↦
          let h = subst (λ c. Takes (if c then p ∷ parameters ps else parameters ps) []) other h in
          let rest = Takes-validate_no_more_params ps memory h in ground (arith, rest)
    ]

    taken_round :
        (c : Bool) (p : Param) (ps : List Param) (args : List (Argument V)) (memory : ℕ → V)
        → c ≡ is_parameter p
        → Takes (if c then p ∷ parameters ps else parameters ps) args
        → ((args : List (Argument V)) (memory : ℕ → V)
            → Takes (parameters ps) args
            → (set_param has_optional set_failure (next_param ps) args memory).1 ≡ none)
        → (set_param has_optional set_failure (if c then p ∷ ps else next_param ps) args memory).1
          ≡ none
    unfolding set_param Takes parameters
    taken_round false p ps args memory same h rest = rest args memory h
    taken_round true p ps [] memory same h rest =
        Takes-validate_no_more_params (p ∷ ps) memory
          (subst (λ c. Takes (if c then p ∷ parameters ps else parameters ps) []) same h)
    taken_round true p ps (a ∷ args) memory same (fits, one, takes, h) rest =
        let fine = set_error_fits p a memory fits one (takes (memory p.offset)) in
        let later = rest args (write_at memory p.offset a.value) h in ground (arith, fine, later)

    taken :
        (ps : List Param) (args : List (Argument V)) (memory : ℕ → V)
        → Takes (parameters ps) args
        → (set_param has_optional set_failure (next_param ps) args memory).1 ≡ none
    unfolding set_param next_param parameters Takes validate_no_more_params
    taken [] [] memory h = refl
    taken [] (a ∷ args) memory h = absurd h
    taken (p ∷ ps) args memory h =
        taken_round (is_parameter p) p ps args memory refl h
          (λ args memory h. taken ps args memory h)

    -- Arguments that have the classes of the parameters in order, are values that these classes set without
    -- an exception, and are followed by parameters that are optional or the return value, are written without
    -- an exception: each is at the offset of its parameter afterwards. No parameter may be a static array,
    -- and no two share an offset.
    pub write_params-Holds :
        (ps : List Param) (args : List (Argument V)) (memory : ℕ → V)
        → Apart (parameters ps)
        → Takes (parameters ps) args
        → ((write_params has_optional set_failure ps args memory).1 ≡ none)
          × Holds (parameters ps) args (write_params has_optional set_failure ps args memory).0
    unfolding write_params
    write_params-Holds ps args memory h takes =
        let returns = taken ps args memory takes in (returns, writes ps args memory h returns)
