-- ===== src/Unreal/Delegates/Binding.antt =====
-- unreal/structs/fscriptdelegate.cpp: a function that a delegate accepts is found again.
use unrealsdk.Base.{
  ℕ, ◌≡◌, refl, subst, ◌==◌, Option, none, some, inl, inr, ◌⊎◌, List, [], ◌∷◌, map, arith,
  Bool-cases, Option-cases, ==_iff,
}
use unrealsdk.Unreal.Delegates.{
  Property, Function, BoundFunction, ScriptDelegate, Invalid, params, compare_params, bind,
  as_function, validate_signature, set_delegate,
}

abbrev pub classes : List Property → List ℕ
classes ps = map (λ p. p.property_class) ps

compare_params-classes :
    (fs ss : List Property) → compare_params fs ss ≡ none → classes fs ≡ classes ss
unfolding compare_params
compare_params-classes [] [] e = refl
compare_params-classes (f ∷ fs) [] e = absurd (ground arith)
compare_params-classes [] (s ∷ ss) e = absurd (ground arith)
compare_params-classes (f ∷ fs) (s ∷ ss) e =
    elim (Bool-cases (f.property_class == s.property_class)) [
      | inl same ↦ cc ((==_iff _ _).0 same, compare_params-classes fs ss (ground arith))
      | inr other ↦ absurd (ground arith)
    ]

module _ (find_func : ℕ → ℕ → Option Function) where
  -- The delegate refers to the function: it finds one at the same address, on the same object.
  unfoldable pub RefersTo : ScriptDelegate → BoundFunction → Type 0
  RefersTo d f =
      (g : BoundFunction) × (as_function find_func d ≡ some (some g))
      × (g.target ≡ f.target)
      × (g.func.address ≡ f.func.address)

  pub validate_signature-RefersTo :
      (signature : Function) (f : BoundFunction)
      → validate_signature find_func (some f) signature ≡ none
      → RefersTo (bind (some f)) f
        × (classes (params f.func.properties) ≡ classes (params signature.properties))
  unfolding validate_signature bind as_function RefersTo
  validate_signature-RefersTo signature f e =
      elim (Option-cases (find_func f.target f.func.function_name)) [
        | inl missing ↦ absurd (ground (arith, missing))
        | inr (found, at) ↦ elim (Bool-cases (found.address == f.func.address)) [
          | inl same ↦ (
            (
              record { func = found; target = f.target },
              ground (arith, at),
              refl,
              (==_iff _ _).0 same,
            ),
            compare_params-classes _ _ (ground (arith, at)),
          )
          | inr other ↦ absurd (ground (arith, at))
        ]
      ]

  -- A delegate property that is set without an exception refers to the function, whose parameters have
  -- the classes of the signature's, in order; and an exception leaves the property as it was.
  pub set_delegate-RefersTo :
      (signature : Function) (f : BoundFunction) (d : ScriptDelegate)
      → (((set_delegate find_func signature (some f) d).1 ≡ none)
          × RefersTo (set_delegate find_func signature (some f) d).0 f
          × (classes (params f.func.properties) ≡ classes (params signature.properties)))
        ⊎ ((e : Invalid) × ((set_delegate find_func signature (some f) d).1 ≡ some e)
            × ((set_delegate find_func signature (some f) d).0 ≡ d))
  unfolding set_delegate
  set_delegate-RefersTo signature f d =
      elim (Option-cases (validate_signature find_func (some f) signature)) [
        | inl fits ↦
            let (refers, same) = validate_signature-RefersTo signature f fits in
            inl
              (ground (arith, fits), subst (λ x. RefersTo x f) (ground (arith, fits)) refers, same)
        | inr (e, bad) ↦ inr (e, ground (arith, bad), ground (arith, bad))
      ]
