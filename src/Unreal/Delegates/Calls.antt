-- ===== src/Unreal/Delegates/Calls.antt =====
-- unreal/wrappers/wrapped_multicast_delegate.cpp: the order of the calls, and their parameters.
use unrealsdk.Base.{
  ℕ, ◌≡◌, subst, Option, none, some, List, [], ◌∷◌, ◌++◌, arith, Option-cases, inl, inr,
}
use unrealsdk.Unreal.Delegates.{
  Function, BoundFunction, ScriptDelegate, bind, as_function, validate_signature, push_back,
}
use unrealsdk.Unreal.Delegates.Binding.{RefersTo, validate_signature-RefersTo}

module _ (find_func : ℕ → ℕ → Option Function) where
  -- The delegates have these functions, in order.
  unfoldable pub Bound : List ScriptDelegate → List BoundFunction → Type 0
  Bound [] [] = Unit
  Bound [] (f ∷ fs) = ⊥
  Bound (d ∷ ds) [] = ⊥
  Bound (d ∷ ds) (f ∷ fs) = (as_function find_func d ≡ some (some f)) × Bound ds fs

  module _ {P W : Type 0} (invoke : BoundFunction → P → W → P × W) where
    -- The reference: each function is given the parameters as they were before the first call.
    unfoldable pub call_each : List BoundFunction → P → W → P × W
    call_each [] p w = (p, w)
    call_each (f ∷ []) p w = invoke f p w
    call_each (f ∷ g ∷ fs) p w = call_each (g ∷ fs) p (invoke f p w).1

  Bound-append :
      (ds : List ScriptDelegate) (fs : List BoundFunction) (d : ScriptDelegate) (f : BoundFunction)
      → Bound ds fs
      → as_function find_func d ≡ some (some f)
      → Bound (ds ++ d ∷ []) (fs ++ f ∷ [])
  unfolding Bound
  Bound-append [] [] d f h e = (e, tt)
  Bound-append [] (g ∷ fs) d f h e = absurd h
  Bound-append (c ∷ ds) [] d f h e = absurd h
  Bound-append (c ∷ ds) (g ∷ fs) d f (at, h) e = (at, Bound-append ds fs d f h e)

  -- A function that is added to the delegates, without an exception, is the last to be called.
  pub push_back-Bound :
      (signature : Function) (f : BoundFunction) (ds : List ScriptDelegate)
      (fs : List BoundFunction)
      → Bound ds fs
      → (push_back find_func signature f ds).1 ≡ none
      → (g : BoundFunction) × Bound (push_back find_func signature f ds).0 (fs ++ g ∷ [])
        × (g.target ≡ f.target)
        × (g.func.address ≡ f.func.address)
  unfolding push_back RefersTo
  push_back-Bound signature f ds fs h e =
      elim (Option-cases (validate_signature find_func (some f) signature)) [
        | inl fits ↦
            let ((g, at, same, same'), classes_same) =
              validate_signature-RefersTo find_func signature f fits in
            (
              g,
              subst (λ x. Bound x (fs ++ g ∷ [])) (ground (arith, fits))
                  (Bound-append ds fs (bind (some f)) g h at),
              same,
              same',
            )
        | inr (bad, at) ↦ absurd (ground (arith, at))
      ]
