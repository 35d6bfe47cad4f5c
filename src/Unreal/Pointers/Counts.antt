-- ===== src/Unreal/Pointers/Counts.antt =====
-- unreal/wrappers/unreal_pointer.h: how many variables refer to a control block.
use unrealsdk.Base.{
  ℕ, zero, suc, ◌+◌, ◌<◌, ◌≤◌, ◌≡◌, refl, if◌then◌else◌, ◌==◌, none, some, List, [], ◌∷◌, length,
  arith,
}
use unrealsdk.Unreal.Pointers.{UnrealPointer, null_pointer, set_var, var_at}

-- 1 if the pointer refers to the block, and else 0.
unfoldable pub refers : ℕ → UnrealPointer → ℕ
refers c p = elim p.control [ none ↦ 0 | some d ↦ if d == c then 1 else 0 ]

unfoldable pub references : ℕ → List UnrealPointer → ℕ
references c [] = 0
references c (p ∷ vars) = refers c p + references c vars

pub references-set_var :
    (c i : ℕ) (p : UnrealPointer) (vars : List UnrealPointer)
    → i < length vars
    → references c (set_var i p vars) + refers c (var_at i vars) ≡ references c vars + refers c p
unfolding references set_var var_at
references-set_var c i p [] l = absurd (omega arith)
references-set_var c zero p (q ∷ vars) l = omega arith
references-set_var c (suc i) p (q ∷ vars) l =
    omega (arith, references-set_var c i p vars (omega arith))

-- A variable that does not exist is a null pointer, and cannot be set.
pub set_var_outside :
    (i : ℕ) (p : UnrealPointer) (vars : List UnrealPointer)
    → length vars ≤ i
    → (set_var i p vars ≡ vars) × (var_at i vars ≡ null_pointer)
unfolding set_var var_at
set_var_outside i p [] l = (refl, refl)
set_var_outside zero p (q ∷ vars) l = absurd (omega arith)
set_var_outside (suc i) p (q ∷ vars) l =
    let r = set_var_outside i p vars (omega arith) in (cc r.0, r.1)

pub references-var_at :
    (c i : ℕ) (vars : List UnrealPointer) → refers c (var_at i vars) ≤ references c vars
unfolding references var_at refers
references-var_at c i [] = omega arith
references-var_at c zero (q ∷ vars) = omega arith
references-var_at c (suc i) (q ∷ vars) = omega (arith, references-var_at c i vars)

pub length-set_var :
    (i : ℕ) (p : UnrealPointer) (vars : List UnrealPointer)
    → length (set_var i p vars) ≡ length vars
unfolding set_var
length-set_var i p [] = refl
length-set_var zero p (q ∷ vars) = refl
length-set_var (suc i) p (q ∷ vars) = omega (arith, length-set_var i p vars)

pub var_at-set_var :
    (i j : ℕ) (p : UnrealPointer) (vars : List UnrealPointer)
    → j < length vars
    → var_at i (set_var j p vars) ≡ (if i == j then p else var_at i vars)
unfolding set_var var_at
var_at-set_var i j p [] l = absurd (omega arith)
var_at-set_var zero zero p (q ∷ vars) l = ground arith
var_at-set_var zero (suc j) p (q ∷ vars) l = ground arith
var_at-set_var (suc i) zero p (q ∷ vars) l = ground arith
var_at-set_var (suc i) (suc j) p (q ∷ vars) l =
    ground (arith, var_at-set_var i j p vars (omega arith))
