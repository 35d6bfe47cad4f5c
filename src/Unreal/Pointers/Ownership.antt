-- ===== src/Unreal/Pointers/Ownership.antt =====
-- unreal/wrappers/unreal_pointer.h: a block lives as long as a pointer refers to it.
use unrealsdk.Base.{
  ℕ, ◌+◌, ◌<◌, ◌≤◌, ◌≡◌, refl, sym, ap, ◌∙◌, subst, true, if◌then◌else◌, ltb, some, List, [], ◌∷◌,
  length, arith, ℕ_discrete, Bool-cases, Option-cases, inl, inr,
}
use unrealsdk.Unreal.Pointers.{
  UnrealPointer, null_pointer, Blocks, release, attach, new_control, Program, set_var, var_at,
  Operation, release_var, move_assignment, construct, swap_temporary, construct_copy,
  construct_owned, copy_assignment, exist, step, run, initial, new_null, new_owned, copy_from,
  point_into, move_from, assign_copy, assign_move, destroy,
}
use unrealsdk.Unreal.Pointers.Counts.{
  refers, references, references-set_var, set_var_outside, references-var_at, length-set_var,
  var_at-set_var,
}
use unrealsdk.Unreal.Pointers.Lifetimes.{
  times_freed, BlockOwned, IsOwned, release-BlockOwned, attach-BlockOwned, new_control-BlockOwned,
  attach_new,
}

construct_copy-IsOwned :
    (max : ℕ) (p : UnrealPointer) (s : Program)
    → ((c : ℕ) → refers c p ≤ references c s.vars)
    → IsOwned s
    → IsOwned (construct_copy max p s)
unfolding construct_copy construct IsOwned references
construct_copy-IsOwned max p s known h = elim (Option-cases (attach max p s.blocks)) [
  | inl e ↦ subst (λ o. IsOwned (construct p s.vars s.blocks o)) (sym e) h
  | inr (b', e) ↦
      subst (λ o. IsOwned (construct p s.vars s.blocks o)) (sym e)
        (λ c.
          subst (BlockOwned b' c) (omega arith)
            (attach-BlockOwned max p s.blocks b' c (references c s.vars) (known c) e (h c)))
]

release_var_counts :
    (c i : ℕ) (vars : List UnrealPointer)
    → references c vars ≡ references c (set_var i null_pointer vars) + refers c (var_at i vars)
unfolding refers
release_var_counts c i vars = elim (Bool-cases (ltb i (length vars))) [
  | inl inside ↦ omega (arith, references-set_var c i null_pointer vars (ground arith))
  | inr outside ↦
      let (same, null) = set_var_outside i null_pointer vars (ground arith) in
      sym (ap (references c) same) ∙ ground arith
]

-- A variable that is replaced gives up its reference.
release_var-IsOwned : (i : ℕ) (s : Program) → IsOwned s → IsOwned (release_var i s)
unfolding release_var IsOwned
release_var-IsOwned i s h c =
    release-BlockOwned (var_at i s.vars) s.blocks c (references c (set_var i null_pointer s.vars))
      (subst (BlockOwned s.blocks c) (release_var_counts c i s.vars) (h c))

move_assignment_counts :
    (c i j : ℕ) (vars : List UnrealPointer)
    → i < length vars
    → j < length vars
    → references c (set_var j (var_at i vars) (set_var i (var_at j vars) vars)) ≡ references c vars
move_assignment_counts c i j vars l u =
    let first = references-set_var c i (var_at j vars) vars l in
    let second =
      references-set_var c j (var_at i vars) (set_var i (var_at j vars) vars)
        (omega (arith, length-set_var i (var_at j vars) vars)) in
    let at = var_at-set_var j i (var_at j vars) vars l in
    elim (ℕ_discrete j i) [
      | yes same ↦
          let here : refers c (var_at j (set_var i (var_at j vars) vars))
              ≡ refers c (var_at j vars) =
            ap (refers c) (at ∙ ground arith) in
          omega arith
      | no other ↦
          let here : refers c (var_at j (set_var i (var_at j vars) vars))
              ≡ refers c (var_at j vars) =
            ap (refers c) (at ∙ ground arith) in
          omega arith
    ]

swapped-IsOwned :
    (i : ℕ) (p : UnrealPointer) (vars : List UnrealPointer) (b : Blocks)
    → i < length vars
    → ((c : ℕ) → BlockOwned b c (references c vars + refers c p))
    → IsOwned (record { blocks = release (var_at i vars) b; vars = set_var i p vars })
unfolding IsOwned refers
swapped-IsOwned i p vars b l h c =
    release-BlockOwned (var_at i vars) b c (references c (set_var i p vars))
      (subst (BlockOwned b c) (sym (references-set_var c i p vars l)) (h c))

move_assignment-IsOwned :
    (i j : ℕ) (s : Program)
    → i < length s.vars
    → j < length s.vars
    → IsOwned s
    → IsOwned (move_assignment i j s)
unfolding move_assignment IsOwned
move_assignment-IsOwned i j s l u h c =
    subst (BlockOwned s.blocks c) (sym (move_assignment_counts c i j s.vars l u)) (h c)

exist_lem : (i j : ℕ) (s : Program) → exist i j s ≡ true → (i < length s.vars) × (j < length s.vars)
unfolding exist
exist_lem i j s e = (ground arith, ground arith)

copy_assignment-IsOwned :
    (max i j : ℕ) (s : Program)
    → i < length s.vars
    → IsOwned s
    → IsOwned (copy_assignment max i j s)
unfolding copy_assignment swap_temporary release_var IsOwned
copy_assignment-IsOwned max i j s l h =
    let s' = release_var i s in
    let h' = release_var-IsOwned i s h in
    let p = var_at j s'.vars in
    elim (Option-cases (attach max p s'.blocks)) [
      | inl e ↦ subst (λ o. IsOwned (swap_temporary i p s'.vars s'.blocks o)) (sym e) h'
      | inr (b', e) ↦
          subst (λ o. IsOwned (swap_temporary i p s'.vars s'.blocks o)) (sym e)
            (swapped-IsOwned i p s'.vars b' (omega (arith, l, length-set_var i null_pointer s.vars))
              (λ c.
                attach-BlockOwned max p s'.blocks b' c (references c s'.vars)
                  (references-var_at c j s'.vars) e (h' c)))
    ]

construct_owned-IsOwned :
    (max address : ℕ) (s : Program) → 0 < max → IsOwned s → IsOwned (construct_owned max address s)
unfolding construct_owned construct_copy construct IsOwned references refers
construct_owned-IsOwned max address s l h =
    let p : UnrealPointer = record { control = some s.blocks.next; ptr = some address } in
    subst (λ o. IsOwned (construct p s.vars (new_control s.blocks) o))
      (sym (attach_new max p s.blocks l refl))
      (λ c.
        subst (BlockOwned _ c) (omega arith)
          (new_control-BlockOwned s.blocks c (references c s.vars) (h c)))

step-IsOwned :
    (max : ℕ) (o : Operation) (s : Program) → 0 < max → IsOwned s → IsOwned (step max o s)
unfolding step IsOwned references refers
step-IsOwned max new_null s l h = λ c. subst (BlockOwned s.blocks c) (omega arith) (h c)
step-IsOwned max new_owned s l h = construct_owned-IsOwned max s.blocks.next s l h
step-IsOwned max (copy_from source) s l h =
    construct_copy-IsOwned max (var_at source s.vars) s (λ c. references-var_at c source s.vars) h
step-IsOwned max (point_into owner address) s l h =
    construct_copy-IsOwned max _ s (λ c. references-var_at c owner s.vars) h
step-IsOwned max (move_from source) s l h =
    λ c. subst (BlockOwned s.blocks c) (omega (arith, release_var_counts c source s.vars)) (h c)
step-IsOwned max (assign_copy target source) s l h = elim (Bool-cases (exist target source s)) [
  | inl e ↦
      subst (λ b. IsOwned (if b then copy_assignment max target source s else s)) (sym e)
        (copy_assignment-IsOwned max target source s (exist_lem target source s e).0 h)
  | inr e ↦ subst (λ b. IsOwned (if b then copy_assignment max target source s else s)) (sym e) h
]
step-IsOwned max (assign_move target source) s l h = elim (Bool-cases (exist target source s)) [
  | inl e ↦
      let (inside, inside') = exist_lem target source s e in
      subst (λ b. IsOwned (if b then move_assignment target source s else s)) (sym e)
        (move_assignment-IsOwned target source s inside inside' h)
  | inr e ↦ subst (λ b. IsOwned (if b then move_assignment target source s else s)) (sym e) h
]
step-IsOwned max (destroy target) s l h = release_var-IsOwned target s h

initial-IsOwned : IsOwned initial
unfolding IsOwned BlockOwned references times_freed
initial-IsOwned c = inr (inr (refl, refl, omega arith, refl))

run-IsOwned_from :
    (max : ℕ) (os : List Operation) (s : Program) → 0 < max → IsOwned s → IsOwned (run max os s)
unfolding run
run-IsOwned_from max [] s l h = h
run-IsOwned_from max (o ∷ os) s l h =
    run-IsOwned_from max os (step max o s) l (step-IsOwned max o s l h)

-- After any operations on pointers, a block of memory is allocated exactly while a pointer refers to it,
-- its reference count is the number of these pointers, and it was freed once if it was allocated before
-- and is not any more.
pub run-IsOwned : (max : ℕ) (os : List Operation) → 0 < max → IsOwned (run max os initial)
run-IsOwned max os l = run-IsOwned_from max os initial l initial-IsOwned

swapped_null :
    (max i : ℕ) (vars : List UnrealPointer) (b : Blocks)
    → i < length vars
    → var_at i vars ≡ null_pointer
    → (var_at i (swap_temporary i (var_at i vars) vars b (attach max (var_at i vars) b)).vars
        ≡ null_pointer)
      × ((swap_temporary i (var_at i vars) vars b (attach max (var_at i vars) b)).blocks ≡ b)
unfolding swap_temporary attach release
swapped_null max i vars b l null =
    subst
      (λ q.
        (var_at i (swap_temporary i q vars b (attach max q b)).vars ≡ null_pointer)
        × ((swap_temporary i q vars b (attach max q b)).blocks ≡ b))
      (sym null)
      (
        var_at-set_var i i null_pointer vars l ∙ ground arith,
        subst (λ q. release q b ≡ b) (sym null) refl,
      )

-- An assignment of a pointer to itself makes it a null pointer, and frees the block if there is no other
-- pointer to it.
pub copy_assignment_self :
    (max i : ℕ) (s : Program)
    → i < length s.vars
    → (var_at i (step max (assign_copy i i) s).vars ≡ null_pointer)
      × ((step max (assign_copy i i) s).blocks ≡ release (var_at i s.vars) s.blocks)
unfolding step exist copy_assignment release_var
copy_assignment_self max i s l =
    let vars = set_var i null_pointer s.vars in
    let b = release (var_at i s.vars) s.blocks in
    let null : var_at i vars ≡ null_pointer =
      var_at-set_var i i null_pointer s.vars l ∙ ground arith in
    let (empty, same) =
      swapped_null max i vars b (omega (arith, length-set_var i null_pointer s.vars)) null in
    (ground (arith, empty), ground (arith, same))
