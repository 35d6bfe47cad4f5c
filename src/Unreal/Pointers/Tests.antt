-- ===== src/Unreal/Pointers/Tests.antt =====
-- Pointers at concrete inputs.
use unrealsdk.Base.{◌≡◌, refl, some, [], ◌∷◌, ◌==◌, arith, if◌then◌else◌}
use unrealsdk.Unreal.Pointers.{
  null_pointer, set_refs, free_block, inc_ref, dec_ref, release, attach, new_control, Program,
  set_var, var_at, release_var, construct, construct_copy, construct_owned, step, run, initial,
  new_owned, copy_from, move_from, assign_copy, destroy,
}
use unrealsdk.Unreal.Pointers.Lifetimes.{IsOwned}
use unrealsdk.Unreal.Pointers.Ownership.{run-IsOwned, copy_assignment_self}

-- A block with two pointers, one of which is destroyed.
abbrev two_pointers : Program
two_pointers = run 255 (new_owned ∷ copy_from 0 ∷ destroy 0 ∷ []) initial

two_pointers_test :
    (two_pointers.blocks.refs 0 ≡ 1)
    × (two_pointers.vars ≡ null_pointer ∷ (record { control = some 0; ptr = some 0 }) ∷ [])
unfolding run step construct_owned construct_copy construct release_var set_var var_at attach
    inc_ref release dec_ref set_refs new_control
two_pointers_test = (refl, refl)

-- The last pointer is moved and destroyed.
freed_test : (run 255 (move_from 1 ∷ destroy 0 ∷ []) two_pointers).blocks.freed ≡ 0 ∷ []
unfolding run step construct_owned construct_copy construct release_var set_var var_at attach
    inc_ref release dec_ref set_refs new_control free_block
freed_test = refl

run-IsOwned_example : IsOwned (run 255 (new_owned ∷ copy_from 0 ∷ destroy 0 ∷ []) initial)
run-IsOwned_example = run-IsOwned 255 (new_owned ∷ copy_from 0 ∷ destroy 0 ∷ []) (omega arith)

abbrev one_pointer : Program
one_pointer = record {
  blocks = record { refs = λ c. if c == 0 then 1 else 0; live = λ c. c == 0; next = 1; freed = [] };
  vars = (record { control = some 0; ptr = some 0 }) ∷ [];
}

copy_assignment_self_test :
    (var_at 0 (step 255 (assign_copy 0 0) one_pointer).vars ≡ null_pointer)
    × ((step 255 (assign_copy 0 0) one_pointer).blocks
        ≡ release (var_at 0 one_pointer.vars) one_pointer.blocks)
copy_assignment_self_test = copy_assignment_self 255 0 one_pointer (omega arith)
