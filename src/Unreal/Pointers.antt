-- ===== src/Unreal/Pointers.antt =====
-- unreal/wrappers/unreal_pointer.h, unreal_pointer_funcs.h and unreal_pointer.cpp: the pointers that
-- count the references to a block of the engine's memory. The variables that hold pointers are a list, and
-- one that was destroyed stays there as a null pointer.
pub mod Counts
pub mod Lifetimes
pub mod Ownership
mod Tests
use unrealsdk.Base.{
  ℕ, zero, suc, ◌+◌, ◌-◌, ◌≡◌, Bool, true, false, if◌then◌else◌, ◌==◌, ltb, ◌&&◌, Option, none,
  some, List, [], ◌∷◌, length, get_elem?,
}

-- A null control block or a null address is none. A control block is known by its number.
pub record UnrealPointer : Type 0 where
  pub control : Option ℕ
  pub ptr : Option ℕ

abbrev pub null_pointer : UnrealPointer
null_pointer = record { control = none; ptr = none }

-- The reference counts, which blocks are allocated, the number of the next block, and the blocks that
-- were destroyed and freed, the last one first.
pub record Blocks : Type 0 where
  pub refs : ℕ → ℕ
  pub live : ℕ → Bool
  pub next : ℕ
  pub freed : List ℕ

unfoldable pub set_refs : ℕ → ℕ → Blocks → Blocks
set_refs c n b = record b { refs = λ d. if d == c then n else b.refs d }

unfoldable pub free_block : ℕ → Blocks → Blocks
free_block c b = record b { live = λ d. if d == c then false else b.live d; freed = c ∷ b.freed }

unfoldable pub inc_ref : ℕ → ℕ → Option ℕ
inc_ref max refs = if refs == max then none else some (refs + 1)

unfoldable pub dec_ref : ℕ → Option ℕ
dec_ref refs = if refs == 0 then none else some (refs - 1)

-- `release`: an exception in `dec_ref` leaves the block as it is, and a count of 0 frees it.
unfoldable pub release : UnrealPointer → Blocks → Blocks
release p b = elim p.control [
  | none ↦ b
  | some c ↦ elim (dec_ref (b.refs c)) [
    | none ↦ b
    | some n ↦ if n == 0 then free_block c (set_refs c n b) else set_refs c n b
  ]
]

-- `attach`, or none where `inc_ref` throws.
unfoldable pub attach : ℕ → UnrealPointer → Blocks → Option Blocks
attach max p b = elim p.control [
  | none ↦ some b
  | some c ↦ elim (inc_ref max (b.refs c)) [ none ↦ none | some n ↦ some (set_refs c n b) ]
]

-- A block of memory for a new control block, whose reference count is 0.
unfoldable pub new_control : Blocks → Blocks
new_control b = record {
  refs = λ d. if d == b.next then 0 else b.refs d;
  live = λ d. if d == b.next then true else b.live d;
  next = b.next + 1;
  freed = b.freed;
}

pub record Program : Type 0 where
  pub blocks : Blocks
  pub vars : List UnrealPointer

unfoldable pub set_var : ℕ → UnrealPointer → List UnrealPointer → List UnrealPointer
set_var i p [] = []
set_var zero p (q ∷ vars) = p ∷ vars
set_var (suc i) p (q ∷ vars) = q ∷ set_var i p vars

unfoldable pub var_at : ℕ → List UnrealPointer → UnrealPointer
var_at i [] = null_pointer
var_at zero (q ∷ vars) = q
var_at (suc i) (q ∷ vars) = var_at i vars

-- What is done with a pointer.
pub data Operation : Type 0 where
  new_null : Operation
  new_owned : Operation
  copy_from : (source : ℕ) → Operation
  point_into : (owner address : ℕ) → Operation
  move_from : (source : ℕ) → Operation
  assign_copy : (target source : ℕ) → Operation
  assign_move : (target source : ℕ) → Operation
  destroy : (target : ℕ) → Operation

-- `release` on a variable, which is a null pointer afterwards.
unfoldable pub release_var : ℕ → Program → Program
release_var i s = record {
  blocks = release (var_at i s.vars) s.blocks;
  vars = set_var i null_pointer s.vars;
}

unfoldable pub move_assignment : ℕ → ℕ → Program → Program
move_assignment target source s = record {
  blocks = s.blocks;
  vars = set_var source (var_at target s.vars) (set_var target (var_at source s.vars) s.vars);
}

-- A constructor makes no pointer where `inc_ref` throws.
unfoldable pub construct : UnrealPointer → List UnrealPointer → Blocks → Option Blocks → Program
construct p vars b none = record { blocks = b; vars = vars }
construct p vars b (some b') = record { blocks = b'; vars = p ∷ vars }

-- The copy of an assignment is a temporary, which is swapped with the variable, a null pointer.
unfoldable pub swap_temporary :
    ℕ → UnrealPointer → List UnrealPointer → Blocks → Option Blocks → Program
swap_temporary target p vars b none = record { blocks = b; vars = vars }
swap_temporary target p vars b (some b') = record {
  blocks = release (var_at target vars) b';
  vars = set_var target p vars;
}

-- An operation on a variable that does not exist does nothing.
unfoldable pub exist : ℕ → ℕ → Program → Bool
exist i j s = ltb i (length s.vars) && ltb j (length s.vars)

-- `max` is the largest `size_t`.
module _ (max : ℕ) where
  unfoldable pub construct_copy : UnrealPointer → Program → Program
  construct_copy p s = construct p s.vars s.blocks (attach max p s.blocks)

  -- The constructor for a new block, whose address follows the control block.
  unfoldable pub construct_owned : ℕ → Program → Program
  construct_owned address s =
      construct_copy (record { control = some s.blocks.next; ptr = some address })
        (record s { blocks = new_control s.blocks })

  unfoldable pub copy_assignment : ℕ → ℕ → Program → Program
  copy_assignment target source s =
      let released = release_var target s in
      let p = var_at source released.vars in
      swap_temporary target p released.vars released.blocks (attach max p released.blocks)

  unfoldable pub step : Operation → Program → Program
  step new_null s = record s { vars = null_pointer ∷ s.vars }
  step new_owned s = construct_owned s.blocks.next s
  step (copy_from source) s = construct_copy (var_at source s.vars) s
  step (point_into owner address) s =
      construct_copy (record { control = (var_at owner s.vars).control; ptr = some address }) s
  step (move_from source) s = record s {
    vars = var_at source s.vars ∷ set_var source null_pointer s.vars;
  }
  step (assign_copy target source) s =
      if exist target source s then copy_assignment target source s else s
  step (assign_move target source) s =
      if exist target source s then move_assignment target source s else s
  step (destroy target) s = release_var target s

  unfoldable pub run : List Operation → Program → Program
  run [] s = s
  run (o ∷ os) s = run os (step o s)

-- No pointer and no block.
abbrev pub initial : Program
initial = record {
  blocks = record { refs = λ c. 0; live = λ c. false; next = 0; freed = [] };
  vars = [];
}
