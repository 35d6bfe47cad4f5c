-- ===== src/Unreal/Pointers/Lifetimes.antt =====
-- unreal/wrappers/unreal_pointer.h: the state of one block of memory, and how a reference changes it.
use unrealsdk.Base.{
  ℕ, ◌+◌, ◌<◌, ◌≤◌, ◌≡◌, ◌≢◌, sym, subst, true, false, if◌then◌else◌, ◌==◌, none, some, List, [],
  ◌∷◌, arith, ℕ_discrete, Bool-cases, Option-cases, inl, inr, ◌⊎◌,
}
use unrealsdk.Unreal.Pointers.{
  UnrealPointer, Blocks, set_refs, free_block, inc_ref, dec_ref, release, attach, new_control,
  Program,
}
use unrealsdk.Unreal.Pointers.Counts.{refers, references}

-- How often a block was freed.
unfoldable pub times_freed : ℕ → List ℕ → ℕ
times_freed c [] = 0
times_freed c (d ∷ freed) = (if d == c then 1 else 0) + times_freed c freed

-- The state of one block, with `n` references to it: it is allocated, and counts the references, or it
-- is freed, or was not allocated yet, and there are none.
unfoldable pub BlockOwned : Blocks → ℕ → ℕ → Type 0
BlockOwned b c n =
    ((b.live c ≡ true) × (c < b.next) × (b.refs c ≡ n) × (0 < n) × (times_freed c b.freed ≡ 0))
    ⊎ ((b.live c ≡ false) × (n ≡ 0) × (c < b.next) × (times_freed c b.freed ≡ 1))
    ⊎ ((b.live c ≡ false) × (n ≡ 0) × (b.next ≤ c) × (times_freed c b.freed ≡ 0))

unfoldable pub IsOwned : Program → Type 0
IsOwned s = (c : ℕ) → BlockOwned s.blocks c (references c s.vars)

-- The state of a block after the release of a pointer to another block, and to this one.
release_other :
    (p : UnrealPointer) (b : Blocks) (c d n : ℕ)
    → p.control ≡ some d
    → d ≢ c
    → BlockOwned b c n
    → BlockOwned (release p b) c n
unfolding BlockOwned release dec_ref set_refs free_block times_freed
release_other p b c d n e other (inl (alive, l, counted, some_refs, never)) =
    inl (ground arith, ground arith, ground arith, some_refs, ground arith)
release_other p b c d n e other (inr (inl (dead, zero_refs, l, once))) =
    inr (inl (ground arith, zero_refs, ground arith, ground arith))
release_other p b c d n e other (inr (inr (dead, zero_refs, l, never))) =
    inr (inr (ground arith, zero_refs, ground arith, ground arith))

release_same :
    (p : UnrealPointer) (b : Blocks) (c n : ℕ)
    → p.control ≡ some c
    → BlockOwned b c (n + 1)
    → BlockOwned (release p b) c n
unfolding BlockOwned release dec_ref set_refs free_block times_freed
release_same p b c n e (inl (alive, l, counted, some_refs, never)) = elim (ℕ_discrete n 0) [
  | yes last ↦ inr (inl (ground arith, last, ground arith, ground arith))
  | no more ↦ inl (ground arith, ground arith, ground arith, omega arith, ground arith)
]
release_same p b c n e (inr (inl (dead, zero_refs, l, once))) = absurd (omega arith)
release_same p b c n e (inr (inr (dead, zero_refs, l, never))) = absurd (omega arith)

pub release-BlockOwned :
    (p : UnrealPointer) (b : Blocks) (c n : ℕ)
    → BlockOwned b c (n + refers c p)
    → BlockOwned (release p b) c n
unfolding release refers
release-BlockOwned p b c n h = elim (Option-cases p.control) [
  | inl e ↦
      subst (λ b'. BlockOwned b' c n) (ground (arith, e))
        (subst (λ m. BlockOwned b c m) (ground (arith, e)) h)
  | inr (d, e) ↦ elim (ℕ_discrete d c) [
    | yes same ↦
        release_same p b c n (ground (arith, e))
          (subst (λ m. BlockOwned b c m) (ground (arith, e)) h)
    | no other ↦
        release_other p b c d n e other (subst (λ m. BlockOwned b c m) (ground (arith, e)) h)
  ]
]

attach_null :
    (max : ℕ) (p : UnrealPointer) (b b' : Blocks)
    → p.control ≡ none
    → attach max p b ≡ some b'
    → b ≡ b'
unfolding attach
attach_null max p b b' at e = ground (arith, at)

attach_owned :
    (max : ℕ) (p : UnrealPointer) (b b' : Blocks) (d : ℕ)
    → p.control ≡ some d
    → attach max p b ≡ some b'
    → set_refs d (b.refs d + 1) b ≡ b'
unfolding attach inc_ref
attach_owned max p b b' d at e = elim (Bool-cases (b.refs d == max)) [
  | inl full ↦ absurd (ground (arith, at))
  | inr room ↦ ground (arith, at)
]

attach_same :
    (b : Blocks) (c n : ℕ)
    → 0 < n
    → BlockOwned b c n
    → BlockOwned (set_refs c (b.refs c + 1) b) c (n + 1)
unfolding BlockOwned set_refs
attach_same b c n l (inl (alive, u, counted, some_refs, never)) =
    inl (alive, u, ground arith, omega arith, never)
attach_same b c n l (inr (inl (dead, zero_refs, u, once))) = absurd (omega arith)
attach_same b c n l (inr (inr (dead, zero_refs, u, never))) = absurd (omega arith)

attach_other :
    (b : Blocks) (c d m n : ℕ) → d ≢ c → BlockOwned b c n → BlockOwned (set_refs d m b) c n
unfolding BlockOwned set_refs
attach_other b c d m n other (inl (alive, u, counted, some_refs, never)) =
    inl (alive, u, ground arith, some_refs, never)
attach_other b c d m n other (inr h) = inr h

pub attach-BlockOwned :
    (max : ℕ) (p : UnrealPointer) (b b' : Blocks) (c n : ℕ)
    → refers c p ≤ n
    → attach max p b ≡ some b'
    → BlockOwned b c n
    → BlockOwned b' c (n + refers c p)
unfolding refers
attach-BlockOwned max p b b' c n l e h = elim (Option-cases p.control) [
  | inl at ↦
      subst (λ x. BlockOwned x c (n + refers c p)) (attach_null max p b b' at e)
        (subst (BlockOwned b c) (ground (arith, at)) h)
  | inr (d, at) ↦
      subst (λ x. BlockOwned x c (n + refers c p)) (attach_owned max p b b' d at e)
        (elim (ℕ_discrete d c) [
          | yes same ↦
              let counted : n + 1 ≡ n + refers c p = ground (arith, at) in
              subst (BlockOwned _ c) counted (
                subst (λ k. BlockOwned (set_refs k (b.refs k + 1) b) c (n + 1)) (sym same)
                  (attach_same b c n (omega arith) h))
          | no other ↦
              subst (BlockOwned _ c) (ground (arith, at))
                (attach_other b c d (b.refs d + 1) n other h)
        ])
]

pub new_control-BlockOwned :
    (b : Blocks) (c n : ℕ)
    → BlockOwned b c n
    → BlockOwned (set_refs b.next 1 (new_control b)) c (n + (if b.next == c then 1 else 0))
unfolding BlockOwned new_control set_refs
new_control-BlockOwned b c n (inl (alive, u, counted, some_refs, never)) =
    inl (ground arith, omega arith, ground arith, ground arith, never)
new_control-BlockOwned b c n (inr (inl (dead, zero_refs, u, once))) =
    inr (inl (ground arith, ground arith, omega arith, once))
new_control-BlockOwned b c n (inr (inr (dead, zero_refs, u, never))) = elim (ℕ_discrete b.next c) [
  | yes same ↦ inl (ground arith, omega arith, ground arith, ground arith, never)
  | no other ↦ inr (inr (ground arith, ground arith, omega arith, never))
]

attach_at :
    (max : ℕ) (p : UnrealPointer) (b : Blocks) (c n : ℕ)
    → p.control ≡ some c
    → b.refs c ≡ n
    → n ≢ max
    → attach max p b ≡ some (set_refs c (n + 1) b)
unfolding attach inc_ref
attach_at max p b c n e counted room = ground arith

pub attach_new :
    (max : ℕ) (p : UnrealPointer) (b : Blocks)
    → 0 < max
    → p.control ≡ some b.next
    → attach max p (new_control b) ≡ some (set_refs b.next 1 (new_control b))
unfolding new_control
attach_new max p b l e =
    attach_at max p (new_control b) b.next 0 e (ground arith) (λ same. absurd (omega arith))
