-- ===== src/Process/Locks.antt =====
-- src/unrealsdk/locks.cpp: the scopes in which a thread holds the lock on function calls, or on the loading
-- of packages, over a recursive mutex. Whether the locks are enabled is read once.
use mathlib.Core.Option.{some-injective}
use unrealsdk.Base.{
  ◌⊎◌, ℕ, ◌+◌, ◌-◌, ◌<◌, ◌≡◌, ◌≢◌, refl, sym, ◌∙◌, subst, Bool, true, false, if◌then◌else◌, ◌==◌,
  Option, none, some, arith, Bool-cases, Option-cases, inl, inr,
}

-- The depth is 0 while no thread holds the mutex.
pub record RecursiveMutex : Type 0 where
  pub owner : ℕ
  pub depth : ℕ

-- `lock`, or none where the thread waits.
unfoldable pub lock : ℕ → RecursiveMutex → Option RecursiveMutex
lock t m =
    if m.depth == 0
    then some (record { owner = t; depth = 1 })
    else if m.owner == t
    then some (record { owner = t; depth = m.depth + 1 })
    else none

unfoldable pub unlock : RecursiveMutex → RecursiveMutex
unlock m = record { owner = m.owner; depth = m.depth - 1 }

-- The mutex, and how many of the scopes each thread is in.
pub record Locks : Type 0 where
  pub mutex : RecursiveMutex
  pub scopes : ℕ → ℕ

abbrev pub no_scopes : Locks
no_scopes = record { mutex = record { owner = 0; depth = 0 }; scopes = λ t. 0 }

unfoldable pub in_scope : ℕ → Locks → RecursiveMutex → Locks
in_scope t s m = record { mutex = m; scopes = λ u. if u == t then s.scopes t + 1 else s.scopes u }

module _ (enabled : Bool) where
  -- The constructor of a scope, or none where the thread waits.
  unfoldable pub enter : ℕ → Locks → Option Locks
  enter t s =
      if enabled
      then elim (lock t s.mutex) [ none ↦ none | some m ↦ some (in_scope t s m) ]
      else some (in_scope t s s.mutex)

  -- The destructor.
  unfoldable pub leave : ℕ → Locks → Locks
  leave t s = record {
    mutex = if enabled then unlock s.mutex else s.mutex;
    scopes = λ u. if u == t then s.scopes t - 1 else s.scopes u;
  }

  -- What threads do: one enters a scope, or leaves one that it is in.
  pub data Step : Locks → Locks → Type 0 where
    enters : (t : ℕ) (s s' : Locks) → enter t s ≡ some s' → Step s s'
    leaves : (t : ℕ) (s : Locks) → 0 < s.scopes t → Step s (leave t s)

  pub data Reaches : Locks → Locks → Type 0 where
    start : (s : Locks) → Reaches s s
    next : (s s' s'' : Locks) → Reaches s s' → Step s' s'' → Reaches s s''

-- The owner is in as many scopes as the mutex is deep, and no other thread is in one.
unfoldable pub IsHeld : Locks → Type 0
IsHeld s = (t : ℕ) → s.scopes t ≡ (if t == s.mutex.owner then s.mutex.depth else 0)

-- The lock goes to a thread when it is free or the thread's own.
Locked : ℕ → RecursiveMutex → RecursiveMutex → Type 0
Locked t m n = (n.owner ≡ t) × (n.depth ≡ m.depth + 1) × ((m.depth ≡ 0) ⊎ (m.owner ≡ t))

lock_free :
    (t : ℕ) (m : RecursiveMutex)
    → m.depth == 0 ≡ true
    → lock t m ≡ some (record { owner = t; depth = 1 })
unfolding lock
lock_free t m e = ground (arith, e)

lock_own :
    (t : ℕ) (m : RecursiveMutex)
    → m.depth == 0 ≡ false
    → m.owner == t ≡ true
    → lock t m ≡ some (record { owner = t; depth = m.depth + 1 })
unfolding lock
lock_own t m e o = ground (arith, e, o)

lock_waits :
    (t : ℕ) (m : RecursiveMutex) → m.depth == 0 ≡ false → m.owner == t ≡ false → lock t m ≡ none
unfolding lock
lock_waits t m e o = ground (arith, e, o)

lock-Locked : (t : ℕ) (m n : RecursiveMutex) → lock t m ≡ some n → Locked t m n
unfolding Locked
lock-Locked t m n e = elim (Bool-cases (m.depth == 0)) [
  | inl free ↦
      subst (Locked t m) (some-injective _ _ (sym (lock_free t m free) ∙ e))
        (refl, ground arith, inl (ground arith))
  | inr held ↦ elim (Bool-cases (m.owner == t)) [
    | inl own ↦
        subst (Locked t m) (some-injective _ _ (sym (lock_own t m held own) ∙ e))
          (refl, refl, inr (ground arith))
    | inr other ↦ let waits = lock_waits t m held other in absurd (ground (arith, waits, e))
  ]
]

Locked-IsHeld :
    (t : ℕ) (s : Locks) (n : RecursiveMutex)
    → IsHeld s
    → Locked t s.mutex n
    → IsHeld (in_scope t s n)
unfolding IsHeld in_scope Locked
Locked-IsHeld t s n held (owner, depth, inl free) u =
    let mine = held t in let its = held u in ground (arith, mine, its, owner, depth, free)
Locked-IsHeld t s n held (owner, depth, inr own) u =
    let mine = held t in let its = held u in ground (arith, mine, its, owner, depth, own)

enter-IsHeld : (t : ℕ) (s s' : Locks) → IsHeld s → enter true t s ≡ some s' → IsHeld s'
unfolding enter
enter-IsHeld t s s' held e = elim (Option-cases (lock t s.mutex)) [
  | inl waits ↦ absurd (ground (arith, waits, e))
  | inr (n, taken) ↦
      let entered : enter true t s ≡ some (in_scope t s n) = ground (arith, taken) in
      subst IsHeld (some-injective _ _ (sym entered ∙ e))
        (Locked-IsHeld t s n held (lock-Locked t s.mutex n taken))
]

leave-IsHeld : (t : ℕ) (s : Locks) → IsHeld s → 0 < s.scopes t → IsHeld (leave true t s)
unfolding IsHeld leave unlock
leave-IsHeld t s held l u = let mine = held t in let its = held u in ground (arith, mine, its)

Reaches-IsHeld : (s s' : Locks) → Reaches true s s' → IsHeld s → IsHeld s'
Reaches-IsHeld s s' (start _) held = held
Reaches-IsHeld s s' (next _ r _ before (enters t _ _ e)) held =
    enter-IsHeld t r s' (Reaches-IsHeld s r before held) e
Reaches-IsHeld s s' (next _ r _ before (leaves t _ l)) held =
    leave-IsHeld t r (Reaches-IsHeld s r before held) l

no_scopes-IsHeld : IsHeld no_scopes
unfolding IsHeld
no_scopes-IsHeld t = ground arith

-- While the locks are enabled, two threads are never in scopes of a lock at once, and a thread that is
-- in one enters another without waiting.
pub Reaches-exclusive :
    (s : Locks) (t u : ℕ)
    → Reaches true no_scopes s
    → 0 < s.scopes t
    → 0 < s.scopes u
    → (t ≡ u) × (enter true t s ≢ none)
unfolding IsHeld enter lock
Reaches-exclusive s t u r l m =
    let held = Reaches-IsHeld no_scopes s r no_scopes-IsHeld in
    let mine = held t in
    let its = held u in (ground (arith, mine, its), λ waits. absurd (ground (arith, mine, waits)))
