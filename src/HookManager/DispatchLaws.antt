-- ===== src/HookManager/DispatchLaws.antt =====
-- What `preprocess_hook` and `run_hooks_of_type` find and run.
use mathlib.Core.Bool.{or-true, false≢true}
use mathlib.Core.List.{foldl}
use unrealsdk.Base.{
  ℕ, ◌+◌, ◌≡◌, ◌↔◌, refl, sym, ap, subst, ◌∙◌, inl, inr, Bool-cases, Bool, true, false, not, ◌||◌,
  List, [], ◌∷◌, ◌++◌, Wide, arith,
}
use unrealsdk.HookManager.{HookType, post, post_unconditional, Hook, Node, null, node}
use unrealsdk.HookManager.Find.{find_collision, find_function, find_type, hook_list}
use unrealsdk.HookManager.Spec.{types_at, is_empty}
use unrealsdk.HookManager.Table.{get_table_index, extract_func_obj_name, hooks_at}
use unrealsdk.HookManager.Dispatch.{
  Manager, Function, preprocess_hook, has_post_hooks, Callback, state_after, blocks, caught_by,
  run_list, run_hooks_of_type,
}

module _ {ℓ} {C : Type ℓ} where
  -- `has_post_hooks` holds exactly if one of the two lists of post-hooks has an entry.
  pub has_post_hooks-is_empty :
      (n : Node C)
      → has_post_hooks n
        ≡ (not (is_empty (types_at post n)) || not (is_empty (types_at post_unconditional n)))
  unfolding has_post_hooks find_type hook_list is_empty
  has_post_hooks-is_empty null = refl
  has_post_hooks-is_empty (node h c f t k) = ground (arith, has_post_hooks-is_empty t)

  -- The node of an ordinary call has the lists of the table for that function.
  pub preprocess_hook-hooks_at :
      (make_fname : Wide → ℕ) (m : Manager C) (source obj : Wide) (func : Function)
      (type : HookType)
      → func.fname ≡ extract_func_obj_name make_fname func.path_name
      → m.should_inject_next_call ≡ false
      → (not m.should_log_all_calls || m.stream.is_open) ≡ true
      → types_at type (preprocess_hook true source func obj m).1
        ≡ hooks_at make_fname m.table func.path_name type
  unfolding preprocess_hook hooks_at
  preprocess_hook-hooks_at make_fname m source obj func type e inject log = ground arith

  -- While all calls are logged and the file is not open, `preprocess_hook` finds no hooks for any
  -- function, unless hooks on an empty path stand under its name.
  pub preprocess_hook_unlogged :
      (m : Manager C) (source obj : Wide) (func : Function)
      → m.should_log_all_calls ≡ true
      → m.stream.is_open ≡ false
      → find_function [] (find_collision func.fname (m.table (get_table_index func.fname))) ≡ null
      → (preprocess_hook true source func obj m).1 ≡ null
  unfolding preprocess_hook
  preprocess_hook_unlogged m source obj func log closed absent = ground arith

  -- An injected call skips the hooks and uses up the injection, and the next call does not.
  pub inject_once :
      (m : Manager C) (source obj : Wide) (func : Function)
      → m.should_inject_next_call ≡ true
      → let (m', n) = preprocess_hook true source func obj m in
        (n ≡ null) × (m'.should_inject_next_call ≡ false) × (m'.table ≡ m.table)
  unfolding preprocess_hook
  inject_once m source obj func e = ground arith

module _ {ℓ} {S : Type ℓ} where
  -- The state once the first hooks have run, one after the other.
  abbrev pub state_through : S → List (Hook (Callback S)) → S
  state_through = foldl λ s h. state_after (h.callback s)

  run_list_state :
      (hs : List (Hook (Callback S))) (s : S) (ret : Bool) (caught : ℕ)
      → (run_list hs s ret caught).0 ≡ state_through s hs
  unfolding run_list
  run_list_state [] s ret caught = refl
  run_list_state (h ∷ hs) s ret caught = run_list_state hs _ _ _

  -- Every hook of the type runs once, in order, whatever an earlier one returned or threw.
  pub run_hooks_of_type_state :
      (n : Node (Callback S)) (type : HookType) (s : S)
      → (run_hooks_of_type n type s).0 ≡ state_through s (types_at type n)
  unfolding run_hooks_of_type
  run_hooks_of_type_state n type s = run_list_state (types_at type n) s false 0

  -- A hook that is reached and returns true, with what stands before and behind it.
  abbrev pub Blocker : List (Hook (Callback S)) → S → Type ℓ
  Blocker hs s =
      (xs : List (Hook (Callback S))) × (h : Hook (Callback S)) × (ys : List (Hook (Callback S)))
      × (hs ≡ xs ++ h ∷ ys)
      × (blocks (h.callback (state_through s xs)) ≡ true)

  run_list-true :
      (hs : List (Hook (Callback S))) (s : S) (caught : ℕ) → (run_list hs s true caught).1 ≡ true
  unfolding run_list
  run_list-true [] s caught = refl
  run_list-true (h ∷ hs) s caught = run_list-true hs _ _

  Blocker→blocked :
      (xs ys : List (Hook (Callback S))) (h : Hook (Callback S)) (s : S) (ret : Bool) (caught : ℕ)
      → blocks (h.callback (state_through s xs)) ≡ true
      → (run_list (xs ++ h ∷ ys) s ret caught).1 ≡ true
  unfolding run_list
  Blocker→blocked [] ys h s ret caught e =
      let o = h.callback s in
      subst (λ b. (run_list ys (state_after o) b (caught + caught_by o)).1 ≡ true)
        (sym (ap (λ b. ret || b) e ∙ or-true ret))
        (run_list-true ys (state_after o) (caught + caught_by o))
  Blocker→blocked (x ∷ xs) ys h s ret caught e = Blocker→blocked xs ys h _ _ _ e

  blocked→Blocker :
      (hs : List (Hook (Callback S))) (s : S) (caught : ℕ)
      → (run_list hs s false caught).1 ≡ true
      → Blocker hs s
  unfolding run_list
  blocked→Blocker [] s caught e = absurd (false≢true e)
  blocked→Blocker (h ∷ hs) s caught e = elim (Bool-cases (blocks (h.callback s))) [
    | inl b ↦ ([], h, hs, refl, b)
    | inr b ↦
        let o = h.callback s in
        let (xs, g, ys, split, hit) =
          blocked→Blocker hs (state_after o) (caught + caught_by o)
            (subst (λ b. (run_list hs (state_after o) b (caught + caught_by o)).1 ≡ true) b e) in
        (h ∷ xs, g, ys, ap (◌∷◌ h) split, hit)
  ]

  -- The result is true exactly if some hook of the type, run in the state that its predecessors
  -- leave, returned true.
  pub run_hooks_of_type_blocks :
      (n : Node (Callback S)) (type : HookType) (s : S)
      → ((run_hooks_of_type n type s).1 ≡ true) ↔ Blocker (types_at type n) s
  unfolding run_hooks_of_type
  run_hooks_of_type_blocks n type s = (
    blocked→Blocker (types_at type n) s 0,
    λ (xs, h, ys, split, hit). rw split (Blocker→blocked xs ys h s false 0 hit),
  )
