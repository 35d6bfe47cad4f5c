-- ===== src/Process/Once.antt =====
-- src/unrealsdk/unrealsdk_main.cpp, `init`: the library is initialized at most once.
use unrealsdk.Base.{
  ◌∙◌, Bool-cases, Option-cases, ℕ, suc, ◌≡◌, refl, sym, ap, subst, true, none, some, inl, inr, ◌⊎◌,
  List, [], ◌∷◌, arith,
}
use unrealsdk.Process.{
  Library, Answers, InitResult, initialized, already_initialized, thrown, first_init, hook_game,
  with_events, hook_game, first_init, init, is_initialized, init_all, unloaded, with_events,
}

-- How many of the calls initialized the library.
unfoldable pub successes : List InitResult → ℕ
successes [] = 0
successes (initialized ∷ results) = suc (successes results)
successes (already_initialized ∷ results) = successes results
successes (thrown ∷ results) = successes results

already :
    (a : Answers) (s : Library) (game : ℕ)
    → s.hook_instance ≡ some game
    → init a s ≡ (s, already_initialized)
unfolding init
already a s game e = ground (arith, e)

-- The game was hooked: later calls change nothing.
init_hooked :
    (answers : List Answers) (s : Library) (game : ℕ)
    → s.hook_instance ≡ some game
    → (successes (init_all answers s).1 ≡ 0) × ((init_all answers s).0 ≡ s)
unfolding init_all successes init
init_hooked [] s game e = (refl, refl)
init_hooked (a ∷ answers) s game e =
    subst {A = Library × InitResult}
      (λ r. (successes (r.1 ∷ (init_all answers r.0).1) ≡ 0) × ((init_all answers r.0).0 ≡ s))
      (sym (already a s game e)) (init_hooked answers s game e)

-- At most one call initialized the library, and if one did, it is initialized.
Once : Library × List InitResult → Type 0
Once r = (successes r.1 ≡ 0) ⊎ ((successes r.1 ≡ 1) × (is_initialized r.0 ≡ true))

hooked_then :
    (s : Library) (game : ℕ) (result : InitResult) (answers : List Answers)
    → s.hook_instance ≡ some game
    → Once ((init_all answers s).0, result ∷ (init_all answers s).1)
unfolding Once successes is_initialized
hooked_then s game initialized answers e =
    let (no_more, same) = init_hooked answers s game e in
    inr (ap suc no_more, ap is_initialized same ∙ ground (arith, e))
hooked_then s game already_initialized answers e = inl (init_hooked answers s game e).0
hooked_then s game thrown answers e = inl (init_hooked answers s game e).0

-- The first call either throws before a game is hooked, or hooks one.
init-cases :
    (a : Answers) (s : Library)
    → s.hook_instance ≡ none
    → (((init a s).1 ≡ thrown) × ((init a s).0.hook_instance ≡ none))
      ⊎ ((game : ℕ) × ((init a s).0.hook_instance ≡ some game))
unfolding init first_init hook_game with_events
init-cases a s e = elim (Bool-cases a.minhook_ok) [
  | inr m ↦ inl (ground (arith, e, m), ground (arith, e, m))
  | inl m ↦ elim (Option-cases a.game) [
    | inl g ↦ inl (ground (arith, e, m, g), ground (arith, e, m, g))
    | inr (game, g) ↦ elim (Bool-cases a.hook_returns) [
      | inr h ↦ inl (ground (arith, e, m, g, h), ground (arith, e, m, g, h))
      | inl h ↦ inr (game, ground (arith, e, m, g, h))
    ]
  ]
]

from_unhooked :
    (answers : List Answers) (s : Library) → s.hook_instance ≡ none → Once (init_all answers s)
unfolding init_all successes Once
from_unhooked [] s e = inl refl
from_unhooked (a ∷ answers) s e =
    let after = (init a s).0 in
    elim (init-cases a s e) [
      | inl (t, n) ↦
          subst (λ result. Once ((init_all answers after).0, result ∷ (init_all answers after).1))
            (sym t) (from_unhooked answers after n)
      | inr (game, h) ↦ hooked_then after game (init a s).1 answers h
    ]

-- Of any calls of `init`, whatever MinHook, the choice of the game and its hooks answer in each, at most
-- one initializes the library, and it stays initialized after that one.
pub init_all_once :
    (answers : List Answers)
    → (successes (init_all answers unloaded).1 ≡ 0)
      ⊎ ((successes (init_all answers unloaded).1 ≡ 1)
          × (is_initialized (init_all answers unloaded).0 ≡ true))
unfolding Once
init_all_once answers = from_unhooked answers unloaded refl
