-- ===== src/Games/Selector.antt =====
-- game/selector.cpp, and `matches_executable` of each game's header: the first game that matches the
-- executable.
use unrealsdk.Base.{
  ◌≡◌, refl, sym, subst, Bool, true, false, ◌||◌, if◌then◌else◌, Option, none, some, inl, inr, ◌⊎◌,
  List, [], ◌∷◌, ◌++◌, Wide, wide_discrete, ite, take, length, ℕ_discrete, arith,
}

pub data Game : Type 0 where
  bl1 : Game
  bl1e : Game
  bl2 : Game
  tps : Game
  bl3 : Game
  bl4 : Game

abbrev borderlands : Wide
borderlands = b'o' ∷ b'r' ∷ b'd' ∷ b'e' ∷ b'r' ∷ b'l' ∷ b'a' ∷ b'n' ∷ b'd' ∷ b's' ∷ []

abbrev exe : Wide
exe = b'.' ∷ b'e' ∷ b'x' ∷ b'e' ∷ []

abbrev pub bl1_exe : Wide
bl1_exe = b'B' ∷ (borderlands ++ exe)

abbrev pub bl1_lower_exe : Wide
bl1_lower_exe = b'b' ∷ (borderlands ++ exe)

abbrev pub bl1e_exe : Wide
bl1e_exe = b'B' ∷ (borderlands ++ (b'G' ∷ b'O' ∷ b'T' ∷ b'Y' ∷ exe))

abbrev pub bl2_exe : Wide
bl2_exe = b'B' ∷ (borderlands ++ (b'2' ∷ exe))

abbrev pub tina_exe : Wide
tina_exe = b'T' ∷ b'i' ∷ b'n' ∷ b'y' ∷ b'T' ∷ b'i' ∷ b'n' ∷ b'a' ∷ exe

abbrev pub tps_exe : Wide
tps_exe =
    b'B' ∷ (borderlands ++ (b'P' ∷ b'r' ∷ b'e' ∷ b'S' ∷ b'e' ∷ b'q' ∷ b'u' ∷ b'e' ∷ b'l' ∷ exe))

abbrev pub bl3_exe : Wide
bl3_exe = b'B' ∷ (borderlands ++ (b'3' ∷ exe))

abbrev pub wonderlands_exe : Wide
wonderlands_exe = b'W' ∷ b'o' ∷ b'n' ∷ b'd' ∷ b'e' ∷ b'r' ∷ b'l' ∷ b'a' ∷ b'n' ∷ b'd' ∷ b's' ∷ exe

abbrev pub bl4_exe : Wide
bl4_exe = b'B' ∷ (borderlands ++ (b'4' ∷ exe))

unfoldable pub is : Wide → Wide → Bool
is a b = ite (wide_discrete a b) true false

unfoldable pub starts_with : Wide → Wide → Bool
starts_with text prefix = is (take (length prefix) text) prefix

unfoldable pub bl1_matches : Wide → Bool
bl1_matches name = starts_with name bl1_exe || starts_with name bl1_lower_exe

unfoldable pub bl1e_matches : Wide → Bool
bl1e_matches name = starts_with name bl1e_exe

unfoldable pub bl2_matches : Wide → Bool
bl2_matches name = is name bl2_exe || is name tina_exe

unfoldable pub tps_matches : Wide → Bool
tps_matches name = is name tps_exe

unfoldable pub bl3_matches : Wide → Bool
bl3_matches name = is name bl3_exe || is name wonderlands_exe

unfoldable pub bl4_matches : Wide → Bool
bl4_matches name = is name bl4_exe

unfoldable pub matches_executable : Game → Wide → Bool
matches_executable bl1 name = bl1_matches name
matches_executable bl1e name = bl1e_matches name
matches_executable bl2 name = bl2_matches name
matches_executable tps name = tps_matches name
matches_executable bl3 name = bl3_matches name
matches_executable bl4 name = bl4_matches name

-- The flavours that the library is built for.
pub data Flavour : Type 0 where
  willow_32_bit : Flavour
  willow_64_bit : Flavour
  oak : Flavour
  oak2 : Flavour

unfoldable pub all_known_games : Flavour → List Game
all_known_games willow_32_bit = bl1 ∷ bl2 ∷ tps ∷ []
all_known_games willow_64_bit = bl1e ∷ []
all_known_games oak = bl3 ∷ []
all_known_games oak2 = bl4 ∷ []

-- `find_correct_hook` from the games that are left, or none where it throws.
unfoldable pub find_correct_hook : List Game → Wide → Option Game
find_correct_hook [] executable = none
find_correct_hook (g ∷ games) executable =
    let rest = find_correct_hook games executable in
    if matches_executable g executable then some g else rest

unfoldable pub value_or : Option Wide → Wide → Wide
value_or none default = default
value_or (some value) default = value

-- The setting `unrealsdk.exe_override`, or the name of the running executable.
unfoldable pub select_based_on_executable : Flavour → Option Wide → Wide → Option Game
select_based_on_executable flavour exe_override executable =
    find_correct_hook (all_known_games flavour) (value_or exe_override executable)

unfoldable pub Known : Game → List Game → Type 0
Known g [] = ⊥
Known g (h ∷ games) = (g ≡ h) ⊎ Known g games

is_sound : (a b : Wide) → is a b ≡ true → a ≡ b
unfolding is
is_sound a b e = elim (wide_discrete a b) [ yes same ↦ same | no other ↦ absurd (ground arith) ]

or_cases : (a b : Bool) → (a || b) ≡ true → (a ≡ true) ⊎ (b ≡ true)
or_cases true b e = inl refl
or_cases false b e = inr e

-- The other games of the 32-bit build do not match the executables of BL2 and TPS.
bl2_only :
    (name : Wide)
    → bl2_matches name ≡ true
    → (bl1_matches name ≡ false) × (tps_matches name ≡ false)
unfolding bl2_matches bl1_matches tps_matches is starts_with wide_discrete ℕ_discrete
bl2_only name e = elim (or_cases _ _ e) [
  | inl at ↦
      subst (λ n. (bl1_matches n ≡ false) × (tps_matches n ≡ false))
        (sym (is_sound name bl2_exe at)) (refl, refl)
  | inr at ↦
      subst (λ n. (bl1_matches n ≡ false) × (tps_matches n ≡ false))
        (sym (is_sound name tina_exe at)) (refl, refl)
]

tps_only :
    (name : Wide)
    → tps_matches name ≡ true
    → (bl1_matches name ≡ false) × (bl2_matches name ≡ false)
unfolding bl2_matches bl1_matches tps_matches is starts_with wide_discrete ℕ_discrete
tps_only name e =
    subst (λ n. (bl1_matches n ≡ false) × (bl2_matches n ≡ false)) (sym (is_sound name tps_exe e))
      (refl, refl)

find_correct_hook_unique :
    (flavour : Flavour) (name : Wide) (g : Game)
    → Known g (all_known_games flavour)
    → matches_executable g name ≡ true
    → find_correct_hook (all_known_games flavour) name ≡ some g
unfolding find_correct_hook all_known_games matches_executable Known
find_correct_hook_unique willow_32_bit name g (inl at) e =
    let here : bl1_matches name ≡ true = subst (λ g. matches_executable g name ≡ true) at e in
    ground (arith, at)
find_correct_hook_unique willow_32_bit name g (inr (inl at)) e =
    let here : bl2_matches name ≡ true = subst (λ g. matches_executable g name ≡ true) at e in
    let (first, other) = bl2_only name here in ground (arith, at)
find_correct_hook_unique willow_32_bit name g (inr (inr (inl at))) e =
    let here : tps_matches name ≡ true = subst (λ g. matches_executable g name ≡ true) at e in
    let (first, second) = tps_only name here in ground (arith, at)
find_correct_hook_unique willow_32_bit name g (inr (inr (inr none_at))) e = absurd none_at
find_correct_hook_unique willow_64_bit name g (inl at) e =
    let here : bl1e_matches name ≡ true = subst (λ g. matches_executable g name ≡ true) at e in
    ground (arith, at)
find_correct_hook_unique willow_64_bit name g (inr none_at) e = absurd none_at
find_correct_hook_unique oak name g (inl at) e =
    let here : bl3_matches name ≡ true = subst (λ g. matches_executable g name ≡ true) at e in
    ground (arith, at)
find_correct_hook_unique oak name g (inr none_at) e = absurd none_at
find_correct_hook_unique oak2 name g (inl at) e =
    let here : bl4_matches name ≡ true = subst (λ g. matches_executable g name ≡ true) at e in
    ground (arith, at)
find_correct_hook_unique oak2 name g (inr none_at) e = absurd none_at

-- Whichever game of the build matches the executable, or the name that overrides it, is the one that is
-- selected: no two of them match the same name.
pub select_based_on_executable_unique :
    (flavour : Flavour) (exe_override : Option Wide) (executable : Wide) (g : Game)
    → Known g (all_known_games flavour)
    → matches_executable g (value_or exe_override executable) ≡ true
    → select_based_on_executable flavour exe_override executable ≡ some g
unfolding select_based_on_executable
select_based_on_executable_unique flavour exe_override executable g known e =
    find_correct_hook_unique flavour (value_or exe_override executable) g known e
