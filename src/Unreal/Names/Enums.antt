-- ===== src/Unreal/Names/Enums.antt =====
-- unreal/classes/uenum.cpp: the names of an enum's values.
use unrealsdk.Base.{
  ℕ, ◌≡◌, ◌≢◌, refl, sym, ap, ◌∙◌, subst, Option, none, some, inl, inr, List, [], ◌∷◌, ◌++◌, map,
  Wide, wide_discrete, ite, lookup, lookup-assign, arith, Option-cases,
}
use unrealsdk.Unreal.Names.{from_colon, skip_colons, stripped, emplace, get_names_from, get_names}

unfoldable pub NoColon : Wide → Type 0
NoColon [] = Unit
NoColon (c ∷ cs) = (c ≢ b':') × NoColon cs

-- A name of a value: it is not empty, and does not start with a colon.
unfoldable pub IsValueName : Wide → Type 0
IsValueName [] = ⊥
IsValueName (c ∷ cs) = c ≢ b':'

-- The key that the engine stores: the enum's name, two colons, and the value's.
abbrev pub qualified : Wide → Wide → Wide
qualified enum name = enum ++ (b':' ∷ b':' ∷ name)

from_colon-qualified :
    (enum name : Wide) → NoColon enum → from_colon (qualified enum name) ≡ some (b':' ∷ b':' ∷ name)
unfolding from_colon NoColon
from_colon-qualified [] name h = refl
from_colon-qualified (c ∷ cs) name (other, h) = ground (arith, from_colon-qualified cs name h)

skip_colons-name : (name : Wide) → IsValueName name → skip_colons (b':' ∷ b':' ∷ name) ≡ some name
unfolding skip_colons IsValueName
skip_colons-name [] h = absurd h
skip_colons-name (c ∷ cs) other = ground arith

stripped-qualified :
    (enum name : Wide) → NoColon enum → IsValueName name → stripped (qualified enum name) ≡ name
unfolding stripped
stripped-qualified enum name h v =
    let first = from_colon-qualified enum name h in
    let rest = skip_colons-name name v in ground arith

unfoldable pub or_else : Option ℕ → Option ℕ → Option ℕ
or_else none o = o
or_else (some v) o = some v

or_else-none : (o : Option ℕ) → or_else o none ≡ o
unfolding or_else
or_else-none none = refl
or_else-none (some v) = refl

or_else_assoc : (a b c : Option ℕ) → or_else (or_else a b) c ≡ or_else a (or_else b c)
unfolding or_else
or_else_assoc none b c = refl
or_else_assoc (some v) b c = refl

-- A key that is there keeps its value, and one that is not has the new value.
lookup-emplace :
    (j k : Wide) (v : ℕ) (m : List (Wide × ℕ))
    → lookup j (emplace k v m) ≡ or_else (lookup j m) (ite (wide_discrete k j) (some v) none)
unfolding emplace or_else
lookup-emplace j k v m = elim (Option-cases (lookup k m)) [
  | inl e ↦ elim (wide_discrete k j) [
    | yes same ↦
        let there : lookup j m ≡ none = subst (λ x. lookup x m ≡ none) same e in
        let new = lookup-assign k j v m in ground (arith, e)
    | no other ↦
        let new = lookup-assign k j v m in let kept = or_else-none (lookup j m) in ground (arith, e)
  ]
  | inr (u, e) ↦ elim (wide_discrete k j) [
    | yes same ↦
        let there : lookup j m ≡ some u = subst (λ x. lookup x m ≡ some u) same e in
        ground (arith, e)
    | no other ↦ let kept = or_else-none (lookup j m) in ground (arith, e)
  ]
]

either :
    {P : Type 0} (d : Dec P) (v : ℕ) (o : Option ℕ)
    → or_else (ite d (some v) none) o ≡ ite d (some v) o
unfolding or_else
either (yes p) v o = refl
either (no n) v o = refl

-- The values' names, as the engine stores them for an enum.
abbrev pub stored : Wide → List (Wide × ℕ) → List (Wide × ℕ)
stored enum values = map (λ v. (qualified enum v.0, v.1)) values

unfoldable pub AllValueNames : List (Wide × ℕ) → Type 0
AllValueNames [] = Unit
AllValueNames ((name, value) ∷ values) = IsValueName name × AllValueNames values

lookup-get_names_from :
    (enum j : Wide) (values output : List (Wide × ℕ))
    → NoColon enum
    → AllValueNames values
    → lookup j (get_names_from (stored enum values) output)
      ≡ or_else (lookup j output) (lookup j values)
unfolding get_names_from AllValueNames lookup or_else
lookup-get_names_from enum j [] output h names = sym (or_else-none (lookup j output))
lookup-get_names_from enum j ((name, value) ∷ values) output h (here, names) =
    let key = stripped-qualified enum name h here in
    lookup-get_names_from enum j values (emplace (stripped (qualified enum name)) value output) h
      names
    ∙ ap (λ k. or_else (lookup j (emplace k value output)) (lookup j values)) key
    ∙ ap (λ o. or_else o (lookup j values)) (lookup-emplace j name value output)
    ∙ or_else_assoc (lookup j output) _ (lookup j values)
    ∙ ap (or_else (lookup j output)) (either (wide_discrete name j) value (lookup j values))

-- The names of an enum's values, which the engine stores behind the enum's name and two colons, are found
-- without these, each with its value, or with the first one if a name is there twice.
pub lookup-get_names :
    (enum j : Wide) (values : List (Wide × ℕ))
    → NoColon enum
    → AllValueNames values
    → lookup j (get_names (stored enum values)) ≡ lookup j values
unfolding get_names lookup or_else
lookup-get_names enum j values h names = lookup-get_names_from enum j values [] h names
