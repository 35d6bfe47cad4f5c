-- ===== src/Unreal/Names/Lookup.antt =====
-- unreal/namedobjectcache.h and unreal/find_class.cpp: which object a name is looked up as.
use unrealsdk.Base.{
  ℕ, zero, suc, ◌<◌, ◌≡◌, ◌≢◌, refl, sym, ap, ◌∙◌, subst, Bool, if◌then◌else◌, Option, none, some,
  List, [], ◌∷◌, Wide, wide_discrete, ite, lookup, lookup-assign, arith, ℕ_discrete,
}
use unrealsdk.Unreal.Names.{
  Named, Cache, add_to_cache, find_uclass, populate, ensure_initialized, find,
}
use unrealsdk.Unreal.Names.Enums.{or_else}

module _ (is_instance : Named → ℕ → Bool) where
  -- The reference: the last object of the class that has the name.
  unfoldable pub latest : ℕ → Wide → List Named → Option ℕ
  latest cls name [] = none
  latest cls name (obj ∷ objects) = or_else (latest cls name objects) (
      if is_instance obj cls
      then ite (wide_discrete obj.object_name name) (some obj.address) none
      else none)

  added :
      (c : Bool) (obj : Named) (name : Wide) (later : Option ℕ) (cached : List (Wide × ℕ))
      → or_else later (lookup name (if c then add_to_cache obj cached else cached))
        ≡ or_else
            (or_else later (
              if c then ite (wide_discrete obj.object_name name) (some obj.address) none else none))
            (lookup name cached)
  unfolding or_else add_to_cache
  added c obj name later cached =
      let new = lookup-assign obj.object_name name obj.address cached in ground (arith, new)

  lookup-populate :
      (cls : ℕ) (name : Wide) (objects : List Named) (cached : List (Wide × ℕ))
      → lookup name (populate is_instance cls objects cached)
        ≡ or_else (latest cls name objects) (lookup name cached)
  unfolding populate latest or_else
  lookup-populate cls name [] cached = refl
  lookup-populate cls name (obj ∷ objects) cached =
      lookup-populate cls name objects _
      ∙ added (is_instance obj cls) obj name (latest cls name objects) cached

  or_else_absent : (o : Option ℕ) → or_else o none ≡ o
  unfolding or_else
  or_else_absent none = refl
  or_else_absent (some v) = refl

  abbrev filled : ℕ → List Named → Cache
  filled cls objects = record { uclass = some cls; cached = populate is_instance cls objects [] }

  abbrev after : ℕ → List Named → Cache → List (Wide × ℕ) → Cache
  after cls objects c [] = filled cls objects
  after cls objects c (e ∷ es) = c

  ensure_initialized_empty :
      (cls : ℕ) (objects : List Named) (c : Cache)
      → c.cached ≡ []
      → ensure_initialized is_instance cls objects c ≡ filled cls objects
  unfolding ensure_initialized
  ensure_initialized_empty cls objects c e =
      subst (λ l. after cls objects c l ≡ filled cls objects) (sym e) refl

  -- The first lookup finds the last object of the class that has the name, and none only if there is
  -- none.
  pub find-latest :
      (cls : ℕ) (objects : List Named) (name : Wide) (c : Cache)
      → c.cached ≡ []
      → (find is_instance cls objects name c).1 ≡ latest cls name objects
  unfolding find lookup
  find-latest cls objects name c e =
      ap (λ x. lookup name x.cached) (ensure_initialized_empty cls objects c e)
      ∙ lookup-populate cls name objects []
      ∙ or_else_absent (latest cls name objects)

-- The chain of classes ends, when each class but one is nearer to the class that is its own.
pub find_uclass_ends :
    (class_of depth : ℕ → ℕ) (fuel cls : ℕ)
    → ((k : ℕ) → class_of k ≢ k → depth (class_of k) < depth k)
    → depth cls < fuel
    → (found : ℕ) × (find_uclass class_of fuel cls ≡ some found) × (class_of found ≡ found)
unfolding find_uclass
find_uclass_ends class_of depth zero cls nearer l = absurd (omega arith)
find_uclass_ends class_of depth (suc fuel) cls nearer l = elim (ℕ_discrete (class_of cls) cls) [
  | yes same ↦ (cls, ground arith, same)
  | no other ↦
      let closer = nearer cls other in
      let (found, e, fixed) =
        find_uclass_ends class_of depth fuel (class_of cls) nearer (omega arith) in
      (found, ground (arith, e), fixed)
]
