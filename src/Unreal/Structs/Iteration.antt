-- ===== src/Unreal/Structs/Iteration.antt =====
-- src/unrealsdk/unreal/classes/ustruct.cpp: what the loops over fields and properties visit.
use unrealsdk.Base.{
  ℕ, zero, suc, ◌+◌, ◌≤◌, ◌≡◌, refl, sym, ◌∙◌, ap, subst, Bool, true, false, if◌then◌else◌, List,
  [], ◌∷◌, ◌++◌, length, length-append, arith, Bool-cases, inl, inr,
}
use unrealsdk.Unreal.Structs.{
  Field, Struct, null, struct, Iterator, children, child_properties, next_struct, next_field,
  fields, skip_to_property, next_property_struct, next_property, properties, visit, field_count,
  property_count,
}

unfoldable pub all_children : Struct → List Field
all_children null = []
all_children (struct a cs ps is c super) = cs ++ all_children super

inherited : Struct → List Field
unfolding all_children
inherited null = []
inherited (struct a cs ps is c super) = all_children super

children-inherited : (this : Struct) → children this ++ inherited this ≡ all_children this
unfolding children inherited all_children
children-inherited null = refl
children-inherited (struct a cs ps is c super) = refl

visit-end : (increment : Iterator → Iterator) (fuel : ℕ) → visit increment fuel (null, []) ≡ []
unfolding visit
visit-end increment zero = refl
visit-end increment (suc fuel) = refl

visit-next_struct :
    (fuel : ℕ) (this : Struct) (fs : List Field)
    → length (fs ++ inherited this) ≤ fuel
    → visit next_field fuel (next_struct this fs) ≡ fs ++ inherited this
unfolding visit next_field next_struct inherited
visit-next_struct zero this (f ∷ fs) l = absurd (omega arith)
visit-next_struct (suc fuel) this (f ∷ fs) l =
    ap (◌∷◌ f) (visit-next_struct fuel this fs (omega arith))
visit-next_struct fuel null [] l = visit-end next_field fuel
visit-next_struct fuel (struct a cs ps is c super) [] l =
    visit-next_struct fuel super (children super)
      (subst (λ xs. length xs ≤ fuel) (sym (children-inherited super)) l)
    ∙ children-inherited super

length-all_children : (this : Struct) → length (all_children this) ≡ field_count this
unfolding all_children field_count
length-all_children null = refl
length-all_children (struct a cs ps is c super) =
    length-append cs (all_children super) ∙ ap (◌+◌ (length cs)) (length-all_children super)

fields-next_struct : (this : Struct) → fields this ≡ next_struct this (children this)
unfolding fields children next_struct next_field
fields-next_struct null = refl
fields-next_struct (struct a [] ps is c super) = refl
fields-next_struct (struct a (f ∷ fs) ps is c super) = refl

-- The loop over `fields`, with as many rounds as there are fields, visits the children of the struct
-- and then those of each struct it inherits from, in order and each once; structs without children on
-- the way are passed over.
pub visit-fields :
    (this : Struct) → visit next_field (field_count this) (fields this) ≡ all_children this
visit-fields this =
    ap (visit next_field (field_count this)) (fields-next_struct this)
    ∙ visit-next_struct (field_count this) this (children this)
        (omega (arith, length-all_children this, ap length (children-inherited this)))
    ∙ children-inherited this

unfoldable pub only_properties : List Field → List Field
only_properties [] = []
only_properties (f ∷ fs) = if f.is_property then f ∷ only_properties fs else only_properties fs

unfoldable pub all_properties : Struct → List Field
all_properties null = []
all_properties (struct a cs ps is c super) = only_properties ps ++ all_properties super

inherited_properties : Struct → List Field
unfolding all_properties
inherited_properties null = []
inherited_properties (struct a cs ps is c super) = all_properties super

properties-inherited :
    (this : Struct)
    → only_properties (child_properties this) ++ inherited_properties this ≡ all_properties this
unfolding child_properties inherited_properties all_properties only_properties
properties-inherited null = refl
properties-inherited (struct a cs ps is c super) = refl

module _ (f : Field) (fs : List Field) where
  skip-keep : f.is_property ≡ true → skip_to_property (f ∷ fs) ≡ f ∷ fs
  unfolding skip_to_property
  skip-keep e = ap (λ b. if b then f ∷ fs else skip_to_property fs) e

  skip-drop : f.is_property ≡ false → skip_to_property (f ∷ fs) ≡ skip_to_property fs
  unfolding skip_to_property
  skip-drop e = ap (λ b. if b then f ∷ fs else skip_to_property fs) e

  only-keep : f.is_property ≡ true → only_properties (f ∷ fs) ≡ f ∷ only_properties fs
  unfolding only_properties
  only-keep e = ap (λ b. if b then f ∷ only_properties fs else only_properties fs) e

  only-drop : f.is_property ≡ false → only_properties (f ∷ fs) ≡ only_properties fs
  unfolding only_properties
  only-drop e = ap (λ b. if b then f ∷ only_properties fs else only_properties fs) e

-- What a loop does at the fields from a position on, when it is right about the later ones.
dropped :
    (fuel : ℕ) (this : Struct) (f : Field) (fs : List Field)
    → f.is_property ≡ false
    → (length (only_properties fs ++ inherited_properties this) ≤ fuel
        → visit next_property fuel (next_property_struct this (skip_to_property fs))
          ≡ only_properties fs ++ inherited_properties this)
    → length (only_properties (f ∷ fs) ++ inherited_properties this) ≤ fuel
    → visit next_property fuel (next_property_struct this (skip_to_property (f ∷ fs)))
      ≡ only_properties (f ∷ fs) ++ inherited_properties this
dropped fuel this f fs e rest l =
    ap (λ x. visit next_property fuel (next_property_struct this x)) (skip-drop f fs e)
    ∙ rest (subst (λ x. length (x ++ inherited_properties this) ≤ fuel) (only-drop f fs e) l)
    ∙ ap (λ x. x ++ inherited_properties this) (sym (only-drop f fs e))

visit-next_property :
    (fuel : ℕ) (this : Struct) (fs : List Field)
    → length (only_properties fs ++ inherited_properties this) ≤ fuel
    → visit next_property fuel (next_property_struct this (skip_to_property fs))
      ≡ only_properties fs ++ inherited_properties this
unfolding visit next_property next_property_struct inherited_properties skip_to_property
    only_properties
visit-next_property zero this (f ∷ fs) l = elim (Bool-cases (f.is_property)) [
  | inl e ↦
      let kept = subst (λ x. length (x ++ inherited_properties this) ≤ 0) (only-keep f fs e) l in
      absurd (omega (arith, kept))
  | inr e ↦ dropped zero this f fs e (visit-next_property zero this fs) l
]
visit-next_property (suc fuel) this (f ∷ fs) l = elim (Bool-cases (f.is_property)) [
  | inl e ↦
      let kept =
        subst (λ x. length (x ++ inherited_properties this) ≤ suc fuel) (only-keep f fs e) l in
      ap (λ x. visit next_property (suc fuel) (next_property_struct this x)) (skip-keep f fs e)
      ∙ ap (◌∷◌ f) (visit-next_property fuel this fs (omega (arith, kept)))
      ∙ ap (λ x. x ++ inherited_properties this) (sym (only-keep f fs e))
  | inr e ↦ dropped (suc fuel) this f fs e (visit-next_property (suc fuel) this fs) l
]
visit-next_property fuel null [] l = visit-end next_property fuel
visit-next_property fuel (struct a cs ps is c super) [] l =
    visit-next_property fuel super (child_properties super)
      (subst (λ xs. length xs ≤ fuel) (sym (properties-inherited super)) l)
    ∙ properties-inherited super

length-only_properties : (fs : List Field) → length (only_properties fs) ≤ length fs
unfolding only_properties
length-only_properties [] = omega arith
length-only_properties (f ∷ fs) = elim (Bool-cases (f.is_property)) [
  | inl e ↦ omega (arith, ap length (only-keep f fs e), length-only_properties fs)
  | inr e ↦ omega (arith, ap length (only-drop f fs e), length-only_properties fs)
]

length-all_properties : (this : Struct) → length (all_properties this) ≤ property_count this
unfolding all_properties property_count
length-all_properties null = omega arith
length-all_properties (struct a cs ps is c super) = omega (
  arith,
  length-append (only_properties ps) (all_properties super),
  length-only_properties ps,
  length-all_properties super,
)

next_property_struct-if :
    (b : Bool) (this : Struct) (f : Field) (fs gs : List Field)
    → (if b then (this, f ∷ fs) else next_property_struct this gs)
      ≡ next_property_struct this (if b then f ∷ fs else gs)
unfolding next_property_struct
next_property_struct-if true this f fs gs = refl
next_property_struct-if false this f fs gs = refl

properties-next_property_struct :
    (this : Struct)
    → properties this ≡ next_property_struct this (skip_to_property (child_properties this))
unfolding properties next_property next_property_struct skip_to_property child_properties
properties-next_property_struct null = refl
properties-next_property_struct (struct a cs [] is c super) = refl
properties-next_property_struct (struct a cs (f ∷ fs) is c super) =
    next_property_struct-if (f.is_property) (struct a cs (f ∷ fs) is c super) f fs
      (skip_to_property fs)

-- The loop over `properties`, with as many rounds as there are child properties, visits those of the
-- struct that are properties and then those of each struct it inherits from, in order and each once.
pub visit-properties :
    (this : Struct)
    → visit next_property (property_count this) (properties this) ≡ all_properties this
visit-properties this =
    ap (visit next_property (property_count this)) (properties-next_property_struct this)
    ∙ visit-next_property (property_count this) this (child_properties this)
        (omega (arith, length-all_properties this, ap length (properties-inherited this)))
    ∙ properties-inherited this
