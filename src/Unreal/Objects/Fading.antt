-- ===== src/Unreal/Objects/Fading.antt =====
-- unreal/wrappers/weak_pointer.cpp: what a pointer gives when it is read through again and again.
use unrealsdk.Base.{
  ◌≡◌, ◌≢◌, refl, ap, Option, none, some, List, [], ◌∷◌, sym, subst, Option-cases, arith, inl, inr,
  ◌⊎◌,
}
use unrealsdk.Unreal.Objects.{Object, GObjects, obj_at}
use unrealsdk.Unreal.Objects.WeakPointers.{
  WeakPointer, assign, is_same, dereference, dereference_mutable, obj_at-size, dereference_sound,
  forgets,
}

-- A pointer that is read through again and again, each time in the table of that moment.
unfoldable pub dereference_all : List GObjects → WeakPointer → List (Option Object)
dereference_all [] ptr = []
dereference_all (g ∷ gs) ptr = let r = dereference_mutable g ptr in r.0 ∷ dereference_all gs r.1

-- The object has the address, class, outer object, name and virtual functions of the one that was set, and
-- stands in its place in the table.
unfoldable pub StandsFor : Object → GObjects → Object → Type 0
StandsFor set g obj =
    (obj.address ≡ set.address)
    × (obj.outer ≡ set.outer)
    × (obj.vftable ≡ set.vftable)
    × (obj.class_address ≡ set.class_address)
    × (obj.name ≡ set.name)
    × (obj_at g set.internal_index ≡ some (some obj))

unfoldable pub AllNull : List (Option Object) → Type 0
AllNull [] = Unit
AllNull (r ∷ rs) = (r ≡ none) × AllNull rs

-- One result for each table: objects that stand for the one that was set, as long as one does and it has an
-- address, and from the first table in which none does, null for good.
unfoldable pub Fades : Object → List GObjects → List (Option Object) → Type 0
Fades set [] rs = rs ≡ []
Fades set (g ∷ gs) [] = ⊥
Fades set (g ∷ gs) (r ∷ rs) =
    ((obj : Object) × (r ≡ some obj) × StandsFor set g obj × Fades set gs rs)
    ⊎ (((obj : Object) → set.address ≢ 0 → ¬ StandsFor set g obj) × AllNull (r ∷ rs))

null_address : (g : GObjects) (ptr : WeakPointer) → ptr.obj_addr ≡ 0 → dereference g ptr ≡ none
unfolding dereference
null_address g ptr e = ground (arith, e)

found_keeps :
    (g : GObjects) (ptr : WeakPointer) (obj : Object)
    → dereference g ptr ≡ some obj
    → dereference_mutable g ptr ≡ (some obj, ptr)
unfolding dereference_mutable
found_keeps g ptr obj e = ground (arith, e)

forgotten-AllNull :
    (gs : List GObjects) (ptr : WeakPointer) → ptr.obj_addr ≡ 0 → AllNull (dereference_all gs ptr)
unfolding dereference_all AllNull assign
forgotten-AllNull [] ptr e = tt
forgotten-AllNull (g ∷ gs) ptr e =
    let gone = forgets g ptr (null_address g ptr e) in
    (
      ap (λ r. r.0) gone,
      subst {A = Option Object × WeakPointer} (λ r. AllNull (dereference_all gs r.1)) (sym gone)
          (forgotten-AllNull gs (assign ptr none) refl),
    )

missed-AllNull :
    (g : GObjects) (gs : List GObjects) (ptr : WeakPointer)
    → dereference g ptr ≡ none
    → AllNull (dereference_all (g ∷ gs) ptr)
unfolding dereference_all AllNull assign
missed-AllNull g gs ptr e =
    let gone = forgets g ptr e in
    (
      ap (λ r. r.0) gone,
      subst {A = Option Object × WeakPointer} (λ r. AllNull (dereference_all gs r.1)) (sym gone)
          (forgotten-AllNull gs (assign ptr none) refl),
    )

found_again :
    (g : GObjects) (ptr : WeakPointer) (set obj : Object)
    → set.address ≢ 0
    → StandsFor set g obj
    → dereference g (assign ptr (some set)) ≡ some obj
unfolding StandsFor dereference assign is_same
found_again g ptr set obj address (a, o, v, c, n, at) =
    let inside = obj_at-size g set.internal_index (some obj) at in
    ground (arith, a, o, v, c, n, at, inside)

-- What a pointer that is set to an object gives, table after table: the object at its index while that one
-- agrees with it in all that was recorded, and null for good from the first table in which it does not,
-- or from the start when the address that was set is null.
pub dereference_all-Fades :
    (set : Object) (gs : List GObjects) (ptr : WeakPointer)
    → Fades set gs (dereference_all gs (assign ptr (some set)))
unfolding dereference_all Fades StandsFor assign
dereference_all-Fades set [] ptr = refl
dereference_all-Fades set (g ∷ gs) ptr =
    let p = assign ptr (some set) in
    elim (Option-cases (dereference g p)) [
      | inr (obj, e) ↦
          let kept = found_keeps g p obj e in
          inl (
            obj,
            ap (λ r. r.0) kept,
            dereference_sound g p obj e,
            subst {A = Option Object × WeakPointer} (λ r. Fades set gs (dereference_all gs r.1))
                (sym kept) (dereference_all-Fades set gs ptr),
          )
      | inl e ↦ inr (
        λ obj address stands.
            let found = found_again g ptr set obj address stands in
            absurd (ground (arith, e, found)),
        missed-AllNull g gs p e,
      )
    ]
