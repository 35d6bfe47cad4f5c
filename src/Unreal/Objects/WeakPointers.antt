-- ===== src/Unreal/Objects/WeakPointers.antt =====
-- References to objects that do not keep them alive.
use unrealsdk.Base.{
  ℕ, zero, suc, ◌≤◌, ◌≡◌, ◌≢◌, refl, ◌∙◌, ap, Bool, true, false, if◌then◌else◌, ◌==◌, leb, ◌&&◌,
  Option, none, some, List, [], ◌∷◌, length, get_elem?, arith, Bool-cases, inl, inr, ◌⊎◌, ◌<◌,
}
use mathlib.Core.Option.{some-injective}
use unrealsdk.Unreal.Objects.{
  Object, Item, GObjects, size, obj_at, FWeakObjectPtr, get_weak_object, item_at, next_serial,
  set_serial, chosen_serial, weak_to, with_serial, set_weak_object,
}

-- `WeakPointer` where the engine has none of its own: the address, the index and what is compared.
pub record WeakPointer : Type 0 where
  pub obj_addr : ℕ
  pub index : ℕ
  pub outer_addr : ℕ
  pub vftable_addr : ℕ
  pub class_addr : ℕ
  pub name : ℕ

-- `operator=`, which keeps the other fields when it is given null.
unfoldable pub assign : WeakPointer → Option Object → WeakPointer
assign ptr none = record {
  obj_addr = 0;
  index = ptr.index;
  outer_addr = ptr.outer_addr;
  vftable_addr = ptr.vftable_addr;
  class_addr = ptr.class_addr;
  name = ptr.name;
}
assign ptr (some obj) = record {
  obj_addr = obj.address;
  index = obj.internal_index;
  outer_addr = obj.outer;
  vftable_addr = obj.vftable;
  class_addr = obj.class_address;
  name = obj.name;
}

unfoldable pub is_same : WeakPointer → Object → Bool
is_same ptr obj =
    (ptr.obj_addr == obj.address)
    && (ptr.outer_addr == obj.outer)
    && (ptr.vftable_addr == obj.vftable)
    && (ptr.class_addr == obj.class_address)
    && (ptr.name == obj.name)

-- `operator*` of a constant pointer.
unfoldable pub dereference : GObjects → WeakPointer → Option Object
dereference g ptr =
    if ptr.obj_addr == 0
    then none
    else if leb (size g) (ptr.index)
    then none
    else elim (obj_at g (ptr.index)) [
      | none ↦ none
      | some none ↦ none
      | some (some obj) ↦ if is_same ptr obj then some obj else none
    ]

-- `operator*` of a pointer that may change: it forgets an object that is gone.
unfoldable pub dereference_mutable : GObjects → WeakPointer → Option Object × WeakPointer
dereference_mutable g ptr = elim (dereference g ptr) [
  | none ↦ (none, assign ptr none)
  | some obj ↦ (some obj, ptr)
]

get_elem?-inside :
    (items : List Item) (idx : ℕ) → (get_elem? items idx ≡ none) ⊎ (idx < length items)
get_elem?-inside [] idx = inl refl
get_elem?-inside (i ∷ items) zero = inr (omega arith)
get_elem?-inside (i ∷ items) (suc idx) = elim (get_elem?-inside items idx) [
  | inl e ↦ inl e
  | inr l ↦ inr (omega arith)
]

pub obj_at-size :
    (g : GObjects) (idx : ℕ) (o : Option Object) → obj_at g idx ≡ some o → leb (size g) idx ≡ false
unfolding obj_at size
obj_at-size g idx o e = ground (arith, get_elem?-inside (g.items) idx)

is_same-assign : (ptr : WeakPointer) (obj : Object) → is_same (assign ptr (some obj)) obj ≡ true
unfolding is_same assign
is_same-assign ptr obj = ground arith

-- A pointer that is set to an object gives it back while the object stands in its place in the table.
pub dereference-assign :
    (g : GObjects) (ptr : WeakPointer) (obj : Object)
    → obj.address ≢ 0
    → obj_at g (obj.internal_index) ≡ some (some obj)
    → dereference g (assign ptr (some obj)) ≡ some obj
unfolding dereference assign
dereference-assign g ptr obj a e =
    ground (arith, is_same-assign ptr obj, obj_at-size g (obj.internal_index) (some obj) e)

-- What a pointer gives stands in the table at its index, and agrees with all that the pointer recorded.
pub dereference_sound :
    (g : GObjects) (ptr : WeakPointer) (obj : Object)
    → dereference g ptr ≡ some obj
    → (obj.address ≡ ptr.obj_addr)
      × (obj.outer ≡ ptr.outer_addr)
      × (obj.vftable ≡ ptr.vftable_addr)
      × (obj.class_address ≡ ptr.class_addr)
      × (obj.name ≡ ptr.name)
      × (obj_at g (ptr.index) ≡ some (some obj))
unfolding dereference is_same
dereference_sound g ptr obj e = ground arith

pub forgets :
    (g : GObjects) (ptr : WeakPointer)
    → dereference g ptr ≡ none
    → dereference_mutable g ptr ≡ (none, assign ptr none)
unfolding dereference_mutable
forgets g ptr e = ground arith

dereference-null : (g : GObjects) (ptr : WeakPointer) → dereference g (assign ptr none) ≡ none
unfolding dereference assign
dereference-null g ptr = refl

-- A pointer that may change and whose object is gone gives null, and from then on gives null whatever
-- the table becomes.
pub dereference_mutable_forgets :
    (g later : GObjects) (ptr : WeakPointer)
    → dereference g ptr ≡ none
    → ((dereference_mutable g ptr).0 ≡ none)
      × (dereference later (dereference_mutable g ptr).1 ≡ none)
dereference_mutable_forgets g later ptr e =
    let forgotten = forgets g ptr e in
    (
      ap (λ r. r.0) forgotten,
      ap (λ r. dereference later r.1) forgotten ∙ dereference-null later ptr,
    )

get_elem?-set_serial :
    (items : List Item) (idx serial : ℕ) (item : Item)
    → get_elem? items idx ≡ some item
    → get_elem? (set_serial idx serial items) idx
      ≡ some (record { object = item.object; serial_number = serial })
unfolding set_serial
get_elem?-set_serial [] idx serial item e = absurd (ground arith)
get_elem?-set_serial (i ∷ items) zero serial item e =
    ap (λ i. some (record { object = i.object; serial_number = serial })) (some-injective _ _ e)
get_elem?-set_serial (i ∷ items) (suc idx) serial item e =
    get_elem?-set_serial items idx serial item e

next_serial-suc :
    (g : GObjects)
    → suc (g.master_serial_number) < 4294967296
    → next_serial g ≡ suc (g.master_serial_number)
unfolding next_serial
next_serial-suc g l = ground arith

chosen_serial-positive : (raced fresh : ℕ) → fresh ≢ 0 → chosen_serial raced fresh ≢ 0
unfolding chosen_serial
chosen_serial-positive raced fresh p = ground arith

-- A weak reference that was made to an object gives the object, whatever serial number another
-- thread stored meanwhile, as long as the serial numbers have not run out.
pub get_weak_object-set_weak_object :
    (raced : ℕ) (g : GObjects) (obj : Object) (item : Item)
    → suc (g.master_serial_number) < 4294967296
    → get_elem? (g.items) (obj.internal_index) ≡ some item
    → item.object ≡ some obj
    → (after : GObjects) × (ptr : FWeakObjectPtr) × (set_weak_object raced g (some obj)
        ≡ some (after, ptr))
      × (get_weak_object after ptr ≡ some obj)
unfolding set_weak_object get_weak_object with_serial weak_to item_at
get_weak_object-set_weak_object raced g obj item l e o =
    elim (Bool-cases (item.serial_number == 0)) [
      | inl fresh ↦
          let idx = obj.internal_index in
          let serial = chosen_serial raced (next_serial g) in
          (
            with_serial idx serial g,
            weak_to idx serial,
            ground arith,
            ground (
              arith,
              get_elem?-set_serial (g.items) idx serial item e,
              chosen_serial-positive raced (next_serial g) (ground (arith, next_serial-suc g l)),
            ),
          )
      | inr old ↦ (g, weak_to (obj.internal_index) (item.serial_number), ground arith, ground arith)
    ]

-- Once the entry of a weak reference has lost its serial number, because its object is gone, the
-- reference gives null, and goes on doing so after another object in that entry was referred to, as
-- long as the serial numbers have not run out.
pub get_weak_object_stale :
    (g : GObjects) (idx serial : ℕ) (obj : Object) (item : Item)
    → suc (g.master_serial_number) < 4294967296
    → serial ≤ g.master_serial_number
    → get_elem? (g.items) idx ≡ some item
    → item.serial_number ≡ 0
    → obj.internal_index ≡ idx
    → (get_weak_object g (weak_to idx serial) ≡ none)
      × (set_weak_object 0 g (some obj)
          ≡ some (with_serial idx (next_serial g) g, weak_to idx (next_serial g)))
      × (get_weak_object (with_serial idx (next_serial g) g) (weak_to idx serial) ≡ none)
unfolding set_weak_object get_weak_object chosen_serial with_serial weak_to item_at
get_weak_object_stale g idx serial obj item w l e z i = (
  ground arith,
  ground arith,
  ground (arith, get_elem?-set_serial (g.items) idx (next_serial g) item e, next_serial-suc g w),
)
