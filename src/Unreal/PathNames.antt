-- ===== src/Unreal/PathNames.antt =====
-- src/unrealsdk/unreal/classes/uobject.cpp, `iter_path_name`: the full name of an object from its outer
-- objects, where a colon stands before the first object inside an object of a package.
use unrealsdk.Base.{
  ℕ, ◌+◌, ◌≤◌, ◌≡◌, Bool, true, false, not, ◌&&◌, if◌then◌else◌, ◌==◌, [], ◌∷◌, ◌++◌, Wide, arith,
  Bool-cases, inl, inr,
}

-- An object: its name, whether its class is the package class, and its outer object, if any.
pub data Outer : Type 0 where
  no_outer : Outer
  object : Wide → Bool → Outer → Outer

unfoldable pub is_package : Outer → Bool
is_package no_outer = false
is_package (object name is_pkg outer) = is_pkg

-- Whether the separator behind an outer object is a colon.
unfoldable pub is_subobject_outer : Outer → Bool
is_subobject_outer no_outer = false
is_subobject_outer (object name is_pkg outer) = not is_pkg && is_package outer

unfoldable pub iter_path_name : Outer → Wide
iter_path_name no_outer = []
iter_path_name (object name is_pkg no_outer) = name
iter_path_name (object name is_pkg (object n p o)) =
    iter_path_name (object n p o)
    ++ (if is_subobject_outer (object n p o) then b':' else b'.') ∷ name

-- Packages stand only in packages.
unfoldable pub IsPackaged : Outer → Type 0
IsPackaged no_outer = Unit
IsPackaged (object name false outer) = IsPackaged outer
IsPackaged (object name true no_outer) = Unit
IsPackaged (object name true (object n p o)) = (p ≡ true) × IsPackaged (object n p o)

unfoldable pub count : ℕ → Wide → ℕ
count c [] = 0
count c (d ∷ s) = (if d == c then 1 else 0) + count c s

unfoldable pub HasNoColons : Outer → Type 0
HasNoColons no_outer = Unit
HasNoColons (object name is_pkg outer) = (count b':' name ≡ 0) × HasNoColons outer

count-append : (c : ℕ) (s t : Wide) → count c (s ++ t) ≡ count c s + count c t
unfolding count
count-append c [] t = omega arith
count-append c (d ∷ s) t = omega (arith, count-append c s t)

-- The path of an object has as many colons as its outer's, and one more behind a subobject's outer.
count-iter_path_name :
    (name n : Wide) (is_pkg p : Bool) (o : Outer)
    → count b':' name ≡ 0
    → count b':' (iter_path_name (object name is_pkg (object n p o)))
      ≡ count b':' (iter_path_name (object n p o))
        + (if is_subobject_outer (object n p o) then 1 else 0)
unfolding iter_path_name count
count-iter_path_name name n is_pkg p o e = ground (
  arith,
  count-append b':' (iter_path_name (object n p o))
      ((if is_subobject_outer (object n p o) then b':' else b'.') ∷ name),
)

no_path : count b':' (iter_path_name no_outer) ≤ 1
unfolding iter_path_name count
no_path = omega arith

top_path_of :
    (name : Wide) (is_pkg : Bool)
    → count b':' name ≡ 0
    → count b':' (iter_path_name (object name is_pkg no_outer)) ≡ 0
unfolding iter_path_name
top_path_of name is_pkg e = e

top_path :
    (name : Wide)
    → count b':' name ≡ 0
    → count b':' (iter_path_name (object name true no_outer)) ≡ 0
unfolding iter_path_name
top_path name e = e

-- The path of a package has no colon.
package_path :
    (name : Wide) (outer : Outer)
    → IsPackaged (object name true outer)
    → HasNoColons (object name true outer)
    → count b':' (iter_path_name (object name true outer)) ≡ 0
unfolding IsPackaged HasNoColons is_subobject_outer
package_path name no_outer i (h, hs) = top_path name h
package_path name (object n false o) (e, i) (h, hs) = absurd (ground arith)
package_path name (object n true o) (e, i) (h, hs) =
    omega (arith, count-iter_path_name name n true true o h, package_path n o i hs)

-- Behind a subobject's outer, which stands in a package, no colon has been written yet.
subobject_outer_path :
    (o : Outer)
    → IsPackaged o
    → HasNoColons o
    → is_subobject_outer o ≡ true
    → count b':' (iter_path_name o) ≡ 0
unfolding IsPackaged HasNoColons is_subobject_outer is_package
subobject_outer_path no_outer i h e = absurd (ground arith)
subobject_outer_path (object name true outer) i h e = absurd (ground arith)
subobject_outer_path (object name false no_outer) i h e = absurd (ground arith)
subobject_outer_path (object name false (object n false o)) i h e = absurd (ground arith)
subobject_outer_path (object name false (object n true o)) i (h, hs) e =
    ground (arith, count-iter_path_name name n false true o h, package_path n o i hs)

outer-IsPackaged :
    (name n : Wide) (is_pkg p : Bool) (o : Outer)
    → IsPackaged (object name is_pkg (object n p o))
    → IsPackaged (object n p o)
unfolding IsPackaged
outer-IsPackaged name n false p o i = i
outer-IsPackaged name n true p o (e, i) = i

-- When packages stand only in packages and no name has a colon, the path name has at most one.
pub path_name_colons :
    (o : Outer) → IsPackaged o → HasNoColons o → count b':' (iter_path_name o) ≤ 1
unfolding HasNoColons
path_name_colons no_outer i h = no_path
path_name_colons (object name is_pkg no_outer) i (h, hs) = omega (arith, top_path_of name is_pkg h)
path_name_colons (object name is_pkg (object n p o)) i (h, hs) =
    let inner = outer-IsPackaged name n is_pkg p o i in
    elim (Bool-cases (is_subobject_outer (object n p o))) [
      | inl e ↦ ground (
        arith,
        count-iter_path_name name n is_pkg p o h,
        subobject_outer_path (object n p o) inner hs e,
      )
      | inr e ↦ ground (
        arith,
        count-iter_path_name name n is_pkg p o h,
        path_name_colons (object n p o) inner hs,
      )
    ]
