-- ===== src/Config/Merge.antt =====
-- src/unrealsdk/config.cpp: the values of the merged configuration, key by key and path by path.
use unrealsdk.Base.{
  ◌≡◌, refl, sym, ◌∙◌, ap, subst, Bool, true, false, Option, none, some, List, [], ◌∷◌, ◌++◌, Wide,
  wide_discrete, ite, arith, Option-cases, inl, inr, if_pos, if_neg,
}
use mathlib.Core.Option.{some-injective}
use unrealsdk.Config.{
  Node, Table, empty, entry, table, find, insert_or_assign, merge_node, recursive_merge_table,
  at_path, ConfigFile, load, merge_configs, load_config_file, parsed, missing, invalid, get_value,
  get_imported, config_get, failed_to_load,
}

-- No key stands twice, at any depth, as in a map.
unfoldable mutual
  unfolding find

  pub IsNode : Node → Type 0
  IsNode (table t) = IsTable t
  IsNode _ = Unit

  pub IsTable : Table → Type 0
  IsTable empty = Unit
  IsTable (entry k v t) = (find k t ≡ none) × IsNode v × IsTable t

-- The value a key has after a merge.
unfoldable pub overlaid : Option Node → Option Node → Option Node
overlaid none base = base
overlaid (some v) base = some (merge_node v base)

find-insert_or_assign :
    (k j : Wide) (v : Node) (t : Table)
    → find j (insert_or_assign k v t) ≡ ite (wide_discrete k j) (some v) (find j t)
unfolding find insert_or_assign
find-insert_or_assign k j v empty = refl
find-insert_or_assign k j v (entry i w t) = ground (arith, find-insert_or_assign k j v t)

-- Merging tables without repeated keys overlays them key by key: a key of the overrides takes the
-- override, itself merged with the base's value when both are tables, and any other key keeps the
-- base's value.
pub find-recursive_merge_table :
    (overrides base : Table) (k : Wide)
    → IsTable overrides
    → find k (recursive_merge_table overrides base) ≡ overlaid (find k overrides) (find k base)
unfolding find recursive_merge_table overlaid IsTable
find-recursive_merge_table empty base k d = refl
find-recursive_merge_table (entry j v t) base k (fresh, dv, dt) = ground (
  arith,
  find-recursive_merge_table t (insert_or_assign j (merge_node v (find j base)) base) k dt,
  find-insert_or_assign j k (merge_node v (find j base)) base,
)

pub find-IsNode : (t : Table) (k : Wide) (v : Node) → IsTable t → find k t ≡ some v → IsNode v
unfolding find IsTable
find-IsNode empty k v d e = absurd (ground arith)
find-IsNode (entry j w t) k v (fresh, dw, dt) e = elim (wide_discrete j k) [
  | yes p ↦
      subst IsNode (some-injective _ _ (sym (if_pos (wide_discrete j k) p (some w) (find k t)) ∙ e))
        dw
  | no p ↦ find-IsNode t k v dt (sym (if_neg (wide_discrete j k) p (some w) (find k t)) ∙ e)
]

abbrev pub is_table : Node → Bool
is_table (table t) = true
is_table _ = false

-- Along the path the node holds tables, until a key that it does not have.
unfoldable pub is_silent : List Wide → Node → Bool
is_silent [] v = false
is_silent (k ∷ path) (table t) = elim (find k t) [ none ↦ true | some v ↦ is_silent path v ]
is_silent (k ∷ path) _ = false

at_path-root : (o v : Node) → is_table v ≡ false → at_path [] o ≡ some v → is_table o ≡ false
unfolding at_path
at_path-root o v l e = ground arith

at_path-step :
    (k : Wide) (path : List Wide) (t : Table) (v : Node)
    → find k t ≡ some v
    → at_path (k ∷ path) (table t) ≡ at_path path v
unfolding at_path
at_path-step k path t v e = ground arith

at_path-none :
    (k : Wide) (path : List Wide) (t : Table)
    → find k t ≡ none
    → at_path (k ∷ path) (table t) ≡ none
unfolding at_path
at_path-none k path t e = ground arith

is_silent-step :
    (k : Wide) (path : List Wide) (t : Table) (v : Node)
    → find k t ≡ some v
    → is_silent (k ∷ path) (table t) ≡ is_silent path v
unfolding is_silent
is_silent-step k path t v e = ground arith

pub find-merged :
    (o b : Table) (k : Wide) (v : Node)
    → IsTable o
    → find k o ≡ some v
    → find k (recursive_merge_table o b) ≡ some (merge_node v (find k b))
unfolding overlaid
find-merged o b k v d e = find-recursive_merge_table o b k d ∙ ap (λ x. overlaid x (find k b)) e

pub find-unmerged :
    (o b : Table) (k : Wide)
    → IsTable o
    → find k o ≡ none
    → find k (recursive_merge_table o b) ≡ find k b
unfolding overlaid
find-unmerged o b k d e = find-recursive_merge_table o b k d ∙ ap (λ x. overlaid x (find k b)) e

pub at_path-merge_node :
    (path : List Wide) (o v : Node) (base : Option Node)
    → IsNode o
    → is_table v ≡ false
    → at_path path o ≡ some v
    → at_path path (merge_node o base) ≡ some v
unfolding merge_node IsNode
at_path-merge_node [] (table o) v base d l e = absurd (ground (arith, at_path-root (table o) v l e))
at_path-merge_node (k ∷ path) (table o) v none d l e = e
at_path-merge_node (k ∷ path) (table o) v (some (table b)) d l e = elim (Option-cases (find k o)) [
  | inr (w, p) ↦
      at_path-step k path (recursive_merge_table o b) (merge_node w (find k b))
        (find-merged o b k w d p)
      ∙ at_path-merge_node path w v (find k b) (find-IsNode o k w d p) l
          (sym (at_path-step k path o w p) ∙ e)
  | inl p ↦ absurd (ground (arith, at_path-none k path o p))
]
at_path-merge_node path o v base d l e = e

-- `none` has nothing at any path.
unfoldable pub at_path_of : List Wide → Option Node → Option Node
at_path_of path none = none
at_path_of path (some v) = at_path path v

silent-none : (path : List Wide) (o : Node) → is_silent path o ≡ true → at_path path o ≡ none
unfolding is_silent at_path
silent-none (k ∷ path) (table o) l = elim (Option-cases (find k o)) [
  | inr (w, p) ↦
      at_path-step k path o w p ∙ silent-none path w (sym (is_silent-step k path o w p) ∙ l)
  | inl p ↦ at_path-none k path o p
]
silent-none path o l = ground arith

pub at_path-silent :
    (path : List Wide) (o : Node) (base : Option Node)
    → IsNode o
    → is_silent path o ≡ true
    → at_path path (merge_node o base) ≡ at_path_of path base
unfolding merge_node IsNode at_path_of is_silent at_path
at_path-silent (k ∷ path) (table o) (some (table b)) d l = elim (Option-cases (find k o)) [
  | inr (w, p) ↦
      at_path-step k path (recursive_merge_table o b) (merge_node w (find k b))
        (find-merged o b k w d p)
      ∙ at_path-silent path w (find k b) (find-IsNode o k w d p)
          (sym (is_silent-step k path o w p) ∙ l)
  | inl p ↦ ap (at_path_of path) (find-unmerged o b k d p)
]
at_path-silent (k ∷ path) (table o) base d l = silent-none (k ∷ path) (table o) l
at_path-silent path o base d l = ground arith

-- After both files parsed, a value at a path that the user's table reaches is the user's, whatever
-- the base table holds on the way.
pub user_value_wins :
    (before base user : Table) (path : List Wide) (v : Node)
    → IsTable user
    → is_table v ≡ false
    → at_path path (table user) ≡ some v
    → at_path path (table (merge_configs before (some base) (some user))) ≡ some v
unfolding merge_configs merge_node IsNode
user_value_wins before base user path v d l e =
    at_path-merge_node path (table user) v (some (table base)) d l e

-- After both files parsed, a path on which the user's table is silent, which lacks one of its keys
-- and holds tables up to there, has the base table's value, or none.
pub base_value_kept :
    (before base user : Table) (path : List Wide)
    → IsTable user
    → is_silent path (table user) ≡ true
    → at_path path (table (merge_configs before (some base) (some user)))
      ≡ at_path path (table base)
unfolding merge_configs merge_node IsNode at_path_of
base_value_kept before base user path d l = at_path-silent path (table user) (some (table base)) d l

-- A file that is missing or does not parse counts for nothing: with neither, the configuration stays
-- what it was, and with one, it is that one's table. Every line of a parser's error is logged, and
-- the first names the file.
pub load_result :
    (before t : Table) (base user : Wide) (error : List Wide) (other : ConfigFile)
    → (load before (base, missing) (user, missing) ≡ (before, []))
      × (load before (base, parsed t) (user, missing) ≡ (t, []))
      × (load before (base, missing) (user, parsed t) ≡ (t, []))
      × ((load before (base, invalid error) (user, other)).0
          ≡ (load before (base, missing) (user, other)).0)
      × ((load before (base, other) (user, invalid error)).0
          ≡ (load before (base, other) (user, missing)).0)
      × ((load before (base, invalid error) (user, other)).1
          ≡ (failed_to_load ++ base) ∷ error ++ (load_config_file user other).1)
unfolding load merge_configs load_config_file
load_result before t base user error other = (refl, refl, refl, refl, refl, refl)

-- The getters of a module that imports the interface agree with the ones inside the library,
-- whatever the variable held that the value is passed through.
pub get_imported_lem :
    {A : Type 0} (convert : Node → Option A) (config : Table) (path : List Wide) (initial : A)
    → get_imported convert config path initial ≡ get_value convert config path
unfolding get_imported get_value config_get
get_imported_lem convert config path initial = ground arith
