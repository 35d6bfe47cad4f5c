-- ===== src/Config/Overlay.antt =====
-- src/unrealsdk/config.cpp: the merged configuration, path by path.
use unrealsdk.Base.{
  ◌≡◌, refl, sym, ◌∙◌, ap, Option, none, some, List, [], ◌∷◌, Wide, arith, Option-cases, inl, inr,
}
use unrealsdk.Config.{
  Node, Table, table, find, merge_node, recursive_merge_table, at_path, merge_configs,
}
use unrealsdk.Config.Merge.{IsNode, IsTable, at_path_of, find-IsNode, find-merged, find-unmerged}

-- What is seen at a path: nothing, some table, or a value.
pub data Seen : Type 0 where
  nothing_there : Seen
  table_there : Seen
  value_there : Node → Seen

unfoldable pub seen : Option Node → Seen
seen none = nothing_there
seen (some (table t)) = table_there
seen (some v) = value_there v

-- What two layers show at a path: the upper one hides the lower one, except that keys that a table of the
-- upper one lacks are looked up in a table that lies below it.
unfoldable pub overlay_at : List Wide → Option Node → Option Node → Seen
overlay_at path none below = seen (at_path_of path below)
overlay_at [] (some v) below = seen (some v)
overlay_at (k ∷ path) (some (table o)) (some (table b)) = overlay_at path (find k o) (find k b)
overlay_at (k ∷ path) (some (table o)) below = overlay_at path (find k o) none
overlay_at (k ∷ path) (some v) below = nothing_there

at_path-find :
    (k : Wide) (path : List Wide) (t : Table)
    → at_path_of (k ∷ path) (some (table t)) ≡ at_path_of path (find k t)
unfolding at_path at_path_of
at_path-find k path t = elim (Option-cases (find k t)) [
  | inl e ↦ ground (arith, e)
  | inr (v, e) ↦ ground (arith, e)
]

overlay_at-alone :
    (path : List Wide) (o : Option Node) → seen (at_path_of path o) ≡ overlay_at path o none
unfolding overlay_at at_path_of at_path seen
overlay_at-alone path none = refl
overlay_at-alone [] (some v) = refl
overlay_at-alone (k ∷ path) (some (table o)) =
    ap seen (at_path-find k path o) ∙ overlay_at-alone path (find k o)
overlay_at-alone (k ∷ path) (some v) = refl

merged_seen :
    (path : List Wide) (o : Node) (below : Option Node)
    → IsNode o
    → seen (at_path_of path (some (merge_node o below))) ≡ overlay_at path (some o) below
unfolding overlay_at at_path_of at_path merge_node seen IsNode
merged_seen [] (table o) (some (table b)) d = refl
merged_seen [] o below d = refl
merged_seen (k ∷ path) (table o) (some (table b)) d =
    let merged = recursive_merge_table o b in
    ap seen (at_path-find k path merged) ∙ elim (Option-cases (find k o)) [
      | inl e ↦
          ap (λ v. seen (at_path_of path v)) (find-unmerged o b k d e)
          ∙ ap (λ v. overlay_at path v (find k b)) (sym e)
      | inr (v, e) ↦
          ap (λ v. seen (at_path_of path v)) (find-merged o b k v d e)
          ∙ merged_seen path v (find k b) (find-IsNode o k v d e)
          ∙ ap (λ v. overlay_at path v (find k b)) (sym e)
    ]
merged_seen (k ∷ path) (table o) below d =
    ap seen (at_path-find k path o) ∙ overlay_at-alone path (find k o)
merged_seen (k ∷ path) o below d = refl

-- After both files parsed, what is seen in the configuration at any path of keys is what the user's file
-- shows laid over the base file: tables are merged at every depth, and everything else in the user's file
-- hides what lies below it. The user's table has no key twice.
pub at_path-merge_configs :
    (before base user : Table) (path : List Wide)
    → IsTable user
    → seen (at_path path (table (merge_configs before (some base) (some user))))
      ≡ overlay_at path (some (table user)) (some (table base))
unfolding merge_configs merge_node IsNode at_path_of
at_path-merge_configs before base user path d = merged_seen path (table user) (some (table base)) d
