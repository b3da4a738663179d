-- ===== src/Orchestration/Indexing/Priority.antt =====
-- Which files are kept when there are too many: compareFolderDiscoveryPriority of
-- src/internal/orchestration/handlers_indexing.go.
use gocodemunch_mcp.Base.{
  ℕ, suc, Text, codes, text_less, trim_space, has_prefix, count_byte, Bool, not, List, [], ◌∷◌,
  if◌then◌else◌, ltb, ◌==◌,
}
use gocodemunch_mcp.Watcher.Paths.{slash, clean, path_text}

-- rank, depth and path of folderDiscoveryPriority
pub record Priority : Type 0 where
  pub rank : ℕ
  pub depth : ℕ
  pub normalized : Text

unfoldable pub first_prefix : Text → List Text → ℕ
first_prefix s [] = 0
first_prefix s (p ∷ ps) = let rest = first_prefix s ps in if has_prefix s p then 0 else suc rest

abbrev pub priority_dirs : List Text
priority_dirs = codes "src/" ∷ codes "lib/" ∷ codes "pkg/" ∷ codes "cmd/" ∷ codes "internal/" ∷ []

unfoldable pub folder_discovery_priority : Text → Priority
unfolding first_prefix
folder_discovery_priority rel_path =
    let normalized = path_text (clean (trim_space rel_path)) in
    record {
      rank = first_prefix normalized priority_dirs;
      depth = count_byte slash normalized;
      normalized = normalized;
    }

unfoldable pub compare_folder_discovery_priority : Text → Text → Bool
unfolding folder_discovery_priority
compare_folder_discovery_priority left right =
    let l = folder_discovery_priority left in
    let r = folder_discovery_priority right in
    if not (l.rank == r.rank)
    then ltb l.rank r.rank
    else if not (l.depth == r.depth)
    then ltb l.depth r.depth
    else text_less l.normalized r.normalized

-- sort.SliceStable by that order
unfoldable pub insert_by_priority : Text → List Text → List Text
insert_by_priority x [] = x ∷ []
insert_by_priority x (y ∷ ys) =
    let rest = insert_by_priority x ys in
    if compare_folder_discovery_priority y x then y ∷ rest else x ∷ y ∷ ys

unfoldable pub sort_by_priority : List Text → List Text
unfolding insert_by_priority
sort_by_priority [] = []
sort_by_priority (x ∷ xs) = insert_by_priority x (sort_by_priority xs)
