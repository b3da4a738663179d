-- ===== src/Orchestration/Indexing/Discovery.antt =====
-- The discovery of the source files of a remote tree: the steps of discoverRemoteSourceMetadata and of
-- discoverRemoteSourceFiles of src/internal/orchestration/handlers_indexing.go. The digest and what the context says before each
-- file are parameters; without a limit that is positive, the default is taken.
pub mod Runs
pub mod Screens
pub mod Accounts
pub mod Reasons
use gocodemunch_mcp.Base.{
  ℕ, suc, ◌+◌, ◌-◌, ◌*◌, Text, codes, text_eq, Map, lookup, insert, Bool, true, false, not, ◌&&◌,
  ◌||◌, Option, none, some, List, [], ◌∷◌, if◌then◌else◌, ltb, ◌==◌, has, keys, sort_strings,
  length, take,
}
use gocodemunch_mcp.Base.Int.{ℤ, pos, negsuc, is_pos, pos_part}
use gocodemunch_mcp.Orchestration.Indexing.Priority.{sort_by_priority}
use gocodemunch_mcp.Orchestration.Indexing.Remote.{normalize_remote_blob_sha}
use gocodemunch_mcp.Orchestration.Indexing.Screening.{
  TreePath, path, refused, normalize_remote_tree_path, should_skip_remote_path,
  normalize_ignore_patterns, parse_gitignore_patterns, matches_ignore_pattern, classify_language,
  is_likely_secret_path_with_exclusions, is_likely_binary_content,
}

-- `counts[key]++`
unfoldable pub increment : Text → Map ℕ → Map ℕ
increment key counts = insert key (suc (elim (lookup key counts) [ none ↦ 0 | some n ↦ n ])) counts

abbrev pub no_skips : Map ℕ
no_skips =
    (codes "skip_dir", 0)
    ∷ (codes "skip_file", 0)
    ∷ (codes "symlink", 0)
    ∷ (codes "symlink_escape", 0)
    ∷ (codes "path_traversal", 0)
    ∷ (codes "gitignore", 0)
    ∷ (codes "extra_ignore", 0)
    ∷ (codes "secret", 0)
    ∷ (codes "wrong_extension", 0)
    ∷ (codes "too_large", 0)
    ∷ (codes "unreadable", 0)
    ∷ (codes "binary", 0)
    ∷ (codes "file_limit", 0)
    ∷ []

-- What becomes of a file of the tree.
pub data Screened : Type 0 where
  source : Text → Text → Screened
  skipped : Text → Screened

abbrev pub max_discovery_file_size : ℕ
max_discovery_file_size = 500 * 1024

abbrev pub screen_language : List Text → Text → Option Text → Screened
screen_language excluded rel_path none = skipped (codes "wrong_extension")
screen_language excluded rel_path (some language) =
    if is_likely_secret_path_with_exclusions rel_path excluded
    then skipped (codes "secret")
    else source rel_path language

abbrev pub screen_tree_path : List Text → List Text → List Text → TreePath → Screened
screen_tree_path gitignore extra excluded (refused reason) = skipped reason
screen_tree_path gitignore extra excluded (path rel_path) =
    if should_skip_remote_path rel_path
    then skipped (codes "skip_dir")
    else if matches_ignore_pattern rel_path gitignore
    then skipped (codes "gitignore")
    else if matches_ignore_pattern rel_path extra
    then skipped (codes "extra_ignore")
    else screen_language excluded rel_path (classify_language rel_path)

-- The tests of a file that both discoveries make on its path, in their order; a path that passes them
-- comes with its language.
unfoldable pub screen_path : List Text → List Text → List Text → Text → Screened
screen_path gitignore extra excluded raw =
    screen_tree_path gitignore extra excluded (normalize_remote_tree_path raw)

-- indexing.RemoteFileMetadata, as far as it is read
pub record RemoteFileMetadata : Type 0 where
  pub blob_sha : Text
  pub size_bytes : ℤ

abbrev pub is_too_large : ℤ → Bool
is_too_large (pos n) = ltb max_discovery_file_size n
is_too_large (negsuc n) = false

abbrev pub screen_metadata : RemoteFileMetadata → Screened → Screened
screen_metadata meta (skipped reason) = skipped reason
screen_metadata meta (source rel_path language) =
    if is_too_large meta.size_bytes then skipped (codes "too_large") else source rel_path language

abbrev pub screen_content : Text → Screened → Screened
screen_content content (skipped reason) = skipped reason
screen_content content (source rel_path language) =
    if ltb max_discovery_file_size (length content)
    then skipped (codes "too_large")
    else if is_likely_binary_content content
    then skipped (codes "binary")
    else source rel_path language

-- What a discovery has found; the files newest first, since they are sorted in the end.
pub record Found : Type 0 where
  pub source_files : List Text
  pub file_hashes : Map Text
  pub file_blob_shas : Map Text
  pub file_mtimes : Map ℤ
  pub language_counts : Map ℕ
  pub skip_counts : Map ℕ

abbrev pub nothing_found : Found
nothing_found = record {
  source_files = [];
  file_hashes = [];
  file_blob_shas = [];
  file_mtimes = [];
  language_counts = [];
  skip_counts = no_skips;
}

pub data DiscoveryResult : Type 0 where
  found : Found → DiscoveryResult
  context_ended : Text → DiscoveryResult

-- One file: skipped and counted, or kept with `keep`.
abbrev pub settle : (Text → Text → Found → Found) → Screened → Found → Found
settle keep (skipped reason) d = record d { skip_counts = increment reason d.skip_counts }
settle keep (source rel_path language) d =
    keep rel_path language (record d { source_files = rel_path ∷ d.source_files })

-- The loop over the sorted paths, which asks the context before each of them.
unfoldable pub discovery_loop :
    (ℕ → Option Text) → (Text → Found → Found) → ℕ → List Text → Found → DiscoveryResult
discovery_loop ctx file i [] d = found d
discovery_loop ctx file i (raw ∷ paths) d = elim (ctx i) [
  | some message ↦ context_ended message
  | none ↦ discovery_loop ctx file (suc i) paths (file raw d)
]

-- The entries of the files that are kept.
unfoldable pub restrict {ℓ} : {V : Type ℓ} → List Text → Map V → Map V → Map V
restrict [] from m = m
restrict (p ∷ paths) from m =
    restrict paths from (elim (lookup p from) [ none ↦ m | some v ↦ insert p v m ])

unfoldable pub count_languages : List Text → Map ℕ → Map ℕ
unfolding increment
count_languages [] counts = counts
count_languages (p ∷ paths) counts =
    count_languages paths
      (elim (classify_language p) [ none ↦ counts | some language ↦ increment language counts ])

-- `if maxFiles <= 0 { maxFiles = defaultMaxIndexFiles }`
abbrev pub file_limit : ℤ → ℕ
file_limit max_files = if is_pos max_files then pos_part max_files else 10_000

-- The files in order; of too many, those of the highest priority.
unfoldable pub limit_files : ℕ → Found → Found
unfolding sort_by_priority restrict count_languages
limit_files limit d =
    let sorted = sort_strings d.source_files in
    if ltb limit (length sorted)
    then (let kept = take limit (sort_by_priority sorted) in
        record {
          source_files = kept;
          file_hashes = restrict kept d.file_hashes [];
          file_blob_shas = restrict kept d.file_blob_shas [];
          file_mtimes = restrict kept d.file_mtimes [];
          language_counts = count_languages kept [];
          skip_counts = insert (codes "file_limit") (length sorted - limit) d.skip_counts;
        })
    else record d { source_files = sorted }

unfoldable pub limit_result : ℕ → DiscoveryResult → DiscoveryResult
unfolding limit_files
limit_result limit (found d) = found (limit_files limit d)
limit_result limit (context_ended message) = context_ended message
