-- ===== src/Orchestration/Indexing/Screening.antt =====
-- Which paths of a remote tree are source files: normalizeRemoteTreePath, shouldSkipRemotePath, the
-- ignore patterns, classifyLanguage and isLikelySecretPathWithExclusions of
-- src/internal/orchestration/handlers_indexing.go.
use gocodemunch_mcp.Base.{
  ℕ, ◌*◌, Text, codes, text_eq, trim_space, to_lower, is_empty, has_prefix, has_suffix, trim_prefix,
  trim_last, trim_byte, replace_byte, contains, has_byte, base, ext, path_match, split, lookup,
  Bool, true, false, not, ◌&&◌, ◌||◌, Option, some, List, [], ◌∷◌, ◌++◌, if◌then◌else◌, ltb, ◌==◌,
  member, sort_strings, length, take,
}
use gocodemunch_mcp.Orchestration.Indexing.Tables.{
  source_extensions, skipped_directories, secret_path_hints, documentation_extensions,
}
use gocodemunch_mcp.Watcher.Paths.{slash, dots, clean, path_text}

-- A path, or the reason why it is left out.
pub data TreePath : Type 0 where
  path : Text → TreePath
  refused : Text → TreePath

abbrev dot_dot_slash : Text
dot_dot_slash = codes "../"

unfoldable pub normalize_remote_tree_path : Text → TreePath
normalize_remote_tree_path raw =
    let trimmed =
      trim_byte slash (trim_prefix (trim_space (replace_byte b'\\' slash raw)) (codes "./")) in
    if is_empty trimmed
    then refused (codes "skip_file")
    else let cleaned = path_text (clean trimmed) in
      if text_eq cleaned (codes ".") || text_eq cleaned dots || has_prefix cleaned dot_dot_slash
      then refused (codes "path_traversal")
      else if contains cleaned (codes "/../")
      then refused (codes "path_traversal")
      else path cleaned

unfoldable pub skips_segment : List Text → Bool
skips_segment [] = false
skips_segment (s ∷ segments) =
    is_empty (trim_space s) || member (trim_space s) skipped_directories || skips_segment segments

unfoldable pub should_skip_remote_path : Text → Bool
unfolding skips_segment
should_skip_remote_path rel_path = skips_segment (split slash rel_path)

-- The patterns that are not blank, with `/` for `\`.
unfoldable pub ignore_loop : List Text → List Text
ignore_loop [] = []
ignore_loop (raw ∷ patterns) =
    let rest = ignore_loop patterns in
    let pattern = trim_space (replace_byte b'\\' slash raw) in
    if is_empty pattern then rest else pattern ∷ rest

unfoldable pub normalize_ignore_patterns : List Text → List Text
unfolding ignore_loop
normalize_ignore_patterns patterns = sort_strings (ignore_loop patterns)

-- A line of a .gitignore file: comments and negations are left out.
unfoldable pub gitignore_loop : List Text → List Text
gitignore_loop [] = []
gitignore_loop (line ∷ lines) =
    let rest = gitignore_loop lines in
    let pattern = trim_space (replace_byte b'\\' slash line) in
    if is_empty pattern || has_prefix pattern (codes "#") || has_prefix pattern (codes "!")
    then rest
    else if is_empty (trim_prefix pattern (codes "/"))
    then rest
    else trim_prefix pattern (codes "/") ∷ rest

-- strings.ReplaceAll of "\r\n" by "\n"
unfoldable pub unix_lines : Text → Text
unix_lines [] = []
unix_lines (c ∷ []) = c ∷ []
unix_lines (c ∷ d ∷ s) =
    let rest = unix_lines (d ∷ s) in if c == b'\r' && d == b'\n' then rest else c ∷ rest

unfoldable pub parse_gitignore_patterns : Text → List Text
unfolding gitignore_loop unix_lines
parse_gitignore_patterns content = sort_strings (gitignore_loop (split b'\n' (unix_lines content)))

-- strings.ContainsAny(pattern, "*?[]")
unfoldable pub has_glob_byte : Text → Bool
has_glob_byte s = has_byte b'*' s || has_byte b'?' s || has_byte b'[' s || has_byte b']' s

unfoldable pub matches_pattern : Text → Text → Bool
unfolding has_glob_byte
matches_pattern rel_path pattern =
    if has_suffix pattern (codes "/")
    then (let prefix = trim_last slash pattern in
        not (is_empty prefix)
        && (text_eq rel_path prefix || has_prefix rel_path (prefix ++ codes "/")))
    else path_match pattern rel_path
      || (not (has_byte slash pattern) && path_match pattern (base rel_path))
      || (not (has_glob_byte pattern)
          && (text_eq rel_path pattern || has_prefix rel_path (pattern ++ codes "/")))

unfoldable pub matches_ignore_pattern : Text → List Text → Bool
unfolding matches_pattern
matches_ignore_pattern rel_path [] = false
matches_ignore_pattern rel_path (pattern ∷ patterns) =
    matches_pattern rel_path pattern || matches_ignore_pattern rel_path patterns

unfoldable pub classify_language : Text → Option Text
classify_language rel_path =
    let lower = to_lower rel_path in
    if has_suffix lower (codes ".blade.php")
    then some (codes "blade")
    else lookup (to_lower (ext lower)) source_extensions

unfoldable pub is_documentation_path : Text → Bool
is_documentation_path rel_path = member (to_lower (ext rel_path)) documentation_extensions

unfoldable pub is_excluded_secret_match : Text → Text → Text → List Text → Bool
is_excluded_secret_match full_path name hint [] = false
is_excluded_secret_match full_path name hint (raw ∷ patterns) =
    let rest = is_excluded_secret_match full_path name hint patterns in
    let pattern = to_lower (trim_space (replace_byte b'\\' slash raw)) in
    if is_empty pattern
    then rest
    else text_eq pattern hint || path_match pattern name || path_match pattern full_path || rest

unfoldable pub secret_loop : Text → Text → List Text → List Text → Bool
unfolding is_excluded_secret_match
secret_loop lower name excluded [] = false
secret_loop lower name excluded (hint ∷ hints) =
    let rest = secret_loop lower name excluded hints in
    if contains name hint && not (is_excluded_secret_match lower name hint excluded)
    then true
    else rest

unfoldable pub is_likely_secret_path_with_exclusions : Text → List Text → Bool
unfolding secret_loop is_documentation_path
is_likely_secret_path_with_exclusions rel_path excluded =
    let lower = to_lower (trim_space rel_path) in
    if is_empty lower || (contains lower (codes "secret") && is_documentation_path lower)
    then false
    else secret_loop lower (base lower) excluded secret_path_hints

-- More than 30 of 100 bytes of the sample are no text. The quotient of two numbers up to 4096 is
-- greater than the float 0.30 exactly when it is greater than 3/10.
unfoldable pub count_non_text : Text → ℕ
count_non_text [] = 0
count_non_text (c ∷ s) =
    let rest = count_non_text s in
    if (c == 0x09) || (c == 0x0A) || (c == 0x0D)
    then rest
    else if ltb 0x1F c && ltb c 0x7F
    then rest
    else ℕ.suc rest

unfoldable pub is_likely_binary_content : Text → Bool
unfolding count_non_text
is_likely_binary_content [] = false
is_likely_binary_content (c ∷ s) =
    let sample = take 4096 (c ∷ s) in
    has_byte 0 (c ∷ s) || ltb (3 * length sample) (10 * count_non_text sample)
