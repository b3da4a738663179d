-- ===== src/Orchestration/Indexing/Discovery/Reasons.antt =====
-- Why the files of a remote tree are left out, and how many under each reason:
-- discoverRemoteSourceFiles of src/internal/orchestration/handlers_indexing.go. The reasons stand in a
-- table, first come first served, apart from the tests of the code that follow one another.
use gocodemunch_mcp.Base.{
  ℕ, suc, min, ◌+◌, ◌-◌, Text, codes, text_eq, text_eq_iff, Map, lookup, is_empty, trim_byte,
  trim_prefix, trim_space, replace_byte, Bool, true, false, Option, none, some, List, [], ◌∷◌, ◌≡◌,
  refl, sym, ap, ◌∙◌, if◌then◌else◌, ltb, arith, length, length-take, keys, sort_strings,
  length-sort_strings, lookup-insert,
}
use gocodemunch_mcp.Base.Int.{ℤ}
use gocodemunch_mcp.Orchestration.Indexing.Remote.{text_at}
use gocodemunch_mcp.Orchestration.Indexing.Screening.{
  parse_gitignore_patterns, normalize_ignore_patterns, path, refused, TreePath,
  normalize_remote_tree_path, should_skip_remote_path, matches_ignore_pattern, classify_language,
  is_likely_secret_path_with_exclusions, is_likely_binary_content,
}
use gocodemunch_mcp.Orchestration.Indexing.Priority.{sort_by_priority}
use gocodemunch_mcp.Orchestration.Indexing.Discovery.{
  no_skips, Screened, source, skipped, screen_path, screen_content, screen_tree_path, settle, Found,
  nothing_found, found, discovery_loop, file_limit, limit_files, limit_result,
}
use gocodemunch_mcp.Orchestration.Indexing.Discovery.Runs.{
  keep_content, content_file, discover_remote_source_files,
}
use gocodemunch_mcp.Orchestration.Indexing.Discovery.Accounts.{
  count_at, lookup-increment, discovery_loop-Accounts, length-sort_by_priority,
}

-- The first reason of a table whose test holds.
abbrev pub first_reason : List (Bool × Text) → Option Text
first_reason [] = none
first_reason ((holds, reason) ∷ table) = if holds then some reason else first_reason table

abbrev pub has_no_language : Option Text → Bool
has_no_language none = true
has_no_language (some language) = false

abbrev pub hit : Text → Option Text → ℕ
hit reason none = 0
hit reason (some r) = if text_eq r reason then 1 else 0

abbrev pub miss : Option Text → ℕ
miss none = 1
miss (some r) = 0

-- How many files are left out for a reason, and how many are not left out.
unfoldable pub times : (Text → Option Text) → Text → List Text → ℕ
times why reason [] = 0
times why reason (raw ∷ raws) = hit reason (why raw) + times why reason raws

unfoldable pub times_none : (Text → Option Text) → List Text → ℕ
times_none why [] = 0
times_none why (raw ∷ raws) = miss (why raw) + times_none why raws

sum_steps : (a b c d h h' : ℕ) → a ≡ b + c → c ≡ h + d → h ≡ h' → a ≡ (h' + b) + d
sum_steps a b c d h h' p q r = omega (arith, p, q, r)

plus_zero : (n : ℕ) → n + 0 ≡ n
plus_zero n = omega arith

-- A name of which nothing is left but separators and blanks.
abbrev pub is_nameless : Text → Bool
is_nameless raw =
    is_empty (trim_byte b'/' (trim_prefix (trim_space (replace_byte b'\\' b'/' raw)) (codes "./")))

module _ (gitignore extra excluded : List Text) where
  abbrev pub path_reason : Text → Text → TreePath → Option Text
  path_reason raw content (refused reason) =
      some (if is_nameless raw then codes "skip_file" else codes "path_traversal")
  path_reason raw content (path p) = first_reason (
      (should_skip_remote_path p, codes "skip_dir")
      ∷ (matches_ignore_pattern p gitignore, codes "gitignore")
      ∷ (matches_ignore_pattern p extra, codes "extra_ignore")
      ∷ (has_no_language (classify_language p), codes "wrong_extension")
      ∷ (is_likely_secret_path_with_exclusions p excluded, codes "secret")
      ∷ (ltb 512_000 (length content), codes "too_large")
      ∷ (is_likely_binary_content content, codes "binary")
      ∷ [])

  -- Why a file of the tree is left out, if it is.
  abbrev pub left_out_for : Map Text → Text → Option Text
  left_out_for tree raw = path_reason raw (text_at raw tree) (normalize_remote_tree_path raw)

  reason_in : Screened → Option Text
  reason_in (skipped reason) = some reason
  reason_in (source p language) = none

  tree_path_reason :
      (raw content : Text) (t : TreePath)
      → normalize_remote_tree_path raw ≡ t
      → reason_in (screen_content content (screen_tree_path gitignore extra excluded t))
        ≡ path_reason raw content t
  unfolding reason_in normalize_remote_tree_path
  tree_path_reason raw content (refused reason) e = ground (arith, e)
  tree_path_reason raw content (path p) e = ground arith

  screened_reason :
      (raw content : Text)
      → reason_in (screen_content content (screen_path gitignore extra excluded raw))
        ≡ path_reason raw content (normalize_remote_tree_path raw)
  unfolding screen_path
  screened_reason raw content = tree_path_reason raw content (normalize_remote_tree_path raw) refl

  module _ (sha256_hex : Text → Text) (tree prefetched : Map Text) where
    -- One file: one count more under its reason, or one file more.
    settle_counts :
        (reason content : Text) (s : Screened) (d : Found)
        → (count_at
              (lookup reason (settle (keep_content sha256_hex prefetched content) s d).skip_counts)
            ≡ hit reason (reason_in s) + count_at (lookup reason d.skip_counts))
          × (length (settle (keep_content sha256_hex prefetched content) s d).source_files
              ≡ miss (reason_in s) + length d.source_files)
    unfolding reason_in
    settle_counts reason content (skipped r) d =
        (ground (arith, lookup-increment r reason d.skip_counts, text_eq_iff r reason), omega arith)
    settle_counts reason content (source p language) d = (omega arith, omega arith)

    discovery_loop-times :
        (reason : Text) (i : ℕ) (raws : List Text) (d d' : Found)
        → discovery_loop
            (λ i. none)
            (content_file sha256_hex tree prefetched gitignore extra excluded)
            i
            raws
            d
          ≡ found d'
        → (count_at (lookup reason d'.skip_counts)
            ≡ times (left_out_for tree) reason raws + count_at (lookup reason d.skip_counts))
          × (length d'.source_files ≡ times_none (left_out_for tree) raws + length d.source_files)
    unfolding discovery_loop times times_none content_file
    discovery_loop-times reason i [] d d' e =
        let q : d ≡ d' = ground (arith, e) in rw (sym q) (omega arith, omega arith)
    discovery_loop-times reason i (raw ∷ raws) d d' e =
        let (counted, kept) =
          discovery_loop-times reason (suc i) raws
            (content_file sha256_hex tree prefetched gitignore extra excluded raw d) d' e in
        let (one, file) =
          settle_counts reason (text_at raw tree)
            (screen_content (text_at raw tree) (screen_path gitignore extra excluded raw)) d in
        let why = screened_reason raw (text_at raw tree) in
        (
          sum_steps _ _ _ _ _ _ counted one (ap (hit reason) why),
          sum_steps _ _ _ _ _ _ kept file (ap miss why),
        )

-- No count of the table is another than 0 at the start.
no_skips-zero : (reason : Text) → count_at (lookup reason no_skips) ≡ 0
unfolding lookup
no_skips-zero reason = ground arith

limit_files-times :
    (limit : ℕ) (reason : Text) (d : Found)
    → lookup (codes "file_limit") d.skip_counts ≡ some 0
    → (count_at (lookup reason (limit_files limit d).skip_counts) ≡ (
        if text_eq (codes "file_limit") reason
        then length d.source_files - limit
        else count_at (lookup reason d.skip_counts)))
      × (length (limit_files limit d).source_files ≡ min limit (length d.source_files))
unfolding limit_files
limit_files-times limit reason d zero_left = ground (
  arith,
  zero_left,
  text_eq_iff (codes "file_limit") reason,
  length-sort_strings d.source_files,
  length-sort_by_priority (sort_strings d.source_files),
  length-take limit (sort_by_priority (sort_strings d.source_files)),
  lookup-insert (codes "file_limit") reason (length (sort_strings d.source_files) - limit)
      d.skip_counts,
)

-- Unless the context ends, a discovery finds as many files as are not left out, up to the limit. Under
-- each reason it counts exactly the files of the tree that are left out for it, by a table of which the
-- first test that holds decides, and under file_limit those that are too many.
pub discover_remote_source_files-times :
    (sha256_hex : Text → Text) (tree prefetched : Map Text) (gitignore : Text)
    (extra excluded : List Text) (max_files : ℤ) (reason : Text)
    → let why =
        left_out_for
          (parse_gitignore_patterns gitignore)
          (normalize_ignore_patterns extra)
          excluded
          tree in
      let raws = sort_strings (keys tree) in
      (d : Found) × (discover_remote_source_files sha256_hex
          (λ i. none)
          tree
          gitignore
          extra
          excluded
          max_files
          prefetched
        ≡ found d)
      × (length d.source_files ≡ min (file_limit max_files) (times_none why raws))
      × (count_at (lookup reason d.skip_counts) ≡ (
          if text_eq (codes "file_limit") reason
          then times_none why raws - file_limit max_files
          else times why reason raws))
unfolding discover_remote_source_files limit_result
discover_remote_source_files-times sha256_hex tree prefetched gitignore extra excluded max_files
      reason =
    let patterns = parse_gitignore_patterns gitignore in
    let extras = normalize_ignore_patterns extra in
    let raws = sort_strings (keys tree) in
    let (d, e, a) =
      discovery_loop-Accounts sha256_hex tree prefetched patterns extras excluded 0 0 raws
        nothing_found (refl, unfold lookup text_eq in refl) in
    let (counted, kept) =
      discovery_loop-times patterns extras excluded sha256_hex tree prefetched reason 0 raws
        nothing_found d e in
    let (count, few) = limit_files-times (file_limit max_files) reason d a.1 in
    (
      limit_files (file_limit max_files) d,
      ap (limit_result (file_limit max_files)) e,
      few ∙ ap (min (file_limit max_files)) (kept ∙ plus_zero _),
      ground (arith, count, counted, kept, no_skips-zero reason),
    )
