-- ===== src/Orchestration/Indexing/Discovery/Accounts.antt =====
-- What the discoveries of src/internal/orchestration/handlers_indexing.go count, and how many files
-- they keep.
use gocodemunch_mcp.Base.{
  ℕ, suc, ◌+◌, ◌-◌, ◌≤◌, Text, codes, text_eq, Map, lookup, insert, Bool, true, not, Option, none,
  some, List, [], ◌∷◌, ◌≡◌, refl, ap, subst, ◌∙◌, if◌then◌else◌, arith, length, length-take, keys,
  sort_strings, length-sort_strings, Option-cases, inl, inr, lookup-insert,
}
use gocodemunch_mcp.Base.Int.{ℤ}
use gocodemunch_mcp.Orchestration.Indexing.Remote.{text_at}
use gocodemunch_mcp.Orchestration.Indexing.Screening.{
  parse_gitignore_patterns, normalize_ignore_patterns, path, refused, TreePath,
  normalize_remote_tree_path,
}
use gocodemunch_mcp.Orchestration.Indexing.Priority.{sort_by_priority, insert_by_priority}
use gocodemunch_mcp.Orchestration.Indexing.Discovery.{
  increment, Screened, source, skipped, screen_path, screen_content, screen_tree_path, settle,
  Found, nothing_found, found, discovery_loop, file_limit, limit_files, limit_result,
}
use gocodemunch_mcp.Orchestration.Indexing.Discovery.Runs.{
  keep_content, content_file, discover_remote_source_files,
}

abbrev pub sum_counts : Map ℕ → ℕ
sum_counts [] = 0
sum_counts ((k, n) ∷ m) = n + sum_counts m

abbrev pub count_at : Option ℕ → ℕ
count_at none = 0
count_at (some n) = n

sum_counts-insert :
    (k : Text) (n : ℕ) (m : Map ℕ)
    → sum_counts (insert k n m) + count_at (lookup k m) ≡ n + sum_counts m
unfolding insert lookup
sum_counts-insert k n [] = omega arith
sum_counts-insert k n ((j, w) ∷ m) = ground (arith, sum_counts-insert k n m)

sum_counts-increment : (k : Text) (m : Map ℕ) → sum_counts (increment k m) ≡ suc (sum_counts m)
unfolding increment
sum_counts-increment k m = elim (Option-cases (lookup k m)) [
  | inl e ↦ ground (arith, e, sum_counts-insert k 1 m)
  | inr (n, e) ↦ ground (arith, e, sum_counts-insert k (suc n) m)
]

length-insert_by_priority :
    (x : Text) (ys : List Text) → length (insert_by_priority x ys) ≡ suc (length ys)
unfolding insert_by_priority
length-insert_by_priority x [] = refl
length-insert_by_priority x (y ∷ ys) = ground (arith, length-insert_by_priority x ys)

pub length-sort_by_priority : (xs : List Text) → length (sort_by_priority xs) ≡ length xs
unfolding sort_by_priority
length-sort_by_priority [] = refl
length-sort_by_priority (x ∷ xs) =
    length-insert_by_priority x (sort_by_priority xs) ∙ ap suc (length-sort_by_priority xs)

length-keys : {V : Type 0} (m : Map V) → length (keys m) ≡ length m
unfolding keys
length-keys [] = refl
length-keys ((k, v) ∷ m) = ap suc (length-keys m)

pub lookup-increment :
    (k j : Text) (m : Map ℕ)
    → lookup j (increment k m)
      ≡ (if text_eq k j then some (suc (count_at (lookup k m))) else lookup j m)
unfolding increment
lookup-increment k j m = elim (Option-cases (lookup k m)) [
  | inl e ↦ ground (arith, e, lookup-insert k j 1 m)
  | inr (n, e) ↦ ground (arith, e, lookup-insert k j (suc n) m)
]

-- `n` files are accounted for, and none by the limit yet.
abbrev pub Accounts : ℕ → Found → Type 0
Accounts n d =
    (sum_counts d.skip_counts + length d.source_files ≡ n)
    × (lookup (codes "file_limit") d.skip_counts ≡ some 0)

-- No reason of a screen is the limit's.
abbrev is_reason : Text → Bool
is_reason reason = not (text_eq reason (codes "file_limit"))

abbrev refuses_with_reason : TreePath → Bool
refuses_with_reason (path p) = true
refuses_with_reason (refused reason) = is_reason reason

abbrev skips_with_reason : Screened → Bool
skips_with_reason (skipped reason) = is_reason reason
skips_with_reason (source rel_path language) = true

normalize_remote_tree_path-reason :
    (raw : Text) → refuses_with_reason (normalize_remote_tree_path raw) ≡ true
unfolding normalize_remote_tree_path text_eq
normalize_remote_tree_path-reason raw = ground arith

module _ (gitignore extra excluded : List Text) where
  screen_tree_path-reason :
      (t : TreePath)
      → refuses_with_reason t ≡ true
      → skips_with_reason (screen_tree_path gitignore extra excluded t) ≡ true
  unfolding text_eq
  screen_tree_path-reason (refused reason) h = h
  screen_tree_path-reason (path p) h = ground arith

  screen_content-reason :
      (content raw : Text)
      → skips_with_reason (screen_content content (screen_path gitignore extra excluded raw)) ≡ true
  unfolding text_eq screen_path
  screen_content-reason content raw = ground (
    arith,
    screen_tree_path-reason (normalize_remote_tree_path raw)
        (normalize_remote_tree_path-reason raw),
  )

skipped-Accounts :
    (n : ℕ) (reason : Text) (d : Found)
    → is_reason reason ≡ true
    → Accounts n d
    → Accounts (suc n) (record d { skip_counts = increment reason d.skip_counts })
skipped-Accounts n reason d h (total, zero_left) = (
  omega (arith, sum_counts-increment reason d.skip_counts, total),
  ground (arith, h, zero_left, lookup-increment reason (codes "file_limit") d.skip_counts),
)

module _ (sha256_hex : Text → Text) (tree prefetched : Map Text)
    (gitignore extra excluded : List Text) where
  settle-Accounts :
      (n : ℕ) (content : Text) (s : Screened) (d : Found)
      → skips_with_reason s ≡ true
      → Accounts n d
      → Accounts (suc n) (settle (keep_content sha256_hex prefetched content) s d)
  settle-Accounts n content (skipped reason) d h a = skipped-Accounts n reason d h a
  settle-Accounts n content (source p language) d h (total, zero_left) =
      (omega (arith, total), zero_left)

  content_file-Accounts :
      (n : ℕ) (raw : Text) (d : Found)
      → Accounts n d
      → Accounts (suc n) (content_file sha256_hex tree prefetched gitignore extra excluded raw d)
  unfolding content_file
  content_file-Accounts n raw d a =
      settle-Accounts n (text_at raw tree) _ d
        (screen_content-reason gitignore extra excluded (text_at raw tree) raw) a

  -- With a context that does not end, every file is accounted for.
  pub discovery_loop-Accounts :
      (i n : ℕ) (paths : List Text) (d : Found)
      → Accounts n d
      → (d' : Found) × (discovery_loop
            (λ i. none)
            (content_file sha256_hex tree prefetched gitignore extra excluded)
            i
            paths
            d
          ≡ found d')
        × Accounts (n + length paths) d'
  unfolding discovery_loop
  discovery_loop-Accounts i n [] d a = (d, refl, subst (λ k. Accounts k d) (omega arith) a)
  discovery_loop-Accounts i n (raw ∷ paths) d a =
      let (d', e, a') =
        discovery_loop-Accounts (suc i) (suc n) paths _ (content_file-Accounts n raw d a) in
      (d', e, subst (λ k. Accounts k d') (omega arith) a')

limit_files-Accounts :
    (limit n : ℕ) (d : Found)
    → Accounts n d
    → (sum_counts (limit_files limit d).skip_counts + length (limit_files limit d).source_files ≡ n)
      × (length (limit_files limit d).source_files ≤ limit)
unfolding limit_files
limit_files-Accounts limit n d (total, zero_left) = ground (
  arith,
  total,
  zero_left,
  length-sort_strings d.source_files,
  length-sort_by_priority (sort_strings d.source_files),
  length-take limit (sort_by_priority (sort_strings d.source_files)),
  sum_counts-insert (codes "file_limit") (length (sort_strings d.source_files) - limit)
      d.skip_counts,
)

-- Unless the context ends, a discovery finds files of a tree, no more of them than the limit allows,
-- and each file of the tree is among them or counted once under the reason why it is left out.
pub discover_remote_source_files-Accounts :
    (sha256_hex : Text → Text) (tree prefetched : Map Text) (gitignore : Text)
    (extra excluded : List Text) (max_files : ℤ)
    → (d : Found) × (discover_remote_source_files sha256_hex
          (λ i. none)
          tree
          gitignore
          extra
          excluded
          max_files
          prefetched
        ≡ found d)
      × (sum_counts d.skip_counts + length d.source_files ≡ length tree)
      × (length d.source_files ≤ file_limit max_files)
unfolding discover_remote_source_files limit_result
discover_remote_source_files-Accounts sha256_hex tree prefetched gitignore extra excluded
      max_files =
    let (d, e, a) =
      discovery_loop-Accounts sha256_hex tree prefetched (parse_gitignore_patterns gitignore)
        (normalize_ignore_patterns extra) excluded 0 0 (sort_strings (keys tree)) nothing_found
        (refl, unfold lookup text_eq in refl) in
    let (total, few) = limit_files-Accounts (file_limit max_files) _ d a in
    (
      limit_files (file_limit max_files) d,
      ap (limit_result (file_limit max_files)) e,
      omega (arith, total, length-sort_strings (keys tree), length-keys tree),
      few,
    )
