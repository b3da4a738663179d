-- ===== src/Orchestration/Indexing/Discovery/Screens.antt =====
-- That the discoveries of src/internal/orchestration/handlers_indexing.go return source files only.
use gocodemunch_mcp.Base.{
  ℕ, zero, suc, Text, text_eq, text_eq_iff, Map, true, false, ◌||◌, Option, none, some, List, [],
  ◌∷◌, ◌≡◌, refl, sym, subst, ◌∙◌, arith, take, keys, member, sort_strings, member-sort_strings,
  Bool-cases, Option-cases, ◌⊎◌, inl, inr,
}
use gocodemunch_mcp.Base.Int.{ℤ}
use gocodemunch_mcp.Orchestration.Indexing.Below.{IsBelow, normalize_remote_tree_path-IsBelow}
use gocodemunch_mcp.Orchestration.Indexing.Priority.{sort_by_priority, insert_by_priority}
use gocodemunch_mcp.Orchestration.Indexing.Remote.{text_at}
use gocodemunch_mcp.Orchestration.Indexing.Screening.{
  TreePath, path, refused, normalize_remote_tree_path, should_skip_remote_path,
  normalize_ignore_patterns, parse_gitignore_patterns, matches_ignore_pattern, classify_language,
  is_likely_secret_path_with_exclusions,
}
use gocodemunch_mcp.Orchestration.Indexing.Discovery.{
  Screened, source, skipped, screen_language, screen_tree_path, screen_path, screen_content, settle,
  Found, nothing_found, DiscoveryResult, found, context_ended, discovery_loop, file_limit,
  limit_files, limit_result,
}
use gocodemunch_mcp.Orchestration.Indexing.Discovery.Runs.{
  keep_content, content_file, discover_remote_source_files,
}

-- A path that passes the tests.
pub record IsSource (gitignore extra excluded : List Text) (p : Text) : Type 0 where
  pub below : IsBelow p
  pub in_no_skipped_directory : should_skip_remote_path p ≡ false
  pub not_ignored : matches_ignore_pattern p gitignore ≡ false
  pub not_ignored_by_caller : matches_ignore_pattern p extra ≡ false
  pub in_a_language : (language : Text) × (classify_language p ≡ some language)
  pub no_secret : is_likely_secret_path_with_exclusions p excluded ≡ false

member-take : (f : Text) (n : ℕ) (xs : List Text) → member f (take n xs) ≡ true → member f xs ≡ true
unfolding member
member-take f zero xs h = absurd (ground (arith, h))
member-take f (suc n) [] h = h
member-take f (suc n) (x ∷ xs) h = ground (arith, h, member-take f n xs)

member-insert_by_priority :
    (z x : Text) (ys : List Text)
    → member z (insert_by_priority x ys) ≡ (text_eq x z || member z ys)
unfolding member insert_by_priority
member-insert_by_priority z x [] = refl
member-insert_by_priority z x (y ∷ ys) = ground (arith, member-insert_by_priority z x ys)

member-sort_by_priority : (z : Text) (xs : List Text) → member z (sort_by_priority xs) ≡ member z xs
unfolding sort_by_priority
member-sort_by_priority z [] = refl
member-sort_by_priority z (x ∷ xs) =
    member-insert_by_priority z x (sort_by_priority xs)
    ∙ rw (member-sort_by_priority z xs) (unfold member in refl)

member-limit_files :
    (f : Text) (limit : ℕ) (d : Found)
    → member f (limit_files limit d).source_files ≡ true
    → member f d.source_files ≡ true
unfolding limit_files
member-limit_files f limit d h = ground (
  arith,
  h,
  member-take f limit (sort_by_priority (sort_strings d.source_files)),
  member-sort_by_priority f (sort_strings d.source_files),
  member-sort_strings f d.source_files,
)

limit_result-found :
    (limit : ℕ) (d : Found) (r : DiscoveryResult)
    → limit_result limit r ≡ found d
    → (d' : Found) × (r ≡ found d') × (limit_files limit d' ≡ d)
unfolding limit_result
limit_result-found limit d (found d') h = (d', refl, cc)
limit_result-found limit d (context_ended message) h = absurd (ground (arith, h))

member_cases :
    (z x : Text) (ys : List Text) → member z (x ∷ ys) ≡ true → (x ≡ z) ⊎ (member z ys ≡ true)
unfolding member
member_cases z x ys h = elim (Bool-cases (text_eq x z)) [
  | inl e ↦ inl ((text_eq_iff x z).0 e)
  | inr e ↦ inr (ground (arith, h, e))
]

module _ (gitignore extra excluded : List Text) where
  screen_language-source :
      (q p language : Text) (o : Option Text)
      → screen_language excluded q o ≡ source p language
      → (q ≡ p) × (o ≡ some language) × (is_likely_secret_path_with_exclusions q excluded ≡ false)
  screen_language-source q p language none h = absurd (ground (arith, h))
  screen_language-source q p language (some l) h = ground (arith, h)

  screen_path-IsSource :
      (raw p language : Text)
      → screen_path gitignore extra excluded raw ≡ source p language
      → IsSource gitignore extra excluded p
  unfolding screen_path
  screen_path-IsSource raw p language h = from (normalize_remote_tree_path raw) refl h
    where
      from :
          (t : TreePath)
          → normalize_remote_tree_path raw ≡ t
          → screen_tree_path gitignore extra excluded t ≡ source p language
          → IsSource gitignore extra excluded p
      from (refused reason) e k = absurd (ground (arith, k))
      from (path q) e k =
          let last : screen_language excluded q (classify_language q) ≡ source p language =
            ground (arith, k) in
          let (same, known, secret) =
            screen_language-source q p language (classify_language q) last in
          subst (IsSource gitignore extra excluded) same (record {
            below = normalize_remote_tree_path-IsBelow raw q e;
            in_no_skipped_directory = ground (arith, k);
            not_ignored = ground (arith, k);
            not_ignored_by_caller = ground (arith, k);
            in_a_language = (language, known);
            no_secret = secret;
          })

  screen_content-source :
      (content raw p language : Text)
      → screen_content content (screen_path gitignore extra excluded raw) ≡ source p language
      → IsSource gitignore extra excluded p
  screen_content-source content raw p language h =
      from (screen_path gitignore extra excluded raw) refl h
    where
      from :
          (s : Screened)
          → screen_path gitignore extra excluded raw ≡ s
          → screen_content content s ≡ source p language
          → IsSource gitignore extra excluded p
      from (skipped reason) e k = absurd (ground (arith, k))
      from (source q l) e k =
          let same : q ≡ p = ground (arith, k) in
          subst (IsSource gitignore extra excluded) same (screen_path-IsSource raw q l e)

  abbrev AllSources : Found → Type 0
  AllSources d = (f : Text) → member f d.source_files ≡ true → IsSource gitignore extra excluded f

  module _ (sha256_hex : Text → Text) (tree prefetched : Map Text) where
    content_file-AllSources :
        (raw : Text) (d : Found)
        → AllSources d
        → AllSources (content_file sha256_hex tree prefetched gitignore extra excluded raw d)
    unfolding content_file
    content_file-AllSources raw d a =
        from (screen_content (text_at raw tree) (screen_path gitignore extra excluded raw)) refl
      where
        from :
            (s : Screened)
            → screen_content (text_at raw tree) (screen_path gitignore extra excluded raw) ≡ s
            → AllSources (settle (keep_content sha256_hex prefetched (text_at raw tree)) s d)
        from (skipped reason) e f m = a f m
        from (source p language) e f m = elim (member_cases f p d.source_files m) [
          | inl same ↦
              subst (IsSource gitignore extra excluded) same
                (screen_content-source (text_at raw tree) raw p language e)
          | inr old ↦ a f old
        ]

    discovery_loop-AllSources :
        (ctx : ℕ → Option Text) (i : ℕ) (paths : List Text) (d d' : Found)
        → AllSources d
        → discovery_loop ctx
            (content_file sha256_hex tree prefetched gitignore extra excluded)
            i
            paths
            d
          ≡ found d'
        → AllSources d'
    unfolding discovery_loop
    discovery_loop-AllSources ctx i [] d d' a h = let e : d ≡ d' = cc in subst AllSources e a
    discovery_loop-AllSources ctx i (raw ∷ paths) d d' a h = elim (Option-cases (ctx i)) [
      | inl e ↦
          discovery_loop-AllSources ctx (suc i) paths
            (content_file sha256_hex tree prefetched gitignore extra excluded raw d) d'
            (content_file-AllSources raw d a) (ground (arith, h, e))
      | inr (message, e) ↦ absurd (ground (arith, h, e))
    ]

-- Each file of a discovery that ends well is below the root of the tree, in none of the skipped
-- directories, matched by no pattern of the tree's .gitignore or of the caller, written in a known
-- language and not likely to hold a secret; also when files are left out for the limit.
pub discover_remote_source_files-IsSource :
    (sha256_hex : Text → Text) (ctx : ℕ → Option Text) (tree prefetched : Map Text)
    (gitignore : Text) (extra excluded : List Text) (max_files : ℤ) (d : Found) (f : Text)
    → discover_remote_source_files sha256_hex ctx tree gitignore extra excluded max_files prefetched
      ≡ found d
    → member f d.source_files ≡ true
    → IsSource (parse_gitignore_patterns gitignore) (normalize_ignore_patterns extra) excluded f
unfolding discover_remote_source_files
discover_remote_source_files-IsSource sha256_hex ctx tree prefetched gitignore extra excluded
      max_files d f h m =
    let (all_found, e, same) = limit_result-found (file_limit max_files) d _ h in
    discovery_loop-AllSources (parse_gitignore_patterns gitignore) (normalize_ignore_patterns extra)
      excluded sha256_hex tree prefetched ctx 0 (sort_strings (keys tree)) nothing_found all_found
      (λ g k. absurd (unfold member in ground (arith, k))) e f
      (member-limit_files f (file_limit max_files) all_found
        (subst (λ (x : Found). member f x.source_files ≡ true) (sym same) m))
