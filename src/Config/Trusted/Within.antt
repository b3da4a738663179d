-- ===== src/Config/Trusted/Within.antt =====
-- Which folders the trusted folders of a project's configuration can be:
-- normalizeTrustedFolderList of src/internal/config/config.go.
use gocodemunch_mcp.Base.{
  Text, codes, text_eq, text_eq_refl, trim_space, is_empty, has_prefix, member, true, false, ◌||◌,
  ◌≢◌, ◌++◌, join, false, some, Option-cases, Bool-cases, List, [], ◌∷◌, ◌≡◌, refl, sym, subst, inl,
  inr, arith, All, IsSimple,
}
use gocodemunch_mcp.Watcher.Paths.{
  clean, join_paths, relative, relative_segments, relative_text, dots,
}
use gocodemunch_mcp.Watcher.Paths.Inside.{relative_cases}
use gocodemunch_mcp.Config.Parsing.Lists.{IsNew, nil-IsNew, cons-IsNew}
use gocodemunch_mcp.Config.Trusted.{
  System, stays_below, path_within_root, normalize_absolute_path, within_project, is_relative,
  drop_two, normalize_trusted_folder_path, trusted_loop, normalize_trusted_folder_list,
}

relative_segments_self : (xs : List Text) → relative_segments xs xs ≡ some []
unfolding relative_segments
relative_segments_self [] = refl
relative_segments_self (x ∷ xs) = rw (text_eq_refl x, relative_segments_self xs) refl

path_within_root_self : (root : Text) → path_within_root root root ≡ true
unfolding path_within_root stays_below relative relative_text text_eq
path_within_root_self root = elim (Bool-cases (clean root).rooted) [
  | inl e ↦ rw (e, relative_segments_self (clean root).segments) refl
  | inr e ↦ rw (e, relative_segments_self (clean root).segments) refl
]

-- A folder that is the root or below it: its clean form is the root's with some segments more, the
-- first of which does not lead up.
abbrev pub IsBelowRoot : Text → Text → Type 0
IsBelowRoot root p =
    ((clean p).rooted ≡ (clean root).rooted)
    × (segments : List Text) × ((clean p).segments ≡ (clean root).segments ++ segments)
    × ((rest : List Text) → segments ≢ dots ∷ rest)

leads_up : (rest : List Text) → stays_below (relative_text (dots ∷ rest)) ≡ false
unfolding stays_below relative_text join text_eq has_prefix
leads_up [] = refl
leads_up (s ∷ rest) = refl

path_within_root-IsBelowRoot : (root p : Text) → path_within_root root p ≡ true → IsBelowRoot root p
unfolding path_within_root
path_within_root-IsBelowRoot root p h = elim (Option-cases (relative (clean root) (clean p))) [
  | inl e ↦ absurd (ground (arith, h, e))
  | inr (rel, e) ↦
      let (segments, q, rooted, cases) = relative_cases (clean root) (clean p) rel e in
      let stays : stays_below (relative_text segments) ≡ true =
        subst (λ r. stays_below r ≡ true) q (ground (arith, h, e)) in
      let down : (rest : List Text) → segments ≢ dots ∷ rest = λ rest up.
        ground
          (arith, leads_up rest, subst (λ ss. stays_below (relative_text ss) ≡ true) up stays) in
      (
        rooted,
        segments,
        elim cases [ inl same ↦ same | inr (rest, up) ↦ absurd (down rest up) ],
        down,
      )
]

All-below :
    (root : Text) (ps : List Text)
    → All (λ p. path_within_root root p ≡ true) ps
    → All (IsBelowRoot root) ps
All-below root [] h = tt
All-below root (p ∷ ps) (h, hs) = (path_within_root-IsBelowRoot root p h, All-below root ps hs)

module _ (system : System) where
  within_project_lem :
      (root path p : Text)
      → within_project system root path ≡ some p
      → path_within_root root p ≡ true
  unfolding within_project
  within_project_lem root path p h =
      elim (Option-cases (normalize_absolute_path system (join_paths root path))) [
        | inl e ↦ absurd (ground (arith, h, e))
        | inr (q, e) ↦ ground (arith, h, e)
      ]

  normalize_trusted_folder_path-within :
      (raw root p : Text)
      → is_empty root ≡ false
      → is_relative raw ≡ true
      → normalize_trusted_folder_path system raw root ≡ some p
      → path_within_root root p ≡ true
  unfolding normalize_trusted_folder_path
  normalize_trusted_folder_path-within raw root p n r h =
      elim (Bool-cases (text_eq raw (codes ".") || text_eq raw (codes "./"))) [
        | inl e ↦
            let q : root ≡ p = ground (arith, h, n, e) in
            subst (λ x. path_within_root root x ≡ true) q (path_within_root_self root)
        | inr e ↦ elim (Bool-cases (has_prefix raw (codes "./"))) [
          | inl d ↦ within_project_lem root (drop_two raw) p (ground (arith, h, n, e, d))
          | inr d ↦ within_project_lem root raw p (ground (arith, h, n, e, d, r))
        ]
      ]

  -- An entry that is neither absolute nor below the home directory.
  abbrev pub IsProjectPath : Text → Type 0
  IsProjectPath raw = is_relative (trim_space raw) ≡ true

  trusted_loop-within :
      (root : Text) (seen values folders : List Text)
      → is_empty root ≡ false
      → All IsProjectPath values
      → trusted_loop system root seen values ≡ some folders
      → IsNew seen folders × All (λ p. path_within_root root p ≡ true) folders
  unfolding trusted_loop
  trusted_loop-within root seen [] folders n r h =
      let q : [] ≡ folders = ground (arith, h) in rw (sym q) (nil-IsNew seen, tt)
  trusted_loop-within root seen (raw ∷ values) folders n (r, rs) h =
      elim (Bool-cases (is_empty (trim_space raw))) [
        | inl e ↦ trusted_loop-within root seen values folders n rs (ground (arith, h, e))
        | inr e ↦ elim (Option-cases (normalize_trusted_folder_path system (trim_space raw) root)) [
          | inl f ↦ absurd (ground (arith, h, e, f))
          | inr (resolved, f) ↦ elim (Bool-cases (member resolved seen)) [
            | inl m ↦ trusted_loop-within root seen values folders n rs (ground (arith, h, e, f, m))
            | inr m ↦ elim (Option-cases (trusted_loop system root (resolved ∷ seen) values)) [
              | inl g ↦ absurd (ground (arith, h, e, f, m, g))
              | inr (rest, g) ↦
                  let q : resolved ∷ rest ≡ folders = ground (arith, h, e, f, m, g) in
                  let (new, all) = trusted_loop-within root (resolved ∷ seen) values rest n rs g in
                  rw (sym q) (
                    cons-IsNew resolved seen rest m new,
                    (
                      normalize_trusted_folder_path-within (trim_space raw) root resolved n r f,
                      all,
                    ),
                  )
            ]
          ]
        ]
      ]

  -- Of a configuration with paths of the project only, each folder is the project's root, as it is
  -- normalized, or below it, and none stands twice.
  pub normalize_trusted_folder_list-within :
      (values : List Text) (project_root root : Text) (folders : List Text)
      → is_empty (trim_space project_root) ≡ false
      → normalize_absolute_path system (trim_space project_root) ≡ some root
      → is_empty root ≡ false
      → All IsProjectPath values
      → normalize_trusted_folder_list system values project_root ≡ some folders
      → IsSimple folders × All (IsBelowRoot root) folders
  unfolding normalize_trusted_folder_list
  normalize_trusted_folder_list-within values project_root root folders b a n r h =
      let (new, all) = trusted_loop-within root [] values folders n r (ground (arith, h, a, b)) in
      (new.0, All-below root folders all)
