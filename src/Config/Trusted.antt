-- ===== src/Config/Trusted.antt =====
-- Trusted folders of a configuration file: normalizeTrustedFolderList to pathWithinRoot of
-- src/internal/config/config.go. The system is a parameter: the working directory, the home directory
-- and filepath.EvalSymlinks, each of which may fail.
pub mod Within
use gocodemunch_mcp.Base.{
  Text, codes, text_eq, trim_space, is_empty, has_prefix, member, Bool, true, false, not, ◌&&◌,
  ◌||◌, Option, none, some, List, [], ◌∷◌, if◌then◌else◌,
}
use gocodemunch_mcp.Watcher.Paths.{
  is_abs, clean, path_text, join_paths, absolute, relative, dots, slash,
}

pub record System : Type 0 where
  pub working_directory : Option Text
  pub home : Option Text
  pub eval_symlinks : Text → Option Text

-- `path[2:]`
abbrev pub drop_two : Text → Text
drop_two (_ ∷ _ ∷ s) = s
drop_two _ = []

abbrev pub relative_test : Option Text → (Text → Bool) → Bool
relative_test none test = false
relative_test (some rel) test = test rel

-- A relative path that does not lead up.
unfoldable pub stays_below : Text → Bool
stays_below rel =
    text_eq rel (b'.' ∷ [])
    || (not (text_eq rel dots) && not (has_prefix rel (b'.' ∷ b'.' ∷ slash ∷ [])))

unfoldable pub path_within_root : Text → Text → Bool
unfolding stays_below
path_within_root root candidate =
    relative_test (relative (clean root) (clean candidate)) stays_below

abbrev pub is_relative : Text → Bool
is_relative raw = not (is_abs raw) && not (has_prefix raw (codes "~"))

module _ (system : System) where
  -- "~" and what begins with it and a separator are below the home directory.
  unfoldable pub expand_home : Text → Option Text
  expand_home path =
      if text_eq path (codes "~")
      then system.home
      else if has_prefix path (codes "~/") || has_prefix path (codes "~\\")
      then elim system.home [ none ↦ none | some home ↦ some (join_paths home (drop_two path)) ]
      else some path

  unfoldable pub evaluated : Text → Text
  evaluated abs = elim (system.eval_symlinks abs) [
    | none ↦ abs
    | some real ↦ if is_empty (trim_space real) then abs else path_text (clean real)
  ]

  unfoldable pub normalize_absolute_path : Text → Option Text
  unfolding expand_home evaluated
  normalize_absolute_path raw =
      let path = trim_space raw in
      if is_empty path then none else elim (expand_home path) [
        | none ↦ none
        | some expanded ↦ elim (absolute system.working_directory expanded) [
          | none ↦ none
          | some abs ↦ some (evaluated (path_text abs))
        ]
      ]

  -- A path below the root of the project, or nothing.
  unfoldable pub within_project : Text → Text → Option Text
  unfolding normalize_absolute_path path_within_root
  within_project root path = elim (normalize_absolute_path (join_paths root path)) [
    | none ↦ none
    | some normalized ↦ if path_within_root root normalized then some normalized else none
  ]

  unfoldable pub normalize_trusted_folder_path : Text → Text → Option Text
  unfolding within_project
  normalize_trusted_folder_path raw root =
      if is_empty root
      then if is_relative raw then none else normalize_absolute_path raw
      else if text_eq raw (codes ".") || text_eq raw (codes "./")
      then some root
      else if has_prefix raw (codes "./")
      then within_project root (drop_two raw)
      else if is_relative raw
      then within_project root raw
      else normalize_absolute_path raw

  -- The folders behind those that are `seen`.
  unfoldable pub trusted_loop : Text → List Text → List Text → Option (List Text)
  unfolding normalize_trusted_folder_path
  trusted_loop root seen [] = some []
  trusted_loop root seen (raw ∷ values) = elim (is_empty (trim_space raw)) [
    | true ↦ trusted_loop root seen values
    | false ↦ elim (normalize_trusted_folder_path (trim_space raw) root) [
      | none ↦ none
      | some resolved ↦ elim (member resolved seen) [
        | true ↦ trusted_loop root seen values
        | false ↦ elim (trusted_loop root (resolved ∷ seen) values) [
          | none ↦ none
          | some rest ↦ some (resolved ∷ rest)
        ]
      ]
    ]
  ]

  unfoldable pub normalize_trusted_folder_list : List Text → Text → Option (List Text)
  unfolding trusted_loop
  normalize_trusted_folder_list values project_root =
      let root = trim_space project_root in
      if is_empty root then trusted_loop [] [] values else elim (normalize_absolute_path root) [
        | none ↦ none
        | some normalized ↦ trusted_loop normalized [] values
      ]
