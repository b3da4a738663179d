-- ===== src/Watcher/Paths/Folders.antt =====
-- The folders of a worker: normalizeEmbeddedFolders of
-- src/internal/watcher/embedded_worker.go. `resolve` is filepath.Abs with symbolic links evaluated,
-- and `is_dir` is os.Stat, `none` where it fails.
use gocodemunch_mcp.Base.{
  Text, trim_space, is_empty, Bool, true, false, Option, none, some, List, [], ◌∷◌, if◌then◌else◌,
  Map, lookup, insert, ◌≡◌, ◌≢◌, refl, sym, subst, arith, Option-cases, Bool-cases, inl, inr,
}
use gocodemunch_mcp.Watcher.Paths.{clean, path_text}

pub data FolderError : Type 0 where
  no_paths no_valid_path : FolderError
  not_resolved not_found not_directory : Text → FolderError

pub data FoldersResult : Type 0 where
  folders : List Text → FoldersResult
  folders_error : FolderError → FoldersResult

in_front : Text → FoldersResult → FoldersResult
in_front path (folders rest) = folders (path ∷ rest)
in_front path (folders_error e) = folders_error e

module _ (resolve : Text → Option Text) (is_dir : Text → Option Bool) where
  -- What the loop does with one resolved path, given the rest with and without it in `seen`.
  checked : Text → Text → Option Bool → Bool → FoldersResult → FoldersResult → FoldersResult
  unfolding in_front
  checked path resolved none seen same more = folders_error (not_found path)
  checked path resolved (some false) seen same more = folders_error (not_directory path)
  checked path resolved (some true) true same more = same
  checked path resolved (some true) false same more = in_front resolved more

  -- The loop over the paths, with the folders that have been seen.
  unfoldable pub folder_loop : Map (Unit {0}) → List Text → FoldersResult
  unfolding checked
  folder_loop seen [] = folders []
  folder_loop seen (raw ∷ paths) =
      let same = folder_loop seen paths in
      if is_empty (trim_space raw) then same else elim (resolve (trim_space raw)) [
        | none ↦ folders_error (not_resolved (trim_space raw))
        | some r ↦
            let resolved = path_text (clean r) in
            let more = folder_loop (insert resolved tt seen) paths in
            elim (lookup resolved seen) [
              | none ↦ checked (trim_space raw) resolved (is_dir resolved) false same more
              | some w ↦ checked (trim_space raw) resolved (is_dir resolved) true same more
            ]
      ]

  some_folder : FoldersResult → FoldersResult
  some_folder (folders []) = folders_error no_valid_path
  some_folder (folders (f ∷ fs)) = folders (f ∷ fs)
  some_folder (folders_error e) = folders_error e

  unfoldable pub normalize_embedded_folders : List Text → FoldersResult
  unfolding folder_loop some_folder
  normalize_embedded_folders [] = folders_error no_paths
  normalize_embedded_folders (raw ∷ paths) = some_folder (folder_loop [] (raw ∷ paths))

  -- Each folder is a directory, and is new to those that have been seen and to those behind it.
  abbrev pub AreNew : Map (Unit {0}) → List Text → Type 0
  AreNew seen [] = Unit
  AreNew seen (f ∷ fs) =
      (lookup f seen ≡ none) × (is_dir f ≡ some true) × AreNew (insert f tt seen) fs

  in_front-folders :
      (f : Text) (r : FoldersResult) (fs : List Text)
      → in_front f r ≡ folders fs
      → (gs : List Text) × (r ≡ folders gs) × (fs ≡ f ∷ gs)
  unfolding in_front
  in_front-folders f (folders gs) fs h = (gs, refl, ground (arith, h))
  in_front-folders f (folders_error e) fs h = absurd (ground (arith, h))

  checked-AreNew :
      (seen : Map (Unit {0})) (path resolved : Text) (d : Option Bool) (s : Bool)
      (same more : FoldersResult) (fs : List Text)
      → is_dir resolved ≡ d
      → checked path resolved d s same more ≡ folders fs
      → (s ≡ false → lookup resolved seen ≡ none)
      → ((gs : List Text) → same ≡ folders gs → AreNew seen gs)
      → ((gs : List Text) → more ≡ folders gs → AreNew (insert resolved tt seen) gs)
      → AreNew seen fs
  unfolding checked
  checked-AreNew seen path resolved none s same more fs dir h fresh hs hm =
      absurd (ground (arith, h))
  checked-AreNew seen path resolved (some false) s same more fs dir h fresh hs hm =
      absurd (ground (arith, h))
  checked-AreNew seen path resolved (some true) true same more fs dir h fresh hs hm = hs fs h
  checked-AreNew seen path resolved (some true) false same more fs dir h fresh hs hm =
      let (gs, k, e) = in_front-folders resolved more fs h in
      subst (AreNew seen) (sym e) (fresh refl, dir, hm gs k)

  folder_loop-AreNew :
      (seen : Map (Unit {0})) (paths fs : List Text)
      → folder_loop seen paths ≡ folders fs
      → AreNew seen fs
  unfolding folder_loop
  folder_loop-AreNew seen [] [] h = tt
  folder_loop-AreNew seen [] (f ∷ fs) h = absurd (ground (arith, h))
  folder_loop-AreNew seen (raw ∷ paths) fs h = elim (Bool-cases (is_empty (trim_space raw))) [
    | inl blank ↦ folder_loop-AreNew seen paths fs (ground (arith, h, blank))
    | inr named ↦ elim (Option-cases (resolve (trim_space raw))) [
      | inl e ↦ absurd (ground (arith, h, named, e))
      | inr (r, e) ↦ elim (Option-cases (lookup (path_text (clean r)) seen)) [
        | inl fresh ↦
            checked-AreNew seen (trim_space raw) (path_text (clean r))
              (is_dir (path_text (clean r))) false _ _ fs refl (ground (arith, h, named, e, fresh))
              (λ b. fresh) (λ gs k. folder_loop-AreNew seen paths gs k)
              (λ gs k. folder_loop-AreNew (insert (path_text (clean r)) tt seen) paths gs k)
        | inr (w, known) ↦
            checked-AreNew seen (trim_space raw) (path_text (clean r))
              (is_dir (path_text (clean r))) true _ _ fs refl (ground (arith, h, named, e, known))
              (λ b. absurd (ground (arith, b))) (λ gs k. folder_loop-AreNew seen paths gs k)
              (λ gs k. folder_loop-AreNew (insert (path_text (clean r)) tt seen) paths gs k)
      ]
    ]
  ]

  some_folder-folders :
      (r : FoldersResult) (fs : List Text)
      → some_folder r ≡ folders fs
      → (r ≡ folders fs) × (fs ≢ [])
  unfolding some_folder
  some_folder-folders (folders []) fs h = absurd (ground (arith, h))
  some_folder-folders (folders (g ∷ gs)) [] h = absurd (ground (arith, h))
  some_folder-folders (folders (g ∷ gs)) (f ∷ fs) h = (h, λ e. ground (arith, e))
  some_folder-folders (folders_error e) fs h = absurd (ground (arith, h))

  -- The folders that a worker is made with are at least one, every folder is a directory, and none
  -- stands twice.
  pub normalize_embedded_folders-AreNew :
      (paths fs : List Text)
      → normalize_embedded_folders paths ≡ folders fs
      → (fs ≢ []) × AreNew [] fs
  unfolding normalize_embedded_folders
  normalize_embedded_folders-AreNew [] fs h = absurd (ground (arith, h))
  normalize_embedded_folders-AreNew (raw ∷ paths) fs h =
      let (e, one) = some_folder-folders (folder_loop [] (raw ∷ paths)) fs h in
      (one, folder_loop-AreNew [] (raw ∷ paths) fs e)
