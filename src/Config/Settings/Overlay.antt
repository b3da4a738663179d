-- ===== src/Config/Settings/Overlay.antt =====
-- What settings of a project do to those of the process: withSnapshot and ForProjectRoot of
-- src/internal/config/config.go.
use gocodemunch_mcp.Base.{
  Text, codes, trim_space, is_empty, trim_prefix, Option, none, some, List, ◌≡◌, refl, arith,
  Bool-cases, inl, inr,
}
use gocodemunch_mcp.Base.Int.{ℤ}
use gocodemunch_mcp.Orchestration.Validation.{Value, Entries, Floats, field}
use gocodemunch_mcp.Watcher.Paths.{join_paths}
use gocodemunch_mcp.Config.Jsonc.{strip_jsonc_comments, strip_jsonc_trailing_commas}
use gocodemunch_mcp.Config.Trusted.{System}
use gocodemunch_mcp.Config.Settings.{
  Settings, ConfigSnapshot, empty_snapshot, or_keep, or_default, freshness_of, disabled_of,
  with_snapshot,
}
use gocodemunch_mcp.Config.Settings.Files.{
  parse_trusted_folders_list, config_snapshot, byte_order_mark, load_config_snapshot_from_path,
  load_project_config_snapshot, for_project_root,
}

-- What the second of two snapshots leaves open the first decides.
abbrev pub overlay : ConfigSnapshot → ConfigSnapshot → ConfigSnapshot
overlay s t = record {
  has_languages = or_keep t.has_languages s.has_languages;
  has_freshness_mode = or_keep t.has_freshness_mode s.has_freshness_mode;
  has_meta_fields = or_keep t.has_meta_fields s.has_meta_fields;
  has_max_folder_files = or_keep t.has_max_folder_files s.has_max_folder_files;
  has_max_index_files = or_keep t.has_max_index_files s.has_max_index_files;
  has_extra_ignore_patterns = or_keep t.has_extra_ignore_patterns s.has_extra_ignore_patterns;
  has_exclude_secret_patterns = or_keep t.has_exclude_secret_patterns s.has_exclude_secret_patterns;
  has_disabled_tools = or_keep t.has_disabled_tools s.has_disabled_tools;
  has_trusted_folders = or_keep t.has_trusted_folders s.has_trusted_folders;
  has_whitelist_mode = or_keep t.has_whitelist_mode s.has_whitelist_mode;
}

or_default-or_keep {ℓ} :
    {A : Type ℓ} (t s : Option A) (c : A)
    → or_default t (or_default s c) ≡ or_default (or_keep t s) c
or_default-or_keep none s c = refl
or_default-or_keep (some a) s c = refl

or_keep_assoc {ℓ} :
    {A : Type ℓ} (t s c : Option A) → or_keep t (or_keep s c) ≡ or_keep (or_keep t s) c
or_keep_assoc none s c = refl
or_keep_assoc (some a) s c = refl

freshness_of-or_keep :
    (t s : Option Text) (c : Text)
    → freshness_of t (freshness_of s c) ≡ freshness_of (or_keep t s) c
freshness_of-or_keep none s c = refl
freshness_of-or_keep (some a) s c = refl

disabled_of-or_keep :
    (t s : Option (List Text)) (c : List Text)
    → disabled_of t (disabled_of s c) ≡ disabled_of (or_keep t s) c
disabled_of-or_keep none s c = refl
disabled_of-or_keep (some a) s c = refl

pub with_snapshot-overlay :
    (c : Settings) (s t : ConfigSnapshot)
    → with_snapshot (with_snapshot c s) t ≡ with_snapshot c (overlay s t)
unfolding with_snapshot
with_snapshot-overlay c s t =
    rw
      (
        or_default-or_keep t.has_languages s.has_languages c.languages,
        or_default-or_keep t.has_meta_fields s.has_meta_fields c.meta_fields,
        or_default-or_keep t.has_max_folder_files s.has_max_folder_files c.max_folder_files,
        or_default-or_keep t.has_max_index_files s.has_max_index_files c.max_index_files,
        freshness_of-or_keep t.has_freshness_mode s.has_freshness_mode c.freshness_mode,
        disabled_of-or_keep t.has_disabled_tools s.has_disabled_tools c.disabled,
        or_keep_assoc t.has_extra_ignore_patterns s.has_extra_ignore_patterns
            c.extra_ignore_patterns,
        or_keep_assoc t.has_exclude_secret_patterns s.has_exclude_secret_patterns
            c.exclude_secret_patterns,
        or_keep_assoc t.has_trusted_folders s.has_trusted_folders c.trusted_folders,
        or_keep_assoc t.has_whitelist_mode s.has_whitelist_mode c.whitelist_mode,
      )
      refl

with_snapshot-empty : (c : Settings) → with_snapshot c empty_snapshot ≡ c
unfolding with_snapshot
with_snapshot-empty c = refl

module _ {F : Type 0} (system : System) (read_file : Text → Option Text)
    (unmarshal : Text → Option (Entries F)) (floats : Floats F) (as_int : F → ℤ) where
  config_snapshot-refused :
      (raw : Entries F) (root : Text) (v : Value F)
      → field (codes "trusted_folders") raw ≡ some v
      → parse_trusted_folders_list system root v ≡ none
      → config_snapshot system read_file unmarshal floats as_int raw root ≡ empty_snapshot
  unfolding config_snapshot
  config_snapshot-refused raw root v f p = ground (arith, f, p)

  -- A configuration file of a project whose list of trusted folders is not valid, as where one of them
  -- is outside of the project, changes no setting.
  pub for_project_root-refused :
      (c : Settings) (source_root payload : Text) (raw : Entries F) (v : Value F)
      → read_file (trim_space (join_paths (trim_space source_root) (codes ".jcodemunch.jsonc")))
        ≡ some payload
      → unmarshal
          (strip_jsonc_trailing_commas (strip_jsonc_comments (trim_prefix payload byte_order_mark)))
        ≡ some raw
      → field (codes "trusted_folders") raw ≡ some v
      → parse_trusted_folders_list system (trim_space source_root) v ≡ none
      → for_project_root system read_file unmarshal floats as_int c source_root ≡ c
  unfolding for_project_root load_project_config_snapshot load_config_snapshot_from_path
  for_project_root-refused c source_root payload raw v r u f p =
      let root = trim_space source_root in
      let e = config_snapshot-refused raw root v f p in
      elim (Bool-cases (is_empty root)) [
        | inl a ↦ rw a (with_snapshot-empty c)
        | inr a ↦
            elim (Bool-cases
              (is_empty (trim_space (join_paths root (codes ".jcodemunch.jsonc"))))) [
                | inl d ↦ rw (a, d) (with_snapshot-empty c)
                | inr d ↦ rw (a, d, r, u, e) (with_snapshot-empty c)
              ]
      ]
