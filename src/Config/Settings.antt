-- ===== src/Config/Settings.antt =====
-- The settings that a configuration file can give, of the process and of a project: withSnapshot and
-- the part of Load of src/internal/config/config.go that follows the environment overrides. A pair of
-- a value and its Has flag is an Option.
pub mod Files
pub mod Overlay
use gocodemunch_mcp.Base.{
  Text, codes, text_eq, trim_space, trim_prefix, to_lower, is_empty, member, Bool, true, false, not,
  ◌||◌, Option, none, some, List, [], ◌∷◌, ◌++◌, if◌then◌else◌,
}
use gocodemunch_mcp.Base.Int.{ℤ, pos, ltb_ℤ}
use gocodemunch_mcp.Orchestration.Validation.{
  Value, null, bool, integer, float, text, array, object, Values, no_values, value, Entries, Floats,
  field,
}
use gocodemunch_mcp.Watcher.Paths.{join_paths}
use gocodemunch_mcp.Config.Jsonc.{strip_jsonc_comments, strip_jsonc_trailing_commas}
use gocodemunch_mcp.Config.Trusted.{System, normalize_trusted_folder_list}
use gocodemunch_mcp.Config.Parsing.{
  parse_freshness_mode, trim_and_filter_non_empty, normalize_language_list, split_csv, getenv_raw,
  parse_boolean_env, parse_positive_int_env, parse_language_list_env, parse_path_list_env,
  first_set, parse_path_list,
}

pub record Settings : Type 0 where
  pub languages : Option (List Text)
  pub freshness_mode : Text
  pub meta_fields : Option (List Text)
  pub max_folder_files : ℤ
  pub max_index_files : ℤ
  pub extra_ignore_patterns : Option (List Text)
  pub exclude_secret_patterns : Option (List Text)
  pub disabled : List Text
  pub trusted_folders : Option (List Text)
  pub whitelist_mode : Option Bool

pub record ConfigSnapshot : Type 0 where
  pub has_languages : Option (Option (List Text))
  pub has_freshness_mode : Option Text
  pub has_meta_fields : Option (Option (List Text))
  pub has_max_folder_files : Option ℤ
  pub has_max_index_files : Option ℤ
  pub has_extra_ignore_patterns : Option (List Text)
  pub has_exclude_secret_patterns : Option (List Text)
  pub has_disabled_tools : Option (List Text)
  pub has_trusted_folders : Option (List Text)
  pub has_whitelist_mode : Option Bool

abbrev pub empty_snapshot : ConfigSnapshot
empty_snapshot = record {
  has_languages = none;
  has_freshness_mode = none;
  has_meta_fields = none;
  has_max_folder_files = none;
  has_max_index_files = none;
  has_extra_ignore_patterns = none;
  has_exclude_secret_patterns = none;
  has_disabled_tools = none;
  has_trusted_folders = none;
  has_whitelist_mode = none;
}

abbrev pub or_default {ℓ} : {A : Type ℓ} → Option A → A → A
or_default none fallback = fallback
or_default (some a) fallback = a

-- The set of the names that are not empty, in a list without repetitions.
unfoldable pub disabled_set : List Text → List Text
disabled_set [] = []
disabled_set (name ∷ names) =
    let rest = disabled_set names in if is_empty name || member name rest then rest else name ∷ rest

abbrev pub freshness_of : Option Text → Text → Text
freshness_of none fallback = fallback
freshness_of (some mode) fallback = parse_freshness_mode mode

abbrev pub disabled_of : Option (List Text) → List Text → List Text
disabled_of none fallback = fallback
disabled_of (some names) fallback = disabled_set names

abbrev pub or_keep {ℓ} : {A : Type ℓ} → Option A → Option A → Option A
or_keep none fallback = fallback
or_keep (some a) fallback = some a

unfoldable pub with_snapshot : Settings → ConfigSnapshot → Settings
with_snapshot c s = record {
  languages = or_default s.has_languages c.languages;
  freshness_mode = freshness_of s.has_freshness_mode c.freshness_mode;
  meta_fields = or_default s.has_meta_fields c.meta_fields;
  max_folder_files = or_default s.has_max_folder_files c.max_folder_files;
  max_index_files = or_default s.has_max_index_files c.max_index_files;
  extra_ignore_patterns = or_keep s.has_extra_ignore_patterns c.extra_ignore_patterns;
  exclude_secret_patterns = or_keep s.has_exclude_secret_patterns c.exclude_secret_patterns;
  disabled = disabled_of s.has_disabled_tools c.disabled;
  trusted_folders = or_keep s.has_trusted_folders c.trusted_folders;
  whitelist_mode = or_keep s.has_whitelist_mode c.whitelist_mode;
}

unfoldable pub trusted_folders_whitelist_enabled : Settings → Bool
trusted_folders_whitelist_enabled c = or_default c.whitelist_mode true

unfoldable pub is_language_enabled : Settings → Text → Bool
is_language_enabled c language =
    let wanted = to_lower (trim_space language) in
    if is_empty wanted
    then true
    else elim c.languages [ none ↦ true | some languages ↦ member wanted languages ]

unfoldable pub is_tool_disabled : Settings → Text → Bool
unfolding is_language_enabled
is_tool_disabled c name =
    if text_eq name (codes "search_columns")
    then not (is_language_enabled c (codes "sql")) || member name c.disabled
    else member name c.disabled

module _ (lookup_env : Text → Option Text) (unmarshal_strings : Text → Option (List Text)) where
  unfoldable pub meta_fields_env : Option (List Text)
  unfolding getenv_raw split_csv
  meta_fields_env =
      let raw = trim_space (getenv_raw lookup_env (codes "GOCODEMUNCH_META_FIELDS")) in
      if is_empty raw
      then none
      else if text_eq (to_lower raw) (codes "none")
      then some []
      else some (split_csv raw)

  -- The variables of the environment, newest name first.
  abbrev pub prefixed : Text → List Text
  prefixed name = (codes "GOCODEMUNCH_" ++ name) ∷ (codes "JCODEMUNCH_" ++ name) ∷ []

  unfoldable pub trusted_folders_env : System → Option (List Text)
  unfolding first_set parse_path_list
  trusted_folders_env system = elim (first_set lookup_env (prefixed (codes "TRUSTED_FOLDERS"))) [
    | none ↦ none
    | some raw ↦
        normalize_trusted_folder_list system (or_default (parse_path_list unmarshal_strings raw) [])
          []
  ]

  -- A setting of the file, or else of the environment.
  unfoldable pub load_settings : System → ConfigSnapshot → Settings
  unfolding meta_fields_env trusted_folders_env
  load_settings system s = record {
    languages =
        or_default s.has_languages
          (parse_language_list_env lookup_env unmarshal_strings (prefixed (codes "LANGUAGES")));
    freshness_mode = parse_freshness_mode (
        or_default s.has_freshness_mode
          (getenv_raw lookup_env (codes "GOCODEMUNCH_FRESHNESS_MODE")));
    meta_fields = or_default s.has_meta_fields meta_fields_env;
    max_folder_files =
        or_default s.has_max_folder_files
          (parse_positive_int_env lookup_env (pos 2000) (prefixed (codes "MAX_FOLDER_FILES")));
    max_index_files =
        or_default s.has_max_index_files
          (parse_positive_int_env lookup_env (pos 10000) (prefixed (codes "MAX_INDEX_FILES")));
    extra_ignore_patterns = or_keep s.has_extra_ignore_patterns (
        parse_path_list_env lookup_env unmarshal_strings
          (prefixed (codes "EXTRA_IGNORE_PATTERNS")));
    exclude_secret_patterns = or_keep s.has_exclude_secret_patterns (
        parse_path_list_env lookup_env unmarshal_strings
          (prefixed (codes "EXCLUDE_SECRET_PATTERNS")));
    disabled = disabled_set (
        or_default s.has_disabled_tools
          (split_csv (getenv_raw lookup_env (codes "GOCODEMUNCH_DISABLED_TOOLS"))));
    trusted_folders = or_keep s.has_trusted_folders (trusted_folders_env system);
    whitelist_mode =
        or_keep s.has_whitelist_mode
          (parse_boolean_env lookup_env (prefixed (codes "TRUSTED_FOLDERS_WHITELIST_MODE")));
  }
