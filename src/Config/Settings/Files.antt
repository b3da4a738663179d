-- ===== src/Config/Settings/Files.antt =====
-- Settings read from configuration files: loadConfigSnapshotFromPath, ForProjectRoot and what they call
-- in src/internal/config/config.go. json.Unmarshal, os.ReadFile and the conversions of floating-point
-- numbers are parameters.
use gocodemunch_mcp.Base.{
  Text, codes, trim_space, trim_prefix, is_empty, Bool, not, ◌||◌, Option, none, some, List, [],
  ◌∷◌, if◌then◌else◌,
}
use gocodemunch_mcp.Base.Int.{ℤ, pos, ltb_ℤ}
use gocodemunch_mcp.Orchestration.Validation.{
  Value, null, bool, integer, float, text, array, Values, no_values, value, Entries, Floats, field,
}
use gocodemunch_mcp.Watcher.Paths.{join_paths}
use gocodemunch_mcp.Config.Jsonc.{strip_jsonc_comments, strip_jsonc_trailing_commas}
use gocodemunch_mcp.Config.Trusted.{System, normalize_trusted_folder_list}
use gocodemunch_mcp.Config.Parsing.{trim_and_filter_non_empty, normalize_language_list}
use gocodemunch_mcp.Config.Settings.{Settings, ConfigSnapshot, empty_snapshot, with_snapshot}

abbrev pub byte_order_mark : Text
byte_order_mark = 239 ∷ 187 ∷ 191 ∷ []

module _ {F : Type 0} where
  -- All items, if they are strings.
  unfoldable pub all_texts : Values F → Option (List Text)
  all_texts no_values = some []
  all_texts (value (text t) vs) = elim (all_texts vs) [ none ↦ none | some ts ↦ some (t ∷ ts) ]
  all_texts (value _ vs) = none

  unfoldable pub parse_string_list : (List Text → List Text) → Value F → Option (List Text)
  unfolding all_texts
  parse_string_list normalizer (array vs) = elim (all_texts vs) [
    | none ↦ none
    | some parsed ↦ some (normalizer parsed)
  ]
  parse_string_list normalizer _ = none

  unfoldable pub parse_nullable_string_list :
      (List Text → List Text) → Value F → Option (Option (List Text))
  unfolding parse_string_list
  parse_nullable_string_list normalizer null = some none
  parse_nullable_string_list normalizer v = elim (parse_string_list normalizer v) [
    | none ↦ none
    | some parsed ↦ some (some parsed)
  ]

  -- `as_int` is the conversion that cuts the fraction off.
  unfoldable pub parse_positive_json_number : Floats F → (F → ℤ) → Value F → Option ℤ
  parse_positive_json_number floats as_int (float x) =
      if not (floats.float_eq (floats.from_int (as_int x)) x) || ltb_ℤ (as_int x) (pos 1)
      then none
      else some (as_int x)
  parse_positive_json_number floats as_int (integer n) = if ltb_ℤ n (pos 1) then none else some n
  parse_positive_json_number floats as_int _ = none

  unfoldable pub parse_trusted_folders_list : System → Text → Value F → Option (List Text)
  unfolding parse_string_list
  parse_trusted_folders_list system project_root v =
      elim (parse_string_list trim_and_filter_non_empty v) [
        | none ↦ none
        | some items ↦ normalize_trusted_folder_list system items project_root
      ]

  -- A value of a key, if it is there and parses.
  abbrev pub parsed_field : {A : Type 0} → Entries F → Text → (Value F → Option A) → Option A
  parsed_field raw key parse = elim (field key raw) [ none ↦ none | some v ↦ parse v ]

  abbrev pub as_text : Value F → Option Text
  as_text (text t) = some t
  as_text _ = none

  abbrev pub as_bool : Value F → Option Bool
  as_bool (bool b) = some b
  as_bool _ = none

  unfoldable pub snapshot_with :
      Floats F → (F → ℤ) → Entries F → Option (List Text) → ConfigSnapshot
  unfolding parse_string_list parse_nullable_string_list parse_positive_json_number
  snapshot_with floats as_int raw trusted = record {
    has_languages =
        parsed_field raw (codes "languages") (parse_nullable_string_list normalize_language_list);
    has_freshness_mode = parsed_field raw (codes "freshness_mode") as_text;
    has_meta_fields =
        parsed_field raw (codes "meta_fields")
          (parse_nullable_string_list trim_and_filter_non_empty);
    has_max_folder_files =
        parsed_field raw (codes "max_folder_files") (parse_positive_json_number floats as_int);
    has_max_index_files =
        parsed_field raw (codes "max_index_files") (parse_positive_json_number floats as_int);
    has_extra_ignore_patterns =
        parsed_field raw (codes "extra_ignore_patterns")
          (parse_string_list trim_and_filter_non_empty);
    has_exclude_secret_patterns =
        parsed_field raw (codes "exclude_secret_patterns")
          (parse_string_list trim_and_filter_non_empty);
    has_disabled_tools =
        parsed_field raw (codes "disabled_tools") (parse_string_list trim_and_filter_non_empty);
    has_trusted_folders = trusted;
    has_whitelist_mode = parsed_field raw (codes "trusted_folders_whitelist_mode") as_bool;
  }

  module _ (system : System) (read_file : Text → Option Text)
      (unmarshal : Text → Option (Entries F)) (floats : Floats F) (as_int : F → ℤ) where
    -- A list of trusted folders that is not valid takes all other settings with it.
    unfoldable pub config_snapshot : Entries F → Text → ConfigSnapshot
    unfolding snapshot_with parse_trusted_folders_list
    config_snapshot raw project_root = elim (field (codes "trusted_folders") raw) [
      | none ↦ snapshot_with floats as_int raw none
      | some v ↦ elim (parse_trusted_folders_list system project_root v) [
        | none ↦ empty_snapshot
        | some parsed ↦ snapshot_with floats as_int raw (some parsed)
      ]
    ]

    unfoldable pub load_config_snapshot_from_path : Text → Text → ConfigSnapshot
    unfolding config_snapshot
    load_config_snapshot_from_path config_path project_root =
        let path = trim_space config_path in
        if is_empty path then empty_snapshot else elim (read_file path) [
          | none ↦ empty_snapshot
          | some payload ↦
              elim (unmarshal (
                strip_jsonc_trailing_commas
                  (strip_jsonc_comments (trim_prefix payload byte_order_mark)))) [
                    | none ↦ empty_snapshot
                    | some raw ↦ config_snapshot raw project_root
                  ]
        ]

    unfoldable pub load_project_config_snapshot : Text → ConfigSnapshot
    unfolding load_config_snapshot_from_path
    load_project_config_snapshot source_root =
        let root = trim_space source_root in
        if is_empty root
        then empty_snapshot
        else load_config_snapshot_from_path (join_paths root (codes ".jcodemunch.jsonc")) root

    unfoldable pub global_config_path : Text → Option Text
    global_config_path storage_path =
        let base_path = trim_space storage_path in
        if is_empty base_path
        then elim system.home [
          | none ↦ none
          | some home ↦
              some (join_paths (join_paths home (codes ".code-index")) (codes "config.jsonc"))
        ]
        else some (join_paths base_path (codes "config.jsonc"))

    unfoldable pub load_global_config_snapshot : Text → ConfigSnapshot
    unfolding load_config_snapshot_from_path global_config_path
    load_global_config_snapshot storage_path = elim (global_config_path storage_path) [
      | none ↦ empty_snapshot
      | some path ↦ load_config_snapshot_from_path path []
    ]

    unfoldable pub for_project_root : Settings → Text → Settings
    unfolding with_snapshot load_project_config_snapshot
    for_project_root c source_root = with_snapshot c (load_project_config_snapshot source_root)
