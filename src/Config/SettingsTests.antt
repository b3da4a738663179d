-- ===== src/Config/SettingsTests.antt =====
-- The theorems on the settings of configuration files at concrete inputs.
use gocodemunch_mcp.Base.{
  Text, codes, text_eq, trim_space, member, has_prefix, trim_prefix, split, join, true, Option,
  none, some, List, [], ◌∷◌, ◌≡◌, refl, All, IsSimple, if◌then◌else◌,
}
use gocodemunch_mcp.Base.Int.{ℤ, pos}
use gocodemunch_mcp.Orchestration.Validation.{
  Value, text, array, no_values, value, Entries, no_entries, entry, Floats, field,
}
use gocodemunch_mcp.Watcher.Paths.{
  clean, path_text, join_paths, absolute, relative, relative_segments, relative_text, climb, ups,
  push_segments, push_segment, up_segment,
}
use gocodemunch_mcp.Config.Parsing.{trim_and_filter_non_empty}
use gocodemunch_mcp.Config.Jsonc.{
  strip_jsonc_comments, strip_jsonc_trailing_commas, strip_comments_from, strip_commas_from,
  next_non_whitespace_byte,
}
use gocodemunch_mcp.Config.Trusted.{
  System, path_within_root, expand_home, evaluated, normalize_absolute_path, within_project,
  normalize_trusted_folder_path, trusted_loop, normalize_trusted_folder_list,
}
use gocodemunch_mcp.Config.Trusted.Within.{IsBelowRoot, normalize_trusted_folder_list-within}
use gocodemunch_mcp.Config.Settings.{Settings}
use gocodemunch_mcp.Config.Settings.Files.{
  all_texts, parse_string_list, parse_trusted_folders_list, for_project_root,
}
use gocodemunch_mcp.Config.Settings.Overlay.{for_project_root-refused}

abbrev system : System
system = record {
  working_directory = some (codes "/");
  home = none;
  eval_symlinks = λ path. if text_eq path (codes "/p/l") then some (codes "/p/b") else none;
}

abbrev entries : List Text
entries = codes "a/../b" ∷ codes " ./c " ∷ codes "l" ∷ codes "." ∷ []

abbrev folders : List Text
folders = codes "/p/b" ∷ codes "/p/c" ∷ codes "/p" ∷ []

root_normalized : normalize_absolute_path system (trim_space (codes "/p/")) ≡ some (codes "/p")
unfolding normalize_absolute_path expand_home evaluated absolute path_text clean push_segments
    push_segment up_segment split join text_eq has_prefix trim_space
root_normalized = refl

entries_normalized : normalize_trusted_folder_list system entries (codes "/p/") ≡ some folders
unfolding normalize_trusted_folder_list trusted_loop normalize_trusted_folder_path within_project
    path_within_root normalize_absolute_path expand_home evaluated absolute path_text clean
    join_paths relative relative_segments relative_text climb ups push_segments push_segment
    up_segment split join text_eq has_prefix trim_space member
entries_normalized = refl

normalize_trusted_folder_list-within_example :
    IsSimple folders × All (IsBelowRoot (codes "/p")) folders
normalize_trusted_folder_list-within_example =
    normalize_trusted_folder_list-within system entries (codes "/p/") (codes "/p") folders
      (unfold trim_space in refl) root_normalized refl
      (unfold trim_space has_prefix in (refl, (refl, (refl, (refl, tt))))) entries_normalized

-- One folder leads out of the project.
abbrev trusted : Value ℤ
trusted = array (value (text (codes "../q")) no_values)

abbrev raw : Entries ℤ
raw =
    entry (codes "languages") (array (value (text (codes "go")) no_values))
      (entry (codes "trusted_folders") trusted no_entries)

abbrev floats : Floats ℤ
floats = record {
  parse_float = λ s. none;
  float_eq = λ x y. true;
  from_int = λ n. n;
  is_integral = λ x. true;
}

abbrev read_file : Text → Option Text
read_file path =
    if text_eq path (codes "/p/.jcodemunch.jsonc") then some (codes "{/* */}") else none

abbrev unmarshal : Text → Option (Entries ℤ)
unmarshal s = if text_eq s (codes "{}") then some raw else none

abbrev settings : Settings
settings = record {
  languages = none;
  freshness_mode = codes "relaxed";
  meta_fields = none;
  max_folder_files = pos 2000;
  max_index_files = pos 10000;
  extra_ignore_patterns = none;
  exclude_secret_patterns = none;
  disabled = [];
  trusted_folders = some (codes "/p" ∷ []);
  whitelist_mode = none;
}

file_read :
    read_file (trim_space (join_paths (trim_space (codes "/p")) (codes ".jcodemunch.jsonc")))
    ≡ some (codes "{/* */}")
unfolding join_paths path_text clean push_segments push_segment up_segment split join text_eq
    trim_space
file_read = refl

file_decoded :
    unmarshal (
      strip_jsonc_trailing_commas
        (strip_jsonc_comments (trim_prefix (codes "{/* */}") (239 ∷ 187 ∷ 191 ∷ []))))
    ≡ some raw
unfolding strip_jsonc_trailing_commas strip_jsonc_comments strip_comments_from strip_commas_from
    next_non_whitespace_byte trim_prefix has_prefix text_eq
file_decoded = refl

trusted_refused : parse_trusted_folders_list system (trim_space (codes "/p")) trusted ≡ none
unfolding parse_trusted_folders_list parse_string_list all_texts trim_and_filter_non_empty
    normalize_trusted_folder_list trusted_loop normalize_trusted_folder_path within_project
    path_within_root normalize_absolute_path expand_home evaluated absolute path_text clean
    join_paths relative relative_segments relative_text climb ups push_segments push_segment
    up_segment split join text_eq has_prefix trim_space member
trusted_refused = refl

for_project_root-refused_example :
    for_project_root system read_file unmarshal floats (λ x. x) settings (codes "/p") ≡ settings
for_project_root-refused_example =
    for_project_root-refused system read_file unmarshal floats (λ x. x) settings (codes "/p")
      (codes "{/* */}") raw trusted file_read file_decoded (unfold field text_eq in refl)
      trusted_refused
