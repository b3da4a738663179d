-- ===== src/Config/Parsing.antt =====
-- The settings that are spelled in environment variables: parseBoolean to normalizeLanguageList of
-- src/internal/config/config.go. `lookup_env` is os.LookupEnv; os.Getenv is the empty string where it
-- finds nothing. `unmarshal_strings` is json.Unmarshal into a slice of strings. A slice that may be nil
-- is an Option.
pub mod Lists
use gocodemunch_mcp.Base.{
  Text, codes, text_eq, trim_space, to_lower, is_empty, has_prefix, split, member, Bool, true,
  false, ◌||◌, Option, none, some, List, [], ◌∷◌, if◌then◌else◌,
}
use gocodemunch_mcp.Base.Int.{ℤ, pos, ltb_ℤ}
use gocodemunch_mcp.Base.Decimal.{atoi}

abbrev pub true_words : List Text
true_words = codes "1" ∷ codes "true" ∷ codes "yes" ∷ codes "on" ∷ []

abbrev pub false_words : List Text
false_words = codes "0" ∷ codes "false" ∷ codes "no" ∷ codes "off" ∷ []

unfoldable pub parse_boolean : Text → Option Bool
parse_boolean raw =
    let word = to_lower (trim_space raw) in
    if member word true_words
    then some true
    else if member word false_words
    then some false
    else none

-- A word that stands for itself, and the default for any other.
unfoldable pub parse_word : Text → Text → Text → Text
parse_word word fallback raw = if text_eq (to_lower (trim_space raw)) word then word else fallback

unfoldable pub parse_freshness_mode : Text → Text
unfolding parse_word
parse_freshness_mode raw = parse_word (codes "strict") (codes "relaxed") raw

unfoldable pub parse_fanout_mode : Text → Text
unfolding parse_word
parse_fanout_mode raw = parse_word (codes "parallel") (codes "serial") raw

unfoldable pub parse_fanout_overload_policy : Text → Text
unfolding parse_word
parse_fanout_overload_policy raw = parse_word (codes "degrade") (codes "reject") raw

-- `err != nil || parsed <= 0`, or `< 0`, leads to the fallback.
unfoldable pub at_least : ℤ → ℤ → Option ℤ → ℤ
at_least bound fallback none = fallback
at_least bound fallback (some parsed) = if ltb_ℤ parsed bound then fallback else parsed

unfoldable pub parse_positive_int : Text → ℤ → ℤ
unfolding at_least
parse_positive_int raw fallback =
    let value = trim_space raw in
    if is_empty value then fallback else at_least (pos 1) fallback (atoi value)

unfoldable pub parse_non_negative_int : Text → ℤ → ℤ
unfolding at_least
parse_non_negative_int raw fallback =
    let value = trim_space raw in
    if is_empty value then fallback else at_least (pos 0) fallback (atoi value)

unfoldable pub trim_and_filter_non_empty : List Text → List Text
trim_and_filter_non_empty [] = []
trim_and_filter_non_empty (value ∷ values) =
    let out = trim_and_filter_non_empty values in
    if is_empty (trim_space value) then out else trim_space value ∷ out

unfoldable pub split_csv : Text → List Text
unfolding trim_and_filter_non_empty
split_csv raw = trim_and_filter_non_empty (split b',' raw)

-- The languages behind those that are `seen`.
unfoldable pub language_loop : List Text → List Text → List Text
language_loop seen [] = []
language_loop seen (value ∷ raw) =
    let language = to_lower (trim_space value) in
    let skipped = language_loop seen raw in
    let taken = language_loop (language ∷ seen) raw in
    if is_empty language || member language seen then skipped else language ∷ taken

unfoldable pub normalize_language_list : List Text → List Text
unfolding language_loop
normalize_language_list raw = language_loop [] raw

module _ (unmarshal_strings : Text → Option (List Text)) where
  -- A JSON array, or else the parts between commas.
  unfoldable pub listed : Text → List Text
  listed trimmed = elim (has_prefix trimmed (codes "[")) [
    | false ↦ split b',' trimmed
    | true ↦ elim (unmarshal_strings trimmed) [ none ↦ split b',' trimmed | some values ↦ values ]
  ]

  unfoldable pub parse_language_list : Text → Option (List Text)
  unfolding listed normalize_language_list
  parse_language_list raw =
      let trimmed = trim_space raw in
      if is_empty trimmed then none else some (normalize_language_list (listed trimmed))

  unfoldable pub parse_path_list : Text → Option (List Text)
  unfolding listed trim_and_filter_non_empty
  parse_path_list raw =
      let trimmed = trim_space raw in
      if is_empty trimmed then none else some (trim_and_filter_non_empty (listed trimmed))

module _ (lookup_env : Text → Option Text) where
  unfoldable pub getenv_raw : Text → Text
  getenv_raw key = elim (lookup_env key) [ none ↦ [] | some raw ↦ raw ]

  unfoldable pub getenv_trimmed : Text → Option Text
  unfolding getenv_raw
  getenv_trimmed key =
      let value = trim_space (getenv_raw key) in if is_empty value then none else some value

  unfoldable pub getenv : Text → Text → Text
  unfolding getenv_raw
  getenv key fallback =
      let value = trim_space (getenv_raw key) in if is_empty value then fallback else value

  -- The first of the keys that is set.
  unfoldable pub first_set : List Text → Option Text
  first_set [] = none
  first_set (key ∷ keys) = elim (lookup_env key) [ none ↦ first_set keys | some raw ↦ some raw ]

  unfoldable pub parse_boolean_env : List Text → Option Bool
  unfolding first_set parse_boolean
  parse_boolean_env keys = elim (first_set keys) [ none ↦ none | some raw ↦ parse_boolean raw ]

  unfoldable pub parse_positive_int_env : ℤ → List Text → ℤ
  unfolding first_set parse_positive_int
  parse_positive_int_env fallback keys = elim (first_set keys) [
    | none ↦ fallback
    | some raw ↦ parse_positive_int raw fallback
  ]

  module _ (unmarshal_strings : Text → Option (List Text)) where
    unfoldable pub parse_language_list_env : List Text → Option (List Text)
    unfolding first_set parse_language_list
    parse_language_list_env keys = elim (first_set keys) [
      | none ↦ none
      | some raw ↦ parse_language_list unmarshal_strings raw
    ]

    unfoldable pub parse_path_list_env : List Text → Option (List Text)
    unfolding first_set parse_path_list
    parse_path_list_env keys = elim (first_set keys) [
      | none ↦ none
      | some raw ↦ parse_path_list unmarshal_strings raw
    ]
