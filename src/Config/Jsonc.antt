-- ===== src/Config/Jsonc.antt =====
-- A configuration file is JSON with comments and trailing commas, which stripJSONCComments and
-- stripJSONCTrailingCommas of src/internal/config/config.go remove. A loop over the bytes is a
-- recursion on what is left of the input, in the state that its variables stand for.
pub mod Pieces
pub mod Comments
pub mod Commas
use gocodemunch_mcp.Base.{ℕ, Text, Bool, true, false, ◌&&◌, ◌||◌, [], ◌∷◌, ◌==◌, if◌then◌else◌}

-- Outside of strings; in one (`inString`); behind its backslash (`escaped`).
pub data Place : Type 0 where
  outside in_string escaped : Place

-- In one of the two inner loops, or not.
pub data Scan : Type 0 where
  at : Place → Scan
  in_line in_block : Scan

-- Where the byte of a string leads.
abbrev pub after_string_byte : ℕ → Place
after_string_byte c = if c == b'\\' then escaped else if c == b'"' then outside else in_string

unfoldable pub strip_comments_from : Scan → Text → Text
strip_comments_from (at outside) [] = []
strip_comments_from (at outside) (c ∷ []) = c ∷ []
strip_comments_from (at outside) (c ∷ d ∷ s) = elim (c == b'"') [
  | true ↦ c ∷ strip_comments_from (at in_string) (d ∷ s)
  | false ↦ elim (c == b'/') [
    | true ↦ elim (d == b'/') [
      | true ↦ strip_comments_from in_line s
      | false ↦ elim (d == b'*') [
        | true ↦ strip_comments_from in_block s
        | false ↦ c ∷ strip_comments_from (at outside) (d ∷ s)
      ]
    ]
    | false ↦ c ∷ strip_comments_from (at outside) (d ∷ s)
  ]
]
strip_comments_from (at in_string) [] = []
strip_comments_from (at in_string) (c ∷ s) = c ∷ strip_comments_from (at (after_string_byte c)) s
strip_comments_from (at escaped) [] = []
strip_comments_from (at escaped) (c ∷ s) = c ∷ strip_comments_from (at in_string) s
strip_comments_from in_line [] = []
strip_comments_from in_line (c ∷ s) = elim (c == b'\n') [
  | true ↦ c ∷ strip_comments_from (at outside) s
  | false ↦ strip_comments_from in_line s
]
strip_comments_from in_block [] = []
strip_comments_from in_block (c ∷ []) = []
strip_comments_from in_block (c ∷ d ∷ s) = elim (c == b'*') [
  | true ↦ elim (d == b'/') [
    | true ↦ strip_comments_from (at outside) s
    | false ↦ strip_comments_from in_block (d ∷ s)
  ]
  | false ↦ strip_comments_from in_block (d ∷ s)
]

unfoldable pub strip_jsonc_comments : Text → Text
unfolding strip_comments_from
strip_jsonc_comments input = strip_comments_from (at outside) input

abbrev pub is_blank : ℕ → Bool
is_blank c = (c == b' ') || (c == b'\t') || (c == b'\n') || (c == b'\r')

-- 0 when only blanks are left
unfoldable pub next_non_whitespace_byte : Text → ℕ
next_non_whitespace_byte [] = 0
next_non_whitespace_byte (c ∷ s) =
    let next = next_non_whitespace_byte s in if is_blank c then next else c

abbrev pub is_closing : ℕ → Bool
is_closing c = (c == b'}') || (c == b']')

unfoldable pub strip_commas_from : Place → Text → Text
unfolding next_non_whitespace_byte
strip_commas_from in_string [] = []
strip_commas_from in_string (c ∷ s) = c ∷ strip_commas_from (after_string_byte c) s
strip_commas_from escaped [] = []
strip_commas_from escaped (c ∷ s) = c ∷ strip_commas_from in_string s
strip_commas_from outside [] = []
strip_commas_from outside (c ∷ s) = elim (c == b'"') [
  | true ↦ c ∷ strip_commas_from in_string s
  | false ↦
      let rest = strip_commas_from outside s in
      if c == b',' && is_closing (next_non_whitespace_byte s) then rest else c ∷ rest
]

unfoldable pub strip_jsonc_trailing_commas : Text → Text
unfolding strip_commas_from
strip_jsonc_trailing_commas input = strip_commas_from outside input
