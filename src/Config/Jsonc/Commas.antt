-- ===== src/Config/Jsonc/Commas.antt =====
-- What stripJSONCTrailingCommas of src/internal/config/config.go leaves of a text without comments,
-- and what both functions leave of a configuration file.
use gocodemunch_mcp.Base.{
  ℕ, Text, false, List, [], ◌∷◌, ◌++◌, append_assoc, ◌≡◌, ◌≢◌, refl, ap, ◌∙◌, ◌==◌, ◌&&◌, All,
  arith, Bool-cases, inl, inr, if◌then◌else◌,
}
use gocodemunch_mcp.Config.Jsonc.{
  is_blank, is_closing, outside, in_string, next_non_whitespace_byte, strip_commas_from,
  strip_jsonc_comments, strip_jsonc_trailing_commas,
}
use gocodemunch_mcp.Config.Jsonc.Pieces.{
  StringItem, byte, escape, Piece, plain, quoted, line_comment, block_comment, Ending, closed,
  print_items, print, IsItem, IsSource, uncommented, closes_next, without_trailing_commas,
}
use gocodemunch_mcp.Config.Jsonc.Comments.{stays_in_string, strip_jsonc_comments_lem}

-- Bytes that are no quotes, and strings.
abbrev IsBare : Piece → Type 0
IsBare (plain c) = c ≢ b'"'
IsBare (quoted xs) = All IsItem xs
IsBare (line_comment s) = ⊥
IsBare (block_comment s) = ⊥

uncommented-IsBare : (ps : List Piece) (e : Ending) → IsSource ps e → All IsBare (uncommented ps)
uncommented-IsBare [] e h = tt
uncommented-IsBare (plain c ∷ ps) e ((q, k), h) = (q, uncommented-IsBare ps e h)
uncommented-IsBare (quoted xs ∷ ps) e (k, h) = (k, uncommented-IsBare ps e h)
uncommented-IsBare (line_comment s ∷ ps) e (k, h) = (λ q. ground arith, uncommented-IsBare ps e h)
uncommented-IsBare (block_comment s ∷ ps) e (k, h) = uncommented-IsBare ps e h

closes_next_lem :
    (ps : List Piece)
    → All IsBare ps
    → is_closing (next_non_whitespace_byte (print ps closed)) ≡ closes_next ps
unfolding next_non_whitespace_byte
closes_next_lem [] h = refl
closes_next_lem (plain c ∷ ps) (p, h) = elim (Bool-cases (is_blank c)) [
  | inl e ↦ rw e (closes_next_lem ps h)
  | inr e ↦ rw e refl
]
closes_next_lem (quoted xs ∷ ps) (p, h) = refl
closes_next_lem (line_comment s ∷ ps) (p, h) = absurd p
closes_next_lem (block_comment s ∷ ps) (p, h) = absurd p

strip_commas-string :
    (xs : List StringItem) (s : Text)
    → All IsItem xs
    → strip_commas_from in_string (print_items xs ++ (b'"' ∷ s))
      ≡ print_items xs ++ (b'"' ∷ strip_commas_from outside s)
unfolding strip_commas_from
strip_commas-string [] s h = refl
strip_commas-string (byte c ∷ xs) s (p, h) =
    rw (stays_in_string c p) (ap (λ t. c ∷ t) (strip_commas-string xs s h))
strip_commas-string (escape c ∷ xs) s (p, h) = ap (λ t. b'\\' ∷ c ∷ t) (strip_commas-string xs s h)

strip_commas-plain :
    (c : ℕ) (s : Text)
    → c ≢ b'"'
    → strip_commas_from outside (c ∷ s) ≡ (
        if c == b',' && is_closing (next_non_whitespace_byte s)
        then strip_commas_from outside s
        else c ∷ strip_commas_from outside s)
unfolding strip_commas_from
strip_commas-plain c s h =
    let e : (c == b'"') ≡ false = ground (arith, h) in rw (e, strip_commas_from) refl

strip_commas-print :
    (ps : List Piece)
    → All IsBare ps
    → strip_commas_from outside (print ps closed) ≡ print (without_trailing_commas ps) closed
unfolding strip_commas_from
strip_commas-print [] h = refl
strip_commas-print (plain c ∷ ps) (p, h) =
    strip_commas-plain c (print ps closed) p ∙ elim (Bool-cases (c == b',' && closes_next ps)) [
      | inl e ↦ rw (closes_next_lem ps h, e) (strip_commas-print ps h)
      | inr e ↦ rw (closes_next_lem ps h, e) (ap (λ t. c ∷ t) (strip_commas-print ps h))
    ]
strip_commas-print (quoted xs ∷ ps) (p, h) =
    ap (λ t. b'"' ∷ t)
      (rw
        (
          append_assoc (print_items xs) (b'"' ∷ []) (print ps closed),
          append_assoc (print_items xs) (b'"' ∷ []) (print (without_trailing_commas ps) closed),
          strip_commas-string xs (print ps closed) p,
          strip_commas-print ps h,
        )
        refl)
strip_commas-print (line_comment s ∷ ps) (p, h) = absurd p
strip_commas-print (block_comment s ∷ ps) (p, h) = absurd p

-- Of a configuration file the two functions leave its bytes and strings as they are written, without
-- the comments and without the commas behind which, over blanks and comments, a closing bracket
-- stands.
pub strip_jsonc_lem :
    (ps : List Piece) (e : Ending)
    → IsSource ps e
    → strip_jsonc_trailing_commas (strip_jsonc_comments (print ps e))
      ≡ print (without_trailing_commas (uncommented ps)) closed
unfolding strip_jsonc_trailing_commas
strip_jsonc_lem ps e h =
    rw (strip_jsonc_comments_lem ps e h)
      (strip_commas-print (uncommented ps) (uncommented-IsBare ps e h))
