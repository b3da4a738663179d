-- ===== src/Config/Jsonc/Comments.antt =====
-- What stripJSONCComments of src/internal/config/config.go leaves of a text.
use gocodemunch_mcp.Base.{
  ℕ, Text, List, [], ◌∷◌, ◌++◌, append_assoc, ◌≡◌, ◌≢◌, refl, ap, ◌∙◌, All, arith,
}
use gocodemunch_mcp.Config.Jsonc.{
  after_string_byte, at, in_line, in_block, outside, in_string, strip_comments_from,
  strip_jsonc_comments,
}
use gocodemunch_mcp.Config.Jsonc.Pieces.{
  StringItem, byte, escape, Piece, plain, quoted, line_comment, block_comment, Ending, closed,
  open_line, open_block, print_items, print, NoCommentAt, NoClose, IsItem, IsSource, uncommented,
}

pub stays_in_string : (c : ℕ) → IsItem (byte c) → after_string_byte c ≡ in_string
stays_in_string c h = ground (arith, h)

strip-string :
    (xs : List StringItem) (s : Text)
    → All IsItem xs
    → strip_comments_from (at in_string) (print_items xs ++ (b'"' ∷ s))
      ≡ print_items xs ++ (b'"' ∷ strip_comments_from (at outside) s)
unfolding strip_comments_from
strip-string [] s h = refl
strip-string (byte c ∷ xs) s (p, h) =
    rw (stays_in_string c p) (ap (λ t. c ∷ t) (strip-string xs s h))
strip-string (escape c ∷ xs) s (p, h) = ap (λ t. b'\\' ∷ c ∷ t) (strip-string xs s h)

strip-line :
    (b s : Text)
    → All (λ c. c ≢ b'\n') b
    → strip_comments_from in_line (b ++ (b'\n' ∷ s)) ≡ b'\n' ∷ strip_comments_from (at outside) s
unfolding strip_comments_from
strip-line [] s h = refl
strip-line (c ∷ b) s (p, h) = ground (arith, p, strip-line b s h)

strip-open_line : (b : Text) → All (λ c. c ≢ b'\n') b → strip_comments_from in_line b ≡ []
unfolding strip_comments_from
strip-open_line [] h = refl
strip-open_line (c ∷ b) (p, h) = ground (arith, p, strip-open_line b h)

strip-block :
    (b s : Text)
    → NoClose b
    → strip_comments_from in_block (b ++ (b'*' ∷ b'/' ∷ s)) ≡ strip_comments_from (at outside) s
unfolding strip_comments_from
strip-block [] s h = refl
strip-block (c ∷ []) s h = ground (arith, strip-block [] s tt)
strip-block (c ∷ d ∷ b) s (p, h) = ground (arith, p, strip-block (d ∷ b) s h)

strip-open_block : (b : Text) → NoClose b → strip_comments_from in_block b ≡ []
unfolding strip_comments_from
strip-open_block [] h = refl
strip-open_block (c ∷ []) h = refl
strip-open_block (c ∷ d ∷ b) (p, h) = ground (arith, p, strip-open_block (d ∷ b) h)

strip-plain :
    (c : ℕ) (s : Text)
    → c ≢ b'"'
    → (c ≡ b'/' → NoCommentAt s)
    → strip_comments_from (at outside) (c ∷ s) ≡ c ∷ strip_comments_from (at outside) s
unfolding strip_comments_from
strip-plain c [] h k = refl
strip-plain c (d ∷ s) h k = ground (arith, h, k)

strip-quote :
    (s : Text)
    → strip_comments_from (at outside) (b'"' ∷ s) ≡ b'"' ∷ strip_comments_from (at in_string) s
unfolding strip_comments_from
strip-quote [] = refl
strip-quote (c ∷ s) = refl

-- The comments of a text are removed and nothing else: its strings stay as they are, whatever
-- looks like a comment in them, the line feed behind a comment stays, and a comment that is
-- still open at the end is dropped.
pub strip_jsonc_comments_lem :
    (ps : List Piece) (e : Ending)
    → IsSource ps e
    → strip_jsonc_comments (print ps e) ≡ print (uncommented ps) closed
unfolding strip_jsonc_comments
strip_jsonc_comments_lem [] closed h = unfold strip_comments_from in refl
strip_jsonc_comments_lem [] (open_line s) h = unfold strip_comments_from in strip-open_line s h
strip_jsonc_comments_lem [] (open_block s) h = unfold strip_comments_from in strip-open_block s h
strip_jsonc_comments_lem (plain c ∷ ps) e ((q, k), h) =
    strip-plain c (print ps e) q k ∙ ap (λ t. c ∷ t) (strip_jsonc_comments_lem ps e h)
strip_jsonc_comments_lem (quoted xs ∷ ps) e (k, h) =
    strip-quote _
    ∙ ap (λ t. b'"' ∷ t)
        (rw
          (
            append_assoc (print_items xs) (b'"' ∷ []) (print ps e),
            append_assoc (print_items xs) (b'"' ∷ []) (print (uncommented ps) closed),
            strip-string xs (print ps e) k,
            strip_jsonc_comments_lem ps e h,
          )
          refl)
strip_jsonc_comments_lem (line_comment s ∷ ps) e (k, h) =
    rw
      (
        append_assoc s (b'\n' ∷ []) (print ps e),
        strip-line s (print ps e) k,
        strip_jsonc_comments_lem ps e h,
      )
      refl
strip_jsonc_comments_lem (block_comment s ∷ ps) e (k, h) =
    rw (append_assoc s (b'*' ∷ b'/' ∷ []) (print ps e), strip-block s (print ps e) k)
      (strip_jsonc_comments_lem ps e h)
