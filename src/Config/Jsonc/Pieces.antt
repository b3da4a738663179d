-- ===== src/Config/Jsonc/Pieces.antt =====
-- The texts that stripJSONCComments and stripJSONCTrailingCommas of src/internal/config/config.go
-- are made for, as they are written: bytes, strings, comments to the end of the line and block
-- comments; with what is to be left of them, said without the loops.
use gocodemunch_mcp.Base.{
  ℕ, Text, Bool, false, List, [], ◌∷◌, ◌++◌, ◌≡◌, ◌≢◌, ◌==◌, ◌&&◌, if◌then◌else◌, All,
}
use gocodemunch_mcp.Config.Jsonc.{is_blank, is_closing}

-- A byte of a string, or a backslash and the byte behind it.
pub data StringItem : Type 0 where
  byte escape : ℕ → StringItem

pub data Piece : Type 0 where
  plain : ℕ → Piece
  quoted : List StringItem → Piece
  line_comment block_comment : Text → Piece

-- The end of a text: a comment may still be open.
pub data Ending : Type 0 where
  closed : Ending
  open_line open_block : Text → Ending

abbrev pub print_items : List StringItem → Text
print_items [] = []
print_items (byte c ∷ xs) = c ∷ print_items xs
print_items (escape c ∷ xs) = b'\\' ∷ c ∷ print_items xs

abbrev pub print_piece : Piece → Text
print_piece (plain c) = c ∷ []
print_piece (quoted xs) = b'"' ∷ print_items xs ++ (b'"' ∷ [])
print_piece (line_comment s) = b'/' ∷ b'/' ∷ s ++ (b'\n' ∷ [])
print_piece (block_comment s) = b'/' ∷ b'*' ∷ s ++ (b'*' ∷ b'/' ∷ [])

abbrev pub print_ending : Ending → Text
print_ending closed = []
print_ending (open_line s) = b'/' ∷ b'/' ∷ s
print_ending (open_block s) = b'/' ∷ b'*' ∷ s

abbrev pub print : List Piece → Ending → Text
print [] e = print_ending e
print (p ∷ ps) e = print_piece p ++ print ps e

-- A `/` in front of this text begins no comment.
abbrev pub NoCommentAt : Text → Type 0
NoCommentAt [] = Unit
NoCommentAt (d ∷ s) = (d ≢ b'/') × (d ≢ b'*')

-- No `*/` stands in the text, nor does it end in front of a `/` with a `*`.
abbrev pub NoClose : Text → Type 0
NoClose [] = Unit
NoClose (c ∷ []) = Unit
NoClose (c ∷ d ∷ s) = (c ≡ b'*' → d ≢ b'/') × NoClose (d ∷ s)

abbrev pub IsItem : StringItem → Type 0
IsItem (byte c) = (c ≢ b'"') × (c ≢ b'\\')
IsItem (escape c) = Unit

abbrev pub IsPiece : Piece → Text → Type 0
IsPiece (plain c) rest = (c ≢ b'"') × (c ≡ b'/' → NoCommentAt rest)
IsPiece (quoted xs) rest = All IsItem xs
IsPiece (line_comment s) rest = All (λ c. c ≢ b'\n') s
IsPiece (block_comment s) rest = NoClose s

abbrev pub IsEnding : Ending → Type 0
IsEnding closed = Unit
IsEnding (open_line s) = All (λ c. c ≢ b'\n') s
IsEnding (open_block s) = NoClose s

abbrev pub IsSource : List Piece → Ending → Type 0
IsSource [] e = IsEnding e
IsSource (p ∷ ps) e = IsPiece p (print ps e) × IsSource ps e

-- The comments dropped; the line feed behind one stays.
abbrev pub uncommented : List Piece → List Piece
uncommented [] = []
uncommented (plain c ∷ ps) = plain c ∷ uncommented ps
uncommented (quoted xs ∷ ps) = quoted xs ∷ uncommented ps
uncommented (line_comment s ∷ ps) = plain b'\n' ∷ uncommented ps
uncommented (block_comment s ∷ ps) = uncommented ps

-- Whether the first piece that is no blank is a closing bracket.
abbrev pub closes_next : List Piece → Bool
closes_next [] = false
closes_next (plain c ∷ ps) = let next = closes_next ps in if is_blank c then next else is_closing c
closes_next (quoted xs ∷ ps) = false
closes_next (line_comment s ∷ ps) = false
closes_next (block_comment s ∷ ps) = false

-- The commas in front of a closing bracket dropped.
abbrev pub without_trailing_commas : List Piece → List Piece
without_trailing_commas [] = []
without_trailing_commas (plain c ∷ ps) =
    let rest = without_trailing_commas ps in
    if c == b',' && closes_next ps then rest else plain c ∷ rest
without_trailing_commas (quoted xs ∷ ps) = quoted xs ∷ without_trailing_commas ps
without_trailing_commas (line_comment s ∷ ps) = line_comment s ∷ without_trailing_commas ps
without_trailing_commas (block_comment s ∷ ps) = block_comment s ∷ without_trailing_commas ps
