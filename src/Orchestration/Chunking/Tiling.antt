-- ===== src/Orchestration/Chunking/Tiling.antt =====
-- The chunks of a file are the windows of a tiling of its lines, less those whose text is blank.
use mathlib.Core.List.{flatten}
use gocodemunch_mcp.Base.{
  ℕ, ◌+◌, ◌≤◌, ◌<◌, Text, join, ◌≡◌, List, [], ◌∷◌, length, trim_space, ◌≢◌, ◌⊎◌, All,
}
use gocodemunch_mcp.Orchestration.Chunking.{newline, end_chunk_window, Chunk}

-- The chunk of a window whose first line is number `start + 1`.
abbrev pub chunk_at : ℕ → List Text → Chunk
chunk_at start w = record {
  chunk_text = join newline w;
  start_line = start + 1;
  end_line = start + length w;
}

-- The chunks of consecutive windows: one for each window whose text is not only white space, in
-- order, and none for the others.
pub AreChunks : ℕ → List (List Text) → List Chunk → Type 0
AreChunks start [] chunks = chunks ≡ []
AreChunks start (w ∷ ws) chunks =
    ((trim_space (join newline w) ≡ []) × AreChunks (start + length w) ws chunks)
    ⊎ ((trim_space (join newline w) ≢ [])
        × (rest : List Chunk) × (chunks ≡ chunk_at start w ∷ rest)
        × AreChunks (start + length w) ws rest)

-- A window within the limits.
abbrev pub IsWithin : ℕ → ℕ → List Text → Type 0
IsWithin max_lines max_characters w =
    (1 ≤ length w)
    × (length w ≤ max_lines)
    × ((length w ≡ 1) ⊎ (length (join newline w) ≤ max_characters))

-- Windows that make up the lines, within the limits, with the given chunks.
pub record IsTiling (max_lines max_characters start : ℕ) (lines : List Text) (chunks : List Chunk)
    (ws : List (List Text)) : Type 0 where
  pub tiles : flatten ws ≡ lines
  pub within : All (IsWithin max_lines max_characters) ws
  pub emits : AreChunks start ws chunks

module _ (max_lines max_characters : ℕ) (h : 0 < max_lines) (c : 0 < max_characters) where
  module _ (fuel start : ℕ) (line : Text) (lines : List Text) (ws : List (List Text)) where
    rest : List Text
    rest = line ∷ lines

    size : ℕ
    size = end_chunk_window max_lines max_characters (line ∷ lines)
