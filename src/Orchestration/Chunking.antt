-- ===== src/Orchestration/Chunking.antt =====
-- Chunks of file contents: src/internal/orchestration/chunking.go, and splitContentLines of
-- src/internal/orchestration/handlers_retrieval.go. `rest` is `lines[start:]`.
pub mod Windows
pub mod Tiling
use gocodemunch_mcp.Base.{
  ℕ, zero, suc, ◌+◌, Text, trim_space, is_empty, split, join, Bool, ◌&&◌, ◌||◌, List, [], ◌∷◌, map,
  length, take, drop, if◌then◌else◌, ltb, leb, ◌==◌,
}
use gocodemunch_mcp.Base.Int.{ℤ, is_pos, pos_part}

abbrev pub newline : ℕ
newline = b'\n'

abbrev pub default_chunk_max_lines : ℕ
default_chunk_max_lines = 80

abbrev pub default_chunk_max_characters : ℕ
default_chunk_max_characters = 3000

-- The parts without an empty last part, which a final newline leaves.
drop_last_empty : List Text → List Text
drop_last_empty [] = []
drop_last_empty (p ∷ []) = if is_empty p then [] else p ∷ []
drop_last_empty (p ∷ q ∷ ps) = p ∷ drop_last_empty (q ∷ ps)

-- strings.TrimSuffix(line, "\r")
trim_cr : Text → Text
trim_cr [] = []
trim_cr (c ∷ []) = if c == b'\r' then [] else c ∷ []
trim_cr (c ∷ d ∷ s) = c ∷ trim_cr (d ∷ s)

unfoldable pub split_content_lines : Text → List Text
unfolding drop_last_empty trim_cr
split_content_lines content =
    if is_empty content then [] else map trim_cr (drop_last_empty (split newline content))

module _ (max_lines max_characters : ℕ) where
  -- The loop of endChunkWindow over the lines from `end` on, with `end - start` and the characters
  -- so far; the result is the last `end - start`.
  unfoldable pub window_loop : List Text → ℕ → ℕ → ℕ
  window_loop [] taken characters = taken
  window_loop (line ∷ rest) taken characters =
      let next = characters + length line + (if ltb 0 taken then 1 else 0) in
      let more = window_loop rest (suc taken) next in
      if ltb 0 taken && (ltb max_lines (suc taken) || ltb max_characters next)
      then taken
      else if leb max_lines (suc taken) || leb max_characters next
      then suc taken
      else more

  -- endChunkWindow, as the number of lines of the window.
  unfoldable pub end_chunk_window : List Text → ℕ
  end_chunk_window rest = if window_loop rest 0 0 == 0 then 1 else window_loop rest 0 0

-- `<= 0` takes the default.
unfoldable pub or_default : ℤ → ℕ → ℕ
or_default n default = if is_pos n then pos_part n else default

-- What one chunk says of its place.
pub record Chunk : Type 0 where
  pub chunk_text : Text
  pub start_line : ℕ
  pub end_line : ℕ

-- A chunk of blank text is not kept.
unfoldable pub keep_chunk : Chunk → List Chunk → List Chunk
keep_chunk c rest = if is_empty (trim_space c.chunk_text) then rest else c ∷ rest

-- The loop over the lines of one file, with fuel for its rounds.
unfoldable pub chunk_loop : ℕ → ℕ → ℕ → ℕ → List Text → List Chunk
unfolding keep_chunk
chunk_loop max_lines max_characters zero start rest = []
chunk_loop max_lines max_characters (suc fuel) start [] = []
chunk_loop max_lines max_characters (suc fuel) start (line ∷ lines) =
    let size = end_chunk_window max_lines max_characters (line ∷ lines) in
    keep_chunk
      (record {
        chunk_text = join newline (take size (line ∷ lines));
        start_line = start + 1;
        end_line = start + size;
      })
      (chunk_loop max_lines max_characters fuel (start + size) (drop size (line ∷ lines)))

-- The chunks of one file's content.
unfoldable pub chunk_content : ℕ → ℕ → Text → List Chunk
unfolding chunk_loop
chunk_content max_lines max_characters content =
    let lines = split_content_lines content in
    chunk_loop max_lines max_characters (length lines) 0 lines
