-- ===== src/Mcp/Codec.antt =====
-- The framing of messages: src/internal/transport/mcp/codec.go. The reader is the list of bytes
-- that are still to come, and ends where the input does.
pub mod Frames
use mathlib.Core.List.{reverse}
use gocodemunch_mcp.Base.{
  ℕ, zero, suc, ◌+◌, Text, codes, trim_space, to_lower, text_eq, is_empty, length, take, drop, ltb,
  leb, Bool, true, false, not, ◌&&◌, ◌||◌, Option, none, some, List, [], ◌∷◌, ◌++◌, if◌then◌else◌,
  ◌==◌,
}
use gocodemunch_mcp.Base.Int.{ℤ, pos, negsuc}
use gocodemunch_mcp.Base.Decimal.{atoi, itoa}

-- A line with its '\n', and what stands behind it.
in_front : ℕ → Option (Text × Text) → Option (Text × Text)
in_front c none = none
in_front c (some (line, rest)) = some (c ∷ line, rest)

-- reader.ReadString('\n'), `none` at the end of the input.
unfoldable pub read_string : Text → Option (Text × Text)
unfolding in_front
read_string [] = none
read_string (c ∷ s) =
    let more = read_string s in if c == b'\n' then some (c ∷ [], s) else in_front c more

abbrev pub is_line_end : ℕ → Bool
is_line_end c = (c == b'\r') || (c == b'\n')

unfoldable pub drop_line_ends : Text → Text
drop_line_ends [] = []
drop_line_ends (c ∷ s) = if is_line_end c then drop_line_ends s else c ∷ s

-- strings.TrimRight(line, "\r\n")
unfoldable pub trim_line_end : Text → Text
unfolding drop_line_ends
trim_line_end line = reverse (drop_line_ends (reverse line))

push_front : ℕ → Option (Text × Text) → Option (Text × Text)
push_front c none = none
push_front c (some (name, value)) = some (c ∷ name, value)

-- strings.SplitN(line, ":", 2), `none` where there is no colon.
unfoldable pub cut_colon : Text → Option (Text × Text)
unfolding push_front
cut_colon [] = none
cut_colon (c ∷ s) = let more = cut_colon s in if c == b':' then some ([], s) else push_front c more

-- strings.EqualFold with "Content-Length", whose letters have no other forms than their ASCII ones.
unfoldable pub is_content_length : Text → Bool
unfolding to_lower text_eq
is_content_length name = text_eq (to_lower (trim_space name)) (codes "content-length")

pub data HeaderError : Type 0 where
  eof invalid_length negative_length missing_length : HeaderError

-- What one header line says: nothing, a length, or an error.
pub data HeaderLine : Type 0 where
  other_header : HeaderLine
  length_header : ℕ → HeaderLine
  bad_header : HeaderError → HeaderLine

parsed_length : Option ℤ → HeaderLine
parsed_length none = bad_header invalid_length
parsed_length (some (pos n)) = length_header n
parsed_length (some (negsuc n)) = bad_header negative_length

unfoldable pub read_header_line : Text → HeaderLine
unfolding parsed_length
read_header_line trimmed = elim (cut_colon trimmed) [
  | none ↦ other_header
  | some (name, value) ↦
      if is_content_length name then parsed_length (atoi (trim_space value)) else other_header
]

pub data LengthResult : Type 0 where
  content_length : ℕ → Text → LengthResult
  header_error : HeaderError → LengthResult

-- The end of readContentLength, at a blank line.
headers_end : Option ℕ → Bool → Text → LengthResult
headers_end (some n) any rest = content_length n rest
headers_end none true rest = header_error missing_length
headers_end none false rest = header_error eof

-- The loop of readContentLength: the length so far (`none` for -1) and `readAnyHeader`. Each round
-- reads a line, so the bytes that are left are fuel enough.
unfoldable pub header_loop : ℕ → Option ℕ → Bool → Text → LengthResult
unfolding headers_end
header_loop zero len any s = header_error eof
header_loop (suc fuel) len any s = elim (read_string s) [
  | none ↦ header_error eof
  | some (line, rest) ↦
      if is_empty (trim_line_end line)
      then headers_end len any rest
      else elim (read_header_line (trim_line_end line)) [
        | other_header ↦ header_loop fuel len true rest
        | length_header n ↦ header_loop fuel (some n) true rest
        | bad_header e ↦ header_error e
      ]
]

unfoldable pub read_content_length : Text → LengthResult
unfolding header_loop
read_content_length s = header_loop (suc (length s)) none false s

pub data ReadError : Type 0 where
  in_header : HeaderError → ReadError
  unexpected_eof payload_eof decode_failed : ReadError

pub data Frame : Type 0 where
  frame : Text → Text → Frame
  frame_error : ReadError → Frame

-- io.ReadFull of `n` bytes: io.EOF if there is none, io.ErrUnexpectedEOF if there are too few.
unfoldable pub read_full : ℕ → Text → Frame
read_full n s =
    if leb n (length s)
    then frame (take n s) (drop n s)
    else frame_error (if is_empty s then payload_eof else unexpected_eof)

after_length : LengthResult → Frame
unfolding read_full
after_length (content_length n rest) = read_full n rest
after_length (header_error e) = frame_error (in_header e)

-- readRPCMessage up to the decoding of the payload.
unfoldable pub read_frame : Text → Frame
unfolding read_content_length after_length
read_frame s = after_length (read_content_length s)

abbrev pub crlf : Text
crlf = b'\r' ∷ b'\n' ∷ []

-- writeRPCMessage of an encoded response.
unfoldable pub write_frame : Text → Text
write_frame payload =
    codes "Content-Length: " ++ (itoa (length payload) ++ (crlf ++ (crlf ++ payload)))
