-- ===== src/Mcp/Codec/Frames.antt =====
-- What is written is read back, and what stops the reader.
use mathlib.Core.List.{reverse, reverse-append, reverse-reverse}
use gocodemunch_mcp.Base.{
  ℕ, suc, ◌≤◌, Text, codes, trim_space, trim_space-space, IsPlain, All-reverse, length,
  length-append, take, drop, is_empty, ◌≡◌, ◌≢◌, refl, sym, ◌∙◌, ap, Bool, true, false, Option,
  none, some, [], ◌∷◌, ◌++◌, append_assoc, All, All-append, Lacks, arith,
}
use gocodemunch_mcp.Base.Decimal.{itoa, atoi-itoa, itoa-digits, IsDigit, max_int}
use gocodemunch_mcp.Mcp.Codec.{
  read_string, is_line_end, drop_line_ends, trim_line_end, cut_colon, is_content_length,
  read_header_line, length_header, header_loop, read_content_length, content_length, eof, frame,
  frame_error, in_header, read_full, read_frame, crlf, write_frame,
}

read_string-append :
    (p rest : Text)
    → Lacks b'\n' p
    → read_string (p ++ (b'\n' ∷ rest)) ≡ some (p ++ b'\n' ∷ [], rest)
unfolding read_string
read_string-append [] rest h = refl
read_string-append (c ∷ p) rest h = ground (arith, h, read_string-append p rest h.1)

abbrev NotEnd : ℕ → Type 0
NotEnd c = is_line_end c ≡ false

drop_line_ends-none : (s : Text) → All NotEnd s → drop_line_ends s ≡ s
unfolding drop_line_ends
drop_line_ends-none [] h = refl
drop_line_ends-none (c ∷ s) h = ground (arith, h)

trim_line_end-crlf : (p : Text) → All NotEnd p → trim_line_end (p ++ crlf) ≡ p
unfolding trim_line_end
trim_line_end-crlf p h =
    ap (λ r. reverse (drop_line_ends r)) (reverse-append p crlf)
    ∙ (ap reverse (drop_line_ends-none (reverse p) (All-reverse NotEnd p h)) ∙ reverse-reverse p)

abbrev length_line : ℕ → Text
length_line n = codes "Content-Length: " ++ itoa n

digits-All : (P : ℕ → Type 0) (d : Text) → ((c : ℕ) → IsDigit c → P c) → All IsDigit d → All P d
digits-All P [] f h = tt
digits-All P (c ∷ d) f h = (f c h.0, digits-All P d f h.1)

digits-IsPlain : (n : ℕ) → All IsPlain (itoa n)
digits-IsPlain n = digits-All IsPlain (itoa n) (λ c h. (omega arith, omega arith)) (itoa-digits n)

line-NotEnd : (n : ℕ) → All NotEnd (length_line n)
line-NotEnd n =
    All-append NotEnd (codes "Content-Length: ") (itoa n) (ground arith)
      (digits-All NotEnd (itoa n) (λ c h. ground (arith, h)) (itoa-digits n))

line-Lacks : (n : ℕ) → Lacks b'\n' (length_line n ++ b'\r' ∷ [])
line-Lacks n =
    All-append (λ c. c ≢ b'\n') (length_line n) (b'\r' ∷ [])
      (All-append (λ c. c ≢ b'\n') (codes "Content-Length: ") (itoa n) (omega arith)
        (digits-All (λ c. c ≢ b'\n') (itoa n) (λ c h. omega arith) (itoa-digits n)))
      (omega arith)

read_header_line-length : (n : ℕ) → n ≤ max_int → read_header_line (length_line n) ≡ length_header n
unfolding read_header_line cut_colon
read_header_line-length n h = rw (name, trim_space-space (itoa n) (digits-IsPlain n), atoi-itoa n h)
  where
    name : is_content_length (codes "Content-Length") ≡ true
    name = unfold is_content_length trim_space in refl

header_bytes : ℕ → Text → Text
header_bytes n body = length_line n ++ (crlf ++ (crlf ++ body))

header_loop_length :
    (fuel : ℕ) (len : Option ℕ) (any : Bool) (s line rest : Text) (m : ℕ)
    → read_string s ≡ some (line, rest)
    → is_empty (trim_line_end line) ≡ false
    → read_header_line (trim_line_end line) ≡ length_header m
    → header_loop (suc fuel) len any s ≡ header_loop fuel (some m) true rest
unfolding header_loop
header_loop_length fuel len any s line rest m e full h = ground (arith, e, full, h)

header_loop_blank :
    (fuel n : ℕ) (body : Text)
    → header_loop (suc fuel) (some n) true (crlf ++ body) ≡ content_length n body
unfolding header_loop read_string trim_line_end drop_line_ends
header_loop_blank fuel n body = refl

read_string-header_bytes :
    (n : ℕ) (body : Text)
    → read_string (header_bytes n body) ≡ some (length_line n ++ crlf, crlf ++ body)
unfolding header_bytes
read_string-header_bytes n body =
    ap read_string (sym (append_assoc (length_line n) (b'\r' ∷ []) (b'\n' ∷ (crlf ++ body))))
    ∙ (read_string-append (length_line n ++ b'\r' ∷ []) (crlf ++ body) (line-Lacks n)
        ∙ ap (λ l. some (l, crlf ++ body)) (append_assoc (length_line n) (b'\r' ∷ []) (b'\n' ∷ [])))

read_content_length-header_bytes :
    (n : ℕ) (body : Text)
    → n ≤ max_int
    → read_content_length (header_bytes n body) ≡ content_length n body
read_content_length-header_bytes n body h =
    unfold read_content_length in
    let trimmed = trim_line_end-crlf (length_line n) (line-NotEnd n) in
    header_loop_length (length (header_bytes n body)) none false (header_bytes n body)
      (length_line n ++ crlf) (crlf ++ body) n (read_string-header_bytes n body) (rw trimmed)
      (rw trimmed (read_header_line-length n h))
    ∙ at_blank
  where
    at_blank :
        header_loop (length (header_bytes n body)) (some n) true (crlf ++ body)
        ≡ content_length n body
    at_blank = unfold header_bytes in header_loop_blank _ n body

take-append : (p rest : Text) → take (length p) (p ++ rest) ≡ p
take-append [] rest = refl
take-append (c ∷ p) rest = ap (λ r. c ∷ r) (take-append p rest)

drop-append : (p rest : Text) → drop (length p) (p ++ rest) ≡ rest
drop-append [] rest = refl
drop-append (c ∷ p) rest = drop-append p rest

read_full-append : (p rest : Text) → read_full (length p) (p ++ rest) ≡ frame p rest
unfolding read_full
read_full-append p rest =
    ground (arith, length-append p rest, take-append p rest, drop-append p rest)

-- A message that has been written is read back whole, and what was written behind it is left for
-- the next read. (The length of the payload is a Go int.)
pub read_frame-write_frame :
    (payload rest : Text)
    → length payload ≤ max_int
    → read_frame (write_frame payload ++ rest) ≡ frame payload rest
unfolding read_frame
read_frame-write_frame payload rest h =
    rw (written, read_content_length-header_bytes (length payload) (payload ++ rest) h)
      (read_full-append payload rest)
  where
    written : write_frame payload ++ rest ≡ header_bytes (length payload) (payload ++ rest)
    written =
        unfold write_frame header_bytes in
        ap (λ r. codes "Content-Length: " ++ r)
          (append_assoc (itoa (length payload)) (crlf ++ (crlf ++ payload)) rest)

-- A blank line in front of a message reads as the end of the input, whatever stands behind it.
pub read_frame_blank_line : (rest : Text) → read_frame (crlf ++ rest) ≡ frame_error (in_header eof)
unfolding read_frame read_content_length header_loop read_string trim_line_end drop_line_ends
read_frame_blank_line rest = refl
