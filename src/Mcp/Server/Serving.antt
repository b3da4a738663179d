-- ===== src/Mcp/Server/Serving.antt =====
-- What Serve writes for a whole input.
use gocodemunch_mcp.Base.{
  ℕ, zero, suc, ◌<◌, ◌≤◌, Text, is_empty, length, ◌≡◌, refl, ◌∙◌, Bool, false, some, List, [], ◌∷◌,
  ◌++◌, if◌then◌else◌, All, arith,
}
use gocodemunch_mcp.Base.Decimal.{max_int}
use gocodemunch_mcp.Mcp.Codec.{
  read_content_length, header_loop, read_string, frame_error, read_frame, write_frame, in_header,
  eof,
}
use gocodemunch_mcp.Mcp.Codec.Frames.{read_frame-write_frame}
use gocodemunch_mcp.Mcp.Server.{
  RpcRequest, Services, handle_request, input_ended, after_writing, serve,
}

-- A message of the client: its payload, the request it says and the response's encoding.
pub record Message : Type 0 where
  pub payload : Text
  pub request : RpcRequest
  pub body : Text

abbrev pub sent : List Message → Text
sent [] = []
sent (m ∷ ms) = write_frame m.payload ++ sent ms

-- The responses in the order of the requests; a request without an id is a notification.
abbrev pub replies : List Message → Text
replies [] = []
replies (m ∷ ms) = if is_empty m.request.id then replies ms else write_frame m.body ++ replies ms

module _ {Args Payload : Type 0} (s : Services Args Payload) where
  abbrev pub IsReadable : Message → Type 0
  IsReadable m =
      (length m.payload ≤ max_int)
      × (s.decode_request m.payload ≡ some m.request)
      × (s.encode_response (handle_request s m.request) ≡ some m.body)

  no_input :
      (fuel : ℕ) (canceled_at : ℕ → Bool)
      → canceled_at fuel ≡ false
      → serve s (suc fuel) canceled_at [] ≡ ([], input_ended)
  unfolding serve
  no_input fuel canceled_at live = ground (arith, live, at_end)
    where
      at_end : read_frame [] ≡ frame_error (in_header eof)
      at_end = unfold read_frame read_content_length header_loop read_string in refl

  -- One round, for a request with an id and for a notification.
  one_round :
      (fuel : ℕ) (canceled_at : ℕ → Bool) (m : Message) (rest : Text)
      → canceled_at fuel ≡ false
      → IsReadable m
      → serve s (suc fuel) canceled_at (write_frame m.payload ++ rest) ≡ (
          if is_empty m.request.id
          then serve s fuel canceled_at rest
          else after_writing (write_frame m.body) (serve s fuel canceled_at rest))
  unfolding serve
  one_round fuel canceled_at m rest live (short, decoded, encoded) =
      rw (live, read_frame-write_frame m.payload rest short, decoded, encoded) refl

  -- A server whose context stays live and whose input is a sequence of whole messages that decode
  -- and have encodable responses writes the responses of those with an id, in the order of the
  -- requests, and ends with the input: one round for each message and one for the end are enough.
  pub serve_lem :
      (ms : List Message) (fuel : ℕ) (canceled_at : ℕ → Bool)
      → All IsReadable ms
      → length ms < fuel
      → ((i : ℕ) → canceled_at i ≡ false)
      → serve s fuel canceled_at (sent ms) ≡ (replies ms, input_ended)
  serve_lem ms zero canceled_at readable enough live = absurd (omega arith)
  serve_lem [] (suc fuel) canceled_at readable enough live = no_input fuel canceled_at (live fuel)
  serve_lem (m ∷ ms) (suc fuel) canceled_at readable enough live =
      one_round fuel canceled_at m (sent ms) (live fuel) readable.0
      ∙ rw (serve_lem ms fuel canceled_at readable.1 (omega arith) live) (ground arith)
