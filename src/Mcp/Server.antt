-- ===== src/Mcp/Server.antt =====
-- The server loop: src/internal/transport/mcp/server.go. JSON and the tool service are arguments:
-- how a payload is decoded, how a response is encoded, and what a tool returns. The context's state
-- before each round is an argument too.
pub mod Serving
use gocodemunch_mcp.Base.{
  ℕ, zero, suc, Text, codes, text_eq, is_empty, length, Bool, true, false, Option, none, some, List,
  [], ◌∷◌, ◌++◌, if◌then◌else◌,
}
use gocodemunch_mcp.Base.Int.{ℤ, pos, negsuc}
use gocodemunch_mcp.Mcp.Codec.{
  Frame, frame, frame_error, ReadError, in_header, HeaderError, eof, payload_eof, unexpected_eof,
  decode_failed, read_frame, write_frame,
}

-- `id` and `params` are raw JSON.
pub record RpcRequest : Type 0 where
  pub id : Text
  pub method : Text
  pub params : Text

pub data RpcError : Type 0 where
  invalid_params missing_tool_name encode_failed : RpcError
  method_not_found : Text → RpcError

-- -32602, -32603 and -32601
unfoldable pub error_code : RpcError → ℤ
error_code invalid_params = negsuc 32601
error_code missing_tool_name = negsuc 32601
error_code encode_failed = negsuc 32602
error_code (method_not_found method) = negsuc 32600

pub data RpcResult : Type 0 where
  initialized : Text → Text → RpcResult
  pong tool_list : RpcResult
  tool_result : Text → Bool → RpcResult

pub data Outcome : Type 0 where
  success : RpcResult → Outcome
  failure : RpcError → Outcome

pub record RpcResponse : Type 0 where
  pub id : Text
  pub outcome : Outcome

-- What the server calls: JSON for requests, tool parameters, tool payloads and responses, the tools,
-- whether a payload has the key "error", and the configured name and version.
pub record Services (Args Payload : Type 0) : Type 0 where
  pub decode_request : Text → Option RpcRequest
  pub decode_params : Text → Option (Text × Args)
  pub no_args : Args
  pub encode_payload : Payload → Option Text
  pub encode_response : RpcResponse → Option Text
  pub call_tool : Text → Args → Payload
  pub has_error : Payload → Bool
  pub server_name : Text
  pub server_version : Text

-- How Serve returns.
pub data ServeEnd : Type 0 where
  input_ended canceled : ServeEnd
  read_failed : ReadError → ServeEnd
  write_failed out_of_fuel : ServeEnd

-- io.EOF, as errors.Is finds it.
unfoldable pub read_end : ReadError → ServeEnd
read_end (in_header eof) = input_ended
read_end payload_eof = input_ended
read_end e = read_failed e

-- What has been written before the end, with what is written in this round in front.
abbrev pub after_writing : Text → Text × ServeEnd → Text × ServeEnd
after_writing out (rest, end) = (out ++ rest, end)

module _ {Args Payload : Type 0} (s : Services Args Payload) where
  -- Absent parameters are an empty name and no arguments.
  tool_params : Text → Option (Text × Args)
  tool_params params = if is_empty params then some ([], s.no_args) else s.decode_params params

  tool_outcome : Payload → Option Text → Outcome
  tool_outcome payload none = failure encode_failed
  tool_outcome payload (some text) = success (tool_result text (s.has_error payload))

  call_outcome : Option (Text × Args) → Outcome
  unfolding tool_outcome
  call_outcome none = failure invalid_params
  call_outcome (some (name, args)) =
      if is_empty name
      then failure missing_tool_name
      else tool_outcome (s.call_tool name args) (s.encode_payload (s.call_tool name args))

  unfoldable pub dispatch : RpcRequest → Outcome
  unfolding tool_params call_outcome
  dispatch request =
      if text_eq request.method (codes "initialize")
      then success (initialized s.server_name s.server_version)
      else if text_eq request.method (codes "ping")
      then success pong
      else if text_eq request.method (codes "tools/list")
      then success tool_list
      else if text_eq request.method (codes "tools/call")
      then call_outcome (tool_params request.params)
      else failure (method_not_found request.method)

  unfoldable pub handle_request : RpcRequest → RpcResponse
  unfolding dispatch
  handle_request request = record { id = request.id; outcome = dispatch request }

  -- The loop of Serve: `canceled_at` is the context before each round. Every round that goes on has
  -- read a message.
  unfoldable pub serve : ℕ → (ℕ → Bool) → Text → Text × ServeEnd
  unfolding read_end handle_request
  serve zero canceled_at input = ([], out_of_fuel)
  serve (suc fuel) canceled_at input =
      if canceled_at fuel then ([], canceled) else elim (read_frame input) [
        | frame_error e ↦ ([], read_end e)
        | frame payload rest ↦ elim (s.decode_request payload) [
          | none ↦ ([], read_failed decode_failed)
          | some request ↦
              if is_empty request.id
              then serve fuel canceled_at rest
              else elim (s.encode_response (handle_request request)) [
                | none ↦ ([], write_failed)
                | some body ↦ after_writing (write_frame body) (serve fuel canceled_at rest)
              ]
        ]
      ]
