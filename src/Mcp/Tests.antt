-- ===== src/Mcp/Tests.antt =====
-- The theorems on messages at concrete inputs.
use gocodemunch_mcp.Base.{
  Text, codes, length, ◌≤◌, ◌≡◌, refl, false, none, some, List, [], ◌∷◌, ◌++◌, arith, All,
}
use gocodemunch_mcp.Base.Decimal.{max_int}
use gocodemunch_mcp.Mcp.Codec.{frame, read_frame, write_frame}
use gocodemunch_mcp.Mcp.Codec.Frames.{read_frame-write_frame}
use gocodemunch_mcp.Mcp.Server.{RpcResponse, Services, serve, input_ended, handle_request}
use gocodemunch_mcp.Mcp.Server.Serving.{Message, sent, replies, IsReadable, serve_lem}

abbrev payload : Text
payload = codes "{}"

short : length payload ≤ max_int
short = omega arith

read_frame-write_frame_example :
    read_frame (write_frame payload ++ codes "rest") ≡ frame payload (codes "rest")
read_frame-write_frame_example = read_frame-write_frame payload (codes "rest") short

-- A service whose requests are pings, with the payload as the id, and whose responses are ids.
abbrev services : Services (Unit {0}) (Unit {0})
services = record {
  decode_request = λ p. some (record { id = p; method = codes "ping"; params = [] });
  decode_params = λ p. none;
  no_args = tt;
  encode_payload = λ p. none;
  encode_response = λ (r : RpcResponse). some r.id;
  call_tool = λ name args. tt;
  has_error = λ p. false;
  server_name = codes "s";
  server_version = codes "1";
}

abbrev ping : Text → Message
ping id = record {
  payload = id;
  request = record { id = id; method = codes "ping"; params = [] };
  body = id;
}

abbrev messages : List Message
messages = ping (codes "1") ∷ ping [] ∷ ping (codes "2") ∷ []

readable : All (IsReadable services) messages
unfolding handle_request
readable = ((omega arith, refl, refl), ((omega arith, refl, refl), ((omega arith, refl, refl), tt)))

serve_lem_example : serve services 4 (λ i. false) (sent messages) ≡ (replies messages, input_ended)
serve_lem_example = serve_lem services messages 4 (λ i. false) readable (omega arith) (λ i. refl)
