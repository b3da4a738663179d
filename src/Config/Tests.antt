-- ===== src/Config/Tests.antt =====
-- The theorems on the configuration at concrete inputs.
use gocodemunch_mcp.Base.{
  Text, codes, text_eq, has_prefix, ◌≡◌, refl, Option, none, some, List, [], ◌∷◌, arith,
  if◌then◌else◌, not, ◌&&◌, trim_space, to_lower, member,
}
use gocodemunch_mcp.Base.Int.{ℤ, pos, ltb_ℤ}
use gocodemunch_mcp.Base.Decimal.{atoi, all_digits, value}
use gocodemunch_mcp.Config.Parsing.{getenv_trimmed, getenv_raw}
use gocodemunch_mcp.Config.Vectors.{
  Url, is_http_base_url, VectorConfig, Numbers, apply_vector_env_overrides, apply_rules, apply_rule,
  override, require, apply_effect, note, set_backend, set_top_k, set_query_timeout,
  set_lexical_weight, set_semantic_weight, need_weight, set_provider, set_ollama_url, need_vllm_url,
  need_vllm_model, set_qdrant_url, need_qdrant_url, need_qdrant_collection, read_number,
}
use gocodemunch_mcp.Config.Vectors.Kept.{IsSound}
use gocodemunch_mcp.Config.Vectors.Valid.{
  IsComplete, apply_vector_env_overrides-IsSound, apply_vector_env_overrides-IsComplete,
}
use gocodemunch_mcp.Config.Jsonc.{strip_jsonc_comments, strip_jsonc_trailing_commas}
use gocodemunch_mcp.Config.Jsonc.Pieces.{
  Piece, plain, quoted, line_comment, block_comment, byte, escape, open_block, IsSource,
}
use gocodemunch_mcp.Config.Jsonc.Commas.{strip_jsonc_lem}

-- ["//\"", /* x */ 1, // y
-- ] and an open comment
abbrev pieces : List Piece
pieces =
    plain b'['
    ∷ quoted (byte b'/' ∷ byte b'/' ∷ escape b'"' ∷ [])
    ∷ plain b','
    ∷ block_comment (codes " x *")
    ∷ plain b'1'
    ∷ plain b','
    ∷ line_comment (codes " y")
    ∷ plain b']'
    ∷ []

pieces-IsSource : IsSource pieces (open_block (codes "z"))
pieces-IsSource = ground arith

strip_jsonc_lem_example :
    strip_jsonc_trailing_commas (strip_jsonc_comments (codes "[\"//\\\"\",/* x **/1,// y\n]/*z"))
    ≡ codes "[\"//\\\"\",1\n]"
strip_jsonc_lem_example = strip_jsonc_lem pieces (open_block (codes "z")) pieces-IsSource

-- A number is an integer here, and a URL has a scheme only.
abbrev numbers : Numbers ℤ
numbers = record {
  parse_float = λ s. atoi s;
  is_negative = λ n. ltb_ℤ n (pos 0);
  is_zero = λ n. not (ltb_ℤ n (pos 0)) && not (ltb_ℤ (pos 0) n);
}

abbrev parse_url : Text → Option Url
parse_url raw =
    if has_prefix raw (codes "http://")
    then some (record { scheme = codes "http"; host = codes "h" })
    else none

abbrev lookup_env : Text → Option Text
lookup_env key =
    if text_eq key (codes "VECTOR_BACKEND")
    then some (codes " Qdrant ")
    else if text_eq key (codes "VECTOR_TOP_K")
    then some (codes "7")
    else if text_eq key (codes "EMBEDDING_PROVIDER")
    then some (codes "vllm")
    else none

abbrev default_config : VectorConfig ℤ
default_config = record {
  backend = codes "sqlite";
  top_k = pos 5;
  query_timeout_ms = pos 8000;
  lexical_weight = pos 1;
  semantic_weight = pos 1;
  embedding_provider = codes "ollama";
  embedding_model = codes "bge-m3";
  ollama_base_url = codes "http://o";
  vllm_base_url = codes "http://v";
  vllm_model = codes "bge-m3";
  vllm_api_key = [];
  qdrant_url = codes "http://q";
  qdrant_api_key = [];
  qdrant_collection = codes "c";
}

default_config-IsSound : IsSound numbers parse_url default_config
unfolding is_http_base_url member text_eq has_prefix to_lower
default_config-IsSound = (refl, refl, refl, refl, refl, refl, refl, refl)

apply_vector_env_overrides-IsSound_example :
    IsSound numbers parse_url
      (apply_vector_env_overrides numbers parse_url lookup_env default_config).0
apply_vector_env_overrides-IsSound_example =
    apply_vector_env_overrides-IsSound numbers parse_url lookup_env default_config
      default_config-IsSound

no_messages : (apply_vector_env_overrides numbers parse_url lookup_env default_config).1 ≡ []
unfolding apply_vector_env_overrides apply_rules apply_rule override require apply_effect note
    getenv_trimmed getenv_raw set_backend set_top_k set_query_timeout set_lexical_weight
    set_semantic_weight need_weight set_provider set_ollama_url need_vllm_url need_vllm_model
    set_qdrant_url need_qdrant_url need_qdrant_collection read_number is_http_base_url trim_space
    to_lower text_eq has_prefix member atoi all_digits value
no_messages = refl

apply_vector_env_overrides-IsComplete_example :
    IsComplete numbers parse_url
      (apply_vector_env_overrides numbers parse_url lookup_env default_config).0
apply_vector_env_overrides-IsComplete_example =
    apply_vector_env_overrides-IsComplete numbers parse_url lookup_env default_config no_messages
