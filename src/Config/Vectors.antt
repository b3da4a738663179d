-- ===== src/Config/Vectors.antt =====
-- The settings of vectors and embeddings: applyVectorEnvOverrides of src/internal/config/config.go. A
-- floating-point number is a parameter, with strconv.ParseFloat and the tests on it, and so is
-- url.Parse in isHTTPBaseURL. A message is a constructor, with what it quotes.
pub mod Rules
pub mod Kept
pub mod Valid
use gocodemunch_mcp.Base.{
  Text, codes, text_eq, trim_space, to_lower, is_empty, member, Bool, true, false, ◌||◌, ◌&&◌, not,
  Option, none, some, List, [], ◌∷◌, ◌++◌, if◌then◌else◌,
}
use gocodemunch_mcp.Base.Int.{ℤ, pos, ltb_ℤ}
use gocodemunch_mcp.Base.Decimal.{atoi}
use gocodemunch_mcp.Config.Parsing.{getenv_trimmed}

-- A scheme and a host of a URL that parses.
pub record Url : Type 0 where
  pub scheme : Text
  pub host : Text

unfoldable pub is_http_base_url : (Text → Option Url) → Text → Bool
is_http_base_url parse_url raw = elim (parse_url raw) [
  | none ↦ false
  | some parsed ↦
      if is_empty parsed.scheme || is_empty parsed.host
      then false
      else member (to_lower parsed.scheme) (codes "http" ∷ codes "https" ∷ [])
]

pub data ConfigProblem : Type 0 where
  bad_backend bad_top_k bad_query_timeout bad_lexical_weight bad_semantic_weight bad_provider
        bad_ollama_url bad_vllm_url bad_qdrant_url :
      Text → ConfigProblem
  no_weight no_vllm_url no_vllm_model no_qdrant_url no_qdrant_collection : ConfigProblem

pub record VectorConfig (F : Type 0) : Type 0 where
  pub backend : Text
  pub top_k : ℤ
  pub query_timeout_ms : ℤ
  pub lexical_weight : F
  pub semantic_weight : F
  pub embedding_provider : Text
  pub embedding_model : Text
  pub ollama_base_url : Text
  pub vllm_base_url : Text
  pub vllm_model : Text
  pub vllm_api_key : Text
  pub qdrant_url : Text
  pub qdrant_api_key : Text
  pub qdrant_collection : Text

pub record Numbers (F : Type 0) : Type 0 where
  pub parse_float : Text → Option F
  pub is_negative : F → Bool
  pub is_zero : F → Bool

-- What one variable does to the settings: nothing, a change, or a message.
pub data Effect (F : Type 0) : Type 0 where
  keep : Effect F
  change : VectorConfig F → Effect F
  complain : ConfigProblem → Effect F

-- A number that has to be read and to pass a test, as Atoi and ParseFloat are used.
unfoldable pub read_number :
    {F A : Type 0} → Option A → (A → Bool) → (A → VectorConfig F) → ConfigProblem → Effect F
read_number none is_bad with_number e = complain e
read_number (some n) is_bad with_number e = if is_bad n then complain e else change (with_number n)

abbrev pub backends : List Text
backends = codes "sqlite" ∷ codes "qdrant" ∷ []

abbrev pub providers : List Text
providers = codes "ollama" ∷ codes "vllm" ∷ []

module _ {F : Type 0} (numbers : Numbers F) (parse_url : Text → Option Url) where
  abbrev pub State : Type 0
  State = VectorConfig F × List ConfigProblem

  unfoldable pub apply_effect : Effect F → State → State
  apply_effect keep s = s
  apply_effect (change cfg) (_, errors) = (cfg, errors)
  apply_effect (complain e) (cfg, errors) = (cfg, errors ++ (e ∷ []))

  -- A variable that is set and not blank.
  unfoldable pub override : Option Text → (Text → VectorConfig F → Effect F) → State → State
  unfolding apply_effect
  override none f s = s
  override (some raw) f (cfg, errors) = apply_effect (f raw cfg) (cfg, errors)

  unfoldable pub note : Option ConfigProblem → State → State
  note none s = s
  note (some e) (cfg, errors) = (cfg, errors ++ (e ∷ []))

  -- A condition on the settings that have been read so far.
  unfoldable pub require : (VectorConfig F → Option ConfigProblem) → State → State
  unfolding note
  require test (cfg, errors) = note (test cfg) (cfg, errors)

  unfoldable pub set_backend : Text → VectorConfig F → Effect F
  set_backend raw cfg =
      let word = to_lower raw in
      if member word backends
      then change (record cfg { backend = word })
      else complain (bad_backend raw)

  unfoldable pub set_top_k : Text → VectorConfig F → Effect F
  unfolding read_number
  set_top_k raw cfg =
      read_number (atoi raw) (λ n. ltb_ℤ n (pos 1)) (λ n. record cfg { top_k = n }) (bad_top_k raw)

  unfoldable pub set_query_timeout : Text → VectorConfig F → Effect F
  unfolding read_number
  set_query_timeout raw cfg =
      read_number (atoi raw) (λ n. ltb_ℤ n (pos 0)) (λ n. record cfg { query_timeout_ms = n })
        (bad_query_timeout raw)

  unfoldable pub set_lexical_weight : Text → VectorConfig F → Effect F
  unfolding read_number
  set_lexical_weight raw cfg =
      read_number (numbers.parse_float raw) numbers.is_negative
        (λ n. record cfg { lexical_weight = n }) (bad_lexical_weight raw)

  unfoldable pub set_semantic_weight : Text → VectorConfig F → Effect F
  unfolding read_number
  set_semantic_weight raw cfg =
      read_number (numbers.parse_float raw) numbers.is_negative
        (λ n. record cfg { semantic_weight = n }) (bad_semantic_weight raw)

  unfoldable pub need_weight : VectorConfig F → Option ConfigProblem
  need_weight cfg =
      if numbers.is_zero cfg.lexical_weight && numbers.is_zero cfg.semantic_weight
      then some no_weight
      else none

  unfoldable pub set_provider : Text → VectorConfig F → Effect F
  set_provider raw cfg =
      let word = to_lower raw in
      if member word providers
      then change (record cfg { embedding_provider = word })
      else complain (bad_provider raw)

  unfoldable pub set_ollama_url : Text → VectorConfig F → Effect F
  unfolding is_http_base_url
  set_ollama_url raw cfg =
      if is_http_base_url parse_url raw
      then change (record cfg { ollama_base_url = raw })
      else complain (bad_ollama_url raw)

  unfoldable pub need_vllm_url : VectorConfig F → Option ConfigProblem
  unfolding is_http_base_url
  need_vllm_url cfg =
      if not (text_eq cfg.embedding_provider (codes "vllm"))
      then none
      else if is_empty (trim_space cfg.vllm_base_url)
      then some no_vllm_url
      else if is_http_base_url parse_url cfg.vllm_base_url
      then none
      else some (bad_vllm_url cfg.vllm_base_url)

  unfoldable pub need_vllm_model : VectorConfig F → Option ConfigProblem
  need_vllm_model cfg =
      if text_eq cfg.embedding_provider (codes "vllm") && is_empty (trim_space cfg.vllm_model)
      then some no_vllm_model
      else none

  unfoldable pub set_qdrant_url : Text → VectorConfig F → Effect F
  unfolding is_http_base_url
  set_qdrant_url raw cfg =
      if is_http_base_url parse_url raw
      then change (record cfg { qdrant_url = raw })
      else complain (bad_qdrant_url raw)

  unfoldable pub need_qdrant_url : VectorConfig F → Option ConfigProblem
  need_qdrant_url cfg =
      if text_eq cfg.backend (codes "qdrant") && is_empty (trim_space cfg.qdrant_url)
      then some no_qdrant_url
      else none

  unfoldable pub need_qdrant_collection : VectorConfig F → Option ConfigProblem
  need_qdrant_collection cfg =
      if text_eq cfg.backend (codes "qdrant") && is_empty (trim_space cfg.qdrant_collection)
      then some no_qdrant_collection
      else none

  -- A block of the function: a variable that may be set, or a condition.
  pub data Rule : Type 0 where
    variable : Text → (Text → VectorConfig F → Effect F) → Rule
    condition : (VectorConfig F → Option ConfigProblem) → Rule

  module _ (lookup_env : Text → Option Text) where
    unfoldable pub apply_rule : Rule → State → State
    unfolding override require
    apply_rule (variable key f) s = override (getenv_trimmed lookup_env key) f s
    apply_rule (condition test) s = require test s

    unfoldable pub apply_rules : List Rule → State → State
    unfolding apply_rule
    apply_rules [] s = s
    apply_rules (r ∷ rules) s = apply_rules rules (apply_rule r s)

  abbrev pub weight_rules : List Rule
  weight_rules =
      variable (codes "VECTOR_BACKEND") set_backend
      ∷ variable (codes "VECTOR_TOP_K") set_top_k
      ∷ variable (codes "VECTOR_QUERY_TIMEOUT_MS") set_query_timeout
      ∷ variable (codes "VECTOR_LEXICAL_WEIGHT") set_lexical_weight
      ∷ variable (codes "VECTOR_SEMANTIC_WEIGHT") set_semantic_weight
      ∷ []

  abbrev pub embedding_rules : List Rule
  embedding_rules =
      variable (codes "EMBEDDING_PROVIDER") set_provider
      ∷ variable (codes "EMBEDDING_MODEL")
          (λ raw cfg. change (record cfg { embedding_model = raw }))
      ∷ variable (codes "OLLAMA_BASE_URL") set_ollama_url
      ∷ variable (codes "VLLM_BASE_URL") (λ raw cfg. change (record cfg { vllm_base_url = raw }))
      ∷ variable (codes "VLLM_MODEL") (λ raw cfg. change (record cfg { vllm_model = raw }))
      ∷ variable (codes "VLLM_API_KEY") (λ raw cfg. change (record cfg { vllm_api_key = raw }))
      ∷ []

  abbrev pub qdrant_rules : List Rule
  qdrant_rules =
      variable (codes "QDRANT_URL") set_qdrant_url
      ∷ variable (codes "QDRANT_API_KEY") (λ raw cfg. change (record cfg { qdrant_api_key = raw }))
      ∷ variable (codes "QDRANT_COLLECTION")
          (λ raw cfg. change (record cfg { qdrant_collection = raw }))
      ∷ []

  abbrev pub qdrant_conditions : List Rule
  qdrant_conditions = condition need_qdrant_url ∷ condition need_qdrant_collection ∷ []

  -- The blocks behind the conditions on vLLM, behind the one on the weights, and all of them, in the
  -- order of the source.
  abbrev pub qdrant_part : List Rule
  qdrant_part = qdrant_rules ++ qdrant_conditions

  abbrev pub vllm_part : List Rule
  vllm_part = condition need_vllm_url ∷ condition need_vllm_model ∷ qdrant_part

  abbrev pub embedding_part : List Rule
  embedding_part = embedding_rules ++ vllm_part

  abbrev pub vector_rules : List Rule
  vector_rules = weight_rules ++ (condition need_weight ∷ embedding_part)

  -- The settings, and the messages, none of them where the function returns nil.
  unfoldable pub apply_vector_env_overrides :
      (Text → Option Text) → VectorConfig F → VectorConfig F × List ConfigProblem
  unfolding apply_rules
  apply_vector_env_overrides lookup_env cfg = apply_rules lookup_env vector_rules (cfg, [])
