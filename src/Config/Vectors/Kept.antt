-- ===== src/Config/Vectors/Kept.antt =====
-- What the blocks of applyVectorEnvOverrides, src/internal/config/config.go, keep of the settings.
use gocodemunch_mcp.Base.{Text, member, true, false, Option, none, ◌≡◌, All, All-append}
use gocodemunch_mcp.Base.Int.{pos, ltb_ℤ}
use gocodemunch_mcp.Base.Decimal.{atoi}
use gocodemunch_mcp.Config.Vectors.{
  Url, is_http_base_url, bad_top_k, bad_query_timeout, bad_lexical_weight, bad_semantic_weight,
  VectorConfig, Numbers, backends, providers, set_backend, set_top_k, set_query_timeout,
  set_lexical_weight, set_semantic_weight, need_weight, set_provider, set_ollama_url, need_vllm_url,
  need_vllm_model, set_qdrant_url, weight_rules, embedding_rules, qdrant_rules, qdrant_conditions,
  qdrant_part, vllm_part, embedding_part,
}
use gocodemunch_mcp.Config.Vectors.Rules.{Keeps, if-After, read_number-After}

module _ {F : Type 0} (numbers : Numbers F) (parse_url : Text → Option Url) where
  -- What each setting satisfies on its own.
  abbrev pub IsSound : VectorConfig F → Type 0
  IsSound cfg =
      (member cfg.backend backends ≡ true)
      × (ltb_ℤ cfg.top_k (pos 1) ≡ false)
      × (ltb_ℤ cfg.query_timeout_ms (pos 0) ≡ false)
      × (numbers.is_negative cfg.lexical_weight ≡ false)
      × (numbers.is_negative cfg.semantic_weight ≡ false)
      × (member cfg.embedding_provider providers ≡ true)
      × (is_http_base_url parse_url cfg.ollama_base_url ≡ true)
      × (is_http_base_url parse_url cfg.qdrant_url ≡ true)

  pub weight_rules-IsSound : All (Keeps numbers parse_url IsSound) (weight_rules numbers parse_url)
  unfolding set_backend set_top_k set_query_timeout set_lexical_weight set_semantic_weight
  weight_rules-IsSound = (
    λ raw cfg (_, b, c, d, e, f, g, h). if-After IsSound _ _ _ (λ n. (n, b, c, d, e, f, g, h)),
    (
      λ raw cfg (a, _, c, d, e, f, g, h).
          read_number-After IsSound (atoi raw) (λ n. ltb_ℤ n (pos 1))
            (λ n. record cfg { top_k = n }) (bad_top_k raw) (λ n x. (a, x, c, d, e, f, g, h)),
      (
        λ raw cfg (a, b, _, d, e, f, g, h).
            read_number-After IsSound (atoi raw) (λ n. ltb_ℤ n (pos 0))
              (λ n. record cfg { query_timeout_ms = n }) (bad_query_timeout raw)
              (λ n x. (a, b, x, d, e, f, g, h)),
        (
          λ raw cfg (a, b, c, _, e, f, g, h).
              read_number-After IsSound (numbers.parse_float raw) numbers.is_negative
                (λ n. record cfg { lexical_weight = n }) (bad_lexical_weight raw)
                (λ n x. (a, b, c, x, e, f, g, h)),
          (
            λ raw cfg (a, b, c, d, _, f, g, h).
                read_number-After IsSound (numbers.parse_float raw) numbers.is_negative
                  (λ n. record cfg { semantic_weight = n }) (bad_semantic_weight raw)
                  (λ n x. (a, b, c, d, x, f, g, h)),
            tt,
          ),
        ),
      ),
    ),
  )

  embedding_rules-IsSound :
      All (Keeps numbers parse_url IsSound) (embedding_rules numbers parse_url)
  unfolding set_provider set_ollama_url
  embedding_rules-IsSound = (
    λ raw cfg (a, b, c, d, e, _, g, h). if-After IsSound _ _ _ (λ x. (a, b, c, d, e, x, g, h)),
    (
      λ raw cfg s. s,
      (
        λ raw cfg (a, b, c, d, e, f, _, h). if-After IsSound _ _ _ (λ x. (a, b, c, d, e, f, x, h)),
        (λ raw cfg s. s, (λ raw cfg s. s, (λ raw cfg s. s, tt))),
      ),
    ),
  )

  qdrant_rules-IsSound : All (Keeps numbers parse_url IsSound) (qdrant_rules numbers parse_url)
  unfolding set_qdrant_url
  qdrant_rules-IsSound = (
    λ raw cfg (a, b, c, d, e, f, g, _). if-After IsSound _ _ _ (λ h. (a, b, c, d, e, f, g, h)),
    (λ raw cfg s. s, (λ raw cfg s. s, tt)),
  )

  embedding_rules-need_weight :
      All
        (Keeps numbers parse_url (λ cfg. need_weight numbers parse_url cfg ≡ none))
        (embedding_rules numbers parse_url)
  unfolding need_weight set_provider set_ollama_url
  embedding_rules-need_weight = (
    λ raw cfg s. if-After (λ cfg. need_weight numbers parse_url cfg ≡ none) _ _ _ (λ _. s),
    (
      λ raw cfg s. s,
      (
        λ raw cfg s. if-After (λ cfg. need_weight numbers parse_url cfg ≡ none) _ _ _ (λ _. s),
        (λ raw cfg s. s, (λ raw cfg s. s, (λ raw cfg s. s, tt))),
      ),
    ),
  )

  qdrant_rules-need_weight :
      All
        (Keeps numbers parse_url (λ cfg. need_weight numbers parse_url cfg ≡ none))
        (qdrant_rules numbers parse_url)
  unfolding need_weight set_qdrant_url
  qdrant_rules-need_weight = (
    λ raw cfg s. if-After (λ cfg. need_weight numbers parse_url cfg ≡ none) _ _ _ (λ _. s),
    (λ raw cfg s. s, (λ raw cfg s. s, tt)),
  )

  qdrant_rules-need_vllm_url :
      All
        (Keeps numbers parse_url (λ cfg. need_vllm_url numbers parse_url cfg ≡ none))
        (qdrant_rules numbers parse_url)
  unfolding need_vllm_url set_qdrant_url
  qdrant_rules-need_vllm_url = (
    λ raw cfg s. if-After (λ cfg. need_vllm_url numbers parse_url cfg ≡ none) _ _ _ (λ _. s),
    (λ raw cfg s. s, (λ raw cfg s. s, tt)),
  )

  qdrant_rules-need_vllm_model :
      All
        (Keeps numbers parse_url (λ cfg. need_vllm_model numbers parse_url cfg ≡ none))
        (qdrant_rules numbers parse_url)
  unfolding need_vllm_model set_qdrant_url
  qdrant_rules-need_vllm_model = (
    λ raw cfg s. if-After (λ cfg. need_vllm_model numbers parse_url cfg ≡ none) _ _ _ (λ _. s),
    (λ raw cfg s. s, (λ raw cfg s. s, tt)),
  )

  pub qdrant_part-IsSound : All (Keeps numbers parse_url IsSound) (qdrant_part numbers parse_url)
  qdrant_part-IsSound =
      All-append (Keeps numbers parse_url IsSound) (qdrant_rules numbers parse_url)
        (qdrant_conditions numbers parse_url) qdrant_rules-IsSound (tt, (tt, tt))

  pub qdrant_part-need_weight :
      All
        (Keeps numbers parse_url (λ cfg. need_weight numbers parse_url cfg ≡ none))
        (qdrant_part numbers parse_url)
  qdrant_part-need_weight =
      All-append (Keeps numbers parse_url (λ cfg. need_weight numbers parse_url cfg ≡ none))
        (qdrant_rules numbers parse_url) (qdrant_conditions numbers parse_url)
        qdrant_rules-need_weight (tt, (tt, tt))

  pub qdrant_part-need_vllm_url :
      All
        (Keeps numbers parse_url (λ cfg. need_vllm_url numbers parse_url cfg ≡ none))
        (qdrant_part numbers parse_url)
  qdrant_part-need_vllm_url =
      All-append (Keeps numbers parse_url (λ cfg. need_vllm_url numbers parse_url cfg ≡ none))
        (qdrant_rules numbers parse_url) (qdrant_conditions numbers parse_url)
        qdrant_rules-need_vllm_url (tt, (tt, tt))

  pub qdrant_part-need_vllm_model :
      All
        (Keeps numbers parse_url (λ cfg. need_vllm_model numbers parse_url cfg ≡ none))
        (qdrant_part numbers parse_url)
  qdrant_part-need_vllm_model =
      All-append (Keeps numbers parse_url (λ cfg. need_vllm_model numbers parse_url cfg ≡ none))
        (qdrant_rules numbers parse_url) (qdrant_conditions numbers parse_url)
        qdrant_rules-need_vllm_model (tt, (tt, tt))

  pub embedding_part-IsSound :
      All (Keeps numbers parse_url IsSound) (embedding_part numbers parse_url)
  embedding_part-IsSound =
      All-append (Keeps numbers parse_url IsSound) (embedding_rules numbers parse_url)
        (vllm_part numbers parse_url) embedding_rules-IsSound (tt, (tt, qdrant_part-IsSound))

  pub embedding_part-need_weight :
      All
        (Keeps numbers parse_url (λ cfg. need_weight numbers parse_url cfg ≡ none))
        (embedding_part numbers parse_url)
  embedding_part-need_weight =
      All-append (Keeps numbers parse_url (λ cfg. need_weight numbers parse_url cfg ≡ none))
        (embedding_rules numbers parse_url) (vllm_part numbers parse_url)
        embedding_rules-need_weight (tt, (tt, qdrant_part-need_weight))
