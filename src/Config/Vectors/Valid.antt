-- ===== src/Config/Vectors/Valid.antt =====
-- What applyVectorEnvOverrides of src/internal/config/config.go promises of the settings.
use gocodemunch_mcp.Base.{
  Text, codes, text_eq, trim_space, is_empty, true, false, ◌&&◌, Option, none, List, [], ◌∷◌, ◌++◌,
  ◌≡◌, ◌⊎◌, inl, inr, sym, ◌∙◌, ap, All, All-append, arith, Bool-cases,
}
use gocodemunch_mcp.Config.Vectors.{
  Url, is_http_base_url, ConfigProblem, VectorConfig, Numbers, need_weight, need_vllm_url,
  need_vllm_model, need_qdrant_url, need_qdrant_collection, Rule, condition, apply_rules,
  weight_rules, embedding_rules, qdrant_rules, qdrant_part, embedding_part, vector_rules,
  apply_vector_env_overrides,
}
use gocodemunch_mcp.Config.Vectors.Rules.{
  Keeps, apply_rules-Keeps, apply_rules-append, apply_rules-condition,
}
use gocodemunch_mcp.Config.Vectors.Kept.{
  IsSound, weight_rules-IsSound, qdrant_part-need_vllm_url, qdrant_part-need_vllm_model,
  embedding_part-IsSound, embedding_part-need_weight,
}

module _ {F : Type 0} (numbers : Numbers F) (parse_url : Text → Option Url) where
  -- What the settings satisfy together.
  abbrev pub IsComplete : VectorConfig F → Type 0
  IsComplete cfg =
      ((numbers.is_zero cfg.lexical_weight && numbers.is_zero cfg.semantic_weight) ≡ false)
      × ((text_eq cfg.embedding_provider (codes "vllm") ≡ false)
          ⊎ ((is_http_base_url parse_url cfg.vllm_base_url ≡ true)
              × (is_empty (trim_space cfg.vllm_model) ≡ false)))
      × ((text_eq cfg.backend (codes "qdrant") ≡ false)
          ⊎ ((is_empty (trim_space cfg.qdrant_url) ≡ false)
              × (is_empty (trim_space cfg.qdrant_collection) ≡ false)))

  needs-IsComplete :
      (cfg : VectorConfig F)
      → need_weight numbers parse_url cfg ≡ none
      → need_vllm_url numbers parse_url cfg ≡ none
      → need_vllm_model numbers parse_url cfg ≡ none
      → need_qdrant_url numbers parse_url cfg ≡ none
      → need_qdrant_collection numbers parse_url cfg ≡ none
      → IsComplete cfg
  unfolding need_weight need_vllm_url need_vllm_model need_qdrant_url need_qdrant_collection
  needs-IsComplete cfg w u m q c = (
    ground (arith, w),
    elim (Bool-cases (text_eq cfg.embedding_provider (codes "vllm"))) [
      | inl e ↦ inr (ground (arith, e, u), ground (arith, e, m))
      | inr e ↦ inl e
    ],
    elim (Bool-cases (text_eq cfg.backend (codes "qdrant"))) [
      | inl e ↦ inr (ground (arith, e, q), ground (arith, e, c))
      | inr e ↦ inl e
    ],
  )

  module _ (lookup_env : Text → Option Text) where
    abbrev Rules : Type 0
    Rules = List (Rule numbers parse_url)

    condition_in :
        (first : Rules) (test : VectorConfig F → Option ConfigProblem) (rest : Rules)
        (s : VectorConfig F × List ConfigProblem)
        → All (Keeps numbers parse_url (λ cfg. test cfg ≡ none)) rest
        → (apply_rules numbers parse_url lookup_env (first ++ (condition test ∷ rest)) s).1 ≡ []
        → test (apply_rules numbers parse_url lookup_env (first ++ (condition test ∷ rest)) s).0
          ≡ none
    condition_in first test rest s k h =
        let e = apply_rules-append numbers parse_url lookup_env first (condition test ∷ rest) s in
        let before = apply_rules numbers parse_url lookup_env first s in
        ap (λ r. test r.0) e
        ∙ apply_rules-condition numbers parse_url lookup_env test rest before k
            (sym (ap (λ r. r.1) e) ∙ h)

    -- Whatever the variables are, and whatever messages come of them, each setting stays sound.
    pub apply_vector_env_overrides-IsSound :
        (cfg : VectorConfig F)
        → IsSound numbers parse_url cfg
        → IsSound numbers parse_url (apply_vector_env_overrides numbers parse_url lookup_env cfg).0
    unfolding apply_vector_env_overrides
    apply_vector_env_overrides-IsSound cfg s =
        let Kept = Keeps numbers parse_url (IsSound numbers parse_url) in
        apply_rules-Keeps numbers parse_url lookup_env (IsSound numbers parse_url)
          (vector_rules numbers parse_url) (cfg, [])
          (All-append Kept (weight_rules numbers parse_url)
            (condition (need_weight numbers parse_url) ∷ embedding_part numbers parse_url)
            (weight_rules-IsSound numbers parse_url) (tt, embedding_part-IsSound numbers parse_url))
          s

    -- Without a message the settings are complete.
    pub apply_vector_env_overrides-IsComplete :
        (cfg : VectorConfig F)
        → (apply_vector_env_overrides numbers parse_url lookup_env cfg).1 ≡ []
        → IsComplete (apply_vector_env_overrides numbers parse_url lookup_env cfg).0
    unfolding apply_vector_env_overrides
    apply_vector_env_overrides-IsComplete cfg h =
        let weights = weight_rules numbers parse_url in
        let embeddings = embedding_rules numbers parse_url in
        let qdrant = qdrant_rules numbers parse_url in
        let weight = condition (need_weight numbers parse_url) in
        let url = condition (need_vllm_url numbers parse_url) in
        let model = condition (need_vllm_model numbers parse_url) in
        let qdrant_url = condition (need_qdrant_url numbers parse_url) in
        let collection = condition (need_qdrant_collection numbers parse_url) in
        needs-IsComplete (apply_vector_env_overrides numbers parse_url lookup_env cfg).0
          (condition_in weights (need_weight numbers parse_url) (embedding_part numbers parse_url)
            (cfg, []) (embedding_part-need_weight numbers parse_url) h)
          (condition_in (weights ++ (weight ∷ embeddings)) (need_vllm_url numbers parse_url)
            (model ∷ qdrant_part numbers parse_url) (cfg, [])
            (tt, qdrant_part-need_vllm_url numbers parse_url) h)
          (condition_in (weights ++ (weight ∷ (embeddings ++ (url ∷ []))))
            (need_vllm_model numbers parse_url) (qdrant_part numbers parse_url) (cfg, [])
            (qdrant_part-need_vllm_model numbers parse_url) h)
          (condition_in (weights ++ (weight ∷ (embeddings ++ (url ∷ model ∷ qdrant))))
            (need_qdrant_url numbers parse_url) (collection ∷ []) (cfg, []) (tt, tt) h)
          (condition_in
            (weights ++ (weight ∷ (embeddings ++ (url ∷ model ∷ (qdrant ++ (qdrant_url ∷ []))))))
            (need_qdrant_collection numbers parse_url) [] (cfg, []) tt h)
