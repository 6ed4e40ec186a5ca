-- ===== src/Provider.antt =====
-- sidecar/src/playerbots_llm/provider.py: what the service knows of a generation provider. The operations of
-- a provider are an interface: what one call returns is an argument of the service.
use mod_playerbot_llm.Prelude.{
  ℕ, Bool, true, false, ◌&&◌, Option, none, some, List, [], ◌∷◌, Result, if◌then◌else◌,
}
use mod_playerbot_llm.Prelude.Int.{ℤ, pos, leb_ℤ}
use mod_playerbot_llm.Prelude.Text.{Text, text_eq}
use mod_playerbot_llm.Protocol.{
  ChatRequest, SocialRequest, RoleplayAssessmentRequest, BiographyRequest, MemoryRequest,
}
use mod_playerbot_llm.Protocol.Encode.{RoleplayAssessmentCompletion, Biography, MemoryCandidate}
use mod_playerbot_llm.Protocol.Social.{Proposal}

pub record GenerationProviderMetadata : Type 0 where
  pub name : Text
  pub model : Text
  pub max_input_tokens : ℕ
  pub output_token_limits : List (Text × ℕ)

-- The `ValueError` is `none`.
unfoldable pub max_output_tokens : List (Text × ℕ) → Text → Option ℕ
max_output_tokens [] operation = none
max_output_tokens ((name, limit) ∷ limits) operation =
    let rest = max_output_tokens limits operation in
    if text_eq name operation then some limit else rest

pub record GenerationUsage : Type 0 where
  pub input_tokens : ℤ
  pub output_tokens : ℤ
  pub cache_creation_input_tokens : ℤ
  pub cache_read_input_tokens : ℤ

unfoldable pub is_priceable : GenerationUsage → Bool
is_priceable u =
    leb_ℤ (pos 0) u.input_tokens
    && (leb_ℤ (pos 0) u.output_tokens
        && (leb_ℤ (pos 0) u.cache_creation_input_tokens && leb_ℤ (pos 0) u.cache_read_input_tokens))

pub record SocialGenerationResult : Type 0 where
  pub message : Text
  pub emote_id : ℕ
  pub proposal : Proposal
  pub usage : GenerationUsage

pub data GenerationBillingStatus : Type 0 where
  known impossible indeterminate : GenerationBillingStatus

pub data GenerationError : Type 0 where
  generation_error timeout_error auth_error rate_limit_error provider_error : GenerationError
  invalid_output_error : Option GenerationUsage → GenerationError

abbrev pub status_of_usage : Option GenerationUsage → GenerationBillingStatus
status_of_usage none = indeterminate
status_of_usage (some usage) = if is_priceable usage then known else indeterminate

unfoldable pub billing_status : GenerationError → GenerationBillingStatus
billing_status auth_error = impossible
billing_status rate_limit_error = impossible
billing_status (invalid_output_error usage) = status_of_usage usage
billing_status _ = indeterminate

unfoldable pub retryable : GenerationError → Bool
retryable timeout_error = true
retryable rate_limit_error = true
retryable provider_error = true
retryable _ = false

unfoldable pub error_usage : GenerationError → Option GenerationUsage
error_usage (invalid_output_error usage) = usage
error_usage _ = none

abbrev pub Generated : Type 0 → Type 0
Generated A = Result GenerationError A

-- What the calls of a provider return.
pub record GenerationProvider : Type 0 where
  pub metadata : GenerationProviderMetadata
  pub count_input_tokens : ChatRequest → List (Text × Text) → Generated ℤ
  pub generate_reply : ChatRequest → List (Text × Text) → Generated (Text × GenerationUsage)
  pub count_social_input_tokens : SocialRequest → Generated ℤ
  pub generate_social_reply : SocialRequest → Generated SocialGenerationResult
  pub count_roleplay_assessment_input_tokens : RoleplayAssessmentRequest → Generated ℤ
  pub assess_roleplay :
      RoleplayAssessmentRequest → Generated (RoleplayAssessmentCompletion × GenerationUsage)
  pub count_biography_input_tokens : BiographyRequest → Generated ℤ
  pub generate_biography : BiographyRequest → Generated (Biography × GenerationUsage)
  pub count_memory_input_tokens : MemoryRequest → Generated ℤ
  pub generate_memories : MemoryRequest → Generated (List MemoryCandidate × GenerationUsage)
