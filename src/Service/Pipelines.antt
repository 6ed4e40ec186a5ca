-- ===== src/Service/Pipelines.antt =====
-- Four handlers of app.py, for requests that name their kind. A response is the encoder's object, silence
-- is `none`.
use mod_playerbot_llm.Prelude.{
  ℕ, Bool, not, ◌&&◌, ◌||◌, Option, none, some, List, ok, err, pure, raise, ◌>>=◌, leb, length,
  if◌then◌else◌,
}
use mod_playerbot_llm.Prelude.Int.{pos, pos_part, leb_ℤ}
use mod_playerbot_llm.Prelude.Text.{Text, codes}
use mod_playerbot_llm.Budget.{
  RequestPriority, immediate_human, background, RequestKind, chat_response, backstory_generation,
  memory_extraction, moderation_classification, career_generation, nano_to_fixed_usd_string,
}
use mod_playerbot_llm.Ledger.{BudgetLedger}
use mod_playerbot_llm.Protocol.{
  ChatRequest, is_ambient, is_career, SocialRequest, RoleplayAssessmentRequest, BiographyRequest,
  MemoryRequest, byte_length, is_empty, max_social_model_bytes, SocialAdmissionLane, human_lane,
  background_lane,
}
use mod_playerbot_llm.Protocol.Encode.{
  Payload, Encoded, RoleplayAssessmentCompletion, encode_roleplay_assessment_response,
  encode_biography_response, encode_memory_response, Biography, MemoryCandidate,
}
use mod_playerbot_llm.Protocol.Social.{
  SocialCallMetadata, is_cost_text, encode_social_regeneration, encode_social_response,
}
use mod_playerbot_llm.Provider.{
  GenerationProvider, GenerationUsage, invalid_output_error, SocialGenerationResult, Generated,
}
use mod_playerbot_llm.Service.Config.{SidecarConfig}
use mod_playerbot_llm.Service.Calls.{
  protocol_error, Act, Outside, Call, Outcome, silent, failed, answered, run_call,
}

-- `_priority_for`
unfoldable pub priority_for : ChatRequest → RequestPriority
priority_for request =
    if is_ambient request || is_career request then background else immediate_human

-- `_request_kind_for`
unfoldable pub request_kind_for : ChatRequest → RequestKind
request_kind_for request = if is_career request then career_generation else chat_response

abbrev priority_of_lane : SocialAdmissionLane → RequestPriority
priority_of_lane human_lane = immediate_human
priority_of_lane background_lane = background

-- `_social_priority_for`
unfoldable pub social_priority_for : SocialRequest → RequestPriority
social_priority_for request = priority_of_lane request.admission_lane

-- A service with its provider. `store` is the open ledger and store, if there is one. The readers of a career
-- reply, of the version in a career request, and of digits are library functions: arguments.
pub record SidecarService : Type 0 where
  pub config : SidecarConfig
  pub token : Text
  pub adapter : GenerationProvider
  pub store : Option BudgetLedger
  pub parse_career_reply : Text → Option (Text × Text)
  pub career_version_of : Text → ℕ
  pub is_digit : ℕ → Bool

abbrev pub Response : Type 0
Response = Option Payload

abbrev pub respond : Encoded → Act Response
respond (ok payload) = pure (some payload)
respond (err e) = raise (protocol_error e)

-- The pairs of a social generation, split as the other operations return them.
abbrev pub with_usage :
    Generated SocialGenerationResult → Generated (SocialGenerationResult × GenerationUsage)
with_usage (ok generated) = ok (generated, generated.usage)
with_usage (err e) = err e

module _ (svc : SidecarService) (out : Outside) (book : BudgetLedger) where
  abbrev pub call_provider : {R : Type 0} → Call R → Act (Outcome R)
  call_provider call = run_call svc.config svc.adapter.metadata book out call

  abbrev pub answer_assessment :
      RoleplayAssessmentRequest → Outcome RoleplayAssessmentCompletion → Act Response
  answer_assessment request (answered completion usage receipt) = respond (
      encode_roleplay_assessment_response request.roleplay_assessment_request_token completion
        svc.token)
  answer_assessment request _ = pure none

  abbrev pub assessment_call : RoleplayAssessmentRequest → Call RoleplayAssessmentCompletion
  assessment_call request = record {
    request_kind = moderation_classification;
    priority = immediate_human;
    operation = codes "roleplay_assessment";
    input_tokens = svc.adapter.count_roleplay_assessment_input_tokens request;
    generated = svc.adapter.assess_roleplay request;
  }

  -- The body of `_process_roleplay_assessment_within_deadline` once durable state is open.
  unfoldable pub process_roleplay_assessment : RoleplayAssessmentRequest → Act Response
  process_roleplay_assessment request = do
    outcome ← call_provider (assessment_call request)
    answer_assessment request outcome

  abbrev pub answer_memory : MemoryRequest → Outcome (List MemoryCandidate) → Act Response
  answer_memory request (answered candidates usage receipt) = respond (
      encode_memory_response request.memory_request_token request.bot_guid request.thread_id
        candidates svc.token)
  answer_memory request _ = pure none

  abbrev pub memory_call : MemoryRequest → Call (List MemoryCandidate)
  memory_call request = record {
    request_kind = memory_extraction;
    priority = background;
    operation = codes "memory";
    input_tokens = svc.adapter.count_memory_input_tokens request;
    generated = svc.adapter.generate_memories request;
  }

  unfoldable pub process_memory : MemoryRequest → Act Response
  process_memory request = do
    outcome ← call_provider (memory_call request)
    answer_memory request outcome

  abbrev pub answer_biography : BiographyRequest → Outcome Biography → Act Response
  answer_biography request (answered fields usage receipt) =
      respond (
        encode_biography_response request.biography_request_token request.bot_guid fields svc.token)
  answer_biography request _ = pure none

  abbrev pub biography_call : BiographyRequest → Call Biography
  biography_call request = record {
    request_kind = backstory_generation;
    priority = background;
    operation = codes "biography";
    input_tokens = svc.adapter.count_biography_input_tokens request;
    generated = svc.adapter.generate_biography request;
  }

  unfoldable pub process_biography : BiographyRequest → Act Response
  process_biography request = do
    outcome ← call_provider (biography_call request)
    answer_biography request outcome

  abbrev pub is_model_name : Text → Bool
  is_model_name name =
      not (is_empty name)
      && (leb (length name) max_social_model_bytes && leb (byte_length name) max_social_model_bytes)

  -- `SocialCallMetadata(...)` and the text of its cost, either of which may raise a `ValueError`; the counts
  -- that it refuses are the negative ones.
  abbrev pub call_metadata : GenerationUsage → Option Text → Option SocialCallMetadata
  call_metadata usage none = none
  call_metadata usage (some cost) =
      if (is_model_name svc.adapter.metadata.model && is_cost_text cost)
        && (leb_ℤ (pos 0) usage.input_tokens
            && (leb_ℤ (pos 0) usage.output_tokens
                && (leb_ℤ (pos 0) usage.cache_creation_input_tokens
                    && leb_ℤ (pos 0) usage.cache_read_input_tokens)))
      then some (record {
        model = svc.adapter.metadata.model;
        provider_latency_ms = out.latency_ms;
        input_tokens = pos_part usage.input_tokens;
        output_tokens = pos_part usage.output_tokens;
        cache_creation_input_tokens = pos_part usage.cache_creation_input_tokens;
        cache_read_input_tokens = pos_part usage.cache_read_input_tokens;
        cost_usd = cost;
      })
      else none

  abbrev pub respond_social :
      SocialRequest → SocialGenerationResult → Option SocialCallMetadata → Act Response
  respond_social request generated none = pure none
  respond_social request generated (some metadata) = respond (
      encode_social_response svc.is_digit request.social_request_token request.bot_guid
        request.speak_on_channel generated.message svc.token generated.emote_id metadata
        generated.proposal)

  abbrev pub speak_stored :
      SocialRequest → SocialGenerationResult → GenerationUsage → Option ℕ → Act Response
  speak_stored request generated usage none = pure none
  speak_stored request generated usage (some stored) =
      respond_social request generated (call_metadata usage (nano_to_fixed_usd_string (pos stored)))

  abbrev pub answer_social : SocialRequest → Outcome SocialGenerationResult → Act Response
  answer_social request silent = pure none
  answer_social request (failed (invalid_output_error usage)) = respond (
      encode_social_regeneration request.social_request_token request.bot_guid
        request.speak_on_channel svc.token)
  answer_social request (failed error) = pure none
  answer_social request (answered generated usage receipt) =
      if receipt.breach || receipt.saturated
      then pure none
      else speak_stored request generated usage receipt.stored_cost_nano

  abbrev pub social_call : SocialRequest → Call SocialGenerationResult
  social_call request = record {
    request_kind = chat_response;
    priority = social_priority_for request;
    operation = codes "social";
    input_tokens = svc.adapter.count_social_input_tokens request;
    generated = with_usage (svc.adapter.generate_social_reply request);
  }

  unfoldable pub process_social : SocialRequest → Act Response
  process_social request = do
    outcome ← call_provider (social_call request)
    answer_social request outcome
