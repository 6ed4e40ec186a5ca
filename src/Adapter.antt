-- ===== src/Adapter.antt =====
-- sidecar/src/playerbots_llm/providers/anthropic.py: the provider behind the interface of provider.py. What the
-- Anthropic API answers to a call is an argument; the adapter turns it into a result or an error with its usage.
pub mod Accepted
pub mod Billing
pub mod Ids
pub mod Named
pub mod Sent
pub mod Spoken
pub mod Trace
use mod_playerbot_llm.Prelude.{
  ℕ, Bool, true, false, Option, none, some, List, [], ◌∷◌, any, Result, ok, err, ltb, if◌then◌else◌,
}
use mod_playerbot_llm.Prelude.Int.{ℤ, pos}
use mod_playerbot_llm.Prelude.Text.{Text, codes}
use mod_playerbot_llm.Protocol.{
  ChatRequest, is_career, SocialRequest, RoleplayAssessmentRequest, BiographyRequest, MemoryRequest,
  byte_length, is_empty, is_control, max_response_message_bytes, refuse,
}
use mod_playerbot_llm.Protocol.Encode.{RoleplayAssessmentCompletion, Biography, MemoryCandidate}
use mod_playerbot_llm.Protocol.Context.{SocialContext, SocialMemory, parse_social_context}
use mod_playerbot_llm.Protocol.Requests.Chat.{CareerRequestContent, parse_career_content}
use mod_playerbot_llm.Protocol.Requests.Background.{is_valid_completion}
use mod_playerbot_llm.Protocol.Social.{Proposal}
use mod_playerbot_llm.Provider.{
  GenerationProviderMetadata, GenerationUsage, is_priceable, SocialGenerationResult,
  GenerationError, timeout_error, auth_error, rate_limit_error, provider_error,
  invalid_output_error, Generated, GenerationProvider,
}
use mod_playerbot_llm.Generation.{ModerationCategory, Gate, uncategorized}
use mod_playerbot_llm.Generation.Memory.{strip, validate_memory_reply}
use mod_playerbot_llm.Generation.Words.{
  TextLibrary, ForbiddenTexts, unsafe_content, carries_secret, normalized,
}
use mod_playerbot_llm.Generation.Career.{CareerReply, CareerCandidate, validate_career_reply}
use mod_playerbot_llm.Generation.Citations.{
  SocialReply, Contribution, answer, specific_reaction, fact_free_banter, gesture, no_contribution,
  ClaimSubject, candidate_bot, participant, nobody,
}
use mod_playerbot_llm.Generation.Replies.{
  SocialPatterns, is_one_coherent_answer, validate_social_reply,
}
use mod_playerbot_llm.Generation.Biographies.{
  BiographyReply, can_be_named, biography_fields_for_transport,
}

-- The errors of the SDK that `_map_api_error` tells apart.
pub data ApiError : Type 0 where
  api_timeout authentication rate_limit other_api_error : ApiError

-- What a call of the SDK ends in; `http_timeout` is the HTTP library's own.
pub data Called (A : Type 0) : Type 0 where
  returned : A → Called A
  api_failed : ApiError → Called A
  http_timeout : Called A

-- What `parse_response` makes of the text: a `ValidationError`, nothing, the asked model, or another one.
pub data ParsedOutput (R : Type 0) : Type 0 where
  schema_violation absent other_model : ParsedOutput R
  parsed : R → ParsedOutput R

pub record Message (R : Type 0) : Type 0 where
  pub input_tokens : ℤ
  pub output_tokens : ℤ
  pub cache_creation_input_tokens : Option ℤ
  pub cache_read_input_tokens : Option ℤ
  pub parsed_output : ParsedOutput R

-- `_map_api_error`
unfoldable pub map_api_error : ApiError → GenerationError
map_api_error api_timeout = timeout_error
map_api_error authentication = auth_error
map_api_error rate_limit = rate_limit_error
map_api_error other_api_error = provider_error

-- `count or 0`
abbrev pub count_or_zero : Option ℤ → ℤ
count_or_zero none = pos 0
count_or_zero (some count) = count

-- What the five methods that count a prompt have in common.
unfoldable pub counted : Called ℤ → Generated ℤ
counted (returned tokens) = ok tokens
counted (api_failed error) = err (map_api_error error)
counted http_timeout = err timeout_error

module _ {R : Type 0} where
  abbrev pub totals : Message R → GenerationUsage
  totals m = record {
    input_tokens = m.input_tokens;
    output_tokens = m.output_tokens;
    cache_creation_input_tokens = count_or_zero m.cache_creation_input_tokens;
    cache_read_input_tokens = count_or_zero m.cache_read_input_tokens;
  }

  -- A model that its own validators refuse is a `ValidationError` too.
  abbrev pub conform : (R → Bool) → ParsedOutput R → ParsedOutput R
  conform is_valid (parsed reply) = if is_valid reply then parsed reply else schema_violation
  conform is_valid output = output

  module _ {S : Type 0} (validate : R → Gate S) where
    abbrev pub with_totals : GenerationUsage → Gate S → Generated (S × GenerationUsage)
    with_totals usage (ok accepted) = ok (accepted, usage)
    with_totals usage (err category) = err (invalid_output_error (some usage))

    abbrev pub read_output : GenerationUsage → ParsedOutput R → Generated (S × GenerationUsage)
    read_output usage (parsed reply) = with_totals usage (validate reply)
    read_output usage other = err (invalid_output_error (some usage))

    -- The counts are read before anything below may refuse the reply.
    abbrev pub priced_output : GenerationUsage → ParsedOutput R → Generated (S × GenerationUsage)
    priced_output usage schema_violation = err (invalid_output_error none)
    priced_output usage output =
        if is_priceable usage then read_output usage output else err (invalid_output_error none)

    -- What the five methods that generate have in common.
    unfoldable pub generated : (R → Bool) → Called (Message R) → Generated (S × GenerationUsage)
    generated is_valid (returned m) = priced_output (totals m) (conform is_valid m.parsed_output)
    generated is_valid (api_failed error) = err (map_api_error error)
    generated is_valid http_timeout = err timeout_error

-- A model without validators of its own.
abbrev pub any_reply : {R : Type 0} → R → Bool
any_reply reply = true

pub data ChatOutput : Type 0 where
  chat_reply : Text → ChatOutput
  career_reply : CareerReply → ChatOutput

-- The tests at the end of `generate_reply`.
unfoldable pub check_message : Text → Gate Text
check_message message = refuse (is_empty message) uncategorized (
    refuse (any is_control message) uncategorized
      (refuse (ltb max_response_message_bytes (byte_length message)) uncategorized (ok message)))

abbrev pub contribution_name : Contribution → Text
contribution_name answer = codes "answer"
contribution_name specific_reaction = codes "specific_reaction"
contribution_name fact_free_banter = codes "fact_free_banter"
contribution_name gesture = codes "gesture"
contribution_name no_contribution = codes "none"

abbrev pub claim_subject_name : ClaimSubject → Text
claim_subject_name candidate_bot = codes "candidate_bot"
claim_subject_name participant = codes "participant"
claim_subject_name nobody = codes "none"

abbrev pub proposal_of : SocialReply → Proposal
proposal_of reply = record {
  contribution = contribution_name reply.contribution;
  claim_subject = claim_subject_name reply.claim_subject;
  cited_evidence_ids = reply.cited_evidence_ids;
  cited_memory_ids = reply.cited_memory_ids;
}

abbrev pub memories_of : Option SocialContext → List SocialMemory
memories_of none = []
memories_of (some context) = context.memories

-- What the adapter stands on: the text library, the lists and patterns of generation.py, the readers of the
-- JSON inside a request, and the JSON text of a career choice.
pub record Toolbox : Type 0 where
  pub lib : TextLibrary
  pub forbidden : ForbiddenTexts
  pub patterns : SocialPatterns
  pub read_social_context : Text → Option SocialContext
  pub fictional_identity_countries : List Text
  pub read_career_content : Text → Option CareerRequestContent
  pub dump_choice : CareerReply → Text

module _ (tools : Toolbox) where
  abbrev pub choice_message : Gate CareerReply → Gate Text
  choice_message (ok reply) = check_message (tools.dump_choice reply)
  choice_message (err category) = err category

  -- A request that passed validation has its candidates.
  abbrev pub choose : CareerReply → Option (List CareerCandidate) → Gate Text
  choose reply none = err uncategorized
  choose reply (some candidates) = choice_message (validate_career_reply candidates reply)

  abbrev pub chat_message : ChatRequest → Bool → ChatOutput → Gate Text
  chat_message request true (career_reply reply) =
      choose reply (parse_career_content tools.read_career_content request.message)
  chat_message request true (chat_reply message) = err uncategorized
  chat_message request false (chat_reply message) = check_message (strip message)
  chat_message request false (career_reply reply) = err uncategorized

  unfoldable pub generate_reply :
      ChatRequest → Called (Message ChatOutput) → Generated (Text × GenerationUsage)
  generate_reply request completion =
      generated (chat_message request (is_career request)) any_reply completion

  abbrev pub social_result : SocialReply → Gate (Text × ℕ) → Gate (Text × ℕ × Proposal)
  social_result reply (ok (message, emote_id)) = ok (message, emote_id, proposal_of reply)
  social_result reply (err category) = err category

  abbrev pub offered_memories : SocialRequest → List SocialMemory
  offered_memories request = memories_of (
      parse_social_context tools.fictional_identity_countries tools.read_social_context
        request.context)

  abbrev pub social_output : SocialRequest → SocialReply → Gate (Text × ℕ × Proposal)
  social_output request reply = social_result reply (
      validate_social_reply tools.lib tools.forbidden tools.patterns (offered_memories request)
        reply request)

  abbrev pub as_social_result :
      Generated ((Text × ℕ × Proposal) × GenerationUsage) → Generated SocialGenerationResult
  as_social_result (err error) = err error
  as_social_result (ok ((message, emote_id, proposal), usage)) =
      ok (record { message = message; emote_id = emote_id; proposal = proposal; usage = usage })

  unfoldable pub generate_social_reply :
      SocialRequest → Called (Message SocialReply) → Generated SocialGenerationResult
  generate_social_reply request completion =
      as_social_result (generated (social_output request) is_one_coherent_answer completion)

  abbrev pub accept_completion : RoleplayAssessmentCompletion → Gate RoleplayAssessmentCompletion
  accept_completion completion = ok completion

  unfoldable pub assess_roleplay :
      Called (Message RoleplayAssessmentCompletion)
      → Generated (RoleplayAssessmentCompletion × GenerationUsage)
  assess_roleplay completion = generated accept_completion is_valid_completion completion

  unfoldable pub generate_biography :
      Called (Message BiographyReply) → Generated (Biography × GenerationUsage)
  generate_biography completion =
      generated (biography_fields_for_transport tools.lib tools.forbidden) any_reply completion

  abbrev pub memory_output : MemoryRequest → List MemoryCandidate → Gate (List MemoryCandidate)
  memory_output request candidates =
      validate_memory_reply (carries_secret tools.lib tools.forbidden)
        (unsafe_content tools.lib tools.forbidden) (normalized tools.lib) candidates request

  unfoldable pub generate_memories :
      MemoryRequest
      → Called (Message (List MemoryCandidate))
      → Generated (List MemoryCandidate × GenerationUsage)
  generate_memories request completion = generated (memory_output request) any_reply completion

abbrev pub max_input_tokens : ℕ
max_input_tokens = 4095

abbrev pub default_output_tokens : ℕ
default_output_tokens = 96

abbrev pub biography_output_tokens : ℕ
biography_output_tokens = 512

unfoldable pub anthropic_metadata : GenerationProviderMetadata
anthropic_metadata = record {
  name = codes "anthropic";
  model = codes "claude-haiku-4-5-20251001";
  max_input_tokens = max_input_tokens;
  output_token_limits =
      (codes "chat", default_output_tokens)
      ∷ (codes "career", default_output_tokens)
      ∷ (codes "social", default_output_tokens)
      ∷ (codes "biography", biography_output_tokens)
      ∷ (codes "memory", default_output_tokens)
      ∷ (codes "roleplay_assessment", default_output_tokens)
      ∷ [];
}

-- The system prompt is built before the call, and raises for a character that it cannot name.
abbrev pub prompted : {A : Type 0} → BiographyRequest → Generated A → Generated A
prompted request called = if can_be_named request then called else err (invalid_output_error none)

-- What the API answers to each call, the one that counts a prompt and the one that generates.
pub record AnthropicApi : Type 0 where
  pub count_chat : ChatRequest → List (Text × Text) → Called ℤ
  pub create_chat : ChatRequest → List (Text × Text) → Called (Message ChatOutput)
  pub count_social : SocialRequest → Called ℤ
  pub create_social : SocialRequest → Called (Message SocialReply)
  pub count_assessment : RoleplayAssessmentRequest → Called ℤ
  pub create_assessment : RoleplayAssessmentRequest → Called (Message RoleplayAssessmentCompletion)
  pub count_biography : BiographyRequest → Called ℤ
  pub create_biography : BiographyRequest → Called (Message BiographyReply)
  pub count_memory : MemoryRequest → Called ℤ
  pub create_memory : MemoryRequest → Called (Message (List MemoryCandidate))

unfoldable pub anthropic_provider : Toolbox → AnthropicApi → GenerationProvider
anthropic_provider tools api = record {
  metadata = anthropic_metadata;
  count_input_tokens = λ request history. counted (api.count_chat request history);
  generate_reply =
      λ request history. generate_reply tools request (api.create_chat request history);
  count_social_input_tokens = λ request. counted (api.count_social request);
  generate_social_reply =
      λ request. generate_social_reply tools request (api.create_social request);
  count_roleplay_assessment_input_tokens = λ request. counted (api.count_assessment request);
  assess_roleplay = λ request. assess_roleplay tools (api.create_assessment request);
  count_biography_input_tokens =
      λ request. prompted request (counted (api.count_biography request));
  generate_biography =
      λ request. prompted request (generate_biography tools (api.create_biography request));
  count_memory_input_tokens = λ request. counted (api.count_memory request);
  generate_memories = λ request. generate_memories tools request (api.create_memory request);
}
