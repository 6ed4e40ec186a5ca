-- ===== src/Examples/Talked.antt =====
-- The adapter on one question, a model that answers it, and a tool box of the simplest tests.
use mod_playerbot_llm.Prelude.{
  ℕ, ◌≡◌, refl, Bool, true, false, leb, ◌&&◌, ◌||◌, Option, none, some, List, [], ◌∷◌, ok,
}
use mod_playerbot_llm.Prelude.Int.{pos}
use mod_playerbot_llm.Prelude.Text.{codes}
use mod_playerbot_llm.Protocol.{SocialEvidence, SocialRequest, human_lane, byte_length, token_fits}
use mod_playerbot_llm.Protocol.Context.{
  public_scope, party_scope, SocialMemory, SocialContext, scope_index, memories_allowed,
  memories_within, channel_memory_scope, is_ascii_digit, is_valid_context, parse_social_context,
}
use mod_playerbot_llm.Protocol.Social.{SocialCallMetadata, encode_social_response}
use mod_playerbot_llm.Protocol.Requests.{Incoming, parse_incoming}
use mod_playerbot_llm.Protocol.Requests.Fields.{UnicodeCategories, actor_name_is_usable}
use mod_playerbot_llm.Protocol.Requests.Social.{
  parse_social_request, is_valid_social, grounding_is_coherent,
}
use mod_playerbot_llm.Provider.{is_priceable, SocialGenerationResult}
use mod_playerbot_llm.Generation.Citations.{
  message_kind, emote_kind, answer, gesture, participant, nobody, SocialReply, evidence_by_id,
  cited_evidence, check_citations,
}
use mod_playerbot_llm.Generation.Words.{
  TextLibrary, ForbiddenTexts, has_word, unsafe_content, words_from, held_down,
  is_targeted_repetition,
}
use mod_playerbot_llm.Generation.Gestures.{emote_of, validate_social_emote}
use mod_playerbot_llm.Generation.Speech.{validate_social_message}
use mod_playerbot_llm.Generation.Replies.{
  SocialPatterns, literal_claim_refusal, validate_social_reply, is_one_coherent_answer,
}
use mod_playerbot_llm.Generation.Answered.{Answered, validate_social_reply-Answered}
use mod_playerbot_llm.Generation.Sending.{is_encoded}
use mod_playerbot_llm.Adapter.{
  Toolbox, Message, parsed, returned, generate_social_reply, generated, proposal_of,
}
use mod_playerbot_llm.Adapter.Sent.{generate_social_reply-sent}
use mod_playerbot_llm.Examples.Gated.{shared_token}

abbrev pub told : List SocialMemory
told =
    record { id = codes "m1"; text = codes "likes fishing"; scope = public_scope }
    ∷ record { id = codes "m2"; text = codes "is leaving the guild"; scope = party_scope }
    ∷ []

abbrev pub context : SocialContext
context = record {
  prompt_mode = codes "ordinary";
  active_expansion = 0;
  persona = [];
  fictional_identity_request = none;
  fictional_age = none;
  fictional_home_country = none;
  relationship = [];
  starter = [];
  nearby = [];
  thread = [];
  memories = told;
}

abbrev pub is_letter : ℕ → Bool
is_letter c = (leb 65 c && leb c 90) || (leb 97 c && leb c 122)

abbrev pub lib : TextLibrary
lib = record {
  casefold = λ text. text;
  is_word = is_letter;
  search = λ pattern text. false;
  search_ignoring_case = λ pattern text. false;
}

abbrev pub forbidden : ForbiddenTexts
forbidden = record {
  slur_terms = codes "villain" ∷ [];
  unsafe_content_patterns = [];
  forbidden_claim_terms = codes "king" ∷ [];
  memory_forbidden_patterns = [];
}

abbrev patterns : SocialPatterns
patterns = record {
  supplied_fact_question = [];
  generic_filler = λ text. false;
  adopted_accomplishment = λ text. false;
  current_claim = λ text. false;
  participant_current_claim = λ text. false;
  level_claim = λ text. none;
  location_claim = λ text. none;
}

abbrev pub tools : Toolbox
tools = record {
  lib = lib;
  forbidden = forbidden;
  patterns = patterns;
  read_social_context = λ text. some context;
  fictional_identity_countries = [];
  read_career_content = λ text. none;
  dump_choice = λ reply. codes "{}";
}

abbrev pub unicode : UnicodeCategories
unicode = record { is_letter = is_letter; is_mark = λ c. false }

abbrev level_fact : SocialEvidence
level_fact = record {
  id = codes "g1";
  subject = codes "participant";
  fact = codes "level";
  value = codes "60";
  provenance = codes "current_world";
  scope = codes "public";
  observed_at = 1;
}

abbrev pub question : SocialRequest
question = record {
  social_request_token = 3;
  bot_guid = 9;
  bot_name = codes "Borin";
  bot_human = 0;
  bot_level = 60;
  subject_guid = 7;
  subject_name = codes "Ana";
  subject_human = 1;
  admission_lane = human_lane;
  speak_on_channel = 1;
  thread_id = codes "t1";
  context = codes "{}";
  evidence = level_fact ∷ [];
  transcript_event_ids = codes "evt_0123456789abcdef0123456789abcdef" ∷ [];
  profile_load_state = codes "loaded";
  memory_input_state = codes "loaded";
  active_content_expansion = 0;
  expects_answer = 1;
  addressed_to_bot = 1;
  bot_race_id = 3;
  bot_class_id = 1;
  bot_zone = codes "Ironforge";
}

abbrev incoming : Option (Incoming SocialRequest)
incoming = some (record { token = shared_token; request = question })

trusted : parse_social_request unicode shared_token incoming ≡ ok question
unfolding parse_social_request parse_incoming is_valid_social grounding_is_coherent
    actor_name_is_usable byte_length token_fits channel_memory_scope
trusted = refl

abbrev said : SocialReply
said = record {
  response_kind = message_kind;
  message = codes " You like fishing ";
  emote = [];
  contribution = answer;
  claim_subject = participant;
  cited_evidence_ids = codes "g1" ∷ [];
  cited_memory_ids = codes "m1" ∷ [];
}

accepted_reply :
    validate_social_reply lib forbidden patterns told said question
    ≡ ok (codes "You like fishing", 0)
unfolding validate_social_reply check_citations memories_within memories_allowed
    channel_memory_scope scope_index evidence_by_id cited_evidence validate_social_message
    byte_length has_word unsafe_content words_from held_down is_targeted_repetition
    literal_claim_refusal
accepted_reply = refl

said_line :
    Answered lib forbidden patterns question told said message_kind (codes "You like fishing") 0
said_line =
    validate_social_reply-Answered lib forbidden patterns question told said
      (codes "You like fishing") 0 accepted_reply

abbrev nodded : SocialReply
nodded = record {
  response_kind = emote_kind;
  message = [];
  emote = codes "nod";
  contribution = gesture;
  claim_subject = nobody;
  cited_evidence_ids = [];
  cited_memory_ids = [];
}

accepted_nod : validate_social_reply lib forbidden patterns told nodded question ≡ ok ([], 67)
unfolding validate_social_reply check_citations memories_within memories_allowed
    channel_memory_scope scope_index evidence_by_id cited_evidence validate_social_emote emote_of
accepted_nod = refl

validate_social_reply-Answered_example :
    Answered lib forbidden patterns question told nodded emote_kind [] 67
validate_social_reply-Answered_example =
    validate_social_reply-Answered lib forbidden patterns question told nodded [] 67 accepted_nod

abbrev completion : Message SocialReply
completion = record {
  input_tokens = pos 400;
  output_tokens = pos 20;
  cache_creation_input_tokens = none;
  cache_read_input_tokens = some (pos 100);
  parsed_output = parsed said;
}

abbrev result : SocialGenerationResult
result = record {
  message = codes "You like fishing";
  emote_id = 0;
  proposal = proposal_of said;
  usage = record {
    input_tokens = pos 400;
    output_tokens = pos 20;
    cache_creation_input_tokens = pos 0;
    cache_read_input_tokens = pos 100;
  };
}

accepted_result : generate_social_reply tools question (returned completion) ≡ ok result
unfolding generate_social_reply generated is_priceable parse_social_context is_valid_context
    is_one_coherent_answer validate_social_reply check_citations memories_within memories_allowed
    channel_memory_scope scope_index evidence_by_id cited_evidence validate_social_message
    byte_length has_word unsafe_content words_from held_down is_targeted_repetition
    literal_claim_refusal
accepted_result = refl

abbrev metadata : SocialCallMetadata
metadata = record {
  model = codes "claude";
  provider_latency_ms = 120;
  input_tokens = 400;
  output_tokens = 20;
  cache_creation_input_tokens = 0;
  cache_read_input_tokens = 100;
  cost_usd = codes "0.000500";
}

generate_social_reply-sent_example :
    is_encoded (
      encode_social_response is_ascii_digit 3 9 1
        (codes "You like fishing")
        shared_token
        0
        metadata
        (proposal_of said))
    ≡ true
generate_social_reply-sent_example =
    generate_social_reply-sent is_ascii_digit tools unicode shared_token incoming question
      (returned completion) result metadata (λ c h. h) trusted accepted_result
