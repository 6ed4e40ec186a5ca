-- ===== src/Examples/Billed.antt =====
-- The adapter on a chat line, a biography, a whispered conversation and refused calls.
use mod_playerbot_llm.Prelude.{
  ℕ, ◌≡◌, ◌≢◌, ◌↔◌, ◌⊎◌, refl, true, false, Option, none, some, List, [], ◌∷◌, All, ok, err,
}
use mod_playerbot_llm.Prelude.Int.{pos, ◌+ℤ◌, ◌≤ℤ◌, ◌<ℤ◌, pos_part}
use mod_playerbot_llm.Prelude.Text.{Text, codes}
use mod_playerbot_llm.Budget.{BudgetState, admitted, admit, reserve_floor_nano}
use mod_playerbot_llm.Examples.{quarter}
use mod_playerbot_llm.Protocol.{
  ChatRequest, BiographyRequest, MemoryRequest, byte_length, token_fits,
}
use mod_playerbot_llm.Protocol.Encode.{encode_biography_response, MemoryCandidate}
use mod_playerbot_llm.Protocol.Requests.{Incoming, parse_incoming}
use mod_playerbot_llm.Protocol.Requests.Chat.{is_valid_chat, trusted_contract, parse_request}
use mod_playerbot_llm.Provider.{is_priceable, impossible, billing_status, rate_limit_error}
use mod_playerbot_llm.Generation.Words.{has_word, contains_forbidden_claim}
use mod_playerbot_llm.Generation.Biographies.{
  BiographyReply, model_dump, biography_fields_for_transport, encode_biography_response-built,
}
use mod_playerbot_llm.Generation.Sending.{is_encoded}
use mod_playerbot_llm.Adapter.{
  ChatOutput, chat_reply, Called, Message, absent, parsed, returned, api_failed, rate_limit,
  authentication, map_api_error, any_reply, totals, generated, chat_message,
}
use mod_playerbot_llm.Adapter.Billing.{reported_usage, generated-reported, generated-impossible}
use mod_playerbot_llm.Adapter.Trace.{Prompt, trace_memories, trace_memories-private}
use mod_playerbot_llm.Service.Lanes.{parse_request-admit}
use mod_playerbot_llm.Service.Pipelines.{priority_for}
use mod_playerbot_llm.Store.{Tables, record_profile, get_profile}
use mod_playerbot_llm.Service.Chat.{profile_of}
use mod_playerbot_llm.Service.Profiles.{parse_request-record_profile}
use mod_playerbot_llm.Examples.Stored.{store}
use mod_playerbot_llm.Examples.Gated.{shared_token, shared_token_fits}
use mod_playerbot_llm.Examples.Talked.{lib, forbidden, tools}

abbrev greeting : ChatRequest
greeting = record {
  request_id = 1;
  channel = codes "party";
  bot_guid = 9;
  speaker_guid = 7;
  bot_name = codes "Borin";
  speaker_name = codes "Ana";
  profile_version = 2;
  crafting_affinity = 50;
  gathering_affinity = 50;
  exploration_affinity = 50;
  sociability = 50;
  voice = codes "wry";
  event_kind = 0;
  subject_id = 0;
  occurrence = 0;
  message = codes "Hello";
}

abbrev greeting_in : Option (Incoming ChatRequest)
greeting_in = some (record { token = shared_token; request = greeting })

greeting_trusted : parse_request (λ text. none) shared_token greeting_in ≡ ok greeting
unfolding parse_request parse_incoming is_valid_chat trusted_contract byte_length token_fits
greeting_trusted = refl

abbrev day_state : BudgetState
day_state = record { settled_nano = pos 3900000000; outstanding_nano = pos 0; circuit_open = false }

-- With a speaker a cost that reaches into the reserve of a quarter.
parse_request-admit_example :
    (admit (pos 5000000000) day_state (some (pos 1000000000)) (priority_for greeting) quarter
      ≡ admitted)
    ↔ ((day_state.circuit_open ≡ false)
        × (pos 0 <ℤ pos 5000000000)
        × (pos 0 ≤ℤ pos 1000000000)
        × (pos 3900000000 +ℤ pos 0 +ℤ pos 1000000000 ≤ℤ pos 5000000000)
        × (greeting.speaker_guid ≡ 0
            → pos 3900000000
                +ℤ pos 0
                +ℤ pos 1000000000
                +ℤ pos (reserve_floor_nano (pos_part (pos 5000000000)) quarter)
              ≤ℤ pos 5000000000))
parse_request-admit_example =
    parse_request-admit (λ text. none) shared_token greeting_in greeting (pos 5000000000)
      (pos 1000000000) day_state quarter greeting_trusted

-- What the bot was before it learnt to craft.
abbrev met : Tables
met = record store {
  profiles =
      record {
        bot_guid = 9;
        profile_version = 2;
        crafting_affinity = 0;
        gathering_affinity = 50;
        exploration_affinity = 50;
        sociability = 50;
        voice = codes "earnest";
        bot_name = codes "Borin";
        updated_at = 50;
      }
      ∷ [];
}

parse_request-record_profile_example :
    let (result, s') = record_profile 9 (profile_of greeting) 100 met in
    (result ≡ ok tt)
    × ((get_profile 9 s').0 ≡ ok (some (profile_of greeting)))
    × ((other : ℕ) → other ≢ 9 → (get_profile other s').0 ≡ (get_profile other met).0)
parse_request-record_profile_example =
    parse_request-record_profile (λ text. none) shared_token greeting_in greeting 100 met
      greeting_trusted

abbrev line : Message ChatOutput
line = record {
  input_tokens = pos 300;
  output_tokens = pos 12;
  cache_creation_input_tokens = none;
  cache_read_input_tokens = none;
  parsed_output = parsed (chat_reply (codes " Well met "));
}

line_priceable : is_priceable (totals line) ≡ true
unfolding is_priceable
line_priceable = refl

-- A career request answered by a chat line is refused, and its cost is reported all the same.
generated-reported_example :
    reported_usage (generated (chat_message tools greeting true) any_reply (returned line))
    ≡ some (totals line)
generated-reported_example =
    generated-reported (chat_message tools greeting true) any_reply line line_priceable refl

limited :
    generated (chat_message tools greeting false) any_reply (api_failed rate_limit)
    ≡ err rate_limit_error
unfolding generated map_api_error
limited = refl

limited_free : billing_status rate_limit_error ≡ impossible
unfolding billing_status
limited_free = refl

abbrev refused_call : Called (Message ChatOutput)
refused_call = api_failed rate_limit

generated-impossible_example :
    (refused_call ≡ api_failed authentication) ⊎ (refused_call ≡ api_failed rate_limit)
generated-impossible_example =
    generated-impossible (chat_message tools greeting false) any_reply refused_call rate_limit_error
      limited limited_free

abbrev profile_request : BiographyRequest
profile_request = record {
  biography_request_token = 5;
  bot_guid = 9;
  character_name = codes "Borin";
  race_id = 3;
  class_id = 1;
  gender_id = 0;
  bot_level = 60;
  active_expansion = 0;
}

abbrev profile : BiographyReply
profile = record {
  origin = codes "Started on a friend's account";
  motivation = codes "Likes finishing quests";
  formative_experience = codes "A long dungeon night";
  interests = codes "Fishing";
  aversions = codes "Queues";
  preferred_topics = codes "Quests";
  mannerisms = codes "Short lines";
  values = codes "Patience";
}

accepted_profile : biography_fields_for_transport lib forbidden profile ≡ ok (model_dump profile)
unfolding biography_fields_for_transport contains_forbidden_claim has_word byte_length
accepted_profile = refl

encode_biography_response-built_example :
    All (λ field. contains_forbidden_claim lib forbidden field.1 ≡ false) (model_dump profile)
    × (is_encoded (encode_biography_response 5 9 (model_dump profile) shared_token) ≡ true)
encode_biography_response-built_example =
    encode_biography_response-built lib forbidden profile_request profile (model_dump profile)
      shared_token refl refl shared_token_fits accepted_profile
      (refl, (refl, (refl, (refl, (refl, (refl, (refl, (refl, tt))))))))

abbrev whispered : MemoryRequest
whispered = record {
  memory_request_token = 11;
  bot_guid = 9;
  bot_name = codes "Borin";
  thread_id = codes "t1";
  scope = codes "whisper";
  subjects = [];
  thread = [];
}

abbrev prompt_of : Text → Prompt
prompt_of text = record {
  system = codes "Extract memories.";
  messages = (codes "user", text) ∷ [];
  output_schema = codes "{}";
}

abbrev nothing_found : Message (List MemoryCandidate)
nothing_found = record {
  input_tokens = pos 90;
  output_tokens = pos 4;
  cache_creation_input_tokens = none;
  cache_read_input_tokens = none;
  parsed_output = parsed [];
}

abbrev unread : Message (List MemoryCandidate)
unread = record nothing_found { parsed_output = absent }

trace_memories-private_example :
    trace_memories true whispered (prompt_of (codes "I am leaving")) (returned nothing_found)
    ≡ trace_memories true whispered (prompt_of (codes "I am staying")) (returned unread)
trace_memories-private_example =
    trace_memories-private true whispered (prompt_of (codes "I am leaving"))
      (prompt_of (codes "I am staying")) nothing_found unread refl refl
