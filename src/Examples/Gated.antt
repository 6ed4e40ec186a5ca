-- ===== src/Examples/Gated.antt =====
-- The gates of generation.py on one conversation and one menu of career goals.
use mod_playerbot_llm.Prelude.{◌≡◌, refl, Bool, true, false, ltb, [], ◌∷◌, ok, All}
use mod_playerbot_llm.Prelude.Text.{Text, codes}
use mod_playerbot_llm.Protocol.{
  MemoryRequest, MemoryLine, event_public_id_is_valid, byte_length, token_fits,
  max_social_context_entry_bytes,
}
use mod_playerbot_llm.Protocol.Encode.{MemoryCandidate, encode_memory_response}
use mod_playerbot_llm.Generation.{Offered}
use mod_playerbot_llm.Generation.Memory.{source_of, validate_memory_reply}
use mod_playerbot_llm.Generation.Career.{
  progression, completionist, CareerCandidate, CareerReply, Allows, candidate_of,
  spending_style_order, validate_career_reply, validate_career_reply-Offered,
}
use mod_playerbot_llm.Generation.Gates.{IsGrounded, validate_memory_reply-IsGrounded}
use mod_playerbot_llm.Generation.Sending.{IsValid, is_encoded, encode_memory_response-validated}

abbrev event_id : Text
event_id = codes "evt_0123456789abcdef0123456789abcdef"

abbrev spoken : MemoryLine
spoken = record {
  speaker_guid = 7;
  speaker_name = codes "Ana";
  text = codes "I fish";
  source_event_id = event_id;
  source_kind = codes "speech";
}

abbrev conversation : MemoryRequest
conversation = record {
  memory_request_token = 11;
  bot_guid = 9;
  bot_name = codes "Borin";
  thread_id = codes "t1";
  scope = codes "party";
  subjects = record { guid = 7; name = codes "Ana" } ∷ [];
  thread = spoken ∷ [];
}

abbrev remembered : MemoryCandidate
remembered = record {
  paraphrase = codes " likes fishing ";
  about_guid = 7;
  scope = codes "party";
  source_event_id = event_id;
}

abbrev harmless : Text → Bool
harmless text = false

abbrev unchanged : Text → Text
unchanged text = text

accepted_memory :
    validate_memory_reply harmless harmless unchanged (remembered ∷ []) conversation
    ≡ ok (remembered ∷ [])
unfolding validate_memory_reply source_of byte_length
accepted_memory = refl

conversation-IsValid : IsValid conversation
unfolding event_public_id_is_valid byte_length
conversation-IsValid = record {
  request_token = refl;
  bot_guid = refl;
  thread_id = refl;
  scope = refl;
  subjects = (refl, tt);
  sources = (refl, tt);
}

validate_memory_reply-IsGrounded_example :
    (remembered ∷ [] ≡ remembered ∷ [])
    × All (IsGrounded harmless harmless unchanged conversation) (remembered ∷ [])
validate_memory_reply-IsGrounded_example =
    validate_memory_reply-IsGrounded harmless harmless unchanged conversation (remembered ∷ [])
      (remembered ∷ []) accepted_memory

abbrev pub shared_token : Text
shared_token = codes "0123456789abcdef0123456789abcdef"

pub shared_token_fits : token_fits shared_token ≡ true
unfolding token_fits byte_length
shared_token_fits = refl

remembered-IsShort : ltb max_social_context_entry_bytes (byte_length remembered.paraphrase) ≡ false
unfolding byte_length
remembered-IsShort = refl

encode_memory_response-validated_example :
    is_encoded (encode_memory_response 11 9 (codes "t1") (remembered ∷ []) shared_token) ≡ true
encode_memory_response-validated_example =
    encode_memory_response-validated harmless harmless unchanged conversation conversation-IsValid
      (remembered ∷ []) (remembered ∷ []) shared_token shared_token_fits accepted_memory refl
      (remembered-IsShort, tt)

abbrev pub goal : CareerCandidate
goal = record {
  token = codes "career-b";
  summary = codes "Learn mining";
  maximum_spending_style = completionist;
  market_eligible = 1;
  engagement = 2;
}

abbrev pub choice : CareerReply
choice = record { candidate_token = codes "career-b"; spending_style = progression }

accepted_choice : validate_career_reply (goal ∷ []) choice ≡ ok choice
unfolding validate_career_reply candidate_of spending_style_order
accepted_choice = refl

validate_career_reply-Offered_example : (choice ≡ choice) × Offered (Allows choice) (goal ∷ [])
validate_career_reply-Offered_example =
    validate_career_reply-Offered (goal ∷ []) choice choice accepted_choice
