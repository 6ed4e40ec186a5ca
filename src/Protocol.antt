-- ===== src/Protocol.antt =====
-- sidecar/src/playerbots_llm/protocol.py: the bounds of a frame, the requests of the worldserver as their
-- models hold them, and the text tests that encoders and validators share.
pub mod Context
pub mod Encode
pub mod Frames
pub mod Requests
pub mod Social
use mod_playerbot_llm.Prelude.{
  ℕ, ◌+◌, ◌-◌, ◌*◌, ◌^◌, Bool, true, false, not, ◌&&◌, ◌||◌, Option, List, [], ◌∷◌, ◌++◌, any, all,
  sum_by, length, Result, ok, err, ltb, leb, ◌==◌, if◌then◌else◌,
}
use mod_playerbot_llm.Prelude.Text.{Text, codes, text_eq}

abbrev pub schema_version : ℕ
schema_version = 6

abbrev pub social_schema_version : ℕ
social_schema_version = 9

abbrev pub max_frame_payload_bytes : ℕ
max_frame_payload_bytes = 65536

abbrev pub max_response_message_bytes : ℕ
max_response_message_bytes = 240

abbrev pub max_thread_id_bytes : ℕ
max_thread_id_bytes = 64

abbrev pub max_social_model_bytes : ℕ
max_social_model_bytes = 64

abbrev pub max_social_evidence_entries : ℕ
max_social_evidence_entries = 24

abbrev pub max_social_context_entries : ℕ
max_social_context_entries = 12

abbrev pub max_extracted_memories : ℕ
max_extracted_memories = 4

abbrev pub max_social_context_entry_bytes : ℕ
max_social_context_entry_bytes = 512

abbrev pub max_biography_field_bytes : ℕ
max_biography_field_bytes = 240

abbrev pub min_bridge_token_bytes : ℕ
min_bridge_token_bytes = 32

abbrev pub max_bridge_token_bytes : ℕ
max_bridge_token_bytes = 256

abbrev pub uint64_max : ℕ
uint64_max = 18446744073709551615

-- The reasons of a `ProtocolError`.
pub data ProtocolError : Type 0 where
  out_of_range bad_token empty_message message_too_long control_character : ProtocolError
  unexpected_metadata unexpected_proposal bad_emote emote_with_message unseen_emote
        missing_metadata :
      ProtocolError
  bad_contribution bad_claim_subject bad_citations bad_citation_id bad_memory_citations :
      ProtocolError
  bad_memory_citation_id incoherent_proposal bad_fields empty_field field_too_long : ProtocolError
  bad_thread_id too_many_memories empty_memory memory_too_long bad_subject bad_scope
        bad_source_event :
      ProtocolError
  unrecognized_kind malformed token_mismatch : ProtocolError

-- How many bytes UTF-8 takes for a code point.
abbrev pub utf8_width : ℕ → ℕ
utf8_width c = if ltb c 128 then 1 else if ltb c 2048 then 2 else if ltb c 65536 then 3 else 4

-- `_byte_length`
unfoldable pub byte_length : Text → ℕ
byte_length = sum_by utf8_width

abbrev pub is_empty : Text → Bool
is_empty [] = true
is_empty (c ∷ cs) = false

-- What `str.isspace` accepts.
abbrev pub is_space : ℕ → Bool
is_space c =
    (leb 9 c && leb c 13)
    || ((leb 28 c && leb c 32)
        || (c == 133
            || (c == 160
                || (c == 5760
                    || ((leb 8192 c && leb c 8202)
                        || (c == 8232
                            || (c == 8233 || (c == 8239 || (c == 8287 || c == 12288)))))))))

-- `not value.strip()`
abbrev pub is_blank : Text → Bool
is_blank = all is_space

abbrev pub is_control : ℕ → Bool
is_control c = ltb c 32

-- Both bounds of a bridge token.
unfoldable pub token_fits : Text → Bool
unfolding byte_length
token_fits value = not (
    ltb (byte_length value) min_bridge_token_bytes
    || ltb max_bridge_token_bytes (byte_length value))

abbrev pub in_uint64 : ℕ → Bool
in_uint64 n = leb 1 n && leb n uint64_max

abbrev pub refuse {ℓ} : {A : Type ℓ} {E : Type ℓ} → Bool → E → Result E A → Result E A
refuse true e rest = err e
refuse false e rest = rest

-- `_encoder_token`
abbrev pub encoder_token : {A : Type 0} → Text → Result ProtocolError A → Result ProtocolError A
encoder_token token rest = refuse (not (token_fits token)) bad_token rest

-- `_validate_response_message`
abbrev pub validate_response_message :
    {A : Type 0} → Text → Result ProtocolError A → Result ProtocolError A
validate_response_message message rest = refuse (is_empty message) empty_message (
    refuse (ltb max_response_message_bytes (byte_length message)) message_too_long
      (refuse (any is_control message) control_character rest))

-- `value in values`
abbrev pub one_of : List Text → Text → Bool
one_of values value = any (text_eq value) values

-- `len(set(values)) == len(values)`
abbrev pub distinct : List Text → Bool
distinct [] = true
distinct (x ∷ xs) = not (one_of xs x) && distinct xs

abbrev pub is_hex : ℕ → Bool
is_hex c = (leb 48 c && leb c 57) || (leb 97 c && leb c 102)

-- The body after the prefix `evt_`, or the whole text.
abbrev remove_prefix : Text → Text → Text → Text
remove_prefix [] cs whole = cs
remove_prefix (p ∷ ps) [] whole = whole
remove_prefix (p ∷ ps) (c ∷ cs) whole = if p == c then remove_prefix ps cs whole else whole

unfoldable pub event_public_id_is_valid : Text → Bool
event_public_id_is_valid value =
    let body = remove_prefix (codes "evt_") value value in
    length value == 36 && (length body == 32 && all is_hex body)

-- The requests of the worldserver, less the fields that a model fixes: schema version, token and kind.
pub record ChatRequest : Type 0 where
  pub request_id : ℕ
  pub channel : Text
  pub bot_guid : ℕ
  pub speaker_guid : ℕ
  pub bot_name : Text
  pub speaker_name : Text
  pub profile_version : ℕ
  pub crafting_affinity : ℕ
  pub gathering_affinity : ℕ
  pub exploration_affinity : ℕ
  pub sociability : ℕ
  pub voice : Text
  pub event_kind : ℕ
  pub subject_id : ℕ
  pub occurrence : ℕ
  pub message : Text

unfoldable pub is_ambient : ChatRequest → Bool
is_ambient r = text_eq r.channel (codes "world")

unfoldable pub is_career : ChatRequest → Bool
is_career r = text_eq r.channel (codes "career")

pub data SocialAdmissionLane : Type 0 where
  human_lane background_lane : SocialAdmissionLane

-- One fact that the worldserver supplies for a request.
pub record SocialEvidence : Type 0 where
  pub id : Text
  pub subject : Text
  pub fact : Text
  pub value : Text
  pub provenance : Text
  pub scope : Text
  pub observed_at : ℕ

pub record SocialRequest : Type 0 where
  pub social_request_token : ℕ
  pub bot_guid : ℕ
  pub bot_name : Text
  pub bot_human : ℕ
  pub bot_level : ℕ
  pub subject_guid : ℕ
  pub subject_name : Text
  pub subject_human : ℕ
  pub admission_lane : SocialAdmissionLane
  pub speak_on_channel : ℕ
  pub thread_id : Text
  pub context : Text
  pub evidence : List SocialEvidence
  pub transcript_event_ids : List Text
  pub profile_load_state : Text
  pub memory_input_state : Text
  pub active_content_expansion : ℕ
  pub expects_answer : ℕ
  pub addressed_to_bot : ℕ
  pub bot_race_id : ℕ
  pub bot_class_id : ℕ
  pub bot_zone : Text

pub record RoleplayAssessmentRequest : Type 0 where
  pub roleplay_assessment_request_token : ℕ
  pub channel : ℕ
  pub thread_id : Text
  pub current_line : Text
  pub thread_lines : List Text

pub record BiographyRequest : Type 0 where
  pub biography_request_token : ℕ
  pub bot_guid : ℕ
  pub character_name : Text
  pub race_id : ℕ
  pub class_id : ℕ
  pub gender_id : ℕ
  pub bot_level : ℕ
  pub active_expansion : ℕ

pub record MemorySubject : Type 0 where
  pub guid : ℕ
  pub name : Text

pub record MemoryLine : Type 0 where
  pub speaker_guid : ℕ
  pub speaker_name : Text
  pub text : Text
  pub source_event_id : Text
  pub source_kind : Text

pub record MemoryRequest : Type 0 where
  pub memory_request_token : ℕ
  pub bot_guid : ℕ
  pub bot_name : Text
  pub thread_id : Text
  pub scope : Text
  pub subjects : List MemorySubject
  pub thread : List MemoryLine
