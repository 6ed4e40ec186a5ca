-- ===== src/Protocol/Requests/Chat.antt =====
-- `ChatRequest`, `CareerRequestContent` and `parse_request` of protocol.py.
use mod_playerbot_llm.Prelude.{
  ℕ, Bool, true, false, not, ◌&&◌, ◌||◌, Option, none, some, List, [], ◌∷◌, all, length, Result,
  leb, ◌==◌, if◌then◌else◌,
}
use mod_playerbot_llm.Prelude.Text.{Text, codes, text_eq}
use mod_playerbot_llm.Protocol.{ProtocolError, ChatRequest, in_uint64, is_empty, one_of, distinct}
use mod_playerbot_llm.Protocol.Requests.{Incoming, parse_incoming}
use mod_playerbot_llm.Protocol.Requests.Fields.{
  all_true, fits_uint64, is_bounded, bytes_within, max_actor_name_bytes,
}
use mod_playerbot_llm.Generation.Career.{CareerCandidate}

abbrev pub ambient_event_kind : ℕ
ambient_event_kind = 4

abbrev pub career_event_kind : ℕ
career_event_kind = 5

abbrev pub ambient_event_marker : Text
ambient_event_marker = codes "ambient_world"

abbrev pub max_request_message_bytes : ℕ
max_request_message_bytes = 512

abbrev pub max_career_message_bytes : ℕ
max_career_message_bytes = 61440

abbrev pub max_career_summary_bytes : ℕ
max_career_summary_bytes = 160

abbrev pub voices : List Text
voices =
    codes "reserved" ∷ codes "pragmatic" ∷ codes "earnest" ∷ codes "wry" ∷ codes "boisterous" ∷ []

-- The fields of a career message, as the JSON library and the types of the model read them.
pub record CareerRequestContent : Type 0 where
  pub personality_version : ℕ
  pub career_version : ℕ
  pub candidates : List CareerCandidate

abbrev drop_prefix : Text → Text → Option Text
drop_prefix [] text = some text
drop_prefix (p ∷ ps) [] = none
drop_prefix (p ∷ ps) (c ∷ cs) = let rest = drop_prefix ps cs in if p == c then rest else none

abbrev is_token_body : Option Text → Bool
is_token_body none = false
is_token_body (some body) =
    not (is_empty body) && all (λ c. (leb 97 c && leb c 122) || (leb 48 c && leb c 57)) body

abbrev pub is_valid_candidate : CareerCandidate → Bool
is_valid_candidate c =
    (is_token_body (drop_prefix (codes "career-") c.token) && leb (length c.token) 64)
    && ((is_bounded 160 c.summary && bytes_within max_career_summary_bytes c.summary)
        && (leb c.market_eligible 1 && leb c.engagement 100))

abbrev pub tokens_of : List CareerCandidate → List Text
tokens_of [] = []
tokens_of (c ∷ cs) = c.token ∷ tokens_of cs

abbrev pub is_valid_content : CareerRequestContent → Bool
is_valid_content content =
    (content.personality_version == 4 && content.career_version == 1)
    && ((leb 1 (length content.candidates) && leb (length content.candidates) 256)
        && (all is_valid_candidate content.candidates && distinct (tokens_of content.candidates)))

abbrev pub valid_candidates : Option CareerRequestContent → Option (List CareerCandidate)
valid_candidates none = none
valid_candidates (some content) = if is_valid_content content then some content.candidates else none

abbrev pub is_content : Option (List CareerCandidate) → Bool
is_content none = false
is_content (some candidates) = true

module _ (read_career_content : Text → Option CareerRequestContent) where
  -- `parse_career_content`, its `ValueError` as `none`.
  unfoldable pub parse_career_content : Text → Option (List CareerCandidate)
  parse_career_content message = valid_candidates (read_career_content message)

  -- `_validate_ambient_fields`
  unfoldable pub trusted_contract : ChatRequest → Bool
  trusted_contract r =
      if text_eq r.channel (codes "career") || r.event_kind == career_event_kind
      then (text_eq r.channel (codes "career") && r.event_kind == career_event_kind)
        && ((r.speaker_guid == 0 && is_empty r.speaker_name)
            && ((r.subject_id == 0 && r.occurrence == 0)
                && is_content (parse_career_content r.message)))
      else if text_eq r.channel (codes "world") || r.event_kind == ambient_event_kind
      then (text_eq r.channel (codes "world") && r.event_kind == ambient_event_kind)
        && ((r.speaker_guid == 0 && is_empty r.speaker_name)
            && (r.subject_id == 0 && text_eq r.message ambient_event_marker))
      else (not (r.speaker_guid == 0) && not (is_empty r.speaker_name))
        && bytes_within max_request_message_bytes r.message

  abbrev pub chat_channels : List Text
  chat_channels =
      codes "whisper" ∷ codes "party" ∷ codes "world" ∷ codes "career" ∷ codes "social" ∷ []

  abbrev pub chat_tests : ChatRequest → List Bool
  chat_tests r =
      in_uint64 r.request_id
      ∷ one_of chat_channels r.channel
      ∷ in_uint64 r.bot_guid
      ∷ fits_uint64 r.speaker_guid
      ∷ (is_bounded 48 r.bot_name && bytes_within max_actor_name_bytes r.bot_name)
      ∷ (leb (length r.speaker_name) 48 && bytes_within max_actor_name_bytes r.speaker_name)
      ∷ (r.profile_version == 2)
      ∷ (leb r.crafting_affinity 100 && leb r.gathering_affinity 100)
      ∷ (leb r.exploration_affinity 100 && leb r.sociability 100)
      ∷ one_of voices r.voice
      ∷ leb r.event_kind 5
      ∷ (fits_uint64 r.subject_id && fits_uint64 r.occurrence)
      ∷ (not (is_empty r.message) && bytes_within max_career_message_bytes r.message)
      ∷ trusted_contract r
      ∷ []

  unfoldable pub is_valid_chat : ChatRequest → Bool
  is_valid_chat r = all_true (chat_tests r)

  unfoldable pub parse_request :
      Text → Option (Incoming ChatRequest) → Result ProtocolError ChatRequest
  parse_request expected_token incoming = parse_incoming is_valid_chat expected_token incoming
