-- ===== src/Service/Bridge.antt =====
-- The bridge of app.py: `declared_kind`, the parser of each kind, and `handle_connection`, which reads frames from
-- one connection and answers them in turn. A lost connection and an unreachable database end it outside this model.
pub mod Conversation
pub mod Refused
use mod_playerbot_llm.Prelude.{
  ℕ, zero, suc, Option, none, some, List, [], ◌∷◌, ◌++◌, length, Result, ok, err, if◌then◌else◌,
}
use mod_playerbot_llm.Prelude.Text.{Text, codes, text_eq}
use mod_playerbot_llm.Ledger.{BudgetLedger}
use mod_playerbot_llm.Store.{purge_pending_bot_data}
use mod_playerbot_llm.Protocol.{
  ProtocolError, malformed, unrecognized_kind, ChatRequest, SocialRequest,
  RoleplayAssessmentRequest, BiographyRequest, MemoryRequest,
}
use mod_playerbot_llm.Protocol.Encode.{Payload}
use mod_playerbot_llm.Protocol.Frames.{Bytes, FrameError, encode_frame, read_frame}
use mod_playerbot_llm.Protocol.Requests.{Incoming}
use mod_playerbot_llm.Protocol.Requests.Fields.{UnicodeCategories}
use mod_playerbot_llm.Protocol.Requests.Chat.{CareerRequestContent, parse_request}
use mod_playerbot_llm.Protocol.Requests.Social.{parse_social_request}
use mod_playerbot_llm.Protocol.Requests.Background.{
  parse_roleplay_assessment_request, parse_biography_request, parse_memory_request,
}
use mod_playerbot_llm.Service.Calls.{Sidecar, Fault, protocol_error, Outside}
use mod_playerbot_llm.Service.Pipelines.{SidecarService, Response}
use mod_playerbot_llm.Service.Chat.{
  Request, chat, social, biography, memory, roleplay_assessment, process_payload,
}

-- The field `kind` of an object: missing or null, a string, or anything else.
pub data KindField : Type 0 where
  no_kind other_kind : KindField
  text_kind : Text → KindField

-- A payload as the JSON library leaves it; an object that repeats a key is not JSON here.
pub data Decoded : Type 0 where
  not_utf8 not_json not_object : Decoded
  object : KindField → Decoded

unfoldable pub declared_kind : Decoded → Result ProtocolError (Option Text)
declared_kind not_utf8 = err malformed
declared_kind not_json = err malformed
declared_kind not_object = err malformed
declared_kind (object no_kind) = ok none
declared_kind (object other_kind) = err malformed
declared_kind (object (text_kind kind)) = ok (some kind)

-- What the JSON library and the types of the models' fields make of a payload, and the Unicode database.
pub record PayloadReader : Type 0 where
  pub decode : Bytes → Decoded
  pub chat_fields : Bytes → Option (Incoming ChatRequest)
  pub social_fields : Bytes → Option (Incoming SocialRequest)
  pub biography_fields : Bytes → Option (Incoming BiographyRequest)
  pub memory_fields : Bytes → Option (Incoming MemoryRequest)
  pub assessment_fields : Bytes → Option (Incoming RoleplayAssessmentRequest)
  pub read_career_content : Text → Option CareerRequestContent
  pub unicode : UnicodeCategories

abbrev pub as_request :
    {A : Type 0} → (A → Request) → Result ProtocolError A → Result ProtocolError Request
as_request wrap (ok request) = ok (wrap request)
as_request wrap (err e) = err e

module _ (reader : PayloadReader) (token : Text) where
  abbrev pub parse_kind : Bytes → Result ProtocolError (Option Text) → Result ProtocolError Request
  parse_kind payload (err e) = err e
  parse_kind payload (ok none) =
      as_request chat (parse_request reader.read_career_content token (reader.chat_fields payload))
  parse_kind payload (ok (some kind)) =
      if text_eq kind (codes "social")
      then as_request social
          (parse_social_request reader.unicode token (reader.social_fields payload))
      else if text_eq kind (codes "biography")
      then as_request biography
          (parse_biography_request reader.unicode token (reader.biography_fields payload))
      else if text_eq kind (codes "memory")
      then as_request memory
          (parse_memory_request reader.unicode token (reader.memory_fields payload))
      else if text_eq kind (codes "roleplay_assessment")
      then as_request roleplay_assessment
          (parse_roleplay_assessment_request token (reader.assessment_fields payload))
      else err unrecognized_kind

  unfoldable pub parse_payload : Bytes → Result ProtocolError Request
  parse_payload payload = parse_kind payload (declared_kind (reader.decode payload))

-- Why a connection is closed.
pub data Ending : Type 0 where
  end_of_stream : FrameError → Ending
  refused : ProtocolError → Ending
  kept_silent : Ending
  escaped : Fault → Ending
  unframed : FrameError → Ending
  out_of_turns : Ending

-- How a connection ended, what was written to it, and the tables afterwards.
pub record Closed : Type 0 where
  pub ending : Ending
  pub written : Bytes
  pub sidecar : Sidecar

abbrev pub closed : Ending → Sidecar → Closed
closed ending s = record { ending = ending; written = []; sidecar = s }

abbrev pub after_frame : Bytes → Closed → Closed
after_frame frame c = record c { written = frame ++ c.written }

-- The service behind one connection: what each of its requests meets outside, in order, and the JSON text of
-- a response.
pub record Bridge : Type 0 where
  pub service : SidecarService
  pub reader : PayloadReader
  pub outside : ℕ → Outside
  pub dump : Payload → Bytes

module _ (bridge : Bridge) where
  abbrev pub process_frame : ℕ → Bytes → Sidecar → Result Fault Response × Sidecar
  process_frame n payload s =
      process_payload bridge.service (bridge.outside n)
        (parse_payload bridge.reader bridge.service.token payload) s

  abbrev pub write_frame :
      (Bytes → Sidecar → Closed) → Bytes → Result FrameError Bytes → Sidecar → Closed
  write_frame next stream (err e) s = closed (unframed e) s
  write_frame next stream (ok frame) s = after_frame frame (next stream s)

  abbrev pub write_response :
      (Bytes → Sidecar → Closed) → Bytes → Result Fault Response × Sidecar → Closed
  write_response next stream (ok none, s) = closed kept_silent s
  write_response next stream (ok (some response), s) =
      write_frame next stream (encode_frame (bridge.dump response)) s
  write_response next stream (err (protocol_error e), s) = closed (refused e) s
  write_response next stream (err fault, s) = closed (escaped fault) s

  abbrev pub answer_frame :
      (Bytes → Sidecar → Closed) → ℕ → Result FrameError (Bytes × Bytes) → Sidecar → Closed
  answer_frame next n (err e) s = closed (end_of_stream e) s
  answer_frame next n (ok (payload, stream)) s =
      write_response next stream (process_frame n payload s)

  -- `while True`, so many turns of it.
  unfoldable pub serve_frames : ℕ → ℕ → Bytes → Sidecar → Closed
  serve_frames zero n stream s = closed out_of_turns s
  serve_frames (suc turns) n stream s =
      answer_frame (serve_frames turns (suc n)) n (read_frame stream) s

  -- `SidecarService.purge_pending_bot_data`
  abbrev pub purge_pending : Option BudgetLedger → Sidecar → Sidecar
  purge_pending none s = s
  purge_pending (some book) s = record s { store = (purge_pending_bot_data s.store).1 }

  -- A frame takes four bytes at least, so there are no more turns than bytes.
  unfoldable pub handle_connection : Bytes → Sidecar → Closed
  unfolding serve_frames
  handle_connection stream s =
      serve_frames (suc (length stream)) 0 stream (purge_pending bridge.service.store s)
