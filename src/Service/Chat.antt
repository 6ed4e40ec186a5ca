-- ===== src/Service/Chat.antt =====
-- The chat handler of app.py, which also serves ambient lines and career choices, and the dispatch on a
-- request's kind.
use mod_playerbot_llm.Prelude.{
  ℕ, Bool, true, false, not, ◌&&◌, ◌||◌, Option, none, some, List, [], ◌++◌, Result, ok, err, pure,
  raise, ◌>>=◌, ◌>>◌, ◌==◌, if◌then◌else◌,
}
use mod_playerbot_llm.Prelude.Text.{Text, codes}
use mod_playerbot_llm.Ledger.{BudgetLedger}
use mod_playerbot_llm.Store.{
  record_profile, recent_turns, append_turn, record_career_decision, try_begin_ambient,
}
use mod_playerbot_llm.Store.Columns.{Profile}
use mod_playerbot_llm.Protocol.{
  ProtocolError, ChatRequest, is_ambient, is_career, SocialRequest, RoleplayAssessmentRequest,
  BiographyRequest, MemoryRequest,
}
use mod_playerbot_llm.Protocol.Encode.{encode_response}
use mod_playerbot_llm.Service.Config.{generation_allowed, ambient_allowed}
use mod_playerbot_llm.Service.Calls.{
  protocol_error, bad_career_reply, Act, on_store, Outside, Call, Outcome, answered,
}
use mod_playerbot_llm.Service.Pipelines.{
  SidecarService, Response, respond, priority_for, request_kind_for, call_provider, process_social,
  process_biography, process_memory, process_roleplay_assessment,
}

abbrev event_kind_name : ℕ → Text
event_kind_name kind =
    if kind == 0
    then codes "conversation"
    else if kind == 1
    then codes "quest completion"
    else if kind == 2
    then codes "level gain"
    else if kind == 3
    then codes "rare loot"
    else if kind == 4
    then codes "ambient World chatter"
    else if kind == 5
    then codes "career selection"
    else codes "milestone"

-- `build_user_message` of generation.py for a request that is neither ambient nor a career choice.
unfoldable pub build_user_message : ChatRequest → Text
build_user_message request =
    if request.event_kind == 0
    then request.speaker_name ++ (codes " says to you: " ++ request.message)
    else codes "A party milestone just happened ("
      ++ (event_kind_name request.event_kind
          ++ (codes "): "
              ++ (request.message ++ codes ". React with one short line in your voice.")))

abbrev pub profile_of : ChatRequest → Profile
profile_of request = record {
  profile_version = request.profile_version;
  crafting_affinity = request.crafting_affinity;
  gathering_affinity = request.gathering_affinity;
  exploration_affinity = request.exploration_affinity;
  sociability = request.sociability;
  voice = request.voice;
  bot_name = request.bot_name;
}

module _ (svc : SidecarService) (out : Outside) (book : BudgetLedger) where
  abbrev pub begin_ambient : ChatRequest → Act Bool
  begin_ambient request =
      if is_ambient request
      then on_store (try_begin_ambient svc.config.ambient_max_messages_per_hour out.now)
      else pure true

  -- `_history_for`
  abbrev pub history_for : ChatRequest → Act (List (Text × Text))
  history_for request =
      if is_ambient request || is_career request
      then pure []
      else on_store (recent_turns request.bot_guid)

  abbrev pub chat_call : ChatRequest → List (Text × Text) → Call Text
  chat_call request history = record {
    request_kind = request_kind_for request;
    priority = priority_for request;
    operation = if is_career request then codes "career" else codes "chat";
    input_tokens = svc.adapter.count_input_tokens request history;
    generated = svc.adapter.generate_reply request history;
  }

  abbrev pub remember_career : ChatRequest → Option (Text × Text) → Act Unit
  remember_career request none = raise bad_career_reply
  remember_career request (some (candidate_token, spending_style)) = on_store (
      record_career_decision request.bot_guid
        (record {
          career_version = svc.career_version_of request.message;
          candidate_token = candidate_token;
          spending_style = spending_style;
        })
        out.settled_at)

  abbrev pub remember_turns : ChatRequest → Text → Act Unit
  remember_turns request reply = do
    on_store
        (append_turn request.bot_guid (codes "user") (build_user_message request) out.settled_at)
    on_store (append_turn request.bot_guid (codes "assistant") reply out.settled_at)

  abbrev pub remember : ChatRequest → Text → Act Unit
  remember request reply =
      if is_career request
      then remember_career request (svc.parse_career_reply reply)
      else if is_ambient request
      then pure tt
      else remember_turns request reply

  abbrev pub answer_chat : ChatRequest → Outcome Text → Act Response
  answer_chat request (answered reply usage receipt) = do
    remember request reply
    respond (encode_response request.request_id reply svc.token)
  answer_chat request _ = pure none

  abbrev pub chat_with_history : ChatRequest → List (Text × Text) → Act Response
  chat_with_history request history = do
    outcome ← call_provider svc out book (chat_call request history)
    answer_chat request outcome

  abbrev pub chat_profiled : ChatRequest → Act Response
  chat_profiled request = do history ← history_for request; chat_with_history request history

  abbrev pub chat_begun : ChatRequest → Bool → Act Response
  chat_begun request false = pure none
  chat_begun request true = do
    on_store (record_profile request.bot_guid (profile_of request) out.now)
    chat_profiled request

  -- The body of `_process_within_deadline` once durable state is open.
  unfoldable pub process_chat : ChatRequest → Act Response
  process_chat request = do begun ← begin_ambient request; chat_begun request begun

-- A payload as `declared_kind` and the parser of its kind leave it.
pub data Request : Type 0 where
  chat : ChatRequest → Request
  social : SocialRequest → Request
  biography : BiographyRequest → Request
  memory : MemoryRequest → Request
  roleplay_assessment : RoleplayAssessmentRequest → Request

module _ (svc : SidecarService) (out : Outside) where
  abbrev pub within_deadline : BudgetLedger → Request → Act Response
  within_deadline book (chat request) = process_chat svc out book request
  within_deadline book (social request) = process_social svc out book request
  within_deadline book (biography request) = process_biography svc out book request
  within_deadline book (memory request) = process_memory svc out book request
  within_deadline book (roleplay_assessment request) =
      process_roleplay_assessment svc out book request

  abbrev pub with_state : Option BudgetLedger → Request → Act Response
  with_state none request = pure none
  with_state (some book) request = within_deadline book request

  abbrev pub is_disabled : Request → Bool
  is_disabled (chat request) = is_ambient request && not (ambient_allowed svc.config)
  is_disabled _ = false

  abbrev pub process_parsed : Result ProtocolError Request → Act Response
  process_parsed (err e) = raise (protocol_error e)
  process_parsed (ok request) =
      if not (generation_allowed svc.config)
      then pure none
      else if is_disabled request
      then pure none
      else with_state svc.store request

  unfoldable pub process_payload : Result ProtocolError Request → Act Response
  process_payload parsed = process_parsed parsed
