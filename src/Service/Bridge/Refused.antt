-- ===== src/Service/Bridge/Refused.antt =====
-- Which payloads make `handle_connection` close a connection with a protocol error.
use mod_playerbot_llm.Prelude.{
  ◌≡◌, refl, ◌∙◌, ap, ◌⊎◌, inl, inr, Bool, true, false, Option, none, some, Result, ok, err,
  Bool-cases, Result-cases,
}
use mod_playerbot_llm.Prelude.Text.{Text, codes, text_eq}
use mod_playerbot_llm.Ledger.{BudgetLedger}
use mod_playerbot_llm.Protocol.{
  ProtocolError, ChatRequest, SocialRequest, BiographyRequest, MemoryRequest,
  RoleplayAssessmentRequest,
}
use mod_playerbot_llm.Protocol.Frames.{Bytes}
use mod_playerbot_llm.Protocol.Requests.Fields.{all_true-All}
use mod_playerbot_llm.Protocol.Requests.Trusted.{parse_incoming_ok}
use mod_playerbot_llm.Protocol.Requests.Chat.{is_valid_chat, chat_tests, parse_request}
use mod_playerbot_llm.Protocol.Requests.Social.{parse_social_request}
use mod_playerbot_llm.Protocol.Requests.Background.{parse_roleplay_assessment_request}
use mod_playerbot_llm.Adapter.{Toolbox, AnthropicApi}
use mod_playerbot_llm.Adapter.Ids.{KnowsDigits}
use mod_playerbot_llm.Service.Config.{generation_allowed}
use mod_playerbot_llm.Service.Calls.{Sidecar, Fault, protocol_error, Outside}
use mod_playerbot_llm.Service.Pipelines.{SidecarService}
use mod_playerbot_llm.Service.Chat.{
  Request, chat, social, biography, memory, roleplay_assessment, within_deadline, with_state,
  is_disabled, process_parsed, process_payload,
}
use mod_playerbot_llm.Service.Honest.{is_refusal}
use mod_playerbot_llm.Service.Refusals.{with_anthropic, assessment_quiet, social_quiet}
use mod_playerbot_llm.Service.Replying.{chat_quiet}
use mod_playerbot_llm.Service.Bridge.{
  PayloadReader, declared_kind, as_request, parse_kind, parse_payload,
}

-- The requests that nobody waits for.
abbrev pub is_background : Request → Bool
is_background (chat request) = false
is_background (social request) = false
is_background (roleplay_assessment request) = false
is_background (biography request) = true
is_background (memory request) = true

module _ (reader : PayloadReader) (token : Text) (payload : Bytes) where
  -- A request with the parser that made it.
  data Parsed : Request → Type 0 where
    parsed_chat :
        (request : ChatRequest)
        → parse_request reader.read_career_content token (reader.chat_fields payload) ≡ ok request
        → Parsed (chat request)
    parsed_social :
        (request : SocialRequest)
        → parse_social_request reader.unicode token (reader.social_fields payload) ≡ ok request
        → Parsed (social request)
    parsed_assessment :
        (request : RoleplayAssessmentRequest)
        → parse_roleplay_assessment_request token (reader.assessment_fields payload) ≡ ok request
        → Parsed (roleplay_assessment request)
    parsed_biography : (request : BiographyRequest) → Parsed (biography request)
    parsed_memory : (request : MemoryRequest) → Parsed (memory request)

  as_chat :
      (r : Result ProtocolError ChatRequest) (request : Request)
      → parse_request reader.read_career_content token (reader.chat_fields payload) ≡ r
      → as_request chat r ≡ ok request
      → Parsed request
  as_chat (err e) request made h = cc
  as_chat (ok q) request made h =
      let same : chat q ≡ request = cc in rw (← same) (parsed_chat q made)

  as_social :
      (r : Result ProtocolError SocialRequest) (request : Request)
      → parse_social_request reader.unicode token (reader.social_fields payload) ≡ r
      → as_request social r ≡ ok request
      → Parsed request
  as_social (err e) request made h = cc
  as_social (ok q) request made h =
      let same : social q ≡ request = cc in rw (← same) (parsed_social q made)

  as_assessment :
      (r : Result ProtocolError RoleplayAssessmentRequest) (request : Request)
      → parse_roleplay_assessment_request token (reader.assessment_fields payload) ≡ r
      → as_request roleplay_assessment r ≡ ok request
      → Parsed request
  as_assessment (err e) request made h = cc
  as_assessment (ok q) request made h =
      let same : roleplay_assessment q ≡ request = cc in rw (← same) (parsed_assessment q made)

  as_biography :
      (r : Result ProtocolError BiographyRequest) (request : Request)
      → as_request biography r ≡ ok request
      → Parsed request
  as_biography (err e) request h = cc
  as_biography (ok q) request h =
      let same : biography q ≡ request = cc in rw (← same) (parsed_biography q)

  as_memory :
      (r : Result ProtocolError MemoryRequest) (request : Request)
      → as_request memory r ≡ ok request
      → Parsed request
  as_memory (err e) request h = cc
  as_memory (ok q) request h = let same : memory q ≡ request = cc in rw (← same) (parsed_memory q)

  kind-Parsed :
      (kind : Result ProtocolError (Option Text)) (request : Request)
      → parse_kind reader token payload kind ≡ ok request
      → Parsed request
  kind-Parsed (err e) request h = cc
  kind-Parsed (ok none) request h = as_chat _ request refl h
  kind-Parsed (ok (some kind)) request h = elim (Bool-cases (text_eq kind (codes "social"))) [
    | inl s ↦ as_social _ request refl (rw s at h)
    | inr s ↦
        let h1 = rw s at h in
        elim (Bool-cases (text_eq kind (codes "biography"))) [
          | inl b ↦ as_biography _ request (rw b at h1)
          | inr b ↦
              let h2 = rw b at h1 in
              elim (Bool-cases (text_eq kind (codes "memory"))) [
                | inl m ↦ as_memory _ request (rw m at h2)
                | inr m ↦
                    let h3 = rw m at h2 in
                    elim (Bool-cases (text_eq kind (codes "roleplay_assessment"))) [
                      | inl r ↦ as_assessment _ request refl (rw r at h3)
                      | inr r ↦ let h4 = rw r at h3 in cc
                    ]
              ]
        ]
  ]

  payload-Parsed :
      (request : Request) → parse_payload reader token payload ≡ ok request → Parsed request
  unfolding parse_payload
  payload-Parsed request h = kind-Parsed (declared_kind (reader.decode payload)) request h

refusal_of :
    {A : Type 0} (r : Result Fault A) (e : ProtocolError)
    → r ≡ err (protocol_error e)
    → is_refusal r ≡ false
    → ⊥
refusal_of r e h quiet = let loud = rw h at quiet in cc

module _ (base : SidecarService) (tools : Toolbox) (api : AnthropicApi) (out : Outside)
    (reader : PayloadReader) (knows : KnowsDigits base.is_digit) (payload : Bytes) where
  handler_quiet :
      (book : BudgetLedger) (request : Request) (s : Sidecar)
      → Parsed reader base.token payload request
      → is_background request ≡ false
      → is_refusal (within_deadline (with_anthropic base tools api) out book request s).0 ≡ false
  unfolding parse_request is_valid_chat
  handler_quiet book _ s (parsed_chat request made) front =
      let (valid, fits) =
        parse_incoming_ok (is_valid_chat reader.read_career_content) base.token
          (reader.chat_fields payload) request made in
      let tests = all_true-All (chat_tests reader.read_career_content request) valid in
      chat_quiet base tools api out book request tests.0 fits s
  handler_quiet book _ s (parsed_social request made) front =
      social_quiet base tools api out book knows reader.unicode (reader.social_fields payload)
        request made s
  handler_quiet book _ s (parsed_assessment request made) front =
      assessment_quiet base tools api out book (reader.assessment_fields payload) request s made
  handler_quiet book _ s (parsed_biography request) front = cc
  handler_quiet book _ s (parsed_memory request) front = cc

  state_quiet :
      (store : Option BudgetLedger) (request : Request) (s : Sidecar)
      → Parsed reader base.token payload request
      → is_background request ≡ false
      → is_refusal (with_state (with_anthropic base tools api) out store request s).0 ≡ false
  state_quiet none request s made front = refl
  state_quiet (some book) request s made front = handler_quiet book request s made front

  Parsed-quiet :
      (request : Request) (s : Sidecar)
      → Parsed reader base.token payload request
      → is_background request ≡ false
      → is_refusal (process_parsed (with_anthropic base tools api) out (ok request) s).0 ≡ false
  Parsed-quiet request s made front = elim (Bool-cases (generation_allowed base.config)) [
    | inr off ↦ rw off refl
    | inl on ↦ rw on (elim (Bool-cases (is_disabled (with_anthropic base tools api) out request)) [
      | inl disabled ↦ rw disabled refl
      | inr enabled ↦ rw enabled (state_quiet base.store request s made front)
    ])
  ]

  -- With the production provider, a protocol error, which closes the connection, comes from the payload itself, or
  -- else the payload was a biography or a memory request: a chat line, a social line or an assessment that was
  -- parsed never ends in one, whatever the model wrote. Python's decimal digits are to count as digits.
  pub process_payload-refused :
      (s : Sidecar) (e : ProtocolError)
      → (process_payload
          (with_anthropic base tools api)
          out
          (parse_payload reader base.token payload)
          s).0
        ≡ err (protocol_error e)
      → (parse_payload reader base.token payload ≡ err e)
        ⊎ ((request : Request) × ((parse_payload reader base.token payload ≡ ok request)
              × (is_background request ≡ true)))
  unfolding process_payload
  process_payload-refused s e h = elim (Result-cases (parse_payload reader base.token payload)) [
    | inr (e', shape) ↦
        let h' = rw shape at h in let same : e' ≡ e = cc in inl (shape ∙ ap err same)
    | inl (request, shape) ↦ elim (Bool-cases (is_background request)) [
      | inl back ↦ inr (request, (shape, back))
      | inr front ↦
          let h' = rw shape at h in
          let made = payload-Parsed reader base.token payload request shape in
          absurd (refusal_of _ e h' (Parsed-quiet request s made front))
    ]
  ]
