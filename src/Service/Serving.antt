-- ===== src/Service/Serving.antt =====
-- `process_payload` keeps the ledger funded, and so does serving any sequence of requests.
use mod_playerbot_llm.Prelude.{
  zero, suc, ◌≤◌, ◌≡◌, Bool, true, false, ◌||◌, Option, none, some, List, Result, ok, err, arith,
  continue, Bool-cases, inl, inr,
}
use mod_playerbot_llm.Prelude.Int.{ℤ, pos, negsuc}
use mod_playerbot_llm.Prelude.Text.{Text, codes}
use mod_playerbot_llm.Budget.{
  BudgetConfigurationError, usd_to_nano, max_storable_nano, validate_daily_ceiling, check_ceiling,
}
use mod_playerbot_llm.Ledger.{BudgetLedger}
use mod_playerbot_llm.Ledger.Funding.{IsUsable}
use mod_playerbot_llm.Store.{
  Store, try_begin_ambient, recent_turns, record_career_decision, append_turn, record_profile,
}
use mod_playerbot_llm.Protocol.{
  ProtocolError, ChatRequest, is_ambient, is_career, SocialRequest, RoleplayAssessmentRequest,
  BiographyRequest, MemoryRequest,
}
use mod_playerbot_llm.Protocol.Encode.{encode_response}
use mod_playerbot_llm.Service.Config.{
  SidecarConfig, budget_nano, generation_allowed, ceiling_or_zero,
}
use mod_playerbot_llm.Service.Calls.{
  Sidecar, Fault, Act, on_store, Outside, Outcome, silent, failed, answered,
}
use mod_playerbot_llm.Service.Pipelines.{
  SidecarService, respond, process_social, process_biography, process_memory,
  process_roleplay_assessment, answer_assessment, answer_memory, answer_biography, answer_social,
  assessment_call, memory_call, biography_call, social_call,
}
use mod_playerbot_llm.Service.Chat.{
  build_user_message, profile_of, Request, chat, social, biography, memory, roleplay_assessment,
  begin_ambient, history_for, remember, remember_career, answer_chat, chat_with_history,
  chat_profiled, chat_begun, chat_call, process_chat, within_deadline, with_state, is_disabled,
  process_payload,
}
use mod_playerbot_llm.Service.Answers.{
  respond_state, assessment_state, memory_state, biography_state, social_state,
}
use mod_playerbot_llm.Service.Safety.{IsSafe, store_result-IsSafe, run_call-IsSafe}

ceiling-le :
    (r : Result BudgetConfigurationError ℤ) → ceiling_or_zero (check_ceiling r) ≤ max_storable_nano
ceiling-le (ok (pos zero)) = omega arith
ceiling-le (ok (pos (suc n))) = ground arith
ceiling-le (ok (negsuc n)) = omega arith
ceiling-le (err e) = omega arith

-- Whenever a configuration allows generation, its ceiling is positive and storable.
pub generation_allowed-IsUsable :
    (config : SidecarConfig) (book : BudgetLedger)
    → book.ceiling_nano ≡ budget_nano config
    → generation_allowed config ≡ true
    → IsUsable book
unfolding generation_allowed budget_nano validate_daily_ceiling
generation_allowed-IsUsable config book e allowed =
    let le = ceiling-le (usd_to_nano config.daily_budget_usd) in (ground arith, omega arith)

-- What keeps a property of the state along a chain.
module _ (P : Sidecar → Type 0) where
  continue-keeps :
      {A B : Type 0} (x : Result Fault A × Sidecar) (f : A → Act B)
      → P x.1
      → ((a : A) (s : Sidecar) → P s → P (f a s).1)
      → P (continue x f).1
  continue-keeps (ok a, s) f h k = k a s h
  continue-keeps (err e, s) f h k = h

module _ (svc : SidecarService) (out : Outside) (book : BudgetLedger) (usable : IsUsable book) where
  abbrev Safe : Sidecar → Type 0
  Safe = IsSafe book

  assessment-IsSafe :
      (request : RoleplayAssessmentRequest) (s : Sidecar)
      → Safe s
      → Safe (process_roleplay_assessment svc out book request s).1
  unfolding process_roleplay_assessment
  assessment-IsSafe request s h =
      continue-keeps Safe _ (answer_assessment svc out book request)
        (run_call-IsSafe svc.config svc.adapter.metadata book out usable s
          (assessment_call svc out book request) h)
        (λ o t k. rw (assessment_state svc out book request o t) k)

  memory-IsSafe :
      (request : MemoryRequest) (s : Sidecar)
      → Safe s
      → Safe (process_memory svc out book request s).1
  unfolding process_memory
  memory-IsSafe request s h =
      continue-keeps Safe _ (answer_memory svc out book request)
        (run_call-IsSafe svc.config svc.adapter.metadata book out usable s
          (memory_call svc out book request) h)
        (λ o t k. rw (memory_state svc out book request o t) k)

  biography-IsSafe :
      (request : BiographyRequest) (s : Sidecar)
      → Safe s
      → Safe (process_biography svc out book request s).1
  unfolding process_biography
  biography-IsSafe request s h =
      continue-keeps Safe _ (answer_biography svc out book request)
        (run_call-IsSafe svc.config svc.adapter.metadata book out usable s
          (biography_call svc out book request) h)
        (λ o t k. rw (biography_state svc out book request o t) k)

  social-IsSafe :
      (request : SocialRequest) (s : Sidecar)
      → Safe s
      → Safe (process_social svc out book request s).1
  unfolding process_social
  social-IsSafe request s h =
      continue-keeps Safe _ (answer_social svc out book request)
        (run_call-IsSafe svc.config svc.adapter.metadata book out usable s
          (social_call svc out book request) h)
        (λ o t k. rw (social_state svc out book request o t) k)

  on_store-IsSafe : {A : Type 0} (m : Store A) (s : Sidecar) → Safe s → Safe (on_store m s).1
  on_store-IsSafe m s h = store_result-IsSafe book s (m s.store) h

  begin_ambient-IsSafe :
      (request : ChatRequest) (s : Sidecar) → Safe s → Safe (begin_ambient svc out book request s).1
  begin_ambient-IsSafe request s h = elim (Bool-cases (is_ambient request)) [
    | inl calling ↦
        rw calling
          (on_store-IsSafe (try_begin_ambient svc.config.ambient_max_messages_per_hour out.now) s h)
    | inr direct ↦ rw direct h
  ]

  history_for-IsSafe :
      (request : ChatRequest) (s : Sidecar) → Safe s → Safe (history_for svc out book request s).1
  history_for-IsSafe request s h = elim (Bool-cases (is_ambient request || is_career request)) [
    | inl alone ↦ rw alone h
    | inr talking ↦ rw talking (on_store-IsSafe (recent_turns request.bot_guid) s h)
  ]

  remember_career-IsSafe :
      (request : ChatRequest) (choice : Option (Text × Text)) (s : Sidecar)
      → Safe s
      → Safe (remember_career svc out book request choice s).1
  remember_career-IsSafe request none s h = h
  remember_career-IsSafe request (some (token, style)) s h =
      on_store-IsSafe
        (record_career_decision request.bot_guid
          (record {
            career_version = svc.career_version_of request.message;
            candidate_token = token;
            spending_style = style;
          })
          out.settled_at)
        s h

  remember-IsSafe :
      (request : ChatRequest) (reply : Text) (s : Sidecar)
      → Safe s
      → Safe (remember svc out book request reply s).1
  remember-IsSafe request reply s h = elim (Bool-cases (is_career request)) [
    | inl career ↦ rw career (remember_career-IsSafe request (svc.parse_career_reply reply) s h)
    | inr other ↦ rw other (elim (Bool-cases (is_ambient request)) [
      | inl ambient ↦ rw ambient h
      | inr talking ↦ rw talking (
          continue-keeps Safe _ _
            (on_store-IsSafe
              (append_turn request.bot_guid (codes "user") (build_user_message request)
                out.settled_at)
              s h)
            (λ _ t k.
              on_store-IsSafe
                (append_turn request.bot_guid (codes "assistant") reply out.settled_at) t k))
    ])
  ]

  answer_chat-IsSafe :
      (request : ChatRequest) (o : Outcome Text) (s : Sidecar)
      → Safe s
      → Safe (answer_chat svc out book request o s).1
  answer_chat-IsSafe request (answered reply usage receipt) s h =
      continue-keeps Safe _ (λ _. respond (encode_response request.request_id reply svc.token))
        (remember-IsSafe request reply s h)
        (λ _ t k. rw (respond_state (encode_response request.request_id reply svc.token) t) k)
  answer_chat-IsSafe request silent s h = h
  answer_chat-IsSafe request (failed e) s h = h

  with_history-IsSafe :
      (request : ChatRequest) (history : List (Text × Text)) (s : Sidecar)
      → Safe s
      → Safe (chat_with_history svc out book request history s).1
  with_history-IsSafe request history s h =
      continue-keeps Safe _ (answer_chat svc out book request)
        (run_call-IsSafe svc.config svc.adapter.metadata book out usable s
          (chat_call svc out book request history) h)
        (answer_chat-IsSafe request)

  profiled-IsSafe :
      (request : ChatRequest) (s : Sidecar) → Safe s → Safe (chat_profiled svc out book request s).1
  profiled-IsSafe request s h =
      continue-keeps Safe _ (chat_with_history svc out book request)
        (history_for-IsSafe request s h) (with_history-IsSafe request)

  chat_begun-IsSafe :
      (request : ChatRequest) (begun : Bool) (s : Sidecar)
      → Safe s
      → Safe (chat_begun svc out book request begun s).1
  chat_begun-IsSafe request false s h = h
  chat_begun-IsSafe request true s h =
      let m = record_profile request.bot_guid (profile_of request) out.now in
      continue-keeps Safe (on_store m s) (λ _. chat_profiled svc out book request)
        (on_store-IsSafe m s h) (λ _. profiled-IsSafe request)

  chat-IsSafe :
      (request : ChatRequest) (s : Sidecar) → Safe s → Safe (process_chat svc out book request s).1
  unfolding process_chat
  chat-IsSafe request s h =
      continue-keeps Safe _ (chat_begun svc out book request) (begin_ambient-IsSafe request s h)
        (chat_begun-IsSafe request)

  within_deadline-IsSafe :
      (request : Request) (s : Sidecar) → Safe s → Safe (within_deadline svc out book request s).1
  within_deadline-IsSafe (chat request) s h = chat-IsSafe request s h
  within_deadline-IsSafe (social request) s h = social-IsSafe request s h
  within_deadline-IsSafe (biography request) s h = biography-IsSafe request s h
  within_deadline-IsSafe (memory request) s h = memory-IsSafe request s h
  within_deadline-IsSafe (roleplay_assessment request) s h = assessment-IsSafe request s h

  with_state-IsSafe :
      (o : Option BudgetLedger) (request : Request) (s : Sidecar)
      → o ≡ some book
      → Safe s
      → Safe (with_state svc out o request s).1
  with_state-IsSafe o request s e h = rw e (within_deadline-IsSafe request s h)

-- The open ledger of a service, if it has one, enforces the configured ceiling.
abbrev pub IsConfigured : SidecarService → BudgetLedger → Type 0
IsConfigured svc book = (svc.store ≡ some book) × (book.ceiling_nano ≡ budget_nano svc.config)

-- A request, whatever it is and whatever the provider returns, keeps the ledger funded: what a day has spent
-- and what it holds stay under the configured ceiling as long as the circuit is closed.
pub process_payload-IsSafe :
    (svc : SidecarService) (out : Outside) (book : BudgetLedger)
    (parsed : Result ProtocolError Request) (s : Sidecar)
    → IsConfigured svc book
    → IsSafe book s
    → IsSafe book (process_payload svc out parsed s).1
unfolding process_payload
process_payload-IsSafe svc out book (err e) s (_, _) h = h
process_payload-IsSafe svc out book (ok request) s (state_open, same) h =
    elim (Bool-cases (generation_allowed svc.config)) [
      | inr off ↦ rw off h
      | inl allowed ↦ rw allowed (elim (Bool-cases (is_disabled svc out request)) [
        | inl quiet ↦ rw quiet h
        | inr wanted ↦ rw wanted (
            with_state-IsSafe svc out book
              (generation_allowed-IsUsable svc.config book same allowed) svc.store request s
              state_open h)
      ])
    ]
