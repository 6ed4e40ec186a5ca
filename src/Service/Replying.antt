-- ===== src/Service/Replying.antt =====
-- `_process_within_deadline` of app.py with the adapter of providers/anthropic.py: which errors leave it.
use mod_playerbot_llm.Prelude.{
  ◌≡◌, refl, inl, inr, Bool, true, false, ◌||◌, Option, none, some, List, [], ok, Bool-cases,
}
use mod_playerbot_llm.Prelude.Text.{Text, codes}
use mod_playerbot_llm.Ledger.{BudgetLedger, SettlementReceipt}
use mod_playerbot_llm.Store.{
  record_profile, recent_turns, append_turn, record_career_decision, try_begin_ambient,
}
use mod_playerbot_llm.Protocol.{ChatRequest, is_ambient, is_career, in_uint64, token_fits}
use mod_playerbot_llm.Protocol.Encode.{encode_response}
use mod_playerbot_llm.Provider.{GenerationUsage}
use mod_playerbot_llm.Adapter.{Toolbox, AnthropicApi, anthropic_provider, generate_reply}
use mod_playerbot_llm.Adapter.Accepted.{generate_reply-sent}
use mod_playerbot_llm.Service.Calls.{Sidecar, on_store, Outside, Outcome, silent, failed, answered}
use mod_playerbot_llm.Service.Pipelines.{SidecarService, respond, call_provider}
use mod_playerbot_llm.Service.Chat.{
  chat_call, remember_career, remember_turns, remember, answer_chat, chat_with_history,
  chat_profiled, chat_begun, process_chat, profile_of, build_user_message,
}
use mod_playerbot_llm.Service.Honest.{is_refusal, run_call-IsHonest, answered_quiet}
use mod_playerbot_llm.Service.Refusals.{
  continue_quiet, on_store_quiet, respond_quiet, with_anthropic,
}

module _ (base : SidecarService) (tools : Toolbox) (api : AnthropicApi) (out : Outside)
    (book : BudgetLedger) (request : ChatRequest) (id : in_uint64 request.request_id ≡ true)
    (fits : token_fits base.token ≡ true) where
  abbrev svc : SidecarService
  svc = with_anthropic base tools api

  career_quiet :
      (choice : Option (Text × Text)) (s : Sidecar)
      → is_refusal (remember_career svc out book request choice s).0 ≡ false
  career_quiet none s = refl
  career_quiet (some (candidate_token, spending_style)) s =
      on_store_quiet
        (record_career_decision request.bot_guid
          (record {
            career_version = svc.career_version_of request.message;
            candidate_token = candidate_token;
            spending_style = spending_style;
          })
          out.settled_at)
        s

  turns_quiet :
      (reply : Text) (s : Sidecar)
      → is_refusal (remember_turns svc out book request reply s).0 ≡ false
  turns_quiet reply s =
      let heard =
        append_turn request.bot_guid (codes "user") (build_user_message request) out.settled_at in
      let said = append_turn request.bot_guid (codes "assistant") reply out.settled_at in
      continue_quiet (on_store heard s) (λ _. on_store said) (on_store_quiet heard s)
        (λ _ s'. on_store_quiet said s')

  remember_quiet :
      (reply : Text) (s : Sidecar) → is_refusal (remember svc out book request reply s).0 ≡ false
  remember_quiet reply s = elim (Bool-cases (is_career request)) [
    | inl career ↦ rw career (career_quiet (svc.parse_career_reply reply) s)
    | inr talk ↦ rw talk (elim (Bool-cases (is_ambient request)) [
      | inl ambient ↦ rw ambient refl
      | inr direct ↦ rw direct (turns_quiet reply s)
    ])
  ]

  chat_answer_quiet :
      (history : List (Text × Text)) (outcome : Outcome Text) (s : Sidecar)
      → ((reply : Text) (usage : GenerationUsage) (receipt : SettlementReceipt)
          → outcome ≡ answered reply usage receipt
          → generate_reply tools request (api.create_chat request history) ≡ ok (reply, usage))
      → is_refusal (answer_chat svc out book request outcome s).0 ≡ false
  chat_answer_quiet history silent s own = refl
  chat_answer_quiet history (failed e) s own = refl
  chat_answer_quiet history (answered reply usage receipt) s own =
      let encoded = encode_response request.request_id reply base.token in
      continue_quiet (remember svc out book request reply s) (λ _. respond encoded)
        (remember_quiet reply s)
        (λ _ s'. respond_quiet encoded s' (
          generate_reply-sent tools request (api.create_chat request history) reply base.token usage
            id fits (own reply usage receipt refl)))

  history_quiet :
      (history : List (Text × Text)) (s : Sidecar)
      → is_refusal (chat_with_history svc out book request history s).0 ≡ false
  unfolding anthropic_provider
  history_quiet history s =
      answered_quiet (chat_call svc out book request history).generated
        (call_provider svc out book (chat_call svc out book request history) s)
        (answer_chat svc out book request)
        (run_call-IsHonest svc.config svc.adapter.metadata book out
          (chat_call svc out book request history) s)
        (λ outcome s' own. chat_answer_quiet history outcome s' own)

  profiled_quiet : (s : Sidecar) → is_refusal (chat_profiled svc out book request s).0 ≡ false
  profiled_quiet s = elim (Bool-cases (is_ambient request || is_career request)) [
    | inl fresh ↦ rw fresh (history_quiet [] s)
    | inr direct ↦
        let past = recent_turns request.bot_guid in
        rw direct (
          continue_quiet (on_store past s) (chat_with_history svc out book request)
            (on_store_quiet past s) history_quiet)
  ]

  begun_quiet :
      (begun : Bool) (s : Sidecar) → is_refusal (chat_begun svc out book request begun s).0 ≡ false
  begun_quiet false s = refl
  begun_quiet true s =
      let profile = record_profile request.bot_guid (profile_of request) out.now in
      continue_quiet (on_store profile s) (λ _. chat_profiled svc out book request)
        (on_store_quiet profile s) (λ _ s'. profiled_quiet s')

  pub chat_quiet : (s : Sidecar) → is_refusal (process_chat svc out book request s).0 ≡ false
  unfolding process_chat
  chat_quiet s = elim (Bool-cases (is_ambient request)) [
    | inl ambient ↦
        let begin = try_begin_ambient svc.config.ambient_max_messages_per_hour out.now in
        rw ambient (
          continue_quiet (on_store begin s) (chat_begun svc out book request)
            (on_store_quiet begin s) begun_quiet)
    | inr other ↦ rw other (begun_quiet true s)
  ]
