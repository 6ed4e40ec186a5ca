-- ===== src/Service/Refusals.antt =====
-- The handlers of assessments and social lines of app.py with the adapter of providers/anthropic.py: which errors
-- leave them.
use mod_playerbot_llm.Prelude.{
  ℕ, ◌≡◌, refl, inl, inr, true, false, ◌||◌, Option, none, some, Result, ok, err, continue,
  Bool-cases,
}
use mod_playerbot_llm.Ledger.{BudgetLedger, SettlementReceipt}
use mod_playerbot_llm.Store.{StoreFault, Store, Tables}
use mod_playerbot_llm.Protocol.{SocialRequest, RoleplayAssessmentRequest, in_uint64, token_fits}
use mod_playerbot_llm.Protocol.Encode.{
  Encoded, RoleplayAssessmentCompletion, encode_roleplay_assessment_response,
}
use mod_playerbot_llm.Protocol.Social.{SocialCallMetadata, encode_social_regeneration}
use mod_playerbot_llm.Protocol.Requests.{Incoming}
use mod_playerbot_llm.Protocol.Requests.Fields.{UnicodeCategories, all_true-All}
use mod_playerbot_llm.Protocol.Requests.Trusted.{parse_incoming_ok}
use mod_playerbot_llm.Protocol.Requests.Social.{parse_social_request}
use mod_playerbot_llm.Protocol.Requests.Background.{
  is_valid_assessment, assessment_tests, parse_roleplay_assessment_request,
}
use mod_playerbot_llm.Provider.{
  GenerationUsage, SocialGenerationResult, Generated, invalid_output_error, generation_error,
  timeout_error, auth_error, rate_limit_error, provider_error,
}
use mod_playerbot_llm.Generation.Sending.{is_encoded}
use mod_playerbot_llm.Adapter.{Toolbox, AnthropicApi, anthropic_provider, generate_social_reply}
use mod_playerbot_llm.Adapter.Ids.{KnowsDigits}
use mod_playerbot_llm.Adapter.Sent.{parse_social_request-IsAnswerable, generate_social_reply-sent}
use mod_playerbot_llm.Service.Calls.{
  Sidecar, Fault, Outside, Outcome, silent, failed, answered, store_result, on_store,
}
use mod_playerbot_llm.Service.Pipelines.{
  SidecarService, respond, with_usage, call_provider, answer_assessment, assessment_call,
  process_roleplay_assessment, answer_social, social_call, speak_stored, respond_social,
  process_social,
}
use mod_playerbot_llm.Service.Honest.{is_refusal, run_call-IsHonest, answered_quiet}

pub continue_quiet :
    {A B : Type 0} (x : Result Fault A × Sidecar) (f : A → Sidecar → Result Fault B × Sidecar)
    → is_refusal x.0 ≡ false
    → ((a : A) (s : Sidecar) → is_refusal (f a s).0 ≡ false)
    → is_refusal (continue x f).0 ≡ false
continue_quiet (ok a, s) f q k = k a s
continue_quiet (err e, s) f q k = q

pub store_quiet :
    {A : Type 0} (s : Sidecar) (x : Result StoreFault A × Tables)
    → is_refusal (store_result s x).0 ≡ false
store_quiet s (ok a, t) = refl
store_quiet s (err e, t) = refl

pub on_store_quiet : {A : Type 0} (m : Store A) (s : Sidecar) → is_refusal (on_store m s).0 ≡ false
on_store_quiet m s = store_quiet s (m s.store)

pub respond_quiet :
    (e : Encoded) (s : Sidecar) → is_encoded e ≡ true → is_refusal (respond e s).0 ≡ false
respond_quiet (ok payload) s h = refl
respond_quiet (err e) s h = cc

with_usage_inj :
    (generated : Generated SocialGenerationResult) (g : SocialGenerationResult)
    (usage : GenerationUsage)
    → with_usage generated ≡ ok (g, usage)
    → generated ≡ ok g
with_usage_inj (ok g') g usage h = cc
with_usage_inj (err e) g usage h = cc

-- The service with its production provider.
abbrev pub with_anthropic : SidecarService → Toolbox → AnthropicApi → SidecarService
with_anthropic svc tools api = record svc { adapter = anthropic_provider tools api }

module _ (base : SidecarService) (tools : Toolbox) (api : AnthropicApi) (out : Outside)
    (book : BudgetLedger) where
  abbrev svc : SidecarService
  svc = with_anthropic base tools api

  assessment_answer_quiet :
      (request : RoleplayAssessmentRequest) (outcome : Outcome RoleplayAssessmentCompletion)
      (s : Sidecar)
      → in_uint64 request.roleplay_assessment_request_token ≡ true
      → token_fits base.token ≡ true
      → is_refusal (answer_assessment svc out book request outcome s).0 ≡ false
  unfolding encode_roleplay_assessment_response
  assessment_answer_quiet request silent s id fits = refl
  assessment_answer_quiet request (failed e) s id fits = refl
  assessment_answer_quiet request (answered completion usage receipt) s id fits =
      respond_quiet _ s (rw id (rw fits refl))

  pub assessment_quiet :
      (incoming : Option (Incoming RoleplayAssessmentRequest)) (request : RoleplayAssessmentRequest)
      (s : Sidecar)
      → parse_roleplay_assessment_request base.token incoming ≡ ok request
      → is_refusal (process_roleplay_assessment svc out book request s).0 ≡ false
  unfolding parse_roleplay_assessment_request is_valid_assessment process_roleplay_assessment
  assessment_quiet incoming request s h =
      let (valid, fits) = parse_incoming_ok is_valid_assessment base.token incoming request h in
      let tests = all_true-All (assessment_tests request) valid in
      answered_quiet (assessment_call svc out book request).generated
        (call_provider svc out book (assessment_call svc out book request) s)
        (answer_assessment svc out book request)
        (run_call-IsHonest svc.config svc.adapter.metadata book out
          (assessment_call svc out book request) s)
        (λ outcome s' own. assessment_answer_quiet request outcome s' tests.0 fits)

  module _ (knows : KnowsDigits base.is_digit) (unicode : UnicodeCategories)
      (incoming : Option (Incoming SocialRequest)) (request : SocialRequest)
      (trusted : parse_social_request unicode base.token incoming ≡ ok request) where
    regeneration_encoded :
        is_encoded (
          encode_social_regeneration request.social_request_token request.bot_guid
            request.speak_on_channel base.token)
        ≡ true
    unfolding encode_social_regeneration
    regeneration_encoded =
        let a = parse_social_request-IsAnswerable unicode base.token incoming request trusted in
        rw (a.request_token, a.bot_guid, a.channel, a.bridge_token) refl

    spoken_quiet :
        (g : SocialGenerationResult) (metadata : Option SocialCallMetadata) (s : Sidecar)
        → generate_social_reply tools request (api.create_social request) ≡ ok g
        → is_refusal (respond_social svc out book request g metadata s).0 ≡ false
    spoken_quiet g none s h = refl
    spoken_quiet g (some metadata) s h = respond_quiet _ s (
        generate_social_reply-sent base.is_digit tools unicode base.token incoming request
          (api.create_social request) g metadata knows trusted h)

    stored_quiet :
        (g : SocialGenerationResult) (usage : GenerationUsage) (stored : Option ℕ) (s : Sidecar)
        → generate_social_reply tools request (api.create_social request) ≡ ok g
        → is_refusal (speak_stored svc out book request g usage stored s).0 ≡ false
    stored_quiet g usage none s h = refl
    stored_quiet g usage (some cost) s h = spoken_quiet g _ s h

    social_answer_quiet :
        (outcome : Outcome SocialGenerationResult) (s : Sidecar)
        → ((g : SocialGenerationResult) (usage : GenerationUsage) (receipt : SettlementReceipt)
            → outcome ≡ answered g usage receipt
            → with_usage (generate_social_reply tools request (api.create_social request))
              ≡ ok (g, usage))
        → is_refusal (answer_social svc out book request outcome s).0 ≡ false
    social_answer_quiet silent s own = refl
    social_answer_quiet (failed (invalid_output_error usage)) s own =
        respond_quiet _ s regeneration_encoded
    social_answer_quiet (failed generation_error) s own = refl
    social_answer_quiet (failed timeout_error) s own = refl
    social_answer_quiet (failed auth_error) s own = refl
    social_answer_quiet (failed rate_limit_error) s own = refl
    social_answer_quiet (failed provider_error) s own = refl
    social_answer_quiet (answered g usage receipt) s own =
        elim (Bool-cases (receipt.breach || receipt.saturated)) [
          | inl unsafe ↦ rw unsafe refl
          | inr sound ↦ rw sound (
              stored_quiet g usage receipt.stored_cost_nano s
                (with_usage_inj _ g usage (own g usage receipt refl)))
        ]

    pub social_quiet : (s : Sidecar) → is_refusal (process_social svc out book request s).0 ≡ false
    unfolding process_social anthropic_provider
    social_quiet s =
        answered_quiet (social_call svc out book request).generated
          (call_provider svc out book (social_call svc out book request) s)
          (answer_social svc out book request)
          (run_call-IsHonest svc.config svc.adapter.metadata book out
            (social_call svc out book request) s)
          (λ outcome s' own. social_answer_quiet outcome s' own)
