-- ===== src/Service/Silence.antt =====
-- Behind an open circuit the provider is not asked and nothing is answered.
use mod_playerbot_llm.Prelude.{
  ℕ, ◌≡◌, ◌≢◌, refl, Bool, true, false, ◌||◌, Option, none, some, List, Result, ok, err, continue,
  Bool-cases, inl, inr, ◌∙◌,
}
use mod_playerbot_llm.Prelude.Int.{ℤ, pos, ltb_ℤ}
use mod_playerbot_llm.Prelude.Text.{Text}
use mod_playerbot_llm.Budget.{AdmissionDecision, admitted}
use mod_playerbot_llm.Ledger.Tables.{Database, LedgerFault, circuit_of}
use mod_playerbot_llm.Ledger.{BudgetLedger, Reservation}
use mod_playerbot_llm.Ledger.Circuit.{reserve_stopped}
use mod_playerbot_llm.Store.{Tables, StoreFault, try_begin_ambient, recent_turns, record_profile}
use mod_playerbot_llm.Protocol.{ProtocolError, ChatRequest, is_ambient, is_career}
use mod_playerbot_llm.Protocol.Encode.{Payload}
use mod_playerbot_llm.Provider.{GenerationProviderMetadata, Generated}
use mod_playerbot_llm.Service.Config.{SidecarConfig, generation_allowed}
use mod_playerbot_llm.Service.Calls.{
  Sidecar, Fault, Act, Outside, Call, Outcome, silent, ledger_result, store_result, on_store,
  on_decision, asked, reserve_call, on_tokens, run_call,
}
use mod_playerbot_llm.Service.Pipelines.{
  SidecarService, Response, process_social, process_biography, process_memory,
  process_roleplay_assessment, answer_assessment, answer_memory, answer_biography, answer_social,
  assessment_call, memory_call, biography_call, social_call,
}
use mod_playerbot_llm.Service.Chat.{
  Request, chat, social, biography, memory, roleplay_assessment, begin_ambient, history_for,
  answer_chat, chat_with_history, chat_profiled, chat_begun, chat_call, process_chat,
  within_deadline, with_state, is_disabled, process_payload, profile_of,
}

-- The provider was not asked, and there is nothing to say.
abbrev IsQuiet : {R : Type 0} → ℕ → Result Fault (Outcome R) × Sidecar → Type 0
IsQuiet {R} g x = (x.1.generations ≡ g) × ((o : Outcome R) → x.0 ≡ ok o → o ≡ silent)

module _ {R : Type 0} (config : SidecarConfig) (metadata : GenerationProviderMetadata)
    (book : BudgetLedger) (out : Outside) where
  decided-IsQuiet :
      (s : Sidecar) (call : Call R)
      (x : Result LedgerFault (AdmissionDecision × Option Reservation) × Database)
      → ((r : Reservation) → x.0 ≢ ok (admitted, some r))
      → IsQuiet s.generations
          (continue (ledger_result s x) (on_decision config metadata book out call))
  decided-IsQuiet s call (err e, db) h = (refl, λ o q. cc)
  decided-IsQuiet s call (ok (admitted, some r), db) h = absurd (h r refl)
  decided-IsQuiet s call (ok (admitted, none), db) h = (refl, λ o q. cc)
  decided-IsQuiet s call (ok (_, r), db) h = (refl, λ o q. cc)

  reserve_call-IsQuiet :
      (s : Sidecar) (call : Call R) (tokens : ℤ) (limit : Option ℕ)
      → circuit_of s.ledger.control ≡ true
      → IsQuiet s.generations (reserve_call config metadata book out call tokens limit s)
  reserve_call-IsQuiet s call tokens none h = (refl, λ o q. cc)
  reserve_call-IsQuiet s call tokens (some limit) h = decided-IsQuiet s call _ (
      (reserve_stopped book (asked config metadata book out call tokens limit) out.random out.now
        s.ledger h).1)

  on_tokens-IsQuiet :
      (s : Sidecar) (call : Call R) (tokens : Generated ℤ)
      → circuit_of s.ledger.control ≡ true
      → IsQuiet s.generations (on_tokens config metadata book out call tokens s)
  on_tokens-IsQuiet s call (err error) h = (refl, λ o q. cc)
  on_tokens-IsQuiet s call (ok tokens) h =
      elim (Bool-cases (ltb_ℤ (pos metadata.max_input_tokens) tokens)) [
        | inl long ↦ rw long (refl, λ o q. cc)
        | inr fits ↦ rw fits (reserve_call-IsQuiet s call tokens _ h)
      ]

  run_call-IsQuiet :
      (s : Sidecar) (call : Call R)
      → circuit_of s.ledger.control ≡ true
      → IsQuiet s.generations (run_call config metadata book out call s)
  unfolding run_call
  run_call-IsQuiet s call h = on_tokens-IsQuiet s call call.input_tokens h

-- The provider was not asked, and no answer is sent.
abbrev IsUnanswered : ℕ → Result Fault Response × Sidecar → Type 0
IsUnanswered g x = (x.1.generations ≡ g) × ((p : Payload) → x.0 ≢ ok (some p))

-- A handler that says nothing to a silent outcome.
quiet-IsUnanswered :
    {R : Type 0} (g : ℕ) (x : Result Fault (Outcome R) × Sidecar)
    (answer : Outcome R → Act Response)
    → ((s : Sidecar) → answer silent s ≡ (ok none, s))
    → IsQuiet g x
    → IsUnanswered g (continue x answer)
quiet-IsUnanswered g (err e, s) answer nothing (same, q) = (same, λ p e. cc)
quiet-IsUnanswered g (ok o, s) answer nothing (same, q) =
    rw (q o refl) (rw (nothing s) (same, λ p e. cc))

-- The circuit is open and the provider was not asked.
abbrev IsStopped : ℕ → Sidecar → Type 0
IsStopped g s = (circuit_of s.ledger.control ≡ true) × (s.generations ≡ g)

store_result-IsStopped :
    {A : Type 0} (g : ℕ) (s : Sidecar) (x : Result StoreFault A × Tables)
    → IsStopped g s
    → IsStopped g (store_result s x).1
store_result-IsStopped g s (ok a, t) h = h
store_result-IsStopped g s (err e, t) h = h

continue-IsUnanswered :
    {A : Type 0} (g : ℕ) (x : Result Fault A × Sidecar) (f : A → Act Response)
    → IsStopped g x.1
    → ((a : A) (s : Sidecar) → IsStopped g s → IsUnanswered g (f a s))
    → IsUnanswered g (continue x f)
continue-IsUnanswered g (ok a, s) f h k = k a s h
continue-IsUnanswered g (err e, s) f h k = (h.1, λ p q. cc)

module _ (svc : SidecarService) (out : Outside) (book : BudgetLedger) (g : ℕ) where
  abbrev quiet_call :
      {R : Type 0} (s : Sidecar) (call : Call R)
      → IsStopped g s
      → IsQuiet g (run_call svc.config svc.adapter.metadata book out call s)
  quiet_call s call (h, e) =
      let (same, q) = run_call-IsQuiet svc.config svc.adapter.metadata book out s call h in
      (same ∙ e, q)

  with_history-IsUnanswered :
      (request : ChatRequest) (history : List (Text × Text)) (s : Sidecar)
      → IsStopped g s
      → IsUnanswered g (chat_with_history svc out book request history s)
  with_history-IsUnanswered request history s h =
      quiet-IsUnanswered g _ (answer_chat svc out book request) (λ t. refl)
        (quiet_call s (chat_call svc out book request history) h)

  history_for-IsStopped :
      (request : ChatRequest) (s : Sidecar)
      → IsStopped g s
      → IsStopped g (history_for svc out book request s).1
  history_for-IsStopped request s h = elim (Bool-cases (is_ambient request || is_career request)) [
    | inl alone ↦ rw alone h
    | inr talking ↦
        rw talking (store_result-IsStopped g s (recent_turns request.bot_guid s.store) h)
  ]

  profiled-IsUnanswered :
      (request : ChatRequest) (s : Sidecar)
      → IsStopped g s
      → IsUnanswered g (chat_profiled svc out book request s)
  profiled-IsUnanswered request s h =
      continue-IsUnanswered g _ (chat_with_history svc out book request)
        (history_for-IsStopped request s h) (with_history-IsUnanswered request)

  chat_begun-IsUnanswered :
      (request : ChatRequest) (begun : Bool) (s : Sidecar)
      → IsStopped g s
      → IsUnanswered g (chat_begun svc out book request begun s)
  chat_begun-IsUnanswered request false s h = (h.1, λ p e. cc)
  chat_begun-IsUnanswered request true s h =
      continue-IsUnanswered g
        (on_store (record_profile request.bot_guid (profile_of request) out.now) s)
        (λ _. chat_profiled svc out book request)
        (store_result-IsStopped g s
          (record_profile request.bot_guid (profile_of request) out.now s.store) h)
        (λ _. profiled-IsUnanswered request)

  begin_ambient-IsStopped :
      (request : ChatRequest) (s : Sidecar)
      → IsStopped g s
      → IsStopped g (begin_ambient svc out book request s).1
  begin_ambient-IsStopped request s h = elim (Bool-cases (is_ambient request)) [
    | inl calling ↦ rw calling (
        store_result-IsStopped g s
          (try_begin_ambient svc.config.ambient_max_messages_per_hour out.now s.store) h)
    | inr direct ↦ rw direct h
  ]

  within_deadline-IsUnanswered :
      (request : Request) (s : Sidecar)
      → IsStopped g s
      → IsUnanswered g (within_deadline svc out book request s)
  unfolding process_chat process_social process_biography process_memory process_roleplay_assessment
  within_deadline-IsUnanswered (chat request) s h =
      continue-IsUnanswered g _ (chat_begun svc out book request)
        (begin_ambient-IsStopped request s h) (chat_begun-IsUnanswered request)
  within_deadline-IsUnanswered (social request) s h =
      quiet-IsUnanswered g _ (answer_social svc out book request) (λ t. refl)
        (quiet_call s (social_call svc out book request) h)
  within_deadline-IsUnanswered (biography request) s h =
      quiet-IsUnanswered g _ (answer_biography svc out book request) (λ t. refl)
        (quiet_call s (biography_call svc out book request) h)
  within_deadline-IsUnanswered (memory request) s h =
      quiet-IsUnanswered g _ (answer_memory svc out book request) (λ t. refl)
        (quiet_call s (memory_call svc out book request) h)
  within_deadline-IsUnanswered (roleplay_assessment request) s h =
      quiet-IsUnanswered g _ (answer_assessment svc out book request) (λ t. refl)
        (quiet_call s (assessment_call svc out book request) h)

with_state-IsUnanswered :
    (svc : SidecarService) (out : Outside) (o : Option BudgetLedger) (request : Request) (g : ℕ)
    (s : Sidecar)
    → IsStopped g s
    → IsUnanswered g (with_state svc out o request s)
with_state-IsUnanswered svc out none request g s h = (h.1, λ p e. cc)
with_state-IsUnanswered svc out (some book) request g s h =
    within_deadline-IsUnanswered svc out book g request s h

-- Once a settlement has opened the circuit, no request of any kind reaches the provider's generation, and
-- none is answered.
pub stopped_service :
    (svc : SidecarService) (out : Outside) (parsed : Result ProtocolError Request) (s : Sidecar)
    → circuit_of s.ledger.control ≡ true
    → ((process_payload svc out parsed s).1.generations ≡ s.generations)
      × ((payload : Payload) → (process_payload svc out parsed s).0 ≢ ok (some payload))
unfolding process_payload
stopped_service svc out (err e) s h = (refl, λ p q. cc)
stopped_service svc out (ok request) s h = elim (Bool-cases (generation_allowed svc.config)) [
  | inr off ↦ rw off (refl, λ p q. cc)
  | inl allowed ↦ rw allowed (elim (Bool-cases (is_disabled svc out request)) [
    | inl quiet ↦ rw quiet (refl, λ p q. cc)
    | inr wanted ↦
        rw wanted (with_state-IsUnanswered svc out svc.store request s.generations s (h, refl))
  ])
]
