-- ===== src/Examples/Served.antt =====
-- The service's theorems on one question and a provider that answers it, fails, or is not asked.
use mod_playerbot_llm.Prelude.{◌≡◌, ◌≢◌, refl, true, false, none, some, [], ◌∷◌, ok, err, arith}
use mod_playerbot_llm.Prelude.Int.{ℤ, pos, ◌+ℤ◌}
use mod_playerbot_llm.Prelude.Text.{Text, codes}
use mod_playerbot_llm.Budget.Arithmetic.{to_precision, round_half_even, ceil_div, decimal, finite}
use mod_playerbot_llm.Budget.{
  chat_response, immediate_human, validate_daily_ceiling, usd_to_nano, priced, token_cost_nano,
  conservative_max_cost_nano, committed_nano, admit, quantize_storable_nano,
  storable_actual_cost_nano, circuit_should_open,
}
use mod_playerbot_llm.Schema.{acquire_named_lock, utc_day}
use mod_playerbot_llm.Ledger.Tables.{
  Control, usd_column, held, sweep, complete, find_spent, upsert_day,
}
use mod_playerbot_llm.Ledger.{
  SettlementReceipt, mint_public_id, circuit_open, refresh_reserved_usd, lock_day, outstanding_nano,
  reserve_in_day, reserve, charge, settle_in_day, settle,
}
use mod_playerbot_llm.Ledger.Runs.{new_world, start, Reach-IsSound}
use mod_playerbot_llm.Ledger.Funding.{IsUsable}
use mod_playerbot_llm.Protocol.{BiographyRequest}
use mod_playerbot_llm.Protocol.Encode.{Payload}
use mod_playerbot_llm.Provider.{
  max_output_tokens, GenerationProvider, GenerationProviderMetadata, GenerationUsage,
  GenerationError, timeout_error, invalid_output_error, impossible, known, indeterminate,
  billing_status, error_usage, is_priceable,
}
use mod_playerbot_llm.Service.Config.{SidecarConfig, budget_nano}
use mod_playerbot_llm.Service.Calls.{
  Sidecar, Outside, Call, answered, actual_cost_nano, account_for_failure, run_call,
}
use mod_playerbot_llm.Service.Pipelines.{SidecarService}
use mod_playerbot_llm.Service.Chat.{biography, process_payload}
use mod_playerbot_llm.Service.Safety.{IsSafe}
use mod_playerbot_llm.Ledger.Settling.{was_open}
use mod_playerbot_llm.Ledger.Recording.{Recorded, Returned}
use mod_playerbot_llm.Service.Serving.{process_payload-IsSafe}
use mod_playerbot_llm.Service.Silence.{stopped_service}
use mod_playerbot_llm.Service.Accounting.{Settled, run_call_answered}
use mod_playerbot_llm.Service.Failures.{account_for_failure_lem}
use mod_playerbot_llm.Examples.{book, noon, tables, ticket}
use mod_playerbot_llm.Examples.Charges.{tables-IsFunded}
use mod_playerbot_llm.Examples.Stored.{store}

abbrev ask : BiographyRequest
ask = record {
  biography_request_token = 1;
  bot_guid = 7;
  character_name = codes "Ann";
  race_id = 1;
  class_id = 2;
  gender_id = 0;
  bot_level = 10;
  active_expansion = 0;
}

abbrev pub config : SidecarConfig
config = record {
  enable = true;
  bridge_port = pos 7000;
  response_deadline_ms = pos 10000;
  log_model_io = false;
  queue_size = pos 16;
  group_cooldown_seconds = pos 120;
  ambient_world_enable = false;
  ambient_max_messages_per_hour = pos 6;
  daily_budget_usd = decimal (finite false 5 0);
  human_budget_reserve_ratio = decimal (finite false 25 2);
  input_usd_per_mtok = decimal (finite false 1 0);
  output_usd_per_mtok = decimal (finite false 5 0);
}

abbrev pub metadata : GenerationProviderMetadata
metadata = record {
  name = codes "p";
  model = codes "m";
  max_input_tokens = 1000;
  output_token_limits = (codes "chat", 100) ∷ [];
}

abbrev pub failing : GenerationProvider
failing = record {
  metadata = metadata;
  count_input_tokens = λ _ _. err timeout_error;
  generate_reply = λ _ _. err timeout_error;
  count_social_input_tokens = λ _. err timeout_error;
  generate_social_reply = λ _. err timeout_error;
  count_roleplay_assessment_input_tokens = λ _. err timeout_error;
  assess_roleplay = λ _. err timeout_error;
  count_biography_input_tokens = λ _. ok (pos 10);
  generate_biography = λ _. err timeout_error;
  count_memory_input_tokens = λ _. err timeout_error;
  generate_memories = λ _. err timeout_error;
}

abbrev pub service : SidecarService
service = record {
  config = config;
  token = codes "token";
  adapter = failing;
  store = some book;
  parse_career_reply = λ _. none;
  career_version_of = λ _. 1;
  is_digit = λ _. false;
}

abbrev pub outside : Outside
outside = record { now = noon; settled_at = noon; random = codes "a"; latency_ms = 3 }

abbrev pub sidecar : Sidecar
sidecar = record { ledger = (new_world none).db; store = store; generations = 0 }

usable : IsUsable book
usable = (omega arith, omega arith)

sidecar-IsSafe : IsSafe book sidecar
sidecar-IsSafe =
    let sound = Reach-IsSound {book = book} usable (start none) in
    record { is_funded = sound.is_funded; good = sound.good }

ceiling_configured : 5000000000 ≡ budget_nano config
unfolding budget_nano validate_daily_ceiling usd_to_nano to_precision round_half_even
ceiling_configured = refl

process_payload-IsSafe_example :
    IsSafe book (process_payload service outside (ok (biography ask)) sidecar).1
process_payload-IsSafe_example =
    process_payload-IsSafe service outside book (ok (biography ask)) sidecar
      (refl, ceiling_configured) sidecar-IsSafe

abbrev alarm : Control
alarm = record {
  budget_circuit_open = true;
  budget_circuit_reason = codes "cost";
  budget_circuit_opened_at = 5;
}

abbrev stopped_sidecar : Sidecar
stopped_sidecar = record sidecar { ledger = (new_world (some alarm)).db }

stopped_service_example :
    let y = process_payload service outside (ok (biography ask)) stopped_sidecar in
    (y.1.generations ≡ 0) × ((payload : Payload) → y.0 ≢ ok (some payload))
stopped_service_example = stopped_service service outside (ok (biography ask)) stopped_sidecar refl

abbrev pub usage : GenerationUsage
usage = record {
  input_tokens = pos 10;
  output_tokens = pos 5;
  cache_creation_input_tokens = pos 0;
  cache_read_input_tokens = pos 0;
}

abbrev question : Call Text
question = record {
  request_kind = chat_response;
  priority = immediate_human;
  operation = codes "chat";
  input_tokens = ok (pos 10);
  generated = ok (codes "hi", usage);
}

abbrev paid_receipt : SettlementReceipt
paid_receipt = record {
  completed = true;
  stored_cost_nano = some 35000;
  breach = false;
  saturated = false;
}

question_answered :
    (run_call config metadata book outside question sidecar).0
    ≡ ok (answered (codes "hi") usage paid_receipt)
unfolding run_call max_output_tokens conservative_max_cost_nano token_cost_nano priced to_precision
    ceil_div reserve reserve_in_day mint_public_id utc_day lock_day circuit_open acquire_named_lock
    outstanding_nano upsert_day find_spent sweep usd_column refresh_reserved_usd held admit
    committed_nano quantize_storable_nano ◌+ℤ◌ actual_cost_nano is_priceable settle settle_in_day
    complete charge storable_actual_cost_nano circuit_should_open
question_answered = refl

run_call_answered_example :
    Settled config metadata book outside sidecar
      (run_call config metadata book outside question sidecar).1
      question
      (codes "hi")
      usage
      paid_receipt
run_call_answered_example =
    run_call_answered config metadata book outside sidecar question (codes "hi") usage paid_receipt
      usable sidecar-IsSafe.is_funded question_answered

abbrev unusable : GenerationError
unusable = invalid_output_error (some usage)

abbrev holding : Sidecar
holding = record sidecar { ledger = tables }

account_for_failure_lem_example :
    (billing_status unusable ≡ impossible
      → Returned ticket tables (account_for_failure config noon ticket unusable holding).1.ledger)
    × (billing_status unusable ≡ known
        → (usage : GenerationUsage) × (error_usage unusable ≡ some usage)
          × (is_priceable usage ≡ true)
          × ((cost : ℤ)
              → actual_cost_nano usage config.input_usd_per_mtok config.output_usd_per_mtok
                ≡ some cost
              → was_open ticket tables ≡ true
              → Recorded ticket cost tables
                  (account_for_failure config noon ticket unusable holding).1.ledger))
    × (billing_status unusable ≡ indeterminate
        → (account_for_failure config noon ticket unusable holding).1 ≡ holding)
account_for_failure_lem_example =
    account_for_failure_lem config book noon ticket holding usable tables-IsFunded unusable
