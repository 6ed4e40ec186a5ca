-- ===== src/Examples/Bridged.antt =====
-- One assessment on a connection: the frame of the request, and the frame of the answer.
use mod_playerbot_llm.Prelude.{
  ◌≡◌, ◌≢◌, refl, none, some, [], ◌∷◌, Result, ok, err, arith, true, ◌⊎◌,
}
use mod_playerbot_llm.Prelude.Int.{pos, ◌+ℤ◌}
use mod_playerbot_llm.Prelude.Text.{codes}
use mod_playerbot_llm.Budget.Arithmetic.{to_precision, round_half_even, ceil_div}
use mod_playerbot_llm.Budget.{
  validate_daily_ceiling, usd_to_nano, priced, token_cost_nano, conservative_max_cost_nano,
  committed_nano, admit, quantize_storable_nano, storable_actual_cost_nano, circuit_should_open,
}
use mod_playerbot_llm.Schema.{acquire_named_lock, utc_day}
use mod_playerbot_llm.Ledger.Tables.{usd_column, held, sweep, complete, find_spent, upsert_day}
use mod_playerbot_llm.Ledger.{
  mint_public_id, circuit_open, refresh_reserved_usd, lock_day, outstanding_nano, reserve_in_day,
  reserve, charge, settle_in_day, settle,
}
use mod_playerbot_llm.Protocol.{unrecognized_kind, token_fits, byte_length}
use mod_playerbot_llm.Protocol.Encode.{
  Payload, number, text, RoleplayAssessmentCompletion, encode_roleplay_assessment_response,
}
use mod_playerbot_llm.Protocol.Frames.{truncated_header, encode_frame}
use mod_playerbot_llm.Protocol.Requests.{parse_incoming}
use mod_playerbot_llm.Protocol.Requests.Background.{
  is_valid_assessment, parse_roleplay_assessment_request,
}
use mod_playerbot_llm.Provider.{GenerationProvider, max_output_tokens, is_priceable}
use mod_playerbot_llm.Service.Config.{budget_nano, generation_allowed}
use mod_playerbot_llm.Service.Calls.{Sidecar, Fault, protocol_error, actual_cost_nano, run_call}
use mod_playerbot_llm.Service.Pipelines.{SidecarService, Response, process_roleplay_assessment}
use mod_playerbot_llm.Service.Chat.{Request, process_payload}
use mod_playerbot_llm.Service.Bridge.{
  object, text_kind, declared_kind, PayloadReader, parse_payload, Bridge, end_of_stream,
  process_frame, purge_pending, handle_connection, out_of_turns,
}
use mod_playerbot_llm.Service.Bridge.Conversation.{
  no_more, one_more, handle_connection-Answers, handle_connection-ends,
}
use mod_playerbot_llm.Examples.Gated.{shared_token}
use mod_playerbot_llm.Examples.Talked.{unicode, tools}
use mod_playerbot_llm.Adapter.{AnthropicApi, http_timeout}
use mod_playerbot_llm.Protocol.Context.{is_ascii_digit}
use mod_playerbot_llm.Service.Refusals.{with_anthropic}
use mod_playerbot_llm.Service.Bridge.Refused.{is_background, process_payload-refused}
use mod_playerbot_llm.Examples.Prompted.{current}
use mod_playerbot_llm.Examples.Served.{metadata, failing, service, outside, sidecar, usage}

abbrev ordinary : RoleplayAssessmentCompletion
ordinary = record { assessment_kind = codes "ordinary"; capabilities = [] }

abbrev assessor : GenerationProvider
assessor = record failing {
  metadata = record metadata { output_token_limits = (codes "roleplay_assessment", 100) ∷ [] };
  count_roleplay_assessment_input_tokens = λ _. ok (pos 10);
  assess_roleplay = λ _. ok (ordinary, usage);
}

abbrev reader : PayloadReader
reader = record {
  decode = λ _. object (text_kind (codes "roleplay_assessment"));
  chat_fields = λ _. none;
  social_fields = λ _. none;
  biography_fields = λ _. none;
  memory_fields = λ _. none;
  assessment_fields = λ _. some (record { token = shared_token; request = current });
  read_career_content = λ _. none;
  unicode = unicode;
}

abbrev bridge : Bridge
bridge = record {
  service = record service { token = shared_token; adapter = assessor };
  reader = reader;
  outside = λ _. outside;
  dump = λ _. 7 ∷ [];
}

abbrev purged : Sidecar
purged = purge_pending bridge bridge.service.store sidecar

abbrev answer : Payload
answer =
    (codes "schema_version", number 6)
    ∷ (codes "token", text shared_token)
    ∷ (codes "kind", text (codes "roleplay_assessment"))
    ∷ (codes "roleplay_assessment_request_token", number 4)
    ∷ (codes "assessment_kind", text (codes "ordinary"))
    ∷ (codes "capability_count", number 0)
    ∷ []

assessed : (process_frame bridge 0 (123 ∷ []) purged).0 ≡ ok (some answer)
unfolding process_payload parse_payload declared_kind parse_roleplay_assessment_request
    parse_incoming is_valid_assessment token_fits byte_length encode_roleplay_assessment_response
    process_roleplay_assessment generation_allowed budget_nano validate_daily_ceiling usd_to_nano
    run_call max_output_tokens conservative_max_cost_nano token_cost_nano priced to_precision
    ceil_div reserve reserve_in_day mint_public_id utc_day lock_day circuit_open acquire_named_lock
    outstanding_nano upsert_day find_spent sweep usd_column refresh_reserved_usd held admit
    committed_nano quantize_storable_nano ◌+ℤ◌ actual_cost_nano is_priceable settle settle_in_day
    complete charge storable_actual_cost_nano circuit_should_open round_half_even
assessed = refl

paired :
    (r : Result Fault Response × Sidecar) (response : Response)
    → r.0 ≡ ok response
    → r ≡ (ok response, r.1)
paired (result, s) response h = rw h refl

framed_answer : encode_frame (bridge.dump answer) ≡ ok (0 ∷ 0 ∷ 0 ∷ 1 ∷ 7 ∷ [])
unfolding encode_frame
framed_answer = refl

abbrev settled_sidecar : Sidecar
settled_sidecar = (process_frame bridge 0 (123 ∷ []) purged).1

handle_connection-Answers_example :
    handle_connection bridge (0 ∷ 0 ∷ 0 ∷ 1 ∷ 123 ∷ []) sidecar ≡ record {
      ending = end_of_stream truncated_header;
      written = 0 ∷ 0 ∷ 0 ∷ 1 ∷ 7 ∷ [];
      sidecar = settled_sidecar;
    }
handle_connection-Answers_example =
    handle_connection-Answers bridge sidecar settled_sidecar ((123 ∷ []) ∷ [])
      ((0 ∷ 0 ∷ 0 ∷ 1 ∷ 7 ∷ []) ∷ [])
      (one_more 0 purged settled_sidecar settled_sidecar (123 ∷ []) (0 ∷ 0 ∷ 0 ∷ 1 ∷ 7 ∷ []) [] []
        answer (omega arith)
        (paired (process_frame bridge 0 (123 ∷ []) purged) (some answer) assessed) framed_answer
        (no_more 1 settled_sidecar))

handle_connection-ends_example :
    (handle_connection bridge (0 ∷ 0 ∷ 0 ∷ 9 ∷ 123 ∷ []) sidecar).ending ≢ out_of_turns
handle_connection-ends_example = handle_connection-ends bridge (0 ∷ 0 ∷ 0 ∷ 9 ∷ 123 ∷ []) sidecar

abbrev unreachable : AnthropicApi
unreachable = record {
  count_chat = λ _ _. http_timeout;
  create_chat = λ _ _. http_timeout;
  count_social = λ _. http_timeout;
  create_social = λ _. http_timeout;
  count_assessment = λ _. http_timeout;
  create_assessment = λ _. http_timeout;
  count_biography = λ _. http_timeout;
  create_biography = λ _. http_timeout;
  count_memory = λ _. http_timeout;
  create_memory = λ _. http_timeout;
}

abbrev newer_reader : PayloadReader
newer_reader = record reader { decode = λ _. object (text_kind (codes "weather")) }

abbrev digits_service : SidecarService
digits_service = record service { is_digit = is_ascii_digit }

unknown_kind :
    (process_payload
      (with_anthropic digits_service tools unreachable)
      outside
      (parse_payload newer_reader digits_service.token (123 ∷ []))
      sidecar).0
    ≡ err (protocol_error unrecognized_kind)
unfolding process_payload parse_payload declared_kind
unknown_kind = refl

process_payload-refused_example :
    (parse_payload newer_reader digits_service.token (123 ∷ []) ≡ err unrecognized_kind)
    ⊎ ((request : Request) × ((parse_payload newer_reader digits_service.token (123 ∷ [])
            ≡ ok request)
          × (is_background request ≡ true)))
process_payload-refused_example =
    process_payload-refused digits_service tools unreachable outside newer_reader (λ c h. h)
      (123 ∷ []) sidecar unrecognized_kind unknown_kind
