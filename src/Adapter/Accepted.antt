-- ===== src/Adapter/Accepted.antt =====
-- What an adapter call that succeeds says about the reply it returns.
use mod_playerbot_llm.Prelude.{
  ◌≡◌, refl, Bool, true, false, Option, none, some, List, any, ok, err, ltb, Bool-cases, inl, inr,
  ok_inj,
}
use mod_playerbot_llm.Prelude.Text.{Text}
use mod_playerbot_llm.Protocol.{
  ChatRequest, is_career, is_empty, is_control, byte_length, max_response_message_bytes, in_uint64,
  token_fits,
}
use mod_playerbot_llm.Protocol.Encode.{encode_response}
use mod_playerbot_llm.Provider.{GenerationUsage, is_priceable}
use mod_playerbot_llm.Generation.{Gate}
use mod_playerbot_llm.Generation.Memory.{strip}
use mod_playerbot_llm.Generation.Career.{CareerReply, CareerCandidate, validate_career_reply}
use mod_playerbot_llm.Generation.Gates.{refuse_ok}
use mod_playerbot_llm.Generation.Sending.{is_encoded}
use mod_playerbot_llm.Protocol.Requests.Chat.{parse_career_content}
use mod_playerbot_llm.Adapter.{
  Called, returned, api_failed, http_timeout, ParsedOutput, schema_violation, absent, other_model,
  parsed, Message, totals, conform, with_totals, priced_output, generated, any_reply, check_message,
  ChatOutput, chat_reply, career_reply, Toolbox, choose, choice_message, chat_message,
  generate_reply,
}

module _ {R S : Type 0} (validate : R → Gate S) (is_valid : R → Bool) where
  -- The reply that the validators and the gate accepted.
  pub record Passed (accepted : S) : Type 0 where
    pub reply : R
    pub valid : is_valid reply ≡ true
    pub passed : validate reply ≡ ok accepted

  with_totals-passed :
      (usage usage' : GenerationUsage) (gate : Gate S) (accepted : S)
      → with_totals validate usage gate ≡ ok (accepted, usage')
      → gate ≡ ok accepted
  with_totals-passed usage usage' (ok s) accepted h = cc
  with_totals-passed usage usage' (err category) accepted h = cc

  priced-Passed :
      (usage usage' : GenerationUsage) (output : ParsedOutput R) (accepted : S)
      → priced_output validate usage (conform is_valid output) ≡ ok (accepted, usage')
      → Passed accepted
  priced-Passed usage usage' schema_violation accepted h = cc
  priced-Passed usage usage' absent accepted h = elim (Bool-cases (is_priceable usage)) [
    | inl p ↦ let h' = rw p at h in cc
    | inr p ↦ let h' = rw p at h in cc
  ]
  priced-Passed usage usage' other_model accepted h = elim (Bool-cases (is_priceable usage)) [
    | inl p ↦ let h' = rw p at h in cc
    | inr p ↦ let h' = rw p at h in cc
  ]
  priced-Passed usage usage' (parsed reply) accepted h = elim (Bool-cases (is_valid reply)) [
    | inr v ↦ let h' = rw v at h in cc
    | inl v ↦
        let h' = rw v at h in
        elim (Bool-cases (is_priceable usage)) [
          | inr p ↦ let h'' = rw p at h' in cc
          | inl p ↦
              let h'' = rw p at h' in
              record {
                reply = reply;
                valid = v;
                passed = with_totals-passed usage usage' (validate reply) accepted h'';
              }
        ]
  ]

  pub generated-Passed :
      (completion : Called (Message R)) (accepted : S) (usage : GenerationUsage)
      → generated validate is_valid completion ≡ ok (accepted, usage)
      → Passed accepted
  unfolding generated
  generated-Passed (returned m) accepted usage h =
      priced-Passed (totals m) usage m.parsed_output accepted h
  generated-Passed (api_failed error) accepted usage h = cc
  generated-Passed http_timeout accepted usage h = cc

-- A message that the checks at the end of `generate_reply` let through.
pub record IsMessage (message : Text) : Type 0 where
  pub something : is_empty message ≡ false
  pub one_line : any is_control message ≡ false
  pub short : ltb max_response_message_bytes (byte_length message) ≡ false

check_message-IsMessage :
    (text message : Text) → check_message text ≡ ok message → IsMessage message
unfolding check_message
check_message-IsMessage text message h =
    let (something, h1) = refuse_ok _ _ _ message h in
    let (one_line, h2) = refuse_ok _ _ _ message h1 in
    let (short, h3) = refuse_ok _ _ _ message h2 in
    let same : text ≡ message = ok_inj h3 in
    rw (← same) (record { something = something; one_line = one_line; short = short })

module _ (tools : Toolbox) where
  choice-IsMessage :
      (choice : Gate CareerReply) (message : Text)
      → choice_message tools choice ≡ ok message
      → IsMessage message
  choice-IsMessage (ok reply) message h =
      check_message-IsMessage (tools.dump_choice reply) message h
  choice-IsMessage (err category) message h = cc

  choose-IsMessage :
      (reply : CareerReply) (candidates : Option (List CareerCandidate)) (message : Text)
      → choose tools reply candidates ≡ ok message
      → IsMessage message
  choose-IsMessage reply none message h = cc
  choose-IsMessage reply (some candidates) message h =
      choice-IsMessage (validate_career_reply candidates reply) message h

  chat-IsMessage :
      (request : ChatRequest) (career : Bool) (output : ChatOutput) (message : Text)
      → chat_message tools request career output ≡ ok message
      → IsMessage message
  chat-IsMessage request true (chat_reply text) message h = cc
  chat-IsMessage request true (career_reply reply) message h =
      choose-IsMessage reply (parse_career_content tools.read_career_content request.message)
        message h
  chat-IsMessage request false (chat_reply text) message h =
      check_message-IsMessage (strip text) message h
  chat-IsMessage request false (career_reply reply) message h = cc

  -- A chat reply or career choice that the adapter returns is always one that can be sent.
  pub generate_reply-sent :
      (request : ChatRequest) (completion : Called (Message ChatOutput)) (message token : Text)
      (usage : GenerationUsage)
      → in_uint64 request.request_id ≡ true
      → token_fits token ≡ true
      → generate_reply tools request completion ≡ ok (message, usage)
      → is_encoded (encode_response request.request_id message token) ≡ true
  unfolding generate_reply encode_response
  generate_reply-sent request completion message token usage id fits h =
      let p =
        generated-Passed (chat_message tools request (is_career request)) any_reply completion
          message usage h in
      let m = chat-IsMessage request (is_career request) p.reply message p.passed in
      rw id (rw fits (rw m.something (rw m.short (rw m.one_line refl))))
