-- ===== src/Adapter/Sent.antt =====
-- Every social reply that the adapter returns can be sent by the encoder of protocol.py.
use mod_playerbot_llm.Prelude.{
  ℕ, ◌≡◌, refl, Bool, true, false, not, ◌&&◌, List, [], all, ok, err, arith, ltb, Option, ok_inj,
}
use mod_playerbot_llm.Prelude.Text.{Text}
use mod_playerbot_llm.Protocol.{SocialRequest, is_empty, is_blank, in_uint64, token_fits}
use mod_playerbot_llm.Protocol.Encode.{Encoded}
use mod_playerbot_llm.Protocol.Context.{SocialMemory, is_valid_memory}
use mod_playerbot_llm.Protocol.Social.{
  SocialCallMetadata, Proposal, is_coherent, check_answer, encode_social_response,
}
use mod_playerbot_llm.Protocol.Requests.{Incoming}
use mod_playerbot_llm.Protocol.Requests.Fields.{
  UnicodeCategories, all_true-All, social_channel_count,
}
use mod_playerbot_llm.Protocol.Requests.Social.{
  is_valid_evidence, is_valid_social, social_tests, parse_social_request,
}
use mod_playerbot_llm.Protocol.Requests.Trusted.{&&_true, parse_incoming_ok}
use mod_playerbot_llm.Provider.{SocialGenerationResult, GenerationUsage, Generated}
use mod_playerbot_llm.Generation.{Gate}
use mod_playerbot_llm.Generation.Words.{TextLibrary, ForbiddenTexts}
use mod_playerbot_llm.Generation.Citations.{
  SocialReply, ResponseKind, message_kind, emote_kind, silence_kind,
}
use mod_playerbot_llm.Generation.Gestures.{IsGesture}
use mod_playerbot_llm.Generation.Speech.{IsSpeakable}
use mod_playerbot_llm.Generation.Grounding.{IsSupported}
use mod_playerbot_llm.Generation.Replies.{
  SocialPatterns, is_one_coherent_answer, coherent_kind, cites_no_one, is_gesture_kind,
  is_no_contribution, validate_social_reply,
}
use mod_playerbot_llm.Generation.Answered.{
  Answered, kept_silent, gestured, spoke, validate_social_reply-Answered,
}
use mod_playerbot_llm.Generation.Sending.{is_encoded}
use mod_playerbot_llm.Adapter.{
  proposal_of, Toolbox, Called, Message, social_output, social_result, as_social_result,
  offered_memories, generate_social_reply,
}
use mod_playerbot_llm.Adapter.Accepted.{Passed, generated-Passed}
use mod_playerbot_llm.Adapter.Ids.{KnowsDigits, all_owned, all_heard, parsed_memories}
use mod_playerbot_llm.Adapter.Named.{none_named, gesture_named, spoken_named, nothing_claimed}
use mod_playerbot_llm.Adapter.Spoken.{
  IsCitable, IsReady, coherent-IsReady, uncited-IsCitable, check_proposal_ok,
}

-- What a parsed social request says of the numbers and the evidence that its answer repeats.
pub record IsAnswerable (token : Text) (request : SocialRequest) : Type 0 where
  pub request_token : in_uint64 request.social_request_token ≡ true
  pub bot_guid : in_uint64 request.bot_guid ≡ true
  pub channel : ltb 255 request.speak_on_channel ≡ false
  pub bridge_token : token_fits token ≡ true
  pub evidence : all is_valid_evidence request.evidence ≡ true

small_channel : (channel : ℕ) → ltb channel social_channel_count ≡ true → ltb 255 channel ≡ false
small_channel channel h = ground arith

pub parse_social_request-IsAnswerable :
    (unicode : UnicodeCategories) (token : Text) (incoming : Option (Incoming SocialRequest))
    (request : SocialRequest)
    → parse_social_request unicode token incoming ≡ ok request
    → IsAnswerable token request
unfolding parse_social_request is_valid_social
parse_social_request-IsAnswerable unicode token incoming request h =
    let (valid, fits) = parse_incoming_ok (is_valid_social unicode) token incoming request h in
    let tests = all_true-All (social_tests unicode request) valid in
    record {
      request_token = tests.0;
      bot_guid = tests.1.0;
      channel = small_channel request.speak_on_channel tests.1.1.1.1.1.1.1.1.0;
      bridge_token = fits;
      evidence = tests.1.1.1.1.1.1.1.1.1.1.1.1.0;
    }

module _ (is_digit : ℕ → Bool) (knows : KnowsDigits is_digit) (lib : TextLibrary)
    (forbidden : ForbiddenTexts) (patterns : SocialPatterns) (token : Text)
    (request : SocialRequest) (metadata : SocialCallMetadata) (a : IsAnswerable token request) where
  abbrev sent : SocialReply → Text → ℕ → Encoded
  sent reply message emote_id =
      encode_social_response is_digit request.social_request_token request.bot_guid
        request.speak_on_channel message token emote_id metadata (proposal_of reply)

  supported-IsCitable :
      (memories : List SocialMemory) (reply : SocialReply)
      → all is_valid_memory memories ≡ true
      → IsReady is_digit reply
      → IsSupported memories reply request
      → IsCitable is_digit reply
  supported-IsCitable memories reply valid r s = record {
    few = r.few;
    once = r.once;
    few_memories = r.few_memories;
    once_each = r.once_each;
    ids =
        all_owned is_digit knows reply.claim_subject reply.cited_evidence_ids request.evidence
          a.evidence s.owned;
    memory_ids =
        all_heard is_digit knows request.speak_on_channel reply.cited_memory_ids memories valid
          s.heard;
  }

  -- The encoder passes what is in range and carries a proposal that can be cited and is coherent.
  sent_after :
      (reply : SocialReply) (message : Text) (emote_id : ℕ)
      → ((rest : Encoded) → check_answer request.speak_on_channel emote_id message rest ≡ rest)
      → IsCitable is_digit reply
      → is_coherent emote_id message (proposal_of reply) ≡ true
      → is_encoded (sent reply message emote_id) ≡ true
  unfolding encode_social_response
  sent_after reply message emote_id shown citable coherent = rw a.request_token (
      rw a.bot_guid (
        rw a.channel (
          rw a.bridge_token (
            rw (shown _)
              (rw (check_proposal_ok is_digit emote_id message reply _ citable coherent) refl)))))

  silence_sent :
      (reply : SocialReply)
      → IsReady is_digit reply
      → coherent_kind silence_kind reply ≡ true
      → is_encoded (sent reply [] 0) ≡ true
  silence_sent reply r kind =
      let (shown, uncited) =
        &&_true
          (is_blank reply.message
            && (is_empty reply.emote && is_no_contribution reply.contribution))
          (cites_no_one reply) kind in
      let (_, rest) = &&_true (is_blank reply.message) _ shown in
      let (_, none) = &&_true (is_empty reply.emote) _ rest in
      sent_after reply [] 0 (λ rest. refl) (uncited-IsCitable is_digit reply r uncited)
        (rw (none_named reply.contribution none) (nothing_claimed reply uncited))

  gesture_sent :
      (reply : SocialReply) (emote_id : ℕ)
      → IsReady is_digit reply
      → coherent_kind emote_kind reply ≡ true
      → IsGesture reply.emote request.speak_on_channel emote_id
      → is_encoded (sent reply [] emote_id) ≡ true
  gesture_sent reply emote_id r kind g =
      let (shown, uncited) =
        &&_true
          (is_blank reply.message
            && (not (is_empty reply.emote) && is_gesture_kind reply.contribution))
          (cites_no_one reply) kind in
      let (_, rest) = &&_true (is_blank reply.message) _ shown in
      let (_, gesture) = &&_true (not (is_empty reply.emote)) _ rest in
      sent_after reply [] emote_id (λ rest. rw g.nonzero (rw g.known (rw g.seen refl)))
        (uncited-IsCitable is_digit reply r uncited)
        (rw g.nonzero
          (rw (gesture_named reply.contribution gesture) (nothing_claimed reply uncited)))

  line_sent :
      (reply : SocialReply) (line : Text)
      → IsCitable is_digit reply
      → coherent_kind message_kind reply ≡ true
      → IsSpeakable lib forbidden request line
      → is_encoded (sent reply line 0) ≡ true
  line_sent reply line citable kind s =
      let (_, spoken) =
        &&_true (not (is_blank reply.message) && is_empty reply.emote)
          (not (is_gesture_kind reply.contribution) && not (is_no_contribution reply.contribution))
          kind in
      sent_after reply line 0 (λ rest. rw s.something (rw s.short (rw s.one_line refl))) citable
        (rw s.something (spoken_named reply.contribution spoken))

  gated_reply_sent :
      (memories : List SocialMemory) (reply : SocialReply) (kind : ResponseKind) (line : Text)
      (emote_id : ℕ)
      → all is_valid_memory memories ≡ true
      → IsReady is_digit reply
      → coherent_kind kind reply ≡ true
      → Answered lib forbidden patterns request memories reply kind line emote_id
      → is_encoded (sent reply line emote_id) ≡ true
  gated_reply_sent memories reply _ _ _ valid r kind kept_silent = silence_sent reply r kind
  gated_reply_sent memories reply _ _ _ valid r kind (gestured emote_id supported gesture) =
      gesture_sent reply emote_id r kind gesture
  gated_reply_sent memories reply _ _ _ valid r kind (spoke line supported stripped speakable) =
      line_sent reply line (supported-IsCitable memories reply valid r supported) kind speakable

-- The reply behind a social result, with what it passed.
pub record IsResult (tools : Toolbox) (request : SocialRequest) (result : SocialGenerationResult)
    : Type 0 where
  pub reply : SocialReply
  pub coherent : is_one_coherent_answer reply ≡ true
  pub proposal : result.proposal ≡ proposal_of reply
  pub passed :
      validate_social_reply tools.lib tools.forbidden tools.patterns
        (offered_memories tools request)
        reply
        request
      ≡ ok (result.message, result.emote_id)

social_result_ok :
    (tools : Toolbox) (reply : SocialReply) (gate : Gate (Text × ℕ)) (message : Text) (emote_id : ℕ)
    (proposal : Proposal)
    → social_result tools reply gate ≡ ok (message, emote_id, proposal)
    → (gate ≡ ok (message, emote_id)) × (proposal ≡ proposal_of reply)
social_result_ok tools reply (ok (message', emote_id')) message emote_id proposal h = (cc, cc)
social_result_ok tools reply (err category) message emote_id proposal h = cc

as_social_result-IsResult :
    (tools : Toolbox) (request : SocialRequest) (result : SocialGenerationResult)
    (output : Generated ((Text × ℕ × Proposal) × GenerationUsage))
    → ((accepted : Text × ℕ × Proposal) (usage : GenerationUsage)
        → output ≡ ok (accepted, usage)
        → Passed (social_output tools request) is_one_coherent_answer accepted)
    → as_social_result tools output ≡ ok result
    → IsResult tools request result
as_social_result-IsResult tools request result (ok ((message, emote_id, proposal), usage)) passes
      h =
    let p = passes (message, emote_id, proposal) usage refl in
    let shape = ok_inj h in
    let (gate, same) = social_result_ok tools p.reply _ message emote_id proposal p.passed in
    let found : IsResult tools request
        (record { message = message; emote_id = emote_id; proposal = proposal; usage = usage }) =
      record { reply = p.reply; coherent = p.valid; proposal = same; passed = gate } in
    rw (← shape) found
as_social_result-IsResult tools request result (err error) passes h = cc

pub generate_social_reply-IsResult :
    (tools : Toolbox) (request : SocialRequest) (completion : Called (Message SocialReply))
    (result : SocialGenerationResult)
    → generate_social_reply tools request completion ≡ ok result
    → IsResult tools request result
unfolding generate_social_reply
generate_social_reply-IsResult tools request completion result h =
    as_social_result-IsResult tools request result _
      (λ accepted usage e.
        generated-Passed (social_output tools request) is_one_coherent_answer completion accepted
          usage e)
      h

-- Whatever the model wrote, a social result that the adapter returns for a parsed request is one the encoder
-- sends: a line, a gesture or a silence that passed the gate never ends in an error of the protocol.
pub generate_social_reply-sent :
    (is_digit : ℕ → Bool) (tools : Toolbox) (unicode : UnicodeCategories) (token : Text)
    (incoming : Option (Incoming SocialRequest)) (request : SocialRequest)
    (completion : Called (Message SocialReply)) (result : SocialGenerationResult)
    (metadata : SocialCallMetadata)
    → KnowsDigits is_digit
    → parse_social_request unicode token incoming ≡ ok request
    → generate_social_reply tools request completion ≡ ok result
    → is_encoded (
        encode_social_response is_digit request.social_request_token request.bot_guid
          request.speak_on_channel result.message token result.emote_id metadata result.proposal)
      ≡ true
generate_social_reply-sent is_digit tools unicode token incoming request completion result metadata
      knows trusted h =
    let a = parse_social_request-IsAnswerable unicode token incoming request trusted in
    let r = generate_social_reply-IsResult tools request completion result h in
    let ready = coherent-IsReady is_digit r.reply r.coherent in
    let memories =
      parsed_memories tools.fictional_identity_countries tools.read_social_context
        request.context in
    let answered =
      validate_social_reply-Answered tools.lib tools.forbidden tools.patterns request
        (offered_memories tools request) r.reply result.message result.emote_id r.passed in
    rw r.proposal (
      gated_reply_sent is_digit knows tools.lib tools.forbidden tools.patterns token request
        metadata a (offered_memories tools request) r.reply r.reply.response_kind result.message
        result.emote_id memories ready ready.kind answered)
