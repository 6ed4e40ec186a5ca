-- ===== src/Adapter/Trace.antt =====
-- The model-IO diagnostic of providers/anthropic.py: `_trace_request`, `_trace_response` and the order in which
-- `_generate_structured` calls them. The JSON text of an entry is the standard library's.
use mod_playerbot_llm.Prelude.{
  ℕ, ◌≡◌, refl, Bool, true, false, not, List, [], ◌∷◌, ◌++◌, length, if◌then◌else◌,
}
use mod_playerbot_llm.Prelude.Text.{Text, codes, text_eq}
use mod_playerbot_llm.Protocol.{MemoryRequest}
use mod_playerbot_llm.Protocol.Encode.{MemoryCandidate}
use mod_playerbot_llm.Adapter.{
  Called, returned, api_failed, http_timeout, Message, default_output_tokens,
}

pub record Prompt : Type 0 where
  pub system : Text
  pub messages : List (Text × Text)
  pub output_schema : Text

pub data TraceEntry (R : Type 0) : Type 0 where
  redacted_request : Text → ℕ → ℕ → ℕ → TraceEntry R
  full_request : Text → ℕ → ℕ → Prompt → TraceEntry R
  redacted_response : Text → ℕ → TraceEntry R
  full_response : Text → ℕ → Message R → TraceEntry R

module _ {R : Type 0} (logged : Bool) (kind : Text) (correlation_id : ℕ) where
  abbrev pub trace_request : Prompt → ℕ → Bool → List (TraceEntry R)
  trace_request prompt limit trace_content =
      if not logged
      then []
      else if not trace_content
      then redacted_request kind correlation_id limit (length prompt.messages) ∷ []
      else full_request kind correlation_id limit prompt ∷ []

  abbrev pub trace_response : Message R → Bool → List (TraceEntry R)
  trace_response message trace_content =
      if not logged
      then []
      else if not trace_content
      then redacted_response kind correlation_id ∷ []
      else full_response kind correlation_id message ∷ []

  -- The response is traced once the call returned, before its text is parsed.
  abbrev pub trace_called : Called (Message R) → Bool → List (TraceEntry R)
  trace_called (returned message) trace_content = trace_response message trace_content
  trace_called (api_failed error) trace_content = []
  trace_called http_timeout trace_content = []

  unfoldable pub trace_structured : Prompt → ℕ → Bool → Called (Message R) → List (TraceEntry R)
  trace_structured prompt limit trace_content called =
      trace_request prompt limit trace_content ++ trace_called called trace_content

-- What `generate_memories` leaves in the log.
unfoldable pub trace_memories :
    Bool
    → MemoryRequest
    → Prompt
    → Called (Message (List MemoryCandidate))
    → List (TraceEntry (List MemoryCandidate))
trace_memories logged request prompt called =
    trace_structured logged (codes "memory") request.memory_request_token prompt
      default_output_tokens (not (text_eq request.scope (codes "whisper"))) called

-- The log of a whispered conversation says nothing of what was said: two extractions of the same request leave
-- the same entries, whatever their prompts of equally many messages and their replies contain.
pub trace_memories-private :
    (logged : Bool) (request : MemoryRequest) (prompt prompt' : Prompt)
    (reply reply' : Message (List MemoryCandidate))
    → text_eq request.scope (codes "whisper") ≡ true
    → length prompt.messages ≡ length prompt'.messages
    → trace_memories logged request prompt (returned reply)
      ≡ trace_memories logged request prompt' (returned reply')
unfolding trace_memories trace_structured
trace_memories-private false request prompt prompt' reply reply' whispered same = refl
trace_memories-private true request prompt prompt' reply reply' whispered same =
    rw whispered (rw same refl)
