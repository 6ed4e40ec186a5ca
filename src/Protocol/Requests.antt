-- ===== src/Protocol/Requests.antt =====
-- The parsers of protocol.py: what a payload must be to become a request. Decoding, JSON and the types of the
-- fields are libraries: what they read of a payload is an argument, and the models' own bounds are checked here.
pub mod Background
pub mod Chat
pub mod Fields
pub mod Social
pub mod Trusted
use mod_playerbot_llm.Prelude.{Bool, true, not, ◌&&◌, Option, none, some, Result, ok, err}
use mod_playerbot_llm.Prelude.Text.{Text, text_eq}
use mod_playerbot_llm.Protocol.{ProtocolError, malformed, token_mismatch, token_fits, refuse}

-- A request as it was read, with the token it came with.
pub record Incoming (A : Type 0) : Type 0 where
  pub token : Text
  pub request : A

module _ {A : Type 0} (is_valid : A → Bool) (expected_token : Text) where
  -- What the five parsers have in common: the model's validation, then the comparison of the tokens.
  unfoldable pub parse_incoming : Option (Incoming A) → Result ProtocolError A
  parse_incoming none = err malformed
  parse_incoming (some incoming) =
      refuse (not (token_fits incoming.token && is_valid incoming.request)) malformed
        (refuse (not (text_eq incoming.token expected_token)) token_mismatch (ok incoming.request))
