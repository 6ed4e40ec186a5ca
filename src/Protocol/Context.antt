-- ===== src/Protocol/Context.antt =====
-- `SocialContext` of protocol.py: what the worldserver assembled for one social line, and the memories that a
-- channel may draw on.
use mod_playerbot_llm.Prelude.{
  ℕ, zero, suc, Bool, true, false, not, ◌&&◌, ◌||◌, Option, none, some, List, [], ◌∷◌, all, length,
  leb, ◌==◌, if◌then◌else◌,
}
use mod_playerbot_llm.Prelude.Text.{Text, codes, text_eq}
use mod_playerbot_llm.Protocol.Requests.Fields.{all_true}
use mod_playerbot_llm.Protocol.{
  is_empty, one_of, distinct, max_social_context_entries, max_social_context_entry_bytes,
}

pub data MemoryScope : Type 0 where
  public_scope party_scope whisper_scope : MemoryScope

-- The index of a scope in `SOCIAL_MEMORY_SCOPES`.
unfoldable pub scope_index : MemoryScope → ℕ
scope_index public_scope = 0
scope_index party_scope = 1
scope_index whisper_scope = 2

-- General and say, a party, a whisper.
abbrev pub social_channel_memory_scope : List ℕ
social_channel_memory_scope = 0 ∷ 0 ∷ 1 ∷ 2 ∷ []

abbrev entry_at : List ℕ → ℕ → Option ℕ
entry_at [] n = none
entry_at (x ∷ xs) zero = some x
entry_at (x ∷ xs) (suc n) = entry_at xs n

-- The scope of a channel, when there is such a channel.
unfoldable pub channel_memory_scope : ℕ → Option ℕ
channel_memory_scope channel = entry_at social_channel_memory_scope channel

pub record SocialMemory : Type 0 where
  pub id : Text
  pub text : Text
  pub scope : MemoryScope

unfoldable pub memories_allowed : List SocialMemory → ℕ → List SocialMemory
memories_allowed [] allowed = []
memories_allowed (m ∷ ms) allowed =
    let rest = memories_allowed ms allowed in
    if leb (scope_index m.scope) allowed then m ∷ rest else rest

abbrev pub memories_up_to : List SocialMemory → Option ℕ → List SocialMemory
memories_up_to memories none = []
memories_up_to memories (some allowed) = memories_allowed memories allowed

unfoldable pub memories_within : List SocialMemory → ℕ → List SocialMemory
memories_within memories channel = memories_up_to memories (channel_memory_scope channel)

-- One of `ROLEPLAY_PROMPT_MODES`, by its name.
pub record SocialContext : Type 0 where
  pub prompt_mode : Text
  pub active_expansion : ℕ
  pub persona : Text
  pub fictional_identity_request : Option Text
  pub fictional_age : Option ℕ
  pub fictional_home_country : Option Text
  pub relationship : Text
  pub starter : Text
  pub nearby : List Text
  pub thread : List Text
  pub memories : List SocialMemory

abbrev pub roleplay_prompt_modes : List Text
roleplay_prompt_modes =
    codes "ordinary"
    ∷ codes "decline_roleplay"
    ∷ codes "acknowledge_roleplay"
    ∷ codes "authorized_roleplay"
    ∷ []

abbrev pub is_given {ℓ} : {A : Type ℓ} → Option A → Bool
is_given none = false
is_given (some a) = true

-- `authorized_roleplay_carries_no_fictional_identity`
abbrev pub keeps_premise : SocialContext → Bool
keeps_premise c = not (
    text_eq c.prompt_mode (codes "authorized_roleplay")
    && (is_given c.fictional_identity_request
        || (is_given c.fictional_age || is_given c.fictional_home_country)))

abbrev pub allows : List Text → Option Text → Bool
allows requests none = false
allows requests (some request) = one_of requests request

abbrev pub at_most : ℕ → Text → Bool
at_most limit value = leb (length value) limit

abbrev pub age_in_range : Option ℕ → Bool
age_in_range none = true
age_in_range (some age) = leb 18 age && leb age 65

abbrev pub country_fits : Option Text → Bool
country_fits none = true
country_fits (some country) = not (is_empty country) && leb (length country) 32

abbrev pub marker_known : Option Text → Bool
marker_known none = true
marker_known (some marker) =
    one_of (codes "age" ∷ codes "home_country" ∷ codes "age_and_home_country" ∷ []) marker

abbrev pub is_ascii_digit : ℕ → Bool
is_ascii_digit c = leb 48 c && leb c 57

-- The prefix, then a digit other than zero, then digits.
abbrev pub is_counted_id : ℕ → Text → Bool
is_counted_id prefix [] = false
is_counted_id prefix (p ∷ []) = false
is_counted_id prefix (p ∷ d ∷ ds) = p == prefix && (leb 49 d && (leb d 57 && all is_ascii_digit ds))

-- The constraints on the fields of a `SocialMemory`.
abbrev pub is_valid_memory : SocialMemory → Bool
is_valid_memory m =
    is_counted_id 109 m.id
    && (not (is_empty m.text) && leb (length m.text) max_social_context_entry_bytes)

abbrev pub memory_ids : List SocialMemory → List Text
memory_ids [] = []
memory_ids (m ∷ ms) = m.id ∷ memory_ids ms

-- The approved roster is data of the file, an argument here.
module _ (fictional_identity_countries : List Text) where
  abbrev pub country_allowed : Option Text → Option Text → Bool
  country_allowed request none = true
  country_allowed request (some country) =
      allows (codes "home_country" ∷ codes "age_and_home_country" ∷ []) request
      && one_of fictional_identity_countries country

  -- `fictional_identity_is_coherent`; a fact without a request marker is refused by either test.
  abbrev pub identity_coherent : SocialContext → Bool
  identity_coherent c =
      (not (is_given c.fictional_age)
        || allows (codes "age" ∷ codes "age_and_home_country" ∷ []) c.fictional_identity_request)
      && country_allowed c.fictional_identity_request c.fictional_home_country

  abbrev pub context_tests : SocialContext → List Bool
  context_tests c =
      one_of roleplay_prompt_modes c.prompt_mode
      ∷ leb c.active_expansion 2
      ∷ at_most max_social_context_entry_bytes c.persona
      ∷ at_most max_social_context_entry_bytes c.relationship
      ∷ at_most max_social_context_entry_bytes c.starter
      ∷ marker_known c.fictional_identity_request
      ∷ age_in_range c.fictional_age
      ∷ country_fits c.fictional_home_country
      ∷ leb (length c.nearby) max_social_context_entries
      ∷ all (at_most max_social_context_entry_bytes) c.nearby
      ∷ leb (length c.thread) max_social_context_entries
      ∷ all (at_most max_social_context_entry_bytes) c.thread
      ∷ leb (length c.memories) max_social_context_entries
      ∷ all is_valid_memory c.memories
      ∷ keeps_premise c
      ∷ distinct (memory_ids c.memories)
      ∷ identity_coherent c
      ∷ []

  unfoldable pub is_valid_context : SocialContext → Bool
  is_valid_context c = all_true (context_tests c)

  abbrev pub valid_or_none : Option SocialContext → Option SocialContext
  valid_or_none none = none
  valid_or_none (some c) = if is_valid_context c then some c else none

  -- The text is read by the JSON library and the model's types.
  unfoldable pub parse_social_context : (Text → Option SocialContext) → Text → Option SocialContext
  parse_social_context read context =
      if is_empty context then none else valid_or_none (read context)
