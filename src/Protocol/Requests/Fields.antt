-- ===== src/Protocol/Requests/Fields.antt =====
-- The bounds that the request models of protocol.py share.
use mod_playerbot_llm.Prelude.{
  ℕ, ◌≡◌, refl, Bool, true, false, not, ◌&&◌, List, [], ◌∷◌, all, All, length, leb, ◌||◌,
}
use mod_playerbot_llm.Prelude.Text.{Text}
use mod_playerbot_llm.Protocol.{uint64_max, byte_length, is_empty}

abbrev pub max_player_name_characters : ℕ
max_player_name_characters = 12

abbrev pub max_actor_name_bytes : ℕ
max_actor_name_bytes = 48

abbrev pub social_channel_count : ℕ
social_channel_count = 4

abbrev pub max_social_context_bytes : ℕ
max_social_context_bytes = 4096

-- The major categories L and M of the Unicode database.
pub record UnicodeCategories : Type 0 where
  pub is_letter : ℕ → Bool
  pub is_mark : ℕ → Bool

module _ (unicode : UnicodeCategories) where
  abbrev pub is_name_text : Text → Bool
  is_name_text [] = false
  is_name_text (c ∷ cs) =
      unicode.is_letter c && all (λ d. unicode.is_letter d || unicode.is_mark d) cs

  unfoldable pub actor_name_is_usable : Text → Bool
  actor_name_is_usable value = leb (length value) max_player_name_characters && is_name_text value

-- A list of the tests of a model, all of which must pass.
abbrev pub all_true : List Bool → Bool
all_true [] = true
all_true (b ∷ bs) = b && all_true bs

pub all_true-All : (tests : List Bool) → all_true tests ≡ true → All (λ b. b ≡ true) tests
all_true-All [] h = tt
all_true-All (true ∷ bs) h = (refl, all_true-All bs h)
all_true-All (false ∷ bs) h = cc

abbrev pub fits_uint64 : ℕ → Bool
fits_uint64 n = leb n uint64_max

-- A text of 1 to `limit` characters.
abbrev pub is_bounded : ℕ → Text → Bool
is_bounded limit value = not (is_empty value) && leb (length value) limit

abbrev pub bytes_within : ℕ → Text → Bool
bytes_within limit value = leb (byte_length value) limit

-- `len(set(numbers)) == len(numbers)`
abbrev pub one_of_numbers : List ℕ → ℕ → Bool
one_of_numbers [] n = false
one_of_numbers (m ∷ ms) n = (leb m n && leb n m) || one_of_numbers ms n

abbrev pub distinct_numbers : List ℕ → Bool
distinct_numbers [] = true
distinct_numbers (n ∷ ns) = not (one_of_numbers ns n) && distinct_numbers ns
