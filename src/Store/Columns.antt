-- ===== src/Store/Columns.antt =====
-- The rows of `playerbot_llm_profile` and `playerbot_llm_career_decision`: the column types of schema.py, and the
-- column lists of the statements of store.py.
use mod_playerbot_llm.Prelude.{
  ℕ, Bool, not, ◌&&◌, Option, none, some, List, [], ◌∷◌, all, keep_if, drop, leb, ◌==◌,
  if◌then◌else◌,
}
use mod_playerbot_llm.Prelude.Text.{Text, take}

-- The keyword arguments of `record_profile` beside the guid and the time, and what `get_profile` returns.
pub record Profile : Type 0 where
  pub profile_version : ℕ
  pub crafting_affinity : ℕ
  pub gathering_affinity : ℕ
  pub exploration_affinity : ℕ
  pub sociability : ℕ
  pub voice : Text
  pub bot_name : Text

-- The same for `record_career_decision` and `get_career_decision`.
pub record CareerDecision : Type 0 where
  pub career_version : ℕ
  pub candidate_token : Text
  pub spending_style : Text

-- A row of `playerbot_llm_profile`.
pub record ProfileRow : Type 0 where
  pub bot_guid : ℕ
  pub profile_version : ℕ
  pub crafting_affinity : ℕ
  pub gathering_affinity : ℕ
  pub exploration_affinity : ℕ
  pub sociability : ℕ
  pub voice : Text
  pub bot_name : Text
  pub updated_at : ℕ

-- A row of `playerbot_llm_career_decision`.
pub record CareerRow : Type 0 where
  pub bot_guid : ℕ
  pub career_version : ℕ
  pub candidate_token : Text
  pub spending_style : Text
  pub updated_at : ℕ

abbrev pub profile_guid : ProfileRow → ℕ
profile_guid row = row.bot_guid

abbrev pub career_guid : CareerRow → ℕ
career_guid row = row.bot_guid

module _ {A : Type 0} (key : A → ℕ) where
  -- INSERT ... ON DUPLICATE KEY UPDATE: the row that has the key already is assigned to.
  unfoldable pub upsert : (A → A → A) → A → List A → List A
  upsert assign row [] = row ∷ []
  upsert assign row (x ∷ xs) =
      let rest = upsert assign row xs in if key x == key row then assign x row ∷ xs else x ∷ rest

  -- SELECT ... WHERE bot_guid = guid
  unfoldable pub find : ℕ → List A → Option A
  find guid [] = none
  find guid (x ∷ xs) = let rest = find guid xs in if key x == guid then some x else rest

  -- DELETE ... WHERE bot_guid = guid
  unfoldable pub delete_owned : ℕ → List A → List A
  delete_owned guid = keep_if (λ x. not (key x == guid))

-- The largest values of TINYINT, INT and BIGINT UNSIGNED.
abbrev pub max_tinyint : ℕ
max_tinyint = 255

abbrev pub max_int : ℕ
max_int = 4294967295

abbrev pub max_bigint : ℕ
max_bigint = 18446744073709551615

-- A VARCHAR refuses what is too long, but for spaces at the end, which it cuts.
abbrev pub fits_varchar : ℕ → Text → Bool
fits_varchar limit text = all (λ c. c == 32) (drop limit text)

-- VALUES (...), each as its column holds it
abbrev pub profile_row : ℕ → Profile → ℕ → ProfileRow
profile_row guid profile now = record {
  bot_guid = guid;
  profile_version = profile.profile_version;
  crafting_affinity = profile.crafting_affinity;
  gathering_affinity = profile.gathering_affinity;
  exploration_affinity = profile.exploration_affinity;
  sociability = profile.sociability;
  voice = take 32 profile.voice;
  bot_name = take 48 profile.bot_name;
  updated_at = now;
}

-- The column types of the table: `bot_guid` to `bot_name`.
unfoldable pub profile_fits : ℕ → Profile → Bool
profile_fits guid profile =
    leb guid max_bigint
    && (leb profile.profile_version max_int
        && (leb profile.crafting_affinity max_tinyint
            && (leb profile.gathering_affinity max_tinyint
                && (leb profile.exploration_affinity max_tinyint
                    && (leb profile.sociability max_tinyint
                        && (fits_varchar 32 profile.voice && fits_varchar 48 profile.bot_name))))))

-- ON DUPLICATE KEY UPDATE ...
abbrev pub update_profile : ProfileRow → ProfileRow → ProfileRow
update_profile row values = record row {
  profile_version = values.profile_version;
  crafting_affinity = values.crafting_affinity;
  gathering_affinity = values.gathering_affinity;
  exploration_affinity = values.exploration_affinity;
  sociability = values.sociability;
  voice = values.voice;
  bot_name = values.bot_name;
  updated_at = values.updated_at;
}

-- SELECT profile_version, crafting_affinity, ..., bot_name
abbrev pub select_profile : ProfileRow → ℕ × ℕ × ℕ × ℕ × ℕ × Text × Text
select_profile row = (
  row.profile_version, row.crafting_affinity, row.gathering_affinity, row.exploration_affinity,
  row.sociability, row.voice, row.bot_name,
)

-- The dict that is made of the selected columns, by their index.
abbrev pub read_profile : Option ProfileRow → Option Profile
read_profile none = none
read_profile (some row) =
    let columns = select_profile row in
    some (record {
      profile_version = columns.0;
      crafting_affinity = columns.1;
      gathering_affinity = columns.2;
      exploration_affinity = columns.3;
      sociability = columns.4;
      voice = columns.5;
      bot_name = columns.6;
    })

abbrev pub career_row : ℕ → CareerDecision → ℕ → CareerRow
career_row guid decision now = record {
  bot_guid = guid;
  career_version = decision.career_version;
  candidate_token = take 64 decision.candidate_token;
  spending_style = take 32 decision.spending_style;
  updated_at = now;
}

unfoldable pub career_fits : ℕ → CareerDecision → Bool
career_fits guid decision =
    leb guid max_bigint
    && (leb decision.career_version max_int
        && (fits_varchar 64 decision.candidate_token && fits_varchar 32 decision.spending_style))

abbrev pub update_career : CareerRow → CareerRow → CareerRow
update_career row values = record row {
  career_version = values.career_version;
  candidate_token = values.candidate_token;
  spending_style = values.spending_style;
  updated_at = values.updated_at;
}

-- SELECT career_version, candidate_token, spending_style
abbrev pub select_career : CareerRow → ℕ × Text × Text
select_career row = (row.career_version, row.candidate_token, row.spending_style)

abbrev pub read_career : Option CareerRow → Option CareerDecision
read_career none = none
read_career (some row) =
    let columns = select_career row in
    some (record {
      career_version = columns.0;
      candidate_token = columns.1;
      spending_style = columns.2;
    })
