-- ===== src/Schema/Shapes.antt =====
-- The tables that schema.py names, and the shapes it expects of them.
use mod_playerbot_llm.Prelude.{Bool, true, false, Option, none, some, List, [], ◌∷◌}
use mod_playerbot_llm.Prelude.Text.{Text, codes}

-- Name, type, whether it may be null, default, AUTO_INCREMENT, ON UPDATE CURRENT_TIMESTAMP.
pub record ColumnShape : Type 0 where
  pub name : Text
  pub column_type : Text
  pub is_nullable : Text
  pub column_default : Option Text
  pub auto_increment : Bool
  pub on_update : Bool

-- Name, whether it may repeat, and the columns in order.
pub record IndexShape : Type 0 where
  pub name : Text
  pub non_unique : Bool
  pub columns : List Text

pub record CheckShape : Type 0 where
  pub name : Text
  pub clause : Text

pub record TableShape : Type 0 where
  pub columns : List ColumnShape
  pub indexes : List IndexShape
  pub checks : List CheckShape

-- `REQUIRED_MODULE_TABLES`
abbrev pub required_module_tables : List Text
required_module_tables =
    codes "playerbot_llm_daily_budget"
    ∷ codes "playerbot_llm_budget_reservation"
    ∷ codes "playerbot_social_runtime_control"
    ∷ codes "playerbot_llm_bot_purge"
    ∷ []

-- `REQUIRED_MODULE_TABLES[:2]`
abbrev pub budget_tables : List Text
budget_tables = codes "playerbot_llm_daily_budget" ∷ codes "playerbot_llm_budget_reservation" ∷ []

-- `SIDECAR_OWNED_TABLES`
abbrev pub sidecar_owned_tables : List Text
sidecar_owned_tables =
    codes "playerbot_llm_lock"
    ∷ codes "playerbot_llm_profile"
    ∷ codes "playerbot_llm_conversation_turn"
    ∷ codes "playerbot_llm_career_decision"
    ∷ codes "playerbot_llm_ambient_attempt"
    ∷ []

-- `LEGACY_PROVIDER_TABLES`
abbrev pub legacy_provider_tables : List Text
legacy_provider_tables =
    codes "playerbot_claude_daily_budget"
    ∷ codes "playerbot_claude_budget_reservation"
    ∷ codes "playerbot_claude_lock"
    ∷ codes "playerbot_claude_profile"
    ∷ codes "playerbot_claude_conversation_turn"
    ∷ codes "playerbot_claude_career_decision"
    ∷ codes "playerbot_claude_ambient_attempt"
    ∷ []

-- `NEUTRAL_BUDGET_IDENTIFIERS`
abbrev pub neutral_budget_identifiers : List Text
neutral_budget_identifiers =
    codes "ck_llm_daily_budget_reserved"
    ∷ codes "ck_llm_daily_budget_spent"
    ∷ codes "uk_llm_reservation_public_id"
    ∷ codes "ix_llm_reservation_day_state"
    ∷ codes "ix_llm_reservation_expiry"
    ∷ codes "ck_llm_reservation_max_cost"
    ∷ codes "ck_llm_reservation_actual_cost"
    ∷ []

-- `LEGACY_BUDGET_IDENTIFIERS`
abbrev pub legacy_budget_identifiers : List Text
legacy_budget_identifiers =
    codes "ck_claude_daily_budget_reserved"
    ∷ codes "ck_claude_daily_budget_spent"
    ∷ codes "uk_claude_reservation_public_id"
    ∷ codes "ix_claude_reservation_day_state"
    ∷ codes "ix_claude_reservation_expiry"
    ∷ codes "ck_claude_reservation_max_cost"
    ∷ codes "ck_claude_reservation_actual_cost"
    ∷ []

-- The tables with an expected shape, sorted.
abbrev pub provider_tables : List Text
provider_tables =
    codes "playerbot_llm_ambient_attempt"
    ∷ codes "playerbot_llm_bot_purge"
    ∷ codes "playerbot_llm_budget_reservation"
    ∷ codes "playerbot_llm_career_decision"
    ∷ codes "playerbot_llm_conversation_turn"
    ∷ codes "playerbot_llm_daily_budget"
    ∷ codes "playerbot_llm_lock"
    ∷ codes "playerbot_llm_profile"
    ∷ []

abbrev column : Text → Text → Text → Option Text → Bool → Bool → ColumnShape
column name column_type is_nullable column_default auto_increment on_update = record {
  name = name;
  column_type = column_type;
  is_nullable = is_nullable;
  column_default = column_default;
  auto_increment = auto_increment;
  on_update = on_update;
}

abbrev index : Text → Bool → List Text → IndexShape
index name non_unique columns = record { name = name; non_unique = non_unique; columns = columns }

abbrev check : Text → Text → CheckShape
check name clause = record { name = name; clause = clause }

abbrev pub ambient_attempt_shape : TableShape
ambient_attempt_shape = record {
  columns =
      column (codes "id") (codes "bigint unsigned") (codes "NO") none true false
      ∷ column (codes "created_at") (codes "datetime") (codes "NO") none false false
      ∷ [];
  indexes =
      index (codes "PRIMARY") false (codes "id" ∷ [])
      ∷ index (codes "ix_created") true (codes "created_at" ∷ [])
      ∷ [];
  checks = [];
}

abbrev pub bot_purge_shape : TableShape
bot_purge_shape = record {
  columns =
      column (codes "bot_guid") (codes "bigint unsigned") (codes "NO") none false false
      ∷ column (codes "acknowledged_at") (codes "timestamp") (codes "YES") none false false
      ∷ column (codes "created_at") (codes "timestamp") (codes "NO")
          (some (codes "current_timestamp")) false false
      ∷ column (codes "updated_at") (codes "timestamp") (codes "NO")
          (some (codes "current_timestamp")) false true
      ∷ [];
  indexes =
      index (codes "PRIMARY") false (codes "bot_guid" ∷ [])
      ∷ index (codes "ix_llm_bot_purge_pending") true
          (codes "acknowledged_at" ∷ codes "bot_guid" ∷ [])
      ∷ [];
  checks = [];
}

abbrev pub budget_reservation_shape : TableShape
budget_reservation_shape = record {
  columns =
      column (codes "id") (codes "bigint unsigned") (codes "NO") none true false
      ∷ column (codes "public_id") (codes "char(36)") (codes "NO") none false false
      ∷ column (codes "budget_date") (codes "date") (codes "NO") none false false
      ∷ column (codes "request_kind")
          (codes
            "enum('chat_response','backstory_generation','memory_extraction','moderation_classification','career_generation')")
          (codes "NO") none false false
      ∷ column (codes "priority_lane")
          (codes
            "enum('unspecified','direct_human','mixed_human_bot','career_generation','bot_only_continuation','new_starter','background_extraction')")
          (codes "NO") (some (codes "unspecified")) false false
      ∷ column (codes "model") (codes "varchar(64)") (codes "NO") none false false
      ∷ column (codes "max_cost_usd") (codes "decimal(12,6)") (codes "NO") none false false
      ∷ column (codes "actual_cost_usd") (codes "decimal(12,6)") (codes "YES") none false false
      ∷ column (codes "state") (codes "enum('reserved','completed','released','expired')")
          (codes "NO") (some (codes "reserved")) false false
      ∷ column (codes "created_at") (codes "timestamp") (codes "NO")
          (some (codes "current_timestamp")) false false
      ∷ column (codes "expires_at") (codes "datetime") (codes "NO") none false false
      ∷ column (codes "settled_at") (codes "datetime") (codes "YES") none false false
      ∷ [];
  indexes =
      index (codes "PRIMARY") false (codes "id" ∷ [])
      ∷ index (codes "uk_llm_reservation_public_id") false (codes "public_id" ∷ [])
      ∷ index (codes "ix_llm_reservation_day_state") true (codes "budget_date" ∷ codes "state" ∷ [])
      ∷ index (codes "ix_llm_reservation_expiry") true (codes "state" ∷ codes "expires_at" ∷ [])
      ∷ [];
  checks =
      check (codes "ck_llm_reservation_max_cost") (codes "max_cost_usd>=0")
      ∷ check (codes "ck_llm_reservation_actual_cost")
          (codes "actual_cost_usdisnulloractual_cost_usd>=0")
      ∷ [];
}

abbrev pub career_decision_shape : TableShape
career_decision_shape = record {
  columns =
      column (codes "bot_guid") (codes "bigint unsigned") (codes "NO") none false false
      ∷ column (codes "career_version") (codes "int unsigned") (codes "NO") none false false
      ∷ column (codes "candidate_token") (codes "varchar(64)") (codes "NO") none false false
      ∷ column (codes "spending_style") (codes "varchar(32)") (codes "NO") none false false
      ∷ column (codes "updated_at") (codes "datetime") (codes "NO") none false false
      ∷ [];
  indexes = index (codes "PRIMARY") false (codes "bot_guid" ∷ []) ∷ [];
  checks = [];
}

abbrev pub conversation_turn_shape : TableShape
conversation_turn_shape = record {
  columns =
      column (codes "id") (codes "bigint unsigned") (codes "NO") none true false
      ∷ column (codes "bot_guid") (codes "bigint unsigned") (codes "NO") none false false
      ∷ column (codes "role") (codes "enum('user','assistant')") (codes "NO") none false false
      ∷ column (codes "content") (codes "text") (codes "NO") none false false
      ∷ column (codes "created_at") (codes "datetime") (codes "NO") none false false
      ∷ [];
  indexes =
      index (codes "PRIMARY") false (codes "id" ∷ [])
      ∷ index (codes "ix_bot") true (codes "bot_guid" ∷ codes "id" ∷ [])
      ∷ [];
  checks = [];
}

abbrev pub daily_budget_shape : TableShape
daily_budget_shape = record {
  columns =
      column (codes "budget_date") (codes "date") (codes "NO") none false false
      ∷ column (codes "reserved_usd") (codes "decimal(12,6)") (codes "NO") (some (codes "0")) false
          false
      ∷ column (codes "spent_usd") (codes "decimal(12,6)") (codes "NO") (some (codes "0")) false
          false
      ∷ column (codes "created_at") (codes "timestamp") (codes "NO")
          (some (codes "current_timestamp")) false false
      ∷ column (codes "updated_at") (codes "timestamp") (codes "NO")
          (some (codes "current_timestamp")) false true
      ∷ [];
  indexes = index (codes "PRIMARY") false (codes "budget_date" ∷ []) ∷ [];
  checks =
      check (codes "ck_llm_daily_budget_reserved") (codes "reserved_usd>=0")
      ∷ check (codes "ck_llm_daily_budget_spent") (codes "spent_usd>=0")
      ∷ [];
}

abbrev pub lock_shape : TableShape
lock_shape = record {
  columns = column (codes "lock_key") (codes "varchar(64)") (codes "NO") none false false ∷ [];
  indexes = index (codes "PRIMARY") false (codes "lock_key" ∷ []) ∷ [];
  checks = [];
}

abbrev pub profile_shape : TableShape
profile_shape = record {
  columns =
      column (codes "bot_guid") (codes "bigint unsigned") (codes "NO") none false false
      ∷ column (codes "profile_version") (codes "int unsigned") (codes "NO") none false false
      ∷ column (codes "crafting_affinity") (codes "tinyint unsigned") (codes "NO") none false false
      ∷ column (codes "gathering_affinity") (codes "tinyint unsigned") (codes "NO") none false false
      ∷ column (codes "exploration_affinity") (codes "tinyint unsigned") (codes "NO") none false
          false
      ∷ column (codes "sociability") (codes "tinyint unsigned") (codes "NO") none false false
      ∷ column (codes "voice") (codes "varchar(32)") (codes "NO") none false false
      ∷ column (codes "bot_name") (codes "varchar(48)") (codes "NO") none false false
      ∷ column (codes "updated_at") (codes "datetime") (codes "NO") none false false
      ∷ [];
  indexes = index (codes "PRIMARY") false (codes "bot_guid" ∷ []) ∷ [];
  checks = [];
}

-- `PROVIDER_COLUMN_SHAPES`, `PROVIDER_INDEX_SHAPES` and `PROVIDER_CHECK_SHAPES`
abbrev pub provider_shapes : List (Text × TableShape)
provider_shapes =
    (codes "playerbot_llm_ambient_attempt", ambient_attempt_shape)
    ∷ (codes "playerbot_llm_bot_purge", bot_purge_shape)
    ∷ (codes "playerbot_llm_budget_reservation", budget_reservation_shape)
    ∷ (codes "playerbot_llm_career_decision", career_decision_shape)
    ∷ (codes "playerbot_llm_conversation_turn", conversation_turn_shape)
    ∷ (codes "playerbot_llm_daily_budget", daily_budget_shape)
    ∷ (codes "playerbot_llm_lock", lock_shape)
    ∷ (codes "playerbot_llm_profile", profile_shape)
    ∷ []
