-- ===== src/Schema.antt =====
-- sidecar/src/playerbots_llm/schema.py: the named locks and the UTC day that the ledger and the store share.
pub mod Restart
pub mod Shapes
pub mod Startup
use mod_playerbot_llm.Prelude.{ℕ, ◌/◌, List, ◌∷◌, any, if◌then◌else◌}
use mod_playerbot_llm.Prelude.Text.{Text, text_eq}

-- The rows of `playerbot_llm_lock` after the upsert of one key. A transaction holds the key until it ends,
-- so the transactions of this development run one after another.
unfoldable pub acquire_named_lock : Text → List Text → List Text
acquire_named_lock key locks = if any (text_eq key) locks then locks else key ∷ locks

-- An instant is a number of whole seconds since 1970 in UTC, the resolution of a DATETIME column.
unfoldable pub utc_day : ℕ → ℕ
utc_day now = now / 86400
