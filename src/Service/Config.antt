-- ===== src/Service/Config.antt =====
-- `SidecarConfig` of app.py: what an operator configured, and what the service makes of it. An amount
-- stands for what Python's `Decimal` makes of the configured text.
use mod_playerbot_llm.Prelude.{ℕ, Bool, false, not, ◌&&◌, Result, ok, err, ltb}
use mod_playerbot_llm.Prelude.Int.{ℤ, pos, leb_ℤ}
use mod_playerbot_llm.Budget.Arithmetic.{
  Amount, decimal, finite, infinite, nan, unusable, float_special,
}
use mod_playerbot_llm.Budget.{
  BudgetConfigurationError, Ratio, validate_daily_ceiling, validate_reserve_ratio,
}
use mod_playerbot_llm.Store.{max_ambient_messages_per_hour}

pub record SidecarConfig : Type 0 where
  pub enable : Bool
  pub bridge_port : ℤ
  pub ambient_world_enable : Bool
  pub ambient_max_messages_per_hour : ℤ
  pub daily_budget_usd : Amount
  pub human_budget_reserve_ratio : Amount
  pub input_usd_per_mtok : Amount
  pub output_usd_per_mtok : Amount
  pub response_deadline_ms : ℤ
  pub log_model_io : Bool
  pub queue_size : ℤ
  pub group_cooldown_seconds : ℤ

abbrev pub ceiling_or_zero : Result BudgetConfigurationError ℕ → ℕ
ceiling_or_zero (ok n) = n
ceiling_or_zero (err e) = 0

unfoldable pub budget_nano : SidecarConfig → ℕ
budget_nano c = ceiling_or_zero (validate_daily_ceiling c.daily_budget_usd)

abbrev ratio_or_all : Result BudgetConfigurationError Ratio → Ratio
ratio_or_all (ok ratio) = ratio
ratio_or_all (err e) = record { coefficient = 1; scale = 0 }

unfoldable pub config_reserve_ratio : SidecarConfig → Ratio
config_reserve_ratio c = ratio_or_all (validate_reserve_ratio c.human_budget_reserve_ratio)

-- `Decimal(text) > 0`, where a NaN and a text that is no number raise and count as not.
abbrev pub is_positive : Amount → Bool
is_positive (decimal (finite negative c s)) = not negative && ltb 0 c
is_positive (decimal (infinite negative)) = not negative
is_positive (decimal nan) = false
is_positive unusable = false
is_positive float_special = false

unfoldable pub generation_allowed : SidecarConfig → Bool
generation_allowed c =
    ltb 0 (budget_nano c) && (is_positive c.input_usd_per_mtok && is_positive c.output_usd_per_mtok)

unfoldable pub ambient_allowed : SidecarConfig → Bool
ambient_allowed c =
    c.ambient_world_enable
    && (leb_ℤ (pos 1) c.ambient_max_messages_per_hour
        && leb_ℤ c.ambient_max_messages_per_hour (pos max_ambient_messages_per_hour))
