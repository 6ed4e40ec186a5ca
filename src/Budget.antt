-- ===== src/Budget.antt =====
-- sidecar/src/playerbots_llm/budget.py: the pure admission policy. Money is integer nano-USD.
pub mod Arithmetic
pub mod Rounding
pub mod Admission
use mod_playerbot_llm.Prelude.{
  ℕ, zero, suc, ◌+◌, ◌-◌, ◌*◌, ◌/◌, ◌%◌, ◌^◌, min, Bool, true, false, not, ◌||◌, List, [], ◌∷◌,
  ◌++◌, ◌==◌, Option, none, some, Result, ok, err, ltb, leb, if◌then◌else◌,
}
use mod_playerbot_llm.Prelude.Int.{ℤ, pos, negsuc, ◌+ℤ◌, ◌-ℤ◌, ltb_ℤ, leb_ℤ, pos_part}
use mod_playerbot_llm.Prelude.Text.{Text, codes, digits, fixed_digits}
use Arithmetic.{
  Amount, Decimal, finite, infinite, nan, decimal, unusable, float_special, to_precision,
  round_half_even, ceil_div, is_negative, signed,
}

abbrev pub nano : ℕ
nano = 1000000000

pub data RequestPriority : Type 0 where
  immediate_human background : RequestPriority

pub data RequestKind : Type 0 where
  chat_response backstory_generation memory_extraction : RequestKind
  moderation_classification career_generation : RequestKind

pub data AdmissionDecision : Type 0 where
  admitted denied_ceiling denied_reserve denied_circuit_open : AdmissionDecision
  denied_unknown_pricing denied_invalid_request : AdmissionDecision

pub record BudgetState : Type 0 where
  pub settled_nano : ℤ
  pub outstanding_nano : ℤ
  pub circuit_open : Bool

unfoldable pub committed_nano : BudgetState → ℤ
committed_nano s = s.settled_nano +ℤ s.outstanding_nano

-- The reasons of a `BudgetConfigurationError`.
pub data BudgetConfigurationError : Type 0 where
  not_finite not_usable not_positive not_storable bad_ratio : BudgetConfigurationError

abbrev nano_of : Decimal → Result BudgetConfigurationError ℤ
nano_of (finite negative c s) =
    ok (signed negative (round_half_even (to_precision (c * nano)) (10 ^ s)))
nano_of (infinite _) = err not_finite
nano_of nan = err not_finite

unfoldable pub usd_to_nano : Amount → Result BudgetConfigurationError ℤ
unfolding to_precision round_half_even
usd_to_nano (decimal d) = nano_of d
usd_to_nano unusable = err not_usable
usd_to_nano float_special = err not_finite

-- One microdollar: what a DECIMAL(12, 6) column resolves.
abbrev pub storage_scale_nano : ℕ
storage_scale_nano = 1000

-- The widest value that such a column holds.
abbrev pub max_storable_nano : ℕ
max_storable_nano = 999999999999000

-- `text.rstrip("0")`
abbrev strip_zeros : Text → Text
strip_zeros [] = []
strip_zeros (x ∷ xs) = elim (strip_zeros xs) [
  | [] ↦ if x == 48 then [] else x ∷ []
  | y ∷ ys ↦ x ∷ y ∷ ys
]

abbrev point_digits : Text → Text
point_digits [] = []
point_digits (x ∷ xs) = codes "." ++ x ∷ xs

abbrev nano_text : ℕ → Text
nano_text n = digits (n / nano) ++ point_digits (strip_zeros (fixed_digits 9 (n % nano)))

unfoldable pub nano_to_usd_string : ℤ → Text
unfolding digits fixed_digits
nano_to_usd_string (pos n) = nano_text n
nano_to_usd_string (negsuc n) = codes "-" ++ nano_text (suc n)

-- The `ValueError` is `none`.
unfoldable pub nano_to_fixed_usd_string : ℤ → Option Text
unfolding digits fixed_digits
nano_to_fixed_usd_string (negsuc n) = none
nano_to_fixed_usd_string (pos n) =
    if ltb max_storable_nano n || not ((n % storage_scale_nano) == 0)
    then none
    else some (digits (n / nano) ++ codes "." ++ fixed_digits 6 ((n % nano) / storage_scale_nano))

abbrev pub check_ceiling : Result BudgetConfigurationError ℤ → Result BudgetConfigurationError ℕ
check_ceiling (ok (pos zero)) = err not_positive
check_ceiling (ok (pos (suc n))) =
    if ltb max_storable_nano (suc n) then err not_storable else ok (suc n)
check_ceiling (ok (negsuc n)) = err not_positive
check_ceiling (err e) = err e

unfoldable pub validate_daily_ceiling : Amount → Result BudgetConfigurationError ℕ
unfolding usd_to_nano
validate_daily_ceiling usd = check_ceiling (usd_to_nano usd)

-- An accepted ratio is coefficient / 10 ^ scale, from 0 to 1.
pub record Ratio : Type 0 where
  pub coefficient : ℕ
  pub scale : ℕ

unfoldable pub validate_reserve_ratio : Amount → Result BudgetConfigurationError Ratio
validate_reserve_ratio (decimal (finite negative c s)) =
    if is_negative negative c || ltb (10 ^ s) c
    then err bad_ratio
    else ok (record { coefficient = c; scale = s })
validate_reserve_ratio (decimal (infinite _)) = err bad_ratio
validate_reserve_ratio (decimal nan) = err bad_ratio
validate_reserve_ratio unusable = err not_usable
validate_reserve_ratio float_special = err bad_ratio

-- The ceiling is positive wherever this is called.
unfoldable pub reserve_floor_nano : ℕ → Ratio → ℕ
reserve_floor_nano ceiling ratio =
    ceil_div (to_precision (ceiling * ratio.coefficient)) (10 ^ ratio.scale)

-- The two products at their common scale, each step rounded to the context's precision; then by a million
-- and times `nano`, which moves the point and rounds nothing.
unfoldable pub priced : ℕ → ℕ → ℕ → ℕ → ℕ → ℕ → ℕ
priced input output input_price input_scale output_price output_scale =
    let input_cost = to_precision (input_price * input) * 10 ^ output_scale in
    let output_cost = to_precision (output_price * output) * 10 ^ input_scale in
    ceil_div (to_precision (input_cost + output_cost) * nano)
      (10 ^ (input_scale + output_scale) * 1000000)

abbrev price_pair : ℕ → ℕ → Amount → Amount → Option ℤ
price_pair input output (decimal (finite n c s)) (decimal (finite m d t)) =
    if is_negative n c || is_negative m d then none else some (pos (priced input output c s d t))
price_pair input output _ _ = none

abbrev price_known : ℕ → ℕ → Option Amount → Option Amount → Option ℤ
price_known input output (some p) (some q) = price_pair input output p q
price_known input output _ _ = none

unfoldable pub token_cost_nano : ℤ → ℤ → Option Amount → Option Amount → Option ℤ
token_cost_nano (pos input) (pos output) input_price output_price =
    price_known input output input_price output_price
token_cost_nano _ _ input_price output_price = none

unfoldable pub conservative_max_cost_nano : ℤ → ℤ → Option Amount → Option Amount → Option ℤ
conservative_max_cost_nano input max_output input_price output_price =
    token_cost_nano input max_output input_price output_price

abbrev admit_background : ℤ → ℤ → ℕ → AdmissionDecision
admit_background projected ceiling floor =
    if ltb_ℤ (ceiling -ℤ pos floor) projected then denied_reserve else admitted

abbrev admit_projected : ℤ → ℤ → RequestPriority → Ratio → AdmissionDecision
admit_projected projected ceiling immediate_human ratio =
    if ltb_ℤ ceiling projected then denied_ceiling else admitted
admit_projected projected ceiling background ratio =
    if ltb_ℤ ceiling projected
    then denied_ceiling
    else admit_background projected ceiling (reserve_floor_nano (pos_part ceiling) ratio)

abbrev admit_cost : ℤ → BudgetState → Option ℤ → RequestPriority → Ratio → AdmissionDecision
admit_cost ceiling s none priority ratio = denied_unknown_pricing
admit_cost ceiling s (some max_cost) priority ratio =
    if leb_ℤ ceiling (pos 0) || ltb_ℤ max_cost (pos 0)
    then denied_invalid_request
    else admit_projected (committed_nano s +ℤ max_cost) ceiling priority ratio

unfoldable pub admit : ℤ → BudgetState → Option ℤ → RequestPriority → Ratio → AdmissionDecision
unfolding committed_nano
admit ceiling s max_cost priority ratio =
    if s.circuit_open then denied_circuit_open else admit_cost ceiling s max_cost priority ratio

unfoldable pub quantize_storable_nano : ℤ → ℕ
quantize_storable_nano (negsuc n) = 0
quantize_storable_nano (pos n) = ((n + 999) / storage_scale_nano) * storage_scale_nano

unfoldable pub storable_actual_cost_nano : ℤ → ℕ
unfolding quantize_storable_nano
storable_actual_cost_nano (negsuc n) = 0
storable_actual_cost_nano (pos n) = min (quantize_storable_nano (pos n)) max_storable_nano

unfoldable pub circuit_should_open : ℤ → ℤ → Bool
circuit_should_open max_cost actual_cost =
    (ltb_ℤ actual_cost (pos 0) || ltb_ℤ max_cost (pos 0)) || ltb_ℤ max_cost actual_cost
