-- ===== src/Budget/Arithmetic.antt =====
-- What budget.py uses of Python's `decimal`: a value built from text, and arithmetic rounded half even
-- to the 28 significant digits of the default context. Exponents stay far below the context's limits.
use mod_playerbot_llm.Prelude.{
  ℕ, zero, suc, ◌+◌, ◌*◌, ◌/◌, ◌%◌, ◌^◌, Bool, ◌&&◌, ◌||◌, ltb, ◌==◌, if◌then◌else◌,
}
use mod_playerbot_llm.Prelude.Int.{ℤ, pos, negsuc}

-- `finite negative coefficient scale` is ±coefficient / 10 ^ scale; `infinite` carries its sign.
pub data Decimal : Type 0 where
  finite : Bool → ℕ → ℕ → Decimal
  infinite : Bool → Decimal
  nan : Decimal

-- What a caller may hand over as an amount: a value that `Decimal` accepts (a finite float is taken
-- through its text), something that it refuses, or a float that is infinite or not a number.
pub data Amount : Type 0 where
  decimal : Decimal → Amount
  unusable : Amount
  float_special : Amount

abbrev pub precision_limit : ℕ
precision_limit = 10 ^ 28

-- How many digits a coefficient has above the 28 that the context keeps.
unfoldable pub excess_digits : ℕ → ℕ → ℕ
excess_digits zero c = 0
excess_digits (suc fuel) c =
    let rest = suc (excess_digits fuel (c / 10)) in if ltb c precision_limit then 0 else rest

-- The nearest whole number to `n / d`, a tie going to the even one.
unfoldable pub round_half_even : ℕ → ℕ → ℕ
round_half_even n d =
    let q = n / d in
    let r = n % d in if ltb d (2 * r) || (d == 2 * r && (q % 2) == 1) then q + 1 else q

-- The context's rounding of a coefficient, the dropped digits filled with zeros: the value is what counts.
unfoldable pub to_precision : ℕ → ℕ
unfolding excess_digits round_half_even
to_precision c =
    let unit = 10 ^ excess_digits c c in
    if ltb c precision_limit then c else round_half_even c unit * unit

-- `to_integral_value(rounding="ROUND_CEILING")` of n / d.
unfoldable pub ceil_div : ℕ → ℕ → ℕ
ceil_div n d = if (n % d) == 0 then n / d else n / d + 1

abbrev pub is_negative : Bool → ℕ → Bool
is_negative negative coefficient = negative && ltb 0 coefficient

abbrev pub signed : Bool → ℕ → ℤ
signed negative zero = pos 0
signed negative (suc n) = if negative then negsuc n else pos (suc n)
