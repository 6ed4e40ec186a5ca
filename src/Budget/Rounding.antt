-- ===== src/Budget/Rounding.antt =====
-- The roundings of budget.py: every one falls on the side that protects the ceiling.
use native.Mathlib.Nat.{
  div-add-mod', mod-lt, lt_of_mul-lt-mul_right, mul-le-mul_right, mul-le-mul_left, pow-suc,
  lt_of_le_of_lt,
}
use mod_playerbot_llm.Prelude.{
  ℕ, zero, suc, ◌+◌, ◌*◌, ◌%◌, ◌^◌, ◌≤◌, ◌<◌, ◌≡◌, false, some, Option, arith, lt→ltb, Bool-cases,
  ==_iff, inl, inr, ◌==◌,
}
use mod_playerbot_llm.Prelude.Int.{ℤ, pos, negsuc, pos_part}
use mod_playerbot_llm.Budget.Arithmetic.{
  to_precision, ceil_div, precision_limit, Amount, decimal, finite,
}
use mod_playerbot_llm.Budget.{
  nano, max_storable_nano, Ratio, token_cost_nano, conservative_max_cost_nano, reserve_floor_nano,
  priced, quantize_storable_nano, storable_actual_cost_nano, circuit_should_open,
}

pub to_precision_small : (c : ℕ) → c < precision_limit → to_precision c ≡ c
unfolding to_precision
to_precision_small c h = ground (arith, lt→ltb c precision_limit h)

pub ceil_div_bounds : (n d : ℕ) → 0 < d → (n ≤ ceil_div n d * d) × (ceil_div n d * d < n + d)
unfolding ceil_div
ceil_div_bounds n d h = elim (Bool-cases ((n % d) == 0)) [
  | inl whole ↦ rw whole (omega (arith, div-add-mod' n d, (==_iff (n % d) 0).0 whole))
  | inr part ↦ rw part (ground (arith, div-add-mod' n d, mod-lt n h))
]

le_of_lt_succ_mul : (a b d : ℕ) → a * d < b * d + d → a ≤ b
le_of_lt_succ_mul a b d h =
    let g : a < b + 1 = lt_of_mul-lt-mul_right d (omega arith) in omega arith

pub ceil_div_mono : (n m d : ℕ) → 0 < d → n ≤ m → ceil_div n d ≤ ceil_div m d
ceil_div_mono n m d p h =
    let (_, above) = ceil_div_bounds n d p in
    let (below, _) = ceil_div_bounds m d p in
    le_of_lt_succ_mul (ceil_div n d) (ceil_div m d) d (omega arith)

-- A quantized amount is the least whole number of microdollars that is not below the amount.
pub quantize_least :
    (n : ℕ)
    → (n ≤ quantize_storable_nano (pos n))
      × (quantize_storable_nano (pos n) < n + 1000)
      × (quantize_storable_nano (pos n) % 1000 ≡ 0)
unfolding quantize_storable_nano
quantize_least n = omega arith

-- A stored cost is a whole number of microdollars that the column holds, and a reported cost within that
-- range is never stored as less.
pub storable_actual_cost_bounds :
    (a : ℤ)
    → (storable_actual_cost_nano a ≤ max_storable_nano)
      × (storable_actual_cost_nano a % 1000 ≡ 0)
      × (pos_part a ≤ max_storable_nano → pos_part a ≤ storable_actual_cost_nano a)
unfolding storable_actual_cost_nano
storable_actual_cost_bounds (pos n) = omega arith
storable_actual_cost_bounds (negsuc n) = omega arith

pub storable-le_max :
    (m : ℕ) (a : ℤ)
    → m % 1000 ≡ 0
    → circuit_should_open (pos m) a ≡ false
    → storable_actual_cost_nano a ≤ m
unfolding storable_actual_cost_nano circuit_should_open
storable-le_max m (pos n) e h = ground arith
storable-le_max m (negsuc n) e h = omega arith

pow-pos : (k : ℕ) → 0 < 10 ^ k
pow-pos zero = omega arith
pow-pos (suc k) = rw pow-suc (omega (arith, pow-pos k))

-- The protected share is the ratio of the ceiling, rounded up to a whole nano, wherever the product fits
-- the 28 digits of the decimal context.
pub reserve_floor_bounds :
    (ceiling : ℕ) (ratio : Ratio)
    → ceiling * ratio.coefficient < precision_limit
    → (ceiling * ratio.coefficient ≤ reserve_floor_nano ceiling ratio * 10 ^ ratio.scale)
      × (reserve_floor_nano ceiling ratio * 10 ^ ratio.scale
          < ceiling * ratio.coefficient + 10 ^ ratio.scale)
unfolding reserve_floor_nano
reserve_floor_bounds ceiling ratio h =
    rw (to_precision_small (ceiling * ratio.coefficient) h)
      (ceil_div_bounds _ _ (pow-pos ratio.scale))

pub reserve_floor-le-ceiling :
    (ceiling : ℕ) (ratio : Ratio)
    → ceiling * ratio.coefficient < precision_limit
    → ratio.coefficient ≤ 10 ^ ratio.scale
    → reserve_floor_nano ceiling ratio ≤ ceiling
reserve_floor-le-ceiling ceiling ratio h r =
    let (_, above) = reserve_floor_bounds ceiling ratio h in
    le_of_lt_succ_mul _ _ (10 ^ ratio.scale) (omega (arith, mul-le-mul_left ceiling r))

scale_pos : (s t : ℕ) → 0 < 10 ^ (s + t) * 1000000
scale_pos s t = omega (arith, pow-pos (s + t))

-- Prices c / 10 ^ s and d / 10 ^ t per million tokens.
module _ (c s d t : ℕ) where
  -- What `input` and `output` tokens cost, in units of 10 ^ -(s + t) dollars per million.
  abbrev pub exact_cost : ℕ → ℕ → ℕ
  exact_cost input output = c * input * 10 ^ t + d * output * 10 ^ s

  -- No intermediate result is longer than the 28 digits of the decimal context.
  pub record IsExact (input output : ℕ) : Type 0 where
    pub input_fits : c * input < precision_limit
    pub output_fits : d * output < precision_limit
    pub sum_fits : exact_cost input output < precision_limit

  -- The price of token counts is the exact cost in nano-USD, rounded up, as long as no intermediate result is
  -- longer than the 28 digits of the decimal context.
  pub priced_bounds :
      (input output : ℕ)
      → IsExact input output
      → (exact_cost input output * nano ≤ priced input output c s d t * (10 ^ (s + t) * 1000000))
        × (priced input output c s d t * (10 ^ (s + t) * 1000000)
            < exact_cost input output * nano + 10 ^ (s + t) * 1000000)
  unfolding priced
  priced_bounds input output h = rw (to_precision_small (c * input) h.input_fits) (
      rw (to_precision_small (d * output) h.output_fits) (
        rw (to_precision_small (exact_cost input output) h.sum_fits)
          (ceil_div_bounds _ _ (scale_pos s t))))

  exact_cost_mono :
      (input output limit : ℕ) → output ≤ limit → exact_cost input output ≤ exact_cost input limit
  exact_cost_mono input output limit le =
      omega (arith, mul-le-mul_right (10 ^ s) (mul-le-mul_left d le))

  IsExact-le :
      (input output limit : ℕ) → output ≤ limit → IsExact input limit → IsExact input output
  IsExact-le input output limit le h = record {
    input_fits = h.input_fits;
    output_fits = lt_of_le_of_lt (mul-le-mul_left d le) h.output_fits;
    sum_fits = lt_of_le_of_lt (exact_cost_mono input output limit le) h.sum_fits;
  }

  priced_mono :
      (input output limit : ℕ)
      → IsExact input limit
      → output ≤ limit
      → priced input output c s d t ≤ priced input limit c s d t
  priced_mono input output limit h le =
      let (_, above) = priced_bounds input output (IsExact-le input output limit le h) in
      let (below, _) = priced_bounds input limit h in
      let dearer = exact_cost_mono input output limit le in
      le_of_lt_succ_mul _ _ (10 ^ (s + t) * 1000000) (omega arith)

  abbrev pub input_price : Option Amount
  input_price = some (decimal (finite false c s))

  abbrev pub output_price : Option Amount
  output_price = some (decimal (finite false d t))

  -- A completion for the counted input whose output stays within its limit costs no more than what was
  -- reserved for it: its cost is not a breach of the reservation. (No intermediate result of the reserved
  -- price is longer than the 28 digits of the decimal context.)
  pub cost_within_reservation :
      (input output limit : ℕ) (reserved actual : ℤ)
      → IsExact input limit
      → output ≤ limit
      → conservative_max_cost_nano (pos input) (pos limit) input_price output_price ≡ some reserved
      → token_cost_nano (pos input) (pos output) input_price output_price ≡ some actual
      → circuit_should_open reserved actual ≡ false
  unfolding conservative_max_cost_nano token_cost_nano circuit_should_open
  cost_within_reservation input output limit reserved actual h le r a =
      ground (arith, priced_mono input output limit h le)
