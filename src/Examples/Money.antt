-- ===== src/Examples/Money.antt =====
-- The budget's theorems at prices of one and five dollars per million tokens.
use mod_playerbot_llm.Prelude.{◌+◌, ◌*◌, ◌^◌, ◌≤◌, ◌<◌, ◌%◌, ◌≡◌, ◌↔◌, refl, false, some, ok, arith}
use mod_playerbot_llm.Prelude.Int.{pos, ◌≤ℤ◌, ◌<ℤ◌, ◌+ℤ◌, ◌-ℤ◌}
use mod_playerbot_llm.Budget.Arithmetic.{to_precision, ceil_div, decimal, finite}
use mod_playerbot_llm.Budget.{
  BudgetState, admit, admitted, background, immediate_human, quantize_storable_nano,
  storable_actual_cost_nano, max_storable_nano, reserve_floor_nano, priced, nano, committed_nano,
  token_cost_nano, conservative_max_cost_nano,
}
use mod_playerbot_llm.Budget.Rounding.{
  quantize_least, storable_actual_cost_bounds, reserve_floor_bounds, exact_cost, IsExact,
  priced_bounds,
}
use mod_playerbot_llm.Budget.Admission.{Affordable, admit_iff, human_slice_kept}
use mod_playerbot_llm.Ledger.Tables.{circuit_of, find_spent}
use mod_playerbot_llm.Ledger.{Reservation, SettlementReceipt, settle}
use mod_playerbot_llm.Ledger.Funding.{IsUsable}
use mod_playerbot_llm.Ledger.Charging.{spent_before}
use mod_playerbot_llm.Ledger.Within.{settle_within}
use mod_playerbot_llm.Examples.{quarter, book, noon, tables, ticket}
use mod_playerbot_llm.Examples.Charges.{tables-IsFunded}

abbrev state : BudgetState
state = record { settled_nano = pos 1000; outstanding_nano = pos 2000; circuit_open = false }

quantize_least_example :
    (1001 ≤ quantize_storable_nano (pos 1001))
    × (quantize_storable_nano (pos 1001) < 2001)
    × (quantize_storable_nano (pos 1001) % 1000 ≡ 0)
quantize_least_example = quantize_least 1001

storable_actual_cost_bounds_example :
    (storable_actual_cost_nano (pos 1001) ≤ max_storable_nano)
    × (storable_actual_cost_nano (pos 1001) % 1000 ≡ 0)
    × (1001 ≤ max_storable_nano → 1001 ≤ storable_actual_cost_nano (pos 1001))
storable_actual_cost_bounds_example = storable_actual_cost_bounds (pos 1001)

reserve_floor_bounds_example :
    (5000000001 * 25 ≤ reserve_floor_nano 5000000001 quarter * 10 ^ 2)
    × (reserve_floor_nano 5000000001 quarter * 10 ^ 2 < 5000000001 * 25 + 10 ^ 2)
reserve_floor_bounds_example = reserve_floor_bounds 5000000001 quarter (omega arith)

short-IsExact : IsExact 100 0 5 0 700 900
short-IsExact = record {
  input_fits = omega arith;
  output_fits = omega arith;
  sum_fits = omega arith;
}

priced_bounds_example :
    (exact_cost 100 0 5 0 700 900 * nano ≤ priced 700 900 100 0 5 0 * (10 ^ (0 + 0) * 1000000))
    × (priced 700 900 100 0 5 0 * (10 ^ (0 + 0) * 1000000)
        < exact_cost 100 0 5 0 700 900 * nano + 10 ^ (0 + 0) * 1000000)
priced_bounds_example = priced_bounds 100 0 5 0 700 900 short-IsExact

admit_iff_example : (admit (pos 9000) state (some (pos 500)) background quarter ≡ admitted) ↔ (
    (state.circuit_open ≡ false)
    × (pos 0 <ℤ pos 9000)
    × (pos 0 ≤ℤ pos 500)
    × Affordable (pos 9000) state (pos 500) background quarter)
admit_iff_example = admit_iff (pos 9000) (pos 500) state background quarter

slice_admitted : admit (pos 9000) state (some (pos 500)) background quarter ≡ admitted
unfolding admit committed_nano ◌+ℤ◌ ◌-ℤ◌ reserve_floor_nano to_precision ceil_div
slice_admitted = refl

slice_fits : 2250 ≤ reserve_floor_nano 9000 quarter
unfolding reserve_floor_nano to_precision ceil_div
slice_fits = omega arith

human_slice_kept_example :
    admit
      (pos 9000)
      (record state { outstanding_nano = state.outstanding_nano +ℤ pos 500 })
      (some (pos 2250))
      immediate_human
      quarter
    ≡ admitted
human_slice_kept_example =
    human_slice_kept (pos 9000) 500 2250 state quarter slice_admitted slice_fits

long-IsExact : IsExact 100 2 500 2 700 1000
long-IsExact = record {
  input_fits = omega arith;
  output_fits = omega arith;
  sum_fits = omega arith;
}

reserved_known :
    conservative_max_cost_nano
      (pos 700)
      (pos 1000)
      (some (decimal (finite false 100 2)))
      (some (decimal (finite false 500 2)))
    ≡ some (pos (priced 700 1000 100 2 500 2))
unfolding conservative_max_cost_nano token_cost_nano
reserved_known = refl

actual_known :
    token_cost_nano
      (pos 700)
      (pos 900)
      (some (decimal (finite false 100 2)))
      (some (decimal (finite false 500 2)))
    ≡ some (pos (priced 700 900 100 2 500 2))
unfolding token_cost_nano
actual_known = refl

abbrev small_ticket : Reservation
small_ticket = record ticket { max_cost_nano = 5700000 }

small_max : 5700000 ≡ quantize_storable_nano (pos (priced 700 1000 100 2 500 2))
unfolding quantize_storable_nano priced to_precision ceil_div
small_max = refl

book-IsUsable : IsUsable book
book-IsUsable = (omega arith, omega arith)

room_left :
    spent_before small_ticket tables + storable_actual_cost_nano (pos (priced 700 900 100 2 500 2))
    ≤ max_storable_nano
unfolding storable_actual_cost_nano priced to_precision ceil_div find_spent
room_left = omega arith

settle_within_example :
    let settled = settle small_ticket (pos (priced 700 900 100 2 500 2)) noon tables in
    ((rc : SettlementReceipt) × (settled.0 ≡ ok rc) × (rc.breach ≡ false))
    × (circuit_of settled.1.control ≡ circuit_of tables.control)
settle_within_example =
    settle_within {book = book} 100 2 500 2 small_ticket noon tables 700 900 1000
      (priced 700 1000 100 2 500 2) (pos (priced 700 900 100 2 500 2)) book-IsUsable tables-IsFunded
      long-IsExact (omega arith) reserved_known actual_known small_max room_left
