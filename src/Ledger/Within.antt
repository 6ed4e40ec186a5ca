-- ===== src/Ledger/Within.antt =====
-- The settlement of a completion whose output stayed within its limit, with the prices of budget.py.
use mod_playerbot_llm.Prelude.{ℕ, ◌+◌, ◌≤◌, ◌≡◌, refl, false, some, ok, arith, Bool-cases, inl, inr}
use mod_playerbot_llm.Prelude.Int.{ℤ, pos}
use mod_playerbot_llm.Budget.{
  max_storable_nano, storable_actual_cost_nano, quantize_storable_nano, circuit_should_open,
  token_cost_nano, conservative_max_cost_nano,
}
use mod_playerbot_llm.Budget.Rounding.{
  IsExact, input_price, output_price, cost_within_reservation, quantize_least,
}
use mod_playerbot_llm.Ledger.Tables.{Database, circuit_of}
use mod_playerbot_llm.Ledger.{
  BudgetLedger, Reservation, SettlementReceipt, receipt, refused, is_breach, is_saturated, settle,
}
use mod_playerbot_llm.Ledger.Funding.{IsFunded, IsUsable}
use mod_playerbot_llm.Ledger.Settling.{was_open}
use mod_playerbot_llm.Ledger.Charging.{spent_before, settle_lem}

larger_maximum :
    (small large : ℕ) (actual : ℤ)
    → small ≤ large
    → circuit_should_open (pos small) actual ≡ false
    → circuit_should_open (pos large) actual ≡ false
unfolding circuit_should_open
larger_maximum small large actual le h = ground arith

unsaturated :
    (spent storable : ℕ)
    → spent + storable ≤ max_storable_nano
    → is_saturated spent storable ≡ false
unsaturated spent storable h = ground arith

module _ {book : BudgetLedger} (r : Reservation) (actual : ℤ) (now : ℕ) (db : Database)
    (usable : IsUsable book) (f : IsFunded book db) where
  settle_calm :
      is_breach r actual ≡ false
      → is_saturated (spent_before r db) (storable_actual_cost_nano actual) ≡ false
      → ((rc : SettlementReceipt) × ((settle r actual now db).0 ≡ ok rc) × (rc.breach ≡ false))
        × (circuit_of (settle r actual now db).1.control ≡ circuit_of db.control)
  settle_calm calm room =
      rw (settle_lem r actual now db usable f) (elim (Bool-cases (was_open r db)) [
        | inl opened ↦
            rw opened ((receipt r actual (spent_before r db), refl, calm), rw calm (rw room refl))
        | inr gone ↦ rw gone ((refused, refl, refl), refl)
      ])

-- The settlement of a completion for the counted input whose output stays within its limit, at its priced cost,
-- reports no breach and leaves the circuit as it is, if the day's total then still fits the column. (The
-- ceiling is usable and the ledger funded before, the reservation's maximum is the reserved price as the ledger
-- quantizes it, and no intermediate result of that price is longer than the 28 digits of the decimal context.)
pub settle_within :
    {book : BudgetLedger} (c s d t : ℕ) (r : Reservation) (now : ℕ) (db : Database)
    (input output limit reserved : ℕ) (actual : ℤ)
    → IsUsable book
    → IsFunded book db
    → IsExact c s d t input limit
    → output ≤ limit
    → conservative_max_cost_nano
        (pos input)
        (pos limit)
        (input_price c s d t)
        (output_price c s d t)
      ≡ some (pos reserved)
    → token_cost_nano (pos input) (pos output) (input_price c s d t) (output_price c s d t)
      ≡ some actual
    → r.max_cost_nano ≡ quantize_storable_nano (pos reserved)
    → spent_before r db + storable_actual_cost_nano actual ≤ max_storable_nano
    → ((rc : SettlementReceipt) × ((settle r actual now db).0 ≡ ok rc) × (rc.breach ≡ false))
      × (circuit_of (settle r actual now db).1.control ≡ circuit_of db.control)
settle_within c s d t r now db input output limit reserved actual usable f exact within priced
      charged quantized room =
    let (least, _, _) = quantize_least reserved in
    settle_calm r actual now db usable f
      (larger_maximum reserved r.max_cost_nano actual (rw quantized least) (
        cost_within_reservation c s d t input output limit (pos reserved) actual exact within priced
          charged))
      (unsaturated (spent_before r db) (storable_actual_cost_nano actual) room)
