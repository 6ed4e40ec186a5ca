-- ===== src/Service/Failures.antt =====
-- `_account_for_failure` of app.py: what is done with the reservation of a generation that failed.
use mod_playerbot_llm.Prelude.{
  ℕ, Bool, ◌≡◌, refl, true, none, some, Result, ok, err, continue, pure, Bool-cases, inl, inr,
}
use mod_playerbot_llm.Prelude.Int.{ℤ}
use mod_playerbot_llm.Ledger.Tables.{Database, LedgerFault}
use mod_playerbot_llm.Ledger.{BudgetLedger, Reservation, SettlementReceipt, settle, release}
use mod_playerbot_llm.Ledger.Funding.{IsFunded, IsUsable}
use mod_playerbot_llm.Ledger.Settling.{was_open}
use mod_playerbot_llm.Ledger.Recording.{Recorded, Returned, settle-Recorded, release-Returned}
use mod_playerbot_llm.Provider.{
  GenerationUsage, GenerationError, generation_error, timeout_error, auth_error, rate_limit_error,
  provider_error, invalid_output_error, is_priceable, impossible, known, indeterminate,
  billing_status, error_usage,
}
use mod_playerbot_llm.Service.Config.{SidecarConfig}
use mod_playerbot_llm.Service.Calls.{
  Sidecar, ledger_result, actual_cost_nano, account_for_failure, reported,
  released_nothing_generated,
}

known_usage :
    (error : GenerationError)
    → billing_status error ≡ known
    → (usage : GenerationUsage) × (error_usage error ≡ some usage) × (is_priceable usage ≡ true)
unfolding billing_status error_usage
known_usage generation_error e = cc
known_usage timeout_error e = cc
known_usage auth_error e = cc
known_usage rate_limit_error e = cc
known_usage provider_error e = cc
known_usage (invalid_output_error none) e = cc
known_usage (invalid_output_error (some usage)) e = elim (Bool-cases (is_priceable usage)) [
  | inl good ↦ (usage, refl, good)
  | inr bad ↦ let e' = rw bad at e in cc
]

unknown_state :
    (config : SidecarConfig) (now : ℕ) (r : Reservation) (s : Sidecar) (error : GenerationError)
    → billing_status error ≡ indeterminate
    → (account_for_failure config now r error s).1 ≡ s
unfolding account_for_failure billing_status error_usage actual_cost_nano
unknown_state config now r s generation_error e = refl
unknown_state config now r s timeout_error e = refl
unknown_state config now r s auth_error e = cc
unknown_state config now r s rate_limit_error e = cc
unknown_state config now r s provider_error e = refl
unknown_state config now r s (invalid_output_error none) e = refl
unknown_state config now r s (invalid_output_error (some usage)) e =
    elim (Bool-cases (is_priceable usage)) [
      | inl good ↦ let e' = rw good at e in cc
      | inr bad ↦ rw bad (rw bad refl)
    ]

module _ (config : SidecarConfig) (book : BudgetLedger) (now : ℕ) (r : Reservation) (s : Sidecar)
    (usable : IsUsable book) (f : IsFunded book s.ledger) where
  released_tables :
      (x : Result LedgerFault Bool × Database)
      → (continue (ledger_result s x) (λ _. pure released_nothing_generated)).1.ledger ≡ x.1
  released_tables (ok a, db) = refl
  released_tables (err e, db) = refl

  account_cost_tables :
      (x : Result LedgerFault SettlementReceipt × Database)
      → (continue (ledger_result s x) (λ a. pure (reported config now r a))).1.ledger ≡ x.1
  account_cost_tables (ok a, db) = refl
  account_cost_tables (err e, db) = refl

  impossible_tables :
      (error : GenerationError)
      → billing_status error ≡ impossible
      → Returned r s.ledger (account_for_failure config now r error s).1.ledger
  unfolding account_for_failure
  impossible_tables error e =
      rw e (rw (released_tables (release r s.ledger)) (release-Returned r s.ledger usable f))

  known_tables :
      (error : GenerationError)
      → billing_status error ≡ known
      → (usage : GenerationUsage) × (error_usage error ≡ some usage)
        × (is_priceable usage ≡ true)
        × ((cost : ℤ)
            → actual_cost_nano usage config.input_usd_per_mtok config.output_usd_per_mtok
              ≡ some cost
            → was_open r s.ledger ≡ true
            → Recorded r cost s.ledger (account_for_failure config now r error s).1.ledger)
  unfolding account_for_failure
  known_tables error e =
      let (usage, same, good) = known_usage error e in
      (
        usage,
        same,
        good,
        λ cost priced opened. rw e (
            rw same (
              rw priced (
                rw (account_cost_tables (settle r cost now s.ledger))
                  (settle-Recorded r cost now s.ledger usable f opened)))),
      )

  -- A failed generation is accounted for by what is known of its bill. Where nothing can have been billed,
  -- the reservation is held no longer and no day has spent anything for it. Where the bill is known, the
  -- error reports priceable token counts; at any cost that the configured prices give them, if the reservation
  -- is still reserved, its row is completed at that cost as it can be stored, none is reserved under its id,
  -- its day has spent as much more, up to the largest storable total, and no other day has. Where the bill
  -- cannot be determined, every table stays as it is, so the reservation stays outstanding. (The ceiling is
  -- usable, and the ledger is funded before.)
  pub account_for_failure_lem :
      (error : GenerationError)
      → (billing_status error ≡ impossible
          → Returned r s.ledger (account_for_failure config now r error s).1.ledger)
        × (billing_status error ≡ known
            → (usage : GenerationUsage) × (error_usage error ≡ some usage)
              × (is_priceable usage ≡ true)
              × ((cost : ℤ)
                  → actual_cost_nano usage config.input_usd_per_mtok config.output_usd_per_mtok
                    ≡ some cost
                  → was_open r s.ledger ≡ true
                  → Recorded r cost s.ledger (account_for_failure config now r error s).1.ledger))
        × (billing_status error ≡ indeterminate → (account_for_failure config now r error s).1 ≡ s)
  account_for_failure_lem error =
      (impossible_tables error, known_tables error, unknown_state config now r s error)
