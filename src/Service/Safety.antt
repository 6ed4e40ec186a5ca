-- ===== src/Service/Safety.antt =====
-- Every request keeps the ledger funded, whatever the provider returns and whenever it does.
use mod_playerbot_llm.Prelude.{
  ℕ, Option, none, some, [], ◌∷◌, Result, ok, err, continue, Bool-cases, inl, inr, then_pure-keeps,
  then_pure_of-keeps,
}
use mod_playerbot_llm.Prelude.Int.{ℤ, pos, ltb_ℤ}
use mod_playerbot_llm.Budget.{AdmissionDecision, admitted}
use mod_playerbot_llm.Ledger.Tables.{Database, LedgerFault}
use mod_playerbot_llm.Ledger.{BudgetLedger, Reservation, reserve, settle, release}
use mod_playerbot_llm.Ledger.Funding.{IsFunded, IsUsable}
use mod_playerbot_llm.Ledger.Settling.{IsIssued}
use mod_playerbot_llm.Ledger.Reserving.{reserve-IsFunded}
use mod_playerbot_llm.Ledger.Charging.{settle-IsFunded}
use mod_playerbot_llm.Ledger.Once.{release-IsFunded}
use mod_playerbot_llm.Ledger.Issuing.{Good, note, reserve-Good}
use mod_playerbot_llm.Ledger.Runs.{settle-Good, release-Good}
use mod_playerbot_llm.Store.{Tables, StoreFault}
use mod_playerbot_llm.Provider.{
  GenerationProviderMetadata, GenerationUsage, GenerationError, GenerationBillingStatus, known,
  impossible, indeterminate, billing_status, error_usage, Generated,
}
use mod_playerbot_llm.Service.Config.{SidecarConfig}
use mod_playerbot_llm.Service.Calls.{
  Sidecar, Outside, Call, ledger_result, store_result, account_cost, account_usage, account_status,
  account_for_failure, settle_reply, use_generated, generate, on_decision, asked, reserve_call,
  on_tokens, run_call,
}

-- The ledger is funded, and its ids are minted in order.
pub record IsSafe (book : BudgetLedger) (s : Sidecar) : Type 0 where
  pub is_funded : IsFunded book s.ledger
  pub good : Good s.ledger []

module _ (book : BudgetLedger) where
  ledger_result-IsSafe :
      {A : Type 0} (s : Sidecar) (x : Result LedgerFault A × Database)
      → IsFunded book x.1
      → Good x.1 []
      → IsSafe book (ledger_result s x).1
  ledger_result-IsSafe s (ok a, db) f g = record { is_funded = f; good = g }
  ledger_result-IsSafe s (err e, db) f g = record { is_funded = f; good = g }

  pub store_result-IsSafe :
      {A : Type 0} (s : Sidecar) (x : Result StoreFault A × Tables)
      → IsSafe book s
      → IsSafe book (store_result s x).1
  store_result-IsSafe s (ok a, t) h = record { is_funded = h.is_funded; good = h.good }
  store_result-IsSafe s (err e, t) h = record { is_funded = h.is_funded; good = h.good }

module _ (book : BudgetLedger) (usable : IsUsable book) (s : Sidecar) (h : IsSafe book s)
    (r : Reservation) where
  settle-IsSafe :
      (cost : ℤ) (now : ℕ)
      → IsIssued r s.ledger
      → IsSafe book (ledger_result s (settle r cost now s.ledger)).1
  settle-IsSafe cost now issued =
      ledger_result-IsSafe book s _ (settle-IsFunded r cost now s.ledger usable issued h.is_funded)
        (settle-Good usable s.ledger h.is_funded r cost now [] h.good)

  release-IsSafe : IsSafe book (ledger_result s (release r s.ledger)).1
  release-IsSafe =
      ledger_result-IsSafe book s _ (release-IsFunded r s.ledger usable h.is_funded)
        (release-Good usable s.ledger h.is_funded r [] h.good)

  module _ (config : SidecarConfig) (now : ℕ) (issued : IsIssued r s.ledger) where
    account_cost-IsSafe : (cost : Option ℤ) → IsSafe book (account_cost config now r cost s).1
    account_cost-IsSafe none = h
    account_cost-IsSafe (some cost) =
        then_pure_of-keeps (IsSafe book) (ledger_result s (settle r cost now s.ledger)) _
          (settle-IsSafe cost now issued)

    account_usage-IsSafe :
        (usage : Option GenerationUsage) → IsSafe book (account_usage config now r usage s).1
    account_usage-IsSafe none = h
    account_usage-IsSafe (some usage) = account_cost-IsSafe _

    account_status-IsSafe :
        (status : GenerationBillingStatus) (usage : Option GenerationUsage)
        → IsSafe book (account_status config now r status usage s).1
    account_status-IsSafe impossible usage =
        then_pure-keeps (IsSafe book) (ledger_result s (release r s.ledger)) _ release-IsSafe
    account_status-IsSafe known usage = account_usage-IsSafe usage
    account_status-IsSafe indeterminate usage = account_usage-IsSafe usage

    account_for_failure-IsSafe :
        (error : GenerationError) → IsSafe book (account_for_failure config now r error s).1
    unfolding account_for_failure
    account_for_failure-IsSafe error =
        account_status-IsSafe (billing_status error) (error_usage error)

fewer : (db : Database) (r : Reservation) → Good db (r ∷ []) → Good db []
fewer db r g = record { issues = tt; numbered = g.numbered }

module _ {R : Type 0} (config : SidecarConfig) (metadata : GenerationProviderMetadata)
    (book : BudgetLedger) (out : Outside) (usable : IsUsable book) where
  settle_reply-IsSafe :
      (s : Sidecar) (r : Reservation) (reply : R) (usage : GenerationUsage) (cost : Option ℤ)
      → IsSafe book s
      → IsIssued r s.ledger
      → IsSafe book (settle_reply config metadata book out r reply usage cost s).1
  settle_reply-IsSafe s r reply usage none h issued = h
  settle_reply-IsSafe s r reply usage (some cost) h issued =
      then_pure_of-keeps (IsSafe book) (ledger_result s (settle r cost out.settled_at s.ledger)) _
        (settle-IsSafe book usable s h r cost out.settled_at issued)

  use_generated-IsSafe :
      (s : Sidecar) (r : Reservation) (generated : Generated (R × GenerationUsage))
      → IsSafe book s
      → IsIssued r s.ledger
      → IsSafe book (use_generated config metadata book out r generated s).1
  use_generated-IsSafe s r (err error) h issued =
      then_pure-keeps (IsSafe book) (account_for_failure config out.settled_at r error s) _
        (account_for_failure-IsSafe book usable s h r config out.settled_at issued error)
  use_generated-IsSafe s r (ok (reply, usage)) h issued =
      settle_reply-IsSafe s r reply usage _ h issued

  generate-IsSafe :
      (s : Sidecar) (r : Reservation) (generated : Generated (R × GenerationUsage))
      → IsSafe book s
      → IsIssued r s.ledger
      → IsSafe book (generate config metadata book out r generated s).1
  generate-IsSafe s r generated h issued =
      use_generated-IsSafe _ r generated (record { is_funded = h.is_funded; good = h.good }) issued

  decided-IsSafe :
      (s : Sidecar) (call : Call R)
      (x : Result LedgerFault (AdmissionDecision × Option Reservation) × Database)
      → IsFunded book x.1
      → Good x.1 (note x.0 [])
      → IsSafe book (continue (ledger_result s x) (on_decision config metadata book out call)).1
  decided-IsSafe s call (err e, db) f g = record { is_funded = f; good = g }
  decided-IsSafe s call (ok (admitted, some r), db) f g =
      generate-IsSafe (record s { ledger = db }) r call.generated
        (record { is_funded = f; good = fewer db r g }) (g.issues.0)
  decided-IsSafe s call (ok (admitted, none), db) f g = record { is_funded = f; good = g }
  decided-IsSafe s call (ok (_, some r), db) f g = record { is_funded = f; good = fewer db r g }
  decided-IsSafe s call (ok (_, none), db) f g = record { is_funded = f; good = g }

  reserve_call-IsSafe :
      (s : Sidecar) (call : Call R) (tokens : ℤ) (limit : Option ℕ)
      → IsSafe book s
      → IsSafe book (reserve_call config metadata book out call tokens limit s).1
  reserve_call-IsSafe s call tokens none h = h
  reserve_call-IsSafe s call tokens (some limit) h =
      let ask = asked config metadata book out call tokens limit in
      decided-IsSafe s call (reserve book ask out.random out.now s.ledger)
        (reserve-IsFunded book ask out.random out.now s.ledger h.is_funded)
        (reserve-Good book ask out.random out.now s.ledger [] h.good)

  on_tokens-IsSafe :
      (s : Sidecar) (call : Call R) (tokens : Generated ℤ)
      → IsSafe book s
      → IsSafe book (on_tokens config metadata book out call tokens s).1
  on_tokens-IsSafe s call (err error) h = h
  on_tokens-IsSafe s call (ok tokens) h =
      elim (Bool-cases (ltb_ℤ (pos metadata.max_input_tokens) tokens)) [
        | inl long ↦ rw long h
        | inr fits ↦ rw fits (reserve_call-IsSafe s call tokens _ h)
      ]

  pub run_call-IsSafe :
      (s : Sidecar) (call : Call R)
      → IsSafe book s
      → IsSafe book (run_call config metadata book out call s).1
  unfolding run_call
  run_call-IsSafe s call h = on_tokens-IsSafe s call call.input_tokens h
