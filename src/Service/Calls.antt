-- ===== src/Service/Calls.antt =====
-- The part that every request of app.py goes through: count the prompt, reserve, generate, settle, and
-- account for a generation that failed.
use mod_playerbot_llm.Prelude.{
  ℕ, suc, Option, none, some, Result, ok, err, Action, pure, raise, modify, ◌>>=◌, ◌>>◌,
  if◌then◌else◌,
}
use mod_playerbot_llm.Prelude.Int.{ℤ, pos, ◌+ℤ◌, ltb_ℤ}
use mod_playerbot_llm.Prelude.Text.{Text}
use mod_playerbot_llm.Budget.Arithmetic.{Amount}
use mod_playerbot_llm.Budget.{
  RequestPriority, RequestKind, AdmissionDecision, admitted, token_cost_nano,
  conservative_max_cost_nano,
}
use mod_playerbot_llm.Ledger.Tables.{Database, LedgerFault}
use mod_playerbot_llm.Ledger.{
  Ledger, BudgetLedger, Reservation, SettlementReceipt, Ask, reserve, settle, release,
}
use mod_playerbot_llm.Store.{Tables, StoreFault, Store}
use mod_playerbot_llm.Protocol.{ProtocolError}
use mod_playerbot_llm.Provider.{
  GenerationProviderMetadata, max_output_tokens, GenerationUsage, is_priceable, GenerationError,
  GenerationBillingStatus, impossible, billing_status, error_usage, Generated,
}
use mod_playerbot_llm.Service.Config.{SidecarConfig}

-- The tables of the ledger and of the store, and how many generations were asked of the provider. The two
-- parts hold disjoint keys of the one lock table.
pub record Sidecar : Type 0 where
  pub ledger : Database
  pub store : Tables
  pub generations : ℕ

-- What may escape a handler.
pub data Fault : Type 0 where
  ledger_fault : LedgerFault → Fault
  store_fault : StoreFault → Fault
  protocol_error : ProtocolError → Fault
  no_output_limit bad_career_reply : Fault

abbrev pub Act : Type 0 → Type 0
Act A = Action Sidecar Fault A

module _ {A : Type 0} where
  abbrev pub ledger_result : Sidecar → Result LedgerFault A × Database → Result Fault A × Sidecar
  ledger_result s (ok a, db) = (ok a, record s { ledger = db })
  ledger_result s (err e, db) = (err (ledger_fault e), record s { ledger = db })

  -- A call of the ledger on its tables.
  abbrev pub on_ledger : Ledger A → Act A
  on_ledger m s = ledger_result s (m s.ledger)

  abbrev pub store_result : Sidecar → Result StoreFault A × Tables → Result Fault A × Sidecar
  store_result s (ok a, t) = (ok a, record s { store = t })
  store_result s (err e, t) = (err (store_fault e), record s { store = t })

  -- A call of the store on its tables.
  abbrev pub on_store : Store A → Act A
  on_store m s = store_result s (m s.store)

-- What a request meets outside: two readings of the clock, before the prompt is counted and after the
-- generation, the random text of a public id, and the provider's latency.
pub record Outside : Type 0 where
  pub now : ℕ
  pub settled_at : ℕ
  pub random : Text
  pub latency_ms : ℕ

-- `_actual_cost_nano`, its `ValueError` as `none`.
unfoldable pub actual_cost_nano : GenerationUsage → Amount → Amount → Option ℤ
actual_cost_nano usage input_price output_price =
    if is_priceable usage
    then token_cost_nano
        (usage.input_tokens +ℤ usage.cache_creation_input_tokens +ℤ usage.cache_read_input_tokens)
        usage.output_tokens (some input_price) (some output_price)
    else none

-- What `_account_for_failure` reports.
pub data Accounted : Type 0 where
  released_nothing_generated left_unusable_cost refused_expired settled_reported
        left_indeterminate :
      Accounted

module _ (config : SidecarConfig) (now : ℕ) (r : Reservation) where
  abbrev pub reported : SettlementReceipt → Accounted
  reported receipt = if receipt.completed then settled_reported else refused_expired

  abbrev pub account_cost : Option ℤ → Act Accounted
  account_cost none = pure left_unusable_cost
  account_cost (some cost) = do receipt ← on_ledger (settle r cost now); pure (reported receipt)

  abbrev pub account_usage : Option GenerationUsage → Act Accounted
  account_usage none = pure left_indeterminate
  account_usage (some usage) =
      account_cost (actual_cost_nano usage config.input_usd_per_mtok config.output_usd_per_mtok)

  abbrev pub account_status : GenerationBillingStatus → Option GenerationUsage → Act Accounted
  account_status impossible usage = do _ ← on_ledger (release r); pure released_nothing_generated
  account_status _ usage = account_usage usage

  unfoldable pub account_for_failure : GenerationError → Act Accounted
  account_for_failure error = account_status (billing_status error) (error_usage error)

-- One generation as a handler asks for it.
pub record Call (R : Type 0) : Type 0 where
  pub request_kind : RequestKind
  pub priority : RequestPriority
  pub operation : Text
  pub input_tokens : Generated ℤ
  pub generated : Generated (R × GenerationUsage)

-- What became of it: nothing to say, a failure that was accounted for, or a reply whose cost is settled.
pub data Outcome (R : Type 0) : Type 0 where
  silent : Outcome R
  failed : GenerationError → Outcome R
  answered : R → GenerationUsage → SettlementReceipt → Outcome R

module _ {R : Type 0} (config : SidecarConfig) (metadata : GenerationProviderMetadata)
    (book : BudgetLedger) (out : Outside) where
  abbrev pub settled_outcome : R → GenerationUsage → SettlementReceipt → Outcome R
  settled_outcome reply usage receipt =
      if receipt.completed then answered reply usage receipt else silent

  abbrev pub settle_reply : Reservation → R → GenerationUsage → Option ℤ → Act (Outcome R)
  settle_reply r reply usage none = pure silent
  settle_reply r reply usage (some cost) = do
    receipt ← on_ledger (settle r cost out.settled_at)
    pure (settled_outcome reply usage receipt)

  abbrev pub use_generated : Reservation → Generated (R × GenerationUsage) → Act (Outcome R)
  use_generated r (err error) = do
    _ ← account_for_failure config out.settled_at r error
    pure (failed error)
  use_generated r (ok (reply, usage)) =
      settle_reply r reply usage
        (actual_cost_nano usage config.input_usd_per_mtok config.output_usd_per_mtok)

  abbrev pub generate : Reservation → Generated (R × GenerationUsage) → Act (Outcome R)
  generate r generated = do
    modify (λ s. record s { generations = suc s.generations })
    use_generated r generated

  abbrev pub on_decision : Call R → AdmissionDecision × Option Reservation → Act (Outcome R)
  on_decision call (admitted, some r) = generate r call.generated
  on_decision call (_, _) = pure silent

  abbrev pub asked : Call R → ℤ → ℕ → Ask
  asked call tokens limit = record {
    request_kind = call.request_kind;
    model = metadata.model;
    max_cost_nano =
        conservative_max_cost_nano tokens (pos limit) (some config.input_usd_per_mtok)
          (some config.output_usd_per_mtok);
    priority = call.priority;
  }

  abbrev pub reserve_call : Call R → ℤ → Option ℕ → Act (Outcome R)
  reserve_call call tokens none = raise no_output_limit
  reserve_call call tokens (some limit) = do
    decision ← on_ledger (reserve book (asked call tokens limit) out.random out.now)
    on_decision call decision

  abbrev pub on_tokens : Call R → Generated ℤ → Act (Outcome R)
  on_tokens call (err error) = pure silent
  on_tokens call (ok tokens) =
      if ltb_ℤ (pos metadata.max_input_tokens) tokens
      then pure silent
      else reserve_call call tokens (max_output_tokens metadata.output_token_limits call.operation)

  unfoldable pub run_call : Call R → Act (Outcome R)
  run_call call = on_tokens call call.input_tokens
