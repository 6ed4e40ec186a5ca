-- ===== src/Service/Honest.antt =====
-- What `run_call` of Service.Calls leaves to a handler, and whether it may close the connection.
use mod_playerbot_llm.Prelude.{
  ℕ, suc, ◌≡◌, refl, inl, inr, Bool, true, false, Option, none, some, Result, ok, err, continue,
  pure, Bool-cases,
}
use mod_playerbot_llm.Prelude.Int.{ℤ, pos, ltb_ℤ}
use mod_playerbot_llm.Budget.{AdmissionDecision, admitted}
use mod_playerbot_llm.Ledger.Tables.{Database, LedgerFault}
use mod_playerbot_llm.Ledger.{
  BudgetLedger, Reservation, SettlementReceipt, reserve, settle, release,
}
use mod_playerbot_llm.Provider.{
  GenerationProviderMetadata, GenerationUsage, GenerationError, Generated, GenerationBillingStatus,
  impossible, known, indeterminate, billing_status, error_usage,
}
use mod_playerbot_llm.Service.Config.{SidecarConfig}
use mod_playerbot_llm.Service.Calls.{
  Sidecar, Fault, protocol_error, ledger_fault, store_fault, no_output_limit, bad_career_reply,
  Outside, Call, Outcome, silent, failed, answered, ledger_result, Accounted, account_cost,
  account_usage, account_status, account_for_failure, settled_outcome, settle_reply, use_generated,
  on_decision, asked, reserve_call, on_tokens, run_call, reported, released_nothing_generated,
}

-- The error that makes `handle_connection` close the connection.
abbrev pub refuses : Fault → Bool
refuses (protocol_error e) = true
refuses (ledger_fault e) = false
refuses (store_fault e) = false
refuses no_output_limit = false
refuses bad_career_reply = false

abbrev pub is_refusal : {A : Type 0} → Result Fault A → Bool
is_refusal (ok a) = false
is_refusal (err fault) = refuses fault

pub ledger_quiet :
    {A B : Type 0} (s : Sidecar) (x : Result LedgerFault A × Database) (f : A → B)
    → is_refusal (continue (ledger_result s x) (λ a. pure (f a))).0 ≡ false
ledger_quiet s (ok a, db) f = refl
ledger_quiet s (err e, db) f = refl

module _ (config : SidecarConfig) (now : ℕ) (r : Reservation) where
  cost_quiet :
      (cost : Option ℤ) (s : Sidecar) → is_refusal (account_cost config now r cost s).0 ≡ false
  cost_quiet none s = refl
  cost_quiet (some cost) s = ledger_quiet s (settle r cost now s.ledger) (reported config now r)

  usage_quiet :
      (usage : Option GenerationUsage) (s : Sidecar)
      → is_refusal (account_usage config now r usage s).0 ≡ false
  usage_quiet none s = refl
  usage_quiet (some usage) s = cost_quiet _ s

  status_quiet :
      (status : GenerationBillingStatus) (usage : Option GenerationUsage) (s : Sidecar)
      → is_refusal (account_status config now r status usage s).0 ≡ false
  status_quiet impossible usage s =
      ledger_quiet s (release r s.ledger) (λ _. released_nothing_generated)
  status_quiet known usage s = usage_quiet usage s
  status_quiet indeterminate usage s = usage_quiet usage s

-- An outcome that is no refusal and answers with nothing but what was generated.
pub record IsHonest {R : Type 0} (generated : Generated (R × GenerationUsage))
    (x : Result Fault (Outcome R) × Sidecar) : Type 0 where
  pub quiet : is_refusal x.0 ≡ false
  pub own :
      (reply : R) (usage : GenerationUsage) (receipt : SettlementReceipt)
      → x.0 ≡ ok (answered reply usage receipt)
      → generated ≡ ok (reply, usage)

silent-IsHonest :
    {R : Type 0} (generated : Generated (R × GenerationUsage)) (s : Sidecar)
    → IsHonest generated (ok silent, s)
silent-IsHonest generated s = record { quiet = refl; own = λ reply usage receipt h. cc }

failed-IsHonest :
    {R : Type 0} (generated : Generated (R × GenerationUsage))
    (x : Result Fault Accounted × Sidecar) (error : GenerationError)
    → is_refusal x.0 ≡ false
    → IsHonest {R = R} generated (continue x (λ _. pure (failed error)))
failed-IsHonest generated (ok a, s) error q = record {
  quiet = refl;
  own = λ reply usage receipt h. cc;
}
failed-IsHonest generated (err e, s) error q = record {
  quiet = q;
  own = λ reply usage receipt h. cc;
}

module _ {R : Type 0} (config : SidecarConfig) (metadata : GenerationProviderMetadata)
    (book : BudgetLedger) (out : Outside) where
  settled-IsHonest :
      (reply : R) (usage : GenerationUsage) (s : Sidecar)
      (x : Result LedgerFault SettlementReceipt × Database)
      → IsHonest (ok (reply, usage)) (
          continue
            (ledger_result s x)
            (λ a. pure (settled_outcome config metadata book out reply usage a)))
  settled-IsHonest reply usage s (err e, db) = record {
    quiet = refl;
    own = λ reply' usage' receipt h. cc;
  }
  settled-IsHonest reply usage s (ok a, db) = elim (Bool-cases a.completed) [
    | inl done ↦ rw done (record { quiet = refl; own = λ reply' usage' receipt h. cc })
    | inr late ↦ rw late (record { quiet = refl; own = λ reply' usage' receipt h. cc })
  ]

  reply-IsHonest :
      (r : Reservation) (reply : R) (usage : GenerationUsage) (cost : Option ℤ) (s : Sidecar)
      → IsHonest (ok (reply, usage)) (settle_reply config metadata book out r reply usage cost s)
  reply-IsHonest r reply usage none s = silent-IsHonest (ok (reply, usage)) s
  reply-IsHonest r reply usage (some cost) s =
      settled-IsHonest reply usage s (settle r cost out.settled_at s.ledger)

  generated-IsHonest :
      (r : Reservation) (generated : Generated (R × GenerationUsage)) (s : Sidecar)
      → IsHonest generated (use_generated config metadata book out r generated s)
  unfolding account_for_failure
  generated-IsHonest r (ok (reply, usage)) s = reply-IsHonest r reply usage _ s
  generated-IsHonest r (err error) s =
      failed-IsHonest (err error) (account_for_failure config out.settled_at r error s) error
        (status_quiet config out.settled_at r (billing_status error) (error_usage error) s)

  decided-IsHonest :
      (s : Sidecar) (call : Call R)
      (x : Result LedgerFault (AdmissionDecision × Option Reservation) × Database)
      → IsHonest call.generated
          (continue (ledger_result s x) (on_decision config metadata book out call))
  decided-IsHonest s call (err e, db) = record { quiet = refl; own = λ reply usage receipt h. cc }
  decided-IsHonest s call (ok (admitted, some r), db) =
      generated-IsHonest r call.generated
        (record s { ledger = db; generations = suc s.generations })
  decided-IsHonest s call (ok (admitted, none), db) = silent-IsHonest call.generated _
  decided-IsHonest s call (ok (_, r), db) = silent-IsHonest call.generated _

  reserved-IsHonest :
      (s : Sidecar) (call : Call R) (tokens : ℤ) (limit : Option ℕ)
      → IsHonest call.generated (reserve_call config metadata book out call tokens limit s)
  reserved-IsHonest s call tokens none = record { quiet = refl; own = λ reply usage receipt h. cc }
  reserved-IsHonest s call tokens (some limit) =
      decided-IsHonest s call (
        reserve book (asked config metadata book out call tokens limit) out.random out.now s.ledger)

  counted-IsHonest :
      (s : Sidecar) (call : Call R) (tokens : Generated ℤ)
      → IsHonest call.generated (on_tokens config metadata book out call tokens s)
  counted-IsHonest s call (err error) = silent-IsHonest call.generated s
  counted-IsHonest s call (ok tokens) =
      elim (Bool-cases (ltb_ℤ (pos metadata.max_input_tokens) tokens)) [
        | inl long ↦ rw long (silent-IsHonest call.generated s)
        | inr fits ↦ rw fits (reserved-IsHonest s call tokens _)
      ]

  pub run_call-IsHonest :
      (call : Call R) (s : Sidecar)
      → IsHonest call.generated (run_call config metadata book out call s)
  unfolding run_call
  run_call-IsHonest call s = counted-IsHonest s call call.input_tokens

-- A handler that refuses no outcome refuses nothing.
pub answered_quiet :
    {R A : Type 0} (generated : Generated (R × GenerationUsage))
    (x : Result Fault (Outcome R) × Sidecar)
    (answer : Outcome R → Sidecar → Result Fault A × Sidecar)
    → IsHonest generated x
    → ((outcome : Outcome R) (s : Sidecar)
        → ((reply : R) (usage : GenerationUsage) (receipt : SettlementReceipt)
            → outcome ≡ answered reply usage receipt
            → generated ≡ ok (reply, usage))
        → is_refusal (answer outcome s).0 ≡ false)
    → is_refusal (continue x answer).0 ≡ false
answered_quiet generated (ok outcome, s) answer honest quiet =
    quiet outcome s (λ reply usage receipt h. honest.own reply usage receipt (rw h refl))
answered_quiet generated (err e, s) answer honest quiet = honest.quiet
