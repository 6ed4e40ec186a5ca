-- ===== src/Service/Accounting.antt =====
-- What a generation that succeeded owes before its reply is sent.
use mod_playerbot_llm.Prelude.{
  ok_inj, ℕ, suc, ◌≡◌, ◌≢◌, refl, ap, sym, ◌∙◌, true, false, Option, none, some, Result, ok, err,
  continue, pure, Bool-cases, inl, inr,
}
use mod_playerbot_llm.Prelude.Int.{ℤ, pos, ltb_ℤ}
use mod_playerbot_llm.Budget.{AdmissionDecision, admitted, storable_actual_cost_nano}
use mod_playerbot_llm.Ledger.Tables.{Database, LedgerFault}
use mod_playerbot_llm.Ledger.{
  BudgetLedger, Reservation, SettlementReceipt, refused, reserve, settle,
}
use mod_playerbot_llm.Ledger.Funding.{IsFunded, IsUsable}
use mod_playerbot_llm.Ledger.Reserving.{reserve-IsFunded}
use mod_playerbot_llm.Ledger.Settling.{was_open}
use mod_playerbot_llm.Ledger.Charging.{settle_results, settle_lem}
use mod_playerbot_llm.Ledger.Recording.{Recorded, settle-Recorded}
use mod_playerbot_llm.Provider.{
  GenerationProviderMetadata, max_output_tokens, GenerationUsage, GenerationError, Generated,
}
use mod_playerbot_llm.Service.Config.{SidecarConfig}
use mod_playerbot_llm.Service.Calls.{
  Sidecar, Fault, Outside, Call, Outcome, failed, answered, ledger_result, actual_cost_nano,
  settled_outcome, settle_reply, use_generated, on_decision, asked, reserve_call, on_tokens,
  run_call, account_for_failure,
}

settle_completed :
    {book : BudgetLedger} (r : Reservation) (cost : ℤ) (now : ℕ) (db : Database)
    → IsUsable book
    → IsFunded book db
    → (rc : SettlementReceipt) → (settle r cost now db).0 ≡ ok rc
    → rc.completed ≡ true
    → rc.stored_cost_nano ≡ some (storable_actual_cost_nano cost)
settle_completed r cost now db usable f rc e done = elim (settle_results r cost now db usable f) [
  | inl charged ↦ ap (λ x. x.stored_cost_nano) (ok_inj (sym e ∙ charged))
  | inr late ↦
      let same : false ≡ rc.completed = ap (λ x. x.completed) (ok_inj (sym late ∙ e)) in absurd (cc)
]

settle-was_open :
    {book : BudgetLedger} (r : Reservation) (cost : ℤ) (now : ℕ) (db : Database)
    → IsUsable book
    → IsFunded book db
    → (rc : SettlementReceipt) → (settle r cost now db).0 ≡ ok rc
    → rc.completed ≡ true
    → was_open r db ≡ true
settle-was_open r cost now db usable f rc e done = elim (Bool-cases (was_open r db)) [
  | inl opened ↦ opened
  | inr gone ↦
      let late : (settle r cost now db).0 ≡ ok refused =
        rw (settle_lem r cost now db usable f) (rw gone refl) in
      let same : false ≡ rc.completed = ap (λ x. x.completed) (ok_inj (sym late ∙ e)) in absurd (cc)
]

generations_kept :
    {R : Type 0} (s : Sidecar) (x : Result LedgerFault SettlementReceipt × Database)
    (f : SettlementReceipt → Outcome R)
    → (continue (ledger_result s x) (λ a. pure (f a))).1.generations ≡ s.generations
generations_kept s (ok a, db) f = refl
generations_kept s (err e, db) f = refl

failed_only :
    {A R : Type 0} (x : Result Fault A × Sidecar) (error : GenerationError) (reply : R)
    (usage : GenerationUsage) (rc : SettlementReceipt)
    → (continue x (λ _. pure (failed error))).0 ≢ ok (answered reply usage rc)
failed_only (ok a, s) error reply usage rc e = cc
failed_only (err a, s) error reply usage rc e = cc

ledger_kept :
    {R : Type 0} (s : Sidecar) (x : Result LedgerFault SettlementReceipt × Database)
    (f : SettlementReceipt → Outcome R)
    → (continue (ledger_result s x) (λ a. pure (f a))).1.ledger ≡ x.1
ledger_kept s (ok a, db) f = refl
ledger_kept s (err e, db) f = refl

module _ {R : Type 0} (config : SidecarConfig) (metadata : GenerationProviderMetadata)
    (book : BudgetLedger) (out : Outside) where
  -- A reply of the provider whose cost is on record: of the receipt, and in the tables.
  pub record Charged (r : Reservation) (db after : Database)
      (generated : Generated (R × GenerationUsage)) (reply : R) (usage : GenerationUsage)
      (rc : SettlementReceipt) : Type 0 where
    pub cost : ℤ
    pub own : generated ≡ ok (reply, usage)
    pub priced :
        actual_cost_nano usage config.input_usd_per_mtok config.output_usd_per_mtok ≡ some cost
    pub settled : rc.completed ≡ true
    pub stored : rc.stored_cost_nano ≡ some (storable_actual_cost_nano cost)
    pub recorded : Recorded r cost db after

  -- What a reply owes: one reservation, one generation and one charge.
  pub record Settled (s s' : Sidecar) (call : Call R) (reply : R) (usage : GenerationUsage)
      (rc : SettlementReceipt) : Type 0 where
    pub tokens : ℤ
    pub limit : ℕ
    pub reservation : Reservation
    pub counted : call.input_tokens ≡ ok tokens
    pub output_limit : max_output_tokens metadata.output_token_limits call.operation ≡ some limit
    pub once : s'.generations ≡ suc s.generations
    pub reserved :
        (reserve book
          (asked config metadata book out call tokens limit)
          out.random
          out.now
          s.ledger).0
        ≡ ok (admitted, some reservation)
    pub charged :
        Charged reservation
          (reserve book
            (asked config metadata book out call tokens limit)
            out.random
            out.now
            s.ledger).1
          s'.ledger
          call.generated
          reply
          usage
          rc

  settled_cases :
      (s : Sidecar) (reply reply' : R) (usage usage' : GenerationUsage) (rc : SettlementReceipt)
      (x : Result LedgerFault SettlementReceipt × Database)
      → (continue
          (ledger_result s x)
          (λ a. pure (settled_outcome config metadata book out reply usage a))).0
        ≡ ok (answered reply' usage' rc)
      → (reply ≡ reply') × (usage ≡ usage') × (x.0 ≡ ok rc) × (rc.completed ≡ true)
  settled_cases s reply reply' usage usage' rc (err e, db) q = cc
  settled_cases s reply reply' usage usage' rc (ok a, db) q = elim (Bool-cases a.completed) [
    | inl done ↦
        let q' = rw done at q in let same : a ≡ rc = cc in (cc, cc, ap ok same, rw (← same) done)
    | inr late ↦ let q' = rw late at q in absurd (cc)
  ]

  settle_reply_answered :
      (s : Sidecar) (r : Reservation) (reply reply' : R) (usage usage' : GenerationUsage)
      (cost : Option ℤ) (rc : SettlementReceipt)
      → IsUsable book
      → IsFunded book s.ledger
      → actual_cost_nano usage config.input_usd_per_mtok config.output_usd_per_mtok ≡ cost
      → (settle_reply config metadata book out r reply usage cost s).0
        ≡ ok (answered reply' usage' rc)
      → let s' = (settle_reply config metadata book out r reply usage cost s).1 in
        (s'.generations ≡ s.generations)
        × Charged r s.ledger s'.ledger (ok (reply, usage)) reply' usage' rc
  settle_reply_answered s r reply reply' usage usage' none rc usable f c e = absurd (cc)
  settle_reply_answered s r reply reply' usage usage' (some cost) rc usable f c e =
      let x = settle r cost out.settled_at s.ledger in
      let (same, same', charged, done) = settled_cases s reply reply' usage usage' rc x e in
      let outcome = settled_outcome config metadata book out reply usage in
      (
        generations_kept s x outcome,
        record {
          cost = cost;
          own = cc;
          priced = cc;
          settled = done;
          stored = settle_completed r cost out.settled_at s.ledger usable f rc charged done;
          recorded = rw (ledger_kept s x outcome) (
              settle-Recorded r cost out.settled_at s.ledger usable f
                (settle-was_open r cost out.settled_at s.ledger usable f rc charged done));
        },
      )

  use_generated_answered :
      (s : Sidecar) (r : Reservation) (generated : Generated (R × GenerationUsage)) (reply : R)
      (usage : GenerationUsage) (rc : SettlementReceipt)
      → IsUsable book
      → IsFunded book s.ledger
      → (use_generated config metadata book out r generated s).0 ≡ ok (answered reply usage rc)
      → let s' = (use_generated config metadata book out r generated s).1 in
        (s'.generations ≡ s.generations) × Charged r s.ledger s'.ledger generated reply usage rc
  use_generated_answered s r (ok (reply', usage')) reply usage rc usable f e =
      settle_reply_answered s r reply' reply usage' usage _ rc usable f refl e
  use_generated_answered s r (err error) reply usage rc usable f e =
      absurd
        (failed_only (account_for_failure config out.settled_at r error s) error reply usage rc e)

  decided_answered :
      (s : Sidecar) (call : Call R)
      (x : Result LedgerFault (AdmissionDecision × Option Reservation) × Database) (reply : R)
      (usage : GenerationUsage) (rc : SettlementReceipt)
      → IsUsable book
      → IsFunded book x.1
      → let y = continue (ledger_result s x) (on_decision config metadata book out call) in
        y.0 ≡ ok (answered reply usage rc)
        → (y.1.generations ≡ suc s.generations)
          × ((r : Reservation) × (x.0 ≡ ok (admitted, some r))
              × Charged r x.1 y.1.ledger call.generated reply usage rc)
  decided_answered s call (err e, db) reply usage rc usable f q = absurd (cc)
  decided_answered s call (ok (admitted, some r), db) reply usage rc usable f q =
      let (same, charged) =
        use_generated_answered (record s { ledger = db; generations = suc s.generations }) r
          call.generated reply usage rc usable f q in
      (same, (r, refl, charged))
  decided_answered s call (ok (admitted, none), db) reply usage rc usable f q = absurd (cc)
  decided_answered s call (ok (_, r), db) reply usage rc usable f q = absurd (cc)

  reserve_call_answered :
      (s : Sidecar) (call : Call R) (tokens : ℤ) (limit : Option ℕ) (reply : R)
      (usage : GenerationUsage) (rc : SettlementReceipt)
      → IsUsable book
      → IsFunded book s.ledger
      → call.input_tokens ≡ ok tokens
      → max_output_tokens metadata.output_token_limits call.operation ≡ limit
      → (reserve_call config metadata book out call tokens limit s).0 ≡ ok (answered reply usage rc)
      → Settled s (reserve_call config metadata book out call tokens limit s).1 call reply usage rc
  reserve_call_answered s call tokens none reply usage rc usable f counted limited e = absurd (cc)
  reserve_call_answered s call tokens (some limit) reply usage rc usable f counted limited e =
      let ask = asked config metadata book out call tokens limit in
      let (once, (r, reserved, charged)) =
        decided_answered s call (reserve book ask out.random out.now s.ledger) reply usage rc usable
          (reserve-IsFunded book ask out.random out.now s.ledger f) e in
      record {
        tokens = tokens;
        limit = limit;
        reservation = r;
        counted = counted;
        output_limit = limited;
        once = once;
        reserved = reserved;
        charged = charged;
      }

  on_tokens_answered :
      (s : Sidecar) (call : Call R) (tokens : Generated ℤ) (reply : R) (usage : GenerationUsage)
      (rc : SettlementReceipt)
      → IsUsable book
      → IsFunded book s.ledger
      → call.input_tokens ≡ tokens
      → (on_tokens config metadata book out call tokens s).0 ≡ ok (answered reply usage rc)
      → Settled s (on_tokens config metadata book out call tokens s).1 call reply usage rc
  on_tokens_answered s call (err error) reply usage rc usable f counted e = absurd (cc)
  on_tokens_answered s call (ok tokens) reply usage rc usable f counted e =
      elim (Bool-cases (ltb_ℤ (pos metadata.max_input_tokens) tokens)) [
        | inl long ↦ let e' = rw long at e in absurd (cc)
        | inr fits ↦
            let e' = rw fits at e in
            rw fits (reserve_call_answered s call tokens _ reply usage rc usable f counted refl e')
      ]

  -- A reply that a handler may send is the provider's own, generated by exactly one call under a
  -- reservation that the ledger admitted for the counted prompt, and its cost, that of the reported token
  -- counts, is on record: the settlement completed, the reservation's row is completed at the cost rounded
  -- up to what the column holds, no row is reserved under its id, its day has spent as much more than right
  -- after the reservation, up to the largest storable total, and no other day has. (The ceiling is usable,
  -- and the ledger is funded before.)
  pub run_call_answered :
      (s : Sidecar) (call : Call R) (reply : R) (usage : GenerationUsage) (rc : SettlementReceipt)
      → IsUsable book
      → IsFunded book s.ledger
      → (run_call config metadata book out call s).0 ≡ ok (answered reply usage rc)
      → Settled s (run_call config metadata book out call s).1 call reply usage rc
  unfolding run_call
  run_call_answered s call reply usage rc usable f e =
      on_tokens_answered s call call.input_tokens reply usage rc usable f refl e
