-- ===== src/Ledger.antt =====
-- sidecar/src/playerbots_llm/ledger.py: the durable half of admission. A method is one transaction on the
-- budget tables; a statement that fails rolls it back and raises.
pub mod Tables
pub mod Sums
pub mod Funding
pub mod Reserving
pub mod Settling
pub mod Charging
pub mod Once
pub mod Recording
pub mod Within
pub mod Issuing
pub mod Runs
pub mod Deciding
pub mod Circuit
use mod_playerbot_llm.Prelude.{
  ℕ, suc, ◌+◌, ◌-◌, ◌*◌, min, Bool, true, false, ◌||◌, Option, none, some, List, [], ◌∷◌, ◌++◌, map,
  any, length, Result, ok, err, Action, pure, raise, gets, modify, lift, transaction, ◌>>=◌, ◌>>◌,
  ltb, if◌then◌else◌,
}
use mod_playerbot_llm.Prelude.Int.{ℤ, pos, negsuc, pos_part, ltb_ℤ}
use mod_playerbot_llm.Prelude.Text.{Text, codes, take}
use mod_playerbot_llm.Budget.{
  RequestPriority, RequestKind, AdmissionDecision, admitted, BudgetState, Ratio, max_storable_nano,
  admit, quantize_storable_nano, storable_actual_cost_nano, circuit_should_open, nano_to_usd_string,
}
use mod_playerbot_llm.Schema.{acquire_named_lock, utc_day}
use Tables.{
  ReservationRow, reserved, DayRow, Control, Database, LedgerFault, bad_model, day_row_missing,
  out_of_range, duplicate_public_id, usd_column, nano_of_column, held, live, sweep, is_open,
  complete, give_back, find_spent, upsert_day, spend_row, reserve_row, circuit_of, has_public_id,
}

-- Ten minutes.
abbrev pub reservation_expiry : ℕ
reservation_expiry = 600

abbrev pub circuit_reason_limit : ℕ
circuit_reason_limit = 128

abbrev pub model_name_limit : ℕ
model_name_limit = 64

abbrev pub priority_lane_unspecified : Text
priority_lane_unspecified = codes "unspecified"

pub record Reservation : Type 0 where
  pub reservation_id : ℕ
  pub public_id : Text
  pub budget_date : ℕ
  pub max_cost_nano : ℕ

pub record SettlementReceipt : Type 0 where
  pub completed : Bool
  pub stored_cost_nano : Option ℕ
  pub breach : Bool
  pub saturated : Bool

-- What `BudgetLedger.__init__` keeps.
pub record BudgetLedger : Type 0 where
  pub ceiling_nano : ℕ
  pub reserve_ratio : Ratio

abbrev pub Ledger : Type 0 → Type 0
Ledger A = Action Database LedgerFault A

-- The body of a public id is 16 random bytes in hexadecimal: the random text is an argument.
unfoldable pub mint_public_id : Text → Text
mint_public_id random = codes "req_" ++ random

unfoldable pub circuit_open : Ledger Bool
circuit_open db = (ok (circuit_of db.control), db)

unfoldable pub open_circuit : Text → ℕ → Ledger Unit
open_circuit reason now db = (
  ok tt,
  record db {
    control = some (record {
      budget_circuit_open = true;
      budget_circuit_reason = take circuit_reason_limit reason;
      budget_circuit_opened_at = now;
    });
  },
)

abbrev pub set_reserved : ℕ → Result LedgerFault ℕ → Ledger Unit
set_reserved day (ok total) db = (ok tt, record db { days = map (reserve_row day total) db.days })
set_reserved day (err e) db = (err e, db)

unfoldable pub refresh_reserved_usd : ℕ → Ledger Unit
refresh_reserved_usd day db =
    set_reserved day (usd_column (nano_of_column (held day db.reservations))) db

abbrev pub spent_or_missing : Option ℕ → Result LedgerFault ℕ
spent_or_missing none = err day_row_missing
spent_or_missing (some micro) = ok (nano_of_column micro)

unfoldable pub lock_day : ℕ → Ledger (ℕ × Bool)
unfolding circuit_open acquire_named_lock
lock_day day = do
  modify (λ db. record db { locks = acquire_named_lock (codes "budget_day") db.locks })
  modify (λ db. record db { days = upsert_day day db.days })
  row ← gets (λ db. find_spent day db.days)
  spent ← lift (spent_or_missing row)
  is_circuit_open ← circuit_open
  pure (spent, is_circuit_open)

unfoldable pub outstanding_nano : ℕ → ℕ → Ledger ℕ
outstanding_nano day now = do
  modify (λ db. record db { reservations = sweep day now db.reservations })
  gets (λ db. nano_of_column (held day db.reservations))

abbrev pub quantized : Option ℤ → Option ℤ
quantized none = none
quantized (some cost) =
    if ltb_ℤ (pos 0) cost then some (pos (quantize_storable_nano cost)) else some cost

abbrev pub cost_or_zero : Option ℤ → ℕ
cost_or_zero none = 0
cost_or_zero (some cost) = pos_part cost

abbrev pub insert_row : ReservationRow → Ledger ℕ
insert_row row db =
    if has_public_id row.public_id db.reservations then (err duplicate_public_id, db) else (
      ok row.id,
      record db { reservations = db.reservations ++ row ∷ []; next_id = suc db.next_id },
    )

-- What a request asks of the ledger.
pub record Ask : Type 0 where
  pub request_kind : RequestKind
  pub model : Text
  pub max_cost_nano : Option ℤ
  pub priority : RequestPriority

abbrev pub new_row : Ask → Text → ℕ → ℕ → ℕ → ℕ → ReservationRow
new_row ask public_id day now cost i = record {
  id = i;
  public_id = public_id;
  budget_date = day;
  request_kind = ask.request_kind;
  priority_lane = priority_lane_unspecified;
  model = ask.model;
  max_cost_usd = cost;
  actual_cost_usd = none;
  state = reserved;
  expires_at = now + reservation_expiry;
  settled_at = none;
}

-- The rest of `reserve` once the policy has decided.
abbrev pub record_decision :
    Ask → Text → ℕ → ℕ → ℕ → AdmissionDecision → Ledger (AdmissionDecision × Option Reservation)
record_decision ask public_id day now cost admitted = do
  column ← lift (usd_column cost)
  i ← gets (λ db. db.next_id)
  insert_row (new_row ask public_id day now column i)
  refresh_reserved_usd day
  pure (
    admitted,
    some (record {
      reservation_id = i;
      public_id = public_id;
      budget_date = day;
      max_cost_nano = cost;
    }),
  )
record_decision ask public_id day now cost denied = do refresh_reserved_usd day; pure (denied, none)

unfoldable pub reserve_in_day :
    BudgetLedger → Ask → Text → ℕ → ℕ → Ledger (AdmissionDecision × Option Reservation)
reserve_in_day book ask public_id day now db =
    (do
      (spent, is_circuit_open) ← lock_day day
      outstanding ← outstanding_nano day now
      let max_cost = quantized ask.max_cost_nano
      record_decision ask public_id day now (cost_or_zero max_cost) (
          admit (pos book.ceiling_nano)
            (record {
              settled_nano = pos spent;
              outstanding_nano = pos outstanding;
              circuit_open = is_circuit_open;
            })
            max_cost ask.priority book.reserve_ratio))
      db

abbrev bad_model_name : Text → Bool
bad_model_name [] = true
bad_model_name (c ∷ cs) = ltb model_name_limit (length (c ∷ cs))

unfoldable pub reserve :
    BudgetLedger
    → Ask
    → (random : Text) → (now : ℕ) → Ledger (AdmissionDecision × Option Reservation)
unfolding mint_public_id utc_day
reserve book ask random now =
    if bad_model_name ask.model
    then raise bad_model
    else transaction (reserve_in_day book ask (mint_public_id random) (utc_day now) now)

abbrev pub overrun_text : Reservation → ℤ → Text
overrun_text r actual =
    codes "cost "
    ++ (nano_to_usd_string actual
        ++ (codes " over reservation " ++ nano_to_usd_string (pos r.max_cost_nano)))

abbrev pub saturation_text : ℕ → Text
saturation_text discarded =
    codes "day saturated at "
    ++ (nano_to_usd_string (pos max_storable_nano)
        ++ (codes ", discarding " ++ nano_to_usd_string (pos discarded)))

-- `"; ".join(causes)`
abbrev pub reason_text : Bool → Bool → Text → Text → Text
reason_text true true overrun saturation = overrun ++ (codes "; " ++ saturation)
reason_text true false overrun saturation = overrun
reason_text false true overrun saturation = saturation
reason_text false false overrun saturation = []

abbrev pub open_if : Bool → Bool → Text → ℕ → Ledger Unit
open_if breach saturated reason now =
    if breach || saturated then open_circuit reason now else pure tt

-- UPDATE ... SET spent_usd = spent_usd + added: the column's own value plus the amount.
abbrev pub set_spent : ℕ → Result LedgerFault ℕ → Ledger Unit
set_spent day (ok total) db = (ok tt, record db { days = map (spend_row day total) db.days })
set_spent day (err e) db = (err e, db)

abbrev pub add_spent : ℕ → ℕ → ℕ → Ledger Unit
add_spent day spent added = set_spent day (usd_column (spent + added))

-- What of a cost the day's total can still take: never below 0.
abbrev pub added_to : ℕ → ℕ → ℕ
added_to spent_before storable = min storable (max_storable_nano - spent_before)

abbrev pub is_saturated : ℕ → ℕ → Bool
is_saturated spent_before storable = ltb (added_to spent_before storable) storable

abbrev pub is_breach : Reservation → ℤ → Bool
is_breach r actual = circuit_should_open (pos r.max_cost_nano) actual

abbrev pub reason : Reservation → ℤ → ℕ → Text
reason r actual spent_before =
    let storable = storable_actual_cost_nano actual in
    reason_text (is_breach r actual) (is_saturated spent_before storable) (overrun_text r actual)
      (saturation_text (storable - added_to spent_before storable))

abbrev pub receipt : Reservation → ℤ → ℕ → SettlementReceipt
receipt r actual spent_before = record {
  completed = true;
  stored_cost_nano = some (storable_actual_cost_nano actual);
  breach = is_breach r actual;
  saturated = is_saturated spent_before (storable_actual_cost_nano actual);
}

-- The rest of `settle` once the row has left the reserved state.
unfoldable pub charge : Reservation → ℤ → ℕ → ℕ → Ledger SettlementReceipt
charge r actual now spent_before = do
  add_spent r.budget_date spent_before (added_to spent_before (storable_actual_cost_nano actual))
  refresh_reserved_usd r.budget_date
  open_if (is_breach r actual) (is_saturated spent_before (storable_actual_cost_nano actual))
      (reason r actual spent_before) now
  pure (receipt r actual spent_before)

abbrev pub refused : SettlementReceipt
refused = record { completed = false; stored_cost_nano = none; breach = false; saturated = false }

-- UPDATE ... SET state = 'completed' ...: whether the row was still reserved.
abbrev pub mark_completed : ℕ → ℕ → Result LedgerFault ℕ → Ledger Bool
mark_completed i now (ok column) db = (
  ok (any (is_open i) db.reservations),
  record db { reservations = complete i column now db.reservations },
)
mark_completed i now (err e) db = (err e, db)

abbrev pub complete_reservation : ℕ → ℕ → ℕ → Ledger Bool
complete_reservation i cost now = mark_completed i now (usd_column cost)

unfoldable pub settle_in_day : Reservation → ℤ → ℕ → Ledger SettlementReceipt
settle_in_day r actual now = do
  (spent_before, _) ← lock_day r.budget_date
  was_open ← complete_reservation r.reservation_id (storable_actual_cost_nano actual) now
  if was_open then charge r actual now spent_before else pure refused

unfoldable pub settle : Reservation → ℤ → ℕ → Ledger SettlementReceipt
settle r actual now = transaction (settle_in_day r actual now)

abbrev pub release_reservation : ℕ → Ledger Bool
release_reservation i db =
    (ok (any (is_open i) db.reservations), record db { reservations = give_back i db.reservations })

unfoldable pub release_in_day : Reservation → Ledger Bool
release_in_day r = do
  lock_day r.budget_date
  was_open ← release_reservation r.reservation_id
  if was_open then refresh_reserved_usd r.budget_date else pure tt
  pure was_open

unfoldable pub release : Reservation → Ledger Bool
release r = transaction (release_in_day r)

abbrev spent_or_zero : Option ℕ → ℕ
spent_or_zero none = 0
spent_or_zero (some micro) = nano_of_column micro

-- Reads without a lock: the expired reservations are left out, swept or not.
unfoldable pub snapshot : ℕ → Database → BudgetState
unfolding utc_day
snapshot now db = record {
  settled_nano = pos (spent_or_zero (find_spent (utc_day now) db.days));
  outstanding_nano = pos (nano_of_column (live (utc_day now) now db.reservations));
  circuit_open = circuit_of db.control;
}
