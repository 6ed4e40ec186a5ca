-- ===== src/Ledger/Reserving.antt =====
-- `BudgetLedger.reserve` keeps the invariant, and refuses without charging.
use mod_playerbot_llm.Prelude.{
  ℕ, suc, ◌+◌, ◌%◌, ◌≤◌, ◌≡◌, ◌≢◌, refl, Bool, false, Option, none, some, [], ◌∷◌, ◌++◌, Result, ok,
  err, arith, Bool-cases, inl, inr, then_pure-keeps, settled-keeps,
}
use mod_playerbot_llm.Prelude.Int.{ℤ, pos, negsuc, ◌+ℤ◌, ◌≤ℤ◌, int_laws}
use mod_playerbot_llm.Prelude.Text.{Text}
use mod_playerbot_llm.Budget.{
  RequestPriority, immediate_human, background, AdmissionDecision, admitted, BudgetState, admit,
}
use mod_playerbot_llm.Budget.Admission.{admit_iff, Affordable, admitted-cases}
use mod_playerbot_llm.Budget.Rounding.{quantize_least}
use mod_playerbot_llm.Schema.{utc_day}
use mod_playerbot_llm.Ledger.Tables.{
  Database, ReservationRow, reserved, usd_column, nano_of_column, held, sweep, circuit_of,
  has_public_id,
}
use mod_playerbot_llm.Ledger.Sums.{spent_on, spent_on-upsert, held-append}
use mod_playerbot_llm.Ledger.{
  BudgetLedger, Ask, new_row, outstanding_nano, record_decision, quantized, cost_or_zero,
  reserve_in_day, refresh_reserved_usd, reserve, mint_public_id, bad_model_name,
}
use mod_playerbot_llm.Ledger.Funding.{
  IsFunded, swept, swept-IsFunded, lock_day_lem, refresh-IsFunded,
}

-- What the policy decides from inside the transaction.
abbrev pub decision : BudgetLedger → Ask → ℕ → ℕ → Database → AdmissionDecision
decision book ask day now db =
    admit (pos book.ceiling_nano)
      (record {
        settled_nano = pos (nano_of_column (spent_on day db.days));
        outstanding_nano = pos (nano_of_column (held day (sweep day now db.reservations)));
        circuit_open = circuit_of db.control;
      })
      (quantized ask.max_cost_nano) ask.priority book.reserve_ratio

pub reserve_in_day_lem :
    (book : BudgetLedger) (ask : Ask) (public_id : Text) (day now : ℕ) (db : Database)
    → reserve_in_day book ask public_id day now db
      ≡ record_decision ask public_id day now
          (cost_or_zero (quantized ask.max_cost_nano))
          (decision book ask day now db)
          (swept day now db)
unfolding reserve_in_day outstanding_nano
reserve_in_day_lem book ask public_id day now db = rw (lock_day_lem day db)

-- An admitted request has a known cost of whole microdollars that the day has room for.
abbrev pub HasRoom : BudgetLedger → ℕ → ℕ → Database → ℕ → Type 0
HasRoom book day now db cost =
    (circuit_of db.control ≡ false)
    × (cost % 1000 ≡ 0)
    × (nano_of_column (spent_on day db.days)
          + nano_of_column (held day (sweep day now db.reservations))
          + cost
        ≤ book.ceiling_nano)

quantized_cost : (cost : Option ℤ) → cost_or_zero (quantized cost) % 1000 ≡ 0
quantized_cost none = refl
quantized_cost (some (pos n)) = ground (arith, quantize_least n)
quantized_cost (some (negsuc n)) = ground arith

affordable_total :
    (ceiling : ℤ) (s : BudgetState) (cost : ℤ) (p : RequestPriority) (book : BudgetLedger)
    → Affordable ceiling s cost p book.reserve_ratio
    → s.settled_nano +ℤ s.outstanding_nano +ℤ cost ≤ℤ ceiling
affordable_total ceiling s cost immediate_human book h = h
affordable_total ceiling s cost background book h = h.0

-- Nothing of unknown cost is admitted.
admit_unknown :
    (ceiling : ℤ) (s : BudgetState) (p : RequestPriority) (book : BudgetLedger)
    → admit ceiling s none p book.reserve_ratio ≢ admitted
unfolding admit
admit_unknown ceiling s p book e = ground arith

total_below :
    (cost : ℤ) (spent outstanding ceiling : ℕ)
    → pos 0 ≤ℤ cost
    → pos spent +ℤ pos outstanding +ℤ cost ≤ℤ pos ceiling
    → spent + outstanding + cost_or_zero (some cost) ≤ ceiling
total_below (pos n) spent outstanding ceiling known h = omega int_laws
total_below (negsuc n) spent outstanding ceiling known h = absurd (omega arith)

room_for :
    (book : BudgetLedger) (cost : Option ℤ) (p : RequestPriority) (spent outstanding : ℕ)
    (is_open : Bool)
    → admit
        (pos book.ceiling_nano)
        (record {
          settled_nano = pos spent;
          outstanding_nano = pos outstanding;
          circuit_open = is_open;
        })
        cost
        p
        book.reserve_ratio
      ≡ admitted
    → (is_open ≡ false) × (spent + outstanding + cost_or_zero cost ≤ book.ceiling_nano)
room_for book none p spent outstanding is_open e = absurd (admit_unknown _ _ p book e)
room_for book (some cost) p spent outstanding is_open e =
    let (closed, _, known, room) = (admit_iff _ cost _ p book.reserve_ratio).0 e in
    (
      closed,
      total_below cost spent outstanding book.ceiling_nano known (
          affordable_total (pos book.ceiling_nano)
            (record {
              settled_nano = pos spent;
              outstanding_nano = pos outstanding;
              circuit_open = is_open;
            })
            cost p book room),
    )

pub admitted-HasRoom :
    (book : BudgetLedger) (ask : Ask) (day now : ℕ) (db : Database)
    → decision book ask day now db ≡ admitted
    → HasRoom book day now db (cost_or_zero (quantized ask.max_cost_nano))
admitted-HasRoom book ask day now db e =
    let (closed, room) = room_for book (quantized ask.max_cost_nano) ask.priority _ _ _ e in
    (closed, quantized_cost ask.max_cost_nano, room)

abbrev pub with_row : ReservationRow → Database → Database
with_row row db = record db { reservations = db.reservations ++ row ∷ []; next_id = suc db.next_id }

abbrev Fits : BudgetLedger → ReservationRow → Database → Type 0
Fits book row db =
    nano_of_column (spent_on row.budget_date db.days)
      + nano_of_column (held row.budget_date db.reservations)
      + nano_of_column row.max_cost_usd
    ≤ book.ceiling_nano

with_row-funded :
    {book : BudgetLedger} (row : ReservationRow) (db : Database)
    → row.state ≡ reserved
    → circuit_of db.control ≡ false
    → Fits book row db
    → IsFunded book db
    → (day : ℕ)
    → nano_of_column (spent_on day db.days)
        + nano_of_column (held day (db.reservations ++ row ∷ []))
      ≤ book.ceiling_nano
with_row-funded row db e closed room f day =
    ground (arith, held-append day db.reservations row e, f.funded day refl closed)

pub with_row-IsFunded :
    {book : BudgetLedger} (row : ReservationRow) (db : Database)
    → row.state ≡ reserved
    → circuit_of db.control ≡ false
    → Fits book row db
    → IsFunded book db
    → IsFunded book (with_row row db)
with_row-IsFunded row db e closed room f = record {
  held_fits = λ day. omega (arith, with_row-funded row db e closed room f day);
  funded = λ day _ _. with_row-funded row db e closed room f day;
  spent_fits = f.spent_fits;
}

pub column_exact :
    (cost : ℕ) → cost % 1000 ≡ 0 → (c : ℕ) → usd_column cost ≡ ok c → nano_of_column c ≡ cost
unfolding usd_column
column_exact cost whole c e = ground arith

fits_row :
    (ceiling c day cost : ℕ) (db : Database)
    → usd_column cost ≡ ok c
    → cost % 1000 ≡ 0
    → nano_of_column (spent_on day db.days) + nano_of_column (held day db.reservations) + cost
      ≤ ceiling
    → nano_of_column (spent_on day db.days)
        + nano_of_column (held day db.reservations)
        + nano_of_column c
      ≤ ceiling
fits_row ceiling c day cost db e whole room = omega (arith, column_exact cost whole c e)

record_admitted-IsFunded :
    {book : BudgetLedger} (ask : Ask) (public_id : Text) (day now cost : ℕ) (db : Database)
    → (r : Result _ ℕ) → usd_column cost ≡ r
    → cost % 1000 ≡ 0
    → circuit_of db.control ≡ false
    → nano_of_column (spent_on day db.days) + nano_of_column (held day db.reservations) + cost
      ≤ book.ceiling_nano
    → IsFunded book db
    → IsFunded book (record_decision ask public_id day now cost admitted db).1
record_admitted-IsFunded {book} ask public_id day now cost db (err x) e whole closed room f = rw e f
record_admitted-IsFunded {book} ask public_id day now cost db (ok c) e whole closed room f =
    let row = new_row ask public_id day now c db.next_id in
    rw e (elim (Bool-cases (has_public_id public_id db.reservations)) [
      | inl taken ↦ rw taken f
      | inr fresh ↦ rw fresh (
          then_pure-keeps (IsFunded book) (refresh_reserved_usd day (with_row row db)) _ (
            refresh-IsFunded day (with_row row db) (
              with_row-IsFunded row db refl closed
                (fits_row book.ceiling_nano c day cost db e whole room) f)))
    ])

record_denied-IsFunded :
    {book : BudgetLedger} (ask : Ask) (public_id : Text) (day now cost : ℕ) (d : AdmissionDecision)
    (db : Database)
    → d ≢ admitted
    → IsFunded book db
    → IsFunded book (record_decision ask public_id day now cost d db).1
record_denied-IsFunded ask public_id day now cost admitted db h f = absurd (h refl)
record_denied-IsFunded {book} ask public_id day now cost _ db h f =
    then_pure-keeps (IsFunded book) (refresh_reserved_usd day db) _ (refresh-IsFunded day db f)

pub reserve_in_day-IsFunded :
    {book : BudgetLedger} (ask : Ask) (public_id : Text) (day now : ℕ) (db : Database)
    → IsFunded book db
    → IsFunded book (reserve_in_day book ask public_id day now db).1
reserve_in_day-IsFunded {book} ask public_id day now db f =
    let g = swept-IsFunded day now db f in
    rw reserve_in_day_lem (elim (admitted-cases (decision book ask day now db)) [
      | inl e ↦
          let (closed, whole, room) = admitted-HasRoom book ask day now db e in
          rw e (
            record_admitted-IsFunded ask public_id day now _ (swept day now db) _ refl whole closed
              (rw (spent_on-upsert day day db.days) room) g)
      | inr h ↦ record_denied-IsFunded ask public_id day now _ _ (swept day now db) h g
    ])

-- A reservation, admitted, refused or failed, keeps the ledger funded.
pub reserve-IsFunded :
    (book : BudgetLedger) (ask : Ask) (random : Text) (now : ℕ) (db : Database)
    → IsFunded book db
    → IsFunded book (reserve book ask random now db).1
unfolding reserve
reserve-IsFunded book ask random now db f = elim (Bool-cases (bad_model_name ask.model)) [
  | inl bad ↦ rw bad f
  | inr usable ↦ rw usable (
      settled-keeps (IsFunded book) db _ f
        (reserve_in_day-IsFunded ask (mint_public_id random) (utc_day now) now db f))
]
