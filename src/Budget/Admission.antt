-- ===== src/Budget/Admission.antt =====
-- `admit` of budget.py: what is admitted, and what the human reserve protects.
use mod_playerbot_llm.Prelude.{ℕ, ◌≢◌, ◌⊎◌, inl, inr, refl, ◌≤◌, ◌≡◌, ◌↔◌, false, some, arith}
use mod_playerbot_llm.Prelude.Int.{ℤ, pos, ◌+ℤ◌, ◌≤ℤ◌, ◌<ℤ◌, pos_part, int_laws}
use mod_playerbot_llm.Budget.{
  BudgetState, RequestPriority, immediate_human, background, AdmissionDecision, admitted, Ratio,
  reserve_floor_nano, admit,
}

-- What a request may cost: nothing is owed beyond the ceiling, and background work leaves the floor alone.
abbrev pub Affordable : ℤ → BudgetState → ℤ → RequestPriority → Ratio → Type 0
Affordable ceiling s cost immediate_human ratio =
    s.settled_nano +ℤ s.outstanding_nano +ℤ cost ≤ℤ ceiling
Affordable ceiling s cost background ratio =
    (s.settled_nano +ℤ s.outstanding_nano +ℤ cost ≤ℤ ceiling)
    × (s.settled_nano
          +ℤ s.outstanding_nano
          +ℤ cost
          +ℤ pos (reserve_floor_nano (pos_part ceiling) ratio)
        ≤ℤ ceiling)

-- A request of known cost is admitted exactly when the circuit is closed, the ceiling is positive, the
-- cost is not negative, and what is settled and outstanding leaves room for it: below the ceiling, and
-- for background work also below the ceiling less the reserve floor.
pub admit_iff :
    (ceiling cost : ℤ) (s : BudgetState) (p : RequestPriority) (ratio : Ratio)
    → (admit ceiling s (some cost) p ratio ≡ admitted) ↔ (
        (s.circuit_open ≡ false)
        × (pos 0 <ℤ ceiling)
        × (pos 0 ≤ℤ cost)
        × Affordable ceiling s cost p ratio)
unfolding admit
admit_iff ceiling cost s immediate_human ratio = (λ h. grind int_laws, λ h. grind int_laws)
admit_iff ceiling cost s background ratio = (λ h. grind int_laws, λ h. grind int_laws)

-- Background work that was admitted leaves the reserve floor: right after it, a human request that costs
-- no more than the floor is still admitted.
pub human_slice_kept :
    (ceiling : ℤ) (cost h : ℕ) (s : BudgetState) (ratio : Ratio)
    → admit ceiling s (some (pos cost)) background ratio ≡ admitted
    → h ≤ reserve_floor_nano (pos_part ceiling) ratio
    → admit ceiling
        (record s { outstanding_nano = s.outstanding_nano +ℤ pos cost })
        (some (pos h))
        immediate_human
        ratio
      ≡ admitted
human_slice_kept ceiling cost h s ratio e le =
    let (closed, usable, _, (below, kept)) =
      (admit_iff ceiling (pos cost) s background ratio).0 e in
    (admit_iff ceiling (pos h) (record s { outstanding_nano = s.outstanding_nano +ℤ pos cost })
        immediate_human ratio).1
      (closed, usable, omega arith, omega int_laws)

pub admitted-cases : (d : AdmissionDecision) → (d ≡ admitted) ⊎ (d ≢ admitted)
admitted-cases admitted = inl refl
admitted-cases _ = inr (λ e. cc)
