-- ===== src/Store/Ambient.antt =====
-- The ambient rate: what a window of one hour holds.
use mod_playerbot_llm.Prelude.{
  ℕ, ◌+◌, ◌≤◌, ◌≡◌, refl, Bool, true, false, not, ◌&&◌, List, [], ◌∷◌, ◌++◌, ok, arith,
  if◌then◌else◌, Bool-cases, inl, inr,
}
use mod_playerbot_llm.Prelude.Int.{ℤ, pos, leb_ℤ}
use mod_playerbot_llm.Store.{
  Tables, max_ambient_messages_per_hour, is_recent, forget_old, count_recent, is_rate,
  try_begin_ambient, take_slot,
}

-- Forgetting at one instant loses nothing that a later window holds.
pub count_recent-forget_old :
    (now later : ℕ) (attempts : List ℕ)
    → now ≤ later
    → count_recent later (forget_old now attempts) ≡ count_recent later attempts
unfolding count_recent forget_old
count_recent-forget_old now later [] le = refl
count_recent-forget_old now later (x ∷ xs) le =
    ground (arith, count_recent-forget_old now later xs le)

count_recent-append :
    (now x : ℕ) (attempts : List ℕ)
    → count_recent now (attempts ++ x ∷ [])
      ≡ count_recent now attempts + (if is_recent now x then 1 else 0)
unfolding count_recent
count_recent-append now x [] = ground arith
count_recent-append now x (y ∷ ys) = ground (arith, count_recent-append now x ys)

-- Whether a call is granted.
abbrev pub granted : ℤ → ℕ → Tables → Bool
granted rate now s = is_rate rate && not (leb_ℤ rate (pos (count_recent now s.ambient)))

module _ (rate : ℤ) (now : ℕ) (s : Tables) where
  take_slot_lem :
      (count : ℕ) (t : Tables)
      → take_slot rate now count t ≡ (
          if leb_ℤ rate (pos count)
          then (ok false, t)
          else (ok true, record t { ambient = t.ambient ++ now ∷ [] }))
  take_slot_lem count t = elim (Bool-cases (leb_ℤ rate (pos count))) [
    | inl full ↦ rw full refl
    | inr free ↦ rw free refl
  ]

  -- A slot is granted exactly when the rate is usable and the hour before the call holds fewer attempts; a
  -- grant is one more attempt at the instant of the call, and a refusal none, for every later window.
  pub try_begin_ambient_lem :
      ((try_begin_ambient rate now s).0 ≡ ok (granted rate now s))
      × ((later : ℕ)
          → now ≤ later
          → count_recent later (try_begin_ambient rate now s).1.ambient
            ≡ count_recent later s.ambient
              + (if granted rate now s && is_recent later now then 1 else 0))
  unfolding try_begin_ambient
  try_begin_ambient_lem = elim (Bool-cases (is_rate rate)) [
    | inr bad ↦ rw bad (refl, λ later le. omega arith)
    | inl usable ↦ rw usable (
        rw take_slot_lem (
          rw (count_recent-forget_old now now s.ambient (omega arith))
            (elim (Bool-cases (leb_ℤ rate (pos (count_recent now s.ambient)))) [
              | inl full ↦
                  rw full (
                    refl,
                    λ later le. omega (arith, count_recent-forget_old now later s.ambient le),
                  )
              | inr free ↦ rw free (
                refl,
                λ later le. omega (
                  arith,
                  count_recent-forget_old now later s.ambient le,
                  count_recent-append later now (forget_old now s.ambient),
                ),
              )
            ])))
  ]

-- A later window holds no more.
count_recent-later :
    (now later : ℕ) (attempts : List ℕ)
    → now ≤ later
    → count_recent later attempts ≤ count_recent now attempts
unfolding count_recent
count_recent-later now later [] le = omega arith
count_recent-later now later (x ∷ xs) le = ground (arith, count_recent-later now later xs le)

try-bounded :
    (rate : ℤ) (now : ℕ) (s : Tables)
    → count_recent now s.ambient ≤ max_ambient_messages_per_hour
    → count_recent now (try_begin_ambient rate now s).1.ambient ≤ max_ambient_messages_per_hour
try-bounded rate now s h =
    let (_, counts) = try_begin_ambient_lem rate now s in
    let after = counts now (omega arith) in ground arith

-- Calls one after another, and their instants in order from a first one on.
abbrev pub tries : List (ℤ × ℕ) → Tables → Tables
tries [] s = s
tries ((rate, now) ∷ calls) s = tries calls (try_begin_ambient rate now s).1

abbrev pub InOrder : ℕ → List (ℤ × ℕ) → Type 0
InOrder first [] = Unit
InOrder first ((rate, now) ∷ calls) = (first ≤ now) × InOrder now calls

abbrev pub last_instant : ℕ → List (ℤ × ℕ) → ℕ
last_instant first [] = first
last_instant first ((rate, now) ∷ calls) = last_instant now calls

-- Whatever rates are configured along the way, calls in the order of time never leave more than six
-- attempts in the hour before the last of them.
pub ambient_rate_kept :
    (calls : List (ℤ × ℕ)) (first : ℕ) (s : Tables)
    → InOrder first calls
    → count_recent first s.ambient ≤ max_ambient_messages_per_hour
    → count_recent (last_instant first calls) (tries calls s).ambient
      ≤ max_ambient_messages_per_hour
ambient_rate_kept [] first s o h = h
ambient_rate_kept ((rate, now) ∷ calls) first s o h =
    ambient_rate_kept calls now (try_begin_ambient rate now s).1 o.1
      (try-bounded rate now s (omega (arith, count_recent-later first now s.ambient o.0)))
