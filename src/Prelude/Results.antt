-- ===== src/Prelude/Results.antt =====
-- A call that may raise, and a database transaction as an action that returns its state beside the result.
use mathlib.Core.Path.{◌≡◌, refl}
use mathlib.Core.Logic.{◌⊎◌, inl, inr}

pub data Result {ℓ} (E A : Type ℓ) : Type ℓ where
  ok : A → Result E A
  err : E → Result E A

abbrev pub Action : Type 0 → Type 0 → Type 0 → Type 0
Action S E A = S → Result E A × S

module _ {S E : Type 0} where
  abbrev pub pure : {A : Type 0} → A → Action S E A
  pure a s = (ok a, s)

  abbrev pub raise : {A : Type 0} → E → Action S E A
  raise e s = (err e, s)

  abbrev pub gets : {A : Type 0} → (S → A) → Action S E A
  gets f s = (ok (f s), s)

  abbrev pub modify : (S → S) → Action S E Unit
  modify f s = (ok tt, f s)

  abbrev pub lift : {A : Type 0} → Result E A → Action S E A
  lift r s = (r, s)

  abbrev pub continue : {A B : Type 0} → Result E A × S → (A → Action S E B) → Result E B × S
  continue (ok a, s) f = f a s
  continue (err e, s) f = (err e, s)

  -- `begin` ... `commit`, with `except: rollback; raise` around it.
  abbrev pub settled : {A : Type 0} → S → Result E A × S → Result E A × S
  settled before (ok a, s) = (ok a, s)
  settled before (err e, s) = (err e, before)

  abbrev pub transaction : {A : Type 0} → Action S E A → Action S E A
  transaction m s = settled s (m s)

infixl 5 ◌>>=◌ ◌>>◌
abbrev pub ◌>>=◌ : {S E A B : Type 0} → Action S E A → (A → Action S E B) → Action S E B
◌>>=◌ m f s = continue (m s) f

abbrev pub ◌>>◌ : {S E A B : Type 0} → Action S E A → Action S E B → Action S E B
m >> k = m >>= λ _. k

pub Result-cases {ℓ} :
    {E A : Type ℓ} (r : Result E A) → ((a : A) × (r ≡ ok a)) ⊎ ((e : E) × (r ≡ err e))
Result-cases (ok a) = inl (a, refl)
Result-cases (err e) = inr (e, refl)

pub ok_inj {ℓ} : {E A : Type ℓ} {a b : A} → ◌≡◌ {A = Result E A} (ok a) (ok b) → a ≡ b
ok_inj e = cc

module _ {S E : Type 0} (P : S → Type 0) where
  -- Returning a value afterwards leaves the state alone.
  pub then_pure-keeps :
      {A B : Type 0} (r : Result E A × S) (b : B) → P r.1 → P (continue r (λ _. pure b)).1
  then_pure-keeps (ok a, s) b h = h
  then_pure-keeps (err e, s) b h = h

  pub then_pure_of-keeps :
      {A B : Type 0} (r : Result E A × S) (f : A → B) → P r.1 → P (continue r (λ a. pure (f a))).1
  then_pure_of-keeps (ok a, s) f h = h
  then_pure_of-keeps (err e, s) f h = h

  -- A transaction keeps what its body keeps.
  pub settled-keeps :
      {A : Type 0} (before : S) (r : Result E A × S) → P before → P r.1 → P (settled before r).1
  settled-keeps before (ok a, s) h k = k
  settled-keeps before (err e, s) h k = h
