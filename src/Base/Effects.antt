-- ===== src/Base/Effects.antt =====
-- Go methods that mutate a state and may return an error. What was written before an error stays
-- written, so the state comes back beside the error too.
use mathlib.Core.Path.{◌≡◌, refl}
use mathlib.Core.Logic.{◌⊎◌, inl, inr}
use mathlib.Core.Bool.{Bool, true, false}

-- The classes of error that callers tell apart: `core.ErrNotFound`, `core.ErrInvalidInput`, and
-- any other error.
pub data Error : Type 0 where
  not_found invalid_input internal : Error

pub data Result {ℓ} (A : Type ℓ) : Type ℓ where
  ok : A → Result A
  err : Error → Result A

pub ok-injective {ℓ} : {A : Type ℓ} {a b : A} → ok a ≡ ok b → a ≡ b
ok-injective e = cc

-- The rest of a chain of results.
abbrev pub and_then {ℓ κ} : {A : Type ℓ} {B : Type κ} → Result A → (A → Result B) → Result B
and_then (ok a) f = f a
and_then (err e) f = err e

abbrev pub Exec : Type 0 → Type 0 → Type 0
Exec S A = S → Result A × S

module _ {S A : Type 0} where
  unfoldable pub pure : A → Exec S A
  pure a s = (ok a, s)

  unfoldable pub throw : Error → Exec S A
  throw e s = (err e, s)

  -- A read: it looks at the state, and may fail.
  unfoldable pub reads : (S → Result A) → Exec S A
  reads f s = (f s, s)

module _ {S : Type 0} where
  unfoldable pub guard : Bool → Error → Exec S (Unit {0})
  guard true e s = (ok tt, s)
  guard false e s = (err e, s)

  -- A transaction: it commits a new state, or fails and leaves the state as it was.
  unfoldable pub transact : (S → Result S) → Exec S (Unit {0})
  transact f s = elim (f s) [ ok s' ↦ (ok tt, s') | err e ↦ (err e, s) ]

module _ {S A B : Type 0} where
  abbrev pub continue : Result A → (A → Exec S B) → Exec S B
  continue (ok a) f s = f a s
  continue (err e) f s = (err e, s)

  infixl 10 ◌>>=◌ ◌>>◌
  unfoldable pub ◌>>=◌ : Exec S A → (A → Exec S B) → Exec S B
  unfolding pure throw reads guard transact
  ◌>>=◌ m f s = let (r, s') = m s in continue r f s'

  abbrev pub ◌>>◌ : Exec S A → Exec S B → Exec S B
  m >> n = m >>= λ _. n

  -- A block that succeeds: its first step did, and so did the rest from there.
  pub >>=-eq-ok :
      (m : Exec S A) (f : A → Exec S B) (s : S) {b : B}
      → ((m >>= f) s).0 ≡ ok b
      → (a : A) × ((m s).0 ≡ ok a) × ((m >>= f) s ≡ f a (m s).1)
  unfolding ◌>>=◌
  >>=-eq-ok m f s h = go (m s).0 (m s).1 h
    where
      go :
          (r : Result A) (s' : S) {b : B}
          → (continue r f s').0 ≡ ok b
          → (a : A) × (r ≡ ok a) × (continue r f s' ≡ f a s')
      go (ok a) s' h = (a, refl, refl)
      go (err e) s' h = cc

module _ {ℓ} {A : Type ℓ} where
  pub Result-cases : (r : Result A) → ((a : A) × (r ≡ ok a)) ⊎ ((e : Error) × (r ≡ err e))
  Result-cases (ok a) = inl (a, refl)
  Result-cases (err e) = inr (e, refl)

module _ {S : Type 0} where
  -- A transaction commits, or fails and changes nothing.
  pub transact-cases :
      (f : S → Result S) (s : S)
      → ((s' : S) × (f s ≡ ok s') × (transact f s ≡ (ok tt, s')))
        ⊎ ((e : Error) × (f s ≡ err e) × (transact f s ≡ (err e, s)))
  unfolding transact
  transact-cases f s = elim (Result-cases (f s)) [
    | inl (s', p) ↦ inl (s', p, rw (p, transact))
    | inr (e, p) ↦ inr (e, p, rw (p, transact))
  ]

  pub transact_keeps :
      (P : S → Type 0) (f : S → Result S) (s : S)
      → P s
      → ((s' : S) → f s ≡ ok s' → P s')
      → P (transact f s).1
  transact_keeps P f s h k = elim (transact-cases f s) [
    | inl (s', p, q) ↦ rw q (k s' p)
    | inr (e, p, q) ↦ rw q h
  ]

module _ {S A B : Type 0} where
  -- A property of the state holds after a block if it holds after the first step and, where that
  -- step succeeded, after the rest.
  pub bind_keeps :
      (P : S → Type 0) (m : Exec S A) (f : A → Exec S B) (s : S)
      → P (m s).1
      → ((a : A) → (m s).0 ≡ ok a → P (f a (m s).1).1)
      → P ((m >>= f) s).1
  unfolding ◌>>=◌
  bind_keeps P m f s h k = go (m s).0 (m s).1 h k
    where
      go :
          (r : Result A) (s' : S)
          → P s'
          → ((a : A) → r ≡ ok a → P (f a s').1)
          → P (continue r f s').1
      go (ok a) s' h k = k a refl
      go (err e) s' h k = h

module _ {S B : Type 0} where
  pub guard_keeps :
      (P : S → Type 0) (t : Bool) (e : Error) (f : Unit {0} → Exec S B) (s : S)
      → P s
      → (t ≡ true → P (f tt s).1)
      → P ((guard t e >>= f) s).1
  unfolding ◌>>=◌
  guard_keeps P true e f s h k = k refl
  guard_keeps P false e f s h k = h

module _ {S A B : Type 0} where
  -- What a block that succeeds ends with: its first step succeeded, and the rest from there.
  pub bind_ends :
      (P : B → S → Type 0) (m : Exec S A) (f : A → Exec S B) (s : S)
      → ((a : A) → (m s).0 ≡ ok a → (b : B) → (f a (m s).1).0 ≡ ok b → P b (f a (m s).1).1)
      → (b : B) → ((m >>= f) s).0 ≡ ok b
      → P b ((m >>= f) s).1
  unfolding ◌>>=◌
  bind_ends P m f s k = go (m s).0 (m s).1 k
    where
      go :
          (r : Result A) (s' : S)
          → ((a : A) → r ≡ ok a → (b : B) → (f a s').0 ≡ ok b → P b (f a s').1)
          → (b : B) → (continue r f s').0 ≡ ok b
          → P b (continue r f s').1
      go (ok a) s' k b h = k a refl b h
      go (err e) s' k b h = cc
