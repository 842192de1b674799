-- ===== src/Prelude/Outcome.antt =====
-- A method of a JavaScript object that may throw: what it wrote before it threw stays written.
use mathlib.Core.Path.{◌≡◌, refl}
use mathlib.Core.Logic.{◌⊎◌, inl, inr}
use mathlib.Core.Bool.{Bool, true, false}

pub data Result {ℓ κ} (E : Type ℓ) (A : Type κ) : Type (ℓ ⊔ κ) where
  ok : A → Result E A
  throw : E → Result E A

-- A method on a state `S`.
abbrev pub Method : Type 0 → Type 0 → Type 0 → Type 0
Method E S A = S → Result E A × S

module _ {E S : Type 0} where
  abbrev pub bind : {A B : Type 0} → (A → S → Result E B × S) → Result E A × S → Result E B × S
  bind f (ok a, s) = f a s
  bind f (throw e, s) = (throw e, s)

  infixl 5 ◌>>=◌ ◌>>◌
  abbrev pub ◌>>=◌ : {A B : Type 0} → Method E S A → (A → Method E S B) → Method E S B
  ◌>>=◌ m f s = bind f (m s)

  abbrev pub ◌>>◌ : {B : Type 0} → Method E S (Unit {0}) → Method E S B → Method E S B
  m >> k = m >>= λ _. k

  abbrev pub return : {A : Type 0} → A → Method E S A
  return a s = (ok a, s)

  abbrev pub fail : {A : Type 0} → E → Method E S A
  fail e s = (throw e, s)

  abbrev pub get_state : Method E S S
  get_state s = (ok s, s)

  abbrev pub modify : (S → S) → Method E S (Unit {0})
  modify f s = (ok tt, f s)

  -- `if (b) throw e;`
  abbrev pub throw_if : Bool → E → Method E S (Unit {0})
  throw_if true e s = (throw e, s)
  throw_if false e s = (ok tt, s)

  abbrev pub lift : {A : Type 0} → Result E A → Method E S A
  lift r s = (r, s)

pub Result-cases {ℓ κ} :
    {E : Type ℓ} {A : Type κ} (r : Result E A) → ((e : E) × (r ≡ throw e)) ⊎ ((a : A) × (r ≡ ok a))
Result-cases (ok a) = inr (a, refl)
Result-cases (throw e) = inl (e, refl)

-- How a call ends: what holds of its result and the state, or of the state it leaves when it throws.
abbrev pub Ended : {E S A : Type 0} → (A → S → Type 0) → (S → Type 0) → Result E A × S → Type 0
Ended Q R (ok a, s) = Q a s
Ended Q R (throw e, s) = R s

pub record Ends {E S A : Type 0} (Q : A → S → Type 0) (R : S → Type 0) (r : Result E A × S)
    : Type 0 where
  pub holds : Ended Q R r

module _ {E S : Type 0} {A B : Type 0} {R : S → Type 0} where
  bind-Ended :
      (P : A → S → Type 0) (Q : B → S → Type 0) (r : Result E A × S) (f : A → S → Result E B × S)
      → Ended P R r
      → ((a : A) (s : S) → P a s → Ends Q R (f a s))
      → Ended Q R (bind f r)
  bind-Ended P Q (ok a, s) f h k = (k a s h).holds
  bind-Ended P Q (throw e, s) f h k = h

  pub bind-Ends :
      {P : A → S → Type 0} {Q : B → S → Type 0} (r : Result E A × S) (f : A → S → Result E B × S)
      → Ends P R r
      → ((a : A) (s : S) → P a s → Ends Q R (f a s))
      → Ends Q R (bind f r)
  bind-Ends {P = P} {Q = Q} r f h k = record { holds = bind-Ended P Q r f h.holds k }

module _ {E S A : Type 0} where
  Ended-more :
      (P Q : A → S → Type 0) (R T : S → Type 0) (r : Result E A × S)
      → ((a : A) (s : S) → P a s → Q a s)
      → ((s : S) → R s → T s)
      → Ended P R r
      → Ended Q T r
  Ended-more P Q R T (ok a, s) f g h = f a s h
  Ended-more P Q R T (throw e, s) f g h = g s h

  Ended-both :
      (P Q : A → S → Type 0) (R T : S → Type 0) (r : Result E A × S)
      → Ended P R r
      → Ended Q T r
      → Ended (λ a s. P a s × Q a s) (λ s. R s × T s) r
  Ended-both P Q R T (ok a, s) f g = (f, g)
  Ended-both P Q R T (throw e, s) f g = (f, g)

  pub Ends-both :
      {P Q : A → S → Type 0} {R T : S → Type 0} (r : Result E A × S)
      → Ends P R r
      → Ends Q T r
      → Ends (λ a s. P a s × Q a s) (λ s. R s × T s) r
  Ends-both {P = P} {Q = Q} {R = R} {T = T} r f g = record {
    holds = Ended-both P Q R T r f.holds g.holds;
  }

  pub Ends-more :
      {P Q : A → S → Type 0} {R T : S → Type 0} (r : Result E A × S)
      → ((a : A) (s : S) → P a s → Q a s)
      → ((s : S) → R s → T s)
      → Ends P R r
      → Ends Q T r
  Ends-more {P = P} {Q = Q} {R = R} {T = T} r f g h = record {
    holds = Ended-more P Q R T r f g h.holds;
  }
