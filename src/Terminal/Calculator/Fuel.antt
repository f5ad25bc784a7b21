-- ===== src/Terminal/Calculator/Fuel.antt =====
-- The outcome of a parser with fuel, and what is known of it.
use mathlib.Core.Path.{◌≡◌, refl, subst}
use mathlib.Core.Bool.{Bool, true, false}
use mathlib.Core.Option.{Option, none, some}
use tbd_dev.Prelude.{if◌then◌else◌}

-- `failed` is `null`; `out_of_fuel` has no counterpart in the program.
pub data Outcome {ℓ} (A : Type ℓ) : Type ℓ where
  ok : A → Outcome A
  failed out_of_fuel : Outcome A

abbrev pub bind {ℓ κ} : {A : Type ℓ} {B : Type κ} → Outcome A → (A → Outcome B) → Outcome B
bind (ok a) f = f a
bind failed f = failed
bind out_of_fuel f = out_of_fuel

abbrev pub or_failed {ℓ} : {A : Type ℓ} → Option A → Outcome A
or_failed none = failed
or_failed (some a) = ok a

-- The fuel sufficed, and a value has the property.
abbrev pub Gives {ℓ} : {A : Type ℓ} → (A → Type 0) → Outcome A → Type 0
Gives P (ok a) = P a
Gives P failed = Unit
Gives P out_of_fuel = ⊥

module _ {ℓ} {A : Type ℓ} where
  pub Gives-bind {κ} :
      {B : Type κ} (P : A → Type 0) (Q : B → Type 0) (o : Outcome A) (f : A → Outcome B)
      → Gives P o
      → ((a : A) → P a → Gives Q (f a))
      → Gives Q (bind o f)
  Gives-bind P Q (ok a) f h k = k a h
  Gives-bind P Q failed f h k = tt
  Gives-bind P Q out_of_fuel f h k = h

  pub Gives-or_failed :
      (P : A → Type 0) (o : Option A) → ((a : A) → o ≡ some a → P a) → Gives P (or_failed o)
  Gives-or_failed P none k = tt
  Gives-or_failed P (some a) k = k a refl

  pub Gives-if :
      (P : A → Type 0) (b : Bool) (x y : Outcome A)
      → (b ≡ true → Gives P x)
      → (b ≡ false → Gives P y)
      → Gives P (if b then x else y)
  Gives-if P true x y h k = h refl
  Gives-if P false x y h k = k refl

  pub Gives-ok : (P : A → Type 0) (o : Outcome A) (a : A) → Gives P o → o ≡ ok a → P a
  Gives-ok P (ok b) a h e = subst P (cc) h
  Gives-ok P failed a h e = cc
  Gives-ok P out_of_fuel a h e = cc

  pub Gives-out_of_fuel : (P : A → Type 0) (o : Outcome A) → Gives P o → ¬ (o ≡ out_of_fuel)
  Gives-out_of_fuel P (ok a) h e = cc
  Gives-out_of_fuel P failed h e = cc
  Gives-out_of_fuel P out_of_fuel h e = h

  pub Gives-weaken :
      (P Q : A → Type 0) (o : Outcome A) → Gives P o → ((a : A) → P a → Q a) → Gives Q o
  Gives-weaken P Q (ok a) h k = k a h
  Gives-weaken P Q failed h k = tt
  Gives-weaken P Q out_of_fuel h k = h
