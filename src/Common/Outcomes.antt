-- ===== src/Common/Outcomes.antt =====
-- How a call of chat/ ends: with a value, with `false` and a text in `err`, or by an exception of a
-- library that it calls.
use Prim.Native.String.{String}
use mathlib.Core.Path.{◌≡◌, refl}
use mathlib.Core.Option.{Option, none, some}

pub data Outcome {ℓ} (A : Type ℓ) : Type ℓ where
  returned : A → Outcome A
  failed : String → Outcome A
  thrown : Outcome A

-- A library call that may throw.
abbrev pub or_throw {ℓ} : {A : Type ℓ} → Option A → Outcome A
or_throw none = thrown
or_throw (some a) = returned a

abbrev pub bind {ℓ κ} : {A : Type ℓ} {B : Type κ} → Outcome A → (A → Outcome B) → Outcome B
bind (returned a) f = f a
bind (failed e) f = failed e
bind thrown f = thrown

abbrev pub bind? {ℓ κ} : {A : Type ℓ} {B : Type κ} → Option A → (A → Option B) → Option B
bind? none f = none
bind? (some a) f = f a

-- What returned from two steps returned from the first.
pub bind_inv {ℓ κ μ} :
    {A : Type ℓ} {B : Type κ} {P : Type μ} (m : Outcome A) (f : A → Outcome B) {b : B}
    → bind m f ≡ returned b
    → ((a : A) → m ≡ returned a → f a ≡ returned b → P)
    → P
bind_inv (returned a) f h k = k a refl h
bind_inv (failed e) f h k = absurd (cc)
bind_inv thrown f h k = absurd (cc)
