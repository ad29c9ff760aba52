-- ===== src/Base/Results.antt =====
-- The outcome of a Go call: a value, a returned error, or a run-time panic.
use mathlib.Core.Path.{◌≡◌, refl, ap}
use mathlib.Core.Logic.{◌≢◌}

pub data Outcome {ℓ κ} (E : Type κ) (A : Type ℓ) : Type (ℓ ⊔ κ) where
  ok : A → Outcome E A
  err : E → Outcome E A
  panic : Outcome E A

infixl 5 ◌>>=◌
abbrev pub ◌>>=◌ {ℓ κ μ} :
    {E : Type κ} {A : Type ℓ} {B : Type μ} → Outcome E A → (A → Outcome E B) → Outcome E B
panic >>= next = panic
err x >>= next = err x
ok v >>= next = next v

-- An error is not the outcome of a bind if it is neither that of its first part nor of the rest.
pub >>=-ne-err {ℓ κ μ} :
    {E : Type κ} {A : Type ℓ} {B : Type μ} (x : E) (m : Outcome E A) (f : A → Outcome E B)
    → m ≢ err x
    → ((a : A) → m ≡ ok a → f a ≢ err x)
    → (m >>= f) ≢ err x
>>=-ne-err x (ok a) f n k = k a refl
>>=-ne-err x (err e) f n k = λ h. n (cc)
>>=-ne-err x panic f n k = λ h. cc

abbrev value_or {ℓ κ} : {E : Type κ} {A : Type ℓ} → A → Outcome E A → A
value_or a (ok b) = b
value_or a _ = a

pub ok_inj {ℓ κ} : {E : Type κ} {A : Type ℓ} {a b : A} → Path (Outcome E A) (ok a) (ok b) → a ≡ b
ok_inj {a = a} h = ap (value_or a) h

-- A sequence that succeeds has a first step that does.
pub bind-ok {ℓ κ μ} :
    {E : Type κ} {A : Type ℓ} {B : Type μ} (m : Outcome E A) (f : A → Outcome E B) (b : B)
    → (m >>= f) ≡ ok b
    → (a : A) × (m ≡ ok a) × (f a ≡ ok b)
bind-ok (ok a) f b h = (a, refl, h)
bind-ok (err x) f b h = absurd cc
bind-ok panic f b h = absurd cc
