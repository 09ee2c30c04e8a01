-- ===== src/Prelude/Results.antt =====
-- Results that may be an error, and what holds of the value of one.

pub data Fallible {ℓ} (E : Type 0) (A : Type ℓ) : Type ℓ where
  ok : A → Fallible E A
  err : E → Fallible E A

infixl 5 ◌>>=◌
abbrev pub ◌>>=◌ {ℓ κ} :
    {E : Type 0} {A : Type ℓ} {B : Type κ} → Fallible E A → (A → Fallible E B) → Fallible E B
ok a >>= f = f a
err e >>= f = err e

-- What holds of the value of a result, if it has one.
abbrev pub Checked {ℓ κ} : {E : Type 0} {A : Type ℓ} → (A → Type κ) → Fallible E A → Type κ
Checked P (ok a) = P a
Checked P (err e) = Unit

pub bind-Checked {ℓ κ ℓ₂ κ₂} :
    {E : Type 0} {A : Type ℓ} {B : Type κ} (P : A → Type ℓ₂) (Q : B → Type κ₂)
    (f : A → Fallible E B) (r : Fallible E A)
    → Checked P r
    → ((a : A) → P a → Checked Q (f a))
    → Checked Q (r >>= f)
bind-Checked P Q f (ok a) h k = k a h
bind-Checked P Q f (err e) h k = tt

pub any-Checked {ℓ κ} :
    {E : Type 0} {A : Type ℓ} (P : A → Type κ) (r : Fallible E A) → ((a : A) → P a) → Checked P r
any-Checked P (ok a) k = k a
any-Checked P (err e) k = tt

pub map-Checked {ℓ κ μ} :
    {E : Type 0} {A : Type ℓ} (P : A → Type κ) (Q : A → Type μ) (r : Fallible E A)
    → ((a : A) → P a → Q a)
    → Checked P r
    → Checked Q r
map-Checked P Q (ok a) f h = f a h
map-Checked P Q (err e) f h = tt
