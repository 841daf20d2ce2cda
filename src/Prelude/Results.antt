-- ===== src/Prelude/Results.antt =====
-- A computation that returns, or throws: the error is a value.

pub data Result {ℓ κ} (E : Type ℓ) (A : Type κ) : Type (ℓ ⊔ κ) where
  ok : A → Result E A
  err : E → Result E A

infixl 5 ◌>>=◌
abbrev pub ◌>>=◌ {ℓ κ μ} :
    {E : Type ℓ} {A : Type κ} {B : Type μ} → Result E A → (A → Result E B) → Result E B
ok a >>= f = f a
err e >>= f = err e

-- A property of the result, and one of the error.
abbrev pub Meets {ℓ κ μ} :
    {E : Type ℓ} {A : Type κ} → (A → Type μ) → (E → Type μ) → Result E A → Type μ
Meets P Q (ok a) = P a
Meets P Q (err e) = Q e

pub Meets-bind {ℓ κ μ} :
    {E : Type ℓ} {A : Type κ} {B : Type κ} (P : A → Type μ) (P' : B → Type μ) (Q : E → Type μ)
    (r : Result E A) (f : A → Result E B)
    → Meets P Q r
    → ((a : A) → P a → Meets P' Q (f a))
    → Meets P' Q (r >>= f)
Meets-bind P P' Q (ok a) f h k = k a h
Meets-bind P P' Q (err e) f h k = h
