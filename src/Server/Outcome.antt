-- ===== src/Server/Outcome.antt =====
-- What a call comes to: it returns, it blocks for ever or while a loop still waits, or it panics.
pub data Outcome {ℓ} (A : Type ℓ) : Type ℓ where
  done : A → Outcome A
  blocks : Outcome A
  panics : Outcome A

infixl 5 ◌>>=◌
abbrev pub ◌>>=◌ {ℓ κ} : {A : Type ℓ} {B : Type κ} → Outcome A → (A → Outcome B) → Outcome B
done a >>= f = f a
blocks >>= f = blocks
panics >>= f = panics

-- What holds of the result of a call that returns.
abbrev pub IfDone {ℓ κ} : {A : Type ℓ} → (A → Type κ) → Outcome A → Type κ
IfDone P (done a) = P a
IfDone P blocks = Unit
IfDone P panics = Unit

pub IfDone-bind {ℓ κ μ ν} :
    {A : Type ℓ} {B : Type κ} (P : A → Type μ) (Q : B → Type ν) (m : Outcome A) (f : A → Outcome B)
    → IfDone P m
    → ((a : A) → P a → IfDone Q (f a))
    → IfDone Q (m >>= f)
IfDone-bind P Q (done a) f h k = k a h
IfDone-bind P Q blocks f h k = tt
IfDone-bind P Q panics f h k = tt

pub IfDone-map {ℓ κ μ} :
    {A : Type ℓ} {P : A → Type κ} {Q : A → Type μ} (m : Outcome A)
    → ((a : A) → P a → Q a)
    → IfDone P m
    → IfDone Q m
IfDone-map (done a) k h = k a h
IfDone-map blocks k h = tt
IfDone-map panics k h = tt
