-- ===== src/Sip/Result.antt =====
-- What a statement that may raise gives: its value, or the error that it raises.
use rfcvoip.Prelude.{◌≡◌, refl, Bool, true, false, if◌then◌else◌, ◌⊎◌, inl, inr}

pub data Result {ℓ} (E : Type 0) (A : Type ℓ) : Type ℓ where
  err : (raised : E) → Result E A
  ok : (value : A) → Result E A

infixl 5 ◌>>=◌
abbrev pub ◌>>=◌ {ℓ κ} :
    {E : Type 0} {A : Type ℓ} {B : Type κ} → Result E A → (A → Result E B) → Result E B
err raised >>= next = err raised
ok value >>= next = next value

-- `if test: raise error`, before the rest
abbrev pub raise_if {ℓ} : {E : Type 0} {A : Type ℓ} → Bool → E → Result E A → Result E A
raise_if test error rest = if test then err error else rest

pub Result-cases {ℓ} :
    {E : Type 0} {A : Type ℓ} (r : Result E A) → ((e : E) × (r ≡ err e)) ⊎ ((a : A) × (r ≡ ok a))
Result-cases (err e) = inl (e, refl)
Result-cases (ok a) = inr (a, refl)

-- A chain that succeeds has succeeded so far.
pub bind-eq-ok {ℓ κ} :
    {E : Type 0} {A : Type ℓ} {B : Type κ} (m : Result E A) (f : A → Result E B) {b : B}
    → (m >>= f) ≡ ok b
    → (a : A) × (m ≡ ok a) × (f a ≡ ok b)
bind-eq-ok (err e) f h = cc
bind-eq-ok (ok a) f h = (a, refl, h)

pub raise_if-eq-ok {ℓ} :
    {E : Type 0} {A : Type ℓ} (test : Bool) (e : E) (rest : Result E A) {a : A}
    → raise_if test e rest ≡ ok a
    → rest ≡ ok a
raise_if-eq-ok true e rest h = cc
raise_if-eq-ok false e rest h = h

-- A property of the value, where there is one
abbrev pub Always {ℓ κ} : {E : Type 0} {A : Type ℓ} → (A → Type κ) → Result E A → Type κ
Always P (err e) = Unit
Always P (ok a) = P a

pub bind-Always {ℓ κ ν} :
    {E : Type 0} {A : Type ℓ} {B : Type κ} (P : B → Type ν) (m : Result E A) (f : A → Result E B)
    → ((a : A) → Always P (f a))
    → Always P (m >>= f)
bind-Always P (err e) f h = tt
bind-Always P (ok a) f h = h a

pub ok-injective {ℓ} :
    {E : Type 0} {A : Type ℓ} {a b : A} → ◌≡◌ {A = Result E A} (ok a) (ok b) → a ≡ b
ok-injective h = cc
