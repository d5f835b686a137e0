-- ===== src/Prelude/Results.antt =====
-- A call that returns or raises, with `do` blocks.
use mathlib.Core.Path.{◌≡◌, refl}

pub data Result {ℓ} (E A : Type ℓ) : Type ℓ where
  raised : E → Result E A
  returned : A → Result E A

infixl 5 ◌>>=◌ ◌>>◌
abbrev pub ◌>>=◌ {ℓ} : {E A B : Type ℓ} → Result E A → (A → Result E B) → Result E B
raised e >>= f = raised e
returned a >>= f = f a

abbrev pub ◌>>◌ {ℓ} : {E A B : Type ℓ} → Result E A → Result E B → Result E B
m >> k = m >>= λ _. k

-- A chain that returns has returned at its first call.
pub >>=-returned {ℓ} :
    {E A B : Type ℓ} (m : Result E A) (f : A → Result E B) {b : B}
    → (m >>= f) ≡ returned b
    → (a : A) × (m ≡ returned a) × (f a ≡ returned b)
>>=-returned (raised e) f h = cc
>>=-returned (returned a) f h = (a, refl, h)

pub returned-injective {ℓ} :
    {E A : Type ℓ} {a b : A} → ◌≡◌ {A = Result E A} (returned a) (returned b) → a ≡ b
returned-injective h = cc

-- A chain whose first call returns is the rest of it.
pub >>=-returns {ℓ} :
    {E A B : Type ℓ} {m : Result E A} {a : A} {b : B} (f : A → Result E B)
    → m ≡ returned a
    → f a ≡ returned b
    → (m >>= f) ≡ returned b
>>=-returns f h k = rw h k
