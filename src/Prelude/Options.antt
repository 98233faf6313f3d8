-- ===== src/Prelude/Options.antt =====
-- Chains of optional results.
use mathlib.Core.Path.{◌≡◌, refl, sym, ◌∙◌}
use mathlib.Core.Bool.{Bool, true, false}
use cmuquic.Prelude.Tests.{if◌then◌else◌}
use mathlib.Core.Option.{Option, none, some}

infixl 5 ◌>>=◌
abbrev pub ◌>>=◌ {ℓ κ} : {A : Type ℓ} {B : Type κ} → Option A → (A → Option B) → Option B
none >>= f = none
some a >>= f = f a

-- Inversion of a chain that succeeds.
pub >>=-eq-some {ℓ κ} :
    {A : Type ℓ} {B : Type κ} (m : Option A) (f : A → Option B) {b : B}
    → (m >>= f) ≡ some b
    → (a : A) × (m ≡ some a) × (f a ≡ some b)
>>=-eq-some none f h = absurd (cc)
>>=-eq-some (some a) f h = (a, refl, h)

some_inj {ℓ} : {A : Type ℓ} {a b : A} → some a ≡ some b → a ≡ b
some_inj e = cc

-- What holds of a computed result holds of the result that an equation names.
pub of_eq_some {ℓ κ} :
    {A : Type ℓ} (P : A → Type κ) {a b : A} {o : Option A} → o ≡ some a → o ≡ some b → P a → P b
of_eq_some P p q h = let e = some_inj (sym p ∙ q) in rw e at h

-- The computation goes on, with a result of which a predicate holds.
abbrev pub Runs {ℓ κ} : {A : Type ℓ} → (A → Type κ) → Option A → Type (ℓ ⊔ κ)
Runs {A} P o = (a : A) × (o ≡ some a) × P a

pub Runs->>= {ℓ κ ι μ} :
    {A : Type ℓ} {B : Type κ} (P : A → Type ι) (Q : B → Type μ) (o : Option A) (f : A → Option B)
    → Runs P o
    → ((a : A) → P a → Runs Q (f a))
    → Runs Q (o >>= f)
Runs->>= P Q o f (a, e, p) k = rw e (k a p)

pub Runs-if {ℓ κ} :
    {A : Type ℓ} (P : A → Type κ) (b : Bool) (m n : Option A)
    → (b ≡ true → Runs P m)
    → (b ≡ false → Runs P n)
    → Runs P (if b then m else n)
Runs-if P true m n yes_case no_case = yes_case refl
Runs-if P false m n yes_case no_case = no_case refl

-- If the computation has a result, a predicate holds of it.
abbrev pub Given {ℓ κ} : {A : Type ℓ} → (A → Type κ) → Option A → Type (ℓ ⊔ κ)
Given {A} P o = (a : A) → o ≡ some a → P a

pub Given-some {ℓ κ} : {A : Type ℓ} (P : A → Type κ) (a : A) → P a → Given P (some a)
Given-some P a p b e = of_eq_some P refl e p

pub Given->>= {ℓ κ ι μ} :
    {A : Type ℓ} {B : Type κ} (P : A → Type ι) (Q : B → Type μ) (o : Option A) (f : A → Option B)
    → Given P o
    → ((a : A) → P a → Given Q (f a))
    → Given Q (o >>= f)
Given->>= P Q o f g k b e = let (a, first, last) = >>=-eq-some o f e in k a (g a first) b last

pub Given-if {ℓ κ} :
    {A : Type ℓ} (P : A → Type κ) (b : Bool) (m n : Option A)
    → (b ≡ true → Given P m)
    → (b ≡ false → Given P n)
    → Given P (if b then m else n)
Given-if P true m n yes_case no_case = yes_case refl
Given-if P false m n yes_case no_case = no_case refl
