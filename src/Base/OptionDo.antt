-- ===== src/Base/OptionDo.antt =====
-- `?` on an `Option`: the bind that `do` blocks over `Option` use.
use mathlib.Core.Path.{◌≡◌, refl, subst}
use mathlib.Core.Bool.{Bool, true, false}
use mig_td.Base.Tests.{if◌then◌else◌}
use mathlib.Core.Option.{Option, none, some}
use native.Mathlib.Omega.{arith}

infixl 5 ◌>>=◌
abbrev pub ◌>>=◌ {ℓ κ} : {A : Type ℓ} {B : Type κ} → Option A → (A → Option B) → Option B
none >>= f = none
some a >>= f = f a

-- Whatever is answered has a property.
abbrev pub Every {ℓ κ} : {A : Type ℓ} → (A → Type κ) → Option A → Type (ℓ ⊔ κ)
Every {A = A} P o = (a : A) → o ≡ some a → P a

-- So it is if it is for each answer of the first link of a chain.
pub Every-bind {ℓ κ ι} :
    {A : Type ℓ} {B : Type κ} (P : B → Type ι) (o : Option A) (f : A → Option B)
    → ((a : A) → o ≡ some a → Every P (f a))
    → Every P (o >>= f)
Every-bind P none f h b e = absurd (ground arith)
Every-bind P (some a) f h b e = h a refl b e

pub Every-some {ℓ κ} : {A : Type ℓ} (P : A → Type κ) (a : A) → P a → Every P (some a)
Every-some P a h b e = subst P (ground arith) h

-- A guarded answer.
pub if_some {ℓ} :
    {A : Type ℓ} (b : Bool) (x y : A) → (if b then some x else none) ≡ some y → (b ≡ true) × (x ≡ y)
if_some true x y h = (refl, ground arith)
if_some false x y h = absurd (ground arith)

pub else_some {ℓ} :
    {A : Type ℓ} (b : Bool) (x y : A)
    → (if b then none else some x) ≡ some y
    → (b ≡ false) × (x ≡ y)
else_some true x y h = absurd (ground arith)
else_some false x y h = (refl, ground arith)
