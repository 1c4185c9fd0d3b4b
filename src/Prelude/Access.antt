-- ===== src/Prelude/Access.antt =====
-- Results of C code that may read outside an array, through an uninitialised variable, or divide
-- by zero: `fault` stands for such undefined behaviour.
use ministudo_guibuilder.Prelude.{
  ℕ, ◌≡◌, refl, Bool, true, false, List, Option, none, some, get_elem?, if◌then◌else◌,
}
use mathlib.Core.Path.{subst}
use ministudo_guibuilder.Prelude.Int.{ℤ, pos, negsuc}

pub data Access {ℓ} (A : Type ℓ) : Type ℓ where
  ok : A → Access A
  fault : Access A

infixl 5 ◌>>=◌
abbrev pub ◌>>=◌ {ℓ κ} : {A : Type ℓ} {B : Type κ} → Access A → (A → Access B) → Access B
ok a >>= f = f a
fault >>= f = fault

abbrev pub of_option {ℓ} : {A : Type ℓ} → Option A → Access A
of_option none = fault
of_option (some a) = ok a

-- `a[i]` for an index of type `int`.
abbrev pub read {ℓ} : {A : Type ℓ} → List A → ℤ → Access A
read xs (pos i) = of_option (get_elem? xs i)
read xs (negsuc i) = fault

-- What holds of the result if there is one.
abbrev pub Ensures {ℓ κ} : {A : Type ℓ} → Access A → (A → Type κ) → Type κ
Ensures (ok a) P = P a
Ensures fault P = Unit

pub Ensures-bind {ℓ κ μ} :
    {A : Type ℓ} {B : Type κ} (m : Access A) (f : A → Access B) (Q : B → Type μ)
    → ((a : A) → m ≡ ok a → Ensures (f a) Q)
    → Ensures (m >>= f) Q
Ensures-bind (ok a) f Q h = h a refl
Ensures-bind fault f Q h = tt

pub Ensures-if {ℓ κ} :
    {A : Type ℓ} (b : Bool) (m n : Access A) (Q : A → Type κ)
    → Ensures m Q
    → Ensures n Q
    → Ensures (if b then m else n) Q
Ensures-if true m n Q p q = p
Ensures-if false m n Q p q = q

pub Ensures-ok {ℓ κ} :
    {A : Type ℓ} {a : A} (m : Access A) (P : A → Type κ) → Ensures m P → m ≡ ok a → P a
Ensures-ok m P p e = subst (λ r. Ensures r P) e p

pub of_option-ok {ℓ} : {A : Type ℓ} (o : Option A) {a : A} → of_option o ≡ ok a → o ≡ some a
of_option-ok none h = cc
of_option-ok (some b) h = cc

-- A read that succeeds had an index that is no negative number.
pub read-ok {ℓ} :
    {A : Type ℓ} (xs : List A) (i : ℤ) {a : A}
    → read xs i ≡ ok a
    → (n : ℕ) × (i ≡ pos n) × (get_elem? xs n ≡ some a)
read-ok xs (pos n) h = (n, refl, of_option-ok (get_elem? xs n) h)
read-ok xs (negsuc n) h = cc
