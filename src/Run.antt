-- ===== src/Run.antt =====
-- How a piece of the C code ends: with a value, not at all (`blocked`: it waits for a mutex that is held,
-- or goes on for ever), at `exit`, or in an access through a freed or null pointer or other behaviour
-- that C leaves undefined (`fault`).
use lso_baldini.Common.{◌≡◌, refl, Bool, true, false, if◌then◌else◌, Option, none, some}

pub data Run {ℓ} (A : Type ℓ) : Type ℓ where
  ret : A → Run A
  blocked : Run A
  exited : Run A
  fault : Run A

infixl 5 ◌>>=◌
abbrev pub ◌>>=◌ {ℓ κ} : {A : Type ℓ} {B : Type κ} → Run A → (A → Run B) → Run B
ret a >>= f = f a
blocked >>= f = blocked
exited >>= f = exited
fault >>= f = fault

-- A pointer's target, a fault where there is none.
abbrev pub deref {ℓ} : {A : Type ℓ} → Option A → Run A
deref none = fault
deref (some a) = ret a

-- A run that returns a value returns one with the property `P`.
abbrev pub Ensures {ℓ κ} : {A : Type ℓ} → (A → Type κ) → Run A → Type κ
Ensures P (ret a) = P a
Ensures P blocked = Unit
Ensures P exited = Unit
Ensures P fault = Unit

pub Ensures-bind {ℓ κ ι μ} :
    {A : Type ℓ} {B : Type κ} (P : A → Type ι) (Q : B → Type μ) (m : Run A) (f : A → Run B)
    → Ensures P m
    → ((a : A) → P a → Ensures Q (f a))
    → Ensures Q (m >>= f)
Ensures-bind P Q (ret a) f h k = k a h
Ensures-bind P Q blocked f h k = tt
Ensures-bind P Q exited f h k = tt
Ensures-bind P Q fault f h k = tt

-- A premise may be given after the run.
pub Ensures_given {ℓ κ ι} :
    {A : Type ℓ} {P : Type κ} (Q : A → Type ι) (x : Run A)
    → (P → Ensures Q x)
    → Ensures (λ a. P → Q a) x
Ensures_given Q (ret a) h = h
Ensures_given Q blocked h = tt
Ensures_given Q exited h = tt
Ensures_given Q fault h = tt

-- The computation does not go on for ever.
abbrev pub Settles {ℓ} : {A : Type ℓ} → Run A → Type 0
Settles (ret a) = Unit
Settles blocked = ⊥
Settles exited = Unit
Settles fault = Unit

pub settle_bind {ℓ κ} :
    {A : Type ℓ} {B : Type κ} (m : Run A) (k : A → Run B)
    → Settles m
    → ((a : A) → Settles (k a))
    → Settles (m >>= k)
settle_bind (ret a) k h g = g a
settle_bind blocked k h g = h
settle_bind exited k h g = tt
settle_bind fault k h g = tt

pub settle_if {ℓ} :
    {A : Type ℓ} (b : Bool) (x y : Run A) → Settles x → Settles y → Settles (if b then x else y)
settle_if true x y h k = h
settle_if false x y h k = k

pub settle_case {ℓ} :
    {A : Type ℓ} (b : Bool) (x y : Run A)
    → (b ≡ true → Settles x)
    → Settles y
    → Settles (if b then x else y)
settle_case true x y h k = h refl
settle_case false x y h k = k

-- The computation does not go on for ever, and returns a value with the property `P` if it returns.
abbrev pub Completes {ℓ} : {A : Type ℓ} → (A → Type 0) → Run A → Type 0
Completes P (ret a) = P a
Completes P blocked = ⊥
Completes P exited = Unit
Completes P fault = Unit

pub Completes-bind {ℓ κ} :
    {A : Type ℓ} {B : Type κ} (P : A → Type 0) (Q : B → Type 0) (m : Run A) (f : A → Run B)
    → Completes P m
    → ((a : A) → P a → Completes Q (f a))
    → Completes Q (m >>= f)
Completes-bind P Q (ret a) f h k = k a h
Completes-bind P Q blocked f h k = absurd h
Completes-bind P Q exited f h k = tt
Completes-bind P Q fault f h k = tt

-- `Completes`, in a form that shows the run.
pub record Total {ℓ} {A : Type ℓ} (P : A → Type 0) (x : Run A) : Type ℓ where
  pub completes : Completes P x

pub Total-if {ℓ} :
    {A : Type ℓ} {P : A → Type 0} {x y : Run A} (b : Bool)
    → Total P x
    → Total P y
    → Total P (if b then x else y)
Total-if true h k = h
Total-if false h k = k
