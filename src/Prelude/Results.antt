-- ===== src/Prelude/Results.antt =====
-- The outcome of an action: its result, or the abort of the transaction with its message. An abort
-- undoes every write, so no state goes with it.
use Prim.Native.String.{String}
use mathlib.Core.Path.{◌≡◌, refl}
use mathlib.Core.Logic.{◌⊎◌, inl, inr}
use mathlib.Core.Bool.{Bool, true, false}
use mathlib.Core.Option.{Option, none, some}
use native.Mathlib.Omega.{arith}

pub data Result {ℓ} (A : Type ℓ) : Type ℓ where
  ok : A → Result A
  abort : String → Result A

infixl 5 ◌>>=◌ ◌>>◌
abbrev pub ◌>>=◌ {ℓ κ} : {A : Type ℓ} {B : Type κ} → Result A → (A → Result B) → Result B
ok a >>= f = f a
abort e >>= f = abort e

abbrev pub ◌>>◌ {ℓ} : {B : Type ℓ} → Result (Unit {0}) → Result B → Result B
m >> k = m >>= λ _. k

-- `eosio_assert( b, message )`
abbrev pub check : Bool → String → Result (Unit {0})
check true e = ok tt
check false e = abort e

-- `table.get( key, message )`, and what the library asserts within a call.
abbrev pub or_abort {ℓ} : {A : Type ℓ} → Option A → String → Result A
or_abort none e = abort e
or_abort (some a) e = ok a

-- To split on the outcome of a step and keep the equation.
pub Result-cases {ℓ} :
    {A : Type ℓ} (r : Result A) → ((a : A) × (r ≡ ok a)) ⊎ ((e : String) × (r ≡ abort e))
Result-cases (ok a) = inl (a, refl)
Result-cases (abort e) = inr (e, refl)

-- A chain that returns has a first step that returns, and so on.
pub bind-ok {ℓ κ} :
    {A : Type ℓ} {B : Type κ} (m : Result A) (f : A → Result B) (b : B)
    → m >>= f ≡ ok b
    → (a : A) × (m ≡ ok a) × (f a ≡ ok b)
bind-ok (ok a) f b h = (a, refl, h)
bind-ok (abort e) f b h = absurd (ground arith)

pub check-ok {ℓ} :
    {B : Type ℓ} (t : Bool) (e : String) (k : Result B) (b : B)
    → check t e >> k ≡ ok b
    → (t ≡ true) × (k ≡ ok b)
check-ok true e k b h = (refl, h)
check-ok false e k b h = absurd (ground arith)

pub or_abort-ok {ℓ} :
    {A : Type ℓ} (o : Option A) (e : String) (a : A) → or_abort o e ≡ ok a → o ≡ some a
or_abort-ok none e a h = absurd (ground arith)
or_abort-ok (some b) e a h = ground arith

-- The same, for a goal that the rest of the chain is to show.
pub bind_then {ℓ κ μ} :
    {A : Type ℓ} {B : Type κ} {P : Type μ} (m : Result A) (f : A → Result B) (b : B)
    → m >>= f ≡ ok b
    → ((a : A) → m ≡ ok a → f a ≡ ok b → P)
    → P
bind_then m f b h k = let (a, e, g) = bind-ok m f b h in k a e g

pub check_then {ℓ μ} :
    {B : Type ℓ} {P : Type μ} (t : Bool) (e : String) (k : Result B) (b : B)
    → check t e >> k ≡ ok b
    → (t ≡ true → k ≡ ok b → P)
    → P
check_then t e k b h f = let (x, g) = check-ok t e k b h in f x g

pub ok_injective {ℓ} : {A : Type ℓ} (a b : A) → ok a ≡ ok b → a ≡ b
ok_injective a b h = ground arith

-- A chain aborts if what follows a check does.
pub check-abort {ℓ} :
    {B : Type ℓ} (t : Bool) (e : String) (k : Result B)
    → (m : String) × (k ≡ abort m)
    → (m : String) × (check t e >> k ≡ abort m)
check-abort true e k h = h
check-abort false e k h = (e, refl)

pub or_abort-abort {ℓ κ} :
    {A : Type ℓ} {B : Type κ} (o : Option A) (e : String) (f : A → Result B) (a : A)
    → o ≡ some a
    → (m : String) × (f a ≡ abort m)
    → (m : String) × (or_abort o e >>= f ≡ abort m)
or_abort-abort none e f a h k = absurd (ground arith)
or_abort-abort (some b) e f a h (m, k) = (m, ground arith)
