-- ===== src/Base/Results.antt =====
-- Go's `(T, error)` results. The error is a value of the component's own type.
use mathlib.Core.Path.{◌≡◌, refl, ap}
use mathlib.Core.Logic.{◌⊎◌, inl, inr}
use mathlib.Core.Bool.{Bool, true, false}
use mathlib.Core.Option.{Option, none, some}
use vertix.Base.Tests.{if◌then◌else◌}

-- The error comes second in Go, and first here.
pub data Result {ℓ κ} (E : Type ℓ) (V : Type κ) : Type (ℓ ⊔ κ) where
  err : E → Result E V
  ok : V → Result E V

abbrev pub IsOk {ℓ κ} : {E : Type ℓ} {V : Type κ} → Result E V → Type 0
IsOk (err why) = ⊥
IsOk (ok v) = Unit

-- A lookup whose failure is the error `why`.
abbrev pub or_err {ℓ κ} : {E : Type ℓ} {V : Type κ} → Option V → E → Result E V
or_err (some v) why = ok v
or_err none why = err why

-- `if !passed { return why }`
abbrev pub guard {ℓ} : {E : Type ℓ} → Bool → E → Result E (Unit {0})
guard passed why = if passed then ok tt else err why

-- `if err != nil { return err }` between two steps.
infixl 5 ◌>>=◌ ◌>>◌
abbrev pub ◌>>=◌ {ℓ κ μ} :
    {E : Type ℓ} {V : Type κ} {W : Type μ} → Result E V → (V → Result E W) → Result E W
err why >>= next = err why
ok v >>= next = next v

abbrev pub ◌>>◌ {ℓ μ} : {E : Type ℓ} {W : Type μ} → Result E (Unit {0}) → Result E W → Result E W
check >> rest = check >>= (λ passed. rest)

-- A chain that has come through: its first step gave a value, and the rest ran on it.
pub >>=-eq-ok {ℓ κ μ} :
    {E : Type ℓ} {V : Type κ} {W : Type μ} (step : Result E V) (next : V → Result E W) {w : W}
    → (step >>= next) ≡ ok w
    → (v : V) × (step ≡ ok v) × (next v ≡ ok w)
>>=-eq-ok (err why) next through = cc
>>=-eq-ok (ok v) next through = (v, refl, through)

pub Result-cases {ℓ κ} :
    {E : Type ℓ} {A : Type κ} (r : Result E A) → ((e : E) × (r ≡ err e)) ⊎ ((a : A) × (r ≡ ok a))
Result-cases (ok a) = inr (a, refl)
Result-cases (err e) = inl (e, refl)

-- A test that has passed drops out of a chain.
pub guard-then {ℓ κ} :
    {E : Type ℓ} {A : Type κ} (b : Bool) (e : E) (k : Result E A) {a : A}
    → (guard b e >> k) ≡ ok a
    → (b ≡ true) × (k ≡ ok a)
guard-then true e k h = (refl, h)
guard-then false e k h = cc

pub check-then {ℓ κ} :
    {E : Type ℓ} {A : Type κ} (m : Result E (Unit {0})) (k : Result E A) {a : A}
    → (m >> k) ≡ ok a
    → (m ≡ ok tt) × (k ≡ ok a)
check-then (ok tt) k h = (refl, h)
check-then (err e) k h = cc

pub or_err-then {ℓ κ μ} :
    {E : Type ℓ} {A : Type κ} {B : Type μ} (o : Option A) (e : E) (f : A → Result E B) {b : B}
    → (or_err o e >>= f) ≡ ok b
    → (a : A) × (o ≡ some a) × (f a ≡ ok b)
or_err-then none e f h = cc
or_err-then (some a) e f h = (a, refl, h)

-- The state that a chain ends in.
pub returned {ℓ κ} :
    {E : Type ℓ} {A : Type κ} {a b : A} → (let r : Result E A = ok a in r) ≡ ok b → b ≡ a
returned h = cc

pub guard-true {ℓ} : {E : Type ℓ} (b : Bool) (e : E) → guard b e ≡ ok tt → b ≡ true
guard-true true e h = refl
guard-true false e h = cc

-- A step that comes through hands its value on.
pub or_err-some {ℓ κ μ} :
    {E : Type ℓ} {A : Type κ} {B : Type μ} (o : Option A) (e : E) (f : A → Result E B) {a : A}
    → o ≡ some a
    → (or_err o e >>= f) ≡ f a
or_err-some o e f h = ap (λ x. or_err x e >>= f) h

pub >>=-ok {ℓ κ μ} :
    {E : Type ℓ} {A : Type κ} {B : Type μ} (m : Result E A) (f : A → Result E B) {a : A}
    → m ≡ ok a
    → (m >>= f) ≡ f a
>>=-ok m f h = ap (λ x. x >>= f) h

-- An `if` that has come through did so on one of its sides.
pub if-ok {ℓ κ} :
    {E : Type ℓ} {A : Type κ} (b : Bool) (m n : Result E A) {a : A}
    → (if b then m else n) ≡ ok a
    → ((b ≡ true) × (m ≡ ok a)) ⊎ ((b ≡ false) × (n ≡ ok a))
if-ok true m n h = inl (refl, h)
if-ok false m n h = inr (refl, h)
