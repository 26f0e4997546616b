-- ===== src/Prelude/Outcome.antt =====
-- Python's exceptions as values. One constructor for each kind of exception that the modelled code
-- raises, on purpose or through the runtime.
use mathlib.Core.Path.{◌≡◌, refl}
use mathlib.Core.Logic.{◌⊎◌, inl, inr}
use mathlib.Core.Bool.{Bool, true, false}

pub data Error : Type 0 where
  exception : Error  -- `raise Exception(...)`
  value_error : Error  -- `raise ValueError(...)`, or an enum looked up by a value it lacks
  assertion_error : Error  -- `assert`
  index_error : Error  -- a list subscript out of range
  type_error : Error  -- a subscript, or an operation, on `None`
  attribute_error : Error  -- a method of `None`
  unbound_local : Error  -- a local variable that no branch assigned
  overflow_error : Error  -- `int.to_bytes` of a number that does not fit
  blocked : Error  -- an `await` whose queue never receives an item

-- What a Python function does: it raises, or it returns.
pub data Result {ℓ} (A : Type ℓ) : Type ℓ where
  err : Error → Result A
  ok : A → Result A

pub Result-cases {ℓ} :
    {A : Type ℓ} (r : Result A) → ((a : A) × (r ≡ ok a)) ⊎ ((e : Error) × (r ≡ err e))
Result-cases (err e) = inr (e, refl)
Result-cases (ok a) = inl (a, refl)

-- `if not b: raise e`, and `assert b`.
abbrev pub guard : Bool → Error → Result (Unit {0})
guard false e = err e
guard true e = ok tt

infixl 5 ◌>>=◌ ◌>>◌
abbrev pub ◌>>=◌ {ℓ κ} :
    {A : Type ℓ} {B : Type κ} (first : Result A) (next : A → Result B) → Result B
err e >>= next = err e
ok a >>= next = next a

abbrev pub ◌>>◌ {ℓ} : {B : Type ℓ} (first : Result (Unit {0})) (next : Result B) → Result B
first >> next = first >>= λ _. next
