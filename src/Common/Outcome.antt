-- ===== src/Common/Outcome.antt =====
-- The outcome of an operation: a value, or the way in which the source stops.
use mathlib.Core.Bool.{Bool, true, false}

-- `assertion` is a BOOST_ASSERT that fails, `length_error` the exception of that name, `bad_access`
-- a read or write outside the block that a pointer points into, and `endless` a
-- loop that has not ended after the rounds that the model grants.
pub data Error : Type 0 where
  assertion length_error bad_access endless : Error

pub data Result {ℓ} (A : Type ℓ) : Type ℓ where
  err : Error → Result A
  ok : A → Result A

abbrev pub map_ok {ℓ κ} : {A : Type ℓ} {B : Type κ} → (A → B) → Result A → Result B
map_ok f (err e) = err e
map_ok f (ok a) = ok (f a)

abbrev pub guard : Bool → Error → Result (Unit {0})
guard false e = err e
guard true e = ok tt

-- BOOST_ASSERT.
abbrev pub assert : Bool → Result (Unit {0})
assert b = guard b assertion

infixl 5 ◌>>=◌ ◌>>◌
abbrev pub ◌>>=◌ {ℓ κ} : {A : Type ℓ} {B : Type κ} → Result A → (A → Result B) → Result B
err e >>= f = err e
ok a >>= f = f a

abbrev pub ◌>>◌ {ℓ κ} : {A : Type ℓ} {B : Type κ} → Result A → Result B → Result B
err e >> k = err e
ok a >> k = k
