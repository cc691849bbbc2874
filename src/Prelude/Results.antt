-- ===== src/Prelude/Results.antt =====
-- What a fallible function of the program does: it returns, it throws, or it runs into undefined
-- behaviour (a read or a write outside a buffer).
use mathlib.Core.Path.{◌≡◌, refl}
use mathlib.Core.Option.{Option, none, some}

-- The exception classes of include/xdl/types.h, and those that the standard library throws.
pub data Error : Type 0 where
  xdl_error corruption duplicate_key not_found io_error compression_error migration_error : Error
  wal_error invalid_argument out_of_range bad_variant_access : Error

pub data Result {ℓ} (A : Type ℓ) : Type ℓ where
  ok : A → Result A
  err : Error → Result A
  fault : Result A

infixl 5 ◌>>=◌ ◌>>◌
abbrev pub ◌>>=◌ {ℓ κ} : {A : Type ℓ} {B : Type κ} → Result A → (A → Result B) → Result B
fault >>= k = fault
err e >>= k = err e
ok a >>= k = k a

abbrev pub ◌>>◌ {κ} : {B : Type κ} → Result (Unit {0}) → Result B → Result B
first >> next = first >>= λ unit. next

-- The read of an element: outside the container the behaviour is undefined.
abbrev pub defined {ℓ} : {A : Type ℓ} → Option A → Result A
defined none = fault
defined (some a) = ok a

-- `v.at(i)`: outside the container it throws.
abbrev pub checked {ℓ} : {A : Type ℓ} → Option A → Result A
checked none = err out_of_range
checked (some a) = ok a

-- A chain that returned: its first step returned, and so did the rest.
pub bind-eq-ok {ℓ κ} :
    {A : Type ℓ} {B : Type κ} (r : Result A) (rest : A → Result B) {b : B}
    → (r >>= rest) ≡ ok b
    → (a : A) × (r ≡ ok a) × (rest a ≡ ok b)
bind-eq-ok fault rest e = cc
bind-eq-ok (err x) rest e = cc
bind-eq-ok (ok a) rest e = (a, refl, e)
