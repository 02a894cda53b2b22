-- ===== src/Prelude/Results.antt =====
-- src/core/error.rs: the kinds of errors and `Result`. The context string of an error is left out.
-- `panic` is no value of the source's type: it is a run that an index out of range or an `unwrap`
-- stops.
use mathlib.Core.Option.{Option, none, some}

pub data ErrorKind : Type 0 where
  io parse not_found invalid_argument internal invalid_input : ErrorKind
  out_of_memory invalid_state unsupported_query : ErrorKind

pub data Result {ℓ} (A : Type ℓ) : Type ℓ where
  ok : A → Result A
  err : ErrorKind → Result A
  panic : Result A

infixl 5 ◌>>=◌ ◌>>◌
abbrev pub ◌>>=◌ {ℓ κ} : {A : Type ℓ} {B : Type κ} → Result A → (A → Result B) → Result B
ok a >>= f = f a
err e >>= f = err e
panic >>= f = panic

abbrev pub ◌>>◌ {ℓ} : {B : Type ℓ} → Result (Unit {0}) → Result B → Result B
m >> k = m >>= λ _. k

-- Indexing with `[]`.
abbrev pub or_panic {ℓ} : {A : Type ℓ} → Option A → Result A
or_panic none = panic
or_panic (some a) = ok a
