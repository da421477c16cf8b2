-- ===== src/Cursor/Monad.antt =====
-- A step over a state that may give up: `none` is a `return 0` or `return NULL` of the source, and
-- the state keeps the reason.
use arrow_abi_doctor.Base.{Option, none, some}

abbrev pub M : Type 0 → Type 0 → Type 0
M S A = S → Option A × S

module _ {S A B : Type 0} where
  abbrev pub proceed : Option A × S → (A → M S B) → Option B × S
  proceed (none, s) f = (none, s)
  proceed (some a, s) f = f a s

  infixl 5 ◌>>=◌
  abbrev pub ◌>>=◌ : M S A → (A → M S B) → M S B
  ◌>>=◌ m f s = proceed (m s) f

module _ {S B : Type 0} where
  infixl 5 ◌>>◌
  abbrev pub ◌>>◌ : M S (Unit {0}) → M S B → M S B
  ◌>>◌ m k s = proceed (m s) (λ _. k)

-- A call that always answers, with 0 after a failure, and leaves it to the caller to check.
abbrev pub value : {S A : Type 0} → (S → A × S) → M S A
value f s = let (a, s') = f s in (some a, s')

abbrev pub pure : {S A : Type 0} → A → M S A
pure a s = (some a, s)
