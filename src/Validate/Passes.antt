-- ===== src/Validate/Passes.antt =====
-- What a passing sequence of checks says, libabi/src/validate.c.
use arrow_abi_doctor.Base.{ℕ, ◌≡◌, ◌≢◌, refl, List, [], ◌∷◌, Bool, true, false, All}
use arrow_abi_doctor.Status.{AbiStatus, ok}
use arrow_abi_doctor.Validate.{Val, next, ◌then_val◌, refuse_if, val_each}

-- A check passes at a count.
abbrev pub Passes : Val → ℕ → Type 0
Passes v n = (v n).0 ≡ ok

-- Both checks of a passing sequence pass.
pub then_val-Passes :
    (v w : Val) (n : ℕ) → Passes (v then_val w) n → Passes v n × ((m : ℕ) × Passes w m)
unfolding ◌then_val◌
then_val-Passes v w n h = split (v n) h
  where
    split : (r : AbiStatus × ℕ) → (next r w).0 ≡ ok → (r.0 ≡ ok) × ((m : ℕ) × Passes w m)
    split (ok, m) h = (refl, (m, h))
    split (_, m) h = cc

pub refuse_if-Passes :
    (b : Bool) (st : AbiStatus) (n : ℕ) → st ≢ ok → Passes (refuse_if b st) n → b ≡ false
refuse_if-Passes true st n bad h = elim (bad h) [ ]
refuse_if-Passes false st n bad h = refl

pub val_each-Passes {ℓ κ} :
    {A : Type ℓ} (f : A → Val) (P : A → Type κ)
    → ((a : A) (n : ℕ) → Passes (f a) n → P a)
    → (items : List A) (n : ℕ) → Passes (val_each f items) n
    → All P items
val_each-Passes f P t [] n h = tt
val_each-Passes f P t (a ∷ rest) n h =
    let (first, (m, others)) = then_val-Passes (f a) (val_each f rest) n h in
    (t a n first, val_each-Passes f P t rest m others)
