-- ===== src/Decode/Presence.antt =====
-- The presence byte of a schema node, libabi/src/decode.c.
use arrow_abi_doctor.Base.{
  ℕ, zero, suc, ◌<◌, ◌≡◌, refl, ap, ◌∙◌, arith, Bool, true, not, ◌&&◌, ◌==◌, if◌then◌else◌, bit_and,
  bit_or, Bool-cases, inl, inr,
}

-- A table is checked entry by entry.
all_below : (ℕ → Bool) → ℕ → Bool
all_below p zero = true
all_below p (suc n) = p n && all_below p n

all_below-lem : (p : ℕ → Bool) (n k : ℕ) → all_below p n ≡ true → k < n → p k ≡ true
unfolding all_below
all_below-lem p zero k h less = ground arith
all_below-lem p (suc n) k h less = elim (Bool-cases (p n)) [
  | inl at ↦ elim (Bool-cases (k == n)) [
    | inl same ↦ let e : k ≡ n = ground arith in ap p e ∙ at
    | inr other ↦ all_below-lem p n k (ground arith) (ground arith)
  ]
  | inr at ↦ ground arith
]

-- The reserved bits of the presence byte are zero, so its two flags are all of it.
unfoldable pub flags_of : ℕ → ℕ
flags_of p =
    bit_or (if not (bit_and p 1 == 0) then 1 else 0) (if not (bit_and p 2 == 0) then 2 else 0)

presence_table : all_below (λ p. if bit_and p 0xfc == 0 then p == flags_of p else true) 256 ≡ true
unfolding all_below flags_of
presence_table = refl

pub presence-lem : (p : ℕ) → p < 256 → (bit_and p 0xfc == 0) ≡ true → p ≡ flags_of p
presence-lem p small reserved =
    let row =
      all_below-lem (λ p. if bit_and p 0xfc == 0 then p == flags_of p else true) 256 p
        presence_table small in
    ground arith
