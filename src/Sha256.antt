-- ===== src/Sha256.antt =====
-- SHA-256 as libabi/src/sha256.c computes it: the context with its partial block, the compression of one
-- block, and the padding. A `uint32_t` sum is taken modulo 2 ^ 32.
use arrow_abi_doctor.Base.{
  ◌≡◌, refl, ℕ, zero, suc, ◌+◌, ◌-◌, ◌*◌, ◌/◌, ◌%◌, ◌^◌, List, [], ◌∷◌, ◌++◌, ltb, ◌==◌,
  if◌then◌else◌, length, get_or, take, drop, replicate, bit_and, bit_or,
}
use Prim.Native.Nat.{bit_xor, min}

abbrev abi_sha256_k : List ℕ
abi_sha256_k =
    0x428a2f98 ∷ 0x71374491 ∷ 0xb5c0fbcf ∷ 0xe9b5dba5 ∷ 0x3956c25b ∷ 0x59f111f1 ∷ 0x923f82a4
    ∷ 0xab1c5ed5 ∷ 0xd807aa98 ∷ 0x12835b01 ∷ 0x243185be ∷ 0x550c7dc3 ∷ 0x72be5d74 ∷ 0x80deb1fe
    ∷ 0x9bdc06a7 ∷ 0xc19bf174 ∷ 0xe49b69c1 ∷ 0xefbe4786 ∷ 0x0fc19dc6 ∷ 0x240ca1cc ∷ 0x2de92c6f
    ∷ 0x4a7484aa ∷ 0x5cb0a9dc ∷ 0x76f988da ∷ 0x983e5152 ∷ 0xa831c66d ∷ 0xb00327c8 ∷ 0xbf597fc7
    ∷ 0xc6e00bf3 ∷ 0xd5a79147 ∷ 0x06ca6351 ∷ 0x14292967 ∷ 0x27b70a85 ∷ 0x2e1b2138 ∷ 0x4d2c6dfc
    ∷ 0x53380d13 ∷ 0x650a7354 ∷ 0x766a0abb ∷ 0x81c2c92e ∷ 0x92722c85 ∷ 0xa2bfe8a1 ∷ 0xa81a664b
    ∷ 0xc24b8b70 ∷ 0xc76c51a3 ∷ 0xd192e819 ∷ 0xd6990624 ∷ 0xf40e3585 ∷ 0x106aa070 ∷ 0x19a4c116
    ∷ 0x1e376c08 ∷ 0x2748774c ∷ 0x34b0bcb5 ∷ 0x391c0cb3 ∷ 0x4ed8aa4a ∷ 0x5b9cca4f ∷ 0x682e6ff3
    ∷ 0x748f82ee ∷ 0x78a5636f ∷ 0x84c87814 ∷ 0x8cc70208 ∷ 0x90befffa ∷ 0xa4506ceb ∷ 0xbef9a3f7
    ∷ 0xc67178f2 ∷ []

-- `uint32_t` and `uint64_t` arithmetic.
abbrev wrap32 : ℕ → ℕ
wrap32 n = n % 2 ^ 32

abbrev invert32 : ℕ → ℕ
invert32 n = 2 ^ 32 - 1 - n

unfoldable pub abi_rotr : ℕ → ℕ → ℕ
abi_rotr v n = bit_or (v / 2 ^ n) (wrap32 (v * 2 ^ (32 - n)))

-- The eight words of the state, and the variables `a` to `h`.
pub record Words : Type 0 where
  pub a : ℕ
  pub b : ℕ
  pub c : ℕ
  pub d : ℕ
  pub e : ℕ
  pub f : ℕ
  pub g : ℕ
  pub h : ℕ

pub record AbiSha256 : Type 0 where
  pub state : Words
  pub length : ℕ
  -- The `block_used` bytes of `block`.
  pub block : List ℕ

-- A big-endian word.
abbrev load_be32 : List ℕ → ℕ
load_be32 p =
    bit_or (get_or p 0 0 * 2 ^ 24)
      (bit_or (get_or p 1 0 * 2 ^ 16) (bit_or (get_or p 2 0 * 2 ^ 8) (get_or p 3 0)))

abbrev load_words : ℕ → List ℕ → List ℕ
load_words zero p = []
load_words (suc n) p = load_be32 p ∷ load_words n (drop 4 p)

-- `for (i = 16; i < 64; i++)`: `n` words are still to come.
unfoldable schedule : ℕ → ℕ → List ℕ → List ℕ
unfolding abi_rotr
schedule zero i w = w
schedule (suc n) i w =
    let w15 = get_or w (i - 15) 0 in
    let w2 = get_or w (i - 2) 0 in
    let s0 = bit_xor (bit_xor (abi_rotr w15 7) (abi_rotr w15 18)) (w15 / 2 ^ 3) in
    let s1 = bit_xor (bit_xor (abi_rotr w2 17) (abi_rotr w2 19)) (w2 / 2 ^ 10) in
    schedule n (i + 1) (w ++ (wrap32 (get_or w (i - 16) 0 + s0 + get_or w (i - 7) 0 + s1) ∷ []))

unfoldable round : ℕ → ℕ → Words → Words
unfolding abi_rotr
round k w s =
    let big1 = bit_xor (bit_xor (abi_rotr s.e 6) (abi_rotr s.e 11)) (abi_rotr s.e 25) in
    let ch = bit_xor (bit_and s.e s.f) (bit_and (invert32 s.e) s.g) in
    let t1 = wrap32 (s.h + big1 + ch + k + w) in
    let big0 = bit_xor (bit_xor (abi_rotr s.a 2) (abi_rotr s.a 13)) (abi_rotr s.a 22) in
    let maj = bit_xor (bit_xor (bit_and s.a s.b) (bit_and s.a s.c)) (bit_and s.b s.c) in
    let t2 = wrap32 (big0 + maj) in
    record {
      a = wrap32 (t1 + t2);
      b = s.a;
      c = s.b;
      d = s.c;
      e = wrap32 (s.d + t1);
      f = s.e;
      g = s.f;
      h = s.g;
    }

unfoldable rounds : List ℕ → List ℕ → Words → Words
unfolding round
rounds (k ∷ ks) (w ∷ ws) s = rounds ks ws (round k w s)
rounds [] ws s = s
rounds (k ∷ ks) [] s = s

unfoldable pub abi_sha256_block : Words → List ℕ → Words
unfolding rounds schedule
abi_sha256_block s p =
    let r = rounds abi_sha256_k (schedule 48 16 (load_words 16 p)) s in
    record {
      a = wrap32 (s.a + r.a);
      b = wrap32 (s.b + r.b);
      c = wrap32 (s.c + r.c);
      d = wrap32 (s.d + r.d);
      e = wrap32 (s.e + r.e);
      f = wrap32 (s.f + r.f);
      g = wrap32 (s.g + r.g);
      h = wrap32 (s.h + r.h);
    }

unfoldable pub abi_sha256_init : AbiSha256
abi_sha256_init = record {
  state = record {
    a = 0x6a09e667;
    b = 0xbb67ae85;
    c = 0x3c6ef372;
    d = 0xa54ff53a;
    e = 0x510e527f;
    f = 0x9b05688c;
    g = 0x1f83d9ab;
    h = 0x5be0cd19;
  };
  length = 0;
  block = [];
}

-- `while (size >= 64)`: a round takes 64 bytes, so the number of bytes is fuel enough.
unfoldable whole_blocks : ℕ → Words → List ℕ → Words × List ℕ
unfolding abi_sha256_block
whole_blocks zero s p = (s, p)
whole_blocks (suc fuel) s p =
    let rest = whole_blocks fuel (abi_sha256_block s (take 64 p)) (drop 64 p) in
    if ltb (length p) 64 then (s, p) else rest

-- The bytes that complete a started block.
unfoldable top_up : AbiSha256 → List ℕ → AbiSha256 × List ℕ
unfolding abi_sha256_block
top_up s p =
    if length s.block == 0
    then (s, p)
    else let n = min (length p) (64 - length s.block) in
      let block = s.block ++ take n p in
      (
        if length block == 64
            then record s { state = abi_sha256_block s.state block; block = [] }
            else record s { block = block },
        drop n p,
      )

unfoldable pub abi_sha256_update : AbiSha256 → List ℕ → AbiSha256
unfolding top_up whole_blocks
abi_sha256_update s p =
    let (s', p') = top_up (record s { length = (s.length + length p) % 2 ^ 64 }) p in
    let (state, left) = whole_blocks (length p') s'.state p' in
    if length left == 0
    then record s' { state = state }
    else record s' { state = state; block = left }

abbrev store_be32 : ℕ → List ℕ
store_be32 v = v / 2 ^ 24 % 256 ∷ v / 2 ^ 16 % 256 ∷ v / 2 ^ 8 % 256 ∷ v % 256 ∷ []

unfoldable pub abi_sha256_final : AbiSha256 → List ℕ
unfolding abi_sha256_update
abi_sha256_final s =
    let bits = s.length * 8 % 2 ^ 64 in
    let used = length s.block in
    let padlen = if ltb used 56 then 56 - used else 120 - used in
    let size = store_be32 (bits / 2 ^ 32) ++ store_be32 (bits % 2 ^ 32) in
    let w = (abi_sha256_update s ((0x80 ∷ replicate (padlen - 1) 0) ++ size)).state in
    store_be32 w.a
    ++ (store_be32 w.b
        ++ (store_be32 w.c
            ++ (store_be32 w.d
                ++ (store_be32 w.e ++ (store_be32 w.f ++ (store_be32 w.g ++ store_be32 w.h))))))

unfoldable pub abi_sha256 : List ℕ → List ℕ
unfolding abi_sha256_init abi_sha256_update abi_sha256_final
abi_sha256 bs = abi_sha256_final (abi_sha256_update abi_sha256_init bs)

-- The digest of "abc" in FIPS 180-4.
abi_sha256_abc :
    take 8 (abi_sha256 (0x61 ∷ 0x62 ∷ 0x63 ∷ []))
    ≡ (0xba ∷ 0x78 ∷ 0x16 ∷ 0xbf ∷ 0x8f ∷ 0x01 ∷ 0xcf ∷ 0xea ∷ [])
unfolding abi_sha256
abi_sha256_abc = refl

-- A digest has 32 bytes.
pub length-abi_sha256 : (bs : List ℕ) → length (abi_sha256 bs) ≡ 32
unfolding abi_sha256
length-abi_sha256 bs = refl
