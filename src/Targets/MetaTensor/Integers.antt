-- ===== src/Targets/MetaTensor/Integers.antt =====
-- The integer opcode: it is built for every integer, and reading its bytes as `pickle` does gives
-- the integer back.
use native.Mathlib.Nat.{pow-succ', pow-le-pow_right}
use native.Mathlib.Numerals.{add-one}
use mathlib.Core.Option.{some-injective}
use mapfuzz.Base.{
  ℕ, zero, suc, ◌+◌, ◌-◌, ◌*◌, ◌/◌, ◌%◌, ◌^◌, ◌≤◌, ◌<◌, ◌≡◌, refl, sym, ap, ◌∙◌, Bool, true, false,
  some, [], ◌∷◌, length, leb, ltb, ◌==◌, if◌then◌else◌, ℤ, pos, negsuc, neg, arith, Bool-cases, inl,
  inr,
}
use mapfuzz.Targets.MetaTensor.{
  value_from_byte, Bytes, bits_from, bit_length, little_endian, to_bytes, long1, int_opcode,
  is_zero,
}

-- the number that bytes stand for, the lowest first
unfoldable pub from_little_endian : Bytes → ℕ
from_little_endian [] = 0
from_little_endian (b ∷ bs) = b + 256 * from_little_endian bs

-- `int.from_bytes(bs, "little", signed=True)`, as pickle's `decode_long` reads a LONG1 argument
unfoldable pub from_bytes : Bytes → ℤ
unfolding from_little_endian
from_bytes bs =
    let x = from_little_endian bs in
    if ltb (2 * x) (256 ^ length bs) then pos x else neg (256 ^ length bs - x)

bits_bound : (f n : ℕ) → n ≤ f → n < 2 ^ bits_from f n
unfolding bits_from
bits_bound zero n h = omega arith
bits_bound (suc f) n h = elim (Bool-cases (n == 0)) [
  | inl e ↦ rw e (ground arith)
  | inr e ↦
      let half : n / 2 ≤ f = ground arith in
      let twice : 2 ^ (bits_from f (n / 2) + 1) ≡ 2 * 2 ^ bits_from f (n / 2) =
        rw add-one (pow-succ' 2 (bits_from f (n / 2))) in
      rw e (omega (arith, bits_bound f (n / 2) half, twice))
]

-- a byte has eight bits
pow_256 : (l : ℕ) → 256 ^ l ≡ 2 ^ (8 * l)
pow_256 zero = refl
pow_256 (suc l) =
    let eight : 8 * suc l ≡ suc (suc (suc (suc (suc (suc (suc (suc (8 * l)))))))) = omega arith in
    rw eight (simp pow-succ' (omega (arith, pow_256 l)))

-- the bytes that `_int` takes have room for the sign
room : (k : ℕ) → 2 * 2 ^ k ≤ 256 ^ ((k + 8) / 8)
room k = rw (pow_256, ← pow-succ') (pow-le-pow_right {n = 2} (omega arith) (omega arith))

length-little_endian : (l x : ℕ) → length (little_endian l x) ≡ l
unfolding little_endian
length-little_endian zero x = refl
length-little_endian (suc l) x = ap suc (length-little_endian l (x / 256))

from-little_endian : (l x : ℕ) → x < 256 ^ l → from_little_endian (little_endian l x) ≡ x
unfolding little_endian from_little_endian
from-little_endian zero x h = omega arith
from-little_endian (suc l) x h =
    let e = pow-succ' 256 l in
    let below : x / 256 < 256 ^ l = omega arith in
    omega (arith, from-little_endian l (x / 256) below)

from_bytes-little_endian :
    (l x : ℕ)
    → x < 256 ^ l
    → from_bytes (little_endian l x) ≡ (if ltb (2 * x) (256 ^ l) then pos x else neg (256 ^ l - x))
unfolding from_bytes
from_bytes-little_endian l x h = rw (length-little_endian, from-little_endian l x h) refl

neg_sub : (m n : ℕ) → n < m → neg (m - (m - suc n)) ≡ negsuc n
neg_sub m n h = let e : m - (m - suc n) ≡ suc n = omega arith in rw e refl

-- Bytes that `to_bytes` returns read back as the integer, and are as many as asked for.
pub from_bytes-to_bytes :
    (l : ℕ) (n : ℤ) (bs : Bytes) → to_bytes l n ≡ some bs → (from_bytes bs ≡ n) × (length bs ≡ l)
unfolding to_bytes
from_bytes-to_bytes l (pos n) bs h = elim (Bool-cases (ltb (2 * n) (256 ^ l))) [
  | inl e ↦
      let below : n < 256 ^ l = ground arith in
      let same : little_endian l n ≡ bs = some-injective _ _ (rw e at h) in
      rw (← same) (from_bytes-little_endian l n below ∙ rw e refl, length-little_endian l n)
  | inr e ↦ absurd (ground arith)
]
from_bytes-to_bytes l (negsuc n) bs h = elim (Bool-cases (leb (2 * suc n) (256 ^ l))) [
  | inl e ↦
      let enough : 2 * suc n ≤ 256 ^ l = ground arith in
      let below : 256 ^ l - suc n < 256 ^ l = omega arith in
      let high : ltb (2 * (256 ^ l - suc n)) (256 ^ l) ≡ false = ground arith in
      let same : little_endian l (256 ^ l - suc n) ≡ bs = some-injective _ _ (rw e at h) in
      rw (← same) (
        from_bytes-little_endian l (256 ^ l - suc n) below
            ∙ rw high (neg_sub (256 ^ l) n (omega arith)),
        length-little_endian l (256 ^ l - suc n),
      )
  | inr e ↦ absurd (ground arith)
]

to_bytes_fits :
    (k : ℕ) (n : ℤ) → bit_length n ≡ k → (bs : Bytes) × (to_bytes ((k + 8) / 8) n ≡ some bs)
unfolding to_bytes bit_length
to_bytes_fits k (pos n) e =
    let below : n < 2 ^ k = rw (← e) (bits_bound n n (omega arith)) in
    let fits : ltb (2 * n) (256 ^ ((k + 8) / 8)) ≡ true = ground (arith, room k) in
    (little_endian ((k + 8) / 8) n, rw fits refl)
to_bytes_fits k (negsuc n) e =
    let below : suc n < 2 ^ k = rw (← e) (bits_bound (suc n) (suc n) (omega arith)) in
    let fits : leb (2 * suc n) (256 ^ ((k + 8) / 8)) ≡ true = ground (arith, room k) in
    (little_endian ((k + 8) / 8) (256 ^ ((k + 8) / 8) - suc n), rw fits refl)

zero_reads : (n : ℤ) → is_zero n ≡ true → from_bytes [] ≡ n
unfolding is_zero from_bytes
zero_reads (pos n) e = ground arith
zero_reads (negsuc n) e = cc

-- what `_int` builds: the opcode, a length, and as many bytes, which read back as the integer
pub record LongOpcode (n : ℤ) (stream : Bytes) : Type 0 where
  pub argument : Bytes
  pub built : stream ≡ long1 ∷ length argument ∷ argument
  pub reads : from_bytes argument ≡ n

-- An integer of at most 2032 bits has its opcode, and the argument of the opcode reads back as the
-- integer.
pub int_opcode-LongOpcode :
    (n : ℤ)
    → bit_length n ≤ 2032
    → (stream : Bytes) × (int_opcode n ≡ some stream) × LongOpcode n stream
int_opcode-LongOpcode n small = go (is_zero n) refl
  where
    go :
        (b : Bool)
        → is_zero n ≡ b
        → (stream : Bytes) × (int_opcode n ≡ some stream) × LongOpcode n stream
    go true e =
        unfold int_opcode in
        (long1 ∷ 0 ∷ [], rw e refl, record { argument = []; built = refl; reads = zero_reads n e })
    go false e =
        let l = (bit_length n + 8) / 8 in
        let byte : ltb l 256 ≡ true = ground arith in
        let (bs, fits) = to_bytes_fits (bit_length n) n refl in
        let (back, as_long) = from_bytes-to_bytes l n bs fits in
        unfold int_opcode in
        (
          long1 ∷ l ∷ bs,
          rw (e, fits, byte) refl,
          record { argument = bs; built = ap (λ k. long1 ∷ k ∷ bs) (sym as_long); reads = back },
        )

-- a number below a power of two has no more bits than its exponent
bits_le : (f n k : ℕ) → n < 2 ^ k → bits_from f n ≤ k
unfolding bits_from
bits_le zero n k h = omega arith
bits_le (suc f) n zero h = ground arith
bits_le (suc f) n (suc k) h =
    let half : n / 2 < 2 ^ k = omega (arith, pow-succ' 2 k) in
    ground (arith, bits_le f (n / 2) k half)

-- within 2^63 on both sides
abbrev IsSmall : ℤ → Type 0
IsSmall (pos n) = n ≤ 2 ^ 63
IsSmall (negsuc n) = suc n ≤ 2 ^ 63

neg-IsSmall : (n : ℕ) → n ≤ 2 ^ 63 → IsSmall (neg n)
neg-IsSmall zero h = omega arith
neg-IsSmall (suc n) h = h

value_from_byte-IsSmall : (b : ℕ) → IsSmall (value_from_byte b)
unfolding value_from_byte
value_from_byte-IsSmall b =
    let payload = b / 16 % 16 in
    let power : 2 ^ (payload % 63) ≤ 2 ^ 63 =
      pow-le-pow_right {n = 2} (omega arith) {j = 63} (omega arith) in
    ground (arith, power, neg-IsSmall payload, neg-IsSmall (2 ^ (payload % 63)))

-- Every value that a byte selects has at most 64 bits.
pub value_from_byte-bits : (b : ℕ) → bit_length (value_from_byte b) ≤ 64
value_from_byte-bits b = go (value_from_byte b) (value_from_byte-IsSmall b)
  where
    go : (n : ℤ) → IsSmall n → bit_length n ≤ 64
    go (pos n) h = unfold bit_length in bits_le n n 64 (omega arith)
    go (negsuc n) h = unfold bit_length in bits_le (suc n) (suc n) 64 (omega arith)
