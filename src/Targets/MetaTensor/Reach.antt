-- ===== src/Targets/MetaTensor/Reach.antt =====
-- Every call that the grammar of the harness has is generated.
use mapfuzz.Base.{
  ℕ, zero, suc, ◌-◌, ◌<◌, ◌≤◌, ◌%◌, ◌≡◌, refl, sym, ap, ◌∙◌, Bool, true, false, [], ◌∷◌, ◌++◌,
  length, length-append, length-replicate, replicate, take, drop, ◌==◌, map, arith, All, All-append,
  subst, take-append, drop-append, append-nil, IsByte, flag_byte, flag_byte-IsByte,
}
use mapfuzz.Targets.MetaTensor.{Bytes, fields_of, fixed_bytes, slot_values, value_from_byte}

-- six slots, the first of which are given
abbrev slots : Bytes → Bytes
slots bs = bs ++ replicate (6 - length bs) 0

abbrev pub input_of : ℕ → Bool → ℕ → Bytes → Bytes → Bytes
input_of d g o ss ts = d ∷ length ss ∷ length ts ∷ flag_byte g ∷ o ∷ (slots ss ++ slots ts)

-- the values of the bytes, in order
slot_values_shift : (n i c : ℕ) (b : Bytes) → slot_values n (suc i) (c ∷ b) ≡ slot_values n i b
unfolding slot_values
slot_values_shift zero i c b = refl
slot_values_shift (suc n) i c b = rw (slot_values_shift n (suc i) c b) refl

slot_values-append :
    (bs rest : Bytes) → slot_values (length bs) 0 (bs ++ rest) ≡ map value_from_byte bs
unfolding slot_values
slot_values-append [] rest = refl
slot_values-append (b ∷ bs) rest =
    rw (slot_values_shift (length bs) 0 b (bs ++ rest), slot_values-append bs rest) refl

length-slots : (bs : Bytes) → length bs ≤ 6 → length (slots bs) ≡ 6
length-slots bs h =
    rw (length-append bs (replicate (6 - length bs) 0), length-replicate {A = ℕ} (6 - length bs) 0)
      (omega arith)

slots-IsByte : (bs : Bytes) → All IsByte bs → All IsByte (slots bs)
slots-IsByte bs h = All-append IsByte bs (replicate (6 - length bs) 0) h (zeros (6 - length bs))
  where
    zeros : (n : ℕ) → All IsByte (replicate n 0)
    zeros zero = tt
    zeros (suc n) = (omega arith, zeros n)

six-taken : (xs ys : Bytes) → length xs ≡ 6 → take 6 (xs ++ ys) ≡ xs
six-taken xs ys h = subst (λ n. take n (xs ++ ys) ≡ xs) h (take-append xs ys)

six-dropped : (xs ys : Bytes) → length xs ≡ 6 → drop 6 (xs ++ ys) ≡ ys
six-dropped xs ys h = subst (λ n. drop n (xs ++ ys) ≡ ys) h (drop-append xs ys)

fixed_bytes-whole : (b : Bytes) → length b ≡ 17 → fixed_bytes b ≡ b
unfolding fixed_bytes
fixed_bytes-whole b h = rw (h, whole) refl
  where
    whole : take 17 b ≡ b
    whole =
        subst (λ n. take n b ≡ b) h (ap (take (length b)) (sym (append-nil b)) ∙ take-append b [])

flag_byte-read : (t : Bool) → (flag_byte t % 2 == 1) ≡ t
unfolding flag_byte
flag_byte-read true = refl
flag_byte-read false = refl

sizes_read :
    (ss ys : Bytes)
    → length ss ≤ 6
    → slot_values (length ss % 7) 0 (take 6 (slots ss ++ ys)) ≡ map value_from_byte ss
sizes_read ss ys h =
    ap (λ n. slot_values n 0 (take 6 (slots ss ++ ys))) small
    ∙ ap (slot_values (length ss) 0) (six-taken (slots ss) ys (length-slots ss h))
    ∙ slot_values-append ss (replicate (6 - length ss) 0)
  where
    small : length ss % 7 ≡ length ss
    small = omega arith

strides_read :
    (ss ts : Bytes)
    → length ss ≤ 6
    → length ts ≤ 6
    → slot_values (length ts % 7) 0 (take 6 (drop 6 (slots ss ++ slots ts)))
      ≡ map value_from_byte ts
strides_read ss ts h h' =
    ap (λ b. slot_values (length ts % 7) 0 (take 6 b))
      (six-dropped (slots ss) (slots ts) (length-slots ss h) ∙ sym (append-nil (slots ts)))
    ∙ sizes_read ts [] h'

-- Every dtype, flag, offset, size and stride of at most six values, each the value of some byte, are
-- generated together.
pub fields_of-reaches :
    (d : ℕ) (g : Bool) (o : ℕ) (ss ts : Bytes)
    → d < 12
    → IsByte o
    → All IsByte ss
    → All IsByte ts
    → length ss ≤ 6
    → length ts ≤ 6
    → (input : Bytes) × All IsByte input
      × (length input ≡ 17)
      × (fields_of (fixed_bytes input) ≡ record {
        dtype = d;
        requires_grad = g;
        offset = value_from_byte o;
        size = map value_from_byte ss;
        stride = map value_from_byte ts;
      })
unfolding fields_of
fields_of-reaches d g o ss ts dh oh sh th sl tl =
    let six = length-slots ss sl in
    let six' = length-slots ts tl in
    let len : length (input_of d g o ss ts) ≡ 17 =
      rw (length-append (slots ss) (slots ts), six, six') refl in
    (
      input_of d g o ss ts,
      (
        omega arith,
        (
          omega arith,
          (
            omega arith,
            (
              flag_byte-IsByte g,
              (
                oh,
                All-append IsByte (slots ss) (slots ts) (slots-IsByte ss sh) (slots-IsByte ts th),
              ),
            ),
          ),
        ),
      ),
      len,
      ap fields_of (fixed_bytes-whole (input_of d g o ss ts) len) ∙ read,
    )
  where
    read : fields_of (input_of d g o ss ts) ≡ record {
      dtype = d;
      requires_grad = g;
      offset = value_from_byte o;
      size = map value_from_byte ss;
      stride = map value_from_byte ts;
    }
    read i = record {
      dtype = dtype_read i;
      requires_grad = flag_byte-read g i;
      offset = value_from_byte o;
      size = sizes_read ss (slots ts) sl i;
      stride = strides_read ss ts sl tl i;
    }
      where
        dtype_read : d % 12 ≡ d
        dtype_read = omega arith
