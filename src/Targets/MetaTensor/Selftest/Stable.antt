-- ===== src/Targets/MetaTensor/Selftest/Stable.antt =====
-- The self-test passes, on every input that it can flip.
use mapfuzz.Base.{
  ℕ, zero, suc, ◌+◌, ◌-◌, ◌%◌, ◌≤◌, ◌<◌, ◌≡◌, ◌≢◌, refl, sym, ap, ◌∙◌, Bool, true, false, not,
  Option, some, List, [], ◌∷◌, ◌++◌, get_or, take, drop, get_or-take, get_or-drop, get_or-set_ne,
  ◌==◌, ltb, length, if◌then◌else◌, Bool-cases, inl, inr, none, arith, ℤ, pos, negsuc, text_eq,
}
use mapfuzz.Targets.MetaTensor.{Bytes, fields_of, fixed_bytes, slot_values, max_dim, header}
use mapfuzz.Targets.MetaTensor.Layout.{
  Field, dtype, requires_grad, size, stride, field_at, Same, one_byte-one_field, fixed_get,
}
use mapfuzz.Targets.MetaTensor.Stream.{build_stream-Run}
use mapfuzz.Targets.MetaTensor.Selftest.{
  Decoded, decoded_from, decode_fields, int_eq, ints_eq, bool_eq, index_if, changed, is_local,
  flip_byte, flipped, compare_flipped, status_of, stability_test,
}

-- The values are those of the slots that `_build_stream` cuts out.
slot_values-cut :
    (n i h : ℕ) (b : Bytes)
    → i + n ≤ 6
    → slot_values n i (take max_dim (drop h b)) ≡ slot_values n (h + i) b
unfolding slot_values
slot_values-cut zero i h b le = refl
slot_values-cut (suc n) i h b le =
    let low : i < 6 = omega arith in
    let here : get_or (take max_dim (drop h b)) i 0 ≡ get_or b (h + i) 0 =
      get_or-take 0 6 (drop h b) i low ∙ get_or-drop 0 h b i in
    let shift : h + suc i ≡ suc (h + i) = omega arith in
    rw (here, slot_values-cut n (suc i) h b (omega arith), shift) refl

-- The decoding of the self-test is that of `_build_stream`, without the storage offset.
pub decode_fields-fields_of :
    (input : Bytes)
    → ((decode_fields input).dtype_index ≡ (fields_of (fixed_bytes input)).dtype)
      × ((decode_fields input).grad ≡ (fields_of (fixed_bytes input)).requires_grad)
      × ((decode_fields input).sizes ≡ (fields_of (fixed_bytes input)).size)
      × ((decode_fields input).strides ≡ (fields_of (fixed_bytes input)).stride)
unfolding decode_fields decoded_from fields_of
decode_fields-fields_of input =
    let b = fixed_bytes input in
    (
      refl,
      refl,
      sym (slot_values-cut (get_or b 1 0 % 7) 0 5 b (omega arith)),
      sym (slot_values-cut (get_or b 2 0 % 7) 0 11 b (omega arith)),
    )

int_eq_refl : (x : ℤ) → int_eq x x ≡ true
unfolding int_eq
int_eq_refl (pos n) = ground arith
int_eq_refl (negsuc n) = ground arith

ints_eq_refl : (xs : List ℤ) → ints_eq xs xs ≡ true
unfolding ints_eq
ints_eq_refl [] = refl
ints_eq_refl (x ∷ xs) = rw (int_eq_refl x, ints_eq_refl xs) refl

bool_eq_refl : (b : Bool) → bool_eq b b ≡ true
bool_eq_refl true = refl
bool_eq_refl false = refl

nat_eq_refl : (n : ℕ) → (n == n) ≡ true
nat_eq_refl n = ground arith

sizes_only :
    (a b : Decoded)
    → a.dtype_index ≡ b.dtype_index
    → a.size_count ≡ b.size_count
    → a.stride_count ≡ b.stride_count
    → a.grad ≡ b.grad
    → a.strides ≡ b.strides
    → is_local (changed a b) ≡ true
unfolding is_local changed index_if text_eq
sizes_only a b d n m g t =
    rw
      (
        d,
        n,
        m,
        g,
        t,
        nat_eq_refl b.dtype_index,
        nat_eq_refl b.size_count,
        nat_eq_refl b.stride_count,
        bool_eq_refl b.grad,
        ints_eq_refl b.strides,
      )
      (local (ints_eq a.sizes b.sizes))
  where
    local : (t : Bool) → is_local (index_if (not t) 4 ++ []) ≡ true
    local true = refl
    local false = refl

kept_byte :
    (input : Bytes) (j : ℕ)
    → j < 5
    → get_or (fixed_bytes (flip_byte input)) j 0 ≡ get_or (fixed_bytes input) j 0
unfolding flip_byte
kept_byte input j h =
    fixed_get (flip_byte input) j (omega arith)
    ∙ get_or-set_ne 0 input 5 j (255 - get_or input 5 0) (omega arith)
    ∙ sym (fixed_get input j (omega arith))

not_size : (f : Field) → f ≢ size → field_at 5 ≢ some f
unfolding field_at
not_size f n e = n (sym (inj e))
  where
    inj : ◌≡◌ {A = Option Field} (some size) (some f) → size ≡ f
    inj h = cc

-- On every input that has the byte of the first size slot the self-test ends with the status 0: the
-- flip of that byte changes nothing but the sizes, and a stream is built. On a shorter input it
-- raises.
pub stability_test-passes :
    (input : Bytes) → stability_test input ≡ (if ltb header (length input) then some 0 else none)
unfolding stability_test flipped compare_flipped status_of
stability_test-passes input = elim (Bool-cases (ltb header (length input))) [
  | inl t ↦ let (stream, built, _) = build_stream-Run input in rw (t, built, stable) refl
  | inr f ↦ rw f refl
]
  where
    kept :
        (f : Field)
        → f ≢ size
        → Same f (fields_of (fixed_bytes (flip_byte input))) (fields_of (fixed_bytes input))
    kept f n =
        unfold flip_byte in one_byte-one_field input 5 (255 - get_or input 5 0) f (not_size f n)

    stable : is_local (changed (decode_fields input) (decode_fields (flip_byte input))) ≡ true
    stable =
        let (d, g, _, t) = decode_fields-fields_of input in
        let (d', g', _, t') = decode_fields-fields_of (flip_byte input) in
        sizes_only (decode_fields input) (decode_fields (flip_byte input))
          (d ∙ sym (kept dtype (λ e. cc)) ∙ sym d')
          (ap (λ x. x % 7) (sym (kept_byte input 1 (omega arith))))
          (ap (λ x. x % 7) (sym (kept_byte input 2 (omega arith))))
          (g ∙ sym (kept requires_grad (λ e. cc)) ∙ sym g')
          (t ∙ sym (kept stride (λ e. cc)) ∙ sym t')
