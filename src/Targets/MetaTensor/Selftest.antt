-- ===== src/Targets/MetaTensor/Selftest.antt =====
-- `_selftest` of the harness: a decoding of its own, and how it changes with one byte.
pub mod Stable
use mapfuzz.Base.{
  ℕ, range_from, zero, suc, ◌+◌, ◌-◌, ◌%◌, ◌≤◌, ◌<◌, ◌≡◌, ◌≢◌, refl, sym, ap, ◌∙◌, Bool, true,
  false, not, Option, none, some, List, [], ◌∷◌, ◌++◌, get_or, take, drop, set, get_or-take,
  get_or-drop, get_or-set_ne, ltb, length, ◌==◌, ◌&&◌, ◌||◌, if◌then◌else◌, arith, ℤ, pos, negsuc,
  text_eq,
}
use mapfuzz.Targets.MetaTensor.{
  Bytes, fields_of, fixed_bytes, slot_values, header, max_dim, layout_len, build_stream,
}
use mapfuzz.Targets.MetaTensor.Layout.{
  Field, dtype, requires_grad, size, stride, field_at, Same, one_byte-one_field, fixed_get,
}
use mapfuzz.Targets.MetaTensor.Stream.{build_stream-Run}

-- what `decode_fields` returns
pub record Decoded : Type 0 where
  pub dtype_index : ℕ
  pub size_count : ℕ
  pub stride_count : ℕ
  pub grad : Bool
  pub sizes : List ℤ
  pub strides : List ℤ

decoded_from : Bytes → Decoded
decoded_from b =
    let ns = get_or b 1 0 % (max_dim + 1) in
    let nst = get_or b 2 0 % (max_dim + 1) in
    record {
      dtype_index = get_or b 0 0 % 12;
      size_count = ns;
      stride_count = nst;
      grad = get_or b 3 0 % 2 == 1;
      sizes = slot_values ns header b;
      strides = slot_values nst (header + max_dim) b;
    }

-- `decode_fields`
unfoldable pub decode_fields : Bytes → Decoded
unfolding decoded_from
decode_fields input = decoded_from (fixed_bytes input)

unfoldable pub int_eq : ℤ → ℤ → Bool
int_eq (pos m) (pos n) = m == n
int_eq (negsuc m) (negsuc n) = m == n
int_eq (pos m) (negsuc n) = false
int_eq (negsuc m) (pos n) = false

unfoldable pub ints_eq : List ℤ → List ℤ → Bool
unfolding int_eq
ints_eq [] [] = true
ints_eq [] (y ∷ ys) = false
ints_eq (x ∷ xs) [] = false
ints_eq (x ∷ xs) (y ∷ ys) = int_eq x y && ints_eq xs ys

abbrev pub bool_eq : Bool → Bool → Bool
bool_eq true b = b
bool_eq false b = not b

unfoldable pub index_if : Bool → ℕ → List ℕ
index_if true i = i ∷ []
index_if false i = []

-- `[i for i in range(len(f0)) if f0[i] != f1[i]]`
unfoldable pub changed : Decoded → Decoded → List ℕ
unfolding index_if ints_eq
changed a b =
    index_if (not (a.dtype_index == b.dtype_index)) 0
    ++ (index_if (not (a.size_count == b.size_count)) 1
        ++ (index_if (not (a.stride_count == b.stride_count)) 2
            ++ (index_if (not (bool_eq a.grad b.grad)) 3
                ++ (index_if (not (ints_eq a.sizes b.sizes)) 4
                    ++ index_if (not (ints_eq a.strides b.strides)) 5))))

-- `changed in ([4], [])`
unfoldable pub is_local : List ℕ → Bool
is_local is = text_eq is (4 ∷ []) || text_eq is []

-- the byte `b ^ 0xFF` is `255 - b`
unfoldable pub flip_byte : Bytes → Bytes
flip_byte input = set input header (255 - get_or input header 0)

-- `mut[_HEADER] ^= 0xFF`; none stands for the `IndexError` where there is no such byte
pub flipped : Bytes → Option Bytes
unfolding flip_byte
flipped input = if ltb header (length input) then some (flip_byte input) else none

-- `bytes(range(_LAYOUT_LEN))`
abbrev pub base : Bytes
base = range_from 0 layout_len

status_of : Bool → Option Bytes → Option ℕ
status_of ok none = none
status_of ok (some stream) = some (if ok then 0 else 1)

-- the rest of `_selftest`, from the flipped input on
pub compare_flipped : Bytes → Option Bytes → Option ℕ
unfolding decode_fields changed is_local status_of
compare_flipped input none = none
compare_flipped input (some other) =
    status_of (is_local (changed (decode_fields input) (decode_fields other))) (build_stream input)

-- `_selftest` on an input in place of `base`; none stands for an exception
unfoldable pub stability_test : Bytes → Option ℕ
unfolding flipped compare_flipped
stability_test input = compare_flipped input (flipped input)
