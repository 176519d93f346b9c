-- ===== src/Targets/MetaTensor.antt =====
-- targets/pytorch/harness/fuzz_rebuild_args_stable.py: pickle streams built from bytes at fixed
-- places. Bytes are numbers below 256.
pub mod Integers
pub mod Pickle
pub mod Stream
pub mod Layout
pub mod Recorded
pub mod Selftest
pub mod Reach
use mapfuzz.Base.{
  ℕ, zero, suc, ◌+◌, ◌-◌, ◌*◌, ◌/◌, ◌%◌, ◌^◌, Text, codes, Bool, true, false, Option, none, some,
  List, [], ◌∷◌, ◌++◌, map, get_or, take, drop, replicate, length, leb, ltb, ◌==◌, if◌then◌else◌, ℤ,
  pos, negsuc, neg,
}
use mapfuzz.Exceptions.{
  ExcClass, builtin, value_error, key_error, struct_error, index_error, eof_error, type_error,
  attribute_error, import_error, runtime_error, recursion_error, Outcome, returned, swallow,
  reraise, Clauses, handle,
}

abbrev pub Bytes : Type 0
Bytes = List ℕ

abbrev pub dtypes : List Text
dtypes =
    codes "float32"
    ∷ codes "float64"
    ∷ codes "float16"
    ∷ codes "bfloat16"
    ∷ codes "int64"
    ∷ codes "int32"
    ∷ codes "int16"
    ∷ codes "int8"
    ∷ codes "uint8"
    ∷ codes "bool"
    ∷ codes "complex64"
    ∷ codes "complex128"
    ∷ []

abbrev pub max_dim : ℕ
max_dim = 6

abbrev pub header : ℕ
header = 5

abbrev pub layout_len : ℕ
layout_len = 17

-- `n.bit_length()` of a natural number: each round halves `n`, so `n` rounds are enough
unfoldable pub bits_from : ℕ → ℕ → ℕ
bits_from zero n = 0
bits_from (suc f) n = let rest = bits_from f (n / 2) in if n == 0 then 0 else rest + 1

unfoldable pub bit_length : ℤ → ℕ
unfolding bits_from
bit_length (pos n) = bits_from n n
bit_length (negsuc n) = bits_from (suc n) (suc n)

unfoldable pub little_endian : ℕ → ℕ → Bytes
little_endian zero x = []
little_endian (suc l) x = (x % 256) ∷ little_endian l (x / 256)

-- `n.to_bytes(l, "little", signed=True)`; none stands for the `OverflowError`
unfoldable pub to_bytes : ℕ → ℤ → Option Bytes
unfolding little_endian
to_bytes l (pos n) = if ltb (2 * n) (256 ^ l) then some (little_endian l n) else none
to_bytes l (negsuc n) =
    if leb (2 * suc n) (256 ^ l) then some (little_endian l (256 ^ l - suc n)) else none

abbrev pub long1 : ℕ
long1 = 0x8a

-- `bytes([l])` raises unless `l` is a byte
long_opcode : ℕ → Option Bytes → Option Bytes
long_opcode l none = none
long_opcode l (some bs) = if ltb l 256 then some (long1 ∷ l ∷ bs) else none

unfoldable pub is_zero : ℤ → Bool
is_zero (pos n) = n == 0
is_zero (negsuc n) = false

-- `_int`
unfoldable pub int_opcode : ℤ → Option Bytes
unfolding bit_length to_bytes long_opcode is_zero
int_opcode n =
    if is_zero n
    then some (long1 ∷ 0 ∷ [])
    else (let l = (bit_length n + 8) / 8 in long_opcode l (to_bytes l n))

abbrev pub concat : List Bytes → Bytes
concat [] = []
concat (x ∷ xs) = x ++ concat xs

-- `_tuple`
unfoldable pub tuple_opcode : List Bytes → Bytes
tuple_opcode items = b'(' ∷ (concat items ++ b't' ∷ [])

-- `_bool`
unfoldable pub bool_opcode : Bool → Bytes
bool_opcode true = 0x88 ∷ []
bool_opcode false = 0x89 ∷ []

abbrev pub newline : ℕ
newline = 10

-- `_global`
unfoldable pub global_opcode : Text → Text → Bytes
global_opcode module_name name = b'c' ∷ (module_name ++ newline ∷ (name ++ newline ∷ []))

-- `_value_from_byte`; the masks of the low and the high nibble are remainders by 16
unfoldable pub value_from_byte : ℕ → ℤ
value_from_byte b =
    let cls = b % 16 in
    let payload = b / 16 % 16 in
    if cls == 0
    then pos 0
    else if cls == 1
    then negsuc 0
    else if cls == 2
    then pos payload
    else if cls == 3
    then neg payload
    else if cls == 4
    then pos (2 ^ 31 - 1)
    else if cls == 5
    then pos (2 ^ 63 - 1)
    else if cls == 6
    then neg (2 ^ 63)
    else if cls == 7
    then pos (2 ^ 31)
    else if cls == 8
    then pos (2 ^ (payload % 63))
    else if cls == 9
    then neg (2 ^ (payload % 63))
    else if cls == 10
    then pos (255 * (payload + 1))
    else pos ((payload + 1) * 4096)

-- `_fixed_bytes`
unfoldable pub fixed_bytes : Bytes → Bytes
fixed_bytes input =
    if leb layout_len (length input)
    then take layout_len input
    else input ++ replicate (layout_len - length input) 0

-- `[_value_from_byte(slots[i]) for i in range(…)]`, from the index `i` on
unfoldable pub slot_values : ℕ → ℕ → Bytes → List ℤ
slot_values zero i slots = []
slot_values (suc n) i slots = value_from_byte (get_or slots i 0) ∷ slot_values n (suc i) slots

-- what `_build_stream` reads out of the padded bytes
pub record Fields : Type 0 where
  pub dtype : ℕ
  pub requires_grad : Bool
  pub offset : ℤ
  pub size : List ℤ
  pub stride : List ℤ

unfoldable pub fields_of : Bytes → Fields
unfolding slot_values
fields_of b = record {
  dtype = get_or b 0 0 % 12;
  requires_grad = get_or b 3 0 % 2 == 1;
  offset = value_from_byte (get_or b 4 0);
  size = slot_values (get_or b 1 0 % (max_dim + 1)) 0 (take max_dim (drop header b));
  stride = slot_values (get_or b 2 0 % (max_dim + 1)) 0 (take max_dim (drop (header + max_dim) b));
}

cons_opcode : Option Bytes → Option (List Bytes) → Option (List Bytes)
cons_opcode none ws = none
cons_opcode (some w) none = none
cons_opcode (some w) (some ws) = some (w ∷ ws)

-- `[_int(x) for x in …]`
int_opcodes : List ℤ → Option (List Bytes)
unfolding cons_opcode
int_opcodes [] = some []
int_opcodes (x ∷ xs) = cons_opcode (int_opcode x) (int_opcodes xs)

abbrev pub proto : Bytes
proto = 0x80 ∷ 2 ∷ []

-- the parts of the stream, and their join
assemble : Fields → List Bytes → List Bytes → Bytes
assemble f size stride = concat (
    proto
    ∷ global_opcode (codes "torch._utils") (codes "_rebuild_meta_tensor_no_storage")
    ∷ tuple_opcode (
        global_opcode (codes "torch") (get_or dtypes f.dtype [])
        ∷ tuple_opcode size
        ∷ tuple_opcode stride
        ∷ bool_opcode f.requires_grad
        ∷ [])
    ∷ codes "R."
    ∷ [])

joined : Fields → Option (List Bytes) → Option (List Bytes) → Option Bytes
joined f none stride = none
joined f (some size) none = none
joined f (some size) (some stride) = some (assemble f size stride)

-- `_build_stream`; none stands for an exception on the way
unfoldable pub build_stream : Bytes → Option Bytes
unfolding fixed_bytes fields_of int_opcodes assemble joined
build_stream input =
    let f = fields_of (fixed_bytes input) in joined f (int_opcodes f.size) (int_opcodes f.stride)

-- `_EXPECTED`
abbrev pub expected : ExcClass → List ExcClass
expected unpickling_error =
    unpickling_error
    ∷ builtin eof_error
    ∷ builtin value_error
    ∷ builtin key_error
    ∷ builtin index_error
    ∷ builtin type_error
    ∷ builtin attribute_error
    ∷ builtin import_error
    ∷ builtin struct_error
    ∷ builtin runtime_error
    ∷ []

abbrev pub recorded_clauses : Clauses
recorded_clauses = (builtin recursion_error ∷ [], reraise) ∷ []

run_stream : ExcClass → (Bytes → Outcome) → Option Bytes → Outcome
run_stream unpickling_error load none = returned
run_stream unpickling_error load (some stream) =
    handle ((expected unpickling_error, swallow) ∷ recorded_clauses) (load stream)

-- `TestOneInput`, over the unpickler `load` of torch
unfoldable pub test_one_input : ExcClass → (Bytes → Outcome) → Bytes → Outcome
unfolding run_stream
test_one_input unpickling_error load input = run_stream unpickling_error load (build_stream input)
