-- ===== src/Targets/MetaTensor/Stream.antt =====
-- What the pickle machine makes of the streams that `_build_stream` returns.
use mapfuzz.Base.{
  ℕ, zero, suc, ◌≤◌, ◌≡◌, refl, sym, ap, ◌∙◌, Text, Bool, true, false, some, List, [], ◌∷◌, ◌++◌,
  length, length-append, take, drop, leb, ◌==◌, ℤ, arith, all, append_assoc, codes, get_or, not,
  subst, All,
}
use mapfuzz.Targets.MetaTensor.{
  Bytes, newline, long1, bit_length, int_opcode, int_opcodes, tuple_opcode, bool_opcode,
  global_opcode, concat, assemble, build_stream, Fields, fields_of, fixed_bytes, slot_values,
  dtypes,
}
use mapfuzz.Targets.MetaTensor.Integers.{LongOpcode, int_opcode-LongOpcode, value_from_byte-bits}
use mapfuzz.Targets.MetaTensor.Pickle.{
  Value, int, bool, global, tuple, call, Values, end, item, mark, val, Stack, step, Run, here, next,
  Run-trans, pop_mark, read_line, long_step, global_step, tuple_step,
}

-- The stream `w` pushes the value `v`, whatever follows it and whatever is on the stack.
abbrev Pushes : Bytes → Value → Type 0
Pushes w v = (rest : Bytes) (st : Stack) → Run (w ++ rest, st) (rest, val v ∷ st)

take-length : (a rest : Bytes) → take (length a) (a ++ rest) ≡ a
take-length [] rest = refl
take-length (x ∷ a) rest = ap (◌∷◌ x) (take-length a rest)

drop-length : (a rest : Bytes) → drop (length a) (a ++ rest) ≡ rest
drop-length [] rest = refl
drop-length (x ∷ a) rest = drop-length a rest

long-Pushes : (n : ℤ) (w : Bytes) → LongOpcode n w → Pushes w (int n)
long-Pushes n w o rest st =
    subst (λ v. Run (v ++ rest, st) (rest, val (int n) ∷ st)) (sym o.built) (next stepped (here _))
  where
    fits : leb (length o.argument) (length (o.argument ++ rest)) ≡ true
    fits = ground (arith, length-append o.argument rest)

    stepped :
        step (long1 ∷ length o.argument ∷ o.argument ++ rest, st) ≡ some (rest, val (int n) ∷ st)
    stepped =
        unfold step long_step in
        rw (fits, take-length o.argument rest, drop-length o.argument rest, o.reads) refl

bool-Pushes : (b : Bool) → Pushes (bool_opcode b) (bool b)
unfolding bool_opcode step
bool-Pushes true rest st = next refl (here _)
bool-Pushes false rest st = next refl (here _)

not_newline : ℕ → Bool
not_newline c = not (c == newline)

read_line-lem :
    (w rest : Bytes) → all not_newline w ≡ true → read_line (w ++ newline ∷ rest) ≡ some (w, rest)
unfolding read_line all not_newline
read_line-lem [] rest h = refl
read_line-lem (c ∷ w) rest h = ground (arith, read_line-lem w rest)

global-Pushes :
    (m n : Text)
    → all not_newline m ≡ true
    → all not_newline n ≡ true
    → Pushes (global_opcode m n) (global m n)
unfolding global_opcode
global-Pushes m n hm hn rest st = next stepped (here _)
  where
    shape : (m ++ newline ∷ (n ++ newline ∷ [])) ++ rest ≡ m ++ newline ∷ (n ++ newline ∷ rest)
    shape =
        append_assoc m (newline ∷ (n ++ newline ∷ [])) rest
        ∙ ap (λ t. m ++ newline ∷ t) (append_assoc n (newline ∷ []) rest)

    stepped :
        step (b'c' ∷ ((m ++ newline ∷ (n ++ newline ∷ [])) ++ rest), st)
        ≡ some (rest, val (global m n) ∷ st)
    stepped =
        unfold step global_step in
        rw (shape, global_step, read_line-lem m (n ++ newline ∷ rest) hm, read_line-lem n rest hn)
          refl

-- a tuple's items, each pushed by its own stream
abbrev PushAll : List Bytes → Values → Type 0
PushAll [] end = Unit
PushAll [] (item v vs) = ⊥
PushAll (w ∷ ws) end = ⊥
PushAll (w ∷ ws) (item v vs) = Pushes w v × PushAll ws vs

push_all : Values → Stack → Stack
push_all end st = st
push_all (item v vs) st = push_all vs (val v ∷ st)

append_values : Values → Values → Values
append_values end ws = ws
append_values (item v vs) ws = item v (append_values vs ws)

append_values-end : (vs : Values) → append_values vs end ≡ vs
unfolding append_values
append_values-end end = refl
append_values-end (item v vs) = ap (item v) (append_values-end vs)

pop_mark-push_all :
    (vs ws : Values) (st : Stack) → pop_mark (push_all vs st) ws ≡ pop_mark st (append_values vs ws)
unfolding pop_mark push_all append_values
pop_mark-push_all end ws st = refl
pop_mark-push_all (item v vs) ws st = pop_mark-push_all vs ws (val v ∷ st)

concat-PushAll :
    (ws : List Bytes) (vs : Values) (rest : Bytes) (st : Stack)
    → PushAll ws vs
    → Run (concat ws ++ rest, st) (rest, push_all vs st)
unfolding push_all
concat-PushAll [] end rest st h = here _
concat-PushAll [] (item v vs) rest st h = absurd h
concat-PushAll (w ∷ ws) end rest st h = absurd h
concat-PushAll (w ∷ ws) (item v vs) rest st (h, hs) =
    rw (append_assoc w (concat ws) rest)
      (Run-trans (h (concat ws ++ rest) st) (concat-PushAll ws vs rest (val v ∷ st) hs))

tuple_closed :
    (vs : Values) (rest : Bytes) (st : Stack)
    → tuple_step rest (push_all vs (mark ∷ st)) ≡ some (rest, val (tuple vs) ∷ st)
tuple_closed vs rest st = unfold tuple_step in rw (tuple_step, popped) refl
  where
    popped : pop_mark (push_all vs (mark ∷ st)) end ≡ some (vs, st)
    popped =
        pop_mark-push_all vs end (mark ∷ st)
        ∙ unfold pop_mark in ap (λ v. some (v, st)) (append_values-end vs)

tuple-Pushes : (ws : List Bytes) (vs : Values) → PushAll ws vs → Pushes (tuple_opcode ws) (tuple vs)
unfolding tuple_opcode
tuple-Pushes ws vs h rest st = next opened (Run-trans items (next closed (here _)))
  where
    opened :
        step (b'(' ∷ ((concat ws ++ b't' ∷ []) ++ rest), st)
        ≡ some (concat ws ++ b't' ∷ rest, mark ∷ st)
    opened = unfold step in rw (append_assoc (concat ws) (b't' ∷ []) rest) refl

    items : Run (concat ws ++ b't' ∷ rest, mark ∷ st) (b't' ∷ rest, push_all vs (mark ∷ st))
    items = concat-PushAll ws vs (b't' ∷ rest) (mark ∷ st) h

    closed : step (b't' ∷ rest, push_all vs (mark ∷ st)) ≡ some (rest, val (tuple vs) ∷ st)
    closed = unfold step in tuple_closed vs rest st

ints : List ℤ → Values
ints [] = end
ints (x ∷ xs) = item (int x) (ints xs)

abbrev IsShort : ℤ → Type 0
IsShort x = bit_length x ≤ 64

-- the opcodes of a list of integers, each of which pushes its integer
record Ints (xs : List ℤ) : Type 0 where
  streams : List Bytes
  built : int_opcodes xs ≡ some streams
  push : PushAll streams (ints xs)

int_opcodes-cons :
    (x : ℤ) (xs : List ℤ) (w : Bytes) (ws : List Bytes)
    → int_opcode x ≡ some w
    → int_opcodes xs ≡ some ws
    → int_opcodes (x ∷ xs) ≡ some (w ∷ ws)
unfolding int_opcodes
int_opcodes-cons x xs w ws e h = rw (e, h) refl

int_opcodes-Ints : (xs : List ℤ) → All IsShort xs → Ints xs
unfolding int_opcodes ints
int_opcodes-Ints [] h = record { streams = []; built = refl; push = tt }
int_opcodes-Ints (x ∷ xs) (h, hs) =
    let (w, e, o) = int_opcode-LongOpcode x (omega arith) in
    let rest = int_opcodes-Ints xs hs in
    record {
      streams = w ∷ rest.streams;
      built = int_opcodes-cons x xs w rest.streams e rest.built;
      push = (long-Pushes x w o, rest.push);
    }

slot_values-IsShort : (n i : ℕ) (slots : Bytes) → All IsShort (slot_values n i slots)
unfolding slot_values
slot_values-IsShort zero i slots = tt
slot_values-IsShort (suc n) i slots =
    (value_from_byte-bits (get_or slots i 0), slot_values-IsShort n (suc i) slots)

get_or-inline :
    (l : List Text) (i : ℕ)
    → All (λ w. all not_newline w ≡ true) l
    → all not_newline (get_or l i []) ≡ true
unfolding all
get_or-inline [] i h = refl
get_or-inline (w ∷ l) zero (h, hs) = h
get_or-inline (w ∷ l) (suc i) (h, hs) = get_or-inline l i hs

dtypes-inline : All (λ w. all not_newline w ≡ true) dtypes
unfolding all not_newline
dtypes-inline = (
  refl,
  (refl, (refl, (refl, (refl, (refl, (refl, (refl, (refl, (refl, (refl, (refl, tt))))))))))),
)

abbrev pub module_name : Text
module_name = codes "torch._utils"

abbrev pub function_name : Text
function_name = codes "_rebuild_meta_tensor_no_storage"

-- the call that a stream stands for
unfoldable pub rebuild_call : Fields → Value
unfolding ints
rebuild_call f = call (global module_name function_name) (
    tuple (
      item (global (codes "torch") (get_or dtypes f.dtype [])) (
        item (tuple (ints f.size))
          (item (tuple (ints f.stride)) (item (bool f.requires_grad) end)))))

assemble-Run :
    (f : Fields) (size : Ints f.size) (stride : Ints f.stride)
    → Run (assemble f size.streams stride.streams, []) (codes ".", val (rebuild_call f) ∷ [])
unfolding assemble rebuild_call step
assemble-Run f size stride = next refl (
    Run-trans (global-Pushes module_name function_name inline_module inline_function _ [])
      (Run-trans (arguments (codes "R.") _) (next refl (here _))))
  where
    inline_module : all not_newline module_name ≡ true
    inline_module = unfold all not_newline in refl

    inline_function : all not_newline function_name ≡ true
    inline_function = unfold all not_newline in refl

    inline_torch : all not_newline (codes "torch") ≡ true
    inline_torch = unfold all not_newline in refl

    dtype : Text
    dtype = get_or dtypes f.dtype []

    arguments :
        Pushes
          (tuple_opcode (
            global_opcode (codes "torch") dtype
            ∷ tuple_opcode size.streams
            ∷ tuple_opcode stride.streams
            ∷ bool_opcode f.requires_grad
            ∷ []))
          (tuple (
            item (global (codes "torch") dtype) (
              item
                (tuple (ints f.size))
                (item (tuple (ints f.stride)) (item (bool f.requires_grad) end)))))
    arguments = tuple-Pushes _ _ (
      global-Pushes (codes "torch") dtype inline_torch (get_or-inline dtypes f.dtype dtypes-inline),
      (
        tuple-Pushes size.streams (ints f.size) size.push,
        (
          tuple-Pushes stride.streams (ints f.stride) stride.push,
          (bool-Pushes f.requires_grad, tt),
        ),
      ),
    )

-- Whatever bytes the fuzzer gives, a stream is built, and the pickle machine runs it up to its STOP
-- with one value on the stack: the call of the rebuild function on the dtype, size, stride and flag
-- that the bytes select.
pub build_stream-Run :
    (input : Bytes)
    → (stream : Bytes) × (build_stream input ≡ some stream)
      × Run (stream, []) (codes ".", val (rebuild_call (fields_of (fixed_bytes input))) ∷ [])
build_stream-Run input = (assemble f size.streams stride.streams, built, assemble-Run f size stride)
  where
    f : Fields
    f = fields_of (fixed_bytes input)

    size : Ints f.size
    size = unfold fields_of in int_opcodes-Ints f.size (slot_values-IsShort _ 0 _)

    stride : Ints f.stride
    stride = unfold fields_of in int_opcodes-Ints f.stride (slot_values-IsShort _ 0 _)

    built : build_stream input ≡ some (assemble f size.streams stride.streams)
    built = unfold build_stream in rw (size.built, stride.built) refl
