-- ===== src/Targets/MetaTensor/Pickle.antt =====
-- The pickle machine, for the opcodes that the harness emits: what its streams mean, told apart
-- from how they are built.
use mapfuzz.Base.{
  ◌≡◌, Text, Bool, true, false, Option, none, some, List, [], ◌∷◌, length, take, drop, leb, ◌==◌,
  if◌then◌else◌, ℤ,
}
use mapfuzz.Targets.MetaTensor.{Bytes, newline, long1}
use mapfuzz.Targets.MetaTensor.Integers.{from_bytes}

mutual
  -- `call f args` is what REDUCE makes of a callable and a tuple of arguments
  pub data Value : Type 0 where
    int : ℤ → Value
    bool : Bool → Value
    global : Text → Text → Value
    tuple : Values → Value
    call : Value → Value → Value

  pub data Values : Type 0 where
    end : Values
    item : Value → Values → Values

pub data Entry : Type 0 where
  mark : Entry
  val : Value → Entry

abbrev pub Stack : Type 0
Stack = List Entry

abbrev pub State : Type 0
State = Bytes × Stack

-- the text up to a line end, and what follows it
unfoldable pub read_line : Bytes → Option (Text × Bytes)
read_line [] = none
read_line (c ∷ s) =
    let more : Option (Text × Bytes) = elim (read_line s) [
      | none ↦ none
      | some (w, rest) ↦ some (c ∷ w, rest)
    ] in
    if c == newline then some ([], s) else more

-- the values above the topmost mark, and the stack below it
unfoldable pub pop_mark : Stack → Values → Option (Values × Stack)
pop_mark [] vs = none
pop_mark (mark ∷ st) vs = some (vs, st)
pop_mark (val v ∷ st) vs = pop_mark st (item v vs)

unfoldable pub global_step : Bytes → Stack → Option State
unfolding read_line
global_step s st = elim (read_line s) [
  | none ↦ none
  | some (m, r) ↦ elim (read_line r) [
    | none ↦ none
    | some (n, rest) ↦ some (rest, val (global m n) ∷ st)
  ]
]

unfoldable pub tuple_step : Bytes → Stack → Option State
unfolding pop_mark
tuple_step s st = elim (pop_mark st end) [
  | none ↦ none
  | some (vs, below) ↦ some (s, val (tuple vs) ∷ below)
]

unfoldable pub long_step : Bytes → Stack → Option State
unfolding from_bytes
long_step [] st = none
long_step (l ∷ s) st =
    if leb l (length s) then some (drop l s, val (int (from_bytes (take l s))) ∷ st) else none

unfoldable pub reduce_step : Bytes → Stack → Option State
reduce_step s (val args ∷ val f ∷ st) = some (s, val (call f args) ∷ st)
reduce_step s _ = none

unfoldable pub proto_step : Bytes → Stack → Option State
proto_step [] st = none
proto_step (v ∷ s) st = some (s, st)

-- one opcode; none is a failure, or the end at STOP
unfoldable pub step : State → Option State
unfolding global_step tuple_step long_step reduce_step proto_step
step ([], st) = none
step (op ∷ s, st) =
    if op == 0x80
    then proto_step s st
    else if op == b'c'
    then global_step s st
    else if op == b'('
    then some (s, mark ∷ st)
    else if op == b't'
    then tuple_step s st
    else if op == long1
    then long_step s st
    else if op == 0x88
    then some (s, val (bool true) ∷ st)
    else if op == 0x89
    then some (s, val (bool false) ∷ st)
    else if op == b'R'
    then reduce_step s st
    else none

-- any number of opcodes
pub data Run : State → State → Type 0 where
  here : (s : State) → Run s s
  next : {s t u : State} → step s ≡ some t → Run t u → Run s u

pub Run-trans : {s t u : State} → Run s t → Run t u → Run s u
Run-trans (here s) r = r
Run-trans (next e q) r = next e (Run-trans q r)
