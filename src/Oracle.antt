-- ===== src/Oracle.antt =====
-- chassis/resource_oracle.py: a loader is run in a child process whose memory and time are capped.
-- What the loader does to the host is its `Work`; how the operating system and the interpreter take
-- it under the caps is the parameter `host`. The detail texts of the outcomes are left out.
pub mod Run
pub mod Guard
pub mod Selftest
use mapfuzz.Base.{
  ℕ, suc, ◌+◌, ◌*◌, ◌^◌, Text, codes, Bool, true, false, Option, none, some, List, [], ◌∷◌, ◌++◌,
  take, length, leb, ltb, if◌then◌else◌,
}
use mapfuzz.Exceptions.{
  ExcClass, builtin, value_error, os_error, memory_error, overflow_error, recursion_error,
  exception, Outcome, returned, raised, is_one_of,
}
use mapfuzz.Targets.MetaTensor.{Bytes, little_endian}

-- `OK`, `REJECTED`, `EXHAUSTED`, `"timeout"` and `"nocap"`
pub data Code : Type 0 where
  ok rejected exhausted timeout nocap : Code

-- the body of a loader: what it allocates at once, how often it appends to a list, how it ends
pub data Work : Type 0 where
  done : Work
  fail : ExcClass → Work
  allocate : ℕ → Work → Work
  iterate : ℕ → Work → Work

-- how the call of the loader stands when the time is over; `killed` is an end by a signal
pub data Ending : Type 0 where
  ended : Outcome → Ending
  killed still_running : Ending

-- `setrlimit` on a number of bytes, which may raise, and the run of some work under a cap in bytes
-- for a number of seconds
pub record Host : Type 0 where
  pub set_limit : ℕ → Outcome
  pub execute : ℕ → ℕ → Work → Ending

-- the child as the parent finds it: alive, or gone with what it left in the queue
pub data Child : Type 0 where
  alive : Child
  gone : Option Code → Child

-- the clauses around `fn(*args)`
unfoldable pub reported : Outcome → Option Code
reported returned = some ok
reported (raised e) =
    if is_one_of e (builtin memory_error ∷ [])
    then some exhausted
    else if is_one_of e (builtin recursion_error ∷ [])
    then some rejected
    else if is_one_of e (builtin exception ∷ [])
    then some rejected
    else none

unfoldable pub child_of : Ending → Child
unfolding reported
child_of (ended o) = gone (reported o)
child_of killed = gone none
child_of still_running = alive

-- the clause around `setrlimit`
unfoldable pub capped : Outcome → Ending → Child
unfolding child_of
capped returned e = child_of e
capped (raised x) e =
    if is_one_of x (builtin value_error ∷ builtin os_error ∷ [])
    then gone (some nocap)
    else gone none

-- what the parent makes of the child
unfoldable pub code_of : Child → Code
code_of alive = timeout
code_of (gone (some c)) = c
code_of (gone none) = exhausted

pub data Failure : Type 0 where
  not_bounded : Code → Failure
  inconclusive : Failure
  benign_failed : Code → Failure

-- the tests on the outcome of the bomb and of the benign input
unfoldable pub bomb_failures : Code → List Failure
bomb_failures exhausted = not_bounded exhausted ∷ []
bomb_failures timeout = not_bounded timeout ∷ []
bomb_failures nocap = inconclusive ∷ []
bomb_failures ok = []
bomb_failures rejected = []

unfoldable pub benign_failures : Code → List Failure
benign_failures ok = []
benign_failures c = benign_failed c ∷ []

abbrev pub default_mb : ℕ
default_mb = 512

module _ (host : Host) where
  -- `_child`
  unfoldable pub child : ℕ → ℕ → Work → Child
  unfolding capped
  child mem_bytes seconds w = capped (host.set_limit mem_bytes) (host.execute mem_bytes seconds w)

  -- `run_capped`
  unfoldable pub run_capped : ℕ → ℕ → Work → Code
  unfolding child code_of
  run_capped mem_mb seconds w = code_of (child (mem_mb * 1024 * 1024) seconds w)

  -- `assert_guards_class`
  unfoldable pub assert_guards_class : ℕ → ℕ → (Bytes → Work) → Bytes → Bytes → List Failure
  assert_guards_class mem_mb seconds loader bomb benign =
      bomb_failures (run_capped mem_mb seconds (loader bomb))
      ++ benign_failures (run_capped mem_mb seconds (loader benign))

-- `int.from_bytes(…, "little")`
unfoldable pub from_little : Bytes → ℕ
from_little [] = 0
from_little (b ∷ bs) = b + 256 * from_little bs

-- the count that the first eight bytes declare
unfoldable pub declared : Bytes → ℕ
unfolding from_little
declared input = if leb 8 (length input) then from_little (take 8 input) else 0

-- `bytearray(n)`: a size of 2 ^ 63 and more does not fit in a `Py_ssize_t`, and raises at once
pub bytearray_of : ℕ → Work
bytearray_of n = if ltb n (2 ^ 63) then allocate n done else fail (builtin overflow_error)

-- `_unbounded_alloc_loader`
unfoldable pub unbounded_alloc_loader : Bytes → Work
unfolding bytearray_of
unbounded_alloc_loader input = bytearray_of (declared input)

-- `_unbounded_loop_loader`
unfoldable pub unbounded_loop_loader : Bytes → Work
unbounded_loop_loader input = iterate (declared input) done

-- `_bounded_loader`: `declared > len(data) - 8`, where the difference may be negative
unfoldable pub bounded_loader : Bytes → Work
unfolding bytearray_of
bounded_loader input =
    if ltb (length input) (declared input + 8)
    then fail (builtin value_error)
    else bytearray_of (declared input)

abbrev pub huge : Bytes
huge = little_endian 8 (2 ^ 40)

abbrev pub benign_input : Bytes
benign_input = little_endian 8 4 ++ codes "data"

unfoldable pub is_empty : List Failure → Bool
is_empty [] = true
is_empty (_ ∷ _) = false

module _ (host : Host) where
  -- the three tests of `_selftest`: true for one that passes
  unfoldable pub alloc_flagged : Bool
  alloc_flagged =
      if is_empty (assert_guards_class host default_mb 5 unbounded_alloc_loader huge benign_input)
      then false
      else true

  unfoldable pub loop_flagged : Bool
  loop_flagged =
      if is_empty (assert_guards_class host default_mb 3 unbounded_loop_loader huge benign_input)
      then false
      else true

  unfoldable pub bounded_passed : Bool
  bounded_passed = is_empty (assert_guards_class host default_mb 5 bounded_loader huge benign_input)

  -- `_selftest`
  unfoldable pub oracle_selftest : ℕ
  unfolding alloc_flagged loop_flagged bounded_passed
  oracle_selftest =
      if alloc_flagged then (if loop_flagged then (if bounded_passed then 0 else 1) else 1) else 1

-- `main`, on the value of `args.selftest`: the status
unfoldable pub oracle_main : Host → Bool → ℕ
unfolding oracle_selftest
oracle_main host selftest = if selftest then oracle_selftest host else 0
