-- ===== src/Targets/FlaxCheckpoint/Values.antt =====
-- targets/flax_checkpoint/harness: the generators of fuzz_from_state_dict.py and
-- fuzz_msgpack_restore.py. `packb`, of msgpack, is a parameter.
pub mod Shape
pub mod State
pub mod Blob
use mapfuzz.Base.{
  ℕ, zero, suc, ◌+◌, ◌-◌, ◌^◌, Text, codes, text_eq, Bool, true, false, Option, none, some, List,
  [], ◌∷◌, map, get_or, length, ltb, ◌==◌, show_nat, ℤ, if◌then◌else◌,
}
use mapfuzz.Provider.{Provider, Gen, pure, draw, ◌>>=◌, many}

-- the key of a dictionary
pub data Key : Type 0 where
  name : Text → Key
  number : ℕ → Key

unfoldable pub same_key : Key → Key → Bool
unfolding text_eq
same_key (name a) (name b) = text_eq a b
same_key (number a) (number b) = a == b
same_key _ _ = false

-- Python values; a float is given by the text that it is written as, and `ext` is
-- `msgpack.ExtType`.
mutual
  pub data PyTree : Type 0 where
    null : PyTree
    boolean : Bool → PyTree
    integer : ℤ → PyTree
    float : Text → PyTree
    string : Text → PyTree
    bytes : List ℕ → PyTree
    ext : ℕ → List ℕ → PyTree
    array : Items → PyTree
    dict : Entries → PyTree

  pub data Items : Type 0 where
    no_items : Items
    item : PyTree → Items → Items

  pub data Entries : Type 0 where
    no_entries : Entries
    entry : Key → PyTree → Entries → Entries

unfoldable pub items_of : List PyTree → Items
items_of [] = no_items
items_of (x ∷ xs) = item x (items_of xs)

-- `d[k] = v`
unfoldable pub set_entry : Key → PyTree → Entries → Entries
unfolding same_key
set_entry k v no_entries = entry k v no_entries
set_entry k v (entry l w d) = if same_key l k then entry l v d else entry l w (set_entry k v d)

-- a dictionary comprehension: the later of two equal keys has its value kept
unfoldable pub entries_from : Entries → List (Key × PyTree) → Entries
unfolding set_entry
entries_from d [] = d
entries_from d ((k, v) ∷ kvs) = entries_from (set_entry k v d) kvs

-- `… or "k"`
unfoldable pub or_k : Text → Text
or_k [] = codes "k"
or_k (c ∷ cs) = c ∷ cs

abbrev pub state_keys : List Text
state_keys =
    codes "params"
    ∷ codes "step"
    ∷ codes "w"
    ∷ codes "b"
    ∷ codes "model"
    ∷ codes "layers"
    ∷ codes "kernel"
    ∷ codes "opt"
    ∷ codes "count"
    ∷ codes "a"
    ∷ codes "nested"
    ∷ codes "x"
    ∷ codes "scalar"
    ∷ codes "flag"
    ∷ codes "name"
    ∷ codes "0"
    ∷ codes "1"
    ∷ []

-- the keys of `{str(i): … for i in range(n)}`, put to the values
unfoldable pub numbered : ℕ → List PyTree → List (Key × PyTree)
numbered i [] = []
numbered i (v ∷ vs) = (name (show_nat i), v) ∷ numbered (suc i) vs

-- `_DTYPES`
abbrev pub dtypes : List Text
dtypes =
    codes "<f4"
    ∷ codes "<f8"
    ∷ codes "<i4"
    ∷ codes "<i8"
    ∷ codes "<u1"
    ∷ codes "|b1"
    ∷ codes "<f2"
    ∷ codes "bfloat16"
    ∷ codes "O"
    ∷ codes "<M8[Y]"
    ∷ codes "<c8"
    ∷ codes "not_a_dtype"
    ∷ codes ""
    ∷ []

module _ {S : Type 0} (fdp : Provider S) where
  -- a text of at most so many characters, and bytes
  unfoldable pub some_text : ℕ → Gen S Text
  some_text n = draw (fdp.int_in_range 0 n) >>= λ k. draw (fdp.consume_unicode k)

  unfoldable pub some_bytes : ℕ → Gen S (List ℕ)
  some_bytes n = draw (fdp.int_in_range 0 n) >>= λ k. draw (fdp.consume_bytes k)

  -- the key and the value of one round of the two comprehensions over a drawn key
  unfoldable pub free_entry : Gen S PyTree → Gen S (Key × PyTree)
  unfolding some_text or_k
  free_entry deeper = some_text 8 >>= λ k. deeper >>= λ v. pure (name (or_k k), v)

  unfoldable pub known_entry : Gen S PyTree → Gen S (Key × PyTree)
  known_entry deeper =
      draw (fdp.int_in_range 0 16) >>= λ i. deeper >>= λ v. pure (name (get_or state_keys i []), v)

  unfoldable pub list_of : ℕ → Gen S PyTree → Gen S PyTree
  unfolding items_of
  list_of n deeper =
      draw (fdp.int_in_range 0 n) >>= λ k. many k deeper >>= λ xs. pure (array (items_of xs))

  unfoldable pub dict_of : ℕ → Gen S (Key × PyTree) → Gen S PyTree
  unfolding entries_from
  dict_of n one = draw (fdp.int_in_range 0 n) >>= λ k.
      many k one >>= λ kvs. pure (dict (entries_from no_entries kvs))

  unfoldable pub numbered_dict : ℕ → Gen S PyTree → Gen S PyTree
  unfolding entries_from numbered
  numbered_dict n deeper = draw (fdp.int_in_range 0 n) >>= λ k.
      many k deeper >>= λ vs. pure (dict (entries_from no_entries (numbered 0 vs)))

  -- the branches of `_make_state`
  unfoldable pub state_branch : ℕ → Gen S PyTree → Gen S PyTree
  unfolding some_text some_bytes free_entry known_entry list_of dict_of numbered_dict
  state_branch pick deeper =
      if pick == 0
      then (draw (fdp.consume_int 8) >>= λ n. pure (integer n))
      else if pick == 1
      then (draw fdp.consume_float >>= λ t. pure (float t))
      else if pick == 2
      then (draw fdp.consume_bool >>= λ b. pure (boolean b))
      else if pick == 3
      then (some_text 16 >>= λ t. pure (string t))
      else if pick == 4
      then pure null
      else if pick == 5
      then list_of 5 deeper
      else if pick == 6
      then dict_of 5 (free_entry deeper)
      else if pick == 7
      then dict_of 5 (known_entry deeper)
      else if pick == 8
      then numbered_dict 5 deeper
      else (some_bytes 8 >>= λ b. pure (bytes b))

  -- `_make_state`, on fuel
  unfoldable pub make_state : ℕ → ℕ → Gen S PyTree
  unfolding state_branch
  make_state zero depth s = none
  make_state (suc f) depth s =
      (draw (fdp.int_in_range 0 (if ltb depth 6 then 9 else 4)) >>= λ pick.
      state_branch pick (make_state f (suc depth)))
        s

  -- `_make_array_ext`
  unfoldable pub make_array_ext : (List ℤ → Text → List ℕ → List ℕ) → Gen S PyTree
  unfolding some_bytes
  make_array_ext packb = draw (fdp.int_in_range 0 4) >>= λ ndim.
      many ndim (draw (fdp.signed_in_range 2 (2 ^ 20))) >>= λ shape.
      draw (fdp.int_in_range 0 12) >>= λ d. some_bytes 256 >>= λ buf.
      draw (fdp.int_in_range 1 3) >>= λ code. pure (ext code (packb shape (get_or dtypes d []) buf))

  -- the branches of `_make_value`
  unfoldable pub value_branch : (List ℤ → Text → List ℕ → List ℕ) → ℕ → Gen S PyTree → Gen S PyTree
  unfolding some_text some_bytes free_entry list_of dict_of make_array_ext
  value_branch packb pick deeper =
      if pick == 0
      then (draw (fdp.consume_int 8) >>= λ n. pure (integer n))
      else if pick == 1
      then (draw fdp.consume_float >>= λ t. pure (float t))
      else if pick == 2
      then (draw fdp.consume_bool >>= λ b. pure (boolean b))
      else if pick == 3
      then pure null
      else if pick == 4
      then (some_text 20 >>= λ t. pure (string t))
      else if pick == 5
      then make_array_ext packb
      else if pick == 6
      then list_of 4 deeper
      else if pick == 7
      then dict_of 4 (free_entry deeper)
      else if pick == 8
      then (draw (fdp.int_in_range 0 999) >>= λ k.
          deeper >>= λ v. pure (dict (entry (number k) v no_entries)))
      else (draw (fdp.int_in_range 0 127) >>= λ code. some_bytes 32 >>= λ b. pure (ext code b))

  -- `_make_value`, on fuel
  unfoldable pub make_value : (List ℤ → Text → List ℕ → List ℕ) → ℕ → ℕ → Gen S PyTree
  unfolding value_branch
  make_value packb zero depth s = none
  make_value packb (suc f) depth s =
      (draw (fdp.int_in_range 0 (if ltb depth 4 then 9 else 5)) >>= λ pick.
      value_branch packb pick (make_value packb f (suc depth)))
        s
