-- ===== src/Targets/Seeds.antt =====
-- targets/gguf_py_reader/harness/make_seed.py and targets/clip_mmproj/harness/make_clip_seed.py: the
-- writers of the seeds. `GGUFWriter`, of gguf, is a record of its methods on a state, each of which
-- ends in an exception or in the next state; making directories and the size of a file are parameters.
use mapfuzz.Base.{
  ℕ, Text, codes, Bool, true, List, [], ◌∷◌, ◌⊎◌, inl, inr, ◌==◌, if◌then◌else◌, get_or, length,
  ltb, reverse,
}
use mapfuzz.Exceptions.{ExcClass, Outcome, returned, raised}

-- the values of keys; a float is given by the text that it is written as
data Value : Type 0 where
  boolean : Bool → Value
  string : Text → Value
  uint32 : ℕ → Value
  float32 : Text → Value
  array : List Text → Value

-- the methods without an argument
data Output : Type 0 where
  write_header_to_file write_kv_data_to_file write_tensors_to_file close : Output

-- a call of a method of the writer; `add` is the one of the `add_…` methods that the value names
data Call : Type 0 where
  add : Text → Value → Call
  output : Output → Call

record Writer (W : Type 0) : Type 0 where
  new : Text → Text → ExcClass ⊎ W
  perform : Call → W → ExcClass ⊎ W

unfoldable next : {A B : Type 0} → ExcClass ⊎ A → (A → ExcClass ⊎ B) → ExcClass ⊎ B
next (inl e) f = inl e
next (inr a) f = f a

-- the calls of make_seed.py
abbrev seed_calls : List Call
seed_calls =
    add (codes "answer") (uint32 42)
    ∷ add (codes "name") (string (codes "seed"))
    ∷ output write_header_to_file
    ∷ output write_kv_data_to_file
    ∷ output close
    ∷ []

abbrev half : List Text
half = codes "0.5" ∷ codes "0.5" ∷ codes "0.5" ∷ []

-- the calls of make_clip_seed.py
abbrev clip_seed_calls : List Call
clip_seed_calls =
    add (codes "clip.has_vision_encoder") (boolean true)
    ∷ add (codes "clip.projector_type") (string (codes "mlp"))
    ∷ add (codes "clip.vision.embedding_length") (uint32 32)
    ∷ add (codes "clip.vision.block_count") (uint32 2)
    ∷ add (codes "clip.vision.feed_forward_length") (uint32 64)
    ∷ add (codes "clip.vision.attention.head_count") (uint32 4)
    ∷ add (codes "clip.vision.image_size") (uint32 32)
    ∷ add (codes "clip.vision.patch_size") (uint32 16)
    ∷ add (codes "clip.vision.projection_dim") (uint32 32)
    ∷ add (codes "clip.vision.attention.layer_norm_epsilon") (float32 (codes "1e-5"))
    ∷ add (codes "clip.vision.image_mean") (array half)
    ∷ add (codes "clip.vision.image_std") (array half)
    ∷ add (codes "general.architecture") (string (codes "clip"))
    ∷ add (codes "general.name") (string (codes "seed"))
    ∷ output write_header_to_file
    ∷ output write_kv_data_to_file
    ∷ output write_tensors_to_file
    ∷ output close
    ∷ []

-- `os.path.dirname`: what stands before the last slash, without the slashes at its end, unless it is
-- slashes only. The path is read from its end.
abbrev slash : ℕ
slash = 47

unfoldable strip_slashes : Text → Text
strip_slashes [] = []
strip_slashes (c ∷ cs) = let rest = strip_slashes cs in if c == slash then rest else c ∷ cs

unfoldable from_slash : Text → Text
from_slash [] = []
from_slash (c ∷ cs) = let rest = from_slash cs in if c == slash then c ∷ cs else rest

-- a text of slashes only is kept
unfoldable or_slashes : Text → Text → Text
or_slashes slashes [] = slashes
or_slashes slashes (c ∷ cs) = c ∷ cs

unfoldable pub dirname : Text → Text
unfolding strip_slashes from_slash or_slashes
dirname path =
    let head = from_slash (reverse path) in reverse (or_slashes head (strip_slashes head))

-- `OUT`
unfoldable out_path : List Text → Text
out_path argv = if ltb 1 (length argv) then get_or argv 1 [] else codes "clip_seed.gguf"

module _ {W : Type 0} (writer : Writer W) where
  unfoldable run_calls : List Call → W → ExcClass ⊎ W
  unfolding next
  run_calls [] w = inr w
  run_calls (c ∷ cs) w = next (writer.perform c w) (run_calls cs)

  -- `main` of make_seed.py: the writer at the end, and the size that is printed
  unfoldable make_seed : (Text → Outcome) → (Text → ExcClass ⊎ ℕ) → Text → ExcClass ⊎ (W × ℕ)
  unfolding run_calls next dirname
  make_seed makedirs getsize out = next (made (makedirs (dirname out))) (λ _.
      next (writer.new out (codes "llama"))
        (λ w. next (run_calls seed_calls w) (λ w'. next (getsize out) (λ n. inr (w', n)))))
    where
      made : Outcome → ExcClass ⊎ Bool
      made returned = inr true
      made (raised e) = inl e

  -- make_clip_seed.py: the writer at the end
  unfoldable make_clip_seed : List Text → ExcClass ⊎ W
  unfolding run_calls next out_path
  make_clip_seed argv = next (writer.new (out_path argv) (codes "clip")) (run_calls clip_seed_calls)
