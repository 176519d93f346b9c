-- ===== src/Triage/Inputs/Order.antt =====
-- What `_iter_inputs` yields does not depend on the order in which directories are listed.
use mathlib.Core.List.{Pairwise, Permᴰ, Nodup, Nodup-cons, Mem, mem-map_of_mem, map}
use mapfuzz.Base.{◌≡◌, refl, sym, ap, subst, Text, Option, List, [], ◌∷◌}
use mapfuzz.Base.Sorting.{Strict, text_lt-Strict, text_lt_total, sort_by-permute, Apart}
use mapfuzz.Triage.Inputs.{
  Node, directory, file, missing, paths_of, before, regular, inputs_at, inputs_under, from_paths,
  iter_inputs,
}

before-Strict : Strict before
before-Strict = record {
  asym = λ a b. text_lt-Strict.asym a.0 b.0;
  trans = λ a b c. text_lt-Strict.trans a.0 b.0 c.0;
}

-- Two listings show the same: under one order or another, where no name occurs twice.
abbrev pub names : List (Text × Option Text) → List Text
names = map (λ e. e.0)

abbrev pub SameNode : Node → Node → Type 0
SameNode (directory es) (directory fs) = Permᴰ es fs × Nodup (names es)
SameNode (file s) (file t) = s ≡ t
SameNode missing missing = Unit
SameNode _ _ = ⊥

names-Apart :
    (es : List (Text × Option Text)) → Nodup (names es) → Pairwise (Apart before before-Strict) es
names-Apart [] h = Pairwise.nil
names-Apart (e ∷ es) h =
    let (fresh, rest) = Nodup-cons.0 h in
    Pairwise.cons
      (λ x m.
        text_lt_total e.0 x.0
          (λ q. fresh (subst (λ n. Mem n (names es)) (sym q) (mem-map_of_mem (λ y. y.0) m))))
      (names-Apart es rest)

inputs_at-same : (p : Text) (m n : Node) → SameNode m n → inputs_at p m ≡ inputs_at p n
unfolding inputs_at
inputs_at-same p (directory es) (directory fs) (perm, apart) =
    ap regular (sort_by-permute before before-Strict perm (names-Apart es apart))
inputs_at-same p (file s) (file t) h = rw h refl
inputs_at-same p missing missing h = refl
inputs_at-same p (directory es) (file t) h = absurd h
inputs_at-same p (directory es) missing h = absurd h
inputs_at-same p (file s) (directory fs) h = absurd h
inputs_at-same p (file s) missing h = absurd h
inputs_at-same p missing (directory fs) h = absurd h
inputs_at-same p missing (file t) h = absurd h

module _ (node node' : Text → Node) (same : (p : Text) → SameNode (node p) (node' p)) where
  inputs_under-same : (ps : List Text) → inputs_under node ps ≡ inputs_under node' ps
  unfolding inputs_under
  inputs_under-same [] = refl
  inputs_under-same (p ∷ ps) =
      rw (inputs_at-same p (node p) (node' p) (same p), inputs_under-same ps) refl

  -- The reports do not depend on the order in which the file system lists a directory.
  pub iter_inputs-same :
      (stdin : Text) (argv : List Text) → iter_inputs node stdin argv ≡ iter_inputs node' stdin argv
  unfolding iter_inputs
  iter_inputs-same stdin argv = go (paths_of argv)
    where
      go : (ps : List Text) → from_paths node stdin ps ≡ from_paths node' stdin ps
      go [] = unfold from_paths in refl
      go (p ∷ ps) = unfold from_paths in inputs_under-same (p ∷ ps)
