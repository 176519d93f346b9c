-- ===== src/Regex/Backtrack.antt =====
-- What `re` finds first where a class has to give characters back: the ways that it tries before are
-- dead, since what follows in the pattern does not match behind them.
use mapfuzz.Base.{
  ℕ, zero, suc, ◌+◌, ◌≤◌, All-weaken, subst, Text, ◌≡◌, refl, sym, ap, ◌∙◌, Bool, true, Option,
  some, List, [], ◌∷◌, ◌++◌, map, length, length-append, append-nil, append_assoc, arith, All,
  All-append, All-map, all,
}
use mathlib.Core.List.{map-append}
use mapfuzz.Regex.{
  Regex, set, seq, group, plus, greedy, Match, join_match, capture, nothing, followed_by, rounds,
  match_set, run, first, last_or,
}
use mapfuzz.Regex.Greedy.{
  Ends, one, first-append, first-map, followed_by-none, followed_by-append, rounds_stop,
  rounds_more,
}

-- A list of ways in which every way before `good` leaves a text with `Dead`.
pub record Reaches (Dead : Text → Type 0) (ms : List Match) (good : Match) : Type 0 where
  pub before : List Match
  pub after : List Match
  pub splits : ms ≡ before ++ good ∷ after
  pub dead : All (λ m. Dead m.rest) before

-- `Dead` holds of what is left when one character at least of `v` is taken.
abbrev pub DeadIn : (Text → Type 0) → Text → Text → Type 0
DeadIn Dead [] t = Unit
DeadIn Dead (c ∷ v) t = Dead (v ++ t) × DeadIn Dead v t

module _ (Dead : Text → Type 0) where
  map-Reaches :
      (f : Match → Match) (ms : List Match) (good : Match)
      → ((m : Match) → Dead m.rest → Dead (f m).rest)
      → Reaches Dead ms good
      → Reaches Dead (map f ms) (f good)
  map-Reaches f ms good k r = record {
    before = map f r.before;
    after = map f r.after;
    splits = ap (map f) r.splits ∙ map-append f r.before (good ∷ r.after);
    dead = All-map (λ m. Dead m.rest) f r.before (mapped r.before r.dead);
  }
    where
      mapped : (ms : List Match) → All (λ m. Dead m.rest) ms → All (λ m. Dead (f m).rest) ms
      mapped [] h = tt
      mapped (m ∷ ms) (h, hs) = (k m h, mapped ms hs)

  append-Reaches :
      (ms ns : List Match) (good : Match) → Reaches Dead ms good → Reaches Dead (ms ++ ns) good
  append-Reaches ms ns good r = record {
    before = r.before;
    after = r.after ++ ns;
    splits = ap (λ l. l ++ ns) r.splits ∙ append_assoc r.before (good ∷ r.after) ns;
    dead = r.dead;
  }

  last-Reaches :
      (ms : List Match) (good : Match)
      → All (λ m. Dead m.rest) ms
      → Reaches Dead (ms ++ good ∷ []) good
  last-Reaches ms good h = record { before = ms; after = []; splits = refl; dead = h }

  prepend-Reaches :
      (xs ms : List Match) (good : Match)
      → All (λ m. Dead m.rest) xs
      → Reaches Dead ms good
      → Reaches Dead (xs ++ ms) good
  prepend-Reaches xs ms good h r = record {
    before = xs ++ r.before;
    after = r.after;
    splits = ap (λ l. xs ++ l) r.splits ∙ sym (append_assoc xs r.before (good ∷ r.after));
    dead = All-append (λ m. Dead m.rest) xs r.before h r.dead;
  }

  joined-dead :
      (x : Match) (ms : List Match)
      → All (λ m. Dead m.rest) ms
      → All (λ m. Dead m.rest) (map (join_match x) ms)
  joined-dead x ms h = All-map (λ m. Dead m.rest) (join_match x) ms h

  module _ (f : ℕ → Bool) (t : Text) (e : Ends f t) where
    taken_dead :
        (n : ℕ) (p : Option ℕ) (v : Text)
        → all f v ≡ true
        → length v ≤ n
        → Dead (v ++ t)
        → DeadIn Dead v t
        → All (λ m. Dead m.rest) (rounds greedy (run (set f)) n p (v ++ t))
    unfolding all
    taken_dead n p [] h le d ds = rw (rounds_stop f n p t e) (d, tt)
    taken_dead (suc n) p (c ∷ v) h le d (d', ds) =
        rw (rounds_more f n p c (v ++ t) (ground arith)) (
          All-append (λ m. Dead m.rest) _ _
            (joined-dead (one c (v ++ t)) _
              (taken_dead n (some c) v (ground arith) (omega arith) d' ds))
            (d, tt))
    taken_dead zero p (c ∷ v) h le d ds = absurd (omega arith)

    -- Where all that the class can take of `v` is dead, it takes none of it.
    none_taken :
        (n : ℕ) (p : Option ℕ) (v : Text)
        → all f v ≡ true
        → length v ≤ n
        → DeadIn Dead v t
        → Reaches Dead (rounds greedy (run (set f)) n p (v ++ t)) (nothing (v ++ t))
    unfolding all
    none_taken n p [] h le d = rw (rounds_stop f n p t e) (last-Reaches [] (nothing t) tt)
    none_taken (suc n) p (c ∷ v) h le (d, ds) = rw (rounds_more f n p c (v ++ t) (ground arith)) (
        last-Reaches (map (join_match (one c (v ++ t))) _) (nothing (c ∷ (v ++ t))) (
          joined-dead (one c (v ++ t)) _
            (taken_dead n (some c) v (ground arith) (omega arith) d ds)))
    none_taken zero p (c ∷ v) h le d = absurd (omega arith)

    -- Of `u` and `v`, it takes `u`.
    rounds-Reaches :
        (n : ℕ) (p : Option ℕ) (u v : Text)
        → all f u ≡ true
        → all f v ≡ true
        → length u + length v ≤ n
        → DeadIn Dead v t
        → Reaches Dead
            (rounds greedy (run (set f)) n p (u ++ (v ++ t)))
            (record { matched = u; rest = v ++ t; groups = [] })
    unfolding all
    rounds-Reaches n p [] v h k le d = none_taken n p v k (omega (arith, le)) d
    rounds-Reaches (suc n) p (c ∷ u) v h k le d =
        rw (rounds_more f n p c (u ++ (v ++ t)) (ground arith)) (
          append-Reaches _ (nothing (c ∷ (u ++ (v ++ t))) ∷ []) _ (
            map-Reaches (join_match (one c (u ++ (v ++ t)))) _ _ (λ m q. q)
              (rounds-Reaches n (some c) u v (ground arith) k (omega arith) d)))
    rounds-Reaches zero p (c ∷ u) v h k le d = absurd (omega arith)

    pub plus-Reaches :
        (p : Option ℕ) (c : ℕ) (u v : Text)
        → all f (c ∷ u) ≡ true
        → all f v ≡ true
        → DeadIn Dead v t
        → Reaches Dead
            (run (plus greedy (set f)) p (c ∷ (u ++ (v ++ t))))
            (record { matched = c ∷ u; rest = v ++ t; groups = [] })
    unfolding all run match_set followed_by
    plus-Reaches p c u v h k d =
        let here : f c ≡ true = ground arith in
        rw (here, append-nil)
          (map-Reaches (join_match (one c (u ++ (v ++ t)))) _ _ (λ m q. q)
            (rounds-Reaches (length (u ++ (v ++ t))) (last_or p (c ∷ [])) u v (ground arith) k
              (rw (length-append u (v ++ t), length-append v t) (omega arith)) d))

    pub plus-dead :
        (p : Option ℕ) (c : ℕ) (v : Text)
        → all f (c ∷ v) ≡ true
        → Dead (v ++ t)
        → DeadIn Dead v t
        → All (λ m. Dead m.rest) (run (plus greedy (set f)) p (c ∷ (v ++ t)))
    unfolding all run match_set followed_by
    plus-dead p c v h d ds =
        let here : f c ≡ true = ground arith in
        rw (here, append-nil)
          (joined-dead (one c (v ++ t)) _ (
            taken_dead (length (v ++ t)) (last_or p (c ∷ [])) v (ground arith)
              (rw (length-append v t) (omega arith)) d ds))

  -- The way that is found first has none before it.
  pub first-Reaches_it : (ms : List Match) (m : Match) → first ms ≡ some m → Reaches Dead ms m
  unfolding first
  first-Reaches_it [] m h = cc
  first-Reaches_it (x ∷ ms) m h = record {
    before = [];
    after = ms;
    splits = ap (λ o. o ∷ ms) (some_inj h);
    dead = tt;
  }
    where
      some_inj : {a b : Match} → some a ≡ some b → a ≡ b
      some_inj h = cc

-- Followed by a pattern that makes of every dead way only ways that are dead for what comes next.
module _ (Dead Dead' : Text → Type 0) (q : Regex) where
  abbrev pub Kills : Type 0
  Kills = (p : Option ℕ) (s : Text) → Dead s → All (λ m. Dead' m.rest) (run q p s)

  seq_dead :
      (p : Option ℕ) (ms : List Match)
      → Kills
      → All (λ m. Dead m.rest) ms
      → All (λ m. Dead' m.rest) (followed_by ms (λ m. run q (last_or p m.matched) m.rest))
  unfolding followed_by
  seq_dead p [] k h = tt
  seq_dead p (m ∷ ms) k (h, hs) =
      All-append (λ m. Dead' m.rest) _ _ (joined-dead Dead' m _ (k (last_or p m.matched) m.rest h))
        (seq_dead p ms k hs)

  -- The good way goes on with the first way of `q`, if what is tried before that is dead too.
  pub seq-Reaches :
      (r : Regex) (p : Option ℕ) (s : Text) (m n : Match)
      → Kills
      → Reaches Dead (run r p s) m
      → Reaches Dead' (run q (last_or p m.matched) m.rest) n
      → Reaches Dead' (run (seq r q) p s) (join_match m n)
  unfolding run followed_by
  seq-Reaches r p s m n k x y =
      let next : Match → List Match = λ o. run q (last_or p o.matched) o.rest in
      subst (λ l. Reaches Dead' l (join_match m n))
        (sym
          (ap (λ l. followed_by l next) x.splits ∙ followed_by-append x.before (m ∷ x.after) next))
        (prepend-Reaches Dead' (followed_by x.before next) _ _ (seq_dead p x.before k x.dead) (
          append-Reaches Dead' (map (join_match m) (next m)) (followed_by x.after next) _
            (map-Reaches Dead' (join_match m) (next m) n (λ m q. q) y)))

module _ (Dead : Text → Type 0) where
  pub group-Reaches :
      (k : ℕ) (r : Regex) (p : Option ℕ) (s : Text) (m : Match)
      → Reaches Dead (run r p s) m
      → Reaches Dead (run (group k r) p s) (capture k m)
  unfolding run
  group-Reaches k r p s m x = map-Reaches Dead (capture k) (run r p s) m (λ m q. q) x

  -- Where the rest of the pattern matches nothing that is dead, the first match is that of the good way.
  pub first-Reaches :
      (r q : Regex) (p : Option ℕ) (s : Text) (m n : Match)
      → ((p : Option ℕ) (s : Text) → Dead s → run q p s ≡ [])
      → Reaches Dead (run r p s) m
      → first (run q (last_or p m.matched) m.rest) ≡ some n
      → first (run (seq r q) p s) ≡ some (join_match m n)
  unfolding run followed_by
  first-Reaches r q p s m n k x h =
      let next : Match → List Match = λ o. run q (last_or p o.matched) o.rest in
      let none_before : followed_by x.before next ≡ [] = followed_by-none x.before next (
        All-weaken (λ m. Dead m.rest) (λ m. next m ≡ []) x.before
          (λ o d. k (last_or p o.matched) o.rest d) x.dead) in
      ap first (
        ap (λ l. followed_by l next) x.splits
        ∙ followed_by-append x.before (m ∷ x.after) next
        ∙ ap (λ l. l ++ followed_by (m ∷ x.after) next) none_before)
      ∙ first-append (map (join_match m) (next m)) (followed_by x.after next) _
          (first-map (join_match m) (next m) n h)
