-- ===== src/Targets/FlaxCheckpoint/Values/Shape.antt =====
-- How deep and how wide the containers of a generated value are.
use mapfuzz.Base.{
  ℕ, zero, suc, ◌+◌, ◌≤◌, ◌<◌, ◌≡◌, refl, List, [], ◌∷◌, length, get_or, arith, All, Bool-cases,
  inl, inr,
}
use mapfuzz.Provider.{Provider, Documented, Gen, many}
use mapfuzz.Provider.Draws.{Makes, many-Makes}
use mapfuzz.Targets.FlaxCheckpoint.Values.{
  Key, name, same_key, PyTree, null, boolean, integer, float, string, bytes, ext, array, dict,
  Items, no_items, item, Entries, no_entries, entry, items_of, set_entry, entries_from, or_k,
  numbered, some_text, free_entry, known_entry, state_keys, list_of, dict_of, numbered_dict,
}

abbrev pub count_items : Items → ℕ
count_items no_items = 0
count_items (item x xs) = suc (count_items xs)

abbrev pub count_entries : Entries → ℕ
count_entries no_entries = 0
count_entries (entry k v d) = suc (count_entries d)

abbrev pub pred : ℕ → ℕ
pred zero = 0
pred (suc n) = n

-- At most `levels` containers stand in one another, and none has more than `width` members.
abbrev mutual
  pub Within : ℕ → ℕ → PyTree → Type 0
  Within width levels null = Unit
  Within width levels (boolean b) = Unit
  Within width levels (integer n) = Unit
  Within width levels (float t) = Unit
  Within width levels (string t) = Unit
  Within width levels (bytes b) = Unit
  Within width levels (ext c b) = Unit
  Within width levels (array xs) =
      (0 < levels) × (count_items xs ≤ width) × ItemsWithin width (pred levels) xs
  Within width levels (dict d) =
      (0 < levels) × (count_entries d ≤ width) × EntriesWithin width (pred levels) d

  pub ItemsWithin : ℕ → ℕ → Items → Type 0
  ItemsWithin width levels no_items = Unit
  ItemsWithin width levels (item x xs) = Within width levels x × ItemsWithin width levels xs

  pub EntriesWithin : ℕ → ℕ → Entries → Type 0
  EntriesWithin width levels no_entries = Unit
  EntriesWithin width levels (entry k v d) = Within width levels v × EntriesWithin width levels d

module _ (w l : ℕ) where
  items_of-Within : (xs : List PyTree) → All (Within w l) xs → ItemsWithin w l (items_of xs)
  unfolding items_of
  items_of-Within [] h = tt
  items_of-Within (x ∷ xs) (h, hs) = (h, items_of-Within xs hs)

  set_entry-Within :
      (k : Key) (v : PyTree) (d : Entries)
      → Within w l v
      → EntriesWithin w l d
      → EntriesWithin w l (set_entry k v d)
  unfolding set_entry
  set_entry-Within k v no_entries h hs = (h, tt)
  set_entry-Within k v (entry j x d) h (hx, hs) = elim (Bool-cases (same_key j k)) [
    | inl t ↦ rw t (h, hs)
    | inr f ↦ rw f (hx, set_entry-Within k v d h hs)
  ]

  entries_from-Within :
      (kvs : List (Key × PyTree)) (d : Entries)
      → All (λ kv. Within w l kv.1) kvs
      → EntriesWithin w l d
      → EntriesWithin w l (entries_from d kvs)
  unfolding entries_from
  entries_from-Within [] d hs h = h
  entries_from-Within ((k, v) ∷ kvs) d (hv, hs) h =
      entries_from-Within kvs (set_entry k v d) hs (set_entry-Within k v d hv h)

  numbered-Within :
      (i : ℕ) (vs : List PyTree) → All (Within w l) vs → All (λ kv. Within w l kv.1) (numbered i vs)
  unfolding numbered
  numbered-Within i [] h = tt
  numbered-Within i (v ∷ vs) (h, hs) = (h, numbered-Within (suc i) vs hs)

count-items_of : (xs : List PyTree) → count_items (items_of xs) ≡ length xs
unfolding items_of
count-items_of [] = refl
count-items_of (x ∷ xs) = omega (arith, count-items_of xs)

count-set_entry :
    (k : Key) (v : PyTree) (d : Entries) → count_entries (set_entry k v d) ≤ count_entries d + 1
unfolding set_entry
count-set_entry k v no_entries = omega arith
count-set_entry k v (entry j x d) = ground (arith, count-set_entry k v d)

count-entries_from :
    (kvs : List (Key × PyTree)) (d : Entries)
    → count_entries (entries_from d kvs) ≤ count_entries d + length kvs
unfolding entries_from
count-entries_from [] d = omega arith
count-entries_from ((k, v) ∷ kvs) d =
    omega (arith, count-entries_from kvs (set_entry k v d), count-set_entry k v d)

length-numbered : (i : ℕ) (vs : List PyTree) → length (numbered i vs) ≡ length vs
unfolding numbered
length-numbered i [] = refl
length-numbered i (v ∷ vs) = omega (arith, length-numbered (suc i) vs)

module _ {S : Type 0} (fdp : Provider S) (remaining : S → ℕ) (doc : Documented fdp remaining)
    (w l : ℕ) where
  abbrev pub Deep : Gen S PyTree → Type 0
  Deep m = (s : S) → Makes (m s) (λ t _. Within w l t)

  -- the list that `many` makes, its elements with the property `P`
  repeated-Makes :
      {A : Type 0} (P : A → Type 0) (m : Gen S A)
      → ((s : S) → Makes (m s) (λ a _. P a))
      → (n : ℕ) (s : S) → Makes (many n m s) (λ as_ _. All P as_ × (length as_ ≡ n))
  repeated-Makes P m one n s =
      let (xs, t, e, (ps, len, _)) =
        many-Makes (λ _. 0) P m 0 (λ u _. let (a, v, e, p) = one u in (a, v, e, (p, omega arith))) n
          s (omega arith) in
      (xs, t, e, (ps, len))

  pub list_of-Makes :
      (n : ℕ) (deeper : Gen S PyTree) (s : S)
      → n ≤ w
      → Deep deeper
      → Makes (list_of fdp n deeper s) (λ t _. Within w (suc l) t)
  unfolding list_of
  list_of-Makes n deeper s h deep =
      let (k, t) = fdp.int_in_range 0 n s in
      let few = doc.below 0 n s (omega arith) in
      let (xs, u, e, (ps, len)) = repeated-Makes (Within w l) deeper deep k t in
      (
        array (items_of xs),
        u,
        rw e refl,
        (omega arith, omega (arith, count-items_of xs), items_of-Within w l xs ps),
      )

  pub dict_of-Makes :
      (n : ℕ) (one : Gen S (Key × PyTree)) (s : S)
      → n ≤ w
      → ((s : S) → Makes (one s) (λ kv _. Within w l kv.1))
      → Makes (dict_of fdp n one s) (λ t _. Within w (suc l) t)
  unfolding dict_of
  dict_of-Makes n one s h deep =
      let (k, t) = fdp.int_in_range 0 n s in
      let few = doc.below 0 n s (omega arith) in
      let (kvs, u, e, (ps, len)) = repeated-Makes (λ kv. Within w l kv.1) one deep k t in
      (
        dict (entries_from no_entries kvs),
        u,
        rw e refl,
        (
          omega arith,
          omega (arith, count-entries_from kvs no_entries),
          entries_from-Within w l kvs no_entries ps tt,
        ),
      )

  pub numbered_dict-Makes :
      (n : ℕ) (deeper : Gen S PyTree) (s : S)
      → n ≤ w
      → Deep deeper
      → Makes (numbered_dict fdp n deeper s) (λ t _. Within w (suc l) t)
  unfolding numbered_dict
  numbered_dict-Makes n deeper s h deep =
      let (k, t) = fdp.int_in_range 0 n s in
      let few = doc.below 0 n s (omega arith) in
      let (vs, u, e, (ps, len)) = repeated-Makes (Within w l) deeper deep k t in
      let kvs = numbered 0 vs in
      (
        dict (entries_from no_entries kvs),
        u,
        rw e refl,
        (
          omega arith,
          omega (arith, count-entries_from kvs no_entries, length-numbered 0 vs),
          entries_from-Within w l kvs no_entries (numbered-Within w l 0 vs ps) tt,
        ),
      )

  pub free_entry-Makes :
      (deeper : Gen S PyTree) (s : S)
      → Deep deeper
      → Makes (free_entry fdp deeper s) (λ kv _. Within w l kv.1)
  unfolding free_entry some_text
  free_entry-Makes deeper s deep =
      let (k, t) = fdp.int_in_range 0 8 s in
      let (c, u) = fdp.consume_unicode k t in
      let (v, x, e, p) = deep u in ((name (or_k c), v), x, rw e refl, p)

  pub known_entry-Makes :
      (deeper : Gen S PyTree) (s : S)
      → Deep deeper
      → Makes (known_entry fdp deeper s) (λ kv _. Within w l kv.1)
  unfolding known_entry
  known_entry-Makes deeper s deep =
      let (i, t) = fdp.int_in_range 0 16 s in
      let (v, x, e, p) = deep t in ((name (get_or state_keys i []), v), x, rw e refl, p)
