-- ===== src/Oracle/Selftest.antt =====
-- The guard tells the loaders of the self-test apart, on every host that keeps the caps.
use mapfuzz.Base.{
  ℕ, ◌+◌, ◌*◌, ◌^◌, ◌≤◌, ◌<◌, ◌≡◌, ◌≢◌, refl, sym, subst, true, false, List, [], ◌∷◌, length, ltb,
  arith, inl, inr, Bool-cases,
}
use mapfuzz.Exceptions.{ExcClass, builtin, value_error, returned, raised, is_one_of}
use mapfuzz.Targets.MetaTensor.{Bytes, little_endian}
use mapfuzz.Oracle.{
  Work, done, fail, allocate, iterate, Ending, ended, killed, still_running, Host, Failure,
  is_empty, assert_guards_class, from_little, declared, unbounded_alloc_loader, bytearray_of,
  unbounded_loop_loader, bounded_loader, huge, benign_input, alloc_flagged, loop_flagged,
  bounded_passed, oracle_selftest,
}
use mapfuzz.Oracle.Run.{Exhausts, Clean, ending}
use mapfuzz.Oracle.Guard.{assert_guards_class_iff}

-- What a host does under a cap of `mem_bytes` and `seconds`: no allocation beyond the cap succeeds,
-- of a size that a `Py_ssize_t` holds; one of at most `room` bytes does; a loop of more than `rounds`
-- rounds does not get to its end; and what is raised at once is raised.
pub record KeepsCaps (host : Host) (mem_bytes seconds room rounds : ℕ) : Type 0 where
  pub limited : host.set_limit mem_bytes ≡ returned
  pub over_cap :
      (n : ℕ) (w : Work)
      → mem_bytes < n
      → n < 2 ^ 63
      → Exhausts (host.execute mem_bytes seconds (allocate n w))
  pub sized : room < 2 ^ 63
  pub in_room :
      (n : ℕ) → n ≤ room → host.execute mem_bytes seconds (allocate n done) ≡ ended returned
  pub too_long :
      (n : ℕ) (w : Work) → rounds < n → Exhausts (host.execute mem_bytes seconds (iterate n w))
  pub raises : (e : ExcClass) → host.execute mem_bytes seconds (fail e) ≡ ended (raised e)

Exhausts-Clean : (e : Ending) → Exhausts e → ¬ Clean e
Exhausts-Clean still_running h c = c
Exhausts-Clean killed h c = c
Exhausts-Clean (ended returned) h c = h
Exhausts-Clean (ended (raised e)) h (c, _) = cc

module _ (host : Host) (mem_mb seconds room rounds : ℕ)
    (keeps : KeepsCaps host (mem_mb * 1024 * 1024) seconds room rounds) where
  exhausting-flagged :
      (loader : Bytes → Work) (bomb benign : Bytes)
      → Exhausts (ending host mem_mb seconds (loader bomb))
      → assert_guards_class host mem_mb seconds loader bomb benign ≢ []
  exhausting-flagged loader bomb benign x pass =
      Exhausts-Clean (ending host mem_mb seconds (loader bomb)) x
        ((assert_guards_class_iff host mem_mb seconds loader bomb benign keeps.limited).0 pass).0

  -- The loader that allocates what the input declares is flagged on every bomb that declares more
  -- than the memory cap, and less than 2 ^ 63 bytes.
  unbounded_alloc_loader-flagged :
      (bomb benign : Bytes)
      → mem_mb * 1024 * 1024 < declared bomb
      → declared bomb < 2 ^ 63
      → assert_guards_class host mem_mb seconds unbounded_alloc_loader bomb benign ≢ []
  unfolding unbounded_alloc_loader bytearray_of
  unbounded_alloc_loader-flagged bomb benign h small =
      let fits : ltb (declared bomb) (2 ^ 63) ≡ true = ground arith in
      exhausting-flagged unbounded_alloc_loader bomb benign
        (rw fits (keeps.over_cap (declared bomb) done h small))

  -- The loader that loops as often as the input declares is flagged on every bomb that declares more
  -- rounds than the time is enough for.
  unbounded_loop_loader-flagged :
      (bomb benign : Bytes)
      → rounds < declared bomb
      → assert_guards_class host mem_mb seconds unbounded_loop_loader bomb benign ≢ []
  unfolding unbounded_loop_loader
  unbounded_loop_loader-flagged bomb benign h =
      exhausting-flagged unbounded_loop_loader bomb benign (keeps.too_long (declared bomb) done h)

  bounded_loader-returns :
      (input : Bytes)
      → declared input + 8 ≤ length input
      → length input ≤ room
      → ending host mem_mb seconds (bounded_loader input) ≡ ended returned
  unfolding bounded_loader bytearray_of
  bounded_loader-returns input h r =
      let fits : ltb (length input) (declared input + 8) ≡ false = ground arith in
      let sized : ltb (declared input) (2 ^ 63) ≡ true = ground (arith, keeps.sized) in
      rw (fits, sized) (keeps.in_room (declared input) (omega arith))

  bounded_loader-Clean :
      (input : Bytes)
      → length input ≤ room
      → Clean (ending host mem_mb seconds (bounded_loader input))
  unfolding bounded_loader is_one_of
  bounded_loader-Clean input r = elim (Bool-cases (ltb (length input) (declared input + 8))) [
    | inl t ↦ rw (t, keeps.raises (builtin value_error)) value_error-Clean
    | inr f ↦ subst Clean (sym (bounded_loader-returns input (ground arith) r)) tt
  ]
    where
      value_error-Clean : Clean (ended (raised (builtin value_error)))
      value_error-Clean = (refl, refl)

  -- The loader that checks the declared count against the input passes on every bomb, and on every
  -- benign input that holds what it declares, as long as the inputs themselves fit in memory.
  pub bounded_loader-guarded :
      (bomb benign : Bytes)
      → length bomb ≤ room
      → length benign ≤ room
      → declared benign + 8 ≤ length benign
      → assert_guards_class host mem_mb seconds bounded_loader bomb benign ≡ []
  bounded_loader-guarded bomb benign b g h =
      (assert_guards_class_iff host mem_mb seconds bounded_loader bomb benign keeps.limited).1
        (bounded_loader-Clean bomb b, bounded_loader-returns benign h g)

declared-huge : declared huge ≡ 2 ^ 40
unfolding declared from_little little_endian
declared-huge = refl

declared-benign : declared benign_input ≡ 4
unfolding declared from_little little_endian
declared-benign = refl

length-huge : length huge ≡ 8
unfolding little_endian
length-huge = refl

length-benign : length benign_input ≡ 12
unfolding little_endian
length-benign = refl

is_empty-nil : (fs : List Failure) → is_empty fs ≡ true → fs ≡ []
unfolding is_empty
is_empty-nil [] h = refl
is_empty-nil (f ∷ fs) h = cc

flagged : (fs : List Failure) → fs ≢ [] → is_empty fs ≡ false
unfolding is_empty
flagged [] h = absurd (h refl)
flagged (f ∷ fs) h = refl

-- The self-test returns 0 on every host that keeps the caps of 512 MiB and of 3 and 5 seconds, with
-- room for twelve bytes, and on which 2 ^ 40 rounds take longer than 3 seconds.
pub oracle_selftest_lem :
    (host : Host) (room rounds : ℕ)
    → KeepsCaps host (512 * 1024 * 1024) 5 room rounds
    → KeepsCaps host (512 * 1024 * 1024) 3 room rounds
    → 12 ≤ room
    → rounds < 2 ^ 40
    → oracle_selftest host ≡ 0
unfolding oracle_selftest alloc_flagged loop_flagged bounded_passed is_empty
oracle_selftest_lem host room rounds five three r n =
    rw
      (
        flagged _ (
            unbounded_alloc_loader-flagged host 512 5 room rounds five huge benign_input
              (rw declared-huge (omega arith)) (rw declared-huge (omega arith))),
        flagged _ (
            unbounded_loop_loader-flagged host 512 3 room rounds three huge benign_input
              (rw declared-huge n)),
        bounded_loader-guarded host 512 5 room rounds five huge benign_input
            (rw length-huge (omega arith)) (rw length-benign r)
            (rw (length-benign, declared-benign) (omega arith)),
      )
      refl
