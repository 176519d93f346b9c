-- ===== src/Targets/GgufReader/Laws.antt =====
-- What the harness of the GGUF reader records.
use mapfuzz.Base.{
  false, ◌≡◌, refl, sym, ap, ◌∙◌, true, List, [], ◌∷◌, arith, if◌then◌else◌, ◌↔◌, Bool-cases, inl,
  inr, All, Bool, codes,
}
use mapfuzz.Exceptions.{
  ExcClass, builtin, unicode_decode_error, Outcome, returned, raised, is_instance, is_one_of,
  handle,
}
use mapfuzz.Exceptions.Laws.{handle_iff, handle_first, unicode_decode_error-is_value_error}
use mapfuzz.Targets.GgufReader.{
  Bytes, expected, recorded_clauses, run_one, probe_passes, probe_all, selftest,
}

-- The outcome of one run: an exception is let through exactly when it is of no expected class.
run_one_lem :
    (reader : Bytes → Outcome) (input : Bytes) (e : ExcClass)
    → reader input ≡ raised e
    → run_one reader input ≡ (if is_one_of e expected then returned else raised e)
unfolding run_one
run_one_lem reader input e h =
    rw h (handle_first expected recorded_clauses e (refl, (refl, (refl, tt))))

-- A run is recorded exactly when the reader raises something of no expected class.
recorded_iff :
    (reader : Bytes → Outcome) (input : Bytes) (e : ExcClass)
    → (run_one reader input ≡ raised e)
      ↔ ((reader input ≡ raised e) × (is_one_of e expected ≡ false))
unfolding run_one
recorded_iff reader input e =
    handle_iff expected recorded_clauses (reader input) e (refl, (refl, (refl, tt)))

-- Whatever the reader does, `UnicodeDecodeError` and its subclasses are never recorded, though a
-- later clause re-raises them: the clause for `ValueError` takes them first.
pub unicode_decode_error-swallowed :
    (reader : Bytes → Outcome) (input : Bytes) (e : ExcClass)
    → reader input ≡ raised e
    → is_instance e (builtin unicode_decode_error) ≡ true
    → run_one reader input ≡ returned
unfolding is_one_of
unicode_decode_error-swallowed reader input e h u =
    run_one_lem reader input e h ∙ rw (unicode_decode_error-is_value_error e u) refl

tested : ExcClass → Outcome
tested e = if is_one_of e expected then returned else raised e

probe_passes-tested : (e : ExcClass) → probe_passes (tested e) ≡ true → tested e ≡ returned
unfolding tested probe_passes
probe_passes-tested e h = elim (Bool-cases (is_one_of e expected)) [
  | inl q ↦ rw q refl
  | inr q ↦ absurd (ground arith)
]

-- a probe passes only if its run ends with no exception
probe_passes-run_one :
    (reader : Bytes → Outcome) (p : Bytes)
    → probe_passes (run_one reader p) ≡ true
    → run_one reader p ≡ returned
probe_passes-run_one reader p h = go (reader p) refl
  where
    go : (o : Outcome) → reader p ≡ o → run_one reader p ≡ returned
    go returned e = unfold run_one handle in rw e refl
    go (raised x) e =
        let run = run_one_lem reader p x e in
        run ∙ unfold tested in probe_passes-tested x (ap probe_passes (sym run) ∙ h)

-- The loop of `_selftest` returns 0 exactly when no probe's run ends in an exception.
probe_all_iff :
    (reader : Bytes → Outcome) (ps : List Bytes)
    → (probe_all reader ps ≡ 0) ↔ All (λ p. run_one reader p ≡ returned) ps
unfolding probe_all probe_passes
probe_all_iff reader [] = (λ _. tt, λ _. refl)
probe_all_iff reader (p ∷ ps) =
    (to (probe_all_iff reader ps), λ (h, hs). rw h ((probe_all_iff reader ps).1 hs))
  where
    to :
        (probe_all reader ps ≡ 0) ↔ All (λ p. run_one reader p ≡ returned) ps
        → probe_all reader (p ∷ ps) ≡ 0
        → All (λ p. run_one reader p ≡ returned) (p ∷ ps)
    to ih h = elim (Bool-cases (probe_passes (run_one reader p))) [
      | inl q ↦ (probe_passes-run_one reader p q, ih.0 (ground arith))
      | inr q ↦ absurd (ground arith)
    ]

-- The run returns, or raises something of an expected class.
abbrev pub Expected : Outcome → Type 0
Expected returned = Unit
Expected (raised e) = is_one_of e expected ≡ true

run_one-Expected :
    (reader : Bytes → Outcome) (p : Bytes) → (run_one reader p ≡ returned) ↔ Expected (reader p)
run_one-Expected reader p = go (reader p) refl
  where
    none_raised :
        (t : Bool) (e : ExcClass) → (if t then returned else raised e) ≡ returned → t ≡ true
    none_raised true e h = refl
    none_raised false e h = cc

    go : (o : Outcome) → reader p ≡ o → (run_one reader p ≡ returned) ↔ Expected o
    go returned q = (λ _. tt, λ _. unfold run_one handle in rw q refl)
    go (raised e) q = (
      λ h. none_raised (is_one_of e expected) e (sym (run_one_lem reader p e q) ∙ h),
      λ h. run_one_lem reader p e q ∙ rw h refl,
    )

-- The self-test returns 0 exactly when the reader, on each of the four probes, returns or raises
-- something of an expected class.
pub selftest_iff :
    (reader : Bytes → Outcome)
    → (selftest reader ≡ 0) ↔ (
        Expected (reader [])
        × Expected (reader (codes "XXXX"))
        × Expected (reader (codes "GGUF"))
        × Expected (reader (71 ∷ 71 ∷ 85 ∷ 70 ∷ 3 ∷ 0 ∷ 0 ∷ 0 ∷ [])))
unfolding selftest
selftest_iff reader =
    let all =
      probe_all_iff reader
        ([] ∷ codes "XXXX" ∷ codes "GGUF" ∷ (71 ∷ 71 ∷ 85 ∷ 70 ∷ 3 ∷ 0 ∷ 0 ∷ 0 ∷ []) ∷ []) in
    let run = run_one-Expected reader in
    (
      λ h.
          let (a, (b, (c, (d, _)))) = all.0 h in
          ((run _).0 a, (run _).0 b, (run _).0 c, (run _).0 d),
      λ (a, b, c, d). all.1 ((run _).1 a, ((run _).1 b, ((run _).1 c, ((run _).1 d, tt)))),
    )
