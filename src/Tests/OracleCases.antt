-- ===== src/Tests/OracleCases.antt =====
-- The resource oracle on a small host.
use mapfuzz.Base.{
  ℕ, ◌*◌, ◌+◌, ◌^◌, ◌≡◌, ◌≤◌, ◌<◌, ◌↔◌, refl, true, false, [], leb, length, arith, if◌then◌else◌,
}
use mapfuzz.Exceptions.{builtin, memory_error, os_error, returned, raised, is_one_of}
use mapfuzz.Targets.MetaTensor.{little_endian}
use mapfuzz.Oracle.{
  Work, done, fail, allocate, iterate, Ending, ended, still_running, Host, assert_guards_class,
  from_little, declared, bounded_loader, huge, benign_input, oracle_selftest,
}
use mapfuzz.Oracle.Run.{Clean, ending}
use mapfuzz.Oracle.Guard.{assert_guards_class_iff}
use mapfuzz.Oracle.Selftest.{KeepsCaps, bounded_loader-guarded, oracle_selftest_lem}

-- a million rounds a second, and every allocation up to the cap
abbrev run_work : ℕ → ℕ → Work → Ending
run_work mem_bytes seconds done = ended returned
run_work mem_bytes seconds (fail e) = ended (raised e)
run_work mem_bytes seconds (allocate n w) =
    let rest = run_work mem_bytes seconds w in
    if leb n mem_bytes then rest else ended (raised (builtin memory_error))
run_work mem_bytes seconds (iterate n w) =
    let rest = run_work mem_bytes seconds w in
    if leb n (seconds * 1000000) then rest else still_running

abbrev small_host : Host
small_host = record { set_limit = λ _. returned; execute = run_work }

abbrev no_limits : Host
no_limits = record { set_limit = λ _. raised (builtin os_error); execute = run_work }

small_host-KeepsCaps :
    (mem_bytes seconds : ℕ)
    → mem_bytes < 2 ^ 63
    → KeepsCaps small_host mem_bytes seconds mem_bytes (seconds * 1000000)
unfolding is_one_of
small_host-KeepsCaps mem_bytes seconds fits = record {
  limited = refl;
  over_cap = λ n w h _. rw (too_much n mem_bytes h) refl;
  sized = fits;
  in_room = λ n h. rw (enough n mem_bytes h) refl;
  too_long = λ n w h. rw (too_much n (seconds * 1000000) h) tt;
  raises = λ e. refl;
}
  where
    too_much : (n m : ℕ) → m < n → leb n m ≡ false
    too_much n m h = ground arith

    enough : (n m : ℕ) → n ≤ m → leb n m ≡ true
    enough n m h = ground arith

assert_guards_class_iff_example :
    (assert_guards_class small_host 1 1 bounded_loader huge benign_input ≡ []) ↔ (
      Clean (ending small_host 1 1 (bounded_loader huge))
      × (ending small_host 1 1 (bounded_loader benign_input) ≡ ended returned))
assert_guards_class_iff_example =
    assert_guards_class_iff small_host 1 1 bounded_loader huge benign_input refl

huge-declared : 1048576 < declared huge
unfolding declared from_little little_endian
huge-declared = omega arith

huge-short : length huge ≤ 1048576
unfolding little_endian
huge-short = omega arith

benign-short : length benign_input ≤ 1048576
unfolding little_endian
benign-short = omega arith

benign-holds : declared benign_input + 8 ≤ length benign_input
unfolding declared from_little little_endian
benign-holds = omega arith

bounded_loader-guarded_example :
    assert_guards_class small_host 1 1 bounded_loader huge benign_input ≡ []
bounded_loader-guarded_example =
    bounded_loader-guarded small_host 1 1 1048576 1000000
      (small_host-KeepsCaps 1048576 1 (omega arith)) huge benign_input huge-short benign-short
      benign-holds

rounds-KeepsCaps : KeepsCaps small_host 536870912 3 536870912 5000000
unfolding is_one_of
rounds-KeepsCaps =
    let k = small_host-KeepsCaps 536870912 3 (omega arith) in
    record {
      limited = k.limited;
      over_cap = k.over_cap;
      sized = k.sized;
      in_room = k.in_room;
      too_long = λ n w h. k.too_long n w (omega arith);
      raises = k.raises;
    }

oracle_selftest_lem_example : oracle_selftest small_host ≡ 0
oracle_selftest_lem_example =
    oracle_selftest_lem small_host 536870912 5000000
      (small_host-KeepsCaps 536870912 5 (omega arith)) rounds-KeepsCaps (omega arith) (omega arith)
