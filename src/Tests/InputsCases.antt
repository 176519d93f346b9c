-- ===== src/Tests/InputsCases.antt =====
-- chassis/triage.py's command line on a small file system.
use mathlib.Core.List.{Pairwise, Permᴰ, Nodup, Nodup-cons, not-mem-nil, eq-or-mem_of_mem-cons}
use mathlib.Core.Logic.Or
use mathlib.Core.HLevel.{⊥_prop}
use mapfuzz.Base.{
  ℕ, Text, codes, ◌≡◌, ◌≢◌, refl, none, some, List, [], ◌∷◌, ◌↔◌, join, Option, subst, text_eq,
  text_eq_refl, false≢true, true,
}
use mapfuzz.Base.{Elem}
use mapfuzz.Triage.Inputs.Listing.{IsInput, iter_inputs_iff}
use mapfuzz.Triage.Inputs.{Node, directory, iter_inputs}
use mapfuzz.Triage.Inputs.Order.{SameNode}
use mapfuzz.Triage.Main.{run_main}
use mapfuzz.Triage.Main.Status.{SomeReal, run_main_iff, run_main-same}

abbrev shown : List Text → Text
shown = join (codes ", ")

abbrev a_log : Text × Option Text
a_log = (codes "a.log", some (codes "Segmentation fault"))

abbrev b_dir : Text × Option Text
b_dir = (codes "b", none)

abbrev c_log : Text × Option Text
c_log = (codes "c.log", some (codes "nothing"))

abbrev tree : Text → Node
tree p = directory (c_log ∷ b_dir ∷ a_log ∷ [])

abbrev pair : Text → Node
pair p = directory (c_log ∷ a_log ∷ [])

abbrev pair' : Text → Node
pair' p = directory (a_log ∷ c_log ∷ [])

tree-inputs :
    iter_inputs tree [] (codes "-v" ∷ codes "out" ∷ [])
    ≡ (codes "a.log", codes "Segmentation fault") ∷ (codes "c.log", codes "nothing") ∷ []
unfolding iter_inputs mapfuzz.Base.starts_with mapfuzz.Base.Sorting.sort_by
    mapfuzz.Base.Sorting.text_lt
tree-inputs = refl

stdin-inputs : iter_inputs tree (codes "x") (codes "-v" ∷ []) ≡ (codes "<stdin>", codes "x") ∷ []
unfolding iter_inputs mapfuzz.Base.starts_with
stdin-inputs = refl

run_main_iff_example :
    ((run_main shown tree [] (codes "out" ∷ [])).1 ≡ 1) ↔ SomeReal tree [] (codes "out" ∷ [])
run_main_iff_example = run_main_iff shown tree [] (codes "out" ∷ [])

same_listing : (p : Text) → SameNode (pair p) (pair' p)
unfolding text_eq
same_listing p = (Permᴰ.swap refl refl, two_names (λ e. other e))
  where
    other : codes "c.log" ≢ codes "a.log"
    other e =
        false≢true (subst (λ t. text_eq (codes "c.log") t ≡ true) e (text_eq_refl (codes "c.log")))

    two_names : {a b : Text} → a ≢ b → Nodup (a ∷ b ∷ [])
    two_names n = Nodup-cons.1 (
      λ m. Or.elim ⊥_prop (eq-or-mem_of_mem-cons m) n not-mem-nil,
      Nodup-cons.1 (not-mem-nil, Pairwise.nil),
    )

run_main-same_example :
    run_main shown pair [] (codes "out" ∷ []) ≡ run_main shown pair' [] (codes "out" ∷ [])
run_main-same_example = run_main-same shown pair pair' same_listing [] (codes "out" ∷ [])

iter_inputs_iff_example :
    Elem
      (codes "a.log", codes "Segmentation fault")
      (iter_inputs tree [] (codes "-v" ∷ codes "out" ∷ []))
    ↔ IsInput tree [] (codes "-v" ∷ codes "out" ∷ []) (codes "a.log", codes "Segmentation fault")
iter_inputs_iff_example =
    iter_inputs_iff tree [] (codes "-v" ∷ codes "out" ∷ [])
      (codes "a.log", codes "Segmentation fault")
