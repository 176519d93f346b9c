-- ===== src/Targets/TransformersConfig/Scrub.antt =====
-- The scope guard: no forbidden key is left at any depth, and nothing else is lost.
use mapfuzz.Base.{◌↔◌, subst, ◌≡◌, refl, ap, Text, false, List, Bool-cases, inl, inr}
use mapfuzz.Json.{
  Json, null, boolean, integer, float, string, array, object, Items, no_items, item, Members,
  no_members, member,
}
use mapfuzz.Targets.TransformersConfig.{
  is_forbidden, scrub, scrub_items, scrub_members, build_dict, override, template,
}

-- No object in the value has a forbidden key.
abbrev mutual
  pub InScope : Json → Type 0
  InScope null = Unit
  InScope (boolean b) = Unit
  InScope (integer n) = Unit
  InScope (float t) = Unit
  InScope (string t) = Unit
  InScope (array xs) = ItemsInScope xs
  InScope (object ms) = MembersInScope ms

  pub ItemsInScope : Items → Type 0
  ItemsInScope no_items = Unit
  ItemsInScope (item x xs) = InScope x × ItemsInScope xs

  pub MembersInScope : Members → Type 0
  MembersInScope no_members = Unit
  MembersInScope (member k v ms) = (is_forbidden k ≡ false) × InScope v × MembersInScope ms

mutual
  unfolding scrub

  scrubbed : (j : Json) → InScope (scrub j)
  scrubbed null = tt
  scrubbed (boolean b) = tt
  scrubbed (integer n) = tt
  scrubbed (float t) = tt
  scrubbed (string t) = tt
  scrubbed (array xs) = items_scrubbed xs
  scrubbed (object ms) = members_scrubbed ms

  items_scrubbed : (xs : Items) → ItemsInScope (scrub_items xs)
  items_scrubbed no_items = tt
  items_scrubbed (item x xs) = (scrubbed x, items_scrubbed xs)

  pub members_scrubbed : (ms : Members) → MembersInScope (scrub_members ms)
  members_scrubbed no_members = tt
  members_scrubbed (member k v ms) = elim (Bool-cases (is_forbidden k)) [
    | inl t ↦ rw t (members_scrubbed ms)
    | inr f ↦ rw f (f, scrubbed v, members_scrubbed ms)
  ]

mutual
  unfolding scrub

  kept : (j : Json) → InScope j → scrub j ≡ j
  kept null h = refl
  kept (boolean b) h = refl
  kept (integer n) h = refl
  kept (float t) h = refl
  kept (string t) h = refl
  kept (array xs) h = ap array (items_kept xs h)
  kept (object ms) h = ap object (members_kept ms h)

  items_kept : (xs : Items) → ItemsInScope xs → scrub_items xs ≡ xs
  items_kept no_items h = refl
  items_kept (item x xs) (h, hs) = rw (kept x h, items_kept xs hs) refl

  members_kept : (ms : Members) → MembersInScope ms → scrub_members ms ≡ ms
  members_kept no_members h = refl
  members_kept (member k v ms) (a, h, hs) = rw (a, kept v h, members_kept ms hs) refl

-- What the fuzzer draws never brings a forbidden key into the configuration, at any depth.
pub build_dict-InScope : (draws : List (Text × Json)) → InScope (build_dict draws)
unfolding build_dict
build_dict-InScope draws = scrubbed (object (override draws template))

-- A value is left as it is exactly when it has no forbidden key.
scrub_iff : (j : Json) → (scrub j ≡ j) ↔ InScope j
scrub_iff j = (λ e. subst InScope e (scrubbed j), kept j)
