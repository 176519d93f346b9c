-- ===== src/Targets/TransformersConfig/Selftest.antt =====
-- `_selftest` of the configuration harness: the scope guard on a dictionary with forbidden keys.
use mapfuzz.Base.{
  ℕ, ◌≡◌, refl, Text, codes, Bool, true, false, Option, none, some, List, [], ◌∷◌, ◌⊎◌, inl, inr,
  text_eq, text_eq_iff, false≢true, sym, ◌∙◌, Bool-cases, ◌↔◌, if◌then◌else◌, ap, subst, any,
  text_eq_refl, arith, text_in,
}
use mapfuzz.Json.{
  Json, boolean, string, object, Members, no_members, member, set_member, get_member,
}
use mapfuzz.Exceptions.{ExcClass, Outcome, returned, raised}
use mapfuzz.Targets.TransformersConfig.{forbidden_keys, is_forbidden, scrub, template}
use mapfuzz.Targets.TransformersConfig.Scrub.{MembersInScope, members_scrubbed}

unfoldable pub has_key : Option Json → Bool
has_key none = false
has_key (some v) = true

-- `_FORBIDDEN_KEYS & set(d)`
unfoldable pub leaked : List Text → Members → List Text
unfolding has_key
leaked [] ms = []
leaked (k ∷ ks) ms = let rest = leaked ks ms in if has_key (get_member k ms) then k ∷ rest else rest

members_of : Json → Members
members_of (object ms) = ms
members_of _ = no_members

-- the test of the scope guard on a dictionary: the status it ends with
unfoldable pub scope_status : List Text → ℕ
scope_status [] = 0
scope_status (k ∷ ks) = 1

unfoldable pub scope_test : Members → ℕ
unfolding leaked members_of scope_status
scope_test dirty = scope_status (leaked forbidden_keys (members_of (scrub (object dirty))))

-- `dirty`
abbrev pub dirty : Members
dirty = set_member (codes "_attn_implementation_internal") (string (codes "evil")) (
    set_member (codes "trust_remote_code") (boolean true) (
      set_member (codes "auto_map")
        (object (member (codes "AutoConfig") (string (codes "evil.module.Cls")) no_members))
        template))

-- `_selftest`, from the run of `from_dict` on the template on
unfoldable pub after_baseline : Outcome → ExcClass ⊎ ℕ
after_baseline (raised e) = inl e
after_baseline returned = inr (scope_test dirty)

unfoldable pub config_selftest : (Json → Outcome) → ExcClass ⊎ ℕ
unfolding after_baseline
config_selftest from_dict = after_baseline (from_dict (object template))

-- A forbidden key is no key of a dictionary without forbidden keys.
in_scope-get :
    (k : Text) (ms : Members) → is_forbidden k ≡ true → MembersInScope ms → get_member k ms ≡ none
unfolding get_member
in_scope-get k no_members h m = refl
in_scope-get k (member l v ms) h (f, _, m) = elim (Bool-cases (text_eq l k)) [
  | inl t ↦
      absurd
        (false≢true (sym f ∙ subst (λ x. is_forbidden x ≡ true) (sym ((text_eq_iff l k).0 t)) h))
  | inr n ↦ rw n (in_scope-get k ms h m)
]

none_leaked :
    (ks : List Text) (ms : Members)
    → ((k : Text) → text_in k ks ≡ true → is_forbidden k ≡ true)
    → MembersInScope ms
    → leaked ks ms ≡ []
unfolding leaked has_key any
none_leaked [] ms h m = refl
none_leaked (k ∷ ks) ms h m =
    rw (in_scope-get k ms (h k (rw (text_eq_refl k) refl)) m)
      (none_leaked ks ms (λ l q. h l (ground arith)) m)

-- The test passes on every dictionary, whatever keys it has.
pub scope_test-passes : (ms : Members) → scope_test ms ≡ 0
unfolding scope_test scrub members_of scope_status is_forbidden
scope_test-passes ms = rw (none_leaked forbidden_keys _ (λ k q. q) (members_scrubbed ms)) refl

-- The self-test ends with the status 0 exactly when `from_dict` takes the template.
pub config_selftest_iff :
    (from_dict : Json → Outcome)
    → (config_selftest from_dict ≡ inr 0) ↔ (from_dict (object template) ≡ returned)
unfolding config_selftest
config_selftest_iff from_dict = go (from_dict (object template))
  where
    go : (o : Outcome) → (after_baseline o ≡ inr 0) ↔ (o ≡ returned)
    go returned = (λ _. refl, λ _. unfold after_baseline in ap inr (scope_test-passes dirty))
    go (raised e) = (λ h. unfold after_baseline in cc, λ h. cc)
