-- ===== src/Targets/MetaTensor/Layout.antt =====
-- The layout is stable: each field is read from bytes of its own.
use mapfuzz.Base.{
  ℕ, zero, suc, ◌+◌, ◌≤◌, ◌<◌, ◌≡◌, ◌≢◌, refl, sym, ap, ◌∙◌, Option, none, some, length, get_or,
  take, drop, set, get_or-set_ne, get_or-take, get_or-take_past, get_or-drop, get_or-pad, leb, ltb,
  ◌==◌, if◌then◌else◌, arith, Bool-cases, inl, inr,
}
use mapfuzz.Targets.MetaTensor.{
  Bytes, Fields, fields_of, fixed_bytes, slot_values, layout_len, max_dim,
}

pub data Field : Type 0 where
  dtype requires_grad offset size stride : Field

-- the field that the byte at a place belongs to
unfoldable pub field_at : ℕ → Option Field
field_at i =
    if i == 0
    then some dtype
    else if i == 1
    then some size
    else if i == 2
    then some stride
    else if i == 3
    then some requires_grad
    else if i == 4
    then some offset
    else if ltb i 11
    then some size
    else if ltb i 17
    then some stride
    else none

-- Two decodings agree on a field.
abbrev pub Same : Field → Fields → Fields → Type 0
Same dtype a b = a.dtype ≡ b.dtype
Same requires_grad a b = a.requires_grad ≡ b.requires_grad
Same offset a b = a.offset ≡ b.offset
Same size a b = a.size ≡ b.size
Same stride a b = a.stride ≡ b.stride

pub fixed_get : (d : Bytes) (j : ℕ) → j < 17 → get_or (fixed_bytes d) j 0 ≡ get_or d j 0
unfolding fixed_bytes
fixed_get d j h = elim (Bool-cases (leb layout_len (length d))) [
  | inl e ↦ rw e (get_or-take 0 17 d j h)
  | inr e ↦ rw e (get_or-pad 0 d _ j)
]

slot_values-ext :
    (n i : ℕ) (s t : Bytes)
    → ((j : ℕ) → get_or s j 0 ≡ get_or t j 0)
    → slot_values n i s ≡ slot_values n i t
unfolding slot_values
slot_values-ext zero i s t h = refl
slot_values-ext (suc n) i s t h = rw (h i, slot_values-ext n (suc i) s t h) refl

slots_get :
    (h : ℕ) (b c : Bytes)
    → ((j : ℕ) → j < 6 → get_or b (h + j) 0 ≡ get_or c (h + j) 0)
    → (j : ℕ) → get_or (take max_dim (drop h b)) j 0 ≡ get_or (take max_dim (drop h c)) j 0
slots_get h b c same j = elim (Bool-cases (ltb j 6)) [
  | inl e ↦
      let low : j < 6 = ground arith in
      get_or-take 0 6 (drop h b) j low
      ∙ get_or-drop 0 h b j
      ∙ same j low
      ∙ sym (get_or-drop 0 h c j)
      ∙ sym (get_or-take 0 6 (drop h c) j low)
  | inr e ↦
      let high : 6 ≤ j = ground arith in
      get_or-take_past 0 6 (drop h b) j high ∙ sym (get_or-take_past 0 6 (drop h c) j high)
]

-- the two inputs agree at every byte of the field
abbrev AgreeOn : Field → Bytes → Bytes → Type 0
AgreeOn f b c = (i : ℕ) → i < 17 → field_at i ≡ some f → get_or b i 0 ≡ get_or c i 0

AgreeOn-Same : (f : Field) (b c : Bytes) → AgreeOn f b c → Same f (fields_of b) (fields_of c)
unfolding fields_of field_at
AgreeOn-Same dtype b c h = rw (h 0 (omega arith) refl) refl
AgreeOn-Same requires_grad b c h = rw (h 3 (omega arith) refl) refl
AgreeOn-Same offset b c h = rw (h 4 (omega arith) refl) refl
AgreeOn-Same size b c h =
    rw (h 1 (omega arith) refl)
      (slot_values-ext _ 0 _ _ (slots_get 5 b c (λ j low. h (5 + j) (omega arith) (ground arith))))
AgreeOn-Same stride b c h =
    rw (h 2 (omega arith) refl) (
      slot_values-ext _ 0 _ _ (slots_get 11 b c (λ j low. h (11 + j) (omega arith) (ground arith))))

-- Changing one byte leaves every field alone but the one that the byte belongs to; a byte behind
-- the layout belongs to none.
pub one_byte-one_field :
    (input : Bytes) (i v : ℕ) (f : Field)
    → field_at i ≢ some f
    → Same f (fields_of (fixed_bytes (set input i v))) (fields_of (fixed_bytes input))
one_byte-one_field input i v f other =
    AgreeOn-Same f (fixed_bytes (set input i v)) (fixed_bytes input) λ j low mine.
      fixed_get (set input i v) j low
      ∙ get_or-set_ne 0 input i j v (λ e. other (ap field_at e ∙ mine))
      ∙ sym (fixed_get input j low)
