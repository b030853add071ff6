-- ===== src/Utf/Exchange.antt =====
-- `toUTF8` and `toUTF16` of src/desert_classes/NanoCBorStream.cpp as a pair: what they accept, what
-- they do with the rest, and that they undo one another.
use rmw_desert.Prelude.{
  ℕ, ◌≡◌, ◌≢◌, ◌↔◌, ◌<◌, ◌⊎◌, ◌∷◌, length-append, refl, sym, ap, ◌∙◌, inl, inr, none, List, [],
  arith, length, Option-cases, All,
}
use native.Mathlib.Nat.{le_refl}
use rmw_desert.Utf.{code_units, encode_loop, decode_loop, to_utf8, to_utf16}
use rmw_desert.Utf.Decoded.{IsByte}
use rmw_desert.Utf.Point.{IsScalar, utf8}
use rmw_desert.Utf.RoundTrip.{
  length-utf8, IsUnit16, units_of, bytes_of, TextOfUnits, TextOfBytes, encode_loop-units_of,
  decode_loop-bytes_of, encode_loop-TextOfUnits, decode_loop-TextOfBytes,
}

-- For every text, given by its scalar values, each function turns one encoding into the other.
pub exchange :
    (cps : List ℕ)
    → All IsScalar cps
    → (to_utf8 (units_of cps) ≡ bytes_of cps) × (to_utf16 (bytes_of cps) ≡ units_of cps)
unfolding to_utf8 to_utf16
exchange cps scalars = (
  rw (encode_loop-units_of cps scalars),
  rw (decode_loop-bytes_of cps (length (bytes_of cps)) scalars (le_refl _)),
)

-- 16-bit units that `toUTF8` does not refuse come back from `toUTF16` unchanged.
pub to_utf16-to_utf8 :
    (u : List ℕ) → All IsUnit16 u → encode_loop u ≢ none → to_utf16 (to_utf8 u) ≡ u
to_utf16-to_utf8 u units accepted = elim (Option-cases (encode_loop u)) [
  | inl refused ↦ absurd (accepted refused)
  | inr (s, e) ↦
      let (cps, scalars, split) = encode_loop-TextOfUnits u units e in
      let (there, back) = exchange cps scalars in rw (split, there) back
]

-- Bytes that `toUTF16` does not refuse come back from `toUTF8` unchanged.
pub to_utf8-to_utf16 :
    (s : List ℕ) → All IsByte s → decode_loop (length s) s ≢ none → to_utf8 (to_utf16 s) ≡ s
to_utf8-to_utf16 s bytes accepted = elim (Option-cases (decode_loop (length s) s)) [
  | inl refused ↦ absurd (accepted refused)
  | inr (u, e) ↦
      let (cps, scalars, split) = decode_loop-TextOfBytes (length s) s bytes e in
      let (there, back) = exchange cps scalars in rw (split, back) there
]

bytes_of-nil : (cps : List ℕ) → bytes_of cps ≡ [] → cps ≡ []
bytes_of-nil [] e = refl
bytes_of-nil (cp ∷ cps) e =
    absurd (omega (arith, ap length e, length-append (utf8 cp) (bytes_of cps), length-utf8 cp))

length-code_units : (cp : ℕ) → 0 < length (code_units cp)
unfolding code_units
length-code_units cp = ground arith

units_of-nil : (cps : List ℕ) → units_of cps ≡ [] → cps ≡ []
units_of-nil [] e = refl
units_of-nil (cp ∷ cps) e =
    absurd (
      omega
        (arith, ap length e, length-append (code_units cp) (units_of cps), length-code_units cp))

encode_loop_refuses : (u : List ℕ) → All IsUnit16 u → (encode_loop u ≡ none) ↔ (¬ TextOfUnits u)
encode_loop_refuses u units = (sound, complete)
  where
    sound : encode_loop u ≡ none → ¬ TextOfUnits u
    sound e (cps, scalars, split) =
        let encoded = rw (← split) at (encode_loop-units_of cps scalars) in cc

    complete : ¬ TextOfUnits u → encode_loop u ≡ none
    complete h = elim (Option-cases (encode_loop u)) [
      | inl refused ↦ refused
      | inr (s, e) ↦ absurd (h (encode_loop-TextOfUnits u units e))
    ]

decode_loop_refuses :
    (s : List ℕ) → All IsByte s → (decode_loop (length s) s ≡ none) ↔ (¬ TextOfBytes s)
decode_loop_refuses s bytes = (sound, complete)
  where
    sound : decode_loop (length s) s ≡ none → ¬ TextOfBytes s
    sound e (cps, scalars, split) =
        let decoded =
          rw (← split) at (decode_loop-bytes_of cps (length (bytes_of cps)) scalars (le_refl _)) in
        cc

    complete : ¬ TextOfBytes s → decode_loop (length s) s ≡ none
    complete h = elim (Option-cases (decode_loop (length s) s)) [
      | inl refused ↦ refused
      | inr (u, e) ↦ absurd (h (decode_loop-TextOfBytes (length s) s bytes e))
    ]

-- `toUTF8` returns the empty string exactly for the empty source and for units that are no UTF-16
-- text.
pub to_utf8_refuses :
    (u : List ℕ) → All IsUnit16 u → (to_utf8 u ≡ []) ↔ ((u ≡ []) ⊎ (¬ TextOfUnits u))
to_utf8_refuses u units = (only_if, if_so)
  where
    only_if : to_utf8 u ≡ [] → (u ≡ []) ⊎ (¬ TextOfUnits u)
    only_if e = elim (Option-cases (encode_loop u)) [
      | inl refused ↦ inr ((encode_loop_refuses u units).0 refused)
      | inr (s, found) ↦
          let (cps, scalars, split) = encode_loop-TextOfUnits u units found in
          let empty = sym (exchange cps scalars).0 ∙ ap to_utf8 (sym split) ∙ e in
          inl (split ∙ ap units_of (bytes_of-nil cps empty))
    ]

    if_so : (u ≡ []) ⊎ (¬ TextOfUnits u) → to_utf8 u ≡ []
    if_so (inl e) = rw e (unfold to_utf8 encode_loop in refl)
    if_so (inr h) = unfold to_utf8 in rw ((encode_loop_refuses u units).1 h)

-- `toUTF16` returns the empty string exactly for the empty source and for bytes that are no UTF-8
-- text: overlong forms, surrogates and cut sequences among them.
pub to_utf16_refuses :
    (s : List ℕ) → All IsByte s → (to_utf16 s ≡ []) ↔ ((s ≡ []) ⊎ (¬ TextOfBytes s))
to_utf16_refuses s bytes = (only_if, if_so)
  where
    only_if : to_utf16 s ≡ [] → (s ≡ []) ⊎ (¬ TextOfBytes s)
    only_if e = elim (Option-cases (decode_loop (length s) s)) [
      | inl refused ↦ inr ((decode_loop_refuses s bytes).0 refused)
      | inr (u, found) ↦
          let (cps, scalars, split) = decode_loop-TextOfBytes (length s) s bytes found in
          let empty = sym (exchange cps scalars).1 ∙ ap to_utf16 (sym split) ∙ e in
          inl (split ∙ ap bytes_of (units_of-nil cps empty))
    ]

    if_so : (s ≡ []) ⊎ (¬ TextOfBytes s) → to_utf16 s ≡ []
    if_so (inl e) = rw e (unfold to_utf16 decode_loop in refl)
    if_so (inr h) = unfold to_utf16 in rw ((decode_loop_refuses s bytes).1 h)
