-- ===== src/Utf/RoundTrip.antt =====
-- `toUTF8` and `toUTF16` of src/desert_classes/NanoCBorStream.cpp against each other.
use rmw_desert.Prelude.{
  ℕ, zero, suc, ◌+◌, ◌-◌, ◌/◌, ◌%◌, ◌^◌, ◌≤◌, ◌<◌, ◌≡◌, refl, sym, ap, ap₂, ◌∙◌, inl, inr, true,
  false, ◌||◌, Option, some, none, List, [], ◌∷◌, ◌++◌, arith, ltb, length, length-append,
  Bool-cases, Option-cases, All,
}
use native.Mathlib.Decide.{dec_le}
use rmw_desert.Prelude.Bits.{bit_and-1023}
use rmw_desert.Utf.{
  append_code_point, is_high, is_low, pair_code_point, prepend, encode_loop, decode_point,
  code_units, decode_loop,
}
use rmw_desert.Utf.Point.{IsScalar, utf8, append_code_point-utf8, decode_point-utf8}
use rmw_desert.Utf.Decoded.{IsByte, decode_point-inv}

abbrev pub IsUnit16 : ℕ → Type 0
IsUnit16 u = u < 2 ^ 16

-- The UTF-16 units and the UTF-8 bytes of a text given by its scalar values.
abbrev pub units_of : List ℕ → List ℕ
units_of [] = []
units_of (cp ∷ cps) = code_units cp ++ units_of cps

abbrev pub bytes_of : List ℕ → List ℕ
bytes_of [] = []
bytes_of (cp ∷ cps) = utf8 cp ++ bytes_of cps

high_of : ℕ → ℕ
high_of cp = 0xd800 + (cp - 0x10000) / 1024

low_of : ℕ → ℕ
low_of cp = 0xdc00 + (cp - 0x10000) % 1024

code_units_one : (cp : ℕ) → cp ≤ 0xffff → code_units cp ≡ cp ∷ []
unfolding code_units
code_units_one cp h = ground arith

code_units_two :
    (cp : ℕ) → 0xffff < cp → cp ≤ 0x10ffff → code_units cp ≡ high_of cp ∷ low_of cp ∷ []
unfolding code_units high_of low_of
code_units_two cp h k = ground (arith, bit_and-1023 (cp - 0x10000))

encode_loop_one :
    (u : ℕ) (rest : List ℕ)
    → is_high u ≡ false
    → is_low u ≡ false
    → encode_loop (u ∷ rest) ≡ prepend (append_code_point u) (encode_loop rest)
unfolding encode_loop
encode_loop_one u [] h k = ground arith
encode_loop_one u (x ∷ rest) h k = ground arith

encode_loop_two :
    (u low : ℕ) (rest : List ℕ)
    → is_high u ≡ true
    → is_low low ≡ true
    → encode_loop (u ∷ low ∷ rest)
      ≡ prepend (append_code_point (pair_code_point u low)) (encode_loop rest)
unfolding encode_loop is_low
encode_loop_two u low rest h k = ground arith

pair-units :
    (cp : ℕ)
    → 0xffff < cp
    → cp ≤ 0x10ffff
    → (is_high (high_of cp) ≡ true)
      × (is_low (low_of cp) ≡ true)
      × (pair_code_point (high_of cp) (low_of cp) ≡ cp)
unfolding is_high is_low high_of low_of
pair-units cp h k = (ground arith, ground arith, omega arith)

-- A scalar value is one unit, or a pair of a high and a low one, and is encoded alike.
encode_loop-code_units :
    (cp : ℕ) (rest : List ℕ)
    → IsScalar cp
    → encode_loop (code_units cp ++ rest) ≡ prepend (utf8 cp) (encode_loop rest)
encode_loop-code_units cp rest scalar = elim (dec_le cp 0xffff) [
  | yes small ↦
      rw (code_units_one cp small, ← append_code_point-utf8 cp scalar.unicode)
        (encode_loop_one cp rest (unfold is_high in ground arith) (unfold is_low in ground arith))
  | no large ↦
      let above : 0xffff < cp = omega arith in
      let (h, l, e) = pair-units cp above scalar.unicode in
      rw (code_units_two cp above scalar.unicode, ← append_code_point-utf8 cp scalar.unicode)
        (encode_loop_two (high_of cp) (low_of cp) rest h l
          ∙ ap (λ c. prepend (append_code_point c) (encode_loop rest)) e)
]

-- The UTF-16 units of any text are encoded as its UTF-8 bytes.
pub encode_loop-units_of :
    (cps : List ℕ) → All IsScalar cps → encode_loop (units_of cps) ≡ some (bytes_of cps)
encode_loop-units_of [] scalars = unfold encode_loop in refl
encode_loop-units_of (cp ∷ cps) scalars =
    rw (encode_loop-code_units cp (units_of cps) scalars.0, encode_loop-units_of cps scalars.1)

pub length-utf8 : (cp : ℕ) → 0 < length (utf8 cp)
length-utf8 cp = ground arith

decode_loop_step :
    (fuel : ℕ) (s : List ℕ) {cp : ℕ} {rest : List ℕ}
    → decode_point s ≡ some (cp, rest)
    → decode_loop (suc fuel) s ≡ prepend (code_units cp) (decode_loop fuel rest)
unfolding decode_loop
decode_loop_step fuel [] e = unfold decode_point in cc
decode_loop_step fuel (b ∷ bs) e = rw (e, decode_loop)

-- The UTF-8 bytes of any text are decoded as its UTF-16 units: fuel for each byte is enough.
pub decode_loop-bytes_of :
    (cps : List ℕ) (fuel : ℕ)
    → All IsScalar cps
    → length (bytes_of cps) ≤ fuel
    → decode_loop fuel (bytes_of cps) ≡ some (units_of cps)
decode_loop-bytes_of [] fuel scalars h = unfold decode_loop in refl
decode_loop-bytes_of (cp ∷ cps) zero scalars h =
    absurd (omega (arith, length-append (utf8 cp) (bytes_of cps), length-utf8 cp))
decode_loop-bytes_of (cp ∷ cps) (suc fuel) scalars h =
    decode_loop_step fuel (utf8 cp ++ bytes_of cps) (decode_point-utf8 cp (bytes_of cps) scalars.0)
    ∙ rw (
        decode_loop-bytes_of cps fuel scalars.1
          (omega (arith, length-append (utf8 cp) (bytes_of cps), length-utf8 cp)))

-- A text that stands behind some bytes, and behind some units.
abbrev pub TextOfBytes : List ℕ → Type 0
TextOfBytes s = (cps : List ℕ) × All IsScalar cps × (s ≡ bytes_of cps)

abbrev pub TextOfUnits : List ℕ → Type 0
TextOfUnits u = (cps : List ℕ) × All IsScalar cps × (u ≡ units_of cps)

prepend-inv :
    (front : List ℕ) (o : Option (List ℕ)) {s : List ℕ}
    → prepend front o ≡ some s
    → (t : List ℕ) × (o ≡ some t)
prepend-inv front none e = cc
prepend-inv front (some t) e = (t, refl)

pub decode_loop-TextOfBytes :
    (fuel : ℕ) (s : List ℕ) {u : List ℕ}
    → All IsByte s
    → decode_loop fuel s ≡ some u
    → TextOfBytes s
decode_loop-TextOfBytes fuel [] bytes e = ([], tt, refl)
decode_loop-TextOfBytes zero (b ∷ bs) bytes e = unfold decode_loop in cc
decode_loop-TextOfBytes (suc fuel) (b ∷ bs) bytes e = elim (Option-cases (decode_point (b ∷ bs))) [
  | inl bad ↦ unfold decode_loop in ground arith
  | inr ((cp, rest), read) ↦
      let (scalar, split, others) = decode_point-inv (b ∷ bs) cp rest bytes read in
      let (t, more) =
        prepend-inv (code_units cp) (decode_loop fuel rest)
          (sym (decode_loop_step fuel (b ∷ bs) read) ∙ e) in
      let (cps, scalars, later) = decode_loop-TextOfBytes fuel rest others more in
      (cp ∷ cps, (scalar, scalars), split ∙ ap (◌++◌ (utf8 cp)) later)
]

single-units :
    (u : ℕ)
    → IsUnit16 u
    → is_high u ≡ false
    → is_low u ≡ false
    → IsScalar u × (code_units u ≡ u ∷ [])
unfolding is_high is_low
single-units u unit h l =
    (record { unicode = omega arith; no_surrogate = ground arith }, code_units_one u (omega arith))

double-units :
    (u low : ℕ)
    → is_high u ≡ true
    → (ltb low 0xdc00 || ltb 0xdfff low) ≡ false
    → IsScalar (pair_code_point u low) × (code_units (pair_code_point u low) ≡ u ∷ low ∷ [])
unfolding is_high high_of low_of
double-units u low h l =
    let cp = pair_code_point u low in
    let above : 0xffff < cp = ground arith in
    let below : cp ≤ 0x10ffff = ground arith in
    let high : high_of cp ≡ u = ground arith in
    let low_back : low_of cp ≡ low = ground arith in
    (
      record { unicode = below; no_surrogate = inr (omega arith) },
      code_units_two cp above below ∙ ap₂ (λ x y. x ∷ y ∷ []) high low_back,
    )

text-cons :
    (cp : ℕ) (front rest : List ℕ)
    → IsScalar cp
    → code_units cp ≡ front
    → TextOfUnits rest
    → TextOfUnits (front ++ rest)
text-cons cp front rest scalar e (cps, scalars, later) =
    (cp ∷ cps, (scalar, scalars), ap₂ ◌++◌ (sym e) later)

-- What the three branches of the loop say of an accepted source.
pub encode_loop-TextOfUnits :
    (u : List ℕ) {s : List ℕ} → All IsUnit16 u → encode_loop u ≡ some s → TextOfUnits u
encode_loop-TextOfUnits [] units e = ([], tt, refl)
encode_loop-TextOfUnits (u ∷ []) units e =
    let h : is_high u ≡ false = unfold encode_loop in ground arith in
    let l : is_low u ≡ false = unfold encode_loop in ground arith in
    let (scalar, one) = single-units u units.0 h l in
    text-cons u (u ∷ []) [] scalar one ([], tt, refl)
encode_loop-TextOfUnits (u ∷ low ∷ rest) {s} units e = elim (Bool-cases (is_high u)) [
  | inl h ↦
      let l : (ltb low 0xdc00 || ltb 0xdfff low) ≡ false = unfold encode_loop in ground arith in
      let pair : prepend (append_code_point (pair_code_point u low)) (encode_loop rest) ≡ some s =
        unfold encode_loop in ground arith in
      let (t, more) = prepend-inv _ (encode_loop rest) pair in
      let (scalar, two) = double-units u low h l in
      text-cons (pair_code_point u low) (u ∷ low ∷ []) rest scalar two
        (encode_loop-TextOfUnits rest units.1.1 more)
  | inr h ↦
      let l : is_low u ≡ false = unfold encode_loop in ground arith in
      let (t, more) =
        prepend-inv _ (encode_loop (low ∷ rest)) (sym (encode_loop_one u (low ∷ rest) h l) ∙ e) in
      let (scalar, one) = single-units u units.0 h l in
      text-cons u (u ∷ []) (low ∷ rest) scalar one
        (encode_loop-TextOfUnits (low ∷ rest) units.1 more)
]
