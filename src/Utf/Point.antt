-- ===== src/Utf/Point.antt =====
-- One code point of src/desert_classes/NanoCBorStream.cpp: its UTF-8 bytes by arithmetic, and that
-- they are read back.
use rmw_desert.Prelude.{
  ℕ, suc, ◌+◌, ◌*◌, ◌/◌, ◌%◌, ◌^◌, ◌≤◌, ◌<◌, ◌≡◌, refl, ◌⊎◌, inl, inr, some, none, List, [], ◌∷◌,
  ◌++◌, arith, bit_and, bit_or, leb, ◌==◌, if◌then◌else◌, length, Bool-cases,
}
use rmw_desert.Prelude.Bits.{bit_and-7, bit_and-15, bit_and-31, bit_and-63, bit_or-add, bit_and-192}
use rmw_desert.Utf.{append_code_point, lead, Lead, continuation, check_point, decode_point}

-- A Unicode scalar value.
pub record IsScalar (cp : ℕ) : Type 0 where
  pub unicode : cp ≤ 0x10ffff
  pub no_surrogate : (cp < 0xd800) ⊎ (0xdfff < cp)

abbrev tail_byte : ℕ → ℕ
tail_byte x = 0x80 + x % 64

-- UTF-8, by arithmetic.
abbrev pub utf8 : ℕ → List ℕ
utf8 cp =
    if leb cp 0x7f
    then cp ∷ []
    else if leb cp 0x7ff
    then (0xc0 + cp / 64) ∷ tail_byte cp ∷ []
    else if leb cp 0xffff
    then (0xe0 + cp / 4096) ∷ tail_byte (cp / 64) ∷ tail_byte cp ∷ []
    else (0xf0 + cp / 262144) ∷ tail_byte (cp / 4096) ∷ tail_byte (cp / 64) ∷ tail_byte cp ∷ []

or_80 : (x : ℕ) → bit_or 0x80 (bit_and x 0x3f) ≡ 0x80 + x % 64
or_80 x = rw (bit_and-63 x) (bit_or-add 6 2 (x % 64) (omega arith))

or_c0 : (x : ℕ) → x < 32 → bit_or 0xc0 x ≡ 0xc0 + x
or_c0 = bit_or-add 5 6

or_e0 : (x : ℕ) → x < 16 → bit_or 0xe0 x ≡ 0xe0 + x
or_e0 = bit_or-add 4 14

or_f0 : (x : ℕ) → x < 8 → bit_or 0xf0 x ≡ 0xf0 + x
or_f0 = bit_or-add 3 30

pub append_code_point-utf8 : (cp : ℕ) → cp ≤ 0x10ffff → append_code_point cp ≡ utf8 cp
unfolding append_code_point
append_code_point-utf8 cp h = ground (
  arith,
  or_80 cp,
  or_80 (cp / 2 ^ 6),
  or_80 (cp / 2 ^ 12),
  or_c0 (cp / 2 ^ 6),
  or_e0 (cp / 2 ^ 12),
  or_f0 (cp / 2 ^ 18),
)

or_low : (cp b : ℕ) → cp < 2 ^ 26 → bit_or (cp * 2 ^ 6 % 2 ^ 32) (bit_and b 0x3f) ≡ cp * 64 + b % 64
or_low cp b h =
    let whole : cp * 2 ^ 6 % 2 ^ 32 ≡ cp * 2 ^ 6 = omega arith in
    rw (whole, bit_and-63 b) (bit_or-add 6 cp (b % 64) (omega arith))

-- One continuation byte adds its six bits, and any other byte is refused.
pub continuation-suc :
    (j cp b : ℕ) (source : List ℕ)
    → cp < 2 ^ 26
    → b < 256
    → continuation (suc j) cp (b ∷ source)
      ≡ (if b / 64 == 2 then continuation j (cp * 64 + b % 64) source else none)
unfolding continuation
continuation-suc j cp b source h k = rw (or_low cp b h) (ground (arith, bit_and-192 b))

lead_1 : (x : ℕ) → x ≤ 0x7f → lead x ≡ some (record { cp = x; minimum = 0; continuation_count = 0 })
unfolding lead
lead_1 x h = ground arith

lead_2 :
    (x : ℕ)
    → 2 ≤ x
    → x < 32
    → lead (0xc0 + x) ≡ some (record { cp = x; minimum = 0x80; continuation_count = 1 })
unfolding lead
lead_2 x h k = ground (arith, bit_and-31 (0xc0 + x))

lead_3 :
    (x : ℕ)
    → x < 16
    → lead (0xe0 + x) ≡ some (record { cp = x; minimum = 0x800; continuation_count = 2 })
unfolding lead
lead_3 x h = ground (arith, bit_and-15 (0xe0 + x))

lead_4 :
    (x : ℕ)
    → x ≤ 4
    → lead (0xf0 + x) ≡ some (record { cp = x; minimum = 0x10000; continuation_count = 3 })
unfolding lead
lead_4 x h = ground (arith, bit_and-7 (0xf0 + x))

-- Reading the tail bytes of a code point.
tail-cons :
    (j cp x : ℕ) (source : List ℕ)
    → cp < 2 ^ 26
    → continuation (suc j) cp (tail_byte x ∷ source) ≡ continuation j (cp * 64 + x % 64) source
tail-cons j cp x source h =
    let two : (0x80 + x % 64) / 64 ≡ 2 = omega arith in
    let low : (0x80 + x % 64) % 64 ≡ x % 64 = omega arith in
    rw (continuation-suc j cp (tail_byte x) source h (omega arith), two, low)

joined : (cp : ℕ) → cp / 64 * 64 + cp % 64 ≡ cp
joined cp = omega arith

chain_1 :
    (cp : ℕ) (source : List ℕ)
    → cp ≤ 0x10ffff
    → continuation 1 (cp / 64) (tail_byte cp ∷ source) ≡ some (cp, source)
chain_1 cp source h =
    rw (tail-cons 0 (cp / 64) cp source (omega arith), joined cp) (unfold continuation in refl)

chain_2 :
    (cp : ℕ) (source : List ℕ)
    → cp ≤ 0x10ffff
    → continuation 2 (cp / 4096) (tail_byte (cp / 64) ∷ tail_byte cp ∷ source) ≡ some (cp, source)
chain_2 cp source h =
    let e : cp / 4096 * 64 + cp / 64 % 64 ≡ cp / 64 = omega arith in
    rw (tail-cons 1 (cp / 4096) (cp / 64) (tail_byte cp ∷ source) (omega arith), e)
      (chain_1 cp source h)

chain_3 :
    (cp : ℕ) (source : List ℕ)
    → cp ≤ 0x10ffff
    → continuation 3
        (cp / 262144)
        (tail_byte (cp / 4096) ∷ tail_byte (cp / 64) ∷ tail_byte cp ∷ source)
      ≡ some (cp, source)
chain_3 cp source h =
    let e : cp / 262144 * 64 + cp / 4096 % 64 ≡ cp / 4096 = omega arith in
    rw
      (
        tail-cons 2 (cp / 262144) (cp / 4096) (tail_byte (cp / 64) ∷ tail_byte cp ∷ source)
            (omega arith),
        e,
      )
      (chain_2 cp source h)

decode_point-lead :
    (first cp : ℕ) (source rest : List ℕ) (l : Lead)
    → lead first ≡ some l
    → l.continuation_count ≤ length source
    → continuation l.continuation_count l.cp source ≡ some (cp, rest)
    → l.minimum ≤ cp
    → IsScalar cp
    → decode_point (first ∷ source) ≡ some (cp, rest)
unfolding decode_point check_point
decode_point-lead first cp source rest l e enough c least scalar = ground arith

-- The bytes of a scalar value are read back, whatever follows them.
pub decode_point-utf8 :
    (cp : ℕ) (rest : List ℕ) → IsScalar cp → decode_point (utf8 cp ++ rest) ≡ some (cp, rest)
decode_point-utf8 cp rest scalar = elim (Bool-cases (leb cp 0x7f)) [
  | inl one ↦ rw one (
      decode_point-lead cp cp rest rest _ (lead_1 cp (ground arith)) (omega arith)
        (unfold continuation in refl) (omega arith) scalar)
  | inr more ↦ elim (Bool-cases (leb cp 0x7ff)) [
    | inl two ↦
        rw (more, two)
          (decode_point-lead (0xc0 + cp / 64) cp (tail_byte cp ∷ rest) rest _
            (lead_2 (cp / 64) (ground arith) (ground arith)) (omega arith)
            (chain_1 cp rest scalar.unicode) (ground arith) scalar)
    | inr more' ↦ elim (Bool-cases (leb cp 0xffff)) [
      | inl three ↦
          rw (more, more', three)
            (decode_point-lead (0xe0 + cp / 4096) cp (tail_byte (cp / 64) ∷ tail_byte cp ∷ rest)
              rest _ (lead_3 (cp / 4096) (ground arith)) (omega arith)
              (chain_2 cp rest scalar.unicode) (ground arith) scalar)
      | inr four ↦
          rw (more, more', four)
            (decode_point-lead (0xf0 + cp / 262144) cp
              (tail_byte (cp / 4096) ∷ tail_byte (cp / 64) ∷ tail_byte cp ∷ rest) rest _
              (lead_4 (cp / 262144) (omega (arith, scalar.unicode))) (omega arith)
              (chain_3 cp rest scalar.unicode) (ground arith) scalar)
    ]
  ]
]
