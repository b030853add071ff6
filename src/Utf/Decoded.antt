-- ===== src/Utf/Decoded.antt =====
-- What src/desert_classes/NanoCBorStream.cpp accepts as the UTF-8 bytes of one code point.
use rmw_desert.Prelude.{
  ℕ, suc, ◌+◌, ◌*◌, ◌/◌, ◌%◌, ◌^◌, ◌≤◌, ◌<◌, ◌≡◌, refl, sym, subst, ◌∙◌, ◌⊎◌, inl, inr, Option,
  some, none, List, [], ◌∷◌, ◌++◌, arith, ◌==◌, if◌then◌else◌, Option-cases, All,
}
use rmw_desert.Prelude.Bits.{bit_and-7, bit_and-15, bit_and-31}
use rmw_desert.Utf.{lead, Lead, continuation, check_point, decode_point}
use rmw_desert.Utf.Point.{IsScalar, utf8, continuation-suc}

abbrev pub IsByte : ℕ → Type 0
IsByte b = b < 256

-- What an accepted leading byte is.
abbrev LeadCases : ℕ → Lead → Type 0
LeadCases b l =
    ((b ≤ 0x7f) × (l ≡ record { cp = b; minimum = 0; continuation_count = 0 }))
    ⊎ ((0xc2 ≤ b)
        × (b ≤ 0xdf)
        × (l ≡ record { cp = b % 32; minimum = 0x80; continuation_count = 1 }))
    ⊎ ((0xe0 ≤ b)
        × (b ≤ 0xef)
        × (l ≡ record { cp = b % 16; minimum = 0x800; continuation_count = 2 }))
    ⊎ ((0xf0 ≤ b)
        × (b ≤ 0xf4)
        × (l ≡ record { cp = b % 8; minimum = 0x10000; continuation_count = 3 }))

lead_cases : (b : ℕ) (l : Lead) → lead b ≡ some l → LeadCases b l
unfolding lead
lead_cases b l e = ground (arith, bit_and-31 b, bit_and-15 b, bit_and-7 b)

-- An accepted continuation byte is in front of the others.
continuation-inv :
    (j cp : ℕ) (source : List ℕ) {p : ℕ × List ℕ}
    → cp < 2 ^ 26
    → All IsByte source
    → continuation (suc j) cp source ≡ some p
    → (b : ℕ) × (rest : List ℕ) × (source ≡ b ∷ rest)
      × (b / 64 ≡ 2)
      × All IsByte rest
      × (continuation j (cp * 64 + b % 64) rest ≡ some p)
continuation-inv j cp [] h bytes e = unfold continuation in cc
continuation-inv j cp (b ∷ source) {p} h bytes e =
    let e' : (if b / 64 == 2 then continuation j (cp * 64 + b % 64) source else none) ≡ some p =
      sym (continuation-suc j cp b source h bytes.0) ∙ e in
    (b, source, refl, ground arith, bytes.1, ground arith)

check_point-inv :
    (minimum : ℕ) (o : Option (ℕ × List ℕ)) (cp : ℕ) (rest : List ℕ)
    → check_point minimum o ≡ some (cp, rest)
    → (o ≡ some (cp, rest)) × (minimum ≤ cp) × IsScalar cp
unfolding check_point
check_point-inv minimum none cp rest e = cc
check_point-inv minimum (some (c, r)) cp rest e = ground arith

-- The last continuation byte.
continuation_done :
    (cp : ℕ) (source : List ℕ) {c : ℕ} {rest : List ℕ}
    → continuation 0 cp source ≡ some (c, rest)
    → (cp ≡ c) × (source ≡ rest)
unfolding continuation
continuation_done cp source e = ground arith

abbrev Decodes : ℕ → List ℕ → ℕ → List ℕ → Type 0
Decodes first source cp rest = (first ∷ source ≡ utf8 cp ++ rest) × All IsByte rest

module _ (first : ℕ) (source : List ℕ) (bytes : All IsByte source) (cp : ℕ) (rest : List ℕ) where
  Decodes-1 :
      first ≤ 0x7f → continuation 0 first source ≡ some (cp, rest) → Decodes first source cp rest
  Decodes-1 h e =
      let (c, s) = continuation_done first source e in (ground arith, subst (All IsByte) s bytes)

  Decodes-2 :
      0xc2 ≤ first
      → first ≤ 0xdf
      → continuation 1 (first % 32) source ≡ some (cp, rest)
      → Decodes first source cp rest
  Decodes-2 h k e =
      let (b, s, eb, tb, bs, e') = continuation-inv 0 (first % 32) source (omega arith) bytes e in
      let (c, r) = continuation_done _ s e' in (ground arith, subst (All IsByte) r bs)

  Decodes-3 :
      0xe0 ≤ first
      → first ≤ 0xef
      → 0x800 ≤ cp
      → continuation 2 (first % 16) source ≡ some (cp, rest)
      → Decodes first source cp rest
  Decodes-3 h k least e =
      let (b, s, eb, tb, bs, e') = continuation-inv 1 (first % 16) source (omega arith) bytes e in
      let (b', s', eb', tb', bs', e'') = continuation-inv 0 _ s (omega arith) bs e' in
      let (c, r) = continuation_done _ s' e'' in (ground arith, subst (All IsByte) r bs')

  Decodes-4 :
      0xf0 ≤ first
      → first ≤ 0xf4
      → 0x10000 ≤ cp
      → continuation 3 (first % 8) source ≡ some (cp, rest)
      → Decodes first source cp rest
  Decodes-4 h k least e =
      let (b, s, eb, tb, bs, e') = continuation-inv 2 (first % 8) source (omega arith) bytes e in
      let (b', s', eb', tb', bs', e'') = continuation-inv 1 _ s (omega arith) bs e' in
      let (b'', s'', eb'', tb'', bs'', e''') = continuation-inv 0 _ s' (omega arith) bs' e'' in
      let (c, r) = continuation_done _ s'' e''' in (ground arith, subst (All IsByte) r bs'')

abbrev Accepted : ℕ → List ℕ → List ℕ → Lead → Type 0
Accepted cp source rest l =
    (continuation l.continuation_count l.cp source ≡ some (cp, rest))
    × (l.minimum ≤ cp)
    × IsScalar cp

decode_point-Accepted :
    (first : ℕ) (source : List ℕ) (cp : ℕ) (rest : List ℕ)
    → decode_point (first ∷ source) ≡ some (cp, rest)
    → (l : Lead) × (lead first ≡ some l) × Accepted cp source rest l
decode_point-Accepted first source cp rest e = elim (Option-cases (lead first)) [
  | inl missing ↦ unfold decode_point in ground arith
  | inr (l, found) ↦ (
    l,
    found,
    check_point-inv l.minimum (continuation l.continuation_count l.cp source) cp rest
        (unfold decode_point in ground arith),
  )
]

module _ (first : ℕ) (source : List ℕ) (bytes : All IsByte source) (cp : ℕ) (rest : List ℕ) where
  Accepted-Decodes :
      (l : Lead) → LeadCases first l → Accepted cp source rest l → Decodes first source cp rest
  Accepted-Decodes l (inl (h, e)) a =
      Decodes-1 first source bytes cp rest h (subst (Accepted cp source rest) e a).0
  Accepted-Decodes l (inr (inl (h, k, e))) a =
      Decodes-2 first source bytes cp rest h k (subst (Accepted cp source rest) e a).0
  Accepted-Decodes l (inr (inr (inl (h, k, e)))) a =
      let (c, least, scalar) = subst (Accepted cp source rest) e a in
      Decodes-3 first source bytes cp rest h k least c
  Accepted-Decodes l (inr (inr (inr (h, k, e)))) a =
      let (c, least, scalar) = subst (Accepted cp source rest) e a in
      Decodes-4 first source bytes cp rest h k least c

-- Only the UTF-8 bytes of a scalar value are accepted: no overlong form and no surrogate.
pub decode_point-inv :
    (s : List ℕ) (cp : ℕ) (rest : List ℕ)
    → All IsByte s
    → decode_point s ≡ some (cp, rest)
    → IsScalar cp × (s ≡ utf8 cp ++ rest) × All IsByte rest
decode_point-inv [] cp rest bytes e = unfold decode_point in cc
decode_point-inv (first ∷ source) cp rest bytes e =
    let (l, found, a) = decode_point-Accepted first source cp rest e in
    let (split, others) =
      Accepted-Decodes first source bytes.1 cp rest l (lead_cases first l found) a in
    (a.2, split, others)
