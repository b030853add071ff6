-- ===== src/Message/Throws.antt =====
-- The exceptions of `serialize`, src/desert_classes/MessageSerialization.h.
use rmw_desert.Prelude.{
  ◌<◌, ◌≡◌, refl, ◌⊎◌, inl, inr, ltb, List, [], ◌∷◌, ◌%◌, ◌^◌, arith, length, take, Bool-cases,
  ltb→lt,
}
use rmw_desert.Cbor.{Nanocbor}
use rmw_desert.Cbor.Tx.{TxStream, write_uint32}
use rmw_desert.Message.{Language, Layout, Members, Result, ◌>>=◌, Held, Memory}
use rmw_desert.Message.Fields.{Floats}
use rmw_desert.Message.Whole.{serialize_each, serialize_nested, serialize_field, serialize}

abbrev pub Some : {A : Type 0} → (A → Type 0) → List A → Type 0
Some P [] = ⊥
Some P (x ∷ xs) = P x ⊎ Some P xs

-- A sequence over its bound, or an element that cannot be written.
abbrev pub NestedBreaks : {M : Type 0} → (M → Type 0) → (layout : Layout) → Held M layout → Type 0
NestedBreaks P Layout.single m = P m
NestedBreaks P (Layout.fixed n) ms = Some P (take n ms)
NestedBreaks P (Layout.bounded n) ms = (n < length ms) ⊎ Some P ms
NestedBreaks P Layout.unbounded ms = Some P ms

abbrev pub Breaks : (F D : Type 0) (ms : Members) → Memory F D ms → Type 0
Breaks F D Members.end m = ⊥
Breaks F D (Members.scalar s layout ms) (v, m) = Breaks F D ms m
Breaks F D (Members.nested sub layout ms) (v, m) =
    NestedBreaks (Breaks F D sub) layout v ⊎ Breaks F D ms m
Breaks F D (Members.octet layout ms) (v, m) = Breaks F D ms m
Breaks F D (Members.unknown ms) m = Unit {0}

-- A call throws where `B` holds, and returns where it does not.
abbrev pub Verdict : Type 0 → Result TxStream → Type 0
Verdict B result =
    ((result ≡ Result.throws) × B) ⊎ ((t : TxStream) × (result ≡ Result.ok t) × (B → ⊥))

and_then :
    {B C : Type 0} (result : Result TxStream) (next : TxStream → Result TxStream)
    → Verdict B result
    → ((t : TxStream) → Verdict C (next t))
    → Verdict (B ⊎ C) (result >>= next)
and_then result next (inl (e, b)) later = inl (rw e, inl b)
and_then result next (inr (t, e, safe)) later = elim (later t) [
  | inl (f, c) ↦ inl (rw e f, inr c)
  | inr (t', f, sound) ↦ inr (t', rw e f, λ x. elim x [ inl b ↦ safe b | inr c ↦ sound c ])
]

or_else :
    {B C : Type 0} {result : Result TxStream} → (B → ⊥) → Verdict C result → Verdict (B ⊎ C) result
or_else safe (inl (e, c)) = inl (e, inr c)
or_else safe (inr (t, e, sound)) = inr (t, e, λ x. elim x [ inl b ↦ safe b | inr c ↦ sound c ])

serialize_each-Verdict :
    {M : Type 0} {B : M → Type 0} (write : M → TxStream → Result TxStream)
    → ((m : M) (t : TxStream) → Verdict (B m) (write m t))
    → (ms : List M) (t : TxStream) → Verdict (Some B ms) (serialize_each write ms t)
unfolding serialize_each
serialize_each-Verdict write one [] t = inr (t, refl, λ x. x)
serialize_each-Verdict write one (m ∷ ms) t =
    and_then (write m t) (λ t'. serialize_each write ms t') (one m t)
      (serialize_each-Verdict write one ms)

serialize_nested-Verdict :
    {F M : Type 0} {B : M → Type 0} (c : Nanocbor F) (write : M → TxStream → Result TxStream)
    → ((m : M) (t : TxStream) → Verdict (B m) (write m t))
    → (layout : Layout) (v : Held M layout) (t : TxStream)
    → Verdict (NestedBreaks B layout v) (serialize_nested c write layout v t)
unfolding serialize_nested
serialize_nested-Verdict c write one Layout.single m t = one m t
serialize_nested-Verdict c write one (Layout.fixed n) ms t =
    serialize_each-Verdict write one (take n ms) t
serialize_nested-Verdict c write one (Layout.bounded n) ms t =
    elim (Bool-cases (ltb n (length ms))) [
      | inl over ↦ inl (rw over, inl (ltb→lt n (length ms) over))
      | inr within ↦ rw within (
          or_else (λ above. absurd (ground (arith, within, above)))
            (serialize_each-Verdict write one ms (write_uint32 c (length ms % 2 ^ 32) t)))
    ]
serialize_nested-Verdict c write one Layout.unbounded ms t =
    serialize_each-Verdict write one ms (write_uint32 c (length ms % 2 ^ 32) t)

-- `serialize` throws exactly where a member has a type that is not known or a bounded sequence of
-- messages has more elements than its bound, at any depth; else it returns. Nothing else is an error:
-- an octet, a text or a sequence of elementary values over its bound is none.
pub serialize_throws :
    {F D : Type 0} (floats : Floats F D) (c : Nanocbor F) (lang : Language) (ms : Members)
    (m : Memory F D ms) (t : TxStream)
    → Verdict (Breaks F D ms m) (serialize floats c lang ms m t)
unfolding serialize
serialize_throws floats c lang Members.end m t = inr (t, refl, λ x. x)
serialize_throws floats c lang (Members.scalar s layout ms) (v, m) t =
    serialize_throws floats c lang ms m (serialize_field floats c lang s layout v t)
serialize_throws floats c lang (Members.nested sub layout ms) (v, m) t =
    and_then (serialize_nested c (serialize floats c lang sub) layout v t)
      (λ t'. serialize floats c lang ms m t')
      (serialize_nested-Verdict c (serialize floats c lang sub) (serialize_throws floats c lang sub)
        layout v t)
      (serialize_throws floats c lang ms m)
serialize_throws floats c lang (Members.octet layout ms) (v, m) t =
    serialize_throws floats c lang ms m t
serialize_throws floats c lang (Members.unknown ms) m t = inl (refl, tt)
