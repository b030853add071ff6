-- ===== src/Node/Handles/Tracked.antt =====
-- The pointers that src/desert_classes/DesertNode.cpp keeps, and the objects that src/rmw.cpp creates and
-- deletes.
use mathlib.Core.List.{append-nil}
use rmw_desert.Prelude.{
  ℕ, ◌≡◌, ◌≢◌, ◌⊎◌, refl, sym, subst, true, false, List, [], ◌∷◌, ◌++◌, ◌==◌, if◌then◌else◌, inl,
  inr, arith, All, Bool-cases,
}
use rmw_desert.Topics.{TopicsConfig}
use rmw_desert.Node.{Endpoint, is_configured, erase}
use rmw_desert.Node.Registry.{Unused, All-append_one, All-erase}
use rmw_desert.Node.Handles.{is_reserved}

-- The list has the endpoint.
abbrev pub Listed : Endpoint → List Endpoint → Type 0
Listed e [] = ⊥
Listed e (x ∷ xs) = (x ≡ e) ⊎ Listed e xs

-- No two endpoints have the same address.
abbrev pub Distinct : List Endpoint → Type 0
Distinct [] = Unit
Distinct (e ∷ es) = Unused e.address es × Distinct es

abbrev pub Unreserved : List Endpoint → Type 0
Unreserved es = All (λ e. is_reserved e.name ≡ false) es

-- The endpoints whose topics have identifiers.
abbrev pub registered : TopicsConfig → List Endpoint → List Endpoint
registered config [] = []
registered config (e ∷ es) =
    let rest = registered config es in if is_configured config e.name then e ∷ rest else rest

-- The pointers of a node are those of the live objects whose topics have identifiers, the oldest first.
pub record Follows (config : TopicsConfig) (live kept : List Endpoint) : Type 0 where
  pub same : kept ≡ registered config live
  pub distinct : Distinct live
  pub unreserved : Unreserved live

Distinct-append :
    (es : List Endpoint) (e : Endpoint)
    → Distinct es
    → Unused e.address es
    → Distinct (es ++ e ∷ [])
Distinct-append [] e h fresh = (tt, tt)
Distinct-append (x ∷ es) e h fresh = (
  All-append_one (λ y. y.address ≢ x.address) es e h.0 (λ q. fresh.0 (sym q)),
  Distinct-append es e h.1 fresh.1,
)

Distinct-erase : (address : ℕ) (es : List Endpoint) → Distinct es → Distinct (erase address es)
unfolding erase
Distinct-erase address [] h = h
Distinct-erase address (e ∷ es) h = elim (Bool-cases (e.address == address)) [
  | inl hit ↦ rw hit h.1
  | inr other ↦
      rw other
        (All-erase (λ y. y.address ≢ e.address) address es h.0, Distinct-erase address es h.1)
]

-- An endpoint of the rest does not have the address of the first.
other_address :
    (x e : Endpoint) (es : List Endpoint)
    → Unused x.address es
    → Listed e es
    → (x.address == e.address) ≡ false
other_address x e [] h listed = absurd listed
other_address x e (y ∷ es) h (inl q) =
    let differ : e.address ≢ x.address = subst (λ z. z.address ≢ x.address) q h.0 in ground arith
other_address x e (y ∷ es) h (inr listed) = other_address x e es h.1 listed

module _ (config : TopicsConfig) where
  registered-append :
      (es : List Endpoint) (e : Endpoint)
      → registered config (es ++ e ∷ []) ≡ registered config es ++ registered config (e ∷ [])
  registered-append [] e = refl
  registered-append (x ∷ es) e = elim (Bool-cases (is_configured config x.name)) [
    | inl ok ↦ rw (ok, registered-append es e) refl
    | inr off ↦ rw (off, registered-append es e) refl
  ]

  -- An endpoint whose topic has an identifier is erased from both lists.
  registered-erase :
      (es : List Endpoint) (e : Endpoint)
      → Distinct es
      → Listed e es
      → is_configured config e.name ≡ true
      → registered config (erase e.address es) ≡ erase e.address (registered config es)
  unfolding erase
  registered-erase [] e h listed ok = absurd listed
  registered-erase (x ∷ es) e h (inl q) ok =
      let hit : (x.address == e.address) ≡ true = ground arith in
      let on : is_configured config x.name ≡ true =
        subst (λ z. is_configured config z.name ≡ true) (sym q) ok in
      rw (hit, on, hit) refl
  registered-erase (x ∷ es) e h (inr listed) ok =
      let other = other_address x e es h.0 listed in
      elim (Bool-cases (is_configured config x.name)) [
        | inl on ↦ rw (other, on, other, registered-erase es e h.1 listed ok) refl
        | inr off ↦ rw (other, off, registered-erase es e h.1 listed ok) refl
      ]

  -- One whose topic has none is erased from the live ones only.
  registered-erase_off :
      (es : List Endpoint) (e : Endpoint)
      → Distinct es
      → Listed e es
      → is_configured config e.name ≡ false
      → registered config (erase e.address es) ≡ registered config es
  unfolding erase
  registered-erase_off [] e h listed off = absurd listed
  registered-erase_off (x ∷ es) e h (inl q) off =
      let hit : (x.address == e.address) ≡ true = ground arith in
      let off' : is_configured config x.name ≡ false =
        subst (λ z. is_configured config z.name ≡ false) (sym q) off in
      rw (hit, off') refl
  registered-erase_off (x ∷ es) e h (inr listed) off =
      rw (other_address x e es h.0 listed, registered-erase_off es e h.1 listed off) refl

  pub Follows-append :
      (live kept : List Endpoint) (e : Endpoint)
      → Unused e.address live
      → is_reserved e.name ≡ false
      → is_configured config e.name ≡ true
      → Follows config live kept
      → Follows config (live ++ e ∷ []) (kept ++ e ∷ [])
  Follows-append live kept e fresh free ok h = record {
    same = rw (registered-append live e, ok, h.same) refl;
    distinct = Distinct-append live e h.distinct fresh;
    unreserved = All-append_one (λ x. is_reserved x.name ≡ false) live e h.unreserved free;
  }

  pub Follows-append_off :
      (live kept : List Endpoint) (e : Endpoint)
      → Unused e.address live
      → is_reserved e.name ≡ false
      → is_configured config e.name ≡ false
      → Follows config live kept
      → Follows config (live ++ e ∷ []) kept
  Follows-append_off live kept e fresh free off h = record {
    same = rw (registered-append live e, off, append-nil (registered config live)) h.same;
    distinct = Distinct-append live e h.distinct fresh;
    unreserved = All-append_one (λ x. is_reserved x.name ≡ false) live e h.unreserved free;
  }

  pub Follows-erase :
      (live kept : List Endpoint) (e : Endpoint)
      → Listed e live
      → is_configured config e.name ≡ true
      → Follows config live kept
      → Follows config (erase e.address live) (erase e.address kept)
  Follows-erase live kept e listed ok h = record {
    same = rw (registered-erase live e h.distinct listed ok, h.same) refl;
    distinct = Distinct-erase e.address live h.distinct;
    unreserved = All-erase (λ x. is_reserved x.name ≡ false) e.address live h.unreserved;
  }

  pub Follows-erase_off :
      (live kept : List Endpoint) (e : Endpoint)
      → Listed e live
      → is_configured config e.name ≡ false
      → Follows config live kept
      → Follows config (erase e.address live) kept
  Follows-erase_off live kept e listed off h = record {
    same = rw (registered-erase_off live e h.distinct listed off) h.same;
    distinct = Distinct-erase e.address live h.distinct;
    unreserved = All-erase (λ x. is_reserved x.name ≡ false) e.address live h.unreserved;
  }
