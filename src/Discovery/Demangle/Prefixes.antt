-- ===== src/Discovery/Demangle/Prefixes.antt =====
-- The names that src/desert_classes/Discovery.cpp registers, against src/desert_classes/demangle.cpp.
use rmw_desert.Prelude.{
  ℕ, zero, suc, ◌+◌, ◌/◌, ◌%◌, ◌≤◌, ◌<◌, ◌≡◌, ◌≢◌, refl, ◌||◌, inl, inr, ◌⊎◌, List, [], ◌∷◌, ◌++◌,
  arith, ltb, ◌==◌, if◌then◌else◌, Bool-cases, ltb→lt, lt→ltb, false,
}
use rmw_desert.Prelude.Int.{ℤ, pos, negsuc}
use rmw_desert.Cbor.Rx.{same}
use rmw_desert.Cbor.Interpret.{publisher_type, subscriber_type, client_type, service_type}
use rmw_desert.Message.{Result, ◌>>=◌}
use rmw_desert.Discovery.Text.{digits, to_string}
use rmw_desert.Discovery.Demangle.{
  starts_with, resolve_prefix, or_else, demangle_publisher_from_topic,
  demangle_subscriber_from_topic, demangle_topic, demangle_service_request_from_topic,
  demangle_service_reply_from_topic, demangle_service_from_topic,
}

-- A text of one digit, or one whose second character is no slash.
abbrev Starts : List ℕ → Type 0
Starts text = (a : ℕ) × (t : List ℕ) × (text ≡ a ∷ t) × (48 ≤ a)

abbrev IsLong : List ℕ → Type 0
IsLong text = (a : ℕ) × (b : ℕ) × (t : List ℕ) × (text ≡ a ∷ b ∷ t) × (48 ≤ b)

digits-Starts : (places n : ℕ) (text : List ℕ) → Starts (digits (suc places) n text)
unfolding digits
digits-Starts zero n text = elim (Bool-cases (ltb n 10)) [
  | inl small ↦ (48 + n, text, rw small, omega arith)
  | inr large ↦ (48 + n % 10, text, rw large, omega arith)
]
digits-Starts (suc p) n text = elim (Bool-cases (ltb n 10)) [
  | inl small ↦ (48 + n, text, rw small, omega arith)
  | inr large ↦ rw large (digits-Starts p (n / 10) ((48 + n % 10) ∷ text))
]

digits-IsLong :
    (places n c : ℕ) (text : List ℕ) → 48 ≤ c → IsLong (digits (suc places) n (c ∷ text))
unfolding digits
digits-IsLong zero n c text h = elim (Bool-cases (ltb n 10)) [
  | inl small ↦ (48 + n, c, text, rw small, h)
  | inr large ↦ (48 + n % 10, c, text, rw large, h)
]
digits-IsLong (suc p) n c text h = elim (Bool-cases (ltb n 10)) [
  | inl small ↦ (48 + n, c, text, rw small, h)
  | inr large ↦ rw large (digits-IsLong p (n / 10) (48 + n % 10) (c ∷ text) (omega arith))
]

-- The types that have one digit, and the others.
abbrev IsDigit : ℤ → ℕ → Type 0
IsDigit z n = (z ≡ pos n) × (n < 10) × (to_string z ≡ (48 + n) ∷ [])

to_string-cases :
    (z : ℤ)
    → ((n : ℕ) × IsDigit z n) ⊎ (IsLong (to_string z) × ((k : ℕ) → k < 10 → same z (pos k) ≡ false))
unfolding to_string digits same
to_string-cases (pos n) = elim (Bool-cases (ltb n 10)) [
  | inl small ↦ inl (n, (refl, ltb→lt n 10 small, rw small))
  | inr large ↦
      inr (rw large (digits-IsLong 8 (n / 10) (48 + n % 10) [] (omega arith)), λ k h. ground arith)
]
to_string-cases (negsuc n) =
    let (b, t, e, h) = digits-Starts 9 (n + 1) [] in inr ((45, b, t, rw e, h), λ k h. refl)

one_digit : (n : ℕ) → n < 10 → to_string (pos n) ≡ (48 + n) ∷ []
unfolding to_string digits
one_digit n h = rw (lt→ltb n 10 h)

-- The name behind the slash of its entity.
abbrev pub found : List ℕ → Result (List ℕ)
found [] = Result.throws
found (c ∷ rest) = Result.ok (if c == b'/' then c ∷ rest else [])

resolve_prefix-digit :
    (n d : ℕ) (topic : List ℕ)
    → resolve_prefix ((48 + n) ∷ topic) ((48 + d) ∷ [])
      ≡ (if n == d then found topic else Result.ok [])
unfolding resolve_prefix starts_with
resolve_prefix-digit n d [] = ground arith
resolve_prefix-digit n d (c ∷ rest) = ground arith

resolve_prefix-long :
    (a b d : ℕ) (rest : List ℕ) → 48 ≤ b → resolve_prefix (a ∷ b ∷ rest) (d ∷ []) ≡ Result.ok []
unfolding resolve_prefix starts_with
resolve_prefix-long a b d rest h = ground arith

-- The two demangle functions of a pair of types.
demangled-long :
    (z : ℤ) (d e : ℕ) (topic : List ℕ)
    → IsLong (to_string z)
    → (resolve_prefix (to_string z ++ topic) ((48 + d) ∷ [])
        >>= (λ name. or_else name (resolve_prefix (to_string z ++ topic) ((48 + e) ∷ []))))
      ≡ Result.ok []
unfolding or_else
demangled-long z d e topic (a, b, t, e', h) = rw (
  e',
  resolve_prefix-long a b (48 + d) (t ++ topic) h,
  resolve_prefix-long a b (48 + e) (t ++ topic) h,
)

demangled-digit :
    (n d e : ℕ) (topic : List ℕ)
    → d ≢ e
    → (resolve_prefix ((48 + n) ∷ topic) ((48 + d) ∷ [])
        >>= (λ name. or_else name (resolve_prefix ((48 + n) ∷ topic) ((48 + e) ∷ []))))
      ≡ (if n == d || n == e then found topic else Result.ok [])
unfolding or_else
demangled-digit n d e [] other =
    rw (resolve_prefix-digit n d [], resolve_prefix-digit n e []) (ground arith)
demangled-digit n d e (c ∷ rest) other =
    rw (resolve_prefix-digit n d (c ∷ rest), resolve_prefix-digit n e (c ∷ rest)) (ground arith)

demangled :
    (z : ℤ) (d e : ℕ) (topic : List ℕ)
    → d < 10
    → e < 10
    → d ≢ e
    → (resolve_prefix (to_string z ++ topic) ((48 + d) ∷ [])
        >>= (λ name. or_else name (resolve_prefix (to_string z ++ topic) ((48 + e) ∷ []))))
      ≡ (if same z (pos d) || same z (pos e) then found topic else Result.ok [])
unfolding same
demangled z d e topic small small' other = elim (to_string-cases z) [
  | inl (n, (same_type, digit, text)) ↦ rw (text, same_type) (demangled-digit n d e topic other)
  | inr (long, others) ↦ rw (others d small, others e small') (demangled-long z d e topic long)
]

-- From the name under which the discovery thread registers an entity, `demangle_topic` finds the name
-- of its topic exactly for a publisher or a subscriber, and `demangle_service_from_topic` exactly for a
-- client or a service; for entities of any other type both find none, whatever the type. The name is
-- found where it has a slash in front; where it has none, nothing is found, and an empty name throws
-- an exception.
pub demangle-to_string :
    (entity_type : ℤ) (topic_name : List ℕ)
    → (demangle_topic (to_string entity_type ++ topic_name) ≡ (
        if same entity_type (pos publisher_type) || same entity_type (pos subscriber_type)
        then found topic_name
        else Result.ok []))
      × (demangle_service_from_topic (to_string entity_type ++ topic_name) ≡ (
          if same entity_type (pos service_type) || same entity_type (pos client_type)
          then found topic_name
          else Result.ok []))
unfolding demangle_topic demangle_publisher_from_topic demangle_subscriber_from_topic
    demangle_service_from_topic demangle_service_reply_from_topic
    demangle_service_request_from_topic
demangle-to_string entity_type topic_name = (
  rw (one_digit 0 (omega arith), one_digit 1 (omega arith))
      (demangled entity_type 0 1 topic_name (omega arith) (omega arith) (λ e. omega arith)),
  rw (one_digit 3 (omega arith), one_digit 2 (omega arith))
      (demangled entity_type 3 2 topic_name (omega arith) (omega arith) (λ e. omega arith)),
)
