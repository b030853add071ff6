-- ===== src/Security/Nonce.antt =====
-- The nonces of src/desert_classes/security/SecurityLayer.cpp.
use rmw_desert.Prelude.{
  ℕ, zero, suc, ◌-◌, ◌/◌, ◌%◌, ◌^◌, ◌≤◌, ◌≡◌, ◌↔◌, refl, List, ◌∷◌, ◌++◌, arith, take, drop,
}
use rmw_desert.Security.{Suite, SecurityLayer, generate_nonce, min_of, htonl}

same_one : (a b : ℕ) (rest : List ℕ) → (a % 256 ∷ rest ≡ b % 256 ∷ rest) ↔ (a % 256 ≡ b % 256)
same_one a b rest = ((λ e. cc), (λ e. cc))

same_two :
    (a b : ℕ) (rest : List ℕ)
    → (a / 2 ^ 8 % 256 ∷ a % 256 ∷ rest ≡ b / 2 ^ 8 % 256 ∷ b % 256 ∷ rest)
      ↔ (a % 2 ^ 16 ≡ b % 2 ^ 16)
same_two a b rest = (
  (λ e.
      let high : a / 2 ^ 8 % 256 ≡ b / 2 ^ 8 % 256 = cc in
      let low : a % 256 ≡ b % 256 = cc in omega arith),
  (λ e.
      let high : a / 2 ^ 8 % 256 ≡ b / 2 ^ 8 % 256 = omega arith in
      let low : a % 256 ≡ b % 256 = omega arith in cc),
)

same_three :
    (a b : ℕ) (rest : List ℕ)
    → (a / 2 ^ 16 % 256 ∷ a / 2 ^ 8 % 256 ∷ a % 256 ∷ rest
        ≡ b / 2 ^ 16 % 256 ∷ b / 2 ^ 8 % 256 ∷ b % 256 ∷ rest)
      ↔ (a % 2 ^ 24 ≡ b % 2 ^ 24)
same_three a b rest = (
  (λ e.
      let second : a / 2 ^ 16 % 256 ≡ b / 2 ^ 16 % 256 = cc in
      let high : a / 2 ^ 8 % 256 ≡ b / 2 ^ 8 % 256 = cc in
      let low : a % 256 ≡ b % 256 = cc in omega arith),
  (λ e.
      let second : a / 2 ^ 16 % 256 ≡ b / 2 ^ 16 % 256 = omega arith in
      let high : a / 2 ^ 8 % 256 ≡ b / 2 ^ 8 % 256 = omega arith in
      let low : a % 256 ≡ b % 256 = omega arith in cc),
)

same_four :
    (a b : ℕ) (rest : List ℕ) → (htonl a ++ rest ≡ htonl b ++ rest) ↔ (a % 2 ^ 32 ≡ b % 2 ^ 32)
unfolding htonl
same_four a b rest = (
  (λ e.
      let first : a / 2 ^ 24 % 256 ≡ b / 2 ^ 24 % 256 = cc in
      let second : a / 2 ^ 16 % 256 ≡ b / 2 ^ 16 % 256 = cc in
      let high : a / 2 ^ 8 % 256 ≡ b / 2 ^ 8 % 256 = cc in
      let low : a % 256 ≡ b % 256 = cc in omega arith),
  (λ e.
      let first : a / 2 ^ 24 % 256 ≡ b / 2 ^ 24 % 256 = omega arith in
      let second : a / 2 ^ 16 % 256 ≡ b / 2 ^ 16 % 256 = omega arith in
      let high : a / 2 ^ 8 % 256 ≡ b / 2 ^ 8 % 256 = omega arith in
      let low : a % 256 ≡ b % 256 = omega arith in cc),
)

same_bytes :
    (p a b : ℕ) (rest : List ℕ)
    → p ≤ 4
    → (take (min_of 4 p) (drop (4 - min_of 4 p) (htonl a)) ++ drop (min_of 4 p) rest
        ≡ take (min_of 4 p) (drop (4 - min_of 4 p) (htonl b)) ++ drop (min_of 4 p) rest)
      ↔ (a % 256 ^ p ≡ b % 256 ^ p)
unfolding min_of htonl
same_bytes zero a b rest h = ((λ e. omega arith), (λ e. refl))
same_bytes (suc zero) a b rest h = same_one a b (drop 1 rest)
same_bytes (suc (suc zero)) a b rest h = same_two a b (drop 2 rest)
same_bytes (suc (suc (suc zero))) a b rest h = same_three a b (drop 3 rest)
same_bytes (suc (suc (suc (suc zero)))) a b rest h = same_four a b (drop 4 rest)
same_bytes (suc (suc (suc (suc (suc p))))) a b rest h = absurd (omega arith)

-- Two partial IVs of the same layer are the same exactly where the sequence numbers agree in the bytes
-- that are written, which are as many as the partial IV has: so no partial IV repeats within 256^n
-- messages, where n is its size. Condition: the partial IV has four bytes at most.
pub generate_nonce_repeats :
    (s : Suite) (layer : SecurityLayer) (a b : ℕ)
    → s.piv_size ≤ 4
    → ((generate_nonce s (record layer { sender_seq_number = a })).piv_bytes
        ≡ (generate_nonce s (record layer { sender_seq_number = b })).piv_bytes)
      ↔ (a % 256 ^ s.piv_size ≡ b % 256 ^ s.piv_size)
unfolding generate_nonce
generate_nonce_repeats s layer a b small = same_bytes s.piv_size a b layer.piv_bytes small
