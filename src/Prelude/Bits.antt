-- ===== src/Prelude/Bits.antt =====
-- Masks and disjoint bits of the native bit operations, as sums and remainders.
use Prim.Native.Nat.{
  ℕ, zero, suc, ◌+◌, ◌-◌, ◌*◌, ◌^◌, ◌/◌, ◌%◌, ◌≤◌, ◌<◌, min, max, bit_and, bit_or, digits, bitwise,
  bit_and-bitwise, bit_or-bitwise,
}
use mathlib.Core.Path.{◌≡◌, refl, sym, ap, ◌∙◌}
use native.Mathlib.Omega.{arith}
use native.Mathlib.Nat.{pow-suc}

-- The native operations recurse on binary digits with the first argument for fuel. What is left over
-- of it does not matter, so the two numbers can be halved together.
module _ (rest : ℕ → ℕ) (digit : ℕ → ℕ → ℕ) where
  spare_one :
      (fuel x y : ℕ) → x ≤ fuel → digits rest digit (suc fuel) x y ≡ digits rest digit fuel x y
  spare_one zero zero y enough = refl
  spare_one (suc fuel) zero y enough = refl
  spare_one zero (suc x) y enough = absurd (omega arith)
  spare_one (suc fuel) (suc x) y enough = rw (spare_one fuel (suc x / 2) (y / 2) (omega arith))

  spare : (k x y : ℕ) → digits rest digit (k + x) x y ≡ bitwise rest digit x y
  spare zero x y = let e : 0 + x ≡ x = omega arith in rw e
  spare (suc k) x y =
      let e : suc k + x ≡ suc (k + x) = omega arith in
      rw e (spare_one (k + x) x y (omega arith) ∙ spare k x y)

  halve :
      (x y : ℕ)
      → bitwise rest digit (suc x) y
        ≡ bitwise rest digit (suc x / 2) (y / 2) * 2 + digit (suc x % 2) (y % 2)
  halve x y =
      let left = x - suc x / 2 in
      let e : left + suc x / 2 ≡ x = omega arith in
      ap (λ fuel. digits rest digit fuel (suc x / 2) (y / 2) * 2 + digit (suc x % 2) (y % 2))
        (sym e)
      ∙ rw (spare left (suc x / 2) (y / 2))

halve_or : (x y : ℕ) → bit_or x y ≡ bit_or (x / 2) (y / 2) * 2 + max (x % 2) (y % 2)
halve_or zero y = simp bit_or-bitwise (omega arith)
halve_or (suc x) y = simp bit_or-bitwise (halve (λ n. n) max x y)

halve_and : (x y : ℕ) → bit_and x y ≡ bit_and (x / 2) (y / 2) * 2 + min (x % 2) (y % 2)
halve_and zero y = simp bit_and-bitwise (omega arith)
halve_and (suc x) y = simp bit_and-bitwise (halve (λ n. 0) min x y)

with_zero : (fuel x : ℕ) → x ≤ fuel → (bit_or x 0 ≡ x) × (bit_and x 0 ≡ 0)
with_zero fuel zero enough = (refl, refl)
with_zero zero (suc x) enough = absurd (omega arith)
with_zero (suc fuel) (suc x) enough =
    let (or, and) = with_zero fuel (suc x / 2) (omega arith) in
    (omega (arith, halve_or (suc x) 0, or), omega (arith, halve_and (suc x) 0, and))

bit_or-double : (y b : ℕ) → bit_or (y * 2) b ≡ bit_or y (b / 2) * 2 + b % 2
bit_or-double y b =
    let half : y * 2 / 2 ≡ y = omega arith in
    omega (arith, halve_or (y * 2) b, ap (λ h. bit_or h (b / 2)) half)

double : (a k : ℕ) → a * 2 ^ suc k ≡ a * 2 ^ k * 2
double a k = rw (pow-suc 2 k) (omega arith)

-- Where the bits are disjoint, `|` adds.
pub bit_or-add : (k a b : ℕ) → b < 2 ^ k → bit_or (a * 2 ^ k) b ≡ a * 2 ^ k + b
bit_or-add zero a b h =
    let e : b ≡ 0 = omega arith in
    rw e (omega (arith, (with_zero (a * 2 ^ 0) (a * 2 ^ 0) (omega arith)).0))
bit_or-add (suc k) a b h =
    let few : b / 2 < 2 ^ k = omega (arith, pow-suc 2 k) in
    rw (double a k) (omega (arith, bit_or-double (a * 2 ^ k) b, bit_or-add k a (b / 2) few))

bit_and-1 : (a : ℕ) → bit_and a 1 ≡ a % 2
bit_and-1 a = omega (arith, halve_and a 1, (with_zero (a / 2) (a / 2) (omega arith)).1)

bit_and-3 : (a : ℕ) → bit_and a 3 ≡ a % 4
bit_and-3 a = omega (arith, halve_and a 3, bit_and-1 (a / 2))

pub bit_and-7 : (a : ℕ) → bit_and a 7 ≡ a % 8
bit_and-7 a = omega (arith, halve_and a 7, bit_and-3 (a / 2))

pub bit_and-15 : (a : ℕ) → bit_and a 15 ≡ a % 16
bit_and-15 a = omega (arith, halve_and a 15, bit_and-7 (a / 2))

pub bit_and-31 : (a : ℕ) → bit_and a 31 ≡ a % 32
bit_and-31 a = omega (arith, halve_and a 31, bit_and-15 (a / 2))

pub bit_and-63 : (a : ℕ) → bit_and a 63 ≡ a % 64
bit_and-63 a = omega (arith, halve_and a 63, bit_and-31 (a / 2))

bit_and-127 : (a : ℕ) → bit_and a 127 ≡ a % 128
bit_and-127 a = omega (arith, halve_and a 127, bit_and-63 (a / 2))

pub bit_and-255 : (a : ℕ) → bit_and a 255 ≡ a % 256
bit_and-255 a = omega (arith, halve_and a 255, bit_and-127 (a / 2))

bit_and-511 : (a : ℕ) → bit_and a 511 ≡ a % 512
bit_and-511 a = omega (arith, halve_and a 511, bit_and-255 (a / 2))

pub bit_and-1023 : (a : ℕ) → bit_and a 1023 ≡ a % 1024
bit_and-1023 a = omega (arith, halve_and a 1023, bit_and-511 (a / 2))

bit_and-double : (a c : ℕ) → bit_and a (c * 2) ≡ bit_and (a / 2) c * 2
bit_and-double a c =
    let half : c * 2 / 2 ≡ c = omega arith in
    omega (arith, halve_and a (c * 2), ap (bit_and (a / 2)) half)

bit_and-12 : (a : ℕ) → bit_and a 12 ≡ a / 4 % 4 * 4
bit_and-12 a = omega (arith, bit_and-double a 6, bit_and-double (a / 2) 3, bit_and-3 (a / 2 / 2))

bit_and-48 : (a : ℕ) → bit_and a 48 ≡ a / 16 % 4 * 16
bit_and-48 a = omega (arith, bit_and-double a 24, bit_and-double (a / 2) 12, bit_and-12 (a / 2 / 2))

pub bit_and-192 : (b : ℕ) → b < 256 → bit_and b 192 ≡ b / 64 * 64
bit_and-192 b h =
    omega (arith, bit_and-double b 96, bit_and-double (b / 2) 48, bit_and-48 (b / 2 / 2))
