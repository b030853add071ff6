-- ===== src/Discovery/Text.antt =====
-- Texts and identifiers as src/desert_classes/Discovery.cpp and demangle.cpp handle them.
use rmw_desert.Prelude.{
  ℕ, zero, suc, ◌+◌, ◌/◌, ◌%◌, Bool, true, false, ◌&&◌, List, [], ◌∷◌, ltb, ◌==◌, if◌then◌else◌,
}
use rmw_desert.Prelude.Int.{ℤ, pos, negsuc}

-- Equality of names and of identifiers.
unfoldable pub equal : List ℕ → List ℕ → Bool
equal [] [] = true
equal [] (y ∷ ys) = false
equal (x ∷ xs) [] = false
equal (x ∷ xs) (y ∷ ys) = x == y && equal xs ys

-- `std::to_string` of an `int`, and the `%d` of `sprintf`: at most ten digits.
unfoldable pub digits : ℕ → ℕ → List ℕ → List ℕ
digits zero n text = text
digits (suc places) n text =
    let more = digits places (n / 10) ((48 + n % 10) ∷ text) in
    if ltb n 10 then (48 + n) ∷ text else more

unfoldable pub to_string : ℤ → List ℕ
to_string (pos n) = digits 10 n []
to_string (negsuc n) = 45 ∷ digits 10 (n + 1) []
