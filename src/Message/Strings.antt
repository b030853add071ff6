-- ===== src/Message/Strings.antt =====
-- src/desert_classes/CStringHelper.cpp: the texts of C messages. `data` is the memory behind the
-- pointer of a `rosidl_runtime_c__String` or `…U16String`, of which the code reads the part up to the
-- first zero. The allocations of `…__assign` and `…__init` are taken to succeed.
use rmw_desert.Prelude.{
  ℕ, Option, some, none, List, [], ◌∷◌, ◌++◌, map, ◌==◌, if◌then◌else◌, take, drop, length, ltb,
}

-- `std::string(data)` and `std::u16string(data)`, and the text that `…__assign` copies from `c_str()`.
unfoldable pub convert_to_std_string : List ℕ → List ℕ
convert_to_std_string [] = []
convert_to_std_string (x ∷ xs) = if x == 0 then [] else x ∷ convert_to_std_string xs

unfoldable pub convert_to_std_vector_string : List (List ℕ) → ℕ → List (List ℕ)
convert_to_std_vector_string str_array size = map convert_to_std_string (take size str_array)

unfoldable pub convert_sequence_to_std_vector_string : List (List ℕ) → List (List ℕ)
convert_sequence_to_std_vector_string str_seq = map convert_to_std_string str_seq

unfoldable pub convert_to_std_u16string : List ℕ → List ℕ
convert_to_std_u16string [] = []
convert_to_std_u16string (x ∷ xs) = if x == 0 then [] else x ∷ convert_to_std_u16string xs

unfoldable pub convert_to_std_vector_u16string : List (List ℕ) → ℕ → List (List ℕ)
convert_to_std_vector_u16string str_array size = map convert_to_std_u16string (take size str_array)

unfoldable pub convert_sequence_to_std_vector_u16string : List (List ℕ) → List (List ℕ)
convert_sequence_to_std_vector_u16string str_seq = map convert_to_std_u16string str_seq

-- The assignments give what the field holds afterwards.
unfoldable pub assign_string : List ℕ → List ℕ
assign_string str = convert_to_std_string str

-- `none` is a read behind the end of the vector.
unfoldable pub assign_vector_string : List (List ℕ) → List (List ℕ) → ℕ → Option (List (List ℕ))
assign_vector_string cpp_string_vector str_array size =
    if ltb (length cpp_string_vector) size
    then none
    else some (map assign_string (take size cpp_string_vector) ++ drop size str_array)

unfoldable pub assign_vector_string_to_sequence : List (List ℕ) → List (List ℕ)
assign_vector_string_to_sequence cpp_string_vector = map assign_string cpp_string_vector

unfoldable pub assign_u16string : List ℕ → List ℕ
assign_u16string str = convert_to_std_u16string str

unfoldable pub assign_vector_u16string : List (List ℕ) → List (List ℕ) → ℕ → Option (List (List ℕ))
assign_vector_u16string cpp_string_vector str_array size =
    if ltb (length cpp_string_vector) size
    then none
    else some (map assign_u16string (take size cpp_string_vector) ++ drop size str_array)

unfoldable pub assign_vector_u16string_to_sequence : List (List ℕ) → List (List ℕ)
assign_vector_u16string_to_sequence cpp_string_vector = map assign_u16string cpp_string_vector
