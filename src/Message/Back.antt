-- ===== src/Message/Back.antt =====
-- `deserialize_field` of src/desert_classes/MessageSerialization.h gives back what `serialize_field` wrote.
use mathlib.Core.List.{append-nil}
use rmw_desert.Prelude.{
  ℕ, zero, suc, ◌^◌, ◌<◌, ◌≡◌, refl, sym, subst, ◌∙◌, false, ltb, some, List, [], ◌∷◌, ◌++◌, map,
  arith, length, take, drop, replicate, length-replicate, All,
}
use rmw_desert.Cbor.Rx.{read_uint32}
use rmw_desert.Cbor.Interpret.Values.{Value}
use rmw_desert.Message.{Language, Scalar, Layout, Result, Held, ValueOf}
use rmw_desert.Message.Strings.{
  assign_string, assign_vector_string, assign_vector_string_to_sequence, assign_u16string,
  assign_vector_u16string, assign_vector_u16string_to_sequence,
}
use rmw_desert.Message.Fields.{
  Floats, read_each, read_scalar, blank, read_elements, read_vector, read_bool_elements,
  read_bool_vector, deserialize_cpp_field, read_c_sequence, finish, deserialize_c_generic,
  deserialize_c_string, deserialize_c_wstring, deserialize_c_field,
}
use rmw_desert.Message.Whole.{deserialize_field}
use rmw_desert.Message.Values.{
  value_of, plain_values, text_values, field_values, IsSized, Each, IsScalar, IsField, HasShape,
}
use rmw_desert.Message.Writes.{
  convert_to_std_string-Unbroken, convert_to_std_u16string-Unbroken, map-fixed, take-length,
}
use rmw_desert.Message.Reads.{
  Reads, Gives, scalar-Reads, size-Reads, read_each-Reads, Reads-Gives, Reads-then, Gives-none,
  Gives-map,
}

drop-length : {A : Type 0} (n : ℕ) (xs : List A) → length xs ≡ n → drop n xs ≡ []
drop-length zero [] h = refl
drop-length zero (x ∷ xs) h = absurd (omega arith)
drop-length (suc n) [] h = refl
drop-length (suc n) (x ∷ xs) h = drop-length n xs (omega arith)

-- An array of texts without zeros, assigned to an array of the same size.
assigned_texts :
    (P : List ℕ → Type 0) (assign : List ℕ → List ℕ)
    → ((v : List ℕ) → P v → assign v ≡ v)
    → (n : ℕ) (vs olds : List (List ℕ)) → length vs ≡ n
    → length olds ≡ n
    → All P vs
    → map assign (take n vs) ++ drop n olds ≡ vs
assigned_texts P assign same n vs olds size old_size h =
    rw (take-length n vs size, drop-length n olds old_size, map-fixed assign same vs h)
      (append-nil vs)

module _ {F D : Type 0} (floats : Floats F D) where
  -- The elements of a sequence, read into elements that have just been made.
  elements-Reads :
      (lang : Language) (s : Scalar) (vs olds : List (ValueOf F D s))
      → length olds ≡ length vs
      → All (IsScalar floats lang s) vs
      → Reads (map (value_of floats s) vs) (read_each (read_scalar floats s) (length vs) olds) vs
  elements-Reads lang s =
      read_each-Reads (read_scalar floats s) (value_of floats s) (scalar-Reads floats lang s)

  array-Gives :
      (lang : Language) (s : Scalar) (n : ℕ) (vs olds : List (ValueOf F D s))
      → length vs ≡ n
      → length olds ≡ n
      → All (IsScalar floats lang s) vs
      → Gives
          (map (value_of floats s) vs)
          (λ r. Result.ok (read_each (read_scalar floats s) n olds r))
          vs
  array-Gives lang s n vs olds size old_size h = rw (sym size) (
      Reads-Gives (map (value_of floats s) vs) (read_each (read_scalar floats s) (length vs) olds)
        vs (elements-Reads lang s vs olds (old_size ∙ sym size) h))

  made-Gives :
      (lang : Language) (s : Scalar) (vs : List (ValueOf F D s))
      → All (IsScalar floats lang s) vs
      → Gives
          (map (value_of floats s) vs)
          (λ r. Result.ok (
            read_each
              (read_scalar floats s)
              (length vs)
              (replicate (length vs) (blank floats s))
              r))
          vs
  made-Gives lang s vs h =
      array-Gives lang s (length vs) vs (replicate (length vs) (blank floats s)) refl
        (length-replicate (length vs) (blank floats s)) h

  pub read_vector-Gives :
      (lang : Language) (s : Scalar) (vs : List (ValueOf F D s))
      → length vs < 2 ^ 32
      → All (IsScalar floats lang s) vs
      → Gives (Value.uint32 (length vs) ∷ map (value_of floats s) vs) (read_vector floats s) vs
  unfolding read_vector read_elements
  read_vector-Gives lang s vs small h =
      Reads-then (Value.uint32 (length vs) ∷ []) (map (value_of floats s) vs) read_uint32
        (read_elements floats s) (some (length vs)) vs (size-Reads (length vs) small)
        (made-Gives lang s vs h)

  counted-Gives :
      (lang : Language) (s : Scalar) (n : ℕ) (vs : List (ValueOf F D s))
      → length vs ≡ n
      → n < 2 ^ 32
      → All (IsScalar floats lang s) vs
      → Gives (Value.uint32 n ∷ map (value_of floats s) vs) (read_vector floats s) vs
  counted-Gives lang s n vs size small h =
      let small_size : length vs < 2 ^ 32 = omega (arith, size, small) in
      subst (λ k. Gives (Value.uint32 k ∷ map (value_of floats s) vs) (read_vector floats s) vs)
        size (read_vector-Gives lang s vs small_size h)

  read_c_sequence-Gives :
      (lang : Language) (s : Scalar) (vs : List (ValueOf F D s))
      → length vs < 2 ^ 32
      → All (IsScalar floats lang s) vs
      → Gives (Value.uint32 (length vs) ∷ map (value_of floats s) vs) (read_c_sequence floats s) vs
  unfolding read_c_sequence read_elements
  read_c_sequence-Gives lang s vs small h =
      Reads-then (Value.uint32 (length vs) ∷ []) (map (value_of floats s) vs) read_uint32
        (read_elements floats s) (some (length vs)) vs (size-Reads (length vs) small)
        (made-Gives lang s vs h)

  read_bool_vector-Gives : Gives (Value.uint32 0 ∷ []) (read_bool_vector floats) []
  unfolding read_bool_vector read_bool_elements
  read_bool_vector-Gives =
      Reads-then (Value.uint32 0 ∷ []) [] read_uint32 (read_bool_elements floats) (some 0) []
        (size-Reads 0 (omega arith)) (Gives-none [])

  deserialize_c_generic-Gives :
      (s : Scalar) (layout : Layout) (v old : Held (ValueOf F D s) layout)
      → IsSized (ValueOf F D s) layout v
      → HasShape (λ x. Unit {0}) layout old
      → Each (IsScalar floats Language.c_members s) layout v
      → Gives (plain_values floats s layout v) (deserialize_c_generic floats s layout old) v
  unfolding deserialize_c_generic
  deserialize_c_generic-Gives s Layout.single v old sized shape h =
      Reads-Gives (value_of floats s v ∷ []) (read_scalar floats s old) v
        (scalar-Reads floats Language.c_members s v old h)
  deserialize_c_generic-Gives s (Layout.fixed n) vs olds sized shape h =
      array-Gives Language.c_members s n vs olds sized.0 shape.0 h
  deserialize_c_generic-Gives s (Layout.bounded n) vs olds sized shape h =
      read_c_sequence-Gives Language.c_members s vs sized h
  deserialize_c_generic-Gives s Layout.unbounded vs olds sized shape h =
      read_c_sequence-Gives Language.c_members s vs sized h

  deserialize_c_string-Gives :
      (layout : Layout) (v old : Held (List ℕ) layout)
      → IsSized (List ℕ) layout v
      → HasShape (λ x. Unit {0}) layout old
      → Each (IsScalar floats Language.c_members Scalar.string) layout v
      → Gives (text_values floats Scalar.string layout v) (deserialize_c_string floats layout old) v
  unfolding deserialize_c_string read_scalar assign_string assign_vector_string
      assign_vector_string_to_sequence finish
  deserialize_c_string-Gives Layout.single v old sized shape h =
      Reads-then (value_of floats Scalar.string v ∷ []) [] (read_scalar floats Scalar.string [])
        (λ str r. Result.ok (assign_string str, r)) v v
        (scalar-Reads floats Language.c_members Scalar.string v [] h)
        (rw (convert_to_std_string-Unbroken v h.1) (Gives-none v))
  deserialize_c_string-Gives (Layout.fixed n) vs olds sized shape h =
      let same =
        assigned_texts (IsScalar floats Language.c_members Scalar.string) assign_string
          (λ v e. convert_to_std_string-Unbroken v e.1) n vs olds sized.0 shape.0 h in
      let enough : ltb (length vs) n ≡ false = ground (arith, sized.0) in
      Gives-map (Value.uint32 n ∷ map (value_of floats Scalar.string) vs)
        (read_vector floats Scalar.string)
        (λ p. finish floats (assign_vector_string p.0 olds n) p.1) vs vs (λ r. rw (enough, same))
        (counted-Gives Language.c_members Scalar.string n vs sized.0 sized.1 h)
  deserialize_c_string-Gives (Layout.bounded n) vs olds sized shape h =
      Gives-map (Value.uint32 (length vs) ∷ map (value_of floats Scalar.string) vs)
        (read_vector floats Scalar.string)
        (λ p. Result.ok (assign_vector_string_to_sequence p.0, p.1)) vs vs
        (λ r. rw (map-fixed assign_string (λ v e. convert_to_std_string-Unbroken v e.1) vs h))
        (read_vector-Gives Language.c_members Scalar.string vs sized h)
  deserialize_c_string-Gives Layout.unbounded vs olds sized shape h =
      Gives-map (Value.uint32 (length vs) ∷ map (value_of floats Scalar.string) vs)
        (read_vector floats Scalar.string)
        (λ p. Result.ok (assign_vector_string_to_sequence p.0, p.1)) vs vs
        (λ r. rw (map-fixed assign_string (λ v e. convert_to_std_string-Unbroken v e.1) vs h))
        (read_vector-Gives Language.c_members Scalar.string vs sized h)

  deserialize_c_wstring-Gives :
      (layout : Layout) (v old : Held (List ℕ) layout)
      → IsSized (List ℕ) layout v
      → HasShape (λ x. Unit {0}) layout old
      → Each (IsScalar floats Language.c_members Scalar.wstring) layout v
      → Gives
          (text_values floats Scalar.wstring layout v)
          (deserialize_c_wstring floats layout old)
          v
  unfolding deserialize_c_wstring read_scalar assign_u16string assign_vector_u16string
      assign_vector_u16string_to_sequence finish
  deserialize_c_wstring-Gives Layout.single v old sized shape h =
      Reads-then (value_of floats Scalar.wstring v ∷ []) [] (read_scalar floats Scalar.wstring [])
        (λ str r. Result.ok (assign_u16string str, r)) v v
        (scalar-Reads floats Language.c_members Scalar.wstring v [] h)
        (rw (convert_to_std_u16string-Unbroken v h.1) (Gives-none v))
  deserialize_c_wstring-Gives (Layout.fixed n) vs olds sized shape h =
      let same =
        assigned_texts (IsScalar floats Language.c_members Scalar.wstring) assign_u16string
          (λ v e. convert_to_std_u16string-Unbroken v e.1) n vs olds sized.0 shape.0 h in
      let enough : ltb (length vs) n ≡ false = ground (arith, sized.0) in
      Gives-map (Value.uint32 n ∷ map (value_of floats Scalar.wstring) vs)
        (read_vector floats Scalar.wstring)
        (λ p. finish floats (assign_vector_u16string p.0 olds n) p.1) vs vs (λ r. rw (enough, same))
        (counted-Gives Language.c_members Scalar.wstring n vs sized.0 sized.1 h)
  deserialize_c_wstring-Gives (Layout.bounded n) vs olds sized shape h =
      Gives-map (Value.uint32 (length vs) ∷ map (value_of floats Scalar.wstring) vs)
        (read_vector floats Scalar.wstring)
        (λ p. Result.ok (assign_vector_u16string_to_sequence p.0, p.1)) vs vs
        (λ r. rw (map-fixed assign_u16string (λ v e. convert_to_std_u16string-Unbroken v e.1) vs h))
        (read_vector-Gives Language.c_members Scalar.wstring vs sized h)
  deserialize_c_wstring-Gives Layout.unbounded vs olds sized shape h =
      Gives-map (Value.uint32 (length vs) ∷ map (value_of floats Scalar.wstring) vs)
        (read_vector floats Scalar.wstring)
        (λ p. Result.ok (assign_vector_u16string_to_sequence p.0, p.1)) vs vs
        (λ r. rw (map-fixed assign_u16string (λ v e. convert_to_std_u16string-Unbroken v e.1) vs h))
        (read_vector-Gives Language.c_members Scalar.wstring vs sized h)

  deserialize_cpp_field-Gives :
      (s : Scalar) (layout : Layout) (v old : Held (ValueOf F D s) layout)
      → IsField floats Language.cpp_members s layout v
      → HasShape (λ x. Unit {0}) layout old
      → Gives (plain_values floats s layout v) (deserialize_cpp_field floats s layout old) v
  unfolding deserialize_cpp_field
  deserialize_cpp_field-Gives s Layout.single v old h shape =
      Reads-Gives (value_of floats s v ∷ []) (read_scalar floats s old) v
        (scalar-Reads floats Language.cpp_members s v old h.2)
  deserialize_cpp_field-Gives s (Layout.fixed n) vs olds h shape =
      array-Gives Language.cpp_members s n vs olds h.0.0 shape.0 h.2
  deserialize_cpp_field-Gives Scalar.boolean (Layout.bounded n) vs olds h shape =
      rw h.1 read_bool_vector-Gives
  deserialize_cpp_field-Gives Scalar.boolean Layout.unbounded vs olds h shape =
      rw h.1 read_bool_vector-Gives
  deserialize_cpp_field-Gives s (Layout.bounded n) vs olds h shape =
      read_vector-Gives Language.cpp_members s vs h.0 h.2
  deserialize_cpp_field-Gives s Layout.unbounded vs olds h shape =
      read_vector-Gives Language.cpp_members s vs h.0 h.2

  -- A field that was written comes back.
  pub deserialize_field-Gives :
      (lang : Language) (s : Scalar) (layout : Layout) (v old : Held (ValueOf F D s) layout)
      → IsField floats lang s layout v
      → HasShape (λ x. Unit {0}) layout old
      → Gives (field_values floats lang s layout v) (deserialize_field floats lang s layout old) v
  unfolding deserialize_field deserialize_c_field
  deserialize_field-Gives Language.cpp_members s layout v old h shape =
      deserialize_cpp_field-Gives s layout v old h shape
  deserialize_field-Gives Language.c_members Scalar.string layout v old h shape =
      deserialize_c_string-Gives layout v old h.0 shape h.2
  deserialize_field-Gives Language.c_members Scalar.wstring layout v old h shape =
      deserialize_c_wstring-Gives layout v old h.0 shape h.2
  deserialize_field-Gives Language.c_members s layout v old h shape =
      deserialize_c_generic-Gives s layout v old h.0 shape h.2
