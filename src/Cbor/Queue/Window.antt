-- ===== src/Cbor/Queue/Window.antt =====
-- `CircularQueue` of src/desert_classes/CBorStream.h holds the newest elements that were pushed.
use mathlib.Core.List.{append_assoc, append-nil}
use native.Mathlib.Decide.{dec_lt}
use rmw_desert.Prelude.{
  ℕ, zero, suc, ◌-◌, ◌≤◌, ◌<◌, ◌≡◌, refl, sym, ap, ◌∙◌, List, [], ◌∷◌, ◌++◌, arith, length,
  length-append, drop, length-drop,
}
use rmw_desert.Cbor.Queue.{max_buffer_capacity, pop, push, push_all}

module _ {ℓ} {A : Type ℓ} where
  -- The newest elements, up to the capacity.
  pub newest : List A → List A
  newest xs = drop (length xs - max_buffer_capacity) xs

  length-pop : (queue : List A) → length (pop queue) ≡ length queue - 1
  unfolding pop
  length-pop [] = omega arith
  length-pop (x ∷ xs) = omega arith

  pub length-push :
      (queue : List A) (value : A)
      → length queue ≤ max_buffer_capacity
      → length (push queue value) ≤ max_buffer_capacity
  unfolding push
  length-push queue value h = ground (
    arith,
    length-append queue (value ∷ []),
    length-append (pop queue) (value ∷ []),
    length-pop queue,
  )

  drop_append : (n : ℕ) (xs ys : List A) → n ≤ length xs → drop n (xs ++ ys) ≡ drop n xs ++ ys
  drop_append zero xs ys h = refl
  drop_append (suc n) [] ys h = absurd (omega arith)
  drop_append (suc n) (x ∷ xs) ys h = drop_append n xs ys (omega arith)

  pop-drop : (n : ℕ) (xs : List A) → pop (drop n xs) ≡ drop (suc n) xs
  unfolding pop
  pop-drop zero [] = refl
  pop-drop zero (x ∷ xs) = refl
  pop-drop (suc n) [] = refl
  pop-drop (suc n) (x ∷ xs) = pop-drop n xs

  push_room :
      (queue : List A) (value : A)
      → length queue < max_buffer_capacity
      → push queue value ≡ queue ++ value ∷ []
  unfolding push
  push_room queue value h = ground arith

  push_full :
      (queue : List A) (value : A)
      → length queue ≡ max_buffer_capacity
      → push queue value ≡ pop queue ++ value ∷ []
  unfolding push
  push_full queue value h = ground arith

  newest_few : (xs : List A) → length xs ≤ max_buffer_capacity → newest xs ≡ xs
  unfolding newest
  newest_few xs h = let e : length xs - max_buffer_capacity ≡ 0 = omega arith in rw e

  -- One push moves the window on by one.
  push-newest : (xs : List A) (value : A) → push (newest xs) value ≡ newest (xs ++ value ∷ [])
  push-newest xs value = elim (dec_lt (length xs) max_buffer_capacity) [
    | yes few ↦
        rw
          (
            newest_few xs (omega arith),
            newest_few (xs ++ value ∷ []) (omega (arith, length-append xs (value ∷ []))),
          )
          (push_room xs value few)
    | no many ↦ full many
  ]
    where
      full :
          ¬ (length xs < max_buffer_capacity) → push (newest xs) value ≡ newest (xs ++ value ∷ [])
      full many =
          let k = length xs - max_buffer_capacity in
          let size : length (drop k xs) ≡ max_buffer_capacity = omega (arith, length-drop k xs) in
          let next : length (xs ++ value ∷ []) - max_buffer_capacity ≡ suc k =
            omega (arith, length-append xs (value ∷ [])) in
          unfold newest in
          push_full (drop k xs) value size
          ∙ rw (pop-drop k xs, next) (sym (drop_append (suc k) xs (value ∷ []) (omega arith)))

  push_all-newest : (xs ys : List A) → push_all (newest xs) ys ≡ newest (xs ++ ys)
  unfolding push_all
  push_all-newest xs [] = rw append-nil
  push_all-newest xs (y ∷ ys) =
      rw (push-newest xs y)
        (push_all-newest (xs ++ y ∷ []) ys ∙ ap newest (append_assoc xs (y ∷ []) ys))

  -- After any pushes onto an empty queue it holds the newest 100 of the values, in order.
  pub push_all-window :
      (xs : List A) → (push_all [] xs ≡ newest xs) × (length (push_all [] xs) ≤ max_buffer_capacity)
  unfolding newest
  push_all-window xs =
      let e : push_all [] xs ≡ newest xs = push_all-newest [] xs in
      (e, rw e (omega (arith, length-drop (length xs - max_buffer_capacity) xs)))
