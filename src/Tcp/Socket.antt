-- ===== src/Tcp/Socket.antt =====
-- The reads of src/desert_classes/TcpDaemon.cpp from the socket.
use mathlib.Core.List.{append-nil}
use rmw_desert.Prelude.{
  ℕ, zero, suc, ◌+◌, ◌≤◌, ◌≡◌, refl, ap, ◌∙◌, List, [], ◌∷◌, ◌++◌, arith, length, take, drop,
}
use rmw_desert.Tcp.{Bytes, read_into, read_loop}

take_append : (xs ys : Bytes) → take (length xs) (xs ++ ys) ≡ xs
take_append [] ys = refl
take_append (x ∷ xs) ys = ap (◌∷◌ x) (take_append xs ys)

take_append_le : (n : ℕ) (xs ys : Bytes) → n ≤ length xs → take n (xs ++ ys) ≡ take n xs
take_append_le zero xs ys h = refl
take_append_le (suc n) [] ys h = absurd (omega arith)
take_append_le (suc n) (x ∷ xs) ys h = ap (◌∷◌ x) (take_append_le n xs ys (omega arith))

read_loop-cons :
    (buffer : Bytes) (b : ℕ) (bs : Bytes) (chunks : List Bytes)
    → read_loop buffer 0 ((b ∷ bs) ∷ chunks)
      ≡ (b ∷ bs)
        ++ read_loop ((b ∷ bs) ++ drop (0 + length (b ∷ bs)) buffer) (0 + length (b ∷ bs)) chunks
unfolding read_loop read_into
read_loop-cons buffer b bs chunks =
    ap
      (λ front.
        front
        ++ read_loop ((b ∷ bs) ++ drop (0 + length (b ∷ bs)) buffer) (0 + length (b ∷ bs)) chunks)
      (take_append (b ∷ bs) (drop (0 + length (b ∷ bs)) buffer))

-- What a single `read` returns is handed on unchanged.
pub read_loop-single : (buffer chunk : Bytes) → read_loop buffer 0 (chunk ∷ []) ≡ chunk
unfolding read_loop
read_loop-single buffer [] = refl
read_loop-single buffer (b ∷ bs) = read_loop-cons buffer b bs [] ∙ append-nil (b ∷ bs)

-- Where `read` returns twice in one round, and no more the second time than the first, the second
-- chunk is not handed on: the first bytes of the first chunk are handed on again in its place.
pub read_loop_repeats :
    (buffer : Bytes) (b c : ℕ) (bs cs : Bytes)
    → length (c ∷ cs) ≤ length (b ∷ bs)
    → read_loop buffer 0 ((b ∷ bs) ∷ (c ∷ cs) ∷ []) ≡ (b ∷ bs) ++ take (length (c ∷ cs)) (b ∷ bs)
unfolding read_loop read_into
read_loop_repeats buffer b c bs cs h =
    read_loop-cons buffer b bs ((c ∷ cs) ∷ [])
    ∙ ap (◌++◌ (b ∷ bs)) (
        append-nil _
        ∙ ap (λ z. take (length (c ∷ cs)) (z ++ ((c ∷ cs) ++ rest))) kept
        ∙ take_append_le (length (c ∷ cs)) (b ∷ bs) ((c ∷ cs) ++ rest) h)
  where
    rest : Bytes
    rest =
        drop (0 + length (b ∷ bs) + length (c ∷ cs)) ((b ∷ bs) ++ drop (0 + length (b ∷ bs)) buffer)

    kept : take (0 + length (b ∷ bs)) ((b ∷ bs) ++ drop (0 + length (b ∷ bs)) buffer) ≡ b ∷ bs
    kept =
        let e : 0 + length (b ∷ bs) ≡ length (b ∷ bs) = omega arith in
        ap (λ k. take k ((b ∷ bs) ++ drop (0 + length (b ∷ bs)) buffer)) e
        ∙ take_append (b ∷ bs) (drop (0 + length (b ∷ bs)) buffer)
