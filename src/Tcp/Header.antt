-- ===== src/Tcp/Header.antt =====
-- Between frames the receive loop of src/desert_classes/TcpDaemon.cpp keeps the five newest bytes
-- and looks for two start markers in front of the byte that arrives.
use mathlib.Core.List.{reverse-append, reverse-cons}
use rmw_desert.Prelude.{
  ℕ, zero, suc, ◌-◌, ◌≤◌, ◌<◌, ◌≡◌, refl, sym, ap, ◌∙◌, ◌≢◌, ◌⊎◌, inl, inr, true, false, List, [],
  ◌∷◌, ◌++◌, Option, some, none, reverse, arith, ltb, if◌then◌else◌, length, length-append,
  get_elem?, take, drop,
}
use rmw_desert.Tcp.{
  Bytes, Junk, Receiver, start_marker, end_marker, end_byte, check_header, check_tail, erase_oldest,
  check_overflow, receive_byte, receive,
}
use native.Mathlib.Decide.{dec_lt}

-- What lies in front of a vector's storage is no marker.
pub record IsTame (junk : Junk) : Type 0 where
  pub no_start : (p : Bytes) (k : ℕ) → junk p k ≢ start_marker
  pub no_end : (p : Bytes) (k : ℕ) → junk p k ≢ end_marker

-- The newest byte is no start marker, if there is one.
abbrev pub IsQuiet : Bytes → Type 0
IsQuiet p = get_elem? (reverse p) 0 ≢ some start_marker

-- The bytes that are kept after `b`.
pub slide : Bytes → ℕ → Bytes
slide p b = if ltb 5 (length (p ++ b ∷ [])) then drop 1 (p ++ b ∷ []) else p ++ b ∷ []

pub length-slide : (p : Bytes) (b : ℕ) → length p ≤ 5 → length (slide p b) ≤ 5
unfolding slide
length-slide [] b h = ground (arith, length-append {0} [] (b ∷ []))
length-slide (x ∷ p) b h = ground (arith, length-append p (b ∷ []))

module _ {ℓ} {A : Type ℓ} where
  take_all : (n : ℕ) (xs : List A) → length xs ≤ n → take n xs ≡ xs
  take_all zero [] h = refl
  take_all zero (x ∷ xs) h = absurd (omega arith)
  take_all (suc n) [] h = refl
  take_all (suc n) (x ∷ xs) h = ap (◌∷◌ x) (take_all n xs (omega arith))

  take_append : (n : ℕ) (xs ys : List A) → n ≤ length xs → take n (xs ++ ys) ≡ take n xs
  take_append zero xs ys h = refl
  take_append (suc n) [] ys h = absurd (omega arith)
  take_append (suc n) (x ∷ xs) ys h = ap (◌∷◌ x) (take_append n xs ys (omega arith))

  pub length-reverse : (xs : List A) → length (reverse xs) ≡ length xs
  length-reverse [] = refl
  length-reverse (x ∷ xs) =
      let last = length-append (reverse xs) (x ∷ []) in
      rw (reverse-cons x xs, last, length-reverse xs) (omega arith)

slide-short : (p : Bytes) (b : ℕ) → length p < 5 → slide p b ≡ p ++ b ∷ []
unfolding slide
slide-short p b h = ground (arith, length-append p (b ∷ []))

slide-full : (x : ℕ) (p : Bytes) (b : ℕ) → length p ≡ 4 → slide (x ∷ p) b ≡ p ++ b ∷ []
unfolding slide
slide-full x p b h = ground (arith, length-append p (b ∷ []))

pub reverse-slide :
    (p : Bytes) (b : ℕ) → length p ≤ 5 → reverse (slide p b) ≡ take 5 (b ∷ reverse p)
reverse-slide p b h = elim (dec_lt (length p) 5) [
  | yes short ↦ grown short
  | no full ↦ moved p h full
]
  where
    grown : length p < 5 → reverse (slide p b) ≡ b ∷ take 4 (reverse p)
    grown short =
        ap reverse (slide-short p b short)
        ∙ reverse-append p (b ∷ [])
        ∙ ap (◌∷◌ b) (sym (take_all 4 (reverse p) (omega (arith, length-reverse p))))

    moved :
        (q : Bytes) → length q ≤ 5 → ¬ (length q < 5) → reverse (slide q b) ≡ b ∷ take 4 (reverse q)
    moved [] h full = absurd (omega arith)
    moved (x ∷ q) h full =
        ap reverse (slide-full x q b (omega arith))
        ∙ reverse-append q (b ∷ [])
        ∙ ap (◌∷◌ b) (
            sym (take_all 4 (reverse q) (omega (arith, length-reverse q)))
            ∙ sym (take_append 4 (reverse q) (x ∷ []) (omega (arith, length-reverse q)))
            ∙ ap (take 4) (sym (reverse-cons x q)))

-- What `end_byte` reads after a push, given the older bytes newest first.
abbrev read : Option ℕ → ℕ → ℕ
read o otherwise = elim o [ some b ↦ b | none ↦ otherwise ]

read-ne :
    (o : Option ℕ) (d : ℕ) → o ≢ some start_marker → d ≢ start_marker → read o d ≢ start_marker
read-ne none d h k = k
read-ne (some b) d h k = λ e. h (ap some e)

module _ (junk : Junk) (p : Bytes) (b : ℕ) where
  end_byte-2 :
      {older : Bytes}
      → reverse p ≡ older
      → end_byte junk (p ++ b ∷ []) 2
        ≡ read (get_elem? older 0) (junk (p ++ b ∷ []) (2 - length (p ++ b ∷ [])))
  unfolding end_byte
  end_byte-2 e = rw (← e) (rw (reverse-append p (b ∷ []), end_byte))

  end_byte-3 :
      {older : Bytes}
      → reverse p ≡ older
      → end_byte junk (p ++ b ∷ []) 3
        ≡ read (get_elem? older 1) (junk (p ++ b ∷ []) (3 - length (p ++ b ∷ [])))
  unfolding end_byte
  end_byte-3 e = rw (← e) (rw (reverse-append p (b ∷ []), end_byte))

module _ (junk : Junk) (r : Receiver) (b : ℕ) where
  -- With no two start markers before it, a byte between frames is only remembered.
  pub receive_byte-idle :
      r.found_header ≡ false
      → length r.packet ≤ 5
      → (end_byte junk (r.packet ++ b ∷ []) 2 ≢ start_marker)
        ⊎ (end_byte junk (r.packet ++ b ∷ []) 3 ≢ start_marker)
      → receive_byte junk r b ≡ record r { packet = slide r.packet b }
  unfolding receive_byte check_header check_tail erase_oldest check_overflow slide
  receive_byte-idle idle short other =
      ground (arith, length-append r.packet (b ∷ []), length-slide r.packet b short)

  -- After two start markers a byte is the announced length.
  pub receive_byte-header :
      IsTame junk
      → r.found_header ≡ false
      → end_byte junk (r.packet ++ b ∷ []) 2 ≡ start_marker
      → end_byte junk (r.packet ++ b ∷ []) 3 ≡ start_marker
      → receive_byte junk r b
        ≡ record r { packet = []; found_header = true; dimension_in_header = b }
  unfolding receive_byte check_header check_tail erase_oldest check_overflow end_byte
  receive_byte-header tame idle second third = ground (arith, last)
    where
      last : end_byte junk [] 1 ≢ end_marker
      last = tame.no_end [] 1

get_elem?-take : (xs : Bytes) → get_elem? (take 4 xs) 0 ≡ get_elem? xs 0
get_elem?-take [] = refl
get_elem?-take (x ∷ xs) = refl

module _ (junk : Junk) (tame : IsTame junk) (r : Receiver) where
  -- Two start markers and a length open a frame, after any bytes that do not end in a start marker.
  pub receive-header :
      (n : ℕ) (rest : Bytes)
      → r.found_header ≡ false
      → length r.packet ≤ 5
      → IsQuiet r.packet
      → receive junk r (start_marker ∷ start_marker ∷ n ∷ rest)
        ≡ receive junk (record r { packet = []; found_header = true; dimension_in_header = n }) rest
  unfolding receive
  receive-header n rest idle short quiet =
      ap (λ q. receive junk (receive_byte junk (receive_byte junk q start_marker) n) rest) first
      ∙ ap (λ q. receive junk (receive_byte junk q n) rest) second
      ∙ ap (λ q. receive junk q rest) third
    where
      p : Bytes
      p = slide r.packet start_marker

      p_short : length p ≤ 5
      p_short = length-slide r.packet start_marker short

      p_reverse : reverse p ≡ start_marker ∷ take 4 (reverse r.packet)
      p_reverse = reverse-slide r.packet start_marker short

      q_reverse : reverse (slide p start_marker) ≡ start_marker ∷ take 4 (reverse p)
      q_reverse = reverse-slide p start_marker p_short

      first : receive_byte junk r start_marker ≡ record r { packet = p }
      first = receive_byte-idle junk r start_marker idle short (
          inl (
            rw (end_byte-2 junk r.packet start_marker refl)
              (read-ne (get_elem? (reverse r.packet) 0) _ quiet (tame.no_start _ _))))

      second :
          receive_byte junk (record r { packet = p }) start_marker
          ≡ record r { packet = slide p start_marker }
      second =
          receive_byte-idle junk (record r { packet = p }) start_marker idle p_short
            (inr (
              rw (end_byte-3 junk p start_marker p_reverse) (
                read-ne (get_elem? (take 4 (reverse r.packet)) 0) _
                  (rw (get_elem?-take (reverse r.packet)) quiet) (tame.no_start _ _))))

      third :
          receive_byte junk (record r { packet = slide p start_marker }) n
          ≡ record r { packet = []; found_header = true; dimension_in_header = n }
      third =
          receive_byte-header junk (record r { packet = slide p start_marker }) n tame idle
            (end_byte-2 junk (slide p start_marker) n q_reverse)
            (rw (end_byte-3 junk (slide p start_marker) n q_reverse) (rw p_reverse refl))

  -- A byte that is no start marker leaves the receiver between frames, ready for the next one.
  pub receive_byte-noise :
      (b : ℕ)
      → b ≢ start_marker
      → r.found_header ≡ false
      → length r.packet ≤ 5
      → IsQuiet r.packet
      → (receive_byte junk r b ≡ record r { packet = slide r.packet b })
        × (length (slide r.packet b) ≤ 5)
        × IsQuiet (slide r.packet b)
  receive_byte-noise b other idle short quiet = (
    receive_byte-idle junk r b idle short (
        inl (
          rw (end_byte-2 junk r.packet b refl)
            (read-ne (get_elem? (reverse r.packet) 0) _ quiet (tame.no_start _ _)))),
    length-slide r.packet b short,
    rw (reverse-slide r.packet b short) (λ e. other (ground arith)),
  )
