-- ===== src/Tests/Mcu.antt =====
-- The streams of src/desert_classes/LibMcuCBorStream.cpp with a codec for tests: an item is its kind,
-- then its value, a string behind its length.
use rmw_desert.Prelude.{
  ℕ, zero, suc, ◌<◌, ◌≡◌, refl, ap, true, false, some, List, [], ◌∷◌, arith, length, take, drop,
  replicate, map, All,
}
use rmw_desert.Prelude.Int.{ℤ, pos, negsuc, signed}
use rmw_desert.Tcp.{Daemon}
use rmw_desert.Message.{Result}
use rmw_desert.Mcu.{Item, Decoded, LibMcu, IsParser, encoded, decoded}
use rmw_desert.Mcu.Tx.{start_transmission, end_transmission}
use rmw_desert.Cbor.Rx.{Lookup}
use rmw_desert.Mcu.Rx.{Field, RxStream, data_available}
use rmw_desert.Mcu.Interpret.{interpret_packets}
use rmw_desert.Mcu.Values.{Value, IsValue, write_values, read_values}
use rmw_desert.Mcu.Exchange.{waiting, received, exchange_first_values}
use rmw_desert.Mcu.Overruns.{interpret_packets_overruns}
use rmw_desert.Tests.Codec.{split}
use rmw_desert.Tests.Exchange.{publisher, config, idle, three_named, publisher_known}

abbrev put : Item Unit → List ℕ
put (Item.uint n) = 0 ∷ n ∷ []
put (Item.nint n) = 1 ∷ n ∷ []
put (Item.float f) = 2 ∷ []
put (Item.text s) = 3 ∷ length s ∷ s
put (Item.boolean true) = 4 ∷ []
put (Item.boolean false) = 5 ∷ []

abbrev parse : ℕ → List ℕ → List Decoded
parse zero bytes = []
parse (suc max) (zero ∷ n ∷ rest) = Decoded.integer (signed 64 n) ∷ parse max rest
parse (suc max) (suc zero ∷ n ∷ rest) = Decoded.integer (negsuc n) ∷ parse max rest
parse (suc max) (suc (suc zero) ∷ rest) = Decoded.float 0 ∷ parse max rest
parse (suc max) (suc (suc (suc zero)) ∷ k ∷ rest) =
    Decoded.string (take k rest) ∷ parse max (drop k rest)
parse (suc max) (suc (suc (suc (suc zero))) ∷ rest) = Decoded.simple 1 ∷ parse max rest
parse (suc max) (suc (suc (suc (suc (suc zero)))) ∷ rest) = Decoded.simple 0 ∷ parse max rest
parse (suc max) _ = []

abbrev libmcu : LibMcu Unit
libmcu = record {
  put = put;
  parse = parse;
  bits = λ f. 0;
  past_end = λ f t. t;
  of_half = λ bits. tt;
  of_bits = λ bits. tt;
}

parse-encoded :
    (max : ℕ) (items : List (Item Unit))
    → parse max (encoded libmcu items) ≡ take max (map (decoded libmcu) items)
parse-encoded zero items = refl
parse-encoded (suc max) [] = refl
parse-encoded (suc max) (Item.uint n ∷ items) =
    ap (λ ds. Decoded.integer (signed 64 n) ∷ ds) (parse-encoded max items)
parse-encoded (suc max) (Item.nint n ∷ items) =
    ap (λ ds. Decoded.integer (negsuc n) ∷ ds) (parse-encoded max items)
parse-encoded (suc max) (Item.float f ∷ items) =
    ap (λ ds. Decoded.float 0 ∷ ds) (parse-encoded max items)
parse-encoded (suc max) (Item.text s ∷ items) =
    rw ((split s (encoded libmcu items)).0, (split s (encoded libmcu items)).1)
      (ap (λ ds. Decoded.string s ∷ ds) (parse-encoded max items))
parse-encoded (suc max) (Item.boolean true ∷ items) =
    ap (λ ds. Decoded.simple 1 ∷ ds) (parse-encoded max items)
parse-encoded (suc max) (Item.boolean false ∷ items) =
    ap (λ ds. Decoded.simple 0 ∷ ds) (parse-encoded max items)

put-pos : (i : Item Unit) → 0 < length (put i)
put-pos (Item.uint n) = omega arith
put-pos (Item.nint n) = omega arith
put-pos (Item.float f) = omega arith
put-pos (Item.text s) = omega arith
put-pos (Item.boolean true) = omega arith
put-pos (Item.boolean false) = omega arith

libmcu-IsParser : IsParser libmcu
libmcu-IsParser = record {
  parse-encoded = λ max items h. parse-encoded max items;
  put-pos = put-pos;
}

abbrev behind : Field Unit → ℤ
behind f = pos 0

-- Seventy values, of which the last eight do not arrive.
abbrev numbers : List (Value Unit)
numbers = Value.string (104 ∷ 105 ∷ []) ∷ Value.bool true ∷ replicate 68 (Value.uint8 7)

numbers-IsValue : All (IsValue libmcu) numbers
numbers-IsValue = ((((λ e. omega arith), ((λ e. omega arith), tt)), omega arith), (tt, eights 68))
  where
    eights : (n : ℕ) → All (IsValue libmcu) (replicate n (Value.uint8 7))
    eights zero = tt
    eights (suc n) = (omega arith, eights n)

exchange_first_values_example :
    (d : Daemon) × (arrived : RxStream Unit) × (taken : RxStream Unit) × (interpret_packets libmcu
        config
        (end_transmission
          (write_values libmcu numbers (start_transmission libmcu publisher))
          (record { receiver = idle; tx_packets = [] }))
        (waiting libmcu 1 3 0 ∷ [])
      ≡ Result.ok (d, arrived ∷ []))
    × (data_available behind (pos 0) arrived ≡ Lookup.returns (true, taken))
    × ((read_values (received libmcu numbers) taken).0 ≡ map some (received libmcu numbers))
    × (length taken.buffered_packet ≡ 62)
exchange_first_values_example =
    exchange_first_values libmcu behind config publisher numbers idle [] 1 0 libmcu-IsParser
      (omega arith) (omega arith) three_named publisher_known numbers-IsValue (omega arith)

interpret_packets_overruns_example :
    interpret_packets libmcu config
      (end_transmission
        (write_values libmcu
          (Value.int8 (negsuc 0) ∷ Value.string (replicate 128 97) ∷ [])
          (start_transmission libmcu publisher))
        (record { receiver = idle; tx_packets = [] }))
      (waiting libmcu 1 3 0 ∷ [])
    ≡ Result.undefined
interpret_packets_overruns_example =
    interpret_packets_overruns libmcu config publisher (Value.int8 (negsuc 0) ∷ [])
      (replicate 128 97) [] idle [] (waiting libmcu 1 3 0 ∷ []) libmcu-IsParser (omega arith)
      (omega arith) three_named (omega arith) (omega arith, tt) (omega arith) tt (omega arith)
