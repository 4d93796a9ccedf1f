-- ===== src/Protocol/Amf0/Codec/Misread.antt =====
-- Values that src/protocol/srs_protocol_amf0.cpp writes and does not read back: a double that
-- begins like an end of object, and a string of 32768 bytes and more.
use srs_simple.Base.{
  ℕ, suc, ◌/◌, ◌%◌, ◌^◌, ◌≡◌, ◌≤◌, ◌<◌, true, ◌||◌, List, [], ◌∷◌, ◌++◌, ◌==◌, leb, length, drop,
  arith, ok,
}
use srs_simple.Kernel.Buffer.{◌>>=◌, pure, read_2bytes}
use srs_simple.Kernel.Buffer.Cursor.{cursor}
use srs_simple.Kernel.Buffer.Bytes.{be2}
use srs_simple.Kernel.Buffer.Reads.{
  Reads, Reads-pure, Reads-bind, Reads-require, Reads-map, Reads-peek, Reads-read_2bytes, Peeks,
}
use srs_simple.Protocol.Amf0.{string, number, object_eof}
use srs_simple.Protocol.Amf0.Codec.{
  discovery, read_marker, read_utf8, read_object_eof, read, read_any,
}
use srs_simple.Protocol.Amf0.Codec.Wire.{wire, wire_object_eof}
use srs_simple.Protocol.Amf0.Codec.Peek.{Peeks-string, Peeks-discovery_eof}
use srs_simple.Protocol.Amf0.Codec.Parts.{Reads-read_marker, Reads-read_object_eof}

Reads-as_eof : (fuel : ℕ) → Reads (read_any (suc fuel)) wire_object_eof object_eof
unfolding read_any read
Reads-as_eof fuel =
    Reads-peek discovery (read (read_any fuel) fuel) wire_object_eof Peeks-discovery_eof
      (Reads-map read_object_eof (λ _. object_eof) wire_object_eof Reads-read_object_eof)

-- A double whose first two bytes are 00 09 is written as a number, and read_any(stream) takes its
-- first three bytes for an end of object: the six bytes behind them stay in the stream.
pub read_any-double_as_eof :
    (d fuel : ℕ) (pre post : List ℕ)
    → d < 2 ^ 64
    → d / 281474976710656 ≡ 9
    → read_any (suc fuel) (cursor pre (wire (number d) ++ post))
      ≡ ok (object_eof, cursor (pre ++ wire_object_eof) (drop 3 (wire (number d)) ++ post))
read_any-double_as_eof d fuel pre post h e =
    rw (first, second) (Reads-as_eof fuel pre (drop 3 (wire (number d)) ++ post))
  where
    first : d / 72057594037927936 % 256 ≡ 0
    first = omega arith

    second : d / 281474976710656 % 256 ≡ 9
    second = omega arith

-- The length of the string as an int16_t is negative.
Reads-no_bytes : (len : ℕ) → 32768 ≤ len → len < 2 ^ 16 → Reads (read_utf8 []) (be2 len) []
unfolding read_utf8
Reads-no_bytes len h lt =
    Reads-require 2 _ _ (be2 len) (omega arith) (
      Reads-bind read_2bytes _ (be2 len) [] (Reads-read_2bytes len lt)
        (rw negative (Reads-pure [])))
  where
    negative : ((len == 0) || leb 32768 len) ≡ true
    negative = ground arith

-- A string of 32768 to 65535 bytes is written whole, and read_any(stream) returns the empty string
-- for it: all its bytes stay in the stream.
pub read_any-long_string :
    (s : List ℕ) (fuel : ℕ) (pre post : List ℕ)
    → 32768 ≤ length s
    → length s < 65536
    → read_any (suc fuel) (cursor pre (wire (string s) ++ post))
      ≡ ok (string [], cursor (pre ++ (2 ∷ be2 (length s))) (s ++ post))
unfolding read_any read
read_any-long_string s fuel pre post h lt = rw short_length whole
  where
    short_length : length s % 65536 ≡ length s
    short_length = omega arith

    reads : Reads (read (read_any fuel) fuel (string [])) (2 ∷ be2 (length s)) (string [])
    reads =
        Reads-bind (read_marker 2) (λ _. read_utf8 [] >>= λ t. pure (string t)) (2 ∷ [])
          (be2 (length s)) (Reads-read_marker 2)
          (Reads-map (read_utf8 []) string (be2 (length s)) (Reads-no_bytes (length s) h lt))

    peek : (more : List ℕ) → Peeks discovery ((2 ∷ be2 (length s)) ++ more) (string [])
    peek more = Peeks-string (be2 (length s) ++ more)

    whole :
        read_any (suc fuel) (cursor pre ((2 ∷ be2 (length s)) ++ (s ++ post)))
        ≡ ok (string [], cursor (pre ++ (2 ∷ be2 (length s))) (s ++ post))
    whole =
        Reads-peek discovery (read (read_any fuel) fuel) (2 ∷ be2 (length s)) {a = string []}
          (λ more. peek more) reads pre (s ++ post)
