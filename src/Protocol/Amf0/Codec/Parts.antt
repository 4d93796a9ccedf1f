-- ===== src/Protocol/Amf0/Codec/Parts.antt =====
-- Reading one marker, string or end of object (src/protocol/srs_protocol_amf0.cpp).
use srs_simple.Base.{
  ℕ, suc, ◌%◌, ◌≡◌, ◌<◌, true, false, ◌||◌, List, [], ◌∷◌, ◌==◌, leb, if◌then◌else◌, length, arith,
  ErrorCode, error_rtmp_amf0_decode,
}
use srs_simple.Kernel.Buffer.{
  M, ◌>>◌, ◌>>=◌, pure, require_or, read_1bytes, read_2bytes, read_string,
}
use srs_simple.Kernel.Buffer.Bytes.{be2}
use srs_simple.Kernel.Buffer.Reads.{
  Reads, Reads-pure, Reads-bind, Reads-require, Reads-read_1bytes, Reads-read_2bytes,
  Reads-read_string,
}
use srs_simple.Protocol.Amf0.Codec.{read_marker, read_utf8, read_object_eof}
use srs_simple.Protocol.Amf0.Codec.Wire.{wire_utf8, wire_object_eof}

-- One check, one byte, and what depends on it.
pub Reads-byte_1 :
    {A : Type 0} (e : ErrorCode) (x : ℕ) (f : ℕ → M A) (out : List ℕ) {v : A}
    → Reads (f x) out v
    → Reads (require_or 1 e >> (read_1bytes >>= f)) (x ∷ out) v
Reads-byte_1 e x f out h =
    Reads-require 1 e (read_1bytes >>= f) (x ∷ out) (omega arith)
      (Reads-bind read_1bytes f (x ∷ []) out (Reads-read_1bytes x) h)

pub Reads-read_marker : (m : ℕ) → Reads (read_marker m) (m ∷ []) tt
unfolding read_marker
Reads-read_marker m =
    Reads-byte_1 error_rtmp_amf0_decode m _ [] (rw (same_number m) (Reads-pure tt))
  where
    same_number : (n : ℕ) → (n == n) ≡ true
    same_number n = ground arith

-- What follows the length in srs_amf0_read_utf8.
utf8_rest : List ℕ → ℕ → M (List ℕ)
utf8_rest value len =
    if (len == 0) || leb 32768 len
    then pure value
    else (do require_or len error_rtmp_amf0_decode; read_string len)

Reads-utf8_rest :
    (s : List ℕ) (len : ℕ) → len ≡ length s → length s < 32768 → Reads (utf8_rest [] len) s s
unfolding utf8_rest
Reads-utf8_rest [] len e h = rw e (Reads-pure [])
Reads-utf8_rest (x ∷ s) len e h =
    rw (e, positive)
      (Reads-require (length (x ∷ s)) _ _ (x ∷ s) (omega arith) (Reads-read_string (x ∷ s)))
  where
    positive : ((suc (length s) == 0) || leb 32768 (suc (length s))) ≡ false
    positive = ground arith

pub Reads-read_utf8 : (s : List ℕ) → length s < 32768 → Reads (read_utf8 []) (wire_utf8 s) s
unfolding read_utf8 utf8_rest
Reads-read_utf8 s h = Reads-require 2 _ _ (wire_utf8 s) (omega arith) (
    Reads-bind read_2bytes (utf8_rest []) (be2 (length s % 65536)) s
      (Reads-read_2bytes (length s % 65536) (omega arith))
      (Reads-utf8_rest s (length s % 65536) (omega arith) h))

-- Into a string that has a value.
pub Reads-read_utf8_over :
    (value s : List ℕ) → 0 < length s → length s < 32768 → Reads (read_utf8 value) (wire_utf8 s) s
unfolding read_utf8 utf8_rest
Reads-read_utf8_over value [] p h = absurd (omega (arith, p))
Reads-read_utf8_over value (x ∷ s) p h = Reads-require 2 _ _ (wire_utf8 (x ∷ s)) (omega arith) (
    Reads-bind read_2bytes (utf8_rest value) (be2 (length (x ∷ s) % 65536)) (x ∷ s)
      (Reads-read_2bytes (length (x ∷ s) % 65536) (omega arith))
      (rw (cut, positive)
        (Reads-require (length (x ∷ s)) _ _ (x ∷ s) (omega arith) (Reads-read_string (x ∷ s)))))
  where
    cut : length (x ∷ s) % 65536 ≡ suc (length s)
    cut = omega (arith, h)

    positive : ((suc (length s) == 0) || leb 32768 (suc (length s))) ≡ false
    positive = ground (arith, h)

pub Reads-read_object_eof : Reads read_object_eof wire_object_eof tt
unfolding read_object_eof
Reads-read_object_eof = Reads-require 2 _ _ wire_object_eof (omega arith) (
    Reads-bind read_2bytes _ (0 ∷ 0 ∷ []) (9 ∷ []) (Reads-read_2bytes 0 (omega arith))
      (Reads-read_marker 9))
