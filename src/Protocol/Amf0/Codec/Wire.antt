-- ===== src/Protocol/Amf0/Codec/Wire.antt =====
-- The wire format of a value, described on its own, and the writers of
-- src/protocol/srs_protocol_amf0.cpp against it.
use srs_simple.Base.{
  ℕ, suc, ◌%◌, ◌≡◌, true, false, List, [], ◌∷◌, ◌++◌, drop, ◌==◌, leb, if◌then◌else◌, length,
  length-append, arith, error_rtmp_amf0_encode, ok, err,
}
use srs_simple.Kernel.Buffer.{
  M, ◌>>◌, pure, require_or, write_1bytes, write_2bytes, write_4bytes, write_8bytes, write_string,
}
use srs_simple.Kernel.Buffer.Cursor.{cursor}
use srs_simple.Kernel.Buffer.Writes.{
  Writes, Writes-pure, Writes-seq, Writes-step, Writes-last, Writes-else,
}
use srs_simple.Kernel.Buffer.Bytes.{
  be2, be4, be8, Puts-write_1bytes, Puts-write_2bytes, Puts-write_4bytes, Puts-write_8bytes,
  Puts-write_string,
}
use srs_simple.Protocol.Amf0.{
  Any, Properties, string, boolean, number, null, undefined, object_eof, object, ecma_array, nil,
  property, total_size, size_properties, size_utf8, size_object_eof,
}
use srs_simple.Protocol.Amf0.Codec.{
  write, write_properties, write_utf8, write_marker, write_object_eof,
}

-- A length of 16 bits and the bytes.
abbrev pub wire_utf8 : List ℕ → List ℕ
wire_utf8 s = be2 (length s % 65536) ++ s

abbrev pub wire_object_eof : List ℕ
wire_object_eof = 0 ∷ 0 ∷ 9 ∷ []

abbrev mutual
  pub wire : Any → List ℕ
  wire (string s) = 2 ∷ wire_utf8 s
  wire (boolean t) = 1 ∷ (if t then 1 else 0) ∷ []
  wire (number d) = 0 ∷ be8 d
  wire null = 5 ∷ []
  wire undefined = 6 ∷ []
  wire object_eof = wire_object_eof
  wire (object ps) = 3 ∷ (wire_properties ps ++ wire_object_eof)
  wire (ecma_array c ps) = 8 ∷ (be4 c ++ (wire_properties ps ++ wire_object_eof))

  pub wire_properties : Properties → List ℕ
  wire_properties nil = []
  wire_properties (property k v ps) = wire_utf8 k ++ (wire v ++ wire_properties ps)

-- A writer that checks its room and writes `out`, or answers the encode error.
abbrev pub Encodes : M (Unit {0}) → List ℕ → Type 0
Encodes = Writes error_rtmp_amf0_encode

Encodes-write_marker :
    (m : ℕ) (rest : M (Unit {0})) (out : List ℕ)
    → Encodes rest out
    → Encodes (write_marker m rest) (m % 256 ∷ out)
unfolding write_marker
Encodes-write_marker m rest out h =
    Writes-step _ (write_1bytes m) rest (m % 256 ∷ []) out (Puts-write_1bytes m) h

-- What follows the length: nothing, or the bytes.
utf8_body : List ℕ → M (Unit {0})
utf8_body s =
    if length s == 0
    then pure tt
    else (do require_or (length s) error_rtmp_amf0_encode; write_string s)

Encodes-utf8_body : (s : List ℕ) → Encodes (utf8_body s) s
unfolding utf8_body
Encodes-utf8_body [] = Writes-pure _
Encodes-utf8_body (x ∷ s) =
    Writes-else _ (suc (length s) == 0) (x ∷ s) _ _ (ground arith)
      (Writes-last _ (write_string (x ∷ s)) (x ∷ s) (Puts-write_string (x ∷ s)))

pub Encodes-write_utf8 : (s : List ℕ) → Encodes (write_utf8 s) (wire_utf8 s)
unfolding write_utf8 utf8_body
Encodes-write_utf8 s =
    Writes-step _ (write_2bytes (length s % 65536)) (utf8_body s) (be2 (length s % 65536)) s
      (Puts-write_2bytes _) (Encodes-utf8_body s)

pub Encodes-write_object_eof : Encodes write_object_eof wire_object_eof
unfolding write_object_eof
Encodes-write_object_eof =
    Writes-step _ (write_2bytes 0) (write_marker 9 (pure tt)) (0 ∷ 0 ∷ []) (9 ∷ [])
      (Puts-write_2bytes 0) (Encodes-write_marker 9 (pure tt) [] (Writes-pure _))

mutual
  unfolding write

  pub Encodes-write_value : (v : Any) → Encodes (write v) (wire v)
  Encodes-write_value (string s) =
      Encodes-write_marker 2 (write_utf8 s) (wire_utf8 s) (Encodes-write_utf8 s)
  Encodes-write_value (boolean true) =
      Encodes-write_marker 1 _ (1 ∷ [])
        (Writes-step _ (write_1bytes 1) (pure tt) (1 ∷ []) [] (Puts-write_1bytes 1) (Writes-pure _))
  Encodes-write_value (boolean false) =
      Encodes-write_marker 1 _ (0 ∷ [])
        (Writes-step _ (write_1bytes 0) (pure tt) (0 ∷ []) [] (Puts-write_1bytes 0) (Writes-pure _))
  Encodes-write_value (number d) =
      Encodes-write_marker 0 _ (be8 d)
        (Writes-step _ (write_8bytes d) (pure tt) (be8 d) [] (Puts-write_8bytes d) (Writes-pure _))
  Encodes-write_value null = Encodes-write_marker 5 (pure tt) [] (Writes-pure _)
  Encodes-write_value undefined = Encodes-write_marker 6 (pure tt) [] (Writes-pure _)
  Encodes-write_value object_eof = Encodes-write_object_eof
  Encodes-write_value (object ps) =
      Encodes-write_marker 3 _ (wire_properties ps ++ wire_object_eof) (
        Writes-seq _ (write_properties ps) write_object_eof (wire_properties ps) wire_object_eof
          (Encodes-write_properties ps) Encodes-write_object_eof)
  Encodes-write_value (ecma_array c ps) =
      Encodes-write_marker 8 _ (be4 c ++ (wire_properties ps ++ wire_object_eof)) (
        Writes-step _ (write_4bytes c) _ (be4 c) (wire_properties ps ++ wire_object_eof)
          (Puts-write_4bytes c)
          (Writes-seq _ (write_properties ps) write_object_eof (wire_properties ps) wire_object_eof
            (Encodes-write_properties ps) Encodes-write_object_eof))

  Encodes-write_properties : (ps : Properties) → Encodes (write_properties ps) (wire_properties ps)
  Encodes-write_properties nil = Writes-pure _
  Encodes-write_properties (property k v ps) =
      Writes-seq _ (write_utf8 k) _ (wire_utf8 k) (wire v ++ wire_properties ps)
        (Encodes-write_utf8 k)
        (Writes-seq _ (write v) (write_properties ps) (wire v) (wire_properties ps)
          (Encodes-write_value v) (Encodes-write_properties ps))

mutual
  unfolding total_size size_utf8 size_object_eof

  total_size-wire_value : (v : Any) → total_size v ≡ length (wire v)
  total_size-wire_value (string s) = omega arith
  total_size-wire_value (boolean t) = omega arith
  total_size-wire_value (number d) = omega arith
  total_size-wire_value null = omega arith
  total_size-wire_value undefined = omega arith
  total_size-wire_value object_eof = omega arith
  total_size-wire_value (object ps) =
      omega (arith, size_properties-wire ps, length-append (wire_properties ps) wire_object_eof)
  total_size-wire_value (ecma_array c ps) =
      omega (arith, size_properties-wire ps, length-append (wire_properties ps) wire_object_eof)

  size_properties-wire : (ps : Properties) → size_properties ps ≡ length (wire_properties ps)
  size_properties-wire nil = omega arith
  size_properties-wire (property k v ps) = omega (
    arith,
    total_size-wire_value v,
    size_properties-wire ps,
    length-append k (wire v ++ wire_properties ps),
    length-append (wire v) (wire_properties ps),
  )

-- write(stream), on any buffer: with room for total_size() bytes it puts the wire form of the value
-- at the cursor, keeps every other byte, and moves the cursor behind it; with less room it answers
-- ERROR_RTMP_AMF0_ENCODE. No srs_assert fails and no byte outside the buffer is touched.
pub write-wire :
    (v : Any) (pre post : List ℕ)
    → write v (cursor pre post) ≡ (
        if leb (total_size v) (length post)
        then ok (tt, cursor (pre ++ wire v) (drop (total_size v) post))
        else err error_rtmp_amf0_encode)
write-wire v pre post = rw (total_size-wire_value v) (Encodes-write_value v pre post)

-- total_size() is the number of bytes of the wire form.
pub total_size-wire : (v : Any) → total_size v ≡ length (wire v)
total_size-wire v = total_size-wire_value v
