-- ===== src/Protocol/Amf0/Codec/RoundTrip.antt =====
-- Reading back what the writers of src/protocol/srs_protocol_amf0.cpp put.
use srs_simple.Base.{
  ℕ, zero, suc, ◌+◌, ◌≡◌, refl, sym, ap, subst, ◌∙◌, ◌≤◌, ◌<◌, Bool, true, false, not, List, drop,
  le→leb, [], ◌∷◌, ◌++◌, ◌==◌, if◌then◌else◌, length, length-append, append_assoc, arith,
  error_rtmp_amf0_decode, ok, some,
}
use srs_simple.Kernel.Buffer.{
  Buffer, M, ◌>>◌, ◌>>=◌, pure, require_or, read_1bytes, read_4bytes, read_8bytes,
}
use srs_simple.Kernel.Buffer.Cursor.{cursor}
use srs_simple.Kernel.Buffer.Bytes.{be4, be8}
use srs_simple.Kernel.Buffer.Reads.{
  Reads, Reads-bind, Reads-map, Reads-require, Reads-value, Reads-read_4bytes, Reads-read_8bytes,
}
use srs_simple.Protocol.Amf0.{
  Any, Properties, total_size, string, boolean, number, null, undefined, object_eof, object,
  ecma_array, nil, property, set,
}
use srs_simple.Protocol.Amf0.Codec.{
  read_marker, read_utf8, read_object_eof, read_properties, read, read_any, write,
}
use srs_simple.Protocol.Amf0.Codec.Wire.{
  wire, wire_properties, wire_utf8, wire_object_eof, write-wire, total_size-wire,
}
use srs_simple.Protocol.Amf0.Codec.Peek.{blank}
use srs_simple.Protocol.Amf0.Codec.Parts.{
  Reads-byte_1, Reads-read_marker, Reads-read_utf8, Reads-read_object_eof,
}
use srs_simple.Protocol.Amf0.Table.{rebuild, Distinct, rebuild-nil_lem}
use srs_simple.Protocol.Amf0.Codec.Encodable.{
  IsEncodable, AreEncodable, encodable_double, Reads-end, Reads-property, Reads-read_any,
}

flag_back : (t : Bool) → ◌≡◌ {A = Any} (boolean (not ((if t then 1 else 0) == 0))) (boolean t)
flag_back true = refl
flag_back false = refl

-- A marker was read, then the properties up to the end of object.
Reads-table :
    (m : M Properties) (wrap : Properties → Any) (out : List ℕ) (ps : Properties)
    → Distinct ps
    → Reads m out (rebuild nil ps)
    → Reads (m >>= λ v. pure (wrap v)) out (wrap ps)
Reads-table m wrap out ps d h = Reads-map m wrap out (rw (rebuild-nil_lem ps d) at h)

room :
    (ps : Properties) (fuel : ℕ)
    → suc (length (wire_properties ps ++ wire_object_eof)) ≤ fuel
    → length (wire_properties ps) < fuel
room ps fuel le = omega (arith, length-append (wire_properties ps) wire_object_eof)

property_room :
    (k : List ℕ) (v : Any) (ps : Properties)
    → (length (wire v) + 2 ≤ length (wire_properties (property k v ps)))
      × (length (wire_properties ps) + 2 ≤ length (wire_properties (property k v ps)))
property_room k v ps = omega (
  arith,
  length-append k (wire v ++ wire_properties ps),
  length-append (wire v) (wire_properties ps),
)

regroup :
    (m : M Properties) {r : Properties} (a b c : List ℕ)
    → Reads m (a ++ (b ++ (c ++ wire_object_eof))) r
    → Reads m ((a ++ (b ++ c)) ++ wire_object_eof) r
regroup m {r} a b c h =
    subst (λ l. Reads m l r)
      (sym (
        append_assoc a (b ++ c) wire_object_eof
        ∙ ap (λ l. a ++ l) (append_assoc b c wire_object_eof)))
      h

mutual
  unfolding read rebuild

  Reads-read :
      (v : Any) (fuel : ℕ)
      → IsEncodable v
      → length (wire v) ≤ fuel
      → Reads (read (read_any fuel) fuel (blank v)) (wire v) v
  Reads-read (string s) fuel h le =
      Reads-bind (read_marker 2) (λ _. read_utf8 [] >>= λ t. pure (string t)) (2 ∷ []) (wire_utf8 s)
        (Reads-read_marker 2) (Reads-map (read_utf8 []) string (wire_utf8 s) (Reads-read_utf8 s h))
  Reads-read (boolean t) fuel h le =
      Reads-bind (read_marker 1)
        (λ _.
          require_or 1 error_rtmp_amf0_decode
          >> (read_1bytes >>= λ n. pure (boolean (not (n == 0)))))
        (1 ∷ []) ((if t then 1 else 0) ∷ []) (Reads-read_marker 1)
        (Reads-byte_1 _ (if t then 1 else 0) (λ n. pure (boolean (not (n == 0)))) []
          (Reads-value (flag_back t)))
  Reads-read (number d) fuel h le =
      Reads-bind (read_marker 0)
        (λ _. require_or 8 error_rtmp_amf0_decode >> (read_8bytes >>= λ n. pure (number n)))
        (0 ∷ []) (be8 d) (Reads-read_marker 0)
        (Reads-require 8 _ _ (be8 d) (omega arith)
          (Reads-map read_8bytes number (be8 d) (Reads-read_8bytes d h.0)))
  Reads-read null fuel h le = Reads-map (read_marker 5) (λ _. null) (5 ∷ []) (Reads-read_marker 5)
  Reads-read undefined fuel h le =
      Reads-map (read_marker 6) (λ _. undefined) (6 ∷ []) (Reads-read_marker 6)
  Reads-read object_eof fuel h le =
      Reads-map read_object_eof (λ _. object_eof) wire_object_eof Reads-read_object_eof
  Reads-read (object ps) fuel h le =
      Reads-bind (read_marker 3)
        (λ _. read_properties (read_any fuel) fuel nil >>= λ v. pure (object v)) (3 ∷ [])
        (wire_properties ps ++ wire_object_eof) (Reads-read_marker 3)
        (Reads-table (read_properties (read_any fuel) fuel nil) object _ ps h.1
          (Reads-properties ps fuel fuel nil h.0 (room ps fuel le) (room ps fuel le)))
  Reads-read (ecma_array c ps) fuel h le =
      let le' : suc (length (wire_properties ps ++ wire_object_eof)) ≤ fuel = omega (arith, le) in
      Reads-bind (read_marker 8)
        (λ _.
          require_or 4 error_rtmp_amf0_decode
          >> (read_4bytes >>= λ n.
              read_properties (read_any fuel) fuel nil >>= λ v. pure (ecma_array n v)))
        (8 ∷ []) (be4 c ++ (wire_properties ps ++ wire_object_eof)) (Reads-read_marker 8)
        (Reads-require 4 _ _ (be4 c ++ (wire_properties ps ++ wire_object_eof)) (omega arith) (
          Reads-bind read_4bytes
            (λ n. read_properties (read_any fuel) fuel nil >>= λ v. pure (ecma_array n v)) (be4 c)
            (wire_properties ps ++ wire_object_eof) (Reads-read_4bytes c h.0)
            (Reads-table (read_properties (read_any fuel) fuel nil) (ecma_array c) _ ps h.1.1
              (Reads-properties ps fuel fuel nil h.1.0 (room ps fuel le') (room ps fuel le')))))

  Reads-properties :
      (ps : Properties) (any_fuel fuel : ℕ) (acc : Properties)
      → AreEncodable ps
      → length (wire_properties ps) < any_fuel
      → length (wire_properties ps) < fuel
      → Reads
          (read_properties (read_any any_fuel) fuel acc)
          (wire_properties ps ++ wire_object_eof)
          (rebuild acc ps)
  Reads-properties ps zero fuel acc h la lf = elim la [ ]
  Reads-properties ps (suc n) zero acc h la lf = elim lf [ ]
  Reads-properties nil (suc n) (suc f) acc h la lf = Reads-end (read_any (suc n)) f acc
  Reads-properties (property k v ps) (suc n) (suc f) acc h la lf =
      let (lv, lp) = property_room k v ps in
      regroup (read_properties (read_any (suc n)) (suc f) acc) (wire_utf8 k) (wire v)
        (wire_properties ps)
        (Reads-property (read_any (suc n)) f acc k v (wire_properties ps ++ wire_object_eof) h.0
          (Reads-read_any n v (encodable_double v h.1) (Reads-read v n h.1 (omega arith)))
          (Reads-properties ps (suc n) f (set k (some v) acc) h.2 (omega arith) (omega arith)))

-- What SrsAmf0Object::read does on an empty object.
pub Reads-object :
    (ps : Properties) (fuel : ℕ)
    → IsEncodable (object ps)
    → length (wire (object ps)) ≤ fuel
    → Reads (read_marker 3 >> read_properties (read_any fuel) fuel nil) (wire (object ps)) ps
Reads-object ps fuel h le =
    Reads-bind (read_marker 3) (λ _. read_properties (read_any fuel) fuel nil) (3 ∷ [])
      (wire_properties ps ++ wire_object_eof) (Reads-read_marker 3)
      (rw (rebuild-nil_lem ps h.1) at
        (Reads-properties ps fuel fuel nil h.0 (room ps fuel le) (room ps fuel le)))

pub Reads-any :
    (v : Any) (fuel : ℕ) → IsEncodable v → length (wire v) < fuel → Reads (read_any fuel) (wire v) v
Reads-any v zero h le = elim le [ ]
Reads-any v (suc fuel) h le =
    Reads-read_any fuel v (encodable_double v h) (Reads-read v fuel h (omega (arith, le)))

-- read_any(stream) on what write(stream) put for an encodable value, with any bytes before and
-- behind it and fuel for its length, returns the value and leaves the cursor behind it.
pub read_any-wire :
    (v : Any) (fuel : ℕ) (pre post : List ℕ)
    → IsEncodable v
    → length (wire v) ≤ fuel
    → read_any (suc fuel) (cursor pre (wire v ++ post)) ≡ ok (v, cursor (pre ++ wire v) post)
read_any-wire v fuel pre post h le =
    Reads-read_any fuel v (encodable_double v h) (Reads-read v fuel h le) pre post

-- What write(stream) puts into a buffer with room for the value, read_any(stream) reads back from
-- the place where the writing began: the same value, and the cursor where the writing ended. The
-- value is one that the format can carry.
pub read_any-write :
    (v : Any) (fuel : ℕ) (pre post : List ℕ)
    → IsEncodable v
    → total_size v ≤ length post
    → total_size v ≤ fuel
    → (b : Buffer) × (write v (cursor pre post) ≡ ok (tt, b))
      × (read_any (suc fuel) (record b { p = length pre }) ≡ ok (v, b))
read_any-write v fuel pre post h fits le = (
  cursor (pre ++ wire v) (drop (total_size v) post),
  write-wire v pre post ∙ rw (le→leb (total_size v) (length post) fits),
  subst
      (λ bs.
        read_any (suc fuel) (record { bytes = bs; p = length pre })
        ≡ ok (v, cursor (pre ++ wire v) (drop (total_size v) post)))
      (sym (append_assoc pre (wire v) (drop (total_size v) post)))
      (read_any-wire v fuel pre (drop (total_size v) post) h (omega (arith, total_size-wire v))),
)
