-- ===== src/Protocol/Amf0/Codec/Encodable.antt =====
-- The values of src/protocol/srs_protocol_amf0.cpp that the format can carry, and the loop of
-- SrsAmf0Object::read over one property.
use srs_simple.Base.{
  ℕ, suc, ◌^◌, ◌≡◌, refl, ap, ◌∙◌, ◌<◌, Bool, false, List, [], ◌∷◌, ◌++◌, leb, if◌then◌else◌,
  length, append_assoc, arith, ok, some,
}
use srs_simple.Kernel.Buffer.{M, ◌>>=◌, pure, empty}
use srs_simple.Kernel.Buffer.Cursor.{empty-cursor}
use srs_simple.Kernel.Buffer.Reads.{Reads, Reads-pure, Reads-bind, Peeks, Reads-peek}
use srs_simple.Protocol.Amf0.{
  Any, Properties, string, boolean, number, null, undefined, object_eof, object, ecma_array, nil,
  property, set,
}
use srs_simple.Protocol.Amf0.Codec.{
  is_object_eof, discovery, read_utf8, read_object_eof, read_property, read_round, read_properties,
  read, read_any,
}
use srs_simple.Protocol.Amf0.Codec.Wire.{wire, wire_utf8, wire_object_eof}
use srs_simple.Protocol.Amf0.Codec.Peek.{
  IsDouble, IsDoubleIn, Peeks-discovery, Peeks-is_object_eof, eof_flag, blank,
}
use srs_simple.Protocol.Amf0.Codec.Parts.{Reads-read_utf8, Reads-read_object_eof}
use srs_simple.Protocol.Amf0.Table.{Distinct}

-- The values that the format can carry: a length is an int16_t and a count an int32_t, a double is
-- one that no reader takes for an end of object, and no object has a key twice.
abbrev mutual
  pub IsEncodable : Any → Type 0
  IsEncodable (string s) = length s < 32768
  IsEncodable (boolean t) = Unit {0}
  IsEncodable (number d) = IsDouble d
  IsEncodable null = Unit {0}
  IsEncodable undefined = Unit {0}
  IsEncodable object_eof = Unit {0}
  IsEncodable (object ps) = AreEncodable ps × Distinct ps
  IsEncodable (ecma_array c ps) = (c < 2 ^ 32) × (AreEncodable ps × Distinct ps)

  pub AreEncodable : Properties → Type 0
  AreEncodable nil = Unit {0}
  AreEncodable (property k v ps) = (length k < 32768) × IsEncodable v × AreEncodable ps

pub encodable_double : (v : Any) → IsEncodable v → IsDoubleIn v
encodable_double (number d) h = h
encodable_double (string s) h = tt
encodable_double (boolean t) h = tt
encodable_double null h = tt
encodable_double undefined h = tt
encodable_double object_eof h = tt
encodable_double (object ps) h = tt
encodable_double (ecma_array c ps) h = tt

-- The loop goes on while the buffer is not empty.
Reads-nonempty :
    (ps : Properties) (k : M Properties) (x : ℕ) (out : List ℕ) {v : Properties}
    → Reads k (x ∷ out) v
    → Reads (λ b. if empty b then ok (ps, b) else k b) (x ∷ out) v
Reads-nonempty ps k x out h pre post = rw (empty-cursor pre (x ∷ (out ++ post)), more) (h pre post)
  where
    more : leb (suc (length (out ++ post))) 0 ≡ false
    more = ground arith

-- A property does not look like an end of object.
property_no_eof :
    (k : List ℕ) (v : Any) (xs : List ℕ)
    → length k < 32768
    → eof_flag (wire_utf8 k ++ (wire v ++ xs)) ≡ false
property_no_eof [] (string s) xs h = refl
property_no_eof [] (boolean t) xs h = refl
property_no_eof [] (number d) xs h = refl
property_no_eof [] null xs h = refl
property_no_eof [] undefined xs h = refl
property_no_eof [] object_eof xs h = refl
property_no_eof [] (object ps) xs h = refl
property_no_eof [] (ecma_array c ps) xs h = refl
property_no_eof (c ∷ k) v xs h = ground arith

-- The loop at the end of the object, and at one more property.
pub Reads-end :
    (any : M Any) (fuel : ℕ) (acc : Properties)
    → Reads (read_properties any (suc fuel) acc) wire_object_eof acc
unfolding read_properties read_round
Reads-end any fuel acc =
    let round : Bool → M Properties = read_round any (read_properties any fuel) acc in
    Reads-nonempty acc (is_object_eof >>= round) 0 (0 ∷ 9 ∷ []) (
      Reads-peek is_object_eof round wire_object_eof
        (λ post. Peeks-is_object_eof (0 ∷ 0 ∷ 9 ∷ post))
        (Reads-bind read_object_eof (λ _. pure acc) wire_object_eof [] Reads-read_object_eof
          (Reads-pure acc)))

Reads-read_property :
    (any : M Any) (next : Properties → M Properties) (acc : Properties) (k : List ℕ) (v : Any)
    (out : List ℕ) {ps : Properties}
    → length k < 32768
    → Reads any (wire v) v
    → Reads (next (set k (some v) acc)) out ps
    → Reads (read_property any next acc) (wire_utf8 k ++ (wire v ++ out)) ps
unfolding read_property
Reads-read_property any next acc k v out hk hv h =
    Reads-bind (read_utf8 []) (λ name. any >>= λ value. next (set name (some value) acc))
      (wire_utf8 k) (wire v ++ out) (Reads-read_utf8 k hk)
      (Reads-bind any (λ value. next (set k (some value) acc)) (wire v) out hv h)

pub Reads-property :
    (any : M Any) (fuel : ℕ) (acc : Properties) (k : List ℕ) (v : Any) (out : List ℕ)
    {ps : Properties}
    → length k < 32768
    → Reads any (wire v) v
    → Reads (read_properties any fuel (set k (some v) acc)) out ps
    → Reads (read_properties any (suc fuel) acc) (wire_utf8 k ++ (wire v ++ out)) ps
unfolding read_properties read_round
Reads-property any fuel acc k v out hk hv h =
    let round : Bool → M Properties = read_round any (read_properties any fuel) acc in
    Reads-nonempty acc (is_object_eof >>= round) _ _ (
      Reads-peek is_object_eof round (wire_utf8 k ++ (wire v ++ out)) ahead
        (Reads-read_property any (read_properties any fuel) acc k v out hk hv h))
  where
    flag : (post : List ℕ) → eof_flag ((wire_utf8 k ++ (wire v ++ out)) ++ post) ≡ false
    flag post =
        ap eof_flag (
          append_assoc (wire_utf8 k) (wire v ++ out) post
          ∙ ap (λ l. wire_utf8 k ++ l) (append_assoc (wire v) out post))
        ∙ property_no_eof k v (out ++ post) hk

    ahead : (post : List ℕ) → Peeks is_object_eof ((wire_utf8 k ++ (wire v ++ out)) ++ post) false
    ahead post pre =
        rw (flag post) at (Peeks-is_object_eof ((wire_utf8 k ++ (wire v ++ out)) ++ post) pre)

pub Reads-read_any :
    (fuel : ℕ) (v : Any)
    → IsDoubleIn v
    → Reads (read (read_any fuel) fuel (blank v)) (wire v) v
    → Reads (read_any (suc fuel)) (wire v) v
unfolding read_any
Reads-read_any fuel v d h =
    Reads-peek discovery (read (read_any fuel) fuel) (wire v) (λ post. Peeks-discovery v post d) h
