-- ===== src/Protocol/Amf0/Codec/Peek.antt =====
-- SrsAmf0Any::discovery and srs_amf0_is_object_eof of src/protocol/srs_protocol_amf0.cpp on the
-- wire form of a value: they move the cursor back to where it was.
use srs_simple.Base.{
  ℕ, suc, ◌+◌, ◌*◌, ◌/◌, ◌^◌, ◌≡◌, ◌≢◌, refl, ◌∙◌, ◌<◌, Bool, true, false, List, [], ◌∷◌, ◌++◌,
  ◌==◌, leb, length, arith, ok, err, error_rtmp_amf0_decode,
}
use srs_simple.Base.Int.{ℤ}
use srs_simple.Kernel.Buffer.{Buffer, skip, require_or, read_1bytes, read_3bytes}
use srs_simple.Kernel.Buffer.Cursor.{cursor, require-cursor, require_or-cursor, skip_back-cursor}
use srs_simple.Kernel.Buffer.Bytes.{be8}
use srs_simple.Kernel.Buffer.Writes.{>>-ok, >>-err}
use srs_simple.Kernel.Buffer.Reads.{Peeks, >>=-ok, Reads-read_1bytes, Reads-three_bytes}
use srs_simple.Protocol.Amf0.{
  Any, string, boolean, number, null, undefined, object_eof, object, ecma_array, nil,
}
use srs_simple.Protocol.Amf0.Codec.{is_object_eof, of_marker, discovery_marker, discovery}
use srs_simple.Protocol.Amf0.Codec.Wire.{wire}

-- What srs_amf0_is_object_eof tests.
abbrev pub eof_flag : List ℕ → Bool
eof_flag [] = false
eof_flag (a ∷ []) = false
eof_flag (a ∷ b ∷ []) = false
eof_flag (a ∷ b ∷ c ∷ xs) = 9 == ((a * 256 + b) * 256 + c)

pub eof_flag_nonzero : (a : ℕ) (xs : List ℕ) → 0 < a → eof_flag (a ∷ xs) ≡ false
eof_flag_nonzero a [] h = refl
eof_flag_nonzero a (b ∷ []) h = refl
eof_flag_nonzero a (b ∷ c ∷ xs) h = ground arith

pub Peeks-is_object_eof : (xs : List ℕ) → Peeks is_object_eof xs (eof_flag xs)
unfolding is_object_eof
Peeks-is_object_eof [] pre = rw (require-cursor 3 pre [])
Peeks-is_object_eof (a ∷ []) pre = rw (require-cursor 3 pre (a ∷ []))
Peeks-is_object_eof (a ∷ b ∷ []) pre = rw (require-cursor 3 pre (a ∷ b ∷ []))
Peeks-is_object_eof (a ∷ b ∷ c ∷ xs) pre =
    let room : leb 3 (length (a ∷ b ∷ c ∷ xs)) ≡ true = ground arith in
    rw (require-cursor 3 pre (a ∷ b ∷ c ∷ xs), room)
      (>>=-ok read_3bytes _ (cursor pre (a ∷ b ∷ c ∷ xs)) (Reads-three_bytes a b c pre xs)
        ∙ >>-ok (skip (ℤ.negsuc 2)) _ (cursor (pre ++ (a ∷ b ∷ c ∷ [])) xs)
            (skip_back-cursor pre (a ∷ b ∷ c ∷ []) xs 2 refl))

-- The value that discovery creates for a marker.
abbrev pub blank : Any → Any
blank (string s) = string []
blank (boolean t) = boolean false
blank (number d) = number 0
blank null = null
blank undefined = undefined
blank object_eof = object_eof
blank (object ps) = object nil
blank (ecma_array c ps) = ecma_array 0 nil

-- With a byte left, discovery looks it up and moves back.
pub discovery_marker-cursor :
    (m : ℕ) (pre xs : List ℕ)
    → discovery_marker (cursor pre (m ∷ xs)) ≡ of_marker m (cursor pre (m ∷ xs))
unfolding discovery_marker
discovery_marker-cursor m pre xs =
    >>-ok (require_or 1 error_rtmp_amf0_decode) _ (cursor pre (m ∷ xs))
      (require_or-cursor 1 error_rtmp_amf0_decode pre (m ∷ xs) ∙ rw room)
    ∙ >>=-ok read_1bytes _ (cursor pre (m ∷ xs)) (Reads-read_1bytes m pre xs)
    ∙ >>-ok (skip (ℤ.negsuc 0)) _ (cursor (pre ++ (m ∷ [])) xs)
        (skip_back-cursor pre (m ∷ []) xs 0 refl)
  where
    room : leb 1 (suc (length xs)) ≡ true
    room = ground arith

Peeks-discovery_marker :
    (m : ℕ) (xs : List ℕ) {v : Any}
    → ((b : Buffer) → of_marker m b ≡ ok (v, b))
    → Peeks discovery_marker (m ∷ xs) v
Peeks-discovery_marker m xs h pre = discovery_marker-cursor m pre xs ∙ h (cursor pre (m ∷ xs))

-- With none left it answers the decode error.
pub discovery_marker-end :
    (pre : List ℕ) → discovery_marker (cursor pre []) ≡ err error_rtmp_amf0_decode
unfolding discovery_marker
discovery_marker-end pre =
    >>-err (require_or 1 error_rtmp_amf0_decode) _ (cursor pre [])
      (require_or-cursor 1 error_rtmp_amf0_decode pre [])

-- Where the next bytes are no end of object, discovery goes by the marker.
Peeks-discovery_by :
    (m : ℕ) (xs : List ℕ) {v : Any}
    → eof_flag (m ∷ xs) ≡ false
    → ((b : Buffer) → of_marker m b ≡ ok (v, b))
    → Peeks discovery (m ∷ xs) v
unfolding discovery
Peeks-discovery_by m xs no_eof h pre =
    >>=-ok is_object_eof _ (cursor pre (m ∷ xs)) (Peeks-is_object_eof (m ∷ xs) pre)
    ∙ rw no_eof (Peeks-discovery_marker m xs h pre)

pub Peeks-discovery_nonzero :
    (m : ℕ) (xs : List ℕ) {v : Any}
    → 0 < m
    → ((b : Buffer) → of_marker m b ≡ ok (v, b))
    → Peeks discovery (m ∷ xs) v
Peeks-discovery_nonzero m xs pos h = Peeks-discovery_by m xs (eof_flag_nonzero m xs pos) h

-- A double whose first two bytes are 00 09 begins like an end of object.
abbrev pub IsDouble : ℕ → Type 0
IsDouble d = (d < 2 ^ 64) × (d / 281474976710656 ≢ 9)

number_no_eof : (d : ℕ) (xs : List ℕ) → IsDouble d → eof_flag (0 ∷ (be8 d ++ xs)) ≡ false
number_no_eof d xs h = ground arith

abbrev pub IsDoubleIn : Any → Type 0
IsDoubleIn (number d) = IsDouble d
IsDoubleIn _ = Unit {0}

pub Peeks-discovery_eof : (post : List ℕ) → Peeks discovery (wire object_eof ++ post) object_eof
unfolding discovery
Peeks-discovery_eof post pre =
    >>=-ok is_object_eof _ (cursor pre (0 ∷ 0 ∷ 9 ∷ post))
      (Peeks-is_object_eof (0 ∷ 0 ∷ 9 ∷ post) pre)

pub Peeks-string : (xs : List ℕ) → Peeks discovery (2 ∷ xs) (string [])
unfolding of_marker
Peeks-string xs = Peeks-discovery_nonzero 2 xs (omega arith) (λ b. refl)

pub Peeks-discovery :
    (v : Any) (post : List ℕ) → IsDoubleIn v → Peeks discovery (wire v ++ post) (blank v)
unfolding of_marker
Peeks-discovery (string s) post h = Peeks-discovery_nonzero 2 _ (omega arith) (λ b. refl)
Peeks-discovery (boolean t) post h = Peeks-discovery_nonzero 1 _ (omega arith) (λ b. refl)
Peeks-discovery (number d) post h = Peeks-discovery_by 0 _ (number_no_eof d post h) (λ b. refl)
Peeks-discovery null post h = Peeks-discovery_nonzero 5 _ (omega arith) (λ b. refl)
Peeks-discovery undefined post h = Peeks-discovery_nonzero 6 _ (omega arith) (λ b. refl)
Peeks-discovery object_eof post h = Peeks-discovery_eof post
Peeks-discovery (object ps) post h = Peeks-discovery_nonzero 3 _ (omega arith) (λ b. refl)
Peeks-discovery (ecma_array c ps) post h = Peeks-discovery_nonzero 8 _ (omega arith) (λ b. refl)
