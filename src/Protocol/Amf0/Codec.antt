-- ===== src/Protocol/Amf0/Codec.antt =====
-- src/protocol/srs_protocol_amf0: reading and writing values. The recursion of the readers is on
-- fuel, `stuck` being the answer with none left: a nested value, and the next property, take one
-- unit, and they take a byte of the buffer at least.
pub mod Encodable
pub mod Wire
pub mod Parts
mod Peek
pub mod RoundTrip
pub mod Safe
pub mod Misread
use srs_simple.Base.{
  ℕ, zero, suc, ◌+◌, ◌%◌, ◌<◌, ◌≡◌, Bool, true, false, not, ◌||◌, Option, none, some, List, [], ◌∷◌,
  ◌==◌, leb, if◌then◌else◌, length, Outcome, ErrorCode, ok, err, stuck, error_rtmp_amf0_decode,
  error_rtmp_amf0_invalid, error_rtmp_amf0_encode,
}
use srs_simple.Base.Int.{ℤ}
use srs_simple.Kernel.Buffer.{
  Buffer, M, ◌>>=◌, ◌>>◌, pure, empty, require, skip, require_or, read_1bytes, read_2bytes,
  read_3bytes, read_4bytes, read_8bytes, read_string, write_1bytes, write_2bytes, write_4bytes,
  write_8bytes, write_string,
}
use srs_simple.Protocol.Amf0.{
  Any, Properties, string, boolean, number, null, undefined, object_eof, object, ecma_array, nil,
  property, set,
}

pub fail : {A : Type 0} → ErrorCode → M A
fail e b = err e

-- srs_amf0_is_object_eof.
pub is_object_eof : M Bool
is_object_eof b =
    if require (ℤ.pos 3) b
    then (do flag ← read_3bytes; skip (ℤ.negsuc 2); pure (0x09 == flag)) b
    else pure false b

-- The switch of SrsAmf0Any::discovery.
pub of_marker : ℕ → M Any
of_marker m =
    if m == 0x02
    then pure (string [])
    else if m == 0x01
    then pure (boolean false)
    else if m == 0x00
    then pure (number 0)
    else if m == 0x05
    then pure null
    else if m == 0x06
    then pure undefined
    else if m == 0x03
    then pure (object nil)
    else if m == 0x08
    then pure (ecma_array 0 nil)
    else fail error_rtmp_amf0_invalid

pub discovery_marker : M Any
discovery_marker = do
  require_or 1 error_rtmp_amf0_decode
  m ← read_1bytes
  skip (ℤ.negsuc 0)
  of_marker m

pub discovery : M Any
discovery = do eof ← is_object_eof; if eof then pure object_eof else discovery_marker

-- The marker that each reader checks first.
pub read_marker : ℕ → M (Unit {0})
read_marker expected = do
  require_or 1 error_rtmp_amf0_decode
  m ← read_1bytes
  if m == expected then pure tt else fail error_rtmp_amf0_decode

-- `len` is an int16_t: from 32768 on it is negative, and the value stays as it was.
pub read_utf8 : List ℕ → M (List ℕ)
read_utf8 value = do
  require_or 2 error_rtmp_amf0_decode
  len ← read_2bytes
  if (len == 0) || leb 32768 len
      then pure value
      else (do require_or len error_rtmp_amf0_decode; read_string len)

pub read_object_eof : M (Unit {0})
read_object_eof = do
  require_or 2 error_rtmp_amf0_decode
  temp ← read_2bytes
  if temp == 0 then read_marker 0x09 else fail error_rtmp_amf0_decode

-- One round of the while loop of SrsAmf0Object::read and SrsAmf0EcmaArray::read, over
-- srs_amf0_read_any and the rounds that follow.
pub read_property : M Any → (Properties → M Properties) → Properties → M Properties
read_property read_any next ps = do
  name ← read_utf8 []
  value ← read_any
  next (set name (some value) ps)

pub read_round : M Any → (Properties → M Properties) → Properties → Bool → M Properties
read_round read_any next ps eof =
    if eof then (do read_object_eof; pure ps) else read_property read_any next ps

pub read_properties : M Any → ℕ → Properties → M Properties
read_properties read_any zero ps b = stuck
read_properties read_any (suc fuel) ps b =
    if empty b
    then ok (ps, b)
    else ◌>>=◌ is_object_eof (read_round read_any (read_properties read_any fuel) ps) b

-- The virtual SrsAmf0Any::read.
pub read : M Any → ℕ → Any → M Any
read read_any fuel (string s) = do read_marker 0x02; v ← read_utf8 s; pure (string v)
read read_any fuel (boolean t) = do
  read_marker 0x01
  require_or 1 error_rtmp_amf0_decode
  v ← read_1bytes
  pure (boolean (not (v == 0)))
read read_any fuel (number d) = do
  read_marker 0x00
  require_or 8 error_rtmp_amf0_decode
  v ← read_8bytes
  pure (number v)
read read_any fuel null = do read_marker 0x05; pure null
read read_any fuel undefined = do read_marker 0x06; pure undefined
read read_any fuel object_eof = do read_object_eof; pure object_eof
read read_any fuel (object ps) = do
  read_marker 0x03
  v ← read_properties read_any fuel ps
  pure (object v)
read read_any fuel (ecma_array c ps) = do
  read_marker 0x08
  require_or 4 error_rtmp_amf0_decode
  count ← read_4bytes
  v ← read_properties read_any fuel ps
  pure (ecma_array count v)

pub read_any : ℕ → M Any
read_any zero b = stuck
read_any (suc fuel) b = (do v ← discovery; read (read_any fuel) fuel v) b

pub write_utf8 : List ℕ → M (Unit {0})
write_utf8 value = do
  require_or 2 error_rtmp_amf0_encode
  write_2bytes (length value % 65536)
  if length value == 0
      then pure tt
      else (do require_or (length value) error_rtmp_amf0_encode; write_string value)

-- The marker that each writer puts first.
pub write_marker : ℕ → M (Unit {0}) → M (Unit {0})
write_marker m rest = do require_or 1 error_rtmp_amf0_encode; write_1bytes m; rest

pub write_object_eof : M (Unit {0})
unfolding write_marker
write_object_eof = do
  require_or 2 error_rtmp_amf0_encode
  write_2bytes 0x00
  write_marker 0x09 (pure tt)

unfoldable mutual
  unfolding write_marker

  pub write : Any → M (Unit {0})
  write (string s) = write_marker 0x02 (write_utf8 s)
  write (boolean t) =
      write_marker 0x01
        (do require_or 1 error_rtmp_amf0_encode; write_1bytes (if t then 0x01 else 0x00); pure tt)
  write (number d) =
      write_marker 0x00 (do require_or 8 error_rtmp_amf0_encode; write_8bytes d; pure tt)
  write null = write_marker 0x05 (pure tt)
  write undefined = write_marker 0x06 (pure tt)
  write object_eof = write_object_eof
  write (object ps) = write_marker 0x03 (do write_properties ps; write_object_eof)
  write (ecma_array c ps) = write_marker 0x08 (do
    require_or 4 error_rtmp_amf0_encode
    write_4bytes c
    write_properties ps
    write_object_eof)

  pub write_properties : Properties → M (Unit {0})
  write_properties nil = pure tt
  write_properties (property name any ps) = do write_utf8 name; write any; write_properties ps
