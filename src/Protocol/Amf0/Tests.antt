-- ===== src/Protocol/Amf0/Tests.antt =====
-- Runs of src/protocol/srs_protocol_amf0.cpp, and its theorems at concrete inputs.
use srs_simple.Base.{
  ℕ, ◌≡◌, refl, List, [], ◌∷◌, ◌++◌, true, some, leb, if◌then◌else◌, ok, err, drop, length,
  error_rtmp_amf0_encode, replicate, length-replicate, arith,
}
use srs_simple.Kernel.Buffer.{Buffer, init, left}
use srs_simple.Kernel.Buffer.Cursor.{cursor}
use srs_simple.Kernel.Buffer.Bytes.{be2}
use srs_simple.Kernel.Buffer.Safe.{Good}
use srs_simple.Protocol.Amf0.{
  Any, Properties, string, boolean, number, null, object_eof, object, ecma_array, nil, property,
  set, get_property, copy, total_size,
}
use srs_simple.Protocol.Amf0.Table.{Distinct, get_property-set}
use srs_simple.Protocol.Amf0.Copy.{copy_lem}
use srs_simple.Protocol.Amf0.Codec.{read_any, write}
use srs_simple.Protocol.Amf0.Codec.Wire.{wire, wire_object_eof, write-wire, total_size-wire}
use srs_simple.Protocol.Amf0.Codec.RoundTrip.{read_any-write}
use srs_simple.Protocol.Amf0.Codec.Safe.{read_any-safe}
use srs_simple.Protocol.Amf0.Codec.Misread.{read_any-double_as_eof, read_any-long_string}

-- { "a": true, "b": { } } and the number 1.0.
abbrev table : Properties
table = property (97 ∷ []) (boolean true) (property (98 ∷ []) (object nil) nil)

abbrev sample : Any
sample = ecma_array 2 table

abbrev one : ℕ
one = 0x3ff0000000000000

abbrev gap : List ℕ
gap = 7 ∷ 7 ∷ 7 ∷ 7 ∷ 7 ∷ 7 ∷ 7 ∷ 7 ∷ 7 ∷ 7 ∷ []

wire_run :
    wire sample
    ≡ 8 ∷ 0 ∷ 0 ∷ 0 ∷ 2 ∷ 0 ∷ 1 ∷ 97 ∷ 1 ∷ 1 ∷ 0 ∷ 1 ∷ 98 ∷ 3 ∷ 0 ∷ 0 ∷ 9 ∷ 0 ∷ 0 ∷ 9 ∷ []
wire_run = refl

table-Distinct : Distinct table
unfolding get_property
table-Distinct = (refl, (refl, tt))

write-wire_example : write sample (cursor (1 ∷ []) (0 ∷ 0 ∷ [])) ≡ (
    if leb (total_size sample) 2
    then ok (tt, cursor ((1 ∷ []) ++ wire sample) (drop (total_size sample) (0 ∷ 0 ∷ [])))
    else err error_rtmp_amf0_encode)
write-wire_example = write-wire sample (1 ∷ []) (0 ∷ 0 ∷ [])

total_size-wire_example : total_size sample ≡ length (wire sample)
total_size-wire_example = total_size-wire sample

read_any-write_example :
    (b : Buffer) × (write (number one) (cursor [] gap) ≡ ok (tt, b))
    × (read_any 10 (record b { p = 0 }) ≡ ok (number one, b))
unfolding total_size
read_any-write_example =
    read_any-write (number one) 9 [] gap (omega arith, omega arith) (omega arith) (omega arith)

-- Five bytes of a number: there is no room for its eight.
read_any-safe_example :
    Good 1 (init (0 ∷ 1 ∷ 2 ∷ 3 ∷ 4 ∷ [])) (read_any 6 (init (0 ∷ 1 ∷ 2 ∷ 3 ∷ 4 ∷ [])))
unfolding init left
read_any-safe_example = read_any-safe 6 (init (0 ∷ 1 ∷ 2 ∷ 3 ∷ 4 ∷ [])) (omega arith) (omega arith)

get_property-set_example : get_property (97 ∷ []) (set (97 ∷ []) (some null) table) ≡ some null
get_property-set_example = get_property-set (97 ∷ []) (97 ∷ []) (some null) table table-Distinct

copy_lem_example : copy sample ≡ sample
copy_lem_example = copy_lem sample ((tt, ((tt, tt), tt)), table-Distinct)

read_any-double_as_eof_example :
    read_any 1 (cursor [] (wire (number 0x0009000000000001) ++ []))
    ≡ ok (object_eof, cursor wire_object_eof (0 ∷ 0 ∷ 0 ∷ 0 ∷ 0 ∷ 1 ∷ []))
read_any-double_as_eof_example =
    read_any-double_as_eof 0x0009000000000001 0 [] [] (omega arith) (omega arith)

-- As long a string as makes its length negative.
abbrev long : List ℕ
long = replicate 32768 97

long-length : length long ≡ 32768
long-length = length-replicate 32768 97

read_any-long_string_example :
    read_any 1 (cursor [] (wire (string long) ++ []))
    ≡ ok (string [], cursor (2 ∷ be2 (length long)) (long ++ []))
read_any-long_string_example =
    read_any-long_string long 0 [] [] (omega (arith, long-length)) (omega (arith, long-length))
