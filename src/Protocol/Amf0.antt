-- ===== src/Protocol/Amf0.antt =====
-- src/protocol/srs_protocol_amf0: the AMF0 values, their property tables, sizes and copies.
-- A string is its bytes; a double is the 64 bits that memcpy moves between it and an int64_t.
pub mod Codec
pub mod Table
pub mod Copy
mod Tests
use srs_simple.Base.{
  ℕ, zero, suc, ◌+◌, ◌<◌, ◌≡◌, Bool, true, false, ◌||◌, Option, none, some, List, [], ◌∷◌, ◌==◌,
  if◌then◌else◌, length, same, Outcome, ok, aborted,
}

-- The subclasses of SrsAmf0Any, and the vector of SrsUnSortedHashtable.
mutual
  pub data Any : Type 0 where
    string : List ℕ → Any
    boolean : Bool → Any
    number : ℕ → Any
    null undefined object_eof : Any
    object : Properties → Any
    ecma_array : ℕ → Properties → Any

  pub data Properties : Type 0 where
    nil : Properties
    property : List ℕ → Any → Properties → Properties

-- The marker that each constructor sets.
pub marker : Any → ℕ
marker (string s) = 0x02
marker (boolean t) = 0x01
marker (number d) = 0x00
marker null = 0x05
marker undefined = 0x06
marker object_eof = 0x09
marker (object ps) = 0x03
marker (ecma_array c ps) = 0x08

pub is_string : Any → Bool
unfolding marker
is_string v = marker v == 0x02

pub is_number : Any → Bool
unfolding marker
is_number v = marker v == 0x00

pub is_object_eof_value : Any → Bool
unfolding marker
is_object_eof_value v = marker v == 0x09

pub is_complex_object : Any → Bool
unfolding marker
is_complex_object v = (marker v == 0x03) || ((marker v == 0x09) || (marker v == 0x08))

-- The dynamic_cast, and its srs_assert.
pub to_str : Any → Outcome (List ℕ)
to_str (string s) = ok s
to_str _ = aborted

pub to_number : Any → Outcome ℕ
to_number (number d) = ok d
to_number _ = aborted

-- SrsUnSortedHashtable.
pub count : Properties → ℕ
count nil = 0
count (property k v ps) = suc (count ps)

-- The loop of set, which leaves at the first entry of that name.
erase_first : List ℕ → Properties → Properties
erase_first key nil = nil
erase_first key (property name any ps) =
    if same key name then ps else property name any (erase_first key ps)

push_back : Properties → List ℕ → Any → Properties
push_back nil key value = property key value nil
push_back (property k v ps) key value = property k v (push_back ps key value)

push_value : Properties → List ℕ → Option Any → Properties
push_value ps key none = ps
push_value ps key (some value) = push_back ps key value

pub set : List ℕ → Option Any → Properties → Properties
unfolding erase_first push_value push_back
set key value ps = push_value (erase_first key ps) key value

unfoldable pub get_property : List ℕ → Properties → Option Any
get_property name nil = none
get_property name (property key any ps) = if same key name then some any else get_property name ps

ensure : (Any → Bool) → Option Any → Option Any
ensure test none = none
ensure test (some prop) = if test prop then some prop else none

pub ensure_property_string : List ℕ → Properties → Option Any
unfolding ensure is_string get_property
ensure_property_string name ps = ensure is_string (get_property name ps)

pub ensure_property_number : List ℕ → Properties → Option Any
unfolding ensure is_number get_property
ensure_property_number name ps = ensure is_number (get_property name ps)

pub remove : List ℕ → Properties → Properties
remove name nil = nil
remove name (property key any ps) =
    if same key name then remove name ps else property key any (remove name ps)

-- c_str() stops at the first zero byte.
pub c_str : List ℕ → List ℕ
c_str [] = []
c_str (c ∷ s) = if c == 0 then [] else c ∷ c_str s

-- SrsAmf0Any::copy, and SrsUnSortedHashtable::copy into a table.
unfoldable mutual
  unfolding c_str set

  pub copy : Any → Any
  copy (string s) = string (c_str s)
  copy (boolean t) = boolean t
  copy (number d) = number d
  copy null = null
  copy undefined = undefined
  copy object_eof = object_eof
  copy (object ps) = object (copy_into ps nil)
  copy (ecma_array c ps) = ecma_array c (copy_into ps nil)

  pub copy_into : Properties → Properties → Properties
  copy_into nil acc = acc
  copy_into (property key any ps) acc = copy_into ps (set key (some (copy any)) acc)

-- SrsAmf0Size, and the virtual total_size.
unfoldable pub size_utf8 : List ℕ → ℕ
size_utf8 value = 2 + length value

unfoldable pub size_object_eof : ℕ
size_object_eof = 2 + 1

unfoldable mutual
  unfolding size_utf8 size_object_eof

  pub total_size : Any → ℕ
  total_size (string s) = 1 + size_utf8 s
  total_size (boolean t) = 1 + 1
  total_size (number d) = 1 + 8
  total_size null = 1
  total_size undefined = 1
  total_size object_eof = size_object_eof
  total_size (object ps) = 1 + size_properties ps + size_object_eof
  total_size (ecma_array c ps) = 1 + 4 + size_properties ps + size_object_eof

  pub size_properties : Properties → ℕ
  size_properties nil = 0
  size_properties (property k v ps) = size_utf8 k + total_size v + size_properties ps
