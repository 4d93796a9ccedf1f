-- ===== src/Protocol/Command/Decode.antt =====
-- src/protocol/srs_protocol_rtmp_stack.cpp: decode of each command packet, into a packet as its
-- constructor leaves it.
use srs_simple.Base.{
  ℕ, ◌%◌, Bool, true, not, ◌||◌, ◌==◌, same, if◌then◌else◌, List, [], length, Option, none, some,
  ok, error_rtmp_amf0_decode,
}
use srs_simple.Kernel.Buffer.{M, ◌>>=◌, ◌>>◌, pure, empty, require_or, read_8bytes}
use srs_simple.Protocol.Amf0.{
  Any, Properties, string, boolean, number, null, undefined, object_eof, object, ecma_array, nil,
  copy_into,
}
use srs_simple.Protocol.Amf0.Codec.{fail, read_marker, read_utf8, read_properties, read_any}
use srs_simple.Protocol.Command.{
  Command, connect_app, connect_app_res, create_stream, create_stream_res, fmle_start,
  fmle_start_res, publish, play, on_meta_data, connect, create_stream_name, play_name, result,
  release_stream, fc_publish, fc_unpublish, publish_name, on_metadata, set_data_frame, live,
  minus_one, minus_two,
}

-- The readers of Amf0, into a variable that keeps its value where the string is empty.
unfoldable pub srs_amf0_read_string : List ℕ → M (List ℕ)
srs_amf0_read_string value = do read_marker 0x02; read_utf8 value

unfoldable pub srs_amf0_read_number : M ℕ
srs_amf0_read_number = do read_marker 0x00; require_or 8 error_rtmp_amf0_decode; read_8bytes

unfoldable pub srs_amf0_read_null : M (Unit {0})
srs_amf0_read_null = read_marker 0x05

unfoldable pub srs_amf0_read_undefined : M (Unit {0})
srs_amf0_read_undefined = read_marker 0x06

-- SrsAmf0Object::read of an empty object.
unfoldable pub read_object : ℕ → M Properties
read_object fuel = do read_marker 0x03; read_properties (read_any fuel) fuel nil

-- Whether a name that was read is not the one of the packet.
unfoldable pub check_name : List ℕ → Bool → M (Unit {0})
check_name command_name invalid =
    if (length command_name == 0) || invalid then fail error_rtmp_amf0_decode else pure tt

unfoldable pub read_name : List ℕ → M (Unit {0})
read_name name = do
  command_name ← srs_amf0_read_string name
  check_name command_name (not (same command_name name))

-- is_object and to_object.
unfoldable pub to_object : Any → Option Properties
to_object (object ps) = some ps
to_object (string s) = none
to_object (boolean t) = none
to_object (number d) = none
to_object null = none
to_object undefined = none
to_object object_eof = none
to_object (ecma_array c ps) = none

-- What is behind the command object, dropped where it is no object.
unfoldable pub read_args : ℕ → M (Option Properties)
read_args fuel b =
    if empty b then ok (none, b) else (do any ← read_any fuel; pure (to_object any)) b

unfoldable pub decode_connect_app : ℕ → M Command
decode_connect_app fuel = do
  read_name connect
  transaction_id ← srs_amf0_read_number
  command_object ← read_object fuel
  args ← read_args fuel
  pure (connect_app transaction_id command_object args)

unfoldable pub or_empty : Option Properties → Properties
or_empty none = nil
or_empty (some ps) = ps

unfoldable pub decode_connect_app_res : ℕ → M Command
decode_connect_app_res fuel = do
  read_name result
  transaction_id ← srs_amf0_read_number
  props ← read_args fuel
  info ← read_object fuel
  pure (connect_app_res transaction_id (or_empty props) info)

unfoldable pub decode_create_stream : M Command
decode_create_stream = do
  read_name create_stream_name
  transaction_id ← srs_amf0_read_number
  srs_amf0_read_null
  pure (create_stream transaction_id)

unfoldable pub decode_create_stream_res : M Command
decode_create_stream_res = do
  read_name result
  transaction_id ← srs_amf0_read_number
  srs_amf0_read_null
  stream_id ← srs_amf0_read_number
  pure (create_stream_res transaction_id stream_id)

unfoldable pub is_fmle : List ℕ → Bool
is_fmle name = same name release_stream || (same name fc_publish || same name fc_unpublish)

unfoldable pub decode_fmle_start : M Command
decode_fmle_start = do
  command_name ← srs_amf0_read_string release_stream
  check_name command_name (not (is_fmle command_name))
  transaction_id ← srs_amf0_read_number
  srs_amf0_read_null
  stream_name ← srs_amf0_read_string []
  pure (fmle_start command_name transaction_id stream_name)

unfoldable pub decode_fmle_start_res : M Command
decode_fmle_start_res = do
  read_name result
  transaction_id ← srs_amf0_read_number
  srs_amf0_read_null
  srs_amf0_read_undefined
  pure (fmle_start_res transaction_id)

unfoldable pub read_type : M (List ℕ)
read_type b = if empty b then ok (live, b) else srs_amf0_read_string live b

unfoldable pub decode_publish : M Command
decode_publish = do
  read_name publish_name
  transaction_id ← srs_amf0_read_number
  srs_amf0_read_null
  stream_name ← srs_amf0_read_string []
  type ← read_type
  pure (publish transaction_id stream_name type)

unfoldable pub read_number_or : ℕ → M ℕ
read_number_or value b = if empty b then ok (value, b) else srs_amf0_read_number b

-- A Boolean value or a number, which is true where it is neither 0 nor -0.
unfoldable pub to_reset : Any → M Bool
to_reset (boolean t) = pure t
to_reset (number d) = pure (not (d % 9223372036854775808 == 0))
to_reset (string s) = fail error_rtmp_amf0_decode
to_reset null = fail error_rtmp_amf0_decode
to_reset undefined = fail error_rtmp_amf0_decode
to_reset object_eof = fail error_rtmp_amf0_decode
to_reset (object ps) = fail error_rtmp_amf0_decode
to_reset (ecma_array c ps) = fail error_rtmp_amf0_decode

unfoldable pub read_reset : ℕ → M Bool
read_reset fuel b =
    if empty b then ok (true, b) else (do reset_value ← read_any fuel; to_reset reset_value) b

unfoldable pub decode_play : ℕ → M Command
decode_play fuel = do
  read_name play_name
  transaction_id ← srs_amf0_read_number
  srs_amf0_read_null
  stream_name ← srs_amf0_read_string []
  start ← read_number_or minus_two
  duration ← read_number_or minus_one
  reset ← read_reset fuel
  pure (play transaction_id stream_name start duration reset)

-- An ecma array is copied into an empty object; all but it and an object are dropped.
unfoldable pub to_metadata : Any → Properties
to_metadata (object ps) = ps
to_metadata (ecma_array c ps) = copy_into ps nil
to_metadata (string s) = nil
to_metadata (boolean t) = nil
to_metadata (number d) = nil
to_metadata null = nil
to_metadata undefined = nil
to_metadata object_eof = nil

unfoldable pub read_metadata : ℕ → M Properties
read_metadata fuel b =
    if empty b then ok (nil, b) else (do any ← read_any fuel; pure (to_metadata any)) b

unfoldable pub skip_set_data_frame : List ℕ → M (List ℕ)
skip_set_data_frame name = if same name set_data_frame then srs_amf0_read_string name else pure name

unfoldable pub decode_on_meta_data : ℕ → M Command
decode_on_meta_data fuel = do
  first ← srs_amf0_read_string on_metadata
  name ← skip_set_data_frame first
  metadata ← read_metadata fuel
  pure (on_meta_data name metadata)
