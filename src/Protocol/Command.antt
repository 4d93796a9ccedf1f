-- ===== src/Protocol/Command.antt =====
-- src/protocol/srs_protocol_rtmp_stack.cpp: the command and data packets of RTMP, over the values of
-- AMF0. A packet that a constructor makes has one name for each class, but for SrsFMLEStartPacket,
-- SrsOnStatusCallPacket and SrsOnMetaDataPacket, which hold theirs. A double is its 64 bits.

pub mod Write
pub mod Decode
pub mod Message
pub mod Wire
pub mod Encode
pub mod Ends
pub mod Read
pub mod Optional
pub mod Dispatch
pub mod RoundTrip
pub mod Calls
mod Tests
use srs_simple.Base.{
  ℕ, ◌+◌, ◌^◌, ◌%◌, Bool, true, false, not, ◌||◌, ◌&&◌, ◌==◌, same, if◌then◌else◌, List, [], ◌∷◌,
  length, replicate, Option, none, some, Outcome, ok, err, and_then, aborted,
  error_rtmp_amf0_decode, error_rtmp_no_request,
}
use srs_simple.Base.Int.{ℤ}
use srs_simple.Kernel.Buffer.{
  Buffer, M, ◌>>=◌, ◌>>◌, pure, init, empty, left, require, skip, require_or, read_8bytes,
}
use srs_simple.Protocol.Amf0.{
  Any, Properties, string, boolean, number, null, undefined, object_eof, object, ecma_array, nil,
  total_size, copy_into,
}
use srs_simple.Protocol.Amf0.Codec.{fail, read_marker, read_utf8, read_properties, read_any, write}

abbrev pub connect : List ℕ
connect = 99 ∷ 111 ∷ 110 ∷ 110 ∷ 101 ∷ 99 ∷ 116 ∷ []

abbrev pub create_stream_name : List ℕ
create_stream_name = 99 ∷ 114 ∷ 101 ∷ 97 ∷ 116 ∷ 101 ∷ 83 ∷ 116 ∷ 114 ∷ 101 ∷ 97 ∷ 109 ∷ []

abbrev pub play_name : List ℕ
play_name = 112 ∷ 108 ∷ 97 ∷ 121 ∷ []

abbrev pub result : List ℕ
result = 95 ∷ 114 ∷ 101 ∷ 115 ∷ 117 ∷ 108 ∷ 116 ∷ []

abbrev pub error_name : List ℕ
error_name = 95 ∷ 101 ∷ 114 ∷ 114 ∷ 111 ∷ 114 ∷ []

abbrev pub release_stream : List ℕ
release_stream = 114 ∷ 101 ∷ 108 ∷ 101 ∷ 97 ∷ 115 ∷ 101 ∷ 83 ∷ 116 ∷ 114 ∷ 101 ∷ 97 ∷ 109 ∷ []

abbrev pub fc_publish : List ℕ
fc_publish = 70 ∷ 67 ∷ 80 ∷ 117 ∷ 98 ∷ 108 ∷ 105 ∷ 115 ∷ 104 ∷ []

abbrev pub fc_unpublish : List ℕ
fc_unpublish = 70 ∷ 67 ∷ 85 ∷ 110 ∷ 112 ∷ 117 ∷ 98 ∷ 108 ∷ 105 ∷ 115 ∷ 104 ∷ []

abbrev pub publish_name : List ℕ
publish_name = 112 ∷ 117 ∷ 98 ∷ 108 ∷ 105 ∷ 115 ∷ 104 ∷ []

abbrev pub rtmp_sample_access : List ℕ
rtmp_sample_access =
    124 ∷ 82 ∷ 116 ∷ 109 ∷ 112 ∷ 83 ∷ 97 ∷ 109 ∷ 112 ∷ 108 ∷ 101 ∷ 65 ∷ 99 ∷ 99 ∷ 101 ∷ 115 ∷ 115
    ∷ []

abbrev pub on_metadata : List ℕ
on_metadata = 111 ∷ 110 ∷ 77 ∷ 101 ∷ 116 ∷ 97 ∷ 68 ∷ 97 ∷ 116 ∷ 97 ∷ []

abbrev pub set_data_frame : List ℕ
set_data_frame = 64 ∷ 115 ∷ 101 ∷ 116 ∷ 68 ∷ 97 ∷ 116 ∷ 97 ∷ 70 ∷ 114 ∷ 97 ∷ 109 ∷ 101 ∷ []

abbrev pub live : List ℕ
live = 108 ∷ 105 ∷ 118 ∷ 101 ∷ []

-- The doubles -2 and -1.
abbrev pub minus_two : ℕ
minus_two = 13835058055282163712

abbrev pub minus_one : ℕ
minus_one = 13830554455654793216

pub data Command : Type 0 where
  connect_app : ℕ → Properties → Option Properties → Command
  connect_app_res : ℕ → Properties → Properties → Command
  create_stream : ℕ → Command
  create_stream_res : ℕ → ℕ → Command
  fmle_start : List ℕ → ℕ → List ℕ → Command
  fmle_start_res : ℕ → Command
  publish : ℕ → List ℕ → List ℕ → Command
  play : ℕ → List ℕ → ℕ → ℕ → Bool → Command
  on_status_call : List ℕ → ℕ → Properties → Command
  sample_access : Bool → Bool → Command
  on_meta_data : List ℕ → Properties → Command

unfoldable pub size_args : Option Properties → ℕ
size_args none = 0
size_args (some args) = total_size (object args)

-- SrsPlayPacket leaves out what has its default, from the back.
unfoldable pub has_start : ℕ → ℕ → Bool → Bool
has_start start duration reset =
    not (start == minus_two) || (not (duration == minus_one) || not reset)

unfoldable pub has_duration : ℕ → Bool → Bool
has_duration duration reset = not (duration == minus_one) || not reset

abbrev pub size_connect_app : ℕ → Properties → Option Properties → ℕ
size_connect_app id o args =
    total_size (string connect) + total_size (number id) + total_size (object o) + size_args args

abbrev pub size_connect_app_res : ℕ → Properties → Properties → ℕ
size_connect_app_res id props info =
    total_size (string result)
    + total_size (number id)
    + total_size (object props)
    + total_size (object info)

abbrev pub size_create_stream : ℕ → ℕ
size_create_stream id =
    total_size (string create_stream_name) + total_size (number id) + total_size null

abbrev pub size_create_stream_res : ℕ → ℕ → ℕ
size_create_stream_res id stream_id =
    total_size (string result)
    + total_size (number id)
    + total_size null
    + total_size (number stream_id)

abbrev pub size_fmle_start : List ℕ → ℕ → List ℕ → ℕ
size_fmle_start name id stream_name =
    total_size (string name)
    + total_size (number id)
    + total_size null
    + total_size (string stream_name)

abbrev pub size_fmle_start_res : ℕ → ℕ
size_fmle_start_res id =
    total_size (string result) + total_size (number id) + total_size null + total_size undefined

abbrev pub size_publish : ℕ → List ℕ → List ℕ → ℕ
size_publish id stream_name type =
    total_size (string publish_name)
    + total_size (number id)
    + total_size null
    + total_size (string stream_name)
    + total_size (string type)

abbrev pub size_play : ℕ → List ℕ → ℕ → ℕ → Bool → ℕ
size_play id stream_name start duration reset =
    total_size (string play_name)
    + total_size (number id)
    + total_size null
    + total_size (string stream_name)
    + (if has_start start duration reset then total_size (number start) else 0)
    + (if has_duration duration reset then total_size (number duration) else 0)
    + (if not reset then total_size (boolean reset) else 0)

abbrev pub size_on_status_call : List ℕ → ℕ → Properties → ℕ
size_on_status_call name id d =
    total_size (string name) + total_size (number id) + total_size null + total_size (object d)

abbrev pub size_sample_access : Bool → Bool → ℕ
size_sample_access video audio =
    total_size (string rtmp_sample_access) + total_size (boolean video) + total_size (boolean audio)

abbrev pub size_on_meta_data : List ℕ → Properties → ℕ
size_on_meta_data name metadata = total_size (string name) + total_size (object metadata)

unfoldable pub get_size : Command → ℕ
get_size (connect_app id o args) = size_connect_app id o args
get_size (connect_app_res id props info) = size_connect_app_res id props info
get_size (create_stream id) = size_create_stream id
get_size (create_stream_res id stream_id) = size_create_stream_res id stream_id
get_size (fmle_start name id stream_name) = size_fmle_start name id stream_name
get_size (fmle_start_res id) = size_fmle_start_res id
get_size (publish id stream_name type) = size_publish id stream_name type
get_size (play id stream_name start duration reset) = size_play id stream_name start duration reset
get_size (on_status_call name id d) = size_on_status_call name id d
get_size (sample_access video audio) = size_sample_access video audio
get_size (on_meta_data name metadata) = size_on_meta_data name metadata
