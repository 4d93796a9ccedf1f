-- ===== src/Protocol/Command/Message.antt =====
-- src/protocol/srs_protocol_rtmp_stack.cpp: what do_decode_message does with a command or data
-- message, and the requests that on_send_packet keeps for it. The std::map is an association list; an
-- id that is a NaN, which has no order, is taken for a key that the map does not have.
use srs_simple.Base.{
  ℕ, ◌%◌, ltb, Bool, false, not, ◌||◌, ◌&&◌, ◌==◌, same, if◌then◌else◌, List, [], ◌∷◌, length,
  Option, none, some, Outcome, ok, error_rtmp_no_request,
}
use srs_simple.Base.Int.{pos}
use srs_simple.Kernel.Buffer.{Buffer, M, ◌>>=◌, ◌>>◌, pure, init, skip}
use srs_simple.Protocol.Amf0.Codec.{fail}
use srs_simple.Protocol.Command.{
  Command, connect_app, connect_app_res, create_stream, create_stream_res, fmle_start,
  fmle_start_res, publish, play, on_meta_data, on_status_call, sample_access, connect,
  create_stream_name, play_name, result, error_name, publish_name, on_metadata, set_data_frame,
}
use srs_simple.Protocol.Command.Decode.{
  srs_amf0_read_string, srs_amf0_read_number, is_fmle, decode_connect_app, decode_connect_app_res,
  decode_create_stream, decode_create_stream_res, decode_fmle_start, decode_fmle_start_res,
  decode_publish, decode_play, decode_on_meta_data,
}

-- The names of the requests that were sent, by their ids. 0 and -0 are one key.
abbrev pub Requests : Type 0
Requests = List (ℕ × List ℕ)

unfoldable pub is_nan : ℕ → Bool
is_nan d = ltb 9218868437227405312 (d % 9223372036854775808)

unfoldable pub same_id : ℕ → ℕ → Bool
same_id a b =
    not (is_nan a)
    && ((a == b) || ((a % 9223372036854775808 == 0) && (b % 9223372036854775808 == 0)))

unfoldable pub find_request : ℕ → Requests → Option (List ℕ)
find_request id [] = none
find_request id ((key, name) ∷ requests) =
    if same_id id key then some name else find_request id requests

unfoldable pub set_request : ℕ → List ℕ → Requests → Requests
set_request id name [] = (id, name) ∷ []
set_request id name ((key, old) ∷ requests) =
    if same_id id key then (key, name) ∷ requests else (key, old) ∷ set_request id name requests

-- What on_send_packet keeps of a command that is sent.
unfoldable pub on_send_command : Command → Requests → Requests
on_send_command (connect_app id o args) = set_request id connect
on_send_command (create_stream id) = set_request id create_stream_name
on_send_command (fmle_start name id stream_name) = set_request id name
on_send_command (connect_app_res id props info) = λ requests. requests
on_send_command (create_stream_res id stream_id) = λ requests. requests
on_send_command (fmle_start_res id) = λ requests. requests
on_send_command (publish id stream_name type) = λ requests. requests
on_send_command (play id stream_name start duration reset) = λ requests. requests
on_send_command (on_status_call name id d) = λ requests. requests
on_send_command (sample_access video audio) = λ requests. requests
on_send_command (on_meta_data name metadata) = λ requests. requests

-- A packet of a class, and the plain SrsPacket for all that is dropped.
unfoldable pub packet : M Command → M (Option Command)
packet m = do p ← m; pure (some p)

-- The packet that answers the request of a name.
unfoldable pub decode_response : ℕ → Option (List ℕ) → M (Option Command)
decode_response fuel none = fail error_rtmp_no_request
decode_response fuel (some request_name) =
    if same request_name connect
    then packet (decode_connect_app_res fuel)
    else (if same request_name create_stream_name
        then packet decode_create_stream_res
        else (if is_fmle request_name
            then packet decode_fmle_start_res
            else fail error_rtmp_no_request))

unfoldable pub decode_call : ℕ → List ℕ → M (Option Command)
decode_call fuel command =
    if same command connect
    then packet (decode_connect_app fuel)
    else (if same command create_stream_name
        then packet decode_create_stream
        else (if same command play_name
            then packet (decode_play fuel)
            else (if same command publish_name
                then packet decode_publish
                else (if is_fmle command
                    then packet decode_fmle_start
                    else (if same command set_data_frame || same command on_metadata
                        then packet (decode_on_meta_data fuel)
                        else pure none)))))

-- Back to the start, behind the byte of an AMF3 command.
unfoldable pub rewind : Bool → M (Unit {0})
rewind amf3 b = if amf3 then skip (pos 1) (record b { p = 0 }) else ok (tt, record b { p = 0 })

unfoldable pub decode_result : ℕ → Requests → Bool → M (Option Command)
decode_result fuel requests amf3 = do
  id ← srs_amf0_read_number
  rewind amf3
  decode_response fuel (find_request id requests)

unfoldable pub decode_command : ℕ → Requests → Bool → M (Option Command)
decode_command fuel requests amf3 = do
  command ← srs_amf0_read_string []
  if same command result || same command error_name
      then decode_result fuel requests amf3
      else rewind amf3 >> decode_call fuel command

-- A timecode of FFmpeg.
unfoldable pub is_timecode : List ℕ → Bool
is_timecode [] = false
is_timecode (b ∷ bs) = b == 0 && length bs == 3

-- do_decode_message of a command or data message, which recv_message hands on where it is not empty.
-- An AMF3 command has a byte in front.
unfoldable pub do_decode_message : ℕ → Requests → Bool → List ℕ → Outcome (Option Command × Buffer)
do_decode_message fuel requests amf3 payload =
    if is_timecode payload
    then ok (none, init payload)
    else (if amf3
        then (skip (pos 1) >> decode_command fuel requests amf3) (init payload)
        else decode_command fuel requests amf3 (init payload))
