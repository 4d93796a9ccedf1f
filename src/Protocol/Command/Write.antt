-- ===== src/Protocol/Command/Write.antt =====
-- src/protocol/srs_protocol_rtmp_stack.cpp: encode_packet of the command and data packets, and
-- SrsPacket::encode.

use srs_simple.Base.{
  ℕ, Bool, not, if◌then◌else◌, List, replicate, Option, none, some, Outcome, ok, and_then,
}
use srs_simple.Kernel.Buffer.{M, ◌>>◌, pure, init}
use srs_simple.Protocol.Amf0.{Properties, string, boolean, number, null, undefined, object}
use srs_simple.Protocol.Amf0.Codec.{write}
use srs_simple.Protocol.Command.{
  connect_app, connect_app_res, create_stream, create_stream_res, fmle_start, fmle_start_res,
  publish, play, on_status_call, sample_access, on_meta_data, connect, create_stream_name,
  play_name, result, publish_name, rtmp_sample_access, Command, has_start, has_duration, get_size,
}

unfoldable pub write_args : Option Properties → M (Unit {0})
write_args none = pure tt
write_args (some args) = write (object args)

unfoldable pub write_play : ℕ → ℕ → Bool → M (Unit {0})
write_play start duration reset = do
  if has_start start duration reset then write (number start) else pure tt
  if has_duration duration reset then write (number duration) else pure tt
  if not reset then write (boolean reset) else pure tt

abbrev pub encode_connect_app : ℕ → Properties → Option Properties → M (Unit {0})
encode_connect_app id o args = do
  write (string connect)
  write (number id)
  write (object o)
  write_args args

abbrev pub encode_connect_app_res : ℕ → Properties → Properties → M (Unit {0})
encode_connect_app_res id props info = do
  write (string result)
  write (number id)
  write (object props)
  write (object info)

abbrev pub encode_create_stream : ℕ → M (Unit {0})
encode_create_stream id = do write (string create_stream_name); write (number id); write null

abbrev pub encode_create_stream_res : ℕ → ℕ → M (Unit {0})
encode_create_stream_res id stream_id = do
  write (string result)
  write (number id)
  write null
  write (number stream_id)

abbrev pub encode_fmle_start : List ℕ → ℕ → List ℕ → M (Unit {0})
encode_fmle_start name id stream_name = do
  write (string name)
  write (number id)
  write null
  write (string stream_name)

abbrev pub encode_fmle_start_res : ℕ → M (Unit {0})
encode_fmle_start_res id = do write (string result); write (number id); write null; write undefined

abbrev pub encode_publish : ℕ → List ℕ → List ℕ → M (Unit {0})
encode_publish id stream_name type = do
  write (string publish_name)
  write (number id)
  write null
  write (string stream_name)
  write (string type)

abbrev pub encode_play : ℕ → List ℕ → ℕ → ℕ → Bool → M (Unit {0})
encode_play id stream_name start duration reset = do
  write (string play_name)
  write (number id)
  write null
  write (string stream_name)
  write_play start duration reset

abbrev pub encode_on_status_call : List ℕ → ℕ → Properties → M (Unit {0})
encode_on_status_call name id d = do
  write (string name)
  write (number id)
  write null
  write (object d)

abbrev pub encode_sample_access : Bool → Bool → M (Unit {0})
encode_sample_access video audio = do
  write (string rtmp_sample_access)
  write (boolean video)
  write (boolean audio)

abbrev pub encode_on_meta_data : List ℕ → Properties → M (Unit {0})
encode_on_meta_data name metadata = do write (string name); write (object metadata)

unfoldable pub encode_packet : Command → M (Unit {0})
encode_packet (connect_app id o args) = encode_connect_app id o args
encode_packet (connect_app_res id props info) = encode_connect_app_res id props info
encode_packet (create_stream id) = encode_create_stream id
encode_packet (create_stream_res id stream_id) = encode_create_stream_res id stream_id
encode_packet (fmle_start name id stream_name) = encode_fmle_start name id stream_name
encode_packet (fmle_start_res id) = encode_fmle_start_res id
encode_packet (publish id stream_name type) = encode_publish id stream_name type
encode_packet (play id stream_name start duration reset) =
    encode_play id stream_name start duration reset
encode_packet (on_status_call name id d) = encode_on_status_call name id d
encode_packet (sample_access video audio) = encode_sample_access video audio
encode_packet (on_meta_data name metadata) = encode_on_meta_data name metadata

-- SrsPacket::encode, into new memory, which encode_packet fills.
unfoldable pub encode : Command → Outcome (List ℕ)
encode p = and_then (encode_packet p (init (replicate (get_size p) 0))) (λ r. ok r.1.bytes)
