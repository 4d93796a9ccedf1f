-- ===== src/Protocol/Command/Encode.antt =====
-- encode of the command packets of src/protocol/srs_protocol_rtmp_stack.cpp.
use srs_simple.Base.{
  ℕ, ◌≡◌, ◌∙◌, ap, Bool, true, false, not, if◌then◌else◌, List, [], ◌++◌, length, append-nil,
  Option, none, some, arith, error_rtmp_amf0_encode, ok, err, and_then, replicate, length-replicate,
  drop, drop-ge, le→leb,
}
use srs_simple.Kernel.Buffer.{Buffer, M, ◌>>◌, pure, init}
use srs_simple.Kernel.Buffer.Cursor.{cursor}
use srs_simple.Kernel.Buffer.Writes.{Writes-pure, Writes-seq}
use srs_simple.Protocol.Amf0.{Any, Properties, string, boolean, number, null, undefined, object}
use srs_simple.Protocol.Amf0.Codec.{write}
use srs_simple.Protocol.Amf0.Codec.Wire.{wire, Encodes, Encodes-write_value}
use srs_simple.Protocol.Command.{
  Command, connect_app, connect_app_res, create_stream, create_stream_res, fmle_start,
  fmle_start_res, publish, play, on_status_call, sample_access, on_meta_data, connect,
  create_stream_name, play_name, result, publish_name, rtmp_sample_access, has_start, has_duration,
  get_size,
}
use srs_simple.Protocol.Command.Write.{write_args, write_play, encode_packet, encode}
use srs_simple.Protocol.Command.Wire.{when, wire_args, wire_play, wire_command, get_size-wire}

Encodes-next :
    (v : Any) (k : M (Unit {0})) (out : List ℕ)
    → Encodes k out
    → Encodes (write v >> k) (wire v ++ out)
Encodes-next v k out h = Writes-seq _ (write v) k (wire v) out (Encodes-write_value v) h

Encodes-when : (t : Bool) (v : Any) → Encodes (if t then write v else pure tt) (when t v)
Encodes-when true v = Encodes-write_value v
Encodes-when false v = Writes-pure _

Encodes-args : (args : Option Properties) → Encodes (write_args args) (wire_args args)
unfolding write_args
Encodes-args none = Writes-pure _
Encodes-args (some args) = Encodes-write_value (object args)

Encodes-play :
    (start duration : ℕ) (reset : Bool)
    → Encodes (write_play start duration reset) (wire_play start duration reset)
unfolding write_play
Encodes-play start duration reset =
    Writes-seq _ (if has_start start duration reset then write (number start) else pure tt)
      ((if has_duration duration reset then write (number duration) else pure tt)
        >> (if not reset then write (boolean reset) else pure tt))
      (when (has_start start duration reset) (number start)) _
      (Encodes-when (has_start start duration reset) (number start))
      (Writes-seq _ (if has_duration duration reset then write (number duration) else pure tt)
        (if not reset then write (boolean reset) else pure tt)
        (when (has_duration duration reset) (number duration)) (when (not reset) (boolean reset))
        (Encodes-when (has_duration duration reset) (number duration))
        (Encodes-when (not reset) (boolean reset)))

-- Three values and what follows.
Encodes-three :
    (a b c : Any) (k : M (Unit {0})) (out : List ℕ)
    → Encodes k out
    → Encodes (write a >> (write b >> (write c >> k))) (wire a ++ (wire b ++ (wire c ++ out)))
Encodes-three a b c k out h =
    Encodes-next a (write b >> (write c >> k)) (wire b ++ (wire c ++ out))
      (Encodes-next b (write c >> k) (wire c ++ out) (Encodes-next c k out h))

Encodes-encode_packet : (p : Command) → Encodes (encode_packet p) (wire_command p)
unfolding encode_packet
Encodes-encode_packet (connect_app id o args) =
    Encodes-three (string connect) (number id) (object o) (write_args args) (wire_args args)
      (Encodes-args args)
Encodes-encode_packet (connect_app_res id props info) =
    Encodes-three (string result) (number id) (object props) (write (object info))
      (wire (object info)) (Encodes-write_value (object info))
Encodes-encode_packet (create_stream id) =
    Encodes-next (string create_stream_name) (write (number id) >> write null)
      (wire (number id) ++ wire null)
      (Encodes-next (number id) (write null) (wire null) (Encodes-write_value null))
Encodes-encode_packet (create_stream_res id stream_id) =
    Encodes-three (string result) (number id) null (write (number stream_id))
      (wire (number stream_id)) (Encodes-write_value (number stream_id))
Encodes-encode_packet (fmle_start name id stream_name) =
    Encodes-three (string name) (number id) null (write (string stream_name))
      (wire (string stream_name)) (Encodes-write_value (string stream_name))
Encodes-encode_packet (fmle_start_res id) =
    Encodes-three (string result) (number id) null (write undefined) (wire undefined)
      (Encodes-write_value undefined)
Encodes-encode_packet (publish id stream_name type) =
    Encodes-three (string publish_name) (number id) null
      (write (string stream_name) >> write (string type))
      (wire (string stream_name) ++ wire (string type))
      (Encodes-next (string stream_name) (write (string type)) (wire (string type))
        (Encodes-write_value (string type)))
Encodes-encode_packet (play id stream_name start duration reset) =
    Encodes-three (string play_name) (number id) null
      (write (string stream_name) >> write_play start duration reset)
      (wire (string stream_name) ++ wire_play start duration reset)
      (Encodes-next (string stream_name) (write_play start duration reset)
        (wire_play start duration reset) (Encodes-play start duration reset))
Encodes-encode_packet (on_status_call name id d) =
    Encodes-three (string name) (number id) null (write (object d)) (wire (object d))
      (Encodes-write_value (object d))
Encodes-encode_packet (sample_access video audio) =
    Encodes-next (string rtmp_sample_access) (write (boolean video) >> write (boolean audio))
      (wire (boolean video) ++ wire (boolean audio))
      (Encodes-next (boolean video) (write (boolean audio)) (wire (boolean audio))
        (Encodes-write_value (boolean audio)))
Encodes-encode_packet (on_meta_data name metadata) =
    Encodes-next (string name) (write (object metadata)) (wire (object metadata))
      (Encodes-write_value (object metadata))

-- encode ends with the payload, of get_size bytes.
pub encode-wire_command : (p : Command) → encode p ≡ ok (wire_command p)
unfolding encode init
encode-wire_command p =
    ap (λ o. and_then o (λ r. ok r.1.bytes)) (Encodes-encode_packet p [] (replicate (get_size p) 0))
    ∙ ap
        (λ b.
          and_then {A = Unit {0} × Buffer}
            (if b
              then ok (tt, cursor (wire_command p) (drop (length (wire_command p)) memory))
              else err error_rtmp_amf0_encode)
            (λ r. ok r.1.bytes))
        (le→leb (length (wire_command p)) (length memory) (omega (arith, room)))
    ∙ ap (λ l. ok (wire_command p ++ l))
        (drop-ge (length (wire_command p)) memory (omega (arith, room)))
    ∙ ap ok (append-nil (wire_command p))
  where
    memory : List ℕ
    memory = replicate (get_size p) 0

    room : length memory ≡ length (wire_command p)
    room = length-replicate {A = ℕ} (get_size p) 0 ∙ get_size-wire p
