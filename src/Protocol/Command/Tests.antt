-- ===== src/Protocol/Command/Tests.antt =====
-- The claims about the command packets of src/protocol/srs_protocol_rtmp_stack.cpp, at concrete
-- inputs: a play of a stream with a duration, a connect and its result, and metadata of one number.
use srs_simple.Base.{ℕ, ◌≡◌, refl, true, false, List, [], ◌∷◌, ◌++◌, length, none, some, ok, arith}
use srs_simple.Kernel.Buffer.Cursor.{cursor}
use srs_simple.Protocol.Amf0.{
  Properties, string, boolean, ecma_array, nil, property, get_property, total_size, size_utf8,
  size_object_eof,
}
use srs_simple.Protocol.Amf0.Codec.Wire.{wire}
use srs_simple.Protocol.Command.{
  Command, connect_app, connect_app_res, play, on_meta_data, minus_two, on_metadata, set_data_frame,
  get_size, has_start, has_duration,
}
use srs_simple.Protocol.Command.Write.{encode}
use srs_simple.Protocol.Command.Message.{is_nan, on_send_command, do_decode_message}
use srs_simple.Protocol.Command.RoundTrip.{do_decode_message-encode}
use srs_simple.Protocol.Command.Calls.{
  connected, on_send_command-answered, do_decode_message-set_data_frame,
}

-- The double 1.
abbrev one : ℕ
one = 4607182418800017408

abbrev play_live : Command
play_live = play 0 (108 ∷ 105 ∷ 118 ∷ 101 ∷ []) minus_two one true

do_decode_message-encode_example :
    (payload : List ℕ) × (encode play_live ≡ ok payload)
    × (length payload ≡ get_size play_live)
    × (do_decode_message 100 [] false payload ≡ ok (some play_live, cursor payload []))
unfolding get_size has_start has_duration total_size size_utf8
do_decode_message-encode_example =
    do_decode_message-encode 100 [] play_live (omega arith, omega arith, omega arith, omega arith)
      tt (omega arith)

abbrev app : Properties
app = property (97 ∷ 112 ∷ 112 ∷ []) (string (108 ∷ [])) nil

abbrev call : Command
call = connect_app one app none

abbrev answer : Command
answer = connect_app_res one app nil

on_send_command-answered_example :
    (payload : List ℕ) × (encode answer ≡ ok payload)
    × (do_decode_message 100 (on_send_command call []) false payload
        ≡ ok (some answer, cursor payload []))
unfolding is_nan get_size total_size size_utf8 size_object_eof get_property
on_send_command-answered_example =
    on_send_command-answered 100 [] call answer (connected one app none app nil) refl
      (omega arith, ((omega arith, omega arith, tt), (refl, tt)), (tt, tt)) (omega arith)

abbrev meta : Properties
meta = property (97 ∷ []) (boolean true) nil

do_decode_message-set_data_frame_example :
    do_decode_message 100 [] false
      (wire (string set_data_frame) ++ (wire (string on_metadata) ++ wire (ecma_array 1 meta)))
    ≡ ok (
      some (on_meta_data on_metadata meta),
      cursor
          (wire (string set_data_frame) ++ (wire (string on_metadata) ++ wire (ecma_array 1 meta)))
          [],
    )
unfolding total_size size_utf8 size_object_eof get_property
do_decode_message-set_data_frame_example =
    do_decode_message-set_data_frame 100 [] 1 meta
      (omega arith, ((omega arith, tt, tt), (refl, tt))) ((tt, tt), (refl, tt)) (omega arith)
