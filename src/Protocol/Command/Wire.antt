-- ===== src/Protocol/Command/Wire.antt =====
-- The payload of a command packet, described on its own, and encode_packet and get_size of
-- src/protocol/srs_protocol_rtmp_stack.cpp against it.
use srs_simple.Base.{
  ℕ, ◌+◌, ◌≡◌, ◌∙◌, refl, Bool, true, false, not, if◌then◌else◌, List, [], ◌++◌, length,
  length-append, Option, none, some, arith,
}
use srs_simple.Protocol.Amf0.{
  Any, Properties, string, boolean, number, null, undefined, object, total_size,
}
use srs_simple.Protocol.Amf0.Codec.Wire.{wire, total_size-wire}
use srs_simple.Protocol.Command.{
  Command, connect_app, connect_app_res, create_stream, create_stream_res, fmle_start,
  fmle_start_res, publish, play, on_status_call, sample_access, on_meta_data, connect,
  create_stream_name, play_name, result, publish_name, rtmp_sample_access, has_start, has_duration,
  size_args, get_size,
}

-- A value that is there where t is true.
abbrev pub when : Bool → Any → List ℕ
when t v = if t then wire v else []

abbrev pub wire_args : Option Properties → List ℕ
wire_args none = []
wire_args (some args) = wire (object args)

abbrev pub wire_play : ℕ → ℕ → Bool → List ℕ
wire_play start duration reset =
    when (has_start start duration reset) (number start)
    ++ (when (has_duration duration reset) (number duration) ++ when (not reset) (boolean reset))

abbrev pub wire_command : Command → List ℕ
wire_command (connect_app id o args) =
    wire (string connect) ++ (wire (number id) ++ (wire (object o) ++ wire_args args))
wire_command (connect_app_res id props info) =
    wire (string result) ++ (wire (number id) ++ (wire (object props) ++ wire (object info)))
wire_command (create_stream id) =
    wire (string create_stream_name) ++ (wire (number id) ++ wire null)
wire_command (create_stream_res id stream_id) =
    wire (string result) ++ (wire (number id) ++ (wire null ++ wire (number stream_id)))
wire_command (fmle_start name id stream_name) =
    wire (string name) ++ (wire (number id) ++ (wire null ++ wire (string stream_name)))
wire_command (fmle_start_res id) =
    wire (string result) ++ (wire (number id) ++ (wire null ++ wire undefined))
wire_command (publish id stream_name type) =
    wire (string publish_name)
    ++ (wire (number id) ++ (wire null ++ (wire (string stream_name) ++ wire (string type))))
wire_command (play id stream_name start duration reset) =
    wire (string play_name)
    ++ (wire (number id)
        ++ (wire null ++ (wire (string stream_name) ++ wire_play start duration reset)))
wire_command (on_status_call name id d) =
    wire (string name) ++ (wire (number id) ++ (wire null ++ wire (object d)))
wire_command (sample_access video audio) =
    wire (string rtmp_sample_access) ++ (wire (boolean video) ++ wire (boolean audio))
wire_command (on_meta_data name metadata) = wire (string name) ++ wire (object metadata)

-- The sizes of values in front of others.
sizes1 :
    (a : Any) (m : ℕ) (out : List ℕ) → m ≡ length out → total_size a + m ≡ length (wire a ++ out)
sizes1 a m out h = omega (arith, total_size-wire a, length-append (wire a) out, h)

sizes2 :
    (a b : Any) (m : ℕ) (out : List ℕ)
    → m ≡ length out
    → total_size a + total_size b + m ≡ length (wire a ++ (wire b ++ out))
sizes2 a b m out h = omega (arith, sizes1 a (total_size b + m) (wire b ++ out) (sizes1 b m out h))

sizes3 :
    (a b c : Any) (m : ℕ) (out : List ℕ)
    → m ≡ length out
    → total_size a + total_size b + total_size c + m
      ≡ length (wire a ++ (wire b ++ (wire c ++ out)))
sizes3 a b c m out h =
    omega (arith, sizes2 a b (total_size c + m) (wire c ++ out) (sizes1 c m out h))

sizes4 :
    (a b c d : Any) (m : ℕ) (out : List ℕ)
    → m ≡ length out
    → total_size a + total_size b + total_size c + total_size d + m
      ≡ length (wire a ++ (wire b ++ (wire c ++ (wire d ++ out))))
sizes4 a b c d m out h =
    omega (arith, sizes3 a b c (total_size d + m) (wire d ++ out) (sizes1 d m out h))

size_when : (t : Bool) (v : Any) → (if t then total_size v else 0) ≡ length (when t v)
size_when true v = total_size-wire v
size_when false v = refl

size_args-wire : (args : Option Properties) → size_args args ≡ length (wire_args args)
unfolding size_args
size_args-wire none = refl
size_args-wire (some args) = total_size-wire (object args)

sizes_play :
    (a b c : Bool) (u v w : Any) (n m k : ℕ)
    → n ≡ length (when a u)
    → m ≡ length (when b v)
    → k ≡ length (when c w)
    → n + (m + k) ≡ length (when a u ++ (when b v ++ when c w))
sizes_play a b c u v w n m k hn hm hk = omega (
  arith,
  hn,
  hm,
  hk,
  length-append (when a u) (when b v ++ when c w),
  length-append (when b v) (when c w),
)

reassoc : (x a b c : ℕ) → x + a + b + c ≡ x + (a + (b + c))
reassoc x a b c = omega arith

-- get_size is the number of bytes of the payload.
pub get_size-wire : (p : Command) → get_size p ≡ length (wire_command p)
unfolding get_size
get_size-wire (connect_app id o args) =
    sizes3 (string connect) (number id) (object o) (size_args args) (wire_args args)
      (size_args-wire args)
get_size-wire (connect_app_res id props info) =
    sizes3 (string result) (number id) (object props) (total_size (object info))
      (wire (object info)) (total_size-wire (object info))
get_size-wire (create_stream id) =
    sizes2 (string create_stream_name) (number id) (total_size null) (wire null)
      (total_size-wire null)
get_size-wire (create_stream_res id stream_id) =
    sizes3 (string result) (number id) null (total_size (number stream_id))
      (wire (number stream_id)) (total_size-wire (number stream_id))
get_size-wire (fmle_start name id stream_name) =
    sizes3 (string name) (number id) null (total_size (string stream_name))
      (wire (string stream_name)) (total_size-wire (string stream_name))
get_size-wire (fmle_start_res id) =
    sizes3 (string result) (number id) null (total_size undefined) (wire undefined)
      (total_size-wire undefined)
get_size-wire (publish id stream_name type) =
    sizes4 (string publish_name) (number id) null (string stream_name) (total_size (string type))
      (wire (string type)) (total_size-wire (string type))
get_size-wire (play id stream_name start duration reset) =
    reassoc _ _ _ _
    ∙ sizes4 (string play_name) (number id) null (string stream_name) _
        (wire_play start duration reset)
        (sizes_play (has_start start duration reset) (has_duration duration reset) (not reset)
          (number start) (number duration) (boolean reset) _ _ _
          (size_when (has_start start duration reset) (number start))
          (size_when (has_duration duration reset) (number duration))
          (size_when (not reset) (boolean reset)))
get_size-wire (on_status_call name id d) =
    sizes3 (string name) (number id) null (total_size (object d)) (wire (object d))
      (total_size-wire (object d))
get_size-wire (sample_access video audio) =
    sizes2 (string rtmp_sample_access) (boolean video) (total_size (boolean audio))
      (wire (boolean audio)) (total_size-wire (boolean audio))
get_size-wire (on_meta_data name metadata) =
    sizes1 (string name) (total_size (object metadata)) (wire (object metadata))
      (total_size-wire (object metadata))
