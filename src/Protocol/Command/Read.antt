-- ===== src/Protocol/Command/Read.antt =====
-- decode of each command packet of src/protocol/srs_protocol_rtmp_stack.cpp, on its payload.
use srs_simple.Base.{
  ℕ, ◌^◌, ◌≡◌, ◌<◌, ap, true, not, List, [], ◌++◌, length, Option, none, some, arith,
}
use srs_simple.Kernel.Buffer.{M, ◌>>=◌, ◌>>◌, pure}
use srs_simple.Kernel.Buffer.Reads.{Reads, Reads-map}
use srs_simple.Protocol.Amf0.{Properties, string, number, null, undefined, object}
use srs_simple.Protocol.Amf0.Codec.{read_any}
use srs_simple.Protocol.Amf0.Codec.Wire.{wire}
use srs_simple.Protocol.Amf0.Codec.RoundTrip.{Reads-any}
use srs_simple.Protocol.Amf0.Codec.Encodable.{IsEncodable}
use srs_simple.Protocol.Command.{
  Command, connect_app, connect_app_res, create_stream, create_stream_res, fmle_start,
  fmle_start_res, connect, create_stream_name, result, release_stream,
}
use srs_simple.Protocol.Command.Decode.{
  srs_amf0_read_string, srs_amf0_read_number, srs_amf0_read_null, srs_amf0_read_undefined,
  read_object, check_name, to_object, read_args, decode_connect_app, or_empty,
  decode_connect_app_res, decode_create_stream, decode_create_stream_res, is_fmle,
  decode_fmle_start, decode_fmle_start_res,
}
use srs_simple.Protocol.Command.Wire.{wire_args, wire_command}
use srs_simple.Protocol.Command.Ends.{
  Ends, Ends-Reads, Ends-bind, Ends-map, Ends-default, Reads-nonempty, Reads-string_new,
  Reads-string, Reads-number, Reads-null, Reads-undefined, Reads-read_object, Reads-check_name,
  Ends-call,
}

-- A null behind the id, and what follows.
pub Ends-null :
    {A : Type 0} (k : M A) (out : List ℕ) {v : A}
    → Ends k out v
    → Ends (srs_amf0_read_null >> k) (wire null ++ out) v
Ends-null k out h = Ends-bind srs_amf0_read_null (λ _. k) (wire null) out Reads-null h

Reads-args :
    (ps : Properties) (fuel : ℕ)
    → IsEncodable (object ps)
    → length (wire (object ps)) < fuel
    → Reads (read_args fuel) (wire (object ps)) (some ps)
unfolding read_args to_object
Reads-args ps fuel h le =
    Reads-nonempty (read_any fuel >>= λ any. pure (to_object any)) none (wire (object ps))
      (omega arith)
      (Reads-map (read_any fuel) to_object (wire (object ps)) (Reads-any (object ps) fuel h le))

abbrev pub AreArgs : Option Properties → Type 0
AreArgs none = Unit {0}
AreArgs (some ps) = IsEncodable (object ps)

Ends-args :
    (args : Option Properties) (fuel : ℕ)
    → AreArgs args
    → length (wire_args args) < fuel
    → Ends (read_args fuel) (wire_args args) args
unfolding read_args
Ends-args none fuel h le = Ends-default (read_any fuel >>= λ any. pure (to_object any)) none
Ends-args (some ps) fuel h le =
    Ends-Reads (read_args fuel) (wire (object ps)) (Reads-args ps fuel h le)

pub Ends-connect_app :
    (fuel id : ℕ) (o : Properties) (args : Option Properties)
    → id < 2 ^ 64
    → IsEncodable (object o)
    → AreArgs args
    → length (wire (object o)) < fuel
    → length (wire_args args) < fuel
    → Ends (decode_connect_app fuel) (wire_command (connect_app id o args)) (connect_app id o args)
unfolding decode_connect_app
Ends-connect_app fuel id o args hid ho ha lo la =
    Ends-call connect id
      (λ t. read_object fuel >>= λ c. read_args fuel >>= λ a. pure (connect_app t c a))
      (wire (object o) ++ wire_args args) (omega arith) (omega arith) hid
      (Ends-bind (read_object fuel) (λ c. read_args fuel >>= λ a. pure (connect_app id c a))
        (wire (object o)) (wire_args args) (Reads-read_object o fuel ho (omega (arith, lo)))
        (Ends-map (read_args fuel) (λ a. connect_app id o a) (wire_args args)
          (Ends-args args fuel ha la)))

pub Ends-connect_app_res :
    (fuel id : ℕ) (props info : Properties)
    → id < 2 ^ 64
    → IsEncodable (object props)
    → IsEncodable (object info)
    → length (wire (object props)) < fuel
    → length (wire (object info)) < fuel
    → Ends
        (decode_connect_app_res fuel)
        (wire_command (connect_app_res id props info))
        (connect_app_res id props info)
unfolding decode_connect_app_res or_empty
Ends-connect_app_res fuel id props info hid hp hi lp li =
    Ends-call result id
      (λ t.
        read_args fuel >>= λ p. read_object fuel >>= λ i. pure (connect_app_res t (or_empty p) i))
      (wire (object props) ++ wire (object info)) (omega arith) (omega arith) hid
      (Ends-bind (read_args fuel)
        (λ p. read_object fuel >>= λ i. pure (connect_app_res id (or_empty p) i))
        (wire (object props)) (wire (object info)) (Reads-args props fuel hp lp)
        (Ends-map (read_object fuel) (λ i. connect_app_res id props i) (wire (object info))
          (Ends-Reads (read_object fuel) (wire (object info))
            (Reads-read_object info fuel hi (omega (arith, li))))))

pub Ends-create_stream :
    (id : ℕ)
    → id < 2 ^ 64
    → Ends decode_create_stream (wire_command (create_stream id)) (create_stream id)
unfolding decode_create_stream
Ends-create_stream id hid =
    Ends-call create_stream_name id (λ t. srs_amf0_read_null >> pure (create_stream t)) (wire null)
      (omega arith) (omega arith) hid
      (Ends-map srs_amf0_read_null (λ _. create_stream id) (wire null)
        (Ends-Reads srs_amf0_read_null (wire null) Reads-null))

pub Ends-create_stream_res :
    (id stream_id : ℕ)
    → id < 2 ^ 64
    → stream_id < 2 ^ 64
    → Ends decode_create_stream_res
        (wire_command (create_stream_res id stream_id))
        (create_stream_res id stream_id)
unfolding decode_create_stream_res
Ends-create_stream_res id stream_id hid hs =
    Ends-call result id
      (λ t. srs_amf0_read_null >> (srs_amf0_read_number >>= λ s. pure (create_stream_res t s)))
      (wire null ++ wire (number stream_id)) (omega arith) (omega arith) hid
      (Ends-null (srs_amf0_read_number >>= λ s. pure (create_stream_res id s))
        (wire (number stream_id))
        (Ends-map srs_amf0_read_number (λ s. create_stream_res id s) (wire (number stream_id))
          (Ends-Reads srs_amf0_read_number (wire (number stream_id)) (Reads-number stream_id hs))))

pub Ends-fmle_start :
    (name : List ℕ) (id : ℕ) (stream_name : List ℕ)
    → is_fmle name ≡ true
    → 0 < length name
    → length name < 32768
    → id < 2 ^ 64
    → length stream_name < 32768
    → Ends decode_fmle_start
        (wire_command (fmle_start name id stream_name))
        (fmle_start name id stream_name)
unfolding decode_fmle_start
Ends-fmle_start name id stream_name hf p hn hid hs =
    let ends : M Command = srs_amf0_read_number >>= λ t.
    srs_amf0_read_null >> (srs_amf0_read_string [] >>= λ s. pure (fmle_start name t s)) in
    Ends-bind (srs_amf0_read_string release_stream)
      (λ n.
        check_name n (not (is_fmle n))
        >> (srs_amf0_read_number >>= λ t.
            srs_amf0_read_null >> (srs_amf0_read_string [] >>= λ s. pure (fmle_start n t s))))
      (wire (string name)) _ (Reads-string release_stream name p hn)
      (Ends-bind (check_name name (not (is_fmle name))) (λ _. ends) [] _
        (Reads-check_name name (not (is_fmle name)) p (ap not hf))
        (Ends-bind srs_amf0_read_number
          (λ t. srs_amf0_read_null >> (srs_amf0_read_string [] >>= λ s. pure (fmle_start name t s)))
          (wire (number id)) (wire null ++ wire (string stream_name)) (Reads-number id hid)
          (Ends-null (srs_amf0_read_string [] >>= λ s. pure (fmle_start name id s))
            (wire (string stream_name))
            (Ends-map (srs_amf0_read_string []) (λ s. fmle_start name id s)
              (wire (string stream_name))
              (Ends-Reads (srs_amf0_read_string []) (wire (string stream_name))
                (Reads-string_new stream_name hs))))))

pub Ends-fmle_start_res :
    (id : ℕ)
    → id < 2 ^ 64
    → Ends decode_fmle_start_res (wire_command (fmle_start_res id)) (fmle_start_res id)
unfolding decode_fmle_start_res
Ends-fmle_start_res id hid =
    Ends-call result id
      (λ t. srs_amf0_read_null >> (srs_amf0_read_undefined >> pure (fmle_start_res t)))
      (wire null ++ wire undefined) (omega arith) (omega arith) hid
      (Ends-null (srs_amf0_read_undefined >> pure (fmle_start_res id)) (wire undefined) (
        Ends-map srs_amf0_read_undefined (λ _. fmle_start_res id) (wire undefined)
          (Ends-Reads srs_amf0_read_undefined (wire undefined) Reads-undefined)))
