-- ===== src/Protocol/Command/Calls.antt =====
-- Packets of src/protocol/srs_protocol_rtmp_stack.cpp between two peers: a result that answers a call,
-- and the metadata of a publisher.
use srs_simple.Base.{
  ℕ, ◌≡◌, ◌≤◌, ◌<◌, ◌∙◌, refl, ap, Bool, true, false, if◌then◌else◌, List, [], ◌∷◌, ◌++◌, Option,
  none, some, ok, arith,
}
use srs_simple.Kernel.Buffer.Cursor.{cursor}
use srs_simple.Protocol.Amf0.{Any, Properties, string, ecma_array, nil, total_size, copy}
use srs_simple.Protocol.Amf0.Codec.Wire.{wire, total_size-wire}
use srs_simple.Protocol.Amf0.Copy.{IsCopyable, copy_lem}
use srs_simple.Protocol.Amf0.Codec.Encodable.{IsEncodable}
use srs_simple.Protocol.Command.{
  Command, connect_app, connect_app_res, create_stream, create_stream_res, fmle_start,
  fmle_start_res, on_meta_data, connect, create_stream_name, on_metadata, set_data_frame, get_size,
}
use srs_simple.Protocol.Command.Write.{encode}
use srs_simple.Protocol.Command.Decode.{is_fmle, to_metadata, decode_on_meta_data}
use srs_simple.Protocol.Command.Message.{
  Requests, is_nan, same_id, find_request, set_request, on_send_command, decode_call,
  do_decode_message,
}
use srs_simple.Protocol.Command.Optional.{Ends-set_data_frame}
use srs_simple.Protocol.Command.Dispatch.{Decodes-call, Ends-packet}
use srs_simple.Protocol.Command.RoundTrip.{IsSendable, IsAwaited, do_decode_message-encode}

same_id_refl : (id : ℕ) → is_nan id ≡ false → same_id id id ≡ true
unfolding same_id
same_id_refl id h = ground (arith, h)

-- At one entry, by whether it has the id.
find_request-entry :
    (id : ℕ) (name : List ℕ) (key : ℕ) (old : List ℕ) (rest rest' : Requests) (t : Bool)
    → same_id id key ≡ t
    → find_request id rest' ≡ some name
    → find_request id (if t then (key, name) ∷ rest else (key, old) ∷ rest') ≡ some name
unfolding find_request
find_request-entry id name key old rest rest' true e h =
    ap (λ u. if u then some name else find_request id rest) e
find_request-entry id name key old rest rest' false e h =
    ap (λ u. if u then some old else find_request id rest') e ∙ h

find_request-set_request :
    (id : ℕ) (name : List ℕ) (requests : Requests)
    → is_nan id ≡ false
    → find_request id (set_request id name requests) ≡ some name
unfolding find_request set_request
find_request-set_request id name [] h = ap (λ t. if t then some name else none) (same_id_refl id h)
find_request-set_request id name ((key, old) ∷ requests) h =
    find_request-entry id name key old requests (set_request id name requests) (same_id id key) refl
      (find_request-set_request id name requests h)

-- Which result answers which call.
pub data IsAnswer : Command → Command → Type 0 where
  connected :
      (id : ℕ) (o : Properties) (args : Option Properties) (props info : Properties)
      → IsAnswer (connect_app id o args) (connect_app_res id props info)
  created : (id stream_id : ℕ) → IsAnswer (create_stream id) (create_stream_res id stream_id)
  started :
      (name : List ℕ) (id : ℕ) (stream_name : List ℕ)
      → is_fmle name ≡ true
      → IsAnswer (fmle_start name id stream_name) (fmle_start_res id)

abbrev pub id_of : Command → ℕ
id_of (connect_app id o args) = id
id_of (create_stream id) = id
id_of (fmle_start name id stream_name) = id
id_of _ = 0

IsAwaited-answer :
    (requests : Requests) (call answer : Command)
    → IsAnswer call answer
    → is_nan (id_of call) ≡ false
    → IsAwaited (on_send_command call requests) answer
unfolding on_send_command
IsAwaited-answer requests call answer (connected id o args props info) h =
    find_request-set_request id connect requests h
IsAwaited-answer requests call answer (created id stream_id) h =
    find_request-set_request id create_stream_name requests h
IsAwaited-answer requests call answer (started name id stream_name hf) h =
    (name, find_request-set_request id name requests h, hf)

-- A peer that sent a connect, a createStream or a releaseStream, FCPublish or FCUnpublish with an id
-- that is no NaN, whatever it sent before, decodes the encoded result of that call, whose fields can
-- be on the wire, with fuel for its bytes, as that result.
pub on_send_command-answered :
    (fuel : ℕ) (requests : Requests) (call answer : Command)
    → IsAnswer call answer
    → is_nan (id_of call) ≡ false
    → IsSendable answer
    → get_size answer ≤ fuel
    → (payload : List ℕ) × (encode answer ≡ ok payload)
      × (do_decode_message fuel (on_send_command call requests) false payload
          ≡ ok (some answer, cursor payload []))
on_send_command-answered fuel requests call answer a h hs le =
    let r =
      do_decode_message-encode fuel (on_send_command call requests) answer hs
        (IsAwaited-answer requests call answer a h) le in
    (r.0, r.1, r.3)

table_of : Any → Properties
table_of (ecma_array c ps) = ps
table_of _ = nil

-- The metadata of a publisher, an ecma array that the format can carry behind @setDataFrame and
-- onMetaData, in which no string holds a zero byte and no table has a key twice: do_decode_message,
-- with fuel for the array, reads all of it, and returns the packet onMetaData of an object with the
-- same properties in their order.
pub do_decode_message-set_data_frame :
    (fuel : ℕ) (requests : Requests) (c : ℕ) (ps : Properties)
    → IsEncodable (ecma_array c ps)
    → IsCopyable (ecma_array c ps)
    → total_size (ecma_array c ps) < fuel
    → do_decode_message fuel requests false
        (wire (string set_data_frame) ++ (wire (string on_metadata) ++ wire (ecma_array c ps)))
      ≡ ok (
        some (on_meta_data on_metadata ps),
        cursor
            (wire (string set_data_frame) ++ (wire (string on_metadata) ++ wire (ecma_array c ps)))
            [],
      )
unfolding decode_call is_fmle to_metadata copy table_of
do_decode_message-set_data_frame fuel requests c ps he hc le =
    Decodes-call fuel requests set_data_frame _ (omega arith) refl (
      Ends-packet (decode_on_meta_data fuel) _ (
        Ends-set_data_frame fuel (ecma_array c ps) he
          (omega (arith, le, total_size-wire (ecma_array c ps)))))
    ∙ ap
        (λ qs. ok (
          some (on_meta_data on_metadata qs),
          cursor
              (wire (string set_data_frame)
                ++ (wire (string on_metadata) ++ wire (ecma_array c ps)))
              [],
        ))
        (ap table_of (copy_lem (ecma_array c ps) hc))
