-- ===== src/Protocol/Command/RoundTrip.antt =====
-- A command packet of src/protocol/srs_protocol_rtmp_stack.cpp, encoded, and decoded by the peer.
use srs_simple.Base.{
  ℕ, ◌^◌, ◌≡◌, ◌≤◌, ◌<◌, refl, sym, subst, true, false, List, [], ◌++◌, length, length-append, some,
  ok, arith,
}
use srs_simple.Kernel.Buffer.Cursor.{cursor}
use srs_simple.Protocol.Amf0.{Any, string, number, null, object}
use srs_simple.Protocol.Amf0.Codec.Wire.{wire}
use srs_simple.Protocol.Amf0.Codec.Encodable.{IsEncodable}
use srs_simple.Protocol.Command.{
  Command, connect_app, connect_app_res, create_stream, create_stream_res, fmle_start,
  fmle_start_res, publish, play, on_status_call, sample_access, on_meta_data, connect,
  create_stream_name, play_name, result, publish_name, on_metadata, release_stream, fc_publish,
  fc_unpublish, get_size,
}
use srs_simple.Protocol.Command.Write.{encode}
use srs_simple.Protocol.Command.Decode.{
  is_fmle, decode_connect_app, decode_connect_app_res, decode_create_stream,
  decode_create_stream_res, decode_fmle_start, decode_fmle_start_res, to_metadata, decode_publish,
  decode_play, decode_on_meta_data,
}
use srs_simple.Protocol.Command.Message.{
  Requests, find_request, packet, decode_response, decode_call, do_decode_message,
}
use srs_simple.Protocol.Command.Wire.{wire_args, wire_play, wire_command, get_size-wire}
use srs_simple.Protocol.Command.Encode.{encode-wire_command}
use srs_simple.Protocol.Command.Ends.{Ends}
use srs_simple.Protocol.Command.Read.{
  AreArgs, Ends-connect_app, Ends-connect_app_res, Ends-create_stream, Ends-create_stream_res,
  Ends-fmle_start, Ends-fmle_start_res,
}
use srs_simple.Protocol.Command.Optional.{wire-nonempty, Ends-publish, Ends-play, Ends-on_meta_data}
use srs_simple.Protocol.Command.Dispatch.{
  Decodes-call, Decodes-result, Ends-packet, is_fmle-elim, Ends-response,
}

-- The fields that a packet on the wire can have: a packet that only servers send has no reader.
abbrev pub IsSendable : Command → Type 0
IsSendable (connect_app id o args) = (id < 2 ^ 64) × IsEncodable (object o) × AreArgs args
IsSendable (connect_app_res id props info) =
    (id < 2 ^ 64) × IsEncodable (object props) × IsEncodable (object info)
IsSendable (create_stream id) = id < 2 ^ 64
IsSendable (create_stream_res id stream_id) = (id < 2 ^ 64) × (stream_id < 2 ^ 64)
IsSendable (fmle_start name id stream_name) =
    (id < 2 ^ 64) × (length stream_name < 32768) × (is_fmle name ≡ true)
IsSendable (fmle_start_res id) = id < 2 ^ 64
IsSendable (publish id stream_name type) =
    (id < 2 ^ 64) × (length stream_name < 32768) × (0 < length type) × (length type < 32768)
IsSendable (play id stream_name start duration reset) =
    (id < 2 ^ 64) × (length stream_name < 32768) × (start < 2 ^ 64) × (duration < 2 ^ 64)
IsSendable (on_status_call name id d) = ⊥
IsSendable (sample_access video audio) = ⊥
IsSendable (on_meta_data name metadata) = (name ≡ on_metadata) × IsEncodable (object metadata)

-- A result answers a request of its id.
abbrev pub IsAwaited : Requests → Command → Type 0
IsAwaited requests (connect_app_res id props info) = find_request id requests ≡ some connect
IsAwaited requests (create_stream_res id stream_id) =
    find_request id requests ≡ some create_stream_name
IsAwaited requests (fmle_start_res id) =
    (name : List ℕ) × (find_request id requests ≡ some name) × (is_fmle name ≡ true)
IsAwaited requests (connect_app id o args) = Unit {0}
IsAwaited requests (create_stream id) = Unit {0}
IsAwaited requests (fmle_start name id stream_name) = Unit {0}
IsAwaited requests (publish id stream_name type) = Unit {0}
IsAwaited requests (play id stream_name start duration reset) = Unit {0}
IsAwaited requests (on_status_call name id d) = Unit {0}
IsAwaited requests (sample_access video audio) = Unit {0}
IsAwaited requests (on_meta_data name metadata) = Unit {0}

-- What is behind two values, is smaller than all.
parts :
    (a b c : Any) (out : List ℕ) (fuel : ℕ)
    → length (wire a ++ (wire b ++ (wire c ++ out))) ≤ fuel
    → (length (wire c) < fuel) × (length out < fuel)
parts a b c out fuel le = omega (
  arith,
  le,
  wire-nonempty a,
  length-append (wire a) (wire b ++ (wire c ++ out)),
  length-append (wire b) (wire c ++ out),
  length-append (wire c) out,
)

abbrev pub Decodes : ℕ → Requests → Command → Type 0
Decodes fuel requests p =
    do_decode_message fuel requests false (wire_command p) ≡ ok (some p, cursor (wire_command p) [])

Decodes-fmle_start :
    (fuel : ℕ) (requests : Requests) (name : List ℕ) (id : ℕ) (stream_name : List ℕ)
    → id < 2 ^ 64
    → length stream_name < 32768
    → is_fmle name ≡ true
    → Decodes fuel requests (fmle_start name id stream_name)
unfolding decode_call is_fmle
Decodes-fmle_start fuel requests name id stream_name hid hs hf =
    is_fmle-elim (λ n. Decodes fuel requests (fmle_start n id stream_name)) name hf
      (Decodes-call fuel requests release_stream _ (omega arith) refl (
        Ends-packet decode_fmle_start _
          (Ends-fmle_start release_stream id stream_name refl (omega arith) (omega arith) hid hs)))
      (Decodes-call fuel requests fc_publish _ (omega arith) refl (
        Ends-packet decode_fmle_start _
          (Ends-fmle_start fc_publish id stream_name refl (omega arith) (omega arith) hid hs)))
      (Decodes-call fuel requests fc_unpublish _ (omega arith) refl (
        Ends-packet decode_fmle_start _
          (Ends-fmle_start fc_unpublish id stream_name refl (omega arith) (omega arith) hid hs)))

Ends-response_fmle :
    (fuel : ℕ) (name : List ℕ) (id : ℕ)
    → id < 2 ^ 64
    → is_fmle name ≡ true
    → Ends
        (decode_response fuel (some name))
        (wire_command (fmle_start_res id))
        (some (fmle_start_res id))
unfolding decode_response is_fmle
Ends-response_fmle fuel name id hid hf =
    let h : Ends (packet decode_fmle_start_res) (wire_command (fmle_start_res id))
        (some (fmle_start_res id)) =
      Ends-packet decode_fmle_start_res _ (Ends-fmle_start_res id hid) in
    is_fmle-elim
      (λ n.
        Ends (decode_response fuel (some n)) (wire_command (fmle_start_res id))
          (some (fmle_start_res id)))
      name hf h h h

pub Decodes-wire_command :
    (fuel : ℕ) (requests : Requests) (p : Command)
    → IsSendable p
    → IsAwaited requests p
    → length (wire_command p) ≤ fuel
    → Decodes fuel requests p
unfolding decode_call decode_response packet is_fmle to_metadata
Decodes-wire_command fuel requests (connect_app id o args) (hid, ho, ha) w le =
    let r = parts (string connect) (number id) (object o) (wire_args args) fuel le in
    Decodes-call fuel requests connect _ (omega arith) refl
      (Ends-packet (decode_connect_app fuel) _ (Ends-connect_app fuel id o args hid ho ha r.0 r.1))
Decodes-wire_command fuel requests (connect_app_res id props info) (hid, hp, hi) w le =
    let r = parts (string result) (number id) (object props) (wire (object info)) fuel le in
    Decodes-result fuel requests id _ hid (
      Ends-response fuel connect (find_request id requests) _ w (
        Ends-packet (decode_connect_app_res fuel) _
          (Ends-connect_app_res fuel id props info hid hp hi r.0 r.1)))
Decodes-wire_command fuel requests (create_stream id) hid w le =
    Decodes-call fuel requests create_stream_name _ (omega arith) refl
      (Ends-packet decode_create_stream _ (Ends-create_stream id hid))
Decodes-wire_command fuel requests (create_stream_res id stream_id) (hid, hs) w le =
    Decodes-result fuel requests id _ hid (
      Ends-response fuel create_stream_name (find_request id requests) _ w
        (Ends-packet decode_create_stream_res _ (Ends-create_stream_res id stream_id hid hs)))
Decodes-wire_command fuel requests (fmle_start name id stream_name) (hid, hs, hf) w le =
    Decodes-fmle_start fuel requests name id stream_name hid hs hf
Decodes-wire_command fuel requests (fmle_start_res id) hid w le =
    Decodes-result fuel requests id _ hid (
      Ends-response fuel w.0 (find_request id requests) _ w.1
        (Ends-response_fmle fuel w.0 id hid w.2))
Decodes-wire_command fuel requests (publish id stream_name type) (hid, hs, p, ht) w le =
    Decodes-call fuel requests publish_name _ (omega arith) refl
      (Ends-packet decode_publish _ (Ends-publish id stream_name type hid hs p ht))
Decodes-wire_command fuel requests (play id stream_name start duration reset) (hid, hn, hs, hd) w
      le =
    let r =
      parts (string play_name) (number id) null
        (wire (string stream_name) ++ wire_play start duration reset) fuel le in
    Decodes-call fuel requests play_name _ (omega arith) refl (
      Ends-packet (decode_play fuel) _
        (Ends-play fuel id stream_name start duration reset hid hn hs hd (omega (arith, le))))
Decodes-wire_command fuel requests (on_status_call name id d) h w le = absurd h
Decodes-wire_command fuel requests (sample_access video audio) h w le = absurd h
Decodes-wire_command fuel requests (on_meta_data name metadata) (hn, hm) w le =
    subst (λ n. Decodes fuel requests (on_meta_data n metadata)) (sym hn)
      (Decodes-call fuel requests on_metadata _ (omega arith) refl (
        Ends-packet (decode_on_meta_data fuel) _ (
          Ends-on_meta_data fuel (object metadata) hm
            (omega (arith, le, length-append (wire (string name)) (wire (object metadata)))))))

-- A command or metadata packet whose fields can be on the wire, and which is no status and no sample
-- access (for which there is no reader), is encoded without an error into get_size bytes, and
-- do_decode_message of an AMF0 message of these, with fuel for them, reads the same packet to the end;
-- for a result, where the requests have a call of its kind under its transaction id.
pub do_decode_message-encode :
    (fuel : ℕ) (requests : Requests) (p : Command)
    → IsSendable p
    → IsAwaited requests p
    → get_size p ≤ fuel
    → (payload : List ℕ) × (encode p ≡ ok payload)
      × (length payload ≡ get_size p)
      × (do_decode_message fuel requests false payload ≡ ok (some p, cursor payload []))
do_decode_message-encode fuel requests p h w le = (
  wire_command p,
  encode-wire_command p,
  sym (get_size-wire p),
  Decodes-wire_command fuel requests p h w (omega (arith, le, get_size-wire p)),
)
