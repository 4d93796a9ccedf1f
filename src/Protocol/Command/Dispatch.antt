-- ===== src/Protocol/Command/Dispatch.antt =====
-- do_decode_message of src/protocol/srs_protocol_rtmp_stack.cpp: which decode has the payload.
use srs_simple.Base.{
  ℕ, ◌^◌, ◌≡◌, ◌<◌, ◌∙◌, ap, sym, subst, true, false, ◌||◌, same, same→eq, if◌then◌else◌, List, [],
  ◌++◌, length, Option, some, ok, arith, Bool-cases, inl, inr,
}
use srs_simple.Kernel.Buffer.{M, ◌>>◌, init}
use srs_simple.Kernel.Buffer.Cursor.{cursor}
use srs_simple.Kernel.Buffer.Reads.{>>=-ok}
use srs_simple.Protocol.Amf0.{string, number}
use srs_simple.Protocol.Amf0.Codec.Wire.{wire}
use srs_simple.Protocol.Command.{
  Command, result, error_name, release_stream, fc_publish, fc_unpublish,
}
use srs_simple.Protocol.Command.Decode.{srs_amf0_read_string, srs_amf0_read_number, is_fmle}
use srs_simple.Protocol.Command.Message.{
  Requests, find_request, packet, decode_response, decode_call, rewind, decode_result,
  decode_command, is_timecode, do_decode_message,
}
use srs_simple.Protocol.Command.Ends.{Ends, Ends-map, Reads-string_new, Reads-number}

-- Behind the name of a call, decode_call has the whole payload.
pub Decodes-call :
    (fuel : ℕ) (requests : Requests) (name out : List ℕ) {v : Option Command}
    → length name < 32768
    → (same name result || same name error_name) ≡ false
    → Ends (decode_call fuel name) (wire (string name) ++ out) v
    → do_decode_message fuel requests false (wire (string name) ++ out)
      ≡ ok (v, cursor (wire (string name) ++ out) [])
unfolding do_decode_message is_timecode init decode_command rewind
Decodes-call fuel requests name out h e k =
    >>=-ok (srs_amf0_read_string [])
      (λ command.
        if same command result || same command error_name
        then decode_result fuel requests false
        else rewind false >> decode_call fuel command)
      (cursor [] (wire (string name) ++ out)) (Reads-string_new name h [] out)
    ∙ ap
        (λ t.
          (if t then decode_result fuel requests false else rewind false >> decode_call fuel name)
            (cursor (wire (string name)) out))
        e
    ∙ k []

-- Behind the name and the id of a result, the request of the id says how the whole payload is read.
pub Decodes-result :
    (fuel : ℕ) (requests : Requests) (id : ℕ) (out : List ℕ) {v : Option Command}
    → id < 2 ^ 64
    → Ends
        (decode_response fuel (find_request id requests))
        (wire (string result) ++ (wire (number id) ++ out))
        v
    → do_decode_message fuel requests false (wire (string result) ++ (wire (number id) ++ out))
      ≡ ok (v, cursor (wire (string result) ++ (wire (number id) ++ out)) [])
unfolding do_decode_message is_timecode init decode_command decode_result rewind
Decodes-result fuel requests id out h k =
    >>=-ok (srs_amf0_read_string [])
      (λ command.
        if same command result || same command error_name
        then decode_result fuel requests false
        else rewind false >> decode_call fuel command)
      (cursor [] (wire (string result) ++ (wire (number id) ++ out)))
      (Reads-string_new result (omega arith) [] (wire (number id) ++ out))
    ∙ >>=-ok srs_amf0_read_number
        (λ d. rewind false >> decode_response fuel (find_request d requests))
        (cursor (wire (string result)) (wire (number id) ++ out))
        (Reads-number id h (wire (string result)) out)
    ∙ k []

pub Ends-packet :
    (m : M Command) (out : List ℕ) {p : Command} → Ends m out p → Ends (packet m) out (some p)
unfolding packet
Ends-packet m out h = Ends-map m some out h

-- A name of SrsFMLEStartPacket is one of three.
pub is_fmle-elim :
    (P : List ℕ → Type 0) (name : List ℕ)
    → is_fmle name ≡ true
    → P release_stream
    → P fc_publish
    → P fc_unpublish
    → P name
unfolding is_fmle
is_fmle-elim P name h p1 p2 p3 = elim (Bool-cases (same name release_stream)) [
  | inl t ↦ subst P (sym (same→eq name release_stream t)) p1
  | inr f ↦ elim (Bool-cases (same name fc_publish)) [
    | inl t ↦ subst P (sym (same→eq name fc_publish t)) p2
    | inr g ↦ subst P (sym (same→eq name fc_unpublish (ground (arith, h, f, g)))) p3
  ]
]

pub Ends-response :
    (fuel : ℕ) (name : List ℕ) (found : Option (List ℕ)) (out : List ℕ) {v : Option Command}
    → found ≡ some name
    → Ends (decode_response fuel (some name)) out v
    → Ends (decode_response fuel found) out v
Ends-response fuel name found out {v} e h =
    subst (λ o. Ends (decode_response fuel o) out v) (sym e) h
