-- ===== src/Protocol/Control.antt =====
-- src/protocol/srs_protocol_rtmp_stack.cpp: the control packets, and what SrsProtocol does with those
-- that it receives. A field is its bit pattern; chunk_size and the windows are int32_t. The socket's
-- count of received bytes is an argument. After an error the connection is closed, so an error
-- carries no state.
pub mod RoundTrip
pub mod Effect
pub mod Receive
pub mod Delivery
pub mod Settings
mod Tests
use srs_simple.Base.{
  ℕ, ◌+◌, ◌-◌, ◌/◌, ◌%◌, Bool, true, false, ◌||◌, ◌&&◌, not, ltb, leb, ◌==◌, if◌then◌else◌, List,
  [], ◌∷◌, ◌++◌, length, replicate, Outcome, ok, err, aborted, and_then, error_rtmp_message_decode,
  error_rtmp_message_encode, error_rtmp_chunk_size,
}
use srs_simple.Base.Int.{pos}
use srs_simple.Kernel.Buffer.{
  Buffer, M, ◌>>=◌, ◌>>◌, pure, init, require_or, read_1bytes, read_2bytes, read_4bytes,
  write_1bytes, write_2bytes, write_4bytes,
}
use srs_simple.Kernel.Flv.{Message}
use srs_simple.Protocol.Chunk.Message.{do_send_messages}

pub data Control : Type 0 where
  set_chunk_size acknowledgement set_window_ack_size : ℕ → Control
  user_control : ℕ → ℕ → ℕ → Control
  set_peer_bandwidth : ℕ → ℕ → Control

abbrev pub get_message_type : Control → ℕ
get_message_type (set_chunk_size n) = 1
get_message_type (acknowledgement n) = 3
get_message_type (user_control t d x) = 4
get_message_type (set_window_ack_size n) = 5
get_message_type (set_peer_bandwidth n t) = 6

-- SrsPCUCFmsEvent0 is 26, SrcPCUCSetBufferLength 3.
abbrev pub get_size : Control → ℕ
get_size (set_chunk_size n) = 4
get_size (acknowledgement n) = 4
get_size (user_control t d x) = 2 + (if t == 26 then 1 else 4) + (if t == 3 then 4 else 0)
get_size (set_window_ack_size n) = 4
get_size (set_peer_bandwidth n t) = 5

unfoldable pub write_4 : ℕ → M (Unit {0})
write_4 n = require_or 4 error_rtmp_message_encode >> write_4bytes n

unfoldable pub write_user_control : ℕ → ℕ → ℕ → M (Unit {0})
write_user_control t d x =
    write_2bytes t
    >> ((if t == 26 then write_1bytes d else write_4bytes d)
        >> (if t == 3 then write_4bytes x else pure tt))

unfoldable pub encode_packet : Control → M (Unit {0})
encode_packet (set_chunk_size n) = write_4 n
encode_packet (acknowledgement n) = write_4 n
encode_packet (user_control t d x) =
    require_or (get_size (user_control t d x)) error_rtmp_message_encode >> write_user_control t d x
encode_packet (set_window_ack_size n) = write_4 n
encode_packet (set_peer_bandwidth n t) =
    require_or 5 error_rtmp_message_encode >> (write_4bytes n >> write_1bytes t)

-- SrsPacket::encode, into new memory, which encode_packet fills.
unfoldable pub encode : Control → Outcome (List ℕ)
encode p = and_then (encode_packet p (init (replicate (get_size p) 0))) (λ r. ok r.1.bytes)

unfoldable pub read_4 : M ℕ
read_4 = require_or 4 error_rtmp_message_decode >> read_4bytes

-- An int8_t as an int32_t.
unfoldable pub widen : ℕ → ℕ
widen b = if ltb b 128 then b else b + 4294967040

unfoldable pub read_event_data : ℕ → M ℕ
read_event_data t =
    if t == 26
    then require_or 1 error_rtmp_message_decode >> (read_1bytes >>= λ b. pure (widen b))
    else read_4

unfoldable pub read_extra_data : ℕ → M ℕ
read_extra_data t = if t == 3 then require_or 4 error_rtmp_message_encode >> read_4bytes else pure 0

unfoldable pub decode_user_control : M Control
decode_user_control =
    require_or 2 error_rtmp_message_decode
    >> (read_2bytes >>= λ t.
        read_event_data t >>= λ d. read_extra_data t >>= λ x. pure (user_control t d x))

-- do_decode_message, for the types of control packets that a peer sends.
unfoldable pub decode : ℕ → M Control
decode message_type =
    if message_type == 4
    then decode_user_control
    else (if message_type == 5
        then (read_4 >>= λ n. pure (set_window_ack_size n))
        else (if message_type == 3
            then (read_4 >>= λ n. pure (acknowledgement n))
            else (read_4 >>= λ n. pure (set_chunk_size n))))

-- decode_message; recv_message hands on no empty message.
unfoldable pub decode_message : ℕ → List ℕ → Outcome (Control × Buffer)
decode_message message_type payload =
    if ltb 0 (length payload) then decode message_type (init payload) else aborted

pub record AckWindow : Type 0 where
  pub window : ℕ
  pub nb_recv_bytes : ℕ
  pub sequence_number : ℕ

pub record Protocol : Type 0 where
  pub in_chunk_size : ℕ
  pub out_chunk_size : ℕ
  pub in_ack_size : AckWindow
  pub out_ack_size : AckWindow
  pub in_buffer_length : ℕ

-- What sending a control packet changes.
unfoldable pub on_send_packet : Control → Protocol → Protocol
on_send_packet (set_chunk_size n) s = record s { out_chunk_size = n }
on_send_packet (set_window_ack_size n) s = record s {
  out_ack_size = record s.out_ack_size { window = n };
}
on_send_packet (acknowledgement n) s = s
on_send_packet (user_control t d x) s = s
on_send_packet (set_peer_bandwidth n t) s = s

-- do_send_and_free_packet of a control packet on stream 0, on RTMP_CID_ProtocolControl.
unfoldable pub send_packet : ℕ → ℕ → Control → Outcome (List ℕ)
send_packet fuel out_chunk_size p = and_then (encode p) (λ payload.
    do_send_messages fuel out_chunk_size (
      record {
        message_type = get_message_type p;
        prefer_cid = 2;
        timestamp = pos 0;
        stream_id = 0;
        payload = payload;
      }
      ∷ []))

-- (uint32_t)(recv_bytes - nb_recv_bytes); the count never falls.
unfoldable pub ack_delta : ℕ → AckWindow → ℕ
ack_delta recv_bytes a = (recv_bytes - a.nb_recv_bytes) % 4294967296

unfoldable pub ack_sequence : ℕ → AckWindow → ℕ
ack_sequence delta a =
    let n = (a.sequence_number + delta) % 4294967296 in if ltb 4026531840 n then delta else n

unfoldable pub response_acknowledgement_message : ℕ → ℕ → Protocol → Outcome (Protocol × List ℕ)
response_acknowledgement_message fuel recv_bytes s =
    let a = s.in_ack_size in
    let delta = ack_delta recv_bytes a in
    if leb a.window 0 || ltb delta (a.window / 2)
    then ok (s, [])
    else and_then (send_packet fuel s.out_chunk_size (acknowledgement (ack_sequence delta a)))
        (λ out. ok (
          record s {
            in_ack_size = record a {
              nb_recv_bytes = recv_bytes;
              sequence_number = ack_sequence delta a;
            };
          },
          out,
        ))

-- What SrsProtocol does with a packet; SrcPCUCPingRequest is 6 and the response 7. A chunk_size from
-- 2 ^ 31 on is negative.
unfoldable pub apply : ℕ → Control → Protocol → Outcome (Protocol × List ℕ)
apply fuel (set_window_ack_size n) s =
    if ltb 0 n && ltb n 2147483648
    then ok (record s { in_ack_size = record s.in_ack_size { window = n } }, [])
    else ok (s, [])
apply fuel (set_chunk_size n) s =
    if ltb n 128 || leb 2147483648 n
    then err error_rtmp_chunk_size
    else ok (record s { in_chunk_size = n }, [])
apply fuel (user_control t d x) s =
    let s' : Protocol = if t == 3 then record s { in_buffer_length = x } else s in
    if t == 6
    then and_then (send_packet fuel s.out_chunk_size (user_control 7 d 0)) (λ out. ok (s', out))
    else ok (s', [])
apply fuel (acknowledgement n) s = ok (s, [])
apply fuel (set_peer_bandwidth n t) s = ok (s, [])

unfoldable pub on_packet : ℕ → ℕ → List ℕ → Protocol → Outcome (Protocol × List ℕ)
on_packet fuel message_type payload s =
    if message_type == 1 || message_type == 4 || message_type == 5
    then and_then (decode_message message_type payload) (λ r. apply fuel r.0 s)
    else ok (s, [])

-- The state behind a message, and the bytes that the replies to it put on the socket.
unfoldable pub on_recv_message : ℕ → ℕ → ℕ → List ℕ → Protocol → Outcome (Protocol × List ℕ)
on_recv_message fuel recv_bytes message_type payload s =
    and_then (response_acknowledgement_message fuel recv_bytes s)
      (λ a. and_then (on_packet fuel message_type payload a.0) (λ b. ok (b.0, a.1 ++ b.1)))
