-- ===== src/Protocol/Control/Tests.antt =====
-- The claims about the control packets of src/protocol/srs_protocol_rtmp_stack.cpp, at concrete
-- inputs.
use srs_simple.Base.{ℕ, ◌≡◌, refl, arith, List, [], ◌∷◌, ◌++◌, none, ok, inl}
use srs_simple.Base.Int.{pos}
use srs_simple.Kernel.Buffer.{Buffer}
use srs_simple.Kernel.Buffer.Reads.{Reads}
use srs_simple.Kernel.Flv.{Message, low_32bits}
use srs_simple.Protocol.Chunk.{ChunkStream, CommonMessage, init}
use srs_simple.Protocol.Chunk.First.{started}
use srs_simple.Protocol.Chunk.Message.{find, store, do_send_messages}
use srs_simple.Protocol.Control.{
  user_control, set_chunk_size, encode, decode_message, on_recv_message, Protocol, send_packet,
  response_acknowledgement_message,
}
use srs_simple.Protocol.Control.Receive.{TakesSize, on_recv_message-TakesSize}
use srs_simple.Protocol.Control.Effect.{
  IsAcknowledged, IsAnswer, settings, response_acknowledgement_message-IsAcknowledged,
}
use srs_simple.Protocol.Control.Delivery.{recv_message, recv_message-send}
use srs_simple.Protocol.Control.Settings.{setting, IsAcceptable, IsReply, recv_message-send_packet}

-- 4000 bytes received in a window of 5000, of which 1000 are acknowledged.
abbrev busy : Protocol
busy = record {
  in_chunk_size = 128;
  out_chunk_size = 128;
  in_ack_size = record { window = 5000; nb_recv_bytes = 1000; sequence_number = 1000 };
  out_ack_size = record { window = 0; nb_recv_bytes = 0; sequence_number = 0 };
  in_buffer_length = 0;
}

response_acknowledgement_message-IsAcknowledged_example :
    (s' : Protocol) × (out : List ℕ) × (response_acknowledgement_message 4 4000 busy ≡ ok (s', out))
    × IsAcknowledged 4000 s'.in_ack_size
    × IsAnswer 4 busy s' out
response_acknowledgement_message-IsAcknowledged_example =
    response_acknowledgement_message-IsAcknowledged 4 4000 busy (omega arith) (omega arith)

on_recv_message-TakesSize_example :
    (payload : List ℕ) × (encode (set_chunk_size 60000) ≡ ok payload)
    × TakesSize 60000 busy (on_recv_message 4 4000 1 payload busy)
on_recv_message-TakesSize_example =
    on_recv_message-TakesSize 4 4000 60000 busy busy (omega arith) (omega arith) (omega arith)

-- Three bytes in chunks of 128, with an extended timestamp.
abbrev video : Message
video = record {
  message_type = 9;
  prefer_cid = 6;
  timestamp = pos 20000000;
  stream_id = 1;
  payload = 39 ∷ 1 ∷ 0 ∷ [];
}

recv_message-send_example :
    (out : List ℕ) × (d : ChunkStream) × (s' : Protocol) × (replies : List ℕ) × (do_send_messages 4
        128
        (video ∷ [])
      ≡ ok out)
    × (d.msg ≡ none)
    × (d.cid ≡ 6)
    × Reads (recv_message 4 4000 [] busy) out (
      store d [],
      record {
        header = (started (find 6 []) (low_32bits (pos 20000000)) 3 9 1).header;
        payload = video.payload;
      },
      s',
      replies,
    )
    × IsAcknowledged 4000 s'.in_ack_size
    × IsAnswer 4 busy s' replies
    × (settings s' ≡ settings busy)
unfolding find init
recv_message-send_example =
    recv_message-send video 4 4000 [] busy (omega arith) (inl (omega arith)) (omega arith)
      (omega arith) (omega arith) (omega arith) (omega arith) (omega arith) refl refl refl
      (omega arith) (omega arith)

-- A ping request with the data 77.
recv_message-send_packet_example :
    (out ack reply : List ℕ) × (ss : List ChunkStream) × (m : CommonMessage) × (b : Buffer) × (a
      s' : Protocol)
    × (send_packet 10 128 (user_control 6 77 0) ≡ ok out)
    × Reads (recv_message 10 4000 [] busy) out (ss, m, s', ack ++ reply)
    × (decode_message m.header.message_type m.payload ≡ ok (user_control 6 77 0, b))
    × (settings s' ≡ setting (user_control 6 77 0) (settings busy))
    × IsAnswer 10 busy a ack
    × IsReply 10 128 (user_control 6 77 0) reply
unfolding IsAcceptable
recv_message-send_packet_example =
    recv_message-send_packet 10 4000 (user_control 6 77 0) busy (omega arith, refl, refl) tt
      (omega arith) (omega arith) (omega arith)
