-- ===== src/Protocol/Control/Delivery.antt =====
-- SrsProtocol::recv_message of src/protocol/srs_protocol_rtmp_stack.cpp: the loop over the chunks,
-- and on_recv_message of the message that it found.
use srs_simple.Base.{
  ℕ, ◌^◌, ◌≡◌, ◌⊎◌, ◌<◌, ◌≤◌, refl, subst, false, ◌||◌, ◌==◌, List, [], ◌∷◌, append-nil, length,
  none, ok, and_then,
}
use srs_simple.Kernel.Buffer.{M, ◌>>=◌}
use srs_simple.Kernel.Buffer.Reads.{Reads, Reads-bind}
use srs_simple.Kernel.Flv.{Message, low_32bits}
use srs_simple.Protocol.Chunk.{ChunkStream, CommonMessage}
use srs_simple.Protocol.Chunk.First.{started}
use srs_simple.Protocol.Chunk.Message.{find, store, recv_message_loop, do_send_messages}
use srs_simple.Protocol.Chunk.Message.RoundTrip.{recv_message_loop-send}
use srs_simple.Protocol.Control.{Protocol, on_packet, on_recv_message}
use srs_simple.Protocol.Control.Effect.{
  IsAcknowledged, IsAnswer, settings, response_acknowledgement_message-settings,
}

-- The chunk streams, the message, the state behind it and the bytes of the replies.
abbrev pub Delivered : Type 0
Delivered = List ChunkStream × CommonMessage × Protocol × List ℕ

-- on_recv_message, which reads nothing more.
unfoldable pub handle : ℕ → ℕ → Protocol → List ChunkStream × CommonMessage → M Delivered
handle fuel recv_bytes s (streams, msg) b =
    and_then (on_recv_message fuel recv_bytes msg.header.message_type msg.payload s)
      (λ o. ok ((streams, msg, o.0, o.1), b))

-- recv_bytes is the count of the socket behind the message.
unfoldable pub recv_message : ℕ → ℕ → List ChunkStream → Protocol → M Delivered
recv_message fuel recv_bytes streams s =
    recv_message_loop fuel s.in_chunk_size streams >>= handle fuel recv_bytes s

Reads-handle :
    (fuel recv_bytes : ℕ) (s s' : Protocol) (ss : List ChunkStream) (m : CommonMessage)
    (replies : List ℕ)
    → on_recv_message fuel recv_bytes m.header.message_type m.payload s ≡ ok (s', replies)
    → Reads (handle fuel recv_bytes s (ss, m)) [] (ss, m, s', replies)
unfolding handle
Reads-handle fuel recv_bytes s s' ss m replies h pre post = rw (h, append-nil pre) refl

pub Reads-recv_message :
    (fuel recv_bytes : ℕ) (s s' : Protocol) (streams ss : List ChunkStream) (m : CommonMessage)
    (out replies : List ℕ)
    → Reads {A = List ChunkStream × CommonMessage}
        (recv_message_loop fuel s.in_chunk_size streams)
        out
        (ss, m)
    → on_recv_message fuel recv_bytes m.header.message_type m.payload s ≡ ok (s', replies)
    → Reads (recv_message fuel recv_bytes streams s) out (ss, m, s', replies)
unfolding recv_message
Reads-recv_message fuel recv_bytes s s' streams ss m out replies h e =
    subst (λ o. Reads (recv_message fuel recv_bytes streams s) o (ss, m, s', replies))
      (append-nil out)
      (Reads-bind (recv_message_loop fuel s.in_chunk_size streams) (handle fuel recv_bytes s) out []
        h (Reads-handle fuel recv_bytes s s' ss m replies e))

on_packet-other :
    (fuel type : ℕ) (payload : List ℕ) (s : Protocol)
    → (type == 1 || type == 4 || type == 5) ≡ false
    → on_packet fuel type payload s ≡ ok (s, [])
unfolding on_packet
on_packet-other fuel type payload s h = rw h refl

on_recv_message-other :
    (fuel recv_bytes type : ℕ) (payload : List ℕ) (s : Protocol)
    → (type == 1 || type == 4 || type == 5) ≡ false
    → 0 < s.out_chunk_size
    → 4 ≤ fuel
    → (s' : Protocol) × (replies : List ℕ) × (on_recv_message fuel recv_bytes type payload s
        ≡ ok (s', replies))
      × IsAcknowledged recv_bytes s'.in_ack_size
      × IsAnswer fuel s s' replies
      × (settings s' ≡ settings s)
unfolding on_recv_message
on_recv_message-other fuel recv_bytes type payload s h z f =
    let (s', out, e, acknowledged, answer, same, _) =
      response_acknowledgement_message-settings fuel recv_bytes s z f in
    (
      s',
      out,
      rw (e, on_packet-other fuel type payload s' h, append-nil out) refl,
      acknowledged,
      answer,
      same,
    )

-- do_send_messages of a message with a chunk stream id of 2 to 63, 1 to 2^24-1 bytes of payload, a
-- stream id below 2^32 and a type that is none of 1, 4 and 5, with the positive in_chunk_size of
-- the receiver and fuel for the payload, ends with bytes that recv_message reads whole, where the
-- chunk size or the payload is at most 131072 bytes, the chunk stream is its own and has no part of
-- a message, and the receiver has a positive out_chunk_size and 4 units of fuel. It returns the
-- message with its payload, its length, type and stream id, and its timestamp cut to 31 bits; the
-- chunk stream is again its own and has no part of a message. Behind it, either nothing was replied
-- and the state is the same, or a peer receives the reply as an acknowledgement; the bytes received
-- since the last acknowledgement are none or less than half the window, where there is one, and the
-- chunk size, the window and the buffer length are the same.
pub recv_message-send :
    (msg : Message) (fuel recv_bytes : ℕ) (ss : List ChunkStream) (s : Protocol)
    → 1 ≤ s.in_chunk_size
    → (s.in_chunk_size ≤ 131072) ⊎ (length msg.payload ≤ 131072)
    → 2 ≤ msg.prefer_cid
    → msg.prefer_cid < 64
    → 1 ≤ length msg.payload
    → length msg.payload < 2 ^ 24
    → length msg.payload ≤ fuel
    → msg.stream_id < 2 ^ 32
    → (find msg.prefer_cid ss).msg ≡ none
    → (find msg.prefer_cid ss).cid ≡ msg.prefer_cid
    → (msg.message_type == 1 || msg.message_type == 4 || msg.message_type == 5) ≡ false
    → 0 < s.out_chunk_size
    → 4 ≤ fuel
    → (out : List ℕ) × (d : ChunkStream) × (s' : Protocol) × (replies : List ℕ) × (do_send_messages
          fuel s.in_chunk_size
          (msg ∷ [])
        ≡ ok out)
      × (d.msg ≡ none)
      × (d.cid ≡ msg.prefer_cid)
      × Reads (recv_message fuel recv_bytes ss s) out (
        store d ss,
        record {
          header =
              (started
                (find msg.prefer_cid ss)
                (low_32bits msg.timestamp)
                (length msg.payload)
                msg.message_type
                msg.stream_id).header;
          payload = msg.payload;
        },
        s',
        replies,
      )
      × IsAcknowledged recv_bytes s'.in_ack_size
      × IsAnswer fuel s s' replies
      × (settings s' ≡ settings s)
unfolding started
recv_message-send msg fuel recv_bytes ss s one fits low high nz size room sid n id other z f =
    let (out, d, e, free, own, r) =
      recv_message_loop-send msg s.in_chunk_size fuel ss one fits low high nz size room sid n id in
    let (s', replies, h, acknowledged, answer, same) =
      on_recv_message-other fuel recv_bytes msg.message_type msg.payload s other z f in
    (
      out,
      d,
      s',
      replies,
      e,
      free,
      own,
      Reads-recv_message fuel recv_bytes s s' ss (store d ss) _ out replies r h,
      acknowledged,
      answer,
      same,
    )
