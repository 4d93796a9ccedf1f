-- ===== src/Protocol/Control/Effect.antt =====
-- What a peer receives of the control packets that SrsProtocol sends
-- (src/protocol/srs_protocol_rtmp_stack.cpp).
use srs_simple.Base.{
  ◌⊎◌, inl, inr, Bool-cases, ltb→lt, ℕ, ◌+◌, ◌/◌, ◌%◌, ◌≡◌, ◌<◌, ◌≤◌, refl, ap, ◌∙◌, true, ◌||◌,
  ltb, leb, if_cases, List, [], ◌∷◌, length, Outcome, ok, and_then, arith,
}
use srs_simple.Base.Int.{pos}
use srs_simple.Kernel.Buffer.{Buffer, init}
use srs_simple.Kernel.Buffer.Reads.{Reads}
use srs_simple.Kernel.Flv.{Message}
use srs_simple.Protocol.Chunk
use srs_simple.Protocol.Chunk.{ChunkStream, CommonMessage}
use srs_simple.Protocol.Chunk.First.{started}
use srs_simple.Protocol.Chunk.Message.{find, recv_message_loop, do_send_messages}
use srs_simple.Protocol.Chunk.Message.RoundTrip.{recv_message_loop-send}
use srs_simple.Protocol.Control.{
  Control, set_chunk_size, acknowledgement, set_window_ack_size, user_control, set_peer_bandwidth,
  get_size, get_message_type, decode, send_packet, AckWindow, Protocol, ack_delta, ack_sequence,
  response_acknowledgement_message,
}
use srs_simple.Protocol.Control.RoundTrip.{
  wire, length-wire, IsSendable, encode-wire, decode-encode,
}

abbrev message : Control → Message
message p = record {
  message_type = get_message_type p;
  prefer_cid = 2;
  timestamp = pos 0;
  stream_id = 0;
  payload = wire p;
}

pub size_bounds : (p : Control) → (0 < get_size p) × (get_size p ≤ 10)
size_bounds (set_chunk_size n) = (omega arith, omega arith)
size_bounds (acknowledgement n) = (omega arith, omega arith)
size_bounds (set_window_ack_size n) = (omega arith, omega arith)
size_bounds (set_peer_bandwidth n t) = (omega arith, omega arith)
size_bounds (user_control t d x) = (ground arith, ground arith)

-- The peer's first message on a new connection, which is the packet.
pub record Arrives (fuel chunk_size : ℕ) (p : Control) (out : List ℕ) : Type 0 where
  pub streams : List ChunkStream
  pub received : CommonMessage
  pub behind : Buffer
  pub reads :
      Reads {A = List ChunkStream × CommonMessage}
        (recv_message_loop fuel chunk_size [])
        out
        (streams, received)
  pub typed : received.header.message_type ≡ get_message_type p
  pub carried : received.payload ≡ wire p
  pub decoded : decode received.header.message_type (init received.payload) ≡ ok (p, behind)

-- The bytes of a packet are received as the first message of a connection, all of them, and decode
-- to the packet.
pub send_packet-Arrives :
    (fuel chunk_size : ℕ) (p : Control)
    → IsSendable p
    → 0 < chunk_size
    → get_size p ≤ fuel
    → (out : List ℕ) × (send_packet fuel chunk_size p ≡ ok out) × Arrives fuel chunk_size p out
unfolding send_packet started find Chunk.init
send_packet-Arrives fuel chunk_size p s z f =
    let l : length (wire p) ≡ get_size p = length-wire p in
    let b = size_bounds p in
    let r =
      recv_message_loop-send (message p) chunk_size fuel [] z (inr (omega (arith, l, b.1)))
        (omega arith) (omega arith) (omega (arith, l, b.0)) (omega (arith, l, b.1))
        (omega (arith, l, f)) (omega arith) refl refl in
    let d = decode-encode p s in
    (
      r.0,
      ap
            (λ o. and_then o (λ payload.
              do_send_messages fuel chunk_size (record (message p) { payload = payload } ∷ [])))
            (encode-wire p)
          ∙ r.2,
      record {
        streams = _;
        received = _;
        behind = d.0;
        reads = r.5;
        typed = refl;
        carried = refl;
        decoded = d.1;
      },
    )

-- The bytes that were received since the last acknowledgement are none, or less than half the
-- window, where there is one.
abbrev pub IsAcknowledged : ℕ → AckWindow → Type 0
IsAcknowledged recv_bytes a =
    (a.window ≡ 0) ⊎ (ack_delta recv_bytes a ≡ 0) ⊎ (ack_delta recv_bytes a < a.window / 2)

-- What the control packets of a peer set: the chunk size, the window and the buffer length.
unfoldable pub settings : Protocol → ℕ × ℕ × ℕ
settings s = (s.in_chunk_size, s.in_ack_size.window, s.in_buffer_length)

-- Nothing is sent and nothing changes, or the peer receives the new sequence number.
abbrev pub IsAnswer : ℕ → Protocol → Protocol → List ℕ → Type 0
IsAnswer fuel s s' out =
    ((s' ≡ s) × (out ≡ []))
    ⊎ Arrives fuel s.out_chunk_size (acknowledgement s'.in_ack_size.sequence_number) out

ack_sequence-lt :
    (delta : ℕ) (a : AckWindow) → delta < 4294967296 → ack_sequence delta a < 4294967296
unfolding ack_sequence
ack_sequence-lt delta a h =
    if_cases (λ n. n < 4294967296) (ltb 4026531840 ((a.sequence_number + delta) % 4294967296)) delta
      ((a.sequence_number + delta) % 4294967296) (λ _. h) (λ _. omega arith)

ack_delta-lt : (n : ℕ) (a : AckWindow) → ack_delta n a < 4294967296
unfolding ack_delta
ack_delta-lt n a = omega arith

ack_delta_self : (n : ℕ) (a : AckWindow) → a.nb_recv_bytes ≡ n → ack_delta n a ≡ 0
unfolding ack_delta
ack_delta_self n a e = omega (arith, e)

not_due :
    (window delta : ℕ)
    → (leb window 0 || ltb delta (window / 2)) ≡ true
    → (window ≡ 0) ⊎ (delta ≡ 0) ⊎ (delta < window / 2)
not_due window delta e = elim (Bool-cases (leb window 0)) [
  | inl z ↦ inl (ground (arith, z))
  | inr n ↦ inr (inr (ltb→lt delta (window / 2) (ground (arith, e, n))))
]

-- The settings stay with an acknowledgement.
pub response_acknowledgement_message-settings :
    (fuel recv_bytes : ℕ) (s : Protocol)
    → 0 < s.out_chunk_size
    → 4 ≤ fuel
    → (s' : Protocol) × (out : List ℕ) × (response_acknowledgement_message fuel recv_bytes s
        ≡ ok (s', out))
      × IsAcknowledged recv_bytes s'.in_ack_size
      × IsAnswer fuel s s' out
      × (settings s' ≡ settings s)
      × (s'.out_chunk_size ≡ s.out_chunk_size)
unfolding response_acknowledgement_message settings
response_acknowledgement_message-settings fuel recv_bytes s z f =
    if_cases {A = Outcome (Protocol × List ℕ)}
      (λ o.
        (s' : Protocol) × (out : List ℕ) × (o ≡ ok (s', out))
        × IsAcknowledged recv_bytes s'.in_ack_size
        × IsAnswer fuel s s' out
        × (settings s' ≡ settings s)
        × (s'.out_chunk_size ≡ s.out_chunk_size))
      (leb a.window 0 || ltb delta (a.window / 2)) _ _
      (λ e. (s, [], refl, not_due a.window delta e, inl (refl, refl), refl, refl))
      (λ _.
        let r =
          send_packet-Arrives fuel s.out_chunk_size (acknowledgement (ack_sequence delta a))
            (ack_sequence-lt delta a delta_lt) z f in
        (
          s',
          r.0,
          ap (λ o. and_then {A = List ℕ} o (λ out. ok (s', out))) r.1,
          inr (inl none_left),
          inr r.2,
          refl,
          refl,
        ))
  where
    a : AckWindow
    a = s.in_ack_size

    delta : ℕ
    delta = ack_delta recv_bytes a

    delta_lt : delta < 4294967296
    delta_lt = ack_delta-lt recv_bytes a

    s' : Protocol
    s' = record s {
      in_ack_size = record a { nb_recv_bytes = recv_bytes; sequence_number = ack_sequence delta a };
    }

    none_left : ack_delta recv_bytes s'.in_ack_size ≡ 0
    none_left = ack_delta_self recv_bytes s'.in_ack_size refl

-- With a positive out_chunk_size and fuel for 4 bytes, response_acknowledgement_message ends
-- without an error. Behind it the bytes that were received since the last acknowledgement are none
-- or less than half the window, where the peer set one; and either nothing was sent and nothing
-- changed, or a peer with the same chunk size receives the new sequence number as an
-- acknowledgement, the first message on its connection.
pub response_acknowledgement_message-IsAcknowledged :
    (fuel recv_bytes : ℕ) (s : Protocol)
    → 0 < s.out_chunk_size
    → 4 ≤ fuel
    → (s' : Protocol) × (out : List ℕ) × (response_acknowledgement_message fuel recv_bytes s
        ≡ ok (s', out))
      × IsAcknowledged recv_bytes s'.in_ack_size
      × IsAnswer fuel s s' out
response_acknowledgement_message-IsAcknowledged fuel recv_bytes s z f =
    let (s', out, e, acknowledged, answer, _, _) =
      response_acknowledgement_message-settings fuel recv_bytes s z f in
    (s', out, e, acknowledged, answer)
