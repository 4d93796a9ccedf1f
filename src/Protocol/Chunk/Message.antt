-- ===== src/Protocol/Chunk/Message.antt =====
-- src/protocol/srs_protocol_rtmp_stack.cpp: messages over chunks, sent and received.
pub mod Transfer
pub mod Parts
pub mod Receive
pub mod RoundTrip
use srs_simple.Base.{
  ℕ, zero, suc, ◌+◌, ◌-◌, Bool, true, false, ◌&&◌, ◌||◌, not, ◌==◌, ltb, leb, if◌then◌else◌, List,
  [], ◌∷◌, ◌++◌, length, take, drop, Option, none, some, Outcome, ok, err, aborted, fault, stuck,
  and_then, error_reader_buffer_overflow,
}
use srs_simple.Kernel.Buffer.{M, ◌>>=◌, ◌>>◌, pure, next_bytes}
use srs_simple.Kernel.Flv.{Message, chunk_header}
use srs_simple.Protocol.Chunk.{
  MessageHeader, CommonMessage, ChunkStream, init, grow, read_basic_header, read_message_header,
}

-- The message, where it is whole; else the chunk stream goes on with it.
unfoldable pub deliver : ChunkStream → CommonMessage → ChunkStream × Option CommonMessage
deliver c m =
    if c.header.payload_length == length m.payload
    then (record c { msg = none }, some m)
    else (record c { msg = some m }, none)

-- The bytes of one chunk. A message longer than its header says would make read_slice fail its
-- srs_assert. in_buffer->grow(skt, size) answers ERROR_READER_BUFFER_OVERFLOW where the size is
-- above that of the stream, SRS_DEFAULT_RECV_BUFFER_SIZE.
unfoldable pub read_part : ℕ → ChunkStream → CommonMessage → M (ChunkStream × Option CommonMessage)
read_part in_chunk_size c m =
    let left = c.header.payload_length - length m.payload in
    let size = if ltb left in_chunk_size then left else in_chunk_size in
    let read = (do
      grow size
      part ← next_bytes size
      pure (deliver c (record m { payload = m.payload ++ part }))) in
    let grown : M (ChunkStream × Option CommonMessage) =
      if ltb 131072 size then (λ b. err error_reader_buffer_overflow) else read in
    if ltb c.header.payload_length (length m.payload) then (λ b. aborted) else grown

unfoldable pub read_message_payload : ℕ → ChunkStream → M (ChunkStream × Option CommonMessage)
read_message_payload in_chunk_size c = elim c.msg [
  | none ↦ λ b. fault
  | some m ↦
      if leb c.header.payload_length 0
      then pure (record c { msg = none }, some m)
      else read_part in_chunk_size c m
]

-- chunk_streams, a map by cid; a stream that is not there is made.
unfoldable pub find : ℕ → List ChunkStream → ChunkStream
find cid [] = init cid
find cid (c ∷ cs) = let rest = find cid cs in if c.cid == cid then c else rest

unfoldable pub store : ChunkStream → List ChunkStream → List ChunkStream
store d [] = d ∷ []
store d (c ∷ cs) = let rest = store d cs in if c.cid == d.cid then d ∷ cs else c ∷ rest

unfoldable pub recv_interlaced_message :
    ℕ → List ChunkStream → M (List ChunkStream × Option CommonMessage)
recv_interlaced_message in_chunk_size streams = do
  h ← read_basic_header
  c ← read_message_header h.0 (find h.1 streams)
  r ← read_message_payload in_chunk_size c
  pure (store r.0 streams, r.1)

-- The chunks of one message, from a payload that is left on.
unfoldable pub send_chunks : ℕ → ℕ → Message → Bool → List ℕ → Outcome (List ℕ)
send_chunks zero size m c0 [] = ok []
send_chunks zero size m c0 (b ∷ bs) = stuck
send_chunks (suc fuel) size m c0 [] = ok []
send_chunks (suc fuel) size m c0 (b ∷ bs) =
    let p = b ∷ bs in
    let n = if ltb size (length p) then size else length p in
    let header = chunk_header m 16 c0 in
    let rest = send_chunks fuel size m false (drop n p) in
    if ltb 0 (length header)
    then and_then rest (λ out. ok (header ++ (take n p ++ out)))
    else aborted

-- do_send_messages, which leaves out empty messages: all that it writes to the socket.
unfoldable pub do_send_messages : ℕ → ℕ → List Message → Outcome (List ℕ)
do_send_messages fuel size [] = ok []
do_send_messages fuel size (m ∷ ms) =
    let rest = do_send_messages fuel size ms in
    and_then (send_chunks fuel size m true m.payload)
      (λ out. and_then rest (λ more. ok (out ++ more)))

unfoldable pub is_empty : CommonMessage → Bool
is_empty m = leb (length m.payload) 0 || leb m.header.payload_length 0

-- What recv_message does with the result of recv_interlaced_message; `next` is its next round.
unfoldable pub take_message :
    (List ChunkStream → M (List ChunkStream × CommonMessage))
    → List ChunkStream × Option CommonMessage
    → M (List ChunkStream × CommonMessage)
take_message next (ss, none) = next ss
take_message next (ss, some m) = if is_empty m then next ss else pure (ss, m)

-- The loop of recv_message, on fuel, up to on_recv_message. It skips empty messages.
unfoldable pub recv_message_loop : ℕ → ℕ → List ChunkStream → M (List ChunkStream × CommonMessage)
recv_message_loop zero in_chunk_size streams = λ b. stuck
recv_message_loop (suc fuel) in_chunk_size streams =
    recv_interlaced_message in_chunk_size streams
    >>= take_message (λ ss. recv_message_loop fuel in_chunk_size ss)
