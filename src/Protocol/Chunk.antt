-- ===== src/Protocol/Chunk.antt =====
-- src/protocol/srs_protocol_rtmp_stack.cpp: the chunk stream of SrsProtocol. What the peer sends is
-- one buffer, its cursor where SrsFastStream has been read to: grow(n) succeeds where n more bytes
-- are there, and fails like the socket where the peer sends no more. Of the stream's own memory its
-- size counts, for the bytes of a chunk. After an error no caller reads on, so an error carries no
-- state.
pub mod Header
pub mod First
pub mod Message
use srs_simple.Base.{
  ℕ, zero, suc, ◌+◌, ◌-◌, ◌*◌, ◌/◌, ◌%◌, Bool, true, false, ◌&&◌, not, ◌==◌, ltb, leb,
  if◌then◌else◌, List, [], ◌∷◌, ◌++◌, length, take, drop, Option, none, some, Outcome, ErrorCode,
  ok, err, aborted, fault, stuck, and_then, error_rtmp_chunk_start, error_rtmp_packet_size,
  error_socket_read,
}
use srs_simple.Base.Int.{ℤ}
use srs_simple.Kernel.Buffer.{M, ◌>>=◌, ◌>>◌, pure, next, next_bytes, require_or, skip}

pub record MessageHeader : Type 0 where
  pub timestamp_delta : ℕ
  pub payload_length : ℕ
  pub message_type : ℕ
  pub stream_id : ℕ
  pub timestamp : ℕ
  pub prefer_cid : ℕ

-- SrsCommonMessage: the payload received so far, whose length is its size.
pub record CommonMessage : Type 0 where
  pub header : MessageHeader
  pub payload : List ℕ

pub record ChunkStream : Type 0 where
  pub cid : ℕ
  pub header : MessageHeader
  pub has_extended_timestamp : Bool
  pub msg : Option CommonMessage
  pub msg_count : ℕ
  pub extended_timestamp : ℕ

-- A new chunk stream, with the prefer_cid that recv_interlaced_message gives it.
unfoldable pub init : ℕ → ChunkStream
init cid = record {
  cid = cid;
  header = record {
    timestamp_delta = 0;
    payload_length = 0;
    message_type = 0;
    stream_id = 0;
    timestamp = 0;
    prefer_cid = cid;
  };
  has_extended_timestamp = false;
  msg = none;
  msg_count = 0;
  extended_timestamp = 0;
}

-- in_buffer->grow(skt, n).
abbrev pub grow : ℕ → M (Unit {0})
grow n = require_or n error_socket_read

abbrev pub fail : {A : Type 0} → ErrorCode → M A
fail e b = err e

-- Three and four bytes, the most significant first, and four, the least significant first.
unfoldable pub slice3 : M ℕ
slice3 = do b2 ← next; b1 ← next; b0 ← next; pure ((b2 * 256 + b1) * 256 + b0)

unfoldable pub slice4 : M ℕ
slice4 = do
  b3 ← next
  b2 ← next
  b1 ← next
  b0 ← next
  pure (((b3 * 256 + b2) * 256 + b1) * 256 + b0)

unfoldable pub slice_le4 : M ℕ
slice_le4 = do
  b0 ← next
  b1 ← next
  b2 ← next
  b3 ← next
  pure (((b3 * 256 + b2) * 256 + b1) * 256 + b0)

-- The basic header behind its first byte.
unfoldable pub read_cid : ℕ → ℕ → M (ℕ × ℕ)
read_cid fmt cid =
    if ltb 1 cid
    then pure (fmt, cid)
    else (if cid == 0
        then (do grow 1; b0 ← next; pure (fmt, 64 + b0))
        else (do grow 2; b0 ← next; b1 ← next; pure (fmt, 64 + b0 + b1 * 256)))

-- fmt and cid.
unfoldable pub read_basic_header : M (ℕ × ℕ)
read_basic_header = do grow 1; b ← next; read_cid (b / 64 % 4) (b % 64)

unfoldable pub has_msg : ChunkStream → Bool
has_msg c = elim c.msg [ none ↦ false | some m ↦ true ]

unfoldable pub mh_size : ℕ → ℕ
mh_size fmt = if fmt == 0 then 11 else (if fmt == 1 then 7 else (if fmt == 2 then 3 else 0))

-- The timestamp of fmt 0, or the delta of fmt 1 and 2.
unfoldable pub set_delta : ChunkStream → ℕ → ℕ → ChunkStream
set_delta c fmt delta =
    let extended = leb 16777215 delta in
    let time = if fmt == 0 then delta else c.header.timestamp + delta in
    record c {
      has_extended_timestamp = extended;
      header = record c.header {
        timestamp_delta = delta;
        timestamp = if extended then c.header.timestamp else time;
      };
    }

unfoldable pub set_length : ChunkStream → ℕ → ℕ → ChunkStream
set_length c size type = record c {
  header = record c.header { payload_length = size; message_type = type };
}

unfoldable pub read_stream_id : ℕ → ChunkStream → M ChunkStream
read_stream_id fmt c =
    if fmt == 0
    then (do id ← slice_le4; pure (record c { header = record c.header { stream_id = id } }))
    else pure c

-- The length and the type, of fmt 0 and 1.
unfoldable pub read_length : ℕ → Bool → ChunkStream → M ChunkStream
read_length fmt first c =
    if leb fmt 1
    then (do
      size ← slice3
      if not first && not (c.header.payload_length == size)
          then fail error_rtmp_packet_size
          else (do type ← next; read_stream_id fmt (set_length c size type)))
    else pure c

unfoldable pub read_fields : ℕ → Bool → ChunkStream → M ChunkStream
read_fields fmt first c =
    if leb fmt 2
    then (do delta ← slice3; read_length fmt first (set_delta c fmt delta))
    else pure (
        if first && not c.has_extended_timestamp
        then record c {
          header = record c.header { timestamp = c.header.timestamp + c.header.timestamp_delta };
        }
        else c)

-- The timestamp is cut to 31 bits.
unfoldable pub set_extended : ℕ → Bool → ChunkStream → ℕ → ChunkStream
set_extended fmt first c timestamp = record c {
  extended_timestamp = timestamp;
  header = record c.header {
    timestamp =
        if fmt == 0
        then timestamp
        else (if first then c.header.timestamp + timestamp else c.header.timestamp);
  };
}

-- Bytes of a continuation that are not the timestamp of before are payload, and are given back.
unfoldable pub take_extended : ℕ → Bool → ChunkStream → ℕ → M ChunkStream
take_extended fmt first c timestamp =
    if not first && ltb 0 c.extended_timestamp && not (c.extended_timestamp == timestamp)
    then (do skip (ℤ.negsuc 3); pure c)
    else pure (set_extended fmt first c timestamp)

unfoldable pub read_extended : ℕ → Bool → ChunkStream → M ChunkStream
read_extended fmt first c =
    if c.has_extended_timestamp
    then (do grow 4; t ← slice4; take_extended fmt first c (t % 2147483648))
    else pure c

unfoldable pub received : Option CommonMessage → List ℕ
received none = []
received (some m) = m.payload

unfoldable pub finish : ChunkStream → ChunkStream
finish c =
    let h = record c.header { timestamp = c.header.timestamp % 2147483648 } in
    record c {
      header = h;
      msg = some (record { header = h; payload = received c.msg });
      msg_count = c.msg_count + 1;
    }

unfoldable pub read_known : ℕ → Bool → ChunkStream → M ChunkStream
read_known fmt first c = do
  grow (mh_size fmt)
  c1 ← read_fields fmt first c
  c2 ← read_extended fmt first c1
  pure (finish c2)

unfoldable pub read_message_header : ℕ → ChunkStream → M ChunkStream
read_message_header fmt c =
    if c.msg_count == 0 && not (fmt == 0) && not (fmt == 1)
    then fail error_rtmp_chunk_start
    else (if has_msg c && fmt == 0
        then fail error_rtmp_chunk_start
        else read_known fmt (not (has_msg c)) c)
