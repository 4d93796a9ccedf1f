-- ===== src/Protocol/Chunk/First.antt =====
-- src/protocol/srs_protocol_rtmp_stack.cpp and src/kernel/srs_kernel_flv.cpp: the header of the
-- first chunk of a message, as SrsSharedPtrMessage writes it and SrsProtocol reads it.
use srs_simple.Base.{
  ℕ, ◌+◌, ◌*◌, ◌%◌, ◌^◌, ◌≤◌, ◌<◌, ◌≡◌, refl, sym, subst, Bool, true, false, ◌&&◌, not, ◌==◌, ltb,
  leb, if◌then◌else◌, List, [], ◌∷◌, ◌++◌, none, some, arith, Bool-cases, inl, inr,
  error_socket_read,
}
use srs_simple.Kernel.Buffer.{◌>>=◌, pure}
use srs_simple.Kernel.Buffer.Bytes.{be3, be4, le4}
use srs_simple.Kernel.Buffer.Reads.{
  Reads, Reads-pure, Reads-bind, Reads-require, Reads-byte, Reads-map,
}
use srs_simple.Kernel.Flv.{chunk_header_c0}
use srs_simple.Protocol.Chunk.{
  MessageHeader, ChunkStream, slice3, slice_le4, read_basic_header, has_msg, mh_size, set_delta,
  set_length, read_stream_id, read_length, read_fields, set_extended, read_extended, received,
  finish, read_message_header, read_known,
}
use srs_simple.Protocol.Chunk.Header.{
  Reads-slice3, Reads-slice_le4, Reads-read_extended, Reads-no_extended, Reads-one_byte,
}

-- A chunk stream behind the first chunk header of a message.
unfoldable pub started : ChunkStream → ℕ → ℕ → ℕ → ℕ → ChunkStream
started c t size type id =
    let h : MessageHeader = record {
      timestamp_delta = if ltb t 16777215 then t else 16777215;
      payload_length = size;
      message_type = type;
      stream_id = id;
      timestamp = t % 2147483648;
      prefer_cid = c.header.prefer_cid;
    } in
    record {
      cid = c.cid;
      header = h;
      has_extended_timestamp = leb 16777215 t;
      msg = some (record { header = h; payload = [] });
      msg_count = c.msg_count + 1;
      extended_timestamp = if leb 16777215 t then t % 2147483648 else c.extended_timestamp;
    }

with_id : ChunkStream → ℕ → ChunkStream
with_id c id = record c { header = record c.header { stream_id = id } }

-- The fields of fmt 0.
fields : ChunkStream → ℕ → ℕ → ℕ → ℕ → ChunkStream
fields c d size type id = with_id (set_length (set_delta c 0 d) size type) id

module _ (c : ChunkStream) (size type id : ℕ) (s : size < 2 ^ 24) (i : id < 2 ^ 32) where
  Reads-length :
      Reads
        (read_length 0 true c)
        (be3 size ++ ((type ∷ []) ++ le4 id))
        (with_id (set_length c size type) id)
  unfolding read_length read_stream_id with_id
  Reads-length = Reads-bind slice3 _ (be3 size) ((type ∷ []) ++ le4 id) (Reads-slice3 size s) (
      Reads-byte type _ (le4 id) (
        Reads-bind slice_le4 _ (le4 id) [] (Reads-slice_le4 id i)
          (Reads-pure (with_id (set_length c size type) id))))

module _ (c : ChunkStream) (d size type id : ℕ) (l : d < 2 ^ 24) (s : size < 2 ^ 24)
    (i : id < 2 ^ 32) where
  Reads-fields :
      Reads
        (read_fields 0 true c)
        (be3 d ++ (be3 size ++ ((type ∷ []) ++ le4 id)))
        (fields c d size type id)
  unfolding read_fields fields
  Reads-fields =
      Reads-bind slice3 (λ x. read_length 0 true (set_delta c 0 x)) (be3 d)
        (be3 size ++ ((type ∷ []) ++ le4 id)) (Reads-slice3 d l)
        (Reads-length (set_delta c 0 d) size type id s i)

  -- The fields, and an extended timestamp or none.
  Reads-known :
      (out : List ℕ) (c2 : ChunkStream)
      → Reads (read_extended 0 true (fields c d size type id)) out c2
      → Reads
          (read_known 0 true c)
          (be3 d ++ (be3 size ++ ((type ∷ []) ++ (le4 id ++ out))))
          (finish c2)
  unfolding read_known mh_size
  Reads-known out c2 h =
      Reads-require 11 error_socket_read _ (be3 d ++ (be3 size ++ ((type ∷ []) ++ (le4 id ++ out))))
        (omega arith)
        (Reads-bind (read_fields 0 true c)
          (λ c1. read_extended 0 true c1 >>= λ c2. pure (finish c2))
          (be3 d ++ (be3 size ++ ((type ∷ []) ++ le4 id))) out Reads-fields
          (Reads-map (read_extended 0 true (fields c d size type id)) finish out h))

not_fresh : (b : Bool) → (b && not (0 == 0) && not (0 == 1)) ≡ false
not_fresh true = refl
not_fresh false = refl

read_message_header-known :
    (c : ChunkStream) → c.msg ≡ none → read_message_header 0 c ≡ read_known 0 true c
unfolding read_message_header has_msg
read_message_header-known c n = rw (not_fresh (c.msg_count == 0), n) refl

module _ (c : ChunkStream) (t size type id : ℕ) (n : c.msg ≡ none) where
  finish-short : t < 16777215 → finish (fields c t size type id) ≡ started c t size type id
  unfolding finish fields with_id set_length set_delta started received
  finish-short h =
      let a : ltb t 16777215 ≡ true = ground arith in
      let b : leb 16777215 t ≡ false = ground arith in rw (a, b, n) refl

  finish-long :
      16777215 ≤ t
      → t < 2 ^ 32
      → finish (set_extended 0 true (fields c 16777215 size type id) (t % 2147483648))
        ≡ started c t size type id
  unfolding finish fields with_id set_length set_delta started received set_extended
  finish-long h u =
      let a : ltb t 16777215 ≡ false = ground arith in
      let b : leb 16777215 t ≡ true = ground arith in
      let e : t % 2147483648 % 2147483648 ≡ t % 2147483648 = omega arith in rw (a, b, n, e) refl

  fields-short : t < 16777215 → (fields c t size type id).has_extended_timestamp ≡ false
  unfolding fields with_id set_length set_delta
  fields-short h = ground arith

  fields-long : (fields c 16777215 size type id).has_extended_timestamp ≡ true
  unfolding fields with_id set_length set_delta
  fields-long = refl

  -- The header of the first chunk of a message, behind its basic header.
  pub Reads-c0 :
      t < 2 ^ 32
      → size < 2 ^ 24
      → id < 2 ^ 32
      → Reads
          (read_message_header 0 c)
          ((if ltb t 16777215 then be3 t else (255 ∷ 255 ∷ 255 ∷ []))
            ++ (be3 size ++ ((type ∷ []) ++ (le4 id ++ (if leb 16777215 t then be4 t else [])))))
          (started c t size type id)
  Reads-c0 u s i = rw (read_message_header-known c n) (elim (Bool-cases (ltb t 16777215)) [
    | inl a ↦
        let h : t < 16777215 = ground arith in
        let b : leb 16777215 t ≡ false = ground arith in
        rw (a, b, sym (finish-short h))
          (Reads-known c t size type id (omega arith) s i [] (fields c t size type id)
            (Reads-no_extended (fields c t size type id) (fields-short h)))
    | inr a ↦
        let h : 16777215 ≤ t = ground arith in
        let b : leb 16777215 t ≡ true = ground arith in
        rw (a, b, sym (finish-long h u))
          (Reads-known c 16777215 size type id (omega arith) s i (be4 t)
            (set_extended 0 true (fields c 16777215 size type id) (t % 2147483648))
            (Reads-read_extended (fields c 16777215 size type id) t u fields-long))
  ])

  -- What srs_chunk_header_c0 writes for a chunk stream id of 2 to 63, a 32-bit time, a 24-bit
  -- length, a type and a 32-bit stream id, into a cache of 16 bytes at least, read_basic_header
  -- and read_message_header read as that chunk stream id and, on a chunk stream with no part of
  -- a message, as these fields with the time cut to 31 bits, extended timestamps included.
  pub read-chunk_header_c0 :
      (cid nb : ℕ)
      → 2 ≤ cid
      → cid < 64
      → 16 ≤ nb
      → t < 2 ^ 32
      → size < 2 ^ 24
      → id < 2 ^ 32
      → Reads {A = ℕ × ChunkStream}
          (read_basic_header >>= λ h. read_message_header h.0 c >>= λ d. pure (h.1, d))
          (chunk_header_c0 cid t size type id nb)
          (cid, started c t size type id)
  unfolding chunk_header_c0
  read-chunk_header_c0 cid nb l u b t32 s i =
      let room : ltb nb 16 ≡ false = ground arith in
      let low : cid % 64 ≡ cid = omega arith in
      let tail =
        (if ltb t 16777215 then be3 t else (255 ∷ 255 ∷ 255 ∷ []))
        ++ (be3 size ++ ((type ∷ []) ++ (le4 id ++ (if leb 16777215 t then be4 t else [])))) in
      rw (room, low)
        (Reads-bind read_basic_header (λ h. read_message_header h.0 c >>= λ d. pure (h.1, d))
          (cid ∷ []) tail
          (let z : 0 * 64 + cid ≡ cid = omega arith in
            subst (λ y. Reads read_basic_header (y ∷ []) (0, cid)) z
              (Reads-one_byte 0 cid (omega arith) l u))
          (Reads-map (read_message_header 0 c) (λ d. (cid, d)) tail (Reads-c0 t32 s i)))
