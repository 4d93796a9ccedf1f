-- ===== src/Protocol/Chunk/Message/RoundTrip.antt =====
-- src/protocol/srs_protocol_rtmp_stack.cpp: a message that do_send_messages cuts into chunks is put
-- together again by the loop of recv_message.
use srs_simple.Base.{
  ℕ, suc, ◌+◌, ◌*◌, ◌%◌, ◌^◌, ◌≤◌, ◌<◌, ◌≡◌, ◌⊎◌, refl, sym, ap, subst, Bool, true, false, ltb, leb,
  if◌then◌else◌, List, [], ◌∷◌, ◌++◌, length, none, ok, arith, append-nil,
}
use srs_simple.Base.Int.{ℤ}
use srs_simple.Kernel.Buffer.Bytes.{be3, be4, le4}
use srs_simple.Kernel.Buffer.Reads.{Reads}
use srs_simple.Kernel.Flv.{Message, chunk_header, chunk_header_c0, low_32bits}
use srs_simple.Protocol.Chunk.{CommonMessage, ChunkStream, read_message_header}
use srs_simple.Protocol.Chunk.Header.{Reads-one_byte}
use srs_simple.Protocol.Chunk.First.{started, Reads-c0}
use srs_simple.Protocol.Chunk.Message.{find, store, recv_message_loop, do_send_messages}
use srs_simple.Protocol.Chunk.Message.Transfer.{held}
use srs_simple.Protocol.Chunk.Message.Parts.{whole}
use srs_simple.Protocol.Chunk.Message.Receive.{Received, done, receive}

-- A result under a test, where the other branch has the same test.
same_branch : (b : Bool) (x y : ℕ) → (if b then x else y) ≡ (if b then x else (if b then x else y))
same_branch true x y = refl
same_branch false x y = refl

-- The first header of a message behind its basic header.
c0_fields : Message → List ℕ
c0_fields msg =
    let t = low_32bits msg.timestamp in
    (if ltb t 16777215 then be3 t else (255 ∷ 255 ∷ 255 ∷ []))
    ++ (be3 (length msg.payload)
        ++ ((msg.message_type ∷ [])
            ++ (le4 msg.stream_id ++ (if leb 16777215 t then be4 t else []))))

c0-bytes :
    (msg : Message)
    → msg.prefer_cid < 64
    → chunk_header msg 16 true ≡ ((0 * 64 + msg.prefer_cid) ∷ []) ++ c0_fields msg
unfolding chunk_header chunk_header_c0 c0_fields
c0-bytes msg h = let a : msg.prefer_cid % 64 ≡ 0 * 64 + msg.prefer_cid = omega arith in rw a refl

started-held :
    (s0 : ChunkStream) (t size type id cs : ℕ)
    → started s0 t size type id
      ≡ held
          (started s0 t size type id)
          (whole (started s0 t size type id) cs [])
          (suc s0.msg_count)
unfolding started held whole
started-held s0 t size type id cs =
    let q : s0.msg_count + 1 ≡ suc s0.msg_count = omega arith in
    λ i. record (started s0 t size type id) { msg_count = q i }

-- A whole message, from a chunk stream that has no part of one.
module _ (msg : Message) (cs fuel : ℕ) (ss : List ChunkStream) (one : 1 ≤ cs)
    (fits : (cs ≤ 131072) ⊎ (length msg.payload ≤ 131072)) (low : 2 ≤ msg.prefer_cid)
    (high : msg.prefer_cid < 64) (nz : 1 ≤ length msg.payload) (size : length msg.payload < 2 ^ 24)
    (room : length msg.payload ≤ fuel) (sid : msg.stream_id < 2 ^ 32)
    (n : (find msg.prefer_cid ss).msg ≡ none)
    (id : (find msg.prefer_cid ss).cid ≡ msg.prefer_cid) where
  low_32bits-lt : (z : ℤ) → low_32bits z < 2 ^ 32
  unfolding low_32bits
  low_32bits-lt (ℤ.pos a) = omega arith
  low_32bits-lt (ℤ.negsuc a) = omega arith

  -- All the bytes sent are read, the message comes back with its payload, its length, type and
  -- stream id, and its timestamp cut to 31 bits, and the chunk stream is again its own and has no part
  -- of a message.
  pub recv_message_loop-send :
      (out : List ℕ) × (d : ChunkStream) × (do_send_messages fuel cs (msg ∷ []) ≡ ok out)
      × (d.msg ≡ none)
      × (d.cid ≡ msg.prefer_cid)
      × Reads {A = List ChunkStream × CommonMessage} (recv_message_loop fuel cs ss) out (
        store d ss,
        record {
          header =
              (started
                (find msg.prefer_cid ss)
                (low_32bits msg.timestamp)
                (length msg.payload)
                msg.message_type
                msg.stream_id).header;
          payload = msg.payload;
        },
      )
  unfolding do_send_messages started whole Received c0_fields done
  recv_message_loop-send =
      let t = low_32bits msg.timestamp in
      let s0 = find msg.prefer_cid ss in
      let c = started s0 t (length msg.payload) msg.message_type msg.stream_id in
      let u = low_32bits-lt msg.timestamp in
      let h2 =
        subst (Reads (read_message_header 0 s0) (c0_fields msg))
          (started-held s0 t (length msg.payload) msg.message_type msg.stream_id cs)
          (Reads-c0 s0 t (length msg.payload) msg.message_type msg.stream_id n u size sid) in
      let (out, k, e, r) =
        receive msg cs c t u one fits low high refl id refl refl
          (same_branch (leb 16777215 t) (t % 2147483648) s0.extended_timestamp) fuel msg.payload []
          s0.msg_count 0 true ss ((0 * 64 + msg.prefer_cid) ∷ []) (c0_fields msg) nz room
          (omega arith) (c0-bytes msg high)
          (subst (λ hd. 1 ≤ length hd) (sym (c0-bytes msg high)) (omega arith))
          (Reads-one_byte 0 msg.prefer_cid (omega arith) low high) h2 in
      (
        out,
        done msg cs c t u one fits low high refl id refl refl
            (same_branch (leb 16777215 t) (t % 2147483648) s0.extended_timestamp) k,
        rw e (ap (λ o. ok o) (append-nil out)),
        refl,
        id,
        r,
      )
