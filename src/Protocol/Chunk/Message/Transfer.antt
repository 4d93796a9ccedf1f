-- ===== src/Protocol/Chunk/Message/Transfer.antt =====
-- src/protocol/srs_protocol_rtmp_stack.cpp: a message that was sent in chunks is received whole.
use srs_simple.Base.{
  ℕ, suc, ◌+◌, ◌%◌, ◌^◌, ◌<◌, ◌≡◌, refl, sym, subst, ◌∙◌, true, false, ◌&&◌, not, ◌==◌, ltb, leb,
  if◌then◌else◌, if_cases, List, [], some, arith, error_socket_read,
}
use srs_simple.Kernel.Buffer.{◌>>=◌, ◌>>◌, pure}
use srs_simple.Kernel.Buffer.Bytes.{be4}
use srs_simple.Kernel.Buffer.Reads.{Reads, Reads-pure, Reads-bind, Reads-require, Reads-map}
use srs_simple.Protocol.Chunk.{
  CommonMessage, ChunkStream, grow, slice4, has_msg, mh_size, read_fields, set_extended,
  take_extended, read_extended, received, finish, read_message_header, read_known,
}
use srs_simple.Protocol.Chunk.Header.{Reads-slice4}

-- The chunk stream with a part of the message.
unfoldable pub held : ChunkStream → CommonMessage → ℕ → ChunkStream
held c m k = record c { msg = some m; msg_count = k }

module _ (c : ChunkStream) (t : ℕ) (u : t < 2 ^ 32) (h : c.header.timestamp ≡ t % 2147483648)
    (x : c.has_extended_timestamp ≡ leb 16777215 t)
    (e : c.extended_timestamp ≡ (if leb 16777215 t then t % 2147483648 else c.extended_timestamp))
    (m : CommonMessage) (mh : m.header ≡ c.header) (k : ℕ) where
  cut : record c.header { timestamp = c.header.timestamp % 2147483648 } ≡ c.header
  cut =
      let q : c.header.timestamp % 2147483648 ≡ c.header.timestamp = rw h (omega arith) in
      λ i. record c.header { timestamp = q i }

  -- What finish makes of the chunk stream, with the timestamp of before or that which was read.
  finish-held : finish (held c m (suc k)) ≡ held c m (suc k + 1)
  unfolding finish held received
  finish-held i = record c {
    header = cut i;
    msg = some (record { header = (cut ∙ sym mh) i; payload = m.payload });
    msg_count = suc k + 1;
  }

  extended : leb 16777215 t ≡ true → c.extended_timestamp ≡ t % 2147483648
  extended l = e ∙ rw l refl

  finish-extended :
      leb 16777215 t ≡ true
      → finish (set_extended 3 false (held c m (suc k)) (t % 2147483648)) ≡ held c m (suc k + 1)
  unfolding finish held received set_extended
  finish-extended l i = record c {
    header = cut i;
    msg = some (record { header = (cut ∙ sym mh) i; payload = m.payload });
    msg_count = suc k + 1;
    extended_timestamp = sym (extended l) i;
  }

  -- The timestamp is that of before, so it is taken.
  taken :
      leb 16777215 t ≡ true
      → Reads
          (take_extended 3 false (held c m (suc k)) (t % 2147483648))
          []
          (set_extended 3 false (held c m (suc k)) (t % 2147483648))
  unfolding take_extended held
  taken l =
      let y : (c.extended_timestamp == t % 2147483648) ≡ true = ground (arith, extended l) in
      let v : (ltb 0 c.extended_timestamp && not (c.extended_timestamp == t % 2147483648)) ≡ false =
        ground (arith, y) in
      rw v (Reads-pure (set_extended 3 false (held c m (suc k)) (t % 2147483648)))

  long-held :
      leb 16777215 t ≡ true
      → Reads
          (read_extended 3 false (held c m (suc k)) >>= λ d. pure (finish d))
          (be4 t)
          (held c m (suc k + 1))
  unfolding read_extended held
  long-held l =
      let f = λ (v : ℕ). take_extended 3 false (held c m (suc k)) (v % 2147483648) in
      subst
        (λ b.
          Reads
            ((if b then (grow 4 >> (slice4 >>= f)) else pure (held c m (suc k))) >>= λ d.
              pure (finish d))
            (be4 t) (held c m (suc k + 1)))
        (sym (x ∙ l))
        (subst (λ r. Reads ((grow 4 >> (slice4 >>= f)) >>= λ d. pure (finish d)) (be4 t) r)
          (finish-extended l)
          (Reads-map (grow 4 >> (slice4 >>= f)) finish (be4 t) (
            Reads-require 4 error_socket_read (slice4 >>= f) (be4 t) (omega arith)
              (Reads-bind slice4 f (be4 t) [] (Reads-slice4 t u) (taken l)))))

  short-held :
      leb 16777215 t ≡ false
      → Reads
          (read_extended 3 false (held c m (suc k)) >>= λ d. pure (finish d))
          []
          (held c m (suc k + 1))
  unfolding read_extended held
  short-held l =
      let f =
        grow 4
        >> (slice4 >>= λ (v : ℕ). take_extended 3 false (held c m (suc k)) (v % 2147483648)) in
      subst
        (λ b.
          Reads ((if b then f else pure (held c m (suc k))) >>= λ d. pure (finish d)) []
            (held c m (suc k + 1)))
        (sym (x ∙ l))
        (subst (λ r. Reads (pure (held c m (suc k)) >>= λ d. pure (finish d)) [] r) finish-held
          (Reads-map (pure (held c m (suc k))) finish [] (Reads-pure (held c m (suc k)))))

  known-held : read_message_header 3 (held c m (suc k)) ≡ read_known 3 false (held c m (suc k))
  unfolding read_message_header has_msg held
  known-held = let z : (suc k == 0) ≡ false = ground arith in rw z refl

  -- The header of a further chunk, behind its basic header.
  pub Reads-next_header :
      Reads
        (read_message_header 3 (held c m (suc k)))
        (if leb 16777215 t then be4 t else [])
        (held c m (suc k + 1))
  unfolding read_known mh_size read_fields
  Reads-next_header =
      let d = held c m (suc k) in
      let f = λ (c1 : ChunkStream). read_extended 3 false c1 >>= λ c2. pure (finish c2) in
      let go = λ (out : List ℕ) (r : Reads (f d) out (held c m (suc k + 1))).
        Reads-require 0 error_socket_read (read_fields 3 false d >>= f) out (omega arith)
          (Reads-bind (read_fields 3 false d) f [] out (Reads-pure d) r) in
      subst (λ r. Reads r (if leb 16777215 t then be4 t else []) (held c m (suc k + 1)))
        (sym known-held)
        (if_cases (λ out. Reads (read_known 3 false d) out (held c m (suc k + 1))) (leb 16777215 t)
          (be4 t) [] (λ l. go (be4 t) (long-held l)) (λ l. go [] (short-held l)))
