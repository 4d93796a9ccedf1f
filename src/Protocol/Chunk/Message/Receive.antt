-- ===== src/Protocol/Chunk/Message/Receive.antt =====
-- src/protocol/srs_protocol_rtmp_stack.cpp: the chunks of a message, one after the other, sent and
-- received.
use srs_simple.Base.{
  ℕ, zero, suc, ◌+◌, ◌*◌, ◌%◌, ◌^◌, ◌≤◌, ◌<◌, ◌≡◌, ◌⊎◌, refl, sym, ap, subst, ◌∙◌, Bool, true,
  false, ◌||◌, ◌==◌, ltb, leb, if◌then◌else◌, List, [], ◌∷◌, ◌++◌, length, take, drop, Option, none,
  some, ok, arith, Bool-cases, inl, inr, append_assoc, length-append, length-take_le, length-drop,
  take-append-drop, take-ge, drop-ge,
}
use srs_simple.Kernel.Buffer.Bytes.{be4}
use srs_simple.Kernel.Buffer.Reads.{Reads, Reads-pure, Reads-bind}
use srs_simple.Kernel.Flv.{Message, chunk_header, chunk_header_c3, low_32bits}
use srs_simple.Protocol.Chunk.{CommonMessage, ChunkStream, read_basic_header, read_message_header}
use srs_simple.Protocol.Chunk.Header.{Reads-one_byte}
use srs_simple.Protocol.Chunk.Message.{
  deliver, find, store, recv_interlaced_message, take_message, recv_message_loop, send_chunks,
  is_empty,
}
use srs_simple.Protocol.Chunk.Message.Transfer.{held, Reads-next_header}
use srs_simple.Protocol.Chunk.Message.Parts.{
  part_size, part_size-le, part_size-full, part_size-Fits, whole, Reads-payload, Reads-interlaced,
  find-store, store-store,
}

-- A message that may be sent: its chunk stream id takes one byte.
module _ (msg : Message) (cs : ℕ) (c : ChunkStream) (t : ℕ) (u : t < 2 ^ 32) (one : 1 ≤ cs)
    (fits : (cs ≤ 131072) ⊎ (c.header.payload_length ≤ 131072)) (low : 2 ≤ msg.prefer_cid)
    (high : msg.prefer_cid < 64) (lt : low_32bits msg.timestamp ≡ t) (id : c.cid ≡ msg.prefer_cid)
    (h : c.header.timestamp ≡ t % 2147483648) (x : c.has_extended_timestamp ≡ leb 16777215 t)
    (e : c.extended_timestamp
      ≡ (if leb 16777215 t then t % 2147483648 else c.extended_timestamp)) where
  unfoldable pub done : ℕ → ChunkStream
  done k = record c { msg = none; msg_count = k }

  -- From chunk headers o1 and o2 on, what is left of the payload is sent and received.
  unfoldable pub Received : ℕ → List ℕ → List ℕ → Bool → List ChunkStream → Type 0
  Received fuel p got c0 ss =
      (out : List ℕ) × (k : ℕ) × (send_chunks fuel cs msg c0 p ≡ ok out)
      × Reads {A = List ChunkStream × CommonMessage} (recv_message_loop fuel cs ss) out
          (store (done k) ss, whole c cs (got ++ p))

  c3 :
      chunk_header msg 16 false
      ≡ ((3 * 64 + msg.prefer_cid) ∷ []) ++ (if leb 16777215 t then be4 t else [])
  unfolding chunk_header chunk_header_c3
  c3 = let m : msg.prefer_cid % 64 ≡ msg.prefer_cid = omega arith in rw (lt, m) refl

  send-nil : (fuel : ℕ) (c0 : Bool) → send_chunks fuel cs msg c0 [] ≡ ok []
  unfolding send_chunks
  send-nil zero c0 = refl
  send-nil (suc fuel) c0 = refl

  send-part :
      (fuel b : ℕ) (bs : List ℕ) (c0 : Bool) (out : List ℕ)
      → 1 ≤ length (chunk_header msg 16 c0)
      → send_chunks fuel cs msg false (drop (part_size cs (b ∷ bs)) (b ∷ bs)) ≡ ok out
      → send_chunks (suc fuel) cs msg c0 (b ∷ bs)
        ≡ ok (chunk_header msg 16 c0 ++ (take (part_size cs (b ∷ bs)) (b ∷ bs) ++ out))
  unfolding send_chunks part_size
  send-part fuel b bs c0 out nz r =
      let z : ltb 0 (length (chunk_header msg 16 c0)) ≡ true = ground arith in rw (z, r) refl

  recv-part :
      (fuel : ℕ) (ss ss' : List ChunkStream) (r : Option CommonMessage) (o out : List ℕ)
      (v : List ChunkStream × CommonMessage)
      → Reads {A = List ChunkStream × Option CommonMessage}
          (recv_interlaced_message cs ss)
          o
          (ss', r)
      → Reads (take_message (λ s. recv_message_loop fuel cs s) (ss', r)) out v
      → Reads (recv_message_loop (suc fuel) cs ss) (o ++ out) v
  unfolding recv_message_loop
  recv-part fuel ss ss' r o out v h1 h2 =
      Reads-bind (recv_interlaced_message cs ss) (take_message (λ s. recv_message_loop fuel cs s)) o
        out h1 h2

  deliver-whole :
      (old got : List ℕ) (k : ℕ)
      → c.header.payload_length ≡ length got
      → deliver (held c (whole c cs old) k) (whole c cs got) ≡ (done k, some (whole c cs got))
  unfolding deliver held whole done
  deliver-whole old got k q =
      let y : (c.header.payload_length == length got) ≡ true = ground (arith, q) in rw y refl

  deliver-part :
      (old got : List ℕ) (k : ℕ)
      → length got < c.header.payload_length
      → deliver (held c (whole c cs old) k) (whole c cs got) ≡ (held c (whole c cs got) k, none)
  unfolding deliver held whole
  deliver-part old got k q =
      let y : (c.header.payload_length == length got) ≡ false = ground arith in rw y refl

  -- The last chunk.
  take-whole :
      (fuel : ℕ) (ss : List ChunkStream) (got : List ℕ)
      → 1 ≤ length got
      → c.header.payload_length ≡ length got
      → Reads {A = List ChunkStream × CommonMessage}
          (take_message (λ s. recv_message_loop fuel cs s) (ss, some (whole c cs got)))
          []
          (ss, whole c cs got)
  unfolding take_message is_empty whole
  take-whole fuel ss got nz q =
      let y : (leb (length got) 0 || leb c.header.payload_length 0) ≡ false = ground arith in
      rw y (Reads-pure (ss, whole c cs got))

  arrange :
      (hd o1 o2 tk out : List ℕ) → hd ≡ o1 ++ o2 → (o1 ++ (o2 ++ tk)) ++ out ≡ hd ++ (tk ++ out)
  arrange hd o1 o2 tk out q =
      rw (q, append_assoc o1 (o2 ++ tk) out, append_assoc o2 tk out, append_assoc o1 o2 (tk ++ out))
        refl

  find-held :
      (m : CommonMessage) (k : ℕ) (ss : List ChunkStream)
      → find msg.prefer_cid (store (held c m k) ss) ≡ held c m k
  unfolding held
  find-held m k ss =
      subst (λ n. find n (store (held c m k) ss) ≡ held c m k) id (find-store (held c m k) ss)

  store-done :
      (m : CommonMessage) (k n : ℕ) (ss : List ChunkStream)
      → store (done n) (store (held c m k) ss) ≡ store (done n) ss
  unfolding held done
  store-done m k n ss = store-store (done n) (held c m k) ss refl

  -- The headers of the next chunk, and the chunk stream that they leave.
  Reads-header3 :
      (m : CommonMessage) (mh : m.header ≡ c.header) (k : ℕ) (ss : List ChunkStream)
      → Reads
          (read_message_header 3 (find msg.prefer_cid (store (held c m (suc k)) ss)))
          (if leb 16777215 t then be4 t else [])
          (held c m (suc (suc k)))
  Reads-header3 m mh k ss =
      let q : suc k + 1 ≡ suc (suc k) = omega arith in
      subst
        (λ d.
          Reads (read_message_header 3 d) (if leb 16777215 t then be4 t else [])
            (held c m (suc (suc k))))
        (sym (find-held m (suc k) ss))
        (subst
          (λ n.
            Reads (read_message_header 3 (held c m (suc k))) (if leb 16777215 t then be4 t else [])
              (held c m n))
          q (Reads-next_header c t u h x e m mh k))

  -- What one chunk leaves, with `tk` of the payload read from it.
  unfoldable pub Interlaced :
      List ChunkStream → List ℕ → List ℕ → List ℕ → ChunkStream × Option CommonMessage → Type 0
  Interlaced ss o1 o2 tk r =
      Reads {A = List ChunkStream × Option CommonMessage} (recv_interlaced_message cs ss)
        (o1 ++ (o2 ++ tk)) (store r.0 ss, r.1)

  module _ (fuel b : ℕ) (bs got : List ℕ) (k : ℕ) (c0 : Bool) (ss : List ChunkStream)
      (o1 o2 : List ℕ) (l : c.header.payload_length ≡ length got + suc (length bs))
      (ch : chunk_header msg 16 c0 ≡ o1 ++ o2) (nz : 1 ≤ length (chunk_header msg 16 c0))
      (h1 : Interlaced ss o1 o2 (take (part_size cs (b ∷ bs)) (b ∷ bs)) (
        deliver
          (held c (whole c cs got) (suc k))
          (whole c cs (got ++ take (part_size cs (b ∷ bs)) (b ∷ bs))))) where
    receive_last : suc (length bs) ≤ cs → Received (suc fuel) (b ∷ bs) got c0 ss
    unfolding Received Interlaced part_size
    receive_last f =
        let p = b ∷ bs in
        let n = part_size cs p in
        let hd = chunk_header msg 16 c0 in
        let m = whole c cs (got ++ p) in
        let e1 : take n p ≡ p = take-ge n p (ground arith) in
        let e2 : drop n p ≡ [] = drop-ge n p (ground arith) in
        let q : c.header.payload_length ≡ length (got ++ p) =
          omega (arith, l, length-append got p) in
        let d = held c (whole c cs got) (suc k) in
        let r1 = subst (λ tk. Interlaced ss o1 o2 tk (deliver d (whole c cs (got ++ tk)))) e1 h1 in
        let r2 = subst (Interlaced ss o1 o2 p) (deliver-whole got (got ++ p) (suc k) q) r1 in
        let sent =
          send-part fuel b bs c0 [] nz
            (subst (λ s. send_chunks fuel cs msg false s ≡ ok []) (sym e2) (send-nil fuel false)) in
        (
          hd ++ (p ++ []),
          suc k,
          subst (λ tk. send_chunks (suc fuel) cs msg c0 p ≡ ok (hd ++ (tk ++ []))) e1 sent,
          subst (λ o. Reads (recv_message_loop (suc fuel) cs ss) o (store (done (suc k)) ss, m))
              (arrange hd o1 o2 p [] ch)
              (recv-part fuel ss (store (done (suc k)) ss) (some m) (o1 ++ (o2 ++ p)) []
                (store (done (suc k)) ss, m) r2
                (take-whole fuel (store (done (suc k)) ss) (got ++ p)
                  (omega (arith, length-append got p)) q)),
        )

    receive_more :
        cs < suc (length bs)
        → Received fuel
            (drop (part_size cs (b ∷ bs)) (b ∷ bs))
            (got ++ take (part_size cs (b ∷ bs)) (b ∷ bs))
            false
            (store (held c (whole c cs (got ++ take (part_size cs (b ∷ bs)) (b ∷ bs))) (suc k)) ss)
        → Received (suc fuel) (b ∷ bs) got c0 ss
    unfolding Received Interlaced part_size take_message
    receive_more f (out, n', s', r') =
        let p = b ∷ bs in
        let n = part_size cs p in
        let hd = chunk_header msg 16 c0 in
        let tk = take n p in
        let m = whole c cs (got ++ tk) in
        let long : length tk ≡ n = length-take_le n p (ground arith) in
        let q : length (got ++ tk) < c.header.payload_length =
          ground (arith, l, long, length-append got tk) in
        let ss' = store (held c m (suc k)) ss in
        let r2 = subst (Interlaced ss o1 o2 tk) (deliver-part got (got ++ tk) (suc k) q) h1 in
        let all : (got ++ tk) ++ drop n p ≡ got ++ p =
          append_assoc got tk (drop n p) ∙ ap (λ a. got ++ a) (take-append-drop n p) in
        let v : List ChunkStream × CommonMessage = (store (done n') ss, whole c cs (got ++ p)) in
        let tail : Reads (recv_message_loop fuel cs ss') out v =
          subst (λ w. Reads (recv_message_loop fuel cs ss') out w)
            (λ i. (store-done m (suc k) n' ss i, whole c cs (all i))) r' in
        (
          hd ++ (tk ++ out),
          n',
          send-part fuel b bs c0 out nz s',
          subst (λ o. Reads (recv_message_loop (suc fuel) cs ss) o v) (arrange hd o1 o2 tk out ch)
              (recv-part fuel ss ss' none (o1 ++ (o2 ++ tk)) out v r2 tail),
        )

  interlaced :
      (fmt : ℕ) (ss : List ChunkStream) (o1 o2 got p : List ℕ) (k : ℕ)
      → 1 ≤ length p
      → c.header.payload_length ≡ length got + length p
      → Reads read_basic_header o1 (fmt, msg.prefer_cid)
      → Reads
          (read_message_header fmt (find msg.prefer_cid ss))
          o2
          (held c (whole c cs got) (suc k))
      → Interlaced ss o1 o2
          (take (part_size cs p) p)
          (deliver (held c (whole c cs got) (suc k)) (whole c cs (got ++ take (part_size cs p) p)))
  unfolding Interlaced
  interlaced fmt ss o1 o2 got p k nz l h1 h2 =
      let d = held c (whole c cs got) (suc k) in
      let tk = take (part_size cs p) p in
      Reads-interlaced cs fmt msg.prefer_cid ss o1 o2 tk d (deliver d (whole c cs (got ++ tk))) h1
        h2
        (Reads-payload c cs got p (suc k) one nz l
          (part_size-Fits cs c.header.payload_length p (omega (arith, l)) fits))

  pub receive :
      (fuel : ℕ) (p got : List ℕ) (k fmt : ℕ) (c0 : Bool) (ss : List ChunkStream) (o1 o2 : List ℕ)
      → 1 ≤ length p
      → length p ≤ fuel
      → c.header.payload_length ≡ length got + length p
      → chunk_header msg 16 c0 ≡ o1 ++ o2
      → 1 ≤ length (chunk_header msg 16 c0)
      → Reads read_basic_header o1 (fmt, msg.prefer_cid)
      → Reads
          (read_message_header fmt (find msg.prefer_cid ss))
          o2
          (held c (whole c cs got) (suc k))
      → Received fuel p got c0 ss
  unfolding whole
  receive zero p got k fmt c0 ss o1 o2 some_left f l ch nz h1 h2 = absurd (omega arith)
  receive (suc fuel) [] got k fmt c0 ss o1 o2 some_left f l ch nz h1 h2 = absurd (omega arith)
  receive (suc fuel) (b ∷ bs) got k fmt c0 ss o1 o2 some_left f l ch nz h1 h2 =
      let p = b ∷ bs in
      let n = part_size cs p in
      let tk = take n p in
      let m = whole c cs (got ++ tk) in
      let ss' = store (held c m (suc k)) ss in
      let long : length tk ≡ n = length-take_le n p (part_size-le cs p) in
      let i1 = interlaced fmt ss o1 o2 got p k some_left l h1 h2 in
      elim (Bool-cases (leb (suc (length bs)) cs)) [
        | inl y ↦ receive_last fuel b bs got k c0 ss o1 o2 l ch nz i1 (ground arith)
        | inr y ↦
            let pn : n ≡ cs = part_size-full cs p (ground arith) in
            let dl = length-drop n p in
            receive_more fuel b bs got k c0 ss o1 o2 l ch nz i1 (ground arith) (
              receive fuel (drop n p) (got ++ tk) (suc k) 3 false ss'
                ((3 * 64 + msg.prefer_cid) ∷ []) (if leb 16777215 t then be4 t else [])
                (ground (arith, pn, dl, y)) (ground (arith, pn, dl, y))
                (ground (arith, l, pn, dl, long, y, length-append got tk)) c3
                (subst (λ hd. 1 ≤ length hd) (sym c3) (omega arith))
                (Reads-one_byte 3 msg.prefer_cid (omega arith) low high)
                (Reads-header3 m refl k ss))
      ]
