-- ===== src/Protocol/Chunk/Message/Parts.antt =====
-- src/protocol/srs_protocol_rtmp_stack.cpp: one chunk of a message, and the map of chunk streams.
use srs_simple.Base.{
  ℕ, ◌+◌, ◌-◌, ◌≤◌, ◌<◌, ◌≡◌, ◌⊎◌, inl, inr, refl, ap, true, false, ◌==◌, ltb, leb, if◌then◌else◌,
  if_cases, List, [], ◌∷◌, ◌++◌, length, take, Option, arith, error_socket_read, length-take_le,
}
use srs_simple.Kernel.Buffer.{◌>>=◌, pure, next_bytes}
use srs_simple.Kernel.Buffer.Reads.{Reads, Reads-bind, Reads-require, Reads-map, Reads-next_bytes}
use srs_simple.Protocol.Chunk.{CommonMessage, ChunkStream, read_basic_header, read_message_header}
use srs_simple.Protocol.Chunk.Message.{
  deliver, read_part, read_message_payload, find, store, recv_interlaced_message,
}
use srs_simple.Protocol.Chunk.Message.Transfer.{held}

-- The size of the next chunk.
unfoldable pub part_size : ℕ → List ℕ → ℕ
part_size cs p = if ltb cs (length p) then cs else length p

pub part_size-le : (cs : ℕ) (p : List ℕ) → part_size cs p ≤ length p
unfolding part_size
part_size-le cs p = ground arith

-- One of the two bounds a chunk.
pub part_size-Fits :
    (cs size : ℕ) (p : List ℕ)
    → length p ≤ size
    → (cs ≤ 131072) ⊎ (size ≤ 131072)
    → part_size cs p ≤ 131072
unfolding part_size
part_size-Fits cs size p h (inl a) = ground (arith, a)
part_size-Fits cs size p h (inr a) = ground (arith, a, h)

pub part_size-full : (cs : ℕ) (p : List ℕ) → cs < length p → part_size cs p ≡ cs
unfolding part_size
part_size-full cs p h = ground arith

module _ (c : ChunkStream) (cs : ℕ) where
  unfoldable pub whole : List ℕ → CommonMessage
  whole got = record { header = c.header; payload = got }

  pub Reads-payload :
      (got p : List ℕ) (k : ℕ)
      → 1 ≤ cs
      → 1 ≤ length p
      → c.header.payload_length ≡ length got + length p
      → part_size cs p ≤ 131072
      → Reads
          (read_message_payload cs (held c (whole got) k))
          (take (part_size cs p) p)
          (deliver (held c (whole got) k) (whole (got ++ take (part_size cs p) p)))
  unfolding read_message_payload read_part held whole part_size
  Reads-payload got p k one some_left e fits =
      let n = part_size cs p in
      let t = take n p in
      let long : length t ≡ n = length-take_le n p (ground arith) in
      let a : leb c.header.payload_length 0 ≡ false = ground arith in
      let b : ltb c.header.payload_length (length got) ≡ false = ground arith in
      let l = c.header.payload_length - length got in
      let s : (if ltb l cs then l else cs) ≡ length t = ground arith in
      let g : ltb 131072 (length t) ≡ false = ground (arith, long, fits) in
      let f = λ (x : List ℕ). deliver (held c (whole got) k) (whole (got ++ x)) in
      rw (a, b, s, g)
        (Reads-require (length t) error_socket_read (next_bytes (length t) >>= λ x. pure (f x)) t
          (omega arith) (Reads-map (next_bytes (length t)) f t (Reads-next_bytes t)))

pub Reads-interlaced :
    (cs fmt cid : ℕ) (ss : List ChunkStream) (o1 o2 o3 : List ℕ) (d : ChunkStream)
    (r : ChunkStream × Option CommonMessage)
    → Reads read_basic_header o1 (fmt, cid)
    → Reads (read_message_header fmt (find cid ss)) o2 d
    → Reads (read_message_payload cs d) o3 r
    → Reads {A = List ChunkStream × Option CommonMessage}
        (recv_interlaced_message cs ss)
        (o1 ++ (o2 ++ o3))
        (store r.0 ss, r.1)
unfolding recv_interlaced_message
Reads-interlaced cs fmt cid ss o1 o2 o3 d r h1 h2 h3 =
    let g : ChunkStream × Option CommonMessage → List ChunkStream × Option CommonMessage =
      λ q. (store q.0 ss, q.1) in
    let f2 = λ (x : ChunkStream). read_message_payload cs x >>= λ q. pure (g q) in
    let f1 = λ (h : ℕ × ℕ). read_message_header h.0 (find h.1 ss) >>= f2 in
    Reads-bind read_basic_header f1 o1 (o2 ++ o3) h1 (
      Reads-bind (read_message_header fmt (find cid ss)) f2 o2 o3 h2
        (Reads-map (read_message_payload cs d) g o3 h3))

pub find-store : (d : ChunkStream) (ss : List ChunkStream) → find d.cid (store d ss) ≡ d
unfolding find store
find-store d [] = let y : (d.cid == d.cid) ≡ true = ground arith in rw y refl
find-store d (c ∷ cs) =
    let z : (d.cid == d.cid) ≡ true = ground arith in
    if_cases (λ l. find d.cid l ≡ d) (c.cid == d.cid) (d ∷ cs) (c ∷ store d cs) (λ y. rw z refl)
      (λ f. rw f (find-store d cs))

pub store-store :
    (d e : ChunkStream) (ss : List ChunkStream) → d.cid ≡ e.cid → store d (store e ss) ≡ store d ss
unfolding store
store-store d e [] h = let y : (e.cid == d.cid) ≡ true = ground (arith, h) in rw y refl
store-store d e (c ∷ cs) h =
    let y : (e.cid == d.cid) ≡ true = ground (arith, h) in
    if_cases (λ l. store d l ≡ store d (c ∷ cs)) (c.cid == e.cid) (e ∷ cs) (c ∷ store e cs)
      (λ q. let w : (c.cid == d.cid) ≡ true = ground (arith, h) in rw (y, w) refl)
      (λ q.
        let w : (c.cid == d.cid) ≡ false = ground (arith, h) in
        rw w (ap (λ l. c ∷ l) (store-store d e cs h)))
