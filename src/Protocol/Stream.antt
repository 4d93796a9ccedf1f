-- ===== src/Protocol/Stream.antt =====
-- src/protocol/srs_protocol_stream.cpp: SrsFastStream, the buffer between the socket and the chunk
-- stream. The memory is a list of nb_buffer bytes, p and end are offsets into it. The reader, an
-- ISrsReader, is a parameter: a state, and a read of at most the size that it is given, which
-- answers the bytes it put and its next state.
pub mod Grow
pub mod Refine
mod Tests
use srs_simple.Base.{
  ℕ, zero, suc, ◌+◌, ◌-◌, Bool, true, false, not, ◌&&◌, List, [], ◌∷◌, ◌++◌, leb, ltb, ◌==◌,
  if◌then◌else◌, length, get_elem?, take, drop, replicate, Outcome, ok, err, aborted, fault, stuck,
  and_then, error_reader_buffer_overflow, Option, none, some,
}
use srs_simple.Base.Int.{ℤ}

pub record FastStream : Type 0 where
  pub buffer : List ℕ
  pub p : ℕ
  pub end : ℕ

-- malloc leaves the bytes as they are; nothing reads one before it is written.
pub init : ℕ → List ℕ → FastStream
init size memory = record { buffer = take nb_buffer memory; p = 0; end = 0 }
  where
    nb_buffer : ℕ
    nb_buffer = if size == 0 then 131072 else size

unfoldable pub size : FastStream → ℕ
size s = s.end - s.p

pub read_1byte : FastStream → Outcome (ℕ × FastStream)
read_1byte s =
    if leb 1 (s.end - s.p)
    then (elim (get_elem? s.buffer s.p) [
      | none ↦ fault
      | some b ↦ ok (b, record s { p = s.p + 1 })
    ])
    else aborted

-- The slice is a pointer into the buffer; its callers use its bytes before the next grow.
unfoldable pub read_slice : ℕ → FastStream → Outcome (List ℕ × FastStream)
read_slice n s =
    if leb n (s.end - s.p)
    then ok (take n (drop s.p s.buffer), record s { p = s.p + n })
    else aborted

pub skip : ℤ → FastStream → Outcome (Unit {0} × FastStream)
skip (ℤ.pos n) s = if leb n (s.end - s.p) then ok (tt, record s { p = s.p + n }) else aborted
skip (ℤ.negsuc n) s = if ltb n s.p then ok (tt, record s { p = s.p - suc n }) else aborted

-- The reader puts bytes at end; no byte lies behind the memory.
unfoldable pub receive : FastStream → List ℕ → FastStream
receive s bs = record s {
  buffer = take s.end s.buffer ++ (bs ++ drop (s.end + length bs) s.buffer);
  end = s.end + length bs;
}

-- Reset or move to get more space.
unfoldable pub make_room : FastStream → FastStream
make_room s =
    if s.end - s.p == 0
    then record s { p = 0; end = 0 }
    else (if ltb (s.end - s.p) (length s.buffer) && ltb 0 s.p
        then record {
          buffer = take (s.end - s.p) (drop s.p s.buffer) ++ drop (s.end - s.p) s.buffer;
          p = 0;
          end = s.end - s.p;
        }
        else s)

module _ {R : Type 0} (read : R → ℕ → Outcome (List ℕ) × R) where
  -- What a call does to the stream and the reader it keeps, also where it fails.
  abbrev pub Result : Type 0
  Result = Outcome (Unit {0}) × FastStream × R

  -- The body of the loop, behind the read, and the rest of the loop.
  unfoldable pub after_read : (List ℕ → R → Result) → FastStream → Outcome (List ℕ) → R → Result
  after_read rest s (ok bs) r =
      if ltb (length s.buffer) (s.end + length bs)
      then (fault, s, r)
      else (if ltb 0 (length bs) then rest bs r else (aborted, s, r))
  after_read rest s (err e) r = (err e, s, r)
  after_read rest s aborted r = (aborted, s, r)
  after_read rest s fault r = (fault, s, r)
  after_read rest s stuck r = (stuck, s, r)

  -- The loop of reads.
  unfoldable pub fill : ℕ → ℕ → ℕ → FastStream → R → Result
  fill zero required free s r = if ltb (s.end - s.p) required then (stuck, s, r) else (ok tt, s, r)
  fill (suc fuel) required free s r =
      if ltb (s.end - s.p) required
      then after_read (λ bs r'. fill fuel required (free - length bs) (receive s bs) r') s
          (read r free).0 (read r free).1
      else (ok tt, s, r)

  -- Each read puts a byte at least, so required_size rounds are enough.
  unfoldable pub grow : ℕ → FastStream → R → Result
  grow required s r =
      if leb required (s.end - s.p)
      then (ok tt, s, r)
      else (if not (ltb 0 required)
          then (aborted, s, r)
          else (if ltb ((s.end - s.p) + (length s.buffer - s.end)) required
              then (if ltb ((s.end - s.p) + (length s.buffer - (make_room s).end)) required
                  then (err error_reader_buffer_overflow, make_room s, r)
                  else fill required required (length s.buffer - (make_room s).end) (make_room s) r)
              else fill required required (length s.buffer - s.end) s r))

  -- if ((err = in_buffer->grow(skt, n)) != srs_success) return err; in_buffer->read_slice(n).
  unfoldable pub grow_slice : ℕ → FastStream → R → Outcome (List ℕ × FastStream × R)
  grow_slice n s r =
      and_then (grow n s r).0
        (λ _. and_then (read_slice n (grow n s r).1) (λ t. ok (t.0, t.1, (grow n s r).2)))
