-- ===== src/Protocol/Stream/Refine.antt =====
-- SrsFastStream of src/protocol/srs_protocol_stream.cpp implements the byte sequence that the chunk
-- stream is modelled on: a buffer of all the bytes that the peer sends, with a cursor.
use srs_simple.Base.{
  ℕ, ◌+◌, ◌-◌, ◌≤◌, ◌<◌, ◌≡◌, refl, sym, ap, ◌∙◌, List, [], ◌++◌, append_assoc, length, take, drop,
  length-append, length-take_le, length-drop, inl, inr, take-append_le, drop-append_le, take-take,
  drop-take, drop-drop, subst, leb, Outcome, ok, err, aborted, fault, stuck, error_socket_read,
  and_then, arith, if_cases,
}
use srs_simple.Kernel.Buffer.{Buffer, ◌>>◌, next_bytes}
use srs_simple.Kernel.Buffer.Slices.{require_next-ok, require_next-err}
use srs_simple.Protocol.Chunk
use srs_simple.Protocol.Stream.{FastStream, size, read_slice, grow, grow_slice}
use srs_simple.Protocol.Stream.Grow.{
  IsValid, unread, Took, nothing, more, Answer, Grown, Ending, grow-Grown,
}

length-unread : (s : FastStream) → IsValid s → length (unread s) ≡ size s
unfolding unread size
length-unread s v =
    length-take_le (s.end - s.p) (drop s.p s.buffer)
      (omega (arith, v.inside, length-drop s.p s.buffer))

-- read_slice(n) where n bytes are there hands out the first n of the unread bytes and leaves the
-- others.
abbrev Sliced : ℕ → FastStream → FastStream → Type 0
Sliced n s t =
    (◌≡◌ {A = Outcome (List ℕ × FastStream)} (read_slice n s) (ok (take n (unread s), t)))
    × IsValid t
    × (unread t ≡ drop n (unread s))

read_slice-Sliced :
    (n : ℕ) (s : FastStream) → IsValid s → n ≤ size s → Sliced n s (record s { p = s.p + n })
unfolding read_slice unread size
read_slice-Sliced n s v h = (
  if_cases (λ o. o ≡ ok (take n (take (s.end - s.p) (drop s.p s.buffer)), record s { p = s.p + n }))
      (leb n (s.end - s.p)) _ _
      (λ _.
        ap (λ l. ok (l, record s { p = s.p + n }))
          (sym (take-take n (s.end - s.p) (drop s.p s.buffer) h)))
      (λ x. absurd (ground (arith, x, h))),
  record { started = omega (arith, h, v.started); inside = v.inside },
  sym (
      drop-take n (s.end - s.p) (drop s.p s.buffer)
      ∙ ap (λ l. take ((s.end - s.p) - n) l) (drop-drop n s.p s.buffer)
      ∙ ap (λ k. take k (drop (s.p + n) s.buffer)) less),
)
  where
    less : (s.end - s.p) - n ≡ s.end - (s.p + n)
    less = omega arith

module _ {R : Type 0} (read : R → ℕ → Outcome (List ℕ) × R) (content : R → List ℕ) where
  -- The buffer of all the bytes, where the stream has been read to its cursor.
  pub record Represents (nb_buffer : ℕ) (s : FastStream) (r : R) (b : Buffer) : Type 0 where
    pub capacity : length s.buffer ≡ nb_buffer
    pub valid : IsValid s
    pub inside : b.p ≤ length b.bytes
    pub ahead : drop b.p b.bytes ≡ unread s ++ content r

  -- The same bytes and again the same sequence, or the same error.
  abbrev pub Agrees : ℕ → Outcome (List ℕ × FastStream × R) → Outcome (List ℕ × Buffer) → Type 0
  Agrees nb_buffer (ok (x, s, r)) (ok (y, b)) = (x ≡ y) × Represents nb_buffer s r b
  Agrees nb_buffer (err e) (err f) = e ≡ f
  Agrees nb_buffer _ _ = ⊥

  -- The reads of a peer that sends content and then closes.
  abbrev pub Gives : R → Outcome (List ℕ) × R → Type 0
  Gives r (ok bs, r') = content r ≡ bs ++ content r'
  Gives r (err e, r') = (e ≡ error_socket_read) × ◌≡◌ {A = List ℕ} (content r) []
  Gives r _ = Unit

  module _ (answers : (r : R) (n : ℕ) → 0 < n → Answer read n (read r n).0)
      (gives : (r : R) (n : ℕ) → Gives r (read r n)) where
    Took-content : {r r' : R} {bs : List ℕ} → Took read r bs r' → content r ≡ bs ++ content r'
    Took-content nothing = refl
    Took-content {r} (more {r'} {r''} {n} {bs} {cs} e t) =
        subst (Gives r) e (gives r n)
        ∙ ap (λ l. bs ++ l) (Took-content t)
        ∙ sym (append_assoc bs cs (content r''))

    -- grow(n) and then read_slice(n), for n within the memory, do on the buffer between the socket
    -- and the chunk stream what a check for n bytes and then a read of n bytes do on the sequence of
    -- all bytes of the peer: the same bytes and again the same sequence ahead, or the same error; for
    -- a reader that gives the bytes of the peer in their order, at least one and at most the size at a
    -- time, and fails with ERROR_SOCKET_READ behind the last.
    pub grow_slice-refines :
        (n nb_buffer : ℕ) (s : FastStream) (r : R) (b : Buffer)
        → n ≤ nb_buffer
        → Represents nb_buffer s r b
        → Agrees nb_buffer (grow_slice read n s r) ((Chunk.grow n >> next_bytes n) b)
    unfolding grow_slice
    grow_slice-refines n nb_buffer s r b h rep =
        agree (grow read n s r).0 (grow-Grown read answers n s r rep.valid).ending
      where
        g : Grown read n s r (grow read n s r)
        g = grow-Grown read answers n s r rep.valid

        s' : FastStream
        s' = (grow read n s r).1

        r' : R
        r' = (grow read n s r).2

        result : Outcome (Unit {0}) → Outcome (List ℕ × FastStream × R)
        result o = and_then o (λ _. and_then (read_slice n s') (λ t. ok (t.0, t.1, r')))

        ahead : drop b.p b.bytes ≡ unread s' ++ content g.reader
        ahead =
            rep.ahead
            ∙ ap (λ l. unread s ++ l) (Took-content g.took)
            ∙ sym (append_assoc (unread s) g.bytes (content g.reader))
            ∙ ap (λ l. l ++ content g.reader) (sym g.kept)

        bytes_left : length b.bytes - b.p ≡ size s' + length (content g.reader)
        bytes_left =
            sym (length-drop b.p b.bytes)
            ∙ ap length ahead
            ∙ length-append (unread s') (content g.reader)
            ∙ ap (λ k. k + length (content g.reader)) (length-unread s' g.valid)

        agree :
            (o : Outcome (Unit {0}))
            → Ending read n s' g.reader r' o
            → Agrees nb_buffer (result o) ((Chunk.grow n >> next_bytes n) b)
        agree (ok x) d =
            subst (Agrees nb_buffer (result (ok x)))
              (sym (
                require_next-ok n error_socket_read b (omega (arith, bytes_left, d.1, rep.inside))))
              (subst (λ t. Agrees nb_buffer (and_then t (λ t. ok (t.0, t.1, r'))) there) (sym cut.0)
                (
                  sym (
                      ap (λ l. take n l) ahead
                      ∙ take-append_le n (unread s') (content g.reader) fits),
                  record {
                    capacity = g.capacity ∙ rep.capacity;
                    valid = cut.1;
                    inside = omega (arith, bytes_left, d.1, rep.inside);
                    ahead =
                        sym (drop-drop n b.p b.bytes)
                        ∙ ap (λ l. drop n l) ahead
                        ∙ drop-append_le n (unread s') (content g.reader) fits
                        ∙ ap (λ l. l ++ content g.reader) (sym cut.2)
                        ∙ ap (λ q. unread (record s' { p = s'.p + n }) ++ content q) (sym d.0);
                  },
                ))
          where
            fits : n ≤ length (unread s')
            fits = omega (arith, d.1, length-unread s' g.valid)

            cut : Sliced n s' (record s' { p = s'.p + n })
            cut = read_slice-Sliced n s' g.valid d.1

            there : Outcome (List ℕ × Buffer)
            there = ok (take n (drop b.p b.bytes), record b { p = b.p + n })
        agree (err e) (few, inl x) = absurd (omega (arith, x.1, h, g.capacity, rep.capacity))
        agree (err e) (few, inr x) =
            let end = subst (Gives g.reader) x.1 (gives g.reader x.0) in
            let short : length b.bytes < b.p + n =
              omega (arith, bytes_left, few, ap length end.1) in
            subst (Agrees nb_buffer (err e)) (sym (require_next-err n error_socket_read b short))
              end.0
        agree aborted d = absurd d
        agree fault d = absurd d
        agree stuck d = absurd d
