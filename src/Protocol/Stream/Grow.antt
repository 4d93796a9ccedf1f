-- ===== src/Protocol/Stream/Grow.antt =====
-- What grow of src/protocol/srs_protocol_stream.cpp does, seen from the bytes not read yet.
use srs_simple.Base.{
  ℕ, zero, suc, ◌+◌, ◌-◌, ◌≤◌, ◌<◌, ◌≡◌, ap, ◌∙◌, ◌⊎◌, inl, inr, refl, sym, false, List, [], ◌∷◌,
  ◌++◌, append-nil, append_assoc, length, take, drop, length-append, length-take_le, length-drop,
  take-append_length, if_cases, ◌==◌, ◌&&◌, ltb, leb, not, Outcome, ok, err, aborted, fault, stuck,
  error_reader_buffer_overflow, arith,
}
use srs_simple.Protocol.Stream.{FastStream, size, receive, make_room, after_read, fill, grow}

-- buffer <= p <= end <= buffer+nb_buffer.
pub record IsValid (s : FastStream) : Type 0 where
  pub started : s.p ≤ s.end
  pub inside : s.end ≤ length s.buffer

unfoldable pub unread : FastStream → List ℕ
unread s = take (s.end - s.p) (drop s.p s.buffer)

-- A write behind the bytes p to e adds to them.
take-drop_write :
    (p e : ℕ) (m bs t : List ℕ)
    → p ≤ e
    → e ≤ length m
    → take ((e + length bs) - p) (drop p (take e m ++ (bs ++ t))) ≡ take (e - p) (drop p m) ++ bs
take-drop_write zero e m bs t h l =
    let n : (e + length bs) - 0 ≡ length (take e m ++ bs) =
      omega (arith, length-append (take e m) bs, length-take_le e m l) in
    let z : e - 0 ≡ e = omega arith in
    rw (n, z, sym (append_assoc (take e m) bs t)) (take-append_length (take e m ++ bs) t)
take-drop_write (suc p) zero m bs t h l = absurd (omega arith)
take-drop_write (suc p) (suc e) [] bs t h l = absurd (omega arith)
take-drop_write (suc p) (suc e) (x ∷ m) bs t h l =
    let n : (suc e + length bs) - suc p ≡ (e + length bs) - p = omega arith in
    let z : suc e - suc p ≡ e - p = omega arith in
    rw (n, z) (take-drop_write p e m bs t (omega arith) (omega arith))

receive-IsValid :
    (s : FastStream) (bs : List ℕ)
    → IsValid s
    → s.end + length bs ≤ length s.buffer
    → IsValid (receive s bs)
      × (length (receive s bs).buffer ≡ length s.buffer)
      × (unread (receive s bs) ≡ unread s ++ bs)
unfolding receive unread
receive-IsValid s bs v h = (
  record { started = omega (arith, v.started); inside = omega (arith, len) },
  len,
  take-drop_write s.p s.end s.buffer bs _ v.started v.inside,
)
  where
    len :
        length (take s.end s.buffer ++ (bs ++ drop (s.end + length bs) s.buffer)) ≡ length s.buffer
    len = omega (
      arith,
      length-append (take s.end s.buffer) (bs ++ drop (s.end + length bs) s.buffer),
      length-append bs (drop (s.end + length bs) s.buffer),
      length-drop (s.end + length bs) s.buffer,
      length-take_le s.end s.buffer v.inside,
    )

-- make_room keeps the unread bytes.
abbrev SameBytes : FastStream → FastStream → Type 0
SameBytes s t =
    IsValid t
    × (length t.buffer ≡ length s.buffer)
    × (unread t ≡ unread s)
    × (t.p ≡ 0)
    × (t.end ≡ s.end - s.p)

make_room-SameBytes : (s : FastStream) → IsValid s → SameBytes s (make_room s)
unfolding make_room unread
make_room-SameBytes s v =
    if_cases (SameBytes s) (s.end - s.p == 0) _ _
      (λ e. (
        record { started = omega arith; inside = omega arith },
        refl,
        (let z : s.end - s.p ≡ 0 = ground (arith, e) in rw z refl),
        refl,
        ground (arith, e),
      ))
      (λ _.
        if_cases (SameBytes s) (ltb (s.end - s.p) (length s.buffer) && ltb 0 s.p) _ _
          (λ _. (
            record { started = omega arith; inside = omega (arith, moved) },
            moved,
            slice,
            refl,
            refl,
          ))
          (λ x. (v, refl, refl, start x, omega (arith, start x))))
  where
    n : ℕ
    n = s.end - s.p

    start : (ltb n (length s.buffer) && ltb 0 s.p) ≡ false → s.p ≡ 0
    start x = ground (arith, x, v.started, v.inside)

    slice_length : length (take n (drop s.p s.buffer)) ≡ n
    slice_length =
        length-take_le n (drop s.p s.buffer)
          (omega (arith, v.started, v.inside, length-drop s.p s.buffer))

    moved : length (take n (drop s.p s.buffer) ++ drop n s.buffer) ≡ length s.buffer
    moved = omega (
      arith,
      length-append (take n (drop s.p s.buffer)) (drop n s.buffer),
      slice_length,
      length-drop n s.buffer,
      v.started,
      v.inside,
    )

    slice :
        take (n - 0) (take n (drop s.p s.buffer) ++ drop n s.buffer) ≡ take n (drop s.p s.buffer)
    slice =
        let e : n - 0 ≡ length (take n (drop s.p s.buffer)) = omega (arith, slice_length) in
        rw e (take-append_length (take n (drop s.p s.buffer)) (drop n s.buffer))

module _ {R : Type 0} (read : R → ℕ → Outcome (List ℕ) × R) where
  -- The reads from one state of the reader to another, and the bytes that they gave.
  pub data Took : R → List ℕ → R → Type 0 where
    nothing : {r : R} → Took r [] r
    more :
        {r r' r'' : R} {n : ℕ} {bs cs : List ℕ}
        → read r n ≡ (ok bs, r')
        → Took r' cs r''
        → Took r (bs ++ cs) r''

  -- How a call of grow(n) ends, where the reads of it ended in r0 and the reader is now r'.
  abbrev pub Ending : ℕ → FastStream → R → R → Outcome (Unit {0}) → Type 0
  Ending n s r0 r' (ok x) = (r' ≡ r0) × (n ≤ size s)
  Ending n s r0 r' (err e) =
      (size s < n)
      × (((e ≡ error_reader_buffer_overflow) × (length s.buffer < n) × (r' ≡ r0))
          ⊎ ((free : ℕ) × (read r0 free ≡ (err e, r'))))
  Ending n s r0 r' aborted = ⊥
  Ending n s r0 r' fault = ⊥
  Ending n s r0 r' stuck = ⊥

  -- The stream and the reader behind a call of grow(n).
  pub record Grown (n : ℕ) (s : FastStream) (r : R) (o : Outcome (Unit {0}) × FastStream × R)
      : Type 0 where
    pub bytes : List ℕ
    pub reader : R
    pub took : Took r bytes reader
    pub valid : IsValid o.1
    pub capacity : length o.1.buffer ≡ length s.buffer
    pub kept : unread o.1 ≡ unread s ++ bytes
    pub ending : Ending n o.1 reader o.2 o.0

  -- An ISrsReader puts at least one byte, and at most the size it is given, or fails.
  abbrev pub Answer : ℕ → Outcome (List ℕ) → Type 0
  Answer n (ok bs) = (0 < length bs) × (length bs ≤ n)
  Answer n (err e) = Unit
  Answer n aborted = ⊥
  Answer n fault = ⊥
  Answer n stuck = ⊥

  module _ (answers : (r : R) (n : ℕ) → 0 < n → Answer n (read r n).0) where
    at_once : (n : ℕ) (s : FastStream) (r : R) → IsValid s → n ≤ size s → Grown n s r (ok tt, s, r)
    at_once n s r v h = record {
      bytes = [];
      reader = r;
      took = nothing;
      valid = v;
      capacity = refl;
      kept = sym (append-nil (unread s));
      ending = (refl, h);
    }

    after-Grown :
        (n : ℕ) (s : FastStream) (r : R) (bs : List ℕ) (r' : R)
        → read r n ≡ (ok bs, r')
        → {k : ℕ} {o : Outcome (Unit {0}) × FastStream × R} → IsValid s
        → s.end + length bs ≤ length s.buffer
        → Grown k (receive s bs) r' o
        → Grown k s r o
    after-Grown n s r bs r' e {k} {o} v l g =
        let d = receive-IsValid s bs v l in
        record {
          bytes = bs ++ g.bytes;
          reader = g.reader;
          took = more e g.took;
          valid = g.valid;
          capacity = g.capacity ∙ d.1;
          kept = g.kept ∙ ap (λ u. u ++ g.bytes) d.2 ∙ append_assoc (unread s) bs g.bytes;
          ending = g.ending;
        }

    after_read-Grown :
        (rest : List ℕ → R → Outcome (Unit {0}) × FastStream × R) (n free : ℕ) (s : FastStream)
        (r : R) (o : Outcome (List ℕ)) (r' : R)
        → read r free ≡ (o, r')
        → Answer free o
        → IsValid s
        → size s < n
        → s.end + free ≡ length s.buffer
        → ((bs : List ℕ)
            → 0 < length bs
            → length bs ≤ free
            → Grown n (receive s bs) r' (rest bs r'))
        → Grown n s r (after_read read rest s o r')
    unfolding after_read
    after_read-Grown rest n free s r (ok bs) r' e a v few room h =
        if_cases (Grown n s r) (ltb (length s.buffer) (s.end + length bs)) _ _
          (λ x. absurd (ground (arith, x, fits)))
          (λ _.
            if_cases (Grown n s r) (ltb 0 (length bs)) _ _
              (λ _. after-Grown free s r bs r' e v fits (h bs a.0 a.1))
              (λ x. absurd (ground (arith, x, a.0))))
      where
        fits : s.end + length bs ≤ length s.buffer
        fits = omega (arith, room, a.1)
    after_read-Grown rest n free s r (err c) r' e a v few room h = record {
      bytes = [];
      reader = r;
      took = nothing;
      valid = v;
      capacity = refl;
      kept = sym (append-nil (unread s));
      ending = (few, inr (free, e));
    }
    after_read-Grown rest n free s r aborted r' e a v few room h = absurd a
    after_read-Grown rest n free s r fault r' e a v few room h = absurd a
    after_read-Grown rest n free s r stuck r' e a v few room h = absurd a

    fill-Grown :
        (fuel n free : ℕ) (s : FastStream) (r : R)
        → IsValid s
        → s.end + free ≡ length s.buffer
        → n ≤ size s + free
        → n ≤ size s + fuel
        → Grown n s r (fill read fuel n free s r)
    unfolding fill receive size
    fill-Grown zero n free s r v room h f =
        if_cases (Grown n s r) (ltb (s.end - s.p) n) _ _ (λ e. absurd (ground (arith, e, f)))
          (λ e. at_once n s r v (ground (arith, e)))
    fill-Grown (suc fuel) n free s r v room h f =
        if_cases (Grown n s r) (ltb (s.end - s.p) n) _ _
          (λ e.
            after_read-Grown _ n free s r _ _ refl (answers r free (ground (arith, e, h))) v
              (ground (arith, e)) room
              (λ bs some_bytes fits.
                let l : s.end + length bs ≤ length s.buffer = omega (arith, room, fits) in
                let d = receive-IsValid s bs v l in
                fill-Grown fuel n (free - length bs) (receive s bs) (read r free).1 d.0
                  (omega (arith, d.1, room, fits)) (omega (arith, h, fits, v.started))
                  (omega (arith, f, some_bytes, v.started))))
          (λ e. at_once n s r v (ground (arith, e)))

    -- grow(n) on a valid buffer and with a reader that gives a byte at least or fails, ends: it keeps
    -- the unread bytes and adds just those that the reader gave, in their order. Where it succeeds, n
    -- bytes are there. Where it fails, fewer are there, and it is with the reader's error, or with
    -- ERROR_READER_BUFFER_OVERFLOW where the memory is smaller than n. No srs_assert fails and no byte
    -- lies outside the memory.
    pub grow-Grown : (n : ℕ) (s : FastStream) (r : R) → IsValid s → Grown n s r (grow read n s r)
    unfolding grow size
    grow-Grown n s r v =
        if_cases (Grown n s r) (leb n (s.end - s.p)) _ _ (λ e. at_once n s r v (ground (arith, e)))
          (λ e.
            if_cases (Grown n s r) (not (ltb 0 n)) _ _ (λ x. absurd (ground (arith, e, x)))
              (λ _.
                if_cases (Grown n s r) (ltb ((s.end - s.p) + (length s.buffer - s.end)) n) _ _
                  (λ few.
                    if_cases (Grown n s r)
                      (ltb ((s.end - s.p) + (length s.buffer - (make_room s).end)) n) _ _
                      (λ x. moved (record {
                        bytes = [];
                        reader = r;
                        took = nothing;
                        valid = m.0;
                        capacity = refl;
                        kept = sym (append-nil (unread (make_room s)));
                        ending = (
                          ground (arith, e, m.3, m.4),
                          inl (refl, ground (arith, x, m.1, m.4, v.started, v.inside), refl),
                        );
                      }))
                      (λ x. moved (
                        fill-Grown n n (length s.buffer - (make_room s).end) (make_room s) r m.0
                          (omega (arith, m.1, m.0.inside)) (ground (arith, x, m.3, m.4))
                          (omega arith))))
                  (λ few.
                    fill-Grown n n (length s.buffer - s.end) s r v (omega (arith, v.inside))
                      (ground (arith, few)) (omega arith))))
      where
        m : SameBytes s (make_room s)
        m = make_room-SameBytes s v

        moved :
            {o : Outcome (Unit {0}) × FastStream × R} → Grown n (make_room s) r o → Grown n s r o
        moved g = record {
          bytes = g.bytes;
          reader = g.reader;
          took = g.took;
          valid = g.valid;
          capacity = g.capacity ∙ m.1;
          kept = g.kept ∙ ap (λ u. u ++ g.bytes) m.2;
          ending = g.ending;
        }
