-- ===== src/Protocol/Stream/Tests.antt =====
-- The claims about src/protocol/srs_protocol_stream.cpp, at concrete inputs: a peer that sends five
-- bytes, of which a read gives two at most, into a memory of four bytes.
use srs_simple.Base.{
  ℕ, ◌<◌, List, [], ◌∷◌, ltb, if◌then◌else◌, if_cases, Outcome, ok, err, error_socket_read, refl,
  arith,
}
use srs_simple.Kernel.Buffer.{Buffer, ◌>>◌, next_bytes}
use srs_simple.Protocol.Chunk
use srs_simple.Protocol.Stream.{FastStream, grow, grow_slice}
use srs_simple.Protocol.Stream.Grow.{unread, Answer, Grown, grow-Grown}
use srs_simple.Protocol.Stream.Refine.{Gives, Agrees, grow_slice-refines}

abbrev peer : List ℕ → ℕ → Outcome (List ℕ) × List ℕ
peer [] n = (err error_socket_read, [])
peer (x ∷ []) n = (ok (x ∷ []), [])
peer (x ∷ y ∷ r) n = if ltb n 2 then (ok (x ∷ []), y ∷ r) else (ok (x ∷ y ∷ []), r)

peer-Answer : (r : List ℕ) (n : ℕ) → 0 < n → Answer peer n (peer r n).0
peer-Answer [] n h = tt
peer-Answer (x ∷ []) n h = (omega arith, omega (arith, h))
peer-Answer (x ∷ y ∷ r) n h =
    if_cases {A = Outcome (List ℕ) × List ℕ} (λ a. Answer peer n a.0) (ltb n 2) _ _
      (λ _. (omega arith, omega (arith, h))) (λ e. (omega arith, ground (arith, e)))

peer-Gives : (r : List ℕ) (n : ℕ) → Gives peer (λ r'. r') r (peer r n)
peer-Gives [] n = (refl, refl)
peer-Gives (x ∷ []) n = refl
peer-Gives (x ∷ y ∷ r) n =
    if_cases (Gives peer (λ r'. r') (x ∷ y ∷ r)) (ltb n 2) _ _ (λ _. refl) (λ _. refl)

-- One byte has been read and two are unread.
abbrev stream : FastStream
stream = record { buffer = 9 ∷ 1 ∷ 2 ∷ 0 ∷ []; p = 1; end = 3 }

grow-Grown_example : Grown peer 4 stream (3 ∷ 4 ∷ 5 ∷ []) (grow peer 4 stream (3 ∷ 4 ∷ 5 ∷ []))
grow-Grown_example =
    grow-Grown peer peer-Answer 4 stream (3 ∷ 4 ∷ 5 ∷ [])
      (record { started = omega arith; inside = omega arith })

abbrev all_bytes : Buffer
all_bytes = record { bytes = 9 ∷ 1 ∷ 2 ∷ 3 ∷ 4 ∷ 5 ∷ []; p = 1 }

grow_slice-refines_example :
    Agrees peer
      (λ r. r)
      4
      (grow_slice peer 4 stream (3 ∷ 4 ∷ 5 ∷ []))
      ((Chunk.grow 4 >> next_bytes 4) all_bytes)
unfolding unread
grow_slice-refines_example =
    grow_slice-refines peer (λ r. r) peer-Answer peer-Gives 4 4 stream (3 ∷ 4 ∷ 5 ∷ []) all_bytes
      (omega arith)
      (record {
        capacity = refl;
        valid = record { started = omega arith; inside = omega arith };
        inside = omega arith;
        ahead = refl;
      })
