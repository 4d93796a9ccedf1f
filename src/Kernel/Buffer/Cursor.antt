-- ===== src/Kernel/Buffer/Cursor.antt =====
-- SrsBuffer seen as two lists, what the cursor has passed and what it has not: each operation of
-- src/kernel/srs_kernel_buffer.cpp on that view.
use srs_simple.Base.{
  ℕ, suc, ◌+◌, ◌-◌, ◌≤◌, ◌≡◌, sym, ap, true, List, [], ◌∷◌, ◌++◌, append_assoc, leb, ltb,
  if◌then◌else◌, length, take, drop, take-append-drop, length-take_le, length-append,
  get_elem?-append_length, set-append_length, ErrorCode, ok, err, aborted, arith,
}
use srs_simple.Base.Int.{ℤ}
use srs_simple.Kernel.Buffer.{Buffer, require, skip, next, put, empty, assert_require, require_or}

abbrev pub cursor : List ℕ → List ℕ → Buffer
cursor pre post = record { bytes = pre ++ post; p = length pre }

-- The cursor behind the next item.
cursor_step :
    (pre : List ℕ) (x : ℕ) (post : List ℕ)
    → ◌≡◌ {A = Buffer}
        (record { bytes = pre ++ (x ∷ post); p = length pre + 1 })
        (cursor (pre ++ (x ∷ [])) post)
cursor_step pre x post = rw (append_assoc pre (x ∷ []) post, length-append pre (x ∷ []))

pub next-cursor :
    (pre : List ℕ) (x : ℕ) (post : List ℕ)
    → next (cursor pre (x ∷ post)) ≡ ok (x, cursor (pre ++ (x ∷ [])) post)
unfolding next
next-cursor pre x post =
    rw (get_elem?-append_length pre x post, next) (ap (λ c. ok (x, c)) (cursor_step pre x post))

pub put-cursor :
    (pre : List ℕ) (x v : ℕ) (post : List ℕ)
    → put v (cursor pre (x ∷ post)) ≡ ok (tt, cursor (pre ++ (v ∷ [])) post)
unfolding put
put-cursor pre x v post =
    rw (inside, set-append_length pre x v post) (ap (λ c. ok (tt, c)) (cursor_step pre v post))
  where
    inside : ltb (length pre) (length (pre ++ (x ∷ post))) ≡ true
    inside = ground (arith, length-append pre (x ∷ post))

pub require-cursor :
    (n : ℕ) (pre post : List ℕ) → require (ℤ.pos n) (cursor pre post) ≡ leb n (length post)
unfolding require
require-cursor n pre post = ground (arith, length-append pre post)

pub require_or-cursor :
    (n : ℕ) (e : ErrorCode) (pre post : List ℕ)
    → require_or n e (cursor pre post)
      ≡ (if leb n (length post) then ok (tt, cursor pre post) else err e)
unfolding require_or
require_or-cursor n e pre post = rw (require-cursor n pre post)

pub assert_require-cursor :
    (n : ℕ) (pre post : List ℕ)
    → assert_require n (cursor pre post)
      ≡ (if leb n (length post) then ok (tt, cursor pre post) else aborted)
unfolding assert_require
assert_require-cursor n pre post = rw (require-cursor n pre post)

pub empty-cursor : (pre post : List ℕ) → empty (cursor pre post) ≡ leb (length post) 0
unfolding empty
empty-cursor pre post = ground (arith, length-append pre post)

-- Every buffer whose cursor is inside it has such a view.
pub cursor_view :
    (b : Buffer) → b.p ≤ length b.bytes → b ≡ cursor (take b.p b.bytes) (drop b.p b.bytes)
cursor_view b h i = record {
  bytes = sym (take-append-drop b.p b.bytes) i;
  p = sym (length-take_le b.p b.bytes h) i;
}

-- skip(-1) and skip(-3) behind bytes that were just read.
pub skip_back-cursor :
    (pre back post : List ℕ) (n : ℕ)
    → length back ≡ suc n
    → skip (ℤ.negsuc n) (cursor (pre ++ back) post) ≡ ok (tt, cursor pre (back ++ post))
unfolding skip
skip_back-cursor pre back post n h =
    rw (inside, total) (ap (λ c. ok (tt, c)) (rw (append_assoc pre back post, moved)))
  where
    moved : length (pre ++ back) - suc n ≡ length pre
    moved = omega (arith, length-append pre back)

    inside : ltb n (length (pre ++ back)) ≡ true
    inside = ground (arith, length-append pre back)

    total : leb (length (pre ++ back) - suc n) (length ((pre ++ back) ++ post)) ≡ true
    total = ground (arith, length-append pre back, length-append (pre ++ back) post)
