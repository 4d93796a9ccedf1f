-- ===== src/Kernel/Buffer/Writes.antt =====
-- Operations that write: what a do block of src/kernel/srs_kernel_buffer.cpp puts at the cursor.
-- `Puts m out`: with room for `out`, m writes it. `Writes e m out`: m also checks the room itself,
-- and answers the error e without it.
use srs_simple.Base.{
  ℕ, ◌+◌, ◌≤◌, ◌≡◌, ◌∙◌, Bool, false, List, [], ◌∷◌, ◌++◌, append_assoc, append-nil, leb,
  if◌then◌else◌, Bool-cases, le→leb, leb→le, length, drop, length-append, length-drop, drop-drop,
  Outcome, ErrorCode, ok, err, inl, inr, arith,
}
use srs_simple.Kernel.Buffer.{Buffer, M, ◌>>=◌, ◌>>◌, pure, put, assert_require, require_or}
use srs_simple.Kernel.Buffer.Cursor.{cursor, put-cursor, assert_require-cursor, require_or-cursor}

-- The state behind `out`.
abbrev pub written : List ℕ → List ℕ → List ℕ → Outcome (Unit {0} × Buffer)
written out pre post = ok (tt, cursor (pre ++ out) (drop (length out) post))

abbrev pub Puts : M (Unit {0}) → List ℕ → Type 0
Puts m out =
    (pre post : List ℕ) → length out ≤ length post → m (cursor pre post) ≡ written out pre post

abbrev pub Writes : ErrorCode → M (Unit {0}) → List ℕ → Type 0
Writes e m out =
    (pre post : List ℕ)
    → m (cursor pre post) ≡ (if leb (length out) (length post) then written out pre post else err e)

written_twice :
    (o1 o2 pre post : List ℕ)
    → written o2 (pre ++ o1) (drop (length o1) post) ≡ written (o1 ++ o2) pre post
written_twice o1 o2 pre post =
    rw (append_assoc pre o1 o2, drop-drop (length o2) (length o1) post, length-append o1 o2)

pub Puts-pure : Puts (pure tt) []
Puts-pure pre post h = rw append-nil

pub Puts-put : (v : ℕ) → Puts (put v) (v ∷ [])
Puts-put v pre [] h = absurd (omega arith)
Puts-put v pre (x ∷ post) h = put-cursor pre x v post

pub >>-ok :
    {B : Type 0} (m : M (Unit {0})) (k : M B) (b : Buffer) {c : Buffer}
    → m b ≡ ok (tt, c)
    → (m >> k) b ≡ k c
>>-ok m k b h = rw (h, ◌>>=◌)

pub >>-err :
    {B : Type 0} (m : M (Unit {0})) (k : M B) (b : Buffer) {e : ErrorCode}
    → m b ≡ err e
    → (m >> k) b ≡ err e
>>-err m k b h = rw (h, ◌>>=◌)

pub Puts-seq :
    (m k : M (Unit {0})) (o1 o2 : List ℕ) → Puts m o1 → Puts k o2 → Puts (m >> k) (o1 ++ o2)
Puts-seq m k o1 o2 hm hk pre post h =
    let room : length o1 + length o2 ≤ length post = omega (arith, length-append o1 o2) in
    >>-ok m k (cursor pre post) (hm pre post (omega arith))
    ∙ hk (pre ++ o1) (drop (length o1) post) (omega (arith, length-drop (length o1) post))
    ∙ written_twice o1 o2 pre post

pub Puts-assert :
    (n : ℕ) (m : M (Unit {0})) (out : List ℕ)
    → n ≤ length out
    → Puts m out
    → Puts (assert_require n >> m) out
Puts-assert n m out le hm pre post h =
    >>-ok (assert_require n) m (cursor pre post)
      (assert_require-cursor n pre post ∙ rw (le→leb n (length post) (omega arith)))
    ∙ hm pre post h

pub Writes-pure : (e : ErrorCode) → Writes e (pure tt) []
Writes-pure e pre post = rw (append-nil, le→leb 0 (length post) (omega arith))

-- The room for both parts, by the room for the first.
room_cases :
    (e : ErrorCode) (o1 o2 pre post : List ℕ)
    → (if leb (length o1) (length post)
        then (if leb (length o2) (length (drop (length o1) post))
            then written o2 (pre ++ o1) (drop (length o1) post)
            else err e)
        else err e)
      ≡ (if leb (length (o1 ++ o2)) (length post) then written (o1 ++ o2) pre post else err e)
room_cases e o1 o2 pre post =
    rw (written_twice o1 o2 pre post)
      (ground (arith, length-append o1 o2, length-drop (length o1) post))

pub Writes-seq :
    (e : ErrorCode) (m k : M (Unit {0})) (o1 o2 : List ℕ)
    → Writes e m o1
    → Writes e k o2
    → Writes e (m >> k) (o1 ++ o2)
Writes-seq e m k o1 o2 hm hk pre post = elim (Bool-cases (leb (length o1) (length post))) [
  | inl t ↦
      >>-ok m k (cursor pre post) (hm pre post ∙ rw t)
      ∙ hk (pre ++ o1) (drop (length o1) post)
      ∙ rw t at (room_cases e o1 o2 pre post)
  | inr f ↦
      >>-err m k (cursor pre post) (hm pre post ∙ rw f) ∙ rw f at (room_cases e o1 o2 pre post)
]

-- The check, the write that it allows, and what follows.
pub Writes-step :
    (e : ErrorCode) (m k : M (Unit {0})) (o1 o2 : List ℕ)
    → Puts m o1
    → Writes e k o2
    → Writes e (require_or (length o1) e >> (m >> k)) (o1 ++ o2)
Writes-step e m k o1 o2 hm hk pre post = elim (Bool-cases (leb (length o1) (length post))) [
  | inl t ↦
      >>-ok (require_or (length o1) e) (m >> k) (cursor pre post)
        (require_or-cursor (length o1) e pre post ∙ rw t)
      ∙ >>-ok m k (cursor pre post) (hm pre post (leb→le (length o1) (length post) t))
      ∙ hk (pre ++ o1) (drop (length o1) post)
      ∙ rw t at (room_cases e o1 o2 pre post)
  | inr f ↦
      >>-err (require_or (length o1) e) (m >> k) (cursor pre post)
        (require_or-cursor (length o1) e pre post ∙ rw f)
      ∙ rw f at (room_cases e o1 o2 pre post)
]

pub Writes-last :
    (e : ErrorCode) (m : M (Unit {0})) (out : List ℕ)
    → Puts m out
    → Writes e (require_or (length out) e >> m) out
Writes-last e m out hm pre post = elim (Bool-cases (leb (length out) (length post))) [
  | inl t ↦
      >>-ok (require_or (length out) e) m (cursor pre post) {c = cursor pre post}
        (require_or-cursor (length out) e pre post ∙ rw t)
      ∙ rw t (hm pre post (leb→le (length out) (length post) t))
  | inr f ↦ rw f (
      >>-err (require_or (length out) e) m (cursor pre post)
        (require_or-cursor (length out) e pre post ∙ rw f))
]

pub Writes-else :
    (e : ErrorCode) (t : Bool) (out : List ℕ) (m k : M (Unit {0}))
    → t ≡ false
    → Writes e k out
    → Writes e (if t then m else k) out
Writes-else e t out m k h hk = rw h hk
