-- ===== src/Kernel/Buffer/Reads.antt =====
-- Operations that read: `Reads m out v` says that m, with `out` at the cursor of an SrsBuffer
-- (src/kernel/srs_kernel_buffer.cpp), passes it and returns v, whatever stands before and behind.
use srs_simple.Base.{
  ℕ, ◌+◌, ◌*◌, ◌^◌, ◌≤◌, ◌<◌, ◌≡◌, ◌∙◌, true, List, [], ◌∷◌, ◌++◌, append_assoc, append-nil, leb,
  le→leb, length, length-append, take-append_length, drop-append_length, ErrorCode, ok, arith,
}
use srs_simple.Kernel.Buffer.{
  Buffer, M, ◌>>=◌, ◌>>◌, pure, next, next_bytes, assert_require, require_or, read_1bytes,
  read_2bytes, read_3bytes, read_4bytes, read_le4bytes, read_8bytes, read_string, read_bytes,
}
use srs_simple.Kernel.Buffer.Cursor.{cursor, next-cursor, assert_require-cursor, require_or-cursor}
use srs_simple.Kernel.Buffer.Writes.{>>-ok}
use srs_simple.Kernel.Buffer.Bytes.{be2, be3, be4, be8, le4}

module _ {A : Type 0} where
  abbrev pub Reads : M A → List ℕ → A → Type 0
  Reads m out v =
      (pre post : List ℕ) → m (cursor pre (out ++ post)) ≡ ok (v, cursor (pre ++ out) post)

  pub Reads-pure : (v : A) → Reads (pure v) [] v
  Reads-pure v pre post = rw append-nil

  pub >>=-ok :
      {B : Type 0} (m : M A) (f : A → M B) (b : Buffer) {a : A} {c : Buffer}
      → m b ≡ ok (a, c)
      → (m >>= f) b ≡ f a c
  >>=-ok m f b h = rw (h, ◌>>=◌)

pub Reads-bind :
    {A B : Type 0} (m : M A) (f : A → M B) (o1 o2 : List ℕ) {a : A} {v : B}
    → Reads m o1 a
    → Reads (f a) o2 v
    → Reads (m >>= f) (o1 ++ o2) v
Reads-bind m f o1 o2 hm hf pre post = rw (append_assoc o1 o2 post) (
    >>=-ok m f (cursor pre (o1 ++ (o2 ++ post))) (hm pre (o2 ++ post))
    ∙ hf (pre ++ o1) post
    ∙ rw (append_assoc pre o1 o2))

pub Reads-assert :
    {A : Type 0} (n : ℕ) (m : M A) (out : List ℕ) {v : A}
    → n ≤ length out
    → Reads m out v
    → Reads (assert_require n >> m) out v
Reads-assert n m out le hm pre post =
    >>-ok (assert_require n) m (cursor pre (out ++ post)) (
      assert_require-cursor n pre (out ++ post)
      ∙ rw (le→leb n (length (out ++ post)) (omega (arith, length-append out post))))
    ∙ hm pre post

pub Reads-require :
    {A : Type 0} (n : ℕ) (e : ErrorCode) (m : M A) (out : List ℕ) {v : A}
    → n ≤ length out
    → Reads m out v
    → Reads (require_or n e >> m) out v
Reads-require n e m out le hm pre post =
    >>-ok (require_or n e) m (cursor pre (out ++ post)) (
      require_or-cursor n e pre (out ++ post)
      ∙ rw (le→leb n (length (out ++ post)) (omega (arith, length-append out post))))
    ∙ hm pre post

pub Reads-next : (x : ℕ) → Reads next (x ∷ []) x
Reads-next x pre post = next-cursor pre x post

-- One more byte in front.
pub Reads-byte :
    {A : Type 0} (x : ℕ) (f : ℕ → M A) (out : List ℕ) {v : A}
    → Reads (f x) out v
    → Reads (next >>= f) (x ∷ out) v
Reads-byte x f out h = Reads-bind next f (x ∷ []) out (Reads-next x) h

pub Reads-read_1bytes : (x : ℕ) → Reads read_1bytes (x ∷ []) x
unfolding read_1bytes
Reads-read_1bytes x = Reads-assert 1 _ _ (omega arith) (Reads-next x)

pub Reads-value : {A : Type 0} {a v : A} → a ≡ v → Reads (pure a) [] v
Reads-value {v = v} h = rw h (Reads-pure v)

pub Reads-read_2bytes : (v : ℕ) → v < 2 ^ 16 → Reads read_2bytes (be2 v) v
unfolding read_2bytes
Reads-read_2bytes v h =
    Reads-assert 2 _ _ (omega arith)
      (Reads-byte _ _ _ (Reads-byte _ _ _ (Reads-value (omega arith))))

-- Any three bytes.
pub Reads-three_bytes : (a b c : ℕ) → Reads read_3bytes (a ∷ b ∷ c ∷ []) ((a * 256 + b) * 256 + c)
unfolding read_3bytes
Reads-three_bytes a b c =
    Reads-assert 3 _ _ (omega arith)
      (Reads-byte _ _ _ (Reads-byte _ _ _ (Reads-byte _ _ _ (Reads-pure _))))

pub Reads-read_3bytes : (v : ℕ) → v < 2 ^ 24 → Reads read_3bytes (be3 v) v
unfolding read_3bytes
Reads-read_3bytes v h =
    Reads-assert 3 _ _ (omega arith)
      (Reads-byte _ _ _ (Reads-byte _ _ _ (Reads-byte _ _ _ (Reads-value (omega arith)))))

pub Reads-read_4bytes : (v : ℕ) → v < 2 ^ 32 → Reads read_4bytes (be4 v) v
unfolding read_4bytes
Reads-read_4bytes v h = Reads-assert 4 _ _ (omega arith) (
    Reads-byte _ _ _
      (Reads-byte _ _ _ (Reads-byte _ _ _ (Reads-byte _ _ _ (Reads-value (omega arith))))))

pub Reads-read_le4bytes : (v : ℕ) → v < 2 ^ 32 → Reads read_le4bytes (le4 v) v
unfolding read_le4bytes
Reads-read_le4bytes v h = Reads-assert 4 _ _ (omega arith) (
    Reads-byte _ _ _
      (Reads-byte _ _ _ (Reads-byte _ _ _ (Reads-byte _ _ _ (Reads-value (omega arith))))))

pub Reads-read_8bytes : (v : ℕ) → v < 2 ^ 64 → Reads read_8bytes (be8 v) v
unfolding read_8bytes
Reads-read_8bytes v h = Reads-assert 8 _ _ (omega arith) (
    Reads-byte _ _ _ (
      Reads-byte _ _ _ (
        Reads-byte _ _ _ (
          Reads-byte _ _ _ (
            Reads-byte _ _ _ (
              Reads-byte _ _ _
                (Reads-byte _ _ _ (Reads-byte _ _ _ (Reads-value (omega arith))))))))))

pub Reads-next_bytes : (s : List ℕ) → Reads (next_bytes (length s)) s s
unfolding next_bytes
Reads-next_bytes s pre post =
    rw (room, drop-append_length pre (s ++ post), take-append_length s post)
      (rw (append_assoc pre s post, length-append pre s))
  where
    room : leb (length pre + length s) (length (pre ++ (s ++ post))) ≡ true
    room = le→leb _ _ (omega (arith, length-append pre (s ++ post), length-append s post))

pub Reads-read_string : (s : List ℕ) → Reads (read_string (length s)) s s
unfolding read_string
Reads-read_string s = Reads-assert (length s) _ s (omega arith) (Reads-next_bytes s)

pub Reads-read_bytes : (s : List ℕ) → Reads (read_bytes (length s)) s s
unfolding read_bytes
Reads-read_bytes s = Reads-assert (length s) _ s (omega arith) (Reads-next_bytes s)

-- A look ahead: what m returns, with the buffer as it was.
abbrev pub Peeks : {A : Type 0} → M A → List ℕ → A → Type 0
Peeks m xs v = (pre : List ℕ) → m (cursor pre xs) ≡ ok (v, cursor pre xs)

pub Reads-peek :
    {A B : Type 0} (m : M A) (f : A → M B) (out : List ℕ) {a : A} {v : B}
    → ((post : List ℕ) → Peeks m (out ++ post) a)
    → Reads (f a) out v
    → Reads (m >>= f) out v
Reads-peek m f out hm hf pre post =
    >>=-ok m f (cursor pre (out ++ post)) (hm post pre) ∙ hf pre post

-- A last step that only wraps the result.
pub Reads-map :
    {A B : Type 0} (m : M A) (g : A → B) (out : List ℕ) {a : A}
    → Reads m out a
    → Reads (m >>= λ v. pure (g v)) out (g a)
Reads-map m g out h pre post = >>=-ok m (λ v. pure (g v)) (cursor pre (out ++ post)) (h pre post)
