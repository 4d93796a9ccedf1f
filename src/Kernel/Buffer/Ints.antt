-- ===== src/Kernel/Buffer/Ints.antt =====
-- The integers of src/kernel/srs_kernel_buffer.cpp: what is written is read back, width by width.
use srs_simple.Base.{
  ℕ, ◌%◌, ◌^◌, ◌≡◌, refl, ◌∷◌, sym, subst, ◌≤◌, List, ◌++◌, append_assoc, length, drop, ok, arith,
}
use srs_simple.Kernel.Buffer.{
  Buffer, M, write_2bytes, write_3bytes, write_4bytes, write_le4bytes, write_8bytes, read_2bytes,
  read_3bytes, read_4bytes, read_le4bytes, read_8bytes,
}
use srs_simple.Kernel.Buffer.Cursor.{cursor}
use srs_simple.Kernel.Buffer.Writes.{Puts}
use srs_simple.Kernel.Buffer.Bytes.{
  be2, be3, be4, be8, le4, Puts-write_2bytes, Puts-write_3bytes, Puts-write_4bytes,
  Puts-write_le4bytes, Puts-write_8bytes,
}
use srs_simple.Kernel.Buffer.Reads.{
  Reads, Reads-read_2bytes, Reads-read_3bytes, Reads-read_4bytes, Reads-read_le4bytes,
  Reads-read_8bytes,
}

-- The write succeeds, and the read from where it began returns v and ends where the write ended.
abbrev pub ReadsBack : {A : Type 0} → M (Unit {0}) → M A → A → List ℕ → List ℕ → Type 0
ReadsBack w r v pre post =
    (b : Buffer) × (w (cursor pre post) ≡ ok (tt, b))
    × (r (record b { p = length pre }) ≡ ok (v, b))

read_back :
    {A : Type 0} (w : M (Unit {0})) (r : M A) (v : A) (out pre post : List ℕ)
    → Puts w out
    → Reads r out v
    → length out ≤ length post
    → ReadsBack w r v pre post
read_back w r v out pre post hw hr room = (
  cursor (pre ++ out) (drop (length out) post),
  hw pre post room,
  subst
      (λ bs.
        r (record { bytes = bs; p = length pre })
        ≡ ok (v, cursor (pre ++ out) (drop (length out) post)))
      (sym (append_assoc pre out (drop (length out) post))) (hr pre (drop (length out) post)),
)

same_cons : {x y : ℕ} {xs ys : List ℕ} → x ≡ y → xs ≡ ys → (x ∷ xs) ≡ (y ∷ ys)
same_cons p q i = p i ∷ q i

-- The bytes of a value are those of the value that fits.
wrap2 : (v : ℕ) → be2 (v % 2 ^ 16) ≡ be2 v
wrap2 v = same_cons (omega arith) (same_cons (omega arith) refl)

wrap3 : (v : ℕ) → be3 (v % 2 ^ 24) ≡ be3 v
wrap3 v = same_cons (omega arith) (same_cons (omega arith) (same_cons (omega arith) refl))

pub wrap4 : (v : ℕ) → be4 (v % 2 ^ 32) ≡ be4 v
wrap4 v =
    same_cons (omega arith)
      (same_cons (omega arith) (same_cons (omega arith) (same_cons (omega arith) refl)))

wrap_le4 : (v : ℕ) → le4 (v % 2 ^ 32) ≡ le4 v
wrap_le4 v =
    same_cons (omega arith)
      (same_cons (omega arith) (same_cons (omega arith) (same_cons (omega arith) refl)))

wrap8 : (v : ℕ) → be8 (v % 2 ^ 64) ≡ be8 v
wrap8 v = same_cons (omega arith) (
    same_cons (omega arith) (
      same_cons (omega arith) (
        same_cons (omega arith) (
          same_cons (omega arith)
            (same_cons (omega arith) (same_cons (omega arith) (same_cons (omega arith) refl)))))))

-- Into a buffer with room for 8 bytes, each write_ operation puts a value so that the read_
-- operation of the same name returns it from there, cut to its width, and leaves the cursor where
-- the write left it.
pub read-write_ints :
    (v : ℕ) (pre post : List ℕ)
    → 8 ≤ length post
    → ReadsBack (write_2bytes v) read_2bytes (v % 2 ^ 16) pre post
      × ReadsBack (write_3bytes v) read_3bytes (v % 2 ^ 24) pre post
      × ReadsBack (write_4bytes v) read_4bytes (v % 2 ^ 32) pre post
      × ReadsBack (write_le4bytes v) read_le4bytes (v % 2 ^ 32) pre post
      × ReadsBack (write_8bytes v) read_8bytes (v % 2 ^ 64) pre post
read-write_ints v pre post h = (
  read_back (write_2bytes v) read_2bytes (v % 2 ^ 16) (be2 v) pre post (Puts-write_2bytes v)
      (subst (λ l. Reads read_2bytes l (v % 2 ^ 16)) (wrap2 v)
        (Reads-read_2bytes (v % 2 ^ 16) (omega arith)))
      (omega arith),
  read_back (write_3bytes v) read_3bytes (v % 2 ^ 24) (be3 v) pre post (Puts-write_3bytes v)
      (subst (λ l. Reads read_3bytes l (v % 2 ^ 24)) (wrap3 v)
        (Reads-read_3bytes (v % 2 ^ 24) (omega arith)))
      (omega arith),
  read_back (write_4bytes v) read_4bytes (v % 2 ^ 32) (be4 v) pre post (Puts-write_4bytes v)
      (subst (λ l. Reads read_4bytes l (v % 2 ^ 32)) (wrap4 v)
        (Reads-read_4bytes (v % 2 ^ 32) (omega arith)))
      (omega arith),
  read_back (write_le4bytes v) read_le4bytes (v % 2 ^ 32) (le4 v) pre post (Puts-write_le4bytes v)
      (subst (λ l. Reads read_le4bytes l (v % 2 ^ 32)) (wrap_le4 v)
        (Reads-read_le4bytes (v % 2 ^ 32) (omega arith)))
      (omega arith),
  read_back (write_8bytes v) read_8bytes (v % 2 ^ 64) (be8 v) pre post (Puts-write_8bytes v)
      (subst (λ l. Reads read_8bytes l (v % 2 ^ 64)) (wrap8 v)
        (Reads-read_8bytes (v % 2 ^ 64) (omega arith)))
      (omega arith),
)
