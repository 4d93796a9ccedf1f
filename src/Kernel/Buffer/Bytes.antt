-- ===== src/Kernel/Buffer/Bytes.antt =====
-- The byte sequences of src/kernel/srs_kernel_buffer.cpp: what each write_ operation puts, and that
-- it puts just that.
use srs_simple.Base.{
  ℕ, ◌/◌, ◌%◌, ◌≡◌, List, [], ◌∷◌, length, arith, if◌then◌else◌, ◌==◌, leb, false, Bool, suc,
}
use srs_simple.Kernel.Buffer.{
  M, ◌>>◌, put, put_bytes, write_1bytes, write_2bytes, write_3bytes, write_4bytes, write_le4bytes,
  write_8bytes, write_string, write_bytes,
}
use srs_simple.Kernel.Buffer.Writes.{Puts, Puts-put, Puts-seq, Puts-assert, Puts-pure}

-- Big-endian, and little-endian, digits in base 256.
abbrev pub be1 : ℕ → List ℕ
be1 v = v % 256 ∷ []

abbrev pub be2 : ℕ → List ℕ
be2 v = v / 256 % 256 ∷ v % 256 ∷ []

abbrev pub be3 : ℕ → List ℕ
be3 v = v / 65536 % 256 ∷ be2 v

abbrev pub be4 : ℕ → List ℕ
be4 v = v / 16777216 % 256 ∷ be3 v

abbrev pub be8 : ℕ → List ℕ
be8 v =
    v / 72057594037927936 % 256
    ∷ v / 281474976710656 % 256
    ∷ v / 1099511627776 % 256
    ∷ v / 4294967296 % 256
    ∷ be4 v

abbrev pub le4 : ℕ → List ℕ
le4 v = v % 256 ∷ v / 256 % 256 ∷ v / 65536 % 256 ∷ v / 16777216 % 256 ∷ []

pub Puts-write_1bytes : (v : ℕ) → Puts (write_1bytes v) (be1 v)
unfolding write_1bytes
Puts-write_1bytes v = Puts-assert 1 _ _ (omega arith) (Puts-put (v % 256))

-- One more byte in front.
Puts-byte : (v : ℕ) (k : _) (out : List ℕ) → Puts k out → Puts (put v >> k) (v ∷ out)
Puts-byte v k out h = Puts-seq (put v) k (v ∷ []) out (Puts-put v) h

pub Puts-write_2bytes : (v : ℕ) → Puts (write_2bytes v) (be2 v)
unfolding write_2bytes
Puts-write_2bytes v = Puts-assert 2 _ _ (omega arith) (Puts-byte _ _ _ (Puts-put _))

pub Puts-write_3bytes : (v : ℕ) → Puts (write_3bytes v) (be3 v)
unfolding write_3bytes
Puts-write_3bytes v =
    Puts-assert 3 _ _ (omega arith) (Puts-byte _ _ _ (Puts-byte _ _ _ (Puts-put _)))

pub Puts-write_4bytes : (v : ℕ) → Puts (write_4bytes v) (be4 v)
unfolding write_4bytes
Puts-write_4bytes v =
    Puts-assert 4 _ _ (omega arith)
      (Puts-byte _ _ _ (Puts-byte _ _ _ (Puts-byte _ _ _ (Puts-put _))))

pub Puts-write_le4bytes : (v : ℕ) → Puts (write_le4bytes v) (le4 v)
unfolding write_le4bytes
Puts-write_le4bytes v =
    Puts-assert 4 _ _ (omega arith)
      (Puts-byte _ _ _ (Puts-byte _ _ _ (Puts-byte _ _ _ (Puts-put _))))

pub Puts-write_8bytes : (v : ℕ) → Puts (write_8bytes v) (be8 v)
unfolding write_8bytes
Puts-write_8bytes v = Puts-assert 8 _ _ (omega arith) (
    Puts-byte _ _ _ (
      Puts-byte _ _ _ (
        Puts-byte _ _ _
          (Puts-byte _ _ _ (Puts-byte _ _ _ (Puts-byte _ _ _ (Puts-byte _ _ _ (Puts-put _))))))))

Puts-put_bytes : (vs : List ℕ) → Puts (put_bytes vs) vs
unfolding put_bytes
Puts-put_bytes [] = Puts-pure
Puts-put_bytes (v ∷ vs) = Puts-byte v (put_bytes vs) vs (Puts-put_bytes vs)

-- A length of more than 0 leaves the early return.
Puts-else :
    (t : Bool) (out : List ℕ) (m k : M (Unit {0}))
    → t ≡ false
    → Puts k out
    → Puts (if t then m else k) out
Puts-else t out m k h hk = rw h hk

pub Puts-write_string : (s : List ℕ) → Puts (write_string s) s
unfolding write_string
Puts-write_string [] = Puts-pure
Puts-write_string (x ∷ s) =
    Puts-else (suc (length s) == 0) (x ∷ s) _ _ (ground arith)
      (Puts-assert _ _ (x ∷ s) (omega arith) (Puts-put_bytes (x ∷ s)))

pub Puts-write_bytes : (s : List ℕ) → Puts (write_bytes s) s
unfolding write_bytes
Puts-write_bytes [] = Puts-pure
Puts-write_bytes (x ∷ s) =
    Puts-else (leb (suc (length s)) 0) (x ∷ s) _ _ (ground arith)
      (Puts-assert _ _ (x ∷ s) (omega arith) (Puts-put_bytes (x ∷ s)))
