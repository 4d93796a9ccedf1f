-- ===== src/Kernel/Buffer.antt =====
-- src/kernel/srs_kernel_buffer: SrsBuffer, a cursor over bytes that the caller owns.
-- A buffer is its bytes and the offset of p; nb_bytes is the length of the bytes. An integer that
-- is read or written is its bit pattern, a number below 2 ^ (8 * width).
pub mod Cursor
pub mod Writes
pub mod Bytes
pub mod Reads
pub mod Slices
pub mod Safe
mod Tests
pub mod Ints
use srs_simple.Base.{
  ℕ, zero, suc, ◌+◌, ◌-◌, ◌*◌, ◌/◌, ◌%◌, Bool, true, false, ◌||◌, Option, none, some, List, [], ◌∷◌,
  ◌++◌, leb, ltb, ◌==◌, if◌then◌else◌, length, get_elem?, set, take, drop, Outcome, ErrorCode, ok,
  err, aborted, fault, stuck,
}
use srs_simple.Base.Int.{ℤ}

pub record Buffer : Type 0 where
  pub bytes : List ℕ
  pub p : ℕ

-- An operation on a buffer; after an error nothing reads the buffer again, so it is not kept.
abbrev pub M : Type 0 → Type 0
M A = Buffer → Outcome (A × Buffer)

infixl 5 ◌>>=◌ ◌>>◌
abbrev pub ◌>>=◌ : {A B : Type 0} → M A → (A → M B) → M B
◌>>=◌ m f b = elim (m b) [
  | ok (a, b') ↦ f a b'
  | err e ↦ err e
  | aborted ↦ aborted
  | fault ↦ fault
  | stuck ↦ stuck
]

abbrev pub ◌>>◌ : {B : Type 0} → M (Unit {0}) → M B → M B
m >> k = m >>= λ _. k

abbrev pub pure : {A : Type 0} → A → M A
pure a b = ok (a, b)

unfoldable pub init : List ℕ → Buffer
init bytes = record { bytes = bytes; p = 0 }

unfoldable pub size : Buffer → ℕ
size b = length b.bytes

pub pos : Buffer → ℕ
pos b = b.p

unfoldable pub left : Buffer → ℕ
left b = length b.bytes - b.p

unfoldable pub empty : Buffer → Bool
empty b = leb (length b.bytes) b.p

-- nb_bytes - (p - bytes) is negative for a cursor behind the end, so it is not written with `-`.
unfoldable pub require : ℤ → Buffer → Bool
require (ℤ.negsuc n) b = false
require (ℤ.pos n) b = leb (b.p + n) (length b.bytes)

unfoldable pub skip : ℤ → M (Unit {0})
skip (ℤ.pos n) b =
    if leb (b.p + n) (length b.bytes) then ok (tt, record b { p = b.p + n }) else aborted
skip (ℤ.negsuc n) b =
    if ltb n b.p
    then (if leb (b.p - suc n) (length b.bytes)
        then ok (tt, record b { p = b.p - suc n })
        else aborted)
    else aborted

-- srs_assert(require(n)).
pub assert_require : ℕ → M (Unit {0})
unfolding require
assert_require n b = if require (ℤ.pos n) b then ok (tt, b) else aborted

-- if (!stream->require(n)) return srs_error_new(e, ...).
unfoldable pub require_or : ℕ → ErrorCode → M (Unit {0})
unfolding require
require_or n e b = if require (ℤ.pos n) b then ok (tt, b) else err e

-- *p++ as a value.
pub next : M ℕ
next b = elim (get_elem? b.bytes b.p) [ none ↦ fault | some v ↦ ok (v, record b { p = b.p + 1 }) ]

-- *p++ = v.
pub put : ℕ → M (Unit {0})
put v b =
    if ltb b.p (length b.bytes)
    then ok (tt, record { bytes = set b.bytes b.p v; p = b.p + 1 })
    else fault

pub read_1bytes : M ℕ
read_1bytes = do assert_require 1; next

pub read_2bytes : M ℕ
read_2bytes = do assert_require 2; b1 ← next; b0 ← next; pure (b1 * 256 + b0)

pub read_3bytes : M ℕ
read_3bytes = do
  assert_require 3
  b2 ← next
  b1 ← next
  b0 ← next
  pure ((b2 * 256 + b1) * 256 + b0)

pub read_4bytes : M ℕ
read_4bytes = do
  assert_require 4
  b3 ← next
  b2 ← next
  b1 ← next
  b0 ← next
  pure (((b3 * 256 + b2) * 256 + b1) * 256 + b0)

pub read_le4bytes : M ℕ
read_le4bytes = do
  assert_require 4
  b0 ← next
  b1 ← next
  b2 ← next
  b3 ← next
  pure (((b3 * 256 + b2) * 256 + b1) * 256 + b0)

pub read_8bytes : M ℕ
read_8bytes = do
  assert_require 8
  b7 ← next
  b6 ← next
  b5 ← next
  b4 ← next
  b3 ← next
  b2 ← next
  b1 ← next
  b0 ← next
  pure (
      (((((((b7 * 256 + b6) * 256 + b5) * 256 + b4) * 256 + b3) * 256 + b2) * 256 + b1) * 256) + b0)

-- value.append(p, len); p += len.
pub next_bytes : ℕ → M (List ℕ)
next_bytes len b =
    if leb (b.p + len) (length b.bytes)
    then ok (take len (drop b.p b.bytes), record b { p = b.p + len })
    else fault

pub read_string : ℕ → M (List ℕ)
read_string len = do assert_require len; next_bytes len

pub read_bytes : ℕ → M (List ℕ)
read_bytes len = do assert_require len; next_bytes len

pub write_1bytes : ℕ → M (Unit {0})
write_1bytes v = do assert_require 1; put (v % 256)

pub write_2bytes : ℕ → M (Unit {0})
write_2bytes v = do assert_require 2; put (v / 256 % 256); put (v % 256)

pub write_3bytes : ℕ → M (Unit {0})
write_3bytes v = do assert_require 3; put (v / 65536 % 256); put (v / 256 % 256); put (v % 256)

pub write_4bytes : ℕ → M (Unit {0})
write_4bytes v = do
  assert_require 4
  put (v / 16777216 % 256)
  put (v / 65536 % 256)
  put (v / 256 % 256)
  put (v % 256)

pub write_le4bytes : ℕ → M (Unit {0})
write_le4bytes v = do
  assert_require 4
  put (v % 256)
  put (v / 256 % 256)
  put (v / 65536 % 256)
  put (v / 16777216 % 256)

pub write_8bytes : ℕ → M (Unit {0})
write_8bytes v = do
  assert_require 8
  put (v / 72057594037927936 % 256)
  put (v / 281474976710656 % 256)
  put (v / 1099511627776 % 256)
  put (v / 4294967296 % 256)
  put (v / 16777216 % 256)
  put (v / 65536 % 256)
  put (v / 256 % 256)
  put (v % 256)

-- memcpy(p, data, length); p += length.
put_bytes : List ℕ → M (Unit {0})
put_bytes [] = pure tt
put_bytes (v ∷ vs) = do put v; put_bytes vs

pub write_string : List ℕ → M (Unit {0})
write_string value =
    if length value == 0 then pure tt else (do assert_require (length value); put_bytes value)

pub write_bytes : List ℕ → M (Unit {0})
write_bytes value =
    if leb (length value) 0 then pure tt else (do assert_require (length value); put_bytes value)
