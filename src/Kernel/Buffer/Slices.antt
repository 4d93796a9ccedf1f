-- ===== src/Kernel/Buffer/Slices.antt =====
-- SrsBuffer of src/kernel/srs_kernel_buffer.cpp: a check for n bytes and then a read of n bytes.
use srs_simple.Base.{ℕ, ◌+◌, ◌≤◌, ◌<◌, ◌≡◌, length, take, drop, ok, err, ErrorCode, arith}
use srs_simple.Kernel.Buffer.{Buffer, ◌>>◌, require, require_or, next_bytes}

pub require_next-ok :
    (n : ℕ) (e : ErrorCode) (b : Buffer)
    → b.p + n ≤ length b.bytes
    → (require_or n e >> next_bytes n) b ≡ ok (take n (drop b.p b.bytes), record b { p = b.p + n })
unfolding require_or require next_bytes
require_next-ok n e b h = ground arith

pub require_next-err :
    (n : ℕ) (e : ErrorCode) (b : Buffer)
    → length b.bytes < b.p + n
    → (require_or n e >> next_bytes n) b ≡ err e
unfolding require_or require next_bytes
require_next-err n e b h = ground arith
