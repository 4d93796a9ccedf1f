-- ===== src/Kernel/Buffer/Tests.antt =====
-- Runs of src/kernel/srs_kernel_buffer.cpp, and its theorems at concrete inputs.
use srs_simple.Base.{ℕ, ◌≡◌, refl, List, [], ◌∷◌, false, ok, aborted}
use srs_simple.Base.Int.{ℤ}
use srs_simple.Kernel.Buffer.{
  Buffer, init, skip, require, write_le4bytes, read_2bytes, assert_require, next, put,
}

abbrev sample : Buffer
sample = record { bytes = 1 ∷ 2 ∷ 3 ∷ 4 ∷ []; p = 1 }

abbrev room : List ℕ
room = 0 ∷ 0 ∷ 0 ∷ 0 ∷ 0 ∷ 0 ∷ 0 ∷ 0 ∷ []

read_run : read_2bytes sample ≡ ok (515, record { bytes = 1 ∷ 2 ∷ 3 ∷ 4 ∷ []; p = 3 })
unfolding read_2bytes assert_require require next
read_run = refl

require_past_end : require (ℤ.pos 4) sample ≡ false
unfolding require
require_past_end = refl

skip_back : skip (ℤ.negsuc 0) sample ≡ ok (tt, record { bytes = 1 ∷ 2 ∷ 3 ∷ 4 ∷ []; p = 0 })
unfolding skip
skip_back = refl

skip_too_far : skip (ℤ.negsuc 1) sample ≡ aborted
unfolding skip
skip_too_far = refl

write_run :
    write_le4bytes 1 (init room)
    ≡ ok (tt, record { bytes = 1 ∷ 0 ∷ 0 ∷ 0 ∷ 0 ∷ 0 ∷ 0 ∷ 0 ∷ []; p = 4 })
unfolding write_le4bytes assert_require require put init
write_run = refl
