-- ===== src/Kernel/Format/Sps/Safe.antt =====
-- The reader of the sequence parameter set (src/kernel/srs_kernel_codec.cpp) on any bytes: it ends.
use srs_simple.Base.{
  ℕ, zero, suc, ◌+◌, ◌-◌, ◌*◌, ◌^◌, ◌≤◌, ◌<◌, sym, subst, Bool, true, false, not, ◌&&◌, leb, ◌==◌,
  if◌then◌else◌, Outcome, ok, err, aborted, fault, stuck, ErrorCode, and_then, arith, inl, inr,
  Bool-cases,
}
use srs_simple.Kernel.Format.Sps.{
  BitBuffer, bits_empty, Bits, ◌>>=◌, pure, fail, read_bit, more_zeros, leading_zeros, suffix_bits,
  srs_avc_nalu_read_uev, srs_avc_nalu_read_bit, scaling_flags, skip_uevs, is_high, read_high,
  read_order_count, read_crop, sps_size,
}
use srs_simple.Kernel.Format.Sps.Bits.{
  IsHandled, bits_left, Good, Safe, Good-bind, Safe-bind, Safe-if, read_bit-ok, bits_empty-lt,
  Safe-require, Good-read_bit, Safe-bit,
}

Safe-flag : (n : ℕ) → Safe n srs_avc_nalu_read_bit
unfolding srs_avc_nalu_read_bit
Safe-flag n = Safe-require n read_bit (λ s l z.
    let (v, s', e, k) = read_bit-ok s z in subst (λ o. Good n o) (sym e) (omega (arith, l, k)))

Safe-suffix_bits : (n k v : ℕ) → Safe n (suffix_bits k v)
unfolding suffix_bits
Safe-suffix_bits n zero v = λ s l. l
Safe-suffix_bits n (suc k) v =
    Safe-bit n (λ b. suffix_bits k (v + b * 2 ^ k)) (λ b. Safe-suffix_bits n k (v + b * 2 ^ k))

-- Each round takes a bit, and the loop goes on only where one is left.
Good-leading_zeros :
    (fuel n k : ℕ) (s : BitBuffer)
    → bits_left s ≤ n
    → 0 < bits_left s
    → bits_left s ≤ fuel
    → Good n (leading_zeros fuel k s)
unfolding leading_zeros more_zeros
Good-leading_zeros zero n k s l z f = absurd (omega (arith, z, f))
Good-leading_zeros (suc fuel) n k s l z f =
    Good-read_bit n
      (λ b.
        more_zeros b >>= λ more. elim more [ true ↦ leading_zeros fuel (k + 1) | false ↦ pure k ])
      s z
      (λ b s' e. elim (Bool-cases (b == 0 && not (bits_empty s'))) [
        | inl more ↦ rw more (
            Good-leading_zeros fuel n (k + 1) s' (omega (arith, l, e))
              (bits_empty-lt s' (ground (arith, more))) (omega (arith, f, e)))
        | inr more ↦ rw more (omega (arith, l, e))
      ])

Safe-uev : (fuel n : ℕ) → n ≤ fuel → Safe n (srs_avc_nalu_read_uev fuel)
unfolding srs_avc_nalu_read_uev
Safe-uev fuel n f = Safe-require n _ (λ s l z.
    Good-bind n (leading_zeros fuel 0 s)
      (λ k. if leb 31 k then fail ErrorCode.error_avc_nalu_uev else suffix_bits k (2 ^ k - 1))
      (Good-leading_zeros fuel n 0 s l z (omega (arith, l, f)))
      (λ k.
        Safe-if n (leb 31 k) (fail ErrorCode.error_avc_nalu_uev) (suffix_bits k (2 ^ k - 1))
          (λ s' l'. tt) (Safe-suffix_bits n k (2 ^ k - 1))))

Safe-scaling_flags : (n k : ℕ) → Safe n (scaling_flags k)
unfolding scaling_flags
Safe-scaling_flags n zero = λ s l. l
Safe-scaling_flags n (suc k) =
    Safe-bind n srs_avc_nalu_read_bit
      (λ b. if b == 0 then scaling_flags k else fail ErrorCode.error_hls_decode_error) (Safe-flag n)
      (λ b.
        Safe-if n (b == 0) (scaling_flags k) (fail ErrorCode.error_hls_decode_error)
          (Safe-scaling_flags n k) (λ s l. tt))

-- A chain of values that are read.
module _ {A : Type 0} (fuel n : ℕ) (h : n ≤ fuel) (f : ℕ → Bits A)
    (k : (v : ℕ) → Safe n (f v)) where
  Safe-value : Safe n (srs_avc_nalu_read_uev fuel >>= f)
  Safe-value = Safe-bind n (srs_avc_nalu_read_uev fuel) f (Safe-uev fuel n h) k

  Safe-bit_value : Safe n (srs_avc_nalu_read_bit >>= f)
  Safe-bit_value = Safe-bind n srs_avc_nalu_read_bit f (Safe-flag n) k

Safe-read_crop : (fuel n : ℕ) → n ≤ fuel → Safe n (read_crop fuel)
unfolding read_crop
Safe-read_crop fuel n h = Safe-bit_value fuel n h _ (λ flag.
    Safe-if n (flag == 0) _ _ (λ s l. l)
      (Safe-value fuel n h _ (λ l.
        Safe-value fuel n h _
          (λ r. Safe-value fuel n h _ (λ t. Safe-value fuel n h _ (λ b. λ s l. l))))))

Safe-skip_uevs : (fuel n k : ℕ) → n ≤ fuel → Safe n (skip_uevs fuel k)
unfolding skip_uevs
Safe-skip_uevs fuel n zero h = λ s l. l
Safe-skip_uevs fuel n (suc k) h = Safe-value fuel n h _ (λ v. Safe-skip_uevs fuel n k h)

-- A flag that is there in one case.
Safe-bit_if :
    {A : Type 0} (n : ℕ) (t : Bool) (f : ℕ → Bits A)
    → ((v : ℕ) → Safe n (f v))
    → Safe n ((if t then srs_avc_nalu_read_bit else pure 0) >>= f)
Safe-bit_if n t f h =
    Safe-bind n (if t then srs_avc_nalu_read_bit else pure 0) f
      (Safe-if n t srs_avc_nalu_read_bit (pure 0) (Safe-flag n) (λ s l. l)) h

Safe-read_high : (fuel n : ℕ) → n ≤ fuel → Safe n (read_high fuel)
unfolding read_high
Safe-read_high fuel n h = Safe-value fuel n h _ (λ chroma. Safe-bit_if n (chroma == 3) _ (λ plane.
    Safe-value fuel n h _ (λ luma. Safe-value fuel n h _ (λ depth.
      Safe-bit_value fuel n h _ (λ bypass. Safe-bit_value fuel n h _ (λ scaling.
        Safe-if n (scaling == 0) _ _ (λ s l. l)
          (Safe-scaling_flags n (if chroma == 3 then 12 else 8))))))))

Safe-read_order_count : (fuel n t : ℕ) → n ≤ fuel → Safe n (read_order_count fuel t)
unfolding read_order_count
Safe-read_order_count fuel n t h = Safe-if n (t == 0) _ _ (Safe-skip_uevs fuel n 1 h) (
    Safe-if n (t == 1) _ _
      (Safe-bit_value fuel n h _ (λ flag.
        Safe-bind n (skip_uevs fuel 2) _ (Safe-skip_uevs fuel n 2 h)
          (λ x. Safe-value fuel n h _ (λ k. Safe-skip_uevs fuel n k h))))
      (λ s l. l))

pub Safe-sps_size : (fuel n p : ℕ) → n ≤ fuel → Safe n (sps_size fuel p)
unfolding sps_size
Safe-sps_size fuel n p h = Safe-value fuel n h _ (λ id.
    Safe-bind n (if is_high p then read_high fuel else pure tt) _
      (Safe-if n (is_high p) _ _ (Safe-read_high fuel n h) (λ s l. l))
      (λ high. Safe-value fuel n h _ (λ log2. Safe-value fuel n h _ (λ t.
        Safe-bind n (read_order_count fuel t) _ (Safe-read_order_count fuel n t h) (λ order.
          Safe-value fuel n h _ (λ frames. Safe-bit_value fuel n h _ (λ gaps.
            Safe-value fuel n h _ (λ w. Safe-value fuel n h _ (λ v.
              Safe-bit_value fuel n h _ (λ only. Safe-bit_if n (only == 0) _ (λ adaptive.
                Safe-bit_value fuel n h _ (λ direct.
                  Safe-bind n (read_crop fuel) _ (Safe-read_crop fuel n h)
                    (λ c. λ s l. l)))))))))))))

pub Good-IsHandled :
    {A : Type 0} {B : Type 0} (n : ℕ) (o : Outcome (A × BitBuffer)) (f : A → Outcome B)
    → Good n o
    → ((a : A) → IsHandled (f a))
    → IsHandled (and_then o (λ r. f r.0))
Good-IsHandled n (ok (a, s)) f g h = h a
Good-IsHandled n (err e) f g h = tt
Good-IsHandled n aborted f g h = g
Good-IsHandled n fault f g h = g
Good-IsHandled n stuck f g h = g
