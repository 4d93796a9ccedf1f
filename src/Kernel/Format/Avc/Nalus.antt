-- ===== src/Kernel/Format/Avc/Nalus.antt =====
-- The NALUs of a payload (src/kernel/srs_kernel_codec.cpp), from any bytes.
use srs_simple.Base.{
  ℕ, zero, suc, ◌+◌, ◌*◌, ◌≤◌, ◌<◌, refl, sym, subst, Bool, leb, ◌==◌, if◌then◌else◌, if_cases,
  List, length, take, drop, Outcome, ErrorCode, arith, inl, inr, Bool-cases,
}
use srs_simple.Kernel.Buffer.{Buffer, empty, require_or, read_1bytes, read_2bytes, read_4bytes}
use srs_simple.Kernel.Buffer.Safe.{Takes, Takes-read_1bytes, Takes-read_2bytes, Takes-read_4bytes}
use srs_simple.Kernel.Format.{VideoParser, Parser, after, ◌>>=◌, ◌>>◌, lift, add_sample}
use srs_simple.Kernel.Format.Avc.{
  read_nalu_length, require_nalu, set_samples, add_nalu, mark_idr, take_nalu, next_nalu,
  avc_demux_ibmf_format,
}
use srs_simple.Kernel.Format.Rules.{
  Good, Good-after, Safe-skip_last, Safe, Safe-pure, Safe-require, Safe-take, Safe-head_bytes,
  Safe-modify, Safe-if, Safe-mono,
}
use srs_simple.Kernel.Format.Avc.Header.{Keeps}

module _ (fuel : ℕ) (bytes : List ℕ) (some_fuel : 8 * length bytes < fuel) where
  Takes-read_nalu_length : (n : ℕ) → (k : ℕ) × (k ≤ n + 1) × (0 < k) × Takes k (read_nalu_length n)
  unfolding read_nalu_length
  Takes-read_nalu_length n = elim (Bool-cases (n == 3)) [
    | inl t ↦ (
      4,
      ground (arith, t),
      omega arith,
      subst
          (λ (b : Bool).
            Takes 4 (if b then read_4bytes else (if n == 1 then read_2bytes else read_1bytes)))
          (sym t) Takes-read_4bytes,
    )
    | inr t ↦ elim (Bool-cases (n == 1)) [
      | inl u ↦ (2, ground (arith, u), omega arith, rw (t, u) Takes-read_2bytes)
      | inr u ↦ (1, omega arith, omega arith, rw (t, u) Takes-read_1bytes)
    ]
  ]

  -- A NALU is added, or there are too many.
  Safe-add_nalu :
      (nalu : List ℕ) (q k : ℕ) (m : Parser VideoParser (Unit {0}))
      → Safe (Keeps fuel) bytes q k m
      → Safe (Keeps fuel) bytes q k (add_nalu nalu >> m)
  unfolding Safe add_nalu add_sample set_samples
  Safe-add_nalu nalu q k m hm s p h v =
      if_cases {A = Outcome (List (List ℕ))}
        (λ o. Good (Keeps fuel) bytes (p + k) (
          after (λ _. m) (set_samples o s (record { bytes = bytes; p = p })).0
            (set_samples o s (record { bytes = bytes; p = p })).1))
        (leb 256 (length s.frame.samples)) _ _ (λ e. tt)
        (λ e. hm (record s { frame = record s.frame { samples = _ } }) p h v)

  Safe-take_nalu : (len : ℕ) → Safe (Keeps fuel) bytes len 0 (take_nalu len)
  unfolding take_nalu mark_idr
  Safe-take_nalu len =
      Safe-if (Keeps fuel) bytes len 0 (len == 0) _ _ (Safe-pure (Keeps fuel) bytes len tt) (
        Safe-head_bytes (Keeps fuel) bytes len len 0 _ (omega arith) (λ p.
          Safe-modify (Keeps fuel) bytes len 0 (mark_idr (take len (drop p bytes))) _ (λ s v. v)
            (Safe-add_nalu (take len (drop p bytes)) len 0 _ (
              Safe-mono (Keeps fuel) bytes len len len 0 _ (omega arith) (omega arith)
                (Safe-skip_last (Keeps fuel) bytes len)))))

  -- The check of a length, and what needs the bytes.
  Safe-require_nalu :
      (len : ℕ) (m : Parser VideoParser (Unit {0}))
      → Safe (Keeps fuel) bytes len 0 m
      → Safe (Keeps fuel) bytes 0 0 (require_nalu len >> m)
  unfolding Safe require_nalu
  Safe-require_nalu len m hm s p h v =
      if_cases {A = Outcome (Unit {0} × Buffer) × VideoParser}
        (λ r. Good (Keeps fuel) bytes (p + 0) (after (λ _. m) r.0 r.1)) (leb 2147483648 len) _ _
        (λ e. tt)
        (λ e.
          Safe-require (Keeps fuel) bytes len 0 ErrorCode.error_hls_avc_sample_size m hm s p h v)

  -- A length of n + 1 bytes at most, and the NALU.
  Safe-sized_nalu :
      (n : ℕ)
      → Safe (Keeps fuel) bytes 0 1 (
          lift (require_or (n + 1) ErrorCode.error_hls_avc_sample_size)
          >> (lift (read_nalu_length n) >>= λ len. require_nalu len >> take_nalu len))
  Safe-sized_nalu n =
      let t = Takes-read_nalu_length n in
      Safe-require (Keeps fuel) bytes (n + 1) 1 ErrorCode.error_hls_avc_sample_size _ (
        Safe-mono (Keeps fuel) bytes (t.0 + 0) (n + 1) (t.0 + 0) 1 _ (omega (arith, t.1))
          (omega (arith, t.2))
          (Safe-take (Keeps fuel) bytes t.0 0 0 (read_nalu_length n) _ t.3
            (λ len. Safe-require_nalu len (take_nalu len) (Safe-take_nalu len))))

  Safe-next_nalu : Safe (Keeps fuel) bytes 0 1 next_nalu
  unfolding Safe next_nalu
  Safe-next_nalu s p h v = Safe-sized_nalu s.codec.nal_unit_length s p h v

  -- Each round takes a byte, so a unit more than the bytes left is enough.
  pub Good-avc_demux_ibmf_format :
      (lo rounds : ℕ) (s : VideoParser) (p : ℕ)
      → lo ≤ p
      → p ≤ length bytes
      → length bytes < p + rounds
      → Keeps fuel s
      → Good
          (Keeps fuel)
          bytes
          lo
          (avc_demux_ibmf_format rounds s (record { bytes = bytes; p = p }))
  unfolding avc_demux_ibmf_format Safe
  Good-avc_demux_ibmf_format lo zero s p g h l v = absurd (omega (arith, h, l))
  Good-avc_demux_ibmf_format lo (suc rounds) s p g h l v =
      if_cases {A = Outcome (Unit {0} × Buffer) × VideoParser} (Good (Keeps fuel) bytes lo)
        (empty (record { bytes = bytes; p = p })) _ _ (λ e. (refl, g, h, v))
        (λ e.
          Good-after (Keeps fuel) bytes (p + 1) lo (λ _. avc_demux_ibmf_format rounds)
            (next_nalu s (record { bytes = bytes; p = p }))
            (Safe-next_nalu s p (omega (arith, h)) v)
            (λ a s' q l' b w.
              Good-avc_demux_ibmf_format lo rounds s' q (omega (arith, g, l')) b
                (omega (arith, l, l')) w))
