-- ===== src/Kernel/Format/Avc/Header.antt =====
-- The sequence header of H.264 (src/kernel/srs_kernel_codec.cpp), from any bytes.
use srs_simple.Base.{
  ℕ, zero, suc, ◌+◌, ◌*◌, ◌%◌, ◌≡◌, ◌≤◌, ◌<◌, refl, sym, ap, subst, ◌&&◌, ltb, leb, ◌==◌, if_cases,
  leb→le, List, length, take, drop, length-drop, length-take_le, take-ge, Outcome, ok, err, aborted,
  fault, stuck, ErrorCode, arith, inl, inr, Bool-cases,
}
use srs_simple.Kernel.Buffer.{Buffer, read_1bytes, read_2bytes}
use srs_simple.Kernel.Buffer.Safe.{Takes-read_1bytes, Takes-read_2bytes}
use srs_simple.Kernel.Format.{
  VideoCodecConfig, VideoParser, Parser, after, ◌>>=◌, ◌>>◌, lift, is_avc_codec_ok,
}
use srs_simple.Kernel.Format.Sps.{avc_demux_sps}
use srs_simple.Kernel.Format.Sps.Total.{Ends, avc_demux_sps-Ends}
use srs_simple.Kernel.Format.Avc.{
  store_sps, store_pps, on_codec, read_sets, ignore_error, check_sps, read_pps_sets, check_length,
  avc_demux_sps_pps,
}
use srs_simple.Kernel.Format.Rules.{
  Good, Safe, Safe-pure, Safe-require, Safe-take, Safe-head_left, Safe-head_bytes, Safe-modify,
  Safe-skip, Safe-bind, Safe-mono,
}

length-head_bytes : (n p : ℕ) (bytes : List ℕ) → length (take n (drop p bytes)) ≤ length bytes
length-head_bytes n p bytes = elim (Bool-cases (leb n (length (drop p bytes)))) [
  | inl t ↦ omega (
    arith,
    length-take_le n (drop p bytes) (leb→le n (length (drop p bytes)) t),
    leb→le n (length (drop p bytes)) t,
    length-drop p bytes,
  )
  | inr t ↦
      omega (arith, ap length (take-ge n (drop p bytes) (ground (arith, t))), length-drop p bytes)
]

-- There is fuel for the parameter set that the codec has.
abbrev pub Fits : ℕ → VideoCodecConfig → Type 0
Fits fuel c = 8 * length c.sequence_parameter_set ≤ fuel

abbrev pub Keeps : ℕ → VideoParser → Type 0
Keeps fuel s = Fits fuel s.codec

module _ (fuel : ℕ) (bytes : List ℕ) (some_fuel : 8 * length bytes < fuel) where
  store_sps-Fits :
      (nalu : List ℕ) (c : VideoCodecConfig)
      → length nalu ≤ length bytes
      → Fits fuel c
      → Fits fuel (store_sps nalu c)
  unfolding store_sps
  store_sps-Fits nalu c l v =
      if_cases (Fits fuel) (ltb 0 (length nalu) && (length c.sequence_parameter_set == 0)) _ _
        (λ e. omega (arith, l, some_fuel)) (λ e. v)

  store_pps-Fits :
      (nalu : List ℕ) (c : VideoCodecConfig)
      → length nalu ≤ length bytes
      → Fits fuel c
      → Fits fuel (store_pps nalu c)
  unfolding store_pps
  store_pps-Fits nalu c l v =
      if_cases (Fits fuel) (ltb 0 (length nalu) && (length c.picture_parameter_set == 0)) _ _
        (λ e. v) (λ e. v)

  Safe-read_sets :
      (store : List ℕ → VideoCodecConfig → VideoCodecConfig) (n : ℕ)
      → ((nalu : List ℕ) (c : VideoCodecConfig)
          → length nalu ≤ length bytes
          → Fits fuel c
          → Fits fuel (store nalu c))
      → Safe (Keeps fuel) bytes 0 0 (read_sets store n)
  unfolding read_sets
  Safe-read_sets store zero h = Safe-pure (Keeps fuel) bytes 0 tt
  Safe-read_sets store (suc n) h =
      Safe-require (Keeps fuel) bytes 2 0 ErrorCode.error_hls_decode_error _ (
        Safe-mono (Keeps fuel) bytes 2 2 2 0 _ (omega arith) (omega arith) (
          Safe-take (Keeps fuel) bytes 2 0 0 read_2bytes _ Takes-read_2bytes (λ len.
            Safe-require (Keeps fuel) bytes len 0 ErrorCode.error_hls_decode_error _ (
              Safe-head_bytes (Keeps fuel) bytes len len 0 _ (omega arith) (λ p.
                Safe-modify (Keeps fuel) bytes len 0 (on_codec (store (take len (drop p bytes)))) _
                  (λ s v. h (take len (drop p bytes)) s.codec (length-head_bytes len p bytes) v)
                  (Safe-mono (Keeps fuel) bytes (len + 0) len (len + 0) 0 _ (omega arith)
                    (omega arith)
                    (Safe-skip (Keeps fuel) bytes len 0 0 _ (Safe-read_sets store n h))))))))

  ignore_error-Good :
      (o : Outcome VideoCodecConfig) (s : VideoParser) (p : ℕ)
      → p ≤ length bytes
      → Keeps fuel s
      → Ends (λ c'. (w : ℕ) × (h : ℕ) × (c' ≡ record s.codec { width = w; height = h })) o
      → Good (Keeps fuel) bytes (p + 0) (ignore_error o s (record { bytes = bytes; p = p }))
  unfolding ignore_error
  ignore_error-Good (ok c) s p h v k = (refl, omega arith, h, subst (Fits fuel) (sym k.2) v)
  ignore_error-Good (err e) s p h v k = (refl, omega arith, h, v)
  ignore_error-Good aborted s p h v k = k
  ignore_error-Good fault s p h v k = k
  ignore_error-Good stuck s p h v k = k

  Safe-check_sps : Safe (Keeps fuel) bytes 0 0 (check_sps fuel)
  unfolding Safe check_sps
  Safe-check_sps s p h v =
      if_cases {A = Outcome (Unit {0} × Buffer) × VideoParser} (Good (Keeps fuel) bytes (p + 0))
        (is_avc_codec_ok s.codec) _ _
        (λ e.
          ignore_error-Good (avc_demux_sps fuel s.codec.sequence_parameter_set s.codec) s p
            (omega (arith, h)) v (avc_demux_sps-Ends fuel s.codec.sequence_parameter_set s.codec v))
        (λ e. tt)

  Safe-check_length :
      (n q k : ℕ) (m : Parser VideoParser (Unit {0}))
      → Safe (Keeps fuel) bytes q k m
      → Safe (Keeps fuel) bytes q k (check_length n >> m)
  unfolding Safe check_length
  Safe-check_length n q k m hm s p h v =
      if_cases {A = Outcome (Unit {0} × Buffer) × VideoParser}
        (λ r. Good (Keeps fuel) bytes (p + k) (after (λ _. m) r.0 r.1)) (n % 4 == 2) _ _ (λ e. tt)
        (λ e. hm s p h v)

  Safe-read_pps_sets : Safe (Keeps fuel) bytes 0 0 read_pps_sets
  unfolding read_pps_sets
  Safe-read_pps_sets = Safe-require (Keeps fuel) bytes 1 0 ErrorCode.error_hls_decode_error _ (
      Safe-mono (Keeps fuel) bytes 1 1 1 0 _ (omega arith) (omega arith) (
        Safe-take (Keeps fuel) bytes 1 0 0 read_1bytes _ Takes-read_1bytes
          (λ n. Safe-read_sets store_pps (n % 32) store_pps-Fits)))

  pub Safe-avc_demux_sps_pps : Safe (Keeps fuel) bytes 0 0 (avc_demux_sps_pps fuel)
  unfolding avc_demux_sps_pps
  Safe-avc_demux_sps_pps = Safe-require (Keeps fuel) bytes 6 0 ErrorCode.error_hls_decode_error _ (
      Safe-head_left (Keeps fuel) bytes 6 0 _ (λ p.
        Safe-modify (Keeps fuel) bytes 6 0
          (on_codec (λ c. record c { avc_extra_data = drop p bytes })) _ (λ s v. v)
          (Safe-mono (Keeps fuel) bytes 6 6 5 0 _ (omega arith) (omega arith) (
            Safe-skip (Keeps fuel) bytes 4 2 1 _ (
              Safe-take (Keeps fuel) bytes 1 1 0 read_1bytes _ Takes-read_1bytes (λ size.
                Safe-modify (Keeps fuel) bytes 1 0
                  (on_codec (λ c. record c { nal_unit_length = size % 4 })) _ (λ s v. v)
                  (behind size)))))))
    where
      behind :
          (size : ℕ)
          → Safe (Keeps fuel) bytes 1 0 (
              check_length size
              >> (lift read_1bytes >>= λ n.
                  read_sets store_sps (n % 32) >> (read_pps_sets >> check_sps fuel)))
      behind size = Safe-check_length size 1 0 _ (
          Safe-mono (Keeps fuel) bytes 1 1 1 0 _ (omega arith) (omega arith) (
            Safe-take (Keeps fuel) bytes 1 0 0 read_1bytes _ Takes-read_1bytes (λ n.
              Safe-bind (Keeps fuel) bytes 0 0 (read_sets store_sps (n % 32)) _
                (Safe-read_sets store_sps (n % 32) store_sps-Fits)
                (λ x.
                  Safe-bind (Keeps fuel) bytes 0 0 read_pps_sets _ Safe-read_pps_sets
                    (λ y. Safe-check_sps)))))
