-- ===== src/Kernel/Format/Demux/Safe.antt =====
-- SrsFormat::on_video and on_audio of src/kernel/srs_kernel_codec.cpp on any payload: they end.
use srs_simple.Base.{
  ℕ, ◌+◌, ◌*◌, ◌/◌, ◌%◌, ◌≤◌, ◌<◌, refl, sym, subst, Bool, false, not, ◌||◌, ltb, leb, ◌==◌,
  if_cases, List, [], ◌∷◌, length, drop, Outcome, ok, err, aborted, fault, stuck, ErrorCode, arith,
  inl, inr, Bool-cases,
}
use srs_simple.Base.Int.{ℤ}
use srs_simple.Kernel.Buffer.{Buffer, empty, read_1bytes, read_3bytes, init}
use srs_simple.Kernel.Buffer.Safe.{Takes-read_1bytes, Takes-read_3bytes}
use srs_simple.Kernel.Format.{
  AudioCodecConfig, VideoParser, AudioParser, Format, ◌>>=◌, add_sample, is_avc_codec_ok,
  is_aac_codec_ok,
}
use srs_simple.Kernel.Format.Sps.Bits.{IsHandled}
use srs_simple.Kernel.Format.Demux.{
  check_aac, audio_aac_sequence_header_demux, with_buffer, read_sequence_header, set_audio_samples,
  add_audio, reset_audio, read_aac, audio_aac_demux, reset_video, set_frame_type, set_packet,
  is_done, end_of, demux_nalus, demux_packet, read_avc, video_avc_demux, keep_audio, keep_video,
  audio_parser, video_parser, on_audio, on_video,
}
use srs_simple.Kernel.Format.Rules.{
  Good, Safe, Safe-pure, Safe-require, Safe-take, Safe-head_left, Safe-modify, Safe-if, Safe-mono,
}
use srs_simple.Kernel.Format.Avc.Header.{Keeps, Safe-avc_demux_sps_pps}
use srs_simple.Kernel.Format.Avc.Nalus.{Good-avc_demux_ibmf_format}

header_IsHandled :
    (raw : List ℕ) (c : AudioCodecConfig) → IsHandled (audio_aac_sequence_header_demux raw c).0
unfolding audio_aac_sequence_header_demux check_aac
header_IsHandled [] c = tt
header_IsHandled (b0 ∷ []) c = tt
header_IsHandled (b0 ∷ b1 ∷ rest) c =
    if_cases {A = Outcome (Unit {0})} IsHandled (b0 / 8 % 32 == 0) _ _ (λ e. tt)
      (λ e.
        if_cases {A = Outcome (Unit {0})} IsHandled (ltb 12 (b0 % 8 * 2 + b1 / 128 % 2)) _ _
          (λ d. tt) (λ d. tt))

module _ (fuel : ℕ) (bytes : List ℕ) (some_fuel : 8 * length bytes < fuel) where
  Safe-demux_nalus : Safe (Keeps fuel) bytes 0 0 (demux_nalus fuel)
  unfolding Safe demux_nalus
  Safe-demux_nalus s p h v =
      if_cases {A = Outcome (Unit {0} × Buffer) × VideoParser} (Good (Keeps fuel) bytes (p + 0))
        (is_avc_codec_ok s.codec) _ _
        (λ e.
          Good-avc_demux_ibmf_format fuel bytes some_fuel (p + 0) fuel s p (omega arith)
            (omega (arith, h)) (omega (arith, some_fuel)) v)
        (λ e. (refl, omega arith, omega (arith, h), v))

  Safe-demux_packet : (t : ℕ) → Safe (Keeps fuel) bytes 0 0 (demux_packet fuel t)
  unfolding demux_packet
  Safe-demux_packet t =
      Safe-if (Keeps fuel) bytes 0 0 (t == 0) _ _ (Safe-avc_demux_sps_pps fuel bytes some_fuel) (
        Safe-if (Keeps fuel) bytes 0 0 (t == 1) _ _ Safe-demux_nalus
          (Safe-pure (Keeps fuel) bytes 0 tt))

  Safe-read_avc : Safe (Keeps fuel) bytes 0 0 (read_avc fuel)
  unfolding read_avc set_packet
  Safe-read_avc = Safe-require (Keeps fuel) bytes 4 0 ErrorCode.error_hls_decode_error _ (
      Safe-mono (Keeps fuel) bytes 4 4 4 0 _ (omega arith) (omega arith) (
        Safe-take (Keeps fuel) bytes 1 3 3 read_1bytes _ Takes-read_1bytes (λ t.
          Safe-take (Keeps fuel) bytes 3 0 0 read_3bytes _ Takes-read_3bytes (λ time.
            Safe-head_left (Keeps fuel) bytes 0 0 _ (λ p.
              Safe-modify (Keeps fuel) bytes 0 0 (set_packet t time (drop p bytes)) _ (λ s v. v)
                (Safe-demux_packet t))))))

  Safe-video_avc_demux : (time : ℤ) → Safe (Keeps fuel) bytes 1 0 (video_avc_demux fuel time)
  unfolding video_avc_demux reset_video set_frame_type
  Safe-video_avc_demux time =
      Safe-modify (Keeps fuel) bytes 1 0 (reset_video time) _ (λ s v. v)
        (Safe-mono (Keeps fuel) bytes 1 1 1 0 _ (omega arith) (omega arith) (
          Safe-take (Keeps fuel) bytes 1 0 0 read_1bytes _ Takes-read_1bytes (λ b.
            Safe-modify (Keeps fuel) bytes 0 0 (set_frame_type b) _ (λ s v. v)
              (Safe-if (Keeps fuel) bytes 0 0 (b % 16 == 7) _ _ Safe-read_avc
                (Safe-pure (Keeps fuel) bytes 0 tt)))))

  Safe-read_sequence_header :
      (raw : List ℕ) → Safe (λ (s : AudioParser). Unit) bytes 0 0 (read_sequence_header raw)
  unfolding Safe read_sequence_header
  Safe-read_sequence_header raw s p h v =
      header (audio_aac_sequence_header_demux raw (record s.codec { aac_extra_data = raw })).0 _
        (checked raw (record s.codec { aac_extra_data = raw }))
    where
      header :
          (o : Outcome (Unit {0})) (s : AudioParser)
          → IsHandled o
          → Good
              (λ (s : AudioParser). Unit)
              bytes
              (p + 0)
              (with_buffer (record { bytes = bytes; p = p }) o, s)
      header (ok x) s i = (refl, omega arith, omega (arith, h), tt)
      header (err e) s i = tt
      header aborted s i = i
      header fault s i = i
      header stuck s i = i

      checked :
          (raw : List ℕ) (c : AudioCodecConfig)
          → IsHandled (audio_aac_sequence_header_demux raw c).0
      checked raw c = header_IsHandled raw c

  Safe-add_audio : (raw : List ℕ) → Safe (λ (s : AudioParser). Unit) bytes 0 0 (add_audio raw)
  unfolding Safe add_audio add_sample set_audio_samples
  Safe-add_audio raw s p h v =
      if_cases {A = Outcome (Unit {0} × Buffer) × AudioParser}
        (Good (λ (s : AudioParser). Unit) bytes (p + 0)) (is_aac_codec_ok s.codec) _ _
        (λ e.
          if_cases {A = Outcome (List (List ℕ))}
            (λ o.
              Good (λ (s : AudioParser). Unit) bytes (p + 0)
                (set_audio_samples o s (record { bytes = bytes; p = p })))
            (leb 256 (length s.frame.samples)) _ _ (λ e. tt)
            (λ e. (refl, omega arith, omega (arith, h), tt)))
        (λ e. (refl, omega arith, omega (arith, h), tt))

  Safe-read_aac : Safe (λ (s : AudioParser). Unit) bytes 1 0 (read_aac false)
  unfolding read_aac
  Safe-read_aac =
      Safe-mono (λ (s : AudioParser). Unit) bytes 1 1 1 0 _ (omega arith) (omega arith)
        (Safe-take (λ (s : AudioParser). Unit) bytes 1 0 0 read_1bytes _ Takes-read_1bytes
          (λ t.
            Safe-head_left (λ (s : AudioParser). Unit) bytes 0 0 _
              (λ p.
                Safe-modify (λ (s : AudioParser). Unit) bytes 0 0 _ _ (λ s v. tt)
                  (Safe-if (λ (s : AudioParser). Unit) bytes 0 0 (t == 0) _ _
                    (Safe-read_sequence_header (drop p bytes)) (Safe-add_audio (drop p bytes))))))

  -- The rest is read only where a byte is left.
  Safe-is_done : (n : ℕ) → Safe (λ (s : AudioParser). Unit) bytes 0 0 (is_done n >>= read_aac)
  unfolding Safe is_done read_aac empty
  Safe-is_done n s p h v = elim (Bool-cases (not (n / 16 % 16 == 10) || leb (length bytes) p)) [
    | inl t ↦
        subst
          (λ (d : Bool).
            Good (λ (s : AudioParser). Unit) bytes (p + 0)
              (read_aac d s (record { bytes = bytes; p = p })))
          (sym t) (refl, omega arith, omega (arith, h), tt)
    | inr t ↦
        subst
          (λ (d : Bool).
            Good (λ (s : AudioParser). Unit) bytes (p + 0)
              (read_aac d s (record { bytes = bytes; p = p })))
          (sym t) (Safe-read_aac s p (ground (arith, t)) tt)
  ]

  Safe-audio_aac_demux :
      (time : ℤ) → Safe (λ (s : AudioParser). Unit) bytes 1 0 (audio_aac_demux time)
  unfolding audio_aac_demux
  Safe-audio_aac_demux time =
      Safe-modify (λ (s : AudioParser). Unit) bytes 1 0 (reset_audio time) _ (λ s v. tt)
        (Safe-mono (λ (s : AudioParser). Unit) bytes 1 1 1 0 _ (omega arith) (omega arith)
          (Safe-take (λ (s : AudioParser). Unit) bytes 1 0 0 read_1bytes _ Takes-read_1bytes
            (λ b.
              Safe-modify (λ (s : AudioParser). Unit) bytes 0 0 _ _ (λ s v. tt) (Safe-is_done b))))

end_of-IsHandled :
    {S : Type 0} (Keeps : S → Type 0) (bytes : List ℕ) (lo : ℕ)
    (r : Outcome (Unit {0} × Buffer) × S)
    → Good Keeps bytes lo r
    → IsHandled (end_of r.0)
end_of-IsHandled Keeps bytes lo (ok x, s) g = tt
end_of-IsHandled Keeps bytes lo (err e, s) g = tt
end_of-IsHandled Keeps bytes lo (aborted, s) g = g
end_of-IsHandled Keeps bytes lo (fault, s) g = g
end_of-IsHandled Keeps bytes lo (stuck, s) g = g

-- on_audio of any payload, in any state, ends with success or with an error code: no srs_assert fails
-- and nothing outside the payload is read.
pub on_audio-IsHandled :
    (time : ℤ) (payload : List ℕ) (f : Format) → IsHandled (on_audio time payload f).0
unfolding on_audio keep_audio Safe init
on_audio-IsHandled time payload f =
    if_cases {A = Outcome (Unit {0}) × Format} (λ r. IsHandled r.0) (length payload == 0) _ _
      (λ e. tt)
      (λ e.
        end_of-IsHandled (λ (s : AudioParser). Unit) payload (0 + 0)
          (audio_aac_demux time (audio_parser f) (init payload))
          (Safe-audio_aac_demux (8 * length payload + 1) payload (omega arith) time (audio_parser f)
            0 (ground (arith, e)) tt))

-- on_video of any payload, in any state, with 8 units of fuel and more for each byte of the payload
-- and of the parameter set that the codec has, ends with success or with an error code: its loops
-- end, no srs_assert fails and nothing outside the payload or the parameter set is read.
pub on_video-IsHandled :
    (fuel : ℕ) (time : ℤ) (payload : List ℕ) (f : Format)
    → 8 * length payload < fuel
    → 8 * length (video_parser f).codec.sequence_parameter_set ≤ fuel
    → IsHandled (on_video fuel time payload f).0
unfolding on_video keep_video Safe init
on_video-IsHandled fuel time payload f h k =
    if_cases {A = Outcome (Unit {0}) × Format} (λ r. IsHandled r.0) (length payload == 0) _ _
      (λ e. tt)
      (λ e.
        end_of-IsHandled (Keeps fuel) payload (0 + 0)
          (video_avc_demux fuel time (video_parser f) (init payload))
          (Safe-video_avc_demux fuel payload h time (video_parser f) 0 (ground (arith, e)) k))
