-- ===== src/Kernel/Format/Demux/Stale.antt =====
-- A second sequence header through SrsFormat::on_video of src/kernel/srs_kernel_codec.cpp.
use srs_simple.Base.{
  ℕ, ◌+◌, ◌*◌, ◌%◌, ◌≡◌, ◌≤◌, ◌<◌, refl, ap, ◌∙◌, ◌&&◌, ltb, ◌==◌, if_cases, List, [], ◌∷◌, length,
  some, ok, arith,
}
use srs_simple.Base.Int.{ℤ}
use srs_simple.Kernel.Format.{Format, VideoCodecConfig, VideoFrame, VideoParser, is_avc_codec_ok}
use srs_simple.Kernel.Format.Avc.{store_sps, store_pps}
use srs_simple.Kernel.Format.Avc.Wire.{avcc, configured, Parses-avcc}
use srs_simple.Kernel.Format.Avc.Sets.{sized}
use srs_simple.Kernel.Format.Demux.{
  reset_video, set_frame_type, set_packet, demux_packet, video_parser, on_video,
}
use srs_simple.Kernel.Format.Demux.RoundTrip.{IsHeader}
use srs_simple.Kernel.Format.Demux.Tag.{avc_tag, tagged, Parses-tag, on_video-parsed, with_header}

-- Both sets are there.
abbrev pub IsConfigured : ℕ → VideoCodecConfig → Type 0
IsConfigured fuel c =
    (0 < length c.sequence_parameter_set)
    × (0 < length c.picture_parameter_set)
    × (8 * length c.sequence_parameter_set ≤ fuel)

store_sps-old :
    (sps : List ℕ) (c : VideoCodecConfig)
    → 0 < length c.sequence_parameter_set
    → store_sps sps c ≡ c
unfolding store_sps
store_sps-old sps c e =
    if_cases {A = VideoCodecConfig} (λ d. d ≡ c)
      (ltb 0 (length sps) && (length c.sequence_parameter_set == 0)) _ _
      (λ t. absurd (ground (arith, t, e))) (λ t. refl)

store_pps-old :
    (pps : List ℕ) (c : VideoCodecConfig) → 0 < length c.picture_parameter_set → store_pps pps c ≡ c
unfolding store_pps
store_pps-old pps c e =
    if_cases {A = VideoCodecConfig} (λ d. d ≡ c)
      (ltb 0 (length pps) && (length c.picture_parameter_set == 0)) _ _
      (λ t. absurd (ground (arith, t, e))) (λ t. refl)

-- A sequence header with other sets, for a codec that has its sets: on_video succeeds and keeps the
-- bytes of the new header and its size of a length, but the old SPS and the old PPS.
pub on_video-stale_sets :
    (fuel l : ℕ) (sps pps : List ℕ) (t c2 c1 c0 profile compatibility level : ℕ) (timestamp : ℤ)
    (f : Format)
    → IsHeader fuel l sps pps
    → IsConfigured fuel (video_parser f).codec
    → (w : ℕ) × (h : ℕ) × (frame : VideoFrame) × (on_video fuel timestamp
          (avc_tag t 0 c2 c1 c0 (avcc profile compatibility level l (sps ∷ []) (pps ∷ [])))
          f
        ≡ (
          ok tt,
          record f {
            video = some frame;
            vcodec = some (
                with_header l w h
                  (avcc profile compatibility level l (sps ∷ []) (pps ∷ []))
                  (video_parser f).codec.sequence_parameter_set
                  (video_parser f).codec.picture_parameter_set
                  7
                  (video_parser f).codec);
            raw = avcc profile compatibility level l (sps ∷ []) (pps ∷ []);
          },
        ))
unfolding demux_packet set_packet set_frame_type reset_video is_avc_codec_ok
on_video-stale_sets fuel l sps pps t c2 c1 c0 profile compatibility level timestamp f hh old =
    let wire : List ℕ = avcc profile compatibility level l (sps ∷ []) (pps ∷ []) in
    let s : VideoParser =
      tagged timestamp (t * 16 + 7) 0 ((c2 * 256 + c1) * 256 + c0) wire (video_parser f) in
    let d : VideoCodecConfig = record s.codec {
      avc_extra_data = wire;
      nal_unit_length = (252 + l) % 4;
    } in
    let e : configured l (sps ∷ []) (pps ∷ []) wire s.codec ≡ d =
      ap (store_pps pps) (store_sps-old sps d old.0) ∙ store_pps-old pps d old.1 in
    let (w, h, q) =
      Parses-avcc fuel l (sps ∷ []) (pps ∷ []) (omega (arith, hh.0, hh.1)) (omega arith)
        (omega arith) (hh.3, tt) (hh.5, tt) profile compatibility level s
        (ap is_avc_codec_ok e ∙ ground (arith, old.0))
        (omega (arith, ap (λ (c : VideoCodecConfig). length c.sequence_parameter_set) e, old.2)) in
    (
      w,
      h,
      s.frame,
      on_video-parsed fuel timestamp (avc_tag t 0 c2 c1 c0 wire) f _ (omega arith)
            (Parses-tag fuel timestamp t 0 c2 c1 c0 wire (video_parser f) _ q)
          ∙ ap
              (λ (c : VideoCodecConfig).
                (ok tt, record f { video = some s.frame; vcodec = some (sized w h c); raw = wire }))
              (e ∙ (λ i. record d { id = seven i; nal_unit_length = low i })),
    )
  where
    seven : (t * 16 + 7) % 16 ≡ 7
    seven = omega arith

    low : (252 + l) % 4 ≡ l
    low = omega (arith, hh.0)
