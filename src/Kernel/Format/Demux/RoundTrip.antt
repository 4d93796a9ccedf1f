-- ===== src/Kernel/Format/Demux/RoundTrip.antt =====
-- What SrsFormat::on_video of src/kernel/srs_kernel_codec.cpp makes of an FLV tag that was written
-- as the formats say.
use srs_simple.Base.{
  ℕ, ◌+◌, ◌*◌, ◌/◌, ◌%◌, ◌≡◌, ◌≢◌, ◌≤◌, ◌<◌, refl, ap, ◌∙◌, Bool, true, false, if◌then◌else◌, List,
  [], ◌∷◌, ◌++◌, length, some, ok, arith,
}
use srs_simple.Base.Int.{ℤ}
use srs_simple.Kernel.Buffer.Cursor.{cursor}
use srs_simple.Kernel.Format.{Format, VideoCodecConfig, VideoFrame, VideoParser, is_avc_codec_ok}
use srs_simple.Kernel.Format.Parses.{Parses}
use srs_simple.Kernel.Format.Avc.{avc_demux_ibmf_format}
use srs_simple.Kernel.Format.Avc.Wire.{avcc, configured, Parses-avcc}
use srs_simple.Kernel.Format.Avc.Sets.{sized}
use srs_simple.Kernel.Format.Avc.Stream.{some_idr, with_nalus, with_nalus-samples, Parses-ibmf}
use srs_simple.Kernel.Format.Avc.Nalu.{ibmf, AreSized}
use srs_simple.Kernel.Format.Demux.{
  composition_time, reset_video, set_frame_type, set_packet, demux_nalus, demux_packet,
  video_parser, on_video,
}
use srs_simple.Kernel.Format.Demux.Tag.{
  avc_tag, tagged, Parses-tag, on_video-parsed, with_header, IsFresh, configured-new,
}

-- The fields of a header that on_video can read.
abbrev pub IsHeader : ℕ → ℕ → List ℕ → List ℕ → Type 0
IsHeader fuel l sps pps =
    (l < 4)
    × (l ≢ 2)
    × (0 < length sps)
    × (length sps < 65536)
    × (0 < length pps)
    × (length pps < 65536)
    × (8 * length sps ≤ fuel)

-- A sequence header of one SPS and one PPS, for a codec without: on_video succeeds, and keeps the
-- bytes of the header, the size of a length and both sets.
pub on_video-header :
    (fuel l : ℕ) (sps pps : List ℕ) (t c2 c1 c0 profile compatibility level : ℕ) (timestamp : ℤ)
    (f : Format)
    → IsHeader fuel l sps pps
    → IsFresh (video_parser f).codec
    → (w : ℕ) × (h : ℕ) × (frame : VideoFrame) × (on_video fuel timestamp
          (avc_tag t 0 c2 c1 c0 (avcc profile compatibility level l (sps ∷ []) (pps ∷ [])))
          f
        ≡ (
          ok tt,
          record f {
            video = some frame;
            vcodec = some (
                with_header l w h
                  (avcc profile compatibility level l (sps ∷ []) (pps ∷ []))
                  sps
                  pps
                  7
                  (video_parser f).codec);
            raw = avcc profile compatibility level l (sps ∷ []) (pps ∷ []);
          },
        ))
unfolding demux_packet set_packet set_frame_type reset_video is_avc_codec_ok
on_video-header fuel l sps pps t c2 c1 c0 profile compatibility level timestamp f hh fresh =
    let wire : List ℕ = avcc profile compatibility level l (sps ∷ []) (pps ∷ []) in
    let s : VideoParser =
      tagged timestamp (t * 16 + 7) 0 ((c2 * 256 + c1) * 256 + c0) wire (video_parser f) in
    let e : configured l (sps ∷ []) (pps ∷ []) wire s.codec
        ≡ with_header l s.codec.width s.codec.height wire sps pps s.codec.id s.codec =
      configured-new l sps pps wire s.codec hh.0 hh.2 hh.4 fresh in
    let (w, h, q) =
      Parses-avcc fuel l (sps ∷ []) (pps ∷ []) (omega (arith, hh.0, hh.1)) (omega arith)
        (omega arith) (hh.3, tt) (hh.5, tt) profile compatibility level s
        (ap is_avc_codec_ok e ∙ ground (arith, hh.2))
        (omega (arith, ap (λ (c : VideoCodecConfig). length c.sequence_parameter_set) e, hh.6)) in
    (
      w,
      h,
      s.frame,
      on_video-parsed fuel timestamp (avc_tag t 0 c2 c1 c0 wire) f _ (omega arith)
            (Parses-tag fuel timestamp t 0 c2 c1 c0 wire (video_parser f) _ q)
          ∙ ap
              (λ (c : VideoCodecConfig).
                (ok tt, record f { video = some s.frame; vcodec = some (sized w h c); raw = wire }))
              (e
                ∙ (λ i. with_header l s.codec.width s.codec.height wire sps pps (seven i) s.codec)),
    )
  where
    seven : (t * 16 + 7) % 16 ≡ 7
    seven = omega arith

-- A frame of NALUs, for a codec that has its sets: on_video succeeds, and the frame has its types and
-- times, the NALUs as its samples, and whether one is an IDR.
pub on_video-nalus :
    (fuel t c2 c1 c0 : ℕ) (nalus : List (List ℕ)) (timestamp : ℤ) (f : Format)
    → t < 16
    → is_avc_codec_ok (video_parser f).codec ≡ true
    → (video_parser f).codec.nal_unit_length ≤ 3
    → (video_parser f).codec.nal_unit_length ≢ 2
    → AreSized (video_parser f).codec.nal_unit_length nalus
    → length nalus ≤ 256
    → length nalus < fuel
    → on_video fuel timestamp
        (avc_tag t 1 c2 c1 c0 (ibmf (video_parser f).codec.nal_unit_length nalus))
        f
      ≡ (
        ok tt,
        record f {
          video = some (record {
            dts = timestamp;
            cts = composition_time ((c2 * 256 + c1) * 256 + c0);
            samples = nalus;
            frame_type = t;
            avc_packet_type = 1;
            has_idr = some_idr nalus;
          });
          vcodec = some (record (video_parser f).codec { id = 7 });
          raw = ibmf (video_parser f).codec.nal_unit_length nalus;
        },
      )
unfolding demux_packet demux_nalus set_packet set_frame_type reset_video Parses is_avc_codec_ok
on_video-nalus fuel t c2 c1 c0 nalus timestamp f ht ok_codec hl hd hz hn hf =
    let wire : List ℕ = ibmf (video_parser f).codec.nal_unit_length nalus in
    let s : VideoParser =
      tagged timestamp (t * 16 + 7) 1 ((c2 * 256 + c1) * 256 + c0) wire (video_parser f) in
    let q : Parses [] (avc_demux_ibmf_format fuel) s wire tt (with_nalus nalus s) =
      Parses-ibmf fuel nalus s hf hl hd hz (omega (arith, hn)) in
    let q' : Parses [] (demux_nalus fuel) s wire tt (with_nalus nalus s) = λ pre.
      ap
        (λ (b : Bool).
          if b
          then avc_demux_ibmf_format fuel s (cursor pre (wire ++ []))
          else (ok (tt, cursor pre (wire ++ [])), s))
        ok_codec
      ∙ q pre in
    on_video-parsed fuel timestamp (avc_tag t 1 c2 c1 c0 wire) f (with_nalus nalus s) (omega arith)
      (Parses-tag fuel timestamp t 1 c2 c1 c0 wire (video_parser f) (with_nalus nalus s) q')
    ∙ ap
        (λ (p : VideoParser).
          (ok tt, record f { video = some p.frame; vcodec = some p.codec; raw = p.raw }))
        (with_nalus-samples nalus s)
    ∙ (λ i. (
      ok tt,
      record f {
        video = some (record {
          dts = timestamp;
          cts = composition_time ((c2 * 256 + c1) * 256 + c0);
          samples = nalus;
          frame_type = type_bits i;
          avc_packet_type = 1;
          has_idr = no_more (some_idr nalus) i;
        });
        vcodec = some (record (video_parser f).codec { id = id_bits i });
        raw = wire;
      },
    ))
  where
    type_bits : (t * 16 + 7) / 16 % 16 ≡ t
    type_bits = omega (arith, ht)

    id_bits : (t * 16 + 7) % 16 ≡ 7
    id_bits = omega arith

    no_more : (b : Bool) → (if b then true else false) ≡ b
    no_more true = refl
    no_more false = refl
