-- ===== src/Kernel/Ts/Cache/Relay.antt =====
-- From FLV tags to a TS message: SrsFormat of src/kernel/srs_kernel_codec.cpp and then the
-- SrsTsMessageCache of src/kernel/srs_kernel_ts.cpp.
use srs_simple.Base.{
  ℕ, ◌+◌, ◌*◌, ◌≡◌, ◌≤◌, ◌<◌, refl, true, List, [], ◌∷◌, length, none, some, ok, arith,
}
use srs_simple.Base.Int.{ℤ}
use srs_simple.Kernel.Format.{Format, VideoCodecConfig, VideoFrame, is_avc_codec_ok}
use srs_simple.Kernel.Format.Avc.Wire.{avcc}
use srs_simple.Kernel.Format.Avc.Stream.{some_idr}
use srs_simple.Kernel.Format.Avc.Nalu.{ibmf, AreSized}
use srs_simple.Kernel.Format.Demux.{composition_time, video_parser, on_video}
use srs_simple.Kernel.Format.Demux.RoundTrip.{IsHeader, on_video-header, on_video-nalus}
use srs_simple.Kernel.Format.Demux.Tag.{IsFresh, avc_tag, with_header}
use srs_simple.Kernel.Ts.Cache.{video_message, cache_video}
use srs_simple.Kernel.Ts.Cache.AnnexB.{is_nalu, AreNalus, read_annex_b}
use srs_simple.Kernel.Ts.Cache.AccessUnit.{access_unit}
use srs_simple.Kernel.Ts.Cache.Video.{set_of-AreNalus, cache_video-access_unit}

-- What comes out of a frame: the codec with the sets, the frame with its NALUs, and a message whose
-- payload a reader of Annex B reads as their access unit.
pub record Relays (sps pps : List ℕ) (nalus : List (List ℕ)) (t : ℕ) (dts : ℤ) (f : Format)
    : Type 0 where
  pub codec : VideoCodecConfig
  pub frame : VideoFrame
  pub out : List ℕ
  pub has_codec : f.vcodec ≡ some codec
  pub has_frame : f.video ≡ some frame
  pub sps_kept : codec.sequence_parameter_set ≡ sps
  pub pps_kept : codec.picture_parameter_set ≡ pps
  pub type_kept : frame.frame_type ≡ t
  pub nalus_kept : frame.samples ≡ nalus
  pub cached :
      cache_video (some codec) frame dts none
      ≡ (ok tt, some (record (video_message frame dts none) { payload = out }))
  pub read : read_annex_b out ≡ some (access_unit codec nalus)

-- An FLV tag with a sequence header of one SPS and one PPS, for a format without, and then a tag of up
-- to 256 NALUs, none of which holds a start code or ends in 0, with the time and the size of a length
-- that the header says: on_video takes both without an error, and cache_video of its codec and frame
-- makes a TS message in whose payload a reader of Annex B finds just these NALUs in their order, with
-- the SPS and the PPS right before the first IDR, and an access unit delimiter as the first where
-- there is none.
pub on_video-Relays :
    (fuel l : ℕ) (sps pps : List ℕ) (nalus : List (List ℕ))
    (t t' c2 c1 c0 profile compatibility level : ℕ) (time time' dts : ℤ) (f : Format)
    → IsHeader fuel l sps pps
    → IsFresh (video_parser f).codec
    → is_nalu sps ≡ true
    → is_nalu pps ≡ true
    → AreNalus nalus
    → AreSized l nalus
    → length nalus ≤ 256
    → length nalus < fuel
    → t' < 16
    → (f1 : Format) × (f2 : Format) × (on_video fuel time
          (avc_tag t 0 0 0 0 (avcc profile compatibility level l (sps ∷ []) (pps ∷ [])))
          f
        ≡ (ok tt, f1))
      × (on_video fuel time' (avc_tag t' 1 c2 c1 c0 (ibmf l nalus)) f1 ≡ (ok tt, f2))
      × Relays sps pps nalus t' dts f2
unfolding video_parser is_avc_codec_ok video_message
on_video-Relays fuel l sps pps nalus t t' c2 c1 c0 profile compatibility level time time' dts f hh
      fresh ns np hn hz n256 nf ht =
    let r = on_video-header fuel l sps pps t 0 0 0 profile compatibility level time f hh fresh in
    let wire : List ℕ = avcc profile compatibility level l (sps ∷ []) (pps ∷ []) in
    let codec : VideoCodecConfig = with_header l r.0 r.1 wire sps pps 7 (video_parser f).codec in
    let f1 : Format = record f { video = some r.2; vcodec = some codec; raw = wire } in
    let q =
      on_video-nalus fuel t' c2 c1 c0 nalus time' f1 ht (ground (arith, hh.2)) (omega (arith, hh.0))
        hh.1 hz n256 nf in
    let frame : VideoFrame = record {
      dts = time';
      cts = composition_time ((c2 * 256 + c1) * 256 + c0);
      samples = nalus;
      frame_type = t';
      avc_packet_type = 1;
      has_idr = some_idr nalus;
    } in
    let c = cache_video-access_unit codec frame dts none (ns, set_of-AreNalus pps np) hn in
    (
      f1,
      record f { video = some frame; vcodec = some codec; raw = ibmf l nalus },
      r.3,
      q,
      record {
        codec = codec;
        frame = frame;
        out = c.0;
        has_codec = refl;
        has_frame = refl;
        sps_kept = refl;
        pps_kept = refl;
        type_kept = refl;
        nalus_kept = refl;
        cached = c.1;
        read = c.2;
      },
    )
