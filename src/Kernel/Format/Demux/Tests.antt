-- ===== src/Kernel/Format/Demux/Tests.antt =====
-- The claims about SrsFormat of src/kernel/srs_kernel_codec.cpp, at concrete inputs: a header and
-- frames of a few bytes, and what the parsers do with them.
use srs_simple.Base.{ℕ, ◌≡◌, refl, [], ◌∷◌, none, some, ok, arith}
use srs_simple.Base.Int.{pos, negsuc}
use srs_simple.Kernel.Format.{Format, VideoFrame, new_video_codec}
use srs_simple.Kernel.Format.Sps.{ends_in_zeros, srs_rbsp_remove_emulation_bytes}
use srs_simple.Kernel.Format.Sps.Bits.{IsHandled}
use srs_simple.Kernel.Format.Avc.Wire.{avcc}
use srs_simple.Kernel.Format.Demux.{composition_time, video_parser, on_video}
use srs_simple.Kernel.Format.Demux.Safe.{on_video-IsHandled}
use srs_simple.Kernel.Format.Demux.Tag.{avc_tag, with_header}
use srs_simple.Kernel.Format.Demux.Stale.{on_video-stale_sets}

abbrev empty_format : Format
empty_format = record { audio = none; video = none; acodec = none; vcodec = none; raw = [] }

composition_time_negative : composition_time 16777215 ≡ negsuc 0
unfolding composition_time
composition_time_negative = refl

emulation_byte : srs_rbsp_remove_emulation_bytes [] (0 ∷ 0 ∷ 3 ∷ 1 ∷ []) ≡ 0 ∷ 0 ∷ 1 ∷ []
unfolding srs_rbsp_remove_emulation_bytes ends_in_zeros
emulation_byte = refl

on_video-IsHandled_example :
    IsHandled (on_video 1000 (pos 40) (23 ∷ 1 ∷ 0 ∷ 0 ∷ 0 ∷ 255 ∷ []) empty_format).0
unfolding video_parser new_video_codec
on_video-IsHandled_example =
    on_video-IsHandled 1000 (pos 40) (23 ∷ 1 ∷ 0 ∷ 0 ∷ 0 ∷ 255 ∷ []) empty_format (omega arith)
      (omega arith)

abbrev format : Format
format = record empty_format {
  vcodec = some (record {
    id = 7;
    width = 0;
    height = 0;
    avc_extra_data = [];
    nal_unit_length = 3;
    sequence_parameter_set = 103 ∷ 66 ∷ [];
    picture_parameter_set = 104 ∷ 206 ∷ [];
  });
}

on_video-stale_sets_example :
    (w : ℕ) × (h : ℕ) × (frame : VideoFrame) × (on_video 1000
        (pos 0)
        (avc_tag 1 0 0 0 0 (avcc 77 0 30 3 ((103 ∷ 77 ∷ []) ∷ []) ((104 ∷ 238 ∷ []) ∷ [])))
        format
      ≡ (
        ok tt,
        record format {
          video = some frame;
          vcodec = some (
              with_header 3 w h
                (avcc 77 0 30 3 ((103 ∷ 77 ∷ []) ∷ []) ((104 ∷ 238 ∷ []) ∷ []))
                (video_parser format).codec.sequence_parameter_set
                (video_parser format).codec.picture_parameter_set
                7
                (video_parser format).codec);
          raw = avcc 77 0 30 3 ((103 ∷ 77 ∷ []) ∷ []) ((104 ∷ 238 ∷ []) ∷ []);
        },
      ))
unfolding video_parser
on_video-stale_sets_example =
    on_video-stale_sets 1000 3 (103 ∷ 77 ∷ []) (104 ∷ 238 ∷ []) 1 0 0 0 77 0 30 (pos 0) format
      (omega arith, omega arith, omega arith, omega arith, omega arith, omega arith, omega arith)
      (omega arith, omega arith, omega arith)
