-- ===== src/Kernel/Ts/Cache/Tests.antt =====
-- The claims about the SrsTsMessageCache of src/kernel/srs_kernel_ts.cpp, at concrete inputs: two AAC
-- samples of LC at 44.1 kHz in stereo, and a key frame of an SEI and an IDR.
use srs_simple.Base.{ℕ, ◌≡◌, refl, List, [], ◌∷◌, ◌++◌, length, map, none, some, ok, arith}
use srs_simple.Base.Int.{pos}
use srs_simple.Kernel.Format.{
  Format, new_audio_codec, new_video_codec, new_video_frame, VideoCodecConfig, VideoFrame,
}
use srs_simple.Kernel.Format.Demux.{audio_aac_sequence_header_demux, video_parser, on_video}
use srs_simple.Kernel.Format.Demux.Tag.{avc_tag}
use srs_simple.Kernel.Format.Avc.Wire.{avcc}
use srs_simple.Kernel.Format.Avc.Nalu.{ibmf}
use srs_simple.Kernel.Ts.Cache.Relay.{Relays, on_video-Relays}
use srs_simple.Kernel.Ts.Cache.{audio_message, cache_audio, video_message, cache_video}
use srs_simple.Kernel.Ts.Cache.Adts.{read_frames, adts_frame}
use srs_simple.Kernel.Ts.Cache.Audio.{specific_config, config, cache_audio-frames}
use srs_simple.Kernel.Ts.Cache.AnnexB.{is_start, is_nalu, read_annex_b}
use srs_simple.Kernel.Ts.Cache.AccessUnit.{access_unit}
use srs_simple.Kernel.Ts.Cache.Video.{cache_video-access_unit}

abbrev sounds : List (List ℕ)
sounds = (33 ∷ 16 ∷ 4 ∷ []) ∷ (33 ∷ 17 ∷ []) ∷ []

cache_audio-frames_example :
    (audio_aac_sequence_header_demux (specific_config 2 4 2 0 ++ []) new_audio_codec
      ≡ (ok tt, config new_audio_codec 2 4 2))
    × (out : List ℕ) × (cache_audio (some (config new_audio_codec 2 4 2)) sounds (pos 900) none ≡ (
      ok tt,
      some (record (audio_message (pos 900) none) {
        payload = (audio_message (pos 900) none).payload ++ out;
      }),
    ))
    × (read_frames (length sounds) out
        ≡ some (map (adts_frame (config new_audio_codec 2 4 2)) sounds))
cache_audio-frames_example =
    cache_audio-frames 2 4 2 0 [] new_audio_codec sounds (pos 900) none (omega arith) (omega arith)
      (omega arith) (omega arith) (omega arith)
      (omega arith, omega arith, (omega arith, omega arith, tt))

abbrev avc : VideoCodecConfig
avc = record new_video_codec {
  sequence_parameter_set = 103 ∷ 66 ∷ 1 ∷ [];
  picture_parameter_set = 104 ∷ 206 ∷ [];
}

abbrev picture : VideoFrame
picture = record new_video_frame {
  frame_type = 1;
  cts = pos 20;
  samples = (6 ∷ 5 ∷ 128 ∷ []) ∷ (101 ∷ 0 ∷ 0 ∷ 3 ∷ 1 ∷ []) ∷ [];
}

cache_video-access_unit_example :
    (out : List ℕ) × (cache_video (some avc) picture (pos 900) none ≡ (
      ok tt,
      some (record (video_message picture (pos 900) none) {
        payload = (video_message picture (pos 900) none).payload ++ out;
      }),
    ))
    × (read_annex_b out ≡ some (access_unit avc picture.samples))
unfolding is_nalu is_start
cache_video-access_unit_example =
    cache_video-access_unit avc picture (pos 900) none (refl, (refl, tt)) (refl, (refl, tt))

abbrev empty_format : Format
empty_format = record { audio = none; video = none; acodec = none; vcodec = none; raw = [] }

on_video-Relays_example :
    (f1 : Format) × (f2 : Format) × (on_video 1000
        (pos 0)
        (avc_tag 1 0 0 0 0 (avcc 77 0 30 3 ((103 ∷ 77 ∷ 1 ∷ []) ∷ []) ((104 ∷ 238 ∷ []) ∷ [])))
        empty_format
      ≡ (ok tt, f1))
    × (on_video 1000
          (pos 40)
          (avc_tag 1 1 0 0 20 (ibmf 3 ((6 ∷ 5 ∷ 128 ∷ []) ∷ (101 ∷ 0 ∷ 0 ∷ 3 ∷ 1 ∷ []) ∷ [])))
          f1
        ≡ (ok tt, f2))
    × Relays
        (103 ∷ 77 ∷ 1 ∷ [])
        (104 ∷ 238 ∷ [])
        ((6 ∷ 5 ∷ 128 ∷ []) ∷ (101 ∷ 0 ∷ 0 ∷ 3 ∷ 1 ∷ []) ∷ [])
        1
        (pos 900)
        f2
unfolding video_parser is_nalu is_start new_video_codec
on_video-Relays_example =
    on_video-Relays 1000 3 (103 ∷ 77 ∷ 1 ∷ []) (104 ∷ 238 ∷ [])
      ((6 ∷ 5 ∷ 128 ∷ []) ∷ (101 ∷ 0 ∷ 0 ∷ 3 ∷ 1 ∷ []) ∷ []) 1 1 0 0 20 77 0 30 (pos 0) (pos 40)
      (pos 900) empty_format
      (omega arith, omega arith, omega arith, omega arith, omega arith, omega arith, omega arith)
      (refl, refl) refl refl (refl, (refl, tt))
      (omega arith, omega arith, (omega arith, omega arith, tt)) (omega arith) (omega arith)
      (omega arith)
