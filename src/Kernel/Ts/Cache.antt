-- ===== src/Kernel/Ts/Cache.antt =====
-- The SrsTsMessageCache of src/kernel/srs_kernel_ts.cpp, which puts an ADTS header before each AAC
-- sample and a start code before each NALU. A sample of no bytes stands for the size 0.
pub mod Adts
pub mod AnnexB
pub mod AccessUnit
pub mod Audio
pub mod Video
pub mod Relay
mod Tests
use srs_simple.Base.{
  ℕ, ◌+◌, ◌*◌, ◌/◌, ◌%◌, Bool, true, false, ◌||◌, not, ltb, ◌==◌, if◌then◌else◌, List, [], ◌∷◌,
  ◌++◌, length, Option, none, some, Outcome, ok, err, aborted, fault, stuck, and_then, ErrorCode,
}
use srs_simple.Base.Int.{ℤ, ◌+ℤ◌}
use srs_simple.Kernel.Format.{
  AudioCodecConfig, VideoCodecConfig, VideoFrame, is_aac_codec_ok, is_avc_codec_ok,
}
use srs_simple.Kernel.Ts.{TsMessage}

unfoldable pub srs_aac_rtmp2ts : ℕ → ℕ
srs_aac_rtmp2ts object_type =
    if object_type == 1
    then 0
    else (if object_type == 5 || object_type == 29 || object_type == 2
        then 1
        else (if object_type == 3 then 2 else 3))

-- The header of a sample of a size. Its frame length is cut to 13 bits.
unfoldable pub adts_header : AudioCodecConfig → ℕ → List ℕ
adts_header c size =
    let frame_length : ℕ = size + 7 in
    255
    ∷ 249
    ∷ (srs_aac_rtmp2ts c.aac_object % 4 * 64 + c.aac_sample_rate % 16 * 4 + c.aac_channels / 4 % 2)
    ∷ (c.aac_channels % 4 * 64 + frame_length / 2048 % 4)
    ∷ (frame_length / 8 % 256)
    ∷ (frame_length % 8 * 32 + 31)
    ∷ 252
    ∷ []

-- The loop over the samples; what was appended before an invalid one stays.
unfoldable pub cache_samples :
    AudioCodecConfig → List (List ℕ) → List ℕ → Outcome (Unit {0}) × List ℕ
cache_samples c [] payload = (ok tt, payload)
cache_samples c ([] ∷ samples) payload = (err ErrorCode.error_hls_decode_error, payload)
cache_samples c ((b ∷ bs) ∷ samples) payload =
    cache_samples c samples (payload ++ (adts_header c (length (b ∷ bs)) ++ (b ∷ bs)))

unfoldable pub do_cache_aac :
    Option AudioCodecConfig → List (List ℕ) → List ℕ → Outcome (Unit {0}) × List ℕ
do_cache_aac none samples payload = (err ErrorCode.error_hls_decode_error, payload)
do_cache_aac (some c) samples payload =
    if is_aac_codec_ok c
    then cache_samples c samples payload
    else (err ErrorCode.error_hls_decode_error, payload)

unfoldable pub audio_message : ℤ → Option TsMessage → TsMessage
audio_message dts none = record { dts = dts; pts = dts; sid = 192; write_pcr = false; payload = [] }
audio_message dts (some m) = m

-- The audio of the cache, which a writer takes out and resets. It stays also where a sample fails.
unfoldable pub cache_audio :
    Option AudioCodecConfig
    → List (List ℕ)
    → ℤ
    → Option TsMessage
    → Outcome (Unit {0}) × Option TsMessage
cache_audio codec samples dts audio =
    let m : TsMessage = audio_message dts audio in
    let r : Outcome (Unit {0}) × List ℕ = do_cache_aac codec samples m.payload in
    (r.0, some (record m { payload = r.1 }))

-- Whether a sample is an access unit delimiter. The loops read the first byte of each sample, which
-- is outside of a sample of no bytes.
unfoldable pub has_aud : List (List ℕ) → Outcome Bool
has_aud [] = ok false
has_aud ([] ∷ samples) = fault
has_aud ((b ∷ bs) ∷ samples) =
    let rest : Outcome Bool = has_aud samples in if b % 32 == 9 then ok true else rest

-- The bytes of a payload, and whether a start code is in them.
unfoldable pub srs_avc_insert_aud : List ℕ × Bool → List ℕ × Bool
srs_avc_insert_aud (payload, false) = (payload ++ (0 ∷ 0 ∷ 0 ∷ 1 ∷ []), true)
srs_avc_insert_aud (payload, true) = (payload ++ (0 ∷ 0 ∷ 1 ∷ []), true)

unfoldable pub append_nalu : List ℕ → List ℕ × Bool → List ℕ × Bool
append_nalu nalu p = ((srs_avc_insert_aud p).0 ++ nalu, (srs_avc_insert_aud p).1)

unfoldable pub append_set : List ℕ → List ℕ × Bool → List ℕ × Bool
append_set [] p = p
append_set (b ∷ bs) p = append_nalu (b ∷ bs) p

-- The parameter sets go before the first IDR.
unfoldable pub cache_nalus :
    VideoCodecConfig → Bool → List (List ℕ) → List ℕ × Bool → Outcome (List ℕ)
cache_nalus c is_sps_pps_appended [] p = ok p.0
cache_nalus c is_sps_pps_appended ([] ∷ samples) p = fault
cache_nalus c true ((b ∷ bs) ∷ samples) p = cache_nalus c true samples (append_nalu (b ∷ bs) p)
cache_nalus c false ((b ∷ bs) ∷ samples) p = cache_nalus c (b % 32 == 5) samples (
    append_nalu (b ∷ bs) (
      if b % 32 == 5
      then append_set c.picture_parameter_set (append_set c.sequence_parameter_set p)
      else p))

unfoldable pub do_cache_avc : Option VideoCodecConfig → List (List ℕ) → List ℕ → Outcome (List ℕ)
do_cache_avc none samples payload = err ErrorCode.error_hls_decode_error
do_cache_avc (some c) samples payload =
    if is_avc_codec_ok c
    then and_then (has_aud samples) (λ aud.
      cache_nalus c false samples
        (if aud then (payload, false) else append_nalu (9 ∷ 240 ∷ []) (payload, false)))
    else err ErrorCode.error_hls_decode_error

unfoldable pub times_90 : ℤ → ℤ
times_90 (ℤ.pos n) = ℤ.pos (n * 90)
times_90 (ℤ.negsuc n) = ℤ.negsuc (n * 90 + 89)

unfoldable pub video_message : VideoFrame → ℤ → Option TsMessage → TsMessage
video_message f dts none = record {
  dts = dts;
  pts = dts +ℤ times_90 f.cts;
  sid = 224;
  write_pcr = f.frame_type == 1;
  payload = [];
}
video_message f dts (some m) = m

unfoldable pub keep_payload : TsMessage → Outcome (List ℕ) → Outcome (Unit {0}) × Option TsMessage
keep_payload m (ok payload) = (ok tt, some (record m { payload = payload }))
keep_payload m (err e) = (err e, some m)
keep_payload m aborted = (aborted, some m)
keep_payload m fault = (fault, some m)
keep_payload m stuck = (stuck, some m)

-- The video of the cache, which a writer takes out and resets. An error comes before any byte.
unfoldable pub cache_video :
    Option VideoCodecConfig
    → VideoFrame
    → ℤ
    → Option TsMessage
    → Outcome (Unit {0}) × Option TsMessage
cache_video codec f dts video =
    let m : TsMessage = video_message f dts video in
    keep_payload m (do_cache_avc codec f.samples m.payload)
