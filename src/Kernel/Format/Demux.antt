-- ===== src/Kernel/Format/Demux.antt =====
-- src/kernel/srs_kernel_codec.cpp: SrsFormat::on_audio and on_video, the payload of an FLV tag.
pub mod Tag
pub mod Safe
pub mod RoundTrip
pub mod Stale
mod Tests
use srs_simple.Base.{
  ℕ, ◌+◌, ◌-◌, ◌*◌, ◌/◌, ◌%◌, Bool, true, false, not, ◌||◌, ltb, leb, ◌==◌, if◌then◌else◌, List, [],
  ◌∷◌, length, Option, none, some, Outcome, ok, err, aborted, fault, stuck, ErrorCode,
}
use srs_simple.Base.Int.{ℤ}
use srs_simple.Kernel.Buffer.{Buffer, init, empty, require_or, read_1bytes, read_3bytes}
use srs_simple.Kernel.Format.{
  AudioCodecConfig, AudioFrame, AudioParser, VideoCodecConfig, VideoFrame, VideoParser, Format,
  Parser, after, ◌>>=◌, ◌>>◌, pure, lift, modify, get, head_left, add_sample, is_aac_codec_ok,
  is_avc_codec_ok, new_audio_codec, new_audio_frame, new_video_codec, new_video_frame,
}
use srs_simple.Kernel.Format.Avc.{avc_demux_sps_pps, avc_demux_ibmf_format}

unfoldable pub check_aac : AudioCodecConfig → Outcome (Unit {0})
check_aac c =
    if c.aac_object == 0
    then err ErrorCode.error_hls_decode_error
    else (if ltb 12 c.aac_sample_rate then err ErrorCode.error_hls_decode_error else ok tt)

-- The fields are set also where the check of them fails.
unfoldable pub audio_aac_sequence_header_demux :
    List ℕ → AudioCodecConfig → Outcome (Unit {0}) × AudioCodecConfig
audio_aac_sequence_header_demux [] c = (err ErrorCode.error_hls_decode_error, c)
audio_aac_sequence_header_demux (b0 ∷ []) c = (err ErrorCode.error_hls_decode_error, c)
audio_aac_sequence_header_demux (b0 ∷ b1 ∷ rest) c =
    let c' : AudioCodecConfig = record c {
      aac_object = b0 / 8 % 32;
      aac_sample_rate = b0 % 8 * 2 + b1 / 128 % 2;
      aac_channels = b1 / 8 % 16;
    } in
    (check_aac c', c')

abbrev pub with_buffer : {A : Type 0} → Buffer → Outcome A → Outcome (A × Buffer)
with_buffer b (ok a) = ok (a, b)
with_buffer b (err e) = err e
with_buffer b aborted = aborted
with_buffer b fault = fault
with_buffer b stuck = stuck

unfoldable pub read_sequence_header : List ℕ → Parser AudioParser (Unit {0})
read_sequence_header raw s b =
    let r : Outcome (Unit {0}) × AudioCodecConfig =
      audio_aac_sequence_header_demux raw (record s.codec { aac_extra_data = raw }) in
    (with_buffer b r.0, record s { codec = r.1 })

unfoldable pub set_audio_samples : Outcome (List (List ℕ)) → Parser AudioParser (Unit {0})
set_audio_samples (ok samples) s b =
    (ok (tt, b), record s { frame = record s.frame { samples = samples } })
set_audio_samples (err e) s b = (err e, s)
set_audio_samples aborted s b = (aborted, s)
set_audio_samples fault s b = (fault, s)
set_audio_samples stuck s b = (stuck, s)

unfoldable pub add_audio : List ℕ → Parser AudioParser (Unit {0})
add_audio raw s b =
    if is_aac_codec_ok s.codec
    then set_audio_samples (add_sample raw s.frame.samples) s b
    else (ok (tt, b), s)

unfoldable pub reset_audio : ℤ → AudioParser → AudioParser
reset_audio timestamp s = record s {
  frame = record s.frame { samples = []; dts = timestamp; cts = ℤ.pos 0 };
}

-- Behind the sound format, and whether a byte is left.
unfoldable pub read_aac : Bool → Parser AudioParser (Unit {0})
read_aac true = pure tt
read_aac false = do
  aac_packet_type ← lift read_1bytes
  raw ← lift head_left
  modify (λ s. record s { frame = record s.frame { aac_packet_type = aac_packet_type }; raw = raw })
  if aac_packet_type == 0 then read_sequence_header raw else add_audio raw

-- Another codec, or nothing behind the first byte.
unfoldable pub is_done : ℕ → Parser AudioParser Bool
is_done sound_format s b = (ok (not (sound_format / 16 % 16 == 10) || empty b, b), s)

unfoldable pub audio_aac_demux : ℤ → Parser AudioParser (Unit {0})
audio_aac_demux timestamp = do
  modify (reset_audio timestamp)
  sound_format ← lift read_1bytes
  modify (λ s. record s { codec = record s.codec { id = sound_format / 16 % 16 } })
  done ← is_done sound_format
  read_aac done

-- The sign of 24 bits.
unfoldable pub composition_time : ℕ → ℤ
composition_time n = if ltb n 8388608 then ℤ.pos n else ℤ.negsuc (16777215 - n)

unfoldable pub reset_video : ℤ → VideoParser → VideoParser
reset_video timestamp s = record s {
  frame = record s.frame { samples = []; has_idr = false; dts = timestamp; cts = ℤ.pos 0 };
}

unfoldable pub set_frame_type : ℕ → VideoParser → VideoParser
set_frame_type b s = record s {
  frame = record s.frame { frame_type = b / 16 % 16 };
  codec = record s.codec { id = b % 16 };
}

unfoldable pub set_packet : ℕ → ℕ → List ℕ → VideoParser → VideoParser
set_packet avc_packet_type time raw s = record s {
  frame = record s.frame { avc_packet_type = avc_packet_type; cts = composition_time time };
  raw = raw;
}

unfoldable pub demux_nalus : ℕ → Parser VideoParser (Unit {0})
demux_nalus fuel s b =
    if is_avc_codec_ok s.codec then avc_demux_ibmf_format fuel s b else (ok (tt, b), s)

unfoldable pub demux_packet : ℕ → ℕ → Parser VideoParser (Unit {0})
demux_packet fuel avc_packet_type =
    if avc_packet_type == 0
    then avc_demux_sps_pps fuel
    else (if avc_packet_type == 1 then demux_nalus fuel else pure tt)

unfoldable pub read_avc : ℕ → Parser VideoParser (Unit {0})
read_avc fuel = do
  lift (require_or 4 ErrorCode.error_hls_decode_error)
  avc_packet_type ← lift read_1bytes
  time ← lift read_3bytes
  raw ← lift head_left
  modify (set_packet avc_packet_type time raw)
  demux_packet fuel avc_packet_type

unfoldable pub video_avc_demux : ℕ → ℤ → Parser VideoParser (Unit {0})
video_avc_demux fuel timestamp = do
  modify (reset_video timestamp)
  frame_type ← lift read_1bytes
  modify (set_frame_type frame_type)
  if frame_type % 16 == 7 then read_avc fuel else pure tt

abbrev pub or_new : {A : Type 0} → A → Option A → A
or_new new none = new
or_new new (some a) = a

abbrev pub end_of : Outcome (Unit {0} × Buffer) → Outcome (Unit {0})
end_of (ok r) = ok tt
end_of (err e) = err e
end_of aborted = aborted
end_of fault = fault
end_of stuck = stuck

unfoldable pub keep_audio :
    Format → Outcome (Unit {0} × Buffer) × AudioParser → Outcome (Unit {0}) × Format
keep_audio f r =
    (end_of r.0, record f { audio = some r.1.frame; acodec = some r.1.codec; raw = r.1.raw })

unfoldable pub keep_video :
    Format → Outcome (Unit {0} × Buffer) × VideoParser → Outcome (Unit {0}) × Format
keep_video f r =
    (end_of r.0, record f { video = some r.1.frame; vcodec = some r.1.codec; raw = r.1.raw })

unfoldable pub audio_parser : Format → AudioParser
audio_parser f = record {
  frame = or_new new_audio_frame f.audio;
  codec = or_new new_audio_codec f.acodec;
  raw = f.raw;
}

unfoldable pub video_parser : Format → VideoParser
video_parser f = record {
  frame = or_new new_video_frame f.video;
  codec = or_new new_video_codec f.vcodec;
  raw = f.raw;
}

unfoldable pub on_audio : ℤ → List ℕ → Format → Outcome (Unit {0}) × Format
on_audio timestamp payload f =
    if length payload == 0
    then (ok tt, f)
    else keep_audio f (audio_aac_demux timestamp (audio_parser f) (init payload))

unfoldable pub on_video : ℕ → ℤ → List ℕ → Format → Outcome (Unit {0}) × Format
on_video fuel timestamp payload f =
    if length payload == 0
    then (ok tt, f)
    else keep_video f (video_avc_demux fuel timestamp (video_parser f) (init payload))
