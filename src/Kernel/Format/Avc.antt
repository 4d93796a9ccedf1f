-- ===== src/Kernel/Format/Avc.antt =====
-- src/kernel/srs_kernel_codec.cpp: SrsFormat::avc_demux_sps_pps, which reads the sequence header of
-- H.264, and avc_demux_ibmf_format, which cuts a payload into NALUs.
pub mod Sets
pub mod Nalu
pub mod Header
pub mod Nalus
pub mod Wire
pub mod Stream
use srs_simple.Base.{
  ℕ, zero, suc, ◌+◌, ◌-◌, ◌*◌, ◌/◌, ◌%◌, Bool, true, false, not, ◌&&◌, ◌||◌, ltb, leb, ◌==◌,
  if◌then◌else◌, List, [], ◌∷◌, ◌++◌, length, take, drop, Outcome, ok, err, aborted, fault, stuck,
  ErrorCode,
}
use srs_simple.Base.Int.{ℤ}
use srs_simple.Kernel.Buffer.{
  Buffer, M, empty, require_or, skip, read_1bytes, read_2bytes, read_4bytes,
}
use srs_simple.Kernel.Format.{
  VideoCodecConfig, VideoFrame, VideoParser, Parser, after, ◌>>=◌, ◌>>◌, pure, lift, modify, get,
  head_left, head_bytes, add_sample, is_avc_codec_ok,
}
use srs_simple.Kernel.Format.Sps.{avc_demux_sps}

-- A parameter set of a length, and whether the codec has one.
unfoldable pub store_sps : List ℕ → VideoCodecConfig → VideoCodecConfig
store_sps nalu c =
    if ltb 0 (length nalu) && (length c.sequence_parameter_set == 0)
    then record c { sequence_parameter_set = nalu }
    else c

unfoldable pub store_pps : List ℕ → VideoCodecConfig → VideoCodecConfig
store_pps nalu c =
    if ltb 0 (length nalu) && (length c.picture_parameter_set == 0)
    then record c { picture_parameter_set = nalu }
    else c

abbrev pub on_codec : (VideoCodecConfig → VideoCodecConfig) → VideoParser → VideoParser
on_codec f s = record s { codec = f s.codec }

-- The loops over the parameter sets.
unfoldable pub read_sets :
    (List ℕ → VideoCodecConfig → VideoCodecConfig) → ℕ → Parser VideoParser (Unit {0})
read_sets keep zero = pure tt
read_sets keep (suc n) = do
  lift (require_or 2 ErrorCode.error_hls_decode_error)
  len ← lift read_2bytes
  lift (require_or len ErrorCode.error_hls_decode_error)
  nalu ← lift (head_bytes len)
  modify (on_codec (keep nalu))
  lift (skip (ℤ.pos len))
  read_sets keep n

-- An error of the SPS is dropped, and the size stays as it was.
unfoldable pub ignore_error : Outcome VideoCodecConfig → Parser VideoParser (Unit {0})
ignore_error (ok c) s b = (ok (tt, b), record s { codec = c })
ignore_error (err e) s b = (ok (tt, b), s)
ignore_error aborted s b = (aborted, s)
ignore_error fault s b = (fault, s)
ignore_error stuck s b = (stuck, s)

unfoldable pub check_sps : ℕ → Parser VideoParser (Unit {0})
check_sps fuel s b =
    if is_avc_codec_ok s.codec
    then ignore_error (avc_demux_sps fuel s.codec.sequence_parameter_set s.codec) s b
    else (err ErrorCode.error_hls_decode_error, s)

unfoldable pub read_pps_sets : Parser VideoParser (Unit {0})
read_pps_sets = do
  lift (require_or 1 ErrorCode.error_hls_decode_error)
  n ← lift read_1bytes
  read_sets store_pps (n % 32)

unfoldable pub check_length : ℕ → Parser VideoParser (Unit {0})
check_length n s b =
    if n % 4 == 2 then (err ErrorCode.error_hls_decode_error, s) else (ok (tt, b), s)

unfoldable pub avc_demux_sps_pps : ℕ → Parser VideoParser (Unit {0})
avc_demux_sps_pps fuel = do
  lift (require_or 6 ErrorCode.error_hls_decode_error)
  extra ← lift head_left
  modify (on_codec (λ c. record c { avc_extra_data = extra }))
  lift (skip (ℤ.pos 4))
  size ← lift read_1bytes
  modify (on_codec (λ c. record c { nal_unit_length = size % 4 }))
  check_length size
  n ← lift read_1bytes
  read_sets store_sps (n % 32)
  read_pps_sets
  check_sps fuel

-- The length of a NALU. One of 4 bytes is an int32_t, which is negative from 2 ^ 31 on.
unfoldable pub read_nalu_length : ℕ → M ℕ
read_nalu_length n = if n == 3 then read_4bytes else (if n == 1 then read_2bytes else read_1bytes)

unfoldable pub require_nalu : ℕ → Parser VideoParser (Unit {0})
require_nalu len s b =
    if leb 2147483648 len
    then (err ErrorCode.error_hls_avc_sample_size, s)
    else (require_or len ErrorCode.error_hls_avc_sample_size b, s)

unfoldable pub is_idr : List ℕ → Bool
is_idr [] = false
is_idr (b ∷ bs) = b % 32 == 5

unfoldable pub set_samples : Outcome (List (List ℕ)) → Parser VideoParser (Unit {0})
set_samples (ok samples) s b =
    (ok (tt, b), record s { frame = record s.frame { samples = samples } })
set_samples (err e) s b = (err e, s)
set_samples aborted s b = (aborted, s)
set_samples fault s b = (fault, s)
set_samples stuck s b = (stuck, s)

unfoldable pub add_nalu : List ℕ → Parser VideoParser (Unit {0})
add_nalu nalu s b = set_samples (add_sample nalu s.frame.samples) s b

unfoldable pub mark_idr : List ℕ → VideoParser → VideoParser
mark_idr nalu s = record s {
  frame = record s.frame { has_idr = if is_idr nalu then true else s.frame.has_idr };
}

unfoldable pub take_nalu : ℕ → Parser VideoParser (Unit {0})
take_nalu len = if len == 0 then pure tt else (do
  nalu ← lift (head_bytes len)
  modify (mark_idr nalu)
  add_nalu nalu
  lift (skip (ℤ.pos len)))

unfoldable pub next_nalu : Parser VideoParser (Unit {0})
next_nalu = do
  s ← get
  lift (require_or (s.codec.nal_unit_length + 1) ErrorCode.error_hls_avc_sample_size)
  len ← lift (read_nalu_length s.codec.nal_unit_length)
  require_nalu len
  take_nalu len

-- A round takes a byte at least, so the bytes left are fuel enough.
unfoldable pub avc_demux_ibmf_format : ℕ → Parser VideoParser (Unit {0})
avc_demux_ibmf_format zero s b = (stuck, s)
avc_demux_ibmf_format (suc fuel) s b =
    let rest = (do next_nalu; avc_demux_ibmf_format fuel) s b in
    if empty b then (ok (tt, b), s) else rest
