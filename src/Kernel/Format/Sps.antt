-- ===== src/Kernel/Format/Sps.antt =====
-- src/kernel/srs_kernel_codec.cpp: the size of the picture, out of the sequence parameter set of
-- H.264; and SrsBitBuffer of src/kernel/srs_kernel_buffer.cpp. The loop over the zeros of a ue(v)
-- takes a unit of fuel for a bit. An int32_t is its bit pattern.
pub mod Bits
pub mod Safe
pub mod Total
use srs_simple.Base.{
  ℕ, zero, suc, ◌+◌, ◌-◌, ◌*◌, ◌/◌, ◌%◌, ◌^◌, Bool, true, false, not, ◌&&◌, ◌||◌, ltb, leb, ◌==◌,
  if◌then◌else◌, List, [], ◌∷◌, ◌++◌, Outcome, ok, err, aborted, fault, stuck, ErrorCode, and_then,
}
use srs_simple.Kernel.Buffer
use srs_simple.Kernel.Buffer.{Buffer, M, init, empty, require_or, read_1bytes}
use srs_simple.Kernel.Format.{VideoCodecConfig}

pub record BitBuffer : Type 0 where
  pub cb : ℕ
  pub cb_left : ℕ
  pub stream : Buffer

unfoldable pub bit_buffer : Buffer → BitBuffer
bit_buffer b = record { cb = 0; cb_left = 0; stream = b }

unfoldable pub bits_empty : BitBuffer → Bool
bits_empty s = if s.cb_left == 0 then empty s.stream else false

abbrev pub Bits : Type 0 → Type 0
Bits A = BitBuffer → Outcome (A × BitBuffer)

infixl 5 ◌>>=◌ ◌>>◌
abbrev pub ◌>>=◌ : {A B : Type 0} → Bits A → (A → Bits B) → Bits B
◌>>=◌ m f s = and_then (m s) (λ r. f r.0 r.1)

abbrev pub ◌>>◌ : {B : Type 0} → Bits (Unit {0}) → Bits B → Bits B
m >> k = m >>= λ _. k

abbrev pub pure : {A : Type 0} → A → Bits A
pure a s = ok (a, s)

abbrev pub fail : {A : Type 0} → ErrorCode → Bits A
fail e s = err e

unfoldable pub read_bit : Bits ℕ
read_bit s =
    if s.cb_left == 0
    then (if empty s.stream
        then aborted
        else and_then (read_1bytes s.stream)
            (λ r. ok (r.0 / 128 % 2, record { cb = r.0; cb_left = 7; stream = r.1 })))
    else ok (s.cb / 2 ^ (s.cb_left - 1) % 2, record s { cb_left = s.cb_left - 1 })

unfoldable pub require_bit : Bits (Unit {0})
require_bit s = if bits_empty s then err ErrorCode.error_avc_nalu_uev else ok (tt, s)

-- Whether the loop over the zeros goes on behind a bit.
unfoldable pub more_zeros : ℕ → Bits Bool
more_zeros b s = ok (b == 0 && not (bits_empty s), s)

unfoldable pub leading_zeros : ℕ → ℕ → Bits ℕ
leading_zeros zero n s = stuck
leading_zeros (suc fuel) n s =
    (do
      b ← read_bit
      more ← more_zeros b
      elim more [ true ↦ leading_zeros fuel (n + 1) | false ↦ pure n ])
      s

unfoldable pub suffix_bits : ℕ → ℕ → Bits ℕ
suffix_bits zero v = pure v
suffix_bits (suc k) v = do require_bit; b ← read_bit; suffix_bits k (v + b * 2 ^ k)

unfoldable pub srs_avc_nalu_read_uev : ℕ → Bits ℕ
srs_avc_nalu_read_uev fuel = do
  require_bit
  n ← leading_zeros fuel 0
  if leb 31 n then fail ErrorCode.error_avc_nalu_uev else suffix_bits n (2 ^ n - 1)

unfoldable pub srs_avc_nalu_read_bit : Bits ℕ
srs_avc_nalu_read_bit = do require_bit; read_bit

-- The loops that read flags, and values that are not used.
unfoldable pub scaling_flags : ℕ → Bits (Unit {0})
scaling_flags zero = pure tt
scaling_flags (suc n) = do
  seq_scaling_matrix_present_flag_i ← srs_avc_nalu_read_bit
  if seq_scaling_matrix_present_flag_i == 0
      then scaling_flags n
      else fail ErrorCode.error_hls_decode_error

unfoldable pub skip_uevs : ℕ → ℕ → Bits (Unit {0})
skip_uevs fuel zero = pure tt
skip_uevs fuel (suc n) = do offset ← srs_avc_nalu_read_uev fuel; skip_uevs fuel n

unfoldable pub is_high : ℕ → Bool
is_high p =
    p == 100
    || (p == 110
        || (p == 122
            || (p == 244 || (p == 44 || (p == 83 || (p == 86 || (p == 118 || p == 128)))))))

unfoldable pub read_high : ℕ → Bits (Unit {0})
read_high fuel = do
  chroma_format_idc ← srs_avc_nalu_read_uev fuel
  separate_colour_plane_flag ← if chroma_format_idc == 3 then srs_avc_nalu_read_bit else pure 0
  bit_depth_luma_minus8 ← srs_avc_nalu_read_uev fuel
  bit_depth_chroma_minus8 ← srs_avc_nalu_read_uev fuel
  qpprime_y_zero_transform_bypass_flag ← srs_avc_nalu_read_bit
  seq_scaling_matrix_present_flag ← srs_avc_nalu_read_bit
  if seq_scaling_matrix_present_flag == 0
      then pure tt
      else scaling_flags (if chroma_format_idc == 3 then 12 else 8)

unfoldable pub read_order_count : ℕ → ℕ → Bits (Unit {0})
read_order_count fuel pic_order_cnt_type =
    if pic_order_cnt_type == 0
    then skip_uevs fuel 1
    else (if pic_order_cnt_type == 1
        then (do
          delta_pic_order_always_zero_flag ← srs_avc_nalu_read_bit
          skip_uevs fuel 2
          num_ref_frames_in_pic_order_cnt_cycle ← srs_avc_nalu_read_uev fuel
          skip_uevs fuel num_ref_frames_in_pic_order_cnt_cycle)
        else pure tt)

pub record Crop : Type 0 where
  pub left : ℕ
  pub right : ℕ
  pub top : ℕ
  pub bottom : ℕ

unfoldable pub read_crop : ℕ → Bits Crop
read_crop fuel = do
  frame_cropping_flag ← srs_avc_nalu_read_bit
  if frame_cropping_flag == 0
      then pure (record { left = 0; right = 0; top = 0; bottom = 0 })
      else (do
        l ← srs_avc_nalu_read_uev fuel
        r ← srs_avc_nalu_read_uev fuel
        t ← srs_avc_nalu_read_uev fuel
        b ← srs_avc_nalu_read_uev fuel
        pure (record { left = l; right = r; top = t; bottom = b }))

-- size - a * 2 - b * 2 of int32_t, where a and b are below 2 ^ 31.
unfoldable pub cropped : ℕ → ℕ → ℕ → ℕ
cropped size a b = (size + 8589934592 - a * 2 - b * 2) % 4294967296

unfoldable pub sps_size : ℕ → ℕ → Bits (ℕ × ℕ)
sps_size fuel profile_idc = do
  seq_parameter_set_id ← srs_avc_nalu_read_uev fuel
  if is_high profile_idc then read_high fuel else pure tt
  log2_max_frame_num_minus4 ← srs_avc_nalu_read_uev fuel
  pic_order_cnt_type ← srs_avc_nalu_read_uev fuel
  read_order_count fuel pic_order_cnt_type
  max_num_ref_frames ← srs_avc_nalu_read_uev fuel
  gaps_in_frame_num_value_allowed_flag ← srs_avc_nalu_read_bit
  w ← srs_avc_nalu_read_uev fuel
  h ← srs_avc_nalu_read_uev fuel
  frame_mbs_only_flag ← srs_avc_nalu_read_bit
  mb_adaptive_frame_field_flag ← if frame_mbs_only_flag == 0 then srs_avc_nalu_read_bit else pure 0
  direct_8x8_inference_flag ← srs_avc_nalu_read_bit
  c ← read_crop fuel
  pure (
    cropped ((w + 1) * 16) c.left c.right,
    cropped ((2 - frame_mbs_only_flag) * (h + 1) * 16) c.top c.bottom,
  )

-- The profile, behind the checks of the first three bytes.
unfoldable pub sps_profile : M ℕ
sps_profile = Buffer.◌>>◌ (require_or 3 ErrorCode.error_hls_decode_error) (
    Buffer.◌>>=◌ read_1bytes (λ profile_idc. Buffer.◌>>=◌ read_1bytes (λ flags.
      Buffer.◌>>=◌ read_1bytes (λ level_idc. λ b.
        if profile_idc == 0 || (not (flags % 4 == 0) || level_idc == 0)
        then err ErrorCode.error_hls_decode_error
        else ok (profile_idc, b)))))

unfoldable pub avc_demux_sps_rbsp : ℕ → List ℕ → Outcome (ℕ × ℕ)
avc_demux_sps_rbsp fuel rbsp =
    and_then (sps_profile (init rbsp))
      (λ r. and_then (sps_size fuel r.0 (bit_buffer r.1)) (λ q. ok q.0))

unfoldable pub ends_in_zeros : List ℕ → Bool
ends_in_zeros [] = false
ends_in_zeros (a ∷ []) = false
ends_in_zeros (a ∷ b ∷ []) = a == 0 && b == 0
ends_in_zeros (a ∷ b ∷ c ∷ out) = ends_in_zeros (b ∷ c ∷ out)

-- The bytes behind `out`, which is what was put so far, from the rest of the stream.
unfoldable pub srs_rbsp_remove_emulation_bytes : List ℕ → List ℕ → List ℕ
srs_rbsp_remove_emulation_bytes out [] = out
srs_rbsp_remove_emulation_bytes out (b ∷ []) = out ++ (b ∷ [])
srs_rbsp_remove_emulation_bytes out (b ∷ ev ∷ rest) = elim (ends_in_zeros out && b == 3) [
  | true ↦ srs_rbsp_remove_emulation_bytes (out ++ (if ltb 3 ev then b ∷ ev ∷ [] else ev ∷ [])) rest
  | false ↦ srs_rbsp_remove_emulation_bytes (out ++ (b ∷ [])) (ev ∷ rest)
]

-- The codec with the size of its SPS.
unfoldable pub avc_demux_sps : ℕ → List ℕ → VideoCodecConfig → Outcome VideoCodecConfig
avc_demux_sps fuel [] c = ok c
avc_demux_sps fuel (nutv ∷ stream) c =
    if not (nutv / 128 % 2 == 0) || (nutv / 32 % 4 == 0 || not (nutv % 32 == 7))
    then err ErrorCode.error_hls_decode_error
    else and_then (avc_demux_sps_rbsp fuel (srs_rbsp_remove_emulation_bytes [] stream))
        (λ size. ok (record c { width = size.0; height = size.1 }))
