-- ===== src/Base/Result.antt =====
-- How a call of the C++ code ends: with a value, with an srs_error_t
-- (src/core/srs_kernel_error.hpp), at a failed srs_assert, at an access outside the memory it
-- owns, or, in the model of a loop alone, with no fuel left.

-- The codes of enum SrsErrorCode that the modelled operations create.
pub data ErrorCode : Type 0 where
  error_rtmp_amf0_decode error_rtmp_amf0_invalid error_rtmp_amf0_encode : ErrorCode
  error_rtmp_chunk_start error_rtmp_packet_size error_reader_buffer_overflow : ErrorCode
  error_rtmp_message_create error_rtmp_message_decode error_rtmp_message_encode : ErrorCode
  error_socket_read error_system_packet_invalid error_rtmp_chunk_size : ErrorCode
  error_rtmp_no_request : ErrorCode
  error_system_stream_busy error_hls_decode_error error_hls_avc_sample_size : ErrorCode
  error_avc_nalu_uev : ErrorCode

pub data Outcome {ℓ} (A : Type ℓ) : Type ℓ where
  ok : A → Outcome A
  err : ErrorCode → Outcome A
  aborted : Outcome A
  fault : Outcome A
  stuck : Outcome A

-- if ((err = f()) != srs_success) return err, on a call with a result.
abbrev pub and_then {ℓ κ} : {A : Type ℓ} {B : Type κ} → Outcome A → (A → Outcome B) → Outcome B
and_then (ok a) f = f a
and_then (err e) f = err e
and_then aborted f = aborted
and_then fault f = fault
and_then stuck f = stuck
