-- ===== src/Kernel/Flv.antt =====
-- src/kernel/srs_kernel_flv.cpp: SrsSharedPtrMessage. The payload that copies share is never
-- changed, so a message holds it by value; the count of its owners is not modelled.
use srs_simple.Base.{
  ℕ, ◌+◌, ◌-◌, ◌%◌, Bool, ◌||◌, List, [], ◌∷◌, ◌++◌, ◌==◌, ltb, leb, length, if◌then◌else◌,
}
use srs_simple.Kernel.Buffer.Bytes.{be3, be4, le4}
use srs_simple.Base.Int.{ℤ}

pub record Message : Type 0 where
  pub message_type : ℕ
  pub prefer_cid : ℕ
  pub timestamp : ℤ
  pub stream_id : ℕ
  pub payload : List ℕ

-- RTMP_MSG_AudioMessage and RTMP_MSG_VideoMessage.
unfoldable pub is_audio : Message → Bool
is_audio m = m.message_type == 8

unfoldable pub is_video : Message → Bool
is_video m = m.message_type == 9

unfoldable pub is_av : Message → Bool
is_av m = m.message_type == 8 || m.message_type == 9

-- The bytes that srs_chunk_header_c0 puts into a cache of nb_cache bytes; the integers are bit
-- patterns of 32 bits, and the type one of 8. RTMP_EXTENDED_TIMESTAMP is 0xFFFFFF.
unfoldable pub chunk_header_c0 : ℕ → ℕ → ℕ → ℕ → ℕ → ℕ → List ℕ
chunk_header_c0 prefer_cid timestamp payload_length message_type stream_id nb_cache =
    if ltb nb_cache 16
    then []
    else (((prefer_cid % 64) ∷ [])
        ++ ((if ltb timestamp 16777215 then be3 timestamp else (255 ∷ 255 ∷ 255 ∷ []))
            ++ (be3 payload_length
                ++ ((message_type ∷ [])
                    ++ (le4 stream_id ++ (if leb 16777215 timestamp then be4 timestamp else []))))))

unfoldable pub chunk_header_c3 : ℕ → ℕ → ℕ → List ℕ
chunk_header_c3 prefer_cid timestamp nb_cache =
    if ltb nb_cache 5
    then []
    else (((192 + prefer_cid % 64) ∷ []) ++ (if leb 16777215 timestamp then be4 timestamp else []))

-- (uint32_t)timestamp.
unfoldable pub low_32bits : ℤ → ℕ
low_32bits (ℤ.pos n) = n % 4294967296
low_32bits (ℤ.negsuc n) = 4294967295 - n % 4294967296

unfoldable pub chunk_header : Message → ℕ → Bool → List ℕ
chunk_header m nb_cache c0 =
    if c0
    then chunk_header_c0 m.prefer_cid (low_32bits m.timestamp) (length m.payload) m.message_type
        m.stream_id nb_cache
    else chunk_header_c3 m.prefer_cid (low_32bits m.timestamp) nb_cache
