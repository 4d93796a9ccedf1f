-- ===== src/App/Source/Jitter.antt =====
-- src/app/srs_app_source.cpp: SrsRtmpJitter, the timestamps that a player sees.
pub mod Correct
use srs_simple.Base.{ℕ, suc, Bool, true, false, ◌||◌, if◌then◌else◌}
use srs_simple.Base.Int.{
  ℤ, pos, negsuc, pos_part, neg_part, sub_ℕ, ◌+ℤ◌, ◌-ℤ◌, ltb_ℤ, eqb_ℤ, max_zero,
}
use srs_simple.Kernel.Flv.{Message, is_av}

pub data JitterAlgorithm : Type 0 where
  full zero off : JitterAlgorithm

pub record Jitter : Type 0 where
  pub last_pkt_time : ℤ
  pub last_pkt_correct_time : ℤ

unfoldable pub init : Jitter
init = record { last_pkt_time = pos 0; last_pkt_correct_time = negsuc 0 }

-- CONST_MAX_JITTER_MS and CONST_MAX_JITTER_MS_NEG are 250 and -250, DEFAULT_FRAME_TIME_MS is 10.
unfoldable pub delta : Jitter → ℤ → ℤ
delta j time =
    let d = time -ℤ j.last_pkt_time in
    if ltb_ℤ d (negsuc 249) || ltb_ℤ (pos 250) d then pos 10 else d

unfoldable pub correct_full : Jitter → Message → Jitter × Message
correct_full j msg =
    if is_av msg
    then (let time = max_zero (j.last_pkt_correct_time +ℤ delta j msg.timestamp) in
        (
          record { last_pkt_time = msg.timestamp; last_pkt_correct_time = time },
          record msg { timestamp = time },
        ))
    else (j, record msg { timestamp = pos 0 })

-- With ZERO the field last_pkt_correct_time holds the time of the first message.
unfoldable pub correct_zero : Jitter → Message → Jitter × Message
correct_zero j msg =
    let start =
      if eqb_ℤ j.last_pkt_correct_time (negsuc 0) then msg.timestamp else j.last_pkt_correct_time in
    (record j { last_pkt_correct_time = start }, record msg { timestamp = msg.timestamp -ℤ start })

unfoldable pub correct : Jitter → Message → JitterAlgorithm → Jitter × Message
correct j msg full = correct_full j msg
correct j msg zero = correct_zero j msg
correct j msg off = (j, msg)

unfoldable pub get_time : Jitter → ℤ
get_time j = j.last_pkt_correct_time
