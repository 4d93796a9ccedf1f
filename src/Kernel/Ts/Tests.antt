-- ===== src/Kernel/Ts/Tests.antt =====
-- The claims about src/kernel/srs_kernel_ts.cpp, at concrete inputs: 200 bytes of audio with a clock,
-- behind three packets of that channel, to a writer that keeps the packets.
use srs_simple.Base.{
  ℕ, ◌≡◌, arith, List, [], ◌∷◌, ◌++◌, replicate, length-replicate, Outcome, ok, some, true,
  if◌then◌else◌,
}
use srs_simple.Base.Int.{pos}
use srs_simple.Kernel.Ts.{
  TsMessage, Channel, channel, counter, is_audio, encode_pes, pes_bytes, pes_times, encode_33bits,
}
use srs_simple.Kernel.Ts.Times.{read_pes, pes_fields}
use srs_simple.Kernel.Ts.Context.{Context}
use srs_simple.Kernel.Ts.RoundTrip.{demux, Sends, encode_pes-received}

abbrev keep : List (List ℕ) → List ℕ → Outcome (Unit {0}) × List (List ℕ)
keep w p = (ok tt, w ++ (p ∷ []))

abbrev sound : TsMessage
sound = record {
  dts = pos 9000;
  pts = pos 9000;
  sid = 192;
  write_pcr = true;
  payload = replicate 200 7;
}

abbrev channels : List Channel
channels = record { pid = 257; stream = 15; continuity_counter = 3 } ∷ []

encode_pes-received_example :
    (packets : List (List ℕ)) × (bytes : List ℕ) × Sends keep packets
      (channel 257 (if is_audio sound then 15 else 27) channels)
      257
      []
      (encode_pes keep 300 channels sound 257 [])
    × (demux 257
          (counter 257 (channel 257 (if is_audio sound then 15 else 27) channels))
          true
          packets
        ≡ some bytes)
    × (read_pes bytes ≡ some (pes_fields sound))
unfolding pes_bytes pes_times encode_33bits
encode_pes-received_example =
    encode_pes-received keep 300 channels sound 257 [] (omega arith)
      (omega (arith, length-replicate {A = ℕ} 200 7))
      (omega (arith, length-replicate {A = ℕ} 200 7))

abbrev fresh : Context
fresh = record { vcodec = 7; acodec = 10; pids = channels }
