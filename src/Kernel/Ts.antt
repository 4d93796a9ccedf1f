-- ===== src/Kernel/Ts.antt =====
-- src/kernel/srs_kernel_ts.cpp: SrsTsContext::encode_pes, which cuts a PES packet into TS packets.
-- The ISrsWriter is a parameter: a state and a write of bytes. A channel is found by its pid; the
-- continuity counter is a uint8_t.
pub mod Packet
pub mod Times
pub mod RoundTrip
pub mod Context
pub mod Cache
mod Tests
use srs_simple.Base.{
  ℕ, zero, suc, ◌+◌, ◌-◌, ◌*◌, ◌/◌, ◌%◌, ◌^◌, Bool, true, false, ◌&&◌, ◌||◌, ltb, leb, ◌==◌,
  if◌then◌else◌, List, [], ◌∷◌, ◌++◌, length, take, drop, replicate, Outcome, ok, err, aborted,
  fault, stuck,
}
use srs_simple.Base.Int.{ℤ, eqb_ℤ}

pub record TsMessage : Type 0 where
  pub dts : ℤ
  pub pts : ℤ
  pub sid : ℕ
  pub write_pcr : Bool
  pub payload : List ℕ

unfoldable pub is_audio : TsMessage → Bool
is_audio m = m.sid / 32 % 8 == 6

unfoldable pub is_video : TsMessage → Bool
is_video m = m.sid / 16 % 16 == 14

pub record Channel : Type 0 where
  pub pid : ℕ
  pub stream : ℕ
  pub continuity_counter : ℕ

-- SrsTsContext::channel: the channel of a pid, made where there is none.
unfoldable pub channel : ℕ → ℕ → List Channel → List Channel
channel pid stream [] = record { pid = pid; stream = stream; continuity_counter = 0 } ∷ []
channel pid stream (c ∷ cs) = if c.pid == pid then c ∷ cs else c ∷ channel pid stream cs

unfoldable pub counter : ℕ → List Channel → ℕ
counter pid [] = 0
counter pid (c ∷ cs) = if c.pid == pid then c.continuity_counter else counter pid cs

unfoldable pub set_counter : ℕ → ℕ → List Channel → List Channel
set_counter pid v [] = []
set_counter pid v (c ∷ cs) =
    if c.pid == pid then record c { continuity_counter = v } ∷ cs else c ∷ set_counter pid v cs

-- v & 0x1ffffffff of an int64_t.
unfoldable pub low_33bits : ℤ → ℕ
low_33bits (ℤ.pos n) = n % 8589934592
low_33bits (ℤ.negsuc n) = 8589934591 - n % 8589934592

unfoldable pub encode_33bits : ℕ → ℕ → List ℕ
encode_33bits fb v =
    (fb % 16 * 16 + v / 1073741824 % 8 * 2 + 1)
    ∷ (v / 4194304 % 256)
    ∷ (v / 32768 % 128 * 2 + 1)
    ∷ (v / 128 % 256)
    ∷ (v % 128 * 2 + 1)
    ∷ []

-- The start code, the stream id, the length, the flags, and the times.
unfoldable pub pes_times : TsMessage → List ℕ
pes_times m =
    if eqb_ℤ m.dts m.pts
    then 128 ∷ 128 ∷ 5 ∷ encode_33bits 2 (low_33bits m.pts)
    else 128 ∷ 192 ∷ 10 ∷ (encode_33bits 3 (low_33bits m.pts) ++ encode_33bits 1 (low_33bits m.dts))

-- The length of what is behind it, or 0 where that has no 16 bits.
unfoldable pub pes_packet_length : TsMessage → ℕ
pes_packet_length m =
    let n = 3 + (if eqb_ℤ m.dts m.pts then 5 else 10) + length m.payload in
    if ltb 65535 n then 0 else n

unfoldable pub pes_bytes : TsMessage → List ℕ
pes_bytes m =
    0
    ∷ 0
    ∷ 1
    ∷ (m.sid % 256)
    ∷ (pes_packet_length m / 256 % 256)
    ∷ (pes_packet_length m % 256)
    ∷ (pes_times m ++ m.payload)

unfoldable pub af_size : Bool → ℕ → ℕ
af_size write_pcr left =
    let a = if write_pcr then 8 else 0 in if ltb left (184 - a) then 184 - left else a

unfoldable pub pcr_bytes : ℕ → List ℕ
pcr_bytes pcr =
    (pcr / 33554432 % 256)
    ∷ (pcr / 131072 % 256)
    ∷ (pcr / 512 % 256)
    ∷ (pcr / 2 % 256)
    ∷ (pcr % 2 * 128 + 126)
    ∷ 0
    ∷ []

-- The flags, the clock, and the bytes 0xff up to the size.
unfoldable pub adaptation : TsMessage → Bool → ℕ → List ℕ
adaptation m write_pcr af =
    if af == 0
    then []
    else (if af == 1
        then 0 ∷ []
        else (if write_pcr
            then (af - 1)
              ∷ (16 + (if is_video m then 64 else 0))
              ∷ (pcr_bytes (low_33bits m.dts) ++ replicate (af - 8) 255)
            else (af - 1) ∷ 0 ∷ replicate (af - 2) 255))

unfoldable pub packet_header : ℕ → ℕ → Bool → ℕ → List ℕ
packet_header pid cc first af =
    71
    ∷ ((if first then 64 else 0) + pid / 256 % 32)
    ∷ (pid % 256)
    ∷ ((if ltb 0 af then 48 else 16) + cc % 16)
    ∷ []

-- One packet and what is left of the PES packet. The copy fills the packet from it.
unfoldable pub ts_packet : TsMessage → ℕ → ℕ → Bool → List ℕ → Outcome (List ℕ × List ℕ)
ts_packet m pid cc first rest =
    let write_pcr = first && m.write_pcr in
    let af = af_size write_pcr (length rest) in
    let a : List ℕ = adaptation m write_pcr af in
    if ltb 184 (length a) || ltb (length rest) (184 - length a)
    then fault
    else ok (
      packet_header pid cc first af ++ (a ++ take (184 - length a) rest),
      drop (184 - length a) rest,
    )

module _ {W : Type 0} (write : W → List ℕ → Outcome (Unit {0}) × W) where
  -- Behind the write of a packet, the rest of the loop.
  unfoldable pub after_write :
      (W → Outcome (Unit {0}) × ℕ × W) → ℕ → Outcome (Unit {0}) → W → Outcome (Unit {0}) × ℕ × W
  after_write rest cc (ok x) w = rest w
  after_write rest cc (err e) w = (err e, cc, w)
  after_write rest cc aborted w = (aborted, cc, w)
  after_write rest cc fault w = (fault, cc, w)
  after_write rest cc stuck w = (stuck, cc, w)

  unfoldable pub after_packet :
      (List ℕ → W → Outcome (Unit {0}) × ℕ × W)
      → ℕ
      → W
      → Outcome (List ℕ × List ℕ)
      → Outcome (Unit {0}) × ℕ × W
  after_packet rest cc w (ok (pkt, left)) =
      after_write (rest left) ((cc + 1) % 256) (write w pkt).0 (write w pkt).1
  after_packet rest cc w (err e) = (err e, cc, w)
  after_packet rest cc w aborted = (aborted, cc, w)
  after_packet rest cc w fault = (fault, cc, w)
  after_packet rest cc w stuck = (stuck, cc, w)

  -- The loop over the packets; each takes a byte at least, so the length of the bytes is fuel enough.
  unfoldable pub write_packets :
      ℕ → TsMessage → ℕ → Bool → List ℕ → ℕ → W → Outcome (Unit {0}) × ℕ × W
  write_packets fuel m pid first [] cc w = (ok tt, cc, w)
  write_packets zero m pid first (b ∷ bs) cc w = (stuck, cc, w)
  write_packets (suc fuel) m pid first (b ∷ bs) cc w =
      after_packet (λ left w'. write_packets fuel m pid false left ((cc + 1) % 256) w') cc w
        (ts_packet m pid cc first (b ∷ bs))

  unfoldable pub encode_pes :
      ℕ → List Channel → TsMessage → ℕ → W → Outcome (Unit {0}) × List Channel × W
  encode_pes fuel pids m pid w =
      if length m.payload == 0
      then (ok tt, pids, w)
      else (let cs : List Channel = channel pid (if is_audio m then 15 else 27) pids in
          let r : Outcome (Unit {0}) × ℕ × W =
            write_packets fuel m pid true (pes_bytes m) (counter pid cs) w in
          (r.0, set_counter pid r.1 cs, r.2))
