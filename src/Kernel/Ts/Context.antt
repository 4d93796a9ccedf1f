-- ===== src/Kernel/Ts/Context.antt =====
-- src/kernel/srs_kernel_ts.cpp: SrsTsContext, the program tables in front of the PES packets, their
-- CRC, and SrsTsContextWriter. A codec id is its number: 7 is AVC, 10 is AAC, and 0 none.
pub mod Tables
use srs_simple.Base.{
  ℕ, zero, suc, ◌+◌, ◌-◌, ◌*◌, ◌/◌, ◌%◌, Bool, true, false, ◌&&◌, ◌||◌, not, ltb, leb, ◌==◌,
  if◌then◌else◌, List, [], ◌∷◌, ◌++◌, length, replicate, Outcome, ok, err, aborted, fault, stuck,
  ErrorCode,
}
use srs_simple.Kernel.Buffer.Bytes.{be4}
use srs_simple.Kernel.Ts.{
  TsMessage, Channel, channel, counter, set_counter, is_audio, after_write, encode_pes,
}

pub record Context : Type 0 where
  pub vcodec : ℕ
  pub acodec : ℕ
  pub pids : List Channel

-- The exclusive or of the low bits.
unfoldable pub xor : ℕ → ℕ → ℕ → ℕ
xor zero a b = 0
xor (suc width) a b = (a + b) % 2 + 2 * xor width (a / 2) (b / 2)

unfoldable pub crc_bit : ℕ → ℕ
crc_bit crc = xor 32 (crc * 2 % 4294967296) (if crc / 2147483648 % 2 == 1 then 79764919 else 0)

unfoldable pub crc_bits : ℕ → ℕ → ℕ
crc_bits zero crc = crc
crc_bits (suc n) crc = crc_bits n (crc_bit crc)

unfoldable pub crc_bytes : ℕ → List ℕ → ℕ
crc_bytes crc [] = crc
crc_bytes crc (b ∷ bs) = crc_bytes (crc_bits 8 (xor 32 crc (b * 16777216))) bs

unfoldable pub crc32_mpegts : List ℕ → ℕ
crc32_mpegts bs = crc_bytes 4294967295 bs

-- A packet with one section, its CRC, and bytes 0xff to the end.
unfoldable pub section_packet : ℕ → ℕ → List ℕ → List ℕ
section_packet pid cc section =
    71
    ∷ (64 + pid / 256 % 32)
    ∷ (pid % 256)
    ∷ (16 + cc % 16)
    ∷ 0
    ∷ (section ++ (be4 (crc32_mpegts section) ++ replicate (179 - length section) 255))

unfoldable pub pat_section : List ℕ
pat_section = 0 ∷ 176 ∷ 13 ∷ 0 ∷ 1 ∷ 193 ∷ 0 ∷ 0 ∷ 0 ∷ 1 ∷ 240 ∷ 1 ∷ []

unfoldable pub stream_info : Bool → ℕ → ℕ → List ℕ
stream_info present stream pid =
    if present then stream ∷ (224 + pid / 256 % 32) ∷ (pid % 256) ∷ 240 ∷ 0 ∷ [] else []

unfoldable pub pmt_section : Bool → Bool → ℕ → ℕ → ℕ → ℕ → List ℕ
pmt_section has_video has_audio vpid vstream apid astream =
    let n = 9 + 5 * ((if has_video then 1 else 0) + (if has_audio then 1 else 0)) + 4 in
    let pcr_pid = if has_video then vpid else apid in
    2
    ∷ (176 + n / 256 % 16)
    ∷ (n % 256)
    ∷ 0
    ∷ 1
    ∷ 193
    ∷ 0
    ∷ 0
    ∷ (224 + pcr_pid / 256 % 32)
    ∷ (pcr_pid % 256)
    ∷ 240
    ∷ 0
    ∷ (stream_info has_video vstream vpid ++ stream_info has_audio astream apid)

-- The counter of a channel goes up with each of its packets.
unfoldable pub bump : ℕ → List Channel → List Channel
bump pid pids = let cs = channel pid 0 pids in set_counter pid ((counter pid cs + 1) % 256) cs

unfoldable pub reset : Context → Context
reset c = record c { vcodec = 0; acodec = 0 }

module _ {W : Type 0} (write : W → List ℕ → Outcome (Unit {0}) × W) where
  abbrev pub Result : Type 0
  Result = Outcome (Unit {0}) × Context × W

  unfoldable pub and_then_in : (Context → W → Result) → Result → Result
  and_then_in next (ok x, c, w) = next c w
  and_then_in next (err e, c, w) = (err e, c, w)
  and_then_in next (aborted, c, w) = (aborted, c, w)
  and_then_in next (fault, c, w) = (fault, c, w)
  and_then_in next (stuck, c, w) = (stuck, c, w)

  -- The write of the packet of a section.
  unfoldable pub write_section : ℕ → List ℕ → Context → W → Result
  write_section pid section c w =
      let r : Outcome (Unit {0}) × W =
        write w (section_packet pid (counter pid (channel pid 0 c.pids)) section) in
      (r.0, record c { pids = bump pid c.pids }, r.1)

  unfoldable pub encode_pat_pmt : ℕ → ℕ → ℕ → ℕ → Context → W → Result
  encode_pat_pmt vpid vstream apid astream c w =
      if not (c.vcodec == 7) && not (c.acodec == 10)
      then (err ErrorCode.error_hls_decode_error, c, w)
      else and_then_in
          (write_section 4097
            (pmt_section (c.vcodec == 7) (c.acodec == 10) vpid vstream apid astream))
          (write_section 0 pat_section c w)

  -- The tables, where the codecs are not those of the packets before.
  unfoldable pub encode_tables : ℕ → ℕ → Context → W → Result
  encode_tables vc ac c w =
      if not (c.vcodec == vc) || not (c.acodec == ac)
      then encode_pat_pmt 256 27 257 15 (record c { vcodec = vc; acodec = ac }) w
      else (ok tt, c, w)

  -- A stream without video has its clock in the audio.
  unfoldable pub with_pcr : Context → TsMessage → TsMessage
  with_pcr c m = if not (c.vcodec == 7) && is_audio m then record m { write_pcr = true } else m

  unfoldable pub encode_message : ℕ → TsMessage → Context → W → Result
  encode_message fuel m c w =
      let r : Outcome (Unit {0}) × List Channel × W =
        encode_pes write fuel c.pids (with_pcr c m) (if is_audio m then 257 else 256) w in
      (r.0, record c { pids = r.1 }, r.2)

  unfoldable pub encode : ℕ → TsMessage → ℕ → ℕ → Context → W → Result
  encode fuel m vc ac c w = and_then_in (encode_message fuel m) (encode_tables vc ac c w)
