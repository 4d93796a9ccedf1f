-- ===== src/Kernel/Ts/RoundTrip.antt =====
-- What a receiver reads from the packets of SrsTsContext::encode_pes (src/kernel/srs_kernel_ts.cpp).
use srs_simple.Base.{
  ℕ, zero, suc, ◌+◌, ◌%◌, ◌≡◌, ◌≤◌, ◌<◌, refl, sym, ap, ◌∙◌, Bool, true, false, ◌==◌, if◌then◌else◌,
  if_cases, List, [], ◌∷◌, ◌++◌, length, length-append, Option, none, some, Outcome, ok, arith,
}
use srs_simple.Kernel.Ts.{
  TsMessage, Channel, channel, counter, set_counter, is_audio, pes_bytes, after_write, after_packet,
  write_packets, encode_pes,
}
use srs_simple.Kernel.Ts.Packet.{unpack, ts_packet-IsPacket}
use srs_simple.Kernel.Ts.Times.{read_pes, pes_fields, read_pes-bytes}

abbrev join : Option (List ℕ) → Option (List ℕ) → Option (List ℕ)
join none o = none
join (some x) none = none
join (some x) (some y) = some (x ++ y)

-- The payloads of packets in a row: the first one starts a PES packet, and the counters are
-- consecutive modulo 16.
unfoldable pub demux : ℕ → ℕ → Bool → List (List ℕ) → Option (List ℕ)
demux pid count first [] = some []
demux pid count first (p ∷ ps) =
    join (unpack pid count first p) (demux pid ((count + 1) % 256) false ps)

module _ {W : Type 0} (write : W → List ℕ → Outcome (Unit {0}) × W) where
  -- The packets go to the writer in their order, up to the first that it refuses; each takes a
  -- counter.
  unfoldable pub send : List (List ℕ) → ℕ → W → Outcome (Unit {0}) × ℕ × W
  send [] count w = (ok tt, count, w)
  send (p ∷ ps) count w =
      after_write write (λ w'. send ps ((count + 1) % 256) w') ((count + 1) % 256) (write w p).0
        (write w p).1

  -- The packets of bytes: the loop sends them, and a receiver reads them as the bytes.
  record IsSent (fuel : ℕ) (m : TsMessage) (pid count : ℕ) (first : Bool) (bytes : List ℕ)
      : Type 0 where
    packets : List (List ℕ)
    sent : (w : W) → write_packets write fuel m pid first bytes count w ≡ send packets count w
    demuxed : demux pid count first packets ≡ some bytes

  write_packets-IsSent :
      (fuel : ℕ) (m : TsMessage) (pid count : ℕ) (first : Bool) (bytes : List ℕ)
      → pid < 8192
      → length bytes ≤ fuel
      → IsSent fuel m pid count first bytes
  unfolding write_packets send demux after_packet
  write_packets-IsSent fuel m pid count first [] p h = record {
    packets = [];
    sent = λ w. refl;
    demuxed = refl;
  }
  write_packets-IsSent zero m pid count first (b ∷ bs) p h = absurd (omega (arith, h))
  write_packets-IsSent (suc fuel) m pid count first (b ∷ bs) p h =
      let k = ts_packet-IsPacket m pid count first (b ∷ bs) p (omega arith) in
      let i = k.3 in
      let less : length k.1 ≤ fuel =
        omega (arith, h, ap length i.split, length-append i.body k.1, i.some_byte) in
      let r = write_packets-IsSent fuel m pid ((count + 1) % 256) false k.1 p less in
      record {
        packets = k.0 ∷ r.packets;
        sent = λ w.
            ap
              (after_packet write
                (λ left w'. write_packets write fuel m pid false left ((count + 1) % 256) w') count
                w)
              k.2
            ∙ (λ j.
                after_write write (λ w'. r.sent w' j) ((count + 1) % 256) (write w k.0).0
                  (write w k.0).1);
        demuxed =
            ap (λ o. join o (demux pid ((count + 1) % 256) false r.packets)) i.unpacked
            ∙ ap (λ o. join (some i.body) o) r.demuxed
            ∙ ap some (sym i.split);
      }

  -- What encode_pes does to the channels and the writer.
  abbrev pub Sends :
      List (List ℕ) → List Channel → ℕ → W → Outcome (Unit {0}) × List Channel × W → Type 0
  Sends packets pids pid w o =
      (o.0 ≡ (send packets (counter pid pids) w).0)
      × (o.1 ≡ set_counter pid (send packets (counter pid pids) w).1 pids)
      × (o.2 ≡ (send packets (counter pid pids) w).2)

  -- encode_pes of a message with a payload, on a pid below 8192 and with fuel for its bytes, hands
  -- packets to the writer that a receiver, which takes just packets of 188 bytes with consecutive
  -- counters from that of the channel on, joins to one PES packet. Its length field is 0 or right,
  -- and it has the stream id, the times cut to 33 bits, and the payload of the message, whole and in
  -- its order. encode_pes ends, with the writer's result, and accesses nothing outside the packets or
  -- the PES packet; the channel's counter counts the packets.
  pub encode_pes-received :
      (fuel : ℕ) (pids : List Channel) (m : TsMessage) (pid : ℕ) (w : W)
      → pid < 8192
      → 0 < length m.payload
      → length (pes_bytes m) ≤ fuel
      → (packets : List (List ℕ)) × (bytes : List ℕ) × Sends packets
          (channel pid (if is_audio m then 15 else 27) pids)
          pid
          w
          (encode_pes write fuel pids m pid w)
        × (demux pid (counter pid (channel pid (if is_audio m then 15 else 27) pids)) true packets
            ≡ some bytes)
        × (read_pes bytes ≡ some (pes_fields m))
  unfolding encode_pes
  encode_pes-received fuel pids m pid w p h f = (
    r.packets,
    pes_bytes m,
    if_cases {A = Outcome (Unit {0}) × List Channel × W} (Sends r.packets cs pid w)
        (length m.payload == 0) _ _ (λ e. absurd (ground (arith, e, h)))
        (λ _.
          let s = r.sent w in
          (
            ap (λ (o : Outcome (Unit {0}) × ℕ × W). o.0) s,
            ap (λ (o : Outcome (Unit {0}) × ℕ × W). set_counter pid o.1 cs) s,
            ap (λ (o : Outcome (Unit {0}) × ℕ × W). o.2) s,
          )),
    r.demuxed,
    read_pes-bytes m,
  )
    where
      cs : List Channel
      cs = channel pid (if is_audio m then 15 else 27) pids

      r : IsSent fuel m pid (counter pid cs) true (pes_bytes m)
      r = write_packets-IsSent fuel m pid (counter pid cs) true (pes_bytes m) p f
