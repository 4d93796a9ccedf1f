-- ===== src/Kernel/Ts/Cache/Audio.antt =====
-- What cache_audio appends, as a reader of ADTS finds it (src/kernel/srs_kernel_ts.cpp,
-- src/kernel/srs_kernel_codec.cpp).
use srs_simple.Base.{
  ℕ, suc, ◌+◌, ◌*◌, ◌/◌, ◌%◌, ◌≡◌, ◌≤◌, ◌<◌, refl, sym, ap, ◌∙◌, if_cases, List, [], ◌∷◌, ◌++◌,
  length, map, append-nil, append_assoc, Option, some, Outcome, ok, arith,
}
use srs_simple.Base.Int.{ℤ}
use srs_simple.Kernel.Ts.{TsMessage}
use srs_simple.Kernel.Format.{AudioCodecConfig, is_aac_codec_ok}
use srs_simple.Kernel.Format.Demux.{audio_aac_sequence_header_demux, check_aac}
use srs_simple.Kernel.Ts.Cache.{
  adts_header, cache_samples, do_cache_aac, audio_message, cache_audio,
}
use srs_simple.Kernel.Ts.Cache.Adts.{
  read_frame, cons_frame, after_frame, read_frames, adts_frame, read_frame-header,
}

-- The samples are not empty, and with their headers their lengths have 13 bits.
abbrev pub AreFrames : List (List ℕ) → Type 0
AreFrames [] = Unit
AreFrames (s ∷ ss) = (0 < length s) × (length s < 8185) × AreFrames ss

-- The bytes that the samples appended, and what a reader finds in them.
abbrev pub Collects :
    AudioCodecConfig → List (List ℕ) → List ℕ → Outcome (Unit {0}) × List ℕ → Type 0
Collects c samples payload o =
    (out : List ℕ) × (o ≡ (ok tt, payload ++ out))
    × (read_frames (length samples) out ≡ some (map (adts_frame c) samples))

read_frames-cons :
    (c : AudioCodecConfig) (count : ℕ) (sample rest : List ℕ)
    → read_frame (adts_header c (length sample) ++ (sample ++ rest))
      ≡ some (adts_frame c sample, rest)
    → read_frames (suc count) ((adts_header c (length sample) ++ sample) ++ rest)
      ≡ cons_frame (adts_frame c sample) (read_frames count rest)
unfolding read_frames after_frame adts_header
read_frames-cons c count sample rest e = ap (after_frame (read_frames count)) e

cache_samples-Collects :
    (c : AudioCodecConfig) (samples : List (List ℕ)) (payload : List ℕ)
    → c.aac_sample_rate < 16
    → c.aac_channels < 8
    → AreFrames samples
    → Collects c samples payload (cache_samples c samples payload)
unfolding cache_samples read_frames
cache_samples-Collects c [] payload r h f =
    ([], ap (λ (l : List ℕ). (ok tt, l)) (sym (append-nil payload)), refl)
cache_samples-Collects c ([] ∷ samples) payload r h f = absurd (omega (arith, f.0))
cache_samples-Collects c ((b ∷ bs) ∷ samples) payload r h f =
    let n =
      cache_samples-Collects c samples (payload ++ (adts_header c (length (b ∷ bs)) ++ (b ∷ bs))) r
        h f.2 in
    (
      (adts_header c (length (b ∷ bs)) ++ (b ∷ bs)) ++ n.0,
      n.1 ∙ (λ i.
          (ok tt, append_assoc payload (adts_header c (length (b ∷ bs)) ++ (b ∷ bs)) n.0 i)),
      read_frames-cons c (length samples) (b ∷ bs) n.0 (read_frame-header c (b ∷ bs) n.0 r h f.1)
          ∙ ap (cons_frame (adts_frame c (b ∷ bs))) n.2,
    )

-- An AudioSpecificConfig (ISO 14496-3): 5 bits of object type, 4 of the sample rate's index, 4 of
-- channels, and 3 more.
abbrev pub specific_config : ℕ → ℕ → ℕ → ℕ → List ℕ
specific_config object rate channels x =
    (object * 8 + rate / 2) ∷ (rate % 2 * 128 + channels * 8 + x) ∷ []

abbrev pub config : AudioCodecConfig → ℕ → ℕ → ℕ → AudioCodecConfig
config codec object rate channels = record codec {
  aac_object = object;
  aac_sample_rate = rate;
  aac_channels = channels;
}

specific_config-read :
    (o r c x : ℕ) (rest : List ℕ) (codec : AudioCodecConfig)
    → 0 < o
    → o < 32
    → r ≤ 12
    → c < 8
    → x < 8
    → audio_aac_sequence_header_demux (specific_config o r c x ++ rest) codec
      ≡ (ok tt, config codec o r c)
unfolding audio_aac_sequence_header_demux check_aac
specific_config-read o r c x rest codec zo ho hr hc hx =
    (λ i. (check_aac (read i), read i))
    ∙ ap (λ (v : Outcome (Unit {0})). (v, config codec o r c)) valid
  where
    object_bits : (o * 8 + r / 2) / 8 % 32 ≡ o
    object_bits = omega (arith, ho, hr)

    index_bits : (o * 8 + r / 2) % 8 * 2 + (r % 2 * 128 + c * 8 + x) / 128 % 2 ≡ r
    index_bits = omega (arith, hr, hc, hx)

    channels_bits : (r % 2 * 128 + c * 8 + x) / 8 % 16 ≡ c
    channels_bits = omega (arith, hc, hx)

    read :
        ◌≡◌ {A = AudioCodecConfig}
          (config codec
            ((o * 8 + r / 2) / 8 % 32)
            ((o * 8 + r / 2) % 8 * 2 + (r % 2 * 128 + c * 8 + x) / 128 % 2)
            ((r % 2 * 128 + c * 8 + x) / 8 % 16))
          (config codec o r c)
    read = λ i. config codec (object_bits i) (index_bits i) (channels_bits i)

    valid : check_aac (config codec o r c) ≡ ok tt
    valid = ground (arith, zo, hr)

-- An AudioSpecificConfig of a type that is not 0, of a sample rate's index up to 12 and of less than
-- 8 channels is read as such, and cache_audio of samples of 1 to 8184 bytes behind it ends without an
-- error: it keeps the times of the audio message that is there, or makes one of the frame's time, and
-- appends bytes to its payload in which a reader of ADTS finds just the samples, each whole, in their
-- order, and with that sample rate, those channels and the profile of the type.
pub cache_audio-frames :
    (o r c x : ℕ) (rest : List ℕ) (codec : AudioCodecConfig) (samples : List (List ℕ)) (dts : ℤ)
    (audio : Option TsMessage)
    → 0 < o
    → o < 32
    → r ≤ 12
    → c < 8
    → x < 8
    → AreFrames samples
    → (audio_aac_sequence_header_demux (specific_config o r c x ++ rest) codec
        ≡ (ok tt, config codec o r c))
      × (out : List ℕ) × (cache_audio (some (config codec o r c)) samples dts audio ≡ (
        ok tt,
        some (record (audio_message dts audio) {
          payload = (audio_message dts audio).payload ++ out;
        }),
      ))
      × (read_frames (length samples) out ≡ some (map (adts_frame (config codec o r c)) samples))
unfolding cache_audio do_cache_aac is_aac_codec_ok
cache_audio-frames o r c x rest codec samples dts audio zo ho hr hc hx f =
    let n = cached in
    (
      specific_config-read o r c x rest codec zo ho hr hc hx,
      n.0,
      ap
          (λ (p : Outcome (Unit {0}) × List ℕ).
            (p.0, some (record (audio_message dts audio) { payload = p.1 })))
          n.1,
      n.2,
    )
  where
    cached :
        Collects
          (config codec o r c)
          samples
          (audio_message dts audio).payload
          (do_cache_aac (some (config codec o r c)) samples (audio_message dts audio).payload)
    cached =
        if_cases {A = Outcome (Unit {0}) × List ℕ}
          (Collects (config codec o r c) samples (audio_message dts audio).payload)
          (is_aac_codec_ok (config codec o r c)) _ _
          (λ _.
            cache_samples-Collects (config codec o r c) samples (audio_message dts audio).payload
              (omega (arith, hr)) hc f)
          (λ e. absurd (ground (arith, e, zo)))
