-- ===== src/Kernel/Ts/Cache/Adts.antt =====
-- What a reader of ADTS finds in the audio that SrsTsMessageCache collects
-- (src/kernel/srs_kernel_ts.cpp).
use srs_simple.Base.{
  ℕ, zero, suc, ◌+◌, ◌-◌, ◌*◌, ◌/◌, ◌%◌, ◌≡◌, ◌<◌, ap, ◌∙◌, Bool, ◌&&◌, ◌||◌, leb, ◌==◌,
  if◌then◌else◌, if_cases, List, [], ◌∷◌, ◌++◌, length, take, drop, take-append_length,
  drop-append_length, length-append, Option, none, some, arith,
}
use srs_simple.Kernel.Format.{AudioCodecConfig}
use srs_simple.Kernel.Ts.Cache.{srs_aac_rtmp2ts, adts_header}

-- The header of a frame without a CRC, of 7 bytes, and the frame behind it.
pub record AdtsFrame : Type 0 where
  pub profile : ℕ
  pub sampling_frequency_index : ℕ
  pub channel_configuration : ℕ
  pub raw : List ℕ

unfoldable pub is_sync : ℕ → ℕ → Bool
is_sync a b = a == 255 && (b / 16 == 15 && (b / 2 % 4 == 0 && b % 2 == 1))

-- The length counts the 7 bytes of the header.
unfoldable pub read_raw : ℕ → ℕ → ℕ → ℕ → List ℕ → Option (AdtsFrame × List ℕ)
read_raw profile rate channels frame_length rest =
    if leb 7 frame_length && leb (frame_length - 7) (length rest)
    then some (
      record {
        profile = profile;
        sampling_frequency_index = rate;
        channel_configuration = channels;
        raw = take (frame_length - 7) rest;
      },
      drop (frame_length - 7) rest,
    )
    else none

unfoldable pub read_frame : List ℕ → Option (AdtsFrame × List ℕ)
read_frame (a ∷ b ∷ c ∷ d ∷ e ∷ f ∷ g ∷ rest) =
    if is_sync a b
    then read_raw (c / 64) (c / 4 % 16) (c % 2 * 4 + d / 64) (d % 4 * 2048 + e * 8 + f / 32) rest
    else none
read_frame _ = none

abbrev pub cons_frame : AdtsFrame → Option (List AdtsFrame) → Option (List AdtsFrame)
cons_frame f none = none
cons_frame f (some fs) = some (f ∷ fs)

unfoldable pub after_frame :
    (List ℕ → Option (List AdtsFrame)) → Option (AdtsFrame × List ℕ) → Option (List AdtsFrame)
after_frame more none = none
after_frame more (some (f, rest)) = cons_frame f (more rest)

-- Up to a number of frames, which take all the bytes.
unfoldable pub read_frames : ℕ → List ℕ → Option (List AdtsFrame)
read_frames zero [] = some []
read_frames zero (b ∷ bs) = none
read_frames (suc count) [] = some []
read_frames (suc count) (b ∷ bs) = after_frame (read_frames count) (read_frame (b ∷ bs))

-- The profile of an audio object type (ISO 13818-7, 6.2.1, and 14496-3, 1.5.1): Main, LC and SSR are
-- the types 1 to 3, SBR (5) and PS (29) stand on an LC core, and 3 is reserved.
unfoldable pub profile_of : ℕ → ℕ
profile_of object =
    if object == 5 || object == 29
    then 1
    else (if leb 1 object && leb object 3 then object - 1 else 3)

srs_aac_rtmp2ts-profile_of : (n : ℕ) → srs_aac_rtmp2ts n ≡ profile_of n
unfolding srs_aac_rtmp2ts profile_of
srs_aac_rtmp2ts-profile_of n = ground arith

abbrev pub adts_frame : AudioCodecConfig → List ℕ → AdtsFrame
adts_frame c sample = record {
  profile = profile_of c.aac_object;
  sampling_frequency_index = c.aac_sample_rate;
  channel_configuration = c.aac_channels;
  raw = sample;
}

srs_aac_rtmp2ts-lt : (n : ℕ) → srs_aac_rtmp2ts n < 4
unfolding srs_aac_rtmp2ts
srs_aac_rtmp2ts-lt n = ground arith

read_raw-append :
    (p r c : ℕ) (sample rest : List ℕ)
    → read_raw p r c (length sample + 7) (sample ++ rest)
      ≡ some (
        record {
          profile = p;
          sampling_frequency_index = r;
          channel_configuration = c;
          raw = sample;
        },
        rest,
      )
unfolding read_raw
read_raw-append p r c sample rest =
    if_cases {A = Option (AdtsFrame × List ℕ)} (λ o. o ≡ some (frame sample, rest)) fits _ _
      (λ _.
        ap (λ n. some (frame (take n (sample ++ rest)), drop n (sample ++ rest))) minus
        ∙ (λ i. some (frame (take-append_length sample rest i), drop-append_length sample rest i)))
      (λ e. absurd (ground (arith, e, minus, length-append sample rest)))
  where
    fits : Bool
    fits = leb 7 (length sample + 7) && leb (length sample + 7 - 7) (length (sample ++ rest))

    frame : List ℕ → AdtsFrame
    frame raw = record {
      profile = p;
      sampling_frequency_index = r;
      channel_configuration = c;
      raw = raw;
    }

    minus : length sample + 7 - 7 ≡ length sample
    minus = omega arith

profile_bits : (p r c : ℕ) → p < 4 → (p % 4 * 64 + r % 16 * 4 + c / 4 % 2) / 64 ≡ p
profile_bits p r c h = omega (arith, h)

rate_bits : (p r c : ℕ) → r < 16 → (p % 4 * 64 + r % 16 * 4 + c / 4 % 2) / 4 % 16 ≡ r
rate_bits p r c h = omega (arith, h)

channel_bits :
    (p r c l : ℕ)
    → c < 8
    → (p % 4 * 64 + r % 16 * 4 + c / 4 % 2) % 2 * 4 + (c % 4 * 64 + l / 2048 % 4) / 64 ≡ c
channel_bits p r c l h = omega (arith, h)

length_bits :
    (c l : ℕ)
    → l < 8192
    → (c % 4 * 64 + l / 2048 % 4) % 4 * 2048 + l / 8 % 256 * 8 + (l % 8 * 32 + 31) / 32 ≡ l
length_bits c l h = omega (arith, h)

pub read_frame-header :
    (c : AudioCodecConfig) (sample rest : List ℕ)
    → c.aac_sample_rate < 16
    → c.aac_channels < 8
    → length sample < 8185
    → read_frame (adts_header c (length sample) ++ (sample ++ rest))
      ≡ some (adts_frame c sample, rest)
unfolding read_frame adts_header is_sync
read_frame-header c sample rest r h l =
    (λ i.
      read_raw (profile_bits p c.aac_sample_rate c.aac_channels (srs_aac_rtmp2ts-lt c.aac_object) i)
        (rate_bits p c.aac_sample_rate c.aac_channels r i)
        (channel_bits p c.aac_sample_rate c.aac_channels (length sample + 7) h i)
        (length_bits c.aac_channels (length sample + 7) (omega (arith, l)) i) (sample ++ rest))
    ∙ read_raw-append p c.aac_sample_rate c.aac_channels sample rest
    ∙ ap (λ q. some (record (adts_frame c sample) { profile = q }, rest))
        (srs_aac_rtmp2ts-profile_of c.aac_object)
  where
    p : ℕ
    p = srs_aac_rtmp2ts c.aac_object
