-- ===== src/Kernel/Format.antt =====
-- SrsFormat of src/kernel/srs_kernel_codec.cpp, which reads the codec of a stream and the samples of
-- each frame out of the payloads of FLV tags: its state, and how its operations pass it on. A sample
-- is its bytes; nb_samples is the length of the samples. A pointer into the payload is the bytes
-- behind it.
pub mod Sps
pub mod Avc
pub mod Demux
pub mod Rules
pub mod Parses
use srs_simple.Base.{
  ℕ, ◌+◌, ◌*◌, ◌/◌, ◌%◌, Bool, not, ltb, leb, ◌==◌, if◌then◌else◌, List, [], ◌∷◌, ◌++◌, length,
  take, drop, Option, Outcome, ok, err, aborted, fault, stuck, ErrorCode,
}
use srs_simple.Base.Int.{ℤ}
use srs_simple.Kernel.Buffer.{Buffer, M}

pub record AudioCodecConfig : Type 0 where
  pub id : ℕ
  pub aac_extra_data : List ℕ
  pub aac_object : ℕ
  pub aac_sample_rate : ℕ
  pub aac_channels : ℕ

unfoldable pub new_audio_codec : AudioCodecConfig
new_audio_codec = record {
  id = 0;
  aac_extra_data = [];
  aac_object = 0;
  aac_sample_rate = 0;
  aac_channels = 0;
}

unfoldable pub is_aac_codec_ok : AudioCodecConfig → Bool
is_aac_codec_ok c = not (c.aac_object == 0)

-- The width and the height are int32_t.
pub record VideoCodecConfig : Type 0 where
  pub id : ℕ
  pub width : ℕ
  pub height : ℕ
  pub avc_extra_data : List ℕ
  pub nal_unit_length : ℕ
  pub sequence_parameter_set : List ℕ
  pub picture_parameter_set : List ℕ

unfoldable pub new_video_codec : VideoCodecConfig
new_video_codec = record {
  id = 0;
  width = 0;
  height = 0;
  avc_extra_data = [];
  nal_unit_length = 0;
  sequence_parameter_set = [];
  picture_parameter_set = [];
}

unfoldable pub is_avc_codec_ok : VideoCodecConfig → Bool
is_avc_codec_ok c = ltb 0 (length c.sequence_parameter_set)

pub record AudioFrame : Type 0 where
  pub dts : ℤ
  pub cts : ℤ
  pub samples : List (List ℕ)
  pub aac_packet_type : ℕ

unfoldable pub new_audio_frame : AudioFrame
new_audio_frame = record { dts = ℤ.pos 0; cts = ℤ.pos 0; samples = []; aac_packet_type = 0 }

pub record VideoFrame : Type 0 where
  pub dts : ℤ
  pub cts : ℤ
  pub samples : List (List ℕ)
  pub frame_type : ℕ
  pub avc_packet_type : ℕ
  pub has_idr : Bool

unfoldable pub new_video_frame : VideoFrame
new_video_frame = record {
  dts = ℤ.pos 0;
  cts = ℤ.pos 0;
  samples = [];
  frame_type = 0;
  avc_packet_type = 0;
  has_idr = Bool.false;
}

unfoldable pub add_sample : List ℕ → List (List ℕ) → Outcome (List (List ℕ))
add_sample sample samples =
    if leb 256 (length samples)
    then err ErrorCode.error_hls_decode_error
    else ok (samples ++ (sample ∷ []))

pub record Format : Type 0 where
  pub audio : Option AudioFrame
  pub video : Option VideoFrame
  pub acodec : Option AudioCodecConfig
  pub vcodec : Option VideoCodecConfig
  pub raw : List ℕ

-- What a parser of one message works on, which it keeps also where it fails.
pub record AudioParser : Type 0 where
  pub frame : AudioFrame
  pub codec : AudioCodecConfig
  pub raw : List ℕ

pub record VideoParser : Type 0 where
  pub frame : VideoFrame
  pub codec : VideoCodecConfig
  pub raw : List ℕ

abbrev pub Parser : Type 0 → Type 0 → Type 0
Parser S A = S → Buffer → Outcome (A × Buffer) × S

module _ {S : Type 0} where
  -- The rest of a parser behind what came before it.
  abbrev pub after :
      {A B : Type 0} → (A → Parser S B) → Outcome (A × Buffer) → S → Outcome (B × Buffer) × S
  after f (ok (a, b)) s = f a s b
  after f (err e) s = (err e, s)
  after f aborted s = (aborted, s)
  after f fault s = (fault, s)
  after f stuck s = (stuck, s)

  infixl 5 ◌>>=◌ ◌>>◌
  abbrev pub ◌>>=◌ : {A B : Type 0} → Parser S A → (A → Parser S B) → Parser S B
  ◌>>=◌ m f s b = after f (m s b).0 (m s b).1

  abbrev pub ◌>>◌ : {B : Type 0} → Parser S (Unit {0}) → Parser S B → Parser S B
  m >> k = m >>= λ _. k

  abbrev pub pure : {A : Type 0} → A → Parser S A
  pure a s b = (ok (a, b), s)

  -- An operation of the buffer.
  abbrev pub lift : {A : Type 0} → M A → Parser S A
  lift m s b = (m b, s)

  abbrev pub modify : (S → S) → Parser S (Unit {0})
  modify f s b = (ok (tt, b), f s)

  abbrev pub get : Parser S S
  get s b = (ok (s, b), s)

-- The bytes from head() on, and n bytes from there, which must be inside the buffer.
unfoldable pub head_left : M (List ℕ)
head_left b = ok (drop b.p b.bytes, b)

unfoldable pub head_bytes : ℕ → M (List ℕ)
head_bytes n b = if leb (b.p + n) (length b.bytes) then ok (take n (drop b.p b.bytes), b) else fault
