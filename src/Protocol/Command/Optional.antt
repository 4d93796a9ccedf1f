-- ===== src/Protocol/Command/Optional.antt =====
-- decode of the packets of src/protocol/srs_protocol_rtmp_stack.cpp whose last fields are optional:
-- publish, play and the metadata.
use srs_simple.Base.{
  ℕ, ◌^◌, ◌≡◌, ◌<◌, ◌∙◌, refl, ap, sym, subst, Bool, true, false, not, List, [], ◌++◌, length,
  arith,
}
use srs_simple.Kernel.Buffer.{M, ◌>>=◌, ◌>>◌, pure}
use srs_simple.Kernel.Buffer.Reads.{Reads-bind, Reads-map, Reads-pure}
use srs_simple.Protocol.Amf0.{
  Any, string, boolean, number, null, undefined, object_eof, object, ecma_array,
}
use srs_simple.Protocol.Amf0.Codec.{read_any}
use srs_simple.Protocol.Amf0.Codec.Wire.{wire}
use srs_simple.Protocol.Amf0.Codec.RoundTrip.{Reads-any}
use srs_simple.Protocol.Amf0.Codec.Encodable.{IsEncodable}
use srs_simple.Protocol.Command.{
  publish, play, on_meta_data, play_name, publish_name, on_metadata, set_data_frame, live,
  minus_one, minus_two, has_start, has_duration,
}
use srs_simple.Protocol.Command.Decode.{
  srs_amf0_read_string, srs_amf0_read_number, srs_amf0_read_null, read_type, decode_publish,
  read_number_or, to_reset, read_reset, decode_play, to_metadata, read_metadata,
  skip_set_data_frame, decode_on_meta_data,
}
use srs_simple.Protocol.Command.Wire.{when, wire_play, wire_command}
use srs_simple.Protocol.Command.Ends.{
  Ends, Ends-Reads, Ends-bind, Ends-bind_end, Ends-map, Ends-default, Reads-nonempty,
  Reads-string_new, Reads-string, Reads-number, Ends-call,
}
use srs_simple.Protocol.Command.Read.{Ends-null}

Ends-type :
    (type : List ℕ)
    → 0 < length type
    → length type < 32768
    → Ends read_type (wire (string type)) type
unfolding read_type
Ends-type type p h = Ends-Reads read_type (wire (string type)) (
    Reads-nonempty (srs_amf0_read_string live) live (wire (string type)) (omega arith)
      (Reads-string live type p h))

pub Ends-publish :
    (id : ℕ) (stream_name type : List ℕ)
    → id < 2 ^ 64
    → length stream_name < 32768
    → 0 < length type
    → length type < 32768
    → Ends decode_publish (wire_command (publish id stream_name type)) (publish id stream_name type)
unfolding decode_publish
Ends-publish id stream_name type hid hs p ht =
    Ends-call publish_name id
      (λ t.
        srs_amf0_read_null
        >> (srs_amf0_read_string [] >>= λ s. read_type >>= λ y. pure (publish t s y)))
      _ (omega arith) (omega arith) hid
      (Ends-null (srs_amf0_read_string [] >>= λ s. read_type >>= λ y. pure (publish id s y)) _ (
        Ends-bind (srs_amf0_read_string []) (λ s. read_type >>= λ y. pure (publish id s y))
          (wire (string stream_name)) (wire (string type)) (Reads-string_new stream_name hs)
          (Ends-map read_type (λ y. publish id stream_name y) (wire (string type))
            (Ends-type type p ht))))

-- A number that is left out only where it has its default and nothing follows.
Ends-number_or :
    {A : Type 0} (t : Bool) (d default : ℕ) (f : ℕ → M A) (out : List ℕ) {v : A}
    → d < 2 ^ 64
    → (t ≡ false → (d ≡ default) × (out ≡ []))
    → Ends (f d) out v
    → Ends (read_number_or default >>= f) (when t (number d) ++ out) v
unfolding read_number_or
Ends-number_or true d default f out hd h k =
    Ends-bind (read_number_or default) f (wire (number d)) out
      (Reads-nonempty srs_amf0_read_number default (wire (number d)) (omega arith)
        (Reads-number d hd))
      k
Ends-number_or false d default f out {v} hd h k =
    subst (λ o. Ends (read_number_or default >>= f) o v) (sym (h refl).1)
      (Ends-bind_end (read_number_or default) f (Ends-default srs_amf0_read_number default)
        (subst (λ o. Ends (f default) o v) (h refl).1 (subst (λ x. Ends (f x) out v) (h refl).0 k)))

Ends-reset :
    (fuel : ℕ) (reset : Bool)
    → 2 < fuel
    → Ends (read_reset fuel) (when (not reset) (boolean reset)) reset
unfolding read_reset to_reset
Ends-reset fuel true h = Ends-default (read_any fuel >>= to_reset) true
Ends-reset fuel false h = Ends-Reads (read_reset fuel) (wire (boolean false)) (
    Reads-nonempty (read_any fuel >>= to_reset) true (wire (boolean false)) (omega arith) (
      Reads-bind (read_any fuel) to_reset (wire (boolean false)) []
        (Reads-any (boolean false) fuel tt (omega (arith, h))) (Reads-pure false)))

no_duration :
    (duration : ℕ) (reset : Bool)
    → has_duration duration reset ≡ false
    → (duration ≡ minus_one) × (reset ≡ true)
unfolding has_duration
no_duration duration true h = (ground (arith, h), refl)
no_duration duration false h = absurd (ground (arith, h))

no_start :
    (start duration : ℕ) (reset : Bool)
    → has_start start duration reset ≡ false
    → (start ≡ minus_two) × (has_duration duration reset ≡ false) × (reset ≡ true)
unfolding has_start has_duration
no_start start duration true h = (ground (arith, h), ground (arith, h), refl)
no_start start duration false h = absurd (ground (arith, h))

Ends-wire_play :
    (fuel id : ℕ) (s : List ℕ) (start duration : ℕ) (reset : Bool)
    → start < 2 ^ 64
    → duration < 2 ^ 64
    → 2 < fuel
    → Ends
        (read_number_or minus_two >>= λ a.
          read_number_or minus_one >>= λ d. read_reset fuel >>= λ r. pure (play id s a d r))
        (wire_play start duration reset)
        (play id s start duration reset)
Ends-wire_play fuel id s start duration reset hs hd hf =
    Ends-number_or (has_start start duration reset) start minus_two
      (λ a. read_number_or minus_one >>= λ d. read_reset fuel >>= λ r. pure (play id s a d r)) _ hs
      (λ e.
        let n = no_start start duration reset e in
        (
          n.0,
          ap (λ t. when t (number duration) ++ when (not reset) (boolean reset)) n.1
              ∙ ap (λ t. when (not t) (boolean t)) n.2,
        ))
      (Ends-number_or (has_duration duration reset) duration minus_one
        (λ d. read_reset fuel >>= λ r. pure (play id s start d r))
        (when (not reset) (boolean reset)) hd
        (λ e. let n = no_duration duration reset e in (n.0, ap (λ t. when (not t) (boolean t)) n.1))
        (Ends-map (read_reset fuel) (λ r. play id s start duration r)
          (when (not reset) (boolean reset)) (Ends-reset fuel reset hf)))

pub Ends-play :
    (fuel id : ℕ) (stream_name : List ℕ) (start duration : ℕ) (reset : Bool)
    → id < 2 ^ 64
    → length stream_name < 32768
    → start < 2 ^ 64
    → duration < 2 ^ 64
    → 2 < fuel
    → Ends
        (decode_play fuel)
        (wire_command (play id stream_name start duration reset))
        (play id stream_name start duration reset)
unfolding decode_play
Ends-play fuel id stream_name start duration reset hid hn hs hd hf =
    Ends-call play_name id
      (λ t.
        srs_amf0_read_null
        >> (srs_amf0_read_string [] >>= λ s. read_number_or minus_two >>= λ a.
            read_number_or minus_one >>= λ d. read_reset fuel >>= λ r. pure (play t s a d r)))
      _ (omega arith) (omega arith) hid
      (Ends-null _ _ (
        Ends-bind (srs_amf0_read_string [])
          (λ s. read_number_or minus_two >>= λ a.
            read_number_or minus_one >>= λ d. read_reset fuel >>= λ r. pure (play id s a d r))
          (wire (string stream_name)) (wire_play start duration reset)
          (Reads-string_new stream_name hn)
          (Ends-wire_play fuel id stream_name start duration reset hs hd hf)))

pub wire-nonempty : (v : Any) → 0 < length (wire v)
wire-nonempty (string s) = omega arith
wire-nonempty (boolean t) = omega arith
wire-nonempty (number d) = omega arith
wire-nonempty null = omega arith
wire-nonempty undefined = omega arith
wire-nonempty object_eof = omega arith
wire-nonempty (object ps) = omega arith
wire-nonempty (ecma_array c ps) = omega arith

Ends-metadata :
    (fuel : ℕ) (v : Any)
    → IsEncodable v
    → length (wire v) < fuel
    → Ends (read_metadata fuel) (wire v) (to_metadata v)
unfolding read_metadata
Ends-metadata fuel v h le = Ends-Reads (read_metadata fuel) (wire v) (
    Reads-nonempty (read_any fuel >>= λ any. pure (to_metadata any)) _ (wire v) (wire-nonempty v)
      (Reads-map (read_any fuel) to_metadata (wire v) (Reads-any v fuel h le)))

-- The value behind the name onMetaData.
pub Ends-on_meta_data :
    (fuel : ℕ) (v : Any)
    → IsEncodable v
    → length (wire v) < fuel
    → Ends
        (decode_on_meta_data fuel)
        (wire (string on_metadata) ++ wire v)
        (on_meta_data on_metadata (to_metadata v))
unfolding decode_on_meta_data skip_set_data_frame
Ends-on_meta_data fuel v h le =
    Ends-bind (srs_amf0_read_string on_metadata)
      (λ f. skip_set_data_frame f >>= λ n. read_metadata fuel >>= λ m. pure (on_meta_data n m))
      (wire (string on_metadata)) (wire v)
      (Reads-string on_metadata on_metadata (omega arith) (omega arith))
      (Ends-bind (skip_set_data_frame on_metadata)
        (λ n. read_metadata fuel >>= λ m. pure (on_meta_data n m)) [] (wire v)
        (Reads-pure on_metadata)
        (Ends-map (read_metadata fuel) (λ m. on_meta_data on_metadata m) (wire v)
          (Ends-metadata fuel v h le)))

-- And behind @setDataFrame, as a publisher sends it.
pub Ends-set_data_frame :
    (fuel : ℕ) (v : Any)
    → IsEncodable v
    → length (wire v) < fuel
    → Ends
        (decode_on_meta_data fuel)
        (wire (string set_data_frame) ++ (wire (string on_metadata) ++ wire v))
        (on_meta_data on_metadata (to_metadata v))
unfolding decode_on_meta_data skip_set_data_frame
Ends-set_data_frame fuel v h le =
    Ends-bind (srs_amf0_read_string on_metadata)
      (λ f. skip_set_data_frame f >>= λ n. read_metadata fuel >>= λ m. pure (on_meta_data n m))
      (wire (string set_data_frame)) (wire (string on_metadata) ++ wire v)
      (Reads-string on_metadata set_data_frame (omega arith) (omega arith))
      (Ends-bind (skip_set_data_frame set_data_frame)
        (λ n. read_metadata fuel >>= λ m. pure (on_meta_data n m)) (wire (string on_metadata))
        (wire v) (Reads-string set_data_frame on_metadata (omega arith) (omega arith))
        (Ends-map (read_metadata fuel) (λ m. on_meta_data on_metadata m) (wire v)
          (Ends-metadata fuel v h le)))
