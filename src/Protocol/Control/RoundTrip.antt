-- ===== src/Protocol/Control/RoundTrip.antt =====
-- The control packets of src/protocol/srs_protocol_rtmp_stack.cpp, written and read back.
use srs_simple.Base.{
  ℕ, ◌%◌, ◌^◌, ◌≡◌, ◌<◌, refl, sym, ap, subst, ◌∙◌, Bool, true, false, ◌==◌, le→leb, if◌then◌else◌,
  List, [], ◌++◌, append-nil, drop-ge, length, length-append, replicate, length-replicate, drop, ok,
  err, and_then, arith, error_rtmp_message_decode, error_rtmp_message_encode,
}
use srs_simple.Kernel.Buffer.{
  Buffer, ◌>>=◌, ◌>>◌, pure, init, require_or, read_1bytes, read_2bytes, read_4bytes, write_1bytes,
  write_2bytes, write_4bytes,
}
use srs_simple.Kernel.Buffer.Cursor.{cursor}
use srs_simple.Kernel.Buffer.Writes.{Puts, Puts-seq, Puts-pure, Writes, Writes-last}
use srs_simple.Kernel.Buffer.Bytes.{
  be1, be2, be4, Puts-write_1bytes, Puts-write_2bytes, Puts-write_4bytes,
}
use srs_simple.Kernel.Buffer.Reads.{
  Reads, Reads-bind, Reads-require, Reads-map, Reads-pure, Reads-read_1bytes, Reads-read_2bytes,
  Reads-read_4bytes,
}
use srs_simple.Kernel.Buffer.Ints.{wrap4}
use srs_simple.Protocol.Control.{
  Control, set_chunk_size, acknowledgement, set_window_ack_size, user_control, set_peer_bandwidth,
  get_size, get_message_type, write_4, write_user_control, encode_packet, encode, read_4, widen,
  read_event_data, read_extra_data, decode_user_control, decode,
}

abbrev event_data : ℕ → ℕ → List ℕ
event_data t d = if t == 26 then be1 d else be4 d

abbrev extra_data : ℕ → ℕ → List ℕ
extra_data t x = if t == 3 then be4 x else []

-- The payload of a control packet.
abbrev pub wire : Control → List ℕ
wire (set_chunk_size n) = be4 n
wire (acknowledgement n) = be4 n
wire (set_window_ack_size n) = be4 n
wire (user_control t d x) = be2 t ++ (event_data t d ++ extra_data t x)
wire (set_peer_bandwidth n t) = be4 n ++ be1 t

pub length-wire : (p : Control) → length (wire p) ≡ get_size p
length-wire (set_chunk_size n) = refl
length-wire (acknowledgement n) = refl
length-wire (set_window_ack_size n) = refl
length-wire (set_peer_bandwidth n t) = refl
length-wire (user_control t d x) =
    omega (arith, length-append (event_data t d) (extra_data t x), event, extra)
  where
    event_of : (b : Bool) → length (if b then be1 d else be4 d) ≡ (if b then 1 else 4)
    event_of true = refl
    event_of false = refl

    extra_of : (b : Bool) → length (if b then be4 x else []) ≡ (if b then 4 else 0)
    extra_of true = refl
    extra_of false = refl

    event : length (event_data t d) ≡ (if t == 26 then 1 else 4)
    event = event_of (t == 26)

    extra : length (extra_data t x) ≡ (if t == 3 then 4 else 0)
    extra = extra_of (t == 3)

Puts-user_control :
    (t d x : ℕ) → Puts (write_user_control t d x) (be2 t ++ (event_data t d ++ extra_data t x))
unfolding write_user_control
Puts-user_control t d x =
    Puts-seq (write_2bytes t)
      ((if t == 26 then write_1bytes d else write_4bytes d)
        >> (if t == 3 then write_4bytes x else pure tt))
      (be2 t) (event_data t d ++ extra_data t x) (Puts-write_2bytes t)
      (Puts-seq (if t == 26 then write_1bytes d else write_4bytes d)
        (if t == 3 then write_4bytes x else pure tt) (event_data t d) (extra_data t x)
        (event (t == 26)) (extra (t == 3)))
  where
    event :
        (b : Bool)
        → Puts (if b then write_1bytes d else write_4bytes d) (if b then be1 d else be4 d)
    event true = Puts-write_1bytes d
    event false = Puts-write_4bytes d

    extra : (b : Bool) → Puts (if b then write_4bytes x else pure tt) (if b then be4 x else [])
    extra true = Puts-write_4bytes x
    extra false = Puts-pure

Writes-encode_packet : (p : Control) → Writes error_rtmp_message_encode (encode_packet p) (wire p)
unfolding encode_packet write_4
Writes-encode_packet (set_chunk_size n) =
    Writes-last error_rtmp_message_encode (write_4bytes n) (be4 n) (Puts-write_4bytes n)
Writes-encode_packet (acknowledgement n) =
    Writes-last error_rtmp_message_encode (write_4bytes n) (be4 n) (Puts-write_4bytes n)
Writes-encode_packet (set_window_ack_size n) =
    Writes-last error_rtmp_message_encode (write_4bytes n) (be4 n) (Puts-write_4bytes n)
Writes-encode_packet (set_peer_bandwidth n t) =
    Writes-last error_rtmp_message_encode (write_4bytes n >> write_1bytes t) (be4 n ++ be1 t) (
      Puts-seq (write_4bytes n) (write_1bytes t) (be4 n) (be1 t) (Puts-write_4bytes n)
        (Puts-write_1bytes t))
Writes-encode_packet (user_control t d x) =
    subst
      (λ k.
        Writes error_rtmp_message_encode
          (require_or k error_rtmp_message_encode >> write_user_control t d x)
          (wire (user_control t d x)))
      (length-wire (user_control t d x))
      (Writes-last error_rtmp_message_encode (write_user_control t d x) (wire (user_control t d x))
        (Puts-user_control t d x))

-- encode ends with the payload, of get_size bytes.
pub encode-wire : (p : Control) → encode p ≡ ok (wire p)
unfolding encode init
encode-wire p =
    ap (λ o. and_then o (λ r. ok r.1.bytes)) (Writes-encode_packet p [] (replicate (get_size p) 0))
    ∙ ap
        (λ b.
          and_then {A = Unit {0} × Buffer}
            (if b
              then ok (tt, cursor (wire p) (drop (length (wire p)) memory))
              else err error_rtmp_message_encode)
            (λ r. ok r.1.bytes))
        (le→leb (length (wire p)) (length memory) (omega (arith, room)))
    ∙ ap (λ l. ok (wire p ++ l)) (drop-ge (length (wire p)) memory (omega (arith, room)))
    ∙ ap ok (append-nil (wire p))
  where
    memory : List ℕ
    memory = replicate (get_size p) 0

    room : length memory ≡ length (wire p)
    room = length-replicate {A = ℕ} (get_size p) 0 ∙ sym (length-wire p)

-- The fields that a packet on the wire can have.
abbrev pub IsSendable : Control → Type 0
IsSendable (set_chunk_size n) = n < 4294967296
IsSendable (acknowledgement n) = n < 4294967296
IsSendable (set_window_ack_size n) = n < 4294967296
IsSendable (user_control t d x) =
    (t < 65536)
    × ((if t == 26 then widen (d % 256) else d % 4294967296) ≡ d)
    × ((if t == 3 then x % 4294967296 else 0) ≡ x)
IsSendable (set_peer_bandwidth n t) = ⊥

Reads-read_4 : (n : ℕ) → Reads read_4 (be4 n) (n % 4294967296)
unfolding read_4
Reads-read_4 n = Reads-require 4 error_rtmp_message_decode read_4bytes (be4 n) (omega arith) (
    subst (λ l. Reads read_4bytes l (n % 2 ^ 32)) (wrap4 n)
      (Reads-read_4bytes (n % 2 ^ 32) (omega arith)))

read_4-value : (n : ℕ) → n < 4294967296 → Reads read_4 (be4 n) n
read_4-value n h =
    let e : n % 4294967296 ≡ n = omega (arith, h) in
    subst (λ v. Reads read_4 (be4 n) v) e (Reads-read_4 n)

-- Each part of a user control packet, by whether its type has it.
Reads-event_data :
    (b : Bool) (d : ℕ)
    → (if b then widen (d % 256) else d % 4294967296) ≡ d
    → Reads
        (if b
          then require_or 1 error_rtmp_message_decode >> (read_1bytes >>= λ v. pure (widen v))
          else read_4)
        (if b then be1 d else be4 d)
        d
Reads-event_data true d e =
    subst
      (λ v.
        Reads (require_or 1 error_rtmp_message_decode >> (read_1bytes >>= λ v. pure (widen v)))
          (be1 d) v)
      e
      (Reads-require 1 error_rtmp_message_decode (read_1bytes >>= λ v. pure (widen v)) (be1 d)
        (omega arith) (Reads-map read_1bytes widen (be1 d) (Reads-read_1bytes (d % 256))))
Reads-event_data false d e = subst (λ v. Reads read_4 (be4 d) v) e (Reads-read_4 d)

Reads-extra_data :
    (b : Bool) (x : ℕ)
    → (if b then x % 4294967296 else 0) ≡ x
    → Reads
        (if b then require_or 4 error_rtmp_message_encode >> read_4bytes else pure 0)
        (if b then be4 x else [])
        x
Reads-extra_data true x e =
    subst (λ v. Reads (require_or 4 error_rtmp_message_encode >> read_4bytes) (be4 x) v) e
      (Reads-require 4 error_rtmp_message_encode read_4bytes (be4 x) (omega arith) (
        subst (λ l. Reads read_4bytes l (x % 2 ^ 32)) (wrap4 x)
          (Reads-read_4bytes (x % 2 ^ 32) (omega arith))))
Reads-extra_data false x e = subst (λ v. Reads (pure 0) [] v) e (Reads-pure 0)

Reads-decode_user_control :
    (t d x : ℕ)
    → IsSendable (user_control t d x)
    → Reads decode_user_control (wire (user_control t d x)) (user_control t d x)
unfolding decode_user_control read_event_data read_extra_data
Reads-decode_user_control t d x (ht, hd, hx) =
    Reads-require 2 error_rtmp_message_decode
      (read_2bytes >>= λ u.
        read_event_data u >>= λ e. read_extra_data u >>= λ y. pure (user_control u e y))
      (wire (user_control t d x)) (omega arith)
      (Reads-bind read_2bytes
        (λ u. read_event_data u >>= λ e. read_extra_data u >>= λ y. pure (user_control u e y))
        (be2 t) (event_data t d ++ extra_data t x) (Reads-read_2bytes t ht)
        (Reads-bind (read_event_data t) (λ e. read_extra_data t >>= λ y. pure (user_control t e y))
          (event_data t d) (extra_data t x) (Reads-event_data (t == 26) d hd)
          (Reads-map (read_extra_data t) (λ y. user_control t d y) (extra_data t x)
            (Reads-extra_data (t == 3) x hx))))

-- A packet on the wire is read as itself.
pub Reads-decode : (p : Control) → IsSendable p → Reads (decode (get_message_type p)) (wire p) p
unfolding decode
Reads-decode (set_chunk_size n) h = Reads-map read_4 set_chunk_size (be4 n) (read_4-value n h)
Reads-decode (acknowledgement n) h = Reads-map read_4 acknowledgement (be4 n) (read_4-value n h)
Reads-decode (set_window_ack_size n) h =
    Reads-map read_4 set_window_ack_size (be4 n) (read_4-value n h)
Reads-decode (user_control t d x) h = Reads-decode_user_control t d x h
Reads-decode (set_peer_bandwidth n t) h = absurd h

-- The payload that encode makes, is decoded to the packet.
pub decode-encode :
    (p : Control)
    → IsSendable p
    → (b : Buffer) × (decode (get_message_type p) (init (wire p)) ≡ ok (p, b))
unfolding init
decode-encode p h = (
  cursor (wire p) [],
  subst (λ l. decode (get_message_type p) (cursor [] l) ≡ ok (p, cursor (wire p) []))
      (append-nil (wire p)) (Reads-decode p h [] []),
)
