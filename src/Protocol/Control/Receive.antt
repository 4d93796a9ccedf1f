-- ===== src/Protocol/Control/Receive.antt =====
-- What SrsProtocol::on_recv_message of src/protocol/srs_protocol_rtmp_stack.cpp does with the control
-- packets of its peer.
use srs_simple.Base.{
  ℕ, subst, ltb→lt, ◌≡◌, ◌<◌, ◌≤◌, refl, sym, ap, ◌∙◌, ◌⊎◌, inl, inr, true, false, ◌||◌, ltb, leb,
  if_cases, Bool-cases, List, ◌++◌, Outcome, ok, err, and_then, error_rtmp_chunk_size, arith,
}
use srs_simple.Kernel.Buffer.{Buffer}
use srs_simple.Protocol.Control.{
  Control, set_chunk_size, encode, decode_message, Protocol, on_send_packet, apply, on_packet,
  on_recv_message,
}
use srs_simple.Protocol.Control.RoundTrip.{wire, encode-wire, decode-encode}
use srs_simple.Protocol.Control.Effect.{response_acknowledgement_message-IsAcknowledged}

on_packet-set_chunk_size :
    (fuel n : ℕ) (s : Protocol)
    → n < 4294967296
    → on_packet fuel 1 (wire (set_chunk_size n)) s ≡ apply fuel (set_chunk_size n) s
unfolding on_packet decode_message
on_packet-set_chunk_size fuel n s h =
    ap (λ o. and_then {A = Control × Buffer} o (λ r. apply fuel r.0 s))
      (decode-encode (set_chunk_size n) h).1

-- The receiver takes the size over as the sender does, or it is out of range and refused.
abbrev pub TakesSize : ℕ → Protocol → Outcome (Protocol × List ℕ) → Type 0
TakesSize n sender o =
    ((128 ≤ n)
      × (n < 2147483648)
      × (r : Protocol) × (out : List ℕ) × (o ≡ ok (r, out))
      × (r.in_chunk_size ≡ (on_send_packet (set_chunk_size n) sender).out_chunk_size))
    ⊎ (((n < 128) ⊎ (2147483648 ≤ n)) × (o ≡ err error_rtmp_chunk_size))

abbrev applied : ℕ → ℕ → Protocol → List ℕ → Outcome (Protocol × List ℕ)
applied fuel n s out = and_then (apply fuel (set_chunk_size n) s) (λ b. ok (b.0, out ++ b.1))

out_of_range : (n : ℕ) → (ltb n 128 || leb 2147483648 n) ≡ true → (n < 128) ⊎ (2147483648 ≤ n)
out_of_range n e = elim (Bool-cases (ltb n 128)) [
  | inl l ↦ inl (ltb→lt n 128 l)
  | inr g ↦ inr (ground (arith, e, g))
]

in_range : (n : ℕ) → (ltb n 128 || leb 2147483648 n) ≡ false → (128 ≤ n) × (n < 2147483648)
in_range n e = (ground (arith, e), ground (arith, e))

applied-TakesSize :
    (fuel n : ℕ) (sender s : Protocol) (out : List ℕ) → TakesSize n sender (applied fuel n s out)
unfolding apply on_send_packet
applied-TakesSize fuel n sender s out =
    if_cases {A = Outcome (Protocol × List ℕ)}
      (λ o. TakesSize n sender (and_then o (λ b. ok (b.0, out ++ b.1))))
      (ltb n 128 || leb 2147483648 n) _ _ (λ e. inr (out_of_range n e, refl))
      (λ e. inl ((in_range n e).0, (in_range n e).1, _, _, refl, refl))

-- A peer encodes a SetChunkSize packet of any 32-bit size, and on_recv_message of the receiver, with a
-- positive out_chunk_size and fuel for 4 bytes, either takes over the size that the peer sends with
-- from then on, where that is 128 to 2^31-1, or answers ERROR_RTMP_CHUNK_SIZE, where it is not.
pub on_recv_message-TakesSize :
    (fuel recv_bytes n : ℕ) (sender s : Protocol)
    → n < 4294967296
    → 0 < s.out_chunk_size
    → 4 ≤ fuel
    → (payload : List ℕ) × (encode (set_chunk_size n) ≡ ok payload)
      × TakesSize n sender (on_recv_message fuel recv_bytes 1 payload s)
unfolding on_recv_message on_send_packet apply
on_recv_message-TakesSize fuel recv_bytes n sender s h z f =
    let a = response_acknowledgement_message-IsAcknowledged fuel recv_bytes s z f in
    let e : on_recv_message fuel recv_bytes 1 (wire (set_chunk_size n)) s ≡ applied fuel n a.0 a.1 =
      ap
        (λ o. and_then {A = Protocol × List ℕ} o (λ x.
          and_then {A = Protocol × List ℕ} (on_packet fuel 1 (wire (set_chunk_size n)) x.0)
            (λ b. ok (b.0, x.1 ++ b.1))))
        a.2
      ∙ ap (λ o. and_then {A = Protocol × List ℕ} o (λ b. ok (b.0, a.1 ++ b.1)))
          (on_packet-set_chunk_size fuel n a.0 h) in
    (
      wire (set_chunk_size n),
      encode-wire (set_chunk_size n),
      subst (TakesSize n sender) (sym e) (applied-TakesSize fuel n sender a.0 a.1),
    )
