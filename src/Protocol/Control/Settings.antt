-- ===== src/Protocol/Control/Settings.antt =====
-- What a control packet sets at the receiver, by recv_message of
-- src/protocol/srs_protocol_rtmp_stack.cpp.
use srs_simple.Base.{
  ℕ, ◌%◌, ◌≡◌, ◌⊎◌, ◌<◌, ◌≤◌, refl, sym, ap, subst, ◌∙◌, true, false, ◌||◌, ◌&&◌, ◌==◌, ltb, leb,
  if◌then◌else◌, if_cases, List, [], ◌++◌, length, Outcome, ok, and_then, arith, inl, inr,
  Bool-cases,
}
use srs_simple.Kernel.Buffer.{Buffer}
use srs_simple.Kernel.Buffer.Reads.{Reads}
use srs_simple.Protocol.Chunk.{ChunkStream, CommonMessage}
use srs_simple.Protocol.Control.{
  Control, set_chunk_size, acknowledgement, set_window_ack_size, user_control, set_peer_bandwidth,
  get_size, get_message_type, decode_message, send_packet, widen, Protocol, apply, on_packet,
  response_acknowledgement_message, on_recv_message,
}
use srs_simple.Protocol.Control.RoundTrip.{wire, length-wire, IsSendable, decode-encode}
use srs_simple.Protocol.Control.Effect.{
  Arrives, IsAnswer, settings, size_bounds, send_packet-Arrives,
  response_acknowledgement_message-settings,
}
use srs_simple.Protocol.Control.Delivery.{recv_message, Reads-recv_message}

-- What a packet sets.
unfoldable pub setting : Control → ℕ × ℕ × ℕ → ℕ × ℕ × ℕ
setting (set_chunk_size n) (size, window, buffer) = (n, window, buffer)
setting (acknowledgement n) old = old
setting (set_window_ack_size n) (size, window, buffer) =
    (size, if ltb 0 n && ltb n 2147483648 then n else window, buffer)
setting (user_control t d x) (size, window, buffer) = (size, window, if t == 3 then x else buffer)
setting (set_peer_bandwidth n t) old = old

-- A chunk size that a peer may set.
unfoldable pub IsAcceptable : Control → Type 0
IsAcceptable (set_chunk_size n) = (128 ≤ n) × (n < 2147483648)
IsAcceptable (acknowledgement n) = Unit
IsAcceptable (set_window_ack_size n) = Unit
IsAcceptable (user_control t d x) = Unit
IsAcceptable (set_peer_bandwidth n t) = Unit

-- A ping request is answered with the response for its data, which a peer receives; nothing else
-- is.
unfoldable pub IsReply : ℕ → ℕ → Control → List ℕ → Type 0
IsReply fuel chunk_size (set_chunk_size n) out = (out ≡ [])
IsReply fuel chunk_size (acknowledgement n) out = (out ≡ [])
IsReply fuel chunk_size (set_window_ack_size n) out = (out ≡ [])
IsReply fuel chunk_size (user_control t d x) out =
    (((t == 6) ≡ false) × (out ≡ [])) ⊎ ((t ≡ 6) × Arrives fuel chunk_size (user_control 7 d 0) out)
IsReply fuel chunk_size (set_peer_bandwidth n t) out = (out ≡ [])

unfoldable pub TakesEffect : ℕ → Control → Protocol → Outcome (Protocol × List ℕ) → Type 0
TakesEffect fuel p s o =
    (s' : Protocol) × (out : List ℕ) × (o ≡ ok (s', out))
    × (settings s' ≡ setting p (settings s))
    × IsReply fuel s.out_chunk_size p out

with_length : ℕ → ℕ → Protocol → Protocol
with_length t x s = if t == 3 then record s { in_buffer_length = x } else s

with_length-setting :
    (t d x : ℕ) (s : Protocol)
    → settings (with_length t x s) ≡ setting (user_control t d x) (settings s)
unfolding with_length settings setting
with_length-setting t d x s =
    if_cases {A = Protocol}
      (λ r.
        settings r
        ≡ (s.in_chunk_size, s.in_ack_size.window, if t == 3 then x else s.in_buffer_length))
      (t == 3) (record s { in_buffer_length = x }) s (λ y. rw y refl) (λ n. rw n refl)

unpinged :
    (fuel t d x : ℕ) (s : Protocol)
    → (t == 6) ≡ false
    → TakesEffect fuel (user_control t d x) s (apply fuel (user_control t d x) s)
unfolding TakesEffect IsReply apply with_length
unpinged fuel t d x s e =
    (with_length t x s, [], rw e refl, with_length-setting t d x s, inl (e, refl))

pinged :
    (fuel t d x : ℕ) (s : Protocol)
    → (t == 6) ≡ true
    → d < 4294967296
    → 0 < s.out_chunk_size
    → 10 ≤ fuel
    → TakesEffect fuel (user_control t d x) s (apply fuel (user_control t d x) s)
unfolding TakesEffect IsReply apply with_length
pinged fuel t d x s e h z f =
    let (out, sent, arrives) =
      send_packet-Arrives fuel s.out_chunk_size (user_control 7 d 0)
        (omega arith, omega (arith, h), refl) z (omega (arith, f)) in
    (
      with_length t x s,
      out,
      rw (e, sent) refl,
      with_length-setting t d x s,
      inr (ground (arith, e), arrives),
    )

ping_data :
    (t d : ℕ)
    → (t == 6) ≡ true
    → (if t == 26 then widen (d % 256) else d % 4294967296) ≡ d
    → d < 4294967296
ping_data t d e h =
    let other : (t == 26) ≡ false = ground (arith, e) in
    let low : d % 4294967296 ≡ d =
      subst (λ b. (if b then widen (d % 256) else d % 4294967296) ≡ d) other h in
    omega (arith, low)

windowed :
    (fuel n : ℕ) (s : Protocol)
    → TakesEffect fuel (set_window_ack_size n) s (apply fuel (set_window_ack_size n) s)
unfolding TakesEffect IsReply apply settings setting
windowed fuel n s =
    if_cases {A = Outcome (Protocol × List ℕ)}
      (λ o.
        (s' : Protocol) × (out : List ℕ) × (o ≡ ok (s', out))
        × (settings s' ≡ (
          s.in_chunk_size,
          if ltb 0 n && ltb n 2147483648 then n else s.in_ack_size.window,
          s.in_buffer_length,
        ))
        × (out ≡ []))
      (ltb 0 n && ltb n 2147483648) _ _ (λ y. (_, [], refl, rw y refl, refl))
      (λ no. (s, [], refl, rw no refl, refl))

apply-TakesEffect :
    (fuel : ℕ) (p : Control) (s : Protocol)
    → IsSendable p
    → IsAcceptable p
    → 0 < s.out_chunk_size
    → 10 ≤ fuel
    → TakesEffect fuel p s (apply fuel p s)
unfolding TakesEffect IsReply IsAcceptable apply settings setting
apply-TakesEffect fuel (set_chunk_size n) s sendable ok_size z f =
    let in_range : (ltb n 128 || leb 2147483648 n) ≡ false = ground (arith, ok_size.0, ok_size.1) in
    (record s { in_chunk_size = n }, [], rw in_range refl, refl, refl)
apply-TakesEffect fuel (acknowledgement n) s sendable _ z f = (s, [], refl, refl, refl)
apply-TakesEffect fuel (set_window_ack_size n) s sendable _ z f = windowed fuel n s
apply-TakesEffect fuel (user_control t d x) s (ht, hd, hx) _ z f = elim (Bool-cases (t == 6)) [
  | inr n ↦ unpinged fuel t d x s n
  | inl y ↦ pinged fuel t d x s y (ping_data t d y hd) z f
]
apply-TakesEffect fuel (set_peer_bandwidth n t) s sendable _ z f = absurd sendable

length-nonempty : (p : Control) → ltb 0 (length (wire p)) ≡ true
length-nonempty p = ground (arith, length-wire p, (size_bounds p).0)

decode_message-wire :
    (p : Control)
    → IsSendable p
    → (b : Buffer) × (decode_message (get_message_type p) (wire p) ≡ ok (p, b))
unfolding decode_message
decode_message-wire p h =
    let d = decode-encode p h in
    let nonempty : ltb 0 (length (wire p)) ≡ true = length-nonempty p in (d.0, rw nonempty d.1)

-- A packet that is decoded does what it sets; an acknowledgement sets nothing and is not decoded.
on_packet-apply :
    (fuel : ℕ) (p : Control) (s : Protocol)
    → IsSendable p
    → on_packet fuel (get_message_type p) (wire p) s ≡ apply fuel p s
unfolding on_packet apply
on_packet-apply fuel (set_chunk_size n) s h =
    ap (λ o. and_then {A = Control × Buffer} o (λ r. apply fuel r.0 s))
      (decode_message-wire (set_chunk_size n) h).1
on_packet-apply fuel (acknowledgement n) s h = refl
on_packet-apply fuel (set_window_ack_size n) s h =
    ap (λ o. and_then {A = Control × Buffer} o (λ r. apply fuel r.0 s))
      (decode_message-wire (set_window_ack_size n) h).1
on_packet-apply fuel (user_control t d x) s h =
    ap (λ o. and_then {A = Control × Buffer} o (λ r. apply fuel r.0 s))
      (decode_message-wire (user_control t d x) h).1
on_packet-apply fuel (set_peer_bandwidth n t) s h = absurd h

size_le : (p : Control) (fuel : ℕ) → 10 ≤ fuel → get_size p ≤ fuel
size_le p fuel f = omega (arith, f, (size_bounds p).1)

on_recv_message-apply :
    (fuel recv_bytes : ℕ) (p : Control) (s a s' : Protocol) (ack reply : List ℕ)
    → IsSendable p
    → response_acknowledgement_message fuel recv_bytes s ≡ ok (a, ack)
    → apply fuel p a ≡ ok (s', reply)
    → on_recv_message fuel recv_bytes (get_message_type p) (wire p) s ≡ ok (s', ack ++ reply)
unfolding on_recv_message
on_recv_message-apply fuel recv_bytes p s a s' ack reply h e applied =
    rw (e, on_packet-apply fuel p a h, applied) refl

-- do_send_and_free_packet of a control packet whose fields are in their range (a chunk size from
-- 128 to 2^31-1, and no bandwidth, which only servers send), with the positive in_chunk_size of the
-- receiver and 10 units of fuel, ends with bytes that recv_message of a receiver on a new
-- connection, with a positive out_chunk_size, reads whole. It returns a message that decode_message
-- decodes to the same packet. Behind it the receiver has the chunk size, the window or the buffer
-- length of the packet, and else its own. It replied an acknowledgement or none, and behind that,
-- to a ping request the response with its data, and to other packets nothing; a peer decodes each
-- reply to that packet.
pub recv_message-send_packet :
    (fuel recv_bytes : ℕ) (p : Control) (s : Protocol)
    → IsSendable p
    → IsAcceptable p
    → 0 < s.in_chunk_size
    → 0 < s.out_chunk_size
    → 10 ≤ fuel
    → (out ack reply : List ℕ) × (ss : List ChunkStream) × (m : CommonMessage) × (b : Buffer) × (a
        s' : Protocol)
      × (send_packet fuel s.in_chunk_size p ≡ ok out)
      × Reads (recv_message fuel recv_bytes [] s) out (ss, m, s', ack ++ reply)
      × (decode_message m.header.message_type m.payload ≡ ok (p, b))
      × (settings s' ≡ setting p (settings s))
      × IsAnswer fuel s a ack
      × IsReply fuel s.out_chunk_size p reply
unfolding TakesEffect
recv_message-send_packet fuel recv_bytes p s h fit z1 z2 f =
    let (out, sent, r) = send_packet-Arrives fuel s.in_chunk_size p h z1 (size_le p fuel f) in
    let (a, ack, e, _, answer, same, size) =
      response_acknowledgement_message-settings fuel recv_bytes s z2 (omega (arith, f)) in
    let (s', reply, applied, set, replied) =
      apply-TakesEffect fuel p a h fit (subst (λ n. 0 < n) (sym size) z2) f in
    let (b, decoded) = decode_message-wire p h in
    (
      out,
      ack,
      reply,
      r.streams,
      r.received,
      b,
      a,
      s',
      sent,
      Reads-recv_message fuel recv_bytes s s' [] r.streams r.received out (ack ++ reply) r.reads (
          rw (r.typed, r.carried)
            (on_recv_message-apply fuel recv_bytes p s a s' ack reply h e applied)),
      rw (r.typed, r.carried) decoded,
      set ∙ ap (setting p) same,
      answer,
      subst (λ n. IsReply fuel n p reply) size replied,
    )
