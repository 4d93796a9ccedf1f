-- ===== src/Kernel/Ts/Packet.antt =====
-- One TS packet of src/kernel/srs_kernel_ts.cpp, and how a receiver reads it (ISO 13818-1).
use srs_simple.Base.{
  ℕ, zero, suc, ◌+◌, ◌-◌, ◌/◌, ◌%◌, ◌≡◌, ◌≤◌, ◌<◌, refl, sym, ap, ◌∙◌, Bool, true, false, ◌&&◌,
  ◌||◌, ltb, leb, ◌==◌, if◌then◌else◌, if_cases, List, [], ◌∷◌, ◌++◌, length, take, drop, replicate,
  length-append, length-replicate, length-take_le, drop-append_length, take-append-drop, Option,
  none, some, ok, arith,
}
use srs_simple.Kernel.Ts.{
  TsMessage, af_size, adaptation, pcr_bytes, low_33bits, packet_header, ts_packet, is_video,
}

-- What is behind the adaptation field, by the adaptation field control: 1 is a payload alone, and 3
-- is a field of the length in its first byte and then a payload.
unfoldable pub unpack_payload : ℕ → List ℕ → Option (List ℕ)
unpack_payload control [] = if control == 1 then some [] else none
unpack_payload control (n ∷ rest) =
    if control == 1
    then some (n ∷ rest)
    else (if control == 3 && leb n (length rest) then some (drop n rest) else none)

-- The sync byte, the start indicator, the pid, the counter, and 184 bytes behind them.
unfoldable pub is_ours : ℕ → ℕ → Bool → ℕ → ℕ → ℕ → ℕ → ℕ → Bool
is_ours pid cc first b0 b1 b2 b3 n =
    (b0 == 71)
    && ((b1 == (if first then 64 else 0) + pid / 256)
        && ((b2 == pid % 256) && ((b3 % 16 == cc % 16) && (n == 184))))

-- The payload of a packet of 188 bytes with this pid, counter and start indicator.
unfoldable pub unpack : ℕ → ℕ → Bool → List ℕ → Option (List ℕ)
unpack pid cc first (b0 ∷ b1 ∷ b2 ∷ b3 ∷ rest) =
    if is_ours pid cc first b0 b1 b2 b3 (length rest) then unpack_payload (b3 / 16) rest else none
unpack pid cc first _ = none

af_size-lt : (w : Bool) (n : ℕ) → 0 < n → (184 - af_size w n ≤ n) × (af_size w n < 184)
unfolding af_size
af_size-lt true n h = ground arith
af_size-lt false n h = ground arith

-- A field with the clock has room for it.
abbrev HasRoom : Bool → ℕ → Type 0
HasRoom true af = 8 ≤ af
HasRoom false af = Unit

af_size-HasRoom : (w : Bool) (n : ℕ) → 0 < n → HasRoom w (af_size w n)
unfolding af_size
af_size-HasRoom true n h = ground arith
af_size-HasRoom false n h = tt

-- A field of a positive size begins with the number of bytes behind its first one.
abbrev IsField : ℕ → List ℕ → Type 0
IsField af a = (tl : List ℕ) × (a ≡ (af - 1) ∷ tl) × (suc (length tl) ≡ af)

adaptation-IsField :
    (m : TsMessage) (w : Bool) (af : ℕ) → HasRoom w af → 0 < af → IsField af (adaptation m w af)
unfolding adaptation pcr_bytes
adaptation-IsField m w af r h =
    if_cases (IsField af) (af == 0) _ _ (λ e. absurd (ground (arith, e)))
      (λ _.
        if_cases (IsField af) (af == 1) _ _
          (λ e.
            let z : af ≡ 1 = ground (arith, e) in
            ([], ap (λ k. k ∷ []) (omega (arith, z)), omega (arith, z)))
          (λ e. field w r (ground (arith, e, h))))
  where
    field :
        (w : Bool)
        → HasRoom w af
        → 2 ≤ af
        → IsField af (
            if w
            then (af - 1)
              ∷ (16 + (if is_video m then 64 else 0))
              ∷ (pcr_bytes (low_33bits m.dts) ++ replicate (af - 8) 255)
            else (af - 1) ∷ 0 ∷ replicate (af - 2) 255)
    field true r l = (_, refl, omega (arith, length-replicate {A = ℕ} (af - 8) 255))
    field false r l = (_, refl, omega (arith, length-replicate {A = ℕ} (af - 2) 255))

adaptation-nil : (m : TsMessage) (w : Bool) → adaptation m w 0 ≡ []
unfolding adaptation
adaptation-nil m w = refl

pub length-adaptation :
    (m : TsMessage) (w : Bool) (af : ℕ) → HasRoom w af → length (adaptation m w af) ≡ af
length-adaptation m w zero r = ap length (adaptation-nil m w)
length-adaptation m w (suc af) r =
    let f = adaptation-IsField m w (suc af) r (omega arith) in ap length f.1 ∙ f.2

unpack_payload-one : (bs : List ℕ) → unpack_payload 1 bs ≡ some bs
unfolding unpack_payload
unpack_payload-one [] = refl
unpack_payload-one (b ∷ bs) = refl

unpack_payload-three :
    (n : ℕ) (tl bs : List ℕ) → length tl ≡ n → unpack_payload 3 (n ∷ (tl ++ bs)) ≡ some bs
unfolding unpack_payload
unpack_payload-three n tl bs h =
    if_cases (λ o. o ≡ some bs) (leb n (length (tl ++ bs))) _ _
      (λ _. ap some (ap (λ k. drop k (tl ++ bs)) (sym h) ∙ drop-append_length tl bs))
      (λ e. absurd (ground (arith, e, h, length-append tl bs)))

-- The receiver skips the field.
unpack-adaptation :
    (m : TsMessage) (w : Bool) (af : ℕ) (bs : List ℕ)
    → HasRoom w af
    → unpack_payload (if ltb 0 af then 3 else 1) (adaptation m w af ++ bs) ≡ some bs
unpack-adaptation m w zero bs r =
    ap (λ a. unpack_payload 1 (a ++ bs)) (adaptation-nil m w) ∙ unpack_payload-one bs
unpack-adaptation m w (suc af) bs r =
    let f = adaptation-IsField m w (suc af) r (omega arith) in
    let c : ◌≡◌ {A = ℕ} (if ltb 0 (suc af) then 3 else 1) 3 = ground arith in
    ap (λ k. unpack_payload k (adaptation m w (suc af) ++ bs)) c
    ∙ ap (λ a. unpack_payload 3 (a ++ bs)) f.1
    ∙ unpack_payload-three (suc af - 1) f.0 bs (omega (arith, f.2))

-- A packet of the first bytes of rest, 188 bytes long, that the receiver reads as them.
pub record IsPacket (pid cc : ℕ) (first : Bool) (rest pkt left : List ℕ) : Type 0 where
  pub body : List ℕ
  pub some_byte : 0 < length body
  pub split : rest ≡ body ++ left
  pub unpacked : unpack pid cc first pkt ≡ some body

eqb_true : {a b : ℕ} → a ≡ b → (a == b) ≡ true
eqb_true {a} {b} h = ground (arith, h)

and_true : (a b : Bool) → a ≡ true → b ≡ true → (a && b) ≡ true
and_true true b p q = q
and_true false b p q = absurd (ground (arith, p))

-- The counter and the control of the fourth byte.
control_lem :
    (b : Bool) (cc : ℕ)
    → (((if b then 48 else 16) + cc % 16) % 16 ≡ cc % 16)
      × (((if b then 48 else 16) + cc % 16) / 16 ≡ (if b then 3 else 1))
control_lem true cc = (omega arith, omega arith)
control_lem false cc = (omega arith, omega arith)

packet_header-is_ours :
    (pid count : ℕ) (first b : Bool) (n : ℕ)
    → pid < 8192
    → n ≡ 184
    → is_ours pid count first 71
        ((if first then 64 else 0) + pid / 256 % 32)
        (pid % 256)
        ((if b then 48 else 16) + count % 16)
        n
      ≡ true
unfolding is_ours
packet_header-is_ours pid count first b n p h =
    let high : pid / 256 % 32 ≡ pid / 256 = omega (arith, p) in
    let e1 : ((if first then 64 else 0) + pid / 256 % 32 == (if first then 64 else 0) + pid / 256)
        ≡ true =
      eqb_true (ap (λ k. (if first then 64 else 0) + k) high) in
    let e2 : (pid % 256 == pid % 256) ≡ true = eqb_true refl in
    let e3 : (((if b then 48 else 16) + count % 16) % 16 == count % 16) ≡ true =
      eqb_true (control_lem b count).0 in
    and_true _ _ e1 (and_true _ _ e2 (and_true _ _ e3 (eqb_true h)))

pub unpack-packet_header :
    (pid count : ℕ) (first : Bool) (af : ℕ) (bs : List ℕ)
    → pid < 8192
    → length bs ≡ 184
    → unpack pid count first (packet_header pid count first af ++ bs)
      ≡ unpack_payload (if ltb 0 af then 3 else 1) bs
unfolding unpack packet_header
unpack-packet_header pid count first af bs p h =
    ap
      (λ b.
        if b then unpack_payload (((if ltb 0 af then 48 else 16) + count % 16) / 16) bs else none)
      (packet_header-is_ours pid count first (ltb 0 af) (length bs) p h)
    ∙ ap (λ c. unpack_payload c bs) (control_lem (ltb 0 af) count).1

in_range : (x n k : ℕ) → x ≤ 184 → k ≤ n → (ltb 184 x || ltb n k) ≡ true → ⊥
in_range x n k p q e = ground (arith, e)

pub ts_packet-IsPacket :
    (m : TsMessage) (pid count : ℕ) (first : Bool) (rest : List ℕ)
    → pid < 8192
    → 0 < length rest
    → (pkt : List ℕ) × (left : List ℕ) × (ts_packet m pid count first rest ≡ ok (pkt, left))
      × IsPacket pid count first rest pkt left
unfolding ts_packet
ts_packet-IsPacket m pid count first rest p h = (
  packet_header pid count first af ++ (a ++ take k rest),
  drop k rest,
  if_cases (λ o. o ≡ ok (packet_header pid count first af ++ (a ++ take k rest), drop k rest))
      (ltb 184 (length a) || ltb (length rest) k) _ _ (λ e. absurd (bad e)) (λ _. refl),
  record {
    body = take k rest;
    some_byte = omega (arith, taken, l.1, la);
    split = sym (take-append-drop k rest);
    unpacked =
        unpack-packet_header pid count first af (a ++ take k rest) p
          (omega (arith, length-append a (take k rest), taken, l.1, la))
        ∙ unpack-adaptation m w af (take k rest) room;
  },
)
  where
    w : Bool
    w = first && m.write_pcr

    af : ℕ
    af = af_size w (length rest)

    a : List ℕ
    a = adaptation m w af

    room : HasRoom w af
    room = af_size-HasRoom w (length rest) h

    l : (184 - af ≤ length rest) × (af < 184)
    l = af_size-lt w (length rest) h

    la : length a ≡ af
    la = length-adaptation m w af room

    k : ℕ
    k = 184 - length a

    k_le : k ≤ length rest
    k_le = omega (arith, l.0, la)

    taken : length (take k rest) ≡ k
    taken = length-take_le k rest k_le

    bad : (ltb 184 (length a) || ltb (length rest) k) ≡ true → ⊥
    bad e = in_range (length a) (length rest) k (omega (arith, l.1, la)) k_le e
