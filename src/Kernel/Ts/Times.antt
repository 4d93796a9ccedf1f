-- ===== src/Kernel/Ts/Times.antt =====
-- The PES packet of src/kernel/srs_kernel_ts.cpp, and how a receiver reads it (ISO 13818-1, 2.4.3.7).
use srs_simple.Base.{
  Bool, true, false, refl, length, ltb, ltb→ge, ◌≤◌, ◌||◌, ℕ, ◌+◌, ◌*◌, ◌/◌, ◌%◌, ◌≡◌, ◌<◌, sym, ap,
  ◌∙◌, true, ◌&&◌, ◌==◌, if◌then◌else◌, if_cases, List, ◌∷◌, ◌++◌, append_assoc, Option, none, some,
  arith,
}
use srs_simple.Base.Int.{ℤ, pos, negsuc, eqb_ℤ}
use srs_simple.Kernel.Ts.{
  TsMessage, low_33bits, encode_33bits, pes_times, pes_packet_length, pes_bytes,
}

-- A time of 33 bits in five bytes, each part of it before a marker bit.
unfoldable pub read_time : List ℕ → Option (ℕ × List ℕ)
read_time (b0 ∷ b1 ∷ b2 ∷ b3 ∷ b4 ∷ rest) =
    some (b0 / 2 % 8 * 1073741824 + b1 * 4194304 + b2 / 2 * 32768 + b3 * 128 + b4 / 2, rest)
read_time _ = none

pub record Pes : Type 0 where
  pub sid : ℕ
  pub pts : ℕ
  pub dts : ℕ
  pub payload : List ℕ

abbrev pub pes_of : ℕ → ℕ → Option (ℕ × List ℕ) → Option Pes
pes_of sid pts none = none
pes_of sid pts (some (dts, rest)) =
    some (record { sid = sid; pts = pts; dts = dts; payload = rest })

-- Flags 2 are a pts alone, and flags 3 a pts and a dts.
abbrev pub read_dts : ℕ → ℕ → Option (ℕ × List ℕ) → Option Pes
read_dts sid flags none = none
read_dts sid flags (some (pts, rest)) =
    if flags == 3 then pes_of sid pts (read_time rest) else pes_of sid pts (some (pts, rest))

-- The length is 0 or that of all behind it.
unfoldable pub has_length : ℕ → ℕ → Bool
has_length l n = l == 0 || l == n

unfoldable pub read_pes : List ℕ → Option Pes
read_pes (b0 ∷ b1 ∷ b2 ∷ sid ∷ l1 ∷ l0 ∷ mark ∷ flags ∷ n ∷ rest) =
    if (b0 == 0) && ((b1 == 0) && ((b2 == 1) && has_length (l1 * 256 + l0) (3 + length rest)))
    then read_dts sid (flags / 64) (read_time rest)
    else none
read_pes _ = none

low_33bits-lt : (v : ℤ) → low_33bits v < 8589934592
unfolding low_33bits
low_33bits-lt (pos n) = omega arith
low_33bits-lt (negsuc n) = omega arith

read_time-encode :
    (fb v : ℕ) (rest : List ℕ)
    → v < 8589934592
    → read_time (encode_33bits fb v ++ rest) ≡ some (v, rest)
unfolding read_time encode_33bits
read_time-encode fb v rest h = ap (λ k. some (k, rest)) (omega (arith, h))

eqb_ℤ→eq : (a b : ℤ) → eqb_ℤ a b ≡ true → a ≡ b
eqb_ℤ→eq (pos a) (pos b) h = ap pos (ground (arith, h))
eqb_ℤ→eq (pos a) (negsuc b) h = absurd (ground (arith, h))
eqb_ℤ→eq (negsuc a) (pos b) h = absurd (ground (arith, h))
eqb_ℤ→eq (negsuc a) (negsuc b) h = ap negsuc (ground (arith, h))

-- The stream id, the times cut to 33 bits, and the payload.
abbrev pub pes_fields : TsMessage → Pes
pes_fields m = record {
  sid = m.sid % 256;
  pts = low_33bits m.pts;
  dts = low_33bits m.dts;
  payload = m.payload;
}

has_length-fits :
    (n : ℕ)
    → has_length
        ((if ltb 65535 n then 0 else n) / 256 % 256 * 256 + (if ltb 65535 n then 0 else n) % 256)
        n
      ≡ true
unfolding has_length
has_length-fits n =
    if_cases
      (λ l. (l / 256 % 256 * 256 + l % 256 == 0 || l / 256 % 256 * 256 + l % 256 == n) ≡ true)
      (ltb 65535 n) 0 n (λ _. refl) (λ e. ground (arith, joined (ltb→ge 65535 n e)))
  where
    joined : n ≤ 65535 → n / 256 % 256 * 256 + n % 256 ≡ n
    joined h = omega (arith, h)

-- The length of a message whose times take k bytes.
length-fits :
    (m : TsMessage) (b : Bool) (n : ℕ)
    → eqb_ℤ m.dts m.pts ≡ b
    → (if b then 5 else 10) + length m.payload ≡ n
    → has_length (pes_packet_length m / 256 % 256 * 256 + pes_packet_length m % 256) (3 + n) ≡ true
unfolding pes_packet_length
length-fits m b n e h =
    ap
      (λ k.
        has_length
          ((if ltb 65535 k then 0 else k) / 256 % 256 * 256 + (if ltb 65535 k then 0 else k) % 256)
          (3 + n))
      (ap (λ c. 3 + (if c then 5 else 10) + length m.payload) e ∙ sum)
    ∙ has_length-fits (3 + n)
  where
    sum : 3 + (if b then 5 else 10) + length m.payload ≡ 3 + n
    sum = omega (arith, h)

pub read_pes-bytes : (m : TsMessage) → read_pes (pes_bytes m) ≡ some (pes_fields m)
unfolding read_pes pes_bytes pes_times encode_33bits
read_pes-bytes m =
    if_cases
      (λ t.
        read_pes (
          0
          ∷ 0
          ∷ 1
          ∷ (m.sid % 256)
          ∷ (pes_packet_length m / 256 % 256)
          ∷ (pes_packet_length m % 256)
          ∷ (t ++ m.payload))
        ≡ some (pes_fields m))
      (eqb_ℤ m.dts m.pts) _ _
      (λ e.
        ap (λ b. if b then read_dts sid 2 (read_time (encode_33bits 2 pts ++ m.payload)) else none)
          (length-fits m true (length (encode_33bits 2 pts ++ m.payload)) e (omega arith))
        ∙ ap (read_dts sid 2) (read_time-encode 2 pts m.payload (low_33bits-lt m.pts))
        ∙ ap (λ d. some (record { sid = sid; pts = pts; dts = d; payload = m.payload }))
            (ap low_33bits (sym (eqb_ℤ→eq m.dts m.pts e))))
      (λ e.
        ap
          (λ b.
            if b
            then read_dts sid 3
                (read_time ((encode_33bits 3 pts ++ encode_33bits 1 dts) ++ m.payload))
            else none)
          (length-fits m false (length ((encode_33bits 3 pts ++ encode_33bits 1 dts) ++ m.payload))
            e (omega arith))
        ∙ ap (λ l. read_dts sid 3 (read_time l))
            (append_assoc (encode_33bits 3 pts) (encode_33bits 1 dts) m.payload)
        ∙ ap (read_dts sid 3)
            (read_time-encode 3 pts (encode_33bits 1 dts ++ m.payload) (low_33bits-lt m.pts))
        ∙ ap (pes_of sid pts) (read_time-encode 1 dts m.payload (low_33bits-lt m.dts)))
  where
    sid : ℕ
    sid = m.sid % 256

    pts : ℕ
    pts = low_33bits m.pts

    dts : ℕ
    dts = low_33bits m.dts
