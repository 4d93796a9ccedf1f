-- ===== src/Kernel/Format/Sps/Total.antt =====
-- The size of the picture (src/kernel/srs_kernel_codec.cpp), from any sequence parameter set.
use srs_simple.Base.{
  ◌⊎◌, ℕ, suc, ◌+◌, ◌*◌, ◌/◌, ◌%◌, ◌≡◌, ◌≤◌, refl, sym, subst, ◌∙◌, Bool, true, false, not, ◌&&◌,
  ◌||◌, leb, ltb, ◌==◌, if◌then◌else◌, if_cases, List, [], ◌∷◌, ◌++◌, length, length-append,
  Outcome, ok, err, aborted, fault, stuck, ErrorCode, and_then, arith, inl, inr, Bool-cases,
}
use srs_simple.Kernel.Buffer.{Buffer, read_1bytes, init, require_or, require}
use srs_simple.Kernel.Buffer.Safe.{Takes-read_1bytes}
use srs_simple.Kernel.Buffer.Reads.{>>=-ok}
use srs_simple.Kernel.Buffer.Writes.{>>-ok, >>-err}
use srs_simple.Kernel.Format.{VideoCodecConfig}
use srs_simple.Kernel.Format.Sps.{
  bit_buffer, sps_size, sps_profile, avc_demux_sps_rbsp, ends_in_zeros,
  srs_rbsp_remove_emulation_bytes, avc_demux_sps,
}
use srs_simple.Kernel.Format.Sps.Safe.{Good-IsHandled, Safe-sps_size}
use srs_simple.Kernel.Format.Sps.Bits.{IsHandled}

-- What the profile is, by the check of the three bytes.
checked : Bool → ℕ → Buffer → Outcome (ℕ × Buffer)
checked t p b = if t then err ErrorCode.error_hls_decode_error else ok (p, b)

checked-cases :
    (t : Bool) (p : ℕ) (b : Buffer)
    → (checked t p b ≡ ok (p, b)) ⊎ ((e : ErrorCode) × (checked t p b ≡ err e))
unfolding checked
checked-cases true p b = inr (ErrorCode.error_hls_decode_error, refl)
checked-cases false p b = inl refl

pub require_or-ok :
    (n : ℕ) (e : ErrorCode) (b : Buffer)
    → leb (b.p + n) (length b.bytes) ≡ true
    → require_or n e b ≡ ok (tt, b)
unfolding require_or require
require_or-ok n e b t = rw t refl

pub require_or-err :
    (n : ℕ) (e : ErrorCode) (b : Buffer)
    → leb (b.p + n) (length b.bytes) ≡ false
    → require_or n e b ≡ err e
unfolding require_or require
require_or-err n e b t = rw t refl

-- Three bytes are there, or an error is.
sps_profile-cases :
    (b : Buffer)
    → ((p : ℕ) × (sps_profile b ≡ ok (p, record b { p = b.p + 1 + 1 + 1 })))
      ⊎ ((e : ErrorCode) × (sps_profile b ≡ err e))
unfolding sps_profile require_or require checked
sps_profile-cases b = elim (Bool-cases (leb (b.p + 3) (length b.bytes))) [
  | inr t ↦ inr (
    ErrorCode.error_hls_decode_error,
    >>-err (require_or 3 ErrorCode.error_hls_decode_error) _ b
        (require_or-err 3 ErrorCode.error_hls_decode_error b t),
  )
  | inl t ↦
      let x = Takes-read_1bytes b (ground (arith, t)) in
      let y = Takes-read_1bytes (record b { p = b.p + 1 }) (ground (arith, t)) in
      let z = Takes-read_1bytes (record b { p = b.p + 1 + 1 }) (ground (arith, t)) in
      let bad : Bool = x.0 == 0 || (not (y.0 % 4 == 0) || z.0 == 0) in
      let e : sps_profile b ≡ checked bad x.0 (record b { p = b.p + 1 + 1 + 1 }) =
        >>-ok (require_or 3 ErrorCode.error_hls_decode_error) _ b
          (require_or-ok 3 ErrorCode.error_hls_decode_error b t)
        ∙ >>=-ok read_1bytes _ b x.1
        ∙ >>=-ok read_1bytes _ (record b { p = b.p + 1 }) y.1
        ∙ >>=-ok read_1bytes _ (record b { p = b.p + 1 + 1 }) z.1 in
      elim (checked-cases bad x.0 (record b { p = b.p + 1 + 1 + 1 })) [
        | inl q ↦ inl (x.0, e ∙ q)
        | inr (c, q) ↦ inr (c, e ∙ q)
      ]
]

-- With a unit of fuel for a bit the parser ends, and never reads behind the end.
pub avc_demux_sps_rbsp-IsHandled :
    (fuel : ℕ) (rbsp : List ℕ) → 8 * length rbsp ≤ fuel → IsHandled (avc_demux_sps_rbsp fuel rbsp)
unfolding avc_demux_sps_rbsp bit_buffer init
avc_demux_sps_rbsp-IsHandled fuel rbsp h = elim (sps_profile-cases (init rbsp)) [
  | inr (e, q) ↦
      subst
        (λ o.
          IsHandled (and_then o (λ r. and_then (sps_size fuel r.0 (bit_buffer r.1)) (λ q. ok q.0))))
        (sym q) tt
  | inl (p, q) ↦
      subst
        (λ o.
          IsHandled (and_then o (λ r. and_then (sps_size fuel r.0 (bit_buffer r.1)) (λ q. ok q.0))))
        (sym q)
        (Good-IsHandled fuel
          (sps_size fuel p (bit_buffer (record (init rbsp) { p = (init rbsp).p + 1 + 1 + 1 })))
          (λ size. ok size)
          (Safe-sps_size fuel fuel p (omega arith)
            (bit_buffer (record (init rbsp) { p = (init rbsp).p + 1 + 1 + 1 })) (omega (arith, h)))
          (λ size. tt))
]

at_most_two : (t : Bool) (b ev : ℕ) → length (if t then b ∷ ev ∷ [] else ev ∷ []) ≤ 2
at_most_two true b ev = omega arith
at_most_two false b ev = omega arith

length-removed :
    (out xs : List ℕ) → length (srs_rbsp_remove_emulation_bytes out xs) ≤ length out + length xs
unfolding srs_rbsp_remove_emulation_bytes
length-removed out [] = omega arith
length-removed out (b ∷ []) = omega (arith, length-append out (b ∷ []))
length-removed out (b ∷ ev ∷ rest) =
    split (ends_in_zeros out && b == 3)
      (omega
        (arith, length-removed (out ++ w) rest, length-append out w, at_most_two (ltb 3 ev) b ev))
      (omega (arith, length-removed (out ++ (b ∷ [])) (ev ∷ rest), length-append out (b ∷ [])))
  where
    w : List ℕ
    w = if ltb 3 ev then b ∷ ev ∷ [] else ev ∷ []

    n : ℕ
    n = length out + suc (suc (length rest))

    split :
        (t : Bool)
        → length (srs_rbsp_remove_emulation_bytes (out ++ w) rest) ≤ n
        → length (srs_rbsp_remove_emulation_bytes (out ++ (b ∷ [])) (ev ∷ rest)) ≤ n
        → length (elim t as (λ x. List ℕ) [
          | true ↦ srs_rbsp_remove_emulation_bytes (out ++ w) rest
          | false ↦ srs_rbsp_remove_emulation_bytes (out ++ (b ∷ [])) (ev ∷ rest)
        ])
          ≤ n
    split true x y = x
    split false x y = y

-- So it ends, and a value has a property.
abbrev pub Ends : {A : Type 0} → (A → Type 0) → Outcome A → Type 0
Ends P (ok a) = P a
Ends P (err e) = Unit
Ends P aborted = ⊥
Ends P fault = ⊥
Ends P stuck = ⊥

Ends-and_then :
    {A B : Type 0} (P : B → Type 0) (o : Outcome A) (f : A → Outcome B)
    → IsHandled o
    → ((a : A) → Ends P (f a))
    → Ends P (and_then o f)
Ends-and_then P (ok a) f h k = k a
Ends-and_then P (err e) f h k = tt
Ends-and_then P aborted f h k = h
Ends-and_then P fault f h k = h
Ends-and_then P stuck f h k = h

-- So does the reader of a parameter set, which changes nothing but the size of the picture.
pub avc_demux_sps-Ends :
    (fuel : ℕ) (sps : List ℕ) (c : VideoCodecConfig)
    → 8 * length sps ≤ fuel
    → Ends
        (λ c'. (w : ℕ) × (h : ℕ) × (c' ≡ record c { width = w; height = h }))
        (avc_demux_sps fuel sps c)
unfolding avc_demux_sps
avc_demux_sps-Ends fuel [] c h = (c.width, c.height, refl)
avc_demux_sps-Ends fuel (nutv ∷ stream) c h =
    if_cases {A = Outcome VideoCodecConfig}
      (Ends (λ c'. (w : ℕ) × (h : ℕ) × (c' ≡ record c { width = w; height = h })))
      (not (nutv / 128 % 2 == 0) || (nutv / 32 % 4 == 0 || not (nutv % 32 == 7))) _ _ (λ e. tt)
      (λ e.
        Ends-and_then (λ c'. (w : ℕ) × (h : ℕ) × (c' ≡ record c { width = w; height = h }))
          (avc_demux_sps_rbsp fuel (srs_rbsp_remove_emulation_bytes [] stream))
          (λ size. ok (record c { width = size.0; height = size.1 }))
          (avc_demux_sps_rbsp-IsHandled fuel (srs_rbsp_remove_emulation_bytes [] stream)
            (omega (arith, h, length-removed [] stream)))
          (λ size. (size.0, size.1, refl)))
