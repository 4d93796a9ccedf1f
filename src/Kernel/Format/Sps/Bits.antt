-- ===== src/Kernel/Format/Sps/Bits.antt =====
-- Reading bits with SrsBitBuffer of src/kernel/srs_kernel_buffer.cpp: rules by which a sequence of
-- reads ends without a failed srs_assert.
use srs_simple.Base.{
  ℕ, ◌+◌, ◌-◌, ◌*◌, ◌/◌, ◌%◌, ◌^◌, ◌≡◌, ◌≤◌, ◌<◌, refl, sym, subst, Bool, true, false, leb, ◌==◌,
  if◌then◌else◌, length, Outcome, ok, err, aborted, fault, stuck, and_then, arith, inl, inr,
  Bool-cases,
}
use srs_simple.Kernel.Buffer.{empty}
use srs_simple.Kernel.Buffer.Safe.{Takes-read_1bytes}
use srs_simple.Kernel.Format.Sps.{BitBuffer, bits_empty, Bits, ◌>>=◌, ◌>>◌, read_bit, require_bit}

-- A call ends with a value or with an error code.
abbrev pub IsHandled : {A : Type 0} → Outcome A → Type 0
IsHandled (ok a) = Unit
IsHandled (err e) = Unit
IsHandled aborted = ⊥
IsHandled fault = ⊥
IsHandled stuck = ⊥

abbrev pub bits_left : BitBuffer → ℕ
bits_left s = s.cb_left + 8 * (length s.stream.bytes - s.stream.p)

-- A reader of bits ends so, and adds no bits.
abbrev pub Good : {A : Type 0} → ℕ → Outcome (A × BitBuffer) → Type 0
Good n (ok (a, s)) = bits_left s ≤ n
Good n (err e) = Unit
Good n aborted = ⊥
Good n fault = ⊥
Good n stuck = ⊥

abbrev pub Safe : {A : Type 0} → ℕ → Bits A → Type 0
Safe n m = (s : BitBuffer) → bits_left s ≤ n → Good n (m s)

pub Good-bind :
    {A B : Type 0} (n : ℕ) (o : Outcome (A × BitBuffer)) (f : A → Bits B)
    → Good n o
    → ((a : A) → Safe n (f a))
    → Good n (and_then o (λ r. f r.0 r.1))
Good-bind n (ok (a, s)) f g h = h a s g
Good-bind n (err e) f g h = tt
Good-bind n aborted f g h = g
Good-bind n fault f g h = g
Good-bind n stuck f g h = g

pub Safe-bind :
    {A B : Type 0} (n : ℕ) (m : Bits A) (f : A → Bits B)
    → Safe n m
    → ((a : A) → Safe n (f a))
    → Safe n (m >>= f)
Safe-bind n m f hm hf s l = Good-bind n (m s) f (hm s l) hf

pub Safe-if :
    {A : Type 0} (n : ℕ) (t : Bool) (m m' : Bits A)
    → Safe n m
    → Safe n m'
    → Safe n (if t then m else m')
Safe-if n true m m' h h' = h
Safe-if n false m m' h h' = h'

-- A bit that is there is read.
pub read_bit-ok :
    (s : BitBuffer)
    → 0 < bits_left s
    → (v : ℕ) × (s' : BitBuffer) × (read_bit s ≡ ok (v, s')) × (bits_left s' + 1 ≡ bits_left s)
unfolding read_bit empty
read_bit-ok s h = elim (Bool-cases (s.cb_left == 0)) [
  | inl z ↦
      let t = Takes-read_1bytes s.stream (ground (arith, z)) in
      (
        t.0 / 128 % 2,
        record { cb = t.0; cb_left = 7; stream = record s.stream { p = s.stream.p + 1 } },
        rw (z, some_left (ground (arith, z)), t.1) refl,
        ground (arith, z),
      )
  | inr z ↦ (
    s.cb / 2 ^ (s.cb_left - 1) % 2,
    record s { cb_left = s.cb_left - 1 },
    rw z refl,
    ground (arith, z),
  )
]
  where
    some_left : s.stream.p < length s.stream.bytes → leb (length s.stream.bytes) s.stream.p ≡ false
    some_left l = ground arith

pub bits_empty-lt : (s : BitBuffer) → bits_empty s ≡ false → 0 < bits_left s
unfolding bits_empty empty
bits_empty-lt s h = ground (arith, h)

-- Behind the check that a bit is there.
pub Safe-require :
    {A : Type 0} (n : ℕ) (m : Bits A)
    → ((s : BitBuffer) → bits_left s ≤ n → 0 < bits_left s → Good n (m s))
    → Safe n (require_bit >> m)
unfolding require_bit
Safe-require n m h s l = elim (Bool-cases (bits_empty s)) [
  | inl e ↦ rw e tt
  | inr e ↦ rw e (h s l (bits_empty-lt s e))
]

-- A bit that is there, and what depends on it, with fewer bits left.
pub Good-read_bit :
    {A : Type 0} (n : ℕ) (f : ℕ → Bits A) (s : BitBuffer)
    → 0 < bits_left s
    → ((b : ℕ) (s' : BitBuffer) → bits_left s' + 1 ≡ bits_left s → Good n (f b s'))
    → Good n ((read_bit >>= f) s)
Good-read_bit n f s h k =
    let (v, s', e, l) = read_bit-ok s h in
    subst (λ o. Good n (and_then o (λ r. f r.0 r.1))) (sym e) (k v s' l)

pub Safe-bit :
    {A : Type 0} (n : ℕ) (f : ℕ → Bits A)
    → ((b : ℕ) → Safe n (f b))
    → Safe n (require_bit >> (read_bit >>= f))
Safe-bit n f h =
    Safe-require n (read_bit >>= f)
      (λ s l z. Good-read_bit n f s z (λ b s' e. h b s' (omega (arith, l, e))))
