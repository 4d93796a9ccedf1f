-- ===== src/Kernel/Format/Avc/Nalu.antt =====
-- One NALU with its length, as SrsFormat::avc_demux_ibmf_format of src/kernel/srs_kernel_codec.cpp
-- reads it.
use srs_simple.Base.{
  ℕ, ◌+◌, ◌%◌, ◌≡◌, ◌≢◌, Bool-cases, inl, inr, ◌≤◌, ◌<◌, sym, ap, subst, ◌∙◌, Bool, true, false,
  leb, ◌==◌, if◌then◌else◌, if_cases, List, [], ◌∷◌, ◌++◌, append-nil, length, Outcome, ok, err,
  ErrorCode, arith,
}
use srs_simple.Base.Int.{ℤ}
use srs_simple.Kernel.Buffer.{Buffer, skip, read_1bytes, read_2bytes, read_4bytes}
use srs_simple.Kernel.Buffer.Bytes.{be1, be2, be4}
use srs_simple.Kernel.Buffer.Cursor.{cursor}
use srs_simple.Kernel.Buffer.Reads.{Reads, Reads-read_1bytes, Reads-read_2bytes, Reads-read_4bytes}
use srs_simple.Kernel.Format.{
  VideoParser, Parser, after, ◌>>=◌, ◌>>◌, lift, modify, head_bytes, add_sample,
}
use srs_simple.Kernel.Format.Avc.{
  read_nalu_length, set_samples, add_nalu, is_idr, mark_idr, take_nalu,
}
use srs_simple.Kernel.Format.Parses.{
  Parses, Parses-modify, Parses-head_bytes, Parses-lift, Reads-skip,
}

-- A length in l + 1 bytes, and the lengths that it can have.
abbrev pub nalu_length : ℕ → ℕ → List ℕ
nalu_length l n = if l == 3 then be4 n else (if l == 1 then be2 n else be1 n)

abbrev pub nalu_limit : ℕ → ℕ
nalu_limit l = if l == 3 then 2147483648 else (if l == 1 then 65536 else 256)

abbrev pub ibmf : ℕ → List (List ℕ) → List ℕ
ibmf l [] = []
ibmf l (n ∷ ns) = nalu_length l (length n) ++ (n ++ ibmf l ns)

-- Each has a byte, and a length that fits.
abbrev pub AreSized : ℕ → List (List ℕ) → Type 0
AreSized l [] = Unit
AreSized l (n ∷ ns) = (0 < length n) × (length n < nalu_limit l) × AreSized l ns

Reads-sized :
    (a b : Bool) (n : ℕ)
    → n < (if a then 2147483648 else (if b then 65536 else 256))
    → Reads
        (if a then read_4bytes else (if b then read_2bytes else read_1bytes))
        (if a then be4 n else (if b then be2 n else be1 n))
        n
Reads-sized true b n h = Reads-read_4bytes n (omega (arith, h))
Reads-sized false true n h = Reads-read_2bytes n (omega (arith, h))
Reads-sized false false n h =
    subst (λ v. Reads read_1bytes (be1 n) v) below (Reads-read_1bytes (n % 256))
  where
    below : n % 256 ≡ n
    below = omega (arith, h)

pub Reads-nalu_length :
    (l n : ℕ) → n < nalu_limit l → Reads (read_nalu_length l) (nalu_length l n) n
unfolding read_nalu_length
Reads-nalu_length l n h = Reads-sized (l == 3) (l == 1) n h

pub length-nalu_length : (l n : ℕ) → l ≤ 3 → l ≢ 2 → length (nalu_length l n) ≡ l + 1
length-nalu_length l n h d = elim (Bool-cases (l == 3)) [
  | inl t ↦
      ap (λ (b : Bool). length (if b then be4 n else (if l == 1 then be2 n else be1 n))) t
      ∙ ground (arith, t)
  | inr t ↦
      ap (λ (b : Bool). length (if b then be4 n else (if l == 1 then be2 n else be1 n))) t
      ∙ elim (Bool-cases (l == 1)) [
        | inl u ↦ ap (λ (b : Bool). length (if b then be2 n else be1 n)) u ∙ ground (arith, u)
        | inr u ↦
            ap (λ (b : Bool). length (if b then be2 n else be1 n)) u ∙ ground (arith, t, u, h, d)
      ]
]

pub below_limit : (l n : ℕ) → n < nalu_limit l → n < 2147483648
below_limit l n h = ground (arith, h)

-- The frame with one more NALU.
abbrev pub with_nalu : List ℕ → VideoParser → VideoParser
with_nalu nalu s = record s {
  frame = record s.frame {
    samples = s.frame.samples ++ (nalu ∷ []);
    has_idr = if is_idr nalu then true else s.frame.has_idr;
  };
}

Parses-add_nalu :
    (post nalu : List ℕ) (m : Parser VideoParser (Unit {0})) (out : List ℕ) (s s' : VideoParser)
    → length s.frame.samples < 256
    → Parses post m
        (record s { frame = record s.frame { samples = s.frame.samples ++ (nalu ∷ []) } })
        out
        tt
        s'
    → Parses post (add_nalu nalu >> m) s out tt s'
unfolding add_nalu add_sample set_samples Parses
Parses-add_nalu post nalu m out s s' l h pre =
    ap (λ (t : Bool). after (λ _. m) (tested t).0 (tested t).1) no ∙ h pre
  where
    no : leb 256 (length s.frame.samples) ≡ false
    no = ground (arith, l)

    tested : Bool → Outcome (Unit {0} × Buffer) × VideoParser
    tested t =
        set_samples
          (if t then err ErrorCode.error_hls_decode_error else ok (s.frame.samples ++ (nalu ∷ [])))
          s (cursor pre (out ++ post))

pub Parses-take_nalu :
    (post n : List ℕ) (s : VideoParser)
    → 0 < length n
    → length s.frame.samples < 256
    → Parses post (take_nalu (length n)) s n tt (with_nalu n s)
unfolding take_nalu mark_idr
Parses-take_nalu post n s z l =
    if_cases {A = Parser VideoParser (Unit {0})} (λ m. Parses post m s n tt (with_nalu n s))
      (length n == 0) _ _ (λ e. absurd (ground (arith, e, z)))
      (λ e.
        subst (λ out. Parses post taken s out tt (with_nalu n s)) (append-nil n)
          (Parses-head_bytes post n _ [] s (with_nalu n s) tt (
            Parses-modify post (mark_idr n) _ (n ++ []) s (with_nalu n s) tt (
              Parses-add_nalu post n _ (n ++ []) (mark_idr n s) (with_nalu n s) l (
                subst
                  (λ out.
                    Parses post (lift (skip (ℤ.pos (length n)))) (with_nalu n s) out tt
                      (with_nalu n s))
                  (sym (append-nil n))
                  (Parses-lift post (skip (ℤ.pos (length n))) n (with_nalu n s) tt
                    (Reads-skip n)))))))
  where
    taken : Parser VideoParser (Unit {0})
    taken = do
      nalu ← lift (head_bytes (length n))
      modify (mark_idr nalu)
      add_nalu nalu
      lift (skip (ℤ.pos (length n)))
