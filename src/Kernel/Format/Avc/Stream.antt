-- ===== src/Kernel/Format/Avc/Stream.antt =====
-- The NALUs of a frame, as FLV has them, through avc_demux_ibmf_format of
-- src/kernel/srs_kernel_codec.cpp.
use srs_simple.Base.{
  ℕ, zero, suc, ◌+◌, ◌≡◌, ◌≢◌, ◌≤◌, ◌<◌, refl, sym, ap, subst, ◌∙◌, Bool, true, false, leb,
  if◌then◌else◌, List, [], ◌∷◌, ◌++◌, append_assoc, append-nil, length, length-append, Outcome, ok,
  err, ErrorCode, arith,
}
use srs_simple.Kernel.Buffer.{Buffer, empty, require_or}
use srs_simple.Kernel.Buffer.Cursor.{cursor, empty-cursor}
use srs_simple.Kernel.Format.{VideoParser, Parser, after, ◌>>=◌, ◌>>◌, lift}
use srs_simple.Kernel.Format.Avc.{
  read_nalu_length, require_nalu, is_idr, take_nalu, next_nalu, avc_demux_ibmf_format,
}
use srs_simple.Kernel.Format.Parses.{Parses, Parses-bind, Parses-read, Parses-require}
use srs_simple.Kernel.Format.Avc.Nalu.{
  nalu_length, nalu_limit, ibmf, AreSized, Reads-nalu_length, length-nalu_length, below_limit,
  with_nalu, Parses-take_nalu,
}

Parses-require_nalu :
    (post n : List ℕ) (m : Parser VideoParser (Unit {0})) (s s' : VideoParser)
    → length n < 2147483648
    → Parses post m s n tt s'
    → Parses post (require_nalu (length n) >> m) s n tt s'
unfolding require_nalu Parses
Parses-require_nalu post n m s s' l h pre =
    ap (λ (t : Bool). after (λ _. m) (tested t).0 (tested t).1) no
    ∙ Parses-require post (length n) ErrorCode.error_hls_avc_sample_size m n s s' tt (omega arith) h
        pre
  where
    no : leb 2147483648 (length n) ≡ false
    no = ground (arith, l)

    tested : Bool → Outcome (Unit {0} × Buffer) × VideoParser
    tested t =
        if t
        then (err ErrorCode.error_hls_avc_sample_size, s)
        else (require_or (length n) ErrorCode.error_hls_avc_sample_size (cursor pre (n ++ post)), s)

-- One NALU, for a codec that has the size of the length.
Parses-next_nalu :
    (post n : List ℕ) (s : VideoParser)
    → s.codec.nal_unit_length ≤ 3
    → s.codec.nal_unit_length ≢ 2
    → 0 < length n
    → length n < nalu_limit s.codec.nal_unit_length
    → length s.frame.samples < 256
    → Parses post next_nalu s
        (nalu_length s.codec.nal_unit_length (length n) ++ n)
        tt
        (with_nalu n s)
unfolding next_nalu Parses
Parses-next_nalu post n s h d z b l pre =
    let k : ℕ = s.codec.nal_unit_length in
    Parses-require post (k + 1) ErrorCode.error_hls_avc_sample_size
      (lift (read_nalu_length k) >>= λ len. require_nalu len >> take_nalu len)
      (nalu_length k (length n) ++ n) s (with_nalu n s) tt
      (omega
        (arith, length-append (nalu_length k (length n)) n, length-nalu_length k (length n) h d))
      (Parses-read post (read_nalu_length k) (λ len. require_nalu len >> take_nalu len)
        (nalu_length k (length n)) n s (with_nalu n s) (length n) tt
        (Reads-nalu_length k (length n) b)
        (Parses-require_nalu post n (take_nalu (length n)) s (with_nalu n s)
          (below_limit k (length n) b) (Parses-take_nalu post n s z l)))
      pre

-- The frame with all of them.
abbrev pub some_idr : List (List ℕ) → Bool
some_idr [] = false
some_idr (n ∷ ns) = if is_idr n then true else some_idr ns

abbrev pub with_nalus : List (List ℕ) → VideoParser → VideoParser
with_nalus [] s = s
with_nalus (n ∷ ns) s = with_nalus ns (with_nalu n s)

pub Parses-ibmf :
    (fuel : ℕ) (ns : List (List ℕ)) (s : VideoParser)
    → length ns < fuel
    → s.codec.nal_unit_length ≤ 3
    → s.codec.nal_unit_length ≢ 2
    → AreSized s.codec.nal_unit_length ns
    → length s.frame.samples + length ns ≤ 256
    → Parses []
        (avc_demux_ibmf_format fuel)
        s
        (ibmf s.codec.nal_unit_length ns)
        tt
        (with_nalus ns s)
unfolding avc_demux_ibmf_format Parses
Parses-ibmf zero ns s f h d z l = absurd (omega (arith, f))
Parses-ibmf (suc fuel) [] s f h d z l = λ pre.
    ap (λ (t : Bool). if t then (ok (tt, cursor pre []), s) else rest pre) (empty-cursor pre [])
    ∙ ap (λ q. (ok (tt, cursor q []), s)) (sym (append-nil pre))
  where
    rest : List ℕ → Outcome (Unit {0} × Buffer) × VideoParser
    rest pre = (next_nalu >> avc_demux_ibmf_format fuel) s (cursor pre [])
Parses-ibmf (suc fuel) (n ∷ ns) s f h d z l =
    let k : ℕ = s.codec.nal_unit_length in
    let one : Parses (ibmf k ns ++ []) next_nalu s (nalu_length k (length n) ++ n) tt
        (with_nalu n s) =
      Parses-next_nalu (ibmf k ns ++ []) n s h d z.0 z.1 (omega (arith, l)) in
    let more : Parses [] (avc_demux_ibmf_format fuel) (with_nalu n s) (ibmf k ns) tt
        (with_nalus (n ∷ ns) s) =
      Parses-ibmf fuel ns (with_nalu n s) (omega (arith, f)) h d z.2
        (omega (arith, l, length-append s.frame.samples (n ∷ []))) in
    λ pre.
      ap (λ (t : Bool). if t then (ok (tt, cursor pre (ibmf k (n ∷ ns) ++ [])), s) else rest pre)
        (some_left pre)
      ∙ subst
          (λ out.
            Parses [] (next_nalu >> avc_demux_ibmf_format fuel) s out tt (with_nalus (n ∷ ns) s))
          (append_assoc (nalu_length k (length n)) n (ibmf k ns))
          (Parses-bind [] next_nalu (λ _. avc_demux_ibmf_format fuel)
            (nalu_length k (length n) ++ n) (ibmf k ns) s (with_nalu n s) (with_nalus (n ∷ ns) s) tt
            tt one more)
          pre
  where
    rest : List ℕ → Outcome (Unit {0} × Buffer) × VideoParser
    rest pre =
        (next_nalu >> avc_demux_ibmf_format fuel) s
          (cursor pre (ibmf s.codec.nal_unit_length (n ∷ ns) ++ []))

    some_left :
        (pre : List ℕ) → empty (cursor pre (ibmf s.codec.nal_unit_length (n ∷ ns) ++ [])) ≡ false
    some_left pre =
        empty-cursor pre (ibmf s.codec.nal_unit_length (n ∷ ns) ++ [])
        ∙ ground (
          arith,
          z.0,
          ap length (append-nil (ibmf s.codec.nal_unit_length (n ∷ ns))),
          length-append (nalu_length s.codec.nal_unit_length (length n))
              (n ++ ibmf s.codec.nal_unit_length ns),
          length-append n (ibmf s.codec.nal_unit_length ns),
        )

-- What the frame then is.
pub with_nalus-samples :
    (ns : List (List ℕ)) (s : VideoParser)
    → with_nalus ns s ≡ record s {
      frame = record s.frame {
        samples = s.frame.samples ++ ns;
        has_idr = if some_idr ns then true else s.frame.has_idr;
      };
    }
with_nalus-samples [] s =
    λ i. record s { frame = record s.frame { samples = sym (append-nil s.frame.samples) i } }
with_nalus-samples (n ∷ ns) s = with_nalus-samples ns (with_nalu n s) ∙ (λ i. record s {
  frame = record s.frame {
    samples = append_assoc s.frame.samples (n ∷ []) ns i;
    has_idr = flags (is_idr n) (some_idr ns) s.frame.has_idr i;
  };
})
  where
    flags :
        (a b c : Bool)
        → (if b then true else (if a then true else c))
          ≡ (if (if a then true else b) then true else c)
    flags true true c = refl
    flags true false c = refl
    flags false b c = refl
