-- ===== src/Kernel/Format/Avc/Sets.antt =====
-- The parameter sets of a sequence header of H.264, and the parts of SrsFormat::avc_demux_sps_pps of
-- src/kernel/srs_kernel_codec.cpp that read them.
use srs_simple.Base.{
  ℕ, ◌*◌, ◌%◌, ◌≡◌, ◌≢◌, ◌≤◌, ◌<◌, refl, sym, ap, subst, ◌∙◌, Bool, true, false, ◌==◌,
  if◌then◌else◌, List, [], ◌∷◌, ◌++◌, append-nil, length, length-append, Outcome, ok, err,
  ErrorCode, arith,
}
use srs_simple.Kernel.Buffer.{Buffer, read_1bytes, read_2bytes}
use srs_simple.Kernel.Buffer.Bytes.{be2}
use srs_simple.Kernel.Buffer.Cursor.{cursor}
use srs_simple.Kernel.Buffer.Reads.{Reads-read_1bytes, Reads-read_2bytes}
use srs_simple.Kernel.Format.{VideoCodecConfig, VideoParser, Parser, after, ◌>>◌, is_avc_codec_ok}
use srs_simple.Kernel.Format.Sps.{avc_demux_sps}
use srs_simple.Kernel.Format.Sps.Total.{Ends, avc_demux_sps-Ends}
use srs_simple.Kernel.Format.Avc.{
  store_pps, on_codec, read_sets, ignore_error, check_sps, read_pps_sets, check_length,
}
use srs_simple.Kernel.Format.Parses.{
  Parses, Parses-pure, Parses-read, Parses-require, Parses-modify, Parses-head_bytes, Parses-skip,
}

-- Parameter sets, each behind its length.
abbrev pub sets_wire : List (List ℕ) → List ℕ
sets_wire [] = []
sets_wire (x ∷ xs) = be2 (length x) ++ (x ++ sets_wire xs)

abbrev pub stored :
    (List ℕ → VideoCodecConfig → VideoCodecConfig)
    → List (List ℕ)
    → VideoCodecConfig
    → VideoCodecConfig
stored keep [] c = c
stored keep (x ∷ xs) c = stored keep xs (keep x c)

abbrev pub AreShort : ℕ → List (List ℕ) → Type 0
AreShort n [] = Unit
AreShort n (x ∷ xs) = (length x < n) × AreShort n xs

Parses-read_sets :
    (post : List ℕ) (keep : List ℕ → VideoCodecConfig → VideoCodecConfig) (xs : List (List ℕ))
    (s : VideoParser)
    → AreShort 65536 xs
    → Parses post (read_sets keep (length xs)) s (sets_wire xs) tt (on_codec (stored keep xs) s)
unfolding read_sets
Parses-read_sets post keep [] s h = Parses-pure post s tt
Parses-read_sets post keep (x ∷ xs) s h =
    Parses-require post 2 ErrorCode.error_hls_decode_error _ (sets_wire (x ∷ xs)) s _ tt
      (omega arith)
      (Parses-read post read_2bytes _ (be2 (length x)) (x ++ sets_wire xs) s _ (length x) tt
        (Reads-read_2bytes (length x) h.0)
        (Parses-require post (length x) ErrorCode.error_hls_decode_error _ (x ++ sets_wire xs) s _
          tt (omega (arith, length-append x (sets_wire xs)))
          (Parses-head_bytes post x _ (sets_wire xs) s _ tt (
            Parses-modify post (on_codec (keep x)) _ (x ++ sets_wire xs) s _ tt (
              Parses-skip post x _ (sets_wire xs) (on_codec (keep x) s) _ tt
                (Parses-read_sets post keep xs (on_codec (keep x) s) h.1))))))

-- A count in the low 5 bits of a byte.
pub Parses-counted :
    (post : List ℕ) (b : ℕ) (keep : List ℕ → VideoCodecConfig → VideoCodecConfig)
    (xs : List (List ℕ)) (s : VideoParser)
    → b % 32 ≡ length xs
    → AreShort 65536 xs
    → Parses post (read_sets keep (b % 32)) s (sets_wire xs) tt (on_codec (stored keep xs) s)
Parses-counted post b keep xs s e h =
    subst (λ n. Parses post (read_sets keep n) s (sets_wire xs) tt (on_codec (stored keep xs) s))
      (sym e) (Parses-read_sets post keep xs s h)

pub Parses-read_pps_sets :
    (post : List ℕ) (b : ℕ) (xs : List (List ℕ)) (s : VideoParser)
    → b % 32 ≡ length xs
    → AreShort 65536 xs
    → Parses post read_pps_sets s (b ∷ sets_wire xs) tt (on_codec (stored store_pps xs) s)
unfolding read_pps_sets
Parses-read_pps_sets post b xs s e h =
    Parses-require post 1 ErrorCode.error_hls_decode_error _ (b ∷ sets_wire xs) s _ tt (omega arith)
      (Parses-read post read_1bytes _ (b ∷ []) (sets_wire xs) s _ b tt (Reads-read_1bytes b)
        (Parses-counted post b store_pps xs s e h))

abbrev pub sized : ℕ → ℕ → VideoCodecConfig → VideoCodecConfig
sized w h c = record c { width = w; height = h }

ignore_error-sized :
    (o : Outcome VideoCodecConfig) (s : VideoParser)
    → Ends (λ c'. (w : ℕ) × (h : ℕ) × (c' ≡ record s.codec { width = w; height = h })) o
    → (w : ℕ) × (h : ℕ) × ((b : Buffer) → ignore_error o s b ≡ (ok (tt, b), on_codec (sized w h) s))
unfolding ignore_error
ignore_error-sized (ok c) s e = (e.0, e.1, λ b. ap (λ d. (ok (tt, b), record s { codec = d })) e.2)
ignore_error-sized (err x) s e = (s.codec.width, s.codec.height, λ b. refl)
ignore_error-sized Outcome.aborted s e = absurd e
ignore_error-sized Outcome.fault s e = absurd e
ignore_error-sized Outcome.stuck s e = absurd e

-- The size of the picture is some size, or stays.
pub Parses-check_sps :
    (post : List ℕ) (fuel : ℕ) (s : VideoParser)
    → is_avc_codec_ok s.codec ≡ true
    → 8 * length s.codec.sequence_parameter_set ≤ fuel
    → (w : ℕ) × (h : ℕ) × Parses post (check_sps fuel) s [] tt (on_codec (sized w h) s)
unfolding check_sps Parses
Parses-check_sps post fuel s c f =
    let r =
      ignore_error-sized (avc_demux_sps fuel s.codec.sequence_parameter_set s.codec) s
        (avc_demux_sps-Ends fuel s.codec.sequence_parameter_set s.codec f) in
    (
      r.0,
      r.1,
      λ pre.
          ap
            (λ (t : Bool).
              if t
              then ignore_error (avc_demux_sps fuel s.codec.sequence_parameter_set s.codec) s
                  (cursor pre post)
              else (err ErrorCode.error_hls_decode_error, s))
            c
          ∙ r.2 (cursor pre post)
          ∙ ap (λ l. (ok (tt, cursor l post), on_codec (sized r.0 r.1) s)) (sym (append-nil pre)),
    )

pub Parses-check_length :
    (post : List ℕ) (n : ℕ) (m : Parser VideoParser (Unit {0})) (out : List ℕ) (s s' : VideoParser)
    → n % 4 ≢ 2
    → Parses post m s out tt s'
    → Parses post (check_length n >> m) s out tt s'
unfolding check_length Parses
Parses-check_length post n m out s s' d h pre =
    ap (λ (t : Bool). after (λ _. m) (tested t).0 (tested t).1) no ∙ h pre
  where
    no : (n % 4 == 2) ≡ false
    no = ground (arith, d)

    tested : Bool → Outcome (Unit {0} × Buffer) × VideoParser
    tested t =
        if t
        then (err ErrorCode.error_hls_decode_error, s)
        else (ok (tt, cursor pre (out ++ post)), s)
