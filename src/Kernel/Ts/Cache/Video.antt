-- ===== src/Kernel/Ts/Cache/Video.antt =====
-- What cache_video appends, as a reader of the byte stream finds it (src/kernel/srs_kernel_ts.cpp).
use srs_simple.Base.{
  ℕ, ◌≡◌, ◌<◌, refl, ap, true, false, ◌==◌, if_cases, List, [], ◌∷◌, ◌++◌, length, length-append,
  Option, some, ok, arith,
}
use srs_simple.Base.Int.{ℤ}
use srs_simple.Kernel.Ts.{TsMessage}
use srs_simple.Kernel.Format.{VideoCodecConfig, VideoFrame}
use srs_simple.Kernel.Ts.Cache.{video_message, keep_payload, cache_video}
use srs_simple.Kernel.Ts.Cache.AnnexB.{
  is_start, is_nalu, annex_b, AreNalus, read_annex_b, read_annex_b-annex_b,
}
use srs_simple.Kernel.Ts.Cache.AccessUnit.{
  some_aud, set_of, with_sets, access_unit, nal_unit_type, do_cache_avc-annex_b,
}

-- The parameter sets are NALUs, where they are there.
abbrev pub AreSets : VideoCodecConfig → Type 0
AreSets c = (is_nalu c.sequence_parameter_set ≡ true) × AreNalus (set_of c.picture_parameter_set)

append-AreNalus : (ns ms : List (List ℕ)) → AreNalus ns → AreNalus ms → AreNalus (ns ++ ms)
append-AreNalus [] ms h k = k
append-AreNalus (n ∷ ns) ms h k = (h.0, append-AreNalus ns ms h.1 k)

pub set_of-AreNalus : (s : List ℕ) → is_nalu s ≡ true → AreNalus (set_of s)
set_of-AreNalus [] h = tt
set_of-AreNalus (b ∷ bs) h = (h, tt)

with_sets-AreNalus :
    (c : VideoCodecConfig) (ss : List (List ℕ))
    → AreSets c
    → AreNalus ss
    → AreNalus (with_sets c ss)
unfolding with_sets
with_sets-AreNalus c [] k h = tt
with_sets-AreNalus c (s ∷ ss) k h =
    if_cases {A = List (List ℕ)} AreNalus (nal_unit_type s == 5) _ _
      (λ _.
        append-AreNalus (set_of c.sequence_parameter_set) _
          (set_of-AreNalus c.sequence_parameter_set k.0)
          (append-AreNalus (set_of c.picture_parameter_set) (s ∷ ss) k.1 h))
      (λ _. (h.0, with_sets-AreNalus c ss k h.1))

with_sets-some :
    (c : VideoCodecConfig) (ss : List (List ℕ)) → some_aud ss ≡ true → 0 < length (with_sets c ss)
unfolding with_sets some_aud
with_sets-some c [] h = absurd (ground (arith, h))
with_sets-some c (s ∷ ss) h =
    if_cases {A = List (List ℕ)} (λ ns. 0 < length ns) (nal_unit_type s == 5) _ _
      (λ _. omega (
        arith,
        length-append (set_of c.sequence_parameter_set)
            (set_of c.picture_parameter_set ++ (s ∷ ss)),
        length-append (set_of c.picture_parameter_set) (s ∷ ss),
      ))
      (λ _. omega arith)

-- An access unit has a NALU, since samples without a delimiter get one.
access_unit-AreNalus :
    (c : VideoCodecConfig) (ss : List (List ℕ))
    → AreSets c
    → AreNalus ss
    → (0 < length (access_unit c ss)) × AreNalus (access_unit c ss)
unfolding access_unit is_nalu is_start
access_unit-AreNalus c ss k h =
    if_cases {A = List (List ℕ)} (λ ns. (0 < length ns) × AreNalus ns) (some_aud ss) _ _
      (λ e. (with_sets-some c ss e, with_sets-AreNalus c ss k h))
      (λ _. (omega arith, (refl, with_sets-AreNalus c ss k h)))

read_nalus :
    (ns : List (List ℕ)) → 0 < length ns → AreNalus ns → read_annex_b (annex_b false ns) ≡ some ns
read_nalus [] z h = absurd (omega (arith, z))
read_nalus (n ∷ ns) z h = read_annex_b-annex_b n ns h

is_nalu-some : (s : List ℕ) → is_nalu s ≡ true → 0 < length s
unfolding is_nalu
is_nalu-some [] h = absurd (ground (arith, h))
is_nalu-some (b ∷ bs) h = omega arith

-- Where the samples and the SPS are NALUs, the PPS is one or empty, and each holds no start code and
-- does not end in 0, cache_video ends without an error: it keeps the times of the video message that
-- is there, or makes one of the frame's times, and appends bytes to its payload in which a reader of
-- Annex B finds just the samples, each whole and in their order, with the SPS and the PPS right before
-- the first IDR, and an access unit delimiter as the first where the samples have none.
pub cache_video-access_unit :
    (c : VideoCodecConfig) (f : VideoFrame) (dts : ℤ) (video : Option TsMessage)
    → AreSets c
    → AreNalus f.samples
    → (out : List ℕ) × (cache_video (some c) f dts video ≡ (
      ok tt,
      some (record (video_message f dts video) {
        payload = (video_message f dts video).payload ++ out;
      }),
    ))
      × (read_annex_b out ≡ some (access_unit c f.samples))
unfolding cache_video keep_payload
cache_video-access_unit c f dts video k h =
    let n = access_unit-AreNalus c f.samples k h in
    (
      annex_b false (access_unit c f.samples),
      ap (keep_payload (video_message f dts video)) (
          do_cache_avc-annex_b c f.samples (video_message f dts video).payload
            (is_nalu-some c.sequence_parameter_set k.0) h),
      read_nalus (access_unit c f.samples) n.0 n.1,
    )
