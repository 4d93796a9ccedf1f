-- ===== src/Kernel/Ts/Cache/AccessUnit.antt =====
-- The access unit that SrsTsMessageCache makes of a video frame (src/kernel/srs_kernel_ts.cpp).
use srs_simple.Base.{
  ℕ, ◌%◌, ◌≡◌, ◌<◌, refl, sym, ap, ◌∙◌, Bool, true, false, Bool-cases, inl, inr, ◌==◌, ◌||◌,
  if◌then◌else◌, if_cases, List, [], ◌∷◌, ◌++◌, length, append-nil, append_assoc, some, Outcome, ok,
  and_then, arith,
}
use srs_simple.Kernel.Format.{VideoCodecConfig, is_avc_codec_ok}
use srs_simple.Kernel.Ts.Cache.{
  has_aud, srs_avc_insert_aud, append_nalu, append_set, cache_nalus, do_cache_avc,
}
use srs_simple.Kernel.Ts.Cache.AnnexB.{is_nalu, start_code, annex_b, AreNalus}

unfoldable pub nal_unit_type : List ℕ → ℕ
nal_unit_type [] = 0
nal_unit_type (b ∷ bs) = b % 32

unfoldable pub some_aud : List (List ℕ) → Bool
some_aud [] = false
some_aud (s ∷ ss) = nal_unit_type s == 9 || some_aud ss

-- A parameter set, where there is one.
abbrev pub set_of : List ℕ → List (List ℕ)
set_of [] = []
set_of (b ∷ bs) = (b ∷ bs) ∷ []

-- The samples, with the parameter sets before the first IDR.
unfoldable pub with_sets : VideoCodecConfig → List (List ℕ) → List (List ℕ)
with_sets c [] = []
with_sets c (s ∷ ss) =
    if nal_unit_type s == 5
    then set_of c.sequence_parameter_set ++ (set_of c.picture_parameter_set ++ (s ∷ ss))
    else s ∷ with_sets c ss

-- An access unit delimiter is first, where the samples have none.
unfoldable pub access_unit : VideoCodecConfig → List (List ℕ) → List (List ℕ)
access_unit c ss = if some_aud ss then with_sets c ss else (9 ∷ 240 ∷ []) ∷ with_sets c ss

append_nalu-annex_b :
    (payload : List ℕ) (a : Bool) (n : List ℕ)
    → append_nalu n (payload, a) ≡ (payload ++ (start_code a ++ n), true)
unfolding append_nalu srs_avc_insert_aud
append_nalu-annex_b payload true n =
    ap (λ (l : List ℕ). (l, true)) (append_assoc payload (start_code true) n)
append_nalu-annex_b payload false n =
    ap (λ (l : List ℕ). (l, true)) (append_assoc payload (start_code false) n)

-- What a list of NALUs appends, before the others.
annex_b-cons :
    (payload : List ℕ) (a : Bool) (n : List ℕ) (ns : List (List ℕ))
    → (payload ++ (start_code a ++ n)) ++ annex_b true ns ≡ payload ++ annex_b a (n ∷ ns)
annex_b-cons payload a n ns =
    append_assoc payload (start_code a ++ n) (annex_b true ns)
    ∙ ap (λ l. payload ++ l) (append_assoc (start_code a) n (annex_b true ns))

append_set-annex_b :
    (payload s : List ℕ) (ns : List (List ℕ))
    → ((append_set s (payload, true)).1 ≡ true)
      × ((append_set s (payload, true)).0 ++ annex_b true ns
          ≡ payload ++ annex_b true (set_of s ++ ns))
unfolding append_set
append_set-annex_b payload [] ns = (refl, refl)
append_set-annex_b payload (b ∷ bs) ns =
    let e = append_nalu-annex_b payload true (b ∷ bs) in
    (
      ap (λ (p : List ℕ × Bool). p.1) e,
      ap (λ (p : List ℕ × Bool). p.0 ++ annex_b true ns) e ∙ annex_b-cons payload true (b ∷ bs) ns,
    )

-- The loop behind the parameter sets.
cache_nalus-annex_b :
    (c : VideoCodecConfig) (ss : List (List ℕ)) (payload : List ℕ) (a : Bool)
    → AreNalus ss
    → cache_nalus c true ss (payload, a) ≡ ok (payload ++ annex_b a ss)
unfolding cache_nalus is_nalu
cache_nalus-annex_b c [] payload a h = ap ok (sym (append-nil payload))
cache_nalus-annex_b c ([] ∷ ss) payload a h = absurd (ground (arith, h.0))
cache_nalus-annex_b c ((b ∷ bs) ∷ ss) payload a h =
    ap (cache_nalus c true ss) (append_nalu-annex_b payload a (b ∷ bs))
    ∙ cache_nalus-annex_b c ss (payload ++ (start_code a ++ (b ∷ bs))) true h.1
    ∙ ap ok (annex_b-cons payload a (b ∷ bs) ss)

append_sets-annex_b :
    (payload : List ℕ) (a : Bool) (sps pps : List ℕ) (ns : List (List ℕ))
    → 0 < length sps
    → (r : List ℕ) × (append_set pps (append_set sps (payload, a)) ≡ (r, true))
      × (r ++ annex_b true ns ≡ payload ++ annex_b a (set_of sps ++ (set_of pps ++ ns)))
unfolding append_set
append_sets-annex_b payload a [] pps ns h = absurd (omega (arith, h))
append_sets-annex_b payload a (d ∷ ds) pps ns h =
    let q : List ℕ = payload ++ (start_code a ++ (d ∷ ds)) in
    let s = append_set-annex_b q pps ns in
    (
      (append_set pps (q, true)).0,
      ap (append_set pps) (append_nalu-annex_b payload a (d ∷ ds))
          ∙ (λ i. ((append_set pps (q, true)).0, s.0 i)),
      s.1 ∙ annex_b-cons payload a (d ∷ ds) (set_of pps ++ ns),
    )

cache_nalus-with_sets :
    (c : VideoCodecConfig) (ss : List (List ℕ)) (payload : List ℕ) (a : Bool)
    → 0 < length c.sequence_parameter_set
    → AreNalus ss
    → cache_nalus c false ss (payload, a) ≡ ok (payload ++ annex_b a (with_sets c ss))
unfolding cache_nalus with_sets is_nalu nal_unit_type
cache_nalus-with_sets c [] payload a z h = ap ok (sym (append-nil payload))
cache_nalus-with_sets c ([] ∷ ss) payload a z h = absurd (ground (arith, h.0))
cache_nalus-with_sets c ((b ∷ bs) ∷ ss) payload a z h =
    let n =
      append_sets-annex_b payload a c.sequence_parameter_set c.picture_parameter_set ((b ∷ bs) ∷ ss)
        z in
    elim (Bool-cases (b % 32 == 5)) [
      | inl e ↦
          ap run e
          ∙ ap (λ p. cache_nalus c true ((b ∷ bs) ∷ ss) p) n.1
          ∙ cache_nalus-annex_b c ((b ∷ bs) ∷ ss) n.0 true h
          ∙ ap ok n.2
          ∙ ap unit (sym e)
      | inr e ↦
          ap run e
          ∙ ap (cache_nalus c false ss) (append_nalu-annex_b payload a (b ∷ bs))
          ∙ cache_nalus-with_sets c ss (payload ++ (start_code a ++ (b ∷ bs))) true z h.1
          ∙ ap ok (annex_b-cons payload a (b ∷ bs) (with_sets c ss))
          ∙ ap unit (sym e)
    ]
  where
    run : Bool → Outcome (List ℕ)
    run t = cache_nalus c t ss (
        append_nalu (b ∷ bs) (
          if t
          then append_set c.picture_parameter_set (append_set c.sequence_parameter_set (payload, a))
          else (payload, a)))

    unit : Bool → Outcome (List ℕ)
    unit t = ok (
        payload
        ++ annex_b a (
            if t
            then set_of c.sequence_parameter_set
              ++ (set_of c.picture_parameter_set ++ ((b ∷ bs) ∷ ss))
            else (b ∷ bs) ∷ with_sets c ss))

has_aud-some_aud : (ss : List (List ℕ)) → AreNalus ss → has_aud ss ≡ ok (some_aud ss)
unfolding has_aud some_aud is_nalu nal_unit_type
has_aud-some_aud [] h = refl
has_aud-some_aud ([] ∷ ss) h = absurd (ground (arith, h.0))
has_aud-some_aud ((b ∷ bs) ∷ ss) h =
    if_cases {A = Outcome Bool} (λ o. o ≡ ok (b % 32 == 9 || some_aud ss)) (b % 32 == 9) _ _
      (λ e. ap (λ t. ok (t || some_aud ss)) (sym e))
      (λ e. has_aud-some_aud ss h.1 ∙ ap (λ t. ok (t || some_aud ss)) (sym e))

-- With a delimiter before it, or not.
from_aud :
    (c : VideoCodecConfig) (ss : List (List ℕ)) (payload : List ℕ) (aud : Bool)
    → 0 < length c.sequence_parameter_set
    → AreNalus ss
    → cache_nalus c false ss
        (if aud then (payload, false) else append_nalu (9 ∷ 240 ∷ []) (payload, false))
      ≡ ok (
          payload
          ++ annex_b false (if aud then with_sets c ss else (9 ∷ 240 ∷ []) ∷ with_sets c ss))
from_aud c ss payload true z h = cache_nalus-with_sets c ss payload false z h
from_aud c ss payload false z h =
    ap (cache_nalus c false ss) (append_nalu-annex_b payload false (9 ∷ 240 ∷ []))
    ∙ cache_nalus-with_sets c ss (payload ++ (start_code false ++ (9 ∷ 240 ∷ []))) true z h
    ∙ ap ok (annex_b-cons payload false (9 ∷ 240 ∷ []) (with_sets c ss))

pub do_cache_avc-annex_b :
    (c : VideoCodecConfig) (ss : List (List ℕ)) (payload : List ℕ)
    → 0 < length c.sequence_parameter_set
    → AreNalus ss
    → do_cache_avc (some c) ss payload ≡ ok (payload ++ annex_b false (access_unit c ss))
unfolding do_cache_avc is_avc_codec_ok access_unit
do_cache_avc-annex_b c ss payload z h =
    if_cases {A = Outcome (List ℕ)} (λ o. o ≡ ok (payload ++ annex_b false (access_unit c ss)))
      (is_avc_codec_ok c) _ _
      (λ _.
        ap
          (λ o. and_then o (λ aud.
            cache_nalus c false ss
              (if aud then (payload, false) else append_nalu (9 ∷ 240 ∷ []) (payload, false))))
          (has_aud-some_aud ss h)
        ∙ from_aud c ss payload (some_aud ss) z h)
      (λ e. absurd (ground (arith, e, z)))
