-- ===== src/Kernel/Format/Avc/Wire.antt =====
-- The sequence header of H.264, as FLV has it, through SrsFormat::avc_demux_sps_pps of
-- src/kernel/srs_kernel_codec.cpp.
use srs_simple.Base.{
  ℕ, ◌+◌, ◌*◌, ◌%◌, ◌≡◌, ◌≢◌, ◌≤◌, ◌<◌, sym, subst, true, List, [], ◌∷◌, ◌++◌, append-nil, length,
  ErrorCode, arith,
}
use srs_simple.Base.Int.{ℤ}
use srs_simple.Kernel.Buffer.{skip, read_1bytes}
use srs_simple.Kernel.Buffer.Reads.{Reads-read_1bytes}
use srs_simple.Kernel.Format.{
  VideoCodecConfig, VideoParser, Parser, ◌>>=◌, ◌>>◌, lift, modify, is_avc_codec_ok,
}
use srs_simple.Kernel.Format.Avc.{
  store_sps, store_pps, on_codec, read_sets, check_sps, read_pps_sets, check_length,
  avc_demux_sps_pps,
}
use srs_simple.Kernel.Format.Parses.{
  Parses, Parses-bind, Parses-read, Parses-require, Parses-modify, Parses-head_left, Parses-skip,
}
use srs_simple.Kernel.Format.Avc.Sets.{
  sets_wire, stored, AreShort, Parses-counted, Parses-read_pps_sets, sized, Parses-check_sps,
  Parses-check_length,
}

-- An AVCDecoderConfigurationRecord (ISO 14496-15), with the size of a NALU's length less one.
abbrev pub sets_part : List (List ℕ) → List (List ℕ) → List ℕ
sets_part spss ppss = sets_wire spss ++ (length ppss ∷ sets_wire ppss)

abbrev pub avcc : ℕ → ℕ → ℕ → ℕ → List (List ℕ) → List (List ℕ) → List ℕ
avcc profile compatibility level l spss ppss =
    1 ∷ profile ∷ compatibility ∷ level ∷ (252 + l) ∷ (224 + length spss) ∷ sets_part spss ppss

-- The codec that the sets of a header leave, by what it was and the bytes of the header.
abbrev pub configured :
    ℕ → List (List ℕ) → List (List ℕ) → List ℕ → VideoCodecConfig → VideoCodecConfig
configured l spss ppss extra c =
    stored store_pps ppss
      (stored store_sps spss (record c { avc_extra_data = extra; nal_unit_length = (252 + l) % 4 }))

module _ (fuel l : ℕ) (spss ppss : List (List ℕ)) (hl : (252 + l) % 4 ≢ 2) (ns : length spss < 32)
    (np : length ppss < 32) (hs : AreShort 65536 spss) (hp : AreShort 65536 ppss) where
  -- Behind the byte with the number of SPS, for a state that has the length.
  Parses-sets :
      (s : VideoParser)
      → is_avc_codec_ok (stored store_pps ppss (stored store_sps spss s.codec)) ≡ true
      → 8 * length (stored store_pps ppss (stored store_sps spss s.codec)).sequence_parameter_set
        ≤ fuel
      → (w : ℕ) × (h : ℕ) × Parses []
          (read_sets store_sps ((224 + length spss) % 32) >> (read_pps_sets >> check_sps fuel))
          s
          (sets_part spss ppss)
          tt
          (on_codec (λ c. sized w h (stored store_pps ppss (stored store_sps spss c))) s)
  Parses-sets s k f =
      let s2 : VideoParser = on_codec (λ c. stored store_pps ppss (stored store_sps spss c)) s in
      let (w, h, q) = Parses-check_sps [] fuel s2 k f in
      let rest =
        Parses-bind [] read_pps_sets (λ _. check_sps fuel) (length ppss ∷ sets_wire ppss) []
          (on_codec (stored store_sps spss) s) s2 (on_codec (sized w h) s2) tt tt
          (Parses-read_pps_sets [] (length ppss) ppss (on_codec (stored store_sps spss) s)
            (omega (arith, np)) hp)
          q in
      (
        w,
        h,
        subst
            (λ o.
              Parses []
                (read_sets store_sps ((224 + length spss) % 32)
                  >> (read_pps_sets >> check_sps fuel))
                s (sets_wire spss ++ o) tt (on_codec (sized w h) s2))
            (append-nil (length ppss ∷ sets_wire ppss))
            (Parses-bind [] (read_sets store_sps ((224 + length spss) % 32))
              (λ _. read_pps_sets >> check_sps fuel) (sets_wire spss)
              ((length ppss ∷ sets_wire ppss) ++ []) s (on_codec (stored store_sps spss) s)
              (on_codec (sized w h) s2) tt tt
              (Parses-counted (((length ppss ∷ sets_wire ppss) ++ []) ++ []) (224 + length spss)
                store_sps spss s (omega (arith, ns)) hs)
              rest),
      )

  -- A header is read whole, and ends without an error.
  pub Parses-avcc :
      (profile compatibility level : ℕ) (s : VideoParser)
      → is_avc_codec_ok
          (configured l spss ppss (avcc profile compatibility level l spss ppss) s.codec)
        ≡ true
      → 8
          * length
              (configured l spss ppss
                (avcc profile compatibility level l spss ppss)
                s.codec).sequence_parameter_set
        ≤ fuel
      → (w : ℕ) × (h : ℕ) × Parses []
          (avc_demux_sps_pps fuel)
          s
          (avcc profile compatibility level l spss ppss)
          tt
          (on_codec
            (λ c.
              sized w h (configured l spss ppss (avcc profile compatibility level l spss ppss) c))
            s)
  unfolding avc_demux_sps_pps
  Parses-avcc profile compatibility level s k f =
      let wire : List ℕ = avcc profile compatibility level l spss ppss in
      let s1 : VideoParser = on_codec (λ c. record c { avc_extra_data = wire }) s in
      let s2 : VideoParser = on_codec (λ c. record c { nal_unit_length = (252 + l) % 4 }) s1 in
      let (w, h, q) = Parses-sets s2 k f in
      let s3 : VideoParser =
        on_codec (λ c. sized w h (stored store_pps ppss (stored store_sps spss c))) s2 in
      let part : List ℕ = sets_part spss ppss in
      (
        w,
        h,
        Parses-require [] 6 ErrorCode.error_hls_decode_error _ wire s s3 tt (omega arith) (
            Parses-head_left [] _ wire s s3 tt (
              subst
                (λ extra.
                  Parses []
                    (modify (on_codec (λ c. record c { avc_extra_data = extra })) >> behind_extra) s
                    wire tt s3)
                (sym (append-nil wire))
                (Parses-modify [] (on_codec (λ c. record c { avc_extra_data = wire })) _ wire s s3
                  tt
                  (Parses-skip [] (1 ∷ profile ∷ compatibility ∷ level ∷ []) _
                    ((252 + l) ∷ (224 + length spss) ∷ part) s1 s3 tt
                    (Parses-read [] read_1bytes _ ((252 + l) ∷ []) ((224 + length spss) ∷ part) s1
                      s3 (252 + l) tt (Reads-read_1bytes (252 + l))
                      (Parses-modify []
                        (on_codec (λ c. record c { nal_unit_length = (252 + l) % 4 })) _
                        ((224 + length spss) ∷ part) s1 s3 tt
                        (Parses-check_length [] (252 + l) _ ((224 + length spss) ∷ part) s2 s3 hl (
                          Parses-read [] read_1bytes _ ((224 + length spss) ∷ []) part s2 s3
                            (224 + length spss) tt (Reads-read_1bytes (224 + length spss))
                            q)))))))),
      )
    where
      behind_extra : Parser VideoParser (Unit {0})
      behind_extra = do
        lift (skip (ℤ.pos 4))
        size ← lift read_1bytes
        modify (on_codec (λ c. record c { nal_unit_length = size % 4 }))
        check_length size
        n ← lift read_1bytes
        read_sets store_sps (n % 32)
        read_pps_sets
        check_sps fuel
