-- ===== src/Kernel/Format/Demux/Tag.antt =====
-- A video tag of FLV, whose first bytes SrsFormat::video_avc_demux of
-- src/kernel/srs_kernel_codec.cpp reads, and the codec that a sequence header leaves.
use srs_simple.Base.{
  ℕ, ◌+◌, ◌*◌, ◌%◌, ◌≡◌, ◌<◌, refl, sym, ap, subst, ◌∙◌, ◌&&◌, ltb, ◌==◌, if_cases, List, [], ◌∷◌,
  append-nil, length, some, Outcome, ok, arith,
}
use srs_simple.Base.Int.{ℤ}
use srs_simple.Kernel.Buffer.{init, read_1bytes, read_3bytes}
use srs_simple.Kernel.Buffer.Cursor.{cursor}
use srs_simple.Kernel.Buffer.Reads.{Reads-read_1bytes, Reads-three_bytes}
use srs_simple.Kernel.Format.{Format, VideoCodecConfig, VideoParser, Parser, ◌>>◌, modify}
use srs_simple.Kernel.Format.Parses.{
  Parses, Parses-read, Parses-require, Parses-modify, Parses-head_left,
}
use srs_simple.Kernel.Format.Avc.{store_sps, store_pps}
use srs_simple.Kernel.Format.Avc.Wire.{configured}
use srs_simple.Kernel.Format.Demux.{
  reset_video, set_frame_type, set_packet, demux_packet, read_avc, video_avc_demux, keep_video,
  video_parser, on_video,
}

-- A tag of H.264: the type of the frame and of the packet, the composition time, and the packet.
abbrev pub avc_tag : ℕ → ℕ → ℕ → ℕ → ℕ → List ℕ → List ℕ
avc_tag frame_type packet_type c2 c1 c0 body =
    (frame_type * 16 + 7) ∷ packet_type ∷ c2 ∷ c1 ∷ c0 ∷ body

-- The state before the packet is parsed.
abbrev pub tagged : ℤ → ℕ → ℕ → ℕ → List ℕ → VideoParser → VideoParser
tagged timestamp b packet_type time body s =
    set_packet packet_type time body (set_frame_type b (reset_video timestamp s))

pub Parses-tag :
    (fuel : ℕ) (timestamp : ℤ) (t n c2 c1 c0 : ℕ) (body : List ℕ) (s s' : VideoParser)
    → Parses []
        (demux_packet fuel n)
        (tagged timestamp (t * 16 + 7) n ((c2 * 256 + c1) * 256 + c0) body s)
        body
        tt
        s'
    → Parses [] (video_avc_demux fuel timestamp) s (avc_tag t n c2 c1 c0 body) tt s'
unfolding video_avc_demux read_avc
Parses-tag fuel timestamp t n c2 c1 c0 body s s' h =
    Parses-modify [] (reset_video timestamp) _ (avc_tag t n c2 c1 c0 body) s s' tt (
      Parses-read [] read_1bytes _ (b ∷ []) (n ∷ c2 ∷ c1 ∷ c0 ∷ body) (reset_video timestamp s) s' b
        tt (Reads-read_1bytes b)
        (Parses-modify [] (set_frame_type b) _ (n ∷ c2 ∷ c1 ∷ c0 ∷ body) (reset_video timestamp s)
          s' tt
          (if_cases {A = Parser VideoParser (Unit {0})}
            (λ m. Parses [] m s1 (n ∷ c2 ∷ c1 ∷ c0 ∷ body) tt s') (b % 16 == 7) _ _ (λ e. avc)
            (λ e. absurd (ground (arith, e))))))
  where
    b : ℕ
    b = t * 16 + 7

    s1 : VideoParser
    s1 = set_frame_type b (reset_video timestamp s)

    time : ℕ
    time = (c2 * 256 + c1) * 256 + c0

    avc : Parses [] (read_avc fuel) s1 (n ∷ c2 ∷ c1 ∷ c0 ∷ body) tt s'
    avc = Parses-require [] 4 _ _ (n ∷ c2 ∷ c1 ∷ c0 ∷ body) s1 s' tt (omega arith) (
        Parses-read [] read_1bytes _ (n ∷ []) (c2 ∷ c1 ∷ c0 ∷ body) s1 s' n tt (Reads-read_1bytes n)
          (Parses-read [] read_3bytes _ (c2 ∷ c1 ∷ c0 ∷ []) body s1 s' time tt
            (Reads-three_bytes c2 c1 c0)
            (Parses-head_left [] _ body s1 s' tt (
              subst
                (λ raw.
                  Parses [] (modify (set_packet n time raw) >> demux_packet fuel n) s1 body tt s')
                (sym (append-nil body))
                (Parses-modify [] (set_packet n time body) _ body s1 s' tt h)))))

pub on_video-parsed :
    (fuel : ℕ) (timestamp : ℤ) (payload : List ℕ) (f : Format) (s' : VideoParser)
    → 0 < length payload
    → Parses [] (video_avc_demux fuel timestamp) (video_parser f) payload tt s'
    → on_video fuel timestamp payload f
      ≡ (ok tt, record f { video = some s'.frame; vcodec = some s'.codec; raw = s'.raw })
unfolding on_video keep_video init Parses
on_video-parsed fuel timestamp payload f s' z h =
    if_cases {A = Outcome (Unit {0}) × Format}
      (λ r. r ≡ (ok tt, record f { video = some s'.frame; vcodec = some s'.codec; raw = s'.raw }))
      (length payload == 0) _ _ (λ e. absurd (ground (arith, e, z)))
      (λ e.
        ap (λ l. keep_video f (video_avc_demux fuel timestamp (video_parser f) (cursor [] l)))
          (sym (append-nil payload))
        ∙ ap (keep_video f) (h []))

-- A codec with its sets.
abbrev pub with_header :
    ℕ → ℕ → ℕ → List ℕ → List ℕ → List ℕ → ℕ → VideoCodecConfig → VideoCodecConfig
with_header l w h extra sps pps id c = record c {
  id = id;
  width = w;
  height = h;
  avc_extra_data = extra;
  nal_unit_length = l;
  sequence_parameter_set = sps;
  picture_parameter_set = pps;
}

-- No set yet.
abbrev pub IsFresh : VideoCodecConfig → Type 0
IsFresh c = (length c.sequence_parameter_set ≡ 0) × (length c.picture_parameter_set ≡ 0)

store_sps-new :
    (sps : List ℕ) (c : VideoCodecConfig)
    → 0 < length sps
    → length c.sequence_parameter_set ≡ 0
    → store_sps sps c ≡ record c { sequence_parameter_set = sps }
unfolding store_sps
store_sps-new sps c h e =
    if_cases {A = VideoCodecConfig} (λ d. d ≡ record c { sequence_parameter_set = sps })
      (ltb 0 (length sps) && (length c.sequence_parameter_set == 0)) _ _ (λ t. refl)
      (λ t. absurd (ground (arith, t, h, e)))

store_pps-new :
    (pps : List ℕ) (c : VideoCodecConfig)
    → 0 < length pps
    → length c.picture_parameter_set ≡ 0
    → store_pps pps c ≡ record c { picture_parameter_set = pps }
unfolding store_pps
store_pps-new pps c h e =
    if_cases {A = VideoCodecConfig} (λ d. d ≡ record c { picture_parameter_set = pps })
      (ltb 0 (length pps) && (length c.picture_parameter_set == 0)) _ _ (λ t. refl)
      (λ t. absurd (ground (arith, t, h, e)))

pub configured-new :
    (l : ℕ) (sps pps extra : List ℕ) (c : VideoCodecConfig)
    → l < 4
    → 0 < length sps
    → 0 < length pps
    → IsFresh c
    → configured l (sps ∷ []) (pps ∷ []) extra c
      ≡ with_header l c.width c.height extra sps pps c.id c
configured-new l sps pps extra c hl hs hp e =
    ap (store_pps pps) (
      store_sps-new sps (record c { avc_extra_data = extra; nal_unit_length = (252 + l) % 4 }) hs
        e.0)
    ∙ store_pps-new pps
        (record c {
          avc_extra_data = extra;
          nal_unit_length = (252 + l) % 4;
          sequence_parameter_set = sps;
        })
        hp e.1
    ∙ (λ i. with_header (low i) c.width c.height extra sps pps c.id c)
  where
    low : (252 + l) % 4 ≡ l
    low = omega (arith, hl)
