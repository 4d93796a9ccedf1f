-- ===== src/Protocol/Chunk/Header.antt =====
-- src/protocol/srs_protocol_rtmp_stack.cpp and src/kernel/srs_kernel_flv.cpp: the headers that are
-- read are those that were written.
use srs_simple.Base.{
  ℕ, ◌+◌, ◌-◌, ◌*◌, ◌/◌, ◌%◌, ◌^◌, ◌≤◌, ◌<◌, ◌≡◌, sym, ap, subst, true, false, ltb, if◌then◌else◌,
  List, [], ◌∷◌, arith, if_cases, error_socket_read,
}
use srs_simple.Kernel.Buffer.{◌>>=◌, ◌>>◌, pure}
use srs_simple.Kernel.Buffer.Bytes.{be3, be4, le4}
use srs_simple.Kernel.Buffer.Reads.{
  Reads, Reads-pure, Reads-bind, Reads-require, Reads-value, Reads-byte,
}
use srs_simple.Protocol.Chunk.{
  ChunkStream, grow, slice3, slice4, slice_le4, read_cid, read_basic_header, set_extended,
  take_extended, read_extended,
}

pub Reads-slice3 : (v : ℕ) → v < 2 ^ 24 → Reads slice3 (be3 v) v
unfolding slice3
Reads-slice3 v h =
    Reads-byte _ _ _ (Reads-byte _ _ _ (Reads-byte _ _ _ (Reads-value (omega arith))))

pub Reads-slice4 : (v : ℕ) → v < 2 ^ 32 → Reads slice4 (be4 v) v
unfolding slice4
Reads-slice4 v h =
    Reads-byte _ _ _
      (Reads-byte _ _ _ (Reads-byte _ _ _ (Reads-byte _ _ _ (Reads-value (omega arith)))))

pub Reads-slice_le4 : (v : ℕ) → v < 2 ^ 32 → Reads slice_le4 (le4 v) v
unfolding slice_le4
Reads-slice_le4 v h =
    Reads-byte _ _ _
      (Reads-byte _ _ _ (Reads-byte _ _ _ (Reads-byte _ _ _ (Reads-value (omega arith)))))

-- The three forms of the basic header, after the RTMP specification, 6.1.1.
unfoldable pub basic_header : ℕ → ℕ → List ℕ
basic_header fmt cid =
    if ltb cid 64
    then (fmt * 64 + cid) ∷ []
    else (if ltb cid 320
        then (fmt * 64) ∷ (cid - 64) ∷ []
        else (fmt * 64 + 1) ∷ ((cid - 64) % 256) ∷ ((cid - 64) / 256) ∷ [])

plus_zero : (n : ℕ) → n + 0 ≡ n
plus_zero n = omega arith

module _ (fmt cid : ℕ) where
  pub Reads-cid_1 : 2 ≤ cid → Reads (read_cid fmt cid) [] (fmt, cid)
  unfolding read_cid
  Reads-cid_1 h = let b : ltb 1 cid ≡ true = ground arith in rw b (Reads-pure (fmt, cid))

  Reads-cid_2 : 64 ≤ cid → Reads (read_cid fmt 0) ((cid - 64) ∷ []) (fmt, cid)
  unfolding read_cid
  Reads-cid_2 h = Reads-require 1 error_socket_read _ ((cid - 64) ∷ []) (omega arith) (
      Reads-byte _ _ _
        (Reads-value (let e : 64 + (cid - 64) ≡ cid = omega arith in ap (λ n. (fmt, n)) e)))

  Reads-cid_3 :
      64 ≤ cid → Reads (read_cid fmt 1) (((cid - 64) % 256) ∷ ((cid - 64) / 256) ∷ []) (fmt, cid)
  unfolding read_cid
  Reads-cid_3 h =
      Reads-require 2 error_socket_read _ (((cid - 64) % 256) ∷ ((cid - 64) / 256) ∷ [])
        (omega arith)
        (Reads-byte _ _ _ (
          Reads-byte _ _ _ (
            Reads-value (
              let e : 64 + (cid - 64) % 256 + (cid - 64) / 256 * 256 ≡ cid = omega arith in
              ap (λ n. (fmt, n)) e))))

  -- The first byte holds the form of the header.
  pub Reads-first :
      (low : ℕ) (out : List ℕ)
      → fmt < 4
      → low < 64
      → Reads (read_cid fmt low) out (fmt, cid)
      → Reads read_basic_header ((fmt * 64 + low) ∷ out) (fmt, cid)
  unfolding read_basic_header
  Reads-first low out f l h =
      let e1 : (fmt * 64 + low) / 64 % 4 ≡ fmt = omega arith in
      let e2 : (fmt * 64 + low) % 64 ≡ low = omega arith in
      Reads-require 1 error_socket_read _ ((fmt * 64 + low) ∷ out) (omega arith) (
        Reads-byte (fmt * 64 + low) (λ b. read_cid (b / 64 % 4) (b % 64)) out
          (subst (λ x. Reads (read_cid x ((fmt * 64 + low) % 64)) out (fmt, cid)) (sym e1)
            (subst (λ y. Reads (read_cid fmt y) out (fmt, cid)) (sym e2) h)))

  -- read_basic_header returns the fmt and the chunk stream id of the one-, two- and three-byte
  -- basic headers of the RTMP specification, for every fmt below 4 and id from 2 to 65599.
  pub read_basic_header-basic_header :
      fmt < 4 → 2 ≤ cid → cid < 65600 → Reads read_basic_header (basic_header fmt cid) (fmt, cid)
  unfolding basic_header
  read_basic_header-basic_header f l u =
      if_cases (λ o. Reads read_basic_header o (fmt, cid)) (ltb cid 64) ((fmt * 64 + cid) ∷ [])
        (if ltb cid 320
          then (fmt * 64) ∷ (cid - 64) ∷ []
          else (fmt * 64 + 1) ∷ ((cid - 64) % 256) ∷ ((cid - 64) / 256) ∷ [])
        (λ s. Reads-first cid [] f (ground arith) (Reads-cid_1 l))
        (λ s.
          if_cases (λ o. Reads read_basic_header o (fmt, cid)) (ltb cid 320)
            ((fmt * 64) ∷ (cid - 64) ∷ [])
            ((fmt * 64 + 1) ∷ ((cid - 64) % 256) ∷ ((cid - 64) / 256) ∷ [])
            (λ t.
              subst (λ b. Reads read_basic_header (b ∷ (cid - 64) ∷ []) (fmt, cid))
                (plus_zero (fmt * 64))
                (Reads-first 0 ((cid - 64) ∷ []) f (omega arith) (Reads-cid_2 (ground arith))))
            (λ t.
              Reads-first 1 (((cid - 64) % 256) ∷ ((cid - 64) / 256) ∷ []) f (omega arith)
                (Reads-cid_3 (ground arith))))

-- The header of one byte.
pub Reads-one_byte :
    (fmt cid : ℕ)
    → fmt < 4
    → 2 ≤ cid
    → cid < 64
    → Reads read_basic_header ((fmt * 64 + cid) ∷ []) (fmt, cid)
Reads-one_byte fmt cid f l u = Reads-first fmt cid cid [] f u (Reads-cid_1 fmt cid l)

module _ (c : ChunkStream) where
  pub Reads-read_extended :
      (t : ℕ)
      → t < 2 ^ 32
      → c.has_extended_timestamp ≡ true
      → Reads (read_extended 0 true c) (be4 t) (set_extended 0 true c (t % 2147483648))
  unfolding read_extended take_extended
  Reads-read_extended t h e =
      let k = λ (u : ℕ). take_extended 0 true c (u % 2147483648) in
      subst
        (λ b.
          Reads (if b then (grow 4 >> (slice4 >>= k)) else pure c) (be4 t)
            (set_extended 0 true c (t % 2147483648)))
        (sym e)
        (Reads-require 4 error_socket_read (slice4 >>= k) (be4 t) (omega arith) (
          Reads-bind slice4 k (be4 t) [] (Reads-slice4 t h)
            (Reads-pure (set_extended 0 true c (t % 2147483648)))))

  pub Reads-no_extended : c.has_extended_timestamp ≡ false → Reads (read_extended 0 true c) [] c
  unfolding read_extended
  Reads-no_extended e =
      let k = grow 4 >> (slice4 >>= λ t. take_extended 0 true c (t % 2147483648)) in
      subst (λ b. Reads (if b then k else pure c) [] c) (sym e) (Reads-pure c)
