-- ===== src/Kernel/Ts/Cache/AnnexB.antt =====
-- What a reader of the byte stream of ISO 14496-10, Annex B, finds in the video that
-- SrsTsMessageCache collects (src/kernel/srs_kernel_ts.cpp).
use srs_simple.Base.{
  ℕ, zero, suc, ◌≡◌, refl, ap, ◌∙◌, Bool, true, false, ◌&&◌, not, ◌==◌, if◌then◌else◌, List, [],
  ◌∷◌, ◌++◌, append_assoc, Option, none, some, arith,
}

unfoldable pub is_start : List ℕ → Bool
is_start (a ∷ b ∷ c ∷ rest) = a == 0 && (b == 0 && c == 1)
is_start _ = false

-- The NALUs of bytes, from the one whose first bytes are given, over the bytes of a start code that
-- are still ahead.
unfoldable pub scan : ℕ → List ℕ → List ℕ → List (List ℕ)
scan ahead nalu [] = nalu ∷ []
scan zero nalu (b ∷ bs) =
    if is_start (b ∷ bs) then nalu ∷ scan 2 [] bs else scan zero (nalu ++ (b ∷ [])) bs
scan (suc ahead) nalu (b ∷ bs) = scan ahead nalu bs

-- An access unit starts with a code of 4 bytes.
unfoldable pub read_annex_b : List ℕ → Option (List (List ℕ))
read_annex_b (a ∷ b ∷ c ∷ d ∷ rest) =
    if a == 0 && (b == 0 && (c == 0 && d == 1)) then some (scan 0 [] rest) else none
read_annex_b _ = none

-- A NALU holds no start code and ends in a byte that is not 0.
unfoldable pub is_nalu : List ℕ → Bool
is_nalu [] = false
is_nalu (b ∷ []) = not (b == 0)
is_nalu (b ∷ c ∷ bs) = not (is_start (b ∷ c ∷ bs)) && is_nalu (c ∷ bs)

-- What stands behind a NALU.
abbrev IsTail : List ℕ → Type 0
IsTail [] = Unit
IsTail (a ∷ t) = a ≡ 0

is_start-nalu :
    (b : ℕ) (bs t : List ℕ) → is_nalu (b ∷ bs) ≡ true → IsTail t → is_start (b ∷ (bs ++ t)) ≡ false
unfolding is_start is_nalu
is_start-nalu b [] [] h e = refl
is_start-nalu b [] (a ∷ []) h e = refl
is_start-nalu b [] (a ∷ a' ∷ t) h e = ground (arith, h)
is_start-nalu b (c ∷ []) [] h e = refl
is_start-nalu b (c ∷ []) (a ∷ t) h e = ground (arith, e)
is_start-nalu b (c ∷ d ∷ bs) t h e = ground (arith, h)

scan-step :
    (nalu : List ℕ) (b : ℕ) (bs : List ℕ)
    → is_start (b ∷ bs) ≡ false
    → scan 0 nalu (b ∷ bs) ≡ scan 0 (nalu ++ (b ∷ [])) bs
unfolding scan
scan-step nalu b bs h =
    ap (λ s. if s then nalu ∷ scan 2 [] bs else scan zero (nalu ++ (b ∷ [])) bs) h

is_nalu-tail : (b c : ℕ) (bs : List ℕ) → is_nalu (b ∷ c ∷ bs) ≡ true → is_nalu (c ∷ bs) ≡ true
unfolding is_nalu
is_nalu-tail b c bs h = ground (arith, h)

scan-nalu :
    (nalu : List ℕ) (b : ℕ) (bs t : List ℕ)
    → is_nalu (b ∷ bs) ≡ true
    → IsTail t
    → scan 0 nalu (b ∷ (bs ++ t)) ≡ scan 0 (nalu ++ (b ∷ bs)) t
scan-nalu nalu b [] t h e = scan-step nalu b t (is_start-nalu b [] t h e)
scan-nalu nalu b (c ∷ bs) t h e =
    scan-step nalu b ((c ∷ bs) ++ t) (is_start-nalu b (c ∷ bs) t h e)
    ∙ scan-nalu (nalu ++ (b ∷ [])) c bs t (is_nalu-tail b c bs h) e
    ∙ ap (λ l. scan 0 l t) (append_assoc nalu (b ∷ []) (c ∷ bs))

abbrev pub start_code : Bool → List ℕ
start_code false = 0 ∷ 0 ∷ 0 ∷ 1 ∷ []
start_code true = 0 ∷ 0 ∷ 1 ∷ []

-- NALUs as a byte stream, behind others or as the first ones.
abbrev pub annex_b : Bool → List (List ℕ) → List ℕ
annex_b a [] = []
annex_b a (n ∷ ns) = start_code a ++ (n ++ annex_b true ns)

abbrev pub AreNalus : List (List ℕ) → Type 0
AreNalus [] = Unit
AreNalus (n ∷ ns) = (is_nalu n ≡ true) × AreNalus ns

annex_b-IsTail : (ns : List (List ℕ)) → IsTail (annex_b true ns)
annex_b-IsTail [] = tt
annex_b-IsTail (n ∷ ns) = refl

scan-annex_b :
    (n : List ℕ) (ns : List (List ℕ))
    → is_nalu n ≡ true
    → AreNalus ns
    → scan 0 [] (n ++ annex_b true ns) ≡ n ∷ ns
unfolding scan is_nalu is_start
scan-annex_b [] ns h hs = absurd (ground (arith, h))
scan-annex_b (b ∷ bs) [] h hs = scan-nalu [] b bs [] h tt
scan-annex_b (b ∷ bs) (m ∷ ms) h hs =
    scan-nalu [] b bs (annex_b true (m ∷ ms)) h refl
    ∙ ap (λ l. (b ∷ bs) ∷ l) (scan-annex_b m ms hs.0 hs.1)

pub read_annex_b-annex_b :
    (n : List ℕ) (ns : List (List ℕ))
    → AreNalus (n ∷ ns)
    → read_annex_b (annex_b false (n ∷ ns)) ≡ some (n ∷ ns)
unfolding read_annex_b
read_annex_b-annex_b n ns h = ap some (scan-annex_b n ns h.0 h.1)
